-- ===== src/Match/Bounds.antt =====
-- parse_ip of src/runtime/matchers.cpp: how many bytes it writes.
use Prim.{Unit, tt}
use olproff_fastsbc_hmr.Base.{
  ℕ, zero, suc, ◌+◌, ◌-◌, ◌*◌, ◌/◌, ◌%◌, ◌≤◌, ◌<◌, Bool, true, false, Option, none, some, [], ◌∷◌,
  ◌++◌, ◌≡◌, refl, inl, inr, arith, ltb, ltb_false→le, leb_false→lt, leb, ◌==◌, ==_iff, length,
  length-append, take, drop, replicate, length-replicate, Bool-cases, Option-cases,
}
use olproff_fastsbc_hmr.Text.{Bytes, find, trim}
use olproff_fastsbc_hmr.Match.Address.{
  uint_loop, parse_uint, octet_end, ipv4_loop, parse_ipv4, hex_loop, v6_token, v6_loop,
  parse_v6_part, find_double, strip_zone, parse_ipv6, parse_ip, v6_tail, v6_hextet, is_some,
  join_parts, full_address,
}

abbrev pub AreBytes : Bytes → Type 0
AreBytes [] = Unit
AreBytes (x ∷ xs) = (x < 256) × AreBytes xs

AreBytes-append : (xs ys : Bytes) → AreBytes xs → AreBytes ys → AreBytes (xs ++ ys)
AreBytes-append [] ys h k = k
AreBytes-append (x ∷ xs) ys h k = (h.0, AreBytes-append xs ys h.1 k)

AreBytes-zeros : (n : ℕ) → AreBytes (replicate n 0)
AreBytes-zeros zero = tt
AreBytes-zeros (suc n) = (omega arith, AreBytes-zeros n)

uint_loop_le : (max v : ℕ) (s : Bytes) (n : ℕ) → v ≤ max → uint_loop max v s ≡ some n → n ≤ max
unfolding uint_loop
uint_loop_le max v [] n h e = ground arith
uint_loop_le max v (c ∷ s) n h e = ground (arith, uint_loop_le max (v * 10 + (c - b'0')) s n)

parse_uint_le : (s : Bytes) (max n : ℕ) → parse_uint s max ≡ some n → n ≤ max
unfolding parse_uint
parse_uint_le s max n e = ground (arith, uint_loop_le max 0 s n)

-- At most `k` bytes, each an octet.
pub record Octets (k : ℕ) (out : Bytes) : Type 0 where
  pub size : length out ≤ k
  pub octets : AreBytes out

Octets-append :
    {n k j : ℕ} (xs ys : Bytes)
    → Octets k xs
    → Octets j ys
    → length xs + length ys ≤ n
    → Octets n (xs ++ ys)
Octets-append xs ys h k le = record {
  size = omega (arith, length-append xs ys);
  octets = AreBytes-append xs ys h.octets k.octets;
}

Octets-one : (x : ℕ) → x < 256 → Octets 1 (x ∷ [])
Octets-one x h = record { size = omega arith; octets = (h, tt) }

octet_end-Octets :
    (out tok out' : Bytes) → octet_end out tok ≡ some out' → Octets 4 out → Octets 4 out'
unfolding octet_end
octet_end-Octets out tok out' e h = elim (Bool-cases (leb 4 (length out))) [
  | inl full ↦ absurd (ground (arith, rw (full, octet_end) at e))
  | inr room ↦ elim (Option-cases (parse_uint tok 255)) [
    | inl bad ↦ absurd (ground (arith, rw (room, bad, octet_end) at e))
    | inr (o, ok) ↦
        let eq : out ++ o ∷ [] ≡ out' = ground (arith, rw (room, ok, octet_end) at e) in
        rw (← eq) (
          Octets-append out (o ∷ []) h (Octets-one o (omega (arith, parse_uint_le tok 255 o ok)))
            (omega (arith, leb_false→lt 4 (length out) room)))
  ]
]

ipv4_loop-Octets :
    (out tok s out' : Bytes) → ipv4_loop out tok s ≡ some out' → Octets 4 out → Octets 4 out'
unfolding ipv4_loop
ipv4_loop-Octets out tok [] out' e h = octet_end-Octets out tok out' e h
ipv4_loop-Octets out tok (c ∷ s) out' e h = elim (Bool-cases (c == b'.')) [
  | inl dot ↦ elim (Option-cases (octet_end out tok)) [
    | inl bad ↦ absurd (ground (arith, rw (dot, bad, ipv4_loop) at e))
    | inr (next, ok) ↦
        ipv4_loop-Octets next [] s out' (rw (dot, ok, ipv4_loop) at e)
          (octet_end-Octets out tok next ok h)
  ]
  | inr more ↦ ipv4_loop-Octets out (tok ++ c ∷ []) s out' (rw (more, ipv4_loop) at e) h
]

-- Exactly `k` bytes.
pub record Address (k : ℕ) (bytes : Bytes) : Type 0 where
  pub size : length bytes ≡ k
  pub octets : AreBytes bytes

parse_ipv4-Address : (s b : Bytes) → parse_ipv4 s ≡ some b → Address 4 b
unfolding parse_ipv4
parse_ipv4-Address s b e = elim (Option-cases (ipv4_loop [] [] s)) [
  | inl bad ↦ absurd (ground (arith, rw (bad, parse_ipv4) at e))
  | inr (out, ok) ↦ elim (Bool-cases (length out == 4)) [
    | inl four ↦
        let eq : out ≡ b = ground (arith, rw (ok, four, parse_ipv4) at e) in
        rw (← eq) (record {
          size = (==_iff _ _).0 four;
          octets =
              (ipv4_loop-Octets [] [] s out ok (record { size = omega arith; octets = tt })).octets;
        })
    | inr other ↦ absurd (ground (arith, rw (ok, other, parse_ipv4) at e))
  ]
]

v6_tail-Octets :
    (out out' : Bytes) (o : Option Bytes)
    → v6_tail out o ≡ some out'
    → ((b : Bytes) → o ≡ some b → Address 4 b)
    → Octets 16 out
    → Octets 16 out'
v6_tail-Octets out out' none e k h = absurd (ground arith)
v6_tail-Octets out out' (some b) e k h = elim (Bool-cases (ltb 16 (length out + 4))) [
  | inl full ↦ absurd (ground (arith, rw full at e))
  | inr room ↦
      let eq : out ++ b ≡ out' = ground (arith, rw room at e) in
      let four = k b refl in
      rw (← eq) (
        Octets-append {k = 16} {j = 4} out b h
          (record { size = omega (arith, four.size); octets = four.octets })
          (omega (arith, four.size, ltb_false→le 16 (length out + 4) room)))
]

v6_hextet-Octets :
    (out out' : Bytes) (o : Option ℕ) → v6_hextet out o ≡ some out' → Octets 16 out → Octets 16 out'
v6_hextet-Octets out out' none e h = absurd (ground arith)
v6_hextet-Octets out out' (some v) e h = elim (Bool-cases (ltb 16 (length out + 2))) [
  | inl full ↦ absurd (ground (arith, rw full at e))
  | inr room ↦
      let eq : out ++ (v / 256 % 256) ∷ (v % 256) ∷ [] ≡ out' = ground (arith, rw room at e) in
      rw (← eq) (
        Octets-append {k = 16} {j = 2} out _ h
          (record { size = omega arith; octets = (omega arith, (omega arith, tt)) })
          (omega (arith, ltb_false→le 16 (length out + 2) room)))
]

v6_token-Octets :
    (last : Bool) (out tok out' : Bytes)
    → v6_token last out tok ≡ some out'
    → Octets 16 out
    → Octets 16 out'
unfolding v6_token
v6_token-Octets last out tok out' e h = elim (Bool-cases (length tok == 0)) [
  | inl nil ↦ absurd (ground (arith, rw (nil, v6_token) at e))
  | inr more ↦ elim (Bool-cases (is_some (find b'.' tok))) [
    | inl dotted ↦ elim (Bool-cases last) [
      | inl end ↦
          v6_tail-Octets out out' (parse_ipv4 tok) (rw (more, dotted, end, v6_token) at e)
            (parse_ipv4-Address tok) h
      | inr inner ↦ absurd (ground (arith, rw (more, dotted, inner, v6_token) at e))
    ]
    | inr plain ↦ elim (Bool-cases (ltb 4 (length tok))) [
      | inl long ↦ absurd (ground (arith, rw (more, plain, long, v6_token) at e))
      | inr short ↦
          v6_hextet-Octets out out' (hex_loop 0 tok) (rw (more, plain, short, v6_token) at e) h
    ]
  ]
]

v6_loop-Octets :
    (out tok s out' : Bytes) → v6_loop out tok s ≡ some out' → Octets 16 out → Octets 16 out'
unfolding v6_loop
v6_loop-Octets out tok [] out' e h = v6_token-Octets true out tok out' e h
v6_loop-Octets out tok (c ∷ s) out' e h = elim (Bool-cases (c == b':')) [
  | inl colon ↦ elim (Option-cases (v6_token false out tok)) [
    | inl bad ↦ absurd (ground (arith, rw (colon, bad, v6_loop) at e))
    | inr (next, ok) ↦
        v6_loop-Octets next [] s out' (rw (colon, ok, v6_loop) at e)
          (v6_token-Octets false out tok next ok h)
  ]
  | inr more ↦ v6_loop-Octets out (tok ++ c ∷ []) s out' (rw (more, v6_loop) at e) h
]

parse_v6_part-Octets : (s out : Bytes) → parse_v6_part s ≡ some out → Octets 16 out
unfolding parse_v6_part
parse_v6_part-Octets s out e = elim (Bool-cases (length s == 0)) [
  | inl nil ↦
      let eq : [] ≡ out = ground (arith, rw (nil, parse_v6_part) at e) in
      rw (← eq) (record { size = omega arith; octets = tt })
  | inr more ↦
      v6_loop-Octets [] [] s out (rw (more, parse_v6_part) at e)
        (record { size = omega arith; octets = tt })
]

full_address-Address : (s b : Bytes) → full_address (parse_v6_part s) ≡ some b → Address 16 b
full_address-Address s b e = elim (Option-cases (parse_v6_part s)) [
  | inl bad ↦ absurd (ground (arith, rw bad at e))
  | inr (out, ok) ↦ elim (Bool-cases (length out == 16)) [
    | inl full ↦
        let eq : out ≡ b = ground (arith, rw (ok, full) at e) in
        rw (← eq)
          (record { size = (==_iff _ _).0 full; octets = (parse_v6_part-Octets s out ok).octets })
    | inr other ↦ absurd (ground (arith, rw (ok, other) at e))
  ]
]

join_parts-Address :
    (head tail b : Bytes)
    → join_parts (parse_v6_part head) (parse_v6_part tail) ≡ some b
    → Address 16 b
join_parts-Address head tail b e = elim (Option-cases (parse_v6_part head)) [
  | inl bad ↦ absurd (ground (arith, rw bad at e))
  | inr (h, okh) ↦ elim (Option-cases (parse_v6_part tail)) [
    | inl bad ↦ absurd (ground (arith, rw (okh, bad) at e))
    | inr (t, okt) ↦ elim (Bool-cases (ltb 14 (length h + length t))) [
      | inl long ↦ absurd (ground (arith, rw (okh, okt, long) at e))
      | inr fits ↦
          let zeros = replicate (16 - length h - length t) 0 in
          let eq : h ++ (zeros ++ t) ≡ b = ground (arith, rw (okh, okt, fits) at e) in
          rw (← eq) (record {
            size = omega (
              arith,
              length-append h (zeros ++ t),
              length-append zeros t,
              length-replicate {A = ℕ} (16 - length h - length t) 0,
              ltb_false→le 14 (length h + length t) fits,
            );
            octets = AreBytes-append h (zeros ++ t) (parse_v6_part-Octets head h okh).octets (
                AreBytes-append zeros t (AreBytes-zeros _)
                  (parse_v6_part-Octets tail t okt).octets);
          })
    ]
  ]
]

parse_ipv6-Address : (text b : Bytes) → parse_ipv6 text ≡ some b → Address 16 b
unfolding parse_ipv6
parse_ipv6-Address text b e =
    let s = strip_zone text in
    elim (Bool-cases (length s == 0)) [
      | inl nil ↦ absurd (ground (arith, rw (nil, parse_ipv6) at e))
      | inr more ↦ elim (Option-cases (find_double s)) [
        | inl none_there ↦ full_address-Address s b (rw (more, none_there, parse_ipv6) at e)
        | inr (dc, there) ↦ elim (Bool-cases (is_some (find_double (drop (dc + 1) s)))) [
          | inl second ↦ absurd (ground (arith, rw (more, there, second, parse_ipv6) at e))
          | inr single ↦
              join_parts-Address (take dc s) (drop (dc + 2) s) b
                (rw (more, there, single, parse_ipv6) at e)
        ]
      ]
    ]

pub parse_ip_lem : (text : Bytes) → Address 16 (parse_ip text).bytes
unfolding parse_ip
parse_ip_lem text =
    let t = trim text in
    elim (Option-cases (parse_ipv4 t)) [
      | inr (b, ok) ↦
          let four = parse_ipv4-Address t b ok in
          rw (ok, parse_ip)
            (record {
              size = omega (arith, length-append b (replicate 12 0), four.size);
              octets = AreBytes-append b (replicate 12 0) four.octets (AreBytes-zeros 12);
            })
      | inl no_v4 ↦ elim (Option-cases (parse_ipv6 t)) [
        | inr (b, ok) ↦ rw (no_v4, ok, parse_ip) (parse_ipv6-Address t b ok)
        | inl no_v6 ↦
            rw (no_v4, no_v6, parse_ip) (record { size = refl; octets = AreBytes-zeros 16 })
      ]
    ]

-- What is in the buffer behind a write that was not refused ends within `k` bytes.
abbrev pub EndsWithin : ℕ → Option Bytes → Type 0
EndsWithin k none = Unit
EndsWithin k (some out) = length out ≤ k

octet_end-EndsWithin : (out tok : Bytes) → EndsWithin 4 (octet_end out tok)
unfolding octet_end
octet_end-EndsWithin out tok = elim (Bool-cases (leb 4 (length out))) [
  | inl full ↦ rw full tt
  | inr room ↦ elim (Option-cases (parse_uint tok 255)) [
    | inl bad ↦ rw (room, bad) tt
    | inr (o, ok) ↦
        rw (room, ok) (omega (arith, length-append out (o ∷ []), leb_false→lt 4 (length out) room))
  ]
]

v6_tail-EndsWithin :
    (out : Bytes) (o : Option Bytes)
    → ((b : Bytes) → o ≡ some b → Address 4 b)
    → EndsWithin 16 (v6_tail out o)
v6_tail-EndsWithin out none k = tt
v6_tail-EndsWithin out (some b) k = elim (Bool-cases (ltb 16 (length out + 4))) [
  | inl full ↦ rw full tt
  | inr room ↦
      rw room
        (omega (arith, length-append out b, (k b refl).size, ltb_false→le 16 (length out + 4) room))
]

v6_hextet-EndsWithin : (out : Bytes) (o : Option ℕ) → EndsWithin 16 (v6_hextet out o)
v6_hextet-EndsWithin out none = tt
v6_hextet-EndsWithin out (some v) = elim (Bool-cases (ltb 16 (length out + 2))) [
  | inl full ↦ rw full tt
  | inr room ↦ rw room (
      omega (
        arith,
        length-append out ((v / 256 % 256) ∷ (v % 256) ∷ []),
        ltb_false→le 16 (length out + 2) room,
      ))
]

v6_token-EndsWithin : (last : Bool) (out tok : Bytes) → EndsWithin 16 (v6_token last out tok)
unfolding v6_token
v6_token-EndsWithin last out tok = elim (Bool-cases (length tok == 0)) [
  | inl nil ↦ rw nil tt
  | inr more ↦ elim (Bool-cases (is_some (find b'.' tok))) [
    | inl dotted ↦ elim (Bool-cases last) [
      | inl end ↦
          rw (more, dotted, end) (v6_tail-EndsWithin out (parse_ipv4 tok) (parse_ipv4-Address tok))
      | inr inner ↦ rw (more, dotted, inner) tt
    ]
    | inr plain ↦ elim (Bool-cases (ltb 4 (length tok))) [
      | inl long ↦ rw (more, plain, long) tt
      | inr short ↦ rw (more, plain, short) (v6_hextet-EndsWithin out (hex_loop 0 tok))
    ]
  ]
]

-- Whatever the text, the address that parse_ip reads has exactly 16 bytes, each below 256. Whatever
-- stands in the buffers already, an octet that parse_ipv4 writes ends within its 4 bytes, and a hextet
-- or dotted tail that parse_v6_part writes ends within its 16 bytes.
pub parse_ip-Address :
    (text out tok : Bytes) (last : Bool)
    → Address 16 (parse_ip text).bytes
      × EndsWithin 4 (octet_end out tok)
      × EndsWithin 16 (v6_token last out tok)
parse_ip-Address text out tok last =
    (parse_ip_lem text, octet_end-EndsWithin out tok, v6_token-EndsWithin last out tok)
