-- ===== src/Sip/Wire.antt =====
-- The wire form of a message, and serialize (src/runtime/sip_message.cpp).
use native.Mathlib.Nat.{zero-add, add-zero}
use olproff_fastsbc_hmr.Base.{
  ℕ, zero, suc, ◌+◌, ◌≤◌, ◌<◌, ◌^◌, true, false, not, ◌&&◌, none, some, List, [], ◌∷◌, ◌++◌, ◌≡◌,
  refl, ap, ap₂, ◌∙◌, inl, inr, ◌⊎◌, arith, ◌==◌, if◌then◌else◌, length, take, drop, u32, u32_small,
  sub32, sub32_small, Bool-cases, length-append, append-nil, append_assoc, nil_of_length, ==_iff,
}
use olproff_fastsbc_hmr.Text.{Bytes}
use olproff_fastsbc_hmr.Arena.{arena, HmrStr, null_str, HmrArena, capacity, alloc, memcpy, read, sv}
use olproff_fastsbc_hmr.Arena.Frame.{
  IsFit, InMemory, Extends, Extends-refl, Extends-trans, alloc-cases, memcpy-Extends, read-memcpy,
  sv-Extends,
}
use olproff_fastsbc_hmr.Sip.{Header, HmrSipMsg}
use olproff_fastsbc_hmr.Sip.Field.{present}
use olproff_fastsbc_hmr.Sip.Serialize.{
  Output, put, crlf, distance, separator, put_start, put_header, put_headers, put_message,
  serialize,
}
use olproff_fastsbc_hmr.Sip.Live.{live, AllIn, InArray}
use olproff_fastsbc_hmr.Sip.Spec.{Headers}
use olproff_fastsbc_hmr.Sip.Headers.{IsValid, live_headers}

-- The first line: with the overriding request-URI in place of the one that was parsed, or as it came.
abbrev pub wire_start : HmrSipMsg → HmrArena → Bytes
wire_start m a =
    let off = distance m.request_uri.ptr m.start_line.ptr in
    let line = sv m.packet a m.start_line in
    if m.is_request && (present m.mod_request_uri && present m.request_uri)
    then (take off line ++ sv m.packet a m.mod_request_uri) ++ drop (off + m.request_uri.len) line
    else line

abbrev pub wire_headers : Headers → Bytes
wire_headers [] = []
wire_headers ((n, v) ∷ hs) = n ++ (b':' ∷ b' ' ∷ (v ++ (crlf ++ wire_headers hs)))

abbrev pub wire : HmrSipMsg → HmrArena → Bytes
wire m a =
    (((wire_start m a ++ crlf) ++ wire_headers (live_headers m a)) ++ crlf) ++ sv m.packet a m.body

suc_add : (n k : ℕ) → suc n + k ≡ suc (n + k)
suc_add n k = omega arith

add_suc : (n k : ℕ) → n + suc k ≡ suc n + k
add_suc n k = omega arith

read-append : (f : ℕ → ℕ) (off n k : ℕ) → read f off (n + k) ≡ read f off n ++ read f (off + n) k
unfolding read
read-append f off zero k = rw (zero-add k, add-zero off)
read-append f off (suc n) k =
    rw (suc_add n k, add_suc off n) (ap (λ l. f off ∷ l) (read-append f (suc off) n k))

read_joined :
    (f : ℕ → ℕ) (off : ℕ) (t s : Bytes) (u : ℕ)
    → u ≡ off + length t
    → read f off (length t) ≡ t
    → read f u (length s) ≡ s
    → read f off (length (t ++ s)) ≡ t ++ s
read_joined f off t s u e p q =
    rw (length-append t s, read-append f off (length t) (length s), ← e) (ap₂ ◌++◌ p q)

-- What is written from the start in `a` on is `t`; or `t` has no room.
pub data Emitted (a : HmrArena) (o : Output) (t : Bytes) : Type 0 where
  written :
      o.ok ≡ true
      → Extends a o.arena
      → o.arena.used ≡ a.used + length t
      → read o.arena.buffer a.used (length t) ≡ t
      → Emitted a o t
  failed : o.ok ≡ false → capacity < a.used + length t → Emitted a o t

put_failed : (s : Bytes) (o : Output) → o.ok ≡ false → put s o ≡ o
unfolding put
put_failed s o h = ground arith

put_nil : (o : Output) → put [] o ≡ o
unfolding put
put_nil o = ground arith

put_full :
    (s : Bytes) (o : Output)
    → o.ok ≡ true
    → (length s == 0) ≡ false
    → alloc (u32 (length s)) o.arena ≡ (none, o.arena)
    → put s o ≡ record { ok = false; arena = o.arena }
unfolding put
put_full s o ok more full = rw (ok, more) (rw full)

put_fits :
    (s : Bytes) (o : Output) (a : HmrArena)
    → o.ok ≡ true
    → (length s == 0) ≡ false
    → alloc (u32 (length s)) o.arena ≡ (some o.arena.used, a)
    → put s o ≡ record { ok = true; arena = memcpy o.arena.used s a }
unfolding put
put_fits s o a ok more fits = rw (ok, more) (rw fits)

header_joined :
    (t n v rest : Bytes)
    → ((((t ++ n) ++ separator) ++ v) ++ crlf) ++ rest
      ≡ t ++ (n ++ (b':' ∷ b' ' ∷ (v ++ (crlf ++ rest))))
header_joined t n v rest = simp append_assoc

module _ {a : HmrArena} where
  -- One more piece behind what is written.
  Emitted-piece :
      (o : Output) (t s : Bytes)
      → length s < 2 ^ 32
      → o.ok ≡ true
      → Extends a o.arena
      → o.arena.used ≡ a.used + length t
      → read o.arena.buffer a.used (length t) ≡ t
      → (length s == 0) ≡ false
      → Emitted a (put s o) (t ++ s)
  Emitted-piece o t s small ok e u r more = elim (alloc-cases (length s) o.arena e.fit) [
    | inl (no_room, full) ↦
        rw (put_full s o ok more (rw (u32_small (length s) small) full))
          (failed refl (omega (arith, length-append {0} t s)))
    | inr (room, fits) ↦
        rw
          (put_fits s o (record (o.arena) { used = o.arena.used + length s }) ok more
            (rw (u32_small (length s) small) fits))
          (let step = memcpy-Extends o.arena s room in
            written refl (Extends-trans e step)
              (unfold memcpy in omega (arith, u, length-append {0} t s))
              (read_joined _ a.used t s o.arena.used u
                (step.keeps a.used (length t) (omega arith) ∙ r)
                (read-memcpy o.arena s (o.arena.used + length s))))
  ]

  Emitted-put :
      (o : Output) (t s s' : Bytes)
      → length t + length s < 2 ^ 32
      → (o.ok ≡ true → s' ≡ s)
      → Emitted a o t
      → Emitted a (put s' o) (t ++ s)
  Emitted-put o t s s' small same (failed f no_room) =
      rw (put_failed s' o f) (failed f (omega (arith, length-append {0} t s)))
  Emitted-put o t s s' small same (written ok e u r) =
      rw (same ok) (elim (Bool-cases (length s == 0)) [
        | inl nil ↦
            rw (nil_of_length s ((==_iff _ _).0 nil), put_nil o, append-nil) (written ok e u r)
        | inr more ↦ Emitted-piece o t s (omega arith) ok e u r more
      ])

  -- A slice of the message, read when its turn comes.
  Emitted-slice :
      (packet : Bytes) (o : Output) (t : Bytes) (d : HmrStr)
      → length t + length (sv packet a d) < 2 ^ 32
      → InMemory packet a d
      → Emitted a o t
      → Emitted a (put (sv packet o.arena d) o) (t ++ sv packet a d)
  Emitted-slice packet o t d small inside (written ok e u r) =
      Emitted-put o t _ _ small (λ _. sv-Extends packet d e inside) (written ok e u r)
  Emitted-slice packet o t d small inside (failed f n) =
      rw (put_failed (sv packet o.arena d) o f)
        (failed f (omega (arith, length-append {0} t (sv packet a d))))

  -- The four pieces of a header line.
  Emitted-header :
      (packet : Bytes) (h : Header) (o : Output) (t : Bytes)
      → length t + (length (sv packet a h.name) + (length (sv packet a h.value) + 4)) < 2 ^ 32
      → InArray packet a h
      → Emitted a o t
      → Emitted a
          (put_header packet h o)
          ((((t ++ sv packet a h.name) ++ separator) ++ sv packet a h.value) ++ crlf)
  unfolding put_header
  Emitted-header packet h o t small inside w =
      let w1 = Emitted-slice packet o t h.name (omega arith) inside.name w in
      let w2 =
        Emitted-put _ _ separator separator (omega (arith, length-append {0})) (λ _. refl) w1 in
      let w3 =
        Emitted-slice packet _ _ h.value (omega (arith, length-append {0})) inside.value w2 in
      Emitted-put _ _ crlf crlf (omega (arith, length-append {0})) (λ _. refl) w3

  Emitted-headers :
      (packet : Bytes) (hs : List Header) (o : Output) (t : Bytes)
      → length t + length (wire_headers (live packet a hs)) < 2 ^ 32
      → AllIn packet a hs
      → Emitted a o t
      → Emitted a (put_headers packet hs o) (t ++ wire_headers (live packet a hs))
  unfolding put_headers
  Emitted-headers packet [] o t small inside w = rw append-nil w
  Emitted-headers packet (h ∷ hs) o t small inside w = elim (Bool-cases h.removed) [
    | inl gone ↦ rw gone (Emitted-headers packet hs o t (rw gone at small) inside.1 w)
    | inr here ↦
        let n = sv packet a h.name in
        let v = sv packet a h.value in
        let rest = wire_headers (live packet a hs) in
        let room : length t + length (n ++ (b':' ∷ b' ' ∷ (v ++ (crlf ++ rest)))) < 2 ^ 32 =
          rw here at small in
        rw here (
          rw (← header_joined t n v rest) (
            Emitted-headers packet hs (put_header packet h o) _ (omega (arith, length-append {0}))
              inside.1 (Emitted-header packet h o t (omega (arith, length-append {0})) inside.0 w)))
  ]

-- Nothing is written yet.
abbrev begun : HmrArena → Output
begun a = record { ok = true; arena = a }

Emitted-begun : (a : HmrArena) → IsFit a → Emitted a (begun a) []
Emitted-begun a fit = written refl (Extends-refl fit) (omega arith) (unfold read in refl)

module _ (m : HmrSipMsg) (a : HmrArena) (h : IsValid m a) where
  Emitted-start :
      length (wire_start m a) < 2 ^ 32 → Emitted a (put_start m (begun a)) (wire_start m a)
  unfolding put_start
  Emitted-start small =
      elim (Bool-cases (m.is_request && (present m.mod_request_uri && present m.request_uri))) [
        | inl spliced ↦
            let room = rw spliced at small in
            rw spliced (
              Emitted-put _ _ _ _ (omega (arith, length-append {0})) (λ _. refl)
                (Emitted-slice m.packet _ _ m.mod_request_uri (omega (arith, length-append {0}))
                  h.lines.mod_request_uri
                  (Emitted-put _ [] _ _ (omega (arith, length-append {0})) (λ _. refl)
                    (Emitted-begun a h.fit))))
        | inr plain ↦ rw plain (
            Emitted-put _ [] _ _ (omega (arith, rw plain at small)) (λ _. refl)
              (Emitted-begun a h.fit))
      ]

  Emitted-message : length (wire m a) < 2 ^ 32 → Emitted a (put_message m (begun a)) (wire m a)
  unfolding put_message
  Emitted-message small =
      let w1 = Emitted-start (omega (arith, length-append {0})) in
      let w2 = Emitted-put _ _ crlf crlf (omega (arith, length-append {0})) (λ _. refl) w1 in
      let w3 =
        Emitted-headers m.packet m.headers _ _ (omega (arith, length-append {0})) h.headers w2 in
      let w4 = Emitted-put _ _ crlf crlf (omega (arith, length-append {0})) (λ _. refl) w3 in
      Emitted-slice m.packet _ _ m.body (omega (arith, length-append {0})) h.lines.body w4

-- What serialize gives when the wire form has room, and when it has none.
abbrev pub Serialized : HmrSipMsg → HmrArena → HmrStr × HmrArena → Type 0
Serialized m a (s, a') =
    ((sv m.packet a' s ≡ wire m a)
      × Extends a a'
      × (s.len ≡ length (wire m a))
      × (a.used + length (wire m a) ≤ capacity))
    ⊎ ((s ≡ null_str) × (capacity < a.used + length (wire m a)))

-- The end of serialize, from what was written.
serialized :
    (m : HmrSipMsg) (a : HmrArena) (o : Output)
    → Emitted a o (wire m a)
    → Serialized m a (
        if not o.ok
        then (null_str, o.arena)
        else (record { ptr = arena a.used; len = sub32 o.arena.used a.used }, o.arena))
serialized m a o (failed f no_room) = rw f (inr (refl, no_room))
serialized m a o (written ok e u r) =
    let len : sub32 o.arena.used a.used ≡ length (wire m a) =
      sub32_small o.arena.used a.used e.grows (omega (arith, e.fit)) ∙ omega (arith, u) in
    rw ok (rw len (inl (unfold sv in r, e, refl, omega (arith, e.fit, u))))

-- On a valid message whose wire form is shorter than 2 ^ 32 bytes: serialize gives a string that reads
-- as the wire form and changes nothing that was in use in the arena, or gives the null string if the
-- wire form does not fit behind what is in use.
pub serialize-wire :
    (m : HmrSipMsg) (a : HmrArena)
    → IsValid m a
    → length (wire m a) < 2 ^ 32
    → Serialized m a (serialize m a)
unfolding serialize
serialize-wire m a h small = serialized m a _ (Emitted-message m a h small)
