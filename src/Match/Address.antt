-- ===== src/Match/Address.antt =====
-- Addresses as text: parse_uint, parse_ipv4, parse_v6_part, parse_ipv6 and parse_ip of
-- src/runtime/matchers.cpp. The bytes written through `out` are a list, its length the index.
use mathlib.Core.Option
use olproff_fastsbc_hmr.Base.{
  ℕ, suc, ◌+◌, ◌-◌, ◌*◌, ◌/◌, ◌%◌, Bool, true, false, not, ◌&&◌, Option, none, some, [], ◌∷◌, ◌++◌,
  ltb, leb, ◌==◌, if◌then◌else◌, length, get_or, take, drop, replicate,
}
use olproff_fastsbc_hmr.Text.{Bytes, find, trim, substr}

unfoldable pub is_digit : ℕ → Bool
is_digit c = leb b'0' c && leb c b'9'

-- `none` is -1.
unfoldable pub hex_val : ℕ → Option ℕ
hex_val c =
    if leb b'0' c && leb c b'9'
    then some (c - b'0')
    else if leb b'a' c && leb c b'f'
    then some (c - b'a' + 10)
    else if leb b'A' c && leb c b'F'
    then some (c - b'A' + 10)
    else none

unfoldable pub uint_loop : ℕ → ℕ → Bytes → Option ℕ
unfolding is_digit
uint_loop max v [] = some v
uint_loop max v (c ∷ s) =
    let v' = v * 10 + (c - b'0') in
    let rest = uint_loop max v' s in
    if not (is_digit c) then none else if ltb max v' then none else rest

unfoldable pub parse_uint : Bytes → ℕ → Option ℕ
unfolding uint_loop
parse_uint s max = if length s == 0 then none else uint_loop max 0 s

-- What parse_ipv4 does at a '.' and at the end: `tok` becomes the next octet.
unfoldable pub octet_end : Bytes → Bytes → Option Bytes
unfolding parse_uint
octet_end out tok =
    if leb 4 (length out) then none else Option.map (λ o. out ++ o ∷ []) (parse_uint tok 255)

unfoldable pub ipv4_loop : Bytes → Bytes → Bytes → Option Bytes
unfolding octet_end
ipv4_loop out tok [] = octet_end out tok
ipv4_loop out tok (c ∷ s) = elim (c == b'.') [
  | true ↦ elim (octet_end out tok) [ none ↦ none | some out' ↦ ipv4_loop out' [] s ]
  | false ↦ ipv4_loop out (tok ++ c ∷ []) s
]

unfoldable pub parse_ipv4 : Bytes → Option Bytes
unfolding ipv4_loop
parse_ipv4 s = elim (ipv4_loop [] [] s) [
  | none ↦ none
  | some out ↦ if length out == 4 then some out else none
]

-- `value = (value << 4) | h` over a hextet
unfoldable pub hex_loop : ℕ → Bytes → Option ℕ
unfolding hex_val
hex_loop value [] = some value
hex_loop value (c ∷ s) = elim (hex_val c) [ none ↦ none | some h ↦ hex_loop (value * 16 + h) s ]

abbrev pub v6_tail : Bytes → Option Bytes → Option Bytes
v6_tail out none = none
v6_tail out (some o4) = if ltb 16 (length out + 4) then none else some (out ++ o4)

abbrev pub v6_hextet : Bytes → Option ℕ → Option Bytes
v6_hextet out none = none
v6_hextet out (some value) =
    if ltb 16 (length out + 2) then none else some (out ++ (value / 256 % 256) ∷ (value % 256) ∷ [])

abbrev pub is_some {ℓ} : {A : Type ℓ} → Option A → Bool
is_some none = false
is_some (some _) = true

-- One token of parse_v6_part; `last` is `i == part.size()`.
unfoldable pub v6_token : Bool → Bytes → Bytes → Option Bytes
unfolding find parse_ipv4 hex_loop
v6_token last out tok =
    if length tok == 0
    then none
    else if is_some (find b'.' tok)
    then if not last then none else v6_tail out (parse_ipv4 tok)
    else if ltb 4 (length tok)
    then none
    else v6_hextet out (hex_loop 0 tok)

unfoldable pub v6_loop : Bytes → Bytes → Bytes → Option Bytes
unfolding v6_token
v6_loop out tok [] = v6_token true out tok
v6_loop out tok (c ∷ s) = elim (c == b':') [
  | true ↦ elim (v6_token false out tok) [ none ↦ none | some out' ↦ v6_loop out' [] s ]
  | false ↦ v6_loop out (tok ++ c ∷ []) s
]

unfoldable pub parse_v6_part : Bytes → Option Bytes
unfolding v6_loop
parse_v6_part part = if length part == 0 then some [] else v6_loop [] [] part

-- find("::")
unfoldable pub find_double : Bytes → Option ℕ
find_double [] = none
find_double (c ∷ s) =
    if c == b':' && get_or s 0 0 == b':' then some 0 else Option.map suc (find_double s)

-- Brackets and a zone are taken off.
unfoldable pub strip_zone : Bytes → Bytes
unfolding find
strip_zone s =
    let inner =
      if leb 2 (length s) && (get_or s 0 0 == b'[' && get_or s (length s - 1) 0 == b']')
      then substr s 1 (length s - 2)
      else s in
    elim (find b'%' inner) [ none ↦ inner | some pct ↦ take pct inner ]

-- head and tail of an address around its "::"
abbrev pub join_parts : Option Bytes → Option Bytes → Option Bytes
join_parts none t = none
join_parts (some h) none = none
join_parts (some h) (some t) =
    if ltb 14 (length h + length t)
    then none
    else some (h ++ (replicate (16 - length h - length t) 0 ++ t))

abbrev pub full_address : Option Bytes → Option Bytes
full_address none = none
full_address (some b) = if length b == 16 then some b else none

unfoldable pub parse_ipv6 : Bytes → Option Bytes
unfolding strip_zone find_double parse_v6_part
parse_ipv6 text =
    let s = strip_zone text in
    if length s == 0 then none else elim (find_double s) [
      | none ↦ full_address (parse_v6_part s)
      | some dc ↦
          if is_some (find_double (drop (dc + 1) s))
          then none
          else join_parts (parse_v6_part (take dc s)) (parse_v6_part (drop (dc + 2) s))
    ]

pub data IpFamily : Type 0 where
  no_family v4 v6 : IpFamily

abbrev pub family_eq : IpFamily → IpFamily → Bool
family_eq no_family no_family = true
family_eq v4 v4 = true
family_eq v6 v6 = true
family_eq _ _ = false

-- `bytes` has 16 bytes; an IPv4 address takes the first four.
pub record IpAddr : Type 0 where
  pub family : IpFamily
  pub bytes : Bytes

unfoldable pub parse_ip : Bytes → IpAddr
unfolding trim parse_ipv4 parse_ipv6
parse_ip text =
    let t = trim text in
    let second : IpAddr = elim (parse_ipv6 t) [
      | some b ↦ record { family = v6; bytes = b }
      | none ↦ record { family = no_family; bytes = replicate 16 0 }
    ] in
    elim (parse_ipv4 t) [
      | some b ↦ record { family = v4; bytes = b ++ replicate 12 0 }
      | none ↦ second
    ]
