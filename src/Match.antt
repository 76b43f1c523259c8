-- ===== src/Match.antt =====
-- src/runtime/matchers.cpp and include/hmr/runtime/matchers.hpp: the matchers of match-val-type.
pub mod Address
pub mod Bounds
pub mod Range
pub mod Text
use Prim.Native.Nat.{compare, Ordering, bit_and}
use mathlib.Core.Option
use olproff_fastsbc_hmr.Base.{
  ℕ, zero, suc, ◌+◌, ◌-◌, ◌*◌, ◌/◌, ◌%◌, ◌^◌, Bool, true, false, not, ◌&&◌, ◌||◌, Option, none,
  some, [], ◌∷◌, ltb, leb, ◌==◌, if◌then◌else◌, length, take, drop, get_or,
}
use olproff_fastsbc_hmr.Text.{Bytes, same_text, same_folded, find, trim}
use Address.{IpFamily, no_family, v4, v6, IpAddr, parse_ip, parse_uint, family_eq}

-- std::memcmp of the first `n` bytes
unfoldable pub memcmp : ℕ → Bytes → Bytes → Ordering
memcmp zero xs ys = Ordering.eq
memcmp (suc n) [] ys = Ordering.eq
memcmp (suc n) (x ∷ xs) [] = Ordering.eq
memcmp (suc n) (x ∷ xs) (y ∷ ys) = elim (compare x y) [
  | Ordering.lt ↦ Ordering.lt
  | Ordering.eq ↦ memcmp n xs ys
  | Ordering.gt ↦ Ordering.gt
]

abbrev pub byte_len : IpAddr → ℕ
byte_len a = if family_eq a.family v4 then 4 else 16

abbrev pub width_bits : IpAddr → ℕ
width_bits a = if family_eq a.family v4 then 32 else 128

abbrev pub valid : IpAddr → Bool
valid a = not (family_eq a.family no_family)

unfoldable pub addr_cmp : IpAddr → IpAddr → Ordering
unfolding memcmp
addr_cmp a b = memcmp (byte_len a) a.bytes b.bytes

unfoldable pub match_exact : Bytes → Bytes → Bool → Bool
unfolding same_text same_folded
match_exact subject pattern case_insensitive =
    if not (length subject == length pattern)
    then false
    else if not case_insensitive
    then same_text subject pattern
    else same_folded subject pattern

abbrev is_eq : Ordering → Bool
is_eq o = elim o [ Ordering.eq ↦ true | _ ↦ false ]

unfoldable pub match_ip : Bytes → Bytes → Bool
unfolding parse_ip addr_cmp
match_ip subject pattern =
    let a = parse_ip subject in
    let b = parse_ip pattern in
    if not (valid a) || (not (valid b) || not (family_eq a.family b.family))
    then false
    else is_eq (addr_cmp a b)

-- One bit of a dotted netmask: `none` once a one follows a zero.
abbrev mask_bit : ℕ → ℕ → Option (Bool × ℕ) → Option (Bool × ℕ)
mask_bit byte bit none = none
mask_bit byte bit (some (seen_zero, prefix)) =
    if byte / 2 ^ bit % 2 == 1
    then if seen_zero then none else some (false, prefix + 1)
    else some (true, prefix)

-- The bits below `bit`, from the highest down.
unfoldable pub mask_bits : ℕ → ℕ → Option (Bool × ℕ) → Option (Bool × ℕ)
mask_bits byte zero st = st
mask_bits byte (suc bit) st = mask_bits byte bit (mask_bit byte bit st)

unfoldable pub mask_bytes : Bytes → Option (Bool × ℕ) → Option (Bool × ℕ)
unfolding mask_bits
mask_bytes [] st = st
mask_bytes (b ∷ bs) st = mask_bytes bs (mask_bits b 8 st)

-- The prefix length of the suffix: a contiguous dotted netmask of the network's family, or a number.
unfoldable pub prefix_of : IpAddr → Bytes → Option ℕ
unfolding parse_ip parse_uint mask_bytes
prefix_of net suffix =
    let dotted = parse_ip suffix in
    if valid dotted && family_eq dotted.family net.family
    then Option.map (λ r. r.1) (mask_bytes (take (byte_len dotted) dotted.bytes) (some (false, 0)))
    else parse_uint suffix (width_bits net)

-- static_cast<std::uint8_t>(0xFF << (8 - rem_bits))
abbrev pub mask_of : ℕ → ℕ
mask_of rem_bits = 255 * 2 ^ (8 - rem_bits) % 256

-- Whether the first `prefix` bits of two addresses are the same.
unfoldable pub same_prefix : ℕ → Bytes → Bytes → Bool
unfolding memcmp
same_prefix prefix subj net =
    let full_bytes = prefix / 8 in
    let rem_bits = prefix % 8 in
    let mask = mask_of rem_bits in
    if not (is_eq (memcmp full_bytes subj net))
    then false
    else if not (rem_bits == 0)
    then bit_and (get_or subj full_bytes 0) mask == bit_and (get_or net full_bytes 0) mask
    else true

unfoldable pub match_ip_mask : Bytes → Bytes → Bool
unfolding find trim parse_ip prefix_of same_prefix
match_ip_mask subject pattern = elim (find b'/' pattern) [
  | none ↦ false
  | some slash ↦
      let subj = parse_ip subject in
      let net = parse_ip (trim (take slash pattern)) in
      let prefix = prefix_of net (trim (drop (slash + 1) pattern)) in
      if not (valid subj) || (not (valid net) || not (family_eq subj.family net.family))
      then false
      else elim prefix [ none ↦ false | some p ↦ same_prefix p subj.bytes net.bytes ]
]

abbrev pub is_ge : Ordering → Bool
is_ge o = elim o [ Ordering.lt ↦ false | _ ↦ true ]

abbrev pub is_le : Ordering → Bool
is_le o = elim o [ Ordering.gt ↦ false | _ ↦ true ]

unfoldable pub match_ip_range : Bytes → Bytes → Bool
unfolding find trim parse_ip addr_cmp
match_ip_range subject pattern = elim (find b'-' pattern) [
  | none ↦ false
  | some dash ↦
      let lo = parse_ip (trim (take dash pattern)) in
      let hi = parse_ip (trim (drop (dash + 1) pattern)) in
      let subj = parse_ip subject in
      if not (valid lo) || (not (valid hi) || not (valid subj))
      then false
      else if not (family_eq lo.family hi.family) || not (family_eq lo.family subj.family)
      then false
      else is_ge (addr_cmp subj lo) && is_le (addr_cmp subj hi)
]

-- `if (s.size() > 1 && s.back() == '.') s.remove_suffix(1);`
unfoldable pub strip_root : Bytes → Bytes
strip_root s =
    if ltb 1 (length s) && get_or s (length s - 1) 0 == b'.' then take (length s - 1) s else s

unfoldable pub match_fqdn : Bytes → Bytes → Bool
unfolding strip_root same_folded
match_fqdn subject pattern =
    let s = strip_root subject in
    let p = strip_root pattern in
    if length s == 0 || length p == 0
    then false
    else if not (length s == length p)
    then false
    else same_folded s p
