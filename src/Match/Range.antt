-- ===== src/Match/Range.antt =====
-- match_ip_range of src/runtime/matchers.cpp, against the numbers that the addresses are.
use Prim.Native.Nat.{compare, Ordering}
use Prim.Native.Nat.compare
use native.Mathlib.Nat.{mul-le-mul_right, pow-suc}
use olproff_fastsbc_hmr.Base.{
  ℕ, zero, suc, ◌+◌, ◌*◌, ◌^◌, ◌≤◌, ◌<◌, ◌≡◌, ◌⊎◌, Bool, false, not, ◌&&◌, ◌||◌, none, some, [],
  ◌∷◌, refl, sym, ap, ◌∙◌, inl, inr, arith, ap₂, leb, le→leb, lt→leb_false, if◌then◌else◌, length,
  take, drop, Option-cases,
}
use olproff_fastsbc_hmr.Text.{Bytes, find, trim}
use olproff_fastsbc_hmr.Match.{memcmp, byte_len, valid, addr_cmp, is_ge, is_le, match_ip_range}
use olproff_fastsbc_hmr.Match.Address.{IpFamily, no_family, v4, v6, IpAddr, family_eq, parse_ip}
use olproff_fastsbc_hmr.Match.Bounds.{AreBytes, Address, parse_ip_lem}

compare-cases :
    (x y : ℕ)
    → ((x < y) × (compare x y ≡ Ordering.lt))
      ⊎ (((x ≡ y) × (compare x y ≡ Ordering.eq)) ⊎ ((y < x) × (compare x y ≡ Ordering.gt)))
compare-cases zero zero = ground arith
compare-cases zero (suc y) = ground arith
compare-cases (suc x) zero = ground arith
compare-cases (suc x) (suc y) = elim (compare-cases x y) [
  | inl (l, e) ↦ inl (omega (arith, l), step ∙ e)
  | inr (inl (s, e)) ↦ inr (inl (ap suc s, step ∙ e))
  | inr (inr (g, e)) ↦ inr (inr (omega (arith, g), step ∙ e))
]
  where
    step : compare (suc x) (suc y) ≡ compare x y
    step = λ i. compare.suc-suc x y i

compare_lt : (x y : ℕ) → x < y → compare x y ≡ Ordering.lt
compare_lt x y h = elim (compare-cases x y) [
  | inl (l, e) ↦ e
  | inr (inl (s, e)) ↦ absurd (omega (arith, s))
  | inr (inr (g, e)) ↦ absurd (omega (arith, g))
]

compare_gt : (x y : ℕ) → y < x → compare x y ≡ Ordering.gt
compare_gt x y h = elim (compare-cases x y) [
  | inl (l, e) ↦ absurd (omega (arith, l))
  | inr (inl (s, e)) ↦ absurd (omega (arith, s))
  | inr (inr (g, e)) ↦ e
]

-- A common summand does not matter.
compare-add : (k x y : ℕ) → compare (k + x) (k + y) ≡ compare x y
compare-add k x y = elim (compare-cases x y) [
  | inl (l, e) ↦ compare_lt (k + x) (k + y) (omega (arith, l)) ∙ sym e
  | inr (inl (s, e)) ↦ rw s (elim (compare-cases (k + y) (k + y)) [
    | inl (l, _) ↦ absurd (omega (arith, l))
    | inr (inl (_, f)) ↦ f ∙ sym (ap (λ z. compare z y) (sym s) ∙ e)
    | inr (inr (g, _)) ↦ absurd (omega (arith, g))
  ])
  | inr (inr (g, e)) ↦ compare_gt (k + x) (k + y) (omega (arith, g)) ∙ sym e
]

-- The first `n` bytes as a number, the first byte the highest.
unfoldable pub number : ℕ → Bytes → ℕ
number zero xs = 0
number (suc n) [] = 0
number (suc n) (x ∷ xs) = x * 256 ^ n + number n xs

number_lt : (n : ℕ) (xs : Bytes) → AreBytes xs → n ≤ length xs → number n xs < 256 ^ n
unfolding number
number_lt zero xs h le = omega arith
number_lt (suc n) [] h le = absurd (omega arith)
number_lt (suc n) (x ∷ xs) h le =
    omega (arith, mul-le-mul_right (256 ^ n) h.0, number_lt n xs h.1 (omega arith), pow-suc 256 n)

memcmp-number :
    (n : ℕ) (xs ys : Bytes)
    → AreBytes xs
    → AreBytes ys
    → n ≤ length xs
    → n ≤ length ys
    → memcmp n xs ys ≡ compare (number n xs) (number n ys)
unfolding memcmp number
memcmp-number zero xs ys h k le le' = refl
memcmp-number (suc n) [] ys h k le le' = absurd (omega arith)
memcmp-number (suc n) (x ∷ xs) [] h k le le' = absurd (omega arith)
memcmp-number (suc n) (x ∷ xs) (y ∷ ys) h k le le' =
    let bx = number_lt n xs h.1 (omega arith) in
    let by = number_lt n ys k.1 (omega arith) in
    elim (compare-cases x y) [
      | inl (l, e) ↦
          rw (e, memcmp) (sym (compare_lt _ _ (omega (arith, mul-le-mul_right (256 ^ n) l, bx))))
      | inr (inl (s, e)) ↦
          rw (e, memcmp)
            (memcmp-number n xs ys h.1 k.1 (omega arith) (omega arith)
              ∙ sym (
                  ap (λ z. compare (x * 256 ^ n + number n xs) (z * 256 ^ n + number n ys)) (sym s)
                  ∙ compare-add (x * 256 ^ n) (number n xs) (number n ys)))
      | inr (inr (g, e)) ↦
          rw (e, memcmp) (sym (compare_gt _ _ (omega (arith, mul-le-mul_right (256 ^ n) g, by))))
    ]

is_ge-compare : (x y : ℕ) → is_ge (compare x y) ≡ leb y x
is_ge-compare x y = elim (compare-cases x y) [
  | inl (l, e) ↦ rw e (sym (lt→leb_false x y l))
  | inr (inl (s, e)) ↦ rw e (sym (le→leb y x (omega (arith, s))))
  | inr (inr (g, e)) ↦ rw e (sym (le→leb y x (omega (arith, g))))
]

is_le-compare : (x y : ℕ) → is_le (compare x y) ≡ leb x y
is_le-compare x y = elim (compare-cases x y) [
  | inl (l, e) ↦ rw e (sym (le→leb x y (omega (arith, l))))
  | inr (inl (s, e)) ↦ rw e (sym (le→leb x y (omega (arith, s))))
  | inr (inr (g, e)) ↦ rw e (sym (lt→leb_false y x g))
]

-- The number of an address: of its four bytes, or of its sixteen.
abbrev pub address_number : IpAddr → ℕ
address_number a = number (byte_len a) a.bytes

-- All three are addresses of one family, and the numbers are in order.
abbrev pub in_range : IpAddr → IpAddr → IpAddr → Bool
in_range lo hi subj =
    (valid lo && (family_eq lo.family hi.family && family_eq lo.family subj.family))
    && (leb (address_number lo) (address_number subj)
        && leb (address_number subj) (address_number hi))

-- What the code computes from the three addresses.
abbrev compared : IpAddr → IpAddr → IpAddr → Bool
compared lo hi subj =
    if not (valid lo) || (not (valid hi) || not (valid subj))
    then false
    else if not (family_eq lo.family hi.family) || not (family_eq lo.family subj.family)
    then false
    else is_ge (addr_cmp subj lo) && is_le (addr_cmp subj hi)

addr_cmp-number :
    (a b : IpAddr)
    → Address 16 a.bytes
    → Address 16 b.bytes
    → byte_len a ≤ 16
    → addr_cmp a b ≡ compare (address_number a) (number (byte_len a) b.bytes)
unfolding addr_cmp
addr_cmp-number a b h k le =
    memcmp-number (byte_len a) a.bytes b.bytes h.octets k.octets (omega (arith, h.size))
      (omega (arith, k.size))

-- An address of that family.
abbrev of : IpFamily → Bytes → IpAddr
of f b = record { family = f; bytes = b }

ordered :
    (lo hi subj : IpAddr)
    → Address 16 lo.bytes
    → Address 16 hi.bytes
    → Address 16 subj.bytes
    → byte_len subj ≤ 16
    → (is_ge (addr_cmp subj lo) && is_le (addr_cmp subj hi)) ≡ (
        leb (number (byte_len subj) lo.bytes) (address_number subj)
        && leb (address_number subj) (number (byte_len subj) hi.bytes))
ordered lo hi subj hl hh hs le =
    ap₂ ◌&&◌ (ap is_ge (addr_cmp-number subj lo hs hl le) ∙ is_ge-compare _ _)
      (ap is_le (addr_cmp-number subj hi hs hh le) ∙ is_le-compare _ _)

compared-in_range :
    (fl fh fs : IpFamily) (bl bh bs : Bytes)
    → Address 16 bl
    → Address 16 bh
    → Address 16 bs
    → compared (of fl bl) (of fh bh) (of fs bs) ≡ in_range (of fl bl) (of fh bh) (of fs bs)
compared-in_range v4 v4 v4 bl bh bs hl hh hs =
    ordered (of v4 bl) (of v4 bh) (of v4 bs) hl hh hs (omega arith)
compared-in_range v6 v6 v6 bl bh bs hl hh hs =
    ordered (of v6 bl) (of v6 bh) (of v6 bs) hl hh hs (omega arith)
compared-in_range no_family no_family no_family bl bh bs hl hh hs = refl
compared-in_range no_family no_family v4 bl bh bs hl hh hs = refl
compared-in_range no_family no_family v6 bl bh bs hl hh hs = refl
compared-in_range no_family v4 no_family bl bh bs hl hh hs = refl
compared-in_range no_family v4 v4 bl bh bs hl hh hs = refl
compared-in_range no_family v4 v6 bl bh bs hl hh hs = refl
compared-in_range no_family v6 no_family bl bh bs hl hh hs = refl
compared-in_range no_family v6 v4 bl bh bs hl hh hs = refl
compared-in_range no_family v6 v6 bl bh bs hl hh hs = refl
compared-in_range v4 no_family no_family bl bh bs hl hh hs = refl
compared-in_range v4 no_family v4 bl bh bs hl hh hs = refl
compared-in_range v4 no_family v6 bl bh bs hl hh hs = refl
compared-in_range v4 v4 no_family bl bh bs hl hh hs = refl
compared-in_range v4 v4 v6 bl bh bs hl hh hs = refl
compared-in_range v4 v6 no_family bl bh bs hl hh hs = refl
compared-in_range v4 v6 v4 bl bh bs hl hh hs = refl
compared-in_range v4 v6 v6 bl bh bs hl hh hs = refl
compared-in_range v6 no_family no_family bl bh bs hl hh hs = refl
compared-in_range v6 no_family v4 bl bh bs hl hh hs = refl
compared-in_range v6 no_family v6 bl bh bs hl hh hs = refl
compared-in_range v6 v4 no_family bl bh bs hl hh hs = refl
compared-in_range v6 v4 v4 bl bh bs hl hh hs = refl
compared-in_range v6 v4 v6 bl bh bs hl hh hs = refl
compared-in_range v6 v6 no_family bl bh bs hl hh hs = refl
compared-in_range v6 v6 v4 bl bh bs hl hh hs = refl

-- match_ip_range holds exactly where the pattern has a dash, the texts around it and the subject are
-- addresses of one family, and the number of the subject's address lies between the two others.
pub match_ip_range-in_range :
    (subject pattern : Bytes)
    → match_ip_range subject pattern ≡ elim (find b'-' pattern) [
      | none ↦ false
      | some dash ↦
          in_range
            (parse_ip (trim (take dash pattern)))
            (parse_ip (trim (drop (dash + 1) pattern)))
            (parse_ip subject)
    ]
unfolding match_ip_range
match_ip_range-in_range subject pattern = elim (Option-cases (find b'-' pattern)) [
  | inl absent ↦ rw (absent, match_ip_range) refl
  | inr (dash, found) ↦
      let lo = trim (take dash pattern) in
      let hi = trim (drop (dash + 1) pattern) in
      rw (found, match_ip_range)
        (compared-in_range (parse_ip lo).family (parse_ip hi).family (parse_ip subject).family _ _ _
          (parse_ip_lem lo) (parse_ip_lem hi) (parse_ip_lem subject))
]
