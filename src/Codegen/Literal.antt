-- ===== src/Codegen/Literal.antt =====
-- How a C++ compiler reads the body of a string literal, for the text of esc of
-- src/codegen/cpp_generator.cpp: simple escapes, and octal escapes of at most three digits.
use Prim.{Unit}
use olproff_fastsbc_hmr.Base.{
  ℕ, zero, suc, ◌+◌, ◌*◌, ◌-◌, ◌/◌, ◌%◌, ◌<◌, Bool, true, ◌||◌, ◌&&◌, Option, none, some, [], ◌∷◌,
  ◌++◌, ltb, leb, ◌==◌, if◌then◌else◌, ◌≡◌, refl, ap, ◌∙◌, inl, inr, arith, Bool-cases, ==_iff,
}
use olproff_fastsbc_hmr.Text.{Bytes}
use olproff_fastsbc_hmr.Codegen.Spelling.{esc_byte, esc, octal_escape}

-- Between characters, behind a backslash, or behind `n` more octal digits whose value so far is given.
pub data Reading : Type 0 where
  normal escape : Reading
  octal : ℕ → ℕ → Reading

abbrev is_octal : ℕ → Bool
is_octal c = leb b'0' c && leb c b'7'

abbrev push : ℕ → Option Bytes → Option Bytes
push c none = none
push c (some s) = some (c ∷ s)

-- The value of a simple escape.
abbrev simple : ℕ → Option ℕ
simple c =
    if c == b'n'
    then some b'\n'
    else if c == b'r'
    then some b'\r'
    else if c == b't'
    then some b'\t'
    else if c == b'\\' || c == b'"'
    then some c
    else none

abbrev push_simple : Option ℕ → Option Bytes → Option Bytes
push_simple none s = none
push_simple (some c) s = push c s

-- The bytes of the literal; `none` where the text is no body of a literal. A quote or a line end
-- within it is one such case; the escapes that esc does not write are others.
unfoldable pub read : Reading → Bytes → Option Bytes
read normal [] = some []
read escape [] = none
read (octal n v) [] = some (v ∷ [])
read normal (c ∷ s) =
    let escaped = read escape s in
    let plain = read normal s in
    if c == b'\\' then escaped else if c == b'"' || c == b'\n' then none else push c plain
read escape (c ∷ s) =
    let digits = read (octal 2 (c - b'0')) s in
    let plain = read normal s in if is_octal c then digits else push_simple (simple c) plain
read (octal zero v) (c ∷ s) =
    let escaped = read escape s in
    let plain = read normal s in
    push v (if c == b'\\' then escaped else if c == b'"' || c == b'\n' then none else push c plain)
read (octal (suc n) v) (c ∷ s) =
    let digits = read (octal n (8 * v + (c - b'0'))) s in
    let escaped = read escape s in
    let plain = read normal s in
    if is_octal c
    then digits
    else push v
        (if c == b'\\' then escaped else if c == b'"' || c == b'\n' then none else push c plain)

read_three : (v : ℕ) (s : Bytes) → read (octal 0 v) s ≡ push v (read normal s)
unfolding read
read_three v [] = refl
read_three v (c ∷ s) = refl

digit : (n : ℕ) → is_octal (b'0' + n % 8) ≡ true
digit n = ground arith

octal_escape-read :
    (c : ℕ) (s : Bytes) → c < 256 → read normal (octal_escape c ++ s) ≡ push c (read normal s)
unfolding read
octal_escape-read c s h =
    rw (digit (c / 64), digit (c / 8), digit c)
      (read_three _ s ∙ ap (λ v. push v (read normal s)) (omega (arith, h)))

esc_byte-read :
    (c : ℕ) (s : Bytes) → c < 256 → read normal (esc_byte c ++ s) ≡ push c (read normal s)
unfolding read esc_byte
esc_byte-read c s h = elim (Bool-cases (c == b'\\')) [
  | inl e ↦ rw ((==_iff c b'\\').0 e) refl
  | inr n ↦ rw n (elim (Bool-cases (c == b'"')) [
    | inl e ↦ rw ((==_iff c b'"').0 e) refl
    | inr q ↦ rw q (elim (Bool-cases (c == b'\n')) [
      | inl e ↦ rw ((==_iff c b'\n').0 e) refl
      | inr k ↦ rw k (elim (Bool-cases (c == b'\r')) [
        | inl e ↦ rw ((==_iff c b'\r').0 e) refl
        | inr r ↦ rw r (elim (Bool-cases (c == b'\t')) [
          | inl e ↦ rw ((==_iff c b'\t').0 e) refl
          | inr t ↦ rw t (elim (Bool-cases (ltb c 32 || leb 127 c)) [
            | inl o ↦ rw o (octal_escape-read c s h)
            | inr p ↦ rw p (rw (n, q, k) refl)
          ])
        ])
      ])
    ])
  ])
]

abbrev pub AreBytes : Bytes → Type 0
AreBytes [] = Unit
AreBytes (c ∷ s) = (c < 256) × AreBytes s

-- For every text of bytes: what esc writes between the quotes of a literal is read back by the rules
-- of C++ as that text, whatever bytes it has, a digit behind an octal escape included.
pub read-esc : (s : Bytes) → AreBytes s → read normal (esc s) ≡ some s
unfolding esc read
read-esc [] h = refl
read-esc (c ∷ s) h = esc_byte-read c (esc s) h.0 ∙ ap (push c) (read-esc s h.1)
