-- ===== src/Parser/Escapes.antt =====
-- unescape_string of src/parser/parser.cpp and the STRING tokens of grammar/Hmr.g4.
use olproff_fastsbc_hmr.Base.{
  ℕ, suc, ◌-◌, Bool, true, false, ◌||◌, [], ◌∷◌, ◌++◌, ltb, ◌==◌, if◌then◌else◌, length, ◌≡◌, ◌∙◌,
  refl, take_front, Bool-cases, inl, inr, arith, length-append,
}
use olproff_fastsbc_hmr.Text.{Bytes}
use olproff_fastsbc_hmr.Parser.Reading.{escaped, unescape, unescape_string}

-- What a STRING cannot have but behind a backslash.
abbrev pub is_special : ℕ → Bool
is_special c = c == b'"' || c == b'\\' || c == b'\r' || c == b'\n'

-- The grammar's ( '\\' . | ~["\\\r\n] )*
pub data IsBody : Bytes → Type 0 where
  done : IsBody []
  escape : (e : ℕ) {s : Bytes} → IsBody s → IsBody (b'\\' ∷ e ∷ s)
  plain : (c : ℕ) {s : Bytes} → is_special c ≡ false → IsBody s → IsBody (c ∷ s)

abbrev pub quote : Bytes → Bytes
quote body = b'"' ∷ (body ++ b'"' ∷ [])

-- A line end is written as a letter, a quote or a backslash as itself.
abbrev letter : ℕ → ℕ
letter c = if c == b'\n' then b'n' else if c == b'\r' then b'r' else c

unfoldable pub written : Bytes → Bytes
written [] = []
written (c ∷ s) = (if is_special c then b'\\' ∷ letter c ∷ [] else c ∷ []) ++ written s

escaped-letter : (c : ℕ) → is_special c ≡ true → escaped (letter c) ≡ c
unfolding escaped
escaped-letter c h = ground arith

plain_lem : (c : ℕ) → is_special c ≡ false → (c == b'\\') ≡ false
plain_lem c h = ground arith

unescape_plain : (c : ℕ) (s : Bytes) → (c == b'\\') ≡ false → unescape (c ∷ s) ≡ c ∷ unescape s
unfolding unescape
unescape_plain c [] h = refl
unescape_plain c (e ∷ s) h = rw (h, unescape) refl

unescape_escape : (e : ℕ) (s : Bytes) → unescape (b'\\' ∷ e ∷ s) ≡ escaped e ∷ unescape s
unfolding unescape
unescape_escape e s = refl

unescape-written : (s : Bytes) → unescape (written s) ≡ s
unfolding written
unescape-written [] = unfold unescape in refl
unescape-written (c ∷ s) = elim (Bool-cases (is_special c)) [
  | inl special_ ↦
      rw
        (
          special_,
          unescape_escape (letter c) (written s),
          escaped-letter c special_,
          unescape-written s,
        )
        refl
  | inr plain_ ↦
      rw (plain_, unescape_plain c (written s) (plain_lem c plain_), unescape-written s) refl
]

written-IsBody : (s : Bytes) → IsBody (written s)
unfolding written
written-IsBody [] = done
written-IsBody (c ∷ s) = elim (Bool-cases (is_special c)) [
  | inl special_ ↦ rw special_ (escape (letter c) (written-IsBody s))
  | inr plain_ ↦ rw plain_ (plain c plain_ (written-IsBody s))
]

unescape-quote : (body : Bytes) → unescape_string (quote body) ≡ unescape body
unfolding unescape_string
unescape-quote body =
    let size : length (quote body) ≡ suc (suc (length body)) =
      omega (arith, length-append body (b'"' ∷ [])) in
    let short : ltb (suc (suc (length body))) 2 ≡ false = ground arith in
    let less : suc (suc (length body)) - 2 ≡ length body = omega arith in
    rw (size, short, less, take_front body (b'"' ∷ [])) refl

-- For every text there is a STRING of the grammar that is read as it: written with each quote, backslash
-- and line end behind a backslash, and between two quotes, it is such a token, and unescape_string gives
-- the text.
pub unescape_string-written :
    (s : Bytes) → IsBody (written s) × (unescape_string (quote (written s)) ≡ s)
unescape_string-written s = (written-IsBody s, unescape-quote (written s) ∙ unescape-written s)
