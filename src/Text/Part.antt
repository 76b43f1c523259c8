-- ===== src/Text/Part.antt =====
-- Views as parts of the text that they are cut from.
use Prim.{Unit}
use olproff_fastsbc_hmr.Base.{
  ℕ, ◌+◌, ◌≤◌, ◌<◌, Bool, Option, none, some, [], ◌∷◌, ◌++◌, ◌≡◌, refl, sym, ap, ◌∙◌, inl, inr,
  arith, length, take, drop, length-append, length-take, take-append-drop, append-nil, append_assoc,
  Bool-cases, Option-cases,
}
use olproff_fastsbc_hmr.Text.{
  Bytes, rfind, trim_front, trim_back, keep_unless_last_blank, View, view_substr, view_from,
  view_trim,
}

pub record Part (value : Bytes) (v : View) : Type 0 where
  pub before : Bytes
  pub behind : Bytes
  pub splits : value ≡ before ++ (v.text ++ behind)
  pub at : length before ≡ v.off

abbrev pub whole_view : Bytes → View
whole_view value = record { off = 0; text = value }

pub Part-whole : (value : Bytes) → Part value (whole_view value)
Part-whole value = record { before = []; behind = []; splits = sym (append-nil value); at = refl }

-- A piece of a part, behind `x` and in front of `y`.
piece-Part :
    {value : Bytes} (v : View) (off : ℕ) (x t y : Bytes)
    → v.text ≡ x ++ (t ++ y)
    → off ≡ v.off + length x
    → Part value v
    → Part value (record { off = off; text = t })
piece-Part v off x t y e o h = record {
  before = h.before ++ x;
  behind = y ++ h.behind;
  splits = h.splits ∙ ap (λ s. h.before ++ (s ++ h.behind)) e ∙ simp append_assoc;
  at = omega (arith, length-append h.before x, h.at);
}

pub view_substr-Part :
    {value : Bytes} (v : View) (pos n : ℕ)
    → pos ≤ length v.text
    → Part value v
    → Part value (view_substr v pos n)
view_substr-Part v pos n le =
    piece-Part v _ (take pos v.text) _ (drop n (drop pos v.text))
      (sym (
        ap (λ s. take pos v.text ++ s) (take-append-drop n (drop pos v.text))
        ∙ take-append-drop pos v.text))
      (omega (arith, length-take pos v.text))

pub view_from-Part :
    {value : Bytes} (v : View) (pos : ℕ)
    → pos ≤ length v.text
    → Part value v
    → Part value (view_from v pos)
view_from-Part v pos le =
    piece-Part v _ (take pos v.text) _ []
      (sym (
        ap (λ s. take pos v.text ++ s) (append-nil (drop pos v.text))
        ∙ take-append-drop pos v.text))
      (omega (arith, length-take pos v.text))

trim_front-split : (p : ℕ → Bool) (s : Bytes) → (x : Bytes) × (s ≡ x ++ trim_front p s)
unfolding trim_front
trim_front-split p [] = ([], refl)
trim_front-split p (c ∷ s) = elim (Bool-cases (p c)) [
  | inl blank ↦ let (x, e) = trim_front-split p s in rw blank (c ∷ x, ap (λ t. c ∷ t) e)
  | inr other ↦ rw other ([], refl)
]

keep-split :
    (p : ℕ → Bool) (c : ℕ) (t y : Bytes)
    → (z : Bytes) × (c ∷ (t ++ y) ≡ keep_unless_last_blank p c t ++ z)
keep-split p c (d ∷ t) y = (y, refl)
keep-split p c [] y = elim (Bool-cases (p c)) [
  | inl blank ↦ rw blank (c ∷ y, refl)
  | inr other ↦ rw other (y, refl)
]

trim_back-split : (p : ℕ → Bool) (s : Bytes) → (y : Bytes) × (s ≡ trim_back p s ++ y)
unfolding trim_back
trim_back-split p [] = ([], refl)
trim_back-split p (c ∷ s) =
    let (y, e) = trim_back-split p s in
    let (z, f) = keep-split p c (trim_back p s) y in (z, ap (λ t. c ∷ t) e ∙ f)

pub view_trim-Part :
    {value : Bytes} (p q : ℕ → Bool) (v : View) → Part value v → Part value (view_trim p q v)
unfolding view_trim
view_trim-Part p q v =
    let t = trim_front p v.text in
    let (x, e) = trim_front-split p v.text in
    let (y, f) = trim_back-split q t in
    let size : length v.text ≡ length x + length t = ap length e ∙ length-append x t in
    piece-Part v _ x (trim_back q t) y (e ∙ ap (λ s. x ++ s) f) (omega (arith, size))

pub rfind_lt : (c : ℕ) (s : Bytes) (i : ℕ) → rfind c s ≡ some i → i < length s
unfolding rfind
rfind_lt c [] i h = absurd (ground arith)
rfind_lt c (x ∷ s) i h = elim (Option-cases (rfind c s)) [
  | inl none_there ↦ ground (arith, rw (none_there, rfind) at h)
  | inr (j, there) ↦ ground (arith, rw (there, rfind) at h, rfind_lt c s j there)
]

-- A part ends within the text.
pub Part-within : {value : Bytes} (v : View) → Part value v → v.off + length v.text ≤ length value
Part-within v h = omega (
  arith,
  ap length h.splits,
  length-append h.before (v.text ++ h.behind),
  length-append v.text h.behind,
  h.at,
)

abbrev pub OptionPart : Bytes → Option View → Type 0
OptionPart value none = Unit
OptionPart value (some v) = Part value v
