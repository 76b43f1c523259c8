-- ===== src/Text/Bounds.antt =====
-- Where searches and cuts of a text end.
use olproff_fastsbc_hmr.Base.{
  ℕ, suc, ◌+◌, ◌-◌, ◌≤◌, ◌<◌, Bool, some, [], ◌∷◌, ◌≡◌, arith, length, drop, length-take,
  length-drop,
}
use olproff_fastsbc_hmr.Text.{
  Bytes, find, find_from, trim_front, trim_back, keep_unless_last_blank, View, view_substr,
  view_from, view_trim,
}

pub find_lt : (c : ℕ) (s : Bytes) (i : ℕ) → find c s ≡ some i → i < length s
unfolding find
find_lt c [] i h = cc
find_lt c (x ∷ s) i h = ground (arith, find_lt c s (i - 1))

pub find_from_lt :
    (c pos : ℕ) (s : Bytes) (i : ℕ) → find_from c pos s ≡ some i → (pos ≤ i) × (i < length s)
unfolding find_from
find_from_lt c pos s i h = ground (arith, find_lt c (drop pos s) (i - pos), length-drop pos s)

pub length-trim_front : (p : ℕ → Bool) (s : Bytes) → length (trim_front p s) ≤ length s
unfolding trim_front
length-trim_front p [] = omega arith
length-trim_front p (x ∷ s) = ground (arith, length-trim_front p s)

keep_le :
    (p : ℕ → Bool) (x : ℕ) (s : Bytes) → length (keep_unless_last_blank p x s) ≤ suc (length s)
keep_le p x [] = ground arith
keep_le p x (y ∷ s) = omega arith

pub length-trim_back : (p : ℕ → Bool) (s : Bytes) → length (trim_back p s) ≤ length s
unfolding trim_back
length-trim_back p [] = omega arith
length-trim_back p (x ∷ s) = omega (arith, keep_le p x (trim_back p s), length-trim_back p s)

-- The view ends at or before `n`.
abbrev pub Within : ℕ → View → Type 0
Within n v = v.off + length v.text ≤ n

pub view_trim-Within : {n : ℕ} (p q : ℕ → Bool) (v : View) → Within n v → Within n (view_trim p q v)
unfolding view_trim
view_trim-Within p q v h =
    omega (arith, length-trim_front p v.text, length-trim_back q (trim_front p v.text))

pub view_substr-Within :
    {n : ℕ} (v : View) (pos k : ℕ)
    → pos ≤ length v.text
    → Within n v
    → Within n (view_substr v pos k)
view_substr-Within v pos k le h =
    omega (arith, length-take k (drop pos v.text), length-drop pos v.text)

pub view_from-Within :
    {n : ℕ} (v : View) (pos : ℕ) → pos ≤ length v.text → Within n v → Within n (view_from v pos)
view_from-Within v pos le h = omega (arith, length-drop pos v.text)
