-- ===== src/Text.antt =====
-- std::string_view and character helpers. A byte is a number, a text the list of its bytes. A view
-- that the code compares by position (`part.data() - base`) is a `View`: the offset of its first
-- byte in the buffer that is being read, and the bytes viewed.
pub mod Fold
pub mod Bounds
pub mod Part
pub mod Number
use Prim.Native.Char.{code}
use Prim.Native.String.{String}
use mathlib.Core.Option
use olproff_fastsbc_hmr.Base.{
  ℕ, suc, ◌+◌, ◌-◌, Bool, true, false, ◌&&◌, ◌||◌, Option, none, some, List, [], ◌∷◌, leb, ◌==◌,
  if◌then◌else◌, length, take, drop,
}

abbrev pub Bytes : Type 0
Bytes = List ℕ

-- The bytes of an ASCII literal.
abbrev pub codes : String → Bytes
codes String.[] = []
codes (String.◌∷◌ c s) = code c ∷ codes s

-- (c >= 'A' && c <= 'Z') ? c - 'A' + 'a' : c
unfoldable pub to_lower : ℕ → ℕ
to_lower c = if leb b'A' c && leb c b'Z' then c - b'A' + b'a' else c

-- operator== of string_view
unfoldable pub same_text : Bytes → Bytes → Bool
same_text [] [] = true
same_text (x ∷ xs) (y ∷ ys) = x == y && same_text xs ys
same_text _ _ = false

-- The loop `if (lower(a[i]) != lower(b[i])) return false;` over two texts of one size.
unfoldable pub same_folded : Bytes → Bytes → Bool
unfolding to_lower
same_folded [] _ = true
same_folded _ [] = true
same_folded (x ∷ xs) (y ∷ ys) = to_lower x == to_lower y && same_folded xs ys

unfoldable pub iequals : Bytes → Bytes → Bool
unfolding same_folded
iequals a b = if length a == length b then same_folded a b else false

-- s.find(c), s.find(c, pos): `none` is npos
unfoldable pub find : ℕ → Bytes → Option ℕ
find c [] = none
find c (x ∷ xs) = if x == c then some 0 else Option.map suc (find c xs)

unfoldable pub find_from : ℕ → ℕ → Bytes → Option ℕ
unfolding find
find_from c pos s = Option.map (λ i. pos + i) (find c (drop pos s))

-- s.rfind(c)
unfoldable pub rfind : ℕ → Bytes → Option ℕ
rfind c [] = none
rfind c (x ∷ xs) = elim (rfind c xs) [
  | some i ↦ some (suc i)
  | none ↦ if x == c then some 0 else none
]

-- s.starts_with(p)
unfoldable pub starts_with : Bytes → Bytes → Bool
starts_with s [] = true
starts_with [] (p ∷ ps) = false
starts_with (x ∷ xs) (p ∷ ps) = x == p && starts_with xs ps

-- s.substr(pos, n)
abbrev pub substr : Bytes → ℕ → ℕ → Bytes
substr s pos n = take n (drop pos s)

-- `remove_prefix(1)` while the front byte is blank, `remove_suffix(1)` while the back byte is.
unfoldable pub trim_front : (ℕ → Bool) → Bytes → Bytes
trim_front blank [] = []
trim_front blank (x ∷ xs) = if blank x then trim_front blank xs else x ∷ xs

abbrev pub keep_unless_last_blank : (ℕ → Bool) → ℕ → Bytes → Bytes
keep_unless_last_blank blank x [] = if blank x then [] else x ∷ []
keep_unless_last_blank blank x (y ∷ ys) = x ∷ y ∷ ys

unfoldable pub trim_back : (ℕ → Bool) → Bytes → Bytes
trim_back blank [] = []
trim_back blank (x ∷ xs) = keep_unless_last_blank blank x (trim_back blank xs)

unfoldable pub is_blank : ℕ → Bool
is_blank c = c == b' ' || c == b'\t'

-- trim of matchers.cpp and uri.cpp
unfoldable pub trim : Bytes → Bytes
unfolding trim_front trim_back is_blank
trim s = trim_back is_blank (trim_front is_blank s)

pub record View : Type 0 where
  pub off : ℕ
  pub text : Bytes

abbrev pub view_substr : View → ℕ → ℕ → View
view_substr v pos n = record { off = v.off + pos; text = substr v.text pos n }

-- v.substr(pos)
abbrev pub view_from : View → ℕ → View
view_from v pos = record { off = v.off + pos; text = drop pos v.text }

-- The loops of a trim move the front pointer over the bytes that they remove.
unfoldable pub view_trim : (ℕ → Bool) → (ℕ → Bool) → View → View
unfolding trim_front trim_back
view_trim front back v =
    let t = trim_front front v.text in
    record { off = v.off + (length v.text - length t); text = trim_back back t }
