-- ===== src/Parser/Built.antt =====
-- The shapes of src/parser/parser.cpp that the blocks share: the loop, an enumeration, a value.
pub mod Elements
pub mod Headers
pub mod Rulesets
use olproff_fastsbc_hmr.Base.{
  ℕ, Bool, true, false, ◌&&◌, Option, none, some, List, [], ◌∷◌, ◌++◌, ◌==◌, if◌then◌else◌, ◌≡◌,
  refl, append-nil, append_assoc, Bool-cases, Option-cases, inl, inr,
}
use olproff_fastsbc_hmr.Text.{Bytes}
use olproff_fastsbc_hmr.Value.{ValueMode, Value}
use olproff_fastsbc_hmr.Value.Parse.{parse}
use olproff_fastsbc_hmr.Diagnostics.{Diagnostic}
use olproff_fastsbc_hmr.Parser.{AttrValue, Collected, Step, for_each, add_error, add_warning}
use olproff_fastsbc_hmr.Parser.Reading.{unknown_enum_of, unknown_enum}
use olproff_fastsbc_hmr.Parser.Attributes.{apply_enum, apply_value}
use olproff_fastsbc_hmr.Parser.Expected.{
  guarded, all, last_given, or_else, nothing, behind, say, enumerator, misread, readable, warned,
}

pub last_given_cons :
    {X A : Type 0} (give : X → Option A) (x : X) (xs : List X) (a : A)
    → or_else (last_given give (x ∷ xs)) a
      ≡ or_else (last_given give xs) (or_else (last_given give (x ∷ [])) a)
unfolding last_given
last_given_cons give x xs a =
    elim (last_given give xs)
      as (λ l.
        or_else (elim l [ some b ↦ some b | none ↦ give x ]) a ≡ or_else l (or_else (give x) a)) [
          | none ↦ refl
          | some b ↦ refl
        ]

pub behind_nothing : (d : Collected) → behind d nothing ≡ d
behind_nothing d = rw (append-nil d.errors, append-nil d.warnings) refl

pub behind_assoc : (a b c : Collected) → behind (behind a b) c ≡ behind a (behind b c)
behind_assoc a b c =
    rw (append_assoc a.errors b.errors c.errors, append_assoc a.warnings b.warnings c.warnings) refl

-- A loop whose body sets the fields that its element gives, unless a value cannot be read, and collects
-- what there is to say of the element: `set` says what a list of elements sets.
module _ {X S : Type 0} (body : X → S → Collected → Step S) (fits : X → Bool) (set : S → List X → S)
    (said : X → Collected)
    (step : (x : X) (s : S) (d : Collected)
      → body x s d ≡ guarded (fits x) (set s (x ∷ []), behind d (said x)))
    (none_set : (s : S) → set s [] ≡ s)
    (set_again : (s : S) (x : X) (xs : List X) → set (set s (x ∷ [])) xs ≡ set s (x ∷ xs)) where
  pub for_each_lem :
      (xs : List X) (s : S) (d : Collected)
      → for_each body xs s d ≡ guarded (all fits xs) (set s xs, behind d (say said xs))
  unfolding for_each say
  for_each_lem [] s d = rw (none_set s, behind_nothing d) refl
  for_each_lem (x ∷ xs) s d =
      let ih = for_each_lem xs (set s (x ∷ [])) (behind d (said x)) in
      elim (Bool-cases (fits x)) [
        | inl fits_ ↦
            rw (step x s d, fits_, for_each)
              (rw (ih, set_again s x xs, behind_assoc d (said x) (say said xs)) refl)
        | inr fits_ ↦ rw (step x s d, fits_, for_each) refl
      ]

pub add_warning-behind : (w : Diagnostic) (d : Collected) → add_warning w d ≡ behind d (warned w)
unfolding add_warning
add_warning-behind w d = rw (append-nil d.errors) refl

pub add_error-behind :
    (e : Diagnostic) (d : Collected)
    → add_error e d ≡ behind d (record { errors = e ∷ []; warnings = [] })
unfolding add_error
add_error-behind e d = rw (append-nil d.warnings) refl

-- `put` is the block with an enumerator put in, if there is one.
pub apply_enum_lem :
    {E S : Type 0} (what : Bytes) (parsed : Option E) (v : AttrValue) (put : Option E → S)
    (d : Collected)
    → apply_enum what parsed v (λ e. put (some e)) (put none) d
      ≡ some (put (enumerator parsed v), behind d (misread what parsed v))
unfolding apply_enum enumerator misread unknown_enum
apply_enum_lem what parsed v put d = elim (Bool-cases (v.count == 0)) [
  | inl e ↦ rw (e, behind_nothing d) refl
  | inr e ↦ elim (Option-cases parsed) [
    | inl none_ ↦ rw (e, none_) (rw (add_error-behind (unknown_enum_of what v) d) refl)
    | inr (a, some_) ↦ rw (e, some_) (rw (behind_nothing d) refl)
  ]
]

-- `put` is the block with a value put in, if there is one.
pub apply_value_lem :
    {S : Type 0} (mode : ValueMode) (v : AttrValue) (put : Option Value → S) (d : Collected)
    → apply_value mode v (λ w. put (some w)) d
      ≡ guarded
          (readable (parse v.raw mode v.quoted))
          (put (parse v.raw mode v.quoted), behind d nothing)
unfolding apply_value
apply_value_lem mode v put d = elim (Option-cases (parse v.raw mode v.quoted)) [
  | inl none_ ↦ rw (none_, apply_value) refl
  | inr (w, some_) ↦ rw (some_, behind_nothing d, apply_value) refl
]
