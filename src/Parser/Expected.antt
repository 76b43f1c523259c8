-- ===== src/Parser/Expected.antt =====
-- What src/parser/parser.cpp is to make of a block, read off the tree: for each field the last attribute
-- that gives it, and the diagnostics in order. The children say this for each kind of block.
pub mod Elements
pub mod Headers
pub mod Rulesets
use olproff_fastsbc_hmr.Base.{
  Bool, true, false, ◌&&◌, Option, none, some, List, [], ◌∷◌, ◌++◌, ◌==◌, if◌then◌else◌, ◌≡◌, refl,
  append-nil, append_assoc, Bool-cases, inl, inr,
}
use olproff_fastsbc_hmr.Text.{Bytes}
use olproff_fastsbc_hmr.Value.{ValueMode, Value}
use olproff_fastsbc_hmr.Value.Parse.{parse}
use olproff_fastsbc_hmr.Diagnostics.{Diagnostic}
use olproff_fastsbc_hmr.Parser.{AttrValue, Collected, Step, for_each}
use olproff_fastsbc_hmr.Parser.Reading.{unknown_enum_of}

abbrev pub guarded : {A : Type 0} → Bool → A → Option A
guarded true a = some a
guarded false a = none

abbrev pub all : {X : Type 0} → (X → Bool) → List X → Bool
all fits [] = true
all fits (x ∷ xs) = fits x && all fits xs

-- What the last element gives that gives something.
unfoldable pub last_given : {X A : Type 0} → (X → Option A) → List X → Option A
last_given give [] = none
last_given give (x ∷ xs) = elim (last_given give xs) [ some a ↦ some a | none ↦ give x ]

abbrev pub or_else : {A : Type 0} → Option A → A → A
or_else none a = a
or_else (some b) a = b

abbrev pub nothing : Collected
nothing = record { errors = []; warnings = [] }

abbrev pub behind : Collected → Collected → Collected
behind d e = record { errors = d.errors ++ e.errors; warnings = d.warnings ++ e.warnings }

unfoldable pub say : {X : Type 0} → (X → Collected) → List X → Collected
say said [] = nothing
say said (x ∷ xs) = behind (said x) (say said xs)

-- An attribute without a value gives no enumerator, and is not misread.
unfoldable pub enumerator : {E : Type 0} → Option E → AttrValue → Option E
enumerator parsed v = if v.count == 0 then none else parsed

unfoldable pub misread : {E : Type 0} → Bytes → Option E → AttrValue → Collected
unfolding unknown_enum_of
misread what parsed v = if v.count == 0 then nothing else elim parsed [
  | some _ ↦ nothing
  | none ↦ record { errors = unknown_enum_of what v ∷ []; warnings = [] }
]

abbrev pub match_text : AttrValue → Option Value
match_text v = parse v.raw ValueMode.match_value v.quoted

abbrev pub new_text : AttrValue → Option Value
new_text v = parse v.raw ValueMode.new_value v.quoted

abbrev pub warned : Diagnostic → Collected
warned w = record { errors = []; warnings = w ∷ [] }

abbrev pub readable : {A : Type 0} → Option A → Bool
readable none = false
readable (some a) = true
