-- ===== src/Value.antt =====
-- include/hmr/ast/value.hpp: the parsed form of a match-value or a new-value, and its queries
-- (src/ast/value.cpp).
pub mod Parse
use olproff_fastsbc_hmr.Base.{
  ℕ, Bool, true, false, not, ◌&&◌, Option, none, some, List, [], ◌∷◌, ◌++◌, ◌==◌, if◌then◌else◌,
  length,
}
use olproff_fastsbc_hmr.Text.{Bytes}

pub data RefKind : Type 0 where
  variable capture rule_ref : RefKind

-- `capture_index` is `none` for -1.
pub record ValueRef : Type 0 where
  pub kind : RefKind
  pub name : Bytes
  pub capture_index : Option ℕ

-- A segment is a literal (`is_ref` false) or a reference.
pub data ValueSegment : Type 0 where
  lit : Bytes → ValueSegment
  ref : ValueRef → ValueSegment

pub data ValueMode : Type 0 where
  literal match_value new_value : ValueMode

pub record Value : Type 0 where
  pub raw : Bytes
  pub segments : List ValueSegment
  pub negated : Bool
  pub ref_expression : Bool

abbrev pub empty : Value → Bool
empty v = length v.raw == 0

unfoldable pub all_literal : List ValueSegment → Bool
all_literal [] = true
all_literal (lit t ∷ s) = all_literal s
all_literal (ref r ∷ s) = false

unfoldable pub is_pure_literal : Value → Bool
unfolding all_literal
is_pure_literal v = all_literal v.segments

unfoldable pub text_of : List ValueSegment → Bytes
text_of [] = []
text_of (lit t ∷ s) = t ++ text_of s
text_of (ref r ∷ s) = text_of s

unfoldable pub literal_text : Value → Bytes
unfolding text_of
literal_text v = text_of v.segments

-- The one reference that a value consists of (is_single_ref).
unfoldable pub single_ref : Value → Option ValueRef
single_ref v = elim v.segments [
  | [] ↦ none
  | s ∷ rest ↦ elim rest [ [] ↦ elim s [ lit t ↦ none | ref r ↦ some r ] | _ ∷ _ ↦ none ]
]

unfoldable pub is_regex_literal : Value → Bool
unfolding is_pure_literal
is_regex_literal v = not v.ref_expression && is_pure_literal v
