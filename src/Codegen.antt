-- ===== src/Codegen.antt =====
-- src/codegen/cpp_generator.cpp: the C++ back-end. The statements that CppEmitter appends to the body
-- are data, one constructor for each form of a `line(...)` call; Codegen/Spelling gives their text. The
-- lambda of an element rule stands within that of its header rule, so that three types do for the
-- nesting.
pub mod Emit
pub mod Rules
pub mod Spelling
pub mod Source
pub mod Literal
pub mod Agreement
pub mod ActionScan
pub mod Scan
pub mod Exec
pub mod Grows
pub mod Growth
pub mod ElementGrowth
pub mod Values
pub mod Guards
pub mod Actions
pub mod ElementActions
pub mod Elements
pub mod Heads
pub mod Refinement
pub mod Scope
pub mod ScopedValues
pub mod ScopedActions
pub mod ScopedRules
pub mod WellScoped
pub mod Descriptor
use mathlib.Core.Option
use olproff_fastsbc_hmr.Base.{
  ℕ, suc, ◌+◌, Bool, Option, none, some, List, [], ◌∷◌, ◌++◌, if◌then◌else◌, length,
}
use olproff_fastsbc_hmr.Text.{Bytes}
use olproff_fastsbc_hmr.Uri.{HmrUriElement}
use olproff_fastsbc_hmr.Runtime.{HmrMatchType}
use olproff_fastsbc_hmr.Lowering.{capture_slot_key, ref_base_name}
use olproff_fastsbc_hmr.Interp.{regex_index, slot_id, index_or_zero}

-- A C++ expression of type HmrStr: the temporary `t<n>`, or a literal.
pub data Expr : Type 0 where
  temp : ℕ → Expr
  str_lit : Bytes → Expr

-- A statement; a first number is the temporary that it declares.
pub data Stmt : Type 0 where
  bind : ℕ → Bytes → Stmt
  get_var get_capture load : ℕ → ℕ → Stmt
  val_reset : Stmt
  append_lit : Bytes → Stmt
  append_var append_capture append_slot : ℕ → Stmt
  val_finish : ℕ → Stmt
  get_header : ℕ → Expr → Stmt
  get_method : ℕ → Stmt
  uri_get : ℕ → Expr → HmrUriElement → Stmt
  uri_set : ℕ → Expr → HmrUriElement → Expr → Stmt
  add_header set_header : Expr → Expr → Stmt
  delete_header : Expr → Stmt
  store : ℕ → Expr → Stmt
  log reject : Expr → Stmt
  match_guard : HmrMatchType → Expr → Bytes → ℕ → Bool → Stmt
  type_guard : Bool → Stmt
  method_guard : ℕ → List Bytes → Stmt
  return : Bool → Stmt

-- A statement of a header rule's lambda, or an element rule: its comment and its lambda.
pub data Item : Type 0 where
  plain : Stmt → Item
  element : Bytes → List Stmt → Item

-- A header rule: its comment and its lambda.
pub record RuleBlock : Type 0 where
  pub comment : Bytes
  pub items : List Item

-- The counters and tables of CppEmitter.
pub record CppEmitter : Type 0 where
  pub temp_ : ℕ
  pub regexes : List (Bytes × ℕ)
  pub slots : List (Bytes × ℕ)

unfoldable pub next_temp : CppEmitter → ℕ × CppEmitter
next_temp g = (g.temp_, record g { temp_ = suc g.temp_ })

abbrev flags_of : Bool → ℕ
flags_of ci = if ci then 1 else 0

unfoldable pub add_regex : Bytes → Bool → CppEmitter → ℕ × CppEmitter
unfolding regex_index
add_regex pattern ci g = elim (regex_index pattern (flags_of ci) 0 g.regexes) [
  | some i ↦ (i, g)
  | none ↦ (length g.regexes, record g { regexes = g.regexes ++ (pattern, flags_of ci) ∷ [] })
]

-- try_emplace
unfoldable pub slot_for : Bytes → CppEmitter → ℕ × CppEmitter
unfolding slot_id
slot_for name g = elim (slot_id name g.slots) [
  | some id ↦ (id, g)
  | none ↦ (length g.slots, record g { slots = g.slots ++ (name, length g.slots) ∷ [] })
]

unfoldable pub slot_for_ref : Bytes → Option ℕ → CppEmitter → ℕ × CppEmitter
unfolding slot_for capture_slot_key ref_base_name
slot_for_ref path capture_index g =
    slot_for (capture_slot_key (ref_base_name path) (index_or_zero capture_index)) g
