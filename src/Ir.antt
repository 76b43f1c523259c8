-- ===== src/Ir.antt =====
-- src/codegen/ir_generator.cpp: the LLVM back-end. What the generator asks of the IRBuilder is data, in
-- order: calls of the runtime, blocks and branches. A value is the number of the call that gave it; a
-- block is its number; a literal is its text, since `strs_` has one global for each. The order of those
-- globals is not followed.
pub mod Emit
pub mod Rules
pub mod Headers
pub mod Tables
pub mod ActionTables
pub mod ElementTables
pub mod Descriptor
use olproff_fastsbc_hmr.Base.{
  ℕ, suc, ◌+◌, Bool, Option, none, some, List, [], ◌∷◌, ◌++◌, if◌then◌else◌, length,
}
use olproff_fastsbc_hmr.Text.{Bytes, codes}
use olproff_fastsbc_hmr.Uri.{HmrUriElement}
use olproff_fastsbc_hmr.Runtime.{HmrMatchType}
use olproff_fastsbc_hmr.Lowering.{capture_slot_key, ref_base_name}
use olproff_fastsbc_hmr.Interp.{regex_index, slot_id, index_or_zero}

-- The two scalars of an HmrStr: what a call gave, or a literal.
pub data IrStr : Type 0 where
  result : ℕ → IrStr
  literal : Bytes → IrStr

-- Calls that give an HmrStr.
pub data StrCall : Type 0 where
  get_header : IrStr → StrCall
  get_method val_finish : StrCall
  get_capture get_var load : ℕ → StrCall
  uri_get : IrStr → HmrUriElement → StrCall
  uri_set : IrStr → HmrUriElement → IrStr → StrCall

-- Calls that give an i32 that is used.
pub data IntCall : Type 0 where
  is_request : IntCall
  str_eq : IrStr → IrStr → IntCall
  match : HmrMatchType → IrStr → IrStr → ℕ → IntCall

-- Calls whose value, if there is one, is not used.
pub data VoidCall : Type 0 where
  set_header add_header : IrStr → IrStr → VoidCall
  delete_header : IrStr → VoidCall
  store : ℕ → IrStr → VoidCall
  val_reset : VoidCall
  val_append_lit : IrStr → VoidCall
  val_append_var val_append_capture val_append_slot : ℕ → VoidCall
  log : IrStr → VoidCall
  reject : ℕ → IrStr → VoidCall

-- An i1: `truthy` of the i32 that a call gave, and what CreateNot and CreateOr make.
pub data Cond : Type 0 where
  never : Cond
  truthy : ℕ → Cond
  negation : Cond → Cond
  either : Cond → Cond → Cond

pub data Op : Type 0 where
  block : ℕ → Bytes → Op
  call_str : ℕ → StrCall → Op
  call_int : ℕ → IntCall → Op
  call : VoidCall → Op
  cond_br : Cond → ℕ → ℕ → Op
  br : ℕ → Op
  set_insert_point : ℕ → Op
  ret : ℕ → Op

-- The tables of Emitter, its reject block, and the numbers of values and of blocks.
pub record Emitter : Type 0 where
  pub values : ℕ
  pub blocks : ℕ
  pub reject_bb : Option ℕ
  pub regexes : List (Bytes × ℕ)
  pub slots : List (Bytes × ℕ)

-- `unpack(b_.CreateCall(...))`
unfoldable pub str_call : StrCall → Emitter → List Op × IrStr × Emitter
str_call c g = (call_str g.values c ∷ [], result g.values, record g { values = suc g.values })

unfoldable pub int_call : IntCall → Emitter → List Op × Cond × Emitter
int_call c g = (call_int g.values c ∷ [], truthy g.values, record g { values = suc g.values })

unfoldable pub new_block : Bytes → Emitter → List Op × ℕ × Emitter
new_block name g = (block g.blocks name ∷ [], g.blocks, record g { blocks = suc g.blocks })

unfoldable pub guard : Cond → Bytes → ℕ → Emitter → List Op × Emitter
unfolding new_block
guard cond ok_name skip g =
    let (os, ok, g') = new_block ok_name g in
    (os ++ cond_br cond ok skip ∷ set_insert_point ok ∷ [], g')

-- reject_block, and the branch to it
unfoldable pub br_reject : Emitter → List Op × Emitter
unfolding new_block
br_reject g =
    let (os, made, g') = new_block (codes "reject") g in
    elim g.reject_bb [
      | some bb ↦ (br bb ∷ [], g)
      | none ↦ (os ++ br made ∷ [], record g' { reject_bb = some made })
    ]

abbrev flags_of : Bool → ℕ
flags_of ci = if ci then 1 else 0

unfoldable pub add_regex : Bytes → Bool → Emitter → ℕ × Emitter
unfolding regex_index
add_regex pattern ci g = elim (regex_index pattern (flags_of ci) 0 g.regexes) [
  | some i ↦ (i, g)
  | none ↦ (length g.regexes, record g { regexes = g.regexes ++ (pattern, flags_of ci) ∷ [] })
]

-- try_emplace
unfoldable pub slot_for : Bytes → Emitter → ℕ × Emitter
unfolding slot_id
slot_for name g = elim (slot_id name g.slots) [
  | some id ↦ (id, g)
  | none ↦ (length g.slots, record g { slots = g.slots ++ (name, length g.slots) ∷ [] })
]

unfoldable pub slot_for_ref : Bytes → Option ℕ → Emitter → ℕ × Emitter
unfolding slot_for capture_slot_key ref_base_name
slot_for_ref path capture_index g =
    slot_for (capture_slot_key (ref_base_name path) (index_or_zero capture_index)) g
