-- ===== src/Ir/ActionTables.antt =====
-- The tables of the LLVM back-end (src/codegen/ir_generator.cpp) beside those of the C++ back-end
-- (src/codegen/cpp_generator.cpp): header actions.
use olproff_fastsbc_hmr.Base.{
  ℕ, zero, suc, ◌+◌, Bool, not, ◌&&◌, Option, none, some, ◌++◌, ◌==◌, if◌then◌else◌, length, ◌≡◌,
  refl,
}
use olproff_fastsbc_hmr.Text.{Bytes, codes}
use olproff_fastsbc_hmr.Value.{Value, empty}
use olproff_fastsbc_hmr.Ast.{HeaderAction, HeaderRule}
use olproff_fastsbc_hmr.Lowering.{is_pattern, count_capturing_groups, capture_slot_key, to_string}
use olproff_fastsbc_hmr.Codegen.{Expr, Stmt, CppEmitter}
use olproff_fastsbc_hmr.Codegen
use olproff_fastsbc_hmr.Codegen.Emit
use olproff_fastsbc_hmr.Codegen.Rules
use olproff_fastsbc_hmr.Codegen.Agreement.{if-both}
use olproff_fastsbc_hmr.Ir.{get_capture, IrStr, Emitter, str_call, new_block, br_reject, slot_for}
use olproff_fastsbc_hmr.Ir.Emit.{pattern_of}
use olproff_fastsbc_hmr.Ir.Rules.{
  emit_message, emit_groups, emit_plain_store, emit_store, emit_replace, emit_add, emit_log,
  emit_reject, emit_header_action,
}
use olproff_fastsbc_hmr.Ir.Tables.{Same, After, slot_for-Same, emit_value-Same, emit_message-Same}

emit_groups-Same :
    (left group : ℕ) (rule : Bytes) (g : Emitter) (h : CppEmitter)
    → Same g h
    → After (emit_groups left group rule g) (Codegen.Rules.emit_groups left group rule h)
unfolding emit_groups Codegen.Rules.emit_groups str_call Codegen.next_temp
emit_groups-Same zero group rule g h p = p
emit_groups-Same (suc left) group rule g h p =
    let name = capture_slot_key rule group in
    let g2 = (str_call (get_capture group) (slot_for name g).1).2 in
    emit_groups-Same left (group + 1) rule g2 (Codegen.slot_for name (Codegen.next_temp h).1).1
      (slot_for-Same name g (Codegen.next_temp h).1 p)

emit_plain_store-Same :
    (rule name : Bytes) (hv : Option IrStr) (hv' : Option Expr) (g : Emitter) (h : CppEmitter)
    → Same g h
    → After (emit_plain_store rule name hv g) (Codegen.Rules.emit_plain_store rule name hv' h)
unfolding emit_plain_store Codegen.Rules.emit_plain_store str_call Codegen.next_temp
emit_plain_store-Same rule name none none g h p = slot_for-Same rule g (Codegen.next_temp h).1 p
emit_plain_store-Same rule name none (some e) g h p = slot_for-Same rule g h p
emit_plain_store-Same rule name (some v) none g h p = slot_for-Same rule g (Codegen.next_temp h).1 p
emit_plain_store-Same rule name (some v) (some e) g h p = slot_for-Same rule g h p

emit_store-Same :
    (hr : HeaderRule) (idx : ℕ) (hv : Option IrStr) (hv' : Option Expr) (g : Emitter)
    (h : CppEmitter)
    → Same g h
    → After (emit_store hr idx hv g) (Codegen.Rules.emit_store hr idx hv' h)
unfolding emit_store Codegen.Rules.emit_store pattern_of Codegen.Emit.pattern_of
emit_store-Same hr idx hv hv' g h p =
    let rule = if length hr.name == 0 then codes "rule" ++ to_string idx else hr.name in
    if-both After (is_pattern hr.comparison) _ _ _ _
      (emit_groups-Same (count_capturing_groups (pattern_of hr.match_value) + 1) 0 rule g h p)
      (emit_plain_store-Same rule hr.header_name hv hv' g h p)

emit_replace-Same :
    (hr : HeaderRule) (g : Emitter) (h : CppEmitter)
    → Same g h
    → After (emit_replace hr g) (Codegen.Rules.emit_replace hr h)
unfolding emit_replace Codegen.Rules.emit_replace
emit_replace-Same hr g h p =
    if-both After (not (empty hr.new_value) && length hr.element_rules == 0) _ _ _ _
      (emit_value-Same hr.new_value g h p) p

br_reject-Same : (g : Emitter) (h : CppEmitter) → Same g h → Same (br_reject g).1 h
unfolding br_reject new_block
br_reject-Same g h p =
    elim g.reject_bb as (λ o. Same (br_reject (record g { reject_bb = o })).1 h) [
      | some bb ↦ p
      | none ↦ p
    ]

pub emit_reject-Same :
    (v : Value) (name : Bytes) (g : Emitter) (h : CppEmitter)
    → Same g h
    → After (emit_reject v name g) (Codegen.Rules.emit_reject v name h)
unfolding emit_reject Codegen.Rules.emit_reject
emit_reject-Same v name g h p =
    br_reject-Same (emit_message v name g).2 (Codegen.Rules.emit_message v name h).2
      (emit_message-Same v name g h p)

abbrev AfterAction : {A B : Type 0} → Bool × A × Emitter → Bool × B × CppEmitter → Type 0
AfterAction (b, os, g) (b', ss, h) = (b ≡ b') × Same g h

pub emit_header_action-Same :
    (hr : HeaderRule) (idx : ℕ) (hv : Option IrStr) (hv' : Option Expr) (g : Emitter)
    (h : CppEmitter)
    → Same g h
    → AfterAction (emit_header_action hr idx hv g) (Codegen.Rules.emit_header_action hr idx hv' h)
unfolding emit_header_action Codegen.Rules.emit_header_action emit_add emit_log
    Codegen.Rules.emit_add Codegen.Rules.emit_log
emit_header_action-Same hr idx hv hv' g h p =
    elim hr.action
      as (λ a.
        AfterAction (emit_header_action (record hr { action = a }) idx hv g)
          (Codegen.Rules.emit_header_action (record hr { action = a }) idx hv' h)) [
            | HeaderAction.add ↦ (refl, emit_value-Same hr.new_value g h p)
            | HeaderAction.replace ↦ (refl, emit_replace-Same hr g h p)
            | HeaderAction.manipulate ↦ (refl, emit_replace-Same hr g h p)
            | HeaderAction.store ↦ (refl, emit_store-Same hr idx hv hv' g h p)
            | HeaderAction.log ↦ (refl, emit_message-Same hr.new_value hr.name g h p)
            | HeaderAction.reject ↦ (refl, emit_reject-Same hr.new_value hr.name g h p)
            | _ ↦ (refl, p)
          ]
