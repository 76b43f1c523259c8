-- ===== src/Ir/ElementTables.antt =====
-- The tables of the LLVM back-end (src/codegen/ir_generator.cpp) beside those of the C++ back-end
-- (src/codegen/cpp_generator.cpp): element rules.
use olproff_fastsbc_hmr.Base.{ℕ, List, [], ◌∷◌, Option-cases, inl, inr}
use olproff_fastsbc_hmr.Text.{codes}
use olproff_fastsbc_hmr.Uri.{HmrUriElement}
use olproff_fastsbc_hmr.Ast.{ElementAction, ElementRule, HeaderRule}
use olproff_fastsbc_hmr.Lowering.{uri_element}
use olproff_fastsbc_hmr.Interp.Rules.{is_whole}
use olproff_fastsbc_hmr.Codegen.{Expr, Stmt, CppEmitter}
use olproff_fastsbc_hmr.Codegen
use olproff_fastsbc_hmr.Codegen.Emit
use olproff_fastsbc_hmr.Codegen.Rules
use olproff_fastsbc_hmr.Codegen.Agreement.{if-both}
use olproff_fastsbc_hmr.Ir.{IrStr, get_header, literal, Emitter, str_call, new_block}
use olproff_fastsbc_hmr.Ir.Emit.{emit_value, emit_match_guard}
use olproff_fastsbc_hmr.Ir.Rules.{
  emit_set_element, emit_element_replace, emit_element_delete, emit_element_action,
  emit_element_value, emit_element_rule, emit_element_rules,
}
use olproff_fastsbc_hmr.Ir.Tables.{
  Same, After, AfterValue, slot_for-Same, emit_value-Same, emit_match_guard-Same,
}
use olproff_fastsbc_hmr.Ir.ActionTables.{emit_reject-Same}

emit_set_element-Same :
    (nm hv : IrStr) (nm' hv' : Expr) (e : HmrUriElement) (nv : IrStr) (nv' : Expr) (g : Emitter)
    (h : CppEmitter)
    → Same g h
    → After (emit_set_element nm hv e nv g) (Codegen.Rules.emit_set_element nm' hv' e nv' h)
unfolding emit_set_element Codegen.Rules.emit_set_element str_call Codegen.next_temp
emit_set_element-Same nm hv nm' hv' e nv nv' g h p = if-both After (is_whole e) _ _ _ _ p p

emit_element_replace-Same :
    (nm hv : IrStr) (nm' hv' : Expr) (e : HmrUriElement) (er : ElementRule) (g : Emitter)
    (h : CppEmitter)
    → Same g h
    → After (emit_element_replace nm hv e er g) (Codegen.Rules.emit_element_replace nm' hv' e er h)
unfolding emit_element_replace Codegen.Rules.emit_element_replace
emit_element_replace-Same nm hv nm' hv' e er g h p =
    let (os, nv, g1) = emit_value er.new_value g in
    let (ss, nv', h1) = Codegen.Emit.emit_value er.new_value h in
    emit_set_element-Same nm hv nm' hv' e nv nv' g1 h1 (emit_value-Same er.new_value g h p)

emit_element_delete-Same :
    (nm hv : IrStr) (nm' hv' : Expr) (e : HmrUriElement) (g : Emitter) (h : CppEmitter)
    → Same g h
    → After (emit_element_delete nm hv e g) (Codegen.Rules.emit_element_delete nm' hv' e h)
unfolding emit_element_delete Codegen.Rules.emit_element_delete
emit_element_delete-Same nm hv nm' hv' e g h p =
    if-both After (is_whole e) _ _ _ _ p
      (emit_set_element-Same nm hv nm' hv' e (literal []) (Codegen.str_lit []) g h p)

emit_element_action-Same :
    (hr : HeaderRule) (er : ElementRule) (e : HmrUriElement) (hv ev : IrStr) (cont : ℕ)
    (nm' hv' ev' : Expr) (g : Emitter) (h : CppEmitter)
    → Same g h
    → After
        (emit_element_action hr er e hv ev cont g)
        (Codegen.Rules.emit_element_action hr er e nm' hv' ev' h)
unfolding emit_element_action Codegen.Rules.emit_element_action
emit_element_action-Same hr er e hv ev cont nm' hv' ev' g h p =
    elim er.action
      as (λ a.
        After (emit_element_action hr (record er { action = a }) e hv ev cont g)
          (Codegen.Rules.emit_element_action hr (record er { action = a }) e nm' hv' ev' h)) [
            | ElementAction.replace ↦
                emit_element_replace-Same (literal hr.header_name) hv nm' hv' e er g h p
            | ElementAction.delete_element ↦
                emit_element_delete-Same (literal hr.header_name) hv nm' hv' e g h p
            | ElementAction.store ↦ slot_for-Same _ g h p
            | ElementAction.reject ↦ emit_reject-Same er.new_value er.name g h p
            | _ ↦ p
          ]

emit_element_value-Same :
    (hv : IrStr) (hv' : Expr) (e : HmrUriElement) (g : Emitter) (h : CppEmitter)
    → Same g h
    → AfterValue (emit_element_value hv e g) (Codegen.Rules.emit_element_value hv' e h)
unfolding emit_element_value Codegen.Rules.emit_element_value str_call Codegen.next_temp
emit_element_value-Same hv hv' e g h p = if-both AfterValue (is_whole e) _ _ _ _ p p

emit_element_rule-Same :
    (hr : HeaderRule) (nm' : Expr) (er : ElementRule) (e : HmrUriElement) (g : Emitter)
    (h : CppEmitter)
    → Same g h
    → After (emit_element_rule hr er e g) (Codegen.Rules.emit_element_rule hr nm' er e h)
unfolding emit_element_rule Codegen.Rules.emit_element_rule new_block str_call Codegen.next_temp
emit_element_rule-Same hr nm' er e g h p =
    let (bs, cont, g1) = new_block (codes "el.cont") g in
    let (hs, hv, g2) = str_call (get_header (literal hr.header_name)) g1 in
    let (vs, ev, g3) = emit_element_value hv e g2 in
    let (gs, g4) = emit_match_guard er.comparison er.match_val_type er.match_value ev cont g3 in
    let (hv', h1) = Codegen.next_temp h in
    let (vs', ev', h2) = Codegen.Rules.emit_element_value (Codegen.temp hv') e h1 in
    let (gs', h3) =
      Codegen.Emit.emit_match_guard er.comparison er.match_val_type er.match_value ev' h2 in
    emit_element_action-Same hr er e hv ev cont nm' (Codegen.temp hv') ev' g4 h3 (
      emit_match_guard-Same er.comparison er.match_val_type er.match_value ev cont ev' g3 h2
        (emit_element_value-Same hv (Codegen.temp hv') e g2 h1 p))

pub emit_element_rules-Same :
    (hr : HeaderRule) (nm' : Expr) (ers : List ElementRule) (g : Emitter) (h : CppEmitter)
    → Same g h
    → After (emit_element_rules hr ers g) (Codegen.Rules.emit_elements hr nm' ers h)
unfolding emit_element_rules Codegen.Rules.emit_elements
emit_element_rules-Same hr nm' [] g h p = p
emit_element_rules-Same hr nm' (er ∷ ers) g h p = elim (Option-cases (uri_element er.type)) [
  | inl unsupported ↦
      rw (unsupported, emit_element_rules, Codegen.Rules.emit_elements)
        (emit_element_rules-Same hr nm' ers g h p)
  | inr (e, supported) ↦
      rw (supported, emit_element_rules, Codegen.Rules.emit_elements)
        (emit_element_rules-Same hr nm' ers (emit_element_rule hr er e g).1
          (Codegen.Rules.emit_element_rule hr nm' er e h).1
          (emit_element_rule-Same hr nm' er e g h p))
]
