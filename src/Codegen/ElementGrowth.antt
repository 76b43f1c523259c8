-- ===== src/Codegen/ElementGrowth.antt =====
-- The emit functions of element rules and header rules of src/codegen/cpp_generator.cpp keep what the
-- emitter holds.
use olproff_fastsbc_hmr.Base.{
  ℕ, ◌+◌, Bool, not, ◌||◌, Option, none, some, List, [], ◌∷◌, ◌==◌, length, inl, inr, Option-cases,
}
use olproff_fastsbc_hmr.Text.{Bytes}
use olproff_fastsbc_hmr.Uri.{HmrUriElement}
use olproff_fastsbc_hmr.Value.{empty}
use olproff_fastsbc_hmr.Ast.{ElementAction, MatchValType, ElementRule, HeaderRule}
use olproff_fastsbc_hmr.Lowering.{uri_element}
use olproff_fastsbc_hmr.Interp.Rules.{is_whole}
use olproff_fastsbc_hmr.Interp.Walk.{is_store}
use olproff_fastsbc_hmr.Codegen.{Expr, temp, CppEmitter, next_temp}
use olproff_fastsbc_hmr.Codegen.Emit.{emit_value, emit_match_guard}
use olproff_fastsbc_hmr.Codegen.Rules.{
  emit_header_action, emit_set_element, emit_element_replace, emit_element_delete,
  emit_element_action, emit_element_value, emit_element_rule, emit_elements, emit_element_rules,
  emit_method_guard, emit_header_value, emit_header_guard, emit_rest, emit_head, emit_header_rule,
  emit_rules,
}
use olproff_fastsbc_hmr.Codegen.Agreement.{if_either}
use olproff_fastsbc_hmr.Codegen.Grows.{Grows-refl, Grows-trans, slot_for-Grows}
use olproff_fastsbc_hmr.Codegen.Growth.{
  GrowsTo, ValueGrows, next_temp-Grows, emit_value-Grows, emit_match_guard-Grows, emit_reject-Grows,
  emit_header_action-Grows,
}

pub emit_set_element-Grows :
    (nm hv : Expr) (e : HmrUriElement) (nv : Expr) (g : CppEmitter)
    → GrowsTo g (emit_set_element nm hv e nv g)
unfolding emit_set_element
emit_set_element-Grows nm hv e nv g =
    if_either (GrowsTo g) (is_whole e) _ _ (Grows-refl g) (next_temp-Grows g)

emit_element_replace-Grows :
    (nm hv : Expr) (e : HmrUriElement) (er : ElementRule) (g : CppEmitter)
    → GrowsTo g (emit_element_replace nm hv e er g)
unfolding emit_element_replace
emit_element_replace-Grows nm hv e er g =
    let (ss, nv, g') = emit_value er.new_value g in
    Grows-trans g g' _ (emit_value-Grows er.new_value g) (emit_set_element-Grows nm hv e nv g')

emit_element_delete-Grows :
    (nm hv : Expr) (e : HmrUriElement) (g : CppEmitter) → GrowsTo g (emit_element_delete nm hv e g)
unfolding emit_element_delete
emit_element_delete-Grows nm hv e g =
    if_either (GrowsTo g) (is_whole e) _ _ (Grows-refl g) (emit_set_element-Grows nm hv e _ g)

pub emit_element_action-Grows :
    (hr : HeaderRule) (er : ElementRule) (e : HmrUriElement) (nm hv ev : Expr) (g : CppEmitter)
    → GrowsTo g (emit_element_action hr er e nm hv ev g)
unfolding emit_element_action
emit_element_action-Grows hr er e nm hv ev g =
    elim er.action
      as (λ a. GrowsTo g (emit_element_action hr (record er { action = a }) e nm hv ev g)) [
        | ElementAction.replace ↦ emit_element_replace-Grows nm hv e er g
        | ElementAction.delete_element ↦ emit_element_delete-Grows nm hv e g
        | ElementAction.store ↦ slot_for-Grows _ g
        | ElementAction.reject ↦ emit_reject-Grows er.new_value er.name g
        | _ ↦ Grows-refl g
      ]

pub emit_element_value-Grows :
    (hv : Expr) (e : HmrUriElement) (g : CppEmitter) → ValueGrows g (emit_element_value hv e g)
unfolding emit_element_value
emit_element_value-Grows hv e g =
    if_either (ValueGrows g) (is_whole e) _ _ (Grows-refl g) (next_temp-Grows g)

pub emit_element_rule-Grows :
    (hr : HeaderRule) (nm : Expr) (er : ElementRule) (e : HmrUriElement) (g : CppEmitter)
    → GrowsTo g (emit_element_rule hr nm er e g)
unfolding emit_element_rule
emit_element_rule-Grows hr nm er e g =
    let (hv, g1) = next_temp g in
    let (vs, ev, g2) = emit_element_value (temp hv) e g1 in
    let (gs, g3) = emit_match_guard er.comparison er.match_val_type er.match_value ev g2 in
    Grows-trans g g1 _ (next_temp-Grows g) (
      Grows-trans g1 g2 _ (emit_element_value-Grows (temp hv) e g1) (
        Grows-trans g2 g3 _
          (emit_match_guard-Grows er.comparison er.match_val_type er.match_value ev g2)
          (emit_element_action-Grows hr er e nm (temp hv) ev g3)))

pub emit_elements-Grows :
    (hr : HeaderRule) (nm : Expr) (ers : List ElementRule) (g : CppEmitter)
    → GrowsTo g (emit_elements hr nm ers g)
unfolding emit_elements
emit_elements-Grows hr nm [] g = Grows-refl g
emit_elements-Grows hr nm (er ∷ ers) g = elim (Option-cases (uri_element er.type)) [
  | inl unsupported ↦ rw (unsupported, emit_elements) (emit_elements-Grows hr nm ers g)
  | inr (e, supported) ↦
      rw (supported, emit_elements)
        (Grows-trans g (emit_element_rule hr nm er e g).1 _ (emit_element_rule-Grows hr nm er e g)
          (emit_elements-Grows hr nm ers _))
]

pub emit_rest-Grows : (hr : HeaderRule) (b : Bool) (g : CppEmitter) → GrowsTo g (emit_rest hr b g)
unfolding emit_rest emit_element_rules
emit_rest-Grows hr b g = if_either (GrowsTo g) b _ _ (Grows-refl g) (
    if_either (GrowsTo g) (length hr.element_rules == 0) _ _ (Grows-refl g) (
      Grows-trans g (next_temp g).1 _ (next_temp-Grows g)
        (emit_elements-Grows hr _ hr.element_rules _)))

pub emit_header_value-Grows :
    (hr : HeaderRule) (g : CppEmitter) → ValueGrows g (emit_header_value hr g)
unfolding emit_header_value
emit_header_value-Grows hr g =
    if_either (ValueGrows g) (not (empty hr.match_value) || is_store hr.action) _ _
      (next_temp-Grows g) (Grows-refl g)

pub emit_header_guard-Grows :
    (hr : HeaderRule) (hv : Option Expr) (g : CppEmitter) → GrowsTo g (emit_header_guard hr hv g)
unfolding emit_header_guard
emit_header_guard-Grows hr none g = Grows-refl g
emit_header_guard-Grows hr (some hv) g =
    emit_match_guard-Grows hr.comparison MatchValType.any hr.match_value hv g

emit_method_guard-Grows :
    (methods : List Bytes) (g : CppEmitter) → GrowsTo g (emit_method_guard methods g)
unfolding emit_method_guard
emit_method_guard-Grows methods g =
    if_either (GrowsTo g) (length methods == 0) _ _ (Grows-refl g) (next_temp-Grows g)

pub emit_header_rule-Grows :
    (hr : HeaderRule) (idx : ℕ) (g : CppEmitter) → GrowsTo g (emit_header_rule hr idx g)
unfolding emit_header_rule emit_head
emit_header_rule-Grows hr idx g =
    let (ms, g1) = emit_method_guard hr.methods g in
    let (vs, hv, g2) = emit_header_value hr g1 in
    let (gs, g3) = emit_header_guard hr hv g2 in
    let (terminated, acts, g4) = emit_header_action hr idx hv g3 in
    Grows-trans g g1 _ (emit_method_guard-Grows hr.methods g) (
      Grows-trans g1 g2 _ (emit_header_value-Grows hr g1) (
        Grows-trans g2 g3 _ (emit_header_guard-Grows hr hv g2) (
          Grows-trans g3 g4 _ (emit_header_action-Grows hr idx hv g3)
            (emit_rest-Grows hr terminated g4))))

pub emit_rules-Grows :
    (hrs : List HeaderRule) (i : ℕ) (g : CppEmitter) → GrowsTo g (emit_rules hrs i g)
unfolding emit_rules
emit_rules-Grows [] i g = Grows-refl g
emit_rules-Grows (hr ∷ hrs) i g =
    Grows-trans g (emit_header_rule hr i g).1 _ (emit_header_rule-Grows hr i g)
      (emit_rules-Grows hrs (i + 1) _)
