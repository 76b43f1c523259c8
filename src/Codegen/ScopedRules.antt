-- ===== src/Codegen/ScopedRules.antt =====
-- The emit functions of element rules of src/codegen/cpp_generator.cpp: what they use is
-- in scope, and what they declare is not.
use Prim.{tt}
use olproff_fastsbc_hmr.Base.{ℕ, Bool, false, List, [], ◌∷◌, ◌++◌, inl, refl}
use olproff_fastsbc_hmr.Uri.{HmrUriElement}
use olproff_fastsbc_hmr.Ast.{ElementAction, ElementRule, HeaderRule}
use olproff_fastsbc_hmr.Interp.Rules.{is_whole}
use olproff_fastsbc_hmr.Codegen.{Expr, temp, str_lit, Stmt, return, CppEmitter, next_temp}
use olproff_fastsbc_hmr.Codegen.Emit.{emit_value, emit_match_guard}
use olproff_fastsbc_hmr.Codegen.Rules.{
  emit_set_element, emit_element_replace, emit_element_delete, emit_element_action,
  emit_element_value, emit_element_rule,
}
use olproff_fastsbc_hmr.Codegen.Agreement.{if_either}
use olproff_fastsbc_hmr.Codegen.Grows.{slot_for-Grows}
use olproff_fastsbc_hmr.Codegen.Scope.{
  Known, scope_of, Below, Emits, EmitsValue, Below-fresh, Below-declare, Known-scope_of, Known-more,
  Emits-append,
}
use olproff_fastsbc_hmr.Codegen.ScopedValues.{
  Below-Grows, emit_value-EmitsValue, emit_match_guard-Emits,
}
use olproff_fastsbc_hmr.Codegen.ScopedActions.{emit_reject-Emits}

emit_set_element-Emits :
    (nm hv : Expr) (e : HmrUriElement) (nv : Expr) (g : CppEmitter) (s : List ℕ)
    → Below g.temp_ s
    → Known s nm
    → Known s hv
    → Known s nv
    → Emits s (emit_set_element nm hv e nv g)
unfolding emit_set_element next_temp
emit_set_element-Emits nm hv e nv g s p nm_ hv_ nv_ =
    if_either (Emits s) (is_whole e) _ _ (((nm_, nv_), tt, tt), p)
      (
        (
          (hv_, nv_),
          (Below-fresh g.temp_ s p, tt),
          ((Known-more nm g.temp_ s nm_, inl refl), tt, tt),
        ),
        Below-declare g.temp_ s p,
      )

emit_element_replace-Emits :
    (nm hv : Expr) (e : HmrUriElement) (er : ElementRule) (g : CppEmitter) (s : List ℕ)
    → Below g.temp_ s
    → Known s nm
    → Known s hv
    → Emits s (emit_element_replace nm hv e er g)
unfolding emit_element_replace
emit_element_replace-Emits nm hv e er g s p nm_ hv_ =
    let (ss, nv, g1) = emit_value er.new_value g in
    let (rest, g2) = emit_set_element nm hv e nv g1 in
    let (scoped, known, below) = emit_value-EmitsValue er.new_value g s p in
    Emits-append ss rest g2 s scoped (
      emit_set_element-Emits nm hv e nv g1 (scope_of ss s) below (Known-scope_of nm ss s nm_)
        (Known-scope_of hv ss s hv_) known)

emit_element_delete-Emits :
    (nm hv : Expr) (e : HmrUriElement) (g : CppEmitter) (s : List ℕ)
    → Below g.temp_ s
    → Known s nm
    → Known s hv
    → Emits s (emit_element_delete nm hv e g)
unfolding emit_element_delete
emit_element_delete-Emits nm hv e g s p nm_ hv_ =
    if_either (Emits s) (is_whole e) _ _ ((nm_, tt, tt), p)
      (emit_set_element-Emits nm hv e (str_lit []) g s p nm_ hv_ tt)

-- The `return` behind statements.
then_return :
    (ss : List Stmt) (b : Bool) (g : CppEmitter) (s : List ℕ)
    → Emits s (ss, g)
    → Emits s (ss ++ return b ∷ [], g)
then_return ss b g s (scoped, below) =
    Emits-append ss (return b ∷ []) g s scoped ((tt, tt, tt), below)

emit_element_action-Emits :
    (hr : HeaderRule) (er : ElementRule) (e : HmrUriElement) (nm hv ev : Expr) (g : CppEmitter)
    (s : List ℕ)
    → Below g.temp_ s
    → Known s nm
    → Known s hv
    → Known s ev
    → Emits s (emit_element_action hr er e nm hv ev g)
unfolding emit_element_action
emit_element_action-Emits hr er e nm hv ev g s p nm_ hv_ ev_ =
    let (rs, g2) = emit_element_replace nm hv e er g in
    let (ds, g3) = emit_element_delete nm hv e g in
    elim er.action
      as (λ a. Emits s (emit_element_action hr (record er { action = a }) e nm hv ev g)) [
        | ElementAction.replace ↦
            then_return rs false g2 s (emit_element_replace-Emits nm hv e er g s p nm_ hv_)
        | ElementAction.delete_element ↦
            then_return ds false g3 s (emit_element_delete-Emits nm hv e g s p nm_ hv_)
        | ElementAction.store ↦ ((ev_, tt, (tt, tt, tt)), Below-Grows g _ s (slot_for-Grows _ g) p)
        | ElementAction.reject ↦ emit_reject-Emits er.new_value er.name g s p
        | _ ↦ ((tt, tt, tt), p)
      ]

emit_element_value-EmitsValue :
    (hv : Expr) (e : HmrUriElement) (g : CppEmitter) (s : List ℕ)
    → Below g.temp_ s
    → Known s hv
    → EmitsValue s (emit_element_value hv e g)
unfolding emit_element_value next_temp
emit_element_value-EmitsValue hv e g s p hv_ =
    if_either (EmitsValue s) (is_whole e) _ _ (tt, hv_, p)
      ((hv_, (Below-fresh g.temp_ s p, tt), tt), inl refl, Below-declare g.temp_ s p)

pub emit_element_rule-Emits :
    (hr : HeaderRule) (nm : Expr) (er : ElementRule) (e : HmrUriElement) (g : CppEmitter)
    (s : List ℕ)
    → Below g.temp_ s
    → Known s nm
    → Emits s (emit_element_rule hr nm er e g)
unfolding emit_element_rule next_temp
emit_element_rule-Emits hr nm er e g s p nm_ =
    let (hv, g1) = next_temp g in
    let s1 = g.temp_ ∷ s in
    let (vs, ev, g2) = emit_element_value (temp hv) e g1 in
    let (vs_, ev_, below2) =
      emit_element_value-EmitsValue (temp hv) e g1 s1 (Below-declare g.temp_ s p) (inl refl) in
    let s2 = scope_of vs s1 in
    let (gs, g3) = emit_match_guard er.comparison er.match_val_type er.match_value ev g2 in
    let (gs_, below3) =
      emit_match_guard-Emits er.comparison er.match_val_type er.match_value ev g2 s2 below2 ev_ in
    let s3 = scope_of gs s2 in
    let (acts, g4) = emit_element_action hr er e nm (temp hv) ev g3 in
    let nm3 = Known-scope_of nm gs s2 (Known-scope_of nm vs s1 (Known-more nm g.temp_ s nm_)) in
    let hv3 = Known-scope_of (temp hv) gs s2 (Known-scope_of (temp hv) vs s1 (inl refl)) in
    let acts_ =
      emit_element_action-Emits hr er e nm (temp hv) ev g3 s3 below3 nm3 hv3
        (Known-scope_of ev gs s2 ev_) in
    let (scoped, below) =
      Emits-append vs (gs ++ acts) g4 s1 vs_ (Emits-append gs acts g4 s2 gs_ acts_) in
    ((nm_, (Below-fresh g.temp_ s p, tt), scoped), below)
