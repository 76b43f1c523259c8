-- ===== src/Codegen/WellScoped.antt =====
-- The emit functions of header rules of src/codegen/cpp_generator.cpp, and the whole body: what is used is
-- in scope, and what is declared is not.
use Prim.{tt}
use olproff_fastsbc_hmr.Base.{
  ℕ, ◌+◌, Bool, false, not, ◌||◌, Option, none, some, List, [], ◌∷◌, ◌++◌, ◌==◌, length, map, inl,
  inr, refl, Option-cases,
}
use olproff_fastsbc_hmr.Text.{Bytes}
use olproff_fastsbc_hmr.Value.{empty}
use olproff_fastsbc_hmr.Ast.{MatchValType, MsgType, ElementRule, HeaderRule, Ruleset}
use olproff_fastsbc_hmr.Lowering.{uri_element}
use olproff_fastsbc_hmr.Interp.Walk.{is_store}
use olproff_fastsbc_hmr.Codegen.{
  Expr, temp, Stmt, return, Item, plain, element, CppEmitter, next_temp,
}
use olproff_fastsbc_hmr.Codegen.Rules.{
  emit_header_action, emit_element_rule, emit_elements, emit_element_rules, emit_type_guard,
  emit_method_guard, emit_header_value, emit_header_guard, emit_rest, emit_head, emit_header_rule,
  emit_rules, new_emitter, emit,
}
use olproff_fastsbc_hmr.Codegen.Agreement.{if_either}
use olproff_fastsbc_hmr.Codegen.ElementGrowth.{emit_element_rule-Grows}
use olproff_fastsbc_hmr.Codegen.Scope.{
  declared, KnownValue, Known, Scoped, scope_of, ScopedItems, ScopedBody, Below, Emits, Below-fresh,
  Below-declare, Known-scope_of, Emits-append,
}
use olproff_fastsbc_hmr.Codegen.ScopedValues.{Below-Grows, emit_match_guard-Emits}
use olproff_fastsbc_hmr.Codegen.ScopedActions.{EmitsAction, emit_header_action-EmitsAction}
use olproff_fastsbc_hmr.Codegen.ScopedRules.{emit_element_rule-Emits}

emit_elements-ScopedItems :
    (hr : HeaderRule) (nm : Expr) (ers : List ElementRule) (g : CppEmitter) (s : List ℕ)
    → Below g.temp_ s
    → Known s nm
    → ScopedItems s (emit_elements hr nm ers g).0
unfolding emit_elements
emit_elements-ScopedItems hr nm [] g s p nm_ = tt
emit_elements-ScopedItems hr nm (er ∷ ers) g s p nm_ = elim (Option-cases (uri_element er.type)) [
  | inl unsupported ↦
      rw (unsupported, emit_elements) (emit_elements-ScopedItems hr nm ers g s p nm_)
  | inr (e, supported) ↦
      let (ss, g1) = emit_element_rule hr nm er e g in
      let below = Below-Grows g g1 s (emit_element_rule-Grows hr nm er e g) p in
      rw (supported, emit_elements)
        (
          (emit_element_rule-Emits hr nm er e g s p nm_).0,
          emit_elements-ScopedItems hr nm ers g1 s below nm_,
        )
]

ScopedItems-return :
    (items : List Item) (b : Bool) (s : List ℕ)
    → ScopedItems s items
    → ScopedItems s (items ++ plain (return b) ∷ [])
ScopedItems-return [] b s p = (tt, tt, tt)
ScopedItems-return (plain st ∷ items) b s (u, f, p) =
    (u, f, ScopedItems-return items b (declared st ++ s) p)
ScopedItems-return (element title ss ∷ items) b s (q, p) = (q, ScopedItems-return items b s p)

ScopedItems-map :
    (ss : List Stmt) (rest : List Item) (s : List ℕ)
    → Scoped s ss
    → ScopedItems (scope_of ss s) rest
    → ScopedItems s (map plain ss ++ rest)
ScopedItems-map [] rest s p q = q
ScopedItems-map (st ∷ ss) rest s (u, f, p) q =
    (u, f, ScopedItems-map ss rest (declared st ++ s) p q)

emit_rest-ScopedItems :
    (hr : HeaderRule) (b : Bool) (g : CppEmitter) (s : List ℕ)
    → Below g.temp_ s
    → ScopedItems s (emit_rest hr b g).0
unfolding emit_rest emit_element_rules next_temp
emit_rest-ScopedItems hr b g s p =
    let (nm, g1) = next_temp g in
    let (items, g2) = emit_elements hr (temp nm) hr.element_rules g1 in
    let scoped =
      emit_elements-ScopedItems hr (temp nm) hr.element_rules g1 (nm ∷ s) (Below-declare nm s p)
        (inl refl) in
    let fresh = Below-fresh nm s p in
    let inner = λ (r : List Item × CppEmitter). ScopedItems s r.0 in
    if_either inner b ([], g) _ tt
      (if_either inner (length hr.element_rules == 0) _ _ (tt, tt, tt)
        (tt, (fresh, tt), ScopedItems-return items false (nm ∷ s) scoped))

-- Of the header value: its statements, and the temporary if there is one.
abbrev EmitsHeaderValue : List ℕ → List Stmt × Option Expr × CppEmitter → Type 0
EmitsHeaderValue s (ss, o, g) =
    Scoped s ss × KnownValue (scope_of ss s) o × Below g.temp_ (scope_of ss s)

emit_header_value-EmitsHeaderValue :
    (hr : HeaderRule) (g : CppEmitter) (s : List ℕ)
    → Below g.temp_ s
    → EmitsHeaderValue s (emit_header_value hr g)
unfolding emit_header_value next_temp
emit_header_value-EmitsHeaderValue hr g s p =
    if_either (EmitsHeaderValue s) (not (empty hr.match_value) || is_store hr.action) _ _
      ((tt, (Below-fresh g.temp_ s p, tt), tt), inl refl, Below-declare g.temp_ s p) (tt, tt, p)

emit_method_guard-Emits :
    (methods : List Bytes) (g : CppEmitter) (s : List ℕ)
    → Below g.temp_ s
    → Emits s (emit_method_guard methods g)
unfolding emit_method_guard next_temp
emit_method_guard-Emits methods g s p =
    if_either (Emits s) (length methods == 0) _ _ (tt, p)
      ((tt, (Below-fresh g.temp_ s p, tt), (inl refl, tt, tt)), Below-declare g.temp_ s p)

emit_header_guard-Emits :
    (hr : HeaderRule) (hv : Option Expr) (g : CppEmitter) (s : List ℕ)
    → Below g.temp_ s
    → KnownValue s hv
    → Emits s (emit_header_guard hr hv g)
unfolding emit_header_guard
emit_header_guard-Emits hr none g s p known = (tt, p)
emit_header_guard-Emits hr (some hv) g s p known =
    emit_match_guard-Emits hr.comparison MatchValType.any hr.match_value hv g s p known

KnownValue-scope_of :
    (o : Option Expr) (ss : List Stmt) (s : List ℕ) → KnownValue s o → KnownValue (scope_of ss s) o
KnownValue-scope_of none ss s h = tt
KnownValue-scope_of (some e) ss s h = Known-scope_of e ss s h

emit_type_guard-Emits : (type : MsgType) (g : CppEmitter) → Emits [] (emit_type_guard type, g)
unfolding emit_type_guard
emit_type_guard-Emits MsgType.any g = (tt, tt)
emit_type_guard-Emits MsgType.request g = ((tt, tt, tt), tt)
emit_type_guard-Emits MsgType.reply g = ((tt, tt, tt), tt)
emit_type_guard-Emits MsgType.out_of_dialog g = (tt, tt)

emit_head-EmitsAction :
    (hr : HeaderRule) (idx : ℕ) (g : CppEmitter) → EmitsAction [] (emit_head hr idx g)
unfolding emit_head
emit_head-EmitsAction hr idx g =
    let ts = emit_type_guard hr.msg_type in
    let (ts_, below0) = emit_type_guard-Emits hr.msg_type g in
    let s0 = scope_of ts [] in
    let (ms, g1) = emit_method_guard hr.methods g in
    let (ms_, below1) = emit_method_guard-Emits hr.methods g s0 below0 in
    let s1 = scope_of ms s0 in
    let (vs, hv, g2) = emit_header_value hr g1 in
    let (vs_, hv_, below2) = emit_header_value-EmitsHeaderValue hr g1 s1 below1 in
    let s2 = scope_of vs s1 in
    let (gs, g3) = emit_header_guard hr hv g2 in
    let (gs_, below3) = emit_header_guard-Emits hr hv g2 s2 below2 hv_ in
    let s3 = scope_of gs s2 in
    let (terminated, acts, g4) = emit_header_action hr idx hv g3 in
    let acts_ =
      emit_header_action-EmitsAction hr idx hv g3 s3 below3 (KnownValue-scope_of hv gs s2 hv_) in
    Emits-append ts (ms ++ (vs ++ (gs ++ acts))) g4 [] ts_ (
      Emits-append ms (vs ++ (gs ++ acts)) g4 s0 ms_
        (Emits-append vs (gs ++ acts) g4 s1 vs_ (Emits-append gs acts g4 s2 gs_ acts_)))

emit_header_rule-ScopedItems :
    (hr : HeaderRule) (idx : ℕ) (g : CppEmitter)
    → ScopedItems [] (emit_header_rule hr idx g).0.items
unfolding emit_header_rule
emit_header_rule-ScopedItems hr idx g =
    let (terminated, ss, g1) = emit_head hr idx g in
    let (scoped, below) = emit_head-EmitsAction hr idx g in
    ScopedItems-map ss (emit_rest hr terminated g1).0 [] scoped
      (emit_rest-ScopedItems hr terminated g1 (scope_of ss []) below)

emit_rules-ScopedBody :
    (hrs : List HeaderRule) (i : ℕ) (g : CppEmitter) → ScopedBody (emit_rules hrs i g).0
unfolding emit_rules
emit_rules-ScopedBody [] i g = tt
emit_rules-ScopedBody (hr ∷ hrs) i g = (
  emit_header_rule-ScopedItems hr i g,
  emit_rules-ScopedBody hrs (i + 1) (emit_header_rule hr i g).1,
)

-- For every ruleset, the emitted body is well scoped: in the lambda of each rule, each temporary that a
-- statement uses is declared before it there or, for the lambda of an element rule, before that in the
-- lambda around; and no statement declares a temporary that is in scope.
pub emit-ScopedBody : (rs : Ruleset) → ScopedBody (emit rs).0
unfolding emit
emit-ScopedBody rs = emit_rules-ScopedBody rs.header_rules 0 new_emitter
