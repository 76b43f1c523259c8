-- ===== src/Codegen/ScopedValues.antt =====
-- emit_value and emit_match_guard of src/codegen/cpp_generator.cpp: what they use is in scope, and what
-- they declare is not.
use Prim.{tt}
use olproff_fastsbc_hmr.Base.{
  ℕ, not, ◌&&◌, ◌||◌, none, some, List, [], ◌∷◌, ◌++◌, ◌==◌, length, refl, inl,
}
use olproff_fastsbc_hmr.Text.{Bytes}
use olproff_fastsbc_hmr.Value.{
  ValueRef, ValueSegment, lit, ref, variable, capture, rule_ref, Value, empty, single_ref,
  is_pure_literal, is_regex_literal,
}
use olproff_fastsbc_hmr.Ast.{ComparisonType, MatchValType}
use olproff_fastsbc_hmr.Lowering.{is_pattern, is_case_insensitive}
use olproff_fastsbc_hmr.Codegen.{Expr, temp, Stmt, val_finish, CppEmitter, slot_for_ref, next_temp}
use olproff_fastsbc_hmr.Codegen.Emit.{
  emit_ref, emit_segment, emit_segments, emit_build, emit_value, emit_match_guard, pattern_of,
}
use olproff_fastsbc_hmr.Codegen.Rules.{emit_message}
use olproff_fastsbc_hmr.Codegen.Agreement.{if_either}
use olproff_fastsbc_hmr.Codegen.Grows.{Grows, slot_for-Grows, add_regex-Grows}
use olproff_fastsbc_hmr.Codegen.Scope.{
  Known, scope_of, Below, Emits, EmitsValue, Below-weaken, Below-fresh, Below-declare,
  scope_of-append, Scoped-append, Emits-append,
}

-- A later emitter has the counter above what an earlier one has it above.
pub Below-Grows : (g g' : CppEmitter) (s : List ℕ) → Grows g g' → Below g.temp_ s → Below g'.temp_ s
Below-Grows g g' s (h, c) p = Below-weaken g.temp_ g'.temp_ s h p

emit_ref-EmitsValue :
    (r : ValueRef) (g : CppEmitter) (s : List ℕ) → Below g.temp_ s → EmitsValue s (emit_ref r g)
unfolding emit_ref next_temp slot_for_ref
emit_ref-EmitsValue r g s p =
    let fresh = Below-fresh g.temp_ s p in
    let next = Below-declare g.temp_ s p in
    elim r.kind as (λ k. EmitsValue s (emit_ref (record r { kind = k }) g)) [
      | variable ↦ ((tt, (fresh, tt), tt), inl refl, next)
      | capture ↦ ((tt, (fresh, tt), tt), inl refl, next)
      | rule_ref ↦ (
        (tt, (fresh, tt), tt),
        inl refl,
        Below-Grows _ _ (g.temp_ ∷ s) (slot_for-Grows _ (next_temp g).1) next,
      )
    ]

emit_segment-Emits :
    (seg : ValueSegment) (g : CppEmitter) (s : List ℕ)
    → Below g.temp_ s
    → Emits s (emit_segment seg g)
unfolding emit_segment slot_for_ref
emit_segment-Emits (lit text) g s p =
    if_either (λ ss. Emits s (ss, g)) (length text == 0) _ _ (tt, p) ((tt, tt, tt), p)
emit_segment-Emits (ref r) g s p =
    elim r.kind as (λ k. Emits s (emit_segment (ref (record r { kind = k })) g)) [
      | variable ↦ ((tt, tt, tt), p)
      | capture ↦ ((tt, tt, tt), p)
      | rule_ref ↦ ((tt, tt, tt), Below-Grows g _ s (slot_for-Grows _ g) p)
    ]

emit_segments-Emits :
    (segs : List ValueSegment) (g : CppEmitter) (s : List ℕ)
    → Below g.temp_ s
    → Emits s (emit_segments segs g)
unfolding emit_segments
emit_segments-Emits [] g s p = (tt, p)
emit_segments-Emits (seg ∷ segs) g s p =
    let (ss, g1) = emit_segment seg g in
    let (rest, g2) = emit_segments segs g1 in
    let (scoped, below) = emit_segment-Emits seg g s p in
    Emits-append ss rest g2 s scoped (emit_segments-Emits segs g1 (scope_of ss s) below)

-- The result of the scratch buffer is declared last.
finish_last :
    (ss : List Stmt) (g : CppEmitter) (s : List ℕ)
    → Emits s (ss, g)
    → EmitsValue s (ss ++ val_finish g.temp_ ∷ [], temp g.temp_, (next_temp g).1)
unfolding next_temp
finish_last ss g s (scoped, below) =
    let fresh = Below-fresh g.temp_ (scope_of ss s) below in
    (
      Scoped-append ss (val_finish g.temp_ ∷ []) s scoped (tt, (fresh, tt), tt),
      rw (scope_of-append ss (val_finish g.temp_ ∷ []) s) (inl refl),
      rw (scope_of-append ss (val_finish g.temp_ ∷ []) s)
          (Below-declare g.temp_ (scope_of ss s) below),
    )

emit_build-EmitsValue :
    (v : Value) (g : CppEmitter) (s : List ℕ) → Below g.temp_ s → EmitsValue s (emit_build v g)
unfolding emit_build next_temp
emit_build-EmitsValue v g s p =
    let (ss, g1) = emit_segments v.segments g in
    let (scoped, known, below) = finish_last ss g1 s (emit_segments-Emits v.segments g s p) in
    ((tt, tt, scoped), known, below)

pub emit_value-EmitsValue :
    (v : Value) (g : CppEmitter) (s : List ℕ) → Below g.temp_ s → EmitsValue s (emit_value v g)
unfolding emit_value
emit_value-EmitsValue v g s p =
    if_either (EmitsValue s) (empty v) _ _ (tt, tt, p)
      (if_either (EmitsValue s) (is_pure_literal v) _ _ (tt, tt, p)
        (elim (single_ref v)
          as (λ o. EmitsValue s (elim o [ some r ↦ emit_ref r g | none ↦ emit_build v g ])) [
            | some r ↦ emit_ref-EmitsValue r g s p
            | none ↦ emit_build-EmitsValue v g s p
          ]))

pub emit_match_guard-Emits :
    (cmp : ComparisonType) (mvt : MatchValType) (mv : Value) (e : Expr) (g : CppEmitter)
    (s : List ℕ)
    → Below g.temp_ s
    → Known s e
    → Emits s (emit_match_guard cmp mvt mv e g)
unfolding emit_match_guard
emit_match_guard-Emits cmp mvt mv e g s p known =
    if_either (Emits s) (empty mv || (not (is_regex_literal mv) && not (is_pure_literal mv))) _ _
      (tt, p)
      (if_either (Emits s) (is_pattern cmp) _ _
        (
          (known, tt, tt),
          Below-Grows g _ s (add_regex-Grows (pattern_of mv) (is_case_insensitive cmp) g) p,
        )
        ((known, tt, tt), p))

pub emit_message-EmitsValue :
    (v : Value) (name : Bytes) (g : CppEmitter) (s : List ℕ)
    → Below g.temp_ s
    → EmitsValue s (emit_message v name g)
unfolding emit_message
emit_message-EmitsValue v name g s p =
    if_either (EmitsValue s) (empty v) _ _ (tt, tt, p) (emit_value-EmitsValue v g s p)
