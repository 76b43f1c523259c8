-- ===== src/Codegen/Agreement.antt =====
-- The tables that CppEmitter fills (src/codegen/cpp_generator.cpp), and those that the scan of
-- src/interp/interpreter.cpp fills.
use olproff_fastsbc_hmr.Base.{
  Bool, true, false, not, ◌&&◌, ◌||◌, none, some, List, [], ◌∷◌, ◌==◌, if◌then◌else◌, length, ◌≡◌,
  refl, inl, inr, Option-cases,
}
use olproff_fastsbc_hmr.Text.{Bytes}
use olproff_fastsbc_hmr.Arena.{HmrStr}
use olproff_fastsbc_hmr.Value.{
  ValueRef, ValueSegment, lit, ref, variable, capture, rule_ref, Value, empty, single_ref,
  is_pure_literal, is_regex_literal,
}
use olproff_fastsbc_hmr.Ast.{ComparisonType, MatchValType}
use olproff_fastsbc_hmr.Lowering.{is_pattern, is_case_insensitive}
use olproff_fastsbc_hmr.Runtime.Matching.{Search}
use olproff_fastsbc_hmr.Interp
use olproff_fastsbc_hmr.Interp.{Tables, State, regex_index, slot_id, index_or_zero}
use olproff_fastsbc_hmr.Interp.Eval.{
  eval_ref, append_segments, build_value, eval_value, run_guard, eval_match_guard, guard_pattern,
}
use olproff_fastsbc_hmr.Codegen.{
  Expr, Stmt, CppEmitter, add_regex, slot_for, slot_for_ref, next_temp,
}
use olproff_fastsbc_hmr.Codegen.Emit.{
  emit_ref, emit_segment, emit_segments, emit_build, emit_value, emit_match_guard, pattern_of,
}

-- The tables of the interpreter that an emitter has filled so far.
abbrev pub open_tables : CppEmitter → Tables
open_tables g = record { regexes = g.regexes; slots = g.slots; frozen = false }

-- A relation between two computations that branch on the same test.
pub if-both {ℓ κ} :
    {A B : Type ℓ} (rel : A → B → Type κ) (b : Bool) (x x' : A) (y y' : B)
    → rel x y
    → rel x' y'
    → rel (if b then x else x') (if b then y else y')
if-both rel true x x' y y' p q = p
if-both rel false x x' y y' p q = q

pub if_either {ℓ κ} :
    {A : Type ℓ} (P : A → Type κ) (b : Bool) (x y : A) → P x → P y → P (if b then x else y)
if_either P true x y p q = p
if_either P false x y p q = q

pub slot_for-open :
    (name : Bytes) (g : CppEmitter)
    → Interp.slot_for name (open_tables g) ≡ ((slot_for name g).0, open_tables (slot_for name g).1)
unfolding Interp.slot_for slot_for
slot_for-open name g = elim (Option-cases (slot_id name g.slots)) [
  | inl new ↦ rw (new, Interp.slot_for, slot_for) refl
  | inr (id, known) ↦ rw (known, Interp.slot_for, slot_for) refl
]

pub add_regex-open :
    (pattern : Bytes) (ci : Bool) (g : CppEmitter)
    → Interp.add_regex pattern ci (open_tables g)
      ≡ ((add_regex pattern ci g).0, open_tables (add_regex pattern ci g).1)
unfolding Interp.add_regex add_regex
add_regex-open pattern ci g =
    elim (Option-cases (regex_index pattern (if ci then 1 else 0) 0 g.regexes)) [
      | inl new ↦ rw (new, Interp.add_regex, add_regex) refl
      | inr (id, known) ↦ rw (known, Interp.add_regex, add_regex) refl
    ]

module _ {R : Type 0} where
  -- The interpreter's tables are the emitter's.
  abbrev pub InStep : State R → CppEmitter → Type 0
  InStep st g = st.tables ≡ open_tables g

  abbrev pub ValueInStep : HmrStr × State R → List Stmt × Expr × CppEmitter → Type 0
  ValueInStep (s, st) (ss, e, g) = InStep st g

  pub slot-InStep :
      (name : Bytes) (st : State R) (g : CppEmitter)
      → InStep st g
      → (Interp.slot_for name st.tables).1 ≡ open_tables (slot_for name g).1
  slot-InStep name st g h = rw (h, slot_for-open name g) refl

  ref-InStep :
      (r : ValueRef) (st : State R) (g : CppEmitter)
      → InStep st g
      → ValueInStep (eval_ref r st) (emit_ref r g)
  unfolding eval_ref emit_ref next_temp Interp.slot_for_ref slot_for_ref
  ref-InStep r st g h =
      elim r.kind
        as (λ k.
          ValueInStep (eval_ref (record r { kind = k }) st) (emit_ref (record r { kind = k }) g)) [
            | variable ↦ h
            | capture ↦ h
            | rule_ref ↦ slot-InStep _ st _ h
          ]

  segments-InStep :
      (segs : List ValueSegment) (st : State R) (g : CppEmitter)
      → InStep st g
      → InStep (append_segments segs st) (emit_segments segs g).1
  unfolding append_segments emit_segments emit_segment Interp.slot_for_ref slot_for_ref
  segments-InStep [] st g h = h
  segments-InStep (lit text ∷ segs) st g h =
      segments-InStep segs _ g
        (if-both (λ (s : State R) (x : Bool). InStep s g) (length text == 0) _ _ true true h h)
  segments-InStep (ref r ∷ segs) st g h =
      elim r.kind
        as (λ k.
          let r' = record r { kind = k } in
          InStep (append_segments (ref r' ∷ segs) st) (emit_segments (ref r' ∷ segs) g).1) [
            | variable ↦ segments-InStep segs _ g h
            | capture ↦ segments-InStep segs _ g h
            | rule_ref ↦ segments-InStep segs _ _ (slot-InStep _ st g h)
          ]

  pub value-InStep :
      (v : Value) (st : State R) (g : CppEmitter)
      → InStep st g
      → ValueInStep (eval_value v st) (emit_value v g)
  unfolding eval_value emit_value build_value emit_build next_temp
  value-InStep v st g h = if-both ValueInStep (empty v) _ _ _ _ h (
      if-both ValueInStep (is_pure_literal v) _ _ _ _ h
        (elim (single_ref v)
          as (λ o.
            ValueInStep (elim o [ some r ↦ eval_ref r st | none ↦ build_value v st ])
              (elim o [ some r ↦ emit_ref r g | none ↦ emit_build v g ])) [
                | some r ↦ ref-InStep r st g h
                | none ↦ segments-InStep v.segments _ g h
              ]))

  abbrev pub GuardInStep : Bool × State R → List Stmt × CppEmitter → Type 0
  GuardInStep (b, st) (ss, g) = InStep st g

module _ {R : Type 0} (search_in : Search R) where
  pub guard-InStep :
      (cmp : ComparisonType) (mvt : MatchValType) (mv : Value) (s : HmrStr) (e : Expr)
      (st : State R) (g : CppEmitter)
      → InStep st g
      → GuardInStep (eval_match_guard search_in cmp mvt mv s st) (emit_match_guard cmp mvt mv e g)
  unfolding eval_match_guard emit_match_guard run_guard guard_pattern pattern_of
  guard-InStep cmp mvt mv s e st g h =
      if-both GuardInStep (empty mv || (not (is_regex_literal mv) && not (is_pure_literal mv))) _ _
        _ _ h
        (if-both GuardInStep (is_pattern cmp) _ _ _ _
          (rw (h, add_regex-open (guard_pattern mv) (is_case_insensitive cmp) g) refl) h)
