-- ===== src/Ir/Tables.antt =====
-- The tables of the LLVM back-end (src/codegen/ir_generator.cpp) beside those of the C++ back-end
-- (src/codegen/cpp_generator.cpp): values and guards.
use olproff_fastsbc_hmr.Base.{
  ℕ, Bool, not, ◌&&◌, ◌||◌, none, some, List, [], ◌∷◌, ◌++◌, if◌then◌else◌, length, ◌≡◌, refl, sym,
  ap, ◌∙◌, Option-cases, inl, inr,
}
use olproff_fastsbc_hmr.Text.{Bytes}
use olproff_fastsbc_hmr.Value.{
  ValueRef, ValueSegment, lit, ref, variable, capture, rule_ref, Value, empty, single_ref,
  is_pure_literal, is_regex_literal,
}
use olproff_fastsbc_hmr.Ast.{ComparisonType, MatchValType}
use olproff_fastsbc_hmr.Lowering.{is_pattern, is_case_insensitive}
use olproff_fastsbc_hmr.Interp.{regex_index, slot_id}
use olproff_fastsbc_hmr.Codegen.{Expr, Stmt, CppEmitter}
use olproff_fastsbc_hmr.Codegen
use olproff_fastsbc_hmr.Codegen.Emit
use olproff_fastsbc_hmr.Codegen.Rules
use olproff_fastsbc_hmr.Codegen.Agreement.{if-both}
use olproff_fastsbc_hmr.Ir.{
  Op, IrStr, Emitter, str_call, int_call, guard, new_block, add_regex, slot_for, slot_for_ref,
}
use olproff_fastsbc_hmr.Ir.Emit.{
  emit_ref, emit_segment, emit_segments, emit_build, emit_value, emit_match, emit_match_guard,
  pattern_of,
}
use olproff_fastsbc_hmr.Ir.Rules.{emit_message}

-- One table of patterns, and one of slots.
abbrev pub Same : Emitter → CppEmitter → Type 0
Same g h = (g.regexes ≡ h.regexes) × (g.slots ≡ h.slots)

abbrev pub After : {A B : Type 0} → A × Emitter → B × CppEmitter → Type 0
After (a, g) (b, h) = Same g h

abbrev pub AfterValue : {A B C D : Type 0} → A × B × Emitter → C × D × CppEmitter → Type 0
AfterValue (a, b, g) (c, d, h) = Same g h

-- What a name or a pattern adds to its table.
unfoldable with_slot : Bytes → List (Bytes × ℕ) → List (Bytes × ℕ)
with_slot name l = elim (slot_id name l) [ some id ↦ l | none ↦ l ++ (name, length l) ∷ [] ]

unfoldable with_regex : Bytes → ℕ → List (Bytes × ℕ) → List (Bytes × ℕ)
with_regex p f l = elim (regex_index p f 0 l) [ some i ↦ l | none ↦ l ++ (p, f) ∷ [] ]

ir_slots :
    (name : Bytes) (g : Emitter)
    → ((slot_for name g).1.regexes ≡ g.regexes)
      × ((slot_for name g).1.slots ≡ with_slot name g.slots)
unfolding slot_for with_slot
ir_slots name g = elim (Option-cases (slot_id name g.slots)) [
  | inl new ↦ rw (new, slot_for, with_slot) (refl, refl)
  | inr (id, known) ↦ rw (known, slot_for, with_slot) (refl, refl)
]

cpp_slots :
    (name : Bytes) (h : CppEmitter)
    → ((Codegen.slot_for name h).1.regexes ≡ h.regexes)
      × ((Codegen.slot_for name h).1.slots ≡ with_slot name h.slots)
unfolding Codegen.slot_for with_slot
cpp_slots name h = elim (Option-cases (slot_id name h.slots)) [
  | inl new ↦ rw (new, Codegen.slot_for, with_slot) (refl, refl)
  | inr (id, known) ↦ rw (known, Codegen.slot_for, with_slot) (refl, refl)
]

ir_regexes :
    (p : Bytes) (ci : Bool) (g : Emitter)
    → ((add_regex p ci g).1.regexes ≡ with_regex p (if ci then 1 else 0) g.regexes)
      × ((add_regex p ci g).1.slots ≡ g.slots)
unfolding add_regex with_regex
ir_regexes p ci g = elim (Option-cases (regex_index p (if ci then 1 else 0) 0 g.regexes)) [
  | inl new ↦ rw (new, add_regex, with_regex) (refl, refl)
  | inr (id, known) ↦ rw (known, add_regex, with_regex) (refl, refl)
]

cpp_regexes :
    (p : Bytes) (ci : Bool) (h : CppEmitter)
    → ((Codegen.add_regex p ci h).1.regexes ≡ with_regex p (if ci then 1 else 0) h.regexes)
      × ((Codegen.add_regex p ci h).1.slots ≡ h.slots)
unfolding Codegen.add_regex with_regex
cpp_regexes p ci h = elim (Option-cases (regex_index p (if ci then 1 else 0) 0 h.regexes)) [
  | inl new ↦ rw (new, Codegen.add_regex, with_regex) (refl, refl)
  | inr (id, known) ↦ rw (known, Codegen.add_regex, with_regex) (refl, refl)
]

pub slot_for-Same :
    (name : Bytes) (g : Emitter) (h : CppEmitter)
    → Same g h
    → Same (slot_for name g).1 (Codegen.slot_for name h).1
slot_for-Same name g h (r, s) =
    let (r1, s1) = ir_slots name g in
    let (r2, s2) = cpp_slots name h in (r1 ∙ r ∙ sym r2, s1 ∙ ap (with_slot name) s ∙ sym s2)

add_regex-Same :
    (p : Bytes) (ci : Bool) (g : Emitter) (h : CppEmitter)
    → Same g h
    → Same (add_regex p ci g).1 (Codegen.add_regex p ci h).1
add_regex-Same p ci g h (r, s) =
    let (r1, s1) = ir_regexes p ci g in
    let (r2, s2) = cpp_regexes p ci h in
    (r1 ∙ ap (with_regex p (if ci then 1 else 0)) r ∙ sym r2, s1 ∙ s ∙ sym s2)

emit_ref-Same :
    (r : ValueRef) (g : Emitter) (h : CppEmitter)
    → Same g h
    → AfterValue (emit_ref r g) (Codegen.Emit.emit_ref r h)
unfolding emit_ref Codegen.Emit.emit_ref str_call Codegen.next_temp slot_for_ref
    Codegen.slot_for_ref
emit_ref-Same r g h p =
    elim r.kind
      as (λ k.
        AfterValue (emit_ref (record r { kind = k }) g)
          (Codegen.Emit.emit_ref (record r { kind = k }) h)) [
            | variable ↦ p
            | capture ↦ p
            | rule_ref ↦ slot_for-Same _ g (Codegen.next_temp h).1 p
          ]

emit_segment-Same :
    (seg : ValueSegment) (g : Emitter) (h : CppEmitter)
    → Same g h
    → After (emit_segment seg g) (Codegen.Emit.emit_segment seg h)
unfolding emit_segment Codegen.Emit.emit_segment slot_for_ref Codegen.slot_for_ref
emit_segment-Same (lit text) g h p = p
emit_segment-Same (ref r) g h p =
    elim r.kind
      as (λ k.
        After (emit_segment (ref (record r { kind = k })) g)
          (Codegen.Emit.emit_segment (ref (record r { kind = k })) h)) [
            | variable ↦ p
            | capture ↦ p
            | rule_ref ↦ slot_for-Same _ g h p
          ]

emit_segments-Same :
    (segs : List ValueSegment) (g : Emitter) (h : CppEmitter)
    → Same g h
    → After (emit_segments segs g) (Codegen.Emit.emit_segments segs h)
unfolding emit_segments Codegen.Emit.emit_segments
emit_segments-Same [] g h p = p
emit_segments-Same (seg ∷ segs) g h p =
    emit_segments-Same segs (emit_segment seg g).1 (Codegen.Emit.emit_segment seg h).1
      (emit_segment-Same seg g h p)

pub emit_value-Same :
    (v : Value) (g : Emitter) (h : CppEmitter)
    → Same g h
    → AfterValue (emit_value v g) (Codegen.Emit.emit_value v h)
unfolding emit_value Codegen.Emit.emit_value emit_build Codegen.Emit.emit_build str_call
    Codegen.next_temp
emit_value-Same v g h p = if-both AfterValue (empty v) _ _ _ _ p (
    if-both AfterValue (is_pure_literal v) _ _ _ _ p
      (elim (single_ref v)
        as (λ o.
          AfterValue {A = List Op} {B = IrStr} {C = List Stmt} {D = Expr}
            (elim o [ some r ↦ emit_ref r g | none ↦ emit_build v g ])
            (elim o [ some r ↦ Codegen.Emit.emit_ref r h | none ↦ Codegen.Emit.emit_build v h ])) [
              | some r ↦ emit_ref-Same r g h p
              | none ↦ emit_segments-Same v.segments g h p
            ]))

pub emit_match_guard-Same :
    (cmp : ComparisonType) (mvt : MatchValType) (mv : Value) (e : IrStr) (skip : ℕ) (e' : Expr)
    (g : Emitter) (h : CppEmitter)
    → Same g h
    → After (emit_match_guard cmp mvt mv e skip g) (Codegen.Emit.emit_match_guard cmp mvt mv e' h)
unfolding emit_match_guard Codegen.Emit.emit_match_guard emit_match pattern_of
    Codegen.Emit.pattern_of int_call guard new_block
emit_match_guard-Same cmp mvt mv e skip e' g h p =
    if-both After (empty mv || (not (is_regex_literal mv) && not (is_pure_literal mv))) _ _ _ _ p (
      if-both After (is_pattern cmp) _ _ _ _
        (add_regex-Same (pattern_of mv) (is_case_insensitive cmp) g h p) p)

pub emit_message-Same :
    (v : Value) (name : Bytes) (g : Emitter) (h : CppEmitter)
    → Same g h
    → AfterValue (emit_message v name g) (Codegen.Rules.emit_message v name h)
unfolding emit_message Codegen.Rules.emit_message
emit_message-Same v name g h p = if-both AfterValue (empty v) _ _ _ _ p (emit_value-Same v g h p)
