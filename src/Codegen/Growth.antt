-- ===== src/Codegen/Growth.antt =====
-- The emit functions of values and header actions of src/codegen/cpp_generator.cpp keep what the emitter
-- holds.
use olproff_fastsbc_hmr.Base.{
  ℕ, zero, suc, ◌+◌, Bool, not, ◌&&◌, ◌||◌, Option, none, some, List, [], ◌∷◌, ◌++◌, ◌==◌,
  if◌then◌else◌, length, arith,
}
use olproff_fastsbc_hmr.Text.{Bytes, codes}
use olproff_fastsbc_hmr.Value.{
  ValueRef, ValueSegment, lit, ref, variable, capture, rule_ref, Value, empty, single_ref,
  is_pure_literal, is_regex_literal,
}
use olproff_fastsbc_hmr.Ast.{ComparisonType, HeaderAction, MatchValType, HeaderRule}
use olproff_fastsbc_hmr.Lowering.{
  is_pattern, is_case_insensitive, count_capturing_groups, capture_slot_key, to_string,
}
use olproff_fastsbc_hmr.Codegen.{Expr, Stmt, CppEmitter, slot_for, slot_for_ref, next_temp}
use olproff_fastsbc_hmr.Codegen.Emit.{
  emit_ref, emit_segment, emit_segments, emit_build, emit_value, emit_match_guard, pattern_of,
}
use olproff_fastsbc_hmr.Codegen.Rules.{
  emit_message, emit_groups, emit_plain_store, emit_store, emit_replace, emit_add, emit_log,
  emit_reject, emit_header_action,
}
use olproff_fastsbc_hmr.Codegen.Agreement.{if_either}
use olproff_fastsbc_hmr.Codegen.Grows.{
  Grows, Grows-refl, Grows-trans, slot_for-Grows, add_regex-Grows,
}

-- From an emitter to that behind some text.
abbrev pub GrowsTo : {A : Type 0} → CppEmitter → A × CppEmitter → Type 0
GrowsTo g (ss, g') = Grows g g'

abbrev pub ValueGrows : {A B : Type 0} → CppEmitter → A × B × CppEmitter → Type 0
ValueGrows g (ss, e, g') = Grows g g'

pub next_temp-Grows : (g : CppEmitter) → Grows g (next_temp g).1
unfolding next_temp
next_temp-Grows g = (omega arith, (λ t c. c))

emit_ref-Grows : (r : ValueRef) (g : CppEmitter) → ValueGrows g (emit_ref r g)
unfolding emit_ref slot_for_ref
emit_ref-Grows r g = elim r.kind as (λ k. ValueGrows g (emit_ref (record r { kind = k }) g)) [
  | variable ↦ next_temp-Grows g
  | capture ↦ next_temp-Grows g
  | rule_ref ↦ Grows-trans g _ _ (next_temp-Grows g) (slot_for-Grows _ _)
]

emit_segment-Grows : (seg : ValueSegment) (g : CppEmitter) → GrowsTo g (emit_segment seg g)
unfolding emit_segment slot_for_ref
emit_segment-Grows (lit text) g = Grows-refl g
emit_segment-Grows (ref r) g =
    elim r.kind as (λ k. GrowsTo g (emit_segment (ref (record r { kind = k })) g)) [
      | variable ↦ Grows-refl g
      | capture ↦ Grows-refl g
      | rule_ref ↦ slot_for-Grows _ g
    ]

pub emit_segments-Grows :
    (segs : List ValueSegment) (g : CppEmitter) → GrowsTo g (emit_segments segs g)
unfolding emit_segments
emit_segments-Grows [] g = Grows-refl g
emit_segments-Grows (seg ∷ segs) g =
    Grows-trans g _ _ (emit_segment-Grows seg g) (emit_segments-Grows segs _)

pub emit_value-Grows : (v : Value) (g : CppEmitter) → ValueGrows g (emit_value v g)
unfolding emit_value emit_build
emit_value-Grows v g = if_either (ValueGrows g) (empty v) _ _ (Grows-refl g) (
    if_either (ValueGrows g) (is_pure_literal v) _ _ (Grows-refl g)
      (elim (single_ref v)
        as (λ o.
          ValueGrows {A = List Stmt} {B = Expr} g
            (elim o [ some r ↦ emit_ref r g | none ↦ emit_build v g ])) [
              | some r ↦ emit_ref-Grows r g
              | none ↦ Grows-trans g _ _ (emit_segments-Grows v.segments g) (next_temp-Grows _)
            ]))

pub emit_match_guard-Grows :
    (cmp : ComparisonType) (mvt : MatchValType) (mv : Value) (e : Expr) (g : CppEmitter)
    → GrowsTo g (emit_match_guard cmp mvt mv e g)
unfolding emit_match_guard
emit_match_guard-Grows cmp mvt mv e g =
    if_either (GrowsTo g) (empty mv || (not (is_regex_literal mv) && not (is_pure_literal mv))) _ _
      (Grows-refl g)
      (if_either (GrowsTo g) (is_pattern cmp) _ _
        (add_regex-Grows (pattern_of mv) (is_case_insensitive cmp) g) (Grows-refl g))

emit_message-Grows :
    (v : Value) (name : Bytes) (g : CppEmitter) → ValueGrows g (emit_message v name g)
unfolding emit_message
emit_message-Grows v name g =
    if_either (ValueGrows g) (empty v) _ _ (Grows-refl g) (emit_value-Grows v g)

pub emit_groups-Grows :
    (left group : ℕ) (rule : Bytes) (g : CppEmitter) → GrowsTo g (emit_groups left group rule g)
unfolding emit_groups
emit_groups-Grows zero group rule g = Grows-refl g
emit_groups-Grows (suc left) group rule g =
    let (cap, g1) = next_temp g in
    let (slot, g2) = slot_for (capture_slot_key rule group) g1 in
    Grows-trans g g1 _ (next_temp-Grows g) (
      Grows-trans g1 g2 _ (slot_for-Grows (capture_slot_key rule group) g1)
        (emit_groups-Grows left (group + 1) rule g2))

emit_plain_store-Grows :
    (rule name : Bytes) (hv : Option Expr) (g : CppEmitter)
    → GrowsTo g (emit_plain_store rule name hv g)
unfolding emit_plain_store
emit_plain_store-Grows rule name (some hv) g = slot_for-Grows rule g
emit_plain_store-Grows rule name none g =
    Grows-trans g (next_temp g).1 _ (next_temp-Grows g) (slot_for-Grows rule _)

emit_store-Grows :
    (hr : HeaderRule) (idx : ℕ) (hv : Option Expr) (g : CppEmitter)
    → GrowsTo g (emit_store hr idx hv g)
unfolding emit_store
emit_store-Grows hr idx hv g =
    let rule = if length hr.name == 0 then codes "rule" ++ to_string idx else hr.name in
    if_either (GrowsTo g) (is_pattern hr.comparison) _ _
      (emit_groups-Grows (count_capturing_groups (pattern_of hr.match_value) + 1) 0 rule g)
      (emit_plain_store-Grows rule hr.header_name hv g)

emit_replace-Grows : (hr : HeaderRule) (g : CppEmitter) → GrowsTo g (emit_replace hr g)
unfolding emit_replace
emit_replace-Grows hr g =
    if_either (GrowsTo g) (not (empty hr.new_value) && length hr.element_rules == 0) _ _
      (emit_value-Grows hr.new_value g) (Grows-refl g)

pub emit_reject-Grows :
    (v : Value) (name : Bytes) (g : CppEmitter) → GrowsTo g (emit_reject v name g)
unfolding emit_reject
emit_reject-Grows v name g = emit_message-Grows v name g

abbrev ActionGrows : CppEmitter → Bool × List Stmt × CppEmitter → Type 0
ActionGrows g (b, ss, g') = Grows g g'

pub emit_header_action-Grows :
    (hr : HeaderRule) (idx : ℕ) (hv : Option Expr) (g : CppEmitter)
    → ActionGrows g (emit_header_action hr idx hv g)
unfolding emit_header_action emit_add emit_log
emit_header_action-Grows hr idx hv g =
    elim hr.action
      as (λ a. ActionGrows g (emit_header_action (record hr { action = a }) idx hv g)) [
        | HeaderAction.add ↦ emit_value-Grows hr.new_value g
        | HeaderAction.replace ↦ emit_replace-Grows hr g
        | HeaderAction.manipulate ↦ emit_replace-Grows hr g
        | HeaderAction.store ↦ emit_store-Grows hr idx hv g
        | HeaderAction.log ↦ emit_message-Grows hr.new_value hr.name g
        | HeaderAction.reject ↦ emit_reject-Grows hr.new_value hr.name g
        | _ ↦ Grows-refl g
      ]
