-- ===== src/Ir/Emit.antt =====
-- emit_value and emit_match_guard of src/codegen/ir_generator.cpp: the operations, what they return, and
-- the emitter behind.
use olproff_fastsbc_hmr.Base.{
  ℕ, Bool, not, ◌&&◌, ◌||◌, none, some, List, [], ◌∷◌, ◌++◌, ◌==◌, if◌then◌else◌, length,
}
use olproff_fastsbc_hmr.Text.{Bytes, codes}
use olproff_fastsbc_hmr.Value.{
  variable, capture, rule_ref, ValueRef, ValueSegment, lit, ref, Value, empty, is_pure_literal,
  literal_text, single_ref, is_regex_literal,
}
use olproff_fastsbc_hmr.Ast.{ComparisonType, MatchValType}
use olproff_fastsbc_hmr.Lowering.{variable_id, is_pattern, is_case_insensitive, ip_match_type}
use olproff_fastsbc_hmr.Runtime.{HmrMatchType}
use olproff_fastsbc_hmr.Interp.{index_or_zero}
use olproff_fastsbc_hmr.Ir.{
  IrStr, literal, get_capture, get_var, load, val_finish, match, val_reset, val_append_lit,
  val_append_var, val_append_capture, val_append_slot, negation, Op, call, Emitter, str_call,
  int_call, guard, add_regex, slot_for_ref,
}

-- A value that is one reference.
unfoldable pub emit_ref : ValueRef → Emitter → List Op × IrStr × Emitter
unfolding str_call slot_for_ref variable_id
emit_ref r g =
    let (slot, g') = slot_for_ref r.name r.capture_index g in
    elim r.kind [
      | variable ↦ str_call (get_var (variable_id r.name)) g
      | capture ↦ str_call (get_capture (index_or_zero r.capture_index)) g
      | rule_ref ↦ str_call (load slot) g'
    ]

unfoldable pub emit_segment : ValueSegment → Emitter → List Op × Emitter
unfolding slot_for_ref variable_id
emit_segment (lit text) g =
    ((if length text == 0 then [] else call (val_append_lit (literal text)) ∷ []), g)
emit_segment (ref r) g =
    let (slot, g') = slot_for_ref r.name r.capture_index g in
    elim r.kind [
      | variable ↦ (call (val_append_var (variable_id r.name)) ∷ [], g)
      | capture ↦ (call (val_append_capture (index_or_zero r.capture_index)) ∷ [], g)
      | rule_ref ↦ (call (val_append_slot slot) ∷ [], g')
    ]

unfoldable pub emit_segments : List ValueSegment → Emitter → List Op × Emitter
unfolding emit_segment
emit_segments [] g = ([], g)
emit_segments (seg ∷ segs) g =
    let (os, g1) = emit_segment seg g in let (rest, g2) = emit_segments segs g1 in (os ++ rest, g2)

-- The scratch buffer, from its reset to the call that takes the result.
unfoldable pub emit_build : Value → Emitter → List Op × IrStr × Emitter
unfolding emit_segments str_call
emit_build v g =
    let (os, g1) = emit_segments v.segments g in
    let (fs, r, g2) = str_call val_finish g1 in (call val_reset ∷ (os ++ fs), r, g2)

unfoldable pub emit_value : Value → Emitter → List Op × IrStr × Emitter
unfolding is_pure_literal literal_text single_ref emit_ref emit_build
emit_value v g =
    if empty v
    then ([], literal [], g)
    else if is_pure_literal v
    then ([], literal (literal_text v), g)
    else elim (single_ref v) [ some r ↦ emit_ref r g | none ↦ emit_build v g ]

abbrev plain_match_type : ComparisonType → HmrMatchType
plain_match_type cmp = if is_case_insensitive cmp then HmrMatchType.exact_ci else HmrMatchType.exact

-- The switch on the match-val-type.
unfoldable pub select_match_type : ComparisonType → MatchValType → Bytes → HmrMatchType
unfolding ip_match_type is_case_insensitive
select_match_type cmp MatchValType.ip pattern = ip_match_type pattern
select_match_type cmp MatchValType.fqdn pattern = HmrMatchType.fqdn
select_match_type cmp MatchValType.any pattern = plain_match_type cmp

unfoldable pub pattern_of : Value → Bytes
unfolding is_pure_literal literal_text
pattern_of mv = if is_pure_literal mv then literal_text mv else mv.raw

-- The call of hmr_rt_match, and the branch on it.
unfoldable pub emit_match :
    HmrMatchType → IrStr → Bytes → ℕ → Bool → ℕ → Emitter → List Op × Emitter
unfolding int_call guard
emit_match type subject pattern regex_id negated skip g =
    let (os, cond, g1) = int_call (match type subject (literal pattern) regex_id) g in
    let (rest, g2) = guard (if negated then negation cond else cond) (codes "match.ok") skip g1 in
    (os ++ rest, g2)

unfoldable pub emit_match_guard :
    ComparisonType → MatchValType → Value → IrStr → ℕ → Emitter → List Op × Emitter
unfolding is_regex_literal is_pure_literal pattern_of is_pattern is_case_insensitive add_regex
    select_match_type emit_match
emit_match_guard cmp mvt mv subject skip g =
    let pattern = pattern_of mv in
    let (regex_id, g') = add_regex pattern (is_case_insensitive cmp) g in
    if empty mv || (not (is_regex_literal mv) && not (is_pure_literal mv))
    then ([], g)
    else if is_pattern cmp
    then emit_match HmrMatchType.regex subject pattern regex_id mv.negated skip g'
    else emit_match (select_match_type cmp mvt pattern) subject pattern 0 mv.negated skip g
