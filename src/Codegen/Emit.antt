-- ===== src/Codegen/Emit.antt =====
-- emit_value and emit_match_guard of src/codegen/cpp_generator.cpp: the statements that they append, the
-- expression that they return, and the emitter behind.
use olproff_fastsbc_hmr.Base.{
  not, ◌&&◌, ◌||◌, none, some, List, [], ◌∷◌, ◌++◌, ◌==◌, if◌then◌else◌, length,
}
use olproff_fastsbc_hmr.Text.{Bytes}
use olproff_fastsbc_hmr.Value.{
  variable, capture, rule_ref, ValueRef, ValueSegment, lit, ref, Value, empty, is_pure_literal,
  literal_text, single_ref, is_regex_literal,
}
use olproff_fastsbc_hmr.Ast.{ComparisonType, MatchValType}
use olproff_fastsbc_hmr.Lowering.{variable_id, is_pattern, is_case_insensitive, ip_match_type}
use olproff_fastsbc_hmr.Runtime.{HmrMatchType}
use olproff_fastsbc_hmr.Interp.{index_or_zero}
use olproff_fastsbc_hmr.Codegen.{
  Expr, temp, str_lit, Stmt, get_var, get_capture, load, val_reset, append_lit, append_var,
  append_capture, append_slot, val_finish, match_guard, CppEmitter, next_temp, add_regex,
  slot_for_ref,
}

-- A value that is one reference: the temporary is declared by one call.
unfoldable pub emit_ref : ValueRef → CppEmitter → List Stmt × Expr × CppEmitter
unfolding next_temp slot_for_ref variable_id
emit_ref r g =
    let (t, g1) = next_temp g in
    let (slot, g2) = slot_for_ref r.name r.capture_index g1 in
    elim r.kind [
      | variable ↦ (get_var t (variable_id r.name) ∷ [], temp t, g1)
      | capture ↦ (get_capture t (index_or_zero r.capture_index) ∷ [], temp t, g1)
      | rule_ref ↦ (load t slot ∷ [], temp t, g2)
    ]

-- The call for one segment; a literal of no bytes has none.
unfoldable pub emit_segment : ValueSegment → CppEmitter → List Stmt × CppEmitter
unfolding slot_for_ref variable_id
emit_segment (lit text) g = ((if length text == 0 then [] else append_lit text ∷ []), g)
emit_segment (ref r) g =
    let (slot, g') = slot_for_ref r.name r.capture_index g in
    elim r.kind [
      | variable ↦ (append_var (variable_id r.name) ∷ [], g)
      | capture ↦ (append_capture (index_or_zero r.capture_index) ∷ [], g)
      | rule_ref ↦ (append_slot slot ∷ [], g')
    ]

unfoldable pub emit_segments : List ValueSegment → CppEmitter → List Stmt × CppEmitter
unfolding emit_segment
emit_segments [] g = ([], g)
emit_segments (seg ∷ segs) g =
    let (ss, g1) = emit_segment seg g in let (rest, g2) = emit_segments segs g1 in (ss ++ rest, g2)

-- The scratch buffer, from its reset to the temporary that takes the result.
unfoldable pub emit_build : Value → CppEmitter → List Stmt × Expr × CppEmitter
unfolding emit_segments next_temp
emit_build v g =
    let (ss, g1) = emit_segments v.segments g in
    let (t, g2) = next_temp g1 in (val_reset ∷ (ss ++ val_finish t ∷ []), temp t, g2)

unfoldable pub emit_value : Value → CppEmitter → List Stmt × Expr × CppEmitter
unfolding is_pure_literal literal_text single_ref emit_ref emit_build
emit_value v g =
    if empty v
    then ([], str_lit [], g)
    else if is_pure_literal v
    then ([], str_lit (literal_text v), g)
    else elim (single_ref v) [ some r ↦ emit_ref r g | none ↦ emit_build v g ]

abbrev plain_match_type : ComparisonType → HmrMatchType
plain_match_type cmp = if is_case_insensitive cmp then HmrMatchType.exact_ci else HmrMatchType.exact

-- The switch on the match-val-type.
unfoldable pub select_match_type : ComparisonType → MatchValType → Bytes → HmrMatchType
unfolding ip_match_type is_case_insensitive
select_match_type cmp MatchValType.ip pattern = ip_match_type pattern
select_match_type cmp MatchValType.fqdn pattern = HmrMatchType.fqdn
select_match_type cmp MatchValType.any pattern = plain_match_type cmp

-- The pattern of a match-value: its text, or what it was parsed from.
unfoldable pub pattern_of : Value → Bytes
unfolding is_pure_literal literal_text
pattern_of mv = if is_pure_literal mv then literal_text mv else mv.raw

unfoldable pub emit_match_guard :
    ComparisonType → MatchValType → Value → Expr → CppEmitter → List Stmt × CppEmitter
unfolding is_regex_literal is_pure_literal pattern_of is_pattern is_case_insensitive add_regex
    select_match_type
emit_match_guard cmp mvt mv subject g =
    let pattern = pattern_of mv in
    let (regex_id, g') = add_regex pattern (is_case_insensitive cmp) g in
    if empty mv || (not (is_regex_literal mv) && not (is_pure_literal mv))
    then ([], g)
    else if is_pattern cmp
    then (match_guard HmrMatchType.regex subject pattern regex_id mv.negated ∷ [], g')
    else (match_guard (select_match_type cmp mvt pattern) subject pattern 0 mv.negated ∷ [], g)
