-- ===== src/Interp/Eval.antt =====
-- eval_value and eval_match_guard of src/interp/interpreter.cpp.
use olproff_fastsbc_hmr.Base.{
  Bool, true, not, ◌&&◌, ◌||◌, none, some, List, [], ◌∷◌, ◌==◌, if◌then◌else◌, length,
}
use olproff_fastsbc_hmr.Text.{Bytes}
use olproff_fastsbc_hmr.Arena.{HmrStr}
use olproff_fastsbc_hmr.Value.{
  variable, capture, rule_ref, ValueRef, ValueSegment, lit, ref, Value, empty, is_pure_literal,
  literal_text, single_ref, is_regex_literal,
}
use olproff_fastsbc_hmr.Ast.{ComparisonType, MatchValType}
use olproff_fastsbc_hmr.Lowering.{variable_id, is_pattern, is_case_insensitive, ip_match_type}
use olproff_fastsbc_hmr.Runtime.{HmrMatchType}
use olproff_fastsbc_hmr.Runtime.Matching.{Search, match_value, get_capture}
use olproff_fastsbc_hmr.Runtime.Builder.{
  get_var, load, val_reset, val_append_lit, val_append_var, val_append_capture, val_append_slot,
  val_finish,
}
use olproff_fastsbc_hmr.Interp.{
  State, intern, add_regex, slot_for_ref, index_or_zero, packet_of, arena_of,
}

module _ {R : Type 0} where
  -- A value that is one reference.
  unfoldable pub eval_ref : ValueRef → State R → HmrStr × State R
  unfolding get_var get_capture load slot_for_ref variable_id
  eval_ref r st = elim r.kind [
    | variable ↦ (get_var st.ctx (variable_id r.name), st)
    | capture ↦ (get_capture st.ctx (index_or_zero r.capture_index), st)
    | rule_ref ↦
        let (slot, t) = slot_for_ref r.name r.capture_index st.tables in
        (load st.ctx slot, record st { tables = t })
  ]

  -- The loop over the segments, which builds into the scratch buffer.
  unfoldable pub append_segments : List ValueSegment → State R → State R
  unfolding val_append_lit val_append_var val_append_capture val_append_slot slot_for_ref
      variable_id
  append_segments [] st = st
  append_segments (lit text ∷ segs) st =
      let c = val_append_lit (packet_of st.msg) st.ctx (intern text) in
      append_segments segs (if length text == 0 then st else record st { ctx = c })
  append_segments (ref r ∷ segs) st =
      let c = val_append_capture (packet_of st.msg) st.ctx (index_or_zero r.capture_index) in
      let (slot, t) = slot_for_ref r.name r.capture_index st.tables in
      let next : State R = elim r.kind [
        | variable ↦ record st { ctx = val_append_var st.ctx (variable_id r.name) }
        | capture ↦ record st { ctx = c }
        | rule_ref ↦ record st { tables = t; ctx = val_append_slot st.ctx slot }
      ] in
      append_segments segs next

  unfoldable pub build_value : Value → State R → HmrStr × State R
  unfolding append_segments val_reset val_finish
  build_value v st =
      let built = append_segments v.segments (record st { ctx = val_reset st.ctx }) in
      (val_finish built.ctx, built)

  unfoldable pub eval_value : Value → State R → HmrStr × State R
  unfolding is_pure_literal literal_text single_ref eval_ref build_value
  eval_value v st =
      if empty v
      then (intern [], st)
      else if is_pure_literal v
      then (intern (literal_text v), st)
      else elim (single_ref v) [ some r ↦ eval_ref r st | none ↦ build_value v st ]

abbrev plain_match_type : ComparisonType → HmrMatchType
plain_match_type cmp = if is_case_insensitive cmp then HmrMatchType.exact_ci else HmrMatchType.exact

-- The matcher of a comparison that is no pattern-rule.
unfoldable pub literal_match_type : ComparisonType → MatchValType → Bytes → HmrMatchType
unfolding ip_match_type is_case_insensitive
literal_match_type cmp MatchValType.ip pattern = ip_match_type pattern
literal_match_type cmp MatchValType.fqdn pattern = HmrMatchType.fqdn
literal_match_type cmp MatchValType.any pattern = plain_match_type cmp

unfoldable pub guard_pattern : Value → Bytes
unfolding is_pure_literal literal_text
guard_pattern mv = if is_pure_literal mv then literal_text mv else mv.raw

module _ {R : Type 0} (search_in : Search R) where
  -- The call of hmr_rt_match, with its operands from the comparison.
  unfoldable pub run_guard :
      ComparisonType → MatchValType → Bytes → HmrStr → State R → Bool × State R
  unfolding is_pattern add_regex literal_match_type match_value
  run_guard cmp mvt pattern subject st =
      let packet = packet_of st.msg in
      let a = arena_of st.ctx in
      let (regex_id, t) = add_regex pattern (is_case_insensitive cmp) st.tables in
      let pat = intern pattern in
      let (r, c) = match_value search_in packet a st.ctx HmrMatchType.regex subject pat regex_id in
      let plain = literal_match_type cmp mvt pattern in
      let (r', c') = match_value search_in packet a st.ctx plain subject pat 0 in
      if is_pattern cmp
      then (r, record st { tables = t; ctx = c })
      else (r', record st { ctx = c' })

  unfoldable pub eval_match_guard :
      ComparisonType → MatchValType → Value → HmrStr → State R → Bool × State R
  unfolding is_regex_literal is_pure_literal guard_pattern run_guard
  eval_match_guard cmp mvt mv subject st =
      let (cond, st') = run_guard cmp mvt (guard_pattern mv) subject st in
      if empty mv || (not (is_regex_literal mv) && not (is_pure_literal mv))
      then (true, st)
      else ((if mv.negated then not cond else cond), st')
