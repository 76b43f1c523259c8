-- ===== src/Interp/Walk.antt =====
-- run_element_rules, run_header_rule, walk, the constructor and apply of src/interp/interpreter.cpp.
-- The scan walk passes no handles.
use olproff_fastsbc_hmr.Base.{
  ℕ, ◌+◌, Bool, true, false, not, ◌&&◌, ◌||◌, Option, none, some, List, [], ◌∷◌, ◌++◌, ◌==◌,
  if◌then◌else◌, length, map,
}
use olproff_fastsbc_hmr.Text.{Bytes, codes}
use olproff_fastsbc_hmr.Arena.{HmrStr, HmrArena, null_str}
use olproff_fastsbc_hmr.Uri.{HmrUriElement}
use olproff_fastsbc_hmr.Sip.{HmrSipMsg}
use olproff_fastsbc_hmr.Value.{empty}
use olproff_fastsbc_hmr.Ast.{
  HeaderAction, ElementAction, MatchValType, MsgType, ElementRule, HeaderRule, Ruleset,
}
use olproff_fastsbc_hmr.Lowering.{uri_element}
use olproff_fastsbc_hmr.Runtime.{HmrContext, HmrModuleInfo}
use olproff_fastsbc_hmr.Runtime.Message
use olproff_fastsbc_hmr.Runtime.Matching.{Search, str_eq}
use olproff_fastsbc_hmr.Runtime.Builder
use olproff_fastsbc_hmr.Interp.{Tables, State, intern, packet_of, arena_of}
use olproff_fastsbc_hmr.Interp.Eval.{eval_value, eval_match_guard}
use olproff_fastsbc_hmr.Interp.Rules.{
  Flow, continue_walk, rejected, HmrVerdict, verdict_ok, verdict_rejected, call_set_header,
  call_delete_header, call_get_header, call_store, run_reject, run_header_action, is_whole,
}

module _ {R : Type 0} where
  -- Writes `nv` to the element `e` of the header value `hv`.
  unfoldable pub set_element : HmrStr → HmrStr → HmrUriElement → HmrStr → State R → State R
  unfolding call_set_header Builder.uri_set
  set_element name hv e nv st =
      let (rebuilt, c) = Builder.uri_set (packet_of st.msg) st.ctx hv e nv in
      if is_whole e
      then call_set_header name nv st
      else call_set_header name rebuilt (record st { ctx = c })

  unfoldable pub run_element_replace :
      HmrStr → HmrStr → HmrUriElement → ElementRule → State R → State R
  unfolding eval_value set_element
  run_element_replace name hv e er st =
      let (nv, st') = eval_value er.new_value st in set_element name hv e nv st'

  unfoldable pub run_element_delete : HmrStr → HmrStr → HmrUriElement → State R → State R
  unfolding call_delete_header set_element
  run_element_delete name hv e st =
      if is_whole e then call_delete_header name st else set_element name hv e (intern []) st

  -- The switch on the action of an element rule that applies.
  unfoldable pub run_element_action :
      HeaderRule → ElementRule → HmrUriElement → HmrStr → HmrStr → Bool → State R → Flow × State R
  unfolding run_element_replace run_element_delete call_store run_reject
  run_element_action hr er e hv ev scan st =
      let name = intern hr.header_name in
      let key = if length er.name == 0 then hr.name ++ codes ".el" else er.name in
      elim er.action [
        | ElementAction.replace ↦ (continue_walk, run_element_replace name hv e er st)
        | ElementAction.delete_element ↦ (continue_walk, run_element_delete name hv e st)
        | ElementAction.store ↦ (continue_walk, call_store key ev st)
        | ElementAction.reject ↦
            ((if scan then continue_walk else rejected), run_reject er.new_value er.name st)
        | _ ↦ (continue_walk, st)
      ]

module _ {R : Type 0} (search_in : Search R) where
  unfoldable pub run_element_rule :
      HeaderRule → ElementRule → HmrUriElement → Bool → State R → Flow × State R
  unfolding call_get_header Builder.uri_get eval_match_guard run_element_action
  run_element_rule hr er e scan st =
      let hv = call_get_header (intern hr.header_name) st in
      let ev = if is_whole e then hv else Builder.uri_get (packet_of st.msg) st.ctx hv e in
      let (passes, st') =
        eval_match_guard search_in er.comparison er.match_val_type er.match_value ev st in
      if not scan && not passes
      then (continue_walk, st')
      else run_element_action hr er e hv ev scan st'

  -- The loop of run_element_rules.
  unfoldable pub run_element_rules : HeaderRule → List ElementRule → Bool → State R → Flow × State R
  unfolding uri_element run_element_rule
  run_element_rules hr [] scan st = (continue_walk, st)
  run_element_rules hr (er ∷ ers) scan st = elim (uri_element er.type) [
    | none ↦ run_element_rules hr ers scan st
    | some e ↦
        let (flow, st') = run_element_rule hr er e scan st in
        elim flow [ continue_walk ↦ run_element_rules hr ers scan st' | rejected ↦ (rejected, st') ]
  ]

-- `acc = acc || str_eq(method, m)` over the listed methods
unfoldable pub any_method : Bytes → HmrArena → HmrStr → Bool → List Bytes → Bool
unfolding str_eq
any_method packet a method acc [] = acc
any_method packet a method acc (m ∷ ms) =
    any_method packet a method (acc || str_eq packet a method (intern m) true) ms

-- The guards on the message type and on the method.
unfoldable pub type_guard : MsgType → Option HmrSipMsg → Bool
unfolding Message.is_request
type_guard MsgType.request m = Message.is_request m
type_guard MsgType.reply m = not (Message.is_request m)
type_guard _ m = true

unfoldable pub method_guard : {R : Type 0} → List Bytes → State R → Bool
unfolding any_method Message.get_method
method_guard methods st =
    let method = Message.get_method st.msg in
    if length methods == 0
    then true
    else any_method (packet_of st.msg) (arena_of st.ctx) method false methods

abbrev pub is_rejected : Flow → Bool
is_rejected continue_walk = false
is_rejected rejected = true

abbrev pub is_store : HeaderAction → Bool
is_store HeaderAction.store = true
is_store _ = false

module _ {R : Type 0} (search_in : Search R) where
  -- The element rules, behind an action that did not reject.
  abbrev pub then_elements : HeaderRule → Bool → Bool × State R → Flow × State R
  then_elements hr scan (true, st) = (rejected, st)
  then_elements hr scan (false, st) = run_element_rules search_in hr hr.element_rules scan st

  -- run_header_rule behind the guards on message type and method.
  unfoldable pub run_matched_rule : HeaderRule → ℕ → Bool → State R → Flow × State R
  unfolding call_get_header eval_match_guard run_header_action run_element_rules
  run_matched_rule hr idx scan st =
      let need_hv = not (empty hr.match_value) || is_store hr.action in
      let hv = if need_hv then call_get_header (intern hr.header_name) st else null_str in
      let (passes, st') =
        if empty hr.match_value
        then (true, st)
        else eval_match_guard search_in hr.comparison MatchValType.any hr.match_value hv st in
      if not scan && not passes
      then (continue_walk, st')
      else then_elements hr scan (run_header_action hr idx hv need_hv st')

  unfoldable pub run_header_rule : HeaderRule → ℕ → Bool → State R → Flow × State R
  unfolding type_guard method_guard run_matched_rule
  run_header_rule hr idx scan st =
      if not scan && not (type_guard hr.msg_type st.msg)
      then (continue_walk, st)
      else if not scan && not (method_guard hr.methods st)
      then (continue_walk, st)
      else run_matched_rule hr idx scan st

  -- The loop of `walk` from the rule `i` on.
  unfoldable pub walk : List HeaderRule → ℕ → Bool → State R → HmrVerdict × State R
  unfolding run_header_rule
  walk [] i scan st = (verdict_ok, st)
  walk (hr ∷ hrs) i scan st =
      let (flow, st') = run_header_rule hr i scan st in
      elim (not scan && is_rejected flow) [
        | true ↦ (verdict_rejected, st')
        | false ↦ walk hrs (i + 1) scan st'
      ]

  -- The tables after the scan of the constructor.
  unfoldable pub scan_tables : Ruleset → Tables
  unfolding walk
  scan_tables rs =
      let start : State R = record {
        tables = record { regexes = []; slots = []; frozen = false };
        msg = none;
        ctx = none;
      } in
      record ((walk rs.header_rules 0 true start).1.tables) { frozen = true }

  -- The descriptor that the constructor publishes; HMR_ABI_VERSION is 2.
  unfoldable pub info : Ruleset → HmrModuleInfo
  unfolding scan_tables
  info rs =
      let t = scan_tables rs in
      record {
        abi_version = 2;
        name = if length rs.name == 0 then codes "hmr" else rs.name;
        num_slots = length t.slots;
        regexes = map (λ (r : Bytes × ℕ). record { pattern = r.0; flags = r.1 }) t.regexes;
      }

  unfoldable pub apply : Ruleset → HmrSipMsg → HmrContext R → HmrVerdict × State R
  unfolding scan_tables walk
  apply rs m c =
      walk rs.header_rules 0 false (record { tables = scan_tables rs; msg = some m; ctx = some c })
