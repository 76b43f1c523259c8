-- ===== src/Interp/Rules.antt =====
-- run_header_action of
-- src/interp/interpreter.cpp, and the calls of the C ABI that it makes.
use olproff_fastsbc_hmr.Base.{
  ℕ, zero, suc, ◌+◌, Bool, true, false, not, ◌&&◌, ◌++◌, ◌==◌, if◌then◌else◌, length,
}
use olproff_fastsbc_hmr.Text.{Bytes, codes}
use olproff_fastsbc_hmr.Arena.{HmrStr}
use olproff_fastsbc_hmr.Uri.{HmrUriElement}
use olproff_fastsbc_hmr.Value.{Value, empty}
use olproff_fastsbc_hmr.Ast.{HeaderAction, HeaderRule}
use olproff_fastsbc_hmr.Lowering.{is_pattern, count_capturing_groups, capture_slot_key, to_string}
use olproff_fastsbc_hmr.Runtime.Message
use olproff_fastsbc_hmr.Runtime.Matching.{get_capture}
use olproff_fastsbc_hmr.Runtime.Builder
use olproff_fastsbc_hmr.Interp.{State, intern, slot_for, packet_of, arena_of}
use olproff_fastsbc_hmr.Interp.Eval.{eval_value, guard_pattern}

pub data Flow : Type 0 where
  continue_walk rejected : Flow

-- HmrVerdict
pub data HmrVerdict : Type 0 where
  verdict_ok verdict_rejected : HmrVerdict

module _ {R : Type 0} where
  unfoldable pub call_set_header : HmrStr → HmrStr → State R → State R
  unfolding Message.set_header
  call_set_header name value st =
      let (r, m, c) = Message.set_header st.msg st.ctx name value in record st { msg = m; ctx = c }

  unfoldable pub call_add_header : HmrStr → HmrStr → State R → State R
  unfolding Message.add_header
  call_add_header name value st =
      let (r, m, c) = Message.add_header st.msg st.ctx name value in record st { msg = m; ctx = c }

  unfoldable pub call_delete_header : HmrStr → State R → State R
  unfolding Message.delete_header
  call_delete_header name st =
      let (r, m) = Message.delete_header (packet_of st.msg) (arena_of st.ctx) st.msg name in
      record st { msg = m }

  unfoldable pub call_get_header : HmrStr → State R → HmrStr
  unfolding Message.get_header
  call_get_header name st = Message.get_header (packet_of st.msg) (arena_of st.ctx) st.msg name

  unfoldable pub call_store : Bytes → HmrStr → State R → State R
  unfolding slot_for Builder.store
  call_store key value st =
      let (slot, t) = slot_for key st.tables in
      record st { tables = t; ctx = Builder.store (packet_of st.msg) st.ctx slot value }

  -- The loop over the groups `g .. ngroups`, `left` of them.
  unfoldable pub store_groups : ℕ → ℕ → Bytes → State R → State R
  unfolding call_store capture_slot_key get_capture
  store_groups zero g rule st = st
  store_groups (suc left) g rule st =
      store_groups left (g + 1) rule
        (call_store (capture_slot_key rule g) (get_capture st.ctx g) st)

  -- `v.empty() ? intern(name) : eval_value(v, ctx)`
  unfoldable pub message_value : Value → Bytes → State R → HmrStr × State R
  unfolding eval_value
  message_value v name st = if empty v then (intern name, st) else eval_value v st

  unfoldable pub run_store : HeaderRule → ℕ → HmrStr → Bool → State R → State R
  unfolding is_pattern guard_pattern count_capturing_groups store_groups call_store call_get_header
      to_string
  run_store hr idx hv have_hv st =
      let rule = if length hr.name == 0 then codes "rule" ++ to_string idx else hr.name in
      let value = if have_hv then hv else call_get_header (intern hr.header_name) st in
      if is_pattern hr.comparison
      then store_groups (count_capturing_groups (guard_pattern hr.match_value) + 1) 0 rule st
      else call_store rule value st

  -- Replace and Manipulate: a header-level replacement by the new-value.
  unfoldable pub run_replace : HeaderRule → State R → State R
  unfolding eval_value call_set_header
  run_replace hr st =
      let (value, st') = eval_value hr.new_value st in
      if not (empty hr.new_value) && length hr.element_rules == 0
      then call_set_header (intern hr.header_name) value st'
      else st

  unfoldable pub run_add : HeaderRule → State R → State R
  unfolding eval_value call_add_header
  run_add hr st =
      let (value, st') = eval_value hr.new_value st in
      call_add_header (intern hr.header_name) value st'

  unfoldable pub run_log : HeaderRule → State R → State R
  unfolding message_value Builder.log
  run_log hr st =
      let (value, st') = message_value hr.new_value hr.name st in
      record st' { ctx = Builder.log (packet_of st'.msg) st'.ctx value }

  -- hmr_rt_reject(ctx, 403, ...)
  unfoldable pub run_reject : Value → Bytes → State R → State R
  unfolding message_value Builder.reject
  run_reject v name st =
      let (value, st') = message_value v name st in
      record st' { ctx = Builder.reject (packet_of st'.msg) st'.ctx 403 value }

  unfoldable pub run_header_action : HeaderRule → ℕ → HmrStr → Bool → State R → Bool × State R
  unfolding run_add run_replace call_delete_header run_store run_log run_reject
  run_header_action hr idx hv have_hv st = elim hr.action [
    | HeaderAction.add ↦ (false, run_add hr st)
    | HeaderAction.replace ↦ (false, run_replace hr st)
    | HeaderAction.manipulate ↦ (false, run_replace hr st)
    | HeaderAction.delete ↦ (false, call_delete_header (intern hr.header_name) st)
    | HeaderAction.delete_header ↦ (false, call_delete_header (intern hr.header_name) st)
    | HeaderAction.store ↦ (false, run_store hr idx hv have_hv st)
    | HeaderAction.log ↦ (false, run_log hr st)
    | HeaderAction.reject ↦ (true, run_reject hr.new_value hr.name st)
    | _ ↦ (false, st)
  ]

abbrev pub is_whole : HmrUriElement → Bool
is_whole HmrUriElement.whole = true
is_whole _ = false
