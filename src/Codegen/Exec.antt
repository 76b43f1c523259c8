-- ===== src/Codegen/Exec.antt =====
-- What the body that src/codegen/cpp_generator.cpp emits does: its statements as steps on the state of
-- src/interp/interpreter.cpp, of which they use the two handles, by the calls of the C ABI. A temporary
-- is an entry of an environment. To run off the end of a lambda is undefined in C++: `none`.
use olproff_fastsbc_hmr.Base.{
  ℕ, Bool, true, false, not, Option, none, some, List, [], ◌∷◌, ◌==◌, if◌then◌else◌,
}
use olproff_fastsbc_hmr.Arena.{HmrStr, null_str}
use olproff_fastsbc_hmr.Runtime.Message
use olproff_fastsbc_hmr.Runtime.Matching
use olproff_fastsbc_hmr.Runtime.Matching.{Search, match_value}
use olproff_fastsbc_hmr.Runtime.Builder
use olproff_fastsbc_hmr.Interp.{State, intern, packet_of, arena_of}
use olproff_fastsbc_hmr.Interp.Rules.{
  HmrVerdict, verdict_ok, verdict_rejected, call_set_header, call_add_header, call_delete_header,
  call_get_header,
}
use olproff_fastsbc_hmr.Interp.Walk.{any_method}
use olproff_fastsbc_hmr.Codegen.{
  Expr, temp, str_lit, Stmt, bind, get_var, get_capture, load, val_reset, append_lit, append_var,
  append_capture, append_slot, val_finish, get_header, get_method, uri_get, uri_set, add_header,
  set_header, delete_header, store, log, reject, match_guard, type_guard, method_guard, return,
  Item, plain, element, RuleBlock,
}

abbrev pub Env : Type 0
Env = ℕ → HmrStr

abbrev pub assign : ℕ → HmrStr → Env → Env
assign t s env n = if n == t then s else env n

abbrev pub value_of : Env → Expr → HmrStr
value_of env (temp n) = env n
value_of env (str_lit s) = intern s

-- What a list of statements does to its lambda: it goes on, or returns.
pub data Outcome (R : Type 0) : Type 0 where
  goes : Env → State R → Outcome R
  returns : Bool → State R → Outcome R

module _ {R : Type 0} where
  abbrev pub proceed : Bool → Env → State R → Outcome R
  proceed b env st = if b then goes env st else returns false st

module _ {R : Type 0} (search_in : Search R) where
  unfoldable pub exec_stmt : Stmt → Env → State R → Outcome R
  unfolding Builder.get_var Matching.get_capture Builder.load Builder.val_reset
      Builder.val_append_lit Builder.val_append_var Builder.val_append_capture
      Builder.val_append_slot Builder.val_finish call_get_header Message.get_method Builder.uri_get
      Builder.uri_set call_add_header call_set_header call_delete_header Builder.store Builder.log
      Builder.reject match_value Message.is_request any_method
  exec_stmt (bind t s) env st = goes (assign t (intern s) env) st
  exec_stmt (get_var t v) env st = goes (assign t (Builder.get_var st.ctx v) env) st
  exec_stmt (get_capture t n) env st = goes (assign t (Matching.get_capture st.ctx n) env) st
  exec_stmt (load t n) env st = goes (assign t (Builder.load st.ctx n) env) st
  exec_stmt val_reset env st = goes env (record st { ctx = Builder.val_reset st.ctx })
  exec_stmt (append_lit s) env st =
      goes env (record st { ctx = Builder.val_append_lit (packet_of st.msg) st.ctx (intern s) })
  exec_stmt (append_var v) env st = goes env (record st { ctx = Builder.val_append_var st.ctx v })
  exec_stmt (append_capture n) env st =
      goes env (record st { ctx = Builder.val_append_capture (packet_of st.msg) st.ctx n })
  exec_stmt (append_slot n) env st = goes env (record st { ctx = Builder.val_append_slot st.ctx n })
  exec_stmt (val_finish t) env st = goes (assign t (Builder.val_finish st.ctx) env) st
  exec_stmt (get_header t name) env st =
      goes (assign t (call_get_header (value_of env name) st) env) st
  exec_stmt (get_method t) env st = goes (assign t (Message.get_method st.msg) env) st
  exec_stmt (uri_get t hv e) env st =
      goes (assign t (Builder.uri_get (packet_of st.msg) st.ctx (value_of env hv) e) env) st
  exec_stmt (uri_set t hv e v) env st =
      let (rebuilt, c) =
        Builder.uri_set (packet_of st.msg) st.ctx (value_of env hv) e (value_of env v) in
      goes (assign t rebuilt env) (record st { ctx = c })
  exec_stmt (add_header name v) env st =
      goes env (call_add_header (value_of env name) (value_of env v) st)
  exec_stmt (set_header name v) env st =
      goes env (call_set_header (value_of env name) (value_of env v) st)
  exec_stmt (delete_header name) env st = goes env (call_delete_header (value_of env name) st)
  exec_stmt (store slot v) env st =
      goes env (record st { ctx = Builder.store (packet_of st.msg) st.ctx slot (value_of env v) })
  exec_stmt (log v) env st =
      goes env (record st { ctx = Builder.log (packet_of st.msg) st.ctx (value_of env v) })
  exec_stmt (reject v) env st =
      goes env (record st { ctx = Builder.reject (packet_of st.msg) st.ctx 403 (value_of env v) })
  exec_stmt (match_guard t subject pattern regex_id negated) env st =
      let (r, c) =
        match_value search_in (packet_of st.msg) (arena_of st.ctx) st.ctx t (value_of env subject)
          (intern pattern) regex_id in
      proceed (if negated then not r else r) env (record st { ctx = c })
  exec_stmt (type_guard request) env st =
      let is = Message.is_request st.msg in proceed (if request then is else not is) env st
  exec_stmt (method_guard t methods) env st =
      proceed (any_method (packet_of st.msg) (arena_of st.ctx) (env t) false methods) env st
  exec_stmt (return b) env st = returns b st

  -- The statements of a lambda, in order.
  unfoldable pub exec : List Stmt → Env → State R → Outcome R
  unfolding exec_stmt
  exec [] env st = goes env st
  exec (s ∷ ss) env st = elim (exec_stmt s env st) [
    | goes env' st' ↦ exec ss env' st'
    | returns b st' ↦ returns b st'
  ]

  -- The statements and element rules of a header rule's lambda; the temporaries of an element rule end
  -- with it.
  unfoldable pub exec_items : List Item → Env → State R → Option (Bool × State R)
  unfolding exec_stmt exec
  exec_items [] env st = none
  exec_items (plain s ∷ items) env st = elim (exec_stmt s env st) [
    | goes env' st' ↦ exec_items items env' st'
    | returns b st' ↦ some (b, st')
  ]
  exec_items (element c ss ∷ items) env st = elim (exec ss env st) [
    | goes env' st' ↦ none
    | returns true st' ↦ some (true, st')
    | returns false st' ↦ exec_items items env st'
  ]

  -- hmr_apply
  unfoldable pub hmr_apply : List RuleBlock → State R → Option (HmrVerdict × State R)
  unfolding exec_items
  hmr_apply [] st = some (verdict_ok, st)
  hmr_apply (b ∷ bs) st = elim (exec_items b.items (λ _. null_str) st) [
    | none ↦ none
    | some (true, st') ↦ some (verdict_rejected, st')
    | some (false, st') ↦ hmr_apply bs st'
  ]
