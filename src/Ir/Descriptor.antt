-- ===== src/Ir/Descriptor.antt =====
-- The tables and the descriptor of the LLVM back-end (src/codegen/ir_generator.cpp) beside those of the
-- C++ back-end (src/codegen/cpp_generator.cpp) and of the interpreter: header rules and the module.
use olproff_fastsbc_hmr.Base.{
  ℕ, suc, ◌+◌, Bool, not, ◌||◌, Option, some, List, [], ◌∷◌, ◌==◌, if◌then◌else◌, length, ◌≡◌, refl,
  sym, Bool-cases, inl, inr,
}
use mathlib.Core.Path.{subst}
use olproff_fastsbc_hmr.Text.{Bytes, codes}
use olproff_fastsbc_hmr.Value.{empty}
use olproff_fastsbc_hmr.Ast.{MatchValType, MsgType, HeaderRule, Ruleset}
use olproff_fastsbc_hmr.Interp.Walk.{is_store}
use olproff_fastsbc_hmr.Codegen.{Expr, Stmt, CppEmitter}
use olproff_fastsbc_hmr.Codegen
use olproff_fastsbc_hmr.Codegen.Emit
use olproff_fastsbc_hmr.Codegen.Rules
use olproff_fastsbc_hmr.Codegen.Agreement.{if-both}
use olproff_fastsbc_hmr.Ir.{
  IrStr, Cond, Op, get_header, get_method, literal, Emitter, str_call, int_call, guard, new_block,
}
use olproff_fastsbc_hmr.Ir.Emit.{emit_match_guard}
use olproff_fastsbc_hmr.Ir.Rules.{emit_header_action}
use olproff_fastsbc_hmr.Ir.Headers.{
  emit_type_guard, emit_methods, emit_method_guard, emit_header_value, emit_header_guard, emit_rest,
  emit_header_rule, emit_rules, new_emitter, emit_apply, Llvm, module_of, build_module_info,
  module_name_of,
}
use olproff_fastsbc_hmr.Runtime.Matching.{Search}
use olproff_fastsbc_hmr.Interp.Walk.{info}
use olproff_fastsbc_hmr.Codegen.Scan.{scan_tables-emit}
use olproff_fastsbc_hmr.Pipeline.{IrGenOptions}
use olproff_fastsbc_hmr.Ir.Tables.{Same, After, emit_match_guard-Same}
use olproff_fastsbc_hmr.Ir.ActionTables.{emit_header_action-Same}
use olproff_fastsbc_hmr.Ir.ElementTables.{emit_element_rules-Same}

emit_rest-Same :
    (hr : HeaderRule) (b : Bool) (cont : ℕ) (g : Emitter) (h : CppEmitter)
    → Same g h
    → After (emit_rest hr b cont g) (Codegen.Rules.emit_rest hr b h)
unfolding emit_rest Codegen.Rules.emit_rest Codegen.Rules.emit_element_rules Codegen.next_temp
emit_rest-Same hr b cont g h p =
    let (nm, h1) = Codegen.next_temp h in
    if-both After b _ _ _ _ p (
      if-both After (length hr.element_rules == 0) _ _ _ _ p
        (emit_element_rules-Same hr (Codegen.temp nm) hr.element_rules g h1 p))

emit_type_guard-Same :
    (type : MsgType) (cont : ℕ) (g : Emitter) (h : CppEmitter)
    → Same g h
    → Same (emit_type_guard type cont g).1 h
unfolding emit_type_guard int_call guard new_block
emit_type_guard-Same MsgType.any cont g h p = p
emit_type_guard-Same MsgType.request cont g h p = p
emit_type_guard-Same MsgType.reply cont g h p = p
emit_type_guard-Same MsgType.out_of_dialog cont g h p = p

emit_methods-Same :
    (method : IrStr) (acc : Cond) (methods : List Bytes) (g : Emitter) (h : CppEmitter)
    → Same g h
    → Same (emit_methods method acc methods g).2 h
unfolding emit_methods int_call
emit_methods-Same method acc [] g h p = p
emit_methods-Same method acc (m ∷ methods) g h p =
    emit_methods-Same method _ methods (record g { values = suc g.values }) h p

emit_method_guard-Same :
    (methods : List Bytes) (cont : ℕ) (g : Emitter) (h : CppEmitter)
    → Same g h
    → After (emit_method_guard methods cont g) (Codegen.Rules.emit_method_guard methods h)
unfolding emit_method_guard Codegen.Rules.emit_method_guard Codegen.next_temp guard new_block
emit_method_guard-Same methods cont g h p =
    let (os, method, g1) = str_call get_method g in
    if-both After (length methods == 0) _ _ _ _ p
      (emit_methods-Same method Cond.never methods g1 h (unfold str_call in p))

guard_some :
    (hr : HeaderRule) (hv : IrStr) (hv' : Expr) (cont : ℕ) (g : Emitter) (h : CppEmitter)
    → Same g h
    → After
        (emit_header_guard hr (some hv) cont g)
        (Codegen.Rules.emit_header_guard hr (some hv') h)
unfolding emit_header_guard Codegen.Rules.emit_header_guard
guard_some hr hv hv' cont g h p = elim (Bool-cases (empty hr.match_value)) [
  | inl empty_ ↦ rw (empty_, Codegen.Emit.emit_match_guard) p
  | inr present_ ↦
      let guarded = emit_match_guard hr.comparison MatchValType.any hr.match_value hv cont g in
      let plain =
        Codegen.Emit.emit_match_guard hr.comparison MatchValType.any hr.match_value hv' h in
      subst (λ b. After (if not b then guarded else ([], g)) plain) (sym present_)
        (emit_match_guard-Same hr.comparison MatchValType.any hr.match_value hv cont hv' g h p)
]

-- Guards on header values.
abbrev GuardSame :
    HeaderRule
    → ℕ
    → List Op × Option IrStr × Emitter
    → List Stmt × Option Expr × CppEmitter
    → Type 0
GuardSame hr cont (os, hv, g) (ss, hv', h) =
    After (emit_header_guard hr hv cont g) (Codegen.Rules.emit_header_guard hr hv' h)

value_guard-Same :
    (hr : HeaderRule) (cont : ℕ) (g : Emitter) (h : CppEmitter)
    → Same g h
    → GuardSame hr cont (emit_header_value hr g) (Codegen.Rules.emit_header_value hr h)
unfolding emit_header_value Codegen.Rules.emit_header_value
value_guard-Same hr cont g h p =
    let (os, hv, g') = str_call (get_header (literal hr.header_name)) g in
    let (t, h') = Codegen.next_temp h in
    let p' : Same g' h' = unfold str_call Codegen.next_temp in p in
    if-both (GuardSame hr cont) (not (empty hr.match_value) || is_store hr.action) _ _ _ _
      (guard_some hr hv (Codegen.temp t) cont g' h' p')
      (unfold emit_header_guard Codegen.Rules.emit_header_guard in p)

emit_header_rule-Same :
    (hr : HeaderRule) (idx : ℕ) (g : Emitter) (h : CppEmitter)
    → Same g h
    → After (emit_header_rule hr idx g) (Codegen.Rules.emit_header_rule hr idx h)
unfolding emit_header_rule Codegen.Rules.emit_header_rule Codegen.Rules.emit_head new_block
emit_header_rule-Same hr idx g h p =
    let (bs, cont, g1) = new_block (codes "rule.cont") g in
    let (ts, g2) = emit_type_guard hr.msg_type cont g1 in
    let (ms, g3) = emit_method_guard hr.methods cont g2 in
    let (vs, hv, g4) = emit_header_value hr g3 in
    let (gs, g5) = emit_header_guard hr hv cont g4 in
    let (ends, acts, g6) = emit_header_action hr idx hv g5 in
    let (ms', h1) = Codegen.Rules.emit_method_guard hr.methods h in
    let (vs', hv', h2) = Codegen.Rules.emit_header_value hr h1 in
    let (gs', h3) = Codegen.Rules.emit_header_guard hr hv' h2 in
    let (ends', acts', h4) = Codegen.Rules.emit_header_action hr idx hv' h3 in
    let p2 = emit_type_guard-Same hr.msg_type cont g1 h p in
    let p3 = emit_method_guard-Same hr.methods cont g2 h p2 in
    let p5 = value_guard-Same hr cont g3 h1 p3 in
    let (same_end, p6) = emit_header_action-Same hr idx hv hv' g5 h3 p5 in
    subst (λ b. After (emit_rest hr ends cont g6) (Codegen.Rules.emit_rest hr b h4)) same_end
      (emit_rest-Same hr ends cont g6 h4 p6)

emit_rules-Same :
    (hrs : List HeaderRule) (i : ℕ) (g : Emitter) (h : CppEmitter)
    → Same g h
    → After (emit_rules hrs i g) (Codegen.Rules.emit_rules hrs i h)
unfolding emit_rules Codegen.Rules.emit_rules
emit_rules-Same [] i g h p = p
emit_rules-Same (hr ∷ hrs) i g h p =
    emit_rules-Same hrs (i + 1) (emit_header_rule hr i g).1
      (Codegen.Rules.emit_header_rule hr i h).1 (emit_header_rule-Same hr i g h p)

-- The two back-ends number patterns and slots alike.
emit_apply-emit :
    (rs : Ruleset)
    → ((emit_apply rs).1.regexes ≡ (Codegen.Rules.emit rs).1.regexes)
      × ((emit_apply rs).1.slots ≡ (Codegen.Rules.emit rs).1.slots)
unfolding emit_apply Codegen.Rules.emit new_block
emit_apply-emit rs =
    let (es, entry, g1) = new_block (codes "entry") new_emitter in
    let (rs_, ret_ok, g2) = new_block (codes "ret.ok") g1 in
    emit_rules-Same rs.header_rules 0 g2 Codegen.Rules.new_emitter (refl, refl)

-- For every ruleset, whatever LLVM and the options are: the descriptor in the module that the LLVM
-- back-end builds is the one that the interpreter publishes, with the same name, number of slots and table
-- of patterns; and the tables behind the last rule are those of the C++ back-end, so that a number of a
-- pattern or a slot means the same in all three.
pub module_of-info :
    {R : Type 0} (search_in : Search R) (llvm : Llvm) (opts : IrGenOptions) (rs : Ruleset)
    → ((module_of llvm rs opts).info ≡ info search_in rs)
      × ((emit_apply rs).1.regexes ≡ (Codegen.Rules.emit rs).1.regexes)
      × ((emit_apply rs).1.slots ≡ (Codegen.Rules.emit rs).1.slots)
unfolding module_of build_module_info module_name_of info
module_of-info search_in llvm opts rs =
    let (regexes_, slots_) = emit_apply-emit rs in
    (rw (scan_tables-emit search_in rs, regexes_, slots_) refl, regexes_, slots_)
