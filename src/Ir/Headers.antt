-- ===== src/Ir/Headers.antt =====
-- emit_header_rule, emit, build_module_info and generate_ir of src/codegen/ir_generator.cpp. What LLVM
-- makes of a module is an argument: the verifier, the printer, and the triple of the host.
use olproff_fastsbc_hmr.Base.{
  ℕ, ◌+◌, Bool, not, ◌||◌, Option, none, some, List, [], ◌∷◌, ◌++◌, ◌==◌, if◌then◌else◌, length,
  map,
}
use olproff_fastsbc_hmr.Text.{Bytes, codes}
use olproff_fastsbc_hmr.Value.{empty}
use olproff_fastsbc_hmr.Ast.{MatchValType, MsgType, HeaderRule, Ruleset}
use olproff_fastsbc_hmr.Diagnostics.{Result, ok, unexpected, make_error, unknown_loc}
use olproff_fastsbc_hmr.Runtime.{HmrModuleInfo}
use olproff_fastsbc_hmr.Interp.Walk.{is_store}
use olproff_fastsbc_hmr.Optimizer.Plan.{DecisionGroup}
use olproff_fastsbc_hmr.Pipeline.{IrGenOptions, IrModuleStats}
use olproff_fastsbc_hmr.Ir.{
  IrStr, literal, get_header, get_method, is_request, str_eq, Cond, never, negation, either, Op, br,
  set_insert_point, ret, Emitter, str_call, int_call, new_block, guard,
}
use olproff_fastsbc_hmr.Ir.Emit.{emit_match_guard}
use olproff_fastsbc_hmr.Ir.Rules.{emit_header_action, emit_element_rules}

unfoldable pub emit_type_guard : MsgType → ℕ → Emitter → List Op × Emitter
unfolding int_call guard
emit_type_guard type cont g =
    let (os, cond, g1) = int_call is_request g in
    let (rs, g2) = guard cond (codes "is.req") cont g1 in
    let (ns, g3) = guard (negation cond) (codes "is.reply") cont g1 in
    elim type [ MsgType.request ↦ (os ++ rs, g2) | MsgType.reply ↦ (os ++ ns, g3) | _ ↦ ([], g) ]

-- The loop over the methods, with `acc`.
unfoldable pub emit_methods : IrStr → Cond → List Bytes → Emitter → List Op × Cond × Emitter
unfolding int_call
emit_methods method acc [] g = ([], acc, g)
emit_methods method acc (m ∷ methods) g =
    let (os, cond, g1) = int_call (str_eq method (literal m)) g in
    let (rest, acc', g2) = emit_methods method (either acc cond) methods g1 in
    (os ++ rest, acc', g2)

unfoldable pub emit_method_guard : List Bytes → ℕ → Emitter → List Op × Emitter
unfolding str_call emit_methods guard
emit_method_guard methods cont g =
    let (os, method, g1) = str_call get_method g in
    let (ms, acc, g2) = emit_methods method never methods g1 in
    let (gs, g3) = guard acc (codes "method.ok") cont g2 in
    if length methods == 0 then ([], g) else (os ++ (ms ++ gs), g3)

-- The header value, where the guard or the action needs it.
unfoldable pub emit_header_value : HeaderRule → Emitter → List Op × Option IrStr × Emitter
unfolding str_call
emit_header_value hr g =
    let (os, hv, g') = str_call (get_header (literal hr.header_name)) g in
    if not (empty hr.match_value) || is_store hr.action then (os, some hv, g') else ([], none, g)

-- The guard of a match-value that is there; the header value is then there.
unfoldable pub emit_header_guard : HeaderRule → Option IrStr → ℕ → Emitter → List Op × Emitter
unfolding emit_match_guard
emit_header_guard hr none cont g = ([], g)
emit_header_guard hr (some hv) cont g =
    if not (empty hr.match_value)
    then emit_match_guard hr.comparison MatchValType.any hr.match_value hv cont g
    else ([], g)

-- The element rules behind an action that did not terminate the block, and the branch to `cont`.
unfoldable pub emit_rest : HeaderRule → Bool → ℕ → Emitter → List Op × Emitter
unfolding emit_element_rules
emit_rest hr terminated cont g =
    let (os, g') = emit_element_rules hr hr.element_rules g in
    if terminated
    then ([], g)
    else if length hr.element_rules == 0
    then (br cont ∷ [], g)
    else (os ++ br cont ∷ [], g')

unfoldable pub emit_header_rule : HeaderRule → ℕ → Emitter → List Op × Emitter
unfolding new_block emit_type_guard emit_method_guard emit_header_value emit_header_guard
    emit_header_action emit_rest
emit_header_rule hr idx g =
    let (bs, cont, g1) = new_block (codes "rule.cont") g in
    let (ts, g2) = emit_type_guard hr.msg_type cont g1 in
    let (ms, g3) = emit_method_guard hr.methods cont g2 in
    let (vs, hv, g4) = emit_header_value hr g3 in
    let (gs, g5) = emit_header_guard hr hv cont g4 in
    let (terminated, acts, g6) = emit_header_action hr idx hv g5 in
    let (rest, g7) = emit_rest hr terminated cont g6 in
    (bs ++ (ts ++ (ms ++ (vs ++ (gs ++ (acts ++ (rest ++ set_insert_point cont ∷ [])))))), g7)

-- The loop of `emit` from the rule `i` on.
unfoldable pub emit_rules : List HeaderRule → ℕ → Emitter → List Op × Emitter
unfolding emit_header_rule
emit_rules [] i g = ([], g)
emit_rules (hr ∷ hrs) i g =
    let (os, g1) = emit_header_rule hr i g in
    let (rest, g2) = emit_rules hrs (i + 1) g1 in (os ++ rest, g2)

abbrev pub new_emitter : Emitter
new_emitter = record { values = 0; blocks = 0; reject_bb = none; regexes = []; slots = [] }

-- `if (reject_bb_)`: HMR_REJECTED is 1.
abbrev reject_end : Option ℕ → List Op
reject_end none = []
reject_end (some bb) = set_insert_point bb ∷ ret 1 ∷ []

-- The body of hmr_apply; HMR_OK is 0.
unfoldable pub emit_apply : Ruleset → List Op × Emitter
unfolding new_block emit_rules
emit_apply rs =
    let (es, entry, g1) = new_block (codes "entry") new_emitter in
    let (rs_, ret_ok, g2) = new_block (codes "ret.ok") g1 in
    let (os, g3) = emit_rules rs.header_rules 0 g2 in
    (
      es
          ++ (rs_
              ++ (set_insert_point entry
                  ∷ (os
                      ++ (br ret_ok ∷ set_insert_point ret_ok ∷ ret 0 ∷ reject_end g3.reject_bb)))),
      g3,
    )

pub record Module : Type 0 where
  pub id : Bytes
  pub triple : Bytes
  pub hmr_apply : List Op
  pub info : HmrModuleInfo

unfoldable pub module_name_of : Ruleset → Bytes
module_name_of rs = if length rs.name == 0 then codes "hmr" else rs.name

-- hmr_module_info, with the table of patterns that it points to; HMR_ABI_VERSION is 2.
unfoldable pub build_module_info : Bytes → Emitter → HmrModuleInfo
build_module_info module_name g = record {
  abi_version = 2;
  name = module_name;
  num_slots = length g.slots;
  regexes = map (λ (r : Bytes × ℕ). record { pattern = r.0; flags = r.1 }) g.regexes;
}

-- `verify` gives the text of a module that fails.
pub record Llvm : Type 0 where
  pub verify : Module → Option Bytes
  pub print : Module → Bytes
  pub default_triple : Bytes

-- `*stats` is written where the module verifies.
unfoldable pub stats_of : Ruleset → Emitter → IrModuleStats
unfolding module_name_of
stats_of rs g = record {
  module_name = module_name_of rs;
  num_slots = length g.slots;
  num_regexes = length g.regexes;
  num_header_rules = length rs.header_rules;
}

-- IrModuleStats{}
abbrev no_stats : IrModuleStats
no_stats = record { module_name = []; num_slots = 0; num_regexes = 0; num_header_rules = 0 }

unfoldable pub module_of : Llvm → Ruleset → IrGenOptions → Module
unfolding emit_apply build_module_info module_name_of
module_of llvm rs opts =
    let (os, g) = emit_apply rs in
    record {
      id = opts.module_id;
      triple = if length opts.target_triple == 0 then llvm.default_triple else opts.target_triple;
      hmr_apply = os;
      info = build_module_info (module_name_of rs) g;
    }

-- The plan is not used.
unfoldable pub generate_ir :
    Llvm → Ruleset → List DecisionGroup → IrGenOptions → Result Bytes × IrModuleStats
unfolding module_of stats_of emit_apply make_error
generate_ir llvm rs plan opts =
    let mod_ = module_of llvm rs opts in
    elim (llvm.verify mod_) [
      | some err ↦ (
        unexpected
            (make_error (codes "internal: generated IR failed verification:\n" ++ err) unknown_loc),
        no_stats,
      )
      | none ↦ (ok (llvm.print mod_), stats_of rs (emit_apply rs).1)
    ]
