-- ===== src/Pipeline.antt =====
-- src/pipeline/compiler.cpp and include/hmr/pipeline/compiler.hpp: the stages behind one call. The
-- stages that call LLVM are arguments, with the options and the statistics that they take and give
-- (include/hmr/codegen/ir_generator.hpp, include/hmr/backend/backend.hpp). `none` is an exception that
-- leaves the parser.
pub mod Success
use olproff_fastsbc_hmr.Base.{
  ℕ, Bool, true, false, Option, none, some, List, [], ◌∷◌, if◌then◌else◌, length,
}
use olproff_fastsbc_hmr.Text.{Bytes}
use olproff_fastsbc_hmr.Ast.{Ruleset}
use olproff_fastsbc_hmr.Diagnostics.{Error, Result, ok, unexpected}
use olproff_fastsbc_hmr.Parser.{UnitContext}
use olproff_fastsbc_hmr.Parser.Build.{Parser, parser, parse}
use olproff_fastsbc_hmr.Optimizer.{optimize}
use olproff_fastsbc_hmr.Optimizer.Plan.{DecisionGroup}
use olproff_fastsbc_hmr.Linker.{ObjectCode, LinkOptions, System, Call, Linked, link_shared_object}

pub record IrGenOptions : Type 0 where
  pub module_id : Bytes
  pub target_triple : Bytes
  pub emit_comments : Bool

pub record IrModuleStats : Type 0 where
  pub module_name : Bytes
  pub num_slots : ℕ
  pub num_regexes : ℕ
  pub num_header_rules : ℕ

pub record BackendOptions : Type 0 where
  pub opt_level : ℕ
  pub target_triple : Bytes
  pub cpu : Bytes
  pub features : Bytes
  pub verify : Bool

-- `wants_ir` is `ir_out != nullptr`.
pub record CompileOptions : Type 0 where
  pub output_path : Bytes
  pub opt_level : ℕ
  pub target_triple : Bytes
  pub cpu : Bytes
  pub features : Bytes
  pub module_id : Bytes
  pub emit_comments : Bool
  pub run_optimizer : Bool
  pub strip_debug : Bool
  pub linker_driver : Bytes
  pub wants_ir : Bool

pub record CompileResult : Type 0 where
  pub output_path : Bytes
  pub byte_size : ℕ
  pub object_bytes : ℕ
  pub module_name : Bytes
  pub num_header_rules : ℕ
  pub num_slots : ℕ
  pub num_regexes : ℕ
  pub triple : Bytes

-- What is not translated: the parser made from the grammar, the stages over LLVM, the system,
-- and the size of a file behind the run, if it can be had.
pub record Toolchain : Type 0 where
  pub generated : Bytes → UnitContext
  pub generate_ir : Ruleset → List DecisionGroup → IrGenOptions → Result Bytes × IrModuleStats
  pub compile_to_object : Bytes → BackendOptions → Result ObjectCode
  pub optimize_ir : Bytes → BackendOptions → Result Bytes
  pub system : System
  pub file_size : Bytes → Option ℕ

pub record ParsedProgram : Type 0 where
  pub rules : Ruleset
  pub plan : List DecisionGroup

-- What front_end does behind the parser; an Optimizer has four iterations.
unfoldable pub optimized : CompileOptions → Result Ruleset → Result ParsedProgram
unfolding optimize
optimized opts (unexpected e) = unexpected e
optimized opts (ok rs) =
    if opts.run_optimizer
    then (let (rs', report) = optimize 4 rs in ok (record { rules = rs'; plan = report.plan }))
    else ok (record { rules = rs; plan = [] })

abbrev pub result_of :
    CompileOptions → Option (Result Ruleset × Parser) → Option (Result ParsedProgram)
result_of opts none = none
result_of opts (some (r, p)) = some (optimized opts r)

unfoldable pub front_end : Toolchain → Bytes → CompileOptions → Option (Result ParsedProgram)
unfolding optimized parse
front_end t source opts = result_of opts (parse t.generated (parser source))

unfoldable pub emit_ir : Toolchain → ParsedProgram → CompileOptions → Result Bytes × IrModuleStats
emit_ir t prog opts = t.generate_ir prog.rules prog.plan (record {
  module_id = opts.module_id;
  target_triple = opts.target_triple;
  emit_comments = opts.emit_comments;
})

-- The rest of compile_to_ir behind front_end.
unfoldable pub ir_of :
    Toolchain → CompileOptions → Option (Result ParsedProgram) → Option (Result Bytes)
unfolding emit_ir
ir_of t opts none = none
ir_of t opts (some (unexpected e)) = some (unexpected e)
ir_of t opts (some (ok prog)) = some (emit_ir t prog opts).0

unfoldable pub compile_to_ir : Toolchain → Bytes → CompileOptions → Option (Result Bytes)
unfolding ir_of front_end
compile_to_ir t source opts = ir_of t opts (front_end t source opts)

unfoldable pub backend_options : CompileOptions → BackendOptions
backend_options opts = record {
  opt_level = opts.opt_level;
  target_triple = opts.target_triple;
  cpu = opts.cpu;
  features = opts.features;
  verify = true;
}

unfoldable pub link_options : CompileOptions → LinkOptions
link_options opts = record {
  output_path = opts.output_path;
  driver = opts.linker_driver;
  extra_args = [];
  strip_debug = opts.strip_debug;
}

-- `ec ? 0 : size`
abbrev pub size_or_zero : Option ℕ → ℕ
size_or_zero none = 0
size_or_zero (some n) = n

unfoldable pub facts : Toolchain → CompileOptions → ObjectCode → IrModuleStats → CompileResult
facts t opts obj stats = record {
  output_path = opts.output_path;
  byte_size = size_or_zero (t.file_size opts.output_path);
  object_bytes = length obj.bytes;
  module_name = stats.module_name;
  num_header_rules = stats.num_header_rules;
  num_slots = stats.num_slots;
  num_regexes = stats.num_regexes;
  triple = obj.triple;
}

-- The result, the calls of the linker, and what *ir_out was given.
pub record Compilation : Type 0 where
  pub result : Result CompileResult
  pub calls : List Call
  pub ir_out : Option Bytes

unfoldable pub from_link :
    Toolchain → CompileOptions → ObjectCode → IrModuleStats → Option Bytes → Linked → Compilation
unfolding facts
from_link t opts obj stats ir_out (some e, calls) = record {
  result = unexpected e;
  calls = calls;
  ir_out = ir_out;
}
from_link t opts obj stats ir_out (none, calls) = record {
  result = ok (facts t opts obj stats);
  calls = calls;
  ir_out = ir_out;
}

unfoldable pub from_object :
    Toolchain → CompileOptions → IrModuleStats → Option Bytes → Result ObjectCode → Compilation
unfolding from_link link_shared_object link_options
from_object t opts stats ir_out (unexpected e) = record {
  result = unexpected e;
  calls = [];
  ir_out = ir_out;
}
from_object t opts stats ir_out (ok obj) =
    from_link t opts obj stats ir_out (link_shared_object t.system obj (link_options opts))

unfoldable pub from_ir : Toolchain → CompileOptions → Result Bytes × IrModuleStats → Compilation
unfolding from_object backend_options
from_ir t opts (unexpected e, stats) = record { result = unexpected e; calls = []; ir_out = none }
from_ir t opts (ok ir, stats) =
    from_object t opts stats (if opts.wants_ir then some ir else none)
      (t.compile_to_object ir (backend_options opts))

unfoldable pub from_front :
    Toolchain → CompileOptions → Option (Result ParsedProgram) → Option Compilation
unfolding from_ir emit_ir
from_front t opts none = none
from_front t opts (some (unexpected e)) =
    some (record { result = unexpected e; calls = []; ir_out = none })
from_front t opts (some (ok prog)) = some (from_ir t opts (emit_ir t prog opts))

unfoldable pub compile_to_file : Toolchain → Bytes → CompileOptions → Option Compilation
unfolding from_front front_end
compile_to_file t source opts = from_front t opts (front_end t source opts)
