-- ===== src/Tests/Tools.antt =====
-- The linker, the pipeline and hmrc, on a small system.
use olproff_fastsbc_hmr.Base.{
  ap, sym, ℕ, Bool, true, false, Option, none, some, [], ◌∷◌, ◌++◌, if◌then◌else◌, ◌≡◌, refl,
  length,
}
use olproff_fastsbc_hmr.Text.{Bytes, codes}
use olproff_fastsbc_hmr.Text.Number.{to_string}
use olproff_fastsbc_hmr.Diagnostics.{Error, ok, format}
use olproff_fastsbc_hmr.Linker.{
  Call, ObjectCode, LinkOptions, Answer, value, failed, exited, System, link_shared_object,
}
use olproff_fastsbc_hmr.Linker.Monitor.{monitor, KeepsLength}
use olproff_fastsbc_hmr.Linker.Protocol.{link-monitor}
use olproff_fastsbc_hmr.Base.{◌↔◌, List, length}
use olproff_fastsbc_hmr.Linker.Success.{Succeeds, link-Succeeds}
use olproff_fastsbc_hmr.Pipeline.{Toolchain, CompileResult, link_options, compile_to_file}
use olproff_fastsbc_hmr.Pipeline.Success.{Produces, compile_to_file-Produces}
use olproff_fastsbc_hmr.Pipeline.{IrGenOptions}
use olproff_fastsbc_hmr.Interp.Walk.{info}
use olproff_fastsbc_hmr.Codegen.Rules.{emit}
use olproff_fastsbc_hmr.Ir.Headers.{Llvm, module_of, emit_apply, generate_ir}
use olproff_fastsbc_hmr.Ir.Descriptor.{module_of-info}
use olproff_fastsbc_hmr.Tests.Generator.{small, no_match}
use olproff_fastsbc_hmr.Hmrc.{Entry, Files, Finished}
use olproff_fastsbc_hmr.Hmrc.Samples.{parses, cmd_check_samples}
use olproff_fastsbc_hmr.Hmrc.Commands.{default_options, main}
use olproff_fastsbc_hmr.Hmrc.Verdict.{
  KeepsCounts, count, eligible, failing, named_right, cmd_check_samples-code,
}
use olproff_fastsbc_hmr.Tests.Parsing.{generated_for, good}

-- The driver ends with the exit code that is given.
abbrev system : ℕ → System
system code = record {
  getenv = λ name. none;
  strerror = λ errno. codes "no";
  mkstemps = λ t n. value (5, t);
  opens = λ path. true;
  writes = λ path bytes. true;
  spawn = λ driver args log. value 77;
  waitpid = λ pid. value (exited code);
  content = λ path. codes "ld: bad";
}

abbrev path_of : Answer (ℕ × Bytes) → Bytes
path_of (value (fd, path)) = path
path_of (failed errno) = []

same_length : (code : ℕ) → KeepsLength (system code)
same_length code t n fd path h = ap (λ a. length (path_of a)) (sym h)

abbrev object : ObjectCode
object = record { bytes = 127 ∷ []; triple = codes "x86" }

abbrev link : LinkOptions
link = record { output_path = codes "m.so"; driver = []; extra_args = []; strip_debug = true }

link-monitor_example : monitor (link_shared_object (system 1) object link).1 [] ≡ some []
link-monitor_example = link-monitor (system 1) (same_length 1) object link

link-Succeeds_example :
    ((link_shared_object (system 0) object link).0 ≡ none) ↔ Succeeds (system 0) object link
link-Succeeds_example = link-Succeeds (system 0) object link

abbrev error_text : Option Error → Bytes
error_text none = []
error_text (some e) = format e

link_fails :
    error_text (link_shared_object (system 1) object link).0
    ≡ codes "error: linker: 'cc' failed (exit 1)\nld: bad"
unfolding link_shared_object format
link_fails = refl

abbrev llvm : Llvm
llvm = record { verify = λ m. none; print = λ m. codes "module"; default_triple = codes "x86" }

abbrev ir_options : IrGenOptions
ir_options = record { module_id = codes "m"; target_triple = []; emit_comments = true }

module_of-info_example :
    ((module_of llvm small ir_options).info ≡ info no_match small)
    × ((emit_apply small).1.regexes ≡ (emit small).1.regexes)
    × ((emit_apply small).1.slots ≡ (emit small).1.slots)
module_of-info_example = module_of-info no_match llvm ir_options small

one_slot : (module_of llvm small ir_options).info.num_slots ≡ 1
unfolding module_of
one_slot = refl

abbrev toolchain : Toolchain
toolchain = record {
  generated = generated_for good;
  generate_ir = generate_ir llvm;
  compile_to_object = λ ir opts. ok object;
  optimize_ir = λ ir opts. ok ir;
  system = system 0;
  file_size = λ path. some 9;
}

abbrev facts_of_s : CompileResult
facts_of_s = record {
  output_path = default_options.output_path;
  byte_size = 9;
  object_bytes = length object.bytes;
  module_name = codes "m";
  num_header_rules = 0;
  num_slots = 0;
  num_regexes = 0;
  triple = object.triple;
}

abbrev linker_calls : List Call
linker_calls = (link_shared_object (system 0) object (link_options default_options)).1

compile_to_file-Produces_example :
    (compile_to_file toolchain (codes "s") default_options
      ≡ some (record { result = ok facts_of_s; calls = linker_calls; ir_out = none }))
    ↔ Produces toolchain (codes "s") default_options facts_of_s linker_calls none
compile_to_file-Produces_example =
    compile_to_file-Produces toolchain (codes "s") default_options facts_of_s linker_calls none

compiles_s :
    compile_to_file toolchain (codes "s") default_options
    ≡ some (record { result = ok facts_of_s; calls = linker_calls; ir_out = none })
unfolding compile_to_file generate_ir link_options
compiles_s = refl

-- A directory with a sample that is to fail and parses, and a file that is no sample.
abbrev entry : Bytes → Bool → Entry
entry name is_hmr = record { path = name; filename = name; is_regular_file = true; is_hmr = is_hmr }

abbrev files : Files
files = record {
  read = λ path. some (codes "sip-manipulation");
  is_directory = λ path. true;
  entries = λ path.
      entry (codes "a.hmr") true
      ∷ entry (codes "invalid_b.hmr") true
      ∷ entry (codes "c.txt") false
      ∷ [];
  sort = λ l. l;
}

abbrev outcome : Entry → Bool × Bytes
outcome e = (true, [])

every_file_parses : (e : Entry) → parses toolchain files e ≡ some (outcome e)
unfolding parses
every_file_parses e = refl

keeps : KeepsCounts files
keeps p l = refl

cmd_check_samples-code_example :
    (f : Finished) × (lines : Bytes) × (cmd_check_samples toolchain files (codes "d") ≡ some f)
    × (f.code ≡ (if named_right outcome (files.entries (codes "d")) then 0 else 1))
    × (f.out
        ≡ lines
          ++ (to_string (count eligible (files.entries (codes "d")))
              ++ (codes " sample(s) checked, "
                  ++ (to_string (count (failing outcome) (files.entries (codes "d")))
                      ++ codes " failure(s)\n"))))
cmd_check_samples-code_example =
    cmd_check_samples-code toolchain files outcome every_file_parses keeps (codes "d") refl

abbrev written : Option Finished → Bytes
written none = []
written (some f) = f.out

one_failure :
    written (cmd_check_samples toolchain files (codes "d"))
    ≡ codes "  ok   a.hmr (parsed)\n"
      ++ (codes "  FAIL invalid_b.hmr (expected parse-error, got success)\n"
          ++ codes "2 sample(s) checked, 1 failure(s)\n")
unfolding cmd_check_samples
one_failure = refl

compiled :
    written
      (main toolchain files true (codes "compile" ∷ codes "f" ∷ codes "-o" ∷ codes "m.so" ∷ []))
    ≡ codes "wrote m.so (9 bytes)\n"
unfolding main generate_ir
compiled = refl
