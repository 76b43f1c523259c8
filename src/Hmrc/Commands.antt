-- ===== src/Hmrc/Commands.antt =====
-- The commands of src/tools/hmrc.cpp that need LLVM, and main.
use olproff_fastsbc_hmr.Base.{
  Bool, true, false, ◌||◌, Option, none, some, List, [], ◌∷◌, ◌++◌, ◌==◌, if◌then◌else◌, length,
}
use olproff_fastsbc_hmr.Text.{Bytes, codes, same_text}
use olproff_fastsbc_hmr.Text.Number.{to_string}
use olproff_fastsbc_hmr.Diagnostics.{Result, ok, unexpected, format}
use olproff_fastsbc_hmr.Pipeline.{
  CompileOptions, BackendOptions, Toolchain, Compilation, compile_to_ir, compile_to_file,
}
use olproff_fastsbc_hmr.Hmrc.{
  Files, Finished, finish, c_str, report, cannot_read, cmd_parse, cmd_dump_ast, cmd_optimize,
}
use olproff_fastsbc_hmr.Hmrc.Samples.{cmd_check_samples}

-- CompileOptions{}
abbrev pub default_options : CompileOptions
default_options = record {
  output_path = codes "a.so";
  opt_level = 3;
  target_triple = [];
  cpu = codes "generic";
  features = [];
  module_id = codes "hmr.module";
  emit_comments = true;
  run_optimizer = true;
  strip_debug = true;
  linker_driver = [];
  wants_ir = false;
}

-- BackendOptions{}
abbrev pub default_backend : BackendOptions
default_backend = record {
  opt_level = 3;
  target_triple = [];
  cpu = codes "generic";
  features = [];
  verify = true;
}

unfoldable pub print_ir : Bytes → Result Bytes → Finished
unfolding c_str report format
print_ir path (unexpected e) = finish 1 [] (report path (format e))
print_ir path (ok ir) = finish 0 (c_str ir) []

-- What cmd_dump_ir does behind compile_to_ir.
unfoldable pub dump_ir : Toolchain → Bytes → Bool → Option (Result Bytes) → Option Finished
unfolding print_ir report format
dump_ir t path optimize none = none
dump_ir t path optimize (some (unexpected e)) = some (finish 1 [] (report path (format e)))
dump_ir t path optimize (some (ok ir)) =
    some (print_ir path (if optimize then t.optimize_ir ir default_backend else ok ir))

unfoldable pub cmd_dump_ir : Toolchain → Files → Bytes → Bool → Option Finished
unfolding cannot_read dump_ir compile_to_ir
cmd_dump_ir t files path optimize = elim (files.read path) [
  | none ↦ some (finish 1 [] (cannot_read path))
  | some src ↦ dump_ir t path optimize (compile_to_ir t src default_options)
]

unfoldable pub print_result : Bytes → Bytes → Compilation → Finished
unfolding c_str report format to_string
print_result path out c = elim c.result [
  | unexpected e ↦ record { code = 1; out = []; err = report path (format e); calls = c.calls }
  | ok r ↦ record {
    code = 0;
    out =
        codes "wrote "
        ++ (c_str out ++ (codes " (" ++ (to_string r.byte_size ++ codes " bytes)\n")));
    err = [];
    calls = c.calls;
  }
]

abbrev or_thrown : Bytes → Bytes → Option Compilation → Option Finished
or_thrown path out none = none
or_thrown path out (some c) = some (print_result path out c)

unfoldable pub cmd_compile : Toolchain → Files → Bytes → Bytes → Option Finished
unfolding cannot_read print_result compile_to_file
cmd_compile t files path out = elim (files.read path) [
  | none ↦ some (finish 1 [] (cannot_read path))
  | some src ↦
      or_thrown path out (compile_to_file t src (record default_options { output_path = out }))
]

unfoldable pub usage : Bool → Finished
usage have_llvm = finish 2 [] (
    codes "usage: hmrc <command> [args]\n"
    ++ (codes "  parse <file>\n"
        ++ (codes "  dump-ast <file>\n"
            ++ (codes "  optimize <file>\n"
                ++ (codes "  check-samples <dir>\n"
                    ++ (if have_llvm
                        then codes "  dump-ir <file> [--opt]\n"
                          ++ codes "  compile <file> [-o out.so]\n"
                        else []))))))

-- The loop over the arguments behind the file of dump-ir.
unfoldable pub opt_flag : Bool → List Bytes → Bool
unfolding same_text
opt_flag optimize [] = optimize
opt_flag optimize (a ∷ args) =
    opt_flag (optimize || same_text a (codes "--opt") || same_text a (codes "-O")) args

-- The loop over the arguments behind the file of compile.
unfoldable pub out_flag : Bytes → List Bytes → Bytes
unfolding same_text
out_flag out [] = out
out_flag out (a ∷ []) = out
out_flag out (a ∷ b ∷ args) = out_flag (if same_text a (codes "-o") then b else out) (b ∷ args)

-- The commands that take a file and no more: `none` if the command is another one.
unfoldable pub main_front : Toolchain → Files → Bytes → Bytes → Option (Option Finished)
unfolding same_text cmd_parse cmd_dump_ast cmd_optimize cmd_check_samples
main_front t files cmd file =
    if same_text cmd (codes "parse")
    then some (cmd_parse t files file)
    else if same_text cmd (codes "dump-ast")
    then some (cmd_dump_ast t files file)
    else if same_text cmd (codes "optimize")
    then some (cmd_optimize t files file)
    else if same_text cmd (codes "check-samples")
    then some (cmd_check_samples t files file)
    else none

-- The commands of a build with LLVM.
unfoldable pub main_llvm : Toolchain → Files → Bytes → Bytes → List Bytes → Option (Option Finished)
unfolding same_text opt_flag out_flag cmd_dump_ir cmd_compile
main_llvm t files cmd file rest =
    if same_text cmd (codes "dump-ir")
    then some (cmd_dump_ir t files file (opt_flag false rest))
    else if same_text cmd (codes "compile")
    then some (cmd_compile t files file (out_flag (codes "a.so") rest))
    else none

abbrev first_of : Option (Option Finished) → Option (Option Finished) → Finished → Option Finished
first_of (some r) b otherwise = r
first_of none (some r) otherwise = r
first_of none none otherwise = some otherwise

-- main on argv behind the name of the program; `have_llvm` is HMR_HAVE_LLVM.
unfoldable pub main : Toolchain → Files → Bool → List Bytes → Option Finished
unfolding main_front main_llvm usage
main t files have_llvm [] = some (usage have_llvm)
main t files have_llvm (cmd ∷ []) = some (usage have_llvm)
main t files have_llvm (cmd ∷ file ∷ rest) =
    first_of (if length rest == 0 then main_front t files cmd file else none)
      (if have_llvm then main_llvm t files cmd file rest else none) (usage have_llvm)
