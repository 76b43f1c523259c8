-- ===== src/Codegen/Source.antt =====
-- The text of the translation unit: the low-level source builders and generate of
-- src/codegen/cpp_generator.cpp, with the options and the statistics of
-- include/hmr/codegen/cpp_generator.hpp.
use olproff_fastsbc_hmr.Base.{
  ℕ, ◌*◌, Bool, List, [], ◌∷◌, ◌++◌, ◌==◌, if◌then◌else◌, length, replicate,
}
use olproff_fastsbc_hmr.Text.{Bytes, codes}
use olproff_fastsbc_hmr.Ast.{Ruleset}
use olproff_fastsbc_hmr.Lowering.{to_string}
use olproff_fastsbc_hmr.Codegen.{Stmt, Item, plain, element, RuleBlock, CppEmitter}
use olproff_fastsbc_hmr.Codegen.Rules.{emit}
use olproff_fastsbc_hmr.Codegen.Spelling.{cat, esc, uint_lit, stmt_text}

pub record CppGenOptions : Type 0 where
  pub module_name : Bytes
  pub runtime_header : Bytes
  pub emit_comments : Bool

pub record CppGenStats : Type 0 where
  pub module_name : Bytes
  pub num_slots : ℕ
  pub num_regexes : ℕ
  pub num_header_rules : ℕ

-- line, at an indentation.
unfoldable pub line : ℕ → Bytes → Bytes
line indent s = replicate (indent * 4) b' ' ++ (s ++ (b'\n' ∷ []))

unfoldable pub lines : ℕ → List Stmt → Bytes
unfolding line stmt_text
lines indent [] = []
lines indent (s ∷ ss) = line indent (stmt_text s) ++ lines indent ss

-- comment and open, before a lambda at an indentation.
unfoldable pub opening : CppGenOptions → ℕ → Bytes → Bytes
unfolding line
opening opts indent s =
    (if opts.emit_comments then line indent (codes "// " ++ s) else [])
    ++ line indent (codes "if ([&]() -> bool {")

unfoldable pub items_text : CppGenOptions → List Item → Bytes
unfolding line lines stmt_text opening
items_text opts [] = []
items_text opts (plain s ∷ items) = line 2 (stmt_text s) ++ items_text opts items
items_text opts (element c ss ∷ items) = cat (
    opening opts 2 c ∷ lines 3 ss ∷ line 2 (codes "}()) return true;") ∷ items_text opts items ∷ [])

-- The member body_.
unfoldable pub body : CppGenOptions → List RuleBlock → Bytes
unfolding line opening items_text
body opts [] = []
body opts (b ∷ bs) = cat (
    opening opts 1 b.comment
    ∷ items_text opts b.items
    ∷ line 1 (codes "}()) return HMR_REJECTED;")
    ∷ (b'\n' ∷ [])
    ∷ body opts bs
    ∷ [])

-- The dash in the first line is the three bytes of U+2014.
abbrev pub preamble : Bytes
preamble = cat (
    codes "// Generated by hmr::codegen::CppGenerator "
    ∷ (226 ∷ 128 ∷ 148 ∷ [])
    ∷ codes " the \"GCC approach\" back-end.\n"
    ∷ codes "// HMR DSL -> C++ -> g++ -O3 -shared -fPIC -> .so, ABI-identical to the\n"
    ∷ codes "// LLVM-direct module (same hmr_apply + hmr_module_info; every hmr_rt_*\n"
    ∷ codes "// stays undefined and resolves against the host at dlopen). Do not edit;\n"
    ∷ codes "// regenerate from the ruleset.\n\n"
    ∷ [])

unfoldable pub regex_entries : List (Bytes × ℕ) → Bytes
unfolding esc to_string
regex_entries [] = []
regex_entries ((pat, flags) ∷ rs) = cat (
    codes "    { \""
    ∷ esc pat
    ∷ codes "\", "
    ∷ to_string flags
    ∷ codes "u },\n"
    ∷ regex_entries rs
    ∷ [])

unfoldable pub regex_table : List (Bytes × ℕ) → Bytes
unfolding regex_entries
regex_table rs =
    if length rs == 0
    then []
    else cat (
        codes "static const HmrRegexEntry hmr_regexes_[] = {\n"
        ∷ regex_entries rs
        ∷ codes "};\n\n"
        ∷ [])

unfoldable pub module_info : Bytes → CppEmitter → Bytes
unfolding esc uint_lit
module_info name g = cat (
    codes "extern \"C\" const HmrModuleInfo hmr_module_info = {\n    HMR_ABI_VERSION,\n    \""
    ∷ esc name
    ∷ codes "\",\n    "
    ∷ uint_lit (length g.slots)
    ∷ codes ",\n    "
    ∷ uint_lit (length g.regexes)
    ∷ codes ",\n    "
    ∷ (if length g.regexes == 0 then codes "nullptr" else codes "hmr_regexes_")
    ∷ codes ",\n};\n"
    ∷ [])

unfoldable pub module_name_of : CppGenOptions → Ruleset → Bytes
module_name_of opts rs =
    if length opts.module_name == 0
    then (if length rs.name == 0 then codes "hmr" else rs.name)
    else opts.module_name

unfoldable pub generate_cpp : CppGenOptions → Ruleset → Bytes × CppGenStats
unfolding emit body regex_table module_info module_name_of
generate_cpp opts rs =
    let (blocks, g) = emit rs in
    let name = module_name_of opts rs in
    (
      cat (
          preamble
          ∷ (codes "#include \"" ++ (opts.runtime_header ++ codes "\"\n\n"))
          ∷ codes "extern \"C\" int hmr_apply(HmrSipMsg* msg, HmrContext* ctx) {\n"
          ∷ codes "    (void)msg;\n    (void)ctx;\n"
          ∷ body opts blocks
          ∷ codes "    return HMR_OK;\n}\n\n"
          ∷ regex_table g.regexes
          ∷ module_info name g
          ∷ []),
      record {
        module_name = name;
        num_slots = length g.slots;
        num_regexes = length g.regexes;
        num_header_rules = length rs.header_rules;
      },
    )
