-- ===== src/Codegen/Descriptor.antt =====
-- The descriptor of a generated module (src/codegen/cpp_generator.cpp) beside that of the interpreter
-- (src/interp/interpreter.cpp).
use olproff_fastsbc_hmr.Base.{
  suc, length, List, [], ◌∷◌, ◌++◌, ◌==◌, if◌then◌else◌, map, ◌≡◌, refl, ap, sym, ◌∙◌, append_assoc,
  append-nil, ==_iff,
}
use olproff_fastsbc_hmr.Text.{Bytes, codes}
use olproff_fastsbc_hmr.Lowering.{to_string}
use olproff_fastsbc_hmr.Runtime.{HmrModuleInfo}
use olproff_fastsbc_hmr.Codegen.{CppEmitter}
use olproff_fastsbc_hmr.Codegen.Rules.{emit}
use olproff_fastsbc_hmr.Codegen.Spelling.{cat, esc, uint_lit}
use olproff_fastsbc_hmr.Ast.{Ruleset}
use olproff_fastsbc_hmr.Runtime.Matching.{Search}
use olproff_fastsbc_hmr.Interp.Walk.{info}
use olproff_fastsbc_hmr.Codegen.Source.{
  CppGenOptions, module_name_of, module_info, generate_cpp, preamble, body, regex_table,
}
use olproff_fastsbc_hmr.Codegen.Scan.{scan_tables-emit}

length-map : {A B : Type 0} (f : A → B) (xs : List A) → length (map f xs) ≡ length xs
length-map f [] = refl
length-map f (x ∷ xs) = ap suc (length-map f xs)

-- The text of an initializer, one field on a line.
unfoldable pub fields_text : List Bytes → Bytes
fields_text [] = []
fields_text (f ∷ fs) = codes "    " ++ (f ++ (codes ",\n" ++ fields_text fs))

-- The definition of hmr_module_info with the values of `i`, in the order of the fields of HmrModuleInfo.
abbrev pub definition_of : HmrModuleInfo → Bytes
definition_of i =
    codes "extern \"C\" const HmrModuleInfo hmr_module_info = {\n"
    ++ (fields_text (
          codes "HMR_ABI_VERSION"
          ∷ (codes "\"" ++ (esc i.name ++ codes "\""))
          ∷ (to_string i.num_slots ++ codes "u")
          ∷ (to_string (length i.regexes) ++ codes "u")
          ∷ (if length i.regexes == 0 then codes "nullptr" else codes "hmr_regexes_")
          ∷ [])
        ++ codes "};\n")

module_info_lem :
    (i : HmrModuleInfo) (g : CppEmitter)
    → i.num_slots ≡ length g.slots
    → length i.regexes ≡ length g.regexes
    → module_info i.name g ≡ definition_of i
unfolding module_info uint_lit fields_text
module_info_lem i g slots regexes = rw (slots, regexes) (simp append_assoc)

cat-last : (ps : List Bytes) (x : Bytes) → cat (ps ++ x ∷ []) ≡ cat ps ++ x
cat-last [] x = append-nil x
cat-last (p ∷ ps) x = ap (λ t. p ++ t) (cat-last ps x) ∙ sym (append_assoc p (cat ps) x)

-- The text ends with `last`.
abbrev pub EndsWith : Bytes → Bytes → Type 0
EndsWith text last = (front : Bytes) × (text ≡ front ++ last)

-- Where the options give no name: the generated text ends with the definition of hmr_module_info, with
-- the name, the number of slots and the number of patterns that the descriptor of the interpreter has,
-- each in its field, and no table where there is no pattern; and the statistics say the same.
pub generate_cpp-info :
    {R : Type 0} (search_in : Search R) (opts : CppGenOptions) (rs : Ruleset)
    → length opts.module_name ≡ 0
    → EndsWith (generate_cpp opts rs).0 (definition_of (info search_in rs))
      × ((generate_cpp opts rs).1.module_name ≡ (info search_in rs).name)
      × ((generate_cpp opts rs).1.num_slots ≡ (info search_in rs).num_slots)
      × ((generate_cpp opts rs).1.num_regexes ≡ length (info search_in rs).regexes)
unfolding generate_cpp info module_name_of
generate_cpp-info search_in opts rs unnamed =
    let i = info search_in rs in
    let g = (emit rs).1 in
    let name : module_name_of opts rs ≡ i.name =
      rw ((==_iff (length opts.module_name) 0).1 unnamed) refl in
    let slots : i.num_slots ≡ length g.slots = rw (scan_tables-emit search_in rs) refl in
    let regexes : length i.regexes ≡ length g.regexes =
      rw (scan_tables-emit search_in rs) (length-map _ _) in
    let front : List Bytes =
      preamble
      ∷ (codes "#include \"" ++ (opts.runtime_header ++ codes "\"\n\n"))
      ∷ codes "extern \"C\" int hmr_apply(HmrSipMsg* msg, HmrContext* ctx) {\n"
      ∷ codes "    (void)msg;\n    (void)ctx;\n"
      ∷ body opts (emit rs).0
      ∷ codes "    return HMR_OK;\n}\n\n"
      ∷ regex_table g.regexes
      ∷ [] in
    let ends =
      cat-last front (module_info (module_name_of opts rs) g)
      ∙ ap (λ t. cat front ++ t)
          (ap (λ n. module_info n g) name ∙ module_info_lem i g slots regexes) in
    ((cat front, ends), name, sym slots, sym regexes)
