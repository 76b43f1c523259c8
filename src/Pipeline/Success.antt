-- ===== src/Pipeline/Success.antt =====
-- compile_to_file of src/pipeline/compiler.cpp: when it succeeds, and with what.
use olproff_fastsbc_hmr.Base.{
  ℕ, true, Option, none, some, List, [], if◌then◌else◌, length, ◌≡◌, ◌↔◌, refl, sym, ap, ap₂, ◌∙◌,
  Bool-cases, inl, inr,
}
use olproff_fastsbc_hmr.Text.{Bytes}
use olproff_fastsbc_hmr.Ast.{Ruleset}
use olproff_fastsbc_hmr.Diagnostics.{Error, Result, ok, unexpected}
use olproff_fastsbc_hmr.Parser.Build.{Parser, parser, parse}
use olproff_fastsbc_hmr.Optimizer.{optimize}
use olproff_fastsbc_hmr.Optimizer.Plan.{DecisionGroup}
use olproff_fastsbc_hmr.Linker.{ObjectCode, Call, Linked, link_shared_object}
use olproff_fastsbc_hmr.Pipeline.{
  IrModuleStats, CompileOptions, CompileResult, Toolchain, optimized, front_end, emit_ir,
  compile_to_ir, backend_options, link_options, facts, Compilation, from_link, from_object, from_ir,
  from_front, compile_to_file, result_of, size_or_zero, ParsedProgram, ir_of,
}

-- What is compiled: the rules as they were read, or what the optimizer makes of them.
abbrev pub rules_of : CompileOptions → Ruleset → Ruleset
rules_of opts rs = if opts.run_optimizer then (optimize 4 rs).0 else rs

abbrev pub plan_of : CompileOptions → Ruleset → List DecisionGroup
plan_of opts rs = if opts.run_optimizer then (optimize 4 rs).1.plan else []

-- Every stage succeeds, on what the stage before it gave, and `r` has the facts of what they gave; `k`
-- are the linker's calls and `o` the module for a caller who asked for it.
pub record Produces (t : Toolchain) (source : Bytes) (opts : CompileOptions) (r : CompileResult)
    (k : List Call) (o : Option Bytes) : Type 0 where
  pub rs : Ruleset
  pub rest : Parser
  pub ir : Bytes
  pub stats : IrModuleStats
  pub obj : ObjectCode
  pub parsed : parse t.generated (parser source) ≡ some (ok rs, rest)
  pub generated :
      t.generate_ir (rules_of opts rs) (plan_of opts rs) (record {
        module_id = opts.module_id;
        target_triple = opts.target_triple;
        emit_comments = opts.emit_comments;
      })
      ≡ (ok ir, stats)
  pub compiled :
      t.compile_to_object ir (record {
        opt_level = opts.opt_level;
        target_triple = opts.target_triple;
        cpu = opts.cpu;
        features = opts.features;
        verify = true;
      })
      ≡ ok obj
  pub linked :
      link_shared_object t.system obj (record {
        output_path = opts.output_path;
        driver = opts.linker_driver;
        extra_args = [];
        strip_debug = opts.strip_debug;
      })
      ≡ (none, k)
  pub as_ir : compile_to_ir t source opts ≡ some (ok ir)
  pub handed : o ≡ (if opts.wants_ir then some ir else none)
  pub output_path : r.output_path ≡ opts.output_path
  pub byte_size : r.byte_size ≡ elim (t.file_size opts.output_path) [ none ↦ 0 | some n ↦ n ]
  pub object_bytes : r.object_bytes ≡ length obj.bytes
  pub module_name : r.module_name ≡ stats.module_name
  pub num_header_rules : r.num_header_rules ≡ stats.num_header_rules
  pub num_slots : r.num_slots ≡ stats.num_slots
  pub num_regexes : r.num_regexes ≡ stats.num_regexes
  pub triple : r.triple ≡ obj.triple

optimized_lem :
    (opts : CompileOptions) (rs : Ruleset)
    → optimized opts (ok rs) ≡ ok (record { rules = rules_of opts rs; plan = plan_of opts rs })
unfolding optimized
optimized_lem opts rs = elim (Bool-cases opts.run_optimizer) [
  | inl run ↦ rw run refl
  | inr skip ↦ rw skip refl
]

ok_lem : {A : Type 0} (x y : A) → ok x ≡ ok y → x ≡ y
ok_lem x y h = cc

size_lem : (n : Option ℕ) → size_or_zero n ≡ elim n [ none ↦ 0 | some n ↦ n ]
size_lem none = refl
size_lem (some n) = refl

not_ok : {A : Type 0} (e : Error) (x : A) → unexpected e ≡ ok x → ⊥
not_ok e x h = cc

some_lem : {A : Type 0} (x y : A) → some x ≡ some y → x ≡ y
some_lem x y h = cc

not_parsed :
    (opts : CompileOptions) (q : Option (Result Ruleset × Parser)) (prog : ParsedProgram)
    → result_of opts q ≡ some (ok prog)
    → (rs : Ruleset) × (p : Parser) × (q ≡ some (ok rs, p))
      × (prog ≡ record { rules = rules_of opts rs; plan = plan_of opts rs })
unfolding optimized
not_parsed opts none prog h = absurd (cc)
not_parsed opts (some (unexpected e, p)) prog h = absurd (not_ok e prog (some_lem _ _ h))
not_parsed opts (some (ok rs, p)) prog h =
    (rs, p, refl, sym (ok_lem _ _ (sym (optimized_lem opts rs) ∙ some_lem _ _ h)))

module _ (t : Toolchain) (source : Bytes) (opts : CompileOptions) (r : CompileResult)
    (k : List Call) (o : Option Bytes) where
  abbrev made : Compilation
  made = record { result = ok r; calls = k; ir_out = o }

  from_link_ok :
      (obj : ObjectCode) (stats : IrModuleStats) (i : Option Bytes) (l : Linked)
      → from_link t opts obj stats i l ≡ made
      → (l ≡ (none, k)) × (i ≡ o) × (facts t opts obj stats ≡ r)
  unfolding from_link
  from_link_ok obj stats i (some e, calls) h = absurd (not_ok e r (ap (λ c. c.result) h))
  from_link_ok obj stats i (none, calls) h = (
    ap (λ c. (none, c)) (ap (λ c. c.calls) h),
    ap (λ c. c.ir_out) h,
    ok_lem _ _ (ap (λ c. c.result) h),
  )

  from_object_ok :
      (stats : IrModuleStats) (i : Option Bytes) (res : Result ObjectCode)
      → from_object t opts stats i res ≡ made
      → (obj : ObjectCode) × (res ≡ ok obj)
        × (from_link t opts obj stats i (link_shared_object t.system obj (link_options opts))
            ≡ made)
  unfolding from_object
  from_object_ok stats i (unexpected e) h = absurd (not_ok e r (ap (λ c. c.result) h))
  from_object_ok stats i (ok obj) h = (obj, refl, h)

  from_ir_ok :
      (p : Result Bytes × IrModuleStats)
      → from_ir t opts p ≡ made
      → (ir : Bytes) × (p ≡ (ok ir, p.1))
        × (from_object t opts p.1
              (if opts.wants_ir then some ir else none)
              (t.compile_to_object ir (backend_options opts))
            ≡ made)
  unfolding from_ir
  from_ir_ok (unexpected e, stats) h = absurd (not_ok e r (ap (λ c. c.result) h))
  from_ir_ok (ok ir, stats) h = (ir, refl, h)

  from_front_ok :
      (f : Option (Result ParsedProgram))
      → from_front t opts f ≡ some made
      → (prog : ParsedProgram) × (f ≡ some (ok prog))
        × (from_ir t opts (emit_ir t prog opts) ≡ made)
  unfolding from_front
  from_front_ok none h = absurd (cc)
  from_front_ok (some (unexpected e)) h = absurd (not_ok e r (ap (λ c. c.result) (some_lem _ _ h)))
  from_front_ok (some (ok prog)) h = (prog, refl, some_lem _ _ h)

  compiled-Produces : compile_to_file t source opts ≡ some made → Produces t source opts r k o
  unfolding compile_to_file front_end emit_ir backend_options link_options facts compile_to_ir ir_of
  compiled-Produces h =
      let (prog, front_, h1) = from_front_ok (front_end t source opts) h in
      let (rs, rest, parsed, prog_) =
        not_parsed opts (parse t.generated (parser source)) prog front_ in
      let (ir, generated, h2) = from_ir_ok (emit_ir t prog opts) h1 in
      let stats = (emit_ir t prog opts).1 in
      let (obj, compiled, h3) = from_object_ok stats _ _ h2 in
      let (linked, handed, facts_) = from_link_ok obj stats _ _ h3 in
      record {
        rs = rs;
        rest = rest;
        ir = ir;
        stats = stats;
        obj = obj;
        parsed = parsed;
        generated = ap (λ q. emit_ir t q opts) (sym prog_) ∙ generated;
        as_ir = ap (ir_of t opts) front_ ∙ ap (λ q. some q.0) generated;
        compiled = compiled;
        linked = linked;
        handed = sym handed;
        output_path = sym (ap (λ c. c.output_path) facts_);
        byte_size = sym (ap (λ c. c.byte_size) facts_) ∙ size_lem (t.file_size opts.output_path);
        object_bytes = sym (ap (λ c. c.object_bytes) facts_);
        module_name = sym (ap (λ c. c.module_name) facts_);
        num_header_rules = sym (ap (λ c. c.num_header_rules) facts_);
        num_slots = sym (ap (λ c. c.num_slots) facts_);
        num_regexes = sym (ap (λ c. c.num_regexes) facts_);
        triple = sym (ap (λ c. c.triple) facts_);
      }

  facts-Produces : (p : Produces t source opts r k o) → facts t opts p.obj p.stats ≡ r
  unfolding facts
  facts-Produces p =
      let size = p.byte_size ∙ sym (size_lem (t.file_size opts.output_path)) in
      rw
        (
          p.output_path, size, p.object_bytes, p.module_name, p.num_header_rules, p.num_slots,
          p.num_regexes, p.triple,
        )
        refl

  Produces-compiled : Produces t source opts r k o → compile_to_file t source opts ≡ some made
  unfolding compile_to_file front_end from_front from_ir from_object from_link emit_ir
      backend_options link_options
  Produces-compiled p =
      rw (p.parsed, compile_to_file, front_end)
        (rw (optimized_lem opts p.rs) (
          ap some (
            ap (from_ir t opts) p.generated
            ∙ (ap (from_object t opts p.stats (if opts.wants_ir then some p.ir else none))
                  p.compiled
                ∙ (ap (from_link t opts p.obj p.stats (if opts.wants_ir then some p.ir else none))
                      p.linked
                    ∙ ap₂
                        (λ (f : CompileResult) (i : Option Bytes). record {
                          result = ok f;
                          calls = k;
                          ir_out = i;
                        })
                        (facts-Produces p) (sym p.handed))))))

-- For every toolchain, source and options: compile_to_file ends with a result exactly if every stage
-- succeeds on what the stage before it gave. The source parses; the rules, optimized if the options say
-- so, with their plan give a module of LLVM, the one that compile_to_ir gives; the module gives an object
-- with the options for target and level; and the linker succeeds on the object. The result has the output
-- path, the size of that file or 0, the size of the object, the name and the counts of the module and the
-- triple of the object; the calls are the linker's, and a caller who asked for the module gets it.
pub compile_to_file-Produces :
    (t : Toolchain) (source : Bytes) (opts : CompileOptions) (r : CompileResult) (k : List Call)
    (o : Option Bytes)
    → (compile_to_file t source opts ≡ some (record { result = ok r; calls = k; ir_out = o }))
      ↔ Produces t source opts r k o
compile_to_file-Produces t source opts r k o =
    (compiled-Produces t source opts r k o, Produces-compiled t source opts r k o)
