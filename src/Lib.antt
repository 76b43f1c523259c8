-- ===== src/Lib.antt =====
-- Verification of fastsbc's header-manipulation rules (HMR): the runtime that a compiled rule module
-- calls, and the compiler from the parse tree of a ruleset to the linked module.
--
-- A host parses a packet into a HmrSipMsg, and calls a module that reads and writes its headers through
-- a C ABI; strings that are written live in a bump arena of 64 KB. Rules are read into a syntax tree,
-- go through five optimizer passes, and are interpreted (or compiled) in two modes: the scan of the
-- store rules, which fills frozen tables of patterns and slots, and the walk that applies the rules.
--
--   Base                 names shared by all, tests on numbers, lists by native numbers, uint32_t
--   Text                 std::string_view as the list of its bytes (src/runtime/matchers.cpp, uri.cpp)
--   Arena                include/hmr/runtime/arena.hpp: memory as a function from addresses, pointers
--                        that name their region; Arena/Frame: what a step leaves alone
--   Sip                  include/hmr/runtime/sip_message.hpp, src/runtime/sip_message.cpp: the header
--                        operations; Sip/Parse, Sip/Field, Sip/Serialize: parse, get_field and
--                        set_field, serialize; Sip/Spec: the headers as a list of pairs of bytes.
--                        Proofs: Sip/Live, Headers, Laws, Wire, Valid, Fuel, Edit
--   Uri                  src/runtime/uri.cpp; Uri/Grammar, Uri/Element: the form of a value, and what it
--                        is to replace an element. Proofs: Uri/Cuts, Parts, Angled, Read (how a value is
--                        taken apart), Uri/Splice, Rebuild (what a rebuild writes)
--   Match                src/runtime/matchers.cpp; Match/Address: the texts of addresses;
--                        Match/Bounds, Match/Range, Match/Text: proofs
--   Runtime              include/hmr/runtime/context.hpp, src/runtime/runtime.cpp: the context and
--                        the callbacks; Runtime/Message, Runtime/Matching, Runtime/Builder
--   Value                include/hmr/ast/value.hpp, src/ast/value.cpp
--   Ast                  include/hmr/ast/ast.hpp; Ast/Factory, Ast/Names, Ast/Printer: src/ast/
--                        Ast/Keywords: the keyword tables against the to_string functions
--   Parser               src/parser/parser.cpp, include/hmr/parser/parser.hpp: the tree of grammar/Hmr.g4,
--                        its parts; Parser/Reading, Keys, Attributes, Build: values, keys, attributes,
--                        blocks and parse; Parser/Expected, Built, Outcome, Escapes: what the parts of
--                        a tree are to give, and proofs
--   Lowering             include/hmr/codegen/lowering.hpp
--   Optimizer            src/optimizer/optimizer.cpp: signatures, the passes and the plan;
--                        Optimizer/Dedup, Groups, Unchanged, Rounds: proofs
--   Interp               src/interp/interpreter.cpp: state, evaluation, rules, the walk;
--                        Interp/Frozen, Interp/Slots: what the scan registers
--   Codegen              src/codegen/cpp_generator.cpp: the counters and tables of CppEmitter, and the
--                        statements that it appends, as data; Codegen/Emit, Codegen/Rules: the emit
--                        functions; Codegen/Spelling, Codegen/Source: the text, as generate_cpp gives
--                        it; Codegen/Exec: what the emitted body does, by the C ABI;
--                        Codegen/Literal: how a string literal is read;
--                        Codegen/Descriptor: the descriptor.
--                        Proofs, the generator beside the interpreter: Codegen/Agreement, ActionScan and
--                        Scan (the tables), Grows, Growth and ElementGrowth (what the emitter keeps),
--                        Values, Guards, Actions, ElementActions, Elements, Heads and Refinement (runs).
--                        Codegen/Scope, ScopedValues, ScopedActions, ScopedRules and WellScoped: the
--                        temporaries
--   Module               src/module/module_manager.cpp: load, current, subscribe, notify, and the counted
--                        life of a module; Module/Lifetime: the operations in any order;
--                        Module/Observers: what a load reports
--   Ir                   src/codegen/ir_generator.cpp: Emitter, and what it asks of the IRBuilder, as
--                        data; Ir/Emit, Rules, Headers: the emit functions and generate_ir; Ir/Tables,
--                        ActionTables, ElementTables, Descriptor: the tables beside the C++ back-end's
--   Linker               src/backend/linker.cpp: link_shared_object with its system calls;
--                        Linker/Monitor, Linker/Protocol: the temporary files; Linker/Success
--   Pipeline             src/pipeline/compiler.cpp: compile_to_ir, compile_to_file; Pipeline/Success
--   Hmrc                 src/tools/hmrc.cpp: parse, dump-ast, optimize; Hmrc/Samples: check-samples;
--                        Hmrc/Commands: dump-ir, compile, main; Hmrc/Verdict: exit code and counts
--   Diagnostics          include/hmr/diagnostics/diagnostics.hpp; Diagnostics/Format: the lines of an error
--   Tests                runs on small inputs; Tests/Message, Tests/Addresses, Tests/Compiler,
--                        Tests/Generator, Tests/Modules, Tests/Messages, Tests/Parsing, Tests/Tools
--
-- Pointers: `Ptr` names the region (the packet, the arena, memory of the host), so that what a string
-- shows depends on the arena at the time of the read. A name or value that is passed in is a
-- StringView: where it points and the bytes it views. A string without a data pointer is viewed as the
-- literal "", which has one, as sv() and view() of the sources do. uint32_t keeps its wrap-around (`u32`, `add32`).
--
-- Fuel: `parse` runs its loop with the size of the packet as fuel, and each round moves the position.
-- The loops of Value/Parse have the size of the text as fuel, and each round takes a byte off it;
-- to_string of Text/Number has one round more than its number, and each divides it by ten. The rounds of
-- the optimizer are bounded by max_iterations, as in the code. The other loops are by recursion on the
-- text or the list that they read.
--
-- Threads: each operation of the module manager is one step, and the steps come in any order. A reader
-- is the list of the snapshots that it holds; the pointers are counted by looking for them.
--
-- Parameters: what dlopen and dlsym give for a path is an argument of load; std::regex, whose search
-- gives the groups, and which may not compile a pattern; the lexer and the parser that the build makes
-- from grammar/Hmr.g4, a function from the text to syntax errors and a tree; the verifier and the printer
-- of LLVM (Ir.Headers.Llvm); for the pipeline, generate_ir, which Ir/Headers has, and the two functions of
-- the backend (compile_to_object, optimize_ir); what the system answers to the linker (Linker.System);
-- the files that hmrc reads (Hmrc.Files). An exception that std::stoi throws leaves the parser, the
-- pipeline and main: it is `none`, and what was written or collected before it is not followed.
--
-- Not modelled: the order in which the LLVM emitter makes its literal globals, the LLVM backend (passes
-- and code generation of LLVM), the polyfills of include/hmr/support/compat.hpp (names of the standard
-- library); in serialize, a request-URI that does not lie in the start line, which parse never gives and
-- where substr would throw.
mod Base
pub mod Text
pub mod Arena
pub mod Uri
pub mod Sip
pub mod Match
pub mod Runtime
pub mod Value
pub mod Ast
pub mod Parser
pub mod Lowering
pub mod Optimizer
pub mod Interp
pub mod Codegen
pub mod Diagnostics
pub mod Module
pub mod Ir
pub mod Linker
pub mod Pipeline
pub mod Hmrc
mod Tests
