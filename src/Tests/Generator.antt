-- ===== src/Tests/Generator.antt =====
-- The generator: the text of a small ruleset, and the emitted body run beside the interpreter.
use Prim.{tt}
use olproff_fastsbc_hmr.Base.{
  length, arith, ℕ, true, false, some, none, List, [], ◌∷◌, ◌++◌, ◌≡◌, refl, replicate, u32, add32,
  sub32,
}
use olproff_fastsbc_hmr.Text.{Bytes, codes}
use olproff_fastsbc_hmr.Sip.{HmrSipMsg}
use olproff_fastsbc_hmr.Sip.Parse.{parse}
use olproff_fastsbc_hmr.Diagnostics.{SourceLocation}
use olproff_fastsbc_hmr.Value.{Value, lit, ref, rule_ref}
use olproff_fastsbc_hmr.Ast.{
  HeaderAction, ElementAction, ElementType, MatchValType, ComparisonType, MsgType, ElementRule,
  HeaderRule, Ruleset,
}
use olproff_fastsbc_hmr.Runtime.{HmrContext}
use olproff_fastsbc_hmr.Runtime.Matching.{Search}
use olproff_fastsbc_hmr.Interp.Frozen.{freeze}
use olproff_fastsbc_hmr.Interp.Rules.{verdict_rejected}
use olproff_fastsbc_hmr.Interp.Walk.{scan_tables, apply, info}
use olproff_fastsbc_hmr.Codegen.Rules.{emit}
use olproff_fastsbc_hmr.Codegen.Source.{CppGenOptions, body, generate_cpp}
use olproff_fastsbc_hmr.Codegen.Descriptor.{EndsWith, definition_of, generate_cpp-info}
use olproff_fastsbc_hmr.Codegen.Spelling.{esc}
use olproff_fastsbc_hmr.Codegen.Literal.{normal, read, AreBytes, read-esc}
use olproff_fastsbc_hmr.Codegen.Exec.{hmr_apply}
use olproff_fastsbc_hmr.Codegen.Agreement.{open_tables}
use olproff_fastsbc_hmr.Codegen.Scope.{ScopedBody}
use olproff_fastsbc_hmr.Codegen.WellScoped.{emit-ScopedBody}
use olproff_fastsbc_hmr.Codegen.Scan.{scan_tables-emit}
use olproff_fastsbc_hmr.Codegen.Refinement.{emit-apply}

abbrev pub no_loc : SourceLocation
no_loc = record { line = 0; column = 0 }

abbrev pub no_value : Value
no_value = record { raw = []; segments = []; negated = false; ref_expression = false }

abbrev pub text_value : Bytes → Value
text_value t = record { raw = t; segments = lit t ∷ []; negated = false; ref_expression = false }

abbrev pub slot_value : Bytes → Value
slot_value t = record {
  raw = t;
  segments = ref (record { kind = rule_ref; name = t; capture_index = none }) ∷ [];
  negated = false;
  ref_expression = false;
}

abbrev pub rule : Bytes → HeaderAction → Value → Value → List ElementRule → HeaderRule
rule header action match_value new_value elements = record {
  name = codes "r";
  header_name = header;
  action = action;
  comparison = ComparisonType.case_sensitive;
  msg_type = MsgType.request;
  methods = codes "INVITE" ∷ [];
  match_value = match_value;
  new_value = new_value;
  element_rules = elements;
  loc = no_loc;
}

abbrev pub to_host : ElementRule
to_host = record {
  name = codes "e";
  parameter_name = [];
  type = ElementType.uri_host;
  action = ElementAction.replace;
  match_val_type = MatchValType.any;
  comparison = ComparisonType.case_sensitive;
  match_value = no_value;
  new_value = text_value (codes "h.net");
  loc = no_loc;
}

-- Stores a header, adds what was stored under another name, replaces the host of From, and rejects.
abbrev pub small : Ruleset
small = record {
  name = codes "s";
  description = [];
  header_rules =
      rule (codes "X-A") HeaderAction.store no_value no_value []
      ∷ rule (codes "X-B") HeaderAction.add no_value (slot_value (codes "r")) []
      ∷ rule (codes "From") HeaderAction.manipulate no_value no_value (to_host ∷ [])
      ∷ rule (codes "X-A") HeaderAction.reject (text_value (codes "1")) (text_value (codes "no")) []
      ∷ [];
  split_headers = [];
  join_headers = [];
  import_file = [];
  export_file = [];
  loc = no_loc;
}

emit-ScopedBody_example : ScopedBody (emit small).0
emit-ScopedBody_example = emit-ScopedBody small

abbrev packet : Bytes
packet = codes "INVITE sip:bob@example.com SIP/2.0\r\nFrom: <sip:al@a.com>\r\nX-A: 1\r\n\r\n"

abbrev message : HmrSipMsg
message = parse packet

abbrev pub no_match : Search ℕ
no_match r s = none

abbrev context : HmrContext ℕ
context = record {
  arena = record { buffer = λ _. 0; used = 0 };
  vars = replicate 15 [];
  regexes = [];
  slots = [] ∷ [];
  last_match = [];
  has_match = false;
  scratch = [];
  logs = [];
  rejected = false;
  reject_code = 0;
  reject_reason = [];
}

scan_tables-emit_example : scan_tables no_match small ≡ freeze (open_tables (emit small).1)
scan_tables-emit_example = scan_tables-emit no_match small

emit-apply_example :
    hmr_apply no_match
      (emit small).0
      (record { tables = scan_tables no_match small; msg = some message; ctx = some context })
    ≡ some (apply no_match small message context)
emit-apply_example = emit-apply no_match small message context

verdict : (apply no_match small message context).0 ≡ verdict_rejected
unfolding apply parse u32 add32 sub32
verdict = refl

abbrev options : CppGenOptions
options = record { module_name = []; runtime_header = codes "r.h"; emit_comments = true }

abbrev one_rule : Ruleset
one_rule = record {
  name = codes "s";
  description = [];
  header_rules = rule (codes "X\"A") HeaderAction.store no_value no_value [] ∷ [];
  split_headers = [];
  join_headers = [];
  import_file = [];
  export_file = [];
  loc = no_loc;
}

text :
    body options (emit one_rule).0
    ≡ codes "    // header-rule 0: r\n    if ([&]() -> bool {\n"
      ++ (codes "        if (hmr_rt_is_request(msg) == 0) return false;\n"
          ++ (codes "        const HmrStr t0 = hmr_rt_get_method(msg);\n"
              ++ (codes
                    "        if (!(hmr_rt_str_eq(t0, HmrStr{\"INVITE\", 6u}, 1) != 0)) return false;\n"
                  ++ (codes
                        "        const HmrStr t1 = hmr_rt_get_header(msg, HmrStr{\"X\\\"A\", 3u});\n"
                      ++ (codes "        hmr_rt_store(ctx, 0u, t1);\n"
                          ++ codes "        return false;\n    }()) return HMR_REJECTED;\n\n")))))
unfolding body emit
text = refl

abbrev mixed : Bytes
mixed = b'"' ∷ 7 ∷ b'1' ∷ b'\\' ∷ 200 ∷ b'x' ∷ []

mixed_text : esc mixed ≡ codes "\\\"\\0071\\\\\\310x"
unfolding esc
mixed_text = refl

mixed-AreBytes : AreBytes mixed
mixed-AreBytes =
    (omega arith, (omega arith, (omega arith, (omega arith, (omega arith, (omega arith, tt))))))

read-esc_example : read normal (esc mixed) ≡ some mixed
read-esc_example = read-esc mixed mixed-AreBytes

generate_cpp-info_example :
    EndsWith (generate_cpp options small).0 (definition_of (info no_match small))
    × ((generate_cpp options small).1.module_name ≡ (info no_match small).name)
    × ((generate_cpp options small).1.num_slots ≡ (info no_match small).num_slots)
    × ((generate_cpp options small).1.num_regexes ≡ length (info no_match small).regexes)
generate_cpp-info_example = generate_cpp-info no_match options small refl
