-- ===== src/Tests/Compiler.antt =====
-- The compiler: rules, the optimizer's passes, and the interpreter's tables.
use Prim.{tt}
use olproff_fastsbc_hmr.Base.{◌<◌, some, ◌+◌, ◌≤◌, false, List, [], ◌∷◌, ◌≡◌, refl, ◌⊎◌, length}
use olproff_fastsbc_hmr.Text.{Bytes, codes}
use olproff_fastsbc_hmr.Diagnostics.{SourceLocation}
use olproff_fastsbc_hmr.Value.{Value, lit}
use olproff_fastsbc_hmr.Ast.{HeaderAction, ComparisonType, MsgType, HeaderRule, Ruleset}
use olproff_fastsbc_hmr.Optimizer.{optimize}
use olproff_fastsbc_hmr.Optimizer.Passes.{deduplicate}
use olproff_fastsbc_hmr.Optimizer.Plan.{analyse}
use olproff_fastsbc_hmr.Optimizer.Dedup.{firsts, deduplicate-again}
use olproff_fastsbc_hmr.Optimizer.Groups.{rules_of, groups_of, positions, analyse-positions}
use olproff_fastsbc_hmr.Optimizer.Rounds.{Settled, optimize-Settled}
use olproff_fastsbc_hmr.Interp.{Tables, slot_for, slot_id}
use olproff_fastsbc_hmr.Interp.Frozen.{freeze, register, slot_for-frozen}
use olproff_fastsbc_hmr.Interp.Slots.{register-distinct}

abbrev text_value : Bytes → Value
text_value t = record { raw = t; segments = lit t ∷ []; negated = false; ref_expression = false }

abbrev no_loc : SourceLocation
no_loc = record { line = 0; column = 0 }

abbrev no_value : Value
no_value = record { raw = []; segments = []; negated = false; ref_expression = false }

abbrev rule : Bytes → HeaderAction → Bytes → HeaderRule
rule header action value = record {
  name = codes "r";
  header_name = header;
  action = action;
  comparison = ComparisonType.case_sensitive;
  msg_type = MsgType.any;
  methods = [];
  match_value = no_value;
  new_value = text_value value;
  element_rules = [];
  loc = no_loc;
}

abbrev rules : List HeaderRule
rules =
    rule (codes "X-A") HeaderAction.replace (codes "1")
    ∷ rule (codes "x-a") HeaderAction.replace (codes "1")
    ∷ rule (codes "X-B") HeaderAction.add (codes "2")
    ∷ rule (codes "X-A") HeaderAction.none (codes "3")
    ∷ []

abbrev two_headers : Ruleset
two_headers = record {
  name = codes "s";
  description = [];
  header_rules = rules;
  split_headers = [];
  join_headers = [];
  import_file = [];
  export_file = [];
  loc = no_loc;
}

optimized : length (optimize 8 two_headers).0.header_rules ≡ 2
unfolding optimize
optimized = refl

rounds : (optimize 8 two_headers).1.iterations ≡ 2
unfolding optimize
rounds = refl

optimize-Settled_example :
    ((optimize 8 two_headers).1.iterations ≤ 8)
    × (Settled (optimize 8 two_headers).0.header_rules
        ⊎ ((optimize 8 two_headers).1.iterations ≡ 8))
optimize-Settled_example = optimize-Settled 8 two_headers

deduplicate-again_example :
    ((deduplicate rules).0 ≡ firsts [] rules)
    × (deduplicate (deduplicate rules).0 ≡ ((deduplicate rules).0, 0))
    × (length (deduplicate rules).0 + (deduplicate rules).1 ≡ length rules)
deduplicate-again_example = deduplicate-again rules

analyse-positions_example :
    (rules_of (codes "x-a") (analyse rules) ≡ positions (codes "x-a") 0 rules)
    × (groups_of (codes "x-a") (analyse rules) ≤ 1)
analyse-positions_example = analyse-positions (codes "x-a") rules

group : rules_of (codes "x-a") (analyse rules) ≡ 0 ∷ 1 ∷ 3 ∷ []
unfolding rules_of analyse
group = refl

abbrev scanned : Tables
scanned = record { regexes = []; slots = []; frozen = false }

slot_for-frozen_example :
    (let (id, t') = slot_for (codes "a") scanned in
      let tables = freeze (register (codes "b" ∷ codes "a" ∷ []) t') in
      slot_for (codes "a") tables ≡ (id, tables))
slot_for-frozen_example = slot_for-frozen (codes "a") (codes "b" ∷ codes "a" ∷ []) scanned refl

abbrev names : List Bytes
names = codes "b" ∷ codes "a" ∷ codes "b" ∷ []

a_slot : slot_id (codes "a") (register names scanned).slots ≡ some 1
unfolding register slot_id
a_slot = refl

register-distinct_example : (1 < length (register names scanned).slots) × (codes "a" ≡ codes "a")
register-distinct_example =
    register-distinct names scanned (codes "a") (codes "a") 1 refl tt a_slot a_slot
