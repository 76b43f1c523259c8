-- ===== src/Optimizer/Passes.antt =====
-- The transforming passes of src/optimizer/optimizer.cpp. `seen` is a list in place of a hash set.
use olproff_fastsbc_hmr.Base.{
  ℕ, ◌+◌, ◌-◌, Bool, true, false, not, ◌&&◌, ◌||◌, Option, none, some, List, [], ◌∷◌, ◌++◌, ◌==◌,
  if◌then◌else◌, length,
}
use olproff_fastsbc_hmr.Text.{Bytes, same_text}
use olproff_fastsbc_hmr.Value.{Value, lit, empty, is_regex_literal}
use olproff_fastsbc_hmr.Ast.{
  HeaderAction, ElementAction, ElementType, ComparisonType, MsgType, ElementRule, HeaderRule,
}
use olproff_fastsbc_hmr.Optimizer.Signature.{
  same_header, is_idempotent, is_idempotent_element, needs_header, element_sig, rule_sig,
  plain_literal,
}

unfoldable pub seen_before : Bytes → List Bytes → Bool
unfolding same_text
seen_before key [] = false
seen_before key (k ∷ seen) = same_text k key || seen_before key seen

-- A rule is dropped if `seen` holds its signature and its action is idempotent.
unfoldable pub dedup_loop : List Bytes → List HeaderRule → List HeaderRule × ℕ
unfolding is_idempotent rule_sig seen_before
dedup_loop seen [] = ([], 0)
dedup_loop seen (hr ∷ hrs) =
    let key = rule_sig hr in
    let dropped = is_idempotent hr.action && seen_before key seen in
    let (kept, removed) = dedup_loop (if is_idempotent hr.action then key ∷ seen else seen) hrs in
    if dropped then (kept, removed + 1) else (hr ∷ kept, removed)

unfoldable pub deduplicate : List HeaderRule → List HeaderRule × ℕ
unfolding dedup_loop
deduplicate hrs = dedup_loop [] hrs

abbrev is_none : HeaderAction → Bool
is_none HeaderAction.none = true
is_none _ = false

unfoldable pub is_dead : HeaderRule → Bool
unfolding needs_header
is_dead hr = is_none hr.action || (needs_header hr.action && length hr.header_name == 0)

abbrev no_action : ElementAction → Bool
no_action ElementAction.none = true
no_action _ = false

abbrev no_type : ElementType → Bool
no_type ElementType.none = true
no_type _ = false

unfoldable pub is_no_op : ElementRule → Bool
is_no_op er = no_action er.action && no_type er.type

-- std::erase_if
unfoldable pub erase_no_ops : List ElementRule → List ElementRule
unfolding is_no_op
erase_no_ops [] = []
erase_no_ops (er ∷ ers) = if is_no_op er then erase_no_ops ers else er ∷ erase_no_ops ers

unfoldable pub eliminate_dead_code : List HeaderRule → List HeaderRule × ℕ
unfolding is_dead erase_no_ops
eliminate_dead_code [] = ([], 0)
eliminate_dead_code (hr ∷ hrs) =
    let (kept, removed) = eliminate_dead_code hrs in
    let ers = erase_no_ops hr.element_rules in
    if is_dead hr then (kept, removed + 1) else (
      record hr { element_rules = ers } ∷ kept,
      removed + (length hr.element_rules - length ers),
    )

abbrev pub is_pattern_rule : ComparisonType → Bool
is_pattern_rule ComparisonType.pattern_rule = true
is_pattern_rule _ = false

-- Value::parse(literal, ValueMode::Literal)
abbrev literal_value : Bytes → Value
literal_value text = record {
  raw = text;
  segments = if length text == 0 then [] else lit text ∷ [];
  negated = false;
  ref_expression = false;
}

abbrev simplified : ComparisonType → Value → Option Bytes → ComparisonType × Value × ℕ
simplified cmp mv none = (cmp, mv, 0)
simplified cmp mv (some text) =
    if length text == 0
    then (cmp, mv, 0)
    else (ComparisonType.case_sensitive, literal_value text, 1)

-- The lambda `simplify`: the comparison, the match-value, and what `changed` grows by.
unfoldable pub simplify : ComparisonType → Value → ComparisonType × Value × ℕ
unfolding is_regex_literal plain_literal
simplify cmp mv =
    if not (is_pattern_rule cmp) || (not (is_regex_literal mv) || empty mv)
    then (cmp, mv, 0)
    else simplified cmp mv (plain_literal mv.raw)

unfoldable pub simplify_elements : List ElementRule → List ElementRule × ℕ
unfolding simplify
simplify_elements [] = ([], 0)
simplify_elements (er ∷ ers) =
    let (cmp, mv, n) = simplify er.comparison er.match_value in
    let (rest, k) = simplify_elements ers in
    (record er { comparison = cmp; match_value = mv } ∷ rest, n + k)

unfoldable pub simplify_patterns : List HeaderRule → List HeaderRule × ℕ
unfolding simplify simplify_elements
simplify_patterns [] = ([], 0)
simplify_patterns (hr ∷ hrs) =
    let (cmp, mv, n) = simplify hr.comparison hr.match_value in
    let (ers, k) = simplify_elements hr.element_rules in
    let (rest, j) = simplify_patterns hrs in
    (record hr { comparison = cmp; match_value = mv; element_rules = ers } ∷ rest, n + (k + j))

-- (a) of the merging pass, within one rule.
unfoldable pub dedup_elements : List Bytes → List ElementRule → List ElementRule
unfolding is_idempotent_element element_sig seen_before
dedup_elements seen [] = []
dedup_elements seen (er ∷ ers) =
    let key = element_sig er in
    let kept = dedup_elements (if is_idempotent_element er.action then key ∷ seen else seen) ers in
    if is_idempotent_element er.action && seen_before key seen then kept else er ∷ kept

unfoldable pub merge_elements : List HeaderRule → List HeaderRule × ℕ
unfolding dedup_elements
merge_elements [] = ([], 0)
merge_elements (hr ∷ hrs) =
    let ers = dedup_elements [] hr.element_rules in
    let (rest, merged) = merge_elements hrs in
    (record hr { element_rules = ers } ∷ rest, (length hr.element_rules - length ers) + merged)

abbrev is_manipulate : HeaderAction → Bool
is_manipulate HeaderAction.manipulate = true
is_manipulate _ = false

unfoldable pub comparison_eq : ComparisonType → ComparisonType → Bool
comparison_eq ComparisonType.case_sensitive ComparisonType.case_sensitive = true
comparison_eq ComparisonType.case_insensitive ComparisonType.case_insensitive = true
comparison_eq ComparisonType.pattern_rule ComparisonType.pattern_rule = true
comparison_eq ComparisonType.boolean ComparisonType.boolean = true
comparison_eq ComparisonType.refer_case_sensitive ComparisonType.refer_case_sensitive = true
comparison_eq ComparisonType.refer_case_insensitive ComparisonType.refer_case_insensitive = true
comparison_eq _ _ = false

unfoldable pub msg_type_eq : MsgType → MsgType → Bool
msg_type_eq MsgType.any MsgType.any = true
msg_type_eq MsgType.request MsgType.request = true
msg_type_eq MsgType.reply MsgType.reply = true
msg_type_eq MsgType.out_of_dialog MsgType.out_of_dialog = true
msg_type_eq _ _ = false

unfoldable pub methods_eq : List Bytes → List Bytes → Bool
unfolding same_text
methods_eq [] [] = true
methods_eq (a ∷ as') (b ∷ bs) = same_text a b && methods_eq as' bs
methods_eq _ _ = false

-- Whether `hr` is fused into the rule `back` in front of it.
unfoldable pub fuses : HeaderRule → HeaderRule → Bool
unfolding same_header comparison_eq msg_type_eq methods_eq same_text
fuses back hr =
    is_manipulate hr.action
    && (is_manipulate back.action
        && (same_header back.header_name hr.header_name
            && (comparison_eq back.comparison hr.comparison
                && (msg_type_eq back.msg_type hr.msg_type
                    && (methods_eq back.methods hr.methods
                        && same_text back.match_value.raw hr.match_value.raw)))))

-- (b) of the merging pass: `back` is the last rule of `fused`.
unfoldable pub fuse_loop : HeaderRule → List HeaderRule → List HeaderRule × ℕ
unfolding fuses
fuse_loop back [] = (back ∷ [], 0)
fuse_loop back (hr ∷ hrs) = elim (fuses back hr) [
  | true ↦
      let (rest, merged) =
        fuse_loop (record back { element_rules = back.element_rules ++ hr.element_rules }) hrs in
      (rest, merged + 1)
  | false ↦ let (rest, merged) = fuse_loop hr hrs in (back ∷ rest, merged)
]

unfoldable pub fuse : List HeaderRule → List HeaderRule × ℕ
unfolding fuse_loop
fuse [] = ([], 0)
fuse (hr ∷ hrs) = fuse_loop hr hrs

unfoldable pub merge_rules : List HeaderRule → List HeaderRule × ℕ
unfolding merge_elements fuse
merge_rules hrs = let (r1, n1) = merge_elements hrs in let (r2, n2) = fuse r1 in (r2, n1 + n2)
