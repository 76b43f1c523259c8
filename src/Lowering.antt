-- ===== src/Lowering.antt =====
-- include/hmr/codegen/lowering.hpp: the mappings from the syntax tree to the operands of the C ABI that
-- the code generators and the interpreter share.
use olproff_fastsbc_hmr.Base.{
  ℕ, ◌+◌, Bool, true, false, not, ◌&&◌, Option, none, some, List, [], ◌∷◌, ◌++◌, ltb, ◌==◌,
  if◌then◌else◌, length, take, get_or, map,
}
use olproff_fastsbc_hmr.Text.{Bytes, codes, find}
use olproff_fastsbc_hmr.Ast.{ElementType, ComparisonType}
use olproff_fastsbc_hmr.Ast.Factory.{to_upper, find_key}
use olproff_fastsbc_hmr.Uri.{HmrUriElement}
use olproff_fastsbc_hmr.Runtime.{HmrMatchType}
unfoldable pub use olproff_fastsbc_hmr.Text.Number.{to_string}

-- kMap, with the values of HmrVarId
abbrev variable_table : List (Bytes × ℕ)
variable_table =
    (codes "LOCAL_IP", 1)
    ∷ (codes "REMOTE_IP", 2)
    ∷ (codes "LOCAL_PORT", 3)
    ∷ (codes "REMOTE_PORT", 4)
    ∷ (codes "TRUNK_GROUP", 5)
    ∷ (codes "REALM", 6)
    ∷ (codes "INTERFACE", 7)
    ∷ (codes "METHOD", 8)
    ∷ (codes "RURI_USER", 9)
    ∷ (codes "RURI_HOST", 10)
    ∷ (codes "TO_USER", 11)
    ∷ (codes "TO_HOST", 12)
    ∷ (codes "FROM_USER", 13)
    ∷ (codes "FROM_HOST", 14)
    ∷ []

-- Unknown names are HMR_VAR_NONE.
unfoldable pub variable_id : Bytes → ℕ
unfolding to_upper find_key
variable_id name = elim (find_key variable_table (map to_upper name)) [ none ↦ 0 | some id ↦ id ]

unfoldable pub uri_element : ElementType → Option HmrUriElement
uri_element ElementType.header_value = some HmrUriElement.whole
uri_element ElementType.uri_display = some HmrUriElement.display
uri_element ElementType.uri_user = some HmrUriElement.user
uri_element ElementType.uri_host = some HmrUriElement.host
uri_element ElementType.uri_port = some HmrUriElement.port
uri_element _ = none

unfoldable pub is_case_insensitive : ComparisonType → Bool
is_case_insensitive ComparisonType.case_insensitive = true
is_case_insensitive ComparisonType.refer_case_insensitive = true
is_case_insensitive _ = false

unfoldable pub is_pattern : ComparisonType → Bool
is_pattern ComparisonType.pattern_rule = true
is_pattern _ = false

unfoldable pub ip_match_type : Bytes → HmrMatchType
unfolding find
ip_match_type pat = elim (find b'/' pat) [
  | some _ ↦ HmrMatchType.ip_mask
  | none ↦ elim (find b'-' pat) [ some _ ↦ HmrMatchType.ip_range | none ↦ HmrMatchType.ip ]
]

-- What a '(' that is followed by `s` adds to the count.
unfoldable pub group_count : Bytes → ℕ
group_count s =
    if not (get_or s 0 0 == b'?')
    then 1
    else if get_or s 1 0 == b'<'
        && (ltb 2 (length s) && (not (get_or s 2 0 == b'=') && not (get_or s 2 0 == b'!')))
    then 1
    else 0

-- The loop of count_capturing_groups, with `n` and `in_class`.
unfoldable pub groups_loop : ℕ → Bool → Bytes → ℕ
unfolding group_count
groups_loop n in_class [] = n
groups_loop n in_class (c ∷ []) = if not in_class && c == b'(' then n + 1 else n
groups_loop n in_class (c ∷ d ∷ s) = elim (c == b'\\') [
  | true ↦ groups_loop n in_class s
  | false ↦
      groups_loop (if not in_class && c == b'(' then n + group_count (d ∷ s) else n)
        (if in_class then not (c == b']') else c == b'[') (d ∷ s)
]

unfoldable pub count_capturing_groups : Bytes → ℕ
unfolding groups_loop
count_capturing_groups re = groups_loop 0 false re

unfoldable pub capture_slot_key : Bytes → ℕ → Bytes
unfolding to_string
capture_slot_key rule_name group =
    if group == 0 then rule_name else rule_name ++ (b'.' ∷ b'$' ∷ to_string group)

-- path.substr(0, path.find('.'))
unfoldable pub ref_base_name : Bytes → Bytes
unfolding find
ref_base_name path = elim (find b'.' path) [ none ↦ path | some i ↦ take i path ]
