-- ===== src/Value/Parse.antt =====
-- Value::parse and its helpers (src/ast/value.cpp). A position in a text is the rest of the text from
-- it on. `none` is the std::out_of_range that std::stoi throws.
use olproff_fastsbc_hmr.Base.{
  ℕ, zero, suc, ◌+◌, ◌-◌, ◌*◌, ◌^◌, Bool, true, false, not, ◌&&◌, ◌||◌, Option, none, some, List,
  [], ◌∷◌, ◌++◌, leb, ltb, ◌==◌, if◌then◌else◌, length, drop,
}
use olproff_fastsbc_hmr.Text.{Bytes}
use olproff_fastsbc_hmr.Value.{
  variable, capture, rule_ref, ValueRef, ValueSegment, lit, ref, ValueMode, literal, match_value,
  new_value, Value,
}

unfoldable pub is_upper : ℕ → Bool
is_upper c = leb b'A' c && leb c b'Z'

unfoldable pub is_lower : ℕ → Bool
is_lower c = leb b'a' c && leb c b'z'

unfoldable pub is_digit : ℕ → Bool
is_digit c = leb b'0' c && leb c b'9'

unfoldable pub is_ident_start : ℕ → Bool
unfolding is_upper is_lower
is_ident_start c = is_upper c || is_lower c || c == b'_'

unfoldable pub is_ident_cont : ℕ → Bool
unfolding is_upper is_lower is_digit
is_ident_cont c = is_upper c || is_lower c || is_digit c || c == b'_'

-- The loop of is_all_upper, from what `saw_alpha` is so far.
unfoldable pub all_upper_from : Bool → Bytes → Bool
unfolding is_upper is_lower
all_upper_from saw_alpha [] = saw_alpha
all_upper_from saw_alpha (c ∷ s) =
    if is_lower c then false else all_upper_from (saw_alpha || is_upper c) s

abbrev pub is_all_upper : Bytes → Bool
is_all_upper s = all_upper_from false s

-- `while (i < size && p(text[i])) word.push_back(text[i++]);`: the word, and the rest.
unfoldable pub span : (ℕ → Bool) → Bytes → Bytes × Bytes
span p [] = ([], [])
span p (c ∷ s) = let (word, rest) = span p s in if p c then (c ∷ word, rest) else ([], c ∷ s)

unfoldable pub decimal : ℕ → Bytes → ℕ
decimal acc [] = acc
decimal acc (c ∷ s) = decimal (acc * 10 + (c - b'0')) s

-- std::stoi of a text of digits
unfoldable pub stoi : Bytes → Option ℕ
unfolding decimal
stoi s = let n = decimal 0 s in if ltb n (2 ^ 31) then some n else none

-- The test of `text[i]`, false at the end.
abbrev pub head_is : (ℕ → Bool) → Bytes → Bool
head_is p [] = false
head_is p (c ∷ s) = p c

-- `text[i] == '.' && text[i + 1] == '$'`
abbrev pub at_chain : Bytes → Bool
at_chain s = head_is (λ c. c == b'.') s && head_is (λ c. c == b'$') (drop 1 s)

abbrev join : Bytes → Bytes → Bytes
join path ident = if length path == 0 then ident else path ++ b'.' ∷ ident

pub record Chain : Type 0 where
  pub path : Bytes
  pub index : Option ℕ
  pub rest : Bytes

-- A capture index that ends a chain.
unfoldable pub chain_index : Bytes → Bytes → Option Chain
unfolding span is_digit stoi
chain_index path text =
    let (num, rest) = span is_digit text in
    elim (stoi num) [
      | none ↦ none
      | some n ↦ some (record { path = path ++ b'.' ∷ b'$' ∷ num; index = some n; rest = rest })
    ]

-- The loop over `$rule.$elem.$N`, on fuel: a round reads an identifier.
unfoldable pub chain_loop : ℕ → Bytes → Bytes → Option Chain
unfolding is_ident_start is_ident_cont span is_digit chain_index
chain_loop zero path text = some (record { path = path; index = none; rest = text })
chain_loop (suc fuel) path text =
    let (ident, rest) = span is_ident_cont text in
    let path' = join path ident in
    let go_on = chain_loop fuel path' (drop 2 rest) in
    if not (head_is is_ident_start text)
    then some (record { path = path; index = none; rest = text })
    else if not (at_chain rest)
    then some (record { path = path'; index = none; rest = rest })
    else if head_is is_digit (drop 2 rest)
    then chain_index path' (drop 2 rest)
    else go_on

unfoldable pub has_dot : Bytes → Bool
has_dot [] = false
has_dot (c ∷ s) = c == b'.' || has_dot s

abbrev chain_ref : Option Chain → Option (ValueRef × Bytes)
chain_ref none = none
chain_ref (some c) = some (
  record {
    kind = if not (has_dot c.path) && is_all_upper c.path then variable else rule_ref;
    name = c.path;
    capture_index = c.index;
  },
  c.rest,
)

-- parse_ref on the text behind the '$'
unfoldable pub parse_ref : Bytes → Option (ValueRef × Bytes)
unfolding span is_digit stoi chain_loop has_dot all_upper_from
parse_ref text =
    if head_is (λ c. c == b'{') text
    then (let (name, rest) = span (λ c. not (c == b'}')) (drop 1 text) in
        some (record { kind = variable; name = name; capture_index = none }, drop 1 rest))
    else if head_is is_digit text
    then (let (num, rest) = span is_digit text in
        elim (stoi num) [
          | none ↦ none
          | some n ↦ some (record { kind = capture; name = num; capture_index = some n }, rest)
        ])
    else chain_ref (chain_loop (length text) [] text)

abbrev flush : Bytes → List ValueSegment → List ValueSegment
flush text out = if length text == 0 then out else out ++ lit text ∷ []

-- What may follow a '$' that starts a reference.
unfoldable pub starts_ref : Bytes → Bool
unfolding is_ident_start is_digit
starts_ref s = head_is (λ c. is_ident_start c || is_digit c || c == b'{') s

-- The loop of `interpolate`, on fuel: a round moves over a byte or a reference. `text` is the literal
-- that is being collected.
unfoldable pub interpolate_loop : ℕ → Bytes → Bytes → List ValueSegment → Option (List ValueSegment)
unfolding starts_ref parse_ref
interpolate_loop fuel [] text out = some (flush text out)
interpolate_loop zero (c ∷ s) text out = some (flush text out)
interpolate_loop (suc fuel) (c ∷ s) text out = elim (c == b'$' && starts_ref s) [
  | true ↦ elim (parse_ref s) [
    | none ↦ none
    | some (r, rest) ↦ interpolate_loop fuel rest [] (flush text out ++ ref r ∷ [])
  ]
  | false ↦ interpolate_loop fuel s (text ++ c ∷ []) out
]

unfoldable pub interpolate : Bytes → List ValueSegment → Option (List ValueSegment)
unfolding interpolate_loop
interpolate s out = interpolate_loop (length s) s [] out

-- The loop of split_concat: the parts so far, and the current one.
unfoldable pub split_loop : List Bytes → Bytes → Bytes → List Bytes
split_loop parts cur [] = parts ++ cur ∷ []
split_loop parts cur (c ∷ s) = elim (c == b'+') [
  | true ↦ split_loop (parts ++ cur ∷ []) [] s
  | false ↦ split_loop parts (cur ++ c ∷ []) s
]

unfoldable pub split_concat : Bytes → List Bytes
unfolding split_loop
split_concat s = split_loop [] [] s

unfoldable pub interpolate_parts : List Bytes → List ValueSegment → Option (List ValueSegment)
unfolding interpolate
interpolate_parts [] out = some out
interpolate_parts (p ∷ ps) out = elim (if length p == 0 then some out else interpolate p out) [
  | none ↦ none
  | some out' ↦ interpolate_parts ps out'
]

abbrev value_of : Bytes → Bool → Bool → Option (List ValueSegment) → Option Value
value_of raw negated ref_expression none = none
value_of raw negated ref_expression (some s) =
    some (record { raw = raw; segments = s; negated = negated; ref_expression = ref_expression })

unfoldable pub parse_match : Bytes → Option Value
unfolding interpolate
parse_match raw =
    let negated = head_is (λ c. c == b'!') raw in
    let body = if negated then drop 1 raw else raw in
    if head_is (λ c. c == b'$') body
    then value_of raw negated true (interpolate body [])
    else value_of raw negated false (some (flush body []))

unfoldable pub parse : Bytes → ValueMode → Bool → Option Value
unfolding parse_match interpolate_parts split_concat
parse raw literal quoted = value_of raw false false (some (flush raw []))
parse raw match_value true = value_of raw false false (some (flush raw []))
parse raw match_value false = parse_match raw
parse raw new_value true = value_of raw false false (some (flush raw []))
parse raw new_value false = value_of raw false false (interpolate_parts (split_concat raw) [])
