-- ===== src/Parser/Keys.antt =====
-- src/parser/parser.cpp: the keys of the attributes. A chain of tests on the key is a function into the
-- keys that the chain names.
use olproff_fastsbc_hmr.Base.{List, [], ◌∷◌, if◌then◌else◌}
use olproff_fastsbc_hmr.Text.{Bytes, codes, same_text}

pub data ElementKey : Type 0 where
  name parameter_name type action match_val_type comparison_type match_value new_value : ElementKey
  unknown : ElementKey

pub data HeaderKey : Type 0 where
  name header_name action comparison_type msg_type methods match_value new_value : HeaderKey
  unknown : HeaderKey

pub data RulesetKey : Type 0 where
  name description import_file export_file split_headers join_headers unknown : RulesetKey

-- The first key of the chain that the text equals.
unfoldable pub chain : {K : Type 0} → List (Bytes × K) → K → Bytes → K
unfolding same_text
chain [] otherwise key = otherwise
chain ((text, k) ∷ tests) otherwise key =
    if same_text key text then k else chain tests otherwise key

unfoldable pub element_key : Bytes → ElementKey
unfolding chain
element_key key =
    chain
      ((codes "name", ElementKey.name)
        ∷ (codes "parameter-name", ElementKey.parameter_name)
        ∷ (codes "type", ElementKey.type)
        ∷ (codes "action", ElementKey.action)
        ∷ (codes "match-val-type", ElementKey.match_val_type)
        ∷ (codes "comparison-type", ElementKey.comparison_type)
        ∷ (codes "match-value", ElementKey.match_value)
        ∷ (codes "new-value", ElementKey.new_value)
        ∷ [])
      ElementKey.unknown key

unfoldable pub header_key : Bytes → HeaderKey
unfolding chain
header_key key =
    chain
      ((codes "name", HeaderKey.name)
        ∷ (codes "header-name", HeaderKey.header_name)
        ∷ (codes "action", HeaderKey.action)
        ∷ (codes "comparison-type", HeaderKey.comparison_type)
        ∷ (codes "msg-type", HeaderKey.msg_type)
        ∷ (codes "methods", HeaderKey.methods)
        ∷ (codes "match-value", HeaderKey.match_value)
        ∷ (codes "new-value", HeaderKey.new_value)
        ∷ [])
      HeaderKey.unknown key

unfoldable pub ruleset_key : Bytes → RulesetKey
unfolding chain
ruleset_key key =
    chain
      ((codes "name", RulesetKey.name)
        ∷ (codes "description", RulesetKey.description)
        ∷ (codes "import", RulesetKey.import_file)
        ∷ (codes "export", RulesetKey.export_file)
        ∷ (codes "split-headers", RulesetKey.split_headers)
        ∷ (codes "join-headers", RulesetKey.join_headers)
        ∷ [])
      RulesetKey.unknown key
