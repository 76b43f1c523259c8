-- ===== src/Ast/Printer.antt =====
-- src/ast/ast_printer.cpp and the traversal of include/hmr/ast/ast_visitor.hpp: a ruleset as canonical
-- text.
use olproff_fastsbc_hmr.Base.{ℕ, ◌*◌, List, [], ◌∷◌, ◌++◌, ◌==◌, if◌then◌else◌, length, replicate}
use olproff_fastsbc_hmr.Text.{Bytes, codes}
use olproff_fastsbc_hmr.Ast.{ElementRule, HeaderRule, Ruleset}
use olproff_fastsbc_hmr.Ast.Names.{
  header_action_name, element_action_name, element_type_name, comparison_name, match_val_type_name,
  msg_type_name,
}

abbrev newline : Bytes
newline = b'\n' ∷ []

unfoldable pub attr : ℕ → Bytes → Bytes → Bytes
attr depth key value =
    replicate (depth * 8) b' '
    ++ (key ++ ((if length value == 0 then [] else replicate 20 b' ' ++ value) ++ newline))

unfoldable pub join_methods : List Bytes → Bytes
join_methods [] = []
join_methods (m ∷ ms) = m ++ (elim ms [ [] ↦ [] | _ ∷ _ ↦ b',' ∷ join_methods ms ])

unfoldable pub visit_element_rule : ElementRule → Bytes
unfolding attr element_type_name element_action_name match_val_type_name comparison_name
visit_element_rule er =
    codes "                element-rule\n"
    ++ (attr 3 (codes "name") er.name
        ++ (attr 3 (codes "parameter-name") er.parameter_name
            ++ (attr 3 (codes "type") (element_type_name er.type)
                ++ (attr 3 (codes "action") (element_action_name er.action)
                    ++ (attr 3 (codes "match-val-type") (match_val_type_name er.match_val_type)
                        ++ (attr 3 (codes "comparison-type") (comparison_name er.comparison)
                            ++ (attr 3 (codes "match-value") er.match_value.raw
                                ++ attr 3 (codes "new-value") er.new_value.raw)))))))

unfoldable pub enter_header_rule : HeaderRule → Bytes
unfolding attr join_methods header_action_name comparison_name msg_type_name
enter_header_rule hr =
    codes "        header-rule\n"
    ++ (attr 2 (codes "name") hr.name
        ++ (attr 2 (codes "header-name") hr.header_name
            ++ (attr 2 (codes "action") (header_action_name hr.action)
                ++ (attr 2 (codes "comparison-type") (comparison_name hr.comparison)
                    ++ (attr 2 (codes "match-value") hr.match_value.raw
                        ++ (attr 2 (codes "msg-type") (msg_type_name hr.msg_type)
                            ++ (attr 2 (codes "new-value") hr.new_value.raw
                                ++ attr 2 (codes "methods") (join_methods hr.methods))))))))

unfoldable pub enter_ruleset : Ruleset → Bytes
unfolding attr
enter_ruleset rs =
    codes "sip-manipulation\n"
    ++ (attr 1 (codes "name") rs.name
        ++ (if length rs.description == 0 then [] else attr 1 (codes "description") rs.description))

unfoldable pub accept_elements : List ElementRule → Bytes
unfolding visit_element_rule
accept_elements [] = []
accept_elements (er ∷ ers) = visit_element_rule er ++ accept_elements ers

unfoldable pub accept_rules : List HeaderRule → Bytes
unfolding enter_header_rule accept_elements
accept_rules [] = []
accept_rules (hr ∷ hrs) =
    enter_header_rule hr ++ (accept_elements hr.element_rules ++ accept_rules hrs)

unfoldable pub to_hmr_text : Ruleset → Bytes
unfolding enter_ruleset accept_rules
to_hmr_text rs = enter_ruleset rs ++ accept_rules rs.header_rules
