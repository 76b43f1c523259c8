-- ===== src/Optimizer/Signature.antt =====
-- The anonymous helpers of src/optimizer/optimizer.cpp: which actions are idempotent or need a header,
-- the signatures of rules, and the test for a plain literal pattern.
use olproff_fastsbc_hmr.Base.{
  ℕ, ◌-◌, Bool, true, false, not, ◌&&◌, ◌||◌, Option, none, some, List, [], ◌∷◌, ◌++◌, leb, ◌==◌,
  if◌then◌else◌, length, get_or, take, drop,
}
use olproff_fastsbc_hmr.Text.{Bytes, codes, same_text}
use olproff_fastsbc_hmr.Ast.{HeaderAction, ElementAction, ElementRule, HeaderRule}
use olproff_fastsbc_hmr.Ast.Factory.{lower}
use olproff_fastsbc_hmr.Ast.Names.{
  header_action_name, element_action_name, element_type_name, comparison_name, msg_type_name,
}

-- iequals_header
unfoldable pub same_header : Bytes → Bytes → Bool
unfolding lower same_text
same_header a b = same_text (lower a) (lower b)

unfoldable pub is_idempotent : HeaderAction → Bool
is_idempotent HeaderAction.add = false
is_idempotent _ = true

unfoldable pub is_idempotent_element : ElementAction → Bool
is_idempotent_element ElementAction.add = false
is_idempotent_element _ = true

unfoldable pub needs_header : HeaderAction → Bool
needs_header HeaderAction.none = false
needs_header HeaderAction.sip_manip = false
needs_header HeaderAction.log = false
needs_header HeaderAction.reject = false
needs_header _ = true

abbrev bar : Bytes
bar = b'|' ∷ []

unfoldable pub element_sig : ElementRule → Bytes
unfolding element_type_name element_action_name comparison_name
element_sig er =
    element_type_name er.type
    ++ (bar
        ++ (element_action_name er.action
            ++ (bar
                ++ (comparison_name er.comparison
                    ++ (bar
                        ++ (er.match_value.raw
                            ++ (bar ++ (er.new_value.raw ++ (bar ++ er.parameter_name)))))))))

unfoldable pub methods_sig : List Bytes → Bytes
methods_sig [] = []
methods_sig (m ∷ ms) = m ++ (b',' ∷ methods_sig ms)

unfoldable pub elements_sig : List ElementRule → Bytes
unfolding element_sig
elements_sig [] = []
elements_sig (er ∷ ers) = element_sig er ++ (b';' ∷ elements_sig ers)

unfoldable pub rule_sig : HeaderRule → Bytes
unfolding lower header_action_name comparison_name msg_type_name methods_sig elements_sig
rule_sig hr =
    lower hr.header_name
    ++ (b'#' ∷ header_action_name hr.action
        ++ (bar
            ++ (comparison_name hr.comparison
                ++ (bar
                    ++ (msg_type_name hr.msg_type
                        ++ (bar
                            ++ (methods_sig hr.methods
                                ++ (bar
                                    ++ (hr.match_value.raw
                                        ++ (bar
                                            ++ (hr.new_value.raw
                                                ++ (bar ++ elements_sig hr.element_rules))))))))))))

unfoldable pub contains : ℕ → Bytes → Bool
contains c [] = false
contains c (x ∷ s) = x == c || contains c s

abbrev pub meta : Bytes
meta = codes ".[]()*+?{}|\\^$"

unfoldable pub no_meta : Bytes → Bool
unfolding contains
no_meta [] = true
no_meta (c ∷ s) = not (contains c meta) && no_meta s

-- The body without one pair of anchors, if it is a plain literal (is_plain_literal_regex).
unfoldable pub plain_literal : Bytes → Option Bytes
unfolding no_meta
plain_literal body =
    let front = if leb 1 (length body) && get_or body 0 0 == b'^' then drop 1 body else body in
    let s =
      if leb 1 (length front) && get_or front (length front - 1) 0 == b'$'
      then take (length front - 1) front
      else front in
    if no_meta s then some s else none
