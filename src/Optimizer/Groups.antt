-- ===== src/Optimizer/Groups.antt =====
-- DecisionTreeAnalysisPass of src/optimizer/optimizer.cpp: which rules a group holds.
use mathlib.Core.Bool.{false≢true}
use olproff_fastsbc_hmr.Base.{
  ℕ, ◌≤◌, ◌+◌, Bool, true, false, List, [], ◌∷◌, ◌++◌, ◌≡◌, refl, sym, ap, ◌∙◌, inl, inr, arith,
  if◌then◌else◌, Bool-cases, append-nil, append_assoc,
}
use olproff_fastsbc_hmr.Text.{Bytes, same_text}
use olproff_fastsbc_hmr.Text.Fold.{same_text_iff}
use olproff_fastsbc_hmr.Ast.{HeaderRule}
use olproff_fastsbc_hmr.Ast.Factory.{lower}
use olproff_fastsbc_hmr.Optimizer.Plan.{DecisionGroup, add_to_group, plan_loop, analyse}

-- The rules of the first group of that key.
unfoldable pub rules_of : Bytes → List DecisionGroup → List ℕ
rules_of k [] = []
rules_of k (g ∷ gs) = if same_text g.header_name k then g.rule_idx else rules_of k gs

-- How many groups have that key.
unfoldable pub groups_of : Bytes → List DecisionGroup → ℕ
groups_of k [] = 0
groups_of k (g ∷ gs) = if same_text g.header_name k then 1 + groups_of k gs else groups_of k gs

-- The positions of the rules on that header, counted from `i`.
unfoldable pub positions : Bytes → ℕ → List HeaderRule → List ℕ
positions k i [] = []
positions k i (hr ∷ hrs) =
    if same_text (lower hr.header_name) k
    then i ∷ positions k (i + 1) hrs
    else positions k (i + 1) hrs

-- Equal keys select alike.
same_text_trans : (a b k : Bytes) → same_text a b ≡ true → same_text a k ≡ same_text b k
same_text_trans a b k h = ap (λ t. same_text t k) ((same_text_iff a b).0 h)

apart_from :
    (a key k : Bytes) → same_text a key ≡ false → same_text a k ≡ true → same_text key k ≡ false
apart_from a key k h e = elim (Bool-cases (same_text key k)) [
  | inl same ↦ absurd (
      false≢true (
        sym h
        ∙ (same_text_iff a key).1 ((same_text_iff a k).0 e ∙ sym ((same_text_iff key k).0 same))))
  | inr other ↦ other
]

rules_of-add :
    (k key : Bytes) (i : ℕ) (gs : List DecisionGroup)
    → rules_of k (add_to_group key i gs)
      ≡ (if same_text key k then rules_of k gs ++ i ∷ [] else rules_of k gs)
unfolding rules_of add_to_group
rules_of-add k key i [] = refl
rules_of-add k key i (g ∷ gs) = elim (Bool-cases (same_text g.header_name key)) [
  | inl joins ↦
      rw (joins, same_text_trans g.header_name key k joins)
        (elim (Bool-cases (same_text key k)) [
          | inl here ↦ rw here refl
          | inr other ↦ rw other refl
        ])
  | inr apart ↦ rw apart (elim (Bool-cases (same_text g.header_name k)) [
    | inl here ↦ rw (here, apart_from g.header_name key k apart here) refl
    | inr other ↦ rw other (rules_of-add k key i gs)
  ])
]

groups_of-add :
    (k key : Bytes) (i : ℕ) (gs : List DecisionGroup)
    → groups_of k gs ≤ 1
    → groups_of k (add_to_group key i gs) ≡ (if same_text key k then 1 else groups_of k gs)
unfolding groups_of add_to_group
groups_of-add k key i [] h = refl
groups_of-add k key i (g ∷ gs) h = elim (Bool-cases (same_text g.header_name key)) [
  | inl joins ↦
      rw (joins, same_text_trans g.header_name key k joins)
        (elim (Bool-cases (same_text key k)) [
          | inl here ↦
              rw here (omega (arith, rw (same_text_trans g.header_name key k joins, here) at h))
          | inr other ↦ rw other refl
        ])
  | inr apart ↦ rw apart (elim (Bool-cases (same_text g.header_name k)) [
    | inl here ↦
        let e = apart_from g.header_name key k apart here in
        let rest = groups_of-add k key i gs (omega (arith, rw here at h)) in
        rw (here, e) (ap (λ n. 1 + n) (rw e at rest))
    | inr other ↦ rw other (groups_of-add k key i gs (rw other at h))
  ])
]

-- Joining one list behind another, or not.
append_if :
    (b : Bool) (i : ℕ) (xs ys : List ℕ)
    → (if b then xs ++ i ∷ [] else xs) ++ ys ≡ xs ++ (if b then i ∷ ys else ys)
append_if true i xs ys = append_assoc xs (i ∷ []) ys
append_if false i xs ys = refl

rules_of-loop :
    (k : Bytes) (gs : List DecisionGroup) (i : ℕ) (hrs : List HeaderRule)
    → rules_of k (plan_loop gs i hrs) ≡ rules_of k gs ++ positions k i hrs
unfolding plan_loop positions
rules_of-loop k gs i [] = sym (append-nil (rules_of k gs))
rules_of-loop k gs i (hr ∷ hrs) =
    let key = lower hr.header_name in
    rules_of-loop k (add_to_group key i gs) (i + 1) hrs
    ∙ ap (λ l. l ++ positions k (i + 1) hrs) (rules_of-add k key i gs)
    ∙ append_if (same_text key k) i (rules_of k gs) (positions k (i + 1) hrs)

groups_of-loop :
    (k : Bytes) (gs : List DecisionGroup) (i : ℕ) (hrs : List HeaderRule)
    → groups_of k gs ≤ 1
    → groups_of k (plan_loop gs i hrs) ≤ 1
unfolding plan_loop
groups_of-loop k gs i [] h = h
groups_of-loop k gs i (hr ∷ hrs) h =
    let key = lower hr.header_name in
    groups_of-loop k (add_to_group key i gs) (i + 1) hrs (elim (Bool-cases (same_text key k)) [
      | inl here ↦ omega (arith, rw here at (groups_of-add k key i gs h))
      | inr other ↦ omega (arith, rw other at (groups_of-add k key i gs h))
    ])

-- For every header name, the plan of the decision tree has at most one group of that name, and it
-- holds the positions of the rules whose lowered header name it is, in order, and no other.
pub analyse-positions :
    (k : Bytes) (hrs : List HeaderRule)
    → (rules_of k (analyse hrs) ≡ positions k 0 hrs) × (groups_of k (analyse hrs) ≤ 1)
unfolding analyse rules_of groups_of
analyse-positions k hrs = (rules_of-loop k [] 0 hrs, groups_of-loop k [] 0 hrs (omega arith))
