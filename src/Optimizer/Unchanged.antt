-- ===== src/Optimizer/Unchanged.antt =====
-- The passes of src/optimizer/optimizer.cpp and the changes that they count.
use olproff_fastsbc_hmr.Base.{
  ◌+◌, ◌≤◌, not, ◌&&◌, ◌||◌, List, [], ◌∷◌, ◌≡◌, refl, ap, ap₂, ◌∙◌, inl, inr, arith, if◌then◌else◌,
  ◌==◌, length, Bool-cases, Option-cases,
}
use olproff_fastsbc_hmr.Text.{Bytes}
use olproff_fastsbc_hmr.Value.{Value, is_regex_literal, empty}
use olproff_fastsbc_hmr.Ast.{ComparisonType, ElementRule, HeaderRule}
use olproff_fastsbc_hmr.Optimizer.Signature.{is_idempotent_element, element_sig, plain_literal}
use olproff_fastsbc_hmr.Optimizer.Dedup.{dedup_loop_none}
use olproff_fastsbc_hmr.Optimizer.Passes.{
  seen_before, is_dead, is_no_op, is_pattern_rule, erase_no_ops, eliminate_dead_code, simplify,
  simplify_elements, simplify_patterns, deduplicate, dedup_elements, merge_elements, fuses,
  fuse_loop, fuse, merge_rules,
}

length-erase_no_ops : (ers : List ElementRule) → length (erase_no_ops ers) ≤ length ers
unfolding erase_no_ops
length-erase_no_ops [] = omega arith
length-erase_no_ops (er ∷ ers) = elim (Bool-cases (is_no_op er)) [
  | inl gone ↦ rw gone (omega (arith, length-erase_no_ops ers))
  | inr here ↦ rw here (omega (arith, length-erase_no_ops ers))
]

erase_no_ops_same :
    (ers : List ElementRule) → length ers ≤ length (erase_no_ops ers) → erase_no_ops ers ≡ ers
unfolding erase_no_ops
erase_no_ops_same [] h = refl
erase_no_ops_same (er ∷ ers) h = elim (Bool-cases (is_no_op er)) [
  | inl gone ↦ absurd (omega (arith, length-erase_no_ops ers, rw (gone, erase_no_ops) at h))
  | inr here ↦
      rw here
        (ap (λ t. er ∷ t) (erase_no_ops_same ers (omega (arith, rw (here, erase_no_ops) at h))))
]

eliminate_none :
    (hrs : List HeaderRule) → (eliminate_dead_code hrs).1 ≡ 0 → (eliminate_dead_code hrs).0 ≡ hrs
unfolding eliminate_dead_code
eliminate_none [] h = refl
eliminate_none (hr ∷ hrs) h = elim (Bool-cases (is_dead hr)) [
  | inl dead ↦ absurd (omega (arith, rw (dead, eliminate_dead_code) at h))
  | inr live ↦
      let h' = rw (live, eliminate_dead_code) at h in
      rw live (
        ap₂ (λ ers t. record hr { element_rules = ers } ∷ t)
          (erase_no_ops_same hr.element_rules (omega (arith, h')))
          (eliminate_none hrs (omega (arith, h'))))
]

-- A comparison and a match-value with no change counted.
simplify_none :
    (cmp : ComparisonType) (mv : Value) → (simplify cmp mv).2 ≡ 0 → simplify cmp mv ≡ (cmp, mv, 0)
unfolding simplify
simplify_none cmp mv h =
    elim (Bool-cases (not (is_pattern_rule cmp) || (not (is_regex_literal mv) || empty mv))) [
      | inl kept ↦ rw kept refl
      | inr pattern ↦ rw pattern (elim (Option-cases (plain_literal mv.raw)) [
        | inl other ↦ rw other refl
        | inr (text, found) ↦ rw found (elim (Bool-cases (length text == 0)) [
          | inl nil ↦ rw nil refl
          | inr more ↦ absurd (omega (arith, rw (pattern, found, more, simplify) at h))
        ])
      ])
    ]

simplify_elements_none :
    (ers : List ElementRule) → (simplify_elements ers).1 ≡ 0 → (simplify_elements ers).0 ≡ ers
unfolding simplify_elements
simplify_elements_none [] h = refl
simplify_elements_none (er ∷ ers) h =
    let e = simplify_none er.comparison er.match_value (omega (arith, h)) in
    ap₂ (λ r t. record er { comparison = r.0; match_value = r.1 } ∷ t) e
      (simplify_elements_none ers (omega (arith, h)))

simplify_patterns_none :
    (hrs : List HeaderRule) → (simplify_patterns hrs).1 ≡ 0 → (simplify_patterns hrs).0 ≡ hrs
unfolding simplify_patterns
simplify_patterns_none [] h = refl
simplify_patterns_none (hr ∷ hrs) h =
    let e = simplify_none hr.comparison hr.match_value (omega (arith, h)) in
    let es = simplify_elements_none hr.element_rules (omega (arith, h)) in
    ap₂
      (λ r t.
        record hr {
          comparison = r.0;
          match_value = r.1;
          element_rules = (simplify_elements hr.element_rules).0;
        }
        ∷ t)
      e (simplify_patterns_none hrs (omega (arith, h)))
    ∙ ap (λ ers. record hr { element_rules = ers } ∷ hrs) es

length-dedup_elements :
    (s : List Bytes) (ers : List ElementRule) → length (dedup_elements s ers) ≤ length ers
unfolding dedup_elements
length-dedup_elements s [] = omega arith
length-dedup_elements s (er ∷ ers) =
    let s' : List Bytes = if is_idempotent_element er.action then element_sig er ∷ s else s in
    elim (Bool-cases (is_idempotent_element er.action && seen_before (element_sig er) s)) [
      | inl gone ↦ rw (gone, dedup_elements) (omega (arith, length-dedup_elements s' ers))
      | inr here ↦ rw (here, dedup_elements) (omega (arith, length-dedup_elements s' ers))
    ]

dedup_elements_same :
    (s : List Bytes) (ers : List ElementRule)
    → length ers ≤ length (dedup_elements s ers)
    → dedup_elements s ers ≡ ers
unfolding dedup_elements
dedup_elements_same s [] h = refl
dedup_elements_same s (er ∷ ers) h =
    let s' : List Bytes = if is_idempotent_element er.action then element_sig er ∷ s else s in
    elim (Bool-cases (is_idempotent_element er.action && seen_before (element_sig er) s)) [
      | inl gone ↦
          absurd (omega (arith, length-dedup_elements s' ers, rw (gone, dedup_elements) at h))
      | inr here ↦
          rw (here, dedup_elements)
            (ap (λ t. er ∷ t)
              (dedup_elements_same s' ers (omega (arith, rw (here, dedup_elements) at h))))
    ]

merge_elements_none :
    (hrs : List HeaderRule) → (merge_elements hrs).1 ≡ 0 → (merge_elements hrs).0 ≡ hrs
unfolding merge_elements
merge_elements_none [] h = refl
merge_elements_none (hr ∷ hrs) h =
    ap₂ (λ ers t. record hr { element_rules = ers } ∷ t)
      (dedup_elements_same [] hr.element_rules (omega (arith, h)))
      (merge_elements_none hrs (omega (arith, h)))

fuse_loop_none :
    (back : HeaderRule) (hrs : List HeaderRule)
    → (fuse_loop back hrs).1 ≡ 0
    → (fuse_loop back hrs).0 ≡ back ∷ hrs
unfolding fuse_loop
fuse_loop_none back [] h = refl
fuse_loop_none back (hr ∷ hrs) h = elim (Bool-cases (fuses back hr)) [
  | inl fused ↦ absurd (omega (arith, rw (fused, fuse_loop) at h))
  | inr apart ↦
      rw (apart, fuse_loop)
        (ap (λ t. back ∷ t) (fuse_loop_none hr hrs (rw (apart, fuse_loop) at h)))
]

fuse_none : (hrs : List HeaderRule) → (fuse hrs).1 ≡ 0 → (fuse hrs).0 ≡ hrs
unfolding fuse
fuse_none [] h = refl
fuse_none (hr ∷ hrs) h = fuse_loop_none hr hrs h

merge_none : (hrs : List HeaderRule) → (merge_rules hrs).1 ≡ 0 → (merge_rules hrs).0 ≡ hrs
unfolding merge_rules
merge_none hrs h =
    let e = merge_elements_none hrs (omega (arith, h)) in
    let f : (fuse (merge_elements hrs).0).1 ≡ 0 = omega (arith, h) in
    ap (λ r. (fuse r).0) e ∙ fuse_none hrs (rw e at f)

-- The four passes in the order of a round, on the rules alone.
abbrev pub all_passes : List HeaderRule → List HeaderRule
all_passes hrs = (merge_rules (simplify_patterns (eliminate_dead_code (deduplicate hrs).0).0).0).0

-- If no pass of a round counts a change, the rules come out as they went in.
pub all_passes_none :
    (hrs : List HeaderRule)
    → (let r1 = deduplicate hrs in
        let r2 = eliminate_dead_code r1.0 in
        let r3 = simplify_patterns r2.0 in r1.1 + r2.1 + r3.1 + (merge_rules r3.0).1 ≡ 0)
    → all_passes hrs ≡ hrs
all_passes_none hrs h =
    let r1 = deduplicate hrs in
    let r2 = eliminate_dead_code r1.0 in
    let r3 = simplify_patterns r2.0 in
    merge_none r3.0 (omega (arith, h))
    ∙ simplify_patterns_none r2.0 (omega (arith, h))
    ∙ eliminate_none r1.0 (omega (arith, h))
    ∙ unfold deduplicate in dedup_loop_none [] hrs (omega (arith, h))
