-- ===== src/Optimizer/Dedup.antt =====
-- DeduplicationPass of src/optimizer/optimizer.cpp: what it leaves and counts.
use olproff_fastsbc_hmr.Base.{
  ◌+◌, Bool, true, false, not, ◌&&◌, ◌||◌, List, [], ◌∷◌, ◌≡◌, refl, sym, ap, ap₂, inl, inr, arith,
  if◌then◌else◌, length, Bool-cases,
}
use olproff_fastsbc_hmr.Text.{Bytes, same_text}
use olproff_fastsbc_hmr.Text.Fold.{same_text_iff}
use olproff_fastsbc_hmr.Ast.{HeaderAction, HeaderRule}
use olproff_fastsbc_hmr.Optimizer.Signature.{is_idempotent, rule_sig}
use olproff_fastsbc_hmr.Optimizer.Passes.{seen_before, dedup_loop, deduplicate}

-- Two histories that hold the same signatures.
abbrev Alike : List Bytes → List Bytes → Type 0
Alike s t = (k : Bytes) → seen_before k s ≡ seen_before k t

Alike-cons : (key : Bytes) (s t : List Bytes) → Alike s t → Alike (key ∷ s) (key ∷ t)
unfolding seen_before
Alike-cons key s t h k = ap (λ b. same_text key k || b) (h k)

-- A signature that is there already adds nothing.
Alike-seen : (key : Bytes) (s : List Bytes) → seen_before key s ≡ true → Alike (key ∷ s) s
unfolding seen_before
Alike-seen key s h k = elim (Bool-cases (same_text key k)) [
  | inl same ↦ rw same (sym (rw (← (same_text_iff key k).0 same) h))
  | inr other ↦ rw other refl
]

-- What the history is behind a rule.
abbrev after : List Bytes → HeaderRule → List Bytes
after seen hr = if is_idempotent hr.action then rule_sig hr ∷ seen else seen

Alike-after : (s t : List Bytes) (hr : HeaderRule) → Alike s t → Alike (after s hr) (after t hr)
Alike-after s t hr h = elim (Bool-cases (is_idempotent hr.action)) [
  | inl once ↦ rw once (Alike-cons (rule_sig hr) s t h)
  | inr many ↦ rw many h
]

dedup_loop-Alike :
    (s t : List Bytes) (hrs : List HeaderRule) → Alike s t → dedup_loop s hrs ≡ dedup_loop t hrs
unfolding dedup_loop
dedup_loop-Alike s t [] h = refl
dedup_loop-Alike s t (hr ∷ hrs) h =
    rw (h (rule_sig hr), dedup_loop-Alike (after s hr) (after t hr) hrs (Alike-after s t hr h)) refl

-- Where a rule is dropped, its signature is in the history already.
Alike-dropped :
    (s : List Bytes) (hr : HeaderRule)
    → (is_idempotent hr.action && seen_before (rule_sig hr) s) ≡ true
    → Alike (after s hr) s
Alike-dropped s hr h = elim (Bool-cases (is_idempotent hr.action)) [
  | inl once ↦ rw once (Alike-seen (rule_sig hr) s (rw once at h))
  | inr many ↦ rw many (λ k. refl)
]

-- A second run on what the loop kept.
dedup_loop-again :
    (s : List Bytes) (hrs : List HeaderRule)
    → dedup_loop s (dedup_loop s hrs).0 ≡ ((dedup_loop s hrs).0, 0)
unfolding dedup_loop
dedup_loop-again s [] = refl
dedup_loop-again s (hr ∷ hrs) =
    elim (Bool-cases (is_idempotent hr.action && seen_before (rule_sig hr) s)) [
      | inl drop ↦
          rw (drop, dedup_loop)
            (rw (dedup_loop-Alike (after s hr) s hrs (Alike-dropped s hr drop))
              (dedup_loop-again s hrs))
      | inr keep ↦ rw (keep, dedup_loop) (rw (keep, dedup_loop-again (after s hr) hrs) refl)
    ]

length-dedup_loop :
    (s : List Bytes) (hrs : List HeaderRule)
    → length (dedup_loop s hrs).0 + (dedup_loop s hrs).1 ≡ length hrs
unfolding dedup_loop
length-dedup_loop s [] = refl
length-dedup_loop s (hr ∷ hrs) =
    elim (Bool-cases (is_idempotent hr.action && seen_before (rule_sig hr) s)) [
      | inl drop ↦ rw (drop, dedup_loop) (omega (arith, length-dedup_loop (after s hr) hrs))
      | inr keep ↦ rw (keep, dedup_loop) (omega (arith, length-dedup_loop (after s hr) hrs))
    ]

-- A rule that adds a header, again for each time that it is there.
abbrev pub adds : HeaderRule → Bool
adds hr = elim hr.action [ HeaderAction.add ↦ true | _ ↦ false ]

-- One of the rules that do not add has the signature.
unfoldable pub occurs : Bytes → List HeaderRule → Bool
occurs key [] = false
occurs key (p ∷ ps) = (not (adds p) && same_text (rule_sig p) key) || occurs key ps

-- The rules that add, and of the others those whose signature no rule in front of them has.
unfoldable pub firsts : List HeaderRule → List HeaderRule → List HeaderRule
firsts earlier [] = []
firsts earlier (hr ∷ hrs) =
    let rest = firsts (hr ∷ earlier) hrs in
    if not (adds hr) && occurs (rule_sig hr) earlier then rest else hr ∷ rest

is_idempotent_lem :
    (a : HeaderAction) → is_idempotent a ≡ not (elim a [ HeaderAction.add ↦ true | _ ↦ false ])
unfolding is_idempotent
is_idempotent_lem HeaderAction.add = refl
is_idempotent_lem _ = refl

after_lem :
    (seen : List Bytes) (earlier : List HeaderRule) (hr : HeaderRule)
    → ((k : Bytes) → seen_before k seen ≡ occurs k earlier)
    → (k : Bytes) → seen_before k (after seen hr) ≡ occurs k (hr ∷ earlier)
unfolding seen_before occurs
after_lem seen earlier hr h k = elim (Bool-cases (adds hr)) [
  | inl many ↦ rw (is_idempotent_lem hr.action, many) (h k)
  | inr once ↦
      rw (is_idempotent_lem hr.action, once) (ap (λ b. same_text (rule_sig hr) k || b) (h k))
]

dedup_loop-firsts :
    (seen : List Bytes) (earlier hrs : List HeaderRule)
    → ((k : Bytes) → seen_before k seen ≡ occurs k earlier)
    → (dedup_loop seen hrs).0 ≡ firsts earlier hrs
unfolding dedup_loop firsts
dedup_loop-firsts seen earlier [] h = refl
dedup_loop-firsts seen earlier (hr ∷ hrs) h =
    let rest = dedup_loop-firsts (after seen hr) (hr ∷ earlier) hrs (after_lem seen earlier hr h) in
    let same : (is_idempotent hr.action && seen_before (rule_sig hr) seen)
        ≡ (not (adds hr) && occurs (rule_sig hr) earlier) =
      ap₂ (λ a b. a && b) (is_idempotent_lem hr.action) (h (rule_sig hr)) in
    elim (Bool-cases (not (adds hr) && occurs (rule_sig hr) earlier)) [
      | inl drop ↦ rw (same, drop) rest
      | inr keep ↦ rw (same, keep) (ap (λ t. hr ∷ t) rest)
    ]

-- The deduplication pass keeps, in their order, every rule whose action is add, and each other rule that
-- has no rule in front of it with its signature and an action other than add; it drops the rest and
-- counts exactly the rules that it drops; and a second run of it on its own result drops nothing and
-- changes nothing.
pub deduplicate-again :
    (hrs : List HeaderRule)
    → ((deduplicate hrs).0 ≡ firsts [] hrs)
      × (deduplicate (deduplicate hrs).0 ≡ ((deduplicate hrs).0, 0))
      × (length (deduplicate hrs).0 + (deduplicate hrs).1 ≡ length hrs)
unfolding deduplicate seen_before occurs
deduplicate-again hrs =
    (dedup_loop-firsts [] [] hrs (λ k. refl), dedup_loop-again [] hrs, length-dedup_loop [] hrs)

-- The loop counts nothing only where it drops nothing.
pub dedup_loop_none :
    (s : List Bytes) (hrs : List HeaderRule) → (dedup_loop s hrs).1 ≡ 0 → (dedup_loop s hrs).0 ≡ hrs
unfolding dedup_loop
dedup_loop_none s [] h = refl
dedup_loop_none s (hr ∷ hrs) h =
    elim (Bool-cases (is_idempotent hr.action && seen_before (rule_sig hr) s)) [
      | inl drop ↦ absurd (omega (arith, rw (drop, dedup_loop) at h))
      | inr keep ↦
          rw (keep, dedup_loop)
            (ap (λ t. hr ∷ t) (dedup_loop_none (after s hr) hrs (rw (keep, dedup_loop) at h)))
    ]
