-- ===== src/Optimizer/Rounds.antt =====
-- The fixpoint loop of the optimizer (src/optimizer/optimizer.cpp).
use olproff_fastsbc_hmr.Base.{
  List, ℕ, zero, suc, ◌+◌, ◌≤◌, ◌≡◌, refl, ap, inl, inr, ◌⊎◌, arith, ◌==◌, ==_iff, Bool-cases,
}
use olproff_fastsbc_hmr.Ast.{HeaderRule, Ruleset}
use olproff_fastsbc_hmr.Optimizer.{Progress, total, round, start, fixpoint, optimize}
use olproff_fastsbc_hmr.Optimizer.Unchanged.{all_passes, all_passes_none}

-- No pass changes the rules.
abbrev pub Settled : List HeaderRule → Type 0
Settled hrs = all_passes hrs ≡ hrs

round-Settled : (p : Progress) → total (round p) ≡ total p → Settled (round p).rules
unfolding round
round-Settled p h =
    let e : all_passes p.rules ≡ p.rules = all_passes_none p.rules (omega (arith, h)) in
    ap all_passes e

iter-round : (p : Progress) → (round p).iter ≡ p.iter + 1
unfolding round
iter-round p = refl

fixpoint-bound :
    (left : ℕ) (p : Progress)
    → ((fixpoint left p).iter ≤ p.iter + left)
      × (Settled (fixpoint left p).rules ⊎ ((fixpoint left p).iter ≡ p.iter + left))
unfolding fixpoint
fixpoint-bound zero p = (omega arith, inr (omega arith))
fixpoint-bound (suc left) p = elim (Bool-cases (total (round p) == total p)) [
  | inl settled ↦
      rw (settled, fixpoint)
        (omega (arith, iter-round p), inl (round-Settled p ((==_iff _ _).0 settled)))
  | inr changed ↦
      rw (changed, fixpoint)
        (let (bound, why) = fixpoint-bound left (round p) in
          (
            omega (arith, iter-round p, bound),
            elim why [
              | inl settled ↦ inl settled
              | inr spent ↦ inr (omega (arith, iter-round p, spent))
            ],
          ))
]

-- The optimizer runs at most `max_iterations` rounds; if it stops before that, no pass changes the
-- rules that it gives back.
pub optimize-Settled :
    (max_iterations : ℕ) (rs : Ruleset)
    → (let (rs', report) = optimize max_iterations rs in
        (report.iterations ≤ max_iterations)
        × (Settled rs'.header_rules ⊎ (report.iterations ≡ max_iterations)))
unfolding optimize
optimize-Settled max_iterations rs =
    let (bound, why) = fixpoint-bound max_iterations (start rs.header_rules) in
    (
      omega (arith, bound),
      elim why [ inl settled ↦ inl settled | inr spent ↦ inr (omega (arith, spent)) ],
    )
