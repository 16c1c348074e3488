-- ===== src/Merkle/Consistency/Ends.antt =====
-- merkle/consistency.go: where the first loop of VerifyConsistency ends.
use proof.Prelude.{
  ℕ, zero, suc, ◌+◌, ◌*◌, ◌/◌, ◌%◌, ◌^◌, ◌≤◌, ◌≡◌, ◌==◌, arith, inl, inr, Bool-cases,
}
use proof.Merkle.Split.{pow_step}
use proof.Merkle.Consistency.{climb_odd}

-- The climb past right children: from a node to the even one above it, by whole levels, with the
-- last node at the same level.
pub climb_odd_lem :
    (fuel node last : ℕ)
    → node ≤ fuel
    → node ≤ last
    → ((climb_odd fuel node last).0 % 2 ≡ 0)
      × ((climb_odd fuel node last).0 ≤ (climb_odd fuel node last).1)
      × ((j : ℕ) × (node + 1 ≡ 2 ^ j * ((climb_odd fuel node last).0 + 1)))
unfolding climb_odd
climb_odd_lem zero node last enough le = (omega arith, le, (0, omega arith))
climb_odd_lem (suc fuel) node last enough le = elim (Bool-cases (node % 2 == 1)) [
  | inl odd ↦
      let half : node ≡ 2 * (node / 2) + 1 = ground arith in
      let (even, under, (j, power)) =
        climb_odd_lem fuel (node / 2) (last / 2) (omega arith) (omega arith) in
      rw (odd, climb_odd) (even, under, (suc j, rw pow_step (omega (arith, half, power))))
  | inr other ↦
      let even : node % 2 ≡ 0 = ground arith in rw (other, climb_odd) (even, le, (0, omega arith))
]
