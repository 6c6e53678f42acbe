-- ===== src/Repair/Delays.antt =====
-- The delay before planning is tried again (`planningDelay` of internal/repair/scheduler.go).
use native.Mathlib.Nat.{mul_assoc, mul-le-mul_left}
use nix.Base.{
  ◌∙◌, ap, ℕ, zero, suc, ◌≡◌, ◌≤◌, ◌<◌, ◌*◌, ◌^◌, min, arith, Bool-cases, ltb, inl, inr,
  if◌then◌else◌,
}
use nix.Jobs.Model.{minute, hour}
use nix.Repair.Scheduler.{doubled, planning_delay}

pow_pos : (n : ℕ) → 0 < 2 ^ n
pow_pos zero = ground arith
pow_pos (suc n) = omega (arith, pow_pos n)

le_mul : (d n : ℕ) → d ≤ d * 2 ^ n
le_mul d n = omega (arith, mul-le-mul_left {m = 1} {n = 2 ^ n} d (omega (arith, pow_pos n)))

mul-pow : (d n : ℕ) → d * 2 * 2 ^ n ≡ d * 2 ^ suc n
mul-pow d n = mul_assoc d 2 (2 ^ n) ∙ ap (λ p. d * p) (omega arith)

doubled_lem : (n d : ℕ) → min (doubled n d) (6 * hour) ≡ min (d * 2 ^ n) (6 * hour)
unfolding doubled
doubled_lem zero d = ap (λ x. min x (6 * hour)) (omega arith)
doubled_lem (suc n) d =
    let larger = le_mul d (suc n) in
    let next = doubled_lem n (d * 2) in
    let pow = mul-pow d n in
    elim (Bool-cases (ltb d (6 * hour))) [
      | inl e ↦
          ap (λ b. min (if b then doubled n (d * 2) else d) (6 * hour)) e
          ∙ next
          ∙ ap (λ x. min x (6 * hour)) pow
      | inr e ↦
          let top : 6 * hour ≤ d = ground arith in
          ap (λ b. min (if b then doubled n (d * 2) else d) (6 * hour)) e ∙ omega arith
    ]

-- The delay before a plan is tried again after `n + 1` attempts is five minutes doubled `n` times, and
-- at most six hours.
pub planning_delay_lem : (n : ℕ) → planning_delay (suc n) ≡ min (5 * minute * 2 ^ n) (6 * hour)
unfolding planning_delay
planning_delay_lem n = doubled_lem n (5 * minute)
