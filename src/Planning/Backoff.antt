-- ===== src/Planning/Backoff.antt =====
-- The delay between planning attempts (`Backoff.Delay` of pkgs/media-repair/internal/planning/runner.go).
-- A time.Duration is a number of nanoseconds.
use native.Mathlib.Nat.{mul_assoc, mul-le-mul_left}
use nix.Base.{ℕ, zero, suc, ◌≡◌, ◌≤◌, ◌<◌, ◌*◌, ◌/◌, ◌^◌, min, ltb, arith, if◌then◌else◌, ap, ◌∙◌}

pub record Backoff : Type 0 where
  pub initial : ℕ
  pub maximum : ℕ

abbrev pub capped : ℕ → ℕ → ℕ
capped maximum d = if ltb maximum d then maximum else d

-- The loop, on the number of prior attempts.
unfoldable pub delay_from : ℕ → ℕ → ℕ → ℕ
delay_from maximum d zero = capped maximum d
delay_from maximum d (suc prior) =
    let rest = delay_from maximum (d * 2) prior in
    if ltb d maximum then (if ltb (maximum / 2) d then maximum else rest) else capped maximum d

unfoldable pub delay : Backoff → ℕ → ℕ
unfolding delay_from
delay b prior = delay_from b.maximum b.initial prior

double-pow : (d n : ℕ) → d * 2 * 2 ^ n ≡ d * 2 ^ suc n
double-pow d n = mul_assoc d 2 (2 ^ n) ∙ ap (λ p. d * p) (omega arith)

pow_pos : (n : ℕ) → 0 < 2 ^ n
pow_pos zero = ground arith
pow_pos (suc n) = omega (arith, pow_pos n)

le_mul : (d n : ℕ) → d ≤ d * 2 ^ n
le_mul d n = omega (arith, mul-le-mul_left {m = 1} {n = 2 ^ n} d (omega (arith, pow_pos n)))

delay_from_lem : (maximum d prior : ℕ) → delay_from maximum d prior ≡ min (d * 2 ^ prior) maximum
unfolding delay_from
delay_from_lem maximum d zero = ground arith
delay_from_lem maximum d (suc prior) =
    let rest = delay_from_lem maximum (d * 2) prior in
    let pow = double-pow d prior in
    let larger = le_mul d (suc prior) in
    let doubled = le_mul (d * 2) prior in ground (arith, rest, pow, larger, doubled)

-- The delay before the next attempt is the initial delay doubled once for each prior attempt, and at
-- most the maximum; the doubling that the code skips near the maximum changes nothing.
pub delay_lem : (b : Backoff) (prior : ℕ) → delay b prior ≡ min (b.initial * 2 ^ prior) b.maximum
unfolding delay
delay_lem b prior = delay_from_lem b.maximum b.initial prior
