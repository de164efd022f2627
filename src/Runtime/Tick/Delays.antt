-- ===== src/Runtime/Tick/Delays.antt =====
-- The waits between ticks of src/qas/runtime.py after a failure.
use qwen_autonomous_supervis.Prelude.{ℕ, ◌-◌, ◌*◌, ◌^◌, ◌≤◌, ◌≡◌, refl, min, arith}
use native.Mathlib.Nat.{one-le-pow, pow-le-pow_right, mul-le-mul_left, mul-one}
use qwen_autonomous_supervis.Config.{SupervisorConfig}
use qwen_autonomous_supervis.Runtime.Tick.Handler.{retry_delay}

-- The wait after a failure lies between the smaller of the two bounds of the configuration and the
-- maximum, is the base after the first failure (if that is not above the maximum), and never falls as
-- the failures of the same kind go on.
pub retry_delay_lem :
    (c : SupervisorConfig) (n m : ℕ)
    → n ≤ m
    → (min c.recovery.retry_base_seconds c.recovery.retry_maximum_seconds ≤ retry_delay c n)
      × ((retry_delay c n ≤ c.recovery.retry_maximum_seconds)
          × ((retry_delay c 1 ≡ min c.recovery.retry_maximum_seconds c.recovery.retry_base_seconds)
              × (retry_delay c n ≤ retry_delay c m)))
unfolding retry_delay
retry_delay_lem c n m h =
    let base = c.recovery.retry_base_seconds in
    let once : base * 1 ≤ base * 2 ^ (n - 1) =
      mul-le-mul_left base (one-le-pow (n - 1) 2 (omega arith)) in
    let more : base * 2 ^ (n - 1) ≤ base * 2 ^ (m - 1) =
      mul-le-mul_left base
        (pow-le-pow_right {n = 2} (omega arith) {i = n - 1} {j = m - 1} (omega (arith, h))) in
    (omega (arith, once), (omega arith, (simp (mul-one base) refl, omega (arith, more))))
