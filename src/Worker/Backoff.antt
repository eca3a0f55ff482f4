-- ===== src/Worker/Backoff.antt =====
-- The delay of a retry in closed form, and its bounds.
use rclone_sync_hub_go_backe.Prelude.{
  ℕ, zero, suc, ◌+◌, ◌-◌, ◌*◌, ◌/◌, ◌^◌, ◌≤◌, ◌<◌, min, ◌≡◌, ap, ltb, if◌then◌else◌, ℤ, pos, ltb_ℤ,
  double_pos, i64_pos, arith, Bool-cases, inl, inr,
}
use native.Mathlib.Nat.{pow-suc}
use rclone_sync_hub_go_backe.Worker.Config.{Config, backoff, base_delay, add_jitter, retry_delay}

abbrev clamp : ℤ → ℤ → ℤ
clamp max delay = if ltb_ℤ max delay then max else delay

pow_pos : (k : ℕ) → 0 < 2 ^ k
pow_pos zero = omega arith
pow_pos (suc k) = omega (arith, pow-suc 2 k, pow_pos k)

le-mul_pos : (a x : ℕ) → 0 < x → a ≤ a * x
le-mul_pos a x h = grind arith

-- One more doubling, taken first or last.
double_first : (d k : ℕ) → d * 2 * 2 ^ k ≡ d * 2 ^ suc k
double_first d k = omega (arith, ap (λ (t : ℕ). d * t) (pow-suc 2 k))

min_above : (a m : ℕ) → m ≤ a → min a m ≡ m
min_above a m h = omega arith

-- The clamped loop is the exponential, cut at the maximum; nothing wraps around.
backoff-min :
    (m : ℕ)
    → m < 2 ^ 63
    → (k d : ℕ) → clamp (pos m) (backoff (pos m) k (pos d)) ≡ pos (min (d * 2 ^ k) m)
unfolding backoff
backoff-min m hm zero d = ground arith
backoff-min m hm (suc k) d = ground (
  arith,
  backoff-min m hm k (d * 2),
  double_pos d,
  double_first d k,
  le-mul_pos (d * 2) (2 ^ k),
  pow_pos k,
)

-- For a configuration with non-negative delays whose greatest is below 2^63, the loop of
-- retryDelay computes the base delay times a power of two, cut at the greatest delay, without
-- overflow.
pub base_delay-min :
    (c : Config) (b m attempt : ℕ)
    → c.retry_base_delay ≡ pos b
    → c.retry_max_delay ≡ pos m
    → m < 2 ^ 63
    → base_delay c attempt ≡ pos (min (b * 2 ^ (attempt - 1)) m)
unfolding base_delay
base_delay-min c b m attempt eb em hm = rw (eb, em) (backoff-min m hm (attempt - 1) b)

-- For a configuration with non-negative delays whose greatest is below 2^62 and a random number
-- below its bound, the delay with its jitter is at least the base delay times a power of two, cut
-- at the greatest delay, and at most a fifth longer.
pub retry_delay_bounds :
    (random : ℕ → ℕ) (c : Config) (b m attempt : ℕ)
    → ((n : ℕ) → 0 < n → random n < n)
    → c.retry_base_delay ≡ pos b
    → c.retry_max_delay ≡ pos m
    → m < 2 ^ 62
    → (delay : ℕ) × (retry_delay random c attempt ≡ pos delay)
      × (min (b * 2 ^ (attempt - 1)) m ≤ delay)
      × (delay * 5 ≤ min (b * 2 ^ (attempt - 1)) m * 6)
unfolding retry_delay add_jitter
retry_delay_bounds random c b m attempt hr eb em hm =
    rw (base_delay-min c b m attempt eb em (omega arith))
      (jittered (min (b * 2 ^ (attempt - 1)) m) (omega arith))
  where
    jittered :
        (d : ℕ)
        → d < 2 ^ 62
        → (delay : ℕ) × (add_jitter random (pos d) ≡ pos delay) × (d ≤ delay) × (delay * 5 ≤ d * 6)
    jittered d hd = elim (Bool-cases (ltb 0 (d / 5))) [
      | inl some_jitter ↦ (
        d + random (d / 5 + 1),
        rw some_jitter (i64_pos _ (omega (arith, hr (d / 5 + 1) (omega arith)))),
        omega arith,
        omega (arith, hr (d / 5 + 1) (omega arith)),
      )
      | inr no_jitter ↦ (d, ground arith, omega arith, omega arith)
    ]
