-- ===== src/Fan/Curve/Interpolate.antt =====
-- Linear interpolation between two points of a curve: no wrap-around, the range, monotony.
use ugreen_nas_hardware.Prelude.{ℕ, ◌+◌, ◌-◌, ◌*◌, ◌/◌, ◌≤◌, ◌<◌, ◌≡◌, arith}
use ugreen_nas_hardware.Fan.Curve.{interpolate, thermal_max_celsius}

product-le : (a b m n : ℕ) → a ≤ m → b ≤ n → a * b ≤ m * n
product-le a b m n p q = grind arith

share-le : (a b d : ℕ) → 0 < d → a ≤ d → a * b / d ≤ b
share-le a b d h k = grind arith

share_mono : (a b c d : ℕ) → 0 < d → a ≤ c → a * b / d ≤ c * b / d
share_mono a b c d h k = grind arith

-- A segment of a curve, as the check of a configuration leaves it.
pub record IsSegment (left right left_pwm right_pwm : ℕ) : Type 0 where
  pub rising : left < right
  pub celsius_capped : right ≤ thermal_max_celsius
  pub pwm_rising : left_pwm ≤ right_pwm
  pub pwm_capped : right_pwm ≤ 255

module _ {l r lp rp : ℕ} (s : IsSegment l r lp rp) where
  -- Inside a segment no step wraps around.
  pub interpolate_lem :
      (t : ℕ) → l ≤ t → t ≤ r → interpolate l r lp rp t ≡ lp + (t - l) * (rp - lp) / (r - l)
  unfolding interpolate
  interpolate_lem t p q =
      ground (arith, product-le (t - l) (rp - lp) 125 255, share-le (t - l) (rp - lp) (r - l))

  pub interpolate_bounds :
      (t : ℕ) → l ≤ t → t ≤ r → (lp ≤ interpolate l r lp rp t) × (interpolate l r lp rp t ≤ rp)
  interpolate_bounds t p q = ground (arith, interpolate_lem t, share-le (t - l) (rp - lp) (r - l))

  pub interpolate_mono :
      (t u : ℕ) → l ≤ t → t ≤ u → u ≤ r → interpolate l r lp rp t ≤ interpolate l r lp rp u
  interpolate_mono t u p q k =
      ground
        (arith, interpolate_lem t, interpolate_lem u, share_mono (t - l) (rp - lp) (u - l) (r - l))
