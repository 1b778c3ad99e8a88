-- ===== src/Fan/Curve/Parts.antt =====
-- The parts of a plan: what a storage source adds, and when a reading is hotter than another.
use ugreen_nas_hardware.Prelude.{ℕ, ◌≤◌, ◌<◌, ◌^◌, ◌≡◌, ℤ, pos, negsuc, arith, Bool, true}
use ugreen_nas_hardware.Fan.Curve.{
  CurveThresholds, CurvePwmPoints, ThermalSnapshot, evaluate_source, maximum_of, with_storage,
  fan_curve_cpu_celsius,
}
use ugreen_nas_hardware.Fan.Curve.Source.{FitsInt, evaluate_source_bounds, evaluate_source_mono}
use ugreen_nas_hardware.Fan.Config.Valid.{IsRising, IsOrdered}

abbrev pub Fits : ℤ → Type 0
Fits (pos t) = FitsInt t
Fits (negsuc t) = t < 2 ^ 31

-- Every reading is an `int`.
pub record IsReading (s : ThermalSnapshot) : Type 0 where
  pub cpu : Fits s.cpu_celsius
  pub hdd : Fits s.hdd_celsius
  pub ssd : Fits s.ssd_celsius
  pub peak : Fits s.cpu_peak_celsius

pub fan_curve_cpu_celsius-Fits :
    (s : ThermalSnapshot) → IsReading s → Fits (fan_curve_cpu_celsius s)
unfolding fan_curve_cpu_celsius
fan_curve_cpu_celsius-Fits s h = ground arith

pub maximum_of-le : (a b m : ℕ) → a ≤ m → b ≤ m → maximum_of a b ≤ m
unfolding maximum_of
maximum_of-le a b m h k = ground arith

pub le-maximum_of : (a b : ℕ) → (a ≤ maximum_of a b) × (b ≤ maximum_of a b)
unfolding maximum_of
le-maximum_of a b = ground arith

pub maximum_of_mono : (a b c d : ℕ) → a ≤ c → b ≤ d → maximum_of a b ≤ maximum_of c d
unfolding maximum_of
maximum_of_mono a b c d h k = ground arith

-- The second reading is of a sensor that is at least as hot as the first one says.
abbrev pub Hotter : ℤ → ℤ → Type 0
Hotter (negsuc _) b = Fits b
Hotter (pos t) (pos u) = (t ≤ u) × FitsInt u
Hotter (pos t) (negsuc u) = ⊥

-- The second snapshot is at least as hot on every source.
pub record AreHotter (s s' : ThermalSnapshot) : Type 0 where
  pub cpu : Hotter (fan_curve_cpu_celsius s) (fan_curve_cpu_celsius s')
  pub hdd : Hotter s.hdd_celsius s'.hdd_celsius
  pub ssd : Hotter s.ssd_celsius s'.ssd_celsius

module _ (enabled : Bool) (th : CurveThresholds) (p : CurvePwmPoints) {m : ℕ} (o : IsOrdered p m)
    (r : enabled ≡ true → IsRising th) where
  pub with_storage-le :
      (t : ℤ) (target : ℕ) → Fits t → target ≤ 255 → with_storage enabled th p t target ≤ 255
  unfolding with_storage
  with_storage-le (pos t) target f h = ground (
    arith,
    λ (e : enabled ≡ true). evaluate_source_bounds th p (r e) o t f,
    maximum_of-le target (evaluate_source th p (pos t)) 255,
  )
  with_storage-le (negsuc t) target f h = ground arith

  pub with_storage_mono :
      (t u : ℤ) (a b : ℕ)
      → Hotter t u
      → a ≤ b
      → with_storage enabled th p t a ≤ with_storage enabled th p u b
  unfolding with_storage
  with_storage_mono (pos t) (pos u) a b f h = ground (
    arith,
    λ (e : enabled ≡ true). evaluate_source_mono th p (r e) o t u f.1 f.0,
    maximum_of_mono a (evaluate_source th p (pos t)) b (evaluate_source th p (pos u)),
  )
  with_storage_mono (pos t) (negsuc u) a b f h = absurd f
  with_storage_mono (negsuc t) (pos u) a b f h =
      ground (arith, le-maximum_of b (evaluate_source th p (pos u)))
  with_storage_mono (negsuc t) (negsuc u) a b f h = ground arith
