-- ===== src/Fan/Load/Laws/RoundTrip.antt =====
-- A whole configuration is loaded again from the file that states it.
use ugreen_nas_hardware.Prelude.{
  ℕ, ◌+◌, ◌^◌, ◌<◌, ◌≤◌, ◌≡◌, ◌≢◌, refl, arith, Bool, true, false, ◌&&◌, ◌||◌, ◌==◌, leb, List, [],
  ◌∷◌, ◌++◌, length, length-append, Bytes, codes, str_is, All, some, Result, ok, err, ◌>>=◌,
}
use ugreen_nas_hardware.Prelude.Decimal.{decimal}
use ugreen_nas_hardware.Prelude.Scan.{is_space}
use ugreen_nas_hardware.Prelude.Scan.Words.{IsWord, IsWord-append, decimal-IsWord, length-decimal}
use ugreen_nas_hardware.Fan.Curve.{CurveThresholds, FanCurveConfig}
use ugreen_nas_hardware.Fan.Config.{config_defaults, validate_config, profile_is_valid}
use ugreen_nas_hardware.Fan.Config.Valid.{IsValid, validate_config_iff}
use ugreen_nas_hardware.Fan.Load.{
  lines_from, line_room, is_skipped, set_value, read_lines, complete, finish_config, load_config,
}
use ugreen_nas_hardware.Fan.Load.Laws.{
  AreInts, boolean_text, thresholds_text, points_text, commas, parse_unsigned-decimal,
  parse_boolean-text, parse_thresholds-text, parse_pwm_points-text, length-commas, commas-IsWord,
}
use ugreen_nas_hardware.Fan.Load.Laws.Lines.{lines_from-word, IsKey, read_line-word}

-- A setting of the file.
pub record Setting : Type 0 where
  pub key : Bytes
  pub value : Bytes

abbrev pub line_of : Setting → Bytes
line_of s = s.key ++ b'=' ∷ s.value

-- One line for each setting.
abbrev pub render : List Setting → Bytes
render [] = []
render (s ∷ ss) = line_of s ++ b'\n' ∷ render ss

abbrev pub apply : FanCurveConfig → List Setting → Result FanCurveConfig
apply config [] = ok config
apply config (s ∷ ss) = set_value config s.key s.value >>= λ c. apply c ss

pub record IsSetting (s : Setting) : Type 0 where
  pub is_key : IsKey s.key
  pub is_word : IsWord s.value
  pub short : length s.key + length s.value < 254

line_of-IsWord : (s : Setting) → IsSetting s → IsWord (line_of s)
unfolding is_space
line_of-IsWord s h =
    IsWord-append s.key (b'=' ∷ s.value) h.is_key.word ((refl, λ e. ground arith), h.is_word)

bind_same :
    (r : Result FanCurveConfig) (f g : FanCurveConfig → Result FanCurveConfig)
    → ((c : FanCurveConfig) → f c ≡ g c)
    → (r >>= f) ≡ (r >>= g)
bind_same (ok c) f g h = h c
bind_same (err e) f g h = refl

read_lines-render :
    (ss : List Setting) (config : FanCurveConfig)
    → All IsSetting ss
    → read_lines config (lines_from line_room [] (render ss)) ≡ apply config ss
unfolding read_lines lines_from
read_lines-render [] config h = refl
read_lines-render (s ∷ ss) config h =
    rw
      (
        lines_from-word line_room [] (line_of s) (render ss) (line_of-IsWord s h.0)
            (omega (arith, length-append s.key (b'=' ∷ s.value), h.0.short)),
        read_line-word config s.key s.value h.0.is_key h.0.is_word,
      )
      (bind_same (set_value config s.key s.value) _ _ (λ c. read_lines-render ss c h.1))

-- The settings of a configuration of the profile `custom`.
abbrev pub settings : FanCurveConfig → List Setting
settings c =
    record { key = codes "interval_seconds"; value = decimal c.interval_seconds }
    ∷ record { key = codes "downshift_delay_seconds"; value = decimal c.downshift_delay_seconds }
    ∷ record { key = codes "minimum_pwm"; value = decimal c.minimum_pwm }
    ∷ record { key = codes "failsafe_pwm"; value = decimal c.failsafe_pwm }
    ∷ record { key = codes "require_storage_sensor"; value = boolean_text c.require_storage_sensor }
    ∷ record {
      key = codes "allow_unvalidated_writes";
      value = boolean_text c.allow_unvalidated_writes;
    }
    ∷ record { key = codes "hdd_curve_enabled"; value = boolean_text c.hdd_curve_enabled }
    ∷ record { key = codes "ssd_curve_enabled"; value = boolean_text c.ssd_curve_enabled }
    ∷ record { key = codes "cpu"; value = thresholds_text c.cpu }
    ∷ record { key = codes "hdd"; value = thresholds_text c.hdd }
    ∷ record { key = codes "ssd"; value = thresholds_text c.ssd }
    ∷ record { key = codes "pwm"; value = points_text c.pwm }
    ∷ []

abbrev pub FitsThresholds : CurveThresholds → Type 0
FitsThresholds t = AreInts (t.stop ∷ t.start ∷ t.mid ∷ t.full ∷ t.maximum ∷ [])

-- What the file cannot state: one curve for both channels, no CPU floor; and numbers of 32 bits.
pub record IsCustom (c : FanCurveConfig) : Type 0 where
  pub custom : c.profile ≡ codes "custom"
  pub same_system : c.system_pwm ≡ c.pwm
  pub same_cpu : c.cpu_pwm ≡ c.pwm
  pub no_floor : c.system_cpu_floor_enabled ≡ false
  pub no_start : c.system_cpu_floor_start_celsius ≡ 0
  pub no_end : c.system_cpu_floor_end_celsius ≡ 0
  pub no_start_pwm : c.system_cpu_floor_start_pwm ≡ 0
  pub no_end_pwm : c.system_cpu_floor_end_pwm ≡ 0
  pub hdd_fits : FitsThresholds c.hdd
  pub ssd_fits : FitsThresholds c.ssd

boolean_text-IsWord : (b : Bool) → IsWord (boolean_text b)
unfolding is_space
boolean_text-IsWord true = ground arith
boolean_text-IsWord false = ground arith

-- Letters and underscores.
are_letters : Bytes → Bool
are_letters [] = true
are_letters (c ∷ cs) = (c == b'_' || (leb b'a' c && leb c b'z')) && are_letters cs

letters-IsWord : (s : Bytes) → are_letters s ≡ true → IsWord s × All (λ c. (c == b'=') ≡ false) s
unfolding are_letters is_space
letters-IsWord [] h = (tt, tt)
letters-IsWord (c ∷ cs) h =
    let first : (are_letters cs ≡ true) × (is_space c ≡ false) × (c ≢ 0) × ((c == b'=') ≡ false) =
      (ground arith, ground arith, λ e. ground arith, ground arith) in
    let (word, plain) = letters-IsWord cs first.0 in (((first.1, first.2), word), (first.3, plain))

IsWord-IsSetting :
    (key value : Bytes)
    → are_letters key ≡ true
    → is_skipped key ≡ false
    → length key ≤ 30
    → IsWord value
    → length value ≤ 60
    → IsSetting (record { key = key; value = value })
IsWord-IsSetting key value letters starts few word short =
    let (is_word, plain) = letters-IsWord key letters in
    record {
      is_key = record { word = is_word; no_equals = plain; starts = starts };
      is_word = word;
      short = omega arith;
    }

number-IsSetting :
    (key : Bytes) (n : ℕ)
    → are_letters key ≡ true
    → is_skipped key ≡ false
    → length key ≤ 30
    → n < 2 ^ 32
    → IsSetting (record { key = key; value = decimal n })
number-IsSetting key n letters starts few h =
    IsWord-IsSetting key (decimal n) letters starts few (decimal-IsWord n)
      (omega (arith, length-decimal n h))

switch-IsSetting :
    (key : Bytes) (b : Bool)
    → are_letters key ≡ true
    → is_skipped key ≡ false
    → length key ≤ 30
    → IsSetting (record { key = key; value = boolean_text b })
switch-IsSetting key b letters starts few =
    IsWord-IsSetting key (boolean_text b) letters starts few (boolean_text-IsWord b) (short b)
  where
    short : (b : Bool) → length (boolean_text b) ≤ 60
    short true = omega arith
    short false = omega arith

list-IsSetting :
    (key : Bytes) (n : ℕ) (ms : List ℕ)
    → are_letters key ≡ true
    → is_skipped key ≡ false
    → length key ≤ 30
    → AreInts (n ∷ ms)
    → length ms ≤ 4
    → IsSetting (record { key = key; value = commas n ms })
list-IsSetting key n ms letters starts few h short =
    IsWord-IsSetting key (commas n ms) letters starts few (commas-IsWord n ms)
      (omega (arith, length-commas n ms h))

-- The ranges of a valid configuration.
record FitsInts (c : FanCurveConfig) : Type 0 where
  interval_fits : c.interval_seconds < 2 ^ 32
  downshift_fits : c.downshift_delay_seconds < 2 ^ 32
  minimum_fits : c.minimum_pwm < 2 ^ 32
  failsafe_fits : c.failsafe_pwm < 2 ^ 32
  cpu_fits : FitsThresholds c.cpu
  pwm_fits : AreInts (c.pwm.idle ∷ c.pwm.mid ∷ c.pwm.full ∷ c.pwm.maximum ∷ [])

IsValid-FitsInts : (c : FanCurveConfig) → IsValid c → FitsInts c
IsValid-FitsInts c v = omega arith

settings-AreSettings : (c : FanCurveConfig) → IsValid c → IsCustom c → All IsSetting (settings c)
unfolding is_skipped are_letters
settings-AreSettings c v h =
    let f = IsValid-FitsInts c v in
    let rest = λ (t : CurveThresholds). t.start ∷ t.mid ∷ t.full ∷ t.maximum ∷ [] in
    (
      number-IsSetting (codes "interval_seconds") _ refl refl (omega arith) f.interval_fits,
      (
        number-IsSetting (codes "downshift_delay_seconds") _ refl refl (omega arith)
            f.downshift_fits,
        (
          number-IsSetting (codes "minimum_pwm") _ refl refl (omega arith) f.minimum_fits,
          (
            number-IsSetting (codes "failsafe_pwm") _ refl refl (omega arith) f.failsafe_fits,
            (
              switch-IsSetting (codes "require_storage_sensor") _ refl refl (omega arith),
              (
                switch-IsSetting (codes "allow_unvalidated_writes") _ refl refl (omega arith),
                (
                  switch-IsSetting (codes "hdd_curve_enabled") _ refl refl (omega arith),
                  (
                    switch-IsSetting (codes "ssd_curve_enabled") _ refl refl (omega arith),
                    (
                      list-IsSetting (codes "cpu") c.cpu.stop (rest c.cpu) refl refl (omega arith)
                          f.cpu_fits (omega arith),
                      (
                        list-IsSetting (codes "hdd") c.hdd.stop (rest c.hdd) refl refl (omega arith)
                            h.hdd_fits (omega arith),
                        (
                          list-IsSetting (codes "ssd") c.ssd.stop (rest c.ssd) refl refl
                              (omega arith) h.ssd_fits (omega arith),
                          (
                            list-IsSetting (codes "pwm") c.pwm.idle
                                (c.pwm.mid ∷ c.pwm.full ∷ c.pwm.maximum ∷ []) refl refl
                                (omega arith) f.pwm_fits (omega arith),
                            tt,
                          ),
                        ),
                      ),
                    ),
                  ),
                ),
              ),
            ),
          ),
        ),
      ),
    )

-- The settings in their order, on any configuration.
apply-settings :
    (base c : FanCurveConfig)
    → IsValid c
    → IsCustom c
    → apply base (settings c)
      ≡ ok (record base {
        interval_seconds = c.interval_seconds;
        downshift_delay_seconds = c.downshift_delay_seconds;
        minimum_pwm = c.minimum_pwm;
        failsafe_pwm = c.failsafe_pwm;
        require_storage_sensor = c.require_storage_sensor;
        allow_unvalidated_writes = c.allow_unvalidated_writes;
        hdd_curve_enabled = c.hdd_curve_enabled;
        ssd_curve_enabled = c.ssd_curve_enabled;
        cpu = c.cpu;
        hdd = c.hdd;
        ssd = c.ssd;
        pwm = c.pwm;
      })
unfolding set_value str_is
apply-settings base c v h =
    let f = IsValid-FitsInts c v in
    rw
      (
        parse_unsigned-decimal c.interval_seconds f.interval_fits,
        parse_unsigned-decimal c.downshift_delay_seconds f.downshift_fits,
        parse_unsigned-decimal c.minimum_pwm f.minimum_fits,
        parse_unsigned-decimal c.failsafe_pwm f.failsafe_fits,
        parse_boolean-text c.require_storage_sensor,
        parse_boolean-text c.allow_unvalidated_writes,
        parse_boolean-text c.hdd_curve_enabled,
        parse_boolean-text c.ssd_curve_enabled,
        parse_thresholds-text c.cpu f.cpu_fits,
        parse_thresholds-text c.hdd h.hdd_fits,
        parse_thresholds-text c.ssd h.ssd_fits,
        parse_pwm_points-text c.pwm f.pwm_fits,
      )
      refl

-- What the settings make of the defaults.
abbrev loaded : FanCurveConfig → FanCurveConfig
loaded c = record config_defaults {
  interval_seconds = c.interval_seconds;
  downshift_delay_seconds = c.downshift_delay_seconds;
  minimum_pwm = c.minimum_pwm;
  failsafe_pwm = c.failsafe_pwm;
  require_storage_sensor = c.require_storage_sensor;
  allow_unvalidated_writes = c.allow_unvalidated_writes;
  hdd_curve_enabled = c.hdd_curve_enabled;
  ssd_curve_enabled = c.ssd_curve_enabled;
  cpu = c.cpu;
  hdd = c.hdd;
  ssd = c.ssd;
  pwm = c.pwm;
}

complete-loaded : (c : FanCurveConfig) → IsCustom c → complete (loaded c) ≡ c
unfolding complete config_defaults str_is
complete-loaded c h = ground arith

finish-loaded : (c : FanCurveConfig) → IsValid c → IsCustom c → finish_config (loaded c) ≡ ok c
unfolding finish_config profile_is_valid config_defaults str_is
finish-loaded c v h =
    let valid : validate_config (some c) ≡ ok tt = (validate_config_iff c).1 v in
    rw (complete-loaded c h, valid) refl

-- A valid configuration of the profile `custom` that the file can state, one PWM curve for both
-- channels, no CPU floor, and temperatures of 32 bits, is loaded again exactly from the file that
-- has a line for each of its settings.
pub load_config-render :
    (c : FanCurveConfig)
    → IsValid c
    → IsCustom c
    → load_config (some (ok (render (settings c)))) ≡ ok c
unfolding load_config
load_config-render c v h =
    rw
      (
        read_lines-render (settings c) config_defaults (settings-AreSettings c v h),
        apply-settings config_defaults c v h,
      )
      (finish-loaded c v h)
