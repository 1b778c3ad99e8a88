-- ===== src/Examples/Wake.antt =====
-- The theorems about the alarm at files that hold an alarm and a clock.
use ugreen_nas_hardware.Prelude.{
  ℕ, ◌+◌, ◌%◌, ◌≡◌, ◌<◌, refl, [], ◌∷◌, ◌++◌, Option, some, if◌then◌else◌, length, Bytes, codes,
  bytes_eq, Result, ok,
}
use ugreen_nas_hardware.Prelude.Scan.{until_nul}
use ugreen_nas_hardware.Prelude.Decimal.{decimal}
use ugreen_nas_hardware.Identity.{MachineIdentity}
use ugreen_nas_hardware.Wake.{World, update_selected, rtc_wake_set, clock_differs}
use ugreen_nas_hardware.Wake.Parse.{wake_parse}
use ugreen_nas_hardware.Wake.Laws.{
  UpdateEnds, Confirmed, update_selected-UpdateEnds, rtc_wake_set-Confirmed,
}

abbrev alarm_path : Bytes
alarm_path = codes "/sys/class/rtc/rtc0/wakealarm"

-- The text of the alarm; the clock stands at 1000.
unfoldable read_file : Bytes → Bytes → Result Bytes × Bytes
read_file path alarm = (ok (if bytes_eq path alarm_path then alarm else codes "1000"), alarm)

-- Writing 0 clears the alarm.
unfoldable write_file : Bytes → Bytes → Bytes → Result ℕ × Bytes
write_file path value alarm =
    (ok (length value), if bytes_eq value (codes "0") then [] else value ++ 10 ∷ [])

abbrev world : World Bytes
world = record { files = codes "900"; writes = [] }

update_selected-UpdateEnds_example :
    UpdateEnds read_file write_file alarm_path 2000 []
      (update_selected read_file write_file alarm_path (some 1002) 2000 world)
update_selected-UpdateEnds_example =
    update_selected-UpdateEnds read_file write_file alarm_path (some 1002) 2000 world

sets :
    (rtc_wake_set read_file write_file
      (some 1)
      (ok alarm_path)
      (some 1001)
      (some 1002)
      2000
      world).0
    ≡ ok tt
unfolding rtc_wake_set read_file write_file bytes_eq wake_parse until_nul clock_differs decimal
sets = refl

rtc_wake_set-Confirmed_example :
    (1001 + 60 < 2000)
    × (2000 % 1 ≡ 0)
    × Confirmed read_file write_file alarm_path 2000
        (rtc_wake_set read_file write_file
          (some 1)
          (ok alarm_path)
          (some 1001)
          (some 1002)
          2000
          world).1
rtc_wake_set-Confirmed_example =
    rtc_wake_set-Confirmed read_file write_file 1 1001 2000 alarm_path (some 1002) world sets

abbrev machine : Option MachineIdentity
machine =
    some (record { source = codes "dmi"; product_name = codes "DXP4800 Plus"; compatible = [] })
