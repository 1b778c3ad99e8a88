-- ===== src/Fan/Maps/Laws.antt =====
-- The tables of the two ways drive the same fans.
pub mod Release
use ugreen_nas_hardware.Prelude.{
  ℕ, ◌≡◌, ◌≢◌, ◌⊎◌, inl, inr, refl, arith, subst, Bool, true, false, not, ◌&&◌, List, [], ◌∷◌,
  Option, none, some, String, if◌then◌else◌, Bytes, Bool-cases, All, Result, ok, err, eperm, einval,
  str_is,
}
use ugreen_nas_hardware.Fan.Direct.{DirectChannel}
use ugreen_nas_hardware.Fan.Hwmon.{HwmonChannel}
use ugreen_nas_hardware.Fan.Maps.Tables.{
  hwmon_channel, direct_channel, Wires, FanMap, it8613_map, it8613_target, it8613_cpu, it8613_sys,
  dx4600_map, dx4600_target, dx4600_status, dxp4800_map, dxp4800_target, dxp4800_status,
  dxp4800s_map, dxp4800s_target, dxp4800s_status, dxp480t_map, dxp480t_target, dxp480t_all,
  dxp480t_cpu, dxp6800_map, dxp6800_target, dxp6800_cpu, dxp6800_sys, dxp6800plus_map,
  dxp6800plus_target, dxp6800plus_cpu, dxp6800plus_sys, dxp6800pro_map, dxp6800pro_target,
  dxp6800pro_cpu, dxp6800pro_sys,
}

-- The Linux driver it87 numbers the outputs of the chip: output `n` has this control register, this
-- duty register and these tachometer registers.
abbrev pub IsOutput : ℕ → DirectChannel → Type 0
IsOutput n d =
    ((n ≡ 2)
      × (d.control_register ≡ 0x16)
      × (d.duty_register ≡ 0x6b)
      × (d.tachometer_low_register ≡ 0x0e)
      × (d.tachometer_high_register ≡ 0x19))
    ⊎ ((n ≡ 3)
        × (d.control_register ≡ 0x17)
        × (d.duty_register ≡ 0x73)
        × (d.tachometer_low_register ≡ 0x0f)
        × (d.tachometer_high_register ≡ 0x1a))
    ⊎ ((n ≡ 4)
        × (d.control_register ≡ 0x1e)
        × (d.duty_register ≡ 0x7b)
        × (d.tachometer_low_register ≡ 0x80)
        × (d.tachometer_high_register ≡ 0x81))

-- The two ways name and drive the same fan.
abbrev pub IsSame : HwmonChannel → DirectChannel → Type 0
IsSame h d =
    (h.id ≡ d.id) × (h.pwm_index ≡ h.fan_index) × IsOutput h.pwm_index d × (d.pwm_supported ≡ true)

-- The same fans in the same order.
abbrev pub AreSame : List HwmonChannel → List DirectChannel → Type 0
AreSame [] [] = Unit
AreSame (h ∷ hs) (d ∷ ds) = IsSame h d × AreSame hs ds
AreSame _ _ = ⊥

output_2 : (id : String) → IsSame (hwmon_channel id 2 2) (direct_channel id 0x16 0x6b 0x0e 0x19)
output_2 id = (refl, refl, omega arith, refl)

output_3 : (id : String) → IsSame (hwmon_channel id 3 3) (direct_channel id 0x17 0x73 0x0f 0x1a)
output_3 id = (refl, refl, omega arith, refl)

output_4 : (id : String) → IsSame (hwmon_channel id 4 4) (direct_channel id 0x1e 0x7b 0x80 0x81)
output_4 id = (refl, refl, omega arith, refl)

-- A map whose reading and whose targets are the same fans on both ways.
pub record IsConsistent (map : FanMap) : Type 0 where
  pub reads : AreSame map.status.hwmon map.status.direct
  pub sets :
      (fan_id : Bytes) (wires : Wires)
      → map.target fan_id ≡ some wires
      → AreSame wires.hwmon wires.direct

-- A table that is same on both ways stays so under a choice of two.
chosen :
    (test : Bool) (wires : Wires) (other : Option Wires)
    → AreSame wires.hwmon wires.direct
    → ((w : Wires) → other ≡ some w → AreSame w.hwmon w.direct)
    → (w : Wires) → (if test then some wires else other) ≡ some w
    → AreSame w.hwmon w.direct
chosen true wires other h k w e = subst (λ o. AreSame (of o).hwmon (of o).direct) e h
  where
    of : Option Wires → Wires
    of none = w
    of (some v) = v
chosen false wires other h k w e = k w e

nothing : (w : Wires) → none ≡ some w → AreSame w.hwmon w.direct
nothing w e = cc

it8613_map-IsConsistent : IsConsistent it8613_map
unfolding it8613_map it8613_target
it8613_map-IsConsistent = record {
  reads = (output_2 "cpu", (output_3 "sys", tt));
  sets = λ fan_id.
      chosen (str_is fan_id "cpu") it8613_cpu _ (output_2 "cpu", tt)
        (chosen (str_is fan_id "sys") it8613_sys none (output_3 "sys", tt) nothing);
}

dx4600_map-IsConsistent : IsConsistent dx4600_map
unfolding dx4600_map dx4600_target
dx4600_map-IsConsistent = record {
  reads = (output_3 "sys", tt);
  sets = λ fan_id. chosen (str_is fan_id "sys") dx4600_status none (output_3 "sys", tt) nothing;
}

dxp4800_map-IsConsistent : IsConsistent dxp4800_map
unfolding dxp4800_map dxp4800_target
dxp4800_map-IsConsistent = record {
  reads = (output_3 "sys", tt);
  sets = λ fan_id. chosen (str_is fan_id "sys") dxp4800_status none (output_3 "sys", tt) nothing;
}

dxp4800s_map-IsConsistent : IsConsistent dxp4800s_map
unfolding dxp4800s_map dxp4800s_target
dxp4800s_map-IsConsistent = record {
  reads = (output_3 "sys", tt);
  sets = λ fan_id. chosen (str_is fan_id "sys") dxp4800s_status none (output_3 "sys", tt) nothing;
}

dxp480t_map-IsConsistent : IsConsistent dxp480t_map
unfolding dxp480t_map dxp480t_target
dxp480t_map-IsConsistent = record {
  reads = (output_3 "cpu", (output_2 "sys1", (output_4 "sys2", tt)));
  sets = λ fan_id.
      chosen (str_is fan_id "cpu") dxp480t_cpu _ (output_3 "cpu", tt)
        (chosen (str_is fan_id "all") dxp480t_all none (output_2 "sys1", (output_4 "sys2", tt))
          nothing);
}

dxp6800_map-IsConsistent : IsConsistent dxp6800_map
unfolding dxp6800_map dxp6800_target
dxp6800_map-IsConsistent = record {
  reads = (output_2 "cpu", (output_3 "sys1", (output_4 "sys2", tt)));
  sets = λ fan_id.
      chosen (str_is fan_id "cpu") dxp6800_cpu _ (output_2 "cpu", tt)
        (chosen (str_is fan_id "sys") dxp6800_sys none (output_3 "sys1", (output_4 "sys2", tt))
          nothing);
}

dxp6800plus_map-IsConsistent : IsConsistent dxp6800plus_map
unfolding dxp6800plus_map dxp6800plus_target
dxp6800plus_map-IsConsistent = record {
  reads = (output_2 "cpu", (output_3 "sys1", (output_4 "sys2", tt)));
  sets = λ fan_id.
      chosen (str_is fan_id "cpu") dxp6800plus_cpu _ (output_2 "cpu", tt)
        (chosen (str_is fan_id "sys") dxp6800plus_sys none (output_3 "sys1", (output_4 "sys2", tt))
          nothing);
}

dxp6800pro_map-IsConsistent : IsConsistent dxp6800pro_map
unfolding dxp6800pro_map dxp6800pro_target
dxp6800pro_map-IsConsistent = record {
  reads = (output_2 "cpu", (output_3 "sys1", (output_4 "sys2", tt)));
  sets = λ fan_id.
      chosen (str_is fan_id "cpu") dxp6800pro_cpu _ (output_2 "cpu", tt)
        (chosen (str_is fan_id "sys") dxp6800pro_sys none (output_3 "sys1", (output_4 "sys2", tt))
          nothing);
}

abbrev pub fan_maps : List FanMap
fan_maps =
    it8613_map ∷ dx4600_map ∷ dxp4800_map ∷ dxp4800s_map ∷ dxp480t_map ∷ dxp6800_map
    ∷ dxp6800plus_map ∷ dxp6800pro_map ∷ []

-- In the map of every model, what is read and what each name of a fan selects are the same fans on
-- both ways and in the same order: the same names, and for each output of the driver the control, duty
-- and tachometer registers that belong to it.
pub fan_maps-AreConsistent : All IsConsistent fan_maps
fan_maps-AreConsistent = (
  it8613_map-IsConsistent,
  (
    dx4600_map-IsConsistent,
    (
      dxp4800_map-IsConsistent,
      (
        dxp4800s_map-IsConsistent,
        (
          dxp480t_map-IsConsistent,
          (
            dxp6800_map-IsConsistent,
            (dxp6800plus_map-IsConsistent, (dxp6800pro_map-IsConsistent, tt)),
          ),
        ),
      ),
    ),
  ),
)
