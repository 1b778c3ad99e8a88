-- ===== src/Led/Profiles/Table.antt =====
-- The lamps and the profiles of models/led_profiles.c, with its macros as functions.
use ugreen_nas_hardware.Prelude.{
  ℕ, ◌+◌, ◌^◌, true, false, List, [], ◌∷◌, ◌++◌, Option, none, some, Bytes, String, codes,
}
use ugreen_nas_hardware.Led.Types.{LedDescriptor, LedProfile}

-- UGREENCTL_LED_COLOR_BIT
abbrev pub color_bit : ℕ → ℕ
color_bit color = 2 ^ color

abbrev pub n76_colors : ℕ
n76_colors = color_bit 1 + color_bit 2 + color_bit 3

-- The second color is orange, 2, or red, 4.
abbrev pub gpio_colors : ℕ → ℕ
gpio_colors second = color_bit 1 + color_bit second + color_bit 7 + color_bit 8

abbrev pub rgb_led : String → ℕ → ℕ → String → LedDescriptor
rgb_led name id bay sysfs_name = record {
  name = codes name;
  id = id;
  bay = bay;
  sysfs_name = codes sysfs_name;
  rgb = true;
  mode_mask = 15;
  max_brightness = 255;
  color_mask = 0;
  min_on_ms = 0;
  min_off_ms = 0;
  min_brightness = 0;
  min_breath_on_ms = 0;
  min_breath_off_ms = 0;
  max_cycle_ms = 0;
  timing_quantum_ms = 0;
}

abbrev pub common_rgb : List LedDescriptor
common_rgb = rgb_led "power" 0 0 "power" ∷ rgb_led "netdev" 1 0 "network_stat" ∷ []

-- `DISK_RGB(n, i)`, with the text "disk" #n.
abbrev pub disk_rgb : String → ℕ → ℕ → LedDescriptor
disk_rgb name n id = rgb_led name id n name

abbrev pub n76_led : String → ℕ → ℕ → LedDescriptor
n76_led name id bay = record {
  name = codes name;
  id = id;
  bay = bay;
  sysfs_name = codes name;
  rgb = false;
  mode_mask = 7;
  max_brightness = 254;
  color_mask = n76_colors;
  min_on_ms = 20;
  min_off_ms = 20;
  min_brightness = 2;
  min_breath_on_ms = 0;
  min_breath_off_ms = 0;
  max_cycle_ms = 0;
  timing_quantum_ms = 0;
}

abbrev pub dh2600_led : String → ℕ → ℕ → LedDescriptor
dh2600_led name id bay = record {
  name = codes name;
  id = id;
  bay = bay;
  sysfs_name = codes name;
  rgb = false;
  mode_mask = 7;
  max_brightness = 1;
  color_mask = n76_colors;
  min_on_ms = 20;
  min_off_ms = 20;
  min_brightness = 0;
  min_breath_on_ms = 0;
  min_breath_off_ms = 0;
  max_cycle_ms = 0;
  timing_quantum_ms = 0;
}

abbrev pub gpio_led : String → ℕ → ℕ → String → ℕ → LedDescriptor
gpio_led name id bay sysfs_name second = record {
  name = codes name;
  id = id;
  bay = bay;
  sysfs_name = codes sysfs_name;
  rgb = false;
  mode_mask = 3;
  max_brightness = 1;
  color_mask = gpio_colors second;
  min_on_ms = 0;
  min_off_ms = 0;
  min_brightness = 0;
  min_breath_on_ms = 0;
  min_breath_off_ms = 0;
  max_cycle_ms = 0;
  timing_quantum_ms = 0;
}

abbrev pub cs201x_led : String → ℕ → ℕ → String → LedDescriptor
cs201x_led name id bay sysfs_name = record {
  name = codes name;
  id = id;
  bay = bay;
  sysfs_name = codes sysfs_name;
  rgb = true;
  mode_mask = 15;
  max_brightness = 255;
  color_mask = 0;
  min_on_ms = 100;
  min_off_ms = 100;
  min_brightness = 0;
  min_breath_on_ms = 1000;
  min_breath_off_ms = 500;
  max_cycle_ms = 12750;
  timing_quantum_ms = 50;
}

abbrev pub rgb2 : List LedDescriptor
rgb2 = common_rgb ++ disk_rgb "disk1" 1 2 ∷ disk_rgb "disk2" 2 3 ∷ []

abbrev pub rgb4 : List LedDescriptor
rgb4 =
    common_rgb
    ++ disk_rgb "disk1" 1 2
      ∷ disk_rgb "disk2" 2 3
      ∷ disk_rgb "disk3" 3 4
      ∷ disk_rgb "disk4" 4 5
      ∷ []

abbrev pub rgb6 : List LedDescriptor
rgb6 =
    common_rgb
    ++ disk_rgb "disk1" 1 2
      ∷ disk_rgb "disk2" 2 3
      ∷ disk_rgb "disk3" 3 4
      ∷ disk_rgb "disk4" 4 5
      ∷ disk_rgb "disk5" 5 6
      ∷ disk_rgb "disk6" 6 7
      ∷ []

abbrev pub rgb8 : List LedDescriptor
rgb8 =
    common_rgb
    ++ disk_rgb "disk1" 1 2
      ∷ disk_rgb "disk2" 2 3
      ∷ disk_rgb "disk3" 3 4
      ∷ disk_rgb "disk4" 4 5
      ∷ disk_rgb "disk5" 5 6
      ∷ disk_rgb "disk6" 6 7
      ∷ disk_rgb "disk7" 7 8
      ∷ disk_rgb "disk8" 8 9
      ∷ []

-- A second network lamp has the number 2 here.
abbrev pub idx6 : List LedDescriptor
idx6 =
    common_rgb
    ++ rgb_led "netdev2" 2 0 "network_stat2"
      ∷ disk_rgb "disk1" 1 3
      ∷ disk_rgb "disk2" 2 4
      ∷ disk_rgb "disk3" 3 5
      ∷ disk_rgb "disk4" 4 6
      ∷ disk_rgb "disk5" 5 7
      ∷ disk_rgb "disk6" 6 8
      ∷ []

abbrev pub n76_power : List LedDescriptor
n76_power = n76_led "power" 0 0 ∷ []

abbrev pub n76_dh2600 : List LedDescriptor
n76_dh2600 = dh2600_led "power" 0 0 ∷ dh2600_led "disk1" 1 1 ∷ dh2600_led "disk2" 2 2 ∷ []

abbrev pub gpio2 : List LedDescriptor
gpio2 =
    gpio_led "power" 0 0 "power" 2
    ∷ gpio_led "netdev" 1 0 "network_stat" 2
    ∷ gpio_led "disk1" 2 1 "disk1" 2
    ∷ gpio_led "disk2" 3 2 "disk2" 2
    ∷ []

abbrev pub gpio4 : List LedDescriptor
gpio4 =
    gpio_led "power" 0 0 "power" 4
    ∷ gpio_led "netdev" 1 0 "network_stat" 4
    ∷ gpio_led "disk1" 2 1 "disk1" 4
    ∷ gpio_led "disk2" 3 2 "disk2" 4
    ∷ gpio_led "disk3" 4 3 "disk3" 4
    ∷ gpio_led "disk4" 5 4 "disk4" 4
    ∷ []

abbrev pub cs201x2 : List LedDescriptor
cs201x2 =
    cs201x_led "power" 0 0 "power"
    ∷ cs201x_led "netdev" 1 0 "network_stat"
    ∷ cs201x_led "disk1" 2 1 "disk1"
    ∷ cs201x_led "disk2" 3 2 "disk2"
    ∷ []

-- Fields that an initialiser does not name are zero.
abbrev pub empty_profile : LedProfile
empty_profile = record {
  profile_id = none;
  product_name = none;
  product_version = none;
  protocol = none;
  disk_count = 0;
  experimental = false;
  leds = [];
  bus_prefix = none;
  i2c_address = 0;
  expected_chip_id = 0;
  chip_register = 0;
  chip_read = 0;
  sysfs_driver = none;
  dt_compatible = none;
}

abbrev pub mcu_profile :
    String → String → Option Bytes → String → ℕ → List LedDescriptor → String → LedProfile
mcu_profile key model revision proto bays layout bus = record empty_profile {
  profile_id = some (codes key);
  product_name = some (codes model);
  product_version = revision;
  protocol = some (codes proto);
  disk_count = bays;
  experimental = true;
  leds = layout;
  bus_prefix = some (codes bus);
  i2c_address = 0x3a;
  expected_chip_id = 0xc5b2;
  chip_register = 0x5a;
}

abbrev pub legacy : String → String → ℕ → List LedDescriptor → LedProfile
legacy key model bays layout =
    mcu_profile key model none "legacy-i2c-block" bays layout "SMBus I801 adapter"

-- UGREENCTL_LED_CHIP_DRIVER_PROBE
abbrev pub chip_driver_probe : ℕ
chip_driver_probe = 2

abbrev pub n76_profile : String → String → ℕ → List LedDescriptor → String → LedProfile
n76_profile key model bays layout driver = record empty_profile {
  profile_id = some (codes key);
  product_name = some (codes model);
  protocol = some (codes "sysfs-n76");
  disk_count = bays;
  experimental = true;
  leds = layout;
  expected_chip_id = 0xa5b5;
  chip_register = 0x5a;
  chip_read = chip_driver_probe;
  sysfs_driver = some (codes driver);
}

abbrev pub gpio_profile : String → String → ℕ → List LedDescriptor → String → LedProfile
gpio_profile key model bays layout compat = record empty_profile {
  profile_id = some (codes key);
  product_name = some (codes model);
  protocol = some (codes "sysfs-gpio");
  disk_count = bays;
  experimental = true;
  leds = layout;
  chip_read = chip_driver_probe;
  sysfs_driver = some (codes "ug_gpio_leds");
  dt_compatible = some (codes compat);
}

-- The entry that stands without a macro.
abbrev pub dxp2800gt : LedProfile
dxp2800gt = record empty_profile {
  profile_id = some (codes "dxp2800gt-cs201x");
  product_name = some (codes "DXP2800 GT");
  protocol = some (codes "cs201x-sio");
  disk_count = 2;
  experimental = true;
  leds = cs201x2;
  expected_chip_id = 0x2011;
}

abbrev pub led_profiles : List LedProfile
led_profiles =
    legacy "dx4600-legacy" "DX4600" 4 rgb4
    ∷ legacy "dx4600plus-legacy" "DX4600+" 4 rgb4
    ∷ legacy "dx4600pro-legacy" "DX4600 Pro" 4 rgb4
    ∷ legacy "dx4700-legacy" "DX4700" 4 rgb4
    ∷ legacy "dx4700plus-legacy" "DX4700+" 4 rgb4
    ∷ mcu_profile "dxp2800-em-legacy" "DXP2800" (some (codes "EM_DXP2800_V1.0.24"))
        "legacy-i2c-block" 2 rgb2 "SMBus I801 adapter"
    ∷ mcu_profile "dxp2800-v12-block" "DXP2800" (some (codes "DXP2800 V1.2 251215"))
        "smbus-block-le" 2 rgb2 "SMBus I801 adapter"
    ∷ dxp2800gt
    ∷ legacy "dxp4800-legacy" "DXP4800" 4 rgb4
    ∷ legacy "dxp4800s-legacy" "DXP4800S" 4 rgb4
    ∷ legacy "dxp4800plus-legacy" "DXP4800 Plus" 4 rgb4
    ∷ legacy "dxp4800pro-legacy" "DXP4800 Pro" 4 rgb4
    ∷ mcu_profile "dxp4800gt-block" "DXP4800 GT" none "smbus-block-be" 4 rgb4 "SMBus PIIX4 adapter"
    ∷ mcu_profile "dxp6800-block" "DXP6800" none "smbus-block-be" 6 rgb6 "SMBus I801 adapter"
    ∷ legacy "dxp6800plus-legacy" "DXP6800 Plus" 6 rgb6
    ∷ legacy "dxp6800pro-legacy" "DXP6800 Pro" 6 rgb6
    ∷ legacy "dxp6800ultra-legacy" "DXP6800 Ultra" 6 rgb6
    ∷ legacy "dxp8800-legacy" "DXP8800" 8 rgb8
    ∷ legacy "dxp8800plus-legacy" "DXP8800 Plus" 8 rgb8
    ∷ legacy "dxp8800pro-legacy" "DXP8800 Pro" 8 rgb8
    ∷ legacy "dxp8800ultra-legacy" "DXP8800 Ultra" 8 rgb8
    ∷ mcu_profile "idx6011pro-block" "iDX6011 Pro" none "smbus-block-be" 6 idx6 "SMBus I801 adapter"
    ∷ n76_profile "dxp480t-n76" "DXP480T Plus" 0 n76_power "leds_mcu_n76e003"
    ∷ n76_profile "dh2600-n76" "DH2600" 2 n76_dh2600 "leds_mcu_n76e003_dh2600"
    ∷ gpio_profile "dh2300-gpio" "DH2300" 2 gpio2 "rockchip,rk3576"
    ∷ gpio_profile "dh4300plus-gpio" "DH4300 Plus" 4 gpio4 "rockchip,rk3588"
    ∷ []
