-- ===== src/Descriptor/Hub.antt =====
-- descriptor/hub.rs: the hub descriptor, and the status, the changes and the features of a port.
use async_usb_host.Prelude.{ℕ, ◌^◌, bit_and, Bool, not, ◌==◌, if◌then◌else◌, ◌≡◌}
use async_usb_host.Prelude.{Option, some, none, ◌≤◌, ◌-◌, arith}
use async_usb_host.Types.Port.{UsbSpeed, high_speed, low_speed, full_speed}

pub record HubDescriptor : Type 0 where
  pub length : ℕ
  pub descriptor_type : ℕ
  pub number_of_ports : ℕ
  pub hub_characteristics : ℕ
  pub power_on_to_power_good_time : ℕ
  pub hub_controller_current : ℕ

-- `HubPortStatus::from` a 16-bit word.
pub record HubPortStatus : Type 0 where
  pub bits : ℕ

unfoldable pub connected : HubPortStatus → Bool
connected s = not (bit_and s.bits 0x1 == 0)

unfoldable pub enabled : HubPortStatus → Bool
enabled s = not (bit_and s.bits 0x2 == 0)

unfoldable pub suspended : HubPortStatus → Bool
suspended s = not (bit_and s.bits 0x4 == 0)

unfoldable pub over_current : HubPortStatus → Bool
over_current s = not (bit_and s.bits 0x8 == 0)

unfoldable pub in_reset : HubPortStatus → Bool
in_reset s = not (bit_and s.bits 0x10 == 0)

unfoldable pub powered : HubPortStatus → Bool
powered s = not (bit_and s.bits 0x100 == 0)

unfoldable pub is_low_speed : HubPortStatus → Bool
is_low_speed s = not (bit_and s.bits 0x200 == 0)

unfoldable pub is_high_speed : HubPortStatus → Bool
is_high_speed s = not (bit_and s.bits 0x400 == 0)

unfoldable pub port_speed : HubPortStatus → UsbSpeed
port_speed s =
    if is_high_speed s then high_speed else if is_low_speed s then low_speed else full_speed

unfoldable pub test_mode : HubPortStatus → Bool
test_mode s = not (bit_and s.bits 0x800 == 0)

unfoldable pub has_indicator : HubPortStatus → Bool
has_indicator s = not (bit_and s.bits 0x1000 == 0)

pub record HubPortStatusChange : Type 0 where
  pub bits : ℕ

unfoldable pub connection_changed : HubPortStatusChange → Bool
connection_changed c = not (bit_and c.bits 0x1 == 0)

unfoldable pub enable_changed : HubPortStatusChange → Bool
enable_changed c = not (bit_and c.bits 0x2 == 0)

unfoldable pub suspend_changed : HubPortStatusChange → Bool
suspend_changed c = not (bit_and c.bits 0x4 == 0)

unfoldable pub over_current_changed : HubPortStatusChange → Bool
over_current_changed c = not (bit_and c.bits 0x8 == 0)

unfoldable pub reset_changed : HubPortStatusChange → Bool
reset_changed c = not (bit_and c.bits 0x10 == 0)

pub data HubPortFeature : Type 0 where
  port_connect port_enable port_suspend port_over_current port_reset : HubPortFeature
  port_power port_low_speed : HubPortFeature
  change_connection change_enable change_suspend change_over_current change_reset : HubPortFeature
  port_test port_indicator : HubPortFeature

-- `feature as u8`.
unfoldable pub feature_code : HubPortFeature → ℕ
feature_code port_connect = 0
feature_code port_enable = 1
feature_code port_suspend = 2
feature_code port_over_current = 3
feature_code port_reset = 4
feature_code port_power = 8
feature_code port_low_speed = 9
feature_code change_connection = 16
feature_code change_enable = 17
feature_code change_suspend = 18
feature_code change_over_current = 19
feature_code change_reset = 20
feature_code port_test = 21
feature_code port_indicator = 22

-- What a status says of a feature.
abbrev pub status_test : HubPortFeature → HubPortStatus → Option Bool
status_test port_connect s = some (connected s)
status_test port_enable s = some (enabled s)
status_test port_suspend s = some (suspended s)
status_test port_over_current s = some (over_current s)
status_test port_reset s = some (in_reset s)
status_test port_power s = some (powered s)
status_test port_low_speed s = some (is_low_speed s)
status_test _ s = none

-- What the changes say of a change feature, which clears what they say.
abbrev pub change_test : HubPortFeature → HubPortStatusChange → Option Bool
change_test change_connection c = some (connection_changed c)
change_test change_enable c = some (enable_changed c)
change_test change_suspend c = some (suspend_changed c)
change_test change_over_current c = some (over_current_changed c)
change_test change_reset c = some (reset_changed c)
change_test _ c = none

abbrev pub has_bit : ℕ → ℕ → Bool
has_bit word bit = not (bit_and word (2 ^ bit) == 0)

-- What the two tests of a feature read in a word.
abbrev pub FeatureBits : HubPortFeature → ℕ → Type 0
FeatureBits f word =
    ((b : Bool)
      → status_test f (record { bits = word }) ≡ some b
      → b ≡ has_bit word (feature_code f))
    × ((b : Bool)
        → change_test f (record { bits = word }) ≡ some b
        → (16 ≤ feature_code f) × (b ≡ has_bit word (feature_code f - 16)))

-- The test of a feature in the status reads the bit of the feature's number, and the test in the
-- changes reads the bit of that number less 16.
pub feature_bits : (f : HubPortFeature) (word : ℕ) → FeatureBits f word
unfolding feature_code connected enabled suspended over_current in_reset powered is_low_speed
    connection_changed enable_changed suspend_changed over_current_changed reset_changed
feature_bits port_connect word = (λ b e. cc, λ b e. cc)
feature_bits port_enable word = (λ b e. cc, λ b e. cc)
feature_bits port_suspend word = (λ b e. cc, λ b e. cc)
feature_bits port_over_current word = (λ b e. cc, λ b e. cc)
feature_bits port_reset word = (λ b e. cc, λ b e. cc)
feature_bits port_power word = (λ b e. cc, λ b e. cc)
feature_bits port_low_speed word = (λ b e. cc, λ b e. cc)
feature_bits change_connection word = (λ b e. cc, λ b e. (omega arith, cc))
feature_bits change_enable word = (λ b e. cc, λ b e. (omega arith, cc))
feature_bits change_suspend word = (λ b e. cc, λ b e. (omega arith, cc))
feature_bits change_over_current word = (λ b e. cc, λ b e. (omega arith, cc))
feature_bits change_reset word = (λ b e. cc, λ b e. (omega arith, cc))
feature_bits port_test word = (λ b e. cc, λ b e. cc)
feature_bits port_indicator word = (λ b e. cc, λ b e. cc)
