-- ===== src/Types/Port.antt =====
-- types.rs: where a device hangs. `PortInfo` packs a valid flag, the address of the parent hub (0
-- for the root) and the port on it; `DevInfo` adds the speed and the transaction translator.
use async_usb_host.Prelude.{ℕ, bit_and, bit_or, Bool, true, false, ◌&&◌, not, Option, none, some}
use async_usb_host.Prelude.{◌==◌, if◌then◌else◌}
use async_usb_host.Errors.{Outcome, ok, assert, ◌>>◌}

pub data UsbSpeed : Type 0 where
  low_speed full_speed high_speed : UsbSpeed

pub is_classic : UsbSpeed → Bool
is_classic low_speed = true
is_classic full_speed = true
is_classic high_speed = false

pub record PortInfo : Type 0 where
  pub valid_parent_addr : ℕ
  pub port_on_parent : ℕ

-- The derived `==`.
unfoldable pub eq_port : PortInfo → PortInfo → Bool
eq_port a b = a.valid_parent_addr == b.valid_parent_addr && a.port_on_parent == b.port_on_parent

abbrev pub invalid : PortInfo
invalid = record { valid_parent_addr = 0; port_on_parent = 0 }

-- `PortInfo::new`.
abbrev pub new_port : ℕ → ℕ → PortInfo
new_port valid_parent_addr port_on_parent = record {
  valid_parent_addr = valid_parent_addr;
  port_on_parent = port_on_parent;
}

unfoldable pub is_empty : PortInfo → Bool
is_empty p = bit_and p.valid_parent_addr 0x80 == 0

unfoldable pub parent_addr : PortInfo → Option ℕ
unfolding is_empty
parent_addr p = if is_empty p then none else some (bit_and p.valid_parent_addr 0x7F)

pub record DevInfo : Type 0 where
  pub port : PortInfo
  pub transaction_translator : Option (ℕ × ℕ)
  pub speed : UsbSpeed

pub empty : DevInfo
empty = record { port = invalid; transaction_translator = none; speed = low_speed }

unfoldable pub root_device : UsbSpeed → DevInfo
root_device speed = record { port = new_port 0x80 0; transaction_translator = none; speed = speed }

-- `DevInfo::new`.
unfoldable pub new_device : ℕ → ℕ → Option (ℕ × ℕ) → UsbSpeed → Outcome DevInfo
new_device addr port transaction_translator speed = do
  assert (not (bit_and addr 0x7F == 0))
  ok (record {
    port = new_port (bit_or 0x80 addr) port;
    transaction_translator = transaction_translator;
    speed = speed;
  })
