-- ===== src/Types/Laws.antt =====
-- What the packed representations of types.rs promise.
use async_usb_host.Prelude.{ℕ, ◌<◌, bit_and, bit_or, ◌≡◌, refl, ◌&&◌, not, some}
use async_usb_host.Prelude.{arith, ◌==◌, true, Bool, ◌≢◌, Option}
use async_usb_host.Prelude.Bits.{passes_under, passes_under-at}
use async_usb_host.Prelude.{false, ◌↔◌, sym, ap, ◌∙◌}
use async_usb_host.Types.{Pid, pid_code, pid_try_from}
use async_usb_host.Errors.{Outcome, ok}
use async_usb_host.Types.Port.{UsbSpeed, DevInfo, new_port, new_device, is_empty, parent_addr}

-- A 7-bit address has no valid flag, and setting the flag keeps the address.
packs : ℕ → Bool
packs a =
    (bit_and a 0x80 == 0)
    && (not (bit_and (bit_or 0x80 a) 0x80 == 0))
    && ((bit_and (bit_or 0x80 a) 0x7F == a) && (bit_and a 0x7F == a))

packs_table : passes_under packs 128 ≡ true
unfolding passes_under packs
packs_table = refl

pub packed :
    (a : ℕ)
    → a < 128
    → (bit_and a 0x80 ≡ 0)
      × (bit_and (bit_or 0x80 a) 0x80 ≢ 0)
      × (bit_and (bit_or 0x80 a) 0x7F ≡ a)
      × (bit_and a 0x7F ≡ a)
unfolding packs
packed a h = ground (arith, passes_under-at packs 128 a packs_table h)

-- A port without the flag is empty, whatever its address.
pub is_empty-new_port : (a port : ℕ) → a < 128 → is_empty (new_port a port) ≡ true
unfolding is_empty
is_empty-new_port a port h = ground (arith, packed a h)

pub parent_addr-new_port :
    (a port : ℕ) → a < 128 → parent_addr (new_port (bit_or 0x80 a) port) ≡ some a
unfolding parent_addr is_empty
parent_addr-new_port a port h = ground (arith, packed a h)

-- `DevInfo::new` of a hub's address.
pub new_device_lem :
    (a port : ℕ) (tt : Option (ℕ × ℕ)) (speed : UsbSpeed)
    → 0 < a
    → a < 128
    → new_device a port tt speed
      ≡ ok (record {
        port = new_port (bit_or 0x80 a) port;
        transaction_translator = tt;
        speed = speed;
      })
unfolding new_device
new_device_lem a port tt speed lo h = ground (arith, packed a h)

-- Where a device hangs, as the code packs it and reads it back.
abbrev pub HangsOn : ℕ → Outcome DevInfo → Type 0
HangsOn address o =
    (d : DevInfo) × (o ≡ ok d) × (is_empty d.port ≡ false) × (parent_addr d.port ≡ some address)

-- `DevInfo::new` of a hub's address, from 1 to 127, is a device on a valid port of that hub.
pub new_device-HangsOn :
    (a port : ℕ) (tt : Option (ℕ × ℕ)) (speed : UsbSpeed)
    → 0 < a
    → a < 128
    → HangsOn a (new_device a port tt speed)
unfolding is_empty
new_device-HangsOn a port tt speed lo hi = (
  record { port = new_port (bit_or 0x80 a) port; transaction_translator = tt; speed = speed },
  new_device_lem a port tt speed lo hi,
  ground (arith, packed a hi),
  parent_addr-new_port a port hi,
)

pid_try_from-code : (p : Pid) → pid_try_from (pid_code p) ≡ some p
unfolding pid_try_from pid_code
pid_try_from-code Pid.out_token = refl
pid_try_from-code Pid.in_token = refl
pid_try_from-code Pid.sof = refl
pid_try_from-code Pid.setup_token = refl
pid_try_from-code Pid.data0 = refl
pid_try_from-code Pid.data1 = refl
pid_try_from-code Pid.data2 = refl
pid_try_from-code Pid.mdata = refl
pid_try_from-code Pid.ack = refl
pid_try_from-code Pid.nak = refl
pid_try_from-code Pid.stall = refl
pid_try_from-code Pid.nyet = refl
pid_try_from-code Pid.split = refl
pid_try_from-code Pid.ping = refl
pid_try_from-code Pid.reserved = refl

pid_of_some : (v : ℕ) (p : Pid) → pid_try_from v ≡ some p → pid_code p ≡ v
unfolding pid_try_from pid_code
pid_of_some v p e = ground arith

-- A number is read as a packet id exactly when it is the code of that packet id.
pub pid_try_from_iff : (v : ℕ) (p : Pid) → (pid_try_from v ≡ some p) ↔ (pid_code p ≡ v)
pid_try_from_iff v p = (pid_of_some v p, λ e. ap pid_try_from (sym e) ∙ pid_try_from-code p)
