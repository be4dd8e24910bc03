-- ===== src/HubDriver.antt =====
-- driver/hub.rs: what the driver of a hub does when ports of the hub report a change. The ports are
-- those that the bits of the report name, as the crate bitvec yields them.
pub mod Setup
pub mod Polling
pub mod Resets
pub mod Quiet
pub mod Events
pub mod Tests
use async_usb_host.Prelude.{
  ℕ, ◌+◌, Bool, true, false, not, Option, none, some, List, [], ◌∷◌, length, get_or, ◌==◌,
  if◌then◌else◌,
}
use async_usb_host.Errors.{
  UsbHostError, buffer_overflow, Outcome, ok, err, panics, Result, done, failed,
}
use async_usb_host.Types.{DeviceHandle, InterruptChannel, u16_from_le_bytes}
use async_usb_host.Types.Port.{
  UsbSpeed, low_speed, full_speed, high_speed, PortInfo, DevInfo, new_port, new_device,
}
use async_usb_host.Request.{Request, class, to_other, get_status, set_feature, clear_feature}
use async_usb_host.Descriptor.Hub.{
  HubPortStatus, HubPortStatusChange, HubPortFeature, port_reset, change_connection, change_reset,
  feature_code, connected, in_reset, port_speed, connection_changed, reset_changed,
}
use async_usb_host.Pipe.Bus.{Async, ◌>>=◌, ◌>>◌, return, raise, crash, attempt}
use async_usb_host.Pipe.Control.{control_transfer, assert}

pub record Hub : Type 0 where
  pub handle : DeviceHandle
  pub interrupt_channel : InterruptChannel

pub data HubEvent : Type 0 where
  device_reset : HubEvent
  device_attach : DevInfo → HubEvent
  device_detach : PortInfo → HubEvent

-- `unwrap!` of a result.
abbrev pub unwrapped : {A : Type 0} → Result A → Async A
unwrapped (done a) = return a
unwrapped (failed e) = crash

unfoldable pub clear_port_feature : Hub → (port : ℕ) → HubPortFeature → Async (Unit {0})
clear_port_feature hub port feature =
    control_transfer hub.handle (clear_feature to_other class (feature_code feature) port 0) []
    >> return tt

unfoldable pub set_port_feature : Hub → (port : ℕ) → HubPortFeature → Async (Unit {0})
set_port_feature hub port feature =
    control_transfer hub.handle (set_feature to_other class (feature_code feature) port 0) []
    >> return tt

-- The error arms of `get_port_status`.
abbrev pub status_error : UsbHostError → Async (HubPortStatus × HubPortStatusChange)
status_error buffer_overflow = crash
status_error e = raise e

abbrev pub status_words : Result (List ℕ) → Async (HubPortStatus × HubPortStatusChange)
status_words (done buf) =
    assert (length buf == 4)
    >> return (
      record { bits = u16_from_le_bytes (get_or buf 0 0) (get_or buf 1 0) },
      record { bits = u16_from_le_bytes (get_or buf 2 0) (get_or buf 3 0) },
    )
status_words (failed e) = status_error e

unfoldable pub get_port_status : Hub → (port : ℕ) → Async (HubPortStatus × HubPortStatusChange)
get_port_status hub port =
    attempt (control_transfer hub.handle (get_status to_other class 0 port 4) (0 ∷ 0 ∷ 0 ∷ 0 ∷ []))
    >>= status_words

-- The arm of a change of the connection, by whether a device is connected and another one is being
-- enumerated.
abbrev pub on_connection :
    Hub → (port : ℕ) → (is_connected enumerating : Bool) → Async (Option HubEvent)
on_connection hub port true true = return none
on_connection hub port true false =
    clear_port_feature hub port change_connection
    >> (attempt (set_port_feature hub port port_reset) >>= unwrapped)
    >> return (some device_reset)
on_connection hub port false enumerating =
    clear_port_feature hub port change_connection
    >> return (some (device_detach (new_port hub.handle.address port)))

-- The transaction translator of a device on a port: the hub itself between two speeds, or else the
-- translator of the hub.
abbrev pub translator : Hub → (port : ℕ) → (hub_speed device_speed : UsbSpeed) → Option (ℕ × ℕ)
translator hub port high_speed full_speed = some (hub.handle.address, port)
translator hub port high_speed low_speed = some (hub.handle.address, port)
translator hub port _ _ = hub.handle.parent.transaction_translator

abbrev pub attached : Outcome DevInfo → Async (Option HubEvent)
attached (ok dev_info) = return (some (device_attach dev_info))
attached (err e) = crash
attached panics = crash

-- The arm of the end of a reset, by whether the port is still in reset.
abbrev pub on_reset :
    Hub → (port : ℕ) → (still_in_reset : Bool) → UsbSpeed → Async (Option HubEvent)
on_reset hub port still_in_reset speed =
    (attempt (clear_port_feature hub port change_reset) >>= unwrapped)
    >> (if still_in_reset
        then return none
        else attached (
            new_device hub.handle.address port (translator hub port hub.handle.parent.speed speed)
              speed))

-- The two arms one after the other, by what the status and the changes say.
abbrev pub unless_event : Option HubEvent → Async (Option HubEvent) → Async (Option HubEvent)
unless_event (some event) rest = return (some event)
unless_event none rest = rest

abbrev pub on_port :
    Hub
    → (port : ℕ) → (enumerating connection is_connected reset still_in_reset : Bool) → UsbSpeed
    → Async (Option HubEvent)
on_port hub port enumerating connection is_connected reset still_in_reset speed =
    (if connection then on_connection hub port is_connected enumerating else return none)
    >>= λ event.
        unless_event event (if reset then on_reset hub port still_in_reset speed else return none)

unfoldable pub on_status :
    Hub
    → (port : ℕ) → (enumerating : Bool) → HubPortStatus
    → HubPortStatusChange
    → Async (Option HubEvent)
on_status hub port enumerating status change =
    on_port hub port enumerating (connection_changed change) (connected status)
      (reset_changed change) (in_reset status) (port_speed status)

-- A port whose status cannot be read is passed over.
abbrev pub on_result :
    Hub
    → (port : ℕ) → (enumerating : Bool) → Result (HubPortStatus × HubPortStatusChange)
    → Async (Option HubEvent)
on_result hub port enumerating (done words) = on_status hub port enumerating words.0 words.1
on_result hub port enumerating (failed e) = return none

unfoldable pub on_status_change :
    Hub → (ports : List ℕ) → (enumerating : Bool) → Async (Option HubEvent)
on_status_change hub [] enumerating = return none
on_status_change hub (port ∷ ports) enumerating =
    let rest = on_status_change hub ports enumerating in
    if port == 0
    then rest
    else (attempt (get_port_status hub port) >>= on_result hub port enumerating >>= λ event.
        unless_event event rest)
