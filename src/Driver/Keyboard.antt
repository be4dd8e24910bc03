-- ===== src/Driver/Keyboard.antt =====
-- driver/kbd.rs: the driver of a keyboard. `process_keyboard_report`, which only logs, is the list of
-- the reports that it is called with.
pub mod Attach
pub mod Reports
mod Tests
use async_usb_host.Prelude.{
  ℕ, zero, suc, bit_and, Bool, true, false, not, ◌&&◌, Option, none, some, List, [], ◌∷◌, ◌++◌,
  length, take, drop, replicate, ltb, ◌==◌, if◌then◌else◌,
}
use async_usb_host.Errors.{UsbHostError, invalid_state, unexpected_device, invalid_response}
use async_usb_host.Types.{
  DeviceHandle, InterruptChannel, EndpointDirection, in_endpoint, out_endpoint, tog0,
}
use async_usb_host.Request.{
  Request, class, to_interface, host_to_device, default_type, set_type, set_recipient,
  set_data_direction, set_configuration,
}
use async_usb_host.Descriptor.{
  Descriptor, device, configuration, interface, endpoint, unknown_descriptor, DeviceDescriptor,
}
use async_usb_host.Pipe.Bus.{
  Bus, Status, returned, raised, crashed, elapsed, waiting, starved, Async, ◌>>=◌, ◌>>◌, return,
  raise, crash, is_nak,
}
use async_usb_host.Pipe.Control.{control_transfer, interrupt_transfer}
use async_usb_host.Driver.{read_configuration}
use async_usb_host.Driver.Items.{for_items}

pub record HidKbd : Type 0 where
  pub device_handle : DeviceHandle
  pub interrupt_channel : Option InterruptChannel

-- `(address & 0x80) != 0`, of an endpoint to the host.
abbrev pub is_in : (address : ℕ) → Bool
is_in address = not (bit_and address 0x80 == 0)

-- The arms of the loop over the descriptors, which look for the endpoint. An interface and a HID
-- descriptor are only logged.
abbrev pub visit_kbd : DeviceHandle → Option ℕ → Descriptor → Async (Option ℕ)
visit_kbd handle found (configuration c) =
    control_transfer handle (set_configuration c.value) [] >> return found
visit_kbd handle none (endpoint e) =
    return (if is_in e.b_endpoint_address then some e.b_endpoint_address else none)
visit_kbd handle (some address) (endpoint e) = return (some address)
visit_kbd handle found (interface i) = return found
visit_kbd handle found (unknown_descriptor t l bytes) = return found
visit_kbd handle found (device d) = crash

-- The request that ends the repetition of reports.
unfoldable pub set_idle_request : Request
set_idle_request = record {
  request_type =
      set_recipient to_interface (set_type class (set_data_direction host_to_device default_type));
  request = 0x0A;
  value = 0;
  index = 0;
  length = 0;
}

abbrev pub keyboard_channel : DeviceHandle → (address : ℕ) → InterruptChannel
keyboard_channel handle address = record {
  device_handle = handle;
  endpoint_address = record {
    number = bit_and address 0x0F;
    direction = if is_in address then in_endpoint else out_endpoint;
  };
  tog = tog0;
}

-- The end of `configure`.
abbrev pub configured : DeviceHandle → Option ℕ → Async HidKbd
configured handle (some address) =
    return (record {
      device_handle = handle;
      interrupt_channel = some (keyboard_channel handle address);
    })
configured handle none = raise invalid_response

-- `configure`.
unfoldable pub configure_kbd : DeviceHandle → Async HidKbd
configure_kbd handle = do
  iter ← read_configuration handle 255
  found ← for_items (visit_kbd handle) iter none
  control_transfer handle set_idle_request []
  configured handle found

-- `HidKbd::try_attach`.
unfoldable pub try_attach_kbd : DeviceHandle → DeviceDescriptor → Async HidKbd
try_attach_kbd handle desc =
    if desc.device_class == 0 then configure_kbd handle else raise unexpected_device

-- The variables of the loop of `run`, and the reports processed so far.
pub record Listening : Type 0 where
  pub channel : InterruptChannel
  pub prev_report : List ℕ
  pub buf : List ℕ
  pub processed : List (List ℕ)

abbrev pub processing : Bool → InterruptChannel → (buf : List ℕ) → Listening → Listening
processing true c buf s = record {
  channel = c;
  prev_report = buf;
  buf = buf;
  processed = s.processed ++ (buf ∷ []);
}
processing false c buf s = record s { channel = c; buf = buf }

-- `==` on buffers.
abbrev pub same_bytes : List ℕ → List ℕ → Bool
same_bytes [] [] = true
same_bytes [] (y ∷ ys) = false
same_bytes (x ∷ xs) [] = false
same_bytes (x ∷ xs) (y ∷ ys) = (x == y) && same_bytes xs ys

-- The bytes are written into the buffer; a report that is new is processed.
abbrev pub heard : Listening → InterruptChannel → (bytes : List ℕ) → Listening
heard s c bytes =
    let buf = take 8 (bytes ++ drop (length bytes) s.buf) in
    processing (ltb 0 (length bytes) && not (same_bytes buf s.prev_report)) c buf s

-- The loop goes on after a report, and after a NAK.
abbrev pub on_report :
    (Listening → Bus → Status (Unit {0}) × Listening × Bus)
    → Listening
    → Status (List ℕ) × InterruptChannel × Bus
    → Status (Unit {0}) × Listening × Bus
on_report rest s (returned bytes, c, b) = rest (heard s c bytes) b
on_report rest s (raised e, c, b) =
    if is_nak e then rest (record s { channel = c }) b else (raised e, s, b)
on_report rest s (crashed, c, b) = (crashed, s, b)
on_report rest s (elapsed, c, b) = (elapsed, s, b)
on_report rest s (waiting, c, b) = (waiting, s, b)
on_report rest s (starved, c, b) = (starved, s, b)

-- The loop on fuel.
unfoldable pub listen_from : ℕ → Listening → Bus → Status (Unit {0}) × Listening × Bus
listen_from zero s b = (starved, s, b)
listen_from (suc n) s b = on_report (listen_from n) s (interrupt_transfer s.channel s.buf b)

-- `HidKbd::run` with a channel. Each transfer takes a reply, so that the replies are fuel enough.
unfoldable pub listen : InterruptChannel → Bus → Status (Unit {0}) × Listening × Bus
listen c b =
    listen_from (suc (length b.replies))
      (record { channel = c; prev_report = replicate 8 0; buf = replicate 8 0; processed = [] }) b

-- `HidKbd::run`: what it comes to, and the reports that it processed.
unfoldable pub run_kbd : HidKbd → Bus → Status (Unit {0}) × List (List ℕ) × Bus
run_kbd kbd b = elim kbd.interrupt_channel [
  | none ↦ (raised invalid_state, [], b)
  | some c ↦ let (status, s, b') = listen c b in (status, s.processed, b')
]
