-- ===== src/Driver.antt =====
-- driver/mod.rs and driver/kbd.rs: the configuration descriptor of a device, which the drivers read
-- first, and the key codes; the drivers and the dispatcher are the children.
pub mod Configuration
pub mod Dfu
pub mod Dispatcher
pub mod Items
pub mod Keyboard
pub mod Keys
mod Tests
use async_usb_host.Prelude.{
  ℕ, ◌+◌, ◌-◌, ◌%◌, ◌^◌, Bool, true, false, ◌&&◌, Option, none, some, List, length, leb, ltb,
  replicate, ◌==◌, if◌then◌else◌,
}
use async_usb_host.Errors.{
  Outcome, ok, err, panics, buffer_overflow, invalid_response, Result, done, failed,
}
use async_usb_host.Types.{DeviceHandle}
use async_usb_host.Request.{Request, get_configuration_descriptor}
use async_usb_host.Descriptor.{
  Descriptor, device, configuration, interface, endpoint, unknown_descriptor,
  ConfigurationDescriptor, DescriptorIterator, new_iterator, next,
}
use async_usb_host.Pipe.Bus.{Async, ◌>>=◌, ◌>>◌, return, raise, crash}
use async_usb_host.Pipe.Control.{control_transfer, assert}

-- The request, whose assertion refuses an empty buffer.
abbrev pub asked_with : Outcome Request → Async Request
asked_with (ok req) = return req
asked_with (err e) = raise e
asked_with panics = crash

-- The arm of a configuration, by its total length.
abbrev pub by_length : (size total_length : ℕ) → List ℕ → Async DescriptorIterator
by_length size total_length bytes =
    if total_length == length bytes
    then return (new_iterator bytes)
    else if ltb size total_length
    then raise buffer_overflow
    else return (new_iterator bytes)

abbrev pub by_first : (size : ℕ) → List ℕ → Descriptor → Async DescriptorIterator
by_first size bytes (configuration c) = by_length size c.total_length bytes
by_first size bytes (device d) = raise invalid_response
by_first size bytes (interface i) = raise invalid_response
by_first size bytes (endpoint e) = raise invalid_response
by_first size bytes (unknown_descriptor t l data_bytes) = raise invalid_response

-- The match on the first item, which is looked at and stays in the iterator.
abbrev pub peeked :
    (size : ℕ)
    → List ℕ
    → Outcome (Option (Result Descriptor) × DescriptorIterator)
    → Async DescriptorIterator
peeked size bytes (ok (some (done d), it)) = by_first size bytes d
peeked size bytes (ok (some (failed e), it)) = raise e
peeked size bytes (ok (none, it)) = raise invalid_response
peeked size bytes (err e) = raise e
peeked size bytes panics = crash

-- `get_configuration_descriptor` with a buffer of a size.
unfoldable pub read_configuration : DeviceHandle → (size : ℕ) → Async DescriptorIterator
read_configuration handle size = do
  req ← asked_with (get_configuration_descriptor 0 (size % 2 ^ 16))
  bytes ← control_transfer handle req (replicate size 0)
  assert (leb (length bytes) size)
  peeked size bytes (next (new_iterator bytes))

-- `hid_key_to_ascii`: the code of a character.
unfoldable pub hid_key_to_ascii : ℕ → ℕ
hid_key_to_ascii key =
    if leb 0x04 key && leb key 0x1D
    then key - 0x04 + 97
    else if leb 0x1E key && leb key 0x27
    then key - 0x1E + 49
    else if key == 0x28
    then 10
    else if key == 0x29
    then 0x1B
    else if key == 0x2A
    then 8
    else if key == 0x2B
    then 9
    else if key == 0x2C
    then 32
    else if key == 0x2D
    then 45
    else if key == 0x2E
    then 61
    else if key == 0x2F
    then 91
    else if key == 0x30
    then 93
    else if key == 0x31
    then 92
    else if key == 0x33
    then 59
    else if key == 0x34
    then 39
    else if key == 0x35
    then 96
    else if key == 0x36
    then 44
    else if key == 0x37
    then 46
    else if key == 0x38
    then 47
    else 63
