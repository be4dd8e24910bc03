-- ===== src/Pipe/Addressing.antt =====
-- The address assignment, the first device descriptor, and the attach and the detach of pipe.rs.
use async_usb_host.Prelude.{
  ℕ, ◌-◌, Option, none, some, List, [], ◌++◌, length, leb, ltb, ◌==◌, if◌then◌else◌,
}
use async_usb_host.Errors.{
  UsbHostError, Outcome, ok, err, panics, invalid_response, Result, done, failed,
}
use async_usb_host.Types.{DataTog, tog1, next_tog, DeviceHandle, control}
use async_usb_host.Types.Port.{DevInfo, PortInfo}
use async_usb_host.Request.{
  Request, host_to_device, device_to_host, standard, to_device, default_type, set_data_direction,
  set_type, set_recipient, request_code, set_address_code, get_descriptor_code,
}
use async_usb_host.Descriptor.{
  Descriptor, DeviceDescriptor, DescriptorIterator, new_iterator, next, as_device, device_size,
}
use async_usb_host.External.BitArray.{BitArray}
use async_usb_host.Address.{
  DeviceAddressManager, DeviceDisconnectMask, alloc_device_address, free_address,
  free_all_addresses, free_subtree,
}
use async_usb_host.Pipe.Bus.{
  Bus, Status, returned, raised, crashed, elapsed, waiting, starved, Async, ◌>>=◌, ◌>>◌, return,
  raise, crash, Turn, again, leave, loop,
}
use async_usb_host.Pipe.Transfer.{setup, data_in_with_retry, data_out_with_retry}
use async_usb_host.Pipe.Control.{assert}

-- The request that gives a device its address.
unfoldable pub set_address : ℕ → Request
set_address address = record {
  request_type = set_recipient to_device (set_data_direction host_to_device default_type);
  request = request_code set_address_code;
  value = address;
  index = 0;
  length = 0;
}

-- The block of `assign_device_address`: the setup and the status stage, at the address 0.
unfoldable pub tell_address : DevInfo → ℕ → Async (List ℕ)
tell_address devinfo address =
    setup devinfo 0 (set_address address) >> data_in_with_retry devinfo 0 0 control tog1 0

-- The address is given back after an error; `free_address` panics where it has no such address.
abbrev pub given_back :
    DeviceAddressManager
    → UsbHostError
    → Bus
    → Outcome DeviceAddressManager
    → Status DeviceHandle × DeviceAddressManager × Bus
given_back m e b (ok m') = (raised e, m', b)
given_back m e b (err e') = (crashed, m, b)
given_back m e b panics = (crashed, m, b)

-- The end of `assign_device_address`.
abbrev pub keep_address :
    DeviceAddressManager
    → DeviceHandle
    → Status (List ℕ) × Bus
    → Status DeviceHandle × DeviceAddressManager × Bus
keep_address m handle (returned bytes, b) = (returned handle, m, b)
keep_address m handle (raised e, b) = given_back m e b (free_address m handle)
keep_address m handle (crashed, b) = (crashed, m, b)
keep_address m handle (elapsed, b) = (elapsed, m, b)
keep_address m handle (waiting, b) = (waiting, m, b)
keep_address m handle (starved, b) = (starved, m, b)

-- The address that the manager gave, and the block that tells it.
abbrev pub given_address :
    DeviceAddressManager
    → DevInfo
    → Bus
    → Outcome (DeviceAddressManager × DeviceHandle)
    → Status DeviceHandle × DeviceAddressManager × Bus
given_address m devinfo b (ok (m', handle)) =
    keep_address m' handle (tell_address devinfo handle.address b)
given_address m devinfo b (err e) = (raised e, m, b)
given_address m devinfo b panics = (crashed, m, b)

unfoldable pub assign_device_address :
    DeviceAddressManager
    → (max_packet_size : ℕ) → DevInfo
    → Bus
    → Status DeviceHandle × DeviceAddressManager × Bus
assign_device_address m max_packet_size devinfo b =
    given_address m devinfo b (alloc_device_address m max_packet_size devinfo)

-- The request for the device descriptor, `(1 << 8) | 0`, of which 64 bytes are asked for.
unfoldable pub first_request : Request
first_request = record {
  request_type =
      set_recipient to_device (set_type standard (set_data_direction device_to_host default_type));
  request = request_code get_descriptor_code;
  value = 0x100;
  index = 0;
  length = 64;
}

-- A round of the loop that reads the rest of the descriptor, for a buffer of a size.
abbrev pub descriptor_round :
    DevInfo → (size : ℕ) → DataTog × List ℕ → Async (Turn (DataTog × List ℕ) (List ℕ))
descriptor_round dev_info size (tog, bytes) =
    if ltb (length bytes) device_size
    then (data_in_with_retry dev_info 0 0 control tog (size - length bytes) >>= λ more.
        return (again (next_tog tog, bytes ++ more)))
    else return (leave bytes)

-- What the first item of the iterator comes to.
abbrev pub device_item :
    Outcome (Option (Result Descriptor) × DescriptorIterator) → Async DeviceDescriptor
device_item panics = crash
device_item (err e) = raise e
device_item (ok (none, it)) = raise invalid_response
device_item (ok (some (failed e), it)) = raise e
device_item (ok (some (done d), it)) = elim (as_device d) [
  | none ↦ raise invalid_response
  | some dev ↦ return dev
]

unfoldable pub get_device_descriptor : DevInfo → (size : ℕ) → Async DeviceDescriptor
get_device_descriptor dev_info size = do
  assert (leb 18 size)
  setup dev_info 0 first_request
  first ← data_in_with_retry dev_info 0 0 control tog1 size
  bytes ← loop (descriptor_round dev_info size) (next_tog tog1, first)
  data_out_with_retry dev_info 0 0 control tog1 []
  assert (length bytes == device_size)
  device_item (next (new_iterator bytes))

-- The descriptor and the handle.
abbrev pub with_descriptor :
    DeviceDescriptor
    → Status DeviceHandle × DeviceAddressManager × Bus
    → Status (DeviceDescriptor × DeviceHandle) × DeviceAddressManager × Bus
with_descriptor d (returned handle, m, b) = (returned (d, handle), m, b)
with_descriptor d (raised e, m, b) = (raised e, m, b)
with_descriptor d (crashed, m, b) = (crashed, m, b)
with_descriptor d (elapsed, m, b) = (elapsed, m, b)
with_descriptor d (waiting, m, b) = (waiting, m, b)
with_descriptor d (starved, m, b) = (starved, m, b)

-- `dev_attach`, with its buffer of 18 bytes.
abbrev pub attach_with :
    DeviceAddressManager
    → DevInfo
    → Status DeviceDescriptor × Bus
    → Status (DeviceDescriptor × DeviceHandle) × DeviceAddressManager × Bus
attach_with m dev_info (returned d, b) =
    with_descriptor d (assign_device_address m d.max_packet_size dev_info b)
attach_with m dev_info (raised e, b) = (raised e, m, b)
attach_with m dev_info (crashed, b) = (crashed, m, b)
attach_with m dev_info (elapsed, b) = (elapsed, m, b)
attach_with m dev_info (waiting, b) = (waiting, m, b)
attach_with m dev_info (starved, b) = (starved, m, b)

unfoldable pub dev_attach :
    DeviceAddressManager
    → DevInfo
    → Bus
    → Status (DeviceDescriptor × DeviceHandle) × DeviceAddressManager × Bus
dev_attach m dev_info b = attach_with m dev_info (get_device_descriptor dev_info 18 b)

module _ (B : BitArray) where
  unfoldable pub root_detach :
      DeviceAddressManager → Outcome (DeviceAddressManager × DeviceDisconnectMask B)
  root_detach m = free_all_addresses B m

  unfoldable pub dev_detach :
      DeviceAddressManager → PortInfo → Outcome (DeviceAddressManager × DeviceDisconnectMask B)
  dev_detach m port_info = free_subtree B m port_info
