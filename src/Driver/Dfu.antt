-- ===== src/Driver/Dfu.antt =====
-- driver/dfu.rs: the driver of a device that takes a new firmware. The constants of the crate
-- `usb_dfu_target` are parameters; the operations that come through the channel are a list.
pub mod Attach
pub mod Download
mod Tests
use async_usb_host.Prelude.{
  ℕ, ◌+◌, ◌%◌, ◌^◌, bit_and, Bool, true, false, not, ◌&&◌, Option, none, some, List, [], ◌∷◌, leb,
  replicate, ◌==◌, if◌then◌else◌,
}
use async_usb_host.Errors.{UsbHostError, invalid_state, unexpected_device, Result, done, failed}
use async_usb_host.Types.{Bcd16, from_le_bytes, u16_from_le_bytes, DeviceHandle}
use async_usb_host.Request.{
  Request, class, to_interface, host_to_device, device_to_host, default_type, set_type,
  set_recipient, set_data_direction,
}
use async_usb_host.Descriptor.{
  Descriptor, device, configuration, interface, endpoint, unknown_descriptor, InterfaceDescriptor,
  byte,
}
use async_usb_host.Pipe.Bus.{
  waiting, Async, ◌>>=◌, ◌>>◌, return, raise, crash, attempt, Turn, again, leave, rounds,
}
use async_usb_host.Pipe.Control.{control_transfer}
use async_usb_host.Driver.{read_configuration}
use async_usb_host.Driver.Items.{for_items}

-- `DFUOperation`.
pub data DfuOperation : Type 0 where
  start_download : DfuOperation
  block : List ℕ → DfuOperation
  manifest detach : DfuOperation

-- `DFUCapabilities` and its tests.
pub record DfuCapabilities : Type 0 where
  pub bits : ℕ

unfoldable pub can_download : DfuCapabilities → Bool
can_download c = not (bit_and c.bits 0b00000001 == 0)

unfoldable pub can_upload : DfuCapabilities → Bool
can_upload c = not (bit_and c.bits 0b00000010 == 0)

unfoldable pub can_manifest : DfuCapabilities → Bool
can_manifest c = not (bit_and c.bits 0b00000100 == 0)

unfoldable pub can_detach : DfuCapabilities → Bool
can_detach c = not (bit_and c.bits 0b00001000 == 0)

-- `DFUInfo`.
pub record DfuInfo : Type 0 where
  pub capabilities : DfuCapabilities
  pub detach_timeout : ℕ
  pub transfer_size : ℕ
  pub version : Bcd16

pub record UsbDfu : Type 0 where
  pub device_handle : DeviceHandle
  pub info : DfuInfo

-- The info of a functional descriptor.
unfoldable pub dfu_info : List ℕ → DfuInfo
dfu_info bytes = record {
  capabilities = record { bits = byte bytes 2 };
  detach_timeout = u16_from_le_bytes (byte bytes 3) (byte bytes 4);
  transfer_size = u16_from_le_bytes (byte bytes 5) (byte bytes 6);
  version = from_le_bytes (byte bytes 7) (byte bytes 8);
}

-- The end of `try_attach`.
abbrev pub decided : DeviceHandle → Bool × Option DfuInfo → Async UsbDfu
decided handle (true, some info) = return (record { device_handle = handle; info = info })
decided handle (true, none) = raise invalid_state
decided handle (false, info) = raise unexpected_device

-- `USB_CLASS_APPN_SPEC` and `DFU_PROTOCOL_RT`.
module _ (appn_spec protocol_rt : ℕ) where
  abbrev pub is_dfu_interface : InterfaceDescriptor → Bool
  is_dfu_interface i = i.b_interface_class == appn_spec && i.b_interface_sub_class == protocol_rt

  -- The arms of the loop over the descriptors, which change `is_dfu` and `dfu_info`.
  abbrev pub visit_dfu : Bool × Option DfuInfo → Descriptor → Async (Bool × Option DfuInfo)
  visit_dfu s (configuration c) = return s
  visit_dfu s (endpoint e) = return s
  visit_dfu (is_dfu, info) (interface i) =
      return (if is_dfu_interface i then true else is_dfu, info)
  visit_dfu (is_dfu, info) (unknown_descriptor t l bytes) =
      return (is_dfu, if t == 0x21 && leb 9 l then some (dfu_info bytes) else info)
  visit_dfu s (device d) = crash

  -- `UsbDfu::try_attach`.
  unfoldable pub try_attach_dfu : DeviceHandle → Async UsbDfu
  try_attach_dfu handle = do
    iter ← read_configuration handle 255
    found ← for_items visit_dfu iter (false, none)
    decided handle found

-- The request for the state of the device.
unfoldable pub dfu_get_state : Request
dfu_get_state = record {
  request_type =
      set_recipient to_interface (set_type class (set_data_direction device_to_host default_type));
  request = 0x05;
  value = 0;
  index = 0;
  length = 1;
}

-- The arms after a try: the counter goes on and the tries end, or there is another try.
abbrev pub after_try : (block_counter : ℕ) → Result (List ℕ) → Async (Turn (Unit {0}) ℕ)
after_try block_counter (done bytes) = return (leave ((block_counter + 1) % 2 ^ 16))
after_try block_counter (failed e) = return (again tt)

-- `DfuRequest::Dnload as u8`.
module _ (dnload : ℕ) where
  -- The request that announces a block.
  unfoldable pub dfu_download : (block_counter : ℕ) → Request
  dfu_download block_counter = record {
    request_type =
        set_data_direction host_to_device
          (set_recipient to_interface (set_type class default_type));
    request = dnload;
    value = block_counter;
    index = 0;
    length = 8;
  }

  -- The three tries of a block: the counter of the next one.
  unfoldable pub send_block : DeviceHandle → List ℕ → (block_counter : ℕ) → Async ℕ
  send_block handle bytes block_counter =
      rounds 3
        (attempt (control_transfer handle (dfu_download block_counter) bytes)
          >>= after_try block_counter)
        (return block_counter)

  -- The loop of `run`, over the operations that come through the channel.
  unfoldable pub serve : DeviceHandle → List DfuOperation → (block_counter : ℕ) → Async (Unit {0})
  serve handle [] block_counter b = (waiting, b)
  serve handle (start_download ∷ ops) block_counter b = serve handle ops 0 b
  serve handle (block bytes ∷ ops) block_counter b =
      (send_block handle bytes block_counter >>= serve handle ops) b
  serve handle (manifest ∷ ops) block_counter b = serve handle ops block_counter b
  serve handle (detach ∷ ops) block_counter b = return tt b

  -- `UsbDfu::run`.
  unfoldable pub run_dfu : UsbDfu → List DfuOperation → Async (Unit {0})
  run_dfu dfu ops =
      control_transfer dfu.device_handle dfu_get_state (replicate 64 0)
      >> serve dfu.device_handle ops 0
