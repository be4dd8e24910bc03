-- ===== src/Driver/Keyboard/Attach.antt =====
-- `HidKbd::try_attach` of driver/kbd.rs, from the packets of a device to its channel.
use async_usb_host.Prelude.{
  ℕ, ◌<◌, ◌%◌, bit_and, Bool, true, not, ◌&&◌, leb, ◌≡◌, refl, arith, Option, none, some, List, [],
  ◌∷◌, length, ◌==◌, if◌then◌else◌,
}
use async_usb_host.Errors.{unexpected_device, invalid_response}
use async_usb_host.Types.{DeviceHandle, InterruptChannel, in_endpoint, tog0}
use async_usb_host.Prelude.Bits.{passes_under, passes_under-at}
use async_usb_host.Request.{Request, data_direction, host_to_device}
use async_usb_host.Descriptor.{
  Descriptor, device, configuration, interface, endpoint, unknown_descriptor, DeviceDescriptor,
  ConfigurationDescriptor,
}
use async_usb_host.Pipe.Bus.{Reply, answered, Call, Bus, Status, returned, raised}
use async_usb_host.Pipe.Sending.{Packets}
use async_usb_host.Pipe.Commands.{command_request, command_calls}
use async_usb_host.Driver.Configuration.{answering, reading}
use async_usb_host.Driver.Keyboard.{HidKbd, is_in, try_attach_kbd}

-- No descriptor of the list is that of a device or a configuration; an endpoint's address is a byte.
abbrev pub Parts : List Descriptor → Type 0
Parts [] = Unit {0}
Parts (device d ∷ ds) = ⊥
Parts (configuration c ∷ ds) = ⊥
Parts (interface i ∷ ds) = Parts ds
Parts (endpoint e ∷ ds) = (e.b_endpoint_address < 256) × Parts ds
Parts (unknown_descriptor t l bytes ∷ ds) = Parts ds

-- The address of the first endpoint to the host, whose highest bit is set.
abbrev pub first_in : List Descriptor → Option ℕ
first_in [] = none
first_in (endpoint e ∷ ds) =
    if leb 128 e.b_endpoint_address then some e.b_endpoint_address else first_in ds
first_in (device d ∷ ds) = first_in ds
first_in (configuration c ∷ ds) = first_in ds
first_in (interface i ∷ ds) = first_in ds
first_in (unknown_descriptor t l bytes ∷ ds) = first_in ds

-- The channel to an endpoint: the low four bits are its number.
abbrev pub reports_channel : DeviceHandle → (address : ℕ) → InterruptChannel
reports_channel handle address = record {
  device_handle = handle;
  endpoint_address = record { number = address % 16; direction = in_endpoint };
  tog = tog0;
}

-- What the driver comes to.
abbrev pub keyboard_of : DeviceHandle → Option ℕ → Status HidKbd
keyboard_of handle (some address) =
    returned
      (record { device_handle = handle; interrupt_channel = some (reports_channel handle address) })
keyboard_of handle none = raised invalid_response

-- The masks of the code on a byte.
masks_hold : ℕ → Bool
masks_hold a = (if leb 128 a then is_in a else not (is_in a)) && (bit_and a 0x0F == a % 16)

masks_table : passes_under masks_hold 256 ≡ true
unfolding passes_under masks_hold
masks_table = refl

masks : (a : ℕ) → a < 256 → (is_in a ≡ leb 128 a) × (bit_and a 0x0F ≡ a % 16)
unfolding masks_hold
masks a lt = ground (arith, passes_under-at masks_hold 256 a masks_table lt)

-- An address that was found is a byte with its highest bit.
abbrev IsIn : Option ℕ → Type 0
IsIn none = Unit {0}
IsIn (some address) = (leb 128 address ≡ true) × (address < 256)

-- A request to the device, without data.
abbrev IsCommand : Request → Type 0
IsCommand req = (data_direction req.request_type ≡ host_to_device) × (req.length ≡ 0)

module _ (h : DeviceHandle) where
  module _ (direct : h.parent.transaction_translator ≡ none) where
    -- The configuration is chosen, by SET_CONFIGURATION, and the repetition of reports is ended, by
    -- SET_IDLE of the class.
    abbrev pub commands : ConfigurationDescriptor → List Call → List Call
    commands c cs =
        command_calls h (command_request 0x21 0x0A 0 0)
          (command_calls h (command_request 0 9 c.value 0) cs)

    -- `try_attach` on the packets of a device that answers both commands.
    abbrev pub Attaches :
        DeviceDescriptor
        → Packets
        → ConfigurationDescriptor
        → List Descriptor
        → (n : ℕ) → (x y x1 y1 x2 y2 : List ℕ) → List Reply
        → List Call
        → Type 0
    Attaches desc ps c ds n x y x1 y1 x2 y2 rs cs =
        let all = answered x1 ∷ answered y1 ∷ answered x2 ∷ answered y2 ∷ rs in
        try_attach_kbd h desc (answering ps n x y all cs) ≡ (
          if desc.device_class == 0
          then (
            keyboard_of h (first_in ds),
            record { replies = rs; calls = commands c (reading h 255 ps n cs) },
          )
          else (raised unexpected_device, answering ps n x y all cs))
