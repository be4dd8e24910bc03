-- ===== src/Driver/Dfu/Tests.antt =====
-- The theorems on driver/dfu.rs at a device that takes a firmware, with the constants of the class.
use async_usb_host.Prelude.{refl, arith, none, List, [], ◌∷◌}
use async_usb_host.Errors.{nak, stall}
use async_usb_host.Types.{DeviceHandle}
use async_usb_host.Types.Port.{new_port, full_speed}
use async_usb_host.Descriptor.{
  Descriptor, ConfigurationDescriptor, configuration_type, type_try_from, interface,
  unknown_descriptor,
}
use async_usb_host.Descriptor.Format.{encode}
use async_usb_host.Pipe.Sending.{Packets}
use async_usb_host.Driver.Dfu.Attach.{Decides, try_attach-Decides}
use async_usb_host.Driver.Dfu.Download.{Answer, takes, loses}

abbrev target : DeviceHandle
target = record {
  address = 1;
  max_packet_size = 64;
  parent = record { port = new_port 0x80 0; transaction_translator = none; speed = full_speed };
}

abbrev config : ConfigurationDescriptor
config = record {
  length = 9;
  descriptor_type = configuration_type;
  total_length = 27;
  num_interfaces = 1;
  value = 1;
  index = 0;
  attributes = record { bits = 0x80 };
  max_power = 50;
}

abbrev runtime : Descriptor
runtime = interface (record {
  b_length = 9;
  b_descriptor_type = 4;
  b_interface_number = 0;
  b_alternate_setting = 0;
  b_num_endpoints = 0;
  b_interface_class = 0xFE;
  b_interface_sub_class = 1;
  b_interface_protocol = 1;
  i_interface = 0;
})

abbrev functional : Descriptor
functional = unknown_descriptor 0x21 9 (9 ∷ 0x21 ∷ 0x0D ∷ 0xFF ∷ 0 ∷ 0 ∷ 4 ∷ 0x10 ∷ 1 ∷ [])

abbrev packets : Packets
packets =
    (
      0,
      9 ∷ 2 ∷ 27 ∷ 0 ∷ 1 ∷ 1 ∷ 0 ∷ 0x80 ∷ 50 ∷ 9 ∷ 4 ∷ 0 ∷ 0 ∷ 0 ∷ 0xFE ∷ 1 ∷ 1 ∷ 0 ∷ 9 ∷ 0x21
          ∷ 0x0D ∷ 0xFF ∷ 0 ∷ 0 ∷ 4 ∷ 0x10 ∷ 1 ∷ [],
    )
    ∷ []

try_attach-Decides_example :
    Decides 0xFE 1 target refl packets (runtime ∷ functional ∷ []) 1 [] [] [] []
unfolding encode type_try_from
try_attach-Decides_example =
    try_attach-Decides 0xFE 1 target refl packets config (runtime ∷ functional ∷ []) 1 [] [] [] []
      (omega arith) refl ((refl, refl), ((refl, refl), ((omega arith, refl, refl, refl, refl), tt)))
      refl tt

-- The last block before the counter wraps is taken after a STALL, the next one is lost, and the one
-- after it is taken under the number 0.
abbrev three : List Answer
three =
    takes (stall ∷ []) ((0, 1 ∷ 2 ∷ 3 ∷ 4 ∷ 5 ∷ 6 ∷ 7 ∷ 8 ∷ []) ∷ []) 0 [] []
    ∷ loses nak stall stall (9 ∷ 9 ∷ 9 ∷ 9 ∷ 9 ∷ 9 ∷ 9 ∷ 9 ∷ [])
    ∷ takes [] ((2, 8 ∷ 7 ∷ 6 ∷ 5 ∷ 4 ∷ 3 ∷ 2 ∷ 1 ∷ []) ∷ []) 1 [] []
    ∷ []
