-- ===== src/Driver/Tests.antt =====
-- The theorems on driver/mod.rs and driver/kbd.rs at a device with one configuration.
use async_usb_host.Prelude.{refl, arith, none, [], ◌∷◌}
use async_usb_host.Types.{DeviceHandle}
use async_usb_host.Types.Port.{new_port, full_speed}
use async_usb_host.Descriptor.{Descriptor, ConfigurationDescriptor, configuration_type, endpoint}
use async_usb_host.Descriptor.Format.{encode}
use async_usb_host.Pipe.Sending.{Packets}
use async_usb_host.Driver.Configuration.{Reads, configuration-Reads}
use async_usb_host.Driver.Keys.{KeyCodes, key_codes}

abbrev keyboard : DeviceHandle
keyboard = record {
  address = 1;
  max_packet_size = 8;
  parent = record { port = new_port 0x80 0; transaction_translator = none; speed = full_speed };
}

abbrev config : ConfigurationDescriptor
config = record {
  length = 9;
  descriptor_type = configuration_type;
  total_length = 16;
  num_interfaces = 1;
  value = 1;
  index = 0;
  attributes = record { bits = 0xA0 };
  max_power = 50;
}

abbrev reports : Descriptor
reports = endpoint (record {
  b_length = 7;
  b_descriptor_type = 5;
  b_endpoint_address = 0x81;
  bm_attributes = 3;
  w_max_packet_size = 8;
  b_interval = 10;
})

-- Sixteen bytes in two full packets, and the empty packet that ends them.
abbrev packets : Packets
packets =
    (0, 9 ∷ 2 ∷ 16 ∷ 0 ∷ 1 ∷ 1 ∷ 0 ∷ 0xA0 ∷ [])
    ∷ (3, 50 ∷ 7 ∷ 5 ∷ 0x81 ∷ 3 ∷ 8 ∷ 0 ∷ 10 ∷ [])
    ∷ (1, [])
    ∷ []

configuration-Reads_example :
    Reads keyboard refl 255 (omega arith) (omega arith) packets config (reports ∷ []) 2 [] [] [] []
unfolding encode
configuration-Reads_example =
    configuration-Reads keyboard refl 255 (omega arith) (omega arith) packets config (reports ∷ [])
      2 [] [] [] [] (refl, omega arith, (refl, omega arith, (omega arith, omega arith))) refl
      ((refl, refl), ((refl, refl), tt)) refl

key_codes_example : KeyCodes 0x04 0x26
key_codes_example = key_codes 0x04 0x26
