-- ===== src/Driver/Keyboard/Tests.antt =====
-- The theorems on driver/kbd.rs at a keyboard with one endpoint.
use async_usb_host.Prelude.{none, [], ◌∷◌}
use async_usb_host.Errors.{nak, stall}
use async_usb_host.Types.{DeviceHandle}
use async_usb_host.Types.Port.{new_port, full_speed}
use async_usb_host.Descriptor.{
  Descriptor, DeviceDescriptor, ConfigurationDescriptor, configuration_type, device_type, endpoint,
}
use async_usb_host.Pipe.Bus.{Bus, answered, refused}
use async_usb_host.Pipe.Sending.{Packets}
use async_usb_host.Driver.Keyboard.{keyboard_channel}
use async_usb_host.Driver.Keyboard.Reports.{Listens, run_kbd-Listens}

abbrev keyboard : DeviceHandle
keyboard = record {
  address = 1;
  max_packet_size = 8;
  parent = record { port = new_port 0x80 0; transaction_translator = none; speed = full_speed };
}

abbrev config : ConfigurationDescriptor
config = record {
  length = 9;
  descriptor_type = configuration_type;
  total_length = 16;
  num_interfaces = 1;
  value = 1;
  index = 0;
  attributes = record { bits = 0xA0 };
  max_power = 50;
}

abbrev reports : Descriptor
reports = endpoint (record {
  b_length = 7;
  b_descriptor_type = 5;
  b_endpoint_address = 0x81;
  bm_attributes = 3;
  w_max_packet_size = 8;
  b_interval = 10;
})

abbrev desc : DeviceDescriptor
desc = record {
  length = 18;
  descriptor_type = device_type;
  usb_release = record { bits = 0x200 };
  device_class = 0;
  device_sub_class = 0;
  device_protocol = 0;
  max_packet_size = 8;
  id_vendor = 0x46D;
  id_product = 0xC31C;
  device_release = record { bits = 0x6400 };
  manufacturer_index = 1;
  product_index = 2;
  serial_number_index = 0;
  num_configurations = 1;
}

-- Sixteen bytes in two full packets, and the empty packet that ends them.
abbrev packets : Packets
packets =
    (0, 9 ∷ 2 ∷ 16 ∷ 0 ∷ 1 ∷ 1 ∷ 0 ∷ 0xA0 ∷ [])
    ∷ (3, 50 ∷ 7 ∷ 5 ∷ 0x81 ∷ 3 ∷ 8 ∷ 0 ∷ 10 ∷ [])
    ∷ (1, [])
    ∷ []

-- A key is pressed, held and released, and then the endpoint stalls.
abbrev typing : Bus
typing = record {
  replies =
      answered (0 ∷ 0 ∷ 4 ∷ 0 ∷ 0 ∷ 0 ∷ 0 ∷ 0 ∷ [])
      ∷ refused nak
      ∷ answered (0 ∷ 0 ∷ 4 ∷ 0 ∷ 0 ∷ 0 ∷ 0 ∷ 0 ∷ [])
      ∷ answered (0 ∷ 0 ∷ 0 ∷ 0 ∷ 0 ∷ 0 ∷ 0 ∷ 0 ∷ [])
      ∷ refused stall
      ∷ [];
  calls = [];
}

run_kbd-Listens_example : Listens keyboard (keyboard_channel keyboard 0x81) typing
run_kbd-Listens_example = run_kbd-Listens keyboard (keyboard_channel keyboard 0x81) typing
