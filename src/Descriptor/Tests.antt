-- ===== src/Descriptor/Tests.antt =====
-- The parser and the iterator of descriptor/mod.rs on buffers of a keyboard, and the theorems at
-- these inputs.
use async_usb_host.Prelude.{
  ℕ, ◌≡◌, refl, ◌↔◌, ◌<◌, arith, some, none, List, [], ◌∷◌, ◌++◌, length, map,
}
use async_usb_host.Errors.{ok, panics, done}
use async_usb_host.Descriptor.{
  Descriptor, interface, endpoint, configuration, unknown_descriptor, configuration_type, byte,
  parse_descriptor, type_try_from, new_iterator,
}
use async_usb_host.Descriptor.Format.{encode, encode_all, AllEncodable}
use async_usb_host.Descriptor.Parse.{parse-encode, parse_descriptor-returns, PanicsOn}
use async_usb_host.Descriptor.Iterate.{
  Yields, Fate, encode_all-Yields, iterator-Fate, zero_length_endless,
}
use async_usb_host.Descriptor.Hid.{HidDescriptor, parse_hid, encode_hid, parse_hid_lem}

abbrev hid_endpoint : Descriptor
hid_endpoint = endpoint (record {
  b_length = 7;
  b_descriptor_type = 5;
  b_endpoint_address = 0x81;
  bm_attributes = 3;
  w_max_packet_size = 8;
  b_interval = 10;
})

-- A keyboard's configuration with its interface, its HID descriptor and its endpoint.
abbrev keyboard : List Descriptor
keyboard =
    configuration (record {
      length = 9;
      descriptor_type = configuration_type;
      total_length = 34;
      num_interfaces = 1;
      value = 1;
      index = 0;
      attributes = record { bits = 0xA0 };
      max_power = 50;
    })
    ∷ interface (record {
      b_length = 9;
      b_descriptor_type = 4;
      b_interface_number = 0;
      b_alternate_setting = 0;
      b_num_endpoints = 1;
      b_interface_class = 3;
      b_interface_sub_class = 1;
      b_interface_protocol = 1;
      i_interface = 0;
    })
    ∷ unknown_descriptor 0x21 9 (9 ∷ 0x21 ∷ 0x10 ∷ 1 ∷ 0 ∷ 1 ∷ 0x22 ∷ 65 ∷ 0 ∷ [])
    ∷ hid_endpoint
    ∷ []

keyboard-AllEncodable : AllEncodable keyboard
unfolding type_try_from
keyboard-AllEncodable =
    ((refl, refl), ((refl, refl), ((omega arith, refl, refl, refl, refl), ((refl, refl), tt))))

parse-encode_example :
    parse_descriptor (encode hid_endpoint ++ 1 ∷ 2 ∷ [])
    ≡ ok (hid_endpoint, length (encode hid_endpoint))
parse-encode_example = parse-encode hid_endpoint (1 ∷ 2 ∷ []) (refl, refl)

-- A string descriptor.
abbrev string_buffer : List ℕ
string_buffer = 4 ∷ 3 ∷ 9 ∷ 4 ∷ []

parse_descriptor-returns_example :
    ((parse_descriptor string_buffer ≡ panics) ↔ PanicsOn string_buffer)
    × ((d : Descriptor) (n : ℕ)
        → parse_descriptor string_buffer ≡ ok (d, n)
        → n ≡ byte string_buffer 0)
parse_descriptor-returns_example = parse_descriptor-returns string_buffer

encode_all-Yields_example : Yields (new_iterator (encode_all keyboard)) (map done keyboard)
encode_all-Yields_example = encode_all-Yields keyboard keyboard-AllEncodable

iterator-Fate_example : Fate (new_iterator string_buffer)
iterator-Fate_example = iterator-Fate (new_iterator string_buffer)

-- A descriptor of the length 0.
abbrev empty_descriptor : List ℕ
empty_descriptor = 0 ∷ 0x21 ∷ []

zero_length_endless_example : ¬ Yields (new_iterator empty_descriptor) []
unfolding type_try_from
zero_length_endless_example =
    zero_length_endless (new_iterator empty_descriptor) [] (omega arith) refl refl

abbrev hid : HidDescriptor
hid = record {
  total_length = 9;
  descriptor_type = 0x21;
  bcd_hid = record { bits = 0x110 };
  country_code = 0;
  flags = 1;
  num_descriptors = 0x22;
}

parse_hid_lem_example :
    (parse_hid (encode_hid hid ++ 65 ∷ 0 ∷ []) ≡ some hid)
    × ((parse_hid (9 ∷ 0x21 ∷ []) ≡ none) ↔ (2 < 7))
parse_hid_lem_example = parse_hid_lem hid (65 ∷ 0 ∷ []) (9 ∷ 0x21 ∷ [])
