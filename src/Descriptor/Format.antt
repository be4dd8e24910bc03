-- ===== src/Descriptor/Format.antt =====
-- The wire format of the descriptors that descriptor/mod.rs parses: what a device sends.
use async_usb_host.Prelude.{ℕ, ◌/◌, ◌%◌, ◌≤◌, ◌≡◌, none, List, [], ◌∷◌, ◌++◌, length}
use async_usb_host.Descriptor.{
  Descriptor, device, configuration, endpoint, interface, unknown_descriptor, device_type,
  configuration_type, type_try_from, byte, device_size, configuration_size, interface_size,
  endpoint_size, header_size,
}

abbrev lo : ℕ → ℕ
lo w = w % 256

abbrev hi : ℕ → ℕ
hi w = w / 256

unfoldable pub encode : Descriptor → List ℕ
encode (device d) =
    d.length
    ∷ 1
    ∷ lo d.usb_release.bits
    ∷ hi d.usb_release.bits
    ∷ d.device_class
    ∷ d.device_sub_class
    ∷ d.device_protocol
    ∷ d.max_packet_size
    ∷ lo d.id_vendor
    ∷ hi d.id_vendor
    ∷ lo d.id_product
    ∷ hi d.id_product
    ∷ lo d.device_release.bits
    ∷ hi d.device_release.bits
    ∷ d.manufacturer_index
    ∷ d.product_index
    ∷ d.serial_number_index
    ∷ d.num_configurations
    ∷ []
encode (configuration c) =
    c.length
    ∷ 2
    ∷ lo c.total_length
    ∷ hi c.total_length
    ∷ c.num_interfaces
    ∷ c.value
    ∷ c.index
    ∷ c.attributes.bits
    ∷ c.max_power
    ∷ []
encode (endpoint e) =
    e.b_length
    ∷ 5
    ∷ e.b_endpoint_address
    ∷ e.bm_attributes
    ∷ lo e.w_max_packet_size
    ∷ hi e.w_max_packet_size
    ∷ e.b_interval
    ∷ []
encode (interface i) =
    i.b_length ∷ 4 ∷ i.b_interface_number ∷ i.b_alternate_setting ∷ i.b_num_endpoints
    ∷ i.b_interface_class ∷ i.b_interface_sub_class ∷ i.b_interface_protocol ∷ i.i_interface ∷ []
encode (unknown_descriptor t l bytes) = bytes

-- The length and type fields say what the descriptor is.
abbrev pub IsEncodable : Descriptor → Type 0
IsEncodable (device d) = (d.length ≡ device_size) × (d.descriptor_type ≡ device_type)
IsEncodable (configuration c) =
    (c.length ≡ configuration_size) × (c.descriptor_type ≡ configuration_type)
IsEncodable (endpoint e) = (e.b_length ≡ endpoint_size) × (e.b_descriptor_type ≡ 5)
IsEncodable (interface i) = (i.b_length ≡ interface_size) × (i.b_descriptor_type ≡ 4)
IsEncodable (unknown_descriptor t l bytes) =
    (header_size ≤ l)
    × (length bytes ≡ l)
    × (byte bytes 0 ≡ l)
    × (byte bytes 1 ≡ t)
    × (type_try_from t ≡ none)

abbrev pub encode_all : List Descriptor → List ℕ
encode_all [] = []
encode_all (d ∷ ds) = encode d ++ encode_all ds

abbrev pub AllEncodable : List Descriptor → Type 0
AllEncodable [] = Unit {0}
AllEncodable (d ∷ ds) = IsEncodable d × AllEncodable ds
