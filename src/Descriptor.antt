-- ===== src/Descriptor.antt =====
-- descriptor/mod.rs: descriptors, their parser and the iterator over a buffer of them. A buffer is a
-- list of bytes; the packed structs are read at their byte offsets.
pub mod Format
pub mod Parse
pub mod Iterate
pub mod Hub
pub mod Hid
mod Tests
use async_usb_host.Prelude.{ℕ, ◌+◌, ◌/◌, ◌%◌, ◌^◌, bit_and, Bool, Option, none, some, List, length}
use async_usb_host.Prelude.{get_or, take, drop, ltb, leb, ◌==◌, if◌then◌else◌, not}
use async_usb_host.Errors.{
  ParsingError, incomplete, incomplete_device_descriptor, invalid_length, UsbHostError,
  parsing_error, Outcome, ok, err, panics, Result, done, failed, ◌>>=◌,
}
use async_usb_host.Types.{Bcd16, u16_from_le_bytes}

pub data DescriptorType : Type 0 where
  device_type configuration_type string_type interface_type endpoint_type : DescriptorType

-- `DescriptorType::try_from`.
unfoldable pub type_try_from : ℕ → Option DescriptorType
type_try_from value =
    if value == 1
    then some device_type
    else if value == 2
    then some configuration_type
    else if value == 3
    then some string_type
    else if value == 4
    then some interface_type
    else if value == 5
    then some endpoint_type
    else none

pub record DeviceDescriptor : Type 0 where
  pub length : ℕ
  pub descriptor_type : DescriptorType
  pub usb_release : Bcd16
  pub device_class : ℕ
  pub device_sub_class : ℕ
  pub device_protocol : ℕ
  pub max_packet_size : ℕ
  pub id_vendor : ℕ
  pub id_product : ℕ
  pub device_release : Bcd16
  pub manufacturer_index : ℕ
  pub product_index : ℕ
  pub serial_number_index : ℕ
  pub num_configurations : ℕ

-- `ConfigurationAttributes` and its two tests.
pub record ConfigurationAttributes : Type 0 where
  pub bits : ℕ

pub self_powered : ConfigurationAttributes → Bool
self_powered a = bit_and (a.bits / 2 ^ 6) 1 == 1

pub remote_wakeup : ConfigurationAttributes → Bool
remote_wakeup a = bit_and (a.bits / 2 ^ 5) 1 == 1

pub record ConfigurationDescriptor : Type 0 where
  pub length : ℕ
  pub descriptor_type : DescriptorType
  pub total_length : ℕ
  pub num_interfaces : ℕ
  pub value : ℕ
  pub index : ℕ
  pub attributes : ConfigurationAttributes
  pub max_power : ℕ

pub record EndpointDescriptor : Type 0 where
  pub b_length : ℕ
  pub b_descriptor_type : ℕ
  pub b_endpoint_address : ℕ
  pub bm_attributes : ℕ
  pub w_max_packet_size : ℕ
  pub b_interval : ℕ

pub record InterfaceDescriptor : Type 0 where
  pub b_length : ℕ
  pub b_descriptor_type : ℕ
  pub b_interface_number : ℕ
  pub b_alternate_setting : ℕ
  pub b_num_endpoints : ℕ
  pub b_interface_class : ℕ
  pub b_interface_sub_class : ℕ
  pub b_interface_protocol : ℕ
  pub i_interface : ℕ

pub data Descriptor : Type 0 where
  device : DeviceDescriptor → Descriptor
  configuration : ConfigurationDescriptor → Descriptor
  endpoint : EndpointDescriptor → Descriptor
  interface : InterfaceDescriptor → Descriptor
  unknown_descriptor : (descriptor_type length : ℕ) → List ℕ → Descriptor

-- `Descriptor::device`.
unfoldable pub as_device : Descriptor → Option DeviceDescriptor
as_device (device d) = some d
as_device _ = none

pub as_configuration : Descriptor → Option ConfigurationDescriptor
as_configuration (configuration c) = some c
as_configuration _ = none

pub as_endpoint : Descriptor → Option EndpointDescriptor
as_endpoint (endpoint e) = some e
as_endpoint _ = none

pub as_interface : Descriptor → Option InterfaceDescriptor
as_interface (interface i) = some i
as_interface _ = none

-- `size_of` of the packed structs.
abbrev pub header_size : ℕ
header_size = 2

abbrev pub device_size : ℕ
device_size = 18

abbrev pub configuration_size : ℕ
configuration_size = 9

abbrev pub interface_size : ℕ
interface_size = 9

abbrev pub endpoint_size : ℕ
endpoint_size = 7

-- `offset_of!(DeviceDescriptor, max_packet_size)`.
abbrev pub max_packet_size_offset : ℕ
max_packet_size_offset = 7

-- The byte at an offset that the code has checked to be in the buffer.
abbrev pub byte : List ℕ → ℕ → ℕ
byte buf k = get_or buf k 0

abbrev pub word : List ℕ → ℕ → ℕ
word buf k = u16_from_le_bytes (byte buf k) (byte buf (k + 1))

-- The casts of the buffer to the packed structs.
unfoldable pub cast_device : List ℕ → DeviceDescriptor
cast_device buf = record {
  length = byte buf 0;
  descriptor_type = device_type;
  usb_release = record { bits = word buf 2 };
  device_class = byte buf 4;
  device_sub_class = byte buf 5;
  device_protocol = byte buf 6;
  max_packet_size = byte buf 7;
  id_vendor = word buf 8;
  id_product = word buf 10;
  device_release = record { bits = word buf 12 };
  manufacturer_index = byte buf 14;
  product_index = byte buf 15;
  serial_number_index = byte buf 16;
  num_configurations = byte buf 17;
}

unfoldable pub cast_configuration : List ℕ → ConfigurationDescriptor
cast_configuration buf = record {
  length = byte buf 0;
  descriptor_type = configuration_type;
  total_length = word buf 2;
  num_interfaces = byte buf 4;
  value = byte buf 5;
  index = byte buf 6;
  attributes = record { bits = byte buf 7 };
  max_power = byte buf 8;
}

unfoldable pub cast_interface : List ℕ → InterfaceDescriptor
cast_interface buf = record {
  b_length = byte buf 0;
  b_descriptor_type = byte buf 1;
  b_interface_number = byte buf 2;
  b_alternate_setting = byte buf 3;
  b_num_endpoints = byte buf 4;
  b_interface_class = byte buf 5;
  b_interface_sub_class = byte buf 6;
  b_interface_protocol = byte buf 7;
  i_interface = byte buf 8;
}

unfoldable pub cast_endpoint : List ℕ → EndpointDescriptor
cast_endpoint buf = record {
  b_length = byte buf 0;
  b_descriptor_type = byte buf 1;
  b_endpoint_address = byte buf 2;
  bm_attributes = byte buf 3;
  w_max_packet_size = word buf 4;
  b_interval = byte buf 6;
}

abbrev pub fail : ParsingError → Outcome (Descriptor × ℕ)
fail e = err (parsing_error e)

-- A descriptor of no known type: its bytes are a slice of the buffer, which panics out of bounds.
parse_unknown : List ℕ → Outcome (Descriptor × ℕ)
parse_unknown buf =
    if ltb (length buf) (byte buf 0)
    then panics
    else ok (unknown_descriptor (byte buf 1) (byte buf 0) (take (byte buf 0) buf), byte buf 0)

-- The arms of `parse_descriptor`.
parse_known : DescriptorType → List ℕ → Outcome (Descriptor × ℕ)
parse_known device_type buf =
    if not (byte buf 0 == device_size)
    then fail invalid_length
    else if ltb (length buf) (max_packet_size_offset + 1)
    then fail incomplete
    else if ltb (length buf) (byte buf 0)
    then fail (incomplete_device_descriptor (cast_device buf).max_packet_size)
    else ok (device (cast_device buf), byte buf 0)
parse_known configuration_type buf =
    if ltb (length buf) configuration_size
    then fail incomplete
    else ok (configuration (cast_configuration buf), byte buf 0)
parse_known string_type buf = panics
parse_known interface_type buf =
    if ltb (length buf) interface_size
    then fail incomplete
    else ok (interface (cast_interface buf), byte buf 0)
parse_known endpoint_type buf =
    if ltb (length buf) endpoint_size
    then fail incomplete
    else ok (endpoint (cast_endpoint buf), byte buf 0)

-- The match on the type byte.
parse_typed : Option DescriptorType → List ℕ → Outcome (Descriptor × ℕ)
unfolding parse_known parse_unknown
parse_typed none buf = parse_unknown buf
parse_typed (some t) buf = parse_known t buf

unfoldable pub parse_descriptor : List ℕ → Outcome (Descriptor × ℕ)
unfolding parse_typed
parse_descriptor buf =
    if ltb (length buf) header_size
    then fail incomplete
    else parse_typed (type_try_from (byte buf 1)) buf

pub record DescriptorIterator : Type 0 where
  pub buf : List ℕ
  pub offset : ℕ

-- `DescriptorIterator::new`.
abbrev pub new_iterator : List ℕ → DescriptorIterator
new_iterator buf = record { buf = buf; offset = 0 }

-- The match on what the parser returned.
advance :
    DescriptorIterator
    → Outcome (Descriptor × ℕ)
    → Outcome (Option (Result Descriptor) × DescriptorIterator)
advance it (ok (d, len)) = ok (some (done d), record it { offset = it.offset + len })
advance it (err e) = ok (some (failed e), record it { offset = length it.buf })
advance it panics = panics

-- `DescriptorIterator::next`.
unfoldable pub next : DescriptorIterator → Outcome (Option (Result Descriptor) × DescriptorIterator)
unfolding advance
next it =
    if leb (length it.buf) it.offset
    then ok (none, it)
    else advance it (parse_descriptor (drop it.offset it.buf))
