-- ===== src/Request.antt =====
-- request/mod.rs: the setup requests, with the bits of the request type. The shifts and the masks of
-- a byte are products and bit operations on numbers.
pub mod Laws
mod Tests
use async_usb_host.Prelude.{ℕ, ◌*◌, ◌/◌, ◌^◌, bit_and, bit_or, Bool, ltb, ◌==◌, if◌then◌else◌}
use async_usb_host.Errors.{Outcome, ok, assert, ◌>>◌, panics}

pub data RequestTypeDirection : Type 0 where
  host_to_device device_to_host : RequestTypeDirection

unfoldable pub direction_code : RequestTypeDirection → ℕ
direction_code host_to_device = 0
direction_code device_to_host = 1

pub data RequestTypeType : Type 0 where
  standard class vendor rsvd : RequestTypeType

unfoldable pub type_code : RequestTypeType → ℕ
type_code standard = 0
type_code class = 1
type_code vendor = 2
type_code rsvd = 3

pub data RequestTypeRecipient : Type 0 where
  to_device to_interface to_endpoint to_other : RequestTypeRecipient

unfoldable pub recipient_code : RequestTypeRecipient → ℕ
recipient_code to_device = 0
recipient_code to_interface = 1
recipient_code to_endpoint = 2
recipient_code to_other = 3

-- `RequestType(u8)`.
pub record RequestType : Type 0 where
  pub bits : ℕ

-- `RequestType::default`.
abbrev pub default_type : RequestType
default_type = record { bits = 0 }

unfoldable pub data_direction : RequestType → RequestTypeDirection
data_direction t = if bit_and (t.bits / 2 ^ 7) 0x1 == 0 then host_to_device else device_to_host

unfoldable pub set_data_direction : RequestTypeDirection → RequestType → RequestType
set_data_direction dir t = record {
  bits = bit_or (bit_and t.bits 0x7F) (bit_and (direction_code dir) 0x1 * 2 ^ 7);
}

-- `!(0x3 << 5)` of a byte is 0x9F.
unfoldable pub set_type : RequestTypeType → RequestType → RequestType
set_type typetype t = record { bits = bit_or (bit_and t.bits 0x9F) (type_code typetype * 2 ^ 5) }

-- The match on the recipient's bits.
unfoldable pub recipient_of : ℕ → RequestTypeRecipient
recipient_of bits =
    if bits == 0
    then to_device
    else if bits == 1
    then to_interface
    else if bits == 2
    then to_endpoint
    else to_other

unfoldable pub recipient : RequestType → RequestTypeRecipient
recipient t = recipient_of (bit_and t.bits 0x1F)

unfoldable pub set_recipient : RequestTypeRecipient → RequestType → RequestType
set_recipient r t = record { bits = bit_or (bit_and t.bits 0xE0) (recipient_code r) }

pub data StandardDeviceRequest : Type 0 where
  get_status_code clear_feature_code set_feature_code : StandardDeviceRequest
  set_address_code get_descriptor_code set_descriptor_code : StandardDeviceRequest
  get_configuration_code set_configuration_code : StandardDeviceRequest

unfoldable pub request_code : StandardDeviceRequest → ℕ
request_code get_status_code = 0x0
request_code clear_feature_code = 0x1
request_code set_feature_code = 0x3
request_code set_address_code = 0x5
request_code get_descriptor_code = 0x6
request_code set_descriptor_code = 0x7
request_code get_configuration_code = 0x8
request_code set_configuration_code = 0x9

pub record Request : Type 0 where
  pub request_type : RequestType
  pub request : ℕ
  pub value : ℕ
  pub index : ℕ
  pub length : ℕ

unfoldable pub set_configuration : ℕ → Request
set_configuration configuration = record {
  request_type = set_recipient to_device (set_data_direction host_to_device default_type);
  request = request_code set_configuration_code;
  value = configuration;
  index = 0;
  length = 0;
}

unfoldable pub get_descriptor : ℕ → RequestTypeType → ℕ → ℕ → ℕ → Outcome Request
get_descriptor descriptor_type request_type_type descriptor_index language_id length =
    assert (ltb 0 length)
    >> ok (record {
      request_type =
          set_recipient to_device
            (set_type request_type_type (set_data_direction device_to_host default_type));
      request = request_code get_descriptor_code;
      value = bit_or (descriptor_type * 2 ^ 8) descriptor_index;
      index = language_id;
      length = length;
    })

unfoldable pub get_status : RequestTypeRecipient → RequestTypeType → ℕ → ℕ → ℕ → Request
get_status r request_type_type value index length = record {
  request_type =
      set_recipient r (set_type request_type_type (set_data_direction device_to_host default_type));
  request = request_code get_status_code;
  value = value;
  index = index;
  length = length;
}

unfoldable pub set_feature : RequestTypeRecipient → RequestTypeType → ℕ → ℕ → ℕ → Request
set_feature r request_type_type feature index length = record {
  request_type =
      set_recipient r (set_type request_type_type (set_data_direction host_to_device default_type));
  request = request_code set_feature_code;
  value = feature;
  index = index;
  length = length;
}

unfoldable pub clear_feature : RequestTypeRecipient → RequestTypeType → ℕ → ℕ → ℕ → Request
clear_feature r request_type_type feature index length = record {
  request_type =
      set_recipient r (set_type request_type_type (set_data_direction host_to_device default_type));
  request = request_code clear_feature_code;
  value = feature;
  index = index;
  length = length;
}

-- `DescriptorType::Configuration as u8`.
abbrev pub configuration_code : ℕ
configuration_code = 2

unfoldable pub get_configuration_descriptor : ℕ → ℕ → Outcome Request
get_configuration_descriptor index length =
    get_descriptor configuration_code standard index 0 length
