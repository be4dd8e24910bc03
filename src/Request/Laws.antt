-- ===== src/Request/Laws.antt =====
-- The bits of the request type of request/mod.rs: direction in bit 7, type in bits 5 and 6,
-- recipient in bits 0 to 4; and the fields that the requests come to.
use async_usb_host.Prelude.{ℕ, ◌+◌, ◌*◌, ◌/◌, ◌%◌, ◌<◌, bit_and, bit_or, ◌≡◌, refl, ap}
use async_usb_host.Prelude.{arith, Bool, true, ◌&&◌, ◌==◌}
use async_usb_host.Prelude.Bits.{passes_under, passes_under-at}
use async_usb_host.Errors.{ok, panics}
use async_usb_host.Request.{
  RequestType, RequestTypeDirection, host_to_device, device_to_host, RequestTypeType, standard,
  class, vendor, rsvd, RequestTypeRecipient, to_device, to_interface, to_endpoint, to_other,
  direction_code, type_code, recipient_code, request_code, recipient_of, data_direction,
  set_data_direction, set_type, recipient, set_recipient, Request, get_descriptor, get_status,
  set_feature, clear_feature, set_configuration, default_type,
}

-- What the masks of a byte come to.
masks : ℕ → Bool
masks b =
    (bit_or (bit_and b 0x7F) 0 == b % 128)
    && ((bit_or (bit_and b 0x7F) 128 == 128 + b % 128)
        && ((bit_or (bit_and b 0x9F) 0 == 128 * (b / 128) + b % 32)
            && ((bit_or (bit_and b 0x9F) 32 == 128 * (b / 128) + 32 + b % 32)
                && ((bit_or (bit_and b 0x9F) 64 == 128 * (b / 128) + 64 + b % 32)
                    && ((bit_or (bit_and b 0x9F) 96 == 128 * (b / 128) + 96 + b % 32)
                        && ((bit_or (bit_and b 0xE0) 0 == 32 * (b / 32))
                            && ((bit_or (bit_and b 0xE0) 1 == 32 * (b / 32) + 1)
                                && ((bit_or (bit_and b 0xE0) 2 == 32 * (b / 32) + 2)
                                    && ((bit_or (bit_and b 0xE0) 3 == 32 * (b / 32) + 3)
                                        && ((bit_and (b / 128) 1 == b / 128)
                                            && (bit_and b 0x1F == b % 32)))))))))))

masks_table : passes_under masks 256 ≡ true
unfolding passes_under masks
masks_table = refl

module _ (b : ℕ) where
  direction_bits :
      (d : RequestTypeDirection)
      → b < 256
      → (set_data_direction d (record { bits = b })).bits ≡ 128 * direction_code d + b % 128
  unfolding set_data_direction direction_code masks
  direction_bits host_to_device h = ground (arith, passes_under-at masks 256 b masks_table h)
  direction_bits device_to_host h = ground (arith, passes_under-at masks 256 b masks_table h)

  type_bits :
      (t : RequestTypeType)
      → b < 256
      → (set_type t (record { bits = b })).bits ≡ 128 * (b / 128) + 32 * type_code t + b % 32
  unfolding set_type type_code masks
  type_bits standard h = ground (arith, passes_under-at masks 256 b masks_table h)
  type_bits class h = ground (arith, passes_under-at masks 256 b masks_table h)
  type_bits vendor h = ground (arith, passes_under-at masks 256 b masks_table h)
  type_bits rsvd h = ground (arith, passes_under-at masks 256 b masks_table h)

  recipient_bits :
      (r : RequestTypeRecipient)
      → b < 256
      → (set_recipient r (record { bits = b })).bits ≡ 32 * (b / 32) + recipient_code r
  unfolding set_recipient recipient_code masks
  recipient_bits to_device h = ground (arith, passes_under-at masks 256 b masks_table h)
  recipient_bits to_interface h = ground (arith, passes_under-at masks 256 b masks_table h)
  recipient_bits to_endpoint h = ground (arith, passes_under-at masks 256 b masks_table h)
  recipient_bits to_other h = ground (arith, passes_under-at masks 256 b masks_table h)

-- What the setters and the getters do to a byte.
abbrev pub TypeBits : ℕ → RequestTypeDirection → RequestTypeType → RequestTypeRecipient → Type 0
TypeBits b d t r =
    ((set_data_direction d (record { bits = b })).bits ≡ 128 * direction_code d + b % 128)
    × ((set_type t (record { bits = b })).bits ≡ 128 * (b / 128) + 32 * type_code t + b % 32)
    × ((set_recipient r (record { bits = b })).bits ≡ 32 * (b / 32) + recipient_code r)
    × (direction_code (data_direction (record { bits = b })) ≡ b / 128)
    × (recipient (record { bits = b }) ≡ recipient_of (b % 32))

-- The two bytes of a word.
joins : ℕ → ℕ → Bool
joins hi lo = bit_or (hi * 256) lo == hi * 256 + lo

joins_table : passes_under (λ hi. passes_under (joins hi) 256) 256 ≡ true
unfolding passes_under joins
joins_table = refl

word_of : (hi lo : ℕ) → hi < 256 → lo < 256 → bit_or (hi * 256) lo ≡ hi * 256 + lo
unfolding joins
word_of hi lo h l = ground (
  arith,
  passes_under-at (joins hi) 256 lo
      (passes_under-at (λ k. passes_under (joins k) 256) 256 hi joins_table h) l,
)

-- The setup packet of the protocol: the fields of `bmRequestType` are added up.
abbrev pub setup_packet :
    RequestTypeDirection
    → RequestTypeType
    → RequestTypeRecipient
    → (request value index length : ℕ) → Request
setup_packet d t r request value index length = record {
  request_type = record { bits = 128 * direction_code d + 32 * type_code t + recipient_code r };
  request = request;
  value = value;
  index = index;
  length = length;
}

direction_code_bounded : (d : RequestTypeDirection) → direction_code d < 2
unfolding direction_code
direction_code_bounded host_to_device = omega arith
direction_code_bounded device_to_host = omega arith

type_code_bounded : (t : RequestTypeType) → type_code t < 4
unfolding type_code
type_code_bounded standard = omega arith
type_code_bounded class = omega arith
type_code_bounded vendor = omega arith
type_code_bounded rsvd = omega arith

-- The three setters on the default.
type_of :
    (d : RequestTypeDirection) (t : RequestTypeType) (r : RequestTypeRecipient)
    → set_recipient r (set_type t (set_data_direction d default_type))
      ≡ record { bits = 128 * direction_code d + 32 * type_code t + recipient_code r }
type_of d t r = ap (λ b. record { bits = b }) total
  where
    first : RequestType
    first = set_data_direction d default_type

    first_bits : first.bits ≡ 128 * direction_code d
    first_bits = omega (arith, direction_bits 0 d (omega arith))

    second_bits : (set_type t first).bits ≡ 128 * direction_code d + 32 * type_code t
    second_bits = omega (
      arith,
      first_bits,
      direction_code_bounded d,
      type_bits first.bits t (omega (arith, first_bits, direction_code_bounded d)),
    )

    total :
        (set_recipient r (set_type t first)).bits
        ≡ 128 * direction_code d + 32 * type_code t + recipient_code r
    total = omega (
      arith,
      second_bits,
      direction_code_bounded d,
      type_code_bounded t,
      recipient_bits (set_type t first).bits r
          (omega (arith, second_bits, direction_code_bounded d, type_code_bounded t)),
    )

get_descriptor_setup :
    (dt di lang len : ℕ) (t : RequestTypeType)
    → dt < 256
    → di < 256
    → 0 < len
    → get_descriptor dt t di lang len
      ≡ ok (setup_packet device_to_host t to_device 6 (256 * dt + di) lang len)
unfolding get_descriptor request_code
get_descriptor_setup dt di lang len t h l p =
    ground (arith, word_of dt di h l, type_of device_to_host t to_device)

configured :
    (value : ℕ)
    → set_configuration value ≡ setup_packet host_to_device standard to_device 9 value 0 0
unfolding set_configuration set_data_direction set_recipient direction_code type_code recipient_code
    request_code
configured value = refl

-- What the requests come to: GET_DESCRIPTOR, with the type and the index in the two bytes of the
-- value, GET_STATUS, SET_FEATURE, CLEAR_FEATURE and SET_CONFIGURATION.
abbrev pub SetupPackets :
    RequestTypeType → RequestTypeRecipient → (dt di value index len : ℕ) → Type 0
SetupPackets t r dt di value index len =
    (get_descriptor dt t di index len
      ≡ ok (setup_packet device_to_host t to_device 6 (256 * dt + di) index len))
    × (get_descriptor dt t di index 0 ≡ panics)
    × (get_status r t value index len ≡ setup_packet device_to_host t r 0 value index len)
    × (set_feature r t value index len ≡ setup_packet host_to_device t r 3 value index len)
    × (clear_feature r t value index len ≡ setup_packet host_to_device t r 1 value index len)
    × (set_configuration value ≡ setup_packet host_to_device standard to_device 9 value 0 0)

pub requests_lem :
    (t : RequestTypeType) (r : RequestTypeRecipient) (dt di value index len : ℕ)
    → dt < 256
    → di < 256
    → 0 < len
    → SetupPackets t r dt di value index len
unfolding get_descriptor get_status set_feature clear_feature set_configuration request_code
requests_lem t r dt di value index len h l p = (
  get_descriptor_setup dt di index len t h l p,
  refl,
  rw (type_of device_to_host t r) refl,
  rw (type_of host_to_device t r) refl,
  rw (type_of host_to_device t r) refl,
  configured value,
)
