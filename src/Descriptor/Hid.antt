-- ===== src/Descriptor/Hid.antt =====
-- descriptor/hid.rs: the HID descriptor, read from the first seven bytes of a buffer.
use async_usb_host.Prelude.{
  ℕ, ◌+◌, ◌*◌, ◌%◌, ◌/◌, ◌<◌, ◌≡◌, List, [], ◌∷◌, ◌++◌, length, ltb, if◌then◌else◌,
}
use async_usb_host.Prelude.{Option, none, some, arith, ◌↔◌}
use async_usb_host.Types.{Bcd16}
use async_usb_host.Descriptor.{byte, word}

pub record HidDescriptor : Type 0 where
  pub total_length : ℕ
  pub descriptor_type : ℕ
  pub bcd_hid : Bcd16
  pub country_code : ℕ
  pub flags : ℕ
  pub num_descriptors : ℕ

-- `size_of::<HIDDescriptor>()`.
abbrev hid_size : ℕ
hid_size = 7

-- `HIDDescriptor::parse`.
unfoldable pub parse_hid : List ℕ → Option HidDescriptor
parse_hid buf =
    if ltb (length buf) hid_size
    then none
    else some (record {
      total_length = byte buf 0;
      descriptor_type = byte buf 1;
      bcd_hid = record { bits = word buf 2 };
      country_code = byte buf 4;
      flags = byte buf 5;
      num_descriptors = byte buf 6;
    })

-- The wire format.
unfoldable pub encode_hid : HidDescriptor → List ℕ
encode_hid d =
    d.total_length
    ∷ d.descriptor_type
    ∷ d.bcd_hid.bits % 256
    ∷ d.bcd_hid.bits / 256
    ∷ d.country_code
    ∷ d.flags
    ∷ d.num_descriptors
    ∷ []

halves : (w : ℕ) → w % 256 + 256 * (w / 256) ≡ w
halves w = omega arith

-- `parse` reads back the wire format of a descriptor, followed by any bytes, and it fails on exactly
-- the buffers of fewer than seven bytes.
pub parse_hid_lem :
    (d : HidDescriptor) (rest buf : List ℕ)
    → (parse_hid (encode_hid d ++ rest) ≡ some d) × ((parse_hid buf ≡ none) ↔ (length buf < 7))
unfolding parse_hid encode_hid
parse_hid_lem d rest buf =
    (ground (arith, halves d.bcd_hid.bits), (λ e. ground arith, λ h. ground arith))
