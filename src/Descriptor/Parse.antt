-- ===== src/Descriptor/Parse.antt =====
-- `parse_descriptor` of descriptor/mod.rs against the wire format.
use async_usb_host.Prelude.{
  ℕ, zero, suc, ◌+◌, ◌*◌, ◌/◌, ◌%◌, ◌≤◌, ◌<◌, ◌≡◌, refl, sym, ap, ◌∙◌, ◌⊎◌, ◌↔◌, inl, inr, arith,
}
use async_usb_host.Prelude.{
  Option, none, some, List, [], ◌∷◌, ◌++◌, length, take, length-append, ltb, Bool-cases, false,
}
use async_usb_host.Prelude.{take-append}
use async_usb_host.Errors.{ok, panics, incomplete}
use async_usb_host.Descriptor.{
  Descriptor, device, configuration, endpoint, interface, unknown_descriptor, device_type,
  configuration_type, string_type, interface_type, endpoint_type, DescriptorType, type_try_from,
  byte, parse_descriptor, parse_typed, parse_known, header_size, fail, cast_device,
  cast_configuration, cast_interface, cast_endpoint,
}
use async_usb_host.Descriptor.Format.{encode, IsEncodable}

word_halves : (w : ℕ) → w % 256 + 256 * (w / 256) ≡ w
word_halves w = omega arith

byte-append : (xs ys : List ℕ) (k : ℕ) → k < length xs → byte (xs ++ ys) k ≡ byte xs k
byte-append [] ys k h = absurd (omega arith)
byte-append (x ∷ xs) ys zero h = refl
byte-append (x ∷ xs) ys (suc k) h = byte-append xs ys k (omega arith)

parse-encode_unknown :
    (t l : ℕ) (bytes rest : List ℕ)
    → IsEncodable (unknown_descriptor t l bytes)
    → parse_descriptor (bytes ++ rest) ≡ ok (unknown_descriptor t l bytes, length bytes)
unfolding parse_descriptor
parse-encode_unknown t l bytes rest (two, size, first, second, strange) =
    rw (long, is_type, strange, is_length, within, whole, size, is_type)
  where
    total : length (bytes ++ rest) ≡ l + length rest
    total = omega (arith, length-append bytes rest)

    long : ltb (length (bytes ++ rest)) 2 ≡ false
    long = ground (arith, total)

    is_length : byte (bytes ++ rest) 0 ≡ l
    is_length = byte-append bytes rest 0 (omega arith) ∙ first

    is_type : byte (bytes ++ rest) 1 ≡ t
    is_type = byte-append bytes rest 1 (omega arith) ∙ second

    within : ltb (length (bytes ++ rest)) l ≡ false
    within = ground (arith, total)

    whole : take l (bytes ++ rest) ≡ bytes
    whole = take-append bytes rest l size

-- A descriptor whose length and type fields say what it is, in its wire format and followed by any
-- bytes, is parsed as itself, with its own length.
pub parse-encode :
    (d : Descriptor) (rest : List ℕ)
    → IsEncodable d
    → parse_descriptor (encode d ++ rest) ≡ ok (d, length (encode d))
unfolding parse_descriptor type_try_from encode cast_device cast_configuration cast_interface
    cast_endpoint
parse-encode (device d) rest v = ground (
  arith,
  word_halves d.usb_release.bits,
  word_halves d.id_vendor,
  word_halves d.id_product,
  word_halves d.device_release.bits,
)
parse-encode (configuration c) rest v = ground (arith, word_halves c.total_length)
parse-encode (endpoint e) rest v = ground (arith, word_halves e.w_max_packet_size)
parse-encode (interface i) rest v = ground arith
parse-encode (unknown_descriptor t l bytes) rest v = parse-encode_unknown t l bytes rest v

-- The two kinds of buffers on which the parser panics: a string descriptor, and a descriptor of no
-- known type that is longer than the buffer.
abbrev pub PanicsOn : List ℕ → Type 0
PanicsOn buf =
    (header_size ≤ length buf)
    × ((type_try_from (byte buf 1) ≡ some string_type)
        ⊎ (type_try_from (byte buf 1) ≡ none) × (length buf < byte buf 0))

known_returns :
    (t : DescriptorType) (buf : List ℕ)
    → (parse_known t buf ≡ panics → t ≡ string_type)
      × (t ≡ string_type → parse_known t buf ≡ panics)
      × ((d : Descriptor) (n : ℕ) → parse_known t buf ≡ ok (d, n) → n ≡ byte buf 0)
unfolding parse_known
known_returns device_type buf = (λ e. ground arith, λ e. cc, λ d n e. ground arith)
known_returns configuration_type buf = (λ e. ground arith, λ e. cc, λ d n e. ground arith)
known_returns string_type buf = (λ e. refl, λ e. refl, λ d n e. cc)
known_returns interface_type buf = (λ e. ground arith, λ e. cc, λ d n e. ground arith)
known_returns endpoint_type buf = (λ e. ground arith, λ e. cc, λ d n e. ground arith)

-- By the type byte, in a buffer that holds a header.
typed_returns :
    (o : Option DescriptorType) (buf : List ℕ)
    → (parse_typed o buf ≡ panics → (o ≡ some string_type) ⊎ (o ≡ none) × (length buf < byte buf 0))
      × ((o ≡ some string_type) ⊎ (o ≡ none) × (length buf < byte buf 0)
          → parse_typed o buf ≡ panics)
      × ((d : Descriptor) (n : ℕ) → parse_typed o buf ≡ ok (d, n) → n ≡ byte buf 0)
unfolding parse_typed
typed_returns none buf = (λ e. ground arith, λ h. ground arith, λ d n e. ground arith)
typed_returns (some t) buf =
    let (a, b, c) = known_returns t buf in (λ e. inl (ap some (a e)), λ h. ground (arith, b), c)

-- The parser panics on exactly the buffers of `PanicsOn`, and a length that it returns is the length
-- byte of the descriptor.
pub parse_descriptor-returns :
    (buf : List ℕ)
    → ((parse_descriptor buf ≡ panics) ↔ PanicsOn buf)
      × ((d : Descriptor) (n : ℕ) → parse_descriptor buf ≡ ok (d, n) → n ≡ byte buf 0)
unfolding parse_descriptor
parse_descriptor-returns buf = elim (Bool-cases (ltb (length buf) header_size)) [
  | inl short ↦
      let e : parse_descriptor buf ≡ fail incomplete = rw short in
      ((λ h. absurd (ground arith), λ p. absurd (ground arith)), λ d n h. absurd (ground arith))
  | inr long ↦
      let (a, b, c) = typed_returns (type_try_from (byte buf 1)) buf in
      let e : parse_descriptor buf ≡ parse_typed (type_try_from (byte buf 1)) buf = rw long in
      ((λ h. (ground arith, a (sym e ∙ h)), λ p. e ∙ b p.1), λ d n h. c d n (sym e ∙ h))
]

pub parse_zero_length :
    (buf : List ℕ)
    → header_size ≤ length buf
    → byte buf 0 ≡ 0
    → type_try_from (byte buf 1) ≡ none
    → parse_descriptor buf ≡ ok (unknown_descriptor (byte buf 1) 0 [], 0)
unfolding parse_descriptor
parse_zero_length buf long z strange = rw (enough, strange, z, within)
  where
    enough : ltb (length buf) 2 ≡ false
    enough = ground arith

    within : ltb (length buf) 0 ≡ false
    within = ground arith
