-- ===== src/Driver/Configuration.antt =====
-- `get_configuration_descriptor` of driver/mod.rs, from the packets of a device to its descriptors.
use async_usb_host.Prelude.{
  ℕ, ◌%◌, ◌^◌, ◌<◌, ◌≤◌, ◌≡◌, refl, sym, ap, subst, ◌∙◌, arith, true, none, some, List, [], ◌∷◌,
  map, length, replicate, length-replicate, length-append, ◌-◌, leb, ◌==◌,
}
use async_usb_host.Errors.{ok, Result, done}
use async_usb_host.Types.{DeviceHandle, tog1}
use async_usb_host.Request.{
  Request, get_configuration_descriptor, data_direction, direction_code, type_code, recipient_code,
  device_to_host, standard, to_device,
}
use async_usb_host.Request.Laws.{setup_packet, requests_lem}
use async_usb_host.Descriptor.{
  Descriptor, configuration, ConfigurationDescriptor, DescriptorIterator, new_iterator, next,
}
use async_usb_host.Descriptor.Format.{encode_all, AllEncodable}
use async_usb_host.Descriptor.Iterate.{Yields, more, encode_all-Yields}
use async_usb_host.Pipe.Bus.{
  Reply, answered, Call, set_addr, setup_call, data_out_call, Bus, returned,
}
use async_usb_host.Pipe.Control.{control_transfer}
use async_usb_host.Pipe.Retry.{naks, repeated}
use async_usb_host.Pipe.Sending.{Packets, payload}
use async_usb_host.Pipe.Receiving.{sends, EndsShort, asked, control_transfer-in}
use async_usb_host.Driver.{read_configuration}

abbrev pub config_request : ℕ → Request
config_request size = setup_packet device_to_host standard to_device 6 0x200 0 size

request_of :
    (size : ℕ)
    → 0 < size
    → size < 2 ^ 16
    → get_configuration_descriptor 0 (size % 2 ^ 16) ≡ ok (config_request size)
unfolding get_configuration_descriptor
request_of size lo hi =
    let fits : size % 65536 ≡ size = omega arith in
    ap (get_configuration_descriptor 0) fits
    ∙ (requests_lem standard to_device 2 0 0 0 size (omega arith) (omega arith) lo).0

direction_of : (size : ℕ) → data_direction (config_request size).request_type ≡ device_to_host
unfolding data_direction direction_code type_code recipient_code
direction_of size = refl

payload-fits : (size room : ℕ) (ps : Packets) → EndsShort size room ps → length (payload ps) ≤ room
payload-fits size room [] v = absurd v
payload-fits size room ((n, c) ∷ []) v = omega (arith, v.1, length-append c [])
payload-fits size room ((n, c) ∷ p ∷ ps) v = omega (
  arith,
  v.1,
  length-append c (payload (p ∷ ps)),
  payload-fits size (room - length c) (p ∷ ps) v.2,
)

Yields-first :
    {it : DescriptorIterator} {r : Result Descriptor} {rs : List (Result Descriptor)}
    → Yields it (r ∷ rs)
    → (rest : DescriptorIterator) × (next it ≡ ok (some r, rest))
Yields-first (more {rest = rest} e y) = (rest, e)

-- A device that sends packets as the data stage of a transfer in.
abbrev pub answering : Packets → (n : ℕ) → (x y : List ℕ) → List Reply → List Call → Bus
answering ps n x y rs cs = record {
  replies = answered x ∷ sends ps (naks n (answered y ∷ rs));
  calls = cs;
}

-- The calls of the transfer of a configuration.
abbrev pub reading : DeviceHandle → (size : ℕ) → Packets → (n : ℕ) → List Call → List Call
reading h size ps n cs =
    data_out_call 0 tog1 true (some [])
    ∷ repeated n (data_out_call 0 tog1 true (some []))
        (asked tog1 size ps (setup_call (some (config_request size)) ∷ set_addr h.address ∷ cs))

module _ (h : DeviceHandle) (direct : h.parent.transaction_translator ≡ none) (size : ℕ)
    (lo : 0 < size) (hi : size < 2 ^ 16) where
  transferred :
      (ps : Packets) (n : ℕ) (x y : List ℕ) (rs : List Reply) (cs : List Call)
      → EndsShort h.max_packet_size size ps
      → control_transfer h (config_request size) (replicate size 0) (answering ps n x y rs cs)
        ≡ (returned (payload ps), record { replies = rs; calls = reading h size ps n cs })
  transferred ps n x y rs cs v =
      let same : size ≡ length (replicate size 0) = sym (length-replicate size 0) in
      control_transfer-in h direct (config_request size) ps x y n rs cs lo (replicate size 0)
        (omega (arith, same)) (direction_of size)
        (subst (λ r. EndsShort h.max_packet_size r ps) same v)
      ∙ ap
          (λ (r : ℕ). (
            returned (payload ps),
            record {
              replies = rs;
              calls =
                  data_out_call 0 tog1 true (some [])
                  ∷ repeated n (data_out_call 0 tog1 true (some [])) (
                      asked tog1 r ps
                        (setup_call (some (config_request size)) ∷ set_addr h.address ∷ cs));
            },
          ))
          (sym same)

  -- The function returns the iterator over the bytes that the device sent.
  pub configuration_lem :
      (ps : Packets) (c : ConfigurationDescriptor) (ds : List Descriptor) (n : ℕ) (x y : List ℕ)
      (rs : List Reply) (cs : List Call)
      → EndsShort h.max_packet_size size ps
      → payload ps ≡ encode_all (configuration c ∷ ds)
      → AllEncodable (configuration c ∷ ds)
      → c.total_length ≡ length (payload ps)
      → read_configuration h size (answering ps n x y rs cs) ≡ (
        returned (new_iterator (encode_all (configuration c ∷ ds))),
        record { replies = rs; calls = reading h size ps n cs },
      )
  unfolding read_configuration
  configuration_lem ps c ds n x y rs cs v e enc total =
      let yields : Yields (new_iterator (payload ps)) (map done (configuration c ∷ ds)) =
        subst (λ l. Yields (new_iterator l) (map done (configuration c ∷ ds))) (sym e)
          (encode_all-Yields (configuration c ∷ ds) enc) in
      let (rest, first) = Yields-first yields in
      let fits : leb (length (payload ps)) size ≡ true =
        ground (arith, payload-fits h.max_packet_size size ps v) in
      let whole : (c.total_length == length (payload ps)) ≡ true = ground arith in
      rw (request_of size lo hi, transferred ps n x y rs cs v, fits, first, whole)
        (ap
          (λ l.
            (returned (new_iterator l), record { replies = rs; calls = reading h size ps n cs }))
          e)

  -- What a device's packets come to.
  abbrev pub Reads :
      Packets
      → ConfigurationDescriptor
      → List Descriptor
      → (n : ℕ) → (x y : List ℕ) → List Reply
      → List Call
      → Type 0
  Reads ps c ds n x y rs cs =
      (it : DescriptorIterator) × ((read_configuration h size (answering ps n x y rs cs)).0
        ≡ returned it)
      × Yields it (map done (configuration c ∷ ds))

  -- From a device without a translator that sends its configuration and the descriptors that belong
  -- to it, in packets that end with a short one and fit a buffer of less than 64 KiB, the function
  -- returns an iterator that yields exactly these descriptors.
  pub configuration-Reads :
      (ps : Packets) (c : ConfigurationDescriptor) (ds : List Descriptor) (n : ℕ) (x y : List ℕ)
      (rs : List Reply) (cs : List Call)
      → EndsShort h.max_packet_size size ps
      → payload ps ≡ encode_all (configuration c ∷ ds)
      → AllEncodable (configuration c ∷ ds)
      → c.total_length ≡ length (payload ps)
      → Reads ps c ds n x y rs cs
  configuration-Reads ps c ds n x y rs cs v e enc total = (
    new_iterator (encode_all (configuration c ∷ ds)),
    ap (λ r. r.0) (configuration_lem ps c ds n x y rs cs v e enc total),
    encode_all-Yields (configuration c ∷ ds) enc,
  )
