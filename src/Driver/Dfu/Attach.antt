-- ===== src/Driver/Dfu/Attach.antt =====
-- `UsbDfu::try_attach` of driver/dfu.rs, from the packets of a device to its decision.
use async_usb_host.Prelude.{
  ℕ, ◌+◌, ◌*◌, sym, inl, inr, Bool-cases, ◌≡◌, refl, ap, ◌∙◌, arith, Bool, true, false, ◌&&◌, ◌||◌,
  Option, none, some, List, [], ◌∷◌, leb, length, ◌==◌, if◌then◌else◌,
}
use async_usb_host.Errors.{invalid_state, unexpected_device}
use async_usb_host.Types.{DeviceHandle, from_le_bytes}
use async_usb_host.Descriptor.{
  Descriptor, device, configuration, interface, endpoint, unknown_descriptor,
  ConfigurationDescriptor,
}
use async_usb_host.Descriptor.Format.{encode_all, AllEncodable}
use async_usb_host.Pipe.Bus.{Reply, Call, Bus, Status, returned, raised}
use async_usb_host.Pipe.Sending.{Packets, payload}
use async_usb_host.Pipe.Receiving.{EndsShort}
use async_usb_host.Driver.Configuration.{answering, reading, configuration_lem}
use async_usb_host.Driver.Items.{visit_all, for_items-visit_all}
use async_usb_host.Driver.Dfu.{
  DfuInfo, UsbDfu, dfu_info, decided, is_dfu_interface, visit_dfu, try_attach_dfu,
}

-- No descriptor of the list is a device descriptor.
abbrev pub NoDevice : List Descriptor → Type 0
NoDevice [] = Unit {0}
NoDevice (device d ∷ ds) = ⊥
NoDevice (configuration c ∷ ds) = NoDevice ds
NoDevice (interface i ∷ ds) = NoDevice ds
NoDevice (endpoint e ∷ ds) = NoDevice ds
NoDevice (unknown_descriptor t l bytes ∷ ds) = NoDevice ds

abbrev pub or_else : Option DfuInfo → Option DfuInfo → Option DfuInfo
or_else (some info) other = some info
or_else none other = other

-- What a functional descriptor of at least nine bytes says: its capabilities, the timeout of a detach,
-- the size of a transfer and the version, of which the last three have two bytes, the low one first.
abbrev pub functional : List ℕ → Option DfuInfo
functional (l ∷ t ∷ caps ∷ d0 ∷ d1 ∷ s0 ∷ s1 ∷ v0 ∷ v1 ∷ more) = some (record {
  capabilities = record { bits = caps };
  detach_timeout = d0 + 256 * d1;
  transfer_size = s0 + 256 * s1;
  version = record { bits = v0 + 256 * v1 };
})
functional bytes = none

-- The functional descriptor that stands last.
abbrev pub last_info : List Descriptor → Option DfuInfo
last_info [] = none
last_info (unknown_descriptor t l bytes ∷ ds) =
    or_else (last_info ds) (if t == 0x21 then functional bytes else none)
last_info (device d ∷ ds) = last_info ds
last_info (configuration c ∷ ds) = last_info ds
last_info (interface i ∷ ds) = last_info ds
last_info (endpoint e ∷ ds) = last_info ds

-- The test and the fields of the code, on the bytes of a descriptor.
functional_long :
    (bytes : List ℕ) (info : Option DfuInfo)
    → (if leb 9 (length bytes) then some (dfu_info bytes) else info)
      ≡ or_else (functional bytes) info
unfolding dfu_info from_le_bytes
functional_long [] info = refl
functional_long (a ∷ []) info = refl
functional_long (a ∷ b ∷ []) info = refl
functional_long (a ∷ b ∷ c ∷ []) info = refl
functional_long (a ∷ b ∷ c ∷ d ∷ []) info = refl
functional_long (a ∷ b ∷ c ∷ d ∷ e ∷ []) info = refl
functional_long (a ∷ b ∷ c ∷ d ∷ e ∷ f ∷ []) info = refl
functional_long (a ∷ b ∷ c ∷ d ∷ e ∷ f ∷ g ∷ []) info = refl
functional_long (a ∷ b ∷ c ∷ d ∷ e ∷ f ∷ g ∷ h ∷ []) info = refl
functional_long (a ∷ b ∷ c ∷ d ∷ e ∷ f ∷ g ∷ h ∷ i ∷ more) info =
    let enough : leb 9 (length (a ∷ b ∷ c ∷ d ∷ e ∷ f ∷ g ∷ h ∷ i ∷ more)) ≡ true = ground arith in
    rw enough refl

functional_lem :
    (t l : ℕ) (bytes : List ℕ)
    → length bytes ≡ l
    → (info : Option DfuInfo)
    → (if t == 0x21 && leb 9 l then some (dfu_info bytes) else info)
      ≡ or_else (if t == 0x21 then functional bytes else none) info
functional_lem t l bytes e info = elim (Bool-cases (t == 0x21)) [
  | inl q ↦ rw (q, sym e) (functional_long bytes info)
  | inr q ↦ rw q refl
]

or_else_assoc : (x y z : Option DfuInfo) → or_else x (or_else y z) ≡ or_else (or_else x y) z
or_else_assoc (some i) y z = refl
or_else_assoc none y z = refl

or_moved : (t f h : Bool) → ((if t then true else f) || h) ≡ (f || (t || h))
or_moved true true h = refl
or_moved true false h = refl
or_moved false f h = refl

or_else-none : (o : Option DfuInfo) → or_else o none ≡ o
or_else-none (some info) = refl
or_else-none none = refl

module _ (appn_spec protocol_rt : ℕ) where
  -- Some interface is that of a device that takes a firmware.
  abbrev pub has_dfu : List Descriptor → Bool
  has_dfu [] = false
  has_dfu (interface i ∷ ds) =
      (i.b_interface_class == appn_spec && i.b_interface_sub_class == protocol_rt) || has_dfu ds
  has_dfu (device d ∷ ds) = has_dfu ds
  has_dfu (configuration c ∷ ds) = has_dfu ds
  has_dfu (endpoint e ∷ ds) = has_dfu ds
  has_dfu (unknown_descriptor t l bytes ∷ ds) = has_dfu ds

  -- What the driver comes to.
  abbrev pub verdict : DeviceHandle → Bool → Option DfuInfo → Status UsbDfu
  verdict handle true (some info) = returned (record { device_handle = handle; info = info })
  verdict handle true none = raised invalid_state
  verdict handle false info = raised unexpected_device

  visits :
      (ds : List Descriptor)
      → NoDevice ds
      → AllEncodable ds
      → (is_dfu : Bool) (info : Option DfuInfo) (b : Bus)
      → visit_all (visit_dfu appn_spec protocol_rt) ds (is_dfu, info) b
        ≡ (returned (is_dfu || has_dfu ds, or_else (last_info ds) info), b)
  visits [] v enc true info b = refl
  visits [] v enc false info b = refl
  visits (configuration c ∷ ds) v enc is_dfu info b = visits ds v enc.1 is_dfu info b
  visits (endpoint e ∷ ds) v enc is_dfu info b = visits ds v enc.1 is_dfu info b
  visits (interface i ∷ ds) v enc is_dfu info b =
      visits ds v enc.1 (if is_dfu_interface appn_spec protocol_rt i then true else is_dfu) info b
      ∙ ap (λ (t : Bool). (returned (t, or_else (last_info ds) info), b))
          (or_moved (is_dfu_interface appn_spec protocol_rt i) is_dfu (has_dfu ds))
  visits (unknown_descriptor t l bytes ∷ ds) v enc is_dfu info b =
      visits ds v enc.1 is_dfu (if t == 0x21 && leb 9 l then some (dfu_info bytes) else info) b
      ∙ ap (λ (o : Option DfuInfo). (returned (is_dfu || has_dfu ds, o), b))
          (ap (or_else (last_info ds)) (functional_lem t l bytes enc.0.1 info)
            ∙ or_else_assoc (last_info ds) (if t == 0x21 then functional bytes else none) info)
  visits (device d ∷ ds) v enc is_dfu info b = absurd v

  decides :
      (handle : DeviceHandle) (has : Bool) (o : Option DfuInfo) (b : Bus)
      → decided handle (has, o) b ≡ (verdict handle has o, b)
  decides handle true (some info) b = refl
  decides handle true none b = refl
  decides handle false o b = refl

  module _ (h : DeviceHandle) (direct : h.parent.transaction_translator ≡ none) where
    -- `try_attach` on the packets of a device.
    abbrev pub Decides :
        Packets → List Descriptor → (n : ℕ) → (x y : List ℕ) → List Reply → List Call → Type 0
    Decides ps ds n x y rs cs =
        try_attach_dfu appn_spec protocol_rt h (answering ps n x y rs cs) ≡ (
          verdict h (has_dfu ds) (last_info ds),
          record { replies = rs; calls = reading h 255 ps n cs },
        )

    -- From a device without a translator that sends its configuration and the descriptors that belong
    -- to it, none of them a device descriptor, in packets that end with a short one and fit 255 bytes,
    -- the driver attaches exactly when an interface has the class and the subclass of a firmware
    -- update and there is a functional descriptor of at least nine bytes, of which it keeps the last;
    -- with the interface alone the error is InvalidState, and without it UnexpectedDevice.
    pub try_attach-Decides :
        (ps : Packets) (c : ConfigurationDescriptor) (ds : List Descriptor) (n : ℕ) (x y : List ℕ)
        (rs : List Reply) (cs : List Call)
        → EndsShort h.max_packet_size 255 ps
        → payload ps ≡ encode_all (configuration c ∷ ds)
        → AllEncodable (configuration c ∷ ds)
        → c.total_length ≡ length (payload ps)
        → NoDevice ds
        → Decides ps ds n x y rs cs
    unfolding try_attach_dfu
    try_attach-Decides ps c ds n x y rs cs v e enc total plain =
        let b : Bus = record { replies = rs; calls = reading h 255 ps n cs } in
        rw (
          configuration_lem h direct 255 (omega arith) (omega arith) ps c ds n x y rs cs v e enc
              total,
          for_items-visit_all (visit_dfu appn_spec protocol_rt) (configuration c ∷ ds) (false, none)
              b enc,
          visits ds plain enc.1 false none b,
          or_else-none (last_info ds),
          decides h (has_dfu ds) (last_info ds) b,
        )
