-- ===== src/Address/Alloc.antt =====
-- `alloc_device_address` and `free_address` of device_addr.rs.
use async_usb_host.Prelude.{ℕ, zero, suc, ◌+◌, ◌-◌, ◌%◌, ◌≤◌, ◌<◌, ◌≡◌, refl, sym, ap, ◌∙◌, ◌≢◌}
use async_usb_host.Prelude.{
  ◌⊎◌, inl, inr, arith, true, false, Bool-cases, ltb, none, some, List, [], ◌∷◌,
}
use async_usb_host.Prelude.{length, set, length-set, set-set, set-get_or, get_or-set_self}
use async_usb_host.Errors.{Outcome, ok, panics}
use async_usb_host.Types.{DeviceHandle}
use async_usb_host.Types.Port.{PortInfo, DevInfo, invalid, is_empty, parent_addr}
use async_usb_host.Address.{
  DeviceAddressManager, first_empty, alloc_device_address, free_address, take_slot,
}
use async_usb_host.Address.Tree.{slot, index-slot, IsTree, Rooted, on_root, child, OnRoot}
use async_usb_host.Address.Tree.{parent_addr-some}
use async_usb_host.Address.Freeing.{slot-set_cases}

abbrev pub AllOccupied : List PortInfo → ℕ → Type 0
AllOccupied info n = (j : ℕ) → j < n → is_empty (slot info j) ≡ false

abbrev pub FirstEmpty : List PortInfo → ℕ → Type 0
FirstEmpty info at = (at < length info) × (is_empty (slot info at) ≡ true) × AllOccupied info at

-- The search finds the first empty slot, or there is none.
first_empty_cases :
    (info : List PortInfo) (i : ℕ)
    → (first_empty i info ≡ none) × AllOccupied info (length info)
      ⊎ ((at : ℕ) × (first_empty i info ≡ some (i + at)) × FirstEmpty info at)
unfolding first_empty
first_empty_cases [] i = inl (refl, λ j h. absurd (omega arith))
first_empty_cases (p ∷ ps) i = elim (Bool-cases (is_empty p)) [
  | inl e ↦ inr (0, rw e (ap some (omega arith)), (omega arith, e, λ j h. absurd (omega arith)))
  | inr e ↦ elim (first_empty_cases ps (i + 1)) [
    | inl (run, all) ↦ inl (
      rw e run,
      λ j. elim j as (λ j. j < suc (length ps) → is_empty (slot (p ∷ ps) j) ≡ false) [
        | zero ↦ λ h. e
        | suc k ↦ λ h. all k (omega arith)
      ],
    )
    | inr (at, run, (h, free, all)) ↦ inr (
      suc at,
      rw e (run ∙ ap some (omega arith)),
      (
        omega arith,
        free,
        λ j. elim j as (λ j. j < suc at → is_empty (slot (p ∷ ps) j) ≡ false) [
          | zero ↦ λ h. e
          | suc k ↦ λ h. all k (omega arith)
        ],
      ),
    )
  ]
]

-- `o` returns the handle of the first free address, `at + 1`, with the device in its slot.
pub record Allocates (m : DeviceAddressManager) (max_packet_size : ℕ) (parent : DevInfo)
    (o : Outcome (DeviceAddressManager × DeviceHandle)) : Type 0 where
  pub at : ℕ
  pub out : DeviceAddressManager
  pub handle : DeviceHandle
  pub returns : o ≡ ok (out, handle)
  pub first : FirstEmpty m.info at
  pub table : out.info ≡ set m.info at parent.port
  pub address : handle.address ≡ at + 1
  pub packet_size : handle.max_packet_size ≡ max_packet_size
  pub dev_info : handle.parent ≡ parent

zero_plus : (n : ℕ) → 0 + n ≡ n
zero_plus n = omega arith

module _ (m : DeviceAddressManager) (max_packet_size : ℕ) (parent : DevInfo) where
  take_slot_lem :
      (i : ℕ)
      → i < 255
      → take_slot m max_packet_size parent (some i)
        ≡ ok (
          record { info = set m.info i parent.port },
          record { address = i + 1; max_packet_size = max_packet_size; parent = parent },
        )
  unfolding take_slot
  take_slot_lem i h = rw small (ground arith)
    where
      small : i % 256 ≡ i
      small = omega arith

  -- For a valid port and at most 127 slots, `alloc_device_address` takes the first free address; it
  -- panics exactly when every slot is occupied.
  pub alloc-Allocates :
      length m.info ≤ 127
      → is_empty parent.port ≡ false
      → Allocates m max_packet_size parent (alloc_device_address m max_packet_size parent)
        ⊎ AllOccupied m.info (length m.info)
          × (alloc_device_address m max_packet_size parent ≡ panics)
  unfolding alloc_device_address
  alloc-Allocates small port = elim (first_empty_cases m.info 0) [
    | inl (run, all) ↦ inr (all, rw (port, run))
    | inr (at, run, first) ↦ inl (record {
      at = at;
      out = record { info = set m.info at parent.port };
      handle = record { address = at + 1; max_packet_size = max_packet_size; parent = parent };
      returns = rw (port, run ∙ ap some (zero_plus at)) (take_slot_lem at (omega (arith, first.0)));
      first = first;
      table = refl;
      address = refl;
      packet_size = refl;
      dev_info = refl;
    })
  ]

-- `free_address` of an occupied slot empties it.
pub free_address_lem :
    (m : DeviceAddressManager) (h : DeviceHandle) (i : ℕ)
    → h.address ≡ i + 1
    → i < length m.info
    → is_empty (slot m.info i) ≡ false
    → free_address m h ≡ ok (record { info = set m.info i invalid })
unfolding free_address
free_address_lem m h i e within o =
    let less : ltb h.address 1 ≡ false = ground arith in
    let same : h.address - 1 ≡ i = omega arith in rw (less, same, index-slot m.info i within, o)

-- A new device hangs on the root port of an empty table, or on a device of the table.
abbrev pub Attaches : List PortInfo → DevInfo → Type 0
Attaches info parent =
    (parent_addr parent.port ≡ some 0) × ((i : ℕ) → ¬ OnRoot info i)
    ⊎ ((j : ℕ) × (parent_addr parent.port ≡ some (suc j)) × (is_empty (slot info j) ≡ false))

module _ (m : DeviceAddressManager) (max_packet_size : ℕ) (parent : DevInfo)
    {o : Outcome (DeviceAddressManager × DeviceHandle)} (tree : IsTree m.info)
    (a : Allocates m max_packet_size parent o) where
  slot_new :
      (j : ℕ)
      → (a.at ≡ j) × (slot a.out.info j ≡ parent.port)
        ⊎ (a.at ≢ j) × (slot a.out.info j ≡ slot m.info j)
  slot_new j = rw a.table (slot-set_cases m.info a.at j parent.port a.first.0)

  occupied_stays : (j : ℕ) → is_empty (slot m.info j) ≡ false → slot a.out.info j ≡ slot m.info j
  occupied_stays j e = ground (arith, slot_new j, a.first.1)

  Rooted-stays : {j : ℕ} → Rooted m.info j → Rooted a.out.info j
  Rooted-stays {j} (on_root e) =
      on_root (ap parent_addr (occupied_stays j (parent_addr-some _ _ e)) ∙ e)
  Rooted-stays {j} (child e r) =
      child (ap parent_addr (occupied_stays j (parent_addr-some _ _ e)) ∙ e) (Rooted-stays r)

  Rooted-new :
      Attaches m.info parent
      → (j : ℕ) → a.at ≡ j
      → slot a.out.info j ≡ parent.port
      → Rooted a.out.info j
  Rooted-new (inl (e, none_yet)) j same new = on_root (ap parent_addr new ∙ e)
  Rooted-new (inr (k, e, o)) j same new =
      child (ap parent_addr new ∙ e) (Rooted-stays (tree.rooted k o))

  Rooted-out :
      Attaches m.info parent → (j : ℕ) → is_empty (slot a.out.info j) ≡ false → Rooted a.out.info j
  Rooted-out h j e = elim (slot_new j) [
    | inl (same, new) ↦ Rooted-new h j same new
    | inr (other, old) ↦ Rooted-stays (tree.rooted j (sym (ap is_empty old) ∙ e))
  ]

  one_root_out :
      Attaches m.info parent → (i j : ℕ) → OnRoot a.out.info i → OnRoot a.out.info j → i ≡ j
  one_root_out (inl (e, none_yet)) i j ci cj =
      ground (arith, slot_new i, slot_new j, none_yet i, none_yet j)
  one_root_out (inr (k, e, o)) i j ci cj = ground (arith, slot_new i, slot_new j, tree.one_root i j)

  Allocates-IsTree : is_empty parent.port ≡ false → Attaches m.info parent → IsTree a.out.info
  Allocates-IsTree port h = record {
    rooted = Rooted-out h;
    one_root = one_root_out h;
    clean = λ j e. ground (arith, slot_new j, tree.clean j);
  }

  -- On a table that is a tree, an address that is given for a valid port and freed at once leaves the
  -- table as it was.
  pub free_address-alloc : is_empty parent.port ≡ false → free_address a.out a.handle ≡ ok m
  free_address-alloc port =
      free_address_lem a.out a.handle a.at a.address
        (omega (arith, a.first.0, ap length a.table, length-set m.info a.at parent.port))
        (ap is_empty new ∙ port)
      ∙ ap (λ (l : List PortInfo). ok (record { info = l })) restored
    where
      new : slot a.out.info a.at ≡ parent.port
      new =
          ap (λ l. slot l a.at) a.table ∙ get_or-set_self m.info a.at parent.port invalid a.first.0

      restored : set a.out.info a.at invalid ≡ m.info
      restored =
          ap (λ l. set l a.at invalid) a.table
          ∙ set-set m.info a.at parent.port invalid
          ∙ ap (set m.info a.at) (sym (tree.clean a.at a.first.1))
          ∙ set-get_or m.info a.at invalid

-- A free address was given, the device is in its slot and the table is a tree; or every slot is
-- occupied, which panics.
abbrev pub Grows : (m : DeviceAddressManager) → (max_packet_size : ℕ) → DevInfo → Type 0
Grows m max_packet_size parent =
    ((out : DeviceAddressManager) × (handle : DeviceHandle) × (j : ℕ) × (alloc_device_address m
          max_packet_size parent
        ≡ ok (out, handle))
      × (handle.address ≡ suc j)
      × (is_empty (slot m.info j) ≡ true)
      × (slot out.info j ≡ parent.port)
      × IsTree out.info)
    ⊎ AllOccupied m.info (length m.info) × (alloc_device_address m max_packet_size parent ≡ panics)

-- On a table of at most 127 slots that is a tree, `alloc_device_address` of a device on a valid port,
-- which is the root port of an empty table or the port of a device in the table, gives a free
-- address, puts the port into its slot and leaves a tree, or panics because every slot is occupied.
pub alloc-IsTree :
    (m : DeviceAddressManager) (max_packet_size : ℕ) (parent : DevInfo)
    → IsTree m.info
    → length m.info ≤ 127
    → is_empty parent.port ≡ false
    → Attaches m.info parent
    → Grows m max_packet_size parent
alloc-IsTree m max_packet_size parent tree small port h =
    elim (alloc-Allocates m max_packet_size parent small port) [
      | inl a ↦ inl (
        a.out,
        a.handle,
        a.at,
        a.returns,
        omega (arith, a.address),
        a.first.1,
        ap (λ l. slot l a.at) a.table ∙ get_or-set_self m.info a.at parent.port invalid a.first.0,
        Allocates-IsTree m max_packet_size parent tree a port h,
      )
      | inr full ↦ inr full
    ]
