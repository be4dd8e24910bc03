-- ===== src/Address.antt =====
-- device_addr.rs: the table of device addresses. Slot `i` holds the port of the device with the
-- address `i + 1`, or an empty `PortInfo`.
pub mod UnionFind
pub mod Tree
pub mod Connect
pub mod RootComponent
pub mod Freeing
pub mod Disconnected
pub mod Subtree
pub mod Alloc
pub mod FreeAll
pub mod Detach
pub mod Marks
pub mod Tests
use async_usb_host.Prelude.{ℕ, zero, suc, ◌+◌, ◌-◌, ◌%◌, Bool, true, false, not, ◌&&◌}
use async_usb_host.Prelude.{Option, none, some, List, [], ◌∷◌, length, set, replicate}
use async_usb_host.Prelude.{ltb, ◌==◌, if◌then◌else◌}
use async_usb_host.Errors.{Outcome, ok, panics, assert, index, ◌>>=◌, ◌>>◌}
use async_usb_host.Loops.{for_range}
use async_usb_host.External.BitArray.{BitArray}
use async_usb_host.Types.{DeviceHandle}
use async_usb_host.Types.Port.{PortInfo, DevInfo, invalid, is_empty, parent_addr, eq_port}
use UnionFind.{Forest, find, union, count_up}

-- `NR_DEVICES` is the length of the array.
pub record DeviceAddressManager : Type 0 where
  pub info : List PortInfo

-- `DeviceAddressManager::new`.
unfoldable pub new_manager : ℕ → DeviceAddressManager
new_manager nr_devices = record { info = replicate nr_devices invalid }

-- The search of `alloc_device_address`, from slot `i` on.
unfoldable pub first_empty : ℕ → List PortInfo → Option ℕ
first_empty i [] = none
first_empty i (p ∷ ps) = if is_empty p then some i else first_empty (i + 1) ps

-- `a + b` and `a - b` on bytes and sizes, checked as in a debug build.
add_u8 : ℕ → ℕ → Outcome ℕ
add_u8 a b = if ltb (a + b) 256 then ok (a + b) else panics

sub_usize : ℕ → ℕ → Outcome ℕ
sub_usize a b = if ltb a b then panics else ok (a - b)

-- The arm of the search that found the slot `i`, and the `panic!` after a search in vain.
take_slot :
    DeviceAddressManager → ℕ → DevInfo → Option ℕ → Outcome (DeviceAddressManager × DeviceHandle)
unfolding add_u8
take_slot m max_packet_size parent none = panics
take_slot m max_packet_size parent (some i) = do
  address ← add_u8 (i % 256) 1
  ok (
    record { info = set m.info i parent.port },
    record { address = address; max_packet_size = max_packet_size; parent = parent },
  )

unfoldable pub alloc_device_address :
    DeviceAddressManager → ℕ → DevInfo → Outcome (DeviceAddressManager × DeviceHandle)
unfolding take_slot
alloc_device_address m max_packet_size parent = do
  assert (not (is_empty parent.port))
  take_slot m max_packet_size parent (first_empty 0 m.info)

unfoldable pub free_address : DeviceAddressManager → DeviceHandle → Outcome DeviceAddressManager
unfolding sub_usize
free_address m device_handle = do
  i ← sub_usize device_handle.address 1
  p ← index m.info i
  assert (not (is_empty p))
  ok (record { info = set m.info i invalid })

-- The search of `find_index`, from slot `i` on.
unfoldable pub find_index : PortInfo → ℕ → List PortInfo → Option ℕ
find_index dev_info i [] = none
find_index dev_info i (p ∷ ps) =
    if eq_port p dev_info then some i else find_index dev_info (i + 1) ps

-- Connect slot `i` to the slot of its parent.
connect_parent : ℕ → Forest → Option ℕ → Outcome Forest
connect_parent i s none = ok s
connect_parent i s (some a) = if ltb 0 a then union s i (a - 1) else ok s

unfoldable pub connect : List PortInfo → ℕ → Forest → Outcome Forest
unfolding connect_parent
connect info i s = do
  p ← index info i
  if is_empty p then ok s else connect_parent i s (parent_addr p)

-- `parent_addr() == Some(0)`.
unfoldable pub is_root : PortInfo → Bool
is_root p = elim (parent_addr p) [ none ↦ false | some a ↦ a == 0 ]

-- The loop that looks for the root's component, with `n` slots to go from slot `i`.
unfoldable pub root_component : ℕ → ℕ → List PortInfo → List ℕ → Outcome (List ℕ × Option ℕ)
root_component zero i info parent = ok (parent, none)
root_component (suc n) i info parent = do
  p ← index info i
  let next = root_component n (i + 1) info parent
  let found : Outcome (List ℕ × Option ℕ) = find parent i >>= λ (parent', r). ok (parent', some r)
  if not (is_empty p) && is_root p then found else next

module _ (B : BitArray) where
  open B use {Bits, zeros, set_bit}

  -- `DeviceDisconnectMask`.
  abbrev pub DeviceDisconnectMask : Type 0
  DeviceDisconnectMask = Bits

  -- `DeviceDisconnectMask::remove`.
  unfoldable pub remove_address : DeviceDisconnectMask → ℕ → Outcome DeviceDisconnectMask
  remove_address mask address = set_bit mask address false

  -- One round of `free_all_addresses`.
  free_slot : ℕ → List PortInfo × Bits → Outcome (List PortInfo × Bits)
  free_slot i (info, mask) = do
    p ← index info i
    let emptied : Outcome (List PortInfo × Bits) =
        set_bit mask (i + 1) true >>= λ mask'. ok (set info i invalid, mask')
    if is_empty p then ok (info, mask) else emptied

  unfoldable pub free_all_addresses :
      DeviceAddressManager → Outcome (DeviceAddressManager × DeviceDisconnectMask)
  unfolding free_slot
  free_all_addresses m = do
    (info, mask) ← for_range (length m.info) 0 free_slot (m.info, zeros)
    ok (record { info = info }, mask)

  -- What the last loop of `free_subtree` changes.
  pub record Sweep : Type 0 where
    pub info : List PortInfo
    pub mask : Bits
    pub parent : List ℕ

  -- One round of it, at slot `i`: the device is freed unless it is connected to the root.
  pub sweep : ℕ → ℕ → Sweep → Outcome Sweep
  sweep root i s = do
    p ← index s.info i
    let visit : Outcome Sweep = do
      (parent, r) ← find s.parent i
      let cut : Outcome Sweep = do
        mask ← set_bit s.mask (i + 1) true
        ok (record { info = set s.info i invalid; mask = mask; parent = parent })
      if r == root then ok (record s { parent = parent }) else cut
    if is_empty p then ok s else visit

  -- The component of the root, if a root is left, stays; all else is freed.
  sweep_from : Option ℕ → Sweep → Outcome Sweep
  sweep_from none s = ok s
  sweep_from (some root) s = for_range (length s.info) 0 (sweep root) s

  -- The part of `free_subtree` after the device's own slot was emptied: the parts of the table that
  -- are not connected to the root are freed.
  pub free_disconnected :
      List PortInfo → Bits → Outcome (DeviceAddressManager × DeviceDisconnectMask)
  unfolding sweep_from sweep
  free_disconnected info mask = do
    let n = length info
    let apart : Forest = record { parent = count_up 0 n; rank = replicate n 0 }
    forest ← for_range n 0 (connect info) apart
    (parent, root) ← root_component n 0 info forest.parent
    s ← sweep_from root (record { info = info; mask = mask; parent = parent })
    ok (record { info = s.info }, s.mask)

  -- The part of `free_subtree` after the device was found, at slot `idx`.
  free_found : DeviceAddressManager → ℕ → Outcome (DeviceAddressManager × DeviceDisconnectMask)
  unfolding free_disconnected
  free_found m idx = do
    p ← index m.info idx
    assert (not (is_empty p))
    mask ← set_bit zeros (idx + 1) true
    free_disconnected (set m.info idx invalid) mask

  unfoldable pub free_subtree :
      DeviceAddressManager → PortInfo → Outcome (DeviceAddressManager × DeviceDisconnectMask)
  unfolding free_found
  free_subtree m dev_info = elim (find_index dev_info 0 m.info) [
    | none ↦ ok (m, zeros)
    | some idx ↦ free_found m idx
  ]
