-- ===== src/Address/Detach.antt =====
-- The port that a hub reports on a detach, `PortInfo::new(address, port)` of driver/hub.rs, against
-- the table of device_addr.rs, whose entries carry the valid flag.
use async_usb_host.Prelude.{ℕ, suc, ◌+◌, ◌<◌, ◌≡◌, refl, ap, inl, inr, arith, bit_and, ◌==◌, ==→≡}
use async_usb_host.Prelude.{true, false, Bool-cases, none, List, [], ◌∷◌}
use async_usb_host.Errors.{ok}
use async_usb_host.External.BitArray.{BitArray}
use async_usb_host.Types.Port.{PortInfo, invalid, new_port, is_empty, eq_port}
use async_usb_host.Types.Laws.{packed}
use async_usb_host.Address.{DeviceAddressManager, find_index, free_subtree}
use async_usb_host.Address.Tree.{slot, IsTree}

-- No entry equals a port without the valid flag on a port number above 0.
eq_port_flagless :
    (p : PortInfo) (a port : ℕ)
    → a < 128
    → 0 < port
    → (is_empty p ≡ true → p ≡ invalid)
    → eq_port p (new_port a port) ≡ false
unfolding eq_port is_empty
eq_port_flagless p a port h pos clean = elim (Bool-cases (is_empty p)) [
  | inl e ↦ ground (arith, clean e)
  | inr e ↦ elim (Bool-cases (p.valid_parent_addr == a)) [
    | inl same ↦ ground (arith, packed a h, ap (λ v. bit_and v 0x80) (==→≡ _ a same))
    | inr other ↦ ground arith
  ]
]

find_index_flagless :
    (info : List PortInfo) (i a port : ℕ)
    → a < 128
    → 0 < port
    → ((j : ℕ) → is_empty (slot info j) ≡ true → slot info j ≡ invalid)
    → find_index (new_port a port) i info ≡ none
unfolding find_index
find_index_flagless [] i a port h pos clean = refl
find_index_flagless (p ∷ ps) i a port h pos clean =
    rw (eq_port_flagless p a port h pos (clean 0))
      (find_index_flagless ps (i + 1) a port h pos (λ j. clean (suc j)))

-- For a port above 0 of a hub, without the valid flag, `free_subtree` frees nothing and returns the
-- empty mask, on every table that is a tree.
pub free_subtree_flagless :
    (B : BitArray) (m : DeviceAddressManager) (address port : ℕ)
    → IsTree m.info
    → address < 128
    → 0 < port
    → free_subtree B m (new_port address port) ≡ ok (m, B.zeros)
unfolding free_subtree
free_subtree_flagless B m a port tree h pos =
    rw (find_index_flagless m.info 0 a port h pos tree.clean, free_subtree)
