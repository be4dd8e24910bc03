-- ===== src/Address/Tests.antt =====
-- Runs of device_addr.rs on small tables, and the theorems at inputs that meet their hypotheses.
use async_usb_host.Prelude.{ℕ, zero, suc, ◌≡◌, refl, inr, ◌⊎◌, arith, true, false, none, [], ◌∷◌}
use async_usb_host.Errors.{ok, panics}
use async_usb_host.External.BitArray.{table}
use async_usb_host.Types.Port.{DevInfo, UsbSpeed, new_port, invalid, parent_addr, is_empty, eq_port}
use async_usb_host.Address.{
  DeviceAddressManager, first_empty, alloc_device_address, free_address, free_all_addresses,
  free_subtree, find_index,
}
use async_usb_host.Address.Tree.{IsTree, Rooted, on_root, child, slot}
use async_usb_host.Address.Tree.{OnRoot}
use async_usb_host.Address.UnionFind.{Forest, union}
use async_usb_host.Address.UnionFind.Roots.{up}
use async_usb_host.Address.UnionFind.Find.{Ranked, rank_of}
use async_usb_host.Address.UnionFind.Union.{Joined, union-Joined}
use async_usb_host.Prelude.{◌≤◌, ◌≢◌}
use async_usb_host.Address.FreeAll.{FreesAll, free_all-FreesAll}
use async_usb_host.Address.Alloc.{
  Allocates, AllOccupied, Attaches, Grows, alloc-Allocates, alloc-IsTree, free_address-alloc,
}
use async_usb_host.Prelude.{sym, ◌∙◌, ◌<◌}
use async_usb_host.Address.Subtree.{Frees, free_subtree-Frees}

-- A hub with the address 1 on the root port, a hub with the address 2 on it, a device with the
-- address 3 on the first hub and one with the address 4 behind the second.
abbrev pub four : DeviceAddressManager
four = record {
  info = new_port 0x80 0 ∷ new_port 0x81 1 ∷ new_port 0x81 2 ∷ new_port 0x82 1 ∷ invalid ∷ [];
}

four-Rooted : (i : ℕ) → is_empty (slot four.info i) ≡ false → Rooted four.info i
unfolding is_empty parent_addr
four-Rooted zero e = on_root refl
four-Rooted (suc zero) e = child refl (on_root refl)
four-Rooted (suc (suc zero)) e = child refl (on_root refl)
four-Rooted (suc (suc (suc zero))) e = child refl (child refl (on_root refl))
four-Rooted (suc (suc (suc (suc zero)))) e = cc
four-Rooted (suc (suc (suc (suc (suc i))))) e = cc

four_root : (i : ℕ) → OnRoot four.info i → i ≡ 0
unfolding is_empty parent_addr
four_root zero e = refl
four_root (suc zero) e = absurd (ground arith)
four_root (suc (suc zero)) e = absurd (ground arith)
four_root (suc (suc (suc zero))) e = absurd (ground arith)
four_root (suc (suc (suc (suc zero)))) e = absurd (ground arith)
four_root (suc (suc (suc (suc (suc i))))) e = absurd (ground arith)

four_clean : (i : ℕ) → is_empty (slot four.info i) ≡ true → slot four.info i ≡ invalid
unfolding is_empty
four_clean zero e = cc
four_clean (suc zero) e = cc
four_clean (suc (suc zero)) e = cc
four_clean (suc (suc (suc zero))) e = cc
four_clean (suc (suc (suc (suc zero)))) e = refl
four_clean (suc (suc (suc (suc (suc i))))) e = refl

pub four-IsTree : IsTree four.info
four-IsTree = record {
  rooted = four-Rooted;
  one_root = λ i j ci cj. four_root i ci ∙ sym (four_root j cj);
  clean = four_clean;
}

-- Detaching the second hub, by the port that it was attached with, frees it and the device behind.
free_subtree-Frees_example : Frees table four.info 1 (free_subtree table four (new_port 0x81 1))
unfolding find_index eq_port parent_addr is_empty
free_subtree-Frees_example =
    free_subtree-Frees table four (new_port 0x81 1) 1 0 (omega arith) four-IsTree refl refl

free_all-FreesAll_example : FreesAll table four (free_all_addresses table four)
free_all-FreesAll_example = free_all-FreesAll table four (omega arith)

-- A device on port 3 of the second hub.
abbrev pub device : DevInfo
device = record {
  port = new_port 0x82 3;
  transaction_translator = none;
  speed = UsbSpeed.full_speed;
}

pub device_port : is_empty device.port ≡ false
unfolding is_empty
device_port = refl

alloc-Allocates_example :
    Allocates four 64 device (alloc_device_address four 64 device)
    ⊎ AllOccupied four.info 5 × (alloc_device_address four 64 device ≡ panics)
alloc-Allocates_example = alloc-Allocates four 64 device (omega arith) device_port

alloc_runs :
    alloc_device_address four 64 device
    ≡ ok (
      record {
        info =
            new_port 0x80 0
            ∷ new_port 0x81 1
            ∷ new_port 0x81 2
            ∷ new_port 0x82 1
            ∷ new_port 0x82 3
            ∷ [];
      },
      record { address = 5; max_packet_size = 64; parent = device },
    )
unfolding alloc_device_address first_empty is_empty
alloc_runs = refl

allocated : Allocates four 64 device (alloc_device_address four 64 device)
unfolding is_empty
allocated = record {
  at = 4;
  out = record {
    info =
        new_port 0x80 0
        ∷ new_port 0x81 1
        ∷ new_port 0x81 2
        ∷ new_port 0x82 1
        ∷ new_port 0x82 3
        ∷ [];
  };
  handle = record { address = 5; max_packet_size = 64; parent = device };
  returns = alloc_runs;
  first = (omega arith, refl, occupied);
  table = refl;
  address = refl;
  packet_size = refl;
  dev_info = refl;
}
  where
    occupied : (j : ℕ) → j < 4 → is_empty (slot four.info j) ≡ false
    occupied zero h = refl
    occupied (suc zero) h = refl
    occupied (suc (suc zero)) h = refl
    occupied (suc (suc (suc zero))) h = refl
    occupied (suc (suc (suc (suc j)))) h = absurd (omega arith)

device-Attaches : Attaches four.info device
unfolding parent_addr is_empty
device-Attaches = inr (1, refl, refl)

alloc-IsTree_example : Grows four 64 device
alloc-IsTree_example =
    alloc-IsTree four 64 device four-IsTree (omega arith) device_port device-Attaches

free_address-alloc_example : free_address allocated.out allocated.handle ≡ ok four
free_address-alloc_example = free_address-alloc four 64 device four-IsTree allocated device_port

-- Four nodes, of which 0 and 1 are joined.
abbrev pair : Forest
pair = record { parent = 0 ∷ 0 ∷ 2 ∷ 3 ∷ []; rank = 1 ∷ 0 ∷ 0 ∷ 0 ∷ [] }

pair-Ranked : Ranked 4 1 pair.parent pair.rank
pair-Ranked = record {
  size = refl;
  size_rank = refl;
  within = within;
  climbs = climbs;
  bounded = bounded;
}
  where
    within : (x : ℕ) → x < 4 → up pair.parent x < 4
    within zero h = omega arith
    within (suc zero) h = omega arith
    within (suc (suc zero)) h = omega arith
    within (suc (suc (suc zero))) h = omega arith
    within (suc (suc (suc (suc x)))) h = absurd (omega arith)

    climbs :
        (x : ℕ)
        → x < 4
        → up pair.parent x ≢ x
        → rank_of pair.rank x < rank_of pair.rank (up pair.parent x)
    climbs zero h ne = absurd (ne refl)
    climbs (suc zero) h ne = omega arith
    climbs (suc (suc zero)) h ne = absurd (ne refl)
    climbs (suc (suc (suc zero))) h ne = absurd (ne refl)
    climbs (suc (suc (suc (suc x)))) h ne = absurd (omega arith)

    bounded : (x : ℕ) → x < 4 → rank_of pair.rank x ≤ 1
    bounded zero h = omega arith
    bounded (suc zero) h = omega arith
    bounded (suc (suc zero)) h = omega arith
    bounded (suc (suc (suc zero))) h = omega arith
    bounded (suc (suc (suc (suc x)))) h = absurd (omega arith)

union-Joined_example : Joined 4 1 pair 1 3 (union pair 1 3)
union-Joined_example =
    union-Joined 4 1 pair 1 3 pair-Ranked (omega arith) (omega arith) (omega arith)
