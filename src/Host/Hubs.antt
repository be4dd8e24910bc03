-- ===== src/Host/Hubs.antt =====
-- `remove_disconnected_hubs` of lib.rs.
use async_usb_host.Prelude.{ℕ, zero, suc, ◌+◌, List, length, get_elem?, none, some, if◌then◌else◌}
use async_usb_host.Errors.{Outcome, ok, ◌>>=◌}
use async_usb_host.External.BitArray.{BitArray}
use async_usb_host.External.ArrayVec.{ArrayVec}
use async_usb_host.Address.{remove_address}
use async_usb_host.HubDriver.{Hub}

module _ (B : BitArray) (V : ArrayVec) where
  -- The `while` loop from index `i` on. Each round removes a hub or moves on, so that the number of
  -- hubs is fuel enough. `mask.iter().any(…)` is the bit of the hub's address.
  unfoldable pub remove_from : ℕ → (i : ℕ) → List Hub → B.Bits → Outcome (List Hub × B.Bits)
  remove_from zero i hubs mask = ok (hubs, mask)
  remove_from (suc n) i hubs mask = elim (get_elem? hubs i) [
    | none ↦ ok (hubs, mask)
    | some hub ↦
        let removing : Outcome (List Hub × B.Bits) =
          remove_address B mask hub.handle.address >>= λ mask'.
          remove_from n i (V.swap_remove hubs i) mask' in
        let moving = remove_from n (i + 1) hubs mask in
        if B.get_bit mask hub.handle.address then removing else moving
  ]

  unfoldable pub remove_disconnected_hubs : List Hub → B.Bits → Outcome (List Hub × B.Bits)
  remove_disconnected_hubs hubs mask = remove_from (length hubs) 0 hubs mask
