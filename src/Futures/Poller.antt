-- ===== src/Futures/Poller.antt =====
-- `StaticUnpinPoller` of futures.rs, over futures of one type whose poll is a parameter. `W` is what
-- a poll reads and changes outside the future: the context, the wakers, the hardware.
use async_usb_host.Prelude.{
  ℕ, zero, suc, ◌+◌, Bool, true, false, ◌&&◌, not, Option, none, some, List, [], ◌∷◌,
}
use async_usb_host.Prelude.{length, set, replicate, get_elem?, ◌==◌, if◌then◌else◌}
use async_usb_host.Errors.{Outcome, ok, panics, assert, index, ◌>>=◌, ◌>>◌}
use async_usb_host.Futures.{
  Poll, ready, pending, SlotState, vacant, occupied, is_occupied, index_out_of_bounds,
  slot_occupied, Inserted, inserted, refused, Cell, uninit, dead, live, assume_init,
}

-- `dropped` records the futures that were dropped in place, the last one first.
pub record StaticUnpinPoller (F : Type 0) : Type 0 where
  pub storage : List (Cell F)
  pub states : List SlotState
  pub dropped : List F

-- The search of `insert`.
unfoldable pub first_vacant : List SlotState → Option ℕ
first_vacant [] = none
first_vacant (vacant ∷ ss) = some 0
first_vacant (occupied ∷ ss) = elim (first_vacant ss) [ none ↦ none | some i ↦ some (suc i) ]

-- The end of `poll_next`, where no future was ready.
abbrev pub none_ready : {Out : Type 0} → Bool → ℕ → Poll (Option (ℕ × Out))
none_ready pending_found occupied_count =
    if occupied_count == 0 then ready none else if pending_found then pending else pending

-- The count of `len`, and the test of `is_empty`.
unfoldable pub count_occupied : List SlotState → ℕ
count_occupied [] = 0
count_occupied (vacant ∷ ss) = count_occupied ss
count_occupied (occupied ∷ ss) = suc (count_occupied ss)

unfoldable pub all_vacant : List SlotState → Bool
all_vacant [] = true
all_vacant (s ∷ ss) = not (is_occupied s) && all_vacant ss

module _ {F : Type 0} where
  unfoldable pub new_poller : ℕ → StaticUnpinPoller F
  new_poller n = record { storage = replicate n uninit; states = replicate n vacant; dropped = [] }

  unfoldable pub get_pin_mut : StaticUnpinPoller F → ℕ → Outcome (Option F)
  get_pin_mut p i = do
    state ← index p.states i
    let pinned : Outcome (Option F) = do cell ← index p.storage i; f ← assume_init cell; ok (some f)
    if is_occupied state then pinned else ok none

  unfoldable pub drop_future_at : StaticUnpinPoller F → ℕ → Outcome (StaticUnpinPoller F)
  drop_future_at p i = do
    state ← index p.states i
    assert (is_occupied state)
    cell ← index p.storage i
    f ← assume_init cell
    ok (record {
      storage = set p.storage i dead;
      states = set p.states i vacant;
      dropped = f ∷ p.dropped;
    })

  -- `storage[index].write(future)` and the new state.
  abbrev pub write : StaticUnpinPoller F → ℕ → F → Outcome (Inserted × StaticUnpinPoller F)
  write p i f = do
    _ ← index p.storage i
    ok (inserted, record p { storage = set p.storage i (live f); states = set p.states i occupied })

  unfoldable pub insert : StaticUnpinPoller F → F → Outcome (Inserted × StaticUnpinPoller F)
  insert p future = elim (first_vacant p.states) [
    | none ↦ ok (refused index_out_of_bounds, p)
    | some i ↦ write p i future
  ]

  unfoldable pub replace : StaticUnpinPoller F → ℕ → F → Outcome (Inserted × StaticUnpinPoller F)
  replace p i new_future = elim (get_elem? p.states i) [
    | none ↦ ok (refused index_out_of_bounds, p)
    | some state ↦ if is_occupied state then ok (refused slot_occupied, p) else write p i new_future
  ]

  abbrev pub len : StaticUnpinPoller F → ℕ
  len p = count_occupied p.states

  abbrev pub is_empty : StaticUnpinPoller F → Bool
  is_empty p = all_vacant p.states

  -- The loop of `drop`, which leaves the states as they are: the futures that it drops.
  unfoldable pub drop_from : ℕ → ℕ → StaticUnpinPoller F → Outcome (List F)
  drop_from zero i p = ok p.dropped
  drop_from (suc n) i p = do
    state ← index p.states i
    let dropping : Outcome (List F) = do
      cell ← index p.storage i
      f ← assume_init cell
      drop_from n (i + 1) (record p { storage = set p.storage i dead; dropped = f ∷ p.dropped })
    if is_occupied state then dropping else drop_from n (i + 1) p

  unfoldable pub drop_poller : StaticUnpinPoller F → Outcome (List F)
  drop_poller p = drop_from (length p.states) 0 p

module _ {F Out W : Type 0} (poll : F → W → Poll Out × F × W) where
  -- The loop of `poll_next` from a slot on. A poll changes the future in its cell.
  unfoldable pub poll_from :
      ℕ
      → ℕ
      → Bool
      → ℕ
      → StaticUnpinPoller F
      → W
      → Outcome (Poll (Option (ℕ × Out)) × StaticUnpinPoller F × W)
  poll_from zero i pending_found count p w = ok (none_ready pending_found count, p, w)
  poll_from (suc n) i pending_found count p w = do
    state ← index p.states i
    elim state [
      | vacant ↦ poll_from n (i + 1) pending_found count p w
      | occupied ↦ do
        pinned ← get_pin_mut p i
        f ← elim pinned [ none ↦ panics | some f ↦ ok f ]
        let (result, f', w') = poll f w
        let polled : StaticUnpinPoller F = record p { storage = set p.storage i (live f') }
        elim result [
          | ready output ↦ drop_future_at polled i >>= λ p'. ok (ready (some (i, output)), p', w')
          | pending ↦ poll_from n (i + 1) true (count + 1) polled w'
        ]
    ]

  unfoldable pub poll_next :
      StaticUnpinPoller F → W → Outcome (Poll (Option (ℕ × Out)) × StaticUnpinPoller F × W)
  poll_next p w = poll_from (length p.states) 0 false 0 p w
