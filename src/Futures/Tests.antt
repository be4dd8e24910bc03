-- ===== src/Futures/Tests.antt =====
-- Runs of the pollers of futures.rs over futures that count down, and the theorems at these inputs.
use async_usb_host.Prelude.{ℕ, zero, suc, ◌≡◌, refl, Option, none, some, List, [], ◌∷◌}
use async_usb_host.Errors.{ok}
use async_usb_host.Futures.{Poll, ready, pending, vacant, occupied, uninit, live, dead}
use async_usb_host.Futures.Poller.{
  StaticUnpinPoller, new_poller, first_vacant, insert, poll_next, poll_from, get_pin_mut,
  drop_future_at,
}
use async_usb_host.Futures.Slots.{Holds, nothing}
use async_usb_host.Futures.Slots
use async_usb_host.Futures.Polling.{PollsSlots, poll_next-PollsSlots}
use async_usb_host.Futures.Inserting.{Insertion, insert-Insertion, Replacement, replace-Replacement}
use async_usb_host.Futures.Ownership.{Run, starts, inserts, polls, Accounts, Run-Accounts}
use async_usb_host.Futures.Select.{SelectPin2, with_futures, poll_select}
use async_usb_host.Futures.Racing.{Follows, race, poll_select-race, Manages, select-Manages}
use async_usb_host.Futures.Racing

-- A future that is ready after some polls, with the number of all polls as its output.
unfoldable countdown : ℕ → ℕ → Poll ℕ × ℕ × ℕ
countdown zero w = (ready w, zero, suc w)
countdown (suc n) w = (pending, n, suc w)

-- Slots of which the middle one is free: it was emptied before.
abbrev busy : StaticUnpinPoller ℕ
busy = record {
  storage = live 2 ∷ dead ∷ live 0 ∷ [];
  states = occupied ∷ vacant ∷ occupied ∷ [];
  dropped = 7 ∷ [];
}

abbrev busy_slots : List (Option ℕ)
busy_slots = some 2 ∷ none ∷ some 0 ∷ []

busy-Holds : Holds busy.states busy.storage busy_slots
busy-Holds = Slots.full_slot (Slots.free_slot (Slots.full_slot nothing))

poll_busy :
    poll_next countdown busy 40
    ≡ ok (
      ready (some (2, 41)),
      record {
        storage = live 1 ∷ dead ∷ dead ∷ [];
        states = occupied ∷ vacant ∷ vacant ∷ [];
        dropped = 0 ∷ 7 ∷ [];
      },
      42,
    )
unfolding poll_next poll_from get_pin_mut drop_future_at countdown
poll_busy = refl

poll_next-PollsSlots_example : PollsSlots countdown busy busy_slots 40
poll_next-PollsSlots_example = poll_next-PollsSlots countdown busy busy_slots 40 busy-Holds

insert-Insertion_example : Insertion busy busy_slots 5
insert-Insertion_example = insert-Insertion busy busy_slots 5 busy-Holds

replace-Replacement_example : Replacement busy busy_slots 1 5 busy-Holds
replace-Replacement_example = replace-Replacement busy busy_slots 1 5 busy-Holds

-- A poller of two slots that takes one future and polls it once.
abbrev polled : StaticUnpinPoller ℕ
polled = record { storage = live 0 ∷ uninit ∷ []; states = occupied ∷ vacant ∷ []; dropped = [] }

polled-Run : Run countdown 2 1 polled 1
unfolding new_poller insert first_vacant poll_next poll_from get_pin_mut countdown
polled-Run = polls (inserts 1 (starts 0) refl) refl

Run-Accounts_example : Accounts countdown 1 polled 1
Run-Accounts_example = Run-Accounts countdown 2 1 polled 1 polled-Run

abbrev race_of : SelectPin2 ℕ ℕ
race_of = with_futures 1 0

poll_select-race_example :
    Follows countdown countdown race_of
      (poll_select countdown countdown race_of 5)
      (race countdown countdown (some 1) (some 0) 5)
poll_select-race_example =
    poll_select-race countdown countdown race_of (some 1) (some 0) 5
      (Racing.full_slot, Racing.full_slot)

select-Manages_example : Manages race_of (some 1) (some 0) 3 4
select-Manages_example =
    select-Manages race_of (some 1) (some 0) 3 4 (Racing.full_slot, Racing.full_slot)
