-- ===== src/Futures/Select.antt =====
-- `SelectPin2` of futures.rs: two futures of their own types, polled the first one first. The polls
-- are parameters, and `W` is what they read and change outside the futures.
use async_usb_host.Prelude.{ℕ, zero, suc, List, [], ◌∷◌}
use async_usb_host.Prelude.{if◌then◌else◌}
use async_usb_host.Errors.{Outcome, ok, panics, assert, ◌>>=◌, ◌>>◌}
use async_usb_host.Futures.{
  Poll, ready, pending, SlotState, vacant, occupied, is_occupied, slot_occupied, Inserted, inserted,
  refused, Cell, uninit, dead, live, assume_init,
}

-- The two states are the code's array; `dropped1` and `dropped2` record the futures that were dropped
-- in place, the last one first.
pub record SelectPin2 (F1 F2 : Type 0) : Type 0 where
  pub fut1 : Cell F1
  pub fut2 : Cell F2
  pub state1 : SlotState
  pub state2 : SlotState
  pub dropped1 : List F1
  pub dropped2 : List F2

pub data Either (A B : Type 0) : Type 0 where
  first : A → Either A B
  second : B → Either A B

module _ {F1 F2 : Type 0} where
  abbrev pub new_select : SelectPin2 F1 F2
  new_select = record {
    fut1 = uninit;
    fut2 = uninit;
    state1 = vacant;
    state2 = vacant;
    dropped1 = [];
    dropped2 = [];
  }

  abbrev pub with_futures : F1 → F2 → SelectPin2 F1 F2
  with_futures f1 f2 = record {
    fut1 = live f1;
    fut2 = live f2;
    state1 = occupied;
    state2 = occupied;
    dropped1 = [];
    dropped2 = [];
  }

  unfoldable pub insert_fut1 : SelectPin2 F1 F2 → F1 → Inserted × SelectPin2 F1 F2
  insert_fut1 s future =
      if is_occupied s.state1
      then (refused slot_occupied, s)
      else (inserted, record s { fut1 = live future; state1 = occupied })

  unfoldable pub insert_fut2 : SelectPin2 F1 F2 → F2 → Inserted × SelectPin2 F1 F2
  insert_fut2 s future =
      if is_occupied s.state2
      then (refused slot_occupied, s)
      else (inserted, record s { fut2 = live future; state2 = occupied })

  -- `drop_future_at`, whose assertion refuses any other index.
  unfoldable pub drop_at : SelectPin2 F1 F2 → ℕ → Outcome (SelectPin2 F1 F2)
  drop_at s zero = do
    assert (is_occupied s.state1)
    f ← assume_init s.fut1
    ok (record s { fut1 = dead; state1 = vacant; dropped1 = f ∷ s.dropped1 })
  drop_at s (suc zero) = do
    assert (is_occupied s.state2)
    f ← assume_init s.fut2
    ok (record s { fut2 = dead; state2 = vacant; dropped2 = f ∷ s.dropped2 })
  drop_at s (suc (suc index)) = panics

  -- `drop`: the futures that have been dropped in the end.
  unfoldable pub drop_first : SelectPin2 F1 F2 → Outcome (List F1)
  drop_first s =
      if is_occupied s.state1
      then (assume_init s.fut1 >>= λ f. ok (f ∷ s.dropped1))
      else ok s.dropped1

  unfoldable pub drop_second : SelectPin2 F1 F2 → Outcome (List F2)
  drop_second s =
      if is_occupied s.state2
      then (assume_init s.fut2 >>= λ f. ok (f ∷ s.dropped2))
      else ok s.dropped2

  unfoldable pub drop_select : SelectPin2 F1 F2 → Outcome (List F1 × List F2)
  drop_select s = do d1 ← drop_first s; d2 ← drop_second s; ok (d1, d2)

module _ {F1 F2 Out1 Out2 W : Type 0} (poll1 : F1 → W → Poll Out1 × F1 × W)
    (poll2 : F2 → W → Poll Out2 × F2 × W) where
  -- The second half of `poll`.
  unfoldable pub poll_second :
      SelectPin2 F1 F2 → W → Outcome (Poll (Either Out1 Out2) × SelectPin2 F1 F2 × W)
  poll_second s w = elim s.state2 [
    | vacant ↦ ok (pending, s, w)
    | occupied ↦ do
      f ← assume_init s.fut2
      let (result, f', w') = poll2 f w
      let polled : SelectPin2 F1 F2 = record s { fut2 = live f' }
      elim result [
        | ready output ↦ drop_at polled 1 >>= λ s'. ok (ready (second output), s', w')
        | pending ↦ ok (pending, polled, w')
      ]
  ]

  unfoldable pub poll_select :
      SelectPin2 F1 F2 → W → Outcome (Poll (Either Out1 Out2) × SelectPin2 F1 F2 × W)
  poll_select s w = elim s.state1 [
    | vacant ↦ poll_second s w
    | occupied ↦ do
      f ← assume_init s.fut1
      let (result, f', w') = poll1 f w
      let polled : SelectPin2 F1 F2 = record s { fut1 = live f' }
      elim result [
        | ready output ↦ drop_at polled 0 >>= λ s'. ok (ready (first output), s', w')
        | pending ↦ poll_second polled w'
      ]
  ]
