-- ===== src/Futures.antt =====
-- futures.rs: pollers that own their futures in place. A slot is a `MaybeUninit` cell beside a state;
-- a read or a drop of a cell that holds no live future, which is undefined behaviour, panics here.
pub mod Select
pub mod Racing
pub mod Poller
pub mod Slots
pub mod Polling
pub mod Inserting
pub mod Ownership
mod Tests
use async_usb_host.Prelude.{ℕ, Bool, true, false, List, ◌∷◌, Option, none, some}
use async_usb_host.Errors.{Outcome, ok, panics}

-- What a poll of a future comes to.
pub data Poll {ℓ} (A : Type ℓ) : Type ℓ where
  ready : A → Poll A
  pending : Poll A

pub data SlotState : Type 0 where
  vacant occupied : SlotState

pub data PollerError : Type 0 where
  index_out_of_bounds slot_occupied slot_empty : PollerError

-- A `Result<(), PollerError>`.
pub data Inserted : Type 0 where
  inserted : Inserted
  refused : PollerError → Inserted

-- `state == SlotState::Occupied`.
abbrev pub is_occupied : SlotState → Bool
is_occupied vacant = false
is_occupied occupied = true

-- A `MaybeUninit`: not yet written, written, or dropped in place.
pub data Cell (F : Type 0) : Type 0 where
  uninit dead : Cell F
  live : F → Cell F

-- `assume_init_mut`, and the future that `drop_in_place` drops.
abbrev pub assume_init : {F : Type 0} → Cell F → Outcome F
assume_init uninit = panics
assume_init dead = panics
assume_init (live f) = ok f
