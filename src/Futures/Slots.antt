-- ===== src/Futures/Slots.antt =====
-- `StaticUnpinPoller` of futures.rs, seen as a list of slots that are free or hold a future.
use async_usb_host.Prelude.{ℕ, zero, suc, ◌+◌, ◌≡◌, refl, ap, Bool, true, false, arith}
use async_usb_host.Prelude.{
  Option, none, some, List, [], ◌∷◌, ◌++◌, length, length-append, set, get_elem?, ◌==◌,
  if◌then◌else◌,
}
use mathlib.Core.List.{append_assoc}
use async_usb_host.Errors.{ok, index}
use async_usb_host.Futures.{Poll, ready, pending, SlotState, vacant, occupied, Cell, dead, live}
use async_usb_host.Futures.Poller.{StaticUnpinPoller, none_ready, get_pin_mut, drop_future_at}

-- The states and the cells hold these slots: every occupied slot's cell is a live future.
pub data Holds {F : Type 0} : List SlotState → List (Cell F) → List (Option F) → Type 0 where
  nothing : Holds [] [] []
  free_slot :
      {ss : List SlotState} {cs : List (Cell F)} {fs : List (Option F)} {c : Cell F}
      → Holds ss cs fs
      → Holds (vacant ∷ ss) (c ∷ cs) (none ∷ fs)
  full_slot :
      {ss : List SlotState} {cs : List (Cell F)} {fs : List (Option F)} {f : F}
      → Holds ss cs fs
      → Holds (occupied ∷ ss) (live f ∷ cs) (some f ∷ fs)

module _ {A : Type 0} where
  pub get_elem?-middle :
      (pre : List A) (x : A) (xs : List A) (i : ℕ)
      → length pre ≡ i
      → get_elem? (pre ++ x ∷ xs) i ≡ some x
  get_elem?-middle [] x xs zero e = refl
  get_elem?-middle [] x xs (suc i) e = absurd (omega arith)
  get_elem?-middle (y ∷ pre) x xs zero e = absurd (omega arith)
  get_elem?-middle (y ∷ pre) x xs (suc i) e = get_elem?-middle pre x xs i (omega arith)

  pub index-middle :
      (pre : List A) (x : A) (xs : List A) (i : ℕ) → length pre ≡ i → index (pre ++ x ∷ xs) i ≡ ok x
  index-middle pre x xs i e = rw (get_elem?-middle pre x xs i e, index)

  pub set-middle :
      (pre : List A) (x : A) (xs : List A) (y : A) (i : ℕ)
      → length pre ≡ i
      → set (pre ++ x ∷ xs) i y ≡ pre ++ y ∷ xs
  set-middle [] x xs y zero e = refl
  set-middle [] x xs y (suc i) e = absurd (omega arith)
  set-middle (z ∷ pre) x xs y zero e = absurd (omega arith)
  set-middle (z ∷ pre) x xs y (suc i) e = ap (◌∷◌ z) (set-middle pre x xs y i (omega arith))

-- The futures in slots.
unfoldable pub count_full : {F : Type 0} → List (Option F) → ℕ
count_full [] = 0
count_full (none ∷ fs) = count_full fs
count_full (some f ∷ fs) = suc (count_full fs)

module _ {F Out W : Type 0} (poll : F → W → Poll Out × F × W) where
  -- The specification of a poll of all slots: they are polled in order, up to the first that is
  -- ready. What it found, the slots, and the outside.
  unfoldable pub poll_slots : ℕ → List (Option F) → W → Option (ℕ × Out × F) × List (Option F) × W
  poll_slots i [] w = (none, [], w)
  poll_slots i (none ∷ fs) w =
      let (found, fs', w') = poll_slots (i + 1) fs w in (found, none ∷ fs', w')
  poll_slots i (some f ∷ fs) w =
      let (result, f', w') = poll f w in
      elim result [
        | ready output ↦ (some (i, output, f'), none ∷ fs, w')
        | pending ↦ let (found, fs', w'') = poll_slots (i + 1) fs w' in (found, some f' ∷ fs', w'')
      ]

  module _ (i : ℕ) (fs : List (Option F)) (f f' : F) (w w' : W) where
    pub poll_slots-pending :
        poll f w ≡ (pending, f', w')
        → poll_slots i (some f ∷ fs) w
          ≡ (let (found, fs', w'') = poll_slots (i + 1) fs w' in (found, some f' ∷ fs', w''))
    unfolding poll_slots
    poll_slots-pending eq = rw (eq, eq, poll_slots)

    pub poll_slots-ready :
        (output : Out)
        → poll f w ≡ (ready output, f', w')
        → poll_slots i (some f ∷ fs) w ≡ (some (i, output, f'), none ∷ fs, w')
    unfolding poll_slots
    poll_slots-ready output eq = rw (eq, eq, poll_slots)

-- `Ready(None)` if there is no future at all.
abbrev pub answer : {F Out : Type 0} → ℕ → Option (ℕ × Out × F) → Poll (Option (ℕ × Out))
answer count (some (i, output, f)) = ready (some (i, output))
answer count none = if count == 0 then ready none else pending

abbrev pub finished : {F Out : Type 0} → Option (ℕ × Out × F) → List F
finished none = []
finished (some (i, output, f)) = f ∷ []

pub none_ready-pending :
    {Out : Type 0} (b : Bool) (n : ℕ)
    → none_ready {Out = Out} b n ≡ (if n == 0 then ready none else pending)
none_ready-pending true n = refl
none_ready-pending false n = refl

-- A poller whose lists are cut at a slot.
abbrev pub cut :
    {F : Type 0}
    → List SlotState
    → List SlotState
    → List (Cell F)
    → List (Cell F)
    → List F
    → StaticUnpinPoller F
cut pre ss cpre cs d = record { storage = cpre ++ cs; states = pre ++ ss; dropped = d }

pub cut_next :
    {F : Type 0} (pre : List SlotState) (s : SlotState) (ss : List SlotState) (cpre : List (Cell F))
    (c : Cell F) (cs : List (Cell F)) (d : List F)
    → cut (pre ++ s ∷ []) ss (cpre ++ c ∷ []) cs d ≡ cut pre (s ∷ ss) cpre (c ∷ cs) d
cut_next pre s ss cpre c cs d =
    rw (append_assoc pre (s ∷ []) ss, append_assoc cpre (c ∷ []) cs) refl

pub length_next :
    {A : Type 0} (pre : List A) (x : A) (i : ℕ) → length pre ≡ i → length (pre ++ x ∷ []) ≡ i + 1
length_next pre x i e = omega (arith, length-append pre (x ∷ []))

module _ {F : Type 0} (pre ss : List SlotState) (cpre cs : List (Cell F)) (d : List F) (i : ℕ)
    (e : length pre ≡ i) (ec : length cpre ≡ i) where
  pub get_pin_mut-full :
      {f : F} → get_pin_mut (cut pre (occupied ∷ ss) cpre (live f ∷ cs) d) i ≡ ok (some f)
  unfolding get_pin_mut
  get_pin_mut-full {f} = rw (index-middle pre occupied ss i e, index-middle cpre (live f) cs i ec)

  pub drop_future_at-full :
      {f : F}
      → drop_future_at (cut pre (occupied ∷ ss) cpre (live f ∷ cs) d) i
        ≡ ok (cut pre (vacant ∷ ss) cpre (dead ∷ cs) (f ∷ d))
  unfolding drop_future_at
  drop_future_at-full {f} = rw (
    index-middle pre occupied ss i e,
    index-middle cpre (live f) cs i ec,
    set-middle pre occupied ss vacant i e,
    set-middle cpre (live f) cs dead i ec,
  )
