-- ===== src/Futures/Racing.antt =====
-- `SelectPin2` of futures.rs, seen as two slots that are free or hold a future.
use async_usb_host.Prelude.{Option, none, some, List, ◌∷◌, ◌≡◌, refl}
use async_usb_host.Errors.{Outcome, ok}
use async_usb_host.Futures.{
  Poll, ready, pending, SlotState, vacant, occupied, slot_occupied, Inserted, inserted, refused,
  Cell, dead, live,
}
use async_usb_host.Futures.Select.{
  SelectPin2, Either, first, second, insert_fut1, insert_fut2, drop_at, drop_first, drop_second,
  drop_select, poll_second, poll_select,
}

-- The cell of an occupied slot is a live future.
pub data Slot {F : Type 0} : SlotState → Cell F → Option F → Type 0 where
  free_slot : {c : Cell F} → Slot vacant c none
  full_slot : {f : F} → Slot occupied (live f) (some f)

abbrev pub Shows : {F1 F2 : Type 0} → SelectPin2 F1 F2 → Option F1 → Option F2 → Type 0
Shows s o1 o2 = Slot s.state1 s.fut1 o1 × Slot s.state2 s.fut2 o2

-- The future that a slot holds, before a list.
abbrev pub onto : {F : Type 0} → Option F → List F → List F
onto none d = d
onto (some f) d = f ∷ d

-- What a poll comes to: the answer, the two slots, the futures that it dropped, and the outside.
pub record Raced (F1 F2 A W : Type 0) : Type 0 where
  pub answer : Poll A
  pub slot1 : Option F1
  pub slot2 : Option F2
  pub lost1 : Option F1
  pub lost2 : Option F2
  pub outside : W

module _ {F1 F2 Out1 Out2 W : Type 0} (poll1 : F1 → W → Poll Out1 × F1 × W)
    (poll2 : F2 → W → Poll Out2 × F2 × W) where
  -- The specification of the second half and of a poll, on the slots.
  unfoldable pub race_second : Option F1 → Option F2 → W → Raced F1 F2 (Either Out1 Out2) W
  race_second o1 none w = record {
    answer = pending;
    slot1 = o1;
    slot2 = none;
    lost1 = none;
    lost2 = none;
    outside = w;
  }
  race_second o1 (some f) w =
      let (result, f', w') = poll2 f w in
      elim result [
        | ready output ↦ record {
          answer = ready (second output);
          slot1 = o1;
          slot2 = none;
          lost1 = none;
          lost2 = some f';
          outside = w';
        }
        | pending ↦ record {
          answer = pending;
          slot1 = o1;
          slot2 = some f';
          lost1 = none;
          lost2 = none;
          outside = w';
        }
      ]

  unfoldable pub race : Option F1 → Option F2 → W → Raced F1 F2 (Either Out1 Out2) W
  race none o2 w = race_second none o2 w
  race (some f) o2 w =
      let (result, f', w') = poll1 f w in
      elim result [
        | ready output ↦ record {
          answer = ready (first output);
          slot1 = none;
          slot2 = o2;
          lost1 = some f';
          lost2 = none;
          outside = w';
        }
        | pending ↦ race_second (some f') o2 w'
      ]

  -- The poll returns what the specification says, and its slots show it.
  abbrev pub Follows :
      SelectPin2 F1 F2
      → Outcome (Poll (Either Out1 Out2) × SelectPin2 F1 F2 × W)
      → Raced F1 F2 (Either Out1 Out2) W
      → Type 0
  Follows s run r =
      (s' : SelectPin2 F1 F2) × (run ≡ ok (r.answer, s', r.outside))
      × Shows s' r.slot1 r.slot2
      × (s'.dropped1 ≡ onto r.lost1 s.dropped1)
      × (s'.dropped2 ≡ onto r.lost2 s.dropped2)

  module _ (st1 : SlotState) (c1 : Cell F1) (o1 : Option F1) (d1 : List F1) (d2 : List F2)
      (h : Slot st1 c1 o1) where
    -- A selector whose first slot is this one.
    abbrev with_second : SlotState → Cell F2 → SelectPin2 F1 F2
    with_second st2 c2 = record {
      fut1 = c1;
      fut2 = c2;
      state1 = st1;
      state2 = st2;
      dropped1 = d1;
      dropped2 = d2;
    }

    second_by :
        (f : F2) (w : W) (r : Poll Out2 × F2 × W)
        → poll2 f w ≡ r
        → Follows
            (with_second occupied (live f))
            (poll_second poll1 poll2 (with_second occupied (live f)) w)
            (race_second o1 (some f) w)
    unfolding poll_second race_second drop_at
    second_by f w (ready output, f', w') eq =
        rw (eq, eq, poll_second, race_second)
          (
            record (with_second vacant dead) { dropped2 = f' ∷ d2 },
            refl,
            (h, free_slot),
            refl,
            refl,
          )
    second_by f w (pending, f', w') eq =
        rw (eq, eq, poll_second, race_second)
          (with_second occupied (live f'), refl, (h, full_slot), refl, refl)

    poll_second-race_second :
        {st2 : SlotState} {c2 : Cell F2} {o2 : Option F2} (w : W)
        → Slot st2 c2 o2
        → Follows
            (with_second st2 c2)
            (poll_second poll1 poll2 (with_second st2 c2) w)
            (race_second o1 o2 w)
    unfolding poll_second race_second
    poll_second-race_second w (free_slot {c}) =
        (with_second vacant c, refl, (h, free_slot), refl, refl)
    poll_second-race_second w (full_slot {f}) = second_by f w (poll2 f w) refl

  module _ (st2 : SlotState) (c2 : Cell F2) (o2 : Option F2) (d1 : List F1) (d2 : List F2)
      (h : Slot st2 c2 o2) where
    first_by :
        (f : F1) (w : W) (r : Poll Out1 × F1 × W)
        → poll1 f w ≡ r
        → Follows
            (with_second occupied (live f) (some f) d1 d2 full_slot st2 c2)
            (poll_select poll1 poll2
              (with_second occupied (live f) (some f) d1 d2 full_slot st2 c2)
              w)
            (race (some f) o2 w)
    unfolding poll_select race drop_at
    first_by f w (ready output, f', w') eq =
        rw (eq, eq, poll_select, race)
          (
            with_second vacant dead none (f' ∷ d1) d2 free_slot st2 c2,
            refl,
            (free_slot, h),
            refl,
            refl,
          )
    first_by f w (pending, f', w') eq =
        rw (eq, eq, poll_select, race)
          (poll_second-race_second occupied (live f') (some f') d1 d2 full_slot w' h)

  race_by :
      (s : SelectPin2 F1 F2) {st1 : SlotState} {c1 : Cell F1} {o1 : Option F1} {o2 : Option F2}
      (w : W)
      → Slot st1 c1 o1
      → Slot s.state2 s.fut2 o2
      → Follows
          (record s { state1 = st1; fut1 = c1 })
          (poll_select poll1 poll2 (record s { state1 = st1; fut1 = c1 }) w)
          (race o1 o2 w)
  unfolding poll_select race
  race_by s w (free_slot {c}) h =
      poll_second-race_second vacant c none s.dropped1 s.dropped2 free_slot w h
  race_by s {o2 = o2} w (full_slot {f}) h =
      first_by s.state2 s.fut2 o2 s.dropped1 s.dropped2 h f w (poll1 f w) refl

  -- A poll of a selector that shows two slots returns what the specification says: the first future
  -- is polled first, a future that is ready is dropped once and its slot freed, and the second is
  -- not polled when the first was ready.
  pub poll_select-race :
      (s : SelectPin2 F1 F2) (o1 : Option F1) (o2 : Option F2) (w : W)
      → Shows s o1 o2
      → Follows s (poll_select poll1 poll2 s w) (race o1 o2 w)
  poll_select-race s o1 o2 w (h1, h2) = race_by s w h1 h2

-- What a slot holds after an insertion, and what the insertion answers.
abbrev pub put : {F : Type 0} → Option F → F → Option F
put none f = some f
put (some g) f = some g

abbrev pub put_answer : {F : Type 0} → Option F → Inserted
put_answer none = inserted
put_answer (some g) = refused slot_occupied

module _ {F1 F2 : Type 0} where
  abbrev selector : SlotState → Cell F1 → List F1 → SlotState → Cell F2 → List F2 → SelectPin2 F1 F2
  selector st1 c1 d1 st2 c2 d2 = record {
    fut1 = c1;
    fut2 = c2;
    state1 = st1;
    state2 = st2;
    dropped1 = d1;
    dropped2 = d2;
  }

  -- What `insert_fut1`, `insert_fut2` and the destructor do to two slots.
  abbrev pub Manages : SelectPin2 F1 F2 → Option F1 → Option F2 → F1 → F2 → Type 0
  Manages s o1 o2 f g =
      ((s' : SelectPin2 F1 F2) × (insert_fut1 s f ≡ (put_answer o1, s')) × Shows s' (put o1 f) o2)
      × ((s' : SelectPin2 F1 F2) × (insert_fut2 s g ≡ (put_answer o2, s')) × Shows s' o1 (put o2 g))
      × (drop_select s ≡ ok (onto o1 s.dropped1, onto o2 s.dropped2))

  Manages-by :
      {st1 st2 : SlotState} {c1 : Cell F1} {c2 : Cell F2} {o1 : Option F1} {o2 : Option F2}
      (d1 : List F1) (d2 : List F2) (f : F1) (g : F2)
      → Slot st1 c1 o1
      → Slot st2 c2 o2
      → Manages (selector st1 c1 d1 st2 c2 d2) o1 o2 f g
  unfolding insert_fut1 insert_fut2 drop_select drop_first drop_second
  Manages-by d1 d2 f g free_slot free_slot =
      ((_, refl, (full_slot, free_slot)), (_, refl, (free_slot, full_slot)), refl)
  Manages-by d1 d2 f g free_slot full_slot =
      ((_, refl, (full_slot, full_slot)), (_, refl, (free_slot, full_slot)), refl)
  Manages-by d1 d2 f g full_slot free_slot =
      ((_, refl, (full_slot, free_slot)), (_, refl, (full_slot, full_slot)), refl)
  Manages-by d1 d2 f g full_slot full_slot =
      ((_, refl, (full_slot, full_slot)), (_, refl, (full_slot, full_slot)), refl)

  -- On a selector that shows two slots, an insertion fills a free slot and refuses a full one, and
  -- the destructor drops exactly the futures that the slots hold.
  pub select-Manages :
      (s : SelectPin2 F1 F2) (o1 : Option F1) (o2 : Option F2) (f : F1) (g : F2)
      → Shows s o1 o2
      → Manages s o1 o2 f g
  select-Manages s o1 o2 f g (h1, h2) = Manages-by s.dropped1 s.dropped2 f g h1 h2
