-- ===== src/Futures/Polling.antt =====
-- The loop of `poll_next` of futures.rs against `poll_slots`, slot by slot.
use async_usb_host.Prelude.{ℕ, suc, ◌+◌, ◌≡◌, refl, sym, ap, subst, ◌∙◌, Bool, true, false, arith}
use async_usb_host.Prelude.{Option, none, some, List, [], ◌∷◌, ◌++◌, length, ◌==◌, if◌then◌else◌}
use async_usb_host.Errors.{ok}
use async_usb_host.Futures.{Poll, ready, pending, SlotState, vacant, occupied, Cell, dead, live}
use async_usb_host.Futures.Poller.{StaticUnpinPoller, poll_from, poll_next}
use async_usb_host.Futures.Slots.{
  Holds, nothing, free_slot, full_slot, index-middle, set-middle, count_full, poll_slots,
  poll_slots-pending, poll_slots-ready, answer, finished, none_ready-pending, cut, cut_next,
  length_next, get_pin_mut-full, drop_future_at-full,
}

module _ {F Out W : Type 0} (poll : F → W → Poll Out × F × W) where
  -- The loop from slot `i` on comes to this result of the specification.
  abbrev ComesTo :
      ℕ
      → List SlotState
      → List SlotState
      → List (Cell F)
      → List (Cell F)
      → Bool
      → ℕ
      → List F
      → W
      → ℕ
      → Option (ℕ × Out × F) × List (Option F) × W
      → Type 0
  ComesTo i pre ss cpre cs b c d w count (found, fs', w') =
      (ss' : List SlotState) × (cs' : List (Cell F)) × (poll_from poll (length ss) i b c
          (cut pre ss cpre cs d) w
        ≡ ok (answer (c + count) found, cut pre ss' cpre cs' (finished found ++ d), w'))
      × Holds ss' cs' fs'

  recut :
      (n i : ℕ) (b : Bool) (c : ℕ) {p p' q q' : StaticUnpinPoller F} (w : W) {w' : W}
      {a a' : Poll (Option (ℕ × Out))}
      → p ≡ p'
      → q ≡ q'
      → a ≡ a'
      → poll_from poll n i b c p w ≡ ok (a, q, w')
      → poll_from poll n i b c p' w ≡ ok (a', q', w')
  recut n i b c w e e' e'' run = cc

  module _ (i : ℕ) (pre ss : List SlotState) (cpre cs : List (Cell F)) (fs : List (Option F))
      (b : Bool) (c : ℕ) (d : List F) (w : W) (e : length pre ≡ i) where
    ComesTo-free :
        (x : Cell F)
        → ComesTo
            (i + 1)
            (pre ++ vacant ∷ [])
            ss
            (cpre ++ x ∷ [])
            cs
            b
            c
            d
            w
            (count_full fs)
            (poll_slots poll (i + 1) fs w)
        → ComesTo i pre
            (vacant ∷ ss)
            cpre
            (x ∷ cs)
            b
            c
            d
            w
            (count_full fs)
            (poll_slots poll i (none ∷ fs) w)
    unfolding poll_from poll_slots
    ComesTo-free x (ss', cs', run, h) = (
      vacant ∷ ss',
      x ∷ cs',
      rw (index-middle pre vacant ss i e) (
          recut (length ss) (i + 1) b c w (cut_next pre vacant ss cpre x cs d)
            (cut_next pre vacant ss' cpre x cs' _) refl run),
      free_slot h,
    )

    module _ (f f' : F) (w' : W) (ec : length cpre ≡ i) where
      ComesTo-pending :
          poll f w ≡ (pending, f', w')
          → ComesTo
              (i + 1)
              (pre ++ occupied ∷ [])
              ss
              (cpre ++ live f' ∷ [])
              cs
              true
              (c + 1)
              d
              w'
              (count_full fs)
              (poll_slots poll (i + 1) fs w')
          → ComesTo i pre
              (occupied ∷ ss)
              cpre
              (live f ∷ cs)
              b
              c
              d
              w
              (suc (count_full fs))
              (poll_slots poll i (some f ∷ fs) w)
      unfolding poll_from
      ComesTo-pending eq (ss', cs', run, h) =
          let counts : c + 1 + count_full fs ≡ c + suc (count_full fs) = omega arith in
          subst (ComesTo i pre (occupied ∷ ss) cpre (live f ∷ cs) b c d w (suc (count_full fs)))
            (sym (poll_slots-pending poll i fs f f' w w' eq))
            (
              occupied ∷ ss',
              live f' ∷ cs',
              rw
                  (
                    index-middle pre occupied ss i e,
                    get_pin_mut-full pre ss cpre cs d i e ec,
                    eq,
                    eq,
                    set-middle cpre (live f) cs (live f') i ec,
                  )
                  (recut (length ss) (i + 1) true (c + 1) w'
                    (cut_next pre occupied ss cpre (live f') cs d)
                    (cut_next pre occupied ss' cpre (live f') cs' _)
                    (ap (λ k. answer k (poll_slots poll (i + 1) fs w').0) counts) run),
              full_slot h,
            )

      ComesTo-ready :
          (output : Out)
          → Holds ss cs fs
          → poll f w ≡ (ready output, f', w')
          → ComesTo i pre
              (occupied ∷ ss)
              cpre
              (live f ∷ cs)
              b
              c
              d
              w
              (suc (count_full fs))
              (poll_slots poll i (some f ∷ fs) w)
      unfolding poll_from poll_slots
      ComesTo-ready output h eq =
          subst (ComesTo i pre (occupied ∷ ss) cpre (live f ∷ cs) b c d w (suc (count_full fs)))
            (sym (poll_slots-ready poll i fs f f' w w' output eq))
            (
              vacant ∷ ss,
              dead ∷ cs,
              rw (
                index-middle pre occupied ss i e,
                get_pin_mut-full pre ss cpre cs d i e ec,
                eq,
                eq,
                set-middle cpre (live f) cs (live f') i ec,
                drop_future_at-full pre ss cpre cs d i e ec {f = f'},
              ),
              free_slot h,
            )

  ComesTo-full :
      (i : ℕ) (pre ss : List SlotState) (cpre cs : List (Cell F)) (fs : List (Option F)) (b : Bool)
      (c : ℕ) (d : List F) (w : W) (f : F) (r : Poll Out × F × W)
      → length pre ≡ i
      → length cpre ≡ i
      → Holds ss cs fs
      → ((f' : F) (w' : W)
          → ComesTo
              (i + 1)
              (pre ++ occupied ∷ [])
              ss
              (cpre ++ live f' ∷ [])
              cs
              true
              (c + 1)
              d
              w'
              (count_full fs)
              (poll_slots poll (i + 1) fs w'))
      → poll f w ≡ r
      → ComesTo i pre
          (occupied ∷ ss)
          cpre
          (live f ∷ cs)
          b
          c
          d
          w
          (suc (count_full fs))
          (poll_slots poll i (some f ∷ fs) w)
  ComesTo-full i pre ss cpre cs fs b c d w f (ready output, f', w') e ec h rest eq =
      ComesTo-ready i pre ss cpre cs fs b c d w e f f' w' ec output h eq
  ComesTo-full i pre ss cpre cs fs b c d w f (pending, f', w') e ec h rest eq =
      ComesTo-pending i pre ss cpre cs fs b c d w e f f' w' ec eq (rest f' w')

  poll_from-ComesTo :
      {ss : List SlotState} {cs : List (Cell F)} {fs : List (Option F)}
      → Holds ss cs fs
      → (i : ℕ) (pre : List SlotState) (cpre : List (Cell F)) (b : Bool) (c : ℕ) (d : List F)
        (w : W)
      → length pre ≡ i
      → length cpre ≡ i
      → ComesTo i pre ss cpre cs b c d w (count_full fs) (poll_slots poll i fs w)
  unfolding poll_from poll_slots count_full
  poll_from-ComesTo nothing i pre cpre b c d w e ec = (
    [],
    [],
    ap (λ a. ok (a, cut pre [] cpre [] d, w))
        (none_ready-pending b c ∙ ap (λ k. if k == 0 then ready none else pending) (omega arith)),
    nothing,
  )
  poll_from-ComesTo (free_slot {ss} {cs} {fs} {c = x} h) i pre cpre b c d w e ec =
      ComesTo-free i pre ss cpre cs fs b c d w e x (
        poll_from-ComesTo h (i + 1) (pre ++ vacant ∷ []) (cpre ++ x ∷ []) b c d w
          (length_next pre vacant i e) (length_next cpre x i ec))
  poll_from-ComesTo (full_slot {ss} {cs} {fs} {f} h) i pre cpre b c d w e ec =
      ComesTo-full i pre ss cpre cs fs b c d w f (poll f w) e ec h
        (λ f' w'.
          poll_from-ComesTo h (i + 1) (pre ++ occupied ∷ []) (cpre ++ live f' ∷ []) true (c + 1) d
            w' (length_next pre occupied i e) (length_next cpre (live f') i ec))
        refl

  -- The poll returns what the specification says, and the slots of the poller show it.
  abbrev pub PollsSlots : StaticUnpinPoller F → List (Option F) → W → Type 0
  PollsSlots p fs w =
      let (found, fs', w') = poll_slots poll 0 fs w in
      (p' : StaticUnpinPoller F) × (poll_next poll p w ≡ ok (answer (count_full fs) found, p', w'))
      × Holds p'.states p'.storage fs'
      × (p'.dropped ≡ finished found ++ p.dropped)

  -- `poll_next` of a poller that holds slots polls them in order up to the first that is ready, whose
  -- future it drops once and whose slot it frees; it answers `Ready(None)` if no slot holds a future
  -- and `Pending` if every future is pending.
  pub poll_next-PollsSlots :
      (p : StaticUnpinPoller F) (fs : List (Option F)) (w : W)
      → Holds p.states p.storage fs
      → PollsSlots p fs w
  unfolding poll_next
  poll_next-PollsSlots p fs w h =
      let (ss', cs', run, h') = poll_from-ComesTo h 0 [] [] false 0 p.dropped w refl refl in
      let counts : 0 + count_full fs ≡ count_full fs = omega arith in
      (
        cut [] ss' [] cs' (finished (poll_slots poll 0 fs w).0 ++ p.dropped),
        recut (length p.states) 0 false 0 w refl refl
            (ap (λ k. answer k (poll_slots poll 0 fs w).0) counts) run,
        h',
        refl,
      )
