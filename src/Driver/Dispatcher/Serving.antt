-- ===== src/Driver/Dispatcher/Serving.antt =====
-- `USBDeviceDispatcher` of driver/mod.rs, seen as slots for the futures of the drivers.
use async_usb_host.Prelude.{
  ℕ, zero, suc, ◌+◌, ◌<◌, ◌≡◌, ◌≢◌, refl, sym, ap, subst, arith, true, Option, none, some, List, [],
  ◌∷◌, length, set, get_elem?, replicate, Bool-cases, inl, inr,
}
use async_usb_host.Errors.{Outcome, ok, Result, done, failed}
use async_usb_host.Futures.{Poll, SlotState, Cell}
use async_usb_host.Futures.Poller.{StaticUnpinPoller, all_vacant, is_empty, new_poller}
use async_usb_host.Futures.Slots.{Holds, nothing, free_slot, full_slot, count_full, poll_slots}
use async_usb_host.Futures.Polling.{poll_next-PollsSlots}
use async_usb_host.Futures.Inserting.{no_room, placed_at, insert-Insertion, Holds-new}
use async_usb_host.Driver.Dispatcher.{
  Wake, new_dev, woken, run_driver, dispatch, dispatch_all, run_inner,
}

-- A future is put into the first free slot, if there is one.
abbrev pub fill : {F : Type 0} → List (Option F) → F → List (Option F)
fill [] f = []
fill (none ∷ fs) f = some f ∷ fs
fill (some g ∷ fs) f = some g ∷ fill fs f

module _ {F : Type 0} where
  count_full-length : (fs : List (Option F)) → count_full fs < suc (length fs)
  unfolding count_full
  count_full-length [] = omega arith
  count_full-length (none ∷ fs) = omega (arith, count_full-length fs)
  count_full-length (some f ∷ fs) = omega (arith, count_full-length fs)

  fill_full : (fs : List (Option F)) (f : F) → count_full fs ≡ length fs → fill fs f ≡ fs
  unfolding count_full
  fill_full [] f e = refl
  fill_full (none ∷ fs) f e = absurd (omega (arith, e, count_full-length fs))
  fill_full (some g ∷ fs) f e = ap (λ gs. some g ∷ gs) (fill_full fs f (omega (arith, e)))

  fill_first :
      (fs : List (Option F)) (f : F) (i : ℕ)
      → get_elem? fs i ≡ some none
      → ((j : ℕ) → j < i → get_elem? fs j ≢ some none)
      → set fs i (some f) ≡ fill fs f
  fill_first [] f i e before = cc
  fill_first (none ∷ fs) f zero e before = refl
  fill_first (none ∷ fs) f (suc i) e before = absurd (before 0 (omega arith) refl)
  fill_first (some g ∷ fs) f zero e before = cc
  fill_first (some g ∷ fs) f (suc i) e before =
      ap (λ gs. some g ∷ gs) (fill_first fs f i e (λ j lt. before (suc j) (omega (arith, lt))))

module _ {Device F Out W : Type 0} (poll : F → W → Poll Out × F × W)
    (attach : Device → W → Result F × W) where
  -- The slots and what is outside, after a poll of the slots in order up to the first that is ready.
  abbrev pub polled : List (Option F) → W → List (Option F) × W
  polled fs w = let (found, fs', w') = poll_slots poll 0 fs w in (fs', w')

  abbrev pub started : List (Option F) → Result F × W → List (Option F) × W
  started fs (done f, w) = (fill fs f, w)
  started fs (failed e, w) = (fs, w)

  -- What the dispatcher promises: a device's driver runs in the first free slot, if it attached and
  -- there is one, and the futures in the slots are polled.
  unfoldable pub serve_slots : List (Wake Device) → List (Option F) → W → List (Option F) × W
  serve_slots [] fs w = (fs, w)
  serve_slots (new_dev d ∷ es) fs w =
      let (fs', w') = started fs (attach d w) in serve_slots es fs' w'
  serve_slots (woken ∷ es) fs w = let (fs', w') = polled fs w in serve_slots es fs' w'

  -- Nothing is polled in free slots.
  polled_free :
      {ss : List SlotState} {cs : List (Cell F)} {fs : List (Option F)}
      → Holds ss cs fs
      → all_vacant ss ≡ true
      → (i : ℕ) (w : W) → poll_slots poll i fs w ≡ (none, fs, w)
  unfolding all_vacant poll_slots
  polled_free nothing e i w = refl
  polled_free (free_slot {fs = fs} h) e i w = rw (polled_free h e (i + 1) w) refl
  polled_free (full_slot h) e i w = cc

  -- A run that comes to a poller that holds the slots.
  abbrev Shows : Outcome (StaticUnpinPoller F × W) → List (Option F) × W → Type 0
  Shows run (fs, w) = (p : StaticUnpinPoller F) × (run ≡ ok (p, w)) × Holds p.states p.storage fs

  run_driver-Shows :
      (p : StaticUnpinPoller F) (fs : List (Option F)) (r : Result F × W)
      → Holds p.states p.storage fs
      → Shows (run_driver poll attach p r) (started fs r)
  run_driver-Shows p fs (failed e, w) h = (p, refl, h)
  run_driver-Shows p fs (done f, w) h = elim (insert-Insertion p fs f h) [
    | no_room full e ↦
        (p, rw e refl, subst (Holds p.states p.storage) (sym (fill_full fs f full)) h)
    | placed_at i free before (p', e, h', d) ↦
        (p', rw e refl, subst (Holds p'.states p'.storage) (fill_first fs f i free before) h')
  ]

  woken-Shows :
      (p : StaticUnpinPoller F) (fs : List (Option F)) (w : W)
      → Holds p.states p.storage fs
      → Shows (dispatch poll attach woken p w) (polled fs w)
  unfolding dispatch
  woken-Shows p fs w h = elim (Bool-cases (is_empty p)) [
    | inl q ↦ (p, rw (q, polled_free h q 0 w) refl, rw (polled_free h q 0 w) h)
    | inr q ↦ let (p', e, h', d) = poll_next-PollsSlots poll p fs w h in (p', rw (q, e) refl, h')
  ]

  all-Shows :
      (es : List (Wake Device)) (p : StaticUnpinPoller F) (fs : List (Option F)) (w : W)
      → Holds p.states p.storage fs
      → Shows (dispatch_all poll attach es p w) (serve_slots es fs w)
  unfolding dispatch_all dispatch serve_slots
  all-Shows [] p fs w h = (p, refl, h)
  all-Shows (new_dev d ∷ es) p fs w h =
      let (p', e, h') = run_driver-Shows p fs (attach d w) h in
      let (q, e', k) = all-Shows es p' _ _ h' in (q, rw e e', k)
  all-Shows (woken ∷ es) p fs w h =
      let (p', e, h') = woken-Shows p fs w h in
      let (q, e', k) = all-Shows es p' _ _ h' in (q, rw e e', k)

  -- What a run of the dispatcher comes to.
  abbrev pub Serves : ℕ → List (Wake Device) → W → Type 0
  Serves n es w = Shows (run_inner poll attach n es w) (serve_slots es (replicate n none) w)

  -- Whatever devices arrive and whatever their drivers come to, the run of a dispatcher of `n` devices
  -- returns at every point, without a read or a drop of a cell that holds no live future, and its
  -- poller holds the slots that the specification has: each driver that attached was put into the
  -- first free slot, or was dropped when there was none, and each wake polled the slots in order up to
  -- the first future that was ready, which left its slot.
  pub run_inner-Serves : (n : ℕ) (es : List (Wake Device)) (w : W) → Serves n es w
  unfolding run_inner new_poller
  run_inner-Serves n es w = all-Shows es (new_poller n) (replicate n none) w (Holds-new n)
