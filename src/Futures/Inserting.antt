-- ===== src/Futures/Inserting.antt =====
-- `insert` and `replace` of `StaticUnpinPoller` of futures.rs, seen as slots.
use async_usb_host.Prelude.{ℕ, zero, suc, ◌<◌, ◌≤◌, ◌≡◌, refl, ap, arith}
use async_usb_host.Prelude.{Option, none, some, List, ◌∷◌, length, set, get_elem?, replicate}
use async_usb_host.Errors.{Outcome, ok, index}
use async_usb_host.Futures.{
  SlotState, vacant, occupied, index_out_of_bounds, slot_occupied, Inserted, inserted, refused,
  Cell, uninit, live,
}
use async_usb_host.Futures.Poller.{StaticUnpinPoller, first_vacant, insert, replace, count_occupied}
use async_usb_host.Futures.Slots.{Holds, nothing, free_slot, full_slot, count_full}
use async_usb_host.Prelude.{◌≢◌}
use async_usb_host.Futures.Poller.{write}
use async_usb_host.Prelude.{get_elem?-eq-none}

module _ {F : Type 0} where
  pub Holds-lengths :
      {ss : List SlotState} {cs : List (Cell F)} {fs : List (Option F)}
      → Holds ss cs fs
      → (length ss ≡ length fs) × (length cs ≡ length fs)
  Holds-lengths nothing = (refl, refl)
  Holds-lengths (free_slot h) = let (a, b) = Holds-lengths h in (ap suc a, ap suc b)
  Holds-lengths (full_slot h) = let (a, b) = Holds-lengths h in (ap suc a, ap suc b)

  -- A free slot, by its index: what the code reads there, and a write to it.
  pub Holds-free :
      {ss : List SlotState} {cs : List (Cell F)} {fs : List (Option F)}
      → Holds ss cs fs
      → (i : ℕ) (f : F) → get_elem? fs i ≡ some none
      → (get_elem? ss i ≡ some vacant)
        × ((c : Cell F) × (index cs i ≡ ok c))
        × Holds (set ss i occupied) (set cs i (live f)) (set fs i (some f))
        × (count_full (set fs i (some f)) ≡ suc (count_full fs))
  unfolding count_full
  Holds-free nothing i f e = cc
  Holds-free (free_slot {c = c} h) zero f e = (refl, (c, refl), full_slot h, refl)
  Holds-free (free_slot h) (suc i) f e =
      let (a, b, c, d) = Holds-free h i f e in (a, b, free_slot c, d)
  Holds-free (full_slot h) zero f e = cc
  Holds-free (full_slot h) (suc i) f e =
      let (a, b, c, d) = Holds-free h i f e in (a, b, full_slot c, ap suc d)

  Holds-full :
      {ss : List SlotState} {cs : List (Cell F)} {fs : List (Option F)}
      → Holds ss cs fs
      → (i : ℕ) (f : F) → get_elem? fs i ≡ some (some f)
      → get_elem? ss i ≡ some occupied
  Holds-full nothing i f e = cc
  Holds-full (free_slot h) zero f e = cc
  Holds-full (free_slot h) (suc i) f e = Holds-full h i f e
  Holds-full (full_slot h) zero f e = refl
  Holds-full (full_slot h) (suc i) f e = Holds-full h i f e

  pub Holds-count :
      {ss : List SlotState} {cs : List (Cell F)} {fs : List (Option F)}
      → Holds ss cs fs
      → count_occupied ss ≡ count_full fs
  unfolding count_occupied count_full
  Holds-count nothing = refl
  Holds-count (free_slot h) = Holds-count h
  Holds-count (full_slot h) = ap suc (Holds-count h)

  pub Holds-new :
      (n : ℕ) → Holds {F = F} (replicate n vacant) (replicate n uninit) (replicate n none)
  Holds-new zero = nothing
  Holds-new (suc n) = free_slot (Holds-new n)

  -- The poller took a future into a free slot.
  abbrev pub Placed :
      StaticUnpinPoller F
      → List (Option F)
      → ℕ
      → F
      → Outcome (Inserted × StaticUnpinPoller F)
      → Type 0
  Placed p fs i f run =
      (p' : StaticUnpinPoller F) × (run ≡ ok (inserted, p'))
      × Holds p'.states p'.storage (set fs i (some f))
      × (p'.dropped ≡ p.dropped)

  module _ (p : StaticUnpinPoller F) (fs : List (Option F)) (i : ℕ) (f : F)
      (h : Holds p.states p.storage fs) where
    write-Placed : get_elem? fs i ≡ some none → Placed p fs i f (write p i f)
    write-Placed e =
        let (a, (c, b), h', n) = Holds-free h i f e in
        (
          record p { storage = set p.storage i (live f); states = set p.states i occupied },
          rw b,
          h',
          refl,
        )

    replace-free : get_elem? fs i ≡ some none → Placed p fs i f (replace p i f)
    unfolding replace
    replace-free e = rw ((Holds-free h i f e).0, replace) (write-Placed e)

    replace-full :
        (g : F) → get_elem? fs i ≡ some (some g) → replace p i f ≡ ok (refused slot_occupied, p)
    unfolding replace
    replace-full g e = rw (Holds-full h i g e, replace)

    replace-beyond : length fs ≤ i → replace p i f ≡ ok (refused index_out_of_bounds, p)
    unfolding replace
    replace-beyond e =
        rw (get_elem?-eq-none p.states i (omega (arith, (Holds-lengths h).0)), replace)

    -- What `replace` does: it fills a free slot, and refuses a full one and an index out of bounds.
    abbrev pub Replacement : Type 0
    Replacement =
        (get_elem? fs i ≡ some none → Placed p fs i f (replace p i f))
        × ((g : F) → get_elem? fs i ≡ some (some g) → replace p i f ≡ ok (refused slot_occupied, p))
        × (length fs ≤ i → replace p i f ≡ ok (refused index_out_of_bounds, p))

    -- `replace` of a poller that holds slots returns, filling a free slot and refusing the others.
    pub replace-Replacement : Replacement
    replace-Replacement = (replace-free, replace-full, replace-beyond)

  -- What the search of `insert` finds.
  pub data FirstFree (fs : List (Option F)) : Option ℕ → Type 0 where
    all_full : count_full fs ≡ length fs → FirstFree fs none
    at_free :
        (i : ℕ)
        → get_elem? fs i ≡ some none
        → ((j : ℕ) → j < i → get_elem? fs j ≢ some none)
        → FirstFree fs (some i)

  not-free-before :
      (f : F) (fs : List (Option F)) (i : ℕ)
      → ((j : ℕ) → j < i → get_elem? fs j ≢ some none)
      → (j : ℕ) → j < suc i
      → get_elem? (some f ∷ fs) j ≢ some none
  not-free-before f fs i before zero lt e = cc
  not-free-before f fs i before (suc j) lt e = before j (omega arith) e

  FirstFree-next :
      (f : F) (fs : List (Option F)) (o : Option ℕ)
      → FirstFree fs o
      → FirstFree (some f ∷ fs) (elim o [ none ↦ none | some i ↦ some (suc i) ])
  unfolding count_full
  FirstFree-next f fs none (all_full e) = all_full (ap suc e)
  FirstFree-next f fs (some k) (at_free i e before) =
      at_free (suc i) e (not-free-before f fs i before)

  first_vacant-FirstFree :
      {ss : List SlotState} {cs : List (Cell F)} {fs : List (Option F)}
      → Holds ss cs fs
      → FirstFree fs (first_vacant ss)
  unfolding first_vacant count_full
  first_vacant-FirstFree nothing = all_full refl
  first_vacant-FirstFree (free_slot h) = at_free 0 refl (λ j lt. absurd (omega arith))
  first_vacant-FirstFree (full_slot {ss} {cs} {fs} {f} h) =
      FirstFree-next f fs (first_vacant ss) (first_vacant-FirstFree h)

  -- What `insert` does: it places the future in the first free slot, or there is none.
  pub data Insertion (p : StaticUnpinPoller F) (fs : List (Option F)) (f : F) : Type 0 where
    no_room :
        count_full fs ≡ length fs
        → insert p f ≡ ok (refused index_out_of_bounds, p)
        → Insertion p fs f
    placed_at :
        (i : ℕ)
        → get_elem? fs i ≡ some none
        → ((j : ℕ) → j < i → get_elem? fs j ≢ some none)
        → Placed p fs i f (insert p f)
        → Insertion p fs f

  Insertion-of :
      (p : StaticUnpinPoller F) (fs : List (Option F)) (f : F)
      → Holds p.states p.storage fs
      → (o : Option ℕ) → first_vacant p.states ≡ o
      → FirstFree fs o
      → Insertion p fs f
  unfolding insert
  Insertion-of p fs f h none e (all_full full) = no_room full (rw (e, insert))
  Insertion-of p fs f h (some k) e (at_free i free before) =
      placed_at i free before (rw (e, insert) (write-Placed p fs i f h free))

  -- `insert` of a poller that holds slots returns: it places the future in the first free slot, or
  -- it refuses it and changes nothing, when every slot is full.
  pub insert-Insertion :
      (p : StaticUnpinPoller F) (fs : List (Option F)) (f : F)
      → Holds p.states p.storage fs
      → Insertion p fs f
  insert-Insertion p fs f h =
      Insertion-of p fs f h (first_vacant p.states) refl (first_vacant-FirstFree h)
