-- ===== src/Futures/Ownership.antt =====
-- The destructor of `StaticUnpinPoller` of futures.rs, and what becomes of the futures that a poller
-- is given over a run of calls.
use async_usb_host.Prelude.{ℕ, zero, suc, ◌+◌, ◌≡◌, refl, sym, ap, subst, ◌∙◌, arith}
use async_usb_host.Prelude.{
  Option, none, some, List, [], ◌∷◌, ◌++◌, length, length-append, get_elem?, set, replicate,
  length-replicate, length-set, ◌≤◌,
}
use async_usb_host.Errors.{Outcome, ok}
use async_usb_host.Futures.{
  Poll, ready, pending, SlotState, vacant, occupied, Cell, dead, live, Inserted, inserted,
}
use async_usb_host.Futures.Poller.{
  StaticUnpinPoller, new_poller, insert, replace, len, drop_from, drop_poller, poll_next,
}
use async_usb_host.Futures.Slots.{
  Holds, nothing, free_slot, full_slot, index-middle, set-middle, count_full, poll_slots,
  poll_slots-pending, poll_slots-ready, finished, cut, cut_next, length_next,
}
use async_usb_host.Futures.Polling.{poll_next-PollsSlots}
use async_usb_host.Futures.Inserting.{
  no_room, placed_at, insert-Insertion, replace-Replacement, Placed, Holds-free, Holds-count,
  Holds-new,
}

module _ {F : Type 0} where
  -- The futures in the slots, put before a list one after the other.
  unfoldable pub drop_slots : List (Option F) → List F → List F
  drop_slots [] d = d
  drop_slots (none ∷ fs) d = drop_slots fs d
  drop_slots (some f ∷ fs) d = drop_slots fs (f ∷ d)

  length-drop_slots :
      (fs : List (Option F)) (d : List F) → length (drop_slots fs d) ≡ count_full fs + length d
  unfolding drop_slots count_full
  length-drop_slots [] d = omega arith
  length-drop_slots (none ∷ fs) d = length-drop_slots fs d
  length-drop_slots (some f ∷ fs) d = omega (arith, length-drop_slots fs (f ∷ d))

  drop_from-drop_slots :
      {ss : List SlotState} {cs : List (Cell F)} {fs : List (Option F)}
      → Holds ss cs fs
      → (i : ℕ) (pre : List SlotState) (cpre : List (Cell F)) (d : List F) → length pre ≡ i
      → length cpre ≡ i
      → drop_from (length ss) i (cut pre ss cpre cs d) ≡ ok (drop_slots fs d)
  unfolding drop_from drop_slots
  drop_from-drop_slots nothing i pre cpre d e ec = refl
  drop_from-drop_slots (free_slot {ss} {cs} {fs} {c = x} h) i pre cpre d e ec =
      rw (index-middle pre vacant ss i e) (
        subst (λ p. drop_from (length ss) (i + 1) p ≡ ok (drop_slots fs d))
          (cut_next pre vacant ss cpre x cs d)
          (drop_from-drop_slots h (i + 1) (pre ++ vacant ∷ []) (cpre ++ x ∷ []) d
            (length_next pre vacant i e) (length_next cpre x i ec)))
  drop_from-drop_slots (full_slot {ss} {cs} {fs} {f} h) i pre cpre d e ec =
      rw
        (
          index-middle pre occupied ss i e,
          index-middle cpre (live f) cs i ec,
          set-middle cpre (live f) cs dead i ec,
        )
        (subst (λ p. drop_from (length ss) (i + 1) p ≡ ok (drop_slots fs (f ∷ d)))
          (cut_next pre occupied ss cpre dead cs (f ∷ d))
          (drop_from-drop_slots h (i + 1) (pre ++ occupied ∷ []) (cpre ++ dead ∷ []) (f ∷ d)
            (length_next pre occupied i e) (length_next cpre dead i ec)))

  drop_poller-drop_slots :
      (p : StaticUnpinPoller F) (fs : List (Option F))
      → Holds p.states p.storage fs
      → drop_poller p ≡ ok (drop_slots fs p.dropped)
  unfolding drop_poller
  drop_poller-drop_slots p fs h = drop_from-drop_slots h 0 [] [] p.dropped refl refl

module _ {F Out W : Type 0} (poll : F → W → Poll Out × F × W) where
  -- The pollers of `n` slots that calls come to, with the number of futures they have taken.
  pub data Run (n : ℕ) : ℕ → StaticUnpinPoller F → W → Type 0 where
    starts : (w : W) → Run n 0 (new_poller n) w
    inserts :
        {k : ℕ} {p p' : StaticUnpinPoller F} {w : W} (f : F)
        → Run n k p w
        → insert p f ≡ ok (inserted, p')
        → Run n (suc k) p' w
    replaces :
        {k : ℕ} {p p' : StaticUnpinPoller F} {w : W} (i : ℕ) (f : F)
        → Run n k p w
        → replace p i f ≡ ok (inserted, p')
        → Run n (suc k) p' w
    polls :
        {k : ℕ} {p p' : StaticUnpinPoller F} {w w' : W} {r : Poll (Option (ℕ × Out))}
        → Run n k p w
        → poll_next poll p w ≡ ok (r, p', w')
        → Run n k p' w'

module _ {F : Type 0} where
  -- A poller of `n` slots that has taken `k` futures: each is in a slot or was dropped.
  abbrev Owns : ℕ → ℕ → StaticUnpinPoller F → Type 0
  Owns n k p =
      (fs : List (Option F)) × Holds p.states p.storage fs
      × (length fs ≡ n)
      × (count_full fs + length p.dropped ≡ k)

  vacant_all : (n : ℕ) (d : Option F) → d ≡ none → count_full (replicate n d) ≡ 0
  unfolding count_full
  vacant_all n (some f) e = cc
  vacant_all zero none e = refl
  vacant_all (suc n) none e = vacant_all n none refl

  Owns-new : (n : ℕ) → Owns n 0 (new_poller n)
  unfolding new_poller
  Owns-new n = (
    replicate n none,
    Holds-new n,
    length-replicate n none,
    omega (arith, vacant_all n none refl),
  )

  Owns-Placed :
      (n k i : ℕ) (p p' : StaticUnpinPoller F) (f : F) (fs : List (Option F))
      (run : Outcome (Inserted × StaticUnpinPoller F))
      → Holds p.states p.storage fs
      → length fs ≡ n
      → count_full fs + length p.dropped ≡ k
      → get_elem? fs i ≡ some none
      → Placed p fs i f run
      → run ≡ ok (inserted, p')
      → Owns n (suc k) p'
  Owns-Placed n k i p p' f fs run h size all free (q, e, h', d) e' = subst (Owns n (suc k)) q≡p' (
    set fs i (some f),
    h',
    length-set fs i (some f) ∙ size,
    omega (arith, (Holds-free h i f free).3, ap length d),
  )
    where
      q≡p' : q ≡ p'
      q≡p' = ground (arith, e, e')

  Owns-insert :
      (n k : ℕ) (p p' : StaticUnpinPoller F) (f : F)
      → Owns n k p
      → insert p f ≡ ok (inserted, p')
      → Owns n (suc k) p'
  Owns-insert n k p p' f (fs, h, size, all) e = elim (insert-Insertion p fs f h) [
    | no_room full e' ↦ cc
    | placed_at i free before placed ↦
        Owns-Placed n k i p p' f fs (insert p f) h size all free placed e
  ]

  -- What a list of slots has at an index.
  data SlotAt (fs : List (Option F)) (i : ℕ) : Type 0 where
    beyond : length fs ≤ i → SlotAt fs i
    free_at : get_elem? fs i ≡ some none → SlotAt fs i
    full_at : (f : F) → get_elem? fs i ≡ some (some f) → SlotAt fs i

  slot_at : (fs : List (Option F)) (i : ℕ) → SlotAt fs i
  slot_at [] i = beyond (omega arith)
  slot_at (none ∷ fs) zero = free_at refl
  slot_at (some f ∷ fs) zero = full_at f refl
  slot_at (o ∷ fs) (suc i) = elim (slot_at fs i) [
    | beyond h ↦ beyond (omega arith)
    | free_at e ↦ free_at e
    | full_at f e ↦ full_at f e
  ]

  Owns-replace :
      (n k i : ℕ) (p p' : StaticUnpinPoller F) (f : F)
      → Owns n k p
      → replace p i f ≡ ok (inserted, p')
      → Owns n (suc k) p'
  Owns-replace n k i p p' f (fs, h, size, all) e =
      let (placed, full, out) = replace-Replacement p fs i f h in
      elim (slot_at fs i) [
        | beyond b ↦ ground (arith, out b)
        | free_at free ↦ Owns-Placed n k i p p' f fs (replace p i f) h size all free (placed free) e
        | full_at g at ↦ ground (arith, full g at)
      ]

module _ {F Out W : Type 0} (poll : F → W → Poll Out × F × W) where
  -- A poll keeps the number of slots, and each future that leaves its slot has finished.
  abbrev Keeps : List (Option F) → Option (ℕ × Out × F) × List (Option F) × W → Type 0
  Keeps fs (found, fs', w') =
      (length fs' ≡ length fs) × (count_full fs' + length (finished found) ≡ count_full fs)

  Keeps-full :
      (i : ℕ) (fs : List (Option F)) (f : F) (w : W) (r : Poll Out × F × W)
      → ((w' : W) → Keeps fs (poll_slots poll (i + 1) fs w'))
      → poll f w ≡ r
      → Keeps (some f ∷ fs) (poll_slots poll i (some f ∷ fs) w)
  unfolding count_full
  Keeps-full i fs f w (ready output, f', w') rest eq =
      subst (Keeps (some f ∷ fs)) (sym (poll_slots-ready poll i fs f f' w w' output eq))
        (refl, omega arith)
  Keeps-full i fs f w (pending, f', w') rest eq =
      let (a, b) = rest w' in
      subst (Keeps (some f ∷ fs)) (sym (poll_slots-pending poll i fs f f' w w' eq))
        (ap suc a, omega (arith, b))

  poll_slots-Keeps : (i : ℕ) (fs : List (Option F)) (w : W) → Keeps fs (poll_slots poll i fs w)
  unfolding poll_slots count_full
  poll_slots-Keeps i [] w = (refl, omega arith)
  poll_slots-Keeps i (none ∷ fs) w = let (a, b) = poll_slots-Keeps (i + 1) fs w in (ap suc a, b)
  poll_slots-Keeps i (some f ∷ fs) w =
      Keeps-full i fs f w (poll f w) (λ w'. poll_slots-Keeps (i + 1) fs w') refl

  Owns-poll :
      (n k : ℕ) (p p' : StaticUnpinPoller F) (w w' : W) (r : Poll (Option (ℕ × Out)))
      → Owns n k p
      → poll_next poll p w ≡ ok (r, p', w')
      → Owns n k p'
  Owns-poll n k p p' w w' r (fs, h, size, all) e =
      let (q, e', h', d) = poll_next-PollsSlots poll p fs w h in
      let (same, count) = poll_slots-Keeps 0 fs w in
      let q≡p' : q ≡ p' = ground (arith, e, e') in
      let total : length q.dropped
          ≡ length (finished (poll_slots poll 0 fs w).0) + length p.dropped =
        ap length d ∙ length-append (finished (poll_slots poll 0 fs w).0) p.dropped in
      subst (Owns n k) q≡p'
        ((poll_slots poll 0 fs w).1, h', same ∙ size, omega (arith, count, total))

  Run-Owns : {n k : ℕ} {p : StaticUnpinPoller F} {w : W} → Run poll n k p w → Owns n k p
  Run-Owns (starts w) = Owns-new _
  Run-Owns (inserts f run e) = Owns-insert _ _ _ _ f (Run-Owns run) e
  Run-Owns (replaces i f run e) = Owns-replace _ _ i _ _ f (Run-Owns run) e
  Run-Owns (polls run e) = Owns-poll _ _ _ _ _ _ _ (Run-Owns run) e

  -- What is left to say of a poller that has taken `k` futures.
  abbrev pub Accounts : ℕ → StaticUnpinPoller F → W → Type 0
  Accounts k p w =
      ((d : List F) × (drop_poller p ≡ ok d) × (length d ≡ k))
      × (len p + length p.dropped ≡ k)
      × ((r : Poll (Option (ℕ × Out)) × StaticUnpinPoller F × W) × (poll_next poll p w ≡ ok r))

  -- After any calls on a poller, a further poll and the destructor return, without a read or a drop
  -- of a cell that holds no live future; the destructor leaves as many futures dropped as the poller
  -- took, and `len` is the number of those not dropped before.
  pub Run-Accounts : (n k : ℕ) (p : StaticUnpinPoller F) (w : W) → Run poll n k p w → Accounts k p w
  Run-Accounts n k p w run =
      let (fs, h, size, all) = Run-Owns run in
      let (p', e, h', d) = poll_next-PollsSlots poll p fs w h in
      (
        (
          drop_slots fs p.dropped,
          drop_poller-drop_slots p fs h,
          length-drop_slots fs p.dropped ∙ all,
        ),
        ap (λ c. c + length p.dropped) (Holds-count h) ∙ all,
        (_, e),
      )
