-- ===== src/Host/Owned.antt =====
-- The addresses of the hubs of lib.rs: what polling and enumerating leave of them.
use async_usb_host.Prelude.{
  ℕ, suc, ◌-◌, ◌≤◌, ◌<◌, ◌≡◌, ◌≢◌, refl, sym, ap, subst, arith, Bool, false, Option, none, some,
  inl, inr, List, [], ◌∷◌, ◌++◌, length, replicate, Bool-cases,
}
use async_usb_host.Errors.{Result, done, failed}
use async_usb_host.Types.{DeviceHandle, InterruptChannel}
use async_usb_host.Types.Port.{PortInfo, is_empty}
use async_usb_host.Address.Tree.{slot, occupied_within}
use async_usb_host.Address.Marks.{Stays, NewlyTaken, Marked}
use async_usb_host.Pipe.Bus.{Bus, Status, returned, raised, crashed, elapsed, waiting, starved}
use async_usb_host.HubDriver.{Hub, HubEvent}
use async_usb_host.HubDriver.Polling.{after_interrupt, poll_hub, and_then, poll_hubs}
use async_usb_host.Pipe.Control.{interrupt_transfer}
use async_usb_host.Host.Enumerate.{}
use async_usb_host.Host.Removal.{kept}
use async_usb_host.Host.HubLists.{All, address_of, Absent, Distinct}
use async_usb_host.External.BitArray.{BitArray}

-- The hub has an address, and its slot is taken.
abbrev pub Owns : List PortInfo → Hub → Type 0
Owns info h = (0 < address_of h) × (is_empty (slot info (address_of h - 1)) ≡ false)

-- Each hub has an address of its own.
abbrev pub Owned : List PortInfo → List Hub → Type 0
Owned info hubs = Distinct hubs × All (Owns info) hubs

pub Owned-Stays :
    (info info' : List PortInfo) (hubs : List Hub)
    → Stays info info'
    → All (Owns info) hubs
    → All (Owns info') hubs
Owned-Stays info info' [] s o = tt
Owned-Stays info info' (h ∷ hs) s o =
    ((o.0.0, s.1 (address_of h - 1) o.0.1), Owned-Stays info info' hs s o.1)

Owns-within :
    (info : List PortInfo) (h : Hub) → length info ≤ 127 → Owns info h → address_of h < 128
Owns-within info h small o = omega (arith, occupied_within info (address_of h - 1) o.1, o.0)

pub Owned-within :
    (info : List PortInfo) (hubs : List Hub)
    → length info ≤ 127
    → All (Owns info) hubs
    → All (λ h. address_of h < 128) hubs
Owned-within info [] small o = tt
Owned-within info (h ∷ hs) small o = (Owns-within info h small o.0, Owned-within info hs small o.1)

-- An address that was free is that of no hub.
pub Absent-NewlyTaken :
    (info info' : List PortInfo) (a : ℕ) (hubs : List Hub)
    → NewlyTaken info info' a
    → All (Owns info) hubs
    → Absent a hubs
Absent-NewlyTaken info info' a [] t o = tt
Absent-NewlyTaken info info' a (h ∷ hs) (at, e, free, taken) o = (
  λ same.
      let before : address_of h - 1 ≡ at = omega (arith, same, e) in
      let clash : is_empty (slot info at) ≡ false =
        subst (λ i. is_empty (slot info i) ≡ false) before o.0.1 in
      absurd (ground (arith, clash, free)),
  Absent-NewlyTaken info info' a hs (at, e, free, taken) o.1,
)

pub All-append : (P : Hub → Type 0) (xs ys : List Hub) → All P xs → All P ys → All P (xs ++ ys)
All-append P [] ys hx hy = hy
All-append P (x ∷ xs) ys hx hy = (hx.0, All-append P xs ys hx.1 hy)

pub Distinct-append :
    (hubs : List Hub) (h : Hub)
    → Absent (address_of h) hubs
    → Distinct hubs
    → Distinct (hubs ++ (h ∷ []))
Distinct-append [] h a d = (tt, tt)
Distinct-append (x ∷ xs) h a d =
    (All-append _ xs (h ∷ []) d.0 ((λ e. a.0 (sym e)), tt), Distinct-append xs h a.1 d.1)

-- The same hubs, whose channels may have gone on.
abbrev pub Alike : List Hub → List Hub → Type 0
Alike [] [] = Unit {0}
Alike [] (y ∷ ys) = ⊥
Alike (x ∷ xs) [] = ⊥
Alike (x ∷ xs) (y ∷ ys) = (x.handle ≡ y.handle) × Alike xs ys

Alike-refl : (hubs : List Hub) → Alike hubs hubs
Alike-refl [] = tt
Alike-refl (h ∷ hs) = (refl, Alike-refl hs)

pub Alike-length : (xs ys : List Hub) → Alike xs ys → length xs ≡ length ys
Alike-length [] [] a = refl
Alike-length [] (y ∷ ys) a = absurd a
Alike-length (x ∷ xs) [] a = absurd a
Alike-length (x ∷ xs) (y ∷ ys) a = ap suc (Alike-length xs ys a.1)

Alike-All :
    (P : ℕ → Type 0) (xs ys : List Hub)
    → Alike xs ys
    → All (λ h. P (address_of h)) xs
    → All (λ h. P (address_of h)) ys
Alike-All P [] [] a h = tt
Alike-All P [] (y ∷ ys) a h = absurd a
Alike-All P (x ∷ xs) [] a h = absurd a
Alike-All P (x ∷ xs) (y ∷ ys) a h =
    (subst (λ (d : DeviceHandle). P d.address) a.0 h.0, Alike-All P xs ys a.1 h.1)

Alike-Distinct : (xs ys : List Hub) → Alike xs ys → Distinct xs → Distinct ys
Alike-Distinct [] [] a d = tt
Alike-Distinct [] (y ∷ ys) a d = absurd a
Alike-Distinct (x ∷ xs) [] a d = absurd a
Alike-Distinct (x ∷ xs) (y ∷ ys) a d = (
  subst (λ (n : DeviceHandle). Absent n.address ys) a.0
      (Alike-All (λ k. k ≢ address_of x) xs ys a.1 d.0),
  Alike-Distinct xs ys a.1 d.1,
)

pub Alike-Owned :
    (info : List PortInfo) (xs ys : List Hub) → Alike xs ys → Owned info xs → Owned info ys
Alike-Owned info xs ys a o = (
  Alike-Distinct xs ys a o.0,
  Alike-All (λ k. (0 < k) × (is_empty (slot info (k - 1)) ≡ false)) xs ys a o.1,
)

module _ (iter_ones : List ℕ → List ℕ) where
  after_interrupt-handle :
      (hub : Hub) (t : Bool) (r : Status (List ℕ) × InterruptChannel × Bus)
      → hub.handle ≡ ((after_interrupt iter_ones hub t r).1).handle
  after_interrupt-handle hub t (returned bytes, c, b) = refl
  after_interrupt-handle hub t (raised e, c, b) = refl
  after_interrupt-handle hub t (crashed, c, b) = refl
  after_interrupt-handle hub t (elapsed, c, b) = refl
  after_interrupt-handle hub t (waiting, c, b) = refl
  after_interrupt-handle hub t (starved, c, b) = refl

  and_then-Alike :
      (h : Hub) (hubs : List Hub) (r : Status (Result (Option HubEvent)) × Hub × Bus)
      (rest : Bus → Status (Option HubEvent) × List Hub × Bus)
      → h.handle ≡ (r.1).handle
      → ((b : Bus) → Alike hubs (rest b).1)
      → Alike (h ∷ hubs) (and_then iter_ones r rest hubs).1
  and_then-Alike h hubs (returned (done (some event)), k, b) rest e a = (e, Alike-refl hubs)
  and_then-Alike h hubs (returned (done none), k, b) rest e a = (e, a b)
  and_then-Alike h hubs (returned (failed x), k, b) rest e a = (e, a b)
  and_then-Alike h hubs (raised x, k, b) rest e a = (e, Alike-refl hubs)
  and_then-Alike h hubs (crashed, k, b) rest e a = (e, Alike-refl hubs)
  and_then-Alike h hubs (elapsed, k, b) rest e a = (e, Alike-refl hubs)
  and_then-Alike h hubs (waiting, k, b) rest e a = (e, Alike-refl hubs)
  and_then-Alike h hubs (starved, k, b) rest e a = (e, Alike-refl hubs)

  -- A poll changes no more of the hubs than their channels, wherever it stops.
  pub poll_hubs-Alike :
      (hubs : List Hub) (t : Bool) (b : Bus) → Alike hubs (poll_hubs iter_ones hubs t b).1
  unfolding poll_hubs poll_hub
  poll_hubs-Alike [] t b = tt
  poll_hubs-Alike (h ∷ hs) t b =
      and_then-Alike h hs (poll_hub iter_ones h t b) (poll_hubs iter_ones hs t)
        (after_interrupt-handle h t (interrupt_transfer h.interrupt_channel (replicate 16 0) b))
        (poll_hubs-Alike hs t)

module _ (B : BitArray) (mask : B.Bits) where
  kept-All : (P : Hub → Type 0) (hubs : List Hub) → All P hubs → All P (kept B mask hubs)
  kept-All P [] h = tt
  kept-All P (x ∷ xs) h = elim (Bool-cases (B.get_bit mask (address_of x))) [
    | inl e ↦ rw (e, kept) (kept-All P xs h.1)
    | inr e ↦ rw (e, kept) (h.0, kept-All P xs h.1)
  ]

  pub kept-Distinct : (hubs : List Hub) → Distinct hubs → Distinct (kept B mask hubs)
  kept-Distinct [] d = tt
  kept-Distinct (x ∷ xs) d = elim (Bool-cases (B.get_bit mask (address_of x))) [
    | inl e ↦ rw (e, kept) (kept-Distinct xs d.1)
    | inr e ↦ rw (e, kept) (kept-All _ xs d.0, kept-Distinct xs d.1)
  ]

  pub length-kept : (hubs : List Hub) → length (kept B mask hubs) ≤ length hubs
  length-kept [] = omega arith
  length-kept (x ∷ xs) = elim (Bool-cases (B.get_bit mask (address_of x))) [
    | inl e ↦ rw (e, kept) (omega (arith, length-kept xs))
    | inr e ↦ rw (e, kept) (omega (arith, length-kept xs))
  ]

  module _ (before after : List PortInfo) (marked : Marked B before (after, mask)) where
    Owns-clear : (h : Hub) → Owns before h → B.get_bit mask (address_of h) ≡ false → Owns after h
    Owns-clear h o clear =
        let next : suc (address_of h - 1) ≡ address_of h = omega (arith, o.0) in
        (o.0, ground (arith, marked.1 (address_of h - 1) o.1, ap (B.get_bit mask) next))

    -- A hub whose bit is clear still has its slot.
    pub kept-Owns : (hubs : List Hub) → All (Owns before) hubs → All (Owns after) (kept B mask hubs)
    kept-Owns [] o = tt
    kept-Owns (x ∷ xs) o = elim (Bool-cases (B.get_bit mask (address_of x))) [
      | inl e ↦ rw (e, kept) (kept-Owns xs o.1)
      | inr e ↦ rw (e, kept) (Owns-clear x o.0 e, kept-Owns xs o.1)
    ]
