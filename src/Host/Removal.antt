-- ===== src/Host/Removal.antt =====
-- `remove_disconnected_hubs` of lib.rs: which hubs and which bits are left.
use async_usb_host.Prelude.{
  ℕ, zero, suc, ◌<◌, ◌≡◌, refl, sym, ap, subst, ◌∙◌, arith, Bool, true, false, not, ◌&&◌, some, inl,
  inr, List, [], ◌∷◌, ◌++◌, length, length-append, get_elem?, Bool-cases, ◌==◌, if◌then◌else◌,
}
use mathlib.Core.List.{append_assoc, append-nil}
use mathlib.Core.List.Permᴰ
use mathlib.Core.List.{Permᴰ}
use async_usb_host.Errors.{ok}
use async_usb_host.External.BitArray.{BitArray}
use async_usb_host.Address.{remove_address}
use async_usb_host.HubDriver.{Hub}
use async_usb_host.External.ArrayVec.{ArrayVec, last_or, without_last, split_last}
use async_usb_host.Host.Hubs.{remove_from, remove_disconnected_hubs}
use async_usb_host.Host.HubLists.{
  Absent, All, All-Permᴰ, Distinct, Distinct-Permᴰ, address_of, has_address, has_address-Permᴰ,
  length-Permᴰ,
}

-- What is left of the items after the one removed.
abbrev moved : List Hub → List Hub
moved [] = []
moved (y ∷ ys) = last_or y ys ∷ without_last (y ∷ ys)

moved-Permᴰ : (r : List Hub) → Permᴰ (moved r) r
moved-Permᴰ [] = Permᴰ.nil
moved-Permᴰ (y ∷ []) = Permᴰ.refl _
moved-Permᴰ (y ∷ z ∷ zs) =
    Permᴰ.trans (Permᴰ.swap refl refl) (Permᴰ.cons refl (moved-Permᴰ (z ∷ zs)))

swap_remove-append :
    (V : ArrayVec) (pre : List Hub) (x : Hub) (r : List Hub)
    → V.swap_remove (pre ++ (x ∷ r)) (length pre) ≡ pre ++ moved r
swap_remove-append V pre x [] = V.swap_remove_last pre x ∙ sym (append-nil pre)
swap_remove-append V pre x (y ∷ ys) =
    ap (λ l. V.swap_remove (pre ++ (x ∷ l)) (length pre)) (sym (split_last y ys))
    ∙ V.swap_remove_middle pre (without_last (y ∷ ys)) x (last_or y ys)

get_elem?-append :
    (pre : List Hub) (x : Hub) (r : List Hub) → get_elem? (pre ++ (x ∷ r)) (length pre) ≡ some x
get_elem?-append [] x r = refl
get_elem?-append (p ∷ pre) x r = get_elem?-append pre x r

and_true : (t : Bool) → t ≡ (t && true)
and_true true = refl
and_true false = refl

module _ (B : BitArray) where
  -- The hubs whose bit is clear.
  abbrev pub kept : B.Bits → List Hub → List Hub
  kept mask [] = []
  kept mask (h ∷ hs) = if B.get_bit mask (address_of h) then kept mask hs else h ∷ kept mask hs

  -- The bits without those of the hubs.
  abbrev pub Without : B.Bits → List Hub → B.Bits → Type 0
  Without mask hubs mask' =
      (j : ℕ) → B.get_bit mask' j ≡ (B.get_bit mask j && not (has_address j hubs))

  kept-cons :
      (t : Bool) (x : Hub) (xs ys : List Hub)
      → Permᴰ xs ys
      → Permᴰ (if t then xs else x ∷ xs) (if t then ys else x ∷ ys)
  kept-cons true x xs ys p = p
  kept-cons false x xs ys p = Permᴰ.cons refl p

  kept-swap :
      (s t : Bool) (x y : Hub) (xs : List Hub)
      → Permᴰ
          (if s then (if t then xs else y ∷ xs) else x ∷ (if t then xs else y ∷ xs))
          (if t then (if s then xs else x ∷ xs) else y ∷ (if s then xs else x ∷ xs))
  kept-swap true true x y xs = Permᴰ.refl _
  kept-swap true false x y xs = Permᴰ.refl _
  kept-swap false true x y xs = Permᴰ.refl _
  kept-swap false false x y xs = Permᴰ.swap refl refl

  kept-Permᴰ :
      (mask : B.Bits) {xs ys : List Hub} → Permᴰ xs ys → Permᴰ (kept mask xs) (kept mask ys)
  kept-Permᴰ mask Permᴰ.nil = Permᴰ.nil
  kept-Permᴰ mask (Permᴰ.cons {a = x} {l₁ = xs} {l₂ = ys} e p) =
      subst (λ (z : Hub). Permᴰ (kept mask (x ∷ xs)) (kept mask (z ∷ ys))) e
        (kept-cons (B.get_bit mask (address_of x)) x (kept mask xs) (kept mask ys)
          (kept-Permᴰ mask p))
  kept-Permᴰ mask (Permᴰ.swap {a = x} {b = y} {b' = x'} {l = l} e f) =
      subst (λ (z : Hub). Permᴰ (kept mask (x ∷ y ∷ l)) (kept mask (z ∷ x' ∷ l))) f
        (subst (λ (z : Hub). Permᴰ (kept mask (x ∷ y ∷ l)) (kept mask (y ∷ z ∷ l))) e
          (kept-swap (B.get_bit mask (address_of x)) (B.get_bit mask (address_of y)) x y
            (kept mask l)))
  kept-Permᴰ mask (Permᴰ.trans p q) = Permᴰ.trans (kept-Permᴰ mask p) (kept-Permᴰ mask q)

  -- A bit of no hub in the list does not count.
  kept-cleared :
      (mask mask' : B.Bits) (a : ℕ)
      → ((j : ℕ) → B.get_bit mask' j ≡ (if j == a then false else B.get_bit mask j))
      → (hubs : List Hub) → Absent a hubs
      → kept mask' hubs ≡ kept mask hubs
  kept-cleared mask mask' a w [] h = refl
  kept-cleared mask mask' a w (x ∷ xs) h =
      let same : B.get_bit mask' (address_of x) ≡ B.get_bit mask (address_of x) =
        ground (arith, w (address_of x), h.0) in
      rw (same, kept-cleared mask mask' a w xs h.1)

module _ (B : BitArray) (V : ArrayVec) where
  -- What a loop over the rest of the hubs comes to.
  abbrev Removes : (n : ℕ) → (pre rest : List Hub) → B.Bits → Type 0
  Removes n pre rest mask =
      (hubs : List Hub) × (mask' : B.Bits) × (tail : List Hub) × (remove_from B V n (length pre)
          (pre ++ rest) mask
        ≡ ok (hubs, mask'))
      × (hubs ≡ pre ++ tail)
      × Permᴰ tail (kept B mask rest)
      × Without B mask rest mask'

  module _ (n : ℕ) (pre r : List Hub) (x : Hub) (mask : B.Bits) where
    step_gone :
        (mask1 : B.Bits)
        → B.get_bit mask (address_of x) ≡ true
        → B.set_bit mask (address_of x) false ≡ ok mask1
        → ((j : ℕ) → B.get_bit mask1 j ≡ (if j == address_of x then false else B.get_bit mask j))
        → Absent (address_of x) r
        → Removes n pre (moved r) mask1
        → Removes (suc n) pre (x ∷ r) mask
    unfolding remove_from remove_address
    step_gone mask1 set run w absent (hubs, mask', tail, go, split, perm, bits) = (
      hubs,
      mask',
      tail,
      rw (get_elem?-append pre x r, set, run, swap_remove-append V pre x r, remove_from) go,
      split,
      rw set (
          subst (λ (l : List Hub). Permᴰ tail l)
            (kept-cleared B mask mask1 (address_of x) w r absent)
            (Permᴰ.trans perm (kept-Permᴰ B mask1 (moved-Permᴰ r)))),
      λ j. bits j ∙ ground (arith, w j, has_address-Permᴰ j (moved-Permᴰ r)),
    )

    step_stays :
        B.get_bit mask (address_of x) ≡ false
        → Removes n (pre ++ (x ∷ [])) r mask
        → Removes (suc n) pre (x ∷ r) mask
    unfolding remove_from
    step_stays clear (hubs, mask', tail, go, split, perm, bits) = (
      hubs,
      mask',
      x ∷ tail,
      rw (get_elem?-append pre x r, clear, remove_from)
          (ap (λ i. remove_from B V n i (pre ++ (x ∷ r)) mask)
              (omega (arith, length-append pre (x ∷ [])))
            ∙ ap (λ hs. remove_from B V n (length (pre ++ (x ∷ []))) hs mask)
                (sym (append_assoc pre (x ∷ []) r))
            ∙ go),
      split ∙ append_assoc pre (x ∷ []) tail,
      rw clear (Permᴰ.cons refl perm),
      λ j. bits j ∙ ground arith,
    )

  removes :
      (n : ℕ) (pre rest : List Hub) (mask : B.Bits)
      → length rest ≡ n
      → Distinct rest
      → All (λ h. address_of h < 128) rest
      → Removes n pre rest mask
  unfolding remove_from
  removes zero pre [] mask e d small =
      (pre ++ [], mask, [], refl, refl, Permᴰ.nil, λ j. and_true (B.get_bit mask j))
  removes zero pre (x ∷ r) mask e d small = absurd (omega arith)
  removes (suc n) pre [] mask e d small = absurd (omega arith)
  removes (suc n) pre (x ∷ r) mask e d small = elim (Bool-cases (B.get_bit mask (address_of x))) [
    | inl set ↦
        let (mask1, run, w) = B.set_bit_within mask (address_of x) false small.0 in
        let perm = Permᴰ.symm (moved-Permᴰ r) in
        step_gone n pre r x mask mask1 set run w d.0 (
          removes n pre (moved r) mask1 (omega (arith, e, length-Permᴰ (moved-Permᴰ r)))
            (Distinct-Permᴰ perm d.1) (All-Permᴰ _ perm small.1))
    | inr clear ↦
        step_stays n pre r x mask clear
          (removes n (pre ++ (x ∷ [])) r mask (omega (arith, e)) d.1 small.1)
  ]

  -- The hubs and the mask after a removal.
  abbrev pub Removed : List Hub → B.Bits → Type 0
  Removed hubs mask =
      (hubs' : List Hub) × (mask' : B.Bits) × (remove_disconnected_hubs B V hubs mask
        ≡ ok (hubs', mask'))
      × Permᴰ hubs' (kept B mask hubs)
      × Without B mask hubs mask'

  -- For hubs with distinct addresses below 128, the loop ends; the hubs left are exactly those whose
  -- bit was clear, in some order, and the mask has exactly the bits that are of no hub.
  pub remove-Removed :
      (hubs : List Hub) (mask : B.Bits)
      → Distinct hubs
      → All (λ h. address_of h < 128) hubs
      → Removed hubs mask
  unfolding remove_disconnected_hubs
  remove-Removed hubs mask d small =
      let (hubs', mask', tail, go, split, perm, bits) =
        removes (length hubs) [] hubs mask refl d small in
      (
        hubs',
        mask',
        go,
        subst (λ (l : List Hub). Permᴰ l (kept B mask hubs)) (sym split) perm,
        bits,
      )
