-- ===== src/Address/Freeing.antt =====
-- The last loop of `free_subtree` of device_addr.rs, which frees what is not connected to the root.
use async_usb_host.Prelude.{ℕ, ◌+◌, ◌≤◌, ◌<◌, ◌≡◌, refl, ap, subst, ◌∙◌, ◌≢◌, inl, inr, ◌⊎◌}
use async_usb_host.Prelude.{arith, Bool, true, false, not, ◌&&◌, Bool-cases, List, length, set}
use async_usb_host.Prelude.{length-set, get_or-set_self, get_or-set_ne, ltb, ◌==◌, if◌then◌else◌}
use async_usb_host.Prelude.{ℕ_discrete}
use async_usb_host.Errors.{ok, index}
use async_usb_host.Loops.{for_range, for_range_keeps}
use async_usb_host.External.BitArray.{BitArray}
use async_usb_host.Types.Port.{PortInfo, invalid, is_empty}
use async_usb_host.Address.{sweep, Sweep}
use async_usb_host.Address.Tree.{slot, index-slot}
use async_usb_host.Address.UnionFind.{find}
use async_usb_host.Address.UnionFind.Roots.{RootOf, RootOf-unique}
use async_usb_host.Address.UnionFind.Find.{Ranked, Found, find-Found}

-- What a write to a slot changes.
pub slot-set_cases :
    (info : List PortInfo) (i j : ℕ) (p : PortInfo)
    → i < length info
    → (i ≡ j) × (slot (set info i p) j ≡ p) ⊎ (i ≢ j) × (slot (set info i p) j ≡ slot info j)
slot-set_cases info i j p h = elim (ℕ_discrete i j) [
  | yes e ↦ inl (e, subst (λ z. slot (set info i p) z ≡ p) e (get_or-set_self info i p invalid h))
  | no d ↦ inr (d, get_or-set_ne info i j p invalid d)
]

module _ (B : BitArray) (info : List PortInfo) (mask : B.Bits) (parent rank : List ℕ) (rep : ℕ → ℕ)
    (root : ℕ) where
  -- Slot `i` holds a device outside the component of `root`.
  abbrev pub cut : ℕ → Bool
  cut i = not (is_empty (slot info i)) && not (rep i == root)

  pub record Swept (k : ℕ) (s : Sweep B) : Type 0 where
    pub size : length s.info ≡ length info
    pub ranked : Ranked (length info) (length info) s.parent rank
    pub keeps : (z r : ℕ) → RootOf parent r z → RootOf s.parent r z
    pub slots : (i : ℕ) → slot s.info i ≡ (if ltb i k && cut i then invalid else slot info i)
    pub bit_zero : B.get_bit s.mask 0 ≡ B.get_bit mask 0
    pub bits :
        (i : ℕ)
        → B.get_bit s.mask (i + 1) ≡ (if ltb i k && cut i then true else B.get_bit mask (i + 1))

  module _ (small : length info ≤ 127)
      (rep_of : (z : ℕ) → z < length info → RootOf parent (rep z) z) where
    -- A round that frees nothing.
    Swept-keep :
        (i : ℕ) (s t : Sweep B)
        → cut i ≡ false
        → t.info ≡ s.info
        → t.mask ≡ s.mask
        → Ranked (length info) (length info) t.parent rank
        → ((z r : ℕ) → RootOf parent r z → RootOf t.parent r z)
        → Swept i s
        → Swept (i + 1) t
    Swept-keep i s t c ei em v k w = record {
      size = ap length ei ∙ w.size;
      ranked = v;
      keeps = k;
      slots = λ j. ap (λ l. slot l j) ei ∙ w.slots j ∙ later j;
      bit_zero = ap (λ m. B.get_bit m 0) em ∙ w.bit_zero;
      bits = λ j. ap (λ m. B.get_bit m (j + 1)) em ∙ w.bits j ∙ later' j;
    }
      where
        same : (j : ℕ) → (ltb j i && cut j) ≡ (ltb j (i + 1) && cut j)
        same j = elim (ℕ_discrete i j) [
          | yes e ↦ ground (arith, subst (λ z. cut z ≡ false) e c)
          | no d ↦ ground arith
        ]

        later :
            (j : ℕ)
            → (if ltb j i && cut j then invalid else slot info j)
              ≡ (if ltb j (i + 1) && cut j then invalid else slot info j)
        later j = ap (λ b. if b then invalid else slot info j) (same j)

        later' :
            (j : ℕ)
            → (if ltb j i && cut j then true else B.get_bit mask (j + 1))
              ≡ (if ltb j (i + 1) && cut j then true else B.get_bit mask (j + 1))
        later' j = ap (λ b. if b then true else B.get_bit mask (j + 1)) (same j)

    -- A round that frees slot `i`.
    Swept-free :
        (i : ℕ) (s : Sweep B) (m : B.Bits) (q : List ℕ)
        → i < length info
        → cut i ≡ true
        → ((j : ℕ) → B.get_bit m j ≡ (if j == i + 1 then true else B.get_bit s.mask j))
        → Ranked (length info) (length info) q rank
        → ((z r : ℕ) → RootOf parent r z → RootOf q r z)
        → Swept i s
        → Swept (i + 1) (record { info = set s.info i invalid; mask = m; parent = q })
    Swept-free i s m q hi c written v k w = record {
      size = length-set s.info i invalid ∙ w.size;
      ranked = v;
      keeps = k;
      slots = λ j. elim (slot-set_cases s.info i j invalid (rw w.size hi)) [
        | inl (e, now) ↦ now ∙ ground (arith, subst (λ z. cut z ≡ true) e c)
        | inr (d, now) ↦ now ∙ w.slots j ∙ ap (λ b. if b then invalid else slot info j) (same j d)
      ];
      bit_zero = written 0 ∙ ground (arith, w.bit_zero);
      bits = λ j. elim (ℕ_discrete i j) [
        | yes e ↦ written (j + 1) ∙ ground (arith, subst (λ z. cut z ≡ true) e c)
        | no d ↦
            written (j + 1)
            ∙ ground (arith, w.bits j)
            ∙ ap (λ b. if b then true else B.get_bit mask (j + 1)) (same j d)
      ];
    }
      where
        same : (j : ℕ) → i ≢ j → (ltb j i && cut j) ≡ (ltb j (i + 1) && cut j)
        same j d = ground arith

    abbrev Round : ℕ → Sweep B → Type 0
    Round i s = (t : Sweep B) × (sweep B root i s ≡ ok t) × Swept (i + 1) t

    module _ (i : ℕ) (s : Sweep B) (hi : i < length info) (w : Swept i s) where
      untouched : slot s.info i ≡ slot info i
      untouched = ground (arith, w.slots i)

      look : index s.info i ≡ ok (slot info i)
      look = index-slot s.info i (rw w.size hi) ∙ ap ok untouched

      f : Found (length info) (length info) s.parent rank i (find s.parent i)
      f = find-Found (length info) (length info) rank s.parent i w.ranked (omega arith) hi

      root_is : f.root ≡ rep i
      root_is = RootOf-unique f.root_of (w.keeps i (rep i) (rep_of i hi))

      keeps_all : (z r : ℕ) → RootOf parent r z → RootOf f.out r z
      keeps_all z r h = f.keeps z r (w.keeps z r h)

      round_empty : is_empty (slot info i) ≡ true → Round i s
      unfolding sweep
      round_empty e =
          (s, rw (look, e), Swept-keep i s s (ground arith) refl refl w.ranked w.keeps w)

      round_kept : is_empty (slot info i) ≡ false → (rep i == root) ≡ true → Round i s
      unfolding sweep
      round_kept e k = (
        record s { parent = f.out },
        rw (look, e, f.returns, root_is, k),
        Swept-keep i s (record s { parent = f.out }) (ground arith) refl refl f.ranked keeps_all w,
      )

      round_freed : is_empty (slot info i) ≡ false → (rep i == root) ≡ false → Round i s
      unfolding sweep
      round_freed e k =
          let (m, writes, written) = B.set_bit_within s.mask (i + 1) true (omega arith) in
          (
            record { info = set s.info i invalid; mask = m; parent = f.out },
            rw (look, e, f.returns, root_is, k, writes),
            Swept-free i s m f.out hi (ground arith) written f.ranked keeps_all w,
          )

      round : Round i s
      round = elim (Bool-cases (is_empty (slot info i))) [
        | inl e ↦ round_empty e
        | inr e ↦ elim (Bool-cases (rep i == root)) [
          | inl k ↦ round_kept e k
          | inr k ↦ round_freed e k
        ]
      ]

    -- The loop returns, with exactly the slots to cut freed.
    pub sweep_loop :
        (s : Sweep B)
        → Swept 0 s
        → (t : Sweep B) × (for_range (length info) 0 (sweep B root) s ≡ ok t)
          × Swept (length info) t
    sweep_loop s w =
        for_range_keeps Swept (sweep B root) (length info) round (length info) 0 s (omega arith) w
