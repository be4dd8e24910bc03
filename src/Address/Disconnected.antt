-- ===== src/Address/Disconnected.antt =====
-- The loops of `free_subtree` of device_addr.rs together.
use async_usb_host.Prelude.{ℕ, ◌+◌, ◌≤◌, ◌<◌, ◌≡◌, refl, sym, subst, ◌∙◌, ◌⊎◌, inl, inr, arith}
use async_usb_host.Prelude.{Bool, true, false, ◌&&◌, List, length, ltb, if◌then◌else◌}
use async_usb_host.Prelude.{dec_lt}
use async_usb_host.Errors.{Outcome, ok}
use async_usb_host.External.BitArray.{BitArray}
use async_usb_host.Types.Port.{PortInfo, invalid, is_empty}
use async_usb_host.Address.{
  DeviceAddressManager, free_disconnected, Sweep, sweep, root_component, connect,
}
use async_usb_host.Loops.{for_range}
use async_usb_host.Prelude.{◌≢◌}
use async_usb_host.Address.Tree.{slot, OnRoot, Child, occupied_within, parent_addr-some}
use async_usb_host.Address.UnionFind.{Forest}
use async_usb_host.Address.UnionFind.Roots.{RootOf, RootOf-unique}
use async_usb_host.Address.UnionFind.Find.{root_total}
use async_usb_host.Address.Connect.{Connected, self, link, back, join, Built, start, connect_loop}
use async_usb_host.Address.RootComponent.{RootFound, root_component-RootFound}
use async_usb_host.Address.Freeing.{cut, Swept, sweep_loop}

-- In a finished forest two connected slots are one slot or have one root.
abbrev SameRoot : List ℕ → ℕ → ℕ → Type 0
SameRoot p i j = (i ≡ j) ⊎ ((r : ℕ) × RootOf p r i × RootOf p r j)

SameRoot-join : (p : List ℕ) (i j k : ℕ) → SameRoot p i j → SameRoot p j k → SameRoot p i k
SameRoot-join p i j k (inl e) h = subst (λ t. SameRoot p t k) (sym e) h
SameRoot-join p i j k (inr h) (inl e) = subst (SameRoot p i) e (inr h)
SameRoot-join p i j k (inr (r, ri, rj)) (inr (s, sj, sk)) =
    inr (r, ri, subst (λ t. RootOf p t k) (RootOf-unique sj rj) sk)

Connected-SameRoot :
    {info : List PortInfo} {i j : ℕ} (s : Forest)
    → Built info (length info) s
    → Connected info i j
    → SameRoot s.parent i j
Connected-SameRoot s b self = inl refl
Connected-SameRoot {info} {i} {j} s b (link c) =
    inr (b.done i j (occupied_within info i (parent_addr-some _ _ c)) c)
Connected-SameRoot s b (back h) = elim (Connected-SameRoot s b h) [
  | inl e ↦ inl (sym e)
  | inr (r, ri, rj) ↦ inr (r, rj, ri)
]
Connected-SameRoot {i = i} {j = k} s b (join {j = j} h h') =
    SameRoot-join s.parent i j k (Connected-SameRoot s b h) (Connected-SameRoot s b h')

-- `o` returns the table with the slots of `freed` emptied, which are the devices apart from `g`, and
-- the mask with their addresses added.
pub record Disconnects (B : BitArray) (info : List PortInfo) (mask : B.Bits) (g : ℕ)
    (o : Outcome (DeviceAddressManager × B.Bits)) : Type 0 where
  pub out : DeviceAddressManager
  pub out_mask : B.Bits
  pub returns : o ≡ ok (out, out_mask)
  pub size : length out.info ≡ length info
  pub freed : ℕ → Bool
  pub slots : (i : ℕ) → slot out.info i ≡ (if freed i then invalid else slot info i)
  pub bit_zero : B.get_bit out_mask 0 ≡ B.get_bit mask 0
  pub bits :
      (i : ℕ) → B.get_bit out_mask (i + 1) ≡ (if freed i then true else B.get_bit mask (i + 1))
  pub freed_occupied : (i : ℕ) → freed i ≡ true → is_empty (slot info i) ≡ false
  pub freed_apart : (i : ℕ) → freed i ≡ true → ¬ Connected info i g
  pub kept_connected :
      (i : ℕ) → is_empty (slot info i) ≡ false → freed i ≡ false → Connected info i g

module _ (B : BitArray) (info : List PortInfo) (mask : B.Bits) (g : ℕ) (small : length info ≤ 127)
    (inside : (i j : ℕ) → i < length info → Child info i j → j < length info) (on : OnRoot info g)
    (only : (i : ℕ) → OnRoot info i → i ≡ g) where
  g_within : g < length info
  g_within = occupied_within info g (parent_addr-some _ _ on)

  forest : Forest
  forest = (connect_loop info inside).0

  forest_returns : for_range (length info) 0 (connect info) (start info inside) ≡ ok forest
  unfolding forest
  forest_returns = (connect_loop info inside).1

  built : Built info (length info) forest
  unfolding forest
  built = (connect_loop info inside).2

  found :
      RootFound
        (length info)
        forest.rank
        info
        forest.parent
        (root_component (length info) 0 info forest.parent)
  found =
      root_component-RootFound (length info) forest.rank (length info) 0 g info forest.parent
        built.ranked refl (omega arith) (omega arith) g_within on

  RootOf-g : RootOf forest.parent found.root g
  RootOf-g = subst (RootOf forest.parent found.root) (only found.at found.on_root) found.root_of

  rep_for : (z : ℕ) → (r : ℕ) × (z < length info → RootOf forest.parent r z)
  rep_for z = elim (dec_lt z (length info)) [
    | yes h ↦
        let (r, p) =
          root_total (length info) (length info) forest.rank forest.parent z built.ranked h in
        (r, λ _. p)
    | no h ↦ (0, λ h'. absurd (h h'))
  ]

  rep : ℕ → ℕ
  rep z = (rep_for z).0

  rep_of : (z : ℕ) → z < length info → RootOf forest.parent (rep z) z
  unfolding rep
  rep_of z = (rep_for z).1

  abbrev begin : Sweep B
  begin = record { info = info; mask = mask; parent = found.out }

  abbrev SweptTo : ℕ → Sweep B → Type 0
  SweptTo = Swept B info mask forest.parent forest.rank rep found.root

  begin-Swept : SweptTo 0 begin
  begin-Swept = record {
    size = refl;
    ranked = found.ranked;
    keeps = found.keeps;
    slots = λ i. ground arith;
    bit_zero = refl;
    bits = λ i. ground arith;
  }

  swept :
      (t : Sweep B) × (for_range (length info) 0 (sweep B found.root) begin ≡ ok t)
      × SweptTo (length info) t
  swept =
      sweep_loop B info mask forest.parent forest.rank rep found.root small rep_of begin begin-Swept

  abbrev cuts : ℕ → Bool
  cuts = cut B info mask forest.parent forest.rank rep found.root

  cut-Connected : (i : ℕ) → cuts i ≡ true → ¬ Connected info i g
  cut-Connected i c h = elim (Connected-SameRoot forest built h) [
    | inl e ↦ differs (
        RootOf-unique (rep_of i i_within)
          (subst (RootOf forest.parent found.root) (sym e) RootOf-g))
    | inr (r, ri, rg) ↦ differs (RootOf-unique (rep_of i i_within) ri ∙ RootOf-unique rg RootOf-g)
  ]
    where
      i_within : i < length info
      i_within = occupied_within info i (ground arith)

      differs : rep i ≢ found.root
      differs e = ground arith

  kept-Connected : (i : ℕ) → is_empty (slot info i) ≡ false → cuts i ≡ false → Connected info i g
  kept-Connected i o c =
      let h = occupied_within info i o in
      let same : rep i ≡ found.root = ground arith in
      join (built.sound i found.root h (subst (λ r. RootOf forest.parent r i) same (rep_of i h)))
        (back (built.sound g found.root g_within RootOf-g))

  pub free_disconnected-Disconnects : Disconnects B info mask g (free_disconnected B info mask)
  unfolding free_disconnected
  free_disconnected-Disconnects =
      let (t, run, w) = swept in
      record {
        out = record { info = t.info };
        out_mask = t.mask;
        returns = rw (forest_returns, found.returns, run);
        size = w.size;
        freed = λ i. ltb i (length info) && cuts i;
        slots = w.slots;
        bit_zero = w.bit_zero;
        bits = w.bits;
        freed_occupied = λ i c. ground arith;
        freed_apart = λ i c. cut-Connected i (ground arith);
        kept_connected = λ i o c. kept-Connected i o (ground (arith, occupied_within info i o));
      }
