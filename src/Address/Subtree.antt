-- ===== src/Address/Subtree.antt =====
-- `free_subtree` of device_addr.rs on a table that is a tree.
use async_usb_host.Prelude.{ℕ, ◌+◌, ◌≤◌, ◌<◌, ◌≡◌, sym, ap, subst, ◌∙◌, ◌≢◌, ◌⊎◌, inl, inr, arith}
use async_usb_host.Prelude.{true, false, Bool-cases, some, List, length, set, length-set, ◌==◌}
use async_usb_host.Prelude.{if◌then◌else◌, ℕ_discrete}
use async_usb_host.Errors.{Outcome, ok}
use async_usb_host.External.BitArray.{BitArray}
use async_usb_host.Types.Port.{PortInfo, invalid, is_empty, parent_addr}
use async_usb_host.Address.{
  DeviceAddressManager, find_index, free_found, free_disconnected, free_subtree,
}
use async_usb_host.Address.Tree.{
  slot, index-slot, OnRoot, Child, Below, top_itself, behind, Rooted, on_root, child, IsTree,
  Rooted-occupied, Rooted-parent, occupied_within, parent_addr-some, root_above,
}
use async_usb_host.Address.Connect.{Connected, self, link, back, join}
use async_usb_host.Address.Freeing.{slot-set_cases}
use async_usb_host.Address.Disconnected.{Disconnects, free_disconnected-Disconnects}

-- `o` returns the table without slot `top` and the slots behind it, still a tree, and the mask of
-- exactly their addresses.
pub record Frees (B : BitArray) (info : List PortInfo) (top : ℕ)
    (o : Outcome (DeviceAddressManager × B.Bits)) : Type 0 where
  pub out : DeviceAddressManager
  pub mask : B.Bits
  pub returns : o ≡ ok (out, mask)
  pub size : length out.info ≡ length info
  pub gone :
      (i : ℕ) → Below info top i → (slot out.info i ≡ invalid) × (B.get_bit mask (i + 1) ≡ true)
  pub stays :
      (i : ℕ)
      → ¬ Below info top i
      → (slot out.info i ≡ slot info i) × (B.get_bit mask (i + 1) ≡ false)
  pub bit_zero : B.get_bit mask 0 ≡ false
  pub tree : IsTree out.info

module _ (info : List PortInfo) (top up : ℕ) (tree : IsTree info) (hangs : Child info top up) where
  top_within : top < length info
  top_within = occupied_within info top (parent_addr-some _ _ hangs)

  -- The table with the top's slot emptied.
  abbrev pub rest : List PortInfo
  rest = set info top invalid

  rest_cases :
      (i : ℕ) → (top ≡ i) × (slot rest i ≡ invalid) ⊎ (top ≢ i) × (slot rest i ≡ slot info i)
  rest_cases i = slot-set_cases info top i invalid top_within

  rest-Child : {i j : ℕ} → Child rest i j → (top ≢ i) × Child info i j
  unfolding parent_addr is_empty
  rest-Child {i} {j} c = ground (arith, rest_cases i)

  Child-rest : {i j : ℕ} → top ≢ i → Child info i j → Child rest i j
  Child-rest {i} d c = ground (arith, rest_cases i)

  rest-OnRoot : (i : ℕ) → OnRoot rest i → OnRoot info i
  unfolding parent_addr is_empty
  rest-OnRoot i c = ground (arith, rest_cases i)

  rest_occupied :
      (i : ℕ) → is_empty (slot rest i) ≡ false → (top ≢ i) × (is_empty (slot info i) ≡ false)
  unfolding is_empty
  rest_occupied i e = ground (arith, rest_cases i)

  -- A device is connected to the root without the top, or it hangs behind the top.
  connected_or_Below :
      (g : ℕ) {i : ℕ} → OnRoot info g → Rooted info i → Connected rest i g ⊎ Below info top i
  connected_or_Below g {i} on (on_root e) =
      inl (subst (Connected rest i) (tree.one_root i g e on) self)
  connected_or_Below g {i} on (child {j = j} e r) = elim (ℕ_discrete top i) [
    | yes same ↦ inr (top_itself (sym same))
    | no d ↦ elim (connected_or_Below g on r) [
      | inl c ↦ inl (join (link (Child-rest d e)) c)
      | inr b ↦ inr (behind e b)
    ]
  ]

  -- Being behind the top is the same at both ends of a connection.
  Below-Connected :
      {i j : ℕ}
      → Connected rest i j
      → (Below info top i → Below info top j) × (Below info top j → Below info top i)
  Below-Connected self = (λ b. b, λ b. b)
  Below-Connected {i} {j} (link c) =
      let (d, e) = rest-Child {i = i} {j = j} c in (λ b. above d e b, λ b. behind e b)
    where
      above : top ≢ i → Child info i j → Below info top i → Below info top j
      above d e (top_itself same) = absurd (d (sym same))
      above d e (behind {j = k} e' b) = subst (Below info top) (ground arith) b
  Below-Connected (back h) = let (f, g) = Below-Connected h in (g, f)
  Below-Connected (join h k) =
      let (f, g) = Below-Connected h in
      let (f', g') = Below-Connected k in (λ b. f' (f b), λ b. g (g' b))

  not-Below-root : {g : ℕ} → OnRoot info g → ¬ Below info top g
  not-Below-root on (top_itself e) = ground (arith, subst (OnRoot info) e on)
  not-Below-root on (behind c b) = ground arith

  inside : (i j : ℕ) → i < length rest → Child rest i j → j < length rest
  inside i j h c =
      let (d, e) = rest-Child {i = i} {j = j} c in
      let above = Rooted-parent (tree.rooted i (parent_addr-some _ _ e)) e in
      omega (arith, occupied_within info j (Rooted-occupied above), length-set info top invalid)

  module _ (B : BitArray) (small : length info ≤ 127) (g : ℕ) (on : OnRoot info g) where
    top≢g : top ≢ g
    top≢g e = not-Below-root on (top_itself (sym e))

    cleared : (mask : B.Bits) → Disconnects B rest mask g (free_disconnected B rest mask)
    cleared mask =
        free_disconnected-Disconnects B rest mask g (omega (arith, length-set info top invalid))
          inside (ground (arith, rest_cases g, top≢g))
          (λ i c. tree.one_root i g (rest-OnRoot i c) on)

    module _ (mask : B.Bits)
        (masked : (j : ℕ) → B.get_bit mask j ≡ (if j == top + 1 then true else B.get_bit B.zeros j))
        (o : Outcome (DeviceAddressManager × B.Bits)) (d : Disconnects B rest mask g o) where
      -- What is freed beside the top hangs behind it, and conversely.
      freed-Below : (i : ℕ) → d.freed i ≡ true → Below info top i
      freed-Below i c =
          let e = d.freed_occupied i c in
          elim (connected_or_Below g on (tree.rooted i (rest_occupied i e).1)) [
            | inl h ↦ absurd (d.freed_apart i c h)
            | inr b ↦ b
          ]

      Below-freed : (i : ℕ) → top ≢ i → Below info top i → d.freed i ≡ true
      Below-freed i ne b = elim (Bool-cases (d.freed i)) [
        | inl c ↦ c
        | inr c ↦ absurd (not-Below-root on ((Below-Connected (d.kept_connected i (occ b) c)).0 b))
      ]
        where
          occ : Below info top i → is_empty (slot rest i) ≡ false
          occ (top_itself e) = absurd (ne (sym e))
          occ (behind e b') = ground (arith, rest_cases i, parent_addr-some _ _ e)

      not-freed_of_not-Below : (i : ℕ) → ¬ Below info top i → d.freed i ≡ false
      not-freed_of_not-Below i nb = elim (Bool-cases (d.freed i)) [
        | inl c ↦ absurd (nb (freed-Below i c))
        | inr c ↦ c
      ]

      slot_gone : (i : ℕ) → Below info top i → slot d.out.info i ≡ invalid
      slot_gone i b = ground (arith, rest_cases i, d.slots i, λ (ne : top ≢ i). Below-freed i ne b)

      bit_gone : (i : ℕ) → Below info top i → B.get_bit d.out_mask (i + 1) ≡ true
      bit_gone i b = ground (arith, d.bits i, masked (i + 1), λ (ne : top ≢ i). Below-freed i ne b)

      slot_stays : (i : ℕ) → ¬ Below info top i → slot d.out.info i ≡ slot info i
      slot_stays i nb = ground (
        arith,
        rest_cases i,
        d.slots i,
        not-freed_of_not-Below i nb,
        λ (e : top ≡ i). nb (top_itself (sym e)),
      )

      bit_stays : (i : ℕ) → ¬ Below info top i → B.get_bit d.out_mask (i + 1) ≡ false
      bit_stays i nb = ground (
        arith,
        d.bits i,
        masked (i + 1),
        B.get_bit-zeros (i + 1),
        not-freed_of_not-Below i nb,
        λ (e : top ≡ i). nb (top_itself (sym e)),
      )

      out_occupied :
          (i : ℕ)
          → is_empty (slot d.out.info i) ≡ false
          → (¬ Below info top i) × (is_empty (slot info i) ≡ false)
      unfolding is_empty
      out_occupied i e = (nb, ground (arith, slot_stays i nb))
        where
          nb : ¬ Below info top i
          nb b = ground (arith, slot_gone i b)

      Rooted-stays : {i : ℕ} → ¬ Below info top i → Rooted info i → Rooted d.out.info i
      Rooted-stays {i} nb (on_root e) = on_root (ap parent_addr (slot_stays i nb) ∙ e)
      Rooted-stays {i} nb (child e r) =
          child (ap parent_addr (slot_stays i nb) ∙ e) (Rooted-stays (λ b. nb (behind e b)) r)

      stays_root : (i : ℕ) → OnRoot d.out.info i → OnRoot info i
      stays_root i c =
          let (nb, _) = out_occupied i (parent_addr-some _ _ c) in
          sym (ap parent_addr (slot_stays i nb)) ∙ c

      out-IsTree : IsTree d.out.info
      out-IsTree = record {
        rooted = λ i e. let (nb, e') = out_occupied i e in Rooted-stays nb (tree.rooted i e');
        one_root = λ i j ci cj. tree.one_root i j (stays_root i ci) (stays_root j cj);
        clean = λ i e. ground (arith, rest_cases i, d.slots i, tree.clean i);
      }

      Frees-cleared : (o' : Outcome (DeviceAddressManager × B.Bits)) → o' ≡ o → Frees B info top o'
      Frees-cleared o' e = record {
        out = d.out;
        mask = d.out_mask;
        returns = e ∙ d.returns;
        size = d.size ∙ length-set info top invalid;
        gone = λ i b. (slot_gone i b, bit_gone i b);
        stays = λ i nb. (slot_stays i nb, bit_stays i nb);
        bit_zero = d.bit_zero ∙ ground (arith, masked 0, B.get_bit-zeros 0);
        tree = out-IsTree;
      }

    free_found-Frees : Frees B info top (free_found B (record { info = info }) top)
    unfolding free_found
    free_found-Frees =
        let (mask, writes, written) =
          B.set_bit_within B.zeros (top + 1) true (omega (arith, top_within)) in
        Frees-cleared mask written (free_disconnected B rest mask) (cleared mask)
          (free_found B (record { info = info }) top)
          (rw (index-slot info top top_within, parent_addr-some _ _ hangs, writes))

-- On a table of at most 127 slots that is a tree, for the port of a device that hangs on another
-- device: `free_subtree` returns; exactly the slot found and the slots behind it are emptied, the
-- mask holds exactly their addresses, and the table stays a tree.
pub free_subtree-Frees :
    (B : BitArray) (m : DeviceAddressManager) (dev_info : PortInfo) (top up : ℕ)
    → length m.info ≤ 127
    → IsTree m.info
    → find_index dev_info 0 m.info ≡ some top
    → Child m.info top up
    → Frees B m.info top (free_subtree B m dev_info)
unfolding free_subtree
free_subtree-Frees B m dev_info top up small tree e hangs =
    let (g, on) = root_above (tree.rooted top (parent_addr-some _ _ hangs)) in
    rw (e, free_subtree) (free_found-Frees m.info top up tree hangs B small g on)
