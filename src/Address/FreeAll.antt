-- ===== src/Address/FreeAll.antt =====
-- `free_all_addresses` of device_addr.rs, its table and its mask.
use async_usb_host.Prelude.{ℕ, ◌+◌, ◌≤◌, ◌<◌, ◌≡◌, refl, ap, subst, ◌∙◌, inl, inr, arith}
use async_usb_host.Prelude.{true, false, not, ◌&&◌, Bool-cases, List, length, set, length-set, ltb}
use async_usb_host.Prelude.{if◌then◌else◌, ℕ_discrete}
use async_usb_host.Errors.{Outcome, ok, index}
use async_usb_host.Loops.{for_range_keeps}
use async_usb_host.External.BitArray.{BitArray}
use async_usb_host.Types.Port.{PortInfo, invalid, is_empty}
use async_usb_host.Address.{DeviceAddressManager, free_slot, free_all_addresses}
use async_usb_host.Address.Tree.{slot, index-slot, occupied_within, is_empty-invalid}
use async_usb_host.Address.Freeing.{slot-set_cases}

pub record FreesAll (B : BitArray) (m : DeviceAddressManager)
    (o : Outcome (DeviceAddressManager × B.Bits)) : Type 0 where
  pub out : DeviceAddressManager
  pub mask : B.Bits
  pub returns : o ≡ ok (out, mask)
  pub size : length out.info ≡ length m.info
  pub emptied : (i : ℕ) → is_empty (slot out.info i) ≡ true
  pub bit_zero : B.get_bit mask 0 ≡ false
  pub bits : (i : ℕ) → B.get_bit mask (i + 1) ≡ not (is_empty (slot m.info i))

module _ (B : BitArray) (m : DeviceAddressManager) (small : length m.info ≤ 127) where
  record Upto (k : ℕ) (s : List PortInfo × B.Bits) : Type 0 where
    size : length s.0 ≡ length m.info
    slots :
        (i : ℕ)
        → slot s.0 i
          ≡ (if ltb i k && not (is_empty (slot m.info i)) then invalid else slot m.info i)
    bit_zero : B.get_bit s.1 0 ≡ false
    bits : (i : ℕ) → B.get_bit s.1 (i + 1) ≡ (ltb i k && not (is_empty (slot m.info i)))

  module _ (i : ℕ) (s : List PortInfo × B.Bits) (hi : i < length m.info) (u : Upto i s) where
    look : index s.0 i ≡ ok (slot m.info i)
    look = index-slot s.0 i (rw u.size hi) ∙ ap ok (ground (arith, u.slots i))

    same :
        (j : ℕ)
        → (i ≡ j → is_empty (slot m.info j) ≡ true)
        → (ltb j i && not (is_empty (slot m.info j)))
          ≡ (ltb j (i + 1) && not (is_empty (slot m.info j)))
    same j h = elim (ℕ_discrete i j) [ yes e ↦ ground (arith, h e) | no d ↦ ground arith ]

    abbrev Round : Type 0
    Round = (t : List PortInfo × B.Bits) × (free_slot B i s ≡ ok t) × Upto (i + 1) t

    round_empty : is_empty (slot m.info i) ≡ true → Round
    unfolding free_slot
    round_empty e = (
      s,
      rw (look, e),
      record {
        size = u.size;
        slots = λ j.
            u.slots j ∙ ap (λ b. if b then invalid else slot m.info j) (same j (λ e'. rw (← e') e));
        bit_zero = u.bit_zero;
        bits = λ j. u.bits j ∙ same j (λ e'. rw (← e') e);
      },
    )

    round_freed : is_empty (slot m.info i) ≡ false → Round
    unfolding free_slot
    round_freed e =
        let (w, writes, written) = B.set_bit_within s.1 (i + 1) true (omega arith) in
        (
          (set s.0 i invalid, w),
          rw (look, e, writes),
          record {
            size = length-set s.0 i invalid ∙ u.size;
            slots = λ j. elim (slot-set_cases s.0 i j invalid (rw u.size hi)) [
              | inl (e', now) ↦
                  now ∙ ground (arith, subst (λ k. is_empty (slot m.info k) ≡ false) e' e)
              | inr (d, now) ↦
                  now
                  ∙ u.slots j
                  ∙ ap (λ b. if b then invalid else slot m.info j) (same j (λ e'. absurd (d e')))
            ];
            bit_zero = written 0 ∙ ground (arith, u.bit_zero);
            bits = λ j. elim (ℕ_discrete i j) [
              | yes e' ↦
                  written (j + 1)
                  ∙ ground (arith, subst (λ k. is_empty (slot m.info k) ≡ false) e' e)
              | no d ↦ written (j + 1) ∙ ground (arith, u.bits j, same j (λ e'. absurd (d e')))
            ];
          },
        )

    round : Round
    round = elim (Bool-cases (is_empty (slot m.info i))) [
      | inl e ↦ round_empty e
      | inr e ↦ round_freed e
    ]

  begin : Upto 0 (m.info, B.zeros)
  begin = record {
    size = refl;
    slots = λ i. ground arith;
    bit_zero = B.get_bit-zeros 0;
    bits = λ i. B.get_bit-zeros (i + 1) ∙ ground arith;
  }

  -- On a table of at most 127 slots `free_all_addresses` returns; every slot is empty then, and the
  -- mask holds exactly the addresses whose slots were occupied.
  pub free_all-FreesAll : FreesAll B m (free_all_addresses B m)
  unfolding free_all_addresses
  free_all-FreesAll =
      let (t, run, u) =
        for_range_keeps Upto (free_slot B) (length m.info) round (length m.info) 0 (m.info, B.zeros)
          (omega arith) begin in
      record {
        out = record { info = t.0 };
        mask = t.1;
        returns = rw run;
        size = u.size;
        emptied = λ i. emptied t u i;
        bit_zero = u.bit_zero;
        bits = λ i. u.bits i ∙ whole i;
      }
    where
      whole :
          (i : ℕ)
          → (ltb i (length m.info) && not (is_empty (slot m.info i)))
            ≡ not (is_empty (slot m.info i))
      whole i = elim (Bool-cases (is_empty (slot m.info i))) [
        | inl e ↦ ground arith
        | inr e ↦ ground (arith, occupied_within m.info i e)
      ]

      emptied :
          (t : List PortInfo × B.Bits)
          → Upto (length m.info) t
          → (i : ℕ) → is_empty (slot t.0 i) ≡ true
      emptied t u i = elim (Bool-cases (is_empty (slot m.info i))) [
        | inl e ↦ ap is_empty (u.slots i) ∙ ground (arith, e)
        | inr e ↦
            ap is_empty (u.slots i)
            ∙ ground (arith, e, occupied_within m.info i e, is_empty-invalid)
      ]
