-- ===== src/Address/Marks.antt =====
-- What the operations of device_addr.rs do to the other slots of any table, tree or not: no slot is
-- emptied without a mark.
use async_usb_host.Prelude.{
  ℕ, zero, suc, ◌+◌, ◌≤◌, ◌<◌, ◌≡◌, ◌≢◌, refl, ap, ◌∙◌, ◌⊎◌, inl, inr, arith, Bool, true, false,
  not, Option, none, some, List, length, set, replicate, length-set, dec_lt, Bool-cases, ◌==◌,
  if◌then◌else◌, get_elem?-eq-none,
}
use async_usb_host.Errors.{Outcome, ok, err, panics, index, assert, ◌>>=◌}
use async_usb_host.Loops.{for_range}
use async_usb_host.External.BitArray.{BitArray}
use async_usb_host.Types.{DeviceHandle}
use async_usb_host.Types.Port.{PortInfo, DevInfo, invalid, is_empty}
use async_usb_host.Address.{
  DeviceAddressManager, alloc_device_address, free_address, Sweep, sweep, sweep_from, connect,
  root_component, free_disconnected, free_found, free_subtree, find_index,
}
use async_usb_host.Address.Tree.{slot, index-slot}
use async_usb_host.Address.Alloc.{Allocates, alloc-Allocates, free_address_lem}
use async_usb_host.Address.UnionFind.{Forest, find, count_up}
use async_usb_host.Address.Freeing.{slot-set_cases}

-- A value that is returned has a property.
abbrev pub Ensures {ℓ κ} : {A : Type ℓ} → (A → Type κ) → Outcome A → Type κ
Ensures P (ok a) = P a
Ensures P (err e) = Unit
Ensures P panics = Unit

pub Ensures-bind {ℓ κ ρ τ} :
    {A : Type ℓ} {B : Type κ} (P : A → Type ρ) (Q : B → Type τ) (m : Outcome A) (k : A → Outcome B)
    → Ensures P m
    → ((a : A) → P a → Ensures Q (k a))
    → Ensures Q (m >>= k)
Ensures-bind P Q (ok a) k h hk = hk a h
Ensures-bind P Q (err e) k h hk = tt
Ensures-bind P Q panics k h hk = tt

-- The same where nothing is known of the value.
pub Ensures-then {ℓ κ τ} :
    {A : Type ℓ} {B : Type κ} (Q : B → Type τ) (m : Outcome A) (k : A → Outcome B)
    → ((a : A) → Ensures Q (k a))
    → Ensures Q (m >>= k)
Ensures-then Q (ok a) k hk = hk a
Ensures-then Q (err e) k hk = tt
Ensures-then Q panics k hk = tt

pub Ensures-branch {ℓ κ} :
    {A : Type ℓ} (P : A → Type κ) (t : Bool) (m k : Outcome A)
    → Ensures P m
    → Ensures P k
    → Ensures P (if t then m else k)
Ensures-branch P true m k h hk = h
Ensures-branch P false m k h hk = hk

for_range-Ensures {ℓ κ} :
    {S : Type ℓ} (P : S → Type κ) (body : ℕ → S → Outcome S)
    → ((i : ℕ) (s : S) → P s → Ensures P (body i s))
    → (n i : ℕ) (s : S) → P s
    → Ensures P (for_range n i body s)
unfolding for_range
for_range-Ensures P body keep zero i s h = h
for_range-Ensures P body keep (suc n) i s h =
    Ensures-bind P P (body i s) (for_range n (i + 1) body) (keep i s h)
      (for_range-Ensures P body keep n (i + 1))

index_within :
    (info : List PortInfo) (i : ℕ)
    → Ensures (λ p. (p ≡ slot info i) × (i < length info)) (index info i)
index_within info i = elim (dec_lt i (length info)) [
  | yes h ↦ rw (index-slot info i h, Ensures) (refl, h)
  | no h ↦ rw (get_elem?-eq-none info i (omega arith), index, Ensures) tt
]

-- The table has its length, and no device of it is gone.
abbrev pub Stays : List PortInfo → List PortInfo → Type 0
Stays before after =
    (length after ≡ length before)
    × ((j : ℕ) → is_empty (slot before j) ≡ false → is_empty (slot after j) ≡ false)

-- An address was free and is taken.
abbrev pub NewlyTaken : List PortInfo → List PortInfo → (address : ℕ) → Type 0
NewlyTaken before after address =
    (at : ℕ) × (address ≡ suc at)
    × (is_empty (slot before at) ≡ true)
    × (is_empty (slot after at) ≡ false)

module _ (m : DeviceAddressManager) (max_packet_size : ℕ) (parent : DevInfo)
    (small : length m.info ≤ 127) where
  -- An address that is given was free; giving it back leaves no device out.
  abbrev pub Gives : DeviceAddressManager × DeviceHandle → Type 0
  Gives (m', handle) =
      Stays m.info m'.info
      × NewlyTaken m.info m'.info handle.address
      × Ensures (λ m''. Stays m.info m''.info) (free_address m' handle)

  module _ (port : is_empty parent.port ≡ false)
      (a : Allocates m max_packet_size parent (alloc_device_address m max_packet_size parent)) where
    slot_new :
        (j : ℕ)
        → (a.at ≡ j) × (slot a.out.info j ≡ parent.port)
          ⊎ (a.at ≢ j) × (slot a.out.info j ≡ slot m.info j)
    slot_new j = rw a.table (slot-set_cases m.info a.at j parent.port a.first.0)

    length_new : length a.out.info ≡ length m.info
    length_new = ap length a.table ∙ length-set m.info a.at parent.port

    taken : is_empty (slot a.out.info a.at) ≡ false
    unfolding is_empty
    taken = ground (arith, slot_new a.at)

    at_within : a.at < length a.out.info
    at_within = omega (arith, length_new, a.first.0)

    Stays-given_back : Stays m.info (set a.out.info a.at invalid)
    unfolding is_empty
    Stays-given_back = (
      length-set a.out.info a.at invalid ∙ length_new,
      λ j e.
          ground (arith, a.first.1, slot_new j, slot-set_cases a.out.info a.at j invalid at_within),
    )

    Gives-allocated : Gives (a.out, a.handle)
    unfolding is_empty
    Gives-allocated = (
      (length_new, λ j e. ground (arith, slot_new j)),
      (a.at, omega (arith, a.address), a.first.1, taken),
      rw (free_address_lem a.out a.handle a.at a.address at_within taken, Ensures) Stays-given_back,
    )

  pub alloc-Gives : Ensures Gives (alloc_device_address m max_packet_size parent)
  unfolding alloc_device_address
  alloc-Gives = elim (Bool-cases (is_empty parent.port)) [
    | inl e ↦ rw (e, alloc_device_address, Ensures) tt
    | inr e ↦ elim (alloc-Allocates m max_packet_size parent small e) [
      | inl a ↦ rw (a.returns, Ensures) (Gives-allocated e a)
      | inr full ↦ rw (full.1, Ensures) tt
    ]
  ]

-- Every device that is gone has its bit in the mask.
abbrev pub Marked : (B : BitArray) → List PortInfo → List PortInfo × B.Bits → Type 0
Marked B before (after, mask) =
    (length after ≡ length before)
    × ((j : ℕ)
        → is_empty (slot before j) ≡ false
        → (is_empty (slot after j) ≡ false) ⊎ (B.get_bit mask (suc j) ≡ true))

abbrev apart : ℕ → Forest
apart n = record { parent = count_up 0 n; rank = replicate n 0 }

module _ (B : BitArray) where
  set_bit-written :
      (b : B.Bits) (i : ℕ) (v : Bool)
      → Ensures
          (λ c. (j : ℕ) → B.get_bit c j ≡ (if j == i then v else B.get_bit b j))
          (B.set_bit b i v)
  set_bit-written b i v = elim (dec_lt i 128) [
    | yes h ↦ let (c, run, w) = B.set_bit_within b i v h in rw (run, Ensures) w
    | no h ↦ rw (B.set_bit_beyond b i v (omega arith), Ensures) tt
  ]

  module _ (info : List PortInfo) where
    Marked-set :
        (now : List PortInfo) (mask c : B.Bits) (i : ℕ)
        → i < length now
        → Marked B info (now, mask)
        → ((j : ℕ) → B.get_bit c j ≡ (if j == i + 1 then true else B.get_bit mask j))
        → Marked B info (set now i invalid, c)
    Marked-set now mask c i h (size, marks) w = (
      length-set now i invalid ∙ size,
      λ j e. ground (arith, marks j e, w (suc j), slot-set_cases now i j invalid h),
    )

    sweep-Marked :
        (root i : ℕ) (s : Sweep B)
        → Marked B info (s.info, s.mask)
        → Ensures (λ (t : Sweep B). Marked B info (t.info, t.mask)) (sweep B root i s)
    unfolding sweep
    sweep-Marked root i s h = Ensures-bind _ _ (index s.info i) _ (index_within s.info i) (λ p w.
        Ensures-branch _ (is_empty p) _ _ h (
          Ensures-then _ (find s.parent i) _ (λ r. Ensures-branch _ (r.1 == root) _ _ h (
            Ensures-bind _ _ (B.set_bit s.mask (i + 1) true) _ (set_bit-written s.mask (i + 1) true)
              (λ c written. Marked-set s.info s.mask c i w.1 h written)))))

    sweep_from-Marked :
        (root : Option ℕ) (s : Sweep B)
        → Marked B info (s.info, s.mask)
        → Ensures (λ (t : Sweep B). Marked B info (t.info, t.mask)) (sweep_from B root s)
    unfolding sweep_from
    sweep_from-Marked none s h = h
    sweep_from-Marked (some root) s h =
        for_range-Ensures (λ (t : Sweep B). Marked B info (t.info, t.mask)) (sweep B root)
          (sweep-Marked root) (length s.info) 0 s h

    -- What is freed is marked.
    abbrev pub Marks : DeviceAddressManager × B.Bits → Type 0
    Marks (m', mask) = Marked B info (m'.info, mask)

    free_disconnected-Marks :
        (now : List PortInfo) (mask : B.Bits)
        → Marked B info (now, mask)
        → Ensures Marks (free_disconnected B now mask)
    unfolding free_disconnected
    free_disconnected-Marks now mask h =
        Ensures-then Marks (for_range (length now) 0 (connect now) (apart (length now))) _
          (λ forest. Ensures-then Marks (root_component (length now) 0 now forest.parent) _ (λ r.
            Ensures-bind _ Marks
              (sweep_from B r.1 (record { info = now; mask = mask; parent = r.0 })) _
              (sweep_from-Marked r.1 (record { info = now; mask = mask; parent = r.0 }) h)
              (λ t ht. ht)))

  free_found-Marks :
      (m : DeviceAddressManager) (idx : ℕ) → Ensures (Marks m.info) (free_found B m idx)
  unfolding free_found
  free_found-Marks m idx =
      Ensures-bind _ (Marks m.info) (index m.info idx) _ (index_within m.info idx) (λ p w.
        Ensures-then (Marks m.info) (assert (not (is_empty p))) _ (λ t.
          Ensures-bind _ (Marks m.info) (B.set_bit B.zeros (idx + 1) true) _
            (set_bit-written B.zeros (idx + 1) true)
            (λ c written.
              free_disconnected-Marks m.info (set m.info idx invalid) c
                (Marked-set m.info m.info B.zeros c idx w.1 (refl, λ j e. inl e) written))))

  -- On any table and for any port, where `free_subtree` returns, the table has its length, and every
  -- device that is gone has its bit in the mask.
  pub free_subtree-Marks :
      (m : DeviceAddressManager) (port : PortInfo) → Ensures (Marks m.info) (free_subtree B m port)
  unfolding free_subtree
  free_subtree-Marks m port =
      elim (find_index port 0 m.info)
        as (λ (o : Option ℕ).
          Ensures (Marks m.info)
            (elim o [ none ↦ ok (m, B.zeros) | some idx ↦ free_found B m idx ])) [
              | none ↦ (refl, λ j e. inl e)
              | some idx ↦ free_found-Marks m idx
            ]
