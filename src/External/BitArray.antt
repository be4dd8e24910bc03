-- ===== src/External/BitArray.antt =====
-- The crate `bitvec`, as the code uses it: an array of 128 bits whose `set` panics out of bounds,
-- and `iter_ones`, the positions of the set bits in ascending order.
use async_usb_host.Prelude.{ℕ, ◌≤◌, ◌<◌, ◌≡◌, refl, Bool, false, ltb, ◌==◌, if◌then◌else◌}
use async_usb_host.Prelude.{arith}
use async_usb_host.Errors.{Outcome, ok, panics}

pub record BitArray : Type 1 where
  pub Bits : Type 0
  pub zeros : Bits
  pub get_bit : Bits → ℕ → Bool
  pub set_bit : Bits → ℕ → Bool → Outcome Bits
  pub get_bit-zeros : (i : ℕ) → get_bit zeros i ≡ false
  pub set_bit_within :
      (b : Bits) (i : ℕ) (v : Bool)
      → i < 128
      → (c : Bits) × (set_bit b i v ≡ ok c)
        × ((j : ℕ) → get_bit c j ≡ (if j == i then v else get_bit b j))
  pub set_bit_beyond : (b : Bits) (i : ℕ) (v : Bool) → 128 ≤ i → set_bit b i v ≡ panics

pub set_table : (ℕ → Bool) → ℕ → Bool → Outcome (ℕ → Bool)
set_table b i v = if ltb i 128 then ok (λ j. if j == i then v else b j) else panics

pub set_table_within :
    (b : ℕ → Bool) (i : ℕ) (v : Bool)
    → i < 128
    → (c : ℕ → Bool) × (set_table b i v ≡ ok c) × ((j : ℕ) → c j ≡ (if j == i then v else b j))
unfolding set_table
set_table_within b i v h = ((λ j. if j == i then v else b j), ground arith, λ j. refl)

pub set_table_beyond : (b : ℕ → Bool) (i : ℕ) (v : Bool) → 128 ≤ i → set_table b i v ≡ panics
unfolding set_table
set_table_beyond b i v h = ground arith

-- A table of bits meets the interface.
unfoldable pub table : BitArray
unfolding set_table
table = record {
  Bits = ℕ → Bool;
  zeros = λ i. false;
  get_bit = λ b i. b i;
  set_bit = set_table;
  get_bit-zeros = λ i. refl;
  set_bit_within = set_table_within;
  set_bit_beyond = set_table_beyond;
}
