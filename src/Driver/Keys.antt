-- ===== src/Driver/Keys.antt =====
-- The characters of `hid_key_to_ascii` in driver/kbd.rs.
use async_usb_host.Prelude.{
  ℕ, ◌+◌, ◌-◌, ◌<◌, ◌≤◌, ◌≡◌, arith, Bool, true, not, ◌&&◌, ◌||◌, leb, ◌==◌, refl,
}
use async_usb_host.Prelude.Bits.{passes_under, passes_under-at}
use async_usb_host.Driver.{hid_key_to_ascii}

abbrev pub KeyCodes : ℕ → ℕ → Type 0
KeyCodes key other =
    (hid_key_to_ascii key < 128)
    × (0x04 ≤ key → key ≤ 0x1D → hid_key_to_ascii key ≡ 97 + (key - 0x04))
    × (0x1E ≤ key → key ≤ 0x26 → hid_key_to_ascii key ≡ 49 + (key - 0x1E))
    × (0x04 ≤ key
        → key ≤ 0x30
        → 0x04 ≤ other
        → other ≤ 0x30
        → hid_key_to_ascii key ≡ hid_key_to_ascii other
        → key ≡ other)

-- Two keys from 0x04 to 0x30 with one character are one key.
tells_apart : ℕ → ℕ → Bool
tells_apart key other =
    not (leb 0x04 key && (leb 0x04 other && hid_key_to_ascii key == hid_key_to_ascii other))
    || (key == other)

tells_apart_table : passes_under (λ key. passes_under (tells_apart key) 0x31) 0x31 ≡ true
unfolding passes_under tells_apart hid_key_to_ascii
tells_apart_table = refl

apart :
    (key other : ℕ)
    → 0x04 ≤ key
    → key < 0x31
    → 0x04 ≤ other
    → other < 0x31
    → hid_key_to_ascii key ≡ hid_key_to_ascii other
    → key ≡ other
unfolding tells_apart
apart key other lk hk lo ho e = ground (
  arith,
  passes_under-at (tells_apart key) 0x31 other
      (passes_under-at (λ k. passes_under (tells_apart k) 0x31) 0x31 key tells_apart_table hk) ho,
)

-- Every key has an ASCII character; the letters and the digits 1 to 9 are in their order, and no two
-- of the keys from 0x04 to 0x30 have the same character.
pub key_codes : (key other : ℕ) → KeyCodes key other
unfolding hid_key_to_ascii
key_codes key other = (
  ground arith,
  λ a b. ground arith,
  λ a b. ground arith,
  λ a b c d e. apart key other a (omega arith) c (omega arith) e,
)
