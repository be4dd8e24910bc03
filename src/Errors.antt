-- ===== src/Errors.antt =====
-- errors.rs, `ParsingError` of descriptor/mod.rs, and what a call comes to: the value of `Ok`, the
-- error of `Err`, or a panic. Debug assertions and bounds checks panic, as in a debug build.
use async_usb_host.Prelude.{ℕ, Bool, true, false, Option, none, some, List, ◌≢◌}
use async_usb_host.Prelude.{get_elem?}

pub data ParsingError : Type 0 where
  incomplete_device_descriptor : (max_packet_size : ℕ) → ParsingError
  incomplete invalid_length : ParsingError
  unknown_type : (length descriptor_type : ℕ) → ParsingError

pub data UsbHostError : Type 0 where
  unknown nak nyet wrong_tog stall unexpected_pid : UsbHostError
  buffer_overflow : UsbHostError
  parsing_error : ParsingError → UsbHostError
  transfer_timeout invalid_state invalid_response unexpected_device : UsbHostError
  hub_capacity detached : UsbHostError

pub data Outcome {ℓ} (A : Type ℓ) : Type ℓ where
  ok : A → Outcome A
  err : UsbHostError → Outcome A
  panics : Outcome A

-- The value of a `Result` that the code hands on as data.
pub data Result {ℓ} (A : Type ℓ) : Type ℓ where
  done : A → Result A
  failed : UsbHostError → Result A

infixl 5 ◌>>=◌ ◌>>◌
abbrev pub ◌>>=◌ {ℓ κ} : {A : Type ℓ} {B : Type κ} → Outcome A → (A → Outcome B) → Outcome B
ok a >>= f = f a
err e >>= f = err e
panics >>= f = panics

abbrev pub ◌>>◌ {ℓ} : {B : Type ℓ} → Outcome (Unit {0}) → Outcome B → Outcome B
m >> k = m >>= λ _. k

-- `assert!` and `debug_assert!`.
abbrev pub assert : Bool → Outcome (Unit {0})
assert true = ok tt
assert false = panics

-- `ok_or`.
abbrev pub ok_or {ℓ} : {A : Type ℓ} → Option A → UsbHostError → Outcome A
ok_or none e = err e
ok_or (some a) e = ok a

-- An index expression: a panic out of bounds.
abbrev pub index {ℓ} : {A : Type ℓ} → List A → ℕ → Outcome A
index xs i = elim (get_elem? xs i) [ none ↦ panics | some a ↦ ok a ]

pub ok≢panics {ℓ} : {A : Type ℓ} (a : A) → ok a ≢ panics
ok≢panics a e = cc
