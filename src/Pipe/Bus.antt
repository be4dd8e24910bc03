-- ===== src/Pipe/Bus.antt =====
-- The bus behind `trait Pipe` of pipe.rs, and async code on it. A reply is what the hardware answers
-- to a call, or the timer of the transfer fires first. The calls are recorded, the last one first.
use async_usb_host.Prelude.{ℕ, zero, suc, Bool, true, false, Option, List, [], ◌∷◌, length}
use async_usb_host.Errors.{UsbHostError, nak, nyet, transfer_timeout, Result, done, failed}
use async_usb_host.Types.{EndpointType, DataTog}
use async_usb_host.Types.Port.{UsbSpeed}
use async_usb_host.Request.{Request}

pub data Reply : Type 0 where
  answered : (bytes : List ℕ) → Reply
  refused : UsbHostError → Reply
  timer_fires : Reply

pub data Call : Type 0 where
  set_addr : (address : ℕ) → Call
  setup_call : Option Request → Call
  split_call : (complete : Bool) (port : ℕ) → EndpointType → UsbSpeed → Call
  data_in_call : (endpoint : ℕ) → DataTog → (wait_for_reply send_ack : Bool) (room : ℕ) → Call
  data_out_call : (endpoint : ℕ) → DataTog → (wait_for_reply : Bool) → Option (List ℕ) → Call

pub record Bus : Type 0 where
  pub replies : List Reply
  pub calls : List Call

-- What async code comes to: a value, an error, a panic, the timer of its transfer, or that it waits
-- for a reply beyond the list. `starved` is a loop whose fuel is used up.
pub data Status (A : Type 0) : Type 0 where
  returned : A → Status A
  raised : UsbHostError → Status A
  crashed elapsed waiting starved : Status A

abbrev pub Async : Type 0 → Type 0
Async A = Bus → Status A × Bus

module _ {A B : Type 0} where
  abbrev pub follow : Status A × Bus → (A → Async B) → Status B × Bus
  follow (returned a, b) k = k a b
  follow (raised e, b) k = (raised e, b)
  follow (crashed, b) k = (crashed, b)
  follow (elapsed, b) k = (elapsed, b)
  follow (waiting, b) k = (waiting, b)
  follow (starved, b) k = (starved, b)

  infixl 5 ◌>>=◌ ◌>>◌
  abbrev pub ◌>>=◌ : Async A → (A → Async B) → Async B
  (m >>= k) b = follow (m b) k

  abbrev pub ◌>>◌ : Async A → Async B → Async B
  (m >> k) b = follow (m b) (λ a. k)

module _ {A : Type 0} where
  abbrev pub return : A → Async A
  return a b = (returned a, b)

  abbrev pub raise : UsbHostError → Async A
  raise e b = (raised e, b)

  abbrev pub crash : Async A
  crash b = (crashed, b)

  -- The `Result` of a call, as a value.
  abbrev pub caught : Status A × Bus → Status (Result A) × Bus
  caught (returned a, b) = (returned (done a), b)
  caught (raised e, b) = (returned (failed e), b)
  caught (crashed, b) = (crashed, b)
  caught (elapsed, b) = (elapsed, b)
  caught (waiting, b) = (waiting, b)
  caught (starved, b) = (starved, b)

  abbrev pub attempt : Async A → Async (Result A)
  attempt m b = caught (m b)

  -- `match select(timeout_fut, fut).await`: the timer is polled first.
  abbrev pub timed : Status A × Bus → Status A × Bus
  timed (returned a, b) = (returned a, b)
  timed (raised e, b) = (raised e, b)
  timed (crashed, b) = (crashed, b)
  timed (elapsed, b) = (raised transfer_timeout, b)
  timed (waiting, b) = (waiting, b)
  timed (starved, b) = (starved, b)

  abbrev pub select_timeout : Async A → Async A
  select_timeout fut b = timed (fut b)

-- A call that returns at once.
abbrev pub tell : Call → Async (Unit {0})
tell c b = (returned tt, record b { calls = c ∷ b.calls })

abbrev pub receive : List Reply → List Call → Status (List ℕ) × Bus
receive [] cs = (waiting, record { replies = []; calls = cs })
receive (answered bytes ∷ rs) cs = (returned bytes, record { replies = rs; calls = cs })
receive (refused e ∷ rs) cs = (raised e, record { replies = rs; calls = cs })
receive (timer_fires ∷ rs) cs = (elapsed, record { replies = rs; calls = cs })

-- A call that waits for its reply: the bytes that it received.
abbrev pub ask : Call → Async (List ℕ)
ask c b = receive b.replies (c ∷ b.calls)

-- The replies without the times at which no timer is polled.
abbrev pub untimed : List Reply → List Reply
untimed [] = []
untimed (answered bytes ∷ rs) = answered bytes ∷ rs
untimed (refused e ∷ rs) = refused e ∷ rs
untimed (timer_fires ∷ rs) = untimed rs

-- A call outside every `select`.
abbrev pub ask_untimed : Call → Async (List ℕ)
ask_untimed c b = receive (untimed b.replies) (c ∷ b.calls)

-- `Timer::after_micros`, during which the timer of the transfer may fire.
abbrev pub pause : Async (Unit {0})
pause b = elim b.replies [
  | [] ↦ (returned tt, b)
  | r ∷ rs ↦ elim r [
    | answered bytes ↦ (returned tt, b)
    | refused e ↦ (returned tt, b)
    | timer_fires ↦ (elapsed, record b { replies = rs })
  ]
]

-- A round of a loop goes on or leaves it.
pub data Turn (S A : Type 0) : Type 0 where
  again : S → Turn S A
  leave : A → Turn S A

module _ {S A : Type 0} where
  abbrev pub go_on : (S → Async A) → Turn S A → Async A
  go_on rest (again s) = rest s
  go_on rest (leave a) = return a

  -- A loop on fuel.
  unfoldable pub loop_from : ℕ → (S → Async (Turn S A)) → S → Async A
  loop_from zero body s b = (starved, b)
  loop_from (suc n) body s b = follow (body s b) (go_on (loop_from n body))

  -- `loop`: each round of the code's loops waits for a reply or leaves, so that the replies are fuel
  -- enough.
  abbrev pub loop : (S → Async (Turn S A)) → S → Async A
  loop body s b = loop_from (suc (length b.replies)) body s b

  -- `for _ in 0..n`, and what comes after it.
  unfoldable pub rounds : ℕ → Async (Turn S A) → Async A → Async A
  rounds zero body after b = after b
  rounds (suc n) body after b = follow (body b) (go_on (λ s. rounds n body after))

-- `Err(UsbHostError::NAK)` and `Err(UsbHostError::NYET)`.
abbrev pub is_nak : UsbHostError → Bool
is_nak nak = true
is_nak _ = false

abbrev pub is_nyet : UsbHostError → Bool
is_nyet nyet = true
is_nyet _ = false

module _ {S A : Type 0} where
  -- An error after which the loop goes on, or which is returned.
  abbrev pub again_if : Bool → UsbHostError → S → Async (Turn S A)
  again_if true e s = return (again s)
  again_if false e s = raise e

module _ {A : Type 0} where
  -- The arms of a loop that goes on after a NAK.
  abbrev pub unless_nak : Result A → Async (Turn (Unit {0}) A)
  unless_nak (done a) = return (leave a)
  unless_nak (failed e) = again_if (is_nak e) e tt

  -- The arms of a loop that goes on after a NYET.
  abbrev pub unless_nyet : Result A → Async (Turn (Unit {0}) A)
  unless_nyet (done a) = return (leave a)
  unless_nyet (failed e) = again_if (is_nyet e) e tt
