-- ===== src/Pipe/Completes.antt =====
-- What the transfers of pipe.rs spend of the replies.
use async_usb_host.Prelude.{
  ℕ, suc, ◌<◌, ◌≤◌, arith, Bool, true, false, some, List, [], length, leb, if◌then◌else◌, ◌≢◌, inl,
  inr, ltb, ◌==◌,
}
use async_usb_host.Types.{EndpointType, control, DataTog, DeviceHandle}
use async_usb_host.Types.Port.{DevInfo}
use async_usb_host.Request.{Request, RequestTypeDirection, host_to_device, device_to_host}
use async_usb_host.Pipe.Bus.{
  setup_call, data_in_call, data_out_call, Bus, Status, returned, raised, crashed, elapsed, waiting,
  starved, Async, ◌>>◌, return, ask, Turn, again, leave,
}
use async_usb_host.Pipe.Loops.{
  Under, Keeps, Spends, Spends-Keeps, RoundUnder, RoundUnder-follow, loop-Keeps,
}
use async_usb_host.Pipe.Split.{}
use async_usb_host.Pipe.Transfer.{setup, data_in, data_out, data_in_with_retry, data_out_with_retry}
use async_usb_host.Pipe.Ends.{
  split_setup-Spends, split_data_in-Spends, split_data_out-Spends, timed-Spends, caught-Spends,
  then-Keeps, retry-Spends, ask-Spends, branch-Keeps,
}
use async_usb_host.Pipe.Control.{
  assert, send_some, send_round, send_data, receive_round, receive_data, data_stage, status_stage,
  control_transfer,
}
use async_usb_host.Prelude.{Option-cases, min}
use async_usb_host.Types.{tog1}
use async_usb_host.Request.{data_direction}

pub setup-Spends : (d : DevInfo) (a : ℕ) (req : Request) → Spends (setup d a req)
unfolding setup
setup-Spends d a req b = elim (Option-cases d.transaction_translator) [
  | inl e ↦ rw (e, setup) (timed-Spends (ask (setup_call (some req))) (ask-Spends _) _)
  | inr (t, e) ↦ rw (e, setup) (split_setup-Spends _ req b)
]

pub data_in-Spends :
    (d : DevInfo) (a endpoint : ℕ) (ep : EndpointType) (tog : DataTog) (room : ℕ)
    → Spends (data_in d a endpoint ep tog room)
unfolding data_in
data_in-Spends d a endpoint ep tog room b = elim (Option-cases d.transaction_translator) [
  | inl e ↦
      rw (e, data_in)
        (timed-Spends (ask (data_in_call endpoint tog true true room)) (ask-Spends _) b)
  | inr (t, e) ↦ rw (e, data_in) (timed-Spends _ (split_data_in-Spends _ endpoint ep tog room) b)
]

pub data_out-Spends :
    (d : DevInfo) (a endpoint : ℕ) (ep : EndpointType) (tog : DataTog) (buf : List ℕ)
    → Spends (data_out d a endpoint ep tog buf)
unfolding data_out
data_out-Spends d a endpoint ep tog buf b = elim (Option-cases d.transaction_translator) [
  | inl e ↦
      rw (e, data_out)
        (timed-Spends (ask (data_out_call endpoint tog true (some buf))) (ask-Spends _) b)
  | inr (t, e) ↦ rw (e, data_out) (timed-Spends _ (split_data_out-Spends _ endpoint ep tog buf) b)
]

pub data_in_with_retry-Spends :
    (d : DevInfo) (a endpoint : ℕ) (ep : EndpointType) (tog : DataTog) (room : ℕ)
    → Spends (data_in_with_retry d a endpoint ep tog room)
unfolding data_in_with_retry
data_in_with_retry-Spends d a endpoint ep tog room =
    retry-Spends _ (caught-Spends _ (data_in-Spends d a endpoint ep tog room))

pub data_out_with_retry-Spends :
    (d : DevInfo) (a endpoint : ℕ) (ep : EndpointType) (tog : DataTog) (buf : List ℕ)
    → Spends (data_out_with_retry d a endpoint ep tog buf)
unfolding data_out_with_retry
data_out_with_retry-Spends d a endpoint ep tog buf =
    retry-Spends _ (caught-Spends _ (data_out-Spends d a endpoint ep tog buf))

assert-Keeps : (t : Bool) → Keeps (assert t)
assert-Keeps true b = omega arith
assert-Keeps false b = tt

branch-RoundUnder :
    {S A : Type 0} (n k : ℕ) (t : Bool) (f g : Async (Turn S A)) (b : Bus)
    → RoundUnder n k (f b)
    → RoundUnder n k (g b)
    → RoundUnder n k ((if t then f else g) b)
branch-RoundUnder n k true f g b hf hg = hf
branch-RoundUnder n k false f g b hf hg = hg

send_data-Keeps :
    (h : DeviceHandle) (tog : DataTog) (buffer : List ℕ) → Keeps (send_data h tog buffer)
unfolding send_data
send_data-Keeps h tog buffer =
    loop-Keeps (send_round h) (tog, buffer)
      (λ s b.
        branch-RoundUnder (length b.replies) (suc (length b.replies)) (length s.1 == 0)
          (return (leave [])) (send_some h s.0 s.1 (min (length s.1) h.max_packet_size)) b
          (omega arith)
          (RoundUnder-follow (length b.replies) (suc (length b.replies)) _ _ (omega arith)
            (data_out_with_retry-Spends h.parent h.address 0 control s.0 _ b) (λ a c lt. lt)))

turn-RoundUnder :
    {S A : Type 0} (n k : ℕ) (t : Bool) (l : A) (s : S) (b : Bus)
    → n ≤ k
    → length b.replies < n
    → RoundUnder n k (returned (if t then leave l else again s), b)
turn-RoundUnder n k true l s b le h = omega arith
turn-RoundUnder n k false l s b le h = h

assert-RoundUnder :
    {S A : Type 0} (n k : ℕ) (t : Bool) (f : Async (Turn S A)) (b : Bus)
    → RoundUnder n k (f b)
    → RoundUnder n k ((assert t >> f) b)
assert-RoundUnder n k true f b h = h
assert-RoundUnder n k false f b h = tt

receive_data-Keeps :
    (h : DeviceHandle) (size : ℕ) (tog : DataTog) (bytes : List ℕ)
    → Keeps (receive_data h size tog bytes)
unfolding receive_data
receive_data-Keeps h size tog bytes =
    loop-Keeps (receive_round h size) (tog, bytes)
      (λ s b.
        assert-RoundUnder (length b.replies) (suc (length b.replies)) (leb (length s.1) size) _ b (
          RoundUnder-follow (length b.replies) (suc (length b.replies)) _ _ (omega arith)
            (data_in_with_retry-Spends h.parent h.address 0 control s.0 _ b)
            (λ more c lt.
              turn-RoundUnder (length b.replies) (suc (length b.replies))
                (ltb (length more) h.max_packet_size) _ _ c (omega arith) lt)))

data_stage-Keeps :
    (h : DeviceHandle) (d : RequestTypeDirection) (buffer : List ℕ) → Keeps (data_stage h d buffer)
data_stage-Keeps h host_to_device buffer = send_data-Keeps h tog1 buffer
data_stage-Keeps h device_to_host buffer = receive_data-Keeps h (length buffer) tog1 []

status_stage-Keeps : (h : DeviceHandle) (d : RequestTypeDirection) → Keeps (status_stage h d)
status_stage-Keeps h host_to_device =
    Spends-Keeps _ (data_in_with_retry-Spends h.parent h.address 0 control tog1 0)
status_stage-Keeps h device_to_host =
    Spends-Keeps _ (data_out_with_retry-Spends h.parent h.address 0 control tog1 [])

pub control_transfer-Keeps :
    (h : DeviceHandle) (req : Request) (buffer : List ℕ) → Keeps (control_transfer h req buffer)
unfolding control_transfer
control_transfer-Keeps h req buffer =
    then-Keeps _ _ (assert-Keeps (leb req.length (length buffer))) (λ t.
      then-Keeps _ _ (Spends-Keeps _ (setup-Spends h.parent h.address req)) (λ t.
        then-Keeps _ _
          (branch-Keeps (ltb 0 req.length) _ _
            (data_stage-Keeps h (data_direction req.request_type) buffer) (λ b. omega arith))
          (λ received.
            then-Keeps _ _ (status_stage-Keeps h (data_direction req.request_type))
              (λ t b. omega arith))))

pub not-starved : {A : Type 0} (n : ℕ) (r : Status A × Bus) → Under n r → r.0 ≢ starved
not-starved n (starved, b) h e = h
not-starved n (returned a, b) h e = cc
not-starved n (raised x, b) h e = cc
not-starved n (crashed, b) h e = cc
not-starved n (elapsed, b) h e = cc
not-starved n (waiting, b) h e = cc

-- No loop of a control transfer runs out of fuel, whatever the hardware answers: the transfer comes
-- to a value, an error or a panic, or it waits for the next reply.
pub control_transfer-ends :
    (h : DeviceHandle) (req : Request) (buffer : List ℕ) (b : Bus)
    → (control_transfer h req buffer b).0 ≢ starved
control_transfer-ends h req buffer b =
    not-starved (suc (length b.replies)) (control_transfer h req buffer b)
      (control_transfer-Keeps h req buffer b)
