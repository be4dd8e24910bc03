-- ===== src/Pipe/Requests.antt =====
-- Which requests the code of pipe.rs puts on the bus: the rules for its combinators.
pub mod Transfers
use async_usb_host.Prelude.{
  ℕ, zero, suc, ◌+◌, ◌≡◌, refl, arith, min, Bool, true, false, Option, none, some, List, [], ◌∷◌,
  length, leb, ltb, ◌==◌, if◌then◌else◌,
}
use async_usb_host.Errors.{UsbHostError, Result, done, failed}
use async_usb_host.Types.{
  EndpointType, control, isochronous, bulk, interrupt, DataTog, tog1, DeviceHandle,
  InterruptChannel, EndpointDirection, in_endpoint, out_endpoint,
}
use async_usb_host.Types.Port.{DevInfo}
use async_usb_host.Request.{
  Request, RequestTypeDirection, host_to_device, device_to_host, data_direction,
}
use async_usb_host.Pipe.Bus.{
  Bus, Reply, answered, refused, timer_fires, Call, set_addr, setup_call, split_call, data_in_call,
  data_out_call, Status, returned, raised, crashed, elapsed, waiting, starved, Async, follow, ◌>>=◌,
  ◌>>◌, return, raise, crash, caught, attempt, timed, select_timeout, tell, receive, ask, untimed,
  ask_untimed, pause, Turn, again, leave, go_on, loop_from, loop, rounds, is_nak, is_nyet, again_if,
  unless_nak, unless_nyet,
}

-- Which requests are counted, and how many of them the calls hold.
pub record Watch : Type 0 where
  pub counts : Request → Bool
  pub seen : ℕ

abbrev pub count_requests : (Request → Bool) → List Call → ℕ
count_requests counts [] = 0
count_requests counts (setup_call (some req) ∷ cs) =
    (if counts req then 1 else 0) + count_requests counts cs
count_requests counts (setup_call none ∷ cs) = count_requests counts cs
count_requests counts (set_addr a ∷ cs) = count_requests counts cs
count_requests counts (split_call c p e s ∷ cs) = count_requests counts cs
count_requests counts (data_in_call e t w a r ∷ cs) = count_requests counts cs
count_requests counts (data_out_call e t w o ∷ cs) = count_requests counts cs

module _ (W : Watch) where
  -- The calls hold as many of the requests as were seen.
  abbrev pub Sound : List Call → Type 0
  Sound cs = count_requests W.counts cs ≡ W.seen

  -- A request that is not counted.
  abbrev pub Passes : Request → Type 0
  Passes req = W.counts req ≡ false

  pub Passes-Sound :
      (req : Request) (cs : List Call) → Passes req → Sound cs → Sound (setup_call (some req) ∷ cs)
  Passes-Sound req cs p o = rw p (omega (arith, o))

  -- Code that puts no counted request on the bus.
  abbrev pub Puts : {A : Type 0} → Async A → Type 0
  Puts m = (b : Bus) → Sound b.calls → Sound (m b).1.calls

  -- A call that is no counted request.
  abbrev pub Harmless : Call → Type 0
  Harmless c = (cs : List Call) → Sound cs → Sound (c ∷ cs)

  module _ {A B : Type 0} where
    pub Sound-follow :
        (r : Status A × Bus) (k : A → Async B)
        → Sound r.1.calls
        → ((a : A) → Puts (k a))
        → Sound (follow r k).1.calls
    Sound-follow (returned a, b) k h hk = hk a b h
    Sound-follow (raised e, b) k h hk = h
    Sound-follow (crashed, b) k h hk = h
    Sound-follow (elapsed, b) k h hk = h
    Sound-follow (waiting, b) k h hk = h
    Sound-follow (starved, b) k h hk = h

    pub then-Puts :
        (m : Async A) (k : A → Async B) → Puts m → ((a : A) → Puts (k a)) → Puts (m >>= k)
    then-Puts m k h hk b s = Sound-follow (m b) k (h b s) hk

  module _ {A : Type 0} where
    pub caught-Sound : (r : Status A × Bus) → Sound r.1.calls → Sound (caught r).1.calls
    caught-Sound (returned a, b) h = h
    caught-Sound (raised e, b) h = h
    caught-Sound (crashed, b) h = h
    caught-Sound (elapsed, b) h = h
    caught-Sound (waiting, b) h = h
    caught-Sound (starved, b) h = h

    timed-Sound : (r : Status A × Bus) → Sound r.1.calls → Sound (timed r).1.calls
    timed-Sound (returned a, b) h = h
    timed-Sound (raised e, b) h = h
    timed-Sound (crashed, b) h = h
    timed-Sound (elapsed, b) h = h
    timed-Sound (waiting, b) h = h
    timed-Sound (starved, b) h = h

    pub attempt-Puts : (m : Async A) → Puts m → Puts (attempt m)
    attempt-Puts m h b s = caught-Sound (m b) (h b s)

    pub timeout-Puts : (m : Async A) → Puts m → Puts (select_timeout m)
    timeout-Puts m h b s = timed-Sound (m b) (h b s)

    pub branch-Puts : (t : Bool) (m k : Async A) → Puts m → Puts k → Puts (if t then m else k)
    branch-Puts true m k hm hk = hm
    branch-Puts false m k hm hk = hk

  receive-Sound : (rs : List Reply) (cs : List Call) → Sound cs → Sound (receive rs cs).1.calls
  receive-Sound [] cs h = h
  receive-Sound (answered bytes ∷ rs) cs h = h
  receive-Sound (refused e ∷ rs) cs h = h
  receive-Sound (timer_fires ∷ rs) cs h = h

  pub ask-Puts : (c : Call) → Harmless c → Puts (ask c)
  ask-Puts c h b s = receive-Sound b.replies (c ∷ b.calls) (h b.calls s)

  pub ask_untimed-Puts : (c : Call) → Harmless c → Puts (ask_untimed c)
  ask_untimed-Puts c h b s = receive-Sound (untimed b.replies) (c ∷ b.calls) (h b.calls s)

  paused :
      (rs : List Reply) (cs : List Call)
      → Sound cs
      → Sound (pause (record { replies = rs; calls = cs })).1.calls
  paused [] cs h = h
  paused (answered bytes ∷ rs) cs h = h
  paused (refused e ∷ rs) cs h = h
  paused (timer_fires ∷ rs) cs h = h

  module _ {S A : Type 0} where
    go_on-Puts :
        (rest : S → Async A) → ((s : S) → Puts (rest s)) → (t : Turn S A) → Puts (go_on rest t)
    go_on-Puts rest h (again s) b o = h s b o
    go_on-Puts rest h (leave a) b s = s

    loop_from-Puts :
        (n : ℕ) (body : S → Async (Turn S A))
        → ((s : S) → Puts (body s))
        → (s : S) → Puts (loop_from n body s)
    unfolding loop_from
    loop_from-Puts zero body h s b o = o
    loop_from-Puts (suc n) body h s b o =
        then-Puts (body s) (go_on (loop_from n body)) (h s)
          (go_on-Puts (loop_from n body) (loop_from-Puts n body h)) b o

    pub loop-Puts :
        (body : S → Async (Turn S A)) → ((s : S) → Puts (body s)) → (s : S) → Puts (loop body s)
    loop-Puts body h s b = loop_from-Puts (suc (length b.replies)) body h s b

    pub rounds-Puts :
        (n : ℕ) (body : Async (Turn S A)) (after : Async A)
        → Puts body
        → Puts after
        → Puts (rounds n body after)
    unfolding rounds
    rounds-Puts zero body after h ha = ha
    rounds-Puts (suc n) body after h ha =
        then-Puts body (go_on (λ s. rounds n body after)) h
          (go_on-Puts (λ s. rounds n body after) (λ s. rounds-Puts n body after h ha))

  again_if-Puts :
      (A : Type 0) {S : Type 0} (t : Bool) (e : UsbHostError) (s : S)
      → Puts (again_if {A = A} t e s)
  again_if-Puts A true e s b o = o
  again_if-Puts A false e s b o = o

  pub pause-Puts : Puts pause
  pause-Puts b o = paused b.replies b.calls o

  pub unless_nak-Puts : {A : Type 0} (r : Result A) → Puts (unless_nak r)
  unless_nak-Puts (done a) b o = o
  unless_nak-Puts {A} (failed e) b o = again_if-Puts A (is_nak e) e tt b o

  pub unless_nyet-Puts : {A : Type 0} (r : Result A) → Puts (unless_nyet r)
  unless_nyet-Puts (done a) b o = o
  unless_nyet-Puts {A} (failed e) b o = again_if-Puts A (is_nyet e) e tt b o

  pub retry-Puts :
      {A : Type 0} (m : Async (Result A)) → Puts m → Puts (loop (λ t. m >>= unless_nak) tt)
  retry-Puts m h =
      loop-Puts (λ t. m >>= unless_nak) (λ t. then-Puts m unless_nak h unless_nak-Puts) tt
