-- ===== src/Pipe/Ends.antt =====
-- What the transactions of pipe.rs spend of the replies.
use async_usb_host.Prelude.{
  ℕ, suc, ◌+◌, ◌≤◌, arith, Bool, true, false, List, [], ◌∷◌, length, leb, if◌then◌else◌,
}
use async_usb_host.Errors.{UsbHostError, stall, Result, done, failed}
use async_usb_host.Types.{EndpointType, control, isochronous, bulk, interrupt, DataTog}
use async_usb_host.Request.{Request}
use async_usb_host.Pipe.Bus.{
  Reply, answered, refused, timer_fires, Call, Async, ◌>>=◌, ◌>>◌, return, raise, attempt,
  select_timeout, ask, ask_untimed, untimed, receive, pause, again, leave, loop, rounds, again_if,
  is_nak, is_nyet, unless_nak, unless_nyet,
}
use async_usb_host.Pipe.Loops.{
  Under, Keeps, Spends, Under-mono, Under-caught, Under-timed, Spends-Keeps, Under-follow,
  loop-Spends, rounds-Spends,
}
use async_usb_host.Pipe.Split.{
  Route, split_round, split_setup_start, split_setup_complete, split_setup, start_split,
  another_csplit, after_nyet, after_csplit, complete_split, split_data_in, split_data_out,
}

receive-Under : (rs : List Reply) (cs : List Call) → Under (length rs) (receive rs cs)
receive-Under [] cs = tt
receive-Under (answered bytes ∷ rs) cs = omega arith
receive-Under (refused e ∷ rs) cs = omega arith
receive-Under (timer_fires ∷ rs) cs = omega arith

pub ask-Spends : (c : Call) → Spends (ask c)
ask-Spends c b = receive-Under b.replies (c ∷ b.calls)

length-untimed : (rs : List Reply) → length (untimed rs) ≤ length rs
length-untimed [] = omega arith
length-untimed (answered bytes ∷ rs) = omega arith
length-untimed (refused e ∷ rs) = omega arith
length-untimed (timer_fires ∷ rs) = omega (arith, length-untimed rs)

ask_untimed-Spends : (c : Call) → Spends (ask_untimed c)
ask_untimed-Spends c b =
    Under-mono (length (untimed b.replies)) (length b.replies) (ask_untimed c b)
      (length-untimed b.replies) (receive-Under (untimed b.replies) (c ∷ b.calls))

pause_by :
    (rs : List Reply) (cs : List Call)
    → Under (suc (length rs)) (pause (record { replies = rs; calls = cs }))
pause_by [] cs = omega arith
pause_by (answered bytes ∷ rs) cs = omega arith
pause_by (refused e ∷ rs) cs = omega arith
pause_by (timer_fires ∷ rs) cs = omega arith

pause-Keeps : Keeps pause
pause-Keeps b = pause_by b.replies b.calls

split_round-Spends :
    (asking : Call → Async (List ℕ)) (r : Route) (complete : Bool) (ep_type : EndpointType)
    (c : Call)
    → ((c : Call) → Spends (asking c))
    → Spends (split_round asking r complete ep_type c)
split_round-Spends asking r complete ep_type c h b =
    Under-follow (length b.replies) _ _ (h _ _)
      (λ a b'. Under-caught (suc (length b'.replies)) _ (Spends-Keeps (asking c) (h c) _))

again_if-Keeps :
    (A : Type 0) {S : Type 0} (t : Bool) (e : UsbHostError) (s : S) → Keeps (again_if {A = A} t e s)
again_if-Keeps A true e s b = omega arith
again_if-Keeps A false e s b = omega arith

unless_nak-Keeps : {A : Type 0} (r : Result A) → Keeps (unless_nak r)
unless_nak-Keeps (done a) b = omega arith
unless_nak-Keeps {A} (failed e) b = again_if-Keeps A (is_nak e) e tt b

unless_nyet-Keeps : {A : Type 0} (r : Result A) → Keeps (unless_nyet r)
unless_nyet-Keeps (done a) b = omega arith
unless_nyet-Keeps {A} (failed e) b = again_if-Keeps A (is_nyet e) e tt b

pub branch-Keeps :
    {A : Type 0} (t : Bool) (m k : Async A) → Keeps m → Keeps k → Keeps (if t then m else k)
branch-Keeps true m k h hk = h
branch-Keeps false m k h hk = hk

another_csplit-Keeps : (n : ℕ) → Keeps (another_csplit n)
another_csplit-Keeps n =
    branch-Keeps (leb 5 n) (return (leave (again tt))) (return (again n)) (λ b. omega arith)
      (λ b. omega arith)

after_nyet-Keeps : (t : Bool) (e : UsbHostError) (n : ℕ) → Keeps (after_nyet t e n)
after_nyet-Keeps true e n b =
    Under-follow (suc (length b.replies)) (pause b) (λ t. another_csplit (n + 1)) (pause-Keeps b)
      (λ t. another_csplit-Keeps (n + 1))
after_nyet-Keeps false e n b = omega arith

after_csplit-Keeps : (n : ℕ) (r : Result (List ℕ)) → Keeps (after_csplit n r)
after_csplit-Keeps n (done a) b = omega arith
after_csplit-Keeps n (failed e) b = after_nyet-Keeps (is_nyet e) e n b

-- A run that has spent, and what keeps after it.
pub then-Spends :
    {A B : Type 0} (m : Async A) (k : A → Async B)
    → Spends m
    → ((a : A) → Keeps (k a))
    → Spends (m >>= k)
then-Spends m k h hk b = Under-follow (length b.replies) (m b) k (h b) hk

pub then-Keeps :
    {A B : Type 0} (m : Async A) (k : A → Async B)
    → Keeps m
    → ((a : A) → Keeps (k a))
    → Keeps (m >>= k)
then-Keeps m k h hk b = Under-follow (suc (length b.replies)) (m b) k (h b) hk

pub retry-Spends :
    {A : Type 0} (m : Async (Result A)) → Spends m → Spends (loop (λ t. m >>= unless_nak) tt)
retry-Spends m h =
    loop-Spends (λ t. m >>= unless_nak) tt (λ t. then-Spends m unless_nak h unless_nak-Keeps)

pub split_setup-Spends : (r : Route) (req : Request) → Spends (split_setup r req)
unfolding split_setup split_setup_start split_setup_complete
split_setup-Spends r req =
    then-Spends (split_setup_start r req) (λ t. split_setup_complete r)
      (retry-Spends _ (split_round-Spends ask_untimed r false control _ ask_untimed-Spends))
      (λ t. Spends-Keeps _ (
        loop-Spends _ tt (λ t.
          then-Spends _ unless_nyet
            (split_round-Spends ask_untimed r true control _ ask_untimed-Spends)
            unless_nyet-Keeps)))

start_split-Spends : (r : Route) (ep : EndpointType) (c : Call) → Spends (start_split r ep c)
unfolding start_split
start_split-Spends r ep c = retry-Spends _ (split_round-Spends ask r false ep c ask-Spends)

complete_split-Spends : (r : Route) (ep : EndpointType) (c : Call) → Spends (complete_split r ep c)
unfolding complete_split
complete_split-Spends r ep c = loop-Spends _ 0 (λ n.
    then-Spends _ (after_csplit n) (split_round-Spends ask r true ep c ask-Spends)
      (after_csplit-Keeps n))

-- Three rounds of a start-split and its complete-splits.
split_rounds-Spends :
    (r : Route) (ep : EndpointType) (c d : Call)
    → Spends (rounds 3 (start_split r ep c >> complete_split r ep d) (raise stall))
split_rounds-Spends r ep c d =
    rounds-Spends 2 _ _
      (then-Spends (start_split r ep c) (λ t. complete_split r ep d) (start_split-Spends r ep c)
        (λ t. Spends-Keeps _ (complete_split-Spends r ep d)))
      (λ b. omega arith)

pub split_data_in-Spends :
    (r : Route) (endpoint : ℕ) (ep : EndpointType) (tog : DataTog) (room : ℕ)
    → Spends (split_data_in r endpoint ep tog room)
unfolding split_data_in
split_data_in-Spends r endpoint control tog room b = split_rounds-Spends r control _ _ b
split_data_in-Spends r endpoint interrupt tog room b = split_rounds-Spends r interrupt _ _ b
split_data_in-Spends r endpoint isochronous tog room b = tt
split_data_in-Spends r endpoint bulk tog room b = tt

pub split_data_out-Spends :
    (r : Route) (endpoint : ℕ) (ep : EndpointType) (tog : DataTog) (buf : List ℕ)
    → Spends (split_data_out r endpoint ep tog buf)
unfolding split_data_out
split_data_out-Spends r endpoint control tog buf b = split_rounds-Spends r control _ _ b
split_data_out-Spends r endpoint interrupt tog buf b = split_rounds-Spends r interrupt _ _ b
split_data_out-Spends r endpoint isochronous tog buf b = tt
split_data_out-Spends r endpoint bulk tog buf b = tt

pub timed-Spends : {A : Type 0} (m : Async A) → Spends m → Spends (select_timeout m)
timed-Spends m h b = Under-timed (length b.replies) (m b) (h b)

pub caught-Spends : {A : Type 0} (m : Async A) → Spends m → Spends (attempt m)
caught-Spends m h b = Under-caught (length b.replies) (m b) (h b)
