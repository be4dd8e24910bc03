-- ===== src/Pipe/Split.antt =====
-- The transactions of pipe.rs: `USBHostPipeInner`, which talks to a device through the transaction
-- translator of a hub if it has one, and gives up when its timer fires.
use async_usb_host.Prelude.{ℕ, ◌+◌, Bool, true, false, none, some, List, leb, if◌then◌else◌}
use async_usb_host.Errors.{UsbHostError, stall, Result, done, failed}
use async_usb_host.Types.{EndpointType, control, isochronous, bulk, interrupt, DataTog}
use async_usb_host.Types.Port.{UsbSpeed}
use async_usb_host.Request.{Request}
use async_usb_host.Pipe.Bus.{
  Call, set_addr, setup_call, split_call, data_in_call, data_out_call, Async, ◌>>=◌, ◌>>◌, return,
  raise, crash, attempt, tell, ask, ask_untimed, pause, Turn, again, leave, loop, rounds,
  unless_nak, unless_nyet, is_nyet,
}

-- `TransactionTranslator`: where the code talks to a device through a hub.
pub record Route : Type 0 where
  pub tt_addr : ℕ
  pub tt_port : ℕ
  pub address : ℕ
  pub speed : UsbSpeed

-- A split token for the translator, then a call to the device, whose result is a value; an error of
-- the token is raised.
abbrev pub split_round :
    (Call → Async (List ℕ)) → Route → Bool → EndpointType → Call → Async (Result (List ℕ))
split_round asking r complete ep_type call = do
  tell (set_addr r.tt_addr)
  _ ← asking (split_call complete r.tt_port ep_type r.speed)
  tell (set_addr r.address)
  attempt (asking call)

-- `split_setup`, in which no timer is polled: its two loops.
unfoldable pub split_setup_start : Route → Request → Async (List ℕ)
split_setup_start r req =
    loop (λ t. split_round ask_untimed r false control (setup_call (some req)) >>= unless_nak) tt

unfoldable pub split_setup_complete : Route → Async (List ℕ)
split_setup_complete r =
    loop (λ t. split_round ask_untimed r true control (setup_call none) >>= unless_nyet) tt

unfoldable pub split_setup : Route → Request → Async (List ℕ)
split_setup r req = split_setup_start r req >> split_setup_complete r

-- The wait for a reply to a start-split, with a `todo!` for the endpoints of other types.
abbrev pub wait_for_reply : EndpointType → Async Bool
wait_for_reply control = return true
wait_for_reply interrupt = return false
wait_for_reply isochronous = crash
wait_for_reply bulk = crash

-- The start-split, again after each NAK.
unfoldable pub start_split : Route → EndpointType → Call → Async (List ℕ)
start_split r ep_type call = loop (λ t. split_round ask r false ep_type call >>= unless_nak) tt

-- The arms after a complete-split, with the number of those before.
abbrev pub another_csplit : ℕ → Async (Turn ℕ (Turn (Unit {0}) (List ℕ)))
another_csplit csplit_count =
    if leb 5 csplit_count then return (leave (again tt)) else return (again csplit_count)

abbrev pub after_nyet : Bool → UsbHostError → ℕ → Async (Turn ℕ (Turn (Unit {0}) (List ℕ)))
after_nyet true e csplit_count = pause >> another_csplit (csplit_count + 1)
after_nyet false e csplit_count = raise e

abbrev pub after_csplit : ℕ → Result (List ℕ) → Async (Turn ℕ (Turn (Unit {0}) (List ℕ)))
after_csplit csplit_count (done a) = return (leave (leave a))
after_csplit csplit_count (failed e) = after_nyet (is_nyet e) e csplit_count

-- The complete-splits of one round: after five NYET the start-split is repeated.
unfoldable pub complete_split : Route → EndpointType → Call → Async (Turn (Unit {0}) (List ℕ))
complete_split r ep_type call =
    loop (λ csplit_count. split_round ask r true ep_type call >>= after_csplit csplit_count) 0

unfoldable pub split_data_in :
    Route → (endpoint : ℕ) → EndpointType → DataTog → (room : ℕ) → Async (List ℕ)
split_data_in r endpoint ep_type tog room = do
  wait ← wait_for_reply ep_type
  rounds 3
      (start_split r ep_type (data_in_call endpoint tog wait true 0)
        >> complete_split r ep_type (data_in_call endpoint tog true false room))
      (raise stall)

unfoldable pub split_data_out :
    Route → (endpoint : ℕ) → EndpointType → DataTog → (buf : List ℕ) → Async (List ℕ)
split_data_out r endpoint ep_type tog buf = do
  wait ← wait_for_reply ep_type
  rounds 3
      (start_split r ep_type (data_out_call endpoint tog wait (some buf))
        >> complete_split r ep_type (data_out_call endpoint tog true none))
      (raise stall)
