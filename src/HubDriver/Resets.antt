-- ===== src/HubDriver/Resets.antt =====
-- When the hubs' driver in driver/hub.rs resets a port.
use async_usb_host.Prelude.{
  ℕ, ◌≡◌, refl, Bool, true, false, ◌&&◌, Option, none, some, List, [], ◌∷◌, length, get_or,
  replicate, ltb, ◌==◌, if◌then◌else◌,
}
use async_usb_host.Errors.{
  UsbHostError, buffer_overflow, unknown, nak, nyet, wrong_tog, stall, unexpected_pid,
  parsing_error, transfer_timeout, invalid_state, invalid_response, unexpected_device, hub_capacity,
  detached, Outcome, ok, err, panics, Result, done, failed,
}
use async_usb_host.Types.{InterruptChannel, u16_from_le_bytes}
use async_usb_host.Types.Port.{UsbSpeed, DevInfo, new_device}
use async_usb_host.Request.{Request, class, to_other, get_status, clear_feature, request_code}
use async_usb_host.Descriptor.Hub.{
  HubPortStatus, HubPortStatusChange, HubPortFeature, change_connection, change_reset, feature_code,
  connected, in_reset, port_speed, connection_changed, reset_changed,
}
use async_usb_host.Pipe.Bus.{
  Bus, Status, returned, raised, crashed, elapsed, waiting, starved, Async, ◌>>=◌, ◌>>◌, return,
  attempt,
}
use async_usb_host.Pipe.Control.{control_transfer, assert, interrupt_transfer}
use async_usb_host.Pipe.Requests.{Watch, Sound, Puts, then-Puts, attempt-Puts, branch-Puts}
use async_usb_host.Pipe.Requests.Transfers.{
  control_transfer-Puts, assert-Puts, interrupt_transfer-Sound,
}
use async_usb_host.HubDriver.{
  Hub, HubEvent, unwrapped, clear_port_feature, status_error, status_words, get_port_status,
  on_connection, translator, attached, on_reset, unless_event, on_port, on_status, on_result,
  on_status_change,
}
use async_usb_host.HubDriver.Polling.{bitmask, after_interrupt, poll_hub, and_then, poll_hubs}

-- The request is `SetFeature(PORT_RESET)`.
abbrev pub is_port_reset : Request → Bool
is_port_reset req = req.request == 3 && req.value == 4

-- Port resets are counted, and `n` of them were seen.
abbrev pub resets : ℕ → Watch
resets n = record { counts = is_port_reset; seen = n }

clear-NoReset :
    (f : HubPortFeature) (port : ℕ)
    → is_port_reset (clear_feature to_other class (feature_code f) port 0) ≡ false
unfolding clear_feature request_code
clear-NoReset f port = refl

pub status-NoReset : (port : ℕ) → is_port_reset (get_status to_other class 0 port 4) ≡ false
unfolding get_status request_code
status-NoReset port = refl

module _ (n : ℕ) where
  module _ (hub : Hub) (port : ℕ) where
    clear-Puts : (f : HubPortFeature) → Puts (resets n) (clear_port_feature hub port f)
    unfolding clear_port_feature
    clear-Puts f =
        let req = clear_feature to_other class (feature_code f) port 0 in
        then-Puts (resets n) (control_transfer hub.handle req []) (λ t. return tt)
          (control_transfer-Puts (resets n) hub.handle req [] (clear-NoReset f port)) (λ t b o. o)

    status_error-Puts : (e : UsbHostError) → Puts (resets n) (status_error e)
    status_error-Puts unknown b o = o
    status_error-Puts nak b o = o
    status_error-Puts nyet b o = o
    status_error-Puts wrong_tog b o = o
    status_error-Puts stall b o = o
    status_error-Puts unexpected_pid b o = o
    status_error-Puts buffer_overflow b o = o
    status_error-Puts (parsing_error e) b o = o
    status_error-Puts transfer_timeout b o = o
    status_error-Puts invalid_state b o = o
    status_error-Puts invalid_response b o = o
    status_error-Puts unexpected_device b o = o
    status_error-Puts hub_capacity b o = o
    status_error-Puts detached b o = o

    abbrev words_of : List ℕ → HubPortStatus × HubPortStatusChange
    words_of buf = (
      record { bits = u16_from_le_bytes (get_or buf 0 0) (get_or buf 1 0) },
      record { bits = u16_from_le_bytes (get_or buf 2 0) (get_or buf 3 0) },
    )

    status_words-Puts : (r : Result (List ℕ)) → Puts (resets n) (status_words r)
    status_words-Puts (done buf) b o =
        then-Puts (resets n) (assert (length buf == 4)) (λ t. return (words_of buf))
          (assert-Puts (resets n) (length buf == 4)) (λ t b' o'. o') b o
    status_words-Puts (failed e) b o = status_error-Puts e b o

    pub get_port_status-Puts : Puts (resets n) (get_port_status hub port)
    unfolding get_port_status
    get_port_status-Puts =
        let req = get_status to_other class 0 port 4 in
        let asking = control_transfer hub.handle req (0 ∷ 0 ∷ 0 ∷ 0 ∷ []) in
        then-Puts (resets n) (attempt asking) status_words
          (attempt-Puts (resets n) asking (
            control_transfer-Puts (resets n) hub.handle req (0 ∷ 0 ∷ 0 ∷ 0 ∷ [])
              (status-NoReset port)))
          status_words-Puts

    -- With another device being enumerated, a change of the connection resets no port.
    on_connection-Puts :
        (is_connected : Bool) → Puts (resets n) (on_connection hub port is_connected true)
    on_connection-Puts true b o = o
    on_connection-Puts false b o =
        then-Puts (resets n) (clear_port_feature hub port change_connection) _
          (clear-Puts change_connection) (λ t b' o'. o') b o

    unwrapped-Puts : (r : Result (Unit {0})) → Puts (resets n) (unwrapped r)
    unwrapped-Puts (done a) b o = o
    unwrapped-Puts (failed e) b o = o

    attached-Puts : (d : Outcome DevInfo) → Puts (resets n) (attached d)
    attached-Puts (ok d) b o = o
    attached-Puts (err e) b o = o
    attached-Puts panics b o = o

    on_reset-Puts :
        (still_in_reset : Bool) (speed : UsbSpeed)
        → Puts (resets n) (on_reset hub port still_in_reset speed)
    on_reset-Puts still_in_reset speed =
        let clearing = attempt (clear_port_feature hub port change_reset) in
        let next = attached (
          new_device hub.handle.address port (translator hub port hub.handle.parent.speed speed)
            speed) in
        then-Puts (resets n) (clearing >>= unwrapped)
          (λ t. if still_in_reset then return none else next)
          (then-Puts (resets n) clearing unwrapped
            (attempt-Puts (resets n) (clear_port_feature hub port change_reset)
              (clear-Puts change_reset))
            unwrapped-Puts)
          (λ t.
            branch-Puts (resets n) still_in_reset (return none) next (λ b o. o)
              (attached-Puts (
                new_device hub.handle.address port
                  (translator hub port hub.handle.parent.speed speed) speed)))

    unless_event-Puts :
        (e : Option HubEvent) (rest : Async (Option HubEvent))
        → Puts (resets n) rest
        → Puts (resets n) (unless_event e rest)
    unless_event-Puts (some event) rest h b o = o
    unless_event-Puts none rest h b o = h b o

    on_port-Puts :
        (connection is_connected reset still_in_reset : Bool) (speed : UsbSpeed)
        → Puts (resets n) (on_port hub port true connection is_connected reset still_in_reset speed)
    on_port-Puts c i r s speed =
        let first = if c then on_connection hub port i true else return none in
        let second = if r then on_reset hub port s speed else return none in
        then-Puts (resets n) first (λ event. unless_event event second)
          (branch-Puts (resets n) c (on_connection hub port i true) (return none)
            (on_connection-Puts i) (λ b o. o))
          (λ event. unless_event-Puts event second (
            branch-Puts (resets n) r (on_reset hub port s speed) (return none)
              (on_reset-Puts s speed) (λ b o. o)))

    on_result-Puts :
        (r : Result (HubPortStatus × HubPortStatusChange))
        → Puts (resets n) (on_result hub port true r)
    unfolding on_status
    on_result-Puts (done words) b o =
        on_port-Puts (connection_changed words.1) (connected words.0) (reset_changed words.1)
          (in_reset words.0) (port_speed words.0) b o
    on_result-Puts (failed e) b o = o

  on_status_change-Puts :
      (hub : Hub) (ports : List ℕ) → Puts (resets n) (on_status_change hub ports true)
  unfolding on_status_change
  on_status_change-Puts hub [] b o = o
  on_status_change-Puts hub (port ∷ ports) b o =
      let asking = attempt (get_port_status hub port) in
      let rest = on_status_change hub ports true in
      branch-Puts (resets n) (port == 0) rest
        (asking >>= on_result hub port true >>= λ event. unless_event event rest)
        (on_status_change-Puts hub ports)
        (then-Puts (resets n) (asking >>= on_result hub port true)
          (λ event. unless_event event rest)
          (then-Puts (resets n) asking (on_result hub port true)
            (attempt-Puts (resets n) (get_port_status hub port) (get_port_status-Puts hub port))
            (on_result-Puts hub port))
          (λ event. unless_event-Puts hub port event rest (on_status_change-Puts hub ports)))
        b o

  module _ (iter_ones : List ℕ → List ℕ) where
    after_interrupt-Sound :
        (hub : Hub) (r : Status (List ℕ) × InterruptChannel × Bus)
        → Sound (resets n) r.2.calls
        → Sound (resets n) (after_interrupt iter_ones hub true r).2.calls
    after_interrupt-Sound hub (returned bytes, c, b) o =
        let hub' = record hub { interrupt_channel = c } in
        let handling = on_status_change hub' (iter_ones (bitmask bytes)) true in
        attempt-Puts (resets n) (assert (ltb 0 (length bytes)) >> handling)
          (then-Puts (resets n) (assert (ltb 0 (length bytes))) (λ t. handling)
            (assert-Puts (resets n) (ltb 0 (length bytes)))
            (λ t. on_status_change-Puts hub' (iter_ones (bitmask bytes))))
          b o
    after_interrupt-Sound hub (raised e, c, b) o = o
    after_interrupt-Sound hub (crashed, c, b) o = o
    after_interrupt-Sound hub (elapsed, c, b) o = o
    after_interrupt-Sound hub (waiting, c, b) o = o
    after_interrupt-Sound hub (starved, c, b) o = o

    and_then-Sound :
        (hubs : List Hub) (r : Status (Result (Option HubEvent)) × Hub × Bus)
        (rest : Bus → Status (Option HubEvent) × List Hub × Bus)
        → Sound (resets n) r.2.calls
        → ((b : Bus) → Sound (resets n) b.calls → Sound (resets n) (rest b).2.calls)
        → Sound (resets n) (and_then iter_ones r rest hubs).2.calls
    and_then-Sound hubs (returned (done (some event)), k, b) rest o a = o
    and_then-Sound hubs (returned (done none), k, b) rest o a = a b o
    and_then-Sound hubs (returned (failed x), k, b) rest o a = a b o
    and_then-Sound hubs (raised x, k, b) rest o a = o
    and_then-Sound hubs (crashed, k, b) rest o a = o
    and_then-Sound hubs (elapsed, k, b) rest o a = o
    and_then-Sound hubs (waiting, k, b) rest o a = o
    and_then-Sound hubs (starved, k, b) rest o a = o

    -- While a device is being enumerated, a poll of the hubs resets no port.
    pub poll_hubs-NoReset :
        (hubs : List Hub) (b : Bus)
        → Sound (resets n) b.calls
        → Sound (resets n) (poll_hubs iter_ones hubs true b).2.calls
    unfolding poll_hubs poll_hub
    poll_hubs-NoReset [] b o = o
    poll_hubs-NoReset (h ∷ hs) b o =
        and_then-Sound hs (poll_hub iter_ones h true b) (poll_hubs iter_ones hs true)
          (after_interrupt-Sound h (interrupt_transfer h.interrupt_channel (replicate 16 0) b)
            (interrupt_transfer-Sound (resets n) h.interrupt_channel (replicate 16 0) b o))
          (poll_hubs-NoReset hs)
