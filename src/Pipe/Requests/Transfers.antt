-- ===== src/Pipe/Requests/Transfers.antt =====
-- The only request that a transfer of pipe.rs puts on the bus is its own: it puts no counted request
-- there if its own is not counted.
use async_usb_host.Prelude.{
  ℕ, min, Bool, true, false, none, some, Option-cases, inl, inr, ◌-◌, take, drop, List, [], ◌∷◌,
  length, leb, ltb, ◌==◌, if◌then◌else◌,
}
use async_usb_host.Errors.{UsbHostError, stall, Result, done, failed}
use async_usb_host.Types.{
  EndpointType, control, isochronous, bulk, interrupt, DataTog, tog1, next_tog, DeviceHandle,
  InterruptChannel, EndpointDirection, in_endpoint, out_endpoint,
}
use async_usb_host.Types.Port.{DevInfo}
use async_usb_host.Request.{
  Request, RequestTypeDirection, host_to_device, device_to_host, data_direction,
}
use async_usb_host.Pipe.Bus.{
  Bus, Call, set_addr, setup_call, split_call, data_in_call, data_out_call, Status, returned,
  raised, crashed, elapsed, waiting, starved, Async, ◌>>=◌, ◌>>◌, return, raise, attempt, ask,
  ask_untimed, pause, again, leave, rounds, is_nyet, unless_nyet,
}
use async_usb_host.Pipe.Split.{
  Route, split_round, split_setup_start, split_setup_complete, split_setup, start_split,
  another_csplit, after_nyet, after_csplit, complete_split, split_data_in, split_data_out,
}
use async_usb_host.Pipe.Transfer.{
  setup, data_in, data_out, data_in_with_retry, data_out_with_retry, route,
}
use async_usb_host.Pipe.Control.{
  assert, send_some, send_round, send_data, received_some, receive_round, receive_data, data_stage,
  status_stage, control_transfer, channel_transfer, toggled, interrupt_transfer,
}
use async_usb_host.Pipe.Requests.{
  Watch, Sound, Passes, Passes-Sound, Puts, Sound-follow, Harmless, then-Puts, attempt-Puts,
  timeout-Puts, branch-Puts, ask-Puts, ask_untimed-Puts, loop-Puts, rounds-Puts, pause-Puts,
  unless_nyet-Puts, retry-Puts,
}

module _ (W : Watch) where
  split_round-Puts :
      (asking : Call → Async (List ℕ)) (r : Route) (complete : Bool) (ep : EndpointType) (c : Call)
      → ((c : Call) → Harmless W c → Puts W (asking c))
      → Harmless W c
      → Puts W (split_round asking r complete ep c)
  split_round-Puts asking r complete ep c h hc b o =
      let token = split_call complete r.tt_port ep r.speed in
      let b1 : Bus = record b { calls = set_addr r.tt_addr ∷ b.calls } in
      Sound-follow W (asking token b1)
        (λ a b'. attempt (asking c) (record b' { calls = set_addr r.address ∷ b'.calls }))
        (h token (λ cs o. o) b1 o)
        (λ a b' o'.
          attempt-Puts W (asking c) (h c hc) (record b' { calls = set_addr r.address ∷ b'.calls })
            o')

  split_setup-Puts : (r : Route) (req : Request) → Passes W req → Puts W (split_setup r req)
  unfolding split_setup split_setup_start split_setup_complete
  split_setup-Puts r req p =
      let first = split_round ask_untimed r false control (setup_call (some req)) in
      let second = split_round ask_untimed r true control (setup_call none) in
      then-Puts W (split_setup_start r req) (λ t. split_setup_complete r)
        (retry-Puts W first (
          split_round-Puts ask_untimed r false control (setup_call (some req)) (ask_untimed-Puts W)
            (λ cs o. Passes-Sound W req cs p o)))
        (λ t.
          loop-Puts W (λ u. second >>= unless_nyet)
            (λ u.
              then-Puts W second unless_nyet
                (split_round-Puts ask_untimed r true control (setup_call none) (ask_untimed-Puts W)
                  (λ cs o. o))
                (unless_nyet-Puts W))
            tt)

  another_csplit-Puts : (n : ℕ) → Puts W (another_csplit n)
  another_csplit-Puts n =
      branch-Puts W (leb 5 n) (return (leave (again tt))) (return (again n)) (λ b o. o) (λ b o. o)

  after_nyet-Puts : (t : Bool) (e : UsbHostError) (n : ℕ) → Puts W (after_nyet t e n)
  after_nyet-Puts true e n b o =
      then-Puts W pause (λ t. another_csplit _) (pause-Puts W) (λ t. another_csplit-Puts _) b o
  after_nyet-Puts false e n b o = o

  after_csplit-Puts : (n : ℕ) (r : Result (List ℕ)) → Puts W (after_csplit n r)
  after_csplit-Puts n (done a) b o = o
  after_csplit-Puts n (failed e) b o = after_nyet-Puts (is_nyet e) e n b o

  split_rounds-Puts :
      (r : Route) (ep : EndpointType) (c d : Call)
      → Harmless W c
      → Harmless W d
      → Puts W (rounds 3 (start_split r ep c >> complete_split r ep d) (raise stall))
  unfolding start_split complete_split
  split_rounds-Puts r ep c d hc hd =
      let first = split_round ask r false ep c in
      let second = split_round ask r true ep d in
      rounds-Puts W 3 (start_split r ep c >> complete_split r ep d) (raise stall)
        (then-Puts W (start_split r ep c) (λ t. complete_split r ep d)
          (retry-Puts W first (split_round-Puts ask r false ep c (ask-Puts W) hc))
          (λ t.
            loop-Puts W (λ n. second >>= after_csplit n)
              (λ n.
                then-Puts W second (after_csplit n)
                  (split_round-Puts ask r true ep d (ask-Puts W) hd) (after_csplit-Puts n))
              0))
        (λ b o. o)

  split_data_in-Puts :
      (r : Route) (endpoint : ℕ) (ep : EndpointType) (tog : DataTog) (room : ℕ)
      → Puts W (split_data_in r endpoint ep tog room)
  unfolding split_data_in
  split_data_in-Puts r endpoint control tog room b o =
      split_rounds-Puts r control (data_in_call endpoint tog true true 0)
        (data_in_call endpoint tog true false room) (λ cs o. o) (λ cs o. o) b o
  split_data_in-Puts r endpoint interrupt tog room b o =
      split_rounds-Puts r interrupt (data_in_call endpoint tog false true 0)
        (data_in_call endpoint tog true false room) (λ cs o. o) (λ cs o. o) b o
  split_data_in-Puts r endpoint isochronous tog room b o = o
  split_data_in-Puts r endpoint bulk tog room b o = o

  split_data_out-Puts :
      (r : Route) (endpoint : ℕ) (ep : EndpointType) (tog : DataTog) (buf : List ℕ)
      → Puts W (split_data_out r endpoint ep tog buf)
  unfolding split_data_out
  split_data_out-Puts r endpoint control tog buf b o =
      split_rounds-Puts r control (data_out_call endpoint tog true (some buf))
        (data_out_call endpoint tog true none) (λ cs o. o) (λ cs o. o) b o
  split_data_out-Puts r endpoint interrupt tog buf b o =
      split_rounds-Puts r interrupt (data_out_call endpoint tog false (some buf))
        (data_out_call endpoint tog true none) (λ cs o. o) (λ cs o. o) b o
  split_data_out-Puts r endpoint isochronous tog buf b o = o
  split_data_out-Puts r endpoint bulk tog buf b o = o

  pub setup-Puts : (d : DevInfo) (a : ℕ) (req : Request) → Passes W req → Puts W (setup d a req)
  unfolding setup
  setup-Puts d a req p b o = elim (Option-cases d.transaction_translator) [
    | inl e ↦
        rw (e, setup)
          (timeout-Puts W (ask (setup_call (some req)))
            (ask-Puts W (setup_call (some req)) (λ cs o. Passes-Sound W req cs p o))
            (record b { calls = set_addr a ∷ b.calls }) o)
    | inr (t, e) ↦ rw (e, setup) (split_setup-Puts (route t a d) req p b o)
  ]

  module _ (d : DevInfo) (a endpoint : ℕ) (ep : EndpointType) (tog : DataTog) where
    pub data_in-Puts : (room : ℕ) → Puts W (data_in d a endpoint ep tog room)
    unfolding data_in
    data_in-Puts room b o = elim (Option-cases d.transaction_translator) [
      | inl e ↦
          let c = data_in_call endpoint tog true true room in
          rw (e, data_in) (timeout-Puts W (ask c) (ask-Puts W c (λ cs o. o)) b o)
      | inr (t, e) ↦
          rw (e, data_in)
            (timeout-Puts W (split_data_in (route t a d) endpoint ep tog room)
              (split_data_in-Puts (route t a d) endpoint ep tog room) b o)
    ]

    pub data_out-Puts : (buf : List ℕ) → Puts W (data_out d a endpoint ep tog buf)
    unfolding data_out
    data_out-Puts buf b o = elim (Option-cases d.transaction_translator) [
      | inl e ↦
          let c = data_out_call endpoint tog true (some buf) in
          rw (e, data_out) (timeout-Puts W (ask c) (ask-Puts W c (λ cs o. o)) b o)
      | inr (t, e) ↦
          rw (e, data_out)
            (timeout-Puts W (split_data_out (route t a d) endpoint ep tog buf)
              (split_data_out-Puts (route t a d) endpoint ep tog buf) b o)
    ]

    pub retry_in-Puts : (room : ℕ) → Puts W (data_in_with_retry d a endpoint ep tog room)
    unfolding data_in_with_retry
    retry_in-Puts room =
        retry-Puts W (attempt (data_in d a endpoint ep tog room))
          (attempt-Puts W (data_in d a endpoint ep tog room) (data_in-Puts room))

    pub retry_out-Puts : (buf : List ℕ) → Puts W (data_out_with_retry d a endpoint ep tog buf)
    unfolding data_out_with_retry
    retry_out-Puts buf =
        retry-Puts W (attempt (data_out d a endpoint ep tog buf))
          (attempt-Puts W (data_out d a endpoint ep tog buf) (data_out-Puts buf))

  pub assert-Puts : (t : Bool) → Puts W (assert t)
  assert-Puts true b o = o
  assert-Puts false b o = o

  module _ (h : DeviceHandle) where
    send_data-Puts : (tog : DataTog) (buffer : List ℕ) → Puts W (send_data h tog buffer)
    unfolding send_data
    send_data-Puts tog buffer =
        loop-Puts W (send_round h)
          (λ s.
            let len = min (length s.1) h.max_packet_size in
            let out = data_out_with_retry h.parent h.address 0 control s.0 (take len s.1) in
            branch-Puts W (length s.1 == 0) (return (leave [])) (send_some h s.0 s.1 len) (λ b o. o)
              (then-Puts W out (λ t. return (again (next_tog s.0, drop len s.1)))
                (retry_out-Puts h.parent h.address 0 control s.0 (take len s.1)) (λ t b o. o)))
          (tog, buffer)

    receive_data-Puts :
        (size : ℕ) (tog : DataTog) (received : List ℕ) → Puts W (receive_data h size tog received)
    unfolding receive_data
    receive_data-Puts size tog received =
        loop-Puts W (receive_round h size)
          (λ s.
            let room = size - length s.1 in
            let more = data_in_with_retry h.parent h.address 0 control s.0 room in
            then-Puts W (assert (leb (length s.1) size))
              (λ t. more >>= λ m. return (received_some h s.0 s.1 m))
              (assert-Puts (leb (length s.1) size))
              (λ t.
                then-Puts W more (λ m. return (received_some h s.0 s.1 m))
                  (retry_in-Puts h.parent h.address 0 control s.0 room) (λ m b o. o)))
          (tog, received)

    data_stage-Puts :
        (dir : RequestTypeDirection) (buffer : List ℕ) → Puts W (data_stage h dir buffer)
    data_stage-Puts host_to_device buffer b o = send_data-Puts tog1 buffer b o
    data_stage-Puts device_to_host buffer b o = receive_data-Puts (length buffer) tog1 [] b o

    status_stage-Puts : (dir : RequestTypeDirection) → Puts W (status_stage h dir)
    status_stage-Puts host_to_device b o = retry_in-Puts h.parent h.address 0 control tog1 0 b o
    status_stage-Puts device_to_host b o = retry_out-Puts h.parent h.address 0 control tog1 [] b o

    -- A control transfer puts no request on the bus but its own.
    pub control_transfer-Puts :
        (req : Request) (buffer : List ℕ) → Passes W req → Puts W (control_transfer h req buffer)
    unfolding control_transfer
    control_transfer-Puts req buffer p =
        let dir = data_direction req.request_type in
        let stage = if ltb 0 req.length then data_stage h dir buffer else return [] in
        let last = λ (received : List ℕ). status_stage h dir >> return received in
        then-Puts W (assert (leb req.length (length buffer)))
          (λ t. setup h.parent h.address req >> (stage >>= last))
          (assert-Puts (leb req.length (length buffer)))
          (λ t.
            then-Puts W (setup h.parent h.address req) (λ u. stage >>= last)
              (setup-Puts h.parent h.address req p)
              (λ u.
                then-Puts W stage last
                  (branch-Puts W (ltb 0 req.length) (data_stage h dir buffer) (return [])
                    (data_stage-Puts dir buffer) (λ b o. o))
                  (λ received.
                    then-Puts W (status_stage h dir) (λ v. return received) (status_stage-Puts dir)
                      (λ v b o. o))))

  channel_transfer-Puts :
      (c : InterruptChannel) (dir : EndpointDirection) (buf : List ℕ)
      → Puts W (channel_transfer c dir buf)
  channel_transfer-Puts c in_endpoint buf b o =
      data_in-Puts c.device_handle.parent c.device_handle.address c.endpoint_address.number
        interrupt c.tog (length buf) b o
  channel_transfer-Puts c out_endpoint buf b o =
      Sound-follow W
        (data_out c.device_handle.parent c.device_handle.address c.endpoint_address.number interrupt
          c.tog buf b)
        (λ t. return [])
        (data_out-Puts c.device_handle.parent c.device_handle.address c.endpoint_address.number
          interrupt c.tog buf b o)
        (λ t b' o'. o')

  toggled-Sound :
      (c : InterruptChannel) (r : Status (List ℕ) × Bus)
      → Sound W r.1.calls
      → Sound W (toggled c r).2.calls
  toggled-Sound c (returned bytes, b) o = o
  toggled-Sound c (raised e, b) o = o
  toggled-Sound c (crashed, b) o = o
  toggled-Sound c (elapsed, b) o = o
  toggled-Sound c (waiting, b) o = o
  toggled-Sound c (starved, b) o = o

  -- An interrupt transfer puts no request on the bus.
  pub interrupt_transfer-Sound :
      (c : InterruptChannel) (buf : List ℕ) (b : Bus)
      → Sound W b.calls
      → Sound W (interrupt_transfer c buf b).2.calls
  unfolding interrupt_transfer
  interrupt_transfer-Sound c buf b o =
      let b' : Bus = record b { calls = set_addr c.device_handle.address ∷ b.calls } in
      toggled-Sound c (channel_transfer c c.endpoint_address.direction buf b')
        (channel_transfer-Puts c c.endpoint_address.direction buf b' o)
