-- ===== src/Host/Exclusion.antt =====
-- The host of lib.rs resets no port while a device is being enumerated.
use async_usb_host.Prelude.{ℕ, ◌≡◌, ◌≢◌, refl, Bool, true, false, Option, none, some, List, [], ◌∷◌}
use async_usb_host.Errors.{Outcome, ok, err, panics}
use async_usb_host.External.BitArray.{BitArray}
use async_usb_host.External.ArrayVec.{ArrayVec}
use async_usb_host.Types.Port.{UsbSpeed, root_device}
use async_usb_host.Address.{DeviceAddressManager}
use async_usb_host.Pipe.Bus.{Bus, Status, returned, raised, crashed, elapsed, waiting, starved}
use async_usb_host.Pipe.Addressing.{root_detach, dev_detach}
use async_usb_host.Pipe.Requests.{Sound, count_requests}
use async_usb_host.HubDriver.{Hub, HubEvent, device_reset}
use async_usb_host.HubDriver.Polling.{poll_hubs}
use async_usb_host.HubDriver.Resets.{is_port_reset, resets, poll_hubs-NoReset}
use async_usb_host.Host.{
  Event, device_attach, device_detach, suspend, resume, HostState, disconnected, enumerate_root,
  device_attached, suspended, new_device, detached_devices, control_transfer_response,
  interrupt_transfer_response, host_suspended, HostInternalEvent, enumeration_begin,
  enumeration_end, bus_event, host_event, Host, Moment,
}
use async_usb_host.Host.Enumerate.{Enumerated, Found, enumerate_device}
use async_usb_host.Host.Hubs.{remove_disconnected_hubs}
use async_usb_host.Host.Resets.{Quiet, enumerate_device-Quiet}
use async_usb_host.Host.Run.{
  run_disconnected, rooted, at_speed, enumerate_on_root, root_freed, on_internal_event, on_attached,
  run_device_attached, silently, in_state, round,
}
use async_usb_host.Host.Attached.{
  Works, attached, detached, freed, on_hub_event, selected, run_device_attached_inner,
}

module _ (n : ℕ) where
  -- Among the requests of the host so far, `n` reset a port.
  abbrev pub NoResets : Host → Type 0
  NoResets host = Sound (resets n) host.pipe_calls

  module _ (B : BitArray) (V : ArrayVec) (iter_ones : List ℕ → List ℕ) (capacity : ℕ) where
    open B use {Bits}

    attached-Quiet :
        (w : Works) (r : Enumerated Found)
        → Quiet n r.3
        → Quiet n ((attached B V iter_ones capacity w r).1).bus
    attached-Quiet w (returned none, hubs, m, b) q = q
    attached-Quiet w (returned (some (d, handle)), hubs, m, b) q = q
    attached-Quiet w (raised e, hubs, m, b) q = q
    attached-Quiet w (crashed, hubs, m, b) q = q
    attached-Quiet w (elapsed, hubs, m, b) q = q
    attached-Quiet w (waiting, hubs, m, b) q = q
    attached-Quiet w (starved, hubs, m, b) q = q

    detached-Quiet :
        (w : Works) (o : Outcome (List Hub × Bits))
        → Quiet n w.bus
        → Quiet n ((detached B V iter_ones capacity w o).1).bus
    detached-Quiet w (ok (hubs, mask)) q = q
    detached-Quiet w (err e) q = q
    detached-Quiet w panics q = q

    freed-Quiet :
        (w : Works) (o : Outcome (DeviceAddressManager × Bits))
        → Quiet n w.bus
        → Quiet n ((freed B V iter_ones capacity w o).1).bus
    freed-Quiet w (ok (m, mask)) q =
        detached-Quiet (record w { manager = m }) (remove_disconnected_hubs B V w.hubs mask) q
    freed-Quiet w (err e) q = q
    freed-Quiet w panics q = q

    hub_event-Quiet :
        (w : Works) (events : List Event) (e : HubEvent)
        → Quiet n w.bus
        → Quiet n ((on_hub_event B V iter_ones capacity w events e).1).bus
    hub_event-Quiet w events device_reset q = q
    hub_event-Quiet w events (HubEvent.device_attach d) q =
        attached-Quiet w (enumerate_device capacity w.manager w.hubs d events w.bus)
          (enumerate_device-Quiet n capacity w.hubs w.manager d events w.bus q)
    hub_event-Quiet w events (HubEvent.device_detach p) q =
        freed-Quiet w (dev_detach B w.manager p) q

    selected-Quiet :
        (w : Works) (events : List Event) (s : Status (Option HubEvent))
        → Quiet n w.bus
        → Quiet n ((selected B V iter_ones capacity w events s).1).bus
    selected-Quiet w events (returned (some e)) q = hub_event-Quiet w events e q
    selected-Quiet w [] (returned none) q = q
    selected-Quiet w (device_attach ∷ es) (returned none) q = q
    selected-Quiet w (device_detach ∷ es) (returned none) q = q
    selected-Quiet w (suspend ∷ es) (returned none) q = q
    selected-Quiet w (resume ∷ es) (returned none) q = q
    selected-Quiet w [] waiting q = q
    selected-Quiet w (e ∷ es) waiting q = q
    selected-Quiet w events (raised e) q = q
    selected-Quiet w events crashed q = q
    selected-Quiet w events elapsed q = q
    selected-Quiet w events starved q = q

    -- The hubs are polled while an enumeration is in progress.
    inner-Quiet :
        (w : Works) (events : List Event)
        → Quiet n w.bus
        → Quiet n ((run_device_attached_inner B V iter_ones capacity w true events).1).bus
    unfolding run_device_attached_inner
    inner-Quiet w events q =
        let r = poll_hubs iter_ones w.hubs true w.bus in
        selected-Quiet (record w { hubs = r.1; bus = r.2 }) events r.0
          (poll_hubs-NoReset n iter_ones w.hubs w.bus q)

    module _ (host : Host) (old : NoResets host) where
      root_freed-NoResets :
          (w : Works) (o : Outcome (DeviceAddressManager × Bits))
          → Quiet n w.bus
          → NoResets (root_freed B V iter_ones capacity host w o).1
      root_freed-NoResets w (ok (m, mask)) q = q
      root_freed-NoResets w (err e) q = old
      root_freed-NoResets w panics q = old

      internal-NoResets :
          (w : Works) (flag : Bool) (e : HostInternalEvent Bits)
          → Quiet n w.bus
          → NoResets (on_internal_event B V iter_ones capacity host w flag e).1
      internal-NoResets w flag (bus_event device_attach) q = q
      internal-NoResets w flag (bus_event device_detach) q =
          root_freed-NoResets w (root_detach B w.manager) q
      internal-NoResets w flag (bus_event suspend) q = q
      internal-NoResets w flag (bus_event resume) q = q
      internal-NoResets w flag enumeration_begin q = q
      internal-NoResets w flag enumeration_end q = q
      internal-NoResets w flag (host_event (new_device d handle)) q = q
      internal-NoResets w flag (host_event (detached_devices mask)) q = q
      internal-NoResets w flag (host_event (control_transfer_response r buf)) q = q
      internal-NoResets w flag (host_event (interrupt_transfer_response r buf)) q = q
      internal-NoResets w flag (host_event host_suspended) q = q

      on_attached-NoResets :
          (flag : Bool) (r : Status (Option (HostInternalEvent Bits)) × Works)
          → Quiet n (r.1).bus
          → NoResets (on_attached B V iter_ones capacity host flag r).1
      on_attached-NoResets flag (returned (some e), w) q = internal-NoResets w flag e q
      on_attached-NoResets flag (returned none, w) q = q
      on_attached-NoResets flag (raised e, w) q = q
      on_attached-NoResets flag (crashed, w) q = q
      on_attached-NoResets flag (elapsed, w) q = q
      on_attached-NoResets flag (waiting, w) q = q
      on_attached-NoResets flag (starved, w) q = q

      rooted-NoResets :
          (r : Enumerated Found) → Quiet n r.3 → NoResets (rooted B V iter_ones capacity host r).1
      rooted-NoResets (returned none, hubs, m, b) q = q
      rooted-NoResets (returned (some (d, handle)), hubs, m, b) q = q
      rooted-NoResets (raised x, hubs, m, b) q = q
      rooted-NoResets (crashed, hubs, m, b) q = q
      rooted-NoResets (elapsed, hubs, m, b) q = q
      rooted-NoResets (waiting, hubs, m, b) q = q
      rooted-NoResets (starved, hubs, m, b) q = q

      at_speed-NoResets :
          (now : Moment) (o : Option UsbSpeed)
          → NoResets (at_speed B V iter_ones capacity host now o).1
      at_speed-NoResets now none = old
      at_speed-NoResets now (some speed) =
          let b : Bus = record { replies = now.replies; calls = host.pipe_calls } in
          rooted-NoResets
            (enumerate_device capacity host.manager [] (root_device speed) now.events b)
            (enumerate_device-Quiet n capacity [] host.manager (root_device speed) now.events b old)

      disconnected-NoResets :
          (events : List Event)
          → NoResets (silently B V iter_ones capacity (run_disconnected host events)).1
      unfolding run_disconnected
      disconnected-NoResets [] = old
      disconnected-NoResets (e ∷ es) = old

      in_state-NoResets :
          (now : Moment) (s : HostState)
          → ((hubs : List Hub) → s ≢ device_attached hubs false)
          → NoResets (in_state B V iter_ones capacity host now s).1
      unfolding run_device_attached enumerate_on_root
      in_state-NoResets now disconnected busy = disconnected-NoResets now.events
      in_state-NoResets now enumerate_root busy = at_speed-NoResets now now.speed
      in_state-NoResets now (device_attached hubs false) busy = absurd (busy hubs refl)
      in_state-NoResets now (device_attached hubs true) busy =
          on_attached-NoResets true
            (run_device_attached_inner B V iter_ones capacity
              (record {
                hubs = hubs;
                manager = host.manager;
                bus = record { replies = now.replies; calls = host.pipe_calls };
                bus_calls = host.bus_calls;
              })
              true now.events)
            (inner-Quiet
              (record {
                hubs = hubs;
                manager = host.manager;
                bus = record { replies = now.replies; calls = host.pipe_calls };
                bus_calls = host.bus_calls;
              })
              now.events old)
      in_state-NoResets now suspended busy = old

-- Whatever the hardware does, the number of port resets on the bus grows in a round of the host only
-- in an attached state in which no device is being enumerated: in every other state, a round puts no
-- request that resets a port on the bus.
pub round-NoResets :
    (B : BitArray) (V : ArrayVec) (iter_ones : List ℕ → List ℕ) (capacity : ℕ) (host : Host)
    (now : Moment)
    → ((hubs : List Hub) → host.state ≢ device_attached hubs false)
    → count_requests is_port_reset (round B V iter_ones capacity host now).1.pipe_calls
      ≡ count_requests is_port_reset host.pipe_calls
unfolding round
round-NoResets B V iter_ones capacity host now busy =
    in_state-NoResets (count_requests is_port_reset host.pipe_calls) B V iter_ones capacity host
      refl now host.state busy
