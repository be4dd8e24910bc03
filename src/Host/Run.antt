-- ===== src/Host/Run.antt =====
-- The rounds of `Host::run_until_event` in lib.rs.
use async_usb_host.Prelude.{ℕ, Bool, true, false, Option, none, some, List, [], ◌∷◌}
use async_usb_host.Errors.{Outcome, ok, err, panics}
use async_usb_host.Types.Port.{UsbSpeed, root_device}
use async_usb_host.External.BitArray.{BitArray}
use async_usb_host.External.ArrayVec.{ArrayVec}
use async_usb_host.Address.{DeviceAddressManager}
use async_usb_host.Pipe.Bus.{Status, returned, raised, crashed, elapsed, waiting, starved}
use async_usb_host.Pipe.Addressing.{root_detach}
use async_usb_host.HubDriver.{Hub}
use async_usb_host.Host.{
  Event, device_attach, device_detach, suspend, resume, HostState, disconnected, enumerate_root,
  device_attached, suspended, HostEvent, new_device, detached_devices, control_transfer_response,
  interrupt_transfer_response, host_suspended, HostInternalEvent, enumeration_begin,
  enumeration_end, bus_event, host_event, Host, Moment, poll_bus,
}
use async_usb_host.Host.Enumerate.{Enumerated, Found, enumerate_device}
use async_usb_host.Host.Attached.{Works, run_device_attached_inner}

-- The state after an event of the bus in `run_disconnected`.
abbrev pub after_bus_event : Event → HostState
after_bus_event device_attach = enumerate_root
after_bus_event device_detach = disconnected
after_bus_event suspend = suspended
after_bus_event resume = disconnected

-- `run_disconnected`.
unfoldable pub run_disconnected : Host → List Event → Status (Unit {0}) × Host
run_disconnected host [] = (waiting, host)
run_disconnected host (e ∷ es) =
    let (event, bus_calls) = poll_bus e host.bus_calls in
    (returned tt, record host { state = after_bus_event event; bus_calls = bus_calls })

-- `NR_HUBS`, the capacity of the array of hubs, and `iter_ones` of a report.
module _ (B : BitArray) (V : ArrayVec) (iter_ones : List ℕ → List ℕ) (capacity : ℕ) where
  open B use {Bits}

  -- The end of `enumerate_root`, after which the hubs and the pipe are the host's.
  abbrev pub rooted : Host → Enumerated Found → Status (Option (HostEvent Bits)) × Host
  rooted host (status, hubs, m, b) =
      let host' = record host { manager = m; pipe_calls = b.calls } in
      elim status [
        | returned none ↦ (returned none, record host' { state = device_attached hubs false })
        | returned (some (descriptor, handle)) ↦ (
          returned (some (new_device descriptor handle)),
          record host' { state = device_attached hubs false },
        )
        | raised e ↦ (returned (some host_suspended), record host' { state = disconnected })
        | crashed ↦ (crashed, host')
        | elapsed ↦ (elapsed, host')
        | waiting ↦ (waiting, host')
        | starved ↦ (starved, host')
      ]

  -- `unwrap!` of the speed, and the enumeration of the device on the root port.
  abbrev pub at_speed : Host → Moment → Option UsbSpeed → Status (Option (HostEvent Bits)) × Host
  at_speed host now none = (crashed, host)
  at_speed host now (some speed) = rooted host (
      enumerate_device capacity host.manager [] (root_device speed) now.events
        (record { replies = now.replies; calls = host.pipe_calls }))

  -- `enumerate_root`.
  unfoldable pub enumerate_on_root : Host → Moment → Status (Option (HostEvent Bits)) × Host
  enumerate_on_root host now = at_speed host now now.speed

  -- The host with what it works on, in a state.
  abbrev pub with_state : Host → Works → HostState → Host
  with_state host w state = record host {
    manager = w.manager;
    state = state;
    pipe_calls = w.bus.calls;
    bus_calls = w.bus_calls;
  }

  -- The detach of the device on the root port.
  abbrev pub root_freed :
      Host → Works → Outcome (DeviceAddressManager × Bits) → Status (Option (HostEvent Bits)) × Host
  root_freed host w (ok (m, mask)) = (
    returned (some (detached_devices mask)),
    with_state host (record w { manager = m }) disconnected,
  )
  root_freed host w (err e) = (crashed, host)
  root_freed host w panics = (crashed, host)

  -- The arms of `run_device_attached`, by the flag of the enumeration.
  abbrev pub on_internal_event :
      Host
      → Works
      → (flag : Bool) → HostInternalEvent Bits
      → Status (Option (HostEvent Bits)) × Host
  on_internal_event host w flag (bus_event device_attach) =
      (returned none, with_state host w enumerate_root)
  on_internal_event host w flag (bus_event device_detach) =
      root_freed host w (root_detach B w.manager)
  on_internal_event host w flag (bus_event suspend) = (returned none, with_state host w suspended)
  on_internal_event host w flag (bus_event resume) = (returned none, with_state host w disconnected)
  on_internal_event host w flag enumeration_begin =
      (returned none, with_state host w (device_attached w.hubs true))
  on_internal_event host w flag enumeration_end =
      (returned none, with_state host w (device_attached w.hubs false))
  on_internal_event host w flag (host_event (new_device descriptor handle)) = (
    returned (some (new_device descriptor handle)),
    with_state host w (device_attached w.hubs false),
  )
  on_internal_event host w flag (host_event (detached_devices mask)) =
      (returned (some (detached_devices mask)), with_state host w (device_attached w.hubs flag))
  on_internal_event host w flag (host_event (control_transfer_response result buffer)) = (
    returned (some (control_transfer_response result buffer)),
    with_state host w (device_attached w.hubs flag),
  )
  on_internal_event host w flag (host_event (interrupt_transfer_response result buffer)) = (
    returned (some (interrupt_transfer_response result buffer)),
    with_state host w (device_attached w.hubs flag),
  )
  on_internal_event host w flag (host_event host_suspended) =
      (returned (some host_suspended), with_state host w (device_attached w.hubs flag))

  abbrev pub on_attached :
      Host
      → (flag : Bool) → Status (Option (HostInternalEvent Bits)) × Works
      → Status (Option (HostEvent Bits)) × Host
  on_attached host flag (returned (some event), w) = on_internal_event host w flag event
  on_attached host flag (returned none, w) =
      (returned none, with_state host w (device_attached w.hubs flag))
  on_attached host flag (raised e, w) = (returned none, with_state host w disconnected)
  on_attached host flag (crashed, w) = (crashed, with_state host w (device_attached w.hubs flag))
  on_attached host flag (elapsed, w) = (elapsed, with_state host w (device_attached w.hubs flag))
  on_attached host flag (waiting, w) = (waiting, with_state host w (device_attached w.hubs flag))
  on_attached host flag (starved, w) = (starved, with_state host w (device_attached w.hubs flag))

  -- `run_device_attached`.
  unfoldable pub run_device_attached :
      Host → List Hub → (flag : Bool) → Moment → Status (Option (HostEvent Bits)) × Host
  run_device_attached host hubs flag now =
      let w : Works = record {
        hubs = hubs;
        manager = host.manager;
        bus = record { replies = now.replies; calls = host.pipe_calls };
        bus_calls = host.bus_calls;
      } in
      on_attached host flag (run_device_attached_inner B V iter_ones capacity w flag now.events)

  abbrev pub silently : Status (Unit {0}) × Host → Status (Option (HostEvent Bits)) × Host
  silently (returned u, host) = (returned none, host)
  silently (raised e, host) = (raised e, host)
  silently (crashed, host) = (crashed, host)
  silently (elapsed, host) = (elapsed, host)
  silently (waiting, host) = (waiting, host)
  silently (starved, host) = (starved, host)

  -- The match on the state: a round of the loop.
  abbrev pub in_state : Host → Moment → HostState → Status (Option (HostEvent Bits)) × Host
  in_state host now disconnected = silently (run_disconnected host now.events)
  in_state host now enumerate_root = enumerate_on_root host now
  in_state host now (device_attached hubs flag) = run_device_attached host hubs flag now
  in_state host now suspended =
      (returned (some host_suspended), record host { state = disconnected })

  unfoldable pub round : Host → Moment → Status (Option (HostEvent Bits)) × Host
  round host now = in_state host now host.state

  abbrev pub until_event :
      Status (Option (HostEvent Bits)) × Host
      → (Host → Status (HostEvent Bits) × Host)
      → Status (HostEvent Bits) × Host
  until_event (returned (some event), host) rest = (returned event, host)
  until_event (returned none, host) rest = rest host
  until_event (raised e, host) rest = (raised e, host)
  until_event (crashed, host) rest = (crashed, host)
  until_event (elapsed, host) rest = (elapsed, host)
  until_event (waiting, host) rest = (waiting, host)
  until_event (starved, host) rest = (starved, host)

  -- `run_until_event`, which waits after the last moment.
  unfoldable pub run_until_event : Host → List Moment → Status (HostEvent Bits) × Host
  run_until_event host [] = (waiting, host)
  run_until_event host (now ∷ later) =
      until_event (round host now) (λ host'. run_until_event host' later)
