-- ===== src/Host/Reach.antt =====
-- The states of the host of lib.rs that are reached from a new host, one round after the other.
use async_usb_host.Prelude.{
  ℕ, ◌≤◌, ◌≡◌, refl, ap, subst, ◌∙◌, arith, Bool, Option, none, some, List, [], ◌∷◌, length,
  length-replicate,
}
use async_usb_host.External.BitArray.{BitArray}
use async_usb_host.External.ArrayVec.{ArrayVec}
use async_usb_host.Types.Port.{PortInfo, UsbSpeed, root_device}
use async_usb_host.Address.{new_manager}
use async_usb_host.Address.FreeAll.{free_all-FreesAll}
use async_usb_host.Pipe.Bus.{Bus, Status, returned, raised, crashed, elapsed, waiting, starved}
use async_usb_host.Pipe.Addressing.{root_detach}
use async_usb_host.Host.{
  Event, device_attach, device_detach, suspend, resume, HostState, disconnected, enumerate_root,
  device_attached, suspended, HostEvent, new_device, detached_devices, control_transfer_response,
  interrupt_transfer_response, host_suspended, HostInternalEvent, enumeration_begin,
  enumeration_end, bus_event, host_event, Host, Moment, poll_bus, new_host,
}
use async_usb_host.Host.Enumerate.{Enumerated, Found, enumerate_device}
use async_usb_host.Host.Owned.{}
use async_usb_host.Host.Enumerating.{enumerate_device-Fits}
use async_usb_host.Host.Run.{
  run_disconnected, rooted, at_speed, enumerate_on_root, root_freed, on_internal_event, on_attached,
  run_device_attached, silently, in_state, round,
}
use async_usb_host.Host.Attached.{Works}
use async_usb_host.Host.Working.{HubsFit, WorksInv, inner-Inv}

module _ (B : BitArray) (V : ArrayVec) (iter_ones : List ℕ → List ℕ) (capacity nr_devices : ℕ)
    (small : nr_devices ≤ 127) where
  open B use {Bits}

  abbrev StateInv : List PortInfo → HostState → Type 0
  StateInv info disconnected = Unit {0}
  StateInv info enumerate_root = Unit {0}
  StateInv info (device_attached hubs flag) = HubsFit capacity info hubs
  StateInv info suspended = Unit {0}

  -- The table has its length; an attached host has at most as many hubs as its array holds, and each
  -- hub has an address of its own, which is taken in the table.
  abbrev pub HostInv : Host → Type 0
  HostInv host = (length host.manager.info ≡ nr_devices) × StateInv host.manager.info host.state

  root_freed-Inv :
      (host : Host) (w : Works)
      → HostInv host
      → WorksInv capacity nr_devices w
      → HostInv (root_freed B V iter_ones capacity host w (root_detach B w.manager)).1
  unfolding root_detach
  root_freed-Inv host w hh h =
      let f = free_all-FreesAll B w.manager (omega (arith, h.0)) in
      rw (f.returns, root_freed) (f.size ∙ h.0, tt)

  on_internal_event-Inv :
      (host : Host) (w : Works) (flag : Bool) (e : HostInternalEvent Bits)
      → HostInv host
      → WorksInv capacity nr_devices w
      → HostInv (on_internal_event B V iter_ones capacity host w flag e).1
  on_internal_event-Inv host w flag (bus_event device_attach) hh h = (h.0, tt)
  on_internal_event-Inv host w flag (bus_event device_detach) hh h = root_freed-Inv host w hh h
  on_internal_event-Inv host w flag (bus_event suspend) hh h = (h.0, tt)
  on_internal_event-Inv host w flag (bus_event resume) hh h = (h.0, tt)
  on_internal_event-Inv host w flag enumeration_begin hh h = h
  on_internal_event-Inv host w flag enumeration_end hh h = h
  on_internal_event-Inv host w flag (host_event (new_device d handle)) hh h = h
  on_internal_event-Inv host w flag (host_event (detached_devices mask)) hh h = h
  on_internal_event-Inv host w flag (host_event (control_transfer_response r buf)) hh h = h
  on_internal_event-Inv host w flag (host_event (interrupt_transfer_response r buf)) hh h = h
  on_internal_event-Inv host w flag (host_event host_suspended) hh h = h

  on_attached-Inv :
      (host : Host) (flag : Bool) (r : Status (Option (HostInternalEvent Bits)) × Works)
      → HostInv host
      → WorksInv capacity nr_devices r.1
      → HostInv (on_attached B V iter_ones capacity host flag r).1
  on_attached-Inv host flag (returned (some e), w) hh h = on_internal_event-Inv host w flag e hh h
  on_attached-Inv host flag (returned none, w) hh h = h
  on_attached-Inv host flag (raised e, w) hh h = (h.0, tt)
  on_attached-Inv host flag (crashed, w) hh h = h
  on_attached-Inv host flag (elapsed, w) hh h = h
  on_attached-Inv host flag (waiting, w) hh h = h
  on_attached-Inv host flag (starved, w) hh h = h

  rooted-Inv :
      (host : Host) (r : Enumerated Found)
      → host.state ≡ enumerate_root
      → (length r.2.info ≡ nr_devices) × HubsFit capacity r.2.info r.1
      → HostInv (rooted B V iter_ones capacity host r).1
  rooted-Inv host (returned none, hubs, m, b) e h = h
  rooted-Inv host (returned (some (d, handle)), hubs, m, b) e h = h
  rooted-Inv host (raised x, hubs, m, b) e h = (h.0, tt)
  rooted-Inv host (crashed, hubs, m, b) e h = (h.0, rw e tt)
  rooted-Inv host (elapsed, hubs, m, b) e h = (h.0, rw e tt)
  rooted-Inv host (waiting, hubs, m, b) e h = (h.0, rw e tt)
  rooted-Inv host (starved, hubs, m, b) e h = (h.0, rw e tt)

  at_speed-Inv :
      (host : Host) (now : Moment) (o : Option UsbSpeed)
      → host.state ≡ enumerate_root
      → HostInv host
      → HostInv (at_speed B V iter_ones capacity host now o).1
  at_speed-Inv host now none e h = h
  at_speed-Inv host now (some speed) e h =
      let b : Bus = record { replies = now.replies; calls = host.pipe_calls } in
      let f =
        enumerate_device-Fits capacity host.manager.info [] (omega arith) (tt, tt) host.manager
          (root_device speed) now.events b refl (omega (arith, h.0)) in
      rooted-Inv host (enumerate_device capacity host.manager [] (root_device speed) now.events b) e
        (f.0 ∙ h.0, (f.1, f.2))

  disconnected-Inv :
      (host : Host) (events : List Event)
      → HostInv host
      → HostInv (silently B V iter_ones capacity (run_disconnected host events)).1
  unfolding run_disconnected poll_bus
  disconnected-Inv host [] h = h
  disconnected-Inv host (device_attach ∷ es) h = (h.0, tt)
  disconnected-Inv host (device_detach ∷ es) h = (h.0, tt)
  disconnected-Inv host (suspend ∷ es) h = (h.0, tt)
  disconnected-Inv host (resume ∷ es) h = (h.0, tt)

  in_state-Inv :
      (host : Host) (now : Moment) (s : HostState)
      → host.state ≡ s
      → HostInv host
      → HostInv (in_state B V iter_ones capacity host now s).1
  unfolding run_device_attached enumerate_on_root
  in_state-Inv host now disconnected e h = disconnected-Inv host now.events h
  in_state-Inv host now enumerate_root e h = at_speed-Inv host now now.speed e h
  in_state-Inv host now (device_attached hubs flag) e h = on_attached-Inv host flag _ h (
      inner-Inv B V iter_ones capacity nr_devices small
        (record {
          hubs = hubs;
          manager = host.manager;
          bus = record { replies = now.replies; calls = host.pipe_calls };
          bus_calls = host.bus_calls;
        })
        flag now.events (h.0, subst (StateInv host.manager.info) e h.1))
  in_state-Inv host now suspended e h = (h.0, tt)

  round-Inv :
      (host : Host) (now : Moment)
      → HostInv host
      → HostInv (round B V iter_ones capacity host now).1
  unfolding round
  round-Inv host now h = in_state-Inv host now host.state refl h

  -- The hosts that are reached from a new one, by rounds that come to their end.
  pub data Reaches : Host → Type 0 where
    start : Reaches (new_host nr_devices)
    later :
        {host host' : Host}
        → Reaches host
        → (now : Moment) (event : Option (HostEvent Bits))
        → round B V iter_ones capacity host now ≡ (returned event, host')
        → Reaches host'

  -- In every state that a host with at most 127 addresses reaches, whatever the hardware does, the
  -- host has at most as many hubs as its array holds, and each hub has an address of its own, which
  -- is taken in the table; the table keeps its length.
  pub Reaches-Inv : {host : Host} → Reaches host → HostInv host
  unfolding new_host new_manager
  Reaches-Inv start = (length-replicate nr_devices _, tt)
  Reaches-Inv (later {host = host} r now event e) =
      subst (λ (h : Host). HostInv h) (ap (λ p. p.1) e) (round-Inv host now (Reaches-Inv r))
