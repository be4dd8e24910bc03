-- ===== src/Host/Attached.antt =====
-- `run_device_attached_inner` of lib.rs: the hubs are polled, beside the bus.
use async_usb_host.Prelude.{ℕ, Bool, Option, none, some, List, [], ◌∷◌}
use async_usb_host.Errors.{Outcome, ok, err, panics}
use async_usb_host.External.BitArray.{BitArray}
use async_usb_host.External.ArrayVec.{ArrayVec}
use async_usb_host.Address.{DeviceAddressManager}
use async_usb_host.Pipe.Bus.{Bus, Status, returned, raised, crashed, elapsed, waiting, starved}
use async_usb_host.Pipe.Addressing.{dev_detach}
use async_usb_host.HubDriver.{Hub, HubEvent, device_reset}
use async_usb_host.HubDriver.Polling.{poll_hubs}
use async_usb_host.Host.{
  Event, device_attach, device_detach, suspend, resume, new_device, detached_devices,
  HostInternalEvent, enumeration_begin, enumeration_end, bus_event, host_event, BusCall, poll_bus,
}
use async_usb_host.Host.Enumerate.{Enumerated, Found, enumerate_device}
use async_usb_host.Host.Hubs.{remove_disconnected_hubs}

-- What an attached host works on.
pub record Works : Type 0 where
  pub hubs : List Hub
  pub manager : DeviceAddressManager
  pub bus : Bus
  pub bus_calls : List BusCall

-- `NR_HUBS`, the capacity of the array of hubs, and `iter_ones` of a report.
module _ (B : BitArray) (V : ArrayVec) (iter_ones : List ℕ → List ℕ) (capacity : ℕ) where
  open B use {Bits}

  -- The device that a hub reports was enumerated.
  abbrev pub attached : Works → Enumerated Found → Status (Option (HostInternalEvent Bits)) × Works
  attached w (status, hubs, m, b) =
      let w' = record w { hubs = hubs; manager = m; bus = b } in
      elim status [
        | returned none ↦ (returned (some enumeration_end), w')
        | returned (some (descriptor, handle)) ↦
            (returned (some (host_event (new_device descriptor handle))), w')
        | raised e ↦ (raised e, w')
        | crashed ↦ (crashed, w')
        | elapsed ↦ (elapsed, w')
        | waiting ↦ (waiting, w')
        | starved ↦ (starved, w')
      ]

  -- The hubs among the detached devices are removed from the array and from the mask.
  abbrev pub detached :
      Works → Outcome (List Hub × Bits) → Status (Option (HostInternalEvent Bits)) × Works
  detached w (ok (hubs, mask)) =
      (returned (some (host_event (detached_devices mask))), record w { hubs = hubs })
  detached w (err e) = (crashed, w)
  detached w panics = (crashed, w)

  abbrev pub freed :
      Works
      → Outcome (DeviceAddressManager × Bits)
      → Status (Option (HostInternalEvent Bits)) × Works
  freed w (ok (m, mask)) =
      detached (record w { manager = m }) (remove_disconnected_hubs B V w.hubs mask)
  freed w (err e) = (crashed, w)
  freed w panics = (crashed, w)

  -- The arms of an event of a hub.
  abbrev pub on_hub_event :
      Works → List Event → HubEvent → Status (Option (HostInternalEvent Bits)) × Works
  on_hub_event w events device_reset = (returned (some enumeration_begin), w)
  on_hub_event w events (HubEvent.device_attach devinfo) =
      attached w (enumerate_device capacity w.manager w.hubs devinfo events w.bus)
  on_hub_event w events (HubEvent.device_detach portinfo) =
      freed w (dev_detach B w.manager portinfo)

  abbrev pub on_bus_event :
      Works → Event × List BusCall → Status (Option (HostInternalEvent Bits)) × Works
  on_bus_event w (event, bus_calls) =
      (returned (some (bus_event event)), record w { bus_calls = bus_calls })

  -- After the hubs were polled there is a wait of 100 ms. It is over before the wait of 500 ms after
  -- the reset of a device that is attached, so that the poll of the bus is dropped with its event.
  abbrev pub after_pause : Works → List Event → Status (Option (HostInternalEvent Bits)) × Works
  after_pause w [] = (returned none, w)
  after_pause w (device_attach ∷ es) =
      (returned none, record w { bus_calls = (poll_bus device_attach w.bus_calls).1 })
  after_pause w (device_detach ∷ es) = on_bus_event w (poll_bus device_detach w.bus_calls)
  after_pause w (suspend ∷ es) = on_bus_event w (poll_bus suspend w.bus_calls)
  after_pause w (resume ∷ es) = on_bus_event w (poll_bus resume w.bus_calls)

  -- The arms of the `select` of the hubs and the bus, which polls the hubs first.
  abbrev pub selected :
      Works
      → List Event
      → Status (Option HubEvent)
      → Status (Option (HostInternalEvent Bits)) × Works
  selected w events (returned (some event)) = on_hub_event w events event
  selected w events (returned none) = after_pause w events
  selected w [] waiting = (waiting, w)
  selected w (e ∷ es) waiting = on_bus_event w (poll_bus e w.bus_calls)
  selected w events (raised e) = (raised e, w)
  selected w events crashed = (crashed, w)
  selected w events elapsed = (elapsed, w)
  selected w events starved = (starved, w)

  -- `run_device_attached_inner`.
  unfoldable pub run_device_attached_inner :
      Works
      → (enumeration_in_progress : Bool) → List Event
      → Status (Option (HostInternalEvent Bits)) × Works
  run_device_attached_inner w enumeration_in_progress events =
      let (status, hubs, b) = poll_hubs iter_ones w.hubs enumeration_in_progress w.bus in
      selected (record w { hubs = hubs; bus = b }) events status
