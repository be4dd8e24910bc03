-- ===== src/HubDriver/Polling.antt =====
-- `Hub::poll` of driver/hub.rs, and the loop over the hubs in lib.rs that polls them.
use async_usb_host.Prelude.{
  ℕ, Bool, Option, none, some, List, [], ◌∷◌, ◌++◌, length, take, replicate, ltb, if◌then◌else◌,
}
use async_usb_host.Errors.{UsbHostError, Result, done, failed}
use async_usb_host.Types.{InterruptChannel}
use async_usb_host.Pipe.Bus.{
  Bus, Status, returned, raised, crashed, elapsed, waiting, starved, ◌>>◌, attempt, is_nak,
}
use async_usb_host.Pipe.Control.{interrupt_transfer, assert}
use async_usb_host.HubDriver.{Hub, HubEvent, on_status_change}

-- The bitmask of sixteen bytes, which the report of the hub is written into.
abbrev pub bitmask : List ℕ → List ℕ
bitmask bytes = take 16 (bytes ++ replicate 16 0)

-- What became of the hub stands beside the result, since a poll may be dropped while it waits.
abbrev pub with_hub : {A : Type 0} → Hub → Status (Result A) × Bus → Status (Result A) × Hub × Bus
with_hub hub (status, b) = (status, hub, b)

abbrev pub unless_no_report : UsbHostError → Result (Option HubEvent)
unless_no_report e = if is_nak e then done none else failed e

-- `iter_ones`: the positions of the set bits in ascending order.
module _ (iter_ones : List ℕ → List ℕ) where
  -- The arms after the interrupt transfer.
  abbrev pub after_interrupt :
      Hub
      → (enumerating : Bool) → Status (List ℕ) × InterruptChannel × Bus
      → Status (Result (Option HubEvent)) × Hub × Bus
  after_interrupt hub enumerating (returned bytes, c, b) =
      let hub' = record hub { interrupt_channel = c } in
      with_hub hub' (
        attempt
          (assert (ltb 0 (length bytes))
            >> on_status_change hub' (iter_ones (bitmask bytes)) enumerating)
          b)
  after_interrupt hub enumerating (raised e, c, b) =
      (returned (unless_no_report e), record hub { interrupt_channel = c }, b)
  after_interrupt hub enumerating (crashed, c, b) = (crashed, hub, b)
  after_interrupt hub enumerating (elapsed, c, b) = (elapsed, hub, b)
  after_interrupt hub enumerating (waiting, c, b) = (waiting, hub, b)
  after_interrupt hub enumerating (starved, c, b) = (starved, hub, b)

  -- `Hub::poll`.
  unfoldable pub poll_hub :
      Hub → (enumerating : Bool) → Bus → Status (Result (Option HubEvent)) × Hub × Bus
  poll_hub hub enumerating b =
      after_interrupt hub enumerating (interrupt_transfer hub.interrupt_channel (replicate 16 0) b)

  -- A hub that reports nothing, or an error, is passed over.
  abbrev pub and_then :
      Status (Result (Option HubEvent)) × Hub × Bus
      → (Bus → Status (Option HubEvent) × List Hub × Bus)
      → List Hub
      → Status (Option HubEvent) × List Hub × Bus
  and_then (returned (done (some event)), hub, b) rest hubs = (returned (some event), hub ∷ hubs, b)
  and_then (returned (done none), hub, b) rest hubs =
      let (status, hubs', b') = rest b in (status, hub ∷ hubs', b')
  and_then (returned (failed e), hub, b) rest hubs =
      let (status, hubs', b') = rest b in (status, hub ∷ hubs', b')
  and_then (raised e, hub, b) rest hubs = (raised e, hub ∷ hubs, b)
  and_then (crashed, hub, b) rest hubs = (crashed, hub ∷ hubs, b)
  and_then (elapsed, hub, b) rest hubs = (elapsed, hub ∷ hubs, b)
  and_then (waiting, hub, b) rest hubs = (waiting, hub ∷ hubs, b)
  and_then (starved, hub, b) rest hubs = (starved, hub ∷ hubs, b)

  -- `for hub in hubs.iter_mut()`.
  unfoldable pub poll_hubs :
      List Hub → (enumerating : Bool) → Bus → Status (Option HubEvent) × List Hub × Bus
  poll_hubs [] enumerating b = (returned none, [], b)
  poll_hubs (hub ∷ hubs) enumerating b =
      and_then (poll_hub hub enumerating b) (poll_hubs hubs enumerating) hubs
