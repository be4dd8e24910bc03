-- ===== src/Host/Working.antt =====
-- The hubs of an attached host of lib.rs, through `run_device_attached_inner`.
use async_usb_host.Prelude.{
  ℕ, ◌≤◌, ◌≡◌, refl, ◌∙◌, arith, Bool, Option, none, some, List, [], ◌∷◌, length,
}
use mathlib.Core.List.Permᴰ
use async_usb_host.Errors.{Outcome, ok, err, panics}
use async_usb_host.External.BitArray.{BitArray}
use async_usb_host.External.ArrayVec.{ArrayVec}
use async_usb_host.Types.Port.{PortInfo}
use async_usb_host.Address.{DeviceAddressManager, free_subtree}
use async_usb_host.Address.Marks.{Ensures, Marks, free_subtree-Marks}
use async_usb_host.Pipe.Bus.{Status, returned, raised, crashed, elapsed, waiting, starved}
use async_usb_host.Pipe.Addressing.{dev_detach}
use async_usb_host.HubDriver.{Hub, HubEvent, device_reset}
use async_usb_host.HubDriver.Polling.{poll_hubs}
use async_usb_host.Host.{Event, device_attach, device_detach, suspend, resume}
use async_usb_host.Host.Enumerate.{Enumerated, Found, enumerate_device}
use async_usb_host.Host.Removal.{remove-Removed}
use async_usb_host.Host.HubLists.{All-Permᴰ, Distinct-Permᴰ, length-Permᴰ}
use async_usb_host.Host.Owned.{
  Owned, Owned-within, poll_hubs-Alike, Alike-length, Alike-Owned, kept-Distinct, length-kept,
  kept-Owns,
}
use async_usb_host.Host.Enumerating.{enumerate_device-Fits}
use async_usb_host.Host.Run.{}
use async_usb_host.Host.Attached.{
  Works, attached, detached, freed, on_hub_event, selected, run_device_attached_inner,
}

-- The hubs fit an array of the capacity, and each has an address of its own.
abbrev pub HubsFit : (capacity : ℕ) → List PortInfo → List Hub → Type 0
HubsFit capacity info hubs = (length hubs ≤ capacity) × Owned info hubs

-- What holds of the hubs that an attached host works on.
abbrev pub WorksInv : (capacity nr_devices : ℕ) → Works → Type 0
WorksInv capacity nr_devices w =
    (length w.manager.info ≡ nr_devices) × HubsFit capacity w.manager.info w.hubs

module _ (B : BitArray) (V : ArrayVec) (iter_ones : List ℕ → List ℕ) (capacity nr_devices : ℕ)
    (small : nr_devices ≤ 127) where
  open B use {Bits}

  attached-Inv :
      (w : Works) (r : Enumerated Found)
      → (length r.2.info ≡ nr_devices) × HubsFit capacity r.2.info r.1
      → WorksInv capacity nr_devices (attached B V iter_ones capacity w r).1
  attached-Inv w (returned none, hubs, m, b) h = h
  attached-Inv w (returned (some (d, handle)), hubs, m, b) h = h
  attached-Inv w (raised e, hubs, m, b) h = h
  attached-Inv w (crashed, hubs, m, b) h = h
  attached-Inv w (elapsed, hubs, m, b) h = h
  attached-Inv w (waiting, hubs, m, b) h = h
  attached-Inv w (starved, hubs, m, b) h = h

  freed-Inv :
      (w : Works) (o : Outcome (DeviceAddressManager × Bits))
      → WorksInv capacity nr_devices w
      → Ensures (Marks B w.manager.info) o
      → WorksInv capacity nr_devices (freed B V iter_ones capacity w o).1
  freed-Inv w (ok (m, mask)) h marked =
      let (hubs, mask', run, perm, bits) =
        remove-Removed B V w.hubs mask h.1.1.0
          (Owned-within w.manager.info w.hubs (omega (arith, h.0)) h.1.1.1) in
      let back = Permᴰ.symm perm in
      rw (run, detached)
        (
          marked.0 ∙ h.0,
          (
            omega (arith, length-Permᴰ perm, length-kept B mask w.hubs, h.1.0),
            (
              Distinct-Permᴰ back (kept-Distinct B mask w.hubs h.1.1.0),
              All-Permᴰ _ back (kept-Owns B mask w.manager.info m.info marked w.hubs h.1.1.1),
            ),
          ),
        )
  freed-Inv w (err e) h marked = h
  freed-Inv w panics h marked = h

  on_hub_event-Inv :
      (w : Works) (events : List Event) (e : HubEvent)
      → WorksInv capacity nr_devices w
      → WorksInv capacity nr_devices (on_hub_event B V iter_ones capacity w events e).1
  unfolding dev_detach
  on_hub_event-Inv w events device_reset h = h
  on_hub_event-Inv w events (HubEvent.device_attach d) h =
      let f =
        enumerate_device-Fits capacity w.manager.info w.hubs h.1.0 h.1.1 w.manager d events w.bus
          refl (omega (arith, h.0)) in
      attached-Inv w (enumerate_device capacity w.manager w.hubs d events w.bus)
        (f.0 ∙ h.0, (f.1, f.2))
  on_hub_event-Inv w events (HubEvent.device_detach p) h =
      freed-Inv w (free_subtree B w.manager p) h (free_subtree-Marks B w.manager p)

  selected-Inv :
      (w : Works) (events : List Event) (s : Status (Option HubEvent))
      → WorksInv capacity nr_devices w
      → WorksInv capacity nr_devices (selected B V iter_ones capacity w events s).1
  selected-Inv w events (returned (some e)) h = on_hub_event-Inv w events e h
  selected-Inv w [] (returned none) h = h
  selected-Inv w (device_attach ∷ es) (returned none) h = h
  selected-Inv w (device_detach ∷ es) (returned none) h = h
  selected-Inv w (suspend ∷ es) (returned none) h = h
  selected-Inv w (resume ∷ es) (returned none) h = h
  selected-Inv w [] waiting h = h
  selected-Inv w (e ∷ es) waiting h = h
  selected-Inv w events (raised e) h = h
  selected-Inv w events crashed h = h
  selected-Inv w events elapsed h = h
  selected-Inv w events starved h = h

  pub inner-Inv :
      (w : Works) (flag : Bool) (events : List Event)
      → WorksInv capacity nr_devices w
      → WorksInv capacity nr_devices
          (run_device_attached_inner B V iter_ones capacity w flag events).1
  unfolding run_device_attached_inner
  inner-Inv w flag events h =
      let r = poll_hubs iter_ones w.hubs flag w.bus in
      let same = poll_hubs-Alike iter_ones w.hubs flag w.bus in
      selected-Inv (record w { hubs = r.1; bus = r.2 }) events r.0
        (
          h.0,
          (
            omega (arith, Alike-length w.hubs r.1 same, h.1.0),
            Alike-Owned w.manager.info w.hubs r.1 same h.1.1,
          ),
        )
