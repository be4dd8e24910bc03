-- ===== src/Host/Enumerating.antt =====
-- What `enumerate_device` of lib.rs leaves: each hub has an address of its own, and fits the array.
use async_usb_host.Prelude.{
  ℕ, ◌≤◌, ◌<◌, ◌≡◌, refl, sym, subst, arith, Bool, true, false, Option, none, some, inl, inr, List,
  [], ◌∷◌, ◌++◌, length, length-append, replicate, ltb, ◌==◌, if◌then◌else◌, Bool-cases,
}
use async_usb_host.Request.{class, get_descriptor}
use async_usb_host.Types.{DeviceHandle, EndpointAddress}
use async_usb_host.Types.Port.{PortInfo, DevInfo, is_empty}
use async_usb_host.Descriptor.{DeviceDescriptor}
use async_usb_host.ClassCode.{class_code, UsbBaseClass}
use async_usb_host.Address.{DeviceAddressManager}
use async_usb_host.Address.Tree.{slot}
use async_usb_host.Address.Marks.{Stays, NewlyTaken}
use async_usb_host.Pipe.Bus.{
  Bus, Status, returned, raised, crashed, elapsed, waiting, starved, Async, follow,
}
use async_usb_host.Pipe.Control.{control_transfer}
use async_usb_host.Pipe.Addressing.{dev_attach}
use async_usb_host.Pipe.Attaching.{Attaches, dev_attach-Attaches}
use async_usb_host.Driver.{read_configuration, asked_with}
use async_usb_host.Driver.Items.{for_items}
use async_usb_host.HubDriver.{Hub}
use async_usb_host.HubDriver.Setup.{
  visit_hub, cast_hub, for_ports, enable_port, ask_port, power_port, make_hub, new_hub,
}
use async_usb_host.Host.{Event, wait_until_detach}
use async_usb_host.Host.Enumerate.{
  Enumerated, Found, try_push, by_class, after_detach, unless_detached, enumerate_device,
}
use async_usb_host.Host.HubLists.{address_of}
use async_usb_host.Host.Owned.{
  Owned, Owns, Owned-Stays, Absent-NewlyTaken, All-append, Distinct-append,
}

-- A value that is returned has a property.
abbrev pub Yields : {A : Type 0} → (A → Type 0) → Status A × Bus → Type 0
Yields P (returned a, b) = P a
Yields P (raised e, b) = Unit {0}
Yields P (crashed, b) = Unit {0}
Yields P (elapsed, b) = Unit {0}
Yields P (waiting, b) = Unit {0}
Yields P (starved, b) = Unit {0}

Yields-follow :
    {A C : Type 0} (P : C → Type 0) (r : Status A × Bus) (k : A → Async C)
    → ((a : A) (b : Bus) → Yields P (k a b))
    → Yields P (follow r k)
Yields-follow P (returned a, b) k h = h a b
Yields-follow P (raised e, b) k h = tt
Yields-follow P (crashed, b) k h = tt
Yields-follow P (elapsed, b) k h = tt
Yields-follow P (waiting, b) k h = tt
Yields-follow P (starved, b) k h = tt

module _ (handle : DeviceHandle) where
  abbrev Keeps : Hub → Type 0
  Keeps hub = hub.handle ≡ handle

  make_hub-Keeps :
      (ports : ℕ) (found : Option EndpointAddress) (b : Bus)
      → Yields Keeps (make_hub handle ports found b)
  make_hub-Keeps ports none b = tt
  make_hub-Keeps ports (some address) b =
      Yields-follow Keeps (for_ports ports 1 (power_port _) b) _ (λ t b'. refl)

  -- A hub has the handle that it was made from.
  new_hub-Keeps : (b : Bus) → Yields Keeps (new_hub handle b)
  unfolding new_hub
  new_hub-Keeps b = Yields-follow Keeps (read_configuration handle 255 b) _ (λ iter b1.
      Yields-follow Keeps (for_items (visit_hub handle) iter none b1) _ (λ found b2.
        Yields-follow Keeps (asked_with (get_descriptor 0x29 class 0 0 7) b2) _ (λ req b3.
          Yields-follow Keeps (control_transfer handle req (replicate 7 0) b3) _ (λ bytes b4.
            Yields-follow Keeps
              (for_ports (cast_hub bytes).number_of_ports 1 (enable_port handle) b4) _
              (λ t b5.
                Yields-follow Keeps
                  (for_ports (cast_hub bytes).number_of_ports 1 (ask_port handle) b5) _
                  (λ t' b6. make_hub-Keeps (cast_hub bytes).number_of_ports found b6))))))

module _ (capacity : ℕ) (before : List PortInfo) (hubs : List Hub) (room : length hubs ≤ capacity)
    (owned : Owned before hubs) where
  -- The table keeps its length, the hubs fit, and each has an address of its own.
  abbrev pub Fits : Enumerated Found → Type 0
  Fits (status, hubs', m, b) =
      (length m.info ≡ length before) × (length hubs' ≤ capacity) × Owned m.info hubs'

  Fits-branch : (t : Bool) (x y : Enumerated Found) → Fits x → Fits y → Fits (if t then x else y)
  Fits-branch true x y hx hy = hx
  Fits-branch false x y hx hy = hy

  stayed : (m : DeviceAddressManager) → Stays before m.info → Owned m.info hubs
  stayed m s = (owned.0, Owned-Stays before m.info hubs s owned.1)

  module _ (m : DeviceAddressManager) (s : Stays before m.info) where
    pushed :
        (hub : Hub)
        → NewlyTaken before m.info (address_of hub)
        → length hubs < capacity
        → (length (hubs ++ (hub ∷ [])) ≤ capacity) × Owned m.info (hubs ++ (hub ∷ []))
    pushed hub t lt = (
      omega (arith, length-append hubs (hub ∷ [])),
      (
        Distinct-append hubs hub (Absent-NewlyTaken before m.info (address_of hub) hubs t owned.1)
            owned.0,
        All-append (Owns m.info) hubs (hub ∷ []) (stayed m s).1 (
          (
            omega (arith, t.1),
            subst (λ i. is_empty (slot m.info i) ≡ false) (omega (arith, t.1)) t.3,
          ),
          tt,
        ),
      ),
    )

    try_push-Fits :
        (handle : DeviceHandle) (r : Status Hub × Bus)
        → NewlyTaken before m.info handle.address
        → Yields (Keeps handle) r
        → Fits (try_push capacity hubs m r)
    try_push-Fits handle (returned hub, b) t k =
        let taken : NewlyTaken before m.info (address_of hub) =
          subst (λ (h : DeviceHandle). NewlyTaken before m.info h.address) (sym k) t in
        elim (Bool-cases (ltb (length hubs) capacity)) [
          | inl e ↦ let p = pushed hub taken (ground arith) in rw e (s.0, p.0, p.1)
          | inr e ↦ rw e (s.0, room, stayed m s)
        ]
    try_push-Fits handle (raised e, b) t k = (s.0, room, stayed m s)
    try_push-Fits handle (crashed, b) t k = (s.0, room, stayed m s)
    try_push-Fits handle (elapsed, b) t k = (s.0, room, stayed m s)
    try_push-Fits handle (waiting, b) t k = (s.0, room, stayed m s)
    try_push-Fits handle (starved, b) t k = (s.0, room, stayed m s)

    by_class-Fits :
        (d : DeviceDescriptor) (handle : DeviceHandle) (b : Bus)
        → NewlyTaken before m.info handle.address
        → Fits (by_class capacity hubs m d handle b)
    by_class-Fits d handle b t =
        Fits-branch (d.device_class == class_code UsbBaseClass.hub)
          (try_push capacity hubs m (new_hub handle b)) (returned (some (d, handle)), hubs, m, b)
          (try_push-Fits handle (new_hub handle b) t (new_hub-Keeps handle b))
          (s.0, room, stayed m s)

  after_detach-Fits :
      (m : DeviceAddressManager) (b : Bus)
      → Stays before m.info
      → (o : Option (List Event)) → Fits (after_detach hubs m b o)
  after_detach-Fits m b s none = (s.0, room, stayed m s)
  after_detach-Fits m b s (some later) = (s.0, room, stayed m s)

  unless_detached-Fits :
      (events : List Event)
      (r : Status (DeviceDescriptor × DeviceHandle) × DeviceAddressManager × Bus)
      → Attaches before r
      → Fits (unless_detached capacity hubs events r)
  unless_detached-Fits events (returned (d, handle), m, b) a = by_class-Fits m a.0 d handle b a.1
  unless_detached-Fits events (raised e, m, b) a = (a.0, room, stayed m a)
  unless_detached-Fits events (crashed, m, b) a = (a.0, room, stayed m a)
  unless_detached-Fits events (elapsed, m, b) a = (a.0, room, stayed m a)
  unless_detached-Fits events (waiting, m, b) a = after_detach-Fits m b a (wait_until_detach events)
  unless_detached-Fits events (starved, m, b) a = (a.0, room, stayed m a)

  -- Wherever `enumerate_device` stops, on a table of at most 127 slots.
  pub enumerate_device-Fits :
      (m : DeviceAddressManager) (d : DevInfo) (events : List Event) (b : Bus)
      → m.info ≡ before
      → length before ≤ 127
      → Fits (enumerate_device capacity m hubs d events b)
  unfolding enumerate_device
  enumerate_device-Fits m d events b e small = unless_detached-Fits events (dev_attach m d b) (
      subst (λ info. Attaches info (dev_attach m d b)) e
        (dev_attach-Attaches m d (subst (λ info. length info ≤ 127) (sym e) small) b))
