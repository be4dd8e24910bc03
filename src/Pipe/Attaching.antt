-- ===== src/Pipe/Attaching.antt =====
-- What `dev_attach` of pipe.rs does to the table of addresses, on any table.
use async_usb_host.Prelude.{ℕ, refl, ◌≤◌, List, length}
use async_usb_host.Errors.{UsbHostError, Outcome, ok, err, panics}
use async_usb_host.Types.{DeviceHandle}
use async_usb_host.Types.Port.{PortInfo, DevInfo}
use async_usb_host.Descriptor.{DeviceDescriptor}
use async_usb_host.Address.{DeviceAddressManager, alloc_device_address, free_address}
use async_usb_host.Address.Marks.{Ensures, Stays, NewlyTaken, Gives, alloc-Gives}
use async_usb_host.Pipe.Bus.{Bus, Status, returned, raised, crashed, elapsed, waiting, starved}
use async_usb_host.Pipe.Addressing.{
  tell_address, given_back, keep_address, given_address, with_descriptor, assign_device_address,
  attach_with, get_device_descriptor, dev_attach,
}

-- No device of the table is gone, and the address that is returned was free and is taken.
abbrev pub Assigns : List PortInfo → Status DeviceHandle × DeviceAddressManager × Bus → Type 0
Assigns before (returned h, m, b) = Stays before m.info × NewlyTaken before m.info h.address
Assigns before (raised e, m, b) = Stays before m.info
Assigns before (crashed, m, b) = Stays before m.info
Assigns before (elapsed, m, b) = Stays before m.info
Assigns before (waiting, m, b) = Stays before m.info
Assigns before (starved, m, b) = Stays before m.info

abbrev pub Attaches :
    List PortInfo → Status (DeviceDescriptor × DeviceHandle) × DeviceAddressManager × Bus → Type 0
Attaches before (returned (d, h), m, b) = Stays before m.info × NewlyTaken before m.info h.address
Attaches before (raised e, m, b) = Stays before m.info
Attaches before (crashed, m, b) = Stays before m.info
Attaches before (elapsed, m, b) = Stays before m.info
Attaches before (waiting, m, b) = Stays before m.info
Attaches before (starved, m, b) = Stays before m.info

Stays-self : (info : List PortInfo) → Stays info info
Stays-self info = (refl, λ j e. e)

module _ (m : DeviceAddressManager) (dev_info : DevInfo) (small : length m.info ≤ 127) where
  given_back-Assigns :
      (m' : DeviceAddressManager) (e : UsbHostError) (b : Bus) (o : Outcome DeviceAddressManager)
      → Stays m.info m'.info
      → Ensures (λ m''. Stays m.info m''.info) o
      → Assigns m.info (given_back m' e b o)
  given_back-Assigns m' e b (ok m'') s h = h
  given_back-Assigns m' e b (err x) s h = s
  given_back-Assigns m' e b panics s h = s

  kept :
      (max_packet_size : ℕ) (m' : DeviceAddressManager) (handle : DeviceHandle)
      (r : Status (List ℕ) × Bus)
      → Gives m max_packet_size dev_info small (m', handle)
      → Assigns m.info (keep_address m' handle r)
  kept mps m' handle (returned bytes, b) g = (g.0, g.1)
  kept mps m' handle (raised e, b) g = given_back-Assigns m' e b (free_address m' handle) g.0 g.2
  kept mps m' handle (crashed, b) g = g.0
  kept mps m' handle (elapsed, b) g = g.0
  kept mps m' handle (waiting, b) g = g.0
  kept mps m' handle (starved, b) g = g.0

  assigned :
      (max_packet_size : ℕ) (b : Bus) (o : Outcome (DeviceAddressManager × DeviceHandle))
      → Ensures (Gives m max_packet_size dev_info small) o
      → Assigns m.info (given_address m dev_info b o)
  assigned mps b (ok given) h = kept mps given.0 given.1 (tell_address dev_info given.1.address b) h
  assigned mps b (err e) h = Stays-self m.info
  assigned mps b panics h = Stays-self m.info

  assign-Assigns :
      (max_packet_size : ℕ) (b : Bus)
      → Assigns m.info (assign_device_address m max_packet_size dev_info b)
  unfolding assign_device_address
  assign-Assigns mps b =
      assigned mps b (alloc_device_address m mps dev_info) (alloc-Gives m mps dev_info small)

  paired :
      (d : DeviceDescriptor) (r : Status DeviceHandle × DeviceAddressManager × Bus)
      → Assigns m.info r
      → Attaches m.info (with_descriptor d r)
  paired d (returned h, m', b) a = a
  paired d (raised e, m', b) a = a
  paired d (crashed, m', b) a = a
  paired d (elapsed, m', b) a = a
  paired d (waiting, m', b) a = a
  paired d (starved, m', b) a = a

  attached : (r : Status DeviceDescriptor × Bus) → Attaches m.info (attach_with m dev_info r)
  attached (returned d, b) =
      paired d (assign_device_address m d.max_packet_size dev_info b)
        (assign-Assigns d.max_packet_size b)
  attached (raised e, b) = Stays-self m.info
  attached (crashed, b) = Stays-self m.info
  attached (elapsed, b) = Stays-self m.info
  attached (waiting, b) = Stays-self m.info
  attached (starved, b) = Stays-self m.info

  -- On any table of at most 127 slots and for any replies, wherever `dev_attach` stops, no device of
  -- the table is gone; an address that it returns was free and is taken.
  pub dev_attach-Attaches : (b : Bus) → Attaches m.info (dev_attach m dev_info b)
  unfolding dev_attach
  dev_attach-Attaches b = attached (get_device_descriptor dev_info 18 b)
