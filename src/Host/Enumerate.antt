-- ===== src/Host/Enumerate.antt =====
-- `enumerate_device` of lib.rs.
use async_usb_host.Prelude.{
  ℕ, Option, none, some, List, [], ◌∷◌, ◌++◌, length, ltb, ◌==◌, if◌then◌else◌,
}
use async_usb_host.Errors.{hub_capacity, detached}
use async_usb_host.Types.{DeviceHandle}
use async_usb_host.Types.Port.{DevInfo}
use async_usb_host.Descriptor.{DeviceDescriptor}
use async_usb_host.Address.{DeviceAddressManager}
use async_usb_host.ClassCode.{class_code, UsbBaseClass}
use async_usb_host.Pipe.Bus.{Bus, Status, returned, raised, crashed, elapsed, waiting, starved}
use async_usb_host.Pipe.Addressing.{dev_attach}
use async_usb_host.HubDriver.{Hub}
use async_usb_host.HubDriver.Setup.{new_hub}
use async_usb_host.Host.{Event, wait_until_detach}

-- A result, beside the hubs, the address manager and the bus that it leaves.
abbrev pub Enumerated : Type 0 → Type 0
Enumerated A = Status A × List Hub × DeviceAddressManager × Bus

abbrev pub Found : Type 0
Found = Option (DeviceDescriptor × DeviceHandle)

-- `hubs.try_push(hub)`, for an `ArrayVec` of a capacity.
abbrev pub try_push :
    (capacity : ℕ) → List Hub → DeviceAddressManager → Status Hub × Bus → Enumerated Found
try_push capacity hubs m (returned hub, b) =
    if ltb (length hubs) capacity
    then (returned none, hubs ++ (hub ∷ []), m, b)
    else (raised hub_capacity, hubs, m, b)
try_push capacity hubs m (raised e, b) = (raised e, hubs, m, b)
try_push capacity hubs m (crashed, b) = (crashed, hubs, m, b)
try_push capacity hubs m (elapsed, b) = (elapsed, hubs, m, b)
try_push capacity hubs m (waiting, b) = (waiting, hubs, m, b)
try_push capacity hubs m (starved, b) = (starved, hubs, m, b)

-- The test of the device class, of a device that has its address.
abbrev pub by_class :
    (capacity : ℕ)
    → List Hub
    → DeviceAddressManager
    → DeviceDescriptor
    → DeviceHandle
    → Bus
    → Enumerated Found
by_class capacity hubs m descriptor handle b =
    if descriptor.device_class == class_code UsbBaseClass.hub
    then try_push capacity hubs m (new_hub handle b)
    else (returned (some (descriptor, handle)), hubs, m, b)

-- The detach ends the wait for the attach, if it comes.
abbrev pub after_detach :
    List Hub → DeviceAddressManager → Bus → Option (List Event) → Enumerated Found
after_detach hubs m b none = (waiting, hubs, m, b)
after_detach hubs m b (some later) = (raised detached, hubs, m, b)

-- The arms of the `select` of the attach and the detach; the attach is polled first.
abbrev pub unless_detached :
    (capacity : ℕ)
    → List Hub
    → List Event
    → Status (DeviceDescriptor × DeviceHandle) × DeviceAddressManager × Bus
    → Enumerated Found
unless_detached capacity hubs events (returned (descriptor, handle), m, b) =
    by_class capacity hubs m descriptor handle b
unless_detached capacity hubs events (raised e, m, b) = (raised e, hubs, m, b)
unless_detached capacity hubs events (crashed, m, b) = (crashed, hubs, m, b)
unless_detached capacity hubs events (elapsed, m, b) = (elapsed, hubs, m, b)
unless_detached capacity hubs events (waiting, m, b) =
    after_detach hubs m b (wait_until_detach events)
unless_detached capacity hubs events (starved, m, b) = (starved, hubs, m, b)

-- `enumerate_device`, for `NR_HUBS` hubs.
unfoldable pub enumerate_device :
    (capacity : ℕ) → DeviceAddressManager → List Hub → DevInfo → List Event → Bus → Enumerated Found
enumerate_device capacity m hubs hubinfo events b =
    unless_detached capacity hubs events (dev_attach m hubinfo b)
