-- ===== src/Host.antt =====
-- lib.rs and bus.rs: the host, which enumerates the device on its port and the devices behind hubs.
-- The hardware of `trait Bus` is outside the repository: its events are lists.
pub mod Hubs
pub mod Enumerate
pub mod Attached
pub mod Run
pub mod HubLists
pub mod Removal
pub mod Owned
pub mod Enumerating
pub mod Resets
pub mod Exclusion
pub mod Working
pub mod Reach
mod Tests
use async_usb_host.Prelude.{ℕ, Bool, Option, none, some, List, [], ◌∷◌}
use async_usb_host.Errors.{Result}
use async_usb_host.Types.{DeviceHandle}
use async_usb_host.Types.Port.{UsbSpeed}
use async_usb_host.Descriptor.{DeviceDescriptor}
use async_usb_host.Address.{DeviceAddressManager, new_manager}
use async_usb_host.Pipe.Bus.{Reply, Call}
use async_usb_host.HubDriver.{Hub}

-- `Event` of bus.rs.
pub data Event : Type 0 where
  device_attach device_detach suspend resume : Event

pub data HostState : Type 0 where
  disconnected enumerate_root : HostState
  device_attached : (hubs : List Hub) → (enumeration_in_progress : Bool) → HostState
  suspended : HostState

-- `Mask` is `DeviceDisconnectMask`.
pub data HostEvent (Mask : Type 0) : Type 0 where
  new_device : DeviceDescriptor → DeviceHandle → HostEvent Mask
  detached_devices : Mask → HostEvent Mask
  control_transfer_response : Result ℕ → (buffer : List ℕ) → HostEvent Mask
  interrupt_transfer_response : Result ℕ → (buffer : List ℕ) → HostEvent Mask
  host_suspended : HostEvent Mask

pub data HostInternalEvent (Mask : Type 0) : Type 0 where
  enumeration_begin enumeration_end : HostInternalEvent Mask
  bus_event : Event → HostInternalEvent Mask
  host_event : HostEvent Mask → HostInternalEvent Mask

-- The calls of `trait Bus` beside its polls, and the wait after a reset.
pub data BusCall : Type 0 where
  reset : BusCall
  wait_millis : ℕ → BusCall

-- `Host`, with the address manager of its pipe, and the calls so far, the last one first.
pub record Host : Type 0 where
  pub manager : DeviceAddressManager
  pub state : HostState
  pub pipe_calls : List Call
  pub bus_calls : List BusCall

-- What the hardware does during one round of the host: the pipe's replies, then the events of the
-- bus, and the speed of the device on the root port.
pub record Moment : Type 0 where
  pub replies : List Reply
  pub events : List Event
  pub speed : Option UsbSpeed

-- `Host::new`, for `NR_DEVICES` addresses.
unfoldable pub new_host : (nr_devices : ℕ) → Host
new_host nr_devices = record {
  manager = new_manager nr_devices;
  state = disconnected;
  pipe_calls = [];
  bus_calls = [];
}

-- `BusWrap::poll`, after an event of the hardware: a device that is attached is reset.
unfoldable pub poll_bus : Event → List BusCall → Event × List BusCall
poll_bus device_attach cs = (device_attach, wait_millis 500 ∷ reset ∷ cs)
poll_bus device_detach cs = (device_detach, cs)
poll_bus suspend cs = (suspend, cs)
poll_bus resume cs = (resume, cs)

-- `BusWrap::wait_until_detach`: the events after the detach, if there is one.
unfoldable pub wait_until_detach : List Event → Option (List Event)
wait_until_detach [] = none
wait_until_detach (device_detach ∷ es) = some es
wait_until_detach (device_attach ∷ es) = wait_until_detach es
wait_until_detach (suspend ∷ es) = wait_until_detach es
wait_until_detach (resume ∷ es) = wait_until_detach es
