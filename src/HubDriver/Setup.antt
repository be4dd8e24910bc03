-- ===== src/HubDriver/Setup.antt =====
-- `Hub::new` of driver/hub.rs: a hub is configured, and its ports are powered.
use async_usb_host.Prelude.{
  ℕ, zero, suc, ◌+◌, Option, none, some, List, [], ◌∷◌, replicate, if◌then◌else◌,
}
use async_usb_host.Errors.{invalid_response, Result, done, failed}
use async_usb_host.Types.{EndpointAddress, endpoint_address_from, DeviceHandle, tog0}
use async_usb_host.Request.{
  class, to_other, get_descriptor, get_status, set_feature, set_configuration,
}
use async_usb_host.Descriptor.{
  Descriptor, device, configuration, interface, endpoint, unknown_descriptor, byte, word,
}
use async_usb_host.Descriptor.Hub.{
  HubDescriptor, HubPortStatus, HubPortStatusChange, port_power, powered,
}
use async_usb_host.Pipe.Bus.{Async, ◌>>=◌, ◌>>◌, return, raise, crash, attempt}
use async_usb_host.Pipe.Control.{control_transfer}
use async_usb_host.Driver.{read_configuration, asked_with}
use async_usb_host.Driver.Items.{for_items}
use async_usb_host.HubDriver.{Hub, get_port_status, set_port_feature}

-- The arms of the loop over the descriptors, which look for the endpoint.
abbrev pub visit_hub :
    DeviceHandle → Option EndpointAddress → Descriptor → Async (Option EndpointAddress)
visit_hub handle found (configuration c) =
    control_transfer handle (set_configuration c.value) [] >> return found
visit_hub handle none (endpoint e) = return (some (endpoint_address_from e.b_endpoint_address))
visit_hub handle (some address) (endpoint e) = crash
visit_hub handle found (device d) = return found
visit_hub handle found (interface i) = return found
visit_hub handle found (unknown_descriptor t l bytes) = return found

-- The hub descriptor, of which seven bytes are asked for; what the hub does not send stays zero.
unfoldable pub cast_hub : List ℕ → HubDescriptor
cast_hub buf = record {
  length = byte buf 0;
  descriptor_type = byte buf 1;
  number_of_ports = byte buf 2;
  hub_characteristics = word buf 3;
  power_on_to_power_good_time = byte buf 5;
  hub_controller_current = byte buf 6;
}

-- `for port in 1..=number_of_ports`, with `n` ports to go from a port on.
unfoldable pub for_ports : (n port : ℕ) → (ℕ → Async (Unit {0})) → Async (Unit {0})
for_ports zero port body = return tt
for_ports (suc n) port body = body port >> for_ports n (port + 1) body

-- The bodies of the three loops over the ports.
abbrev pub enable_port : DeviceHandle → (port : ℕ) → Async (Unit {0})
enable_port handle port =
    control_transfer handle (set_feature to_other class 8 port 0) [] >> return tt

abbrev pub ask_port : DeviceHandle → (port : ℕ) → Async (Unit {0})
ask_port handle port =
    control_transfer handle (get_status to_other class 0 port 4) (0 ∷ 0 ∷ 0 ∷ 0 ∷ []) >> return tt

-- A port whose status cannot be read is passed over, and so is an error of its power feature.
abbrev pub power_if_off :
    Hub → (port : ℕ) → Result (HubPortStatus × HubPortStatusChange) → Async (Unit {0})
power_if_off hub port (done words) =
    if powered words.0
    then return tt
    else (attempt (set_port_feature hub port port_power) >> return tt)
power_if_off hub port (failed e) = return tt

abbrev pub power_port : Hub → (port : ℕ) → Async (Unit {0})
power_port hub port = attempt (get_port_status hub port) >>= power_if_off hub port

-- `ok_or` on the endpoint, and the loop after it.
abbrev pub make_hub : DeviceHandle → (ports : ℕ) → Option EndpointAddress → Async Hub
make_hub handle ports none = raise invalid_response
make_hub handle ports (some address) =
    let hub : Hub = record {
      handle = handle;
      interrupt_channel = record { device_handle = handle; endpoint_address = address; tog = tog0 };
    } in
    for_ports ports 1 (power_port hub) >> return hub

-- `Hub::new`.
unfoldable pub new_hub : DeviceHandle → Async Hub
new_hub handle = do
  iter ← read_configuration handle 255
  found ← for_items (visit_hub handle) iter none
  req ← asked_with (get_descriptor 0x29 class 0 0 7)
  bytes ← control_transfer handle req (replicate 7 0)
  let ports = (cast_hub bytes).number_of_ports
  for_ports ports 1 (enable_port handle)
  for_ports ports 1 (ask_port handle)
  make_hub handle ports found
