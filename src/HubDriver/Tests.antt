-- ===== src/HubDriver/Tests.antt =====
-- The handler of driver/hub.rs on a hub at the address 1, and the theorems at it.
use async_usb_host.Prelude.{refl, arith, true, false, none, []}
use async_usb_host.Types.{tog0, in_endpoint, DeviceHandle}
use async_usb_host.Types.Port.{new_port, high_speed, low_speed}
use async_usb_host.External.BitArray.{table}
use async_usb_host.Address.Tests.{four, four-IsTree}
use async_usb_host.HubDriver.{Hub}
use async_usb_host.HubDriver.Events.{Leads, on_port-Leads, Leaks, detach-Leaks}

abbrev hub_handle : DeviceHandle
hub_handle = record {
  address = 1;
  max_packet_size = 64;
  parent = record { port = new_port 0x80 0; transaction_translator = none; speed = high_speed };
}

abbrev pub root_hub : Hub
root_hub = record {
  handle = hub_handle;
  interrupt_channel = record {
    device_handle = hub_handle;
    endpoint_address = record { number = 1; direction = in_endpoint };
    tog = tog0;
  };
}

-- The end of a reset of a keyboard on port 2.
on_port-Leads_example :
    Leads root_hub 2 refl
      (omega arith)
      (omega arith)
      []
      []
      []
      []
      []
      []
      true
      false
      true
      true
      false
      low_speed
on_port-Leads_example =
    on_port-Leads root_hub 2 refl (omega arith) (omega arith) [] [] [] [] [] [] true false true true
      false low_speed

detach-Leaks_example :
    Leaks root_hub 2 refl (omega arith) (omega arith) [] [] [] [] [] [] table four
detach-Leaks_example =
    detach-Leaks root_hub 2 refl (omega arith) (omega arith) [] [] [] [] [] [] table four
      four-IsTree (omega arith)
