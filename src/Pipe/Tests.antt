-- ===== src/Pipe/Tests.antt =====
-- Runs of the transfers of pipe.rs against scripts of replies, and the theorems at these inputs.
use async_usb_host.Prelude.{◌≡◌, ◌≢◌, refl, arith, none, some, true, [], ◌∷◌}
use async_usb_host.Errors.{nak}
use async_usb_host.Types.{DeviceHandle, InterruptChannel, tog0, tog1, next_tog, in_endpoint}
use async_usb_host.Types.Port.{new_port, low_speed, full_speed}
use async_usb_host.Request.{Request, data_direction}
use async_usb_host.Address.Tests.{four, four-IsTree, device, device_port}
use async_usb_host.Pipe.Bus.{
  Bus, answered, refused, set_addr, setup_call, data_in_call, data_out_call, returned, starved,
}
use async_usb_host.Pipe.Transfer.{data_in}
use async_usb_host.Pipe.Control.{control_transfer, interrupt_transfer}
use async_usb_host.Pipe.Completes.{control_transfer-ends}
use async_usb_host.Pipe.Retry.{repeated, naks}
use async_usb_host.Pipe.Sending.{Packets, payload, answers, sent}
use async_usb_host.Pipe.Receiving.{sends, asked, control_transfer-out, control_transfer-in}
use async_usb_host.Pipe.Addressing.{assign_device_address}
use async_usb_host.Pipe.Assigning.{Assigned, assign-Assigned}
use async_usb_host.Pipe.Interrupts.{
  Transfers, no_more, succeeds, fails, after_toggles, Transfers-toggle,
}

abbrev direct_device : DeviceHandle
direct_device = record {
  address = 1;
  max_packet_size = 4;
  parent = record { port = new_port 0x80 0; transaction_translator = none; speed = full_speed };
}

abbrev behind_hub : DeviceHandle
behind_hub = record {
  address = 2;
  max_packet_size = 8;
  parent = record {
    port = new_port 0x81 3;
    transaction_translator = some (1, 3);
    speed = low_speed;
  };
}

abbrev request_out : Request
request_out = record {
  request_type = record { bits = 0x21 };
  request = 9;
  value = 0;
  index = 0;
  length = 6;
}

abbrev request_in : Request
request_in = record {
  request_type = record { bits = 0x80 };
  request = 6;
  value = 0x100;
  index = 0;
  length = 6;
}

control_transfer-ends_example :
    (control_transfer behind_hub request_in
      (0 ∷ 0 ∷ 0 ∷ 0 ∷ 0 ∷ 0 ∷ [])
      (record { replies = answered [] ∷ refused nak ∷ answered [] ∷ []; calls = [] })).0
    ≢ starved
control_transfer-ends_example =
    control_transfer-ends behind_hub request_in (0 ∷ 0 ∷ 0 ∷ 0 ∷ 0 ∷ 0 ∷ [])
      (record { replies = answered [] ∷ refused nak ∷ answered [] ∷ []; calls = [] })

-- Six bytes in two packets, of which the first is refused once.
abbrev packets : Packets
packets = (1, 1 ∷ 2 ∷ 3 ∷ 4 ∷ []) ∷ (0, 5 ∷ 6 ∷ []) ∷ []

control_transfer-out_example :
    control_transfer direct_device request_out
      (payload packets)
      (record { replies = answered [] ∷ answers packets (naks 2 (answered [] ∷ [])); calls = [] })
    ≡ (
      returned [],
      record {
        replies = [];
        calls =
            data_in_call 0 tog1 true true 0
            ∷ repeated 2
                (data_in_call 0 tog1 true true 0)
                (sent tog1 packets (setup_call (some request_out) ∷ set_addr 1 ∷ []));
      },
    )
unfolding data_direction
control_transfer-out_example =
    control_transfer-out direct_device refl request_out packets [] [] 2 [] [] (omega arith)
      (omega arith) refl (omega arith, refl, (omega arith, omega arith))

control_transfer-in_example :
    control_transfer direct_device request_in
      (payload packets)
      (record { replies = answered [] ∷ sends packets (naks 2 (answered [] ∷ [])); calls = [] })
    ≡ (
      returned (payload packets),
      record {
        replies = [];
        calls =
            data_out_call 0 tog1 true (some [])
            ∷ repeated 2
                (data_out_call 0 tog1 true (some []))
                (asked tog1 6 packets (setup_call (some request_in) ∷ set_addr 1 ∷ []));
      },
    )
unfolding data_direction
control_transfer-in_example =
    control_transfer-in direct_device refl request_in packets [] [] 2 [] [] (omega arith)
      (payload packets) (omega arith) refl (refl, omega arith, (omega arith, omega arith))

-- The setup is answered; the status stage is, after a NAK.
abbrev obeying : Bus
obeying = record { replies = answered [] ∷ refused nak ∷ answered [] ∷ []; calls = [] }

assign-Assigned_example :
    Assigned four 64 device obeying (assign_device_address four 64 device obeying)
assign-Assigned_example =
    assign-Assigned four 64 device obeying four-IsTree device_port (omega arith)

abbrev channel : InterruptChannel
channel = record {
  device_handle = direct_device;
  endpoint_address = record { number = 1; direction = in_endpoint };
  tog = tog0;
}

-- A report, and then none.
channel-Transfers :
    Transfers channel
      (record { replies = answered (9 ∷ []) ∷ refused nak ∷ []; calls = [] })
      1
      (record channel { tog = tog1 })
unfolding interrupt_transfer data_in next_tog
channel-Transfers = succeeds (0 ∷ []) (9 ∷ []) refl (fails (0 ∷ []) nak refl no_more)

Transfers-toggle_example :
    record channel { tog = tog1 } ≡ record channel { tog = after_toggles 1 tog0 }
Transfers-toggle_example =
    Transfers-toggle channel (record channel { tog = tog1 })
      (record { replies = answered (9 ∷ []) ∷ refused nak ∷ []; calls = [] }) 1 channel-Transfers
