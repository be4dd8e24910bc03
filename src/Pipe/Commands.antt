-- ===== src/Pipe/Commands.antt =====
-- A control transfer of pipe.rs without a data stage.
use async_usb_host.Prelude.{ℕ, ◌≡◌, arith, true, false, none, some, List, [], ◌∷◌, leb, ltb}
use async_usb_host.Types.{tog1, DeviceHandle}
use async_usb_host.Request.{Request, data_direction, host_to_device}
use async_usb_host.Pipe.Bus.{Reply, answered, Call, set_addr, setup_call, data_in_call, returned}
use async_usb_host.Pipe.Control.{control_transfer}
use async_usb_host.Pipe.Receiving.{given, setup-direct}

-- A request without data, by its four fields.
abbrev pub command_request : (type_bits code value index : ℕ) → Request
command_request type_bits code value index = record {
  request_type = record { bits = type_bits };
  request = code;
  value = value;
  index = index;
  length = 0;
}

-- The calls of a request without data.
abbrev pub command_calls : DeviceHandle → Request → List Call → List Call
command_calls h req cs =
    data_in_call 0 tog1 true true 0 ∷ setup_call (some req) ∷ set_addr h.address ∷ cs

pub command :
    (h : DeviceHandle)
    → h.parent.transaction_translator ≡ none
    → (req : Request) (x y : List ℕ) (rs : List Reply) (cs : List Call)
    → data_direction req.request_type ≡ host_to_device
    → req.length ≡ 0
    → control_transfer h req [] (record { replies = answered x ∷ answered y ∷ rs; calls = cs })
      ≡ (returned [], record { replies = rs; calls = command_calls h req cs })
unfolding control_transfer
command h direct req x y rs cs out empty =
    let room : leb req.length 0 ≡ true = ground arith in
    let no_data : ltb 0 req.length ≡ false = ground arith in
    rw (
      room,
      setup-direct h direct req x (answered y ∷ rs) cs,
      no_data,
      out,
      given h direct tog1 0 0 y rs (setup_call (some req) ∷ set_addr h.address ∷ cs),
    )
