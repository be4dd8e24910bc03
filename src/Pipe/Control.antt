-- ===== src/Pipe/Control.antt =====
-- `USBHostPipe` of pipe.rs: control and interrupt transfers, and the assignment of addresses. Its
-- mutex holds the bus and the address manager, so that the calls are one after the other.
use async_usb_host.Prelude.{ℕ, ◌-◌, min, Bool, true, false, List, [], ◌++◌, length, take, drop}
use async_usb_host.Prelude.{ltb, leb, ◌==◌, if◌then◌else◌}
use async_usb_host.Types.{
  control, interrupt, DataTog, tog1, next_tog, in_endpoint, out_endpoint, EndpointDirection,
  DeviceHandle, InterruptChannel,
}
use async_usb_host.Request.{
  Request, RequestTypeDirection, host_to_device, device_to_host, data_direction,
}
use async_usb_host.Pipe.Bus.{
  Bus, Status, returned, raised, crashed, elapsed, waiting, starved, Async, ◌>>=◌, ◌>>◌, return,
  crash, tell, set_addr, Turn, again, leave, loop,
}
use async_usb_host.Pipe.Transfer.{setup, data_in, data_out, data_in_with_retry, data_out_with_retry}

abbrev pub assert : Bool → Async (Unit {0})
assert true = return tt
assert false = crash

-- The rounds of the data stage out: the toggle and the rest of the buffer.
abbrev pub send_some :
    DeviceHandle → DataTog → List ℕ → ℕ → Async (Turn (DataTog × List ℕ) (List ℕ))
send_some handle tog rest transfer_len =
    data_out_with_retry handle.parent handle.address 0 control tog (take transfer_len rest)
    >> return (again (next_tog tog, drop transfer_len rest))

abbrev pub send_round : DeviceHandle → DataTog × List ℕ → Async (Turn (DataTog × List ℕ) (List ℕ))
send_round handle (tog, rest) =
    if length rest == 0
    then return (leave [])
    else send_some handle tog rest (min (length rest) handle.max_packet_size)

unfoldable pub send_data : DeviceHandle → DataTog → List ℕ → Async (List ℕ)
send_data handle tog buffer = loop (send_round handle) (tog, buffer)

-- The rounds of the data stage in: the toggle and the bytes received, for a buffer of a size. A slice
-- of the buffer from beyond its end panics.
abbrev pub received_some :
    DeviceHandle → DataTog → List ℕ → List ℕ → Turn (DataTog × List ℕ) (List ℕ)
received_some handle tog bytes more =
    if ltb (length more) handle.max_packet_size
    then leave (bytes ++ more)
    else again (next_tog tog, bytes ++ more)

abbrev pub receive_round :
    DeviceHandle → (size : ℕ) → DataTog × List ℕ → Async (Turn (DataTog × List ℕ) (List ℕ))
receive_round handle size (tog, bytes) =
    assert (leb (length bytes) size)
    >> (data_in_with_retry handle.parent handle.address 0 control tog (size - length bytes)
        >>= λ more. return (received_some handle tog bytes more))

unfoldable pub receive_data : DeviceHandle → (size : ℕ) → DataTog → List ℕ → Async (List ℕ)
receive_data handle size tog received = loop (receive_round handle size) (tog, received)

abbrev pub data_stage : DeviceHandle → RequestTypeDirection → List ℕ → Async (List ℕ)
data_stage handle host_to_device buffer = send_data handle tog1 buffer
data_stage handle device_to_host buffer = receive_data handle (length buffer) tog1 []

abbrev pub status_stage : DeviceHandle → RequestTypeDirection → Async (List ℕ)
status_stage handle host_to_device =
    data_in_with_retry handle.parent handle.address 0 control tog1 0
status_stage handle device_to_host =
    data_out_with_retry handle.parent handle.address 0 control tog1 []

-- The bytes received, which stand at the start of the buffer; their number is the code's result.
unfoldable pub control_transfer : DeviceHandle → Request → (buffer : List ℕ) → Async (List ℕ)
control_transfer handle request buffer = do
  assert (leb request.length (length buffer))
  setup handle.parent handle.address request
  received ←
      if ltb 0 request.length
      then data_stage handle (data_direction request.request_type) buffer
      else return []
  status_stage handle (data_direction request.request_type)
  return received

-- The transfer of an interrupt channel, without its toggle.
abbrev pub channel_transfer : InterruptChannel → EndpointDirection → List ℕ → Async (List ℕ)
channel_transfer c in_endpoint buf =
    data_in c.device_handle.parent c.device_handle.address c.endpoint_address.number interrupt c.tog
      (length buf)
channel_transfer c out_endpoint buf =
    data_out c.device_handle.parent c.device_handle.address c.endpoint_address.number interrupt
      c.tog buf
    >> return []

-- The toggle goes on after a transfer without an error.
abbrev pub toggled :
    InterruptChannel → Status (List ℕ) × Bus → Status (List ℕ) × InterruptChannel × Bus
toggled c (returned bytes, b) = (returned bytes, record c { tog = next_tog c.tog }, b)
toggled c (raised e, b) = (raised e, c, b)
toggled c (crashed, b) = (crashed, c, b)
toggled c (elapsed, b) = (elapsed, c, b)
toggled c (waiting, b) = (waiting, c, b)
toggled c (starved, b) = (starved, c, b)

unfoldable pub interrupt_transfer :
    InterruptChannel → (buf : List ℕ) → Bus → Status (List ℕ) × InterruptChannel × Bus
interrupt_transfer c buf b = toggled c (
    (tell (set_addr c.device_handle.address) >> channel_transfer c c.endpoint_address.direction buf)
      b)
