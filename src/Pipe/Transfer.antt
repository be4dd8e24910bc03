-- ===== src/Pipe/Transfer.antt =====
-- `setup`, `data_in`, `data_out` and their retries in pipe.rs. A transfer in returns the bytes that it
-- received, whose number is the code's result.
use async_usb_host.Prelude.{ℕ, true, none, some, List}
use async_usb_host.Types.{EndpointType, DataTog}
use async_usb_host.Types.Port.{DevInfo}
use async_usb_host.Request.{Request}
use async_usb_host.Pipe.Bus.{
  set_addr, setup_call, data_in_call, data_out_call, Async, ◌>>=◌, ◌>>◌, attempt, select_timeout,
  tell, ask, loop, unless_nak,
}
use async_usb_host.Pipe.Split.{Route, split_setup, split_data_in, split_data_out}

abbrev pub route : ℕ × ℕ → ℕ → DevInfo → Route
route (tt_addr, tt_port) address dev_info = record {
  tt_addr = tt_addr;
  tt_port = tt_port;
  address = address;
  speed = dev_info.speed;
}

unfoldable pub setup : DevInfo → (address : ℕ) → Request → Async (List ℕ)
setup dev_info address req = elim dev_info.transaction_translator [
  | some tt ↦ split_setup (route tt address dev_info) req
  | none ↦ tell (set_addr address) >> select_timeout (ask (setup_call (some req)))
]

unfoldable pub data_in :
    DevInfo → (address endpoint : ℕ) → EndpointType → DataTog → (room : ℕ) → Async (List ℕ)
data_in dev_info address endpoint ep_type tog room = elim dev_info.transaction_translator [
  | some tt ↦ select_timeout (split_data_in (route tt address dev_info) endpoint ep_type tog room)
  | none ↦ select_timeout (ask (data_in_call endpoint tog true true room))
]

unfoldable pub data_out :
    DevInfo → (address endpoint : ℕ) → EndpointType → DataTog → (buf : List ℕ) → Async (List ℕ)
data_out dev_info address endpoint ep_type tog buf = elim dev_info.transaction_translator [
  | some tt ↦ select_timeout (split_data_out (route tt address dev_info) endpoint ep_type tog buf)
  | none ↦ select_timeout (ask (data_out_call endpoint tog true (some buf)))
]

unfoldable pub data_in_with_retry :
    DevInfo → (address endpoint : ℕ) → EndpointType → DataTog → (room : ℕ) → Async (List ℕ)
data_in_with_retry dev_info address endpoint ep_type tog room =
    loop (λ t. attempt (data_in dev_info address endpoint ep_type tog room) >>= unless_nak) tt

unfoldable pub data_out_with_retry :
    DevInfo → (address endpoint : ℕ) → EndpointType → DataTog → (buf : List ℕ) → Async (List ℕ)
data_out_with_retry dev_info address endpoint ep_type tog buf =
    loop (λ t. attempt (data_out dev_info address endpoint ep_type tog buf) >>= unless_nak) tt
