-- ===== src/Host/Tests.antt =====
-- The theorems on lib.rs at a host with four addresses and two hubs.
use async_usb_host.Prelude.{
  ◌≡◌, ◌≢◌, refl, ap, arith, ◌==◌, Bool, true, false, not, none, some, List, [], ◌∷◌,
}
use mathlib.Core.Bool.{false≢true}
use async_usb_host.External.BitArray.{table}
use async_usb_host.External.ArrayVec.{array_lists}
use async_usb_host.Types.Port.{low_speed}
use async_usb_host.Pipe.Bus.{answered}
use async_usb_host.Pipe.Requests.{count_requests}
use async_usb_host.HubDriver.{Hub}
use async_usb_host.HubDriver.Resets.{is_port_reset}
use async_usb_host.HubDriver.Tests.{root_hub}
use async_usb_host.Address.{new_manager}
use async_usb_host.Host.{
  HostState, disconnected, suspended, device_attached, enumerate_root, device_attach, suspend, Host,
  Moment, new_host, poll_bus, reset, wait_millis,
}
use async_usb_host.Host.Removal.{Removed, remove-Removed}
use async_usb_host.Host.HubLists.{address_of}
use async_usb_host.Host.Exclusion.{round-NoResets}
use async_usb_host.Host.Reach.{HostInv, Reaches, Reaches-Inv}
use async_usb_host.Host.Run.{run_disconnected, round}

-- A hub behind the first one, at the address 2.
abbrev second_hub : Hub
second_hub = record root_hub { handle = record root_hub.handle { address = 2 } }

apart : address_of second_hub ≢ address_of root_hub
apart e = absurd (omega (arith, e))

-- The mask of the address 1.
unfoldable gone : table.Bits
unfolding table
gone = λ i. i == 1

remove-Removed_example : Removed table array_lists (root_hub ∷ second_hub ∷ []) gone
remove-Removed_example =
    remove-Removed table array_lists (root_hub ∷ second_hub ∷ []) gone ((apart, tt), (tt, tt))
      (omega arith, (omega arith, tt))

-- A bus that tells of a device, and then of a suspension.
abbrev plugged : Moment
plugged = record { replies = []; events = device_attach ∷ suspend ∷ []; speed = some low_speed }

abbrev waking : Host
waking = record {
  manager = new_manager 4;
  state = enumerate_root;
  pipe_calls = [];
  bus_calls = wait_millis 500 ∷ reset ∷ [];
}

Reaches-Inv_example : HostInv table array_lists (λ xs. xs) 4 4 (omega arith) waking
unfolding new_host round run_disconnected poll_bus
Reaches-Inv_example =
    Reaches-Inv table array_lists (λ xs. xs) 4 4 (omega arith)
      (Reaches.later Reaches.start plugged none refl)

abbrev busy_host : Host
busy_host = record waking { state = device_attached (root_hub ∷ []) true }

-- The hub tells of a change of its port 2, to which a device was connected.
abbrev connecting : Moment
connecting = record plugged {
  replies = answered (4 ∷ []) ∷ answered [] ∷ answered (1 ∷ 1 ∷ 1 ∷ 0 ∷ []) ∷ answered [] ∷ [];
}

abbrev is_free : HostState → Bool
is_free (device_attached hubs flag) = not flag
is_free disconnected = true
is_free enumerate_root = true
is_free suspended = true

is_busy : (hubs : List Hub) → busy_host.state ≢ device_attached hubs false
is_busy hubs e = false≢true (ap is_free e)

round-NoResets_example :
    count_requests is_port_reset
      (round table array_lists (λ xs. 2 ∷ []) 4 busy_host connecting).1.pipe_calls
    ≡ 0
round-NoResets_example =
    round-NoResets table array_lists (λ xs. 2 ∷ []) 4 busy_host connecting is_busy
