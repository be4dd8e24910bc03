-- ===== src/Pipe/Assigning.antt =====
-- What `assign_device_address` of pipe.rs does to the table of addresses.
use async_usb_host.Prelude.{ℕ, suc, ◌+◌, ◌≤◌, ◌≡◌, refl, inl, inr, false, List, length}
use async_usb_host.Errors.{UsbHostError}
use async_usb_host.Types.{DeviceHandle, control, tog1}
use async_usb_host.Types.Port.{DevInfo, is_empty}
use async_usb_host.Address.{DeviceAddressManager, alloc_device_address}
use async_usb_host.Address.Tree.{IsTree}
use async_usb_host.Address.Alloc.{Allocates, AllOccupied, alloc-Allocates, free_address-alloc}
use async_usb_host.Pipe.Bus.{
  Bus, Status, returned, raised, crashed, elapsed, waiting, starved, ◌>>◌,
}
use async_usb_host.Request.{
  request_code, set_data_direction, set_recipient, direction_code, recipient_code,
}
use async_usb_host.Pipe.Transfer.{setup, data_in_with_retry}
use async_usb_host.Pipe.Commands.{command_request}
use async_usb_host.Pipe.Loops.{Under, Keeps, Spends-Keeps}
use async_usb_host.Pipe.Ends.{then-Keeps}
use async_usb_host.Pipe.Completes.{setup-Spends, data_in_with_retry-Spends}
use async_usb_host.Pipe.Addressing.{set_address, tell_address, keep_address, assign_device_address}

tell_address-Keeps : (d : DevInfo) (address : ℕ) → Keeps (tell_address d address)
unfolding tell_address
tell_address-Keeps d address =
    then-Keeps _ _ (Spends-Keeps _ (setup-Spends d 0 (set_address address)))
      (λ t. Spends-Keeps _ (data_in_with_retry-Spends d 0 0 control tog1 0))

module _ (m : DeviceAddressManager) (max_packet_size : ℕ) (devinfo : DevInfo) (b : Bus) where
  -- The device is told an address: a SET_ADDRESS request in a setup to the address 0, and the status
  -- stage, an empty packet in that is asked for again after every NAK.
  abbrev pub told : (address : ℕ) → Status (List ℕ) × Bus
  told address =
      (setup devinfo 0 (command_request 0 5 address 0)
          >> data_in_with_retry devinfo 0 0 control tog1 0)
        b

  -- The same end without a result: a panic, the timer of a transfer, or a wait for a reply.
  pub data StopsAlike : Status (List ℕ) → Status DeviceHandle → Type 0 where
    both_crashed : StopsAlike crashed crashed
    both_elapsed : StopsAlike elapsed elapsed
    both_waiting : StopsAlike waiting waiting

  -- What an assignment comes to. The device has taken its address and the table holds it; there was
  -- an error and the table is as it was; the table is full, which panics; or the exchange with the
  -- device came to no result, and the table holds the address.
  pub data Assigned (run : Status DeviceHandle × DeviceAddressManager × Bus) : Type 0 where
    given :
        (a : Allocates m max_packet_size devinfo (alloc_device_address m max_packet_size devinfo))
        → (bytes : List ℕ) (b' : Bus) → told (a.at + 1) ≡ (returned bytes, b')
        → run ≡ (returned a.handle, a.out, b')
        → Assigned run
    given_back :
        (a : Allocates m max_packet_size devinfo (alloc_device_address m max_packet_size devinfo))
        → (e : UsbHostError) (b' : Bus) → told (a.at + 1) ≡ (raised e, b')
        → run ≡ (raised e, m, b')
        → Assigned run
    no_address : AllOccupied m.info (length m.info) → run ≡ (crashed, m, b) → Assigned run
    unfinished :
        (a : Allocates m max_packet_size devinfo (alloc_device_address m max_packet_size devinfo))
        → (end : Status (List ℕ)) (status : Status DeviceHandle) (b' : Bus)
        → told (a.at + 1) ≡ (end, b')
        → StopsAlike end status
        → run ≡ (status, a.out, b')
        → Assigned run

  module _ (tree : IsTree m.info) (port : is_empty devinfo.port ≡ false) where
    Assigned-by :
        (a : Allocates m max_packet_size devinfo (alloc_device_address m max_packet_size devinfo))
        (n : ℕ) (r : Status (List ℕ) × Bus)
        → told (a.at + 1) ≡ r
        → Under n r
        → Assigned (keep_address a.out a.handle r)
    Assigned-by a n (returned bytes, b') e h = given a bytes b' e refl
    Assigned-by a n (raised x, b') e h =
        given_back a x b' e
          (rw (free_address-alloc m max_packet_size devinfo tree a port, keep_address))
    Assigned-by a n (crashed, b') e h = unfinished a crashed crashed b' e both_crashed refl
    Assigned-by a n (elapsed, b') e h = unfinished a elapsed elapsed b' e both_elapsed refl
    Assigned-by a n (waiting, b') e h = unfinished a waiting waiting b' e both_waiting refl
    Assigned-by a n (starved, b') e h = absurd h

    told_lem :
        (a : Allocates m max_packet_size devinfo (alloc_device_address m max_packet_size devinfo))
        → told (a.at + 1) ≡ tell_address devinfo a.handle.address b
    unfolding tell_address set_address request_code set_data_direction set_recipient direction_code
        recipient_code
    told_lem a = rw a.address refl

    -- On a table of at most 127 slots that is a tree, an assignment for a valid port panics with the
    -- table as it is when every slot is occupied. Else it tells the device the first free address
    -- with a SET_ADDRESS request: when the device takes it, the assignment returns its handle and the
    -- table holds it; after an error it raises that error and the table is as it was; after a panic,
    -- the timer of a transfer or a wait, it comes to the same, and the table holds the address.
    pub assign-Assigned :
        length m.info ≤ 127 → Assigned (assign_device_address m max_packet_size devinfo b)
    unfolding assign_device_address
    assign-Assigned small = elim (alloc-Allocates m max_packet_size devinfo small port) [
      | inl a ↦
          rw (a.returns, assign_device_address)
            (Assigned-by a (suc (length b.replies)) (tell_address devinfo a.handle.address b)
              (told_lem a) (tell_address-Keeps devinfo a.handle.address b))
      | inr full ↦ no_address full.0 (rw (full.1, assign_device_address))
    ]
