-- ===== src/Host/Resets.antt =====
-- When the host of lib.rs resets a port of a hub.
use async_usb_host.Prelude.{
  ℕ, ◌-◌, refl, Bool, true, false, Option, none, some, List, [], ◌∷◌, ◌++◌, length, leb, ltb, ◌==◌,
  if◌then◌else◌,
}
use async_usb_host.Errors.{
  Outcome, ok, err, panics, Result, done, failed, UsbHostError, hub_capacity,
}
use async_usb_host.Types.{control, DataTog, tog1, next_tog, DeviceHandle}
use async_usb_host.Types.Port.{DevInfo}
use async_usb_host.Request.{request_code}
use async_usb_host.Descriptor.{
  Descriptor, device, configuration, interface, endpoint, unknown_descriptor, DeviceDescriptor,
  DescriptorIterator, new_iterator, next, as_device, device_size,
}
use async_usb_host.ClassCode.{class_code, UsbBaseClass}
use async_usb_host.Address.{DeviceAddressManager, alloc_device_address, free_address}
use async_usb_host.Pipe.Bus.{
  Bus, Status, returned, raised, crashed, elapsed, waiting, starved, ◌>>=◌, return, again, leave,
  loop,
}
use async_usb_host.Pipe.Transfer.{setup, data_in_with_retry, data_out_with_retry}
use async_usb_host.Pipe.Control.{assert}
use async_usb_host.Pipe.Addressing.{
  set_address, tell_address, keep_address, given_back, given_address, with_descriptor,
  assign_device_address, first_request, descriptor_round, device_item, get_device_descriptor,
  attach_with, dev_attach,
}
use async_usb_host.Pipe.Requests.{Sound, Puts, then-Puts, branch-Puts, loop-Puts}
use async_usb_host.Pipe.Requests.Transfers.{assert-Puts, setup-Puts, retry_in-Puts, retry_out-Puts}
use async_usb_host.HubDriver.{Hub}
use async_usb_host.HubDriver.Setup.{new_hub}
use async_usb_host.HubDriver.Resets.{resets}
use async_usb_host.HubDriver.Quiet.{new_hub-Puts}
use async_usb_host.Host.{Event, wait_until_detach}
use async_usb_host.Host.Enumerate.{
  Enumerated, Found, try_push, after_detach, unless_detached, enumerate_device,
}

module _ (n : ℕ) where
  abbrev pub Quiet : Bus → Type 0
  Quiet b = Sound (resets n) b.calls

  device_item-Puts :
      (o : Outcome (Option (Result Descriptor) × DescriptorIterator))
      → Puts (resets n) (device_item o)
  unfolding as_device
  device_item-Puts panics b s = s
  device_item-Puts (err e) b s = s
  device_item-Puts (ok (none, it)) b s = s
  device_item-Puts (ok (some (failed e), it)) b s = s
  device_item-Puts (ok (some (done (device d)), it)) b s = s
  device_item-Puts (ok (some (done (configuration c)), it)) b s = s
  device_item-Puts (ok (some (done (interface i)), it)) b s = s
  device_item-Puts (ok (some (done (endpoint e)), it)) b s = s
  device_item-Puts (ok (some (done (unknown_descriptor t l bytes)), it)) b s = s

  module _ (d : DevInfo) where
    descriptor_round-Puts :
        (size : ℕ) (s : DataTog × List ℕ) → Puts (resets n) (descriptor_round d size s)
    descriptor_round-Puts size s =
        let room = size - length s.1 in
        let more = data_in_with_retry d 0 0 control s.0 room in
        branch-Puts (resets n) (ltb (length s.1) device_size)
          (more >>= λ m. return (again (next_tog s.0, s.1 ++ m))) (return (leave s.1))
          (then-Puts (resets n) more (λ m. return (again (next_tog s.0, s.1 ++ m)))
            (retry_in-Puts (resets n) d 0 0 control s.0 room) (λ m b o. o))
          (λ b o. o)

    descriptor-Puts : (size : ℕ) → Puts (resets n) (get_device_descriptor d size)
    unfolding get_device_descriptor first_request request_code
    descriptor-Puts size =
        then-Puts (resets n) (assert (leb 18 size)) _ (assert-Puts (resets n) (leb 18 size)) (λ t0.
          then-Puts (resets n) (setup d 0 first_request) _
            (setup-Puts (resets n) d 0 first_request refl)
            (λ t1.
              then-Puts (resets n) (data_in_with_retry d 0 0 control tog1 size) _
                (retry_in-Puts (resets n) d 0 0 control tog1 size)
                (λ first.
                  then-Puts (resets n) (loop (descriptor_round d size) (next_tog tog1, first)) _
                    (loop-Puts (resets n) (descriptor_round d size) (descriptor_round-Puts size)
                      (next_tog tog1, first))
                    (λ bytes.
                      then-Puts (resets n) (data_out_with_retry d 0 0 control tog1 []) _
                        (retry_out-Puts (resets n) d 0 0 control tog1 [])
                        (λ t2.
                          then-Puts (resets n) (assert (length bytes == device_size))
                            (λ t3. device_item (next (new_iterator bytes)))
                            (assert-Puts (resets n) (length bytes == device_size))
                            (λ t3. device_item-Puts (next (new_iterator bytes))))))))

    tell-Puts : (address : ℕ) → Puts (resets n) (tell_address d address)
    unfolding tell_address set_address request_code
    tell-Puts address =
        then-Puts (resets n) (setup d 0 (set_address address)) _
          (setup-Puts (resets n) d 0 (set_address address) refl)
          (λ t. retry_in-Puts (resets n) d 0 0 control tog1 0)

    module _ (m : DeviceAddressManager) where
      free_then :
          (e : UsbHostError) (b : Bus) (o : Outcome DeviceAddressManager)
          → Quiet b
          → Quiet (given_back m e b o).2
      free_then e b (ok m') q = q
      free_then e b (err x) q = q
      free_then e b panics q = q

      keep-Quiet :
          (h : DeviceHandle) (r : Status (List ℕ) × Bus) → Quiet r.1 → Quiet (keep_address m h r).2
      keep-Quiet h (returned bytes, b) q = q
      keep-Quiet h (raised e, b) q = free_then e b (free_address m h) q
      keep-Quiet h (crashed, b) q = q
      keep-Quiet h (elapsed, b) q = q
      keep-Quiet h (waiting, b) q = q
      keep-Quiet h (starved, b) q = q

    assigned-Quiet :
        (m : DeviceAddressManager) (b : Bus) (o : Outcome (DeviceAddressManager × DeviceHandle))
        → Quiet b
        → Quiet (given_address m d b o).2
    assigned-Quiet m b (ok given) q =
        keep-Quiet given.0 given.1 (tell_address d given.1.address b)
          (tell-Puts given.1.address b q)
    assigned-Quiet m b (err e) q = q
    assigned-Quiet m b panics q = q

    paired-Quiet :
        (desc : DeviceDescriptor) (r : Status DeviceHandle × DeviceAddressManager × Bus)
        → Quiet r.2
        → Quiet (with_descriptor desc r).2
    paired-Quiet desc (returned h, m, b) q = q
    paired-Quiet desc (raised e, m, b) q = q
    paired-Quiet desc (crashed, m, b) q = q
    paired-Quiet desc (elapsed, m, b) q = q
    paired-Quiet desc (waiting, m, b) q = q
    paired-Quiet desc (starved, m, b) q = q

    attach_with-Quiet :
        (m : DeviceAddressManager) (r : Status DeviceDescriptor × Bus)
        → Quiet r.1
        → Quiet (attach_with m d r).2
    unfolding assign_device_address
    attach_with-Quiet m (returned desc, b) q =
        paired-Quiet desc (assign_device_address m desc.max_packet_size d b)
          (assigned-Quiet m b (alloc_device_address m desc.max_packet_size d) q)
    attach_with-Quiet m (raised e, b) q = q
    attach_with-Quiet m (crashed, b) q = q
    attach_with-Quiet m (elapsed, b) q = q
    attach_with-Quiet m (waiting, b) q = q
    attach_with-Quiet m (starved, b) q = q

  branch-Quiet :
      (t : Bool) (x y : Enumerated Found) → Quiet x.3 → Quiet y.3 → Quiet (if t then x else y).3
  branch-Quiet true x y hx hy = hx
  branch-Quiet false x y hx hy = hy

  module _ (capacity : ℕ) (hubs : List Hub) where
    after_detach-Quiet :
        (m : DeviceAddressManager) (b : Bus) (o : Option (List Event))
        → Quiet b
        → Quiet (after_detach hubs m b o).3
    after_detach-Quiet m b none q = q
    after_detach-Quiet m b (some later) q = q

    push-Quiet :
        (m : DeviceAddressManager) (r : Status Hub × Bus)
        → Quiet r.1
        → Quiet (try_push capacity hubs m r).3
    push-Quiet m (returned hub, b) q =
        branch-Quiet (ltb (length hubs) capacity) (returned none, hubs ++ (hub ∷ []), m, b)
          (raised hub_capacity, hubs, m, b) q q
    push-Quiet m (raised e, b) q = q
    push-Quiet m (crashed, b) q = q
    push-Quiet m (elapsed, b) q = q
    push-Quiet m (waiting, b) q = q
    push-Quiet m (starved, b) q = q

    unless_detached-Quiet :
        (events : List Event)
        (r : Status (DeviceDescriptor × DeviceHandle) × DeviceAddressManager × Bus)
        → Quiet r.2
        → Quiet (unless_detached capacity hubs events r).3
    unless_detached-Quiet events (returned (desc, handle), m, b) q =
        branch-Quiet (desc.device_class == class_code UsbBaseClass.hub)
          (try_push capacity hubs m (new_hub handle b)) (returned (some (desc, handle)), hubs, m, b)
          (push-Quiet m (new_hub handle b) (new_hub-Puts n handle b q)) q
    unless_detached-Quiet events (raised e, m, b) q = q
    unless_detached-Quiet events (crashed, m, b) q = q
    unless_detached-Quiet events (elapsed, m, b) q = q
    unless_detached-Quiet events (waiting, m, b) q =
        after_detach-Quiet m b (wait_until_detach events) q
    unless_detached-Quiet events (starved, m, b) q = q

    -- An enumeration resets no port.
    pub enumerate_device-Quiet :
        (m : DeviceAddressManager) (d : DevInfo) (events : List Event) (b : Bus)
        → Quiet b
        → Quiet (enumerate_device capacity m hubs d events b).3
    unfolding enumerate_device dev_attach
    enumerate_device-Quiet m d events b q =
        unless_detached-Quiet events (dev_attach m d b)
          (attach_with-Quiet d m (get_device_descriptor d 18 b) (descriptor-Puts d 18 b q))
