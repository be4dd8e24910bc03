-- ===== src/Driver/Dispatcher.antt =====
-- `USBDeviceDispatcher` of driver/mod.rs, which runs the drivers of the devices in a poller. The
-- driver is outside: `attach` is what its `try_attach` comes to, with the future of its `run`, and
-- `poll` is a poll of that future.
pub mod Serving
mod Tests
use async_usb_host.Prelude.{ℕ, List, [], ◌∷◌, if◌then◌else◌}
use async_usb_host.Errors.{Outcome, ok, Result, done, failed, ◌>>=◌}
use async_usb_host.Futures.{Poll}
use async_usb_host.Futures.Poller.{StaticUnpinPoller, new_poller, is_empty, insert, poll_next}

-- What wakes the loop up: a device in the channel, which is looked at first, or a future's waker.
pub data Wake (Device : Type 0) : Type 0 where
  new_dev : Device → Wake Device
  woken : Wake Device

module _ {Device F Out W : Type 0} (poll : F → W → Poll Out × F × W)
    (attach : Device → W → Result F × W) where
  -- A driver that attached is run in a free slot; its future is dropped if there is none.
  abbrev pub run_driver : StaticUnpinPoller F → Result F × W → Outcome (StaticUnpinPoller F × W)
  run_driver p (done future, w) = insert p future >>= λ r. ok (r.1, w)
  run_driver p (failed e, w) = ok (p, w)

  -- A round of the loop of `run_inner`.
  unfoldable pub dispatch :
      Wake Device → StaticUnpinPoller F → W → Outcome (StaticUnpinPoller F × W)
  dispatch (new_dev d) p w = run_driver p (attach d w)
  dispatch woken p w = if is_empty p then ok (p, w) else (poll_next poll p w >>= λ r. ok (r.1, r.2))

  unfoldable pub dispatch_all :
      List (Wake Device) → StaticUnpinPoller F → W → Outcome (StaticUnpinPoller F × W)
  dispatch_all [] p w = ok (p, w)
  dispatch_all (e ∷ es) p w = dispatch e p w >>= λ r. dispatch_all es r.0 r.1

  -- `run_inner` for `NR_DEVICES` devices.
  unfoldable pub run_inner :
      (nr_devices : ℕ) → List (Wake Device) → W → Outcome (StaticUnpinPoller F × W)
  run_inner nr_devices es w = dispatch_all es (new_poller nr_devices) w
