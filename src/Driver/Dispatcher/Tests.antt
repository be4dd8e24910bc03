-- ===== src/Driver/Dispatcher/Tests.antt =====
-- The dispatcher of driver/mod.rs at drivers that are done after some polls.
use async_usb_host.Prelude.{ℕ, zero, suc, [], ◌∷◌}
use async_usb_host.Errors.{unexpected_device, Result, done, failed}
use async_usb_host.Futures.{Poll, ready, pending}
use async_usb_host.Driver.Dispatcher.{new_dev, woken}
use async_usb_host.Driver.Dispatcher.Serving.{Serves, run_inner-Serves}

-- The future of a driver, and the number of polls so far.
abbrev counting : ℕ → ℕ → Poll (Result ℕ) × ℕ × ℕ
counting zero w = (ready (done w), zero, suc w)
counting (suc n) w = (pending, n, suc w)

-- A device is the number of the polls of its driver; that of the number 0 has no driver.
abbrev attaching : ℕ → ℕ → Result ℕ × ℕ
attaching zero w = (failed unexpected_device, w)
attaching (suc n) w = (done n, w)

run_inner-Serves_example :
    Serves counting attaching 2
      (new_dev 1 ∷ woken ∷ new_dev 0 ∷ new_dev 3 ∷ new_dev 2 ∷ new_dev 5 ∷ woken ∷ [])
      0
run_inner-Serves_example =
    run_inner-Serves counting attaching 2
      (new_dev 1 ∷ woken ∷ new_dev 0 ∷ new_dev 3 ∷ new_dev 2 ∷ new_dev 5 ∷ woken ∷ []) 0
