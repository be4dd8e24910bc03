-- ===== src/Types/Tests.antt =====
-- The theorems on types.rs at a hub's port.
use async_usb_host.Prelude.{arith, some}
use async_usb_host.Types.Port.{new_device, low_speed}
use async_usb_host.Types.Laws.{HangsOn, new_device-HangsOn}

new_device-HangsOn_example : HangsOn 5 (new_device 5 2 (some (5, 2)) low_speed)
new_device-HangsOn_example =
    new_device-HangsOn 5 2 (some (5, 2)) low_speed (omega arith) (omega arith)
