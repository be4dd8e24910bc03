-- ===== src/ClassCode.antt =====
-- consts.rs: the base classes of USB devices and interfaces, with their codes.
use async_usb_host.Prelude.{
  ℕ, ◌≡◌, refl, sym, ap, Option, none, some, ◌==◌, if◌then◌else◌, arith, ◌↔◌, ◌∙◌,
}

pub data UsbBaseClass : Type 0 where
  unspecified audio cdc_control hid physical still_imaging : UsbBaseClass
  printer mass_storage hub cdc_data smart_card content_security : UsbBaseClass
  video personal_healthcare audio_video billboard type_c_bridge bulk_display : UsbBaseClass
  mctp i3c diagnostic wireless_controller miscellaneous application_specific : UsbBaseClass
  vendor_specific : UsbBaseClass

-- `u8::from`: the discriminants.
unfoldable pub class_code : UsbBaseClass → ℕ
class_code unspecified = 0x00
class_code audio = 0x01
class_code cdc_control = 0x02
class_code hid = 0x03
class_code physical = 0x05
class_code still_imaging = 0x06
class_code printer = 0x07
class_code mass_storage = 0x08
class_code hub = 0x09
class_code cdc_data = 0x0A
class_code smart_card = 0x0B
class_code content_security = 0x0D
class_code video = 0x0E
class_code personal_healthcare = 0x0F
class_code audio_video = 0x10
class_code billboard = 0x11
class_code type_c_bridge = 0x12
class_code bulk_display = 0x13
class_code mctp = 0x14
class_code i3c = 0x3C
class_code diagnostic = 0xDC
class_code wireless_controller = 0xE0
class_code miscellaneous = 0xEF
class_code application_specific = 0xFE
class_code vendor_specific = 0xFF

-- `UsbBaseClass::try_from`.
unfoldable pub class_try_from : ℕ → Option UsbBaseClass
class_try_from code =
    if code == 0x00
    then some unspecified
    else if code == 0x01
    then some audio
    else if code == 0x02
    then some cdc_control
    else if code == 0x03
    then some hid
    else if code == 0x05
    then some physical
    else if code == 0x06
    then some still_imaging
    else if code == 0x07
    then some printer
    else if code == 0x08
    then some mass_storage
    else if code == 0x09
    then some hub
    else if code == 0x0A
    then some cdc_data
    else if code == 0x0B
    then some smart_card
    else if code == 0x0D
    then some content_security
    else if code == 0x0E
    then some video
    else if code == 0x0F
    then some personal_healthcare
    else if code == 0x10
    then some audio_video
    else if code == 0x11
    then some billboard
    else if code == 0x12
    then some type_c_bridge
    else if code == 0x13
    then some bulk_display
    else if code == 0x14
    then some mctp
    else if code == 0x3C
    then some i3c
    else if code == 0xDC
    then some diagnostic
    else if code == 0xE0
    then some wireless_controller
    else if code == 0xEF
    then some miscellaneous
    else if code == 0xFE
    then some application_specific
    else if code == 0xFF
    then some vendor_specific
    else none

-- Every class is read back from its code.
class_try_from-code : (c : UsbBaseClass) → class_try_from (class_code c) ≡ some c
unfolding class_try_from class_code
class_try_from-code unspecified = refl
class_try_from-code audio = refl
class_try_from-code cdc_control = refl
class_try_from-code hid = refl
class_try_from-code physical = refl
class_try_from-code still_imaging = refl
class_try_from-code printer = refl
class_try_from-code mass_storage = refl
class_try_from-code hub = refl
class_try_from-code cdc_data = refl
class_try_from-code smart_card = refl
class_try_from-code content_security = refl
class_try_from-code video = refl
class_try_from-code personal_healthcare = refl
class_try_from-code audio_video = refl
class_try_from-code billboard = refl
class_try_from-code type_c_bridge = refl
class_try_from-code bulk_display = refl
class_try_from-code mctp = refl
class_try_from-code i3c = refl
class_try_from-code diagnostic = refl
class_try_from-code wireless_controller = refl
class_try_from-code miscellaneous = refl
class_try_from-code application_specific = refl
class_try_from-code vendor_specific = refl

class_of_some : (code : ℕ) (c : UsbBaseClass) → class_try_from code ≡ some c → class_code c ≡ code
unfolding class_try_from class_code
class_of_some code c e = ground arith

-- A number is read as a class exactly when it is the code of that class.
pub class_try_from_iff :
    (code : ℕ) (c : UsbBaseClass) → (class_try_from code ≡ some c) ↔ (class_code c ≡ code)
class_try_from_iff code c =
    (class_of_some code c, λ e. ap class_try_from (sym e) ∙ class_try_from-code c)
