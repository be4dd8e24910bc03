-- ===== src/Types.antt =====
-- types.rs: the small types of the USB protocol. A byte is a number below 256.
pub mod Port
pub mod Laws
mod Tests
use async_usb_host.Prelude.{ℕ, ◌/◌, ◌^◌, bit_and, Bool, true, false, ◌&&◌, Option, none, some}
use async_usb_host.Prelude.{List, [], ◌∷◌, ltb, ◌==◌, if◌then◌else◌, ◌+◌, ◌*◌}
use Port.{DevInfo}

-- A 16-bit number read as four decimal digits.
pub record Bcd16 : Type 0 where
  pub bits : ℕ

pub to_digits : Bcd16 → List ℕ
to_digits b =
    bit_and (b.bits / 2 ^ 12) 0xF
    ∷ bit_and (b.bits / 2 ^ 8) 0xF
    ∷ bit_and (b.bits / 2 ^ 4) 0xF
    ∷ bit_and b.bits 0xF
    ∷ []

pub is_valid : ℕ → Bool
is_valid value =
    ltb (bit_and (value / 2 ^ 12) 0xF) 10
    && (ltb (bit_and (value / 2 ^ 8) 0xF) 10
        && (ltb (bit_and (value / 2 ^ 4) 0xF) 10 && ltb (bit_and value 0xF) 10))

-- `u16::from_le_bytes`.
abbrev pub u16_from_le_bytes : ℕ → ℕ → ℕ
u16_from_le_bytes lo hi = lo + 256 * hi

unfoldable pub from_le_bytes : ℕ → ℕ → Bcd16
from_le_bytes lo hi = record { bits = u16_from_le_bytes lo hi }

pub data Pid : Type 0 where
  out_token in_token sof setup_token : Pid
  data0 data1 data2 mdata : Pid
  ack nak stall nyet : Pid
  split ping reserved : Pid

-- The discriminants: `pid as u8`.
unfoldable pub pid_code : Pid → ℕ
pid_code out_token = 0b0001
pid_code in_token = 0b1001
pid_code sof = 0b0101
pid_code setup_token = 0b1101
pid_code data0 = 0b0011
pid_code data1 = 0b1011
pid_code data2 = 0b0111
pid_code mdata = 0b1111
pid_code ack = 0b0010
pid_code nak = 0b1010
pid_code stall = 0b1110
pid_code nyet = 0b0110
pid_code split = 0b1000
pid_code ping = 0b0100
pid_code reserved = 0b0000

unfoldable pub pid_try_from : ℕ → Option Pid
pid_try_from v =
    if v == 0b0001
    then some out_token
    else if v == 0b1001
    then some in_token
    else if v == 0b0101
    then some sof
    else if v == 0b1101
    then some setup_token
    else if v == 0b0011
    then some data0
    else if v == 0b1011
    then some data1
    else if v == 0b0111
    then some data2
    else if v == 0b1111
    then some mdata
    else if v == 0b0010
    then some ack
    else if v == 0b1010
    then some nak
    else if v == 0b1110
    then some stall
    else if v == 0b0110
    then some nyet
    else if v == 0b1000
    then some split
    else if v == 0b0100
    then some ping
    else if v == 0b0000
    then some reserved
    else none

pub data EndpointDirection : Type 0 where
  in_endpoint out_endpoint : EndpointDirection

pub record EndpointAddress : Type 0 where
  pub number : ℕ
  pub direction : EndpointDirection

-- `EndpointAddress::from`, of the `b_endpoint_address` byte of an endpoint descriptor.
unfoldable pub endpoint_address_from : ℕ → EndpointAddress
endpoint_address_from b_endpoint_address = record {
  number = bit_and b_endpoint_address 0xF;
  direction = if bit_and b_endpoint_address 0x80 == 0 then out_endpoint else in_endpoint;
}

pub data DataTog : Type 0 where
  tog0 tog1 : DataTog

-- `DataTog::next`.
unfoldable pub next_tog : DataTog → DataTog
next_tog tog0 = tog1
next_tog tog1 = tog0

pub data EndpointType : Type 0 where
  control isochronous bulk interrupt : EndpointType

pub record DeviceHandle : Type 0 where
  pub address : ℕ
  pub max_packet_size : ℕ
  pub parent : DevInfo

pub record InterruptChannel : Type 0 where
  pub device_handle : DeviceHandle
  pub endpoint_address : EndpointAddress
  pub tog : DataTog

-- `InterruptChannel::new`.
pub new_channel : DeviceHandle → EndpointAddress → InterruptChannel
new_channel device endpoint = record {
  device_handle = device;
  endpoint_address = endpoint;
  tog = tog0;
}
