-- ===== src/Driver/Dfu/Download.antt =====
-- The loop of `UsbDfu::run` in driver/dfu.rs: which blocks a device gets, and under which numbers.
use async_usb_host.Prelude.{ℕ, suc, ◌%◌, ◌^◌, ◌≤◌, ◌≡◌, true, none, some, List, [], ◌∷◌, length}
use async_usb_host.Errors.{UsbHostError}
use async_usb_host.Types.{DeviceHandle, tog1}
use async_usb_host.Request.{Request}
use async_usb_host.Pipe.Bus.{
  Reply, answered, refused, Call, set_addr, setup_call, data_in_call, rounds, attempt, ◌>>=◌,
  return, Async,
}
use async_usb_host.Pipe.Control.{control_transfer}
use async_usb_host.Pipe.Retry.{naks, repeated}
use async_usb_host.Pipe.Sending.{Packets, payload, answers, Cuts, sent}
use async_usb_host.Driver.Dfu.{DfuOperation, block, dfu_download, after_try}

-- What a device does with a block: it refuses some tries and takes the next one, packet by packet,
-- or it refuses all three.
pub data Answer : Type 0 where
  takes : (refusals : List UsbHostError) → Packets → (n : ℕ) → (x y : List ℕ) → Answer
  loses : (e1 e2 e3 : UsbHostError) → (bytes : List ℕ) → Answer

abbrev pub bytes_of : Answer → List ℕ
bytes_of (takes es ps n x y) = payload ps
bytes_of (loses e1 e2 e3 bytes) = bytes

-- The block of eight bytes, at most two refusals before it is taken, and packets of the right size.
abbrev pub Fits : (packet_size : ℕ) → Answer → Type 0
Fits packet_size (takes es ps n x y) =
    (length es ≤ 2) × (length (payload ps) ≡ 8) × Cuts packet_size ps
Fits packet_size (loses e1 e2 e3 bytes) = length bytes ≡ 8

abbrev pub AllFit : (packet_size : ℕ) → List Answer → Type 0
AllFit packet_size [] = Unit {0}
AllFit packet_size (a ∷ rest) = Fits packet_size a × AllFit packet_size rest

abbrev pub refusing : List UsbHostError → List Reply → List Reply
refusing [] rs = rs
refusing (e ∷ es) rs = refused e ∷ refusing es rs

abbrev pub replies_to : List Answer → List Reply → List Reply
replies_to [] rs = rs
replies_to (takes es ps n x y ∷ rest) rs =
    refusing es (answered x ∷ answers ps (naks n (answered y ∷ replies_to rest rs)))
replies_to (loses e1 e2 e3 bytes ∷ rest) rs =
    refused e1 ∷ refused e2 ∷ refused e3 ∷ replies_to rest rs

abbrev pub blocks : List Answer → List DfuOperation → List DfuOperation
blocks [] ops = ops
blocks (a ∷ rest) ops = block (bytes_of a) ∷ blocks rest ops

-- The number of blocks that were taken.
abbrev pub count_taken : List Answer → ℕ
count_taken [] = 0
count_taken (takes es ps n x y ∷ rest) = suc (count_taken rest)
count_taken (loses e1 e2 e3 bytes ∷ rest) = count_taken rest

module _ (h : DeviceHandle) (dnload : ℕ) where
  -- The request of the class to the interface that announces eight bytes under a number.
  abbrev pub numbered : ℕ → Request
  numbered k = record {
    request_type = record { bits = 0x21 };
    request = dnload;
    value = k;
    index = 0;
    length = 8;
  }

  -- The calls of a try that is refused, and of one that is taken, under a number.
  abbrev pub announced : ℕ → List Call → List Call
  announced k cs = setup_call (some (numbered k)) ∷ set_addr h.address ∷ cs

  abbrev pub announced_all : ℕ → List UsbHostError → List Call → List Call
  announced_all k [] cs = cs
  announced_all k (e ∷ es) cs = announced_all k es (announced k cs)

  abbrev pub delivered : ℕ → Packets → (n : ℕ) → List Call → List Call
  delivered k ps n cs =
      data_in_call 0 tog1 true true 0
      ∷ repeated n (data_in_call 0 tog1 true true 0) (sent tog1 ps (announced k cs))

  -- The calls of a download whose first block is the `k`th: the `k`th block that is taken has the
  -- number `k` modulo 2^16, and a block that is lost has the number of the next one.
  abbrev pub downloading : (k : ℕ) → List Answer → List Call → List Call
  downloading k [] cs = cs
  downloading k (takes es ps n x y ∷ rest) cs =
      downloading (suc k) rest (delivered (k % 2 ^ 16) ps n (announced_all (k % 2 ^ 16) es cs))
  downloading k (loses e1 e2 e3 bytes ∷ rest) cs =
      downloading k rest (announced_all (k % 2 ^ 16) (e1 ∷ e2 ∷ e3 ∷ []) cs)

  module _ (direct : h.parent.transaction_translator ≡ none) where
    -- The tries of a block, of which `m` are left.
    abbrev tries : (m k : ℕ) → List ℕ → Async ℕ
    tries m k bytes =
        rounds m (attempt (control_transfer h (dfu_download dnload k) bytes) >>= after_try k)
          (return k)
