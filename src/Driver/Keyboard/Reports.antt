-- ===== src/Driver/Keyboard/Reports.antt =====
-- The loop of `HidKbd::run` in driver/kbd.rs.
use async_usb_host.Prelude.{
  ℕ, zero, suc, ◌<◌, ◌≡◌, ◌≢◌, refl, sym, ◌∙◌, arith, Bool, true, false, not, ◌&&◌, some, List, [],
  ◌∷◌, ◌++◌, length, take, drop, replicate, ltb, if◌then◌else◌,
}
use mathlib.Core.List.{append_assoc, append-nil}
use async_usb_host.Types.{
  DeviceHandle, InterruptChannel, EndpointDirection, in_endpoint, out_endpoint,
}
use async_usb_host.Pipe.Bus.{
  Bus, Status, returned, raised, crashed, elapsed, waiting, starved, is_nak,
}
use async_usb_host.Pipe.Loops.{Under, Under-mono, Spends}
use async_usb_host.Pipe.Ends.{then-Spends}
use async_usb_host.Pipe.Completes.{data_in-Spends, data_out-Spends}
use async_usb_host.Pipe.Control.{channel_transfer, toggled, interrupt_transfer}
use async_usb_host.Driver.Keyboard.{
  Listening, processing, same_bytes, on_report, listen_from, listen, run_kbd,
}

-- The buffer after a transfer.
abbrev pub written : (buf bytes : List ℕ) → List ℕ
written buf bytes = take 8 (bytes ++ drop (length bytes) buf)

abbrev pub on_transfer :
    (InterruptChannel → List ℕ → Bus → List (List ℕ))
    → (buf : List ℕ) → Status (List ℕ) × InterruptChannel × Bus
    → List (List ℕ)
on_transfer rest buf (returned bytes, c, b) =
    let later = rest c (written buf bytes) b in
    if ltb 0 (length bytes) then written buf bytes ∷ later else later
on_transfer rest buf (raised e, c, b) = if is_nak e then rest c buf b else []
on_transfer rest buf (crashed, c, b) = []
on_transfer rest buf (elapsed, c, b) = []
on_transfer rest buf (waiting, c, b) = []
on_transfer rest buf (starved, c, b) = []

-- What the device reports: the buffers after the transfers of one byte or more, up to the first error
-- other than NAK.
unfoldable pub reported_from : ℕ → InterruptChannel → (buf : List ℕ) → Bus → List (List ℕ)
reported_from zero c buf b = []
reported_from (suc n) c buf b = on_transfer (reported_from n) buf (interrupt_transfer c buf b)

abbrev pub reported : InterruptChannel → Bus → List (List ℕ)
reported c b = reported_from (suc (length b.replies)) c (replicate 8 0) b

-- The items that differ from the one before, of which the first one is given.
abbrev pub changes : List ℕ → List (List ℕ) → List (List ℕ)
changes prev [] = []
changes prev (x ∷ xs) =
    let kept = changes prev xs in
    let new = x ∷ changes x xs in if same_bytes x prev then kept else new

-- A report is added, or the item is passed over.
add :
    (t : Bool) (c : InterruptChannel) (buf : List ℕ) (s : Listening) (old new : List (List ℕ))
    (xs : List (List ℕ))
    → (xs ≡ (processing t c buf s).processed ++ (if t then new else old))
    → xs ≡ s.processed ++ (if t then buf ∷ new else old)
add true c buf s old new xs e = e ∙ append_assoc s.processed (buf ∷ []) new
add false c buf s old new xs e = e

module _ (rest : Listening → Bus → Status (Unit {0}) × Listening × Bus)
    (later : InterruptChannel → List ℕ → Bus → List (List ℕ))
    (h : (s : Listening) (b : Bus)
      → (rest s b).1.processed
        ≡ s.processed ++ changes s.prev_report (later s.channel s.buf b)) where
  heard_lem :
      (s : Listening) (c : InterruptChannel) (b : Bus) (filled same : Bool) (buf : List ℕ)
      → same_bytes buf s.prev_report ≡ same
      → (rest (processing (filled && not same) c buf s) b).1.processed
        ≡ s.processed
          ++ changes s.prev_report (if filled then buf ∷ later c buf b else later c buf b)
  heard_lem s c b false same buf e = h (record s { channel = c; buf = buf }) b
  heard_lem s c b true true buf e = rw e (h (record s { channel = c; buf = buf }) b)
  heard_lem s c b true false buf e = rw e (
      h (processing true c buf s) b
      ∙ append_assoc s.processed (buf ∷ []) (changes buf (later c buf b)))

  report_lem :
      (s : Listening) (r : Status (List ℕ) × InterruptChannel × Bus)
      → (on_report rest s r).1.processed
        ≡ s.processed ++ changes s.prev_report (on_transfer later s.buf r)
  report_lem s (returned bytes, c, b) =
      heard_lem s c b (ltb 0 (length bytes)) (same_bytes (written s.buf bytes) s.prev_report)
        (written s.buf bytes) refl
  report_lem s (raised e, c, b) = nak_lem (is_nak e)
    where
      nak_lem :
          (t : Bool)
          → (if t then rest (record s { channel = c }) b else (raised e, s, b)).1.processed
            ≡ s.processed ++ changes s.prev_report (if t then later c s.buf b else [])
      nak_lem true = h (record s { channel = c }) b
      nak_lem false = sym (append-nil s.processed)
  report_lem s (crashed, c, b) = sym (append-nil s.processed)
  report_lem s (elapsed, c, b) = sym (append-nil s.processed)
  report_lem s (waiting, c, b) = sym (append-nil s.processed)
  report_lem s (starved, c, b) = sym (append-nil s.processed)

listen_from-changes :
    (n : ℕ) (s : Listening) (b : Bus)
    → (listen_from n s b).1.processed
      ≡ s.processed ++ changes s.prev_report (reported_from n s.channel s.buf b)
unfolding listen_from reported_from
listen_from-changes zero s b = sym (append-nil s.processed)
listen_from-changes (suc n) s b =
    report_lem (listen_from n) (reported_from n) (listen_from-changes n) s
      (interrupt_transfer s.channel s.buf b)

channel-Spends :
    (c : InterruptChannel) (d : EndpointDirection) (buf : List ℕ)
    → Spends (channel_transfer c d buf)
channel-Spends c in_endpoint buf = data_in-Spends c.device_handle.parent _ _ _ c.tog (length buf)
channel-Spends c out_endpoint buf =
    then-Spends _ _ (data_out-Spends c.device_handle.parent _ _ _ c.tog buf) (λ t b. omega arith)

-- A run that goes on with fewer replies than it has fuel comes to an error, a panic or a wait.
abbrev Halts : Status (Unit {0}) → Type 0
Halts s = (s ≢ starved) × ((u : Unit {0}) → s ≢ returned u)

halts :
    (n : ℕ) (rest : Listening → Bus → Status (Unit {0}) × Listening × Bus)
    → ((s : Listening) (b : Bus) → length b.replies < n → Halts (rest s b).0)
    → (s : Listening) (c : InterruptChannel) (r : Status (List ℕ) × Bus) → Under n r
    → Halts (on_report rest s (toggled c r)).0
halts n rest h s c (returned bytes, b) u = h _ b u
halts n rest h s c (raised e, b) u = nak_halts (is_nak e)
  where
    nak_halts :
        (t : Bool) → Halts (if t then rest (record s { channel = c }) b else (raised e, s, b)).0
    nak_halts true = h _ b u
    nak_halts false = ((λ q. absurd (cc q)), (λ v q. absurd (cc q)))
halts n rest h s c (crashed, b) u = ((λ q. absurd (cc q)), (λ v q. absurd (cc q)))
halts n rest h s c (elapsed, b) u = ((λ q. absurd (cc q)), (λ v q. absurd (cc q)))
halts n rest h s c (waiting, b) u = ((λ q. absurd (cc q)), (λ v q. absurd (cc q)))
halts n rest h s c (starved, b) u = absurd u

listen_from-Halts :
    (n : ℕ) (s : Listening) (b : Bus) → length b.replies < n → Halts (listen_from n s b).0
unfolding listen_from interrupt_transfer
listen_from-Halts zero s b lt = absurd (omega arith)
listen_from-Halts (suc n) s b lt = halts n (listen_from n) (listen_from-Halts n) s s.channel _ (
    Under-mono (length b.replies) n _ (omega arith)
      (channel-Spends s.channel s.channel.endpoint_address.direction s.buf _))

-- What `run` comes to, and what it processes.
abbrev pub Listens : DeviceHandle → InterruptChannel → Bus → Type 0
Listens h c b =
    let r = run_kbd (record { device_handle = h; interrupt_channel = some c }) b in
    Halts r.0 × (r.1 ≡ changes (replicate 8 0) (reported c b))

-- Whatever the device answers, the loop of the driver of a keyboard ends only with an error or a panic
-- or waits, and never runs out of fuel; until then it has processed, in order, exactly the reports
-- that differ from the one before, the first one from eight zeros.
pub run_kbd-Listens : (h : DeviceHandle) (c : InterruptChannel) (b : Bus) → Listens h c b
unfolding run_kbd listen
run_kbd-Listens h c b =
    let s : Listening = record {
      channel = c;
      prev_report = replicate 8 0;
      buf = replicate 8 0;
      processed = [];
    } in
    (
      listen_from-Halts (suc (length b.replies)) s b (omega arith),
      listen_from-changes (suc (length b.replies)) s b,
    )
