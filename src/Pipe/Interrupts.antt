-- ===== src/Pipe/Interrupts.antt =====
-- The toggle of an interrupt channel over the transfers of pipe.rs.
use async_usb_host.Prelude.{ℕ, suc, ◌%◌, ◌≡◌, refl, ap, ◌∙◌, arith, List, ◌==◌, if◌then◌else◌}
use async_usb_host.Errors.{UsbHostError}
use async_usb_host.Types.{DataTog, tog0, tog1, next_tog, InterruptChannel}
use async_usb_host.Pipe.Bus.{Bus, Status, returned, raised, crashed, elapsed, waiting, starved}
use async_usb_host.Pipe.Control.{interrupt_transfer, toggled}

-- Transfers of a channel one after the other, of which some number ended without an error.
pub data Transfers : InterruptChannel → Bus → ℕ → InterruptChannel → Type 0 where
  no_more : {c : InterruptChannel} {b : Bus} → Transfers c b 0 c
  succeeds :
      {c c' d : InterruptChannel} {b b' : Bus} {n : ℕ} (buf bytes : List ℕ)
      → interrupt_transfer c buf b ≡ (returned bytes, c', b')
      → Transfers c' b' n d
      → Transfers c b (suc n) d
  fails :
      {c c' d : InterruptChannel} {b b' : Bus} {n : ℕ} (buf : List ℕ) (e : UsbHostError)
      → interrupt_transfer c buf b ≡ (raised e, c', b')
      → Transfers c' b' n d
      → Transfers c b n d

toggled-returned :
    (c c' : InterruptChannel) (bytes : List ℕ) (b' : Bus) (r : Status (List ℕ) × Bus)
    → toggled c r ≡ (returned bytes, c', b')
    → c' ≡ record c { tog = next_tog c.tog }
toggled-returned c c' bytes b' (returned x, b) e = cc
toggled-returned c c' bytes b' (raised x, b) e = cc
toggled-returned c c' bytes b' (crashed, b) e = cc
toggled-returned c c' bytes b' (elapsed, b) e = cc
toggled-returned c c' bytes b' (waiting, b) e = cc
toggled-returned c c' bytes b' (starved, b) e = cc

toggled-raised :
    (c c' : InterruptChannel) (x : UsbHostError) (b' : Bus) (r : Status (List ℕ) × Bus)
    → toggled c r ≡ (raised x, c', b')
    → c' ≡ c
toggled-raised c c' x b' (returned y, b) e = cc
toggled-raised c c' x b' (raised y, b) e = cc
toggled-raised c c' x b' (crashed, b) e = cc
toggled-raised c c' x b' (elapsed, b) e = cc
toggled-raised c c' x b' (waiting, b) e = cc
toggled-raised c c' x b' (starved, b) e = cc

next_tog-next_tog : (t : DataTog) → next_tog (next_tog t) ≡ t
unfolding next_tog
next_tog-next_tog tog0 = refl
next_tog-next_tog tog1 = refl

-- The toggle after `n` changes.
abbrev pub after_toggles : ℕ → DataTog → DataTog
after_toggles n t = if n % 2 == 0 then t else next_tog t

after_toggles-next : (n : ℕ) (t : DataTog) → after_toggles n (next_tog t) ≡ after_toggles (suc n) t
after_toggles-next n t = ground (arith, next_tog-next_tog t)

-- After any transfers of a channel its toggle has changed once for each transfer without an error,
-- and it is of the same device and endpoint.
pub Transfers-toggle :
    (c d : InterruptChannel) (b : Bus) (n : ℕ)
    → Transfers c b n d
    → d ≡ record c { tog = after_toggles n c.tog }
unfolding interrupt_transfer
Transfers-toggle c d b n no_more = refl
Transfers-toggle c d b (suc n) (succeeds {c' = c'} {b' = b'} buf bytes e rest) =
    Transfers-toggle c' d b' n rest
    ∙ ap (λ (x : InterruptChannel). record x { tog = after_toggles n x.tog })
        (toggled-returned c c' bytes b' _ e)
    ∙ ap (λ t. record c { tog = t }) (after_toggles-next n c.tog)
Transfers-toggle c d b n (fails {c' = c'} {b' = b'} buf x e rest) =
    Transfers-toggle c' d b' n rest
    ∙ ap (λ (x : InterruptChannel). record x { tog = after_toggles n x.tog })
        (toggled-raised c c' x b' _ e)
