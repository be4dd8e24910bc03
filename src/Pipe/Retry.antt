-- ===== src/Pipe/Retry.antt =====
-- `data_in_with_retry` and `data_out_with_retry` of pipe.rs for a device without a transaction
-- translator.
use async_usb_host.Prelude.{ℕ, zero, suc, ◌≡◌, refl, true, none, some, List, ◌∷◌}
use async_usb_host.Errors.{nak}
use async_usb_host.Types.{EndpointType, DataTog}
use async_usb_host.Types.Port.{DevInfo}
use async_usb_host.Pipe.Bus.{
  Reply, refused, Call, data_in_call, data_out_call, Async, ◌>>=◌, attempt, select_timeout, ask,
  loop_from, loop, unless_nak,
}
use async_usb_host.Pipe.Transfer.{data_in, data_out, data_in_with_retry, data_out_with_retry}

-- A device that refuses `k` times before it goes on.
abbrev pub naks : ℕ → List Reply → List Reply
naks zero rs = rs
naks (suc k) rs = refused nak ∷ naks k rs

-- The same call, `k` times.
abbrev pub repeated : ℕ → Call → List Call → List Call
repeated zero c cs = cs
repeated (suc k) c cs = repeated k c (c ∷ cs)

abbrev pub retry_call : Call → Async (List ℕ)
retry_call c = loop (λ t. attempt (select_timeout (ask c)) >>= unless_nak) tt

pub retry_call-naks :
    (k : ℕ) (c : Call) (rs : List Reply) (cs : List Call)
    → retry_call c (record { replies = naks k rs; calls = cs })
      ≡ retry_call c (record { replies = rs; calls = repeated k c cs })
unfolding loop_from
retry_call-naks zero c rs cs = refl
retry_call-naks (suc k) c rs cs = retry_call-naks k c rs (c ∷ cs)

module _ (d : DevInfo) (address endpoint : ℕ) (ep : EndpointType) (tog : DataTog)
    (direct : d.transaction_translator ≡ none) where
  pub data_in-direct :
      (room : ℕ)
      → data_in_with_retry d address endpoint ep tog room
        ≡ retry_call (data_in_call endpoint tog true true room)
  unfolding data_in_with_retry data_in
  data_in-direct room = rw (direct, data_in)

  pub data_out-direct :
      (buf : List ℕ)
      → data_out_with_retry d address endpoint ep tog buf
        ≡ retry_call (data_out_call endpoint tog true (some buf))
  unfolding data_out_with_retry data_out
  data_out-direct buf = rw (direct, data_out)
