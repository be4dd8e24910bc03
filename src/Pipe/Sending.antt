-- ===== src/Pipe/Sending.antt =====
-- The data stage out of `control_transfer` in pipe.rs: what it sends, packet by packet.
use async_usb_host.Prelude.{
  ℕ, zero, suc, ◌<◌, ◌≤◌, ◌≡◌, refl, ap, ◌∙◌, arith, min, true, false, none, some, List, [], ◌∷◌,
  ◌++◌, length, length-append, take-append, drop-append, ◌==◌,
}
use async_usb_host.Types.{DataTog, next_tog, DeviceHandle, control}
use async_usb_host.Pipe.Bus.{
  Reply, answered, Call, data_out_call, returned, follow, again, go_on, loop_from,
}
use async_usb_host.Pipe.Transfer.{data_out_with_retry}
use async_usb_host.Pipe.Retry.{naks, repeated, retry_call-naks, data_out-direct}
use async_usb_host.Pipe.Control.{send_round, send_data}

-- A packet, with the number of times that the device refuses it first.
abbrev pub Packets : Type 0
Packets = List (ℕ × List ℕ)

abbrev pub payload : Packets → List ℕ
payload [] = []
payload ((n, c) ∷ ps) = c ++ payload ps

-- What the device answers to the packets.
abbrev pub answers : Packets → List Reply → List Reply
answers [] rs = rs
answers ((n, c) ∷ ps) rs = naks n (answered [] ∷ answers ps rs)

-- The packets have the full size, and the last one at most that and at least one byte.
abbrev pub Cuts : ℕ → Packets → Type 0
Cuts size [] = Unit {0}
Cuts size ((n, c) ∷ []) = (0 < length c) × (length c ≤ size)
Cuts size ((n, c) ∷ p ∷ ps) = (0 < length c) × (length c ≡ size) × Cuts size (p ∷ ps)

-- The calls: each packet until it is taken, then the next one with the other toggle.
abbrev pub sent : DataTog → Packets → List Call → List Call
sent tog [] cs = cs
sent tog ((n, c) ∷ ps) cs =
    sent (next_tog tog) ps
      (data_out_call 0 tog true (some c) ∷ repeated n (data_out_call 0 tog true (some c)) cs)

length-naks : (n : ℕ) (rs : List Reply) → length rs ≤ length (naks n rs)
length-naks zero rs = omega arith
length-naks (suc n) rs = omega (arith, length-naks n rs)

length-answers : (ps : Packets) (rs : List Reply) → length ps ≤ length (answers ps rs)
length-answers [] rs = omega arith
length-answers ((n, c) ∷ ps) rs =
    omega (arith, length-answers ps rs, length-naks n (answered [] ∷ answers ps rs))

-- The length of the first packet is what the code takes.
cut-length :
    (size n : ℕ) (c : List ℕ) (ps : Packets)
    → Cuts size ((n, c) ∷ ps)
    → (0 < length c) × (length c ≡ min (length (c ++ payload ps)) size)
cut-length size n c [] v = (v.0, omega (arith, v.1, length-append c []))
cut-length size n c (p ∷ ps) v = (v.0, omega (arith, v.1, length-append c (payload (p ∷ ps))))

Cuts-rest : (size : ℕ) (p : ℕ × List ℕ) (ps : Packets) → Cuts size (p ∷ ps) → Cuts size ps
Cuts-rest size p [] v = tt
Cuts-rest size p (q ∷ ps) v = v.2

module _ (h : DeviceHandle) (direct : h.parent.transaction_translator ≡ none) where
  pub taken :
      (tog : DataTog) (n : ℕ) (c : List ℕ) (rs : List Reply) (y : List ℕ) (cs : List Call)
      → data_out_with_retry h.parent h.address 0 control tog c
          (record { replies = naks n (answered y ∷ rs); calls = cs })
        ≡ (
          returned y,
          record {
            replies = rs;
            calls =
                data_out_call 0 tog true (some c)
                ∷ repeated n (data_out_call 0 tog true (some c)) cs;
          },
        )
  unfolding loop_from
  taken tog n c rs y cs =
      ap (λ m. m (record { replies = naks n (answered y ∷ rs); calls = cs }))
        (data_out-direct h.parent h.address 0 control tog direct c)
      ∙ retry_call-naks n (data_out_call 0 tog true (some c)) (answered y ∷ rs) cs

  round_of :
      (tog : DataTog) (n : ℕ) (c : List ℕ) (ps : Packets) (rs : List Reply) (cs : List Call)
      → Cuts h.max_packet_size ((n, c) ∷ ps)
      → send_round h
          (tog, c ++ payload ps)
          (record { replies = naks n (answered [] ∷ rs); calls = cs })
        ≡ (
          returned (again (next_tog tog, payload ps)),
          record {
            replies = rs;
            calls =
                data_out_call 0 tog true (some c)
                ∷ repeated n (data_out_call 0 tog true (some c)) cs;
          },
        )
  round_of tog n c ps rs cs v =
      let (some_bytes, l) = cut-length h.max_packet_size n c ps v in
      let more : (length (c ++ payload ps) == 0) ≡ false =
        ground (arith, length-append c (payload ps)) in
      rw (
        more,
        take-append c (payload ps) (min (length (c ++ payload ps)) h.max_packet_size) l,
        drop-append c (payload ps) (min (length (c ++ payload ps)) h.max_packet_size) l,
        taken tog n c rs [] cs,
      )

  loop_of :
      (fuel : ℕ) (tog : DataTog) (ps : Packets) (rs : List Reply) (cs : List Call)
      → Cuts h.max_packet_size ps
      → length ps < fuel
      → loop_from fuel
          (send_round h)
          (tog, payload ps)
          (record { replies = answers ps rs; calls = cs })
        ≡ (returned [], record { replies = rs; calls = sent tog ps cs })
  unfolding loop_from
  loop_of zero tog ps rs cs v lt = absurd (omega arith)
  loop_of (suc fuel) tog [] rs cs v lt = refl
  loop_of (suc fuel) tog ((n, c) ∷ ps) rs cs v lt =
      ap (λ r. follow r (go_on (loop_from fuel (send_round h))))
        (round_of tog n c ps (answers ps rs) cs v)
      ∙ loop_of fuel (next_tog tog) ps rs
          (data_out_call 0 tog true (some c) ∷ repeated n (data_out_call 0 tog true (some c)) cs)
          (Cuts-rest h.max_packet_size (n, c) ps v) (omega arith)

  -- The data stage sends a buffer in packets of the maximal size, the last one the rest, each again
  -- after every NAK, with toggles that alternate; it returns when all are taken.
  pub send_data-sent :
      (tog : DataTog) (ps : Packets) (rs : List Reply) (cs : List Call)
      → Cuts h.max_packet_size ps
      → send_data h tog (payload ps) (record { replies = answers ps rs; calls = cs })
        ≡ (returned [], record { replies = rs; calls = sent tog ps cs })
  unfolding send_data
  send_data-sent tog ps rs cs v =
      loop_of (suc (length (answers ps rs))) tog ps rs cs v (omega (arith, length-answers ps rs))
