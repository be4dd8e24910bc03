-- ===== src/Pipe/Receiving.antt =====
-- The data stage in of `control_transfer` in pipe.rs, and whole control transfers.
use async_usb_host.Prelude.{
  ℕ, zero, suc, ◌-◌, ◌<◌, ◌≤◌, ◌≡◌, sym, subst, ap, ◌∙◌, arith, true, false, none, some, List, [],
  ◌∷◌, ◌++◌, length, length-append, ltb, leb,
}
use mathlib.Core.List.{append_assoc, append-nil}
use async_usb_host.Types.{DataTog, tog1, next_tog, DeviceHandle, control}
use async_usb_host.Request.{Request, data_direction, host_to_device, device_to_host}
use async_usb_host.Pipe.Bus.{
  Reply, answered, Call, set_addr, setup_call, data_in_call, data_out_call, returned, follow, again,
  leave, go_on, loop_from,
}
use async_usb_host.Pipe.Transfer.{setup, data_in_with_retry}
use async_usb_host.Pipe.Retry.{naks, repeated, retry_call-naks, data_in-direct}
use async_usb_host.Pipe.Control.{receive_round, receive_data, control_transfer}
use async_usb_host.Pipe.Sending.{Packets, payload, Cuts, answers, sent, taken, send_data-sent}

-- The replies of a device that sends packets, each after its NAKs.
abbrev pub sends : Packets → List Reply → List Reply
sends [] rs = rs
sends ((n, c) ∷ ps) rs = naks n (answered c ∷ sends ps rs)

-- The packets are full, up to one that is not, and they fit what is left of the buffer.
abbrev pub EndsShort : (size room : ℕ) → Packets → Type 0
EndsShort size room [] = ⊥
EndsShort size room ((n, c) ∷ []) = (length c < size) × (length c ≤ room)
EndsShort size room ((n, c) ∷ p ∷ ps) =
    (length c ≡ size) × (length c ≤ room) × EndsShort size (room - length c) (p ∷ ps)

-- The calls, each with the room left.
abbrev pub asked : DataTog → (room : ℕ) → Packets → List Call → List Call
asked tog room [] cs = cs
asked tog room ((n, c) ∷ ps) cs =
    asked (next_tog tog) (room - length c) ps
      (data_in_call 0 tog true true room ∷ repeated n (data_in_call 0 tog true true room) cs)

length-naks_above : (n : ℕ) (rs : List Reply) → length rs ≤ length (naks n rs)
length-naks_above zero rs = omega arith
length-naks_above (suc n) rs = omega (arith, length-naks_above n rs)

length-sends : (ps : Packets) (rs : List Reply) → length ps ≤ length (sends ps rs)
length-sends [] rs = omega arith
length-sends ((n, c) ∷ ps) rs =
    omega (arith, length-sends ps rs, length-naks_above n (answered c ∷ sends ps rs))

module _ (h : DeviceHandle) (direct : h.parent.transaction_translator ≡ none) where
  pub given :
      (tog : DataTog) (room n : ℕ) (c : List ℕ) (rs : List Reply) (cs : List Call)
      → data_in_with_retry h.parent h.address 0 control tog room
          (record { replies = naks n (answered c ∷ rs); calls = cs })
        ≡ (
          returned c,
          record {
            replies = rs;
            calls =
                data_in_call 0 tog true true room
                ∷ repeated n (data_in_call 0 tog true true room) cs;
          },
        )
  unfolding loop_from
  given tog room n c rs cs =
      ap (λ m. m (record { replies = naks n (answered c ∷ rs); calls = cs }))
        (data_in-direct h.parent h.address 0 control tog direct room)
      ∙ retry_call-naks n (data_in_call 0 tog true true room) (answered c ∷ rs) cs

  module _ (size fuel : ℕ) (tog : DataTog) (got : List ℕ) (n : ℕ) (c : List ℕ) (rs : List Reply)
      (cs : List Call) (fits : length got ≤ size) where
    short_round :
        length c < h.max_packet_size
        → receive_round h size
            (tog, got)
            (record { replies = naks n (answered c ∷ rs); calls = cs })
          ≡ (
            returned (leave (got ++ c)),
            record {
              replies = rs;
              calls =
                  data_in_call 0 tog true true (size - length got)
                  ∷ repeated n (data_in_call 0 tog true true (size - length got)) cs;
            },
          )
    short_round short =
        let within : leb (length got) size ≡ true = ground arith in
        let last : ltb (length c) h.max_packet_size ≡ true = ground arith in
        rw (within, given tog (size - length got) n c rs cs, last)

    full_round :
        length c ≡ h.max_packet_size
        → receive_round h size
            (tog, got)
            (record { replies = naks n (answered c ∷ rs); calls = cs })
          ≡ (
            returned (again (next_tog tog, got ++ c)),
            record {
              replies = rs;
              calls =
                  data_in_call 0 tog true true (size - length got)
                  ∷ repeated n (data_in_call 0 tog true true (size - length got)) cs;
            },
          )
    full_round full =
        let within : leb (length got) size ≡ true = ground arith in
        let last : ltb (length c) h.max_packet_size ≡ false = ground arith in
        rw (within, given tog (size - length got) n c rs cs, last)

  loop_in :
      (size fuel : ℕ) (tog : DataTog) (got : List ℕ) (ps : Packets) (rs : List Reply)
      (cs : List Call)
      → length got ≤ size
      → EndsShort h.max_packet_size (size - length got) ps
      → length ps < fuel
      → loop_from fuel
          (receive_round h size)
          (tog, got)
          (record { replies = sends ps rs; calls = cs })
        ≡ (
          returned (got ++ payload ps),
          record { replies = rs; calls = asked tog (size - length got) ps cs },
        )
  unfolding loop_from
  loop_in size zero tog got ps rs cs fits v lt = absurd (omega arith)
  loop_in size (suc fuel) tog got [] rs cs fits v lt = absurd v
  loop_in size (suc fuel) tog got ((n, c) ∷ []) rs cs fits v lt =
      ap (λ r. follow r (go_on (loop_from fuel (receive_round h size))))
        (short_round size fuel tog got n c rs cs fits v.0)
      ∙ ap
          (λ l. (
            returned (got ++ l),
            record { replies = rs; calls = asked tog (size - length got) ((n, c) ∷ []) cs },
          ))
          (sym (append-nil c))
  loop_in size (suc fuel) tog got ((n, c) ∷ p ∷ ps) rs cs fits v lt =
      let room : size - length got - length c ≡ size - length (got ++ c) =
        omega (arith, length-append got c) in
      let cs' : List Call =
        data_in_call 0 tog true true (size - length got)
        ∷ repeated n (data_in_call 0 tog true true (size - length got)) cs in
      ap (λ r. follow r (go_on (loop_from fuel (receive_round h size))))
        (full_round size fuel tog got n c (sends (p ∷ ps) rs) cs fits v.0)
      ∙ loop_in size fuel (next_tog tog) (got ++ c) (p ∷ ps) rs cs'
          (omega (arith, v.1, length-append got c))
          (subst (λ r. EndsShort h.max_packet_size r (p ∷ ps)) room v.2) (omega arith)
      ∙ ap
          (λ l. (
            returned l,
            record {
              replies = rs;
              calls = asked (next_tog tog) (size - length (got ++ c)) (p ∷ ps) cs';
            },
          ))
          (append_assoc got c (payload (p ∷ ps)))
      ∙ ap
          (λ r. (
            returned (got ++ (c ++ payload (p ∷ ps))),
            record { replies = rs; calls = asked (next_tog tog) r (p ∷ ps) cs' },
          ))
          (sym room)

  receive_data-asked :
      (size : ℕ) (tog : DataTog) (ps : Packets) (rs : List Reply) (cs : List Call)
      → EndsShort h.max_packet_size size ps
      → receive_data h size tog [] (record { replies = sends ps rs; calls = cs })
        ≡ (returned (payload ps), record { replies = rs; calls = asked tog size ps cs })
  unfolding receive_data
  receive_data-asked size tog ps rs cs v =
      let all : size - 0 ≡ size = omega arith in
      loop_in size (suc (length (sends ps rs))) tog [] ps rs cs (omega arith)
        (subst (λ r. EndsShort h.max_packet_size r ps) (sym all) v)
        (omega (arith, length-sends ps rs))
      ∙ ap (λ r. (returned (payload ps), record { replies = rs; calls = asked tog r ps cs })) all

  pub setup-direct :
      (req : Request) (x : List ℕ) (rs : List Reply) (cs : List Call)
      → setup h.parent h.address req (record { replies = answered x ∷ rs; calls = cs }) ≡ (
        returned x,
        record { replies = rs; calls = setup_call (some req) ∷ set_addr h.address ∷ cs },
      )
  unfolding setup
  setup-direct req x rs cs = rw (direct, setup)

  module _ (req : Request) (ps : Packets) (x y : List ℕ) (n : ℕ) (rs : List Reply) (cs : List Call)
      (positive : 0 < req.length) where
    -- A control transfer out of a positive length that is at most that of the buffer, to a device
    -- without a translator, whose setup is answered, makes these calls: the setup, the buffer in
    -- packets of the maximal size, of which the last may be shorter, and the status stage, in this
    -- order, each but the setup again after every NAK, with toggles that alternate from DATA1.
    pub control_transfer-out :
        req.length ≤ length (payload ps)
        → data_direction req.request_type ≡ host_to_device
        → Cuts h.max_packet_size ps
        → control_transfer h req
            (payload ps)
            (record { replies = answered x ∷ answers ps (naks n (answered y ∷ rs)); calls = cs })
          ≡ (
            returned [],
            record {
              replies = rs;
              calls =
                  data_in_call 0 tog1 true true 0
                  ∷ repeated n
                      (data_in_call 0 tog1 true true 0)
                      (sent tog1 ps (setup_call (some req) ∷ set_addr h.address ∷ cs));
            },
          )
    unfolding control_transfer
    control_transfer-out enough out v =
        let room : leb req.length (length (payload ps)) ≡ true = ground arith in
        let has_data : ltb 0 req.length ≡ true = ground arith in
        rw (
          room,
          setup-direct req x (answers ps (naks n (answered y ∷ rs))) cs,
          has_data,
          out,
          send_data-sent h direct tog1 ps (naks n (answered y ∷ rs))
              (setup_call (some req) ∷ set_addr h.address ∷ cs) v,
          given tog1 0 n y rs (sent tog1 ps (setup_call (some req) ∷ set_addr h.address ∷ cs)),
        )

    -- A control transfer in of a positive length that is at most that of the buffer, from a device
    -- without a translator, whose setup is answered and whose packets fit the buffer, returns the
    -- bytes of the packets up to the first short one; the calls are the setup, the packets and the
    -- status stage, in this order, each but the setup again after every NAK.
    pub control_transfer-in :
        (buffer : List ℕ)
        → req.length ≤ length buffer
        → data_direction req.request_type ≡ device_to_host
        → EndsShort h.max_packet_size (length buffer) ps
        → control_transfer h req buffer
            (record { replies = answered x ∷ sends ps (naks n (answered y ∷ rs)); calls = cs })
          ≡ (
            returned (payload ps),
            record {
              replies = rs;
              calls =
                  data_out_call 0 tog1 true (some [])
                  ∷ repeated n (data_out_call 0 tog1 true (some [])) (
                      asked tog1
                        (length buffer)
                        ps
                        (setup_call (some req) ∷ set_addr h.address ∷ cs));
            },
          )
    unfolding control_transfer
    control_transfer-in buffer enough into v =
        let room : leb req.length (length buffer) ≡ true = ground arith in
        let has_data : ltb 0 req.length ≡ true = ground arith in
        rw (
          room,
          setup-direct req x (sends ps (naks n (answered y ∷ rs))) cs,
          has_data,
          into,
          receive_data-asked (length buffer) tog1 ps (naks n (answered y ∷ rs))
              (setup_call (some req) ∷ set_addr h.address ∷ cs) v,
          taken h direct tog1 n [] rs y
              (asked tog1 (length buffer) ps (setup_call (some req) ∷ set_addr h.address ∷ cs)),
        )
