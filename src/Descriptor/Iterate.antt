-- ===== src/Descriptor/Iterate.antt =====
-- Loops over `DescriptorIterator` of descriptor/mod.rs.
use async_usb_host.Prelude.{
  ℕ, zero, suc, ◌+◌, ◌≤◌, ◌<◌, ◌≡◌, refl, sym, ap, subst, ◌∙◌, inl, inr, arith,
}
use async_usb_host.Prelude.{
  none, some, List, [], ◌∷◌, ◌++◌, map, length, length-append, length-drop, drop, ◌-◌, ℕ_discrete,
  leb, true, false, Bool-cases,
}
use mathlib.Core.List.{append_assoc}
use async_usb_host.Prelude.{drop-append}
use async_usb_host.Errors.{Outcome, ok, err, panics, Result, done, failed, UsbHostError}
use async_usb_host.Descriptor.{
  Descriptor, DescriptorIterator, next, advance, parse_descriptor, byte, type_try_from, header_size,
  unknown_descriptor, new_iterator, device, configuration, endpoint, interface,
}
use async_usb_host.Descriptor.Format.{encode, encode_all, IsEncodable, AllEncodable}
use async_usb_host.Descriptor.Parse.{
  parse-encode, parse_descriptor-returns, PanicsOn, parse_zero_length,
}

-- A `for` loop over the iterator ends, after these items.
pub data Yields : DescriptorIterator → List (Result Descriptor) → Type 0 where
  end : {it rest : DescriptorIterator} → next it ≡ ok (none, rest) → Yields it []
  more :
      {it rest : DescriptorIterator} {r : Result Descriptor} {rs : List (Result Descriptor)}
      → next it ≡ ok (some r, rest)
      → Yields rest rs
      → Yields it (r ∷ rs)

-- The iterators that a loop over `it` comes to.
pub data Reaches (it : DescriptorIterator) : DescriptorIterator → Type 0 where
  here : Reaches it it
  onwards :
      {mid rest : DescriptorIterator} {r : Result Descriptor}
      → Reaches it mid
      → next mid ≡ ok (some r, rest)
      → Reaches it rest

-- The bytes that the iterator has not read.
abbrev pub left : DescriptorIterator → List ℕ
left it = drop it.offset it.buf

pub encode_positive : (d : Descriptor) → IsEncodable d → 0 < length (encode d)
unfolding encode
encode_positive (device d) v = omega arith
encode_positive (configuration c) v = omega arith
encode_positive (endpoint e) v = omega arith
encode_positive (interface i) v = omega arith
encode_positive (unknown_descriptor t l bytes) v = omega (arith, v.0, v.1)

-- What `next` does at an iterator: it has finished, it panics, it hands on an error and skips the
-- rest, or it hands on a descriptor and goes on by its length byte.
pub data Turn (it : DescriptorIterator) : Type 0 where
  finished : length it.buf ≤ it.offset → next it ≡ ok (none, it) → Turn it
  crashed : it.offset < length it.buf → PanicsOn (left it) → next it ≡ panics → Turn it
  spoilt :
      it.offset < length it.buf
      → (e : UsbHostError) → next it ≡ ok (some (failed e), record it { offset = length it.buf })
      → Turn it
  found :
      it.offset < length it.buf
      → (d : Descriptor)
      → next it ≡ ok (some (done d), record it { offset = it.offset + byte (left it) 0 })
      → Turn it

next-advance :
    (it : DescriptorIterator)
    → it.offset < length it.buf
    → next it ≡ advance it (parse_descriptor (left it))
unfolding next
next-advance it h = let test : leb (length it.buf) it.offset ≡ false = ground arith in rw test

turn_of :
    (it : DescriptorIterator) (o : Outcome (Descriptor × ℕ))
    → it.offset < length it.buf
    → parse_descriptor (left it) ≡ o
    → Turn it
unfolding next
turn_of it (ok (d, n)) h e = found h d (
    next-advance it h
    ∙ ap (advance it) e
    ∙ ap (λ k. ok (some (done d), record it { offset = it.offset + k }))
        ((parse_descriptor-returns (left it)).1 d n e))
turn_of it (err x) h e = spoilt h x (next-advance it h ∙ ap (advance it) e)
turn_of it panics h e =
    crashed h ((parse_descriptor-returns (left it)).0.0 e) (next-advance it h ∙ ap (advance it) e)

pub next-Turn : (it : DescriptorIterator) → Turn it
unfolding next
next-Turn it = elim (Bool-cases (leb (length it.buf) it.offset)) [
  | inl e ↦ finished (ground arith) (rw e)
  | inr e ↦ turn_of it (parse_descriptor (left it)) (ground arith) refl
]

next-finished : (it : DescriptorIterator) → length it.buf ≤ it.offset → next it ≡ ok (none, it)
unfolding next
next-finished it h = let test : leb (length it.buf) it.offset ≡ true = ground arith in rw test

-- The iterator stands behind `pre`, before the descriptors `ds`.
module _ (pre : List ℕ) (d : Descriptor) (ds : List Descriptor) (it : DescriptorIterator)
    (v : IsEncodable d) (eb : it.buf ≡ pre ++ encode_all (d ∷ ds))
    (eo : it.offset ≡ length pre) where
  before_end : it.offset < length it.buf
  before_end = omega (
    arith,
    ap length eb,
    length-append pre (encode_all (d ∷ ds)),
    length-append (encode d) (encode_all ds),
    encode_positive d v,
  )

  left_is : left it ≡ encode d ++ encode_all ds
  left_is = rw (eb, eo) (drop-append pre (encode d ++ encode_all ds) (length pre) refl)

  next-encode : next it ≡ ok (some (done d), record it { offset = it.offset + length (encode d) })
  unfolding next
  next-encode =
      next-advance it before_end
      ∙ ap (λ l. advance it (parse_descriptor l)) left_is
      ∙ ap (advance it) (parse-encode d (encode_all ds) v)

Yields-from :
    (pre : List ℕ) (ds : List Descriptor) (it : DescriptorIterator)
    → AllEncodable ds
    → it.buf ≡ pre ++ encode_all ds
    → it.offset ≡ length pre
    → Yields it (map done ds)
Yields-from pre [] it v eb eo =
    end (next-finished it (omega (arith, ap length eb, length-append pre [])))
Yields-from pre (d ∷ ds) it v eb eo = more (next-encode pre d ds it v.0 eb eo) (
    Yields-from (pre ++ encode d) ds (record it { offset = it.offset + length (encode d) }) v.1
      (eb ∙ sym (append_assoc pre (encode d) (encode_all ds)))
      (omega (arith, length-append pre (encode d))))

-- A loop over the wire format of descriptors whose length and type fields say what they are yields
-- them all, in order, and ends.
pub encode_all-Yields :
    (ds : List Descriptor) → AllEncodable ds → Yields (new_iterator (encode_all ds)) (map done ds)
encode_all-Yields ds v = Yields-from [] ds (new_iterator (encode_all ds)) v refl refl

-- A loop over `it` ends with some items, or it comes to an iterator that panics, or to one that
-- hands on the descriptor at its offset and stays there for ever.
pub data Fate (it : DescriptorIterator) : Type 0 where
  ends : (rs : List (Result Descriptor)) → Yields it rs → Fate it
  panics_at :
      {rest : DescriptorIterator}
      → Reaches it rest
      → PanicsOn (left rest)
      → next rest ≡ panics
      → Fate it
  stays_at :
      {rest : DescriptorIterator}
      → Reaches it rest
      → (d : Descriptor) → byte (left rest) 0 ≡ 0
      → next rest ≡ ok (some (done d), rest)
      → Fate it

Reaches-next :
    {it mid rest : DescriptorIterator} {r : Result Descriptor}
    → next it ≡ ok (some r, mid)
    → Reaches mid rest
    → Reaches it rest
Reaches-next e here = onwards here e
Reaches-next e (onwards h e') = onwards (Reaches-next e h) e'

Fate-next :
    {it mid : DescriptorIterator} {r : Result Descriptor}
    → next it ≡ ok (some r, mid)
    → Fate mid
    → Fate it
Fate-next e (ends rs y) = ends _ (more e y)
Fate-next e (panics_at h p n) = panics_at (Reaches-next e h) p n
Fate-next e (stays_at h d z n) = stays_at (Reaches-next e h) d z n

Fate-within :
    (fuel : ℕ) (it : DescriptorIterator) → length it.buf - it.offset < fuel → Turn it → Fate it
Fate-within zero it f t = absurd (omega arith)
Fate-within (suc fuel) it f (finished h e) = ends [] (end e)
Fate-within (suc fuel) it f (crashed h p e) = panics_at here p e
Fate-within (suc fuel) it f (spoilt h x e) =
    ends (failed x ∷ []) (more e (end (next-finished _ (omega arith))))
Fate-within (suc fuel) it f (found h d e) = elim (ℕ_discrete (byte (left it) 0) 0) [
  | yes z ↦
      stays_at here d z (e ∙ ap (λ k. ok (some (done d), record it { offset = k })) (omega arith))
  | no nz ↦ Fate-next e (
      Fate-within fuel (record it { offset = it.offset + byte (left it) 0 }) (omega arith)
        (next-Turn (record it { offset = it.offset + byte (left it) 0 })))
]

-- A loop over any iterator ends, or it comes to a descriptor on which the parser panics, or to one of
-- the length 0 where it stays for ever.
pub iterator-Fate : (it : DescriptorIterator) → Fate it
iterator-Fate it = Fate-within (suc (length it.buf - it.offset)) it (omega arith) (next-Turn it)

-- An iterator that hands on an item and stays where it is has no loop that ends.
not-Yields_of_stays :
    {it : DescriptorIterator} {r : Result Descriptor} {rs : List (Result Descriptor)}
    → next it ≡ ok (some r, it)
    → ¬ Yields it rs
not-Yields_of_stays e (end e') = ground (arith, e, e')
not-Yields_of_stays {it} {r} e (more {rest = rest} e' y) =
    let same : rest ≡ it = ground (arith, e, e') in
    not-Yields_of_stays (subst (λ t. next t ≡ ok (some r, t)) (sym same) e) y

-- At an offset with a header whose length byte is 0 and whose type is not known, the iterator hands
-- on an empty descriptor and stays: no loop over it ends.
pub zero_length_endless :
    (it : DescriptorIterator) (rs : List (Result Descriptor))
    → header_size ≤ length (left it)
    → byte (left it) 0 ≡ 0
    → type_try_from (byte (left it) 1) ≡ none
    → ¬ Yields it rs
unfolding next
zero_length_endless it rs long z strange = not-Yields_of_stays (
    next-advance it (omega (arith, length-drop it.offset it.buf))
    ∙ ap (advance it) (parse_zero_length (left it) long z strange)
    ∙ ap
        (λ k.
          ok (some (done (unknown_descriptor (byte (left it) 1) 0 [])), record it { offset = k }))
        (omega arith))
