-- ===== src/Driver/Items.antt =====
-- `for desc in iter { match desc? { … } }`, the loop by which the drivers of driver/ read a
-- configuration, over `DescriptorIterator` of descriptor/mod.rs.
use async_usb_host.Prelude.{
  ℕ, zero, suc, ◌+◌, ◌≤◌, ◌≡◌, refl, arith, Option, none, some, List, [], ◌∷◌, map, length,
  length-append,
}
use async_usb_host.Errors.{Outcome, ok, err, panics, Result, done, failed}
use async_usb_host.Descriptor.{Descriptor, DescriptorIterator, new_iterator, next}
use async_usb_host.Descriptor.Format.{encode, encode_all, AllEncodable}
use async_usb_host.Descriptor.Iterate.{Yields, end, more, encode_all-Yields, encode_positive}
use async_usb_host.Pipe.Bus.{
  Bus, Status, returned, raised, crashed, elapsed, waiting, starved, Async, follow, return, raise,
  crash, ◌>>=◌,
}

length-encode_all : (ds : List Descriptor) → AllEncodable ds → length ds ≤ length (encode_all ds)
length-encode_all [] v = omega arith
length-encode_all (d ∷ ds) v = omega (
  arith,
  length-append (encode d) (encode_all ds),
  encode_positive d v.0,
  length-encode_all ds v.1,
)

module _ {S : Type 0} where
  -- A round: `None` ends the loop, and `?` hands on an error.
  abbrev pub item_then :
      (DescriptorIterator → S → Async S)
      → (S → Descriptor → Async S)
      → S
      → Outcome (Option (Result Descriptor) × DescriptorIterator)
      → Async S
  item_then rest visit s (ok (none, it)) = return s
  item_then rest visit s (ok (some (done d), it)) = visit s d >>= rest it
  item_then rest visit s (ok (some (failed e), it)) = raise e
  item_then rest visit s (err e) = raise e
  item_then rest visit s panics = crash

  -- The loop on fuel. It starves when the iterator stays at a descriptor for ever.
  unfoldable pub items_from : ℕ → (S → Descriptor → Async S) → DescriptorIterator → S → Async S
  items_from zero visit it s b = (starved, b)
  items_from (suc n) visit it s b = item_then (items_from n visit) visit s (next it) b

  -- A round moves the iterator on, spends a reply, or is repeated for ever.
  abbrev pub for_items : (S → Descriptor → Async S) → DescriptorIterator → S → Async S
  for_items visit it s b = items_from (suc (length it.buf + length b.replies)) visit it s b

  -- The visits of a list of descriptors, one after the other.
  abbrev pub visit_all : (S → Descriptor → Async S) → List Descriptor → S → Async S
  visit_all visit [] s = return s
  visit_all visit (d ∷ ds) s = visit s d >>= visit_all visit ds

  follow_ext :
      (r : Status S × Bus) (f g : S → Async S)
      → ((s : S) (b : Bus) → f s b ≡ g s b)
      → follow r f ≡ follow r g
  follow_ext (returned s, b) f g h = h s b
  follow_ext (raised e, b) f g h = refl
  follow_ext (crashed, b) f g h = refl
  follow_ext (elapsed, b) f g h = refl
  follow_ext (waiting, b) f g h = refl
  follow_ext (starved, b) f g h = refl

  items-visit_all :
      (visit : S → Descriptor → Async S) (ds : List Descriptor) (n : ℕ) (it : DescriptorIterator)
      → length ds ≤ n
      → Yields it (map done ds)
      → (s : S) (b : Bus) → items_from (suc n) visit it s b ≡ visit_all visit ds s b
  unfolding items_from
  items-visit_all visit [] n it le (end e) s b = rw (e, item_then) refl
  items-visit_all visit (d ∷ ds) zero it le y s b = absurd (omega arith)
  items-visit_all visit (d ∷ ds) (suc n) it le (more {rest = rest} e y) s b =
      rw (e, item_then)
        (follow_ext (visit s d b) (items_from (suc n) visit rest) (visit_all visit ds)
          (items-visit_all visit ds n rest (omega arith) y))

  -- A loop over the wire format of descriptors whose length and type fields say what they are, with
  -- any body, visits exactly these descriptors, in order, until a visit fails.
  pub for_items-visit_all :
      (visit : S → Descriptor → Async S) (ds : List Descriptor) (s : S) (b : Bus)
      → AllEncodable ds
      → for_items visit (new_iterator (encode_all ds)) s b ≡ visit_all visit ds s b
  for_items-visit_all visit ds s b v =
      items-visit_all visit ds (length (encode_all ds) + length b.replies)
        (new_iterator (encode_all ds)) (omega (arith, length-encode_all ds v))
        (encode_all-Yields ds v) s b
