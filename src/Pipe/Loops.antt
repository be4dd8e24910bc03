-- ===== src/Pipe/Loops.antt =====
-- What a loop of pipe.rs spends of the replies, by what its rounds spend.
use async_usb_host.Prelude.{ℕ, zero, suc, ◌<◌, ◌≤◌, arith, length}
use async_usb_host.Pipe.Bus.{
  Bus, Status, returned, raised, crashed, elapsed, waiting, starved, Async, follow, caught, timed,
  Turn, again, leave, go_on, loop_from, loop, rounds,
}

-- A run did not starve, and where it came to a value, an error or a timer, it has fewer than `n`
-- replies left.
abbrev pub Under : {A : Type 0} → ℕ → Status A × Bus → Type 0
Under n (returned a, b) = length b.replies < n
Under n (raised e, b) = length b.replies < n
Under n (crashed, b) = Unit {0}
Under n (elapsed, b) = length b.replies < n
Under n (waiting, b) = Unit {0}
Under n (starved, b) = ⊥

abbrev pub Keeps : {A : Type 0} → Async A → Type 0
Keeps m = (b : Bus) → Under (suc (length b.replies)) (m b)

abbrev pub Spends : {A : Type 0} → Async A → Type 0
Spends m = (b : Bus) → Under (length b.replies) (m b)

-- A round that goes on has spent a reply.
abbrev pub RoundUnder : {S A : Type 0} → ℕ → ℕ → Status (Turn S A) × Bus → Type 0
RoundUnder n k (returned (again s), b) = length b.replies < n
RoundUnder n k (returned (leave a), b) = length b.replies < k
RoundUnder n k (raised e, b) = length b.replies < k
RoundUnder n k (crashed, b) = Unit {0}
RoundUnder n k (elapsed, b) = length b.replies < k
RoundUnder n k (waiting, b) = Unit {0}
RoundUnder n k (starved, b) = ⊥

module _ {A : Type 0} where
  pub Under-mono : (n k : ℕ) (r : Status A × Bus) → n ≤ k → Under n r → Under k r
  Under-mono n k (returned a, b) le h = omega arith
  Under-mono n k (raised e, b) le h = omega arith
  Under-mono n k (crashed, b) le h = tt
  Under-mono n k (elapsed, b) le h = omega arith
  Under-mono n k (waiting, b) le h = tt
  Under-mono n k (starved, b) le h = h

  pub Under-caught : (n : ℕ) (r : Status A × Bus) → Under n r → Under n (caught r)
  Under-caught n (returned a, b) h = h
  Under-caught n (raised e, b) h = h
  Under-caught n (crashed, b) h = tt
  Under-caught n (elapsed, b) h = h
  Under-caught n (waiting, b) h = tt
  Under-caught n (starved, b) h = h

  pub Under-timed : (n : ℕ) (r : Status A × Bus) → Under n r → Under n (timed r)
  Under-timed n (returned a, b) h = h
  Under-timed n (raised e, b) h = h
  Under-timed n (crashed, b) h = tt
  Under-timed n (elapsed, b) h = h
  Under-timed n (waiting, b) h = tt
  Under-timed n (starved, b) h = h

  pub Spends-Keeps : (m : Async A) → Spends m → Keeps m
  Spends-Keeps m h b =
      Under-mono (length b.replies) (suc (length b.replies)) (m b) (omega arith) (h b)

module _ {A B : Type 0} where
  pub Under-follow :
      (n : ℕ) (r : Status A × Bus) (k : A → Async B)
      → Under n r
      → ((a : A) → Keeps (k a))
      → Under n (follow r k)
  Under-follow n (returned a, b) k h hk =
      Under-mono (suc (length b.replies)) n (k a b) (omega arith) (hk a b)
  Under-follow n (raised e, b) k h hk = h
  Under-follow n (crashed, b) k h hk = tt
  Under-follow n (elapsed, b) k h hk = h
  Under-follow n (waiting, b) k h hk = tt
  Under-follow n (starved, b) k h hk = h

  -- A value of the first run is followed by a round.
  pub RoundUnder-follow :
      {S : Type 0} (n k : ℕ) (r : Status A × Bus) (f : A → Async (Turn S B))
      → n ≤ k
      → Under n r
      → ((a : A) (b : Bus) → length b.replies < n → RoundUnder n k (f a b))
      → RoundUnder n k (follow r f)
  RoundUnder-follow n k (returned a, b) f le h hf = hf a b h
  RoundUnder-follow n k (raised e, b) f le h hf = omega arith
  RoundUnder-follow n k (crashed, b) f le h hf = tt
  RoundUnder-follow n k (elapsed, b) f le h hf = omega arith
  RoundUnder-follow n k (waiting, b) f le h hf = tt
  RoundUnder-follow n k (starved, b) f le h hf = h

module _ {S A : Type 0} where
  pub RoundUnder-Under :
      (n k : ℕ) (r : Status (Turn S A) × Bus) → n ≤ k → Under n r → RoundUnder n k r
  RoundUnder-Under n k (returned (again s), b) le h = h
  RoundUnder-Under n k (returned (leave a), b) le h = omega arith
  RoundUnder-Under n k (raised e, b) le h = omega arith
  RoundUnder-Under n k (crashed, b) le h = tt
  RoundUnder-Under n k (elapsed, b) le h = omega arith
  RoundUnder-Under n k (waiting, b) le h = tt
  RoundUnder-Under n k (starved, b) le h = h

  go_on-Under :
      (fuel n k : ℕ) (body : S → Async (Turn S A)) (r : Status (Turn S A) × Bus)
      → n ≤ fuel
      → n ≤ k
      → ((s : S) (b : Bus)
          → length b.replies < fuel
          → Under (suc (length b.replies)) (loop_from fuel body s b))
      → RoundUnder n k r
      → Under k (follow r (go_on (loop_from fuel body)))
  go_on-Under fuel n k body (returned (again s), b) lf le rest h =
      Under-mono (suc (length b.replies)) k (loop_from fuel body s b) (omega arith)
        (rest s b (omega arith))
  go_on-Under fuel n k body (returned (leave a), b) lf le rest h = h
  go_on-Under fuel n k body (raised e, b) lf le rest h = h
  go_on-Under fuel n k body (crashed, b) lf le rest h = tt
  go_on-Under fuel n k body (elapsed, b) lf le rest h = h
  go_on-Under fuel n k body (waiting, b) lf le rest h = tt
  go_on-Under fuel n k body (starved, b) lf le rest h = h

  loop_from-Under :
      (fuel : ℕ) (body : S → Async (Turn S A))
      → ((s : S) (b : Bus) → RoundUnder (length b.replies) (suc (length b.replies)) (body s b))
      → (s : S) (b : Bus) → length b.replies < fuel
      → Under (suc (length b.replies)) (loop_from fuel body s b)
  unfolding loop_from
  loop_from-Under zero body h s b lt = absurd (omega arith)
  loop_from-Under (suc fuel) body h s b lt =
      go_on-Under fuel (length b.replies) (suc (length b.replies)) body (body s b) (omega arith)
        (omega arith) (loop_from-Under fuel body h) (h s b)

  -- A loop whose rounds spend a reply or leave keeps within its replies.
  pub loop-Keeps :
      (body : S → Async (Turn S A)) (s : S)
      → ((s : S) (b : Bus) → RoundUnder (length b.replies) (suc (length b.replies)) (body s b))
      → Keeps (loop body s)
  loop-Keeps body s h b = loop_from-Under (suc (length b.replies)) body h s b (omega arith)

  -- A loop whose rounds all spend a reply spends one.
  pub loop-Spends :
      (body : S → Async (Turn S A)) (s : S) → ((s : S) → Spends (body s)) → Spends (loop body s)
  unfolding loop_from
  loop-Spends body s h b =
      go_on-Under (length b.replies) (length b.replies) (length b.replies) body (body s b)
        (omega arith) (omega arith)
        (loop_from-Under (length b.replies) body (λ t c.
          RoundUnder-Under (length c.replies) (suc (length c.replies)) (body t c) (omega arith)
            (h t c)))
        (RoundUnder-Under (length b.replies) (length b.replies) (body s b) (omega arith) (h s b))

  go_on-Keeps :
      (rest : S → Async A) (t : Turn S A) → ((s : S) → Keeps (rest s)) → Keeps (go_on rest t)
  go_on-Keeps rest (again s) h b = h s b
  go_on-Keeps rest (leave a) h b = omega arith

  rounds-Keeps :
      (n : ℕ) (body : Async (Turn S A)) (after : Async A)
      → Spends body
      → Keeps after
      → Keeps (rounds n body after)
  unfolding rounds
  rounds-Keeps zero body after h ha b = ha b
  rounds-Keeps (suc n) body after h ha b =
      Under-follow (suc (length b.replies)) (body b) (go_on (λ s. rounds n body after))
        (Spends-Keeps body h b)
        (λ t. go_on-Keeps (λ s. rounds n body after) t (λ s. rounds-Keeps n body after h ha))

  -- A bounded loop of at least one round spends a reply, if its rounds do.
  pub rounds-Spends :
      (n : ℕ) (body : Async (Turn S A)) (after : Async A)
      → Spends body
      → Keeps after
      → Spends (rounds (suc n) body after)
  unfolding rounds
  rounds-Spends n body after h ha b =
      Under-follow (length b.replies) (body b) (go_on (λ s. rounds n body after)) (h b)
        (λ t. go_on-Keeps (λ s. rounds n body after) t (λ s. rounds-Keeps n body after h ha))
