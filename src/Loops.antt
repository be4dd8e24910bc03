-- ===== src/Loops.antt =====
-- `for i in a..b` over a state, with a body that may fail or panic, and its invariant rule.
use async_usb_host.Prelude.{ℕ, zero, suc, ◌+◌, ◌<◌, ◌≡◌, refl, ◌∙◌, ap, subst, arith}
use async_usb_host.Errors.{Outcome, ok, ◌>>=◌}

unfoldable pub for_range {ℓ} : {S : Type ℓ} → ℕ → ℕ → (ℕ → S → Outcome S) → S → Outcome S
for_range zero i body s = ok s
for_range (suc n) i body s = body i s >>= for_range n (i + 1) body

-- A body that returns and keeps the invariant at every round makes a loop that returns with it.
pub for_range_keeps {ℓ κ} :
    {S : Type ℓ} (P : ℕ → S → Type κ) (body : ℕ → S → Outcome S) (end : ℕ)
    → ((i : ℕ) (s : S) → i < end → P i s → (t : S) × (body i s ≡ ok t) × P (i + 1) t)
    → (n i : ℕ) (s : S) → i + n ≡ end
    → P i s
    → (t : S) × (for_range n i body s ≡ ok t) × P end t
unfolding for_range
for_range_keeps P body end keep zero i s e h = (s, refl, subst (λ k. P k s) (omega arith) h)
for_range_keeps P body end keep (suc n) i s e h =
    let (t, run, h') = keep i s (omega arith) h in
    let (u, rest, last) = for_range_keeps P body end keep n (i + 1) t (omega arith) h' in
    (u, ap (λ m. m >>= for_range n (i + 1) body) run ∙ rest, last)
