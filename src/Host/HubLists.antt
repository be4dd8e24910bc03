-- ===== src/Host/HubLists.antt =====
-- Lists of the hubs that lib.rs keeps, by the addresses of the hubs.
use async_usb_host.Prelude.{
  ℕ, suc, ◌≡◌, ◌≢◌, refl, sym, ap, subst, ◌∙◌, Bool, true, false, ◌||◌, List, [], ◌∷◌, length, ◌==◌,
}
use mathlib.Core.List.{Permᴰ}
use async_usb_host.HubDriver.{Hub}

abbrev pub All : (Hub → Type 0) → List Hub → Type 0
All P [] = Unit {0}
All P (h ∷ hs) = P h × All P hs

abbrev pub address_of : Hub → ℕ
address_of h = h.handle.address

abbrev pub Absent : ℕ → List Hub → Type 0
Absent a = All (λ k. address_of k ≢ a)

-- No two hubs of the list have the same address.
abbrev pub Distinct : List Hub → Type 0
Distinct [] = Unit {0}
Distinct (h ∷ hs) = Absent (address_of h) hs × Distinct hs

abbrev pub has_address : ℕ → List Hub → Bool
has_address a [] = false
has_address a (h ∷ hs) = (address_of h == a) || has_address a hs

pub All-Permᴰ : (P : Hub → Type 0) {xs ys : List Hub} → Permᴰ xs ys → All P xs → All P ys
All-Permᴰ P Permᴰ.nil h = h
All-Permᴰ P (Permᴰ.cons e p) h = (subst P e h.0, All-Permᴰ P p h.1)
All-Permᴰ P (Permᴰ.swap e f) h = (subst P f h.1.0, (subst P e h.0, h.1.1))
All-Permᴰ P (Permᴰ.trans p q) h = All-Permᴰ P q (All-Permᴰ P p h)

pub Distinct-Permᴰ : {xs ys : List Hub} → Permᴰ xs ys → Distinct xs → Distinct ys
Distinct-Permᴰ Permᴰ.nil h = h
Distinct-Permᴰ (Permᴰ.cons {l₁ = xs} e p) h =
    (All-Permᴰ _ p (subst (λ n. Absent n xs) (ap address_of e) h.0), Distinct-Permᴰ p h.1)
Distinct-Permᴰ (Permᴰ.swap {l = l} e f) h = (
  (
    λ q. h.0.0 (ap address_of f ∙ sym q ∙ sym (ap address_of e)),
    subst (λ n. Absent n l) (ap address_of f) h.1.0,
  ),
  (subst (λ n. Absent n l) (ap address_of e) h.0.1, h.1.1),
)
Distinct-Permᴰ (Permᴰ.trans p q) h = Distinct-Permᴰ q (Distinct-Permᴰ p h)

pub length-Permᴰ : {xs ys : List Hub} → Permᴰ xs ys → length xs ≡ length ys
length-Permᴰ Permᴰ.nil = refl
length-Permᴰ (Permᴰ.cons e p) = ap suc (length-Permᴰ p)
length-Permᴰ (Permᴰ.swap e f) = refl
length-Permᴰ (Permᴰ.trans p q) = length-Permᴰ p ∙ length-Permᴰ q

or_swap : (s t u : Bool) → (s || (t || u)) ≡ (t || (s || u))
or_swap true true u = refl
or_swap true false u = refl
or_swap false t u = refl

pub has_address-Permᴰ :
    (a : ℕ) {xs ys : List Hub} → Permᴰ xs ys → has_address a xs ≡ has_address a ys
has_address-Permᴰ a Permᴰ.nil = refl
has_address-Permᴰ a (Permᴰ.cons {a = x} {l₂ = ys} e p) =
    ap (λ (t : Bool). (address_of x == a) || t) (has_address-Permᴰ a p)
    ∙ ap (λ (h : Hub). has_address a (h ∷ ys)) e
has_address-Permᴰ a (Permᴰ.swap {a = x} {b = y} {b' = z} {l = l} e f) =
    or_swap (address_of x == a) (address_of y == a) (has_address a l)
    ∙ ap (λ (h : Hub). has_address a (y ∷ h ∷ l)) e
    ∙ ap (λ (h : Hub). has_address a (h ∷ z ∷ l)) f
has_address-Permᴰ a (Permᴰ.trans p q) = has_address-Permᴰ a p ∙ has_address-Permᴰ a q
