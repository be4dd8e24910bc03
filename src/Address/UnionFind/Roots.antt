-- ===== src/Address/UnionFind/Roots.antt =====
-- The root of a node of the union-find of device_addr.rs, and what a write to `parent` does to it.
use async_usb_host.Prelude.{
  ℕ, zero, suc, ◌+◌, arith, ◌<◌, ◌≡◌, refl, sym, subst, ◌∙◌, ◌≢◌, ◌⊎◌, inl, inr,
}
use async_usb_host.Prelude.{List, length, set, get_or, get_or-set_self, get_or-set_ne}
use async_usb_host.Prelude.{get_elem?-eq-get_or, ℕ_discrete}
use async_usb_host.Errors.{ok, index}
use async_usb_host.Address.UnionFind.{count_up}

pub length-count_up : (i n : ℕ) → length (count_up i n) ≡ n
unfolding count_up
length-count_up i zero = refl
length-count_up i (suc n) = omega (arith, length-count_up (i + 1) n)

pub get_or-count_up : (i n x d : ℕ) → x < n → get_or (count_up i n) x d ≡ i + x
unfolding count_up
get_or-count_up i zero x d h = absurd (omega arith)
get_or-count_up i (suc n) zero d h = omega arith
get_or-count_up i (suc n) (suc x) d h = omega (arith, get_or-count_up (i + 1) n x d (omega arith))

-- `parent[x]`.
abbrev pub up : List ℕ → ℕ → ℕ
up p x = get_or p x x

-- `r` is the root of the node `x`.
pub data RootOf (p : List ℕ) (r : ℕ) : ℕ → Type 0 where
  here : {x : ℕ} → x ≡ r → up p r ≡ r → RootOf p r x
  step : {x y : ℕ} → up p x ≡ y → y ≢ x → RootOf p r y → RootOf p r x

pub index-up : (p : List ℕ) (x : ℕ) → x < length p → index p x ≡ ok (up p x)
index-up p x h = rw (get_elem?-eq-get_or p x x h, index)

-- What a write to `parent` changes.
pub up-set_cases :
    (p : List ℕ) (x w y : ℕ)
    → x < length p
    → (x ≡ y) × (up (set p x w) y ≡ w) ⊎ (x ≢ y) × (up (set p x w) y ≡ up p y)
up-set_cases p x w y h = elim (ℕ_discrete x y) [
  | yes e ↦ inl (e, subst (λ z. up (set p x w) z ≡ w) e (get_or-set_self p x w x h))
  | no d ↦ inr (d, get_or-set_ne p x y w y d)
]

pub RootOf-unique : {p : List ℕ} {r s x : ℕ} → RootOf p r x → RootOf p s x → r ≡ s
RootOf-unique (here e t) (here e' t') = sym e ∙ e'
RootOf-unique {p} (here e t) (step u ne r) = absurd (ne (sym u ∙ subst (λ z. up p z ≡ z) (sym e) t))
RootOf-unique {p} (step u ne r) (here e t) = absurd (ne (sym u ∙ subst (λ z. up p z ≡ z) (sym e) t))
RootOf-unique {p} {s = s} (step u ne r) (step u' ne' r') =
    RootOf-unique r (subst (RootOf p s) (sym u' ∙ u) r')

pub RootOf-up : {p : List ℕ} {r x : ℕ} → RootOf p r x → up p r ≡ r
RootOf-up (here e t) = t
RootOf-up (step u ne r) = RootOf-up r

-- The root after a union in which the root `x` came under `w`.
abbrev pub moved : ℕ → ℕ → ℕ → ℕ
moved x w r = elim (ℕ_discrete x r) [ yes _ ↦ w | no _ ↦ r ]

-- A node that points at its own root, or at a new one: the winner `w` of a union.
module _ (p : List ℕ) (x w : ℕ) (within : x < length p) (other : x ≢ w) where
  up-set_self : up (set p x w) x ≡ w
  up-set_self = get_or-set_self p x w x within

  up-set_ne : (y : ℕ) → x ≢ y → up (set p x w) y ≡ up p y
  up-set_ne y ne = get_or-set_ne p x y w y ne

  -- The write makes `w` the root of `x`, when `w` is a root.
  RootOf-set_self : up p w ≡ w → RootOf (set p x w) w x
  RootOf-set_self t = step up-set_self (λ e. other (sym e)) (here refl (up-set_ne w other ∙ t))

  -- The write of path compression keeps every root.
  pub RootOf-compress : {r y : ℕ} → RootOf p w x → RootOf p r y → RootOf (set p x w) r y
  RootOf-compress {r} {y} top (here e t) = here e (up-set_ne r apart ∙ t)
    where
      apart : x ≢ r
      apart e' = other (e' ∙ sym (RootOf-unique top (here e' t)))
  RootOf-compress {r} {y} top (step u ne rest) = elim (ℕ_discrete x y) [
    | yes e ↦
        let same = RootOf-unique top (subst (RootOf p r) (sym e) (step u ne rest)) in
        subst (λ s. RootOf (set p x w) s y) same
          (subst (RootOf (set p x w) w) e (RootOf-set_self (RootOf-up top)))
    | no d ↦ step (up-set_ne y d ∙ u) ne (RootOf-compress top rest)
  ]

  -- The write of a union moves the nodes below the root `x` to the root `w`.
  pub RootOf-link :
      {r y : ℕ} → up p x ≡ x → up p w ≡ w → RootOf p r y → RootOf (set p x w) (moved x w r) y
  RootOf-link {r} {y} tx tw (here e t) =
      elim (ℕ_discrete x r) as (λ d. RootOf (set p x w) (elim d [ yes _ ↦ w | no _ ↦ r ]) y) [
        | yes same ↦ subst (RootOf (set p x w) w) (same ∙ sym e) (RootOf-set_self tw)
        | no d ↦ here e (up-set_ne r d ∙ t)
      ]
  RootOf-link {r} {y} tx tw (step u ne rest) =
      step (up-set_ne y apart ∙ u) ne (RootOf-link tx tw rest)
    where
      apart : x ≢ y
      apart e = ne (sym u ∙ subst (λ z. up p z ≡ z) e tx)
