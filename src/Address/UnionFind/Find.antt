-- ===== src/Address/UnionFind/Find.antt =====
-- `find` of device_addr.rs: ranks grow along the chains of parents, so it returns the root, and path
-- compression changes no root.
use async_usb_host.Prelude.{ℕ, zero, suc, ◌+◌, ◌≤◌, ◌<◌, ◌≡◌, refl, sym, ap, ◌∙◌, ◌≢◌, inl, inr}
use async_usb_host.Prelude.{arith, List, length, set, get_or, length-set}
use async_usb_host.Prelude.{
  false, get_elem?-set_self, ◌==◌, ==→≡, ==→≢, Bool-cases, subst, ℕ_discrete,
}
use async_usb_host.Errors.{Outcome, ok, index}
use async_usb_host.Address.UnionFind.{find_within, find}
use async_usb_host.Address.UnionFind.Roots.{up, RootOf, here, step, index-up, up-set_cases}
use async_usb_host.Address.UnionFind.Roots.{RootOf-compress}

-- `rank[x]`.
abbrev pub rank_of : List ℕ → ℕ → ℕ
rank_of rank x = get_or rank x 0

-- A forest of `n` nodes in which the rank grows from child to parent and is at most `bound`.
pub record Ranked (n bound : ℕ) (parent rank : List ℕ) : Type 0 where
  pub size : length parent ≡ n
  pub size_rank : length rank ≡ n
  pub within : (x : ℕ) → x < n → up parent x < n
  pub climbs : (x : ℕ) → x < n → up parent x ≢ x → rank_of rank x < rank_of rank (up parent x)
  pub bounded : (x : ℕ) → x < n → rank_of rank x ≤ bound

pub Ranked-mono :
    {n bound more : ℕ} {parent rank : List ℕ}
    → Ranked n bound parent rank
    → bound ≤ more
    → Ranked n more parent rank
Ranked-mono v h = record {
  size = v.size;
  size_rank = v.size_rank;
  within = v.within;
  climbs = v.climbs;
  bounded = λ x hx. omega (arith, v.bounded x hx);
}

-- `o` returns the root of `x` and a forest with the same roots.
pub record Found (n bound : ℕ) (parent rank : List ℕ) (x : ℕ) (o : Outcome (List ℕ × ℕ))
    : Type 0 where
  pub out : List ℕ
  pub root : ℕ
  pub returns : o ≡ ok (out, root)
  pub ranked : Ranked n bound out rank
  pub root_of : RootOf parent root x
  pub keeps : (y r : ℕ) → RootOf parent r y → RootOf out r y
  pub below : root < n
  pub taller : x ≢ root → rank_of rank x < rank_of rank root

module _ (n bound : ℕ) (rank : List ℕ) where
  pub Ranked-set :
      (parent : List ℕ) (x w : ℕ)
      → x < n
      → w < n
      → rank_of rank x < rank_of rank w
      → Ranked n bound parent rank
      → Ranked n bound (set parent x w) rank
  Ranked-set parent x w hx hw less v = record {
    size = length-set parent x w ∙ v.size;
    size_rank = v.size_rank;
    within = λ y hy. ground (arith, up-set_cases parent x w y (rw v.size hx), v.within y);
    climbs =
        λ y hy ne. ground (arith, up-set_cases parent x w y (rw v.size hx), v.climbs y, v.within y);
    bounded = v.bounded;
  }

  -- The round of `find` below a node `x` that is no root.
  compress :
      (fuel : ℕ) (parent : List ℕ) (x : ℕ)
      → Ranked n bound parent rank
      → x < n
      → (up parent x == x) ≡ false
      → up parent x ≢ x
      → Found n bound parent rank (up parent x) (find_within fuel parent (up parent x))
      → Found n bound parent rank x (find_within (suc fuel) parent x)
  unfolding find_within
  compress fuel parent x v hx e ne rest = record {
    out = set out x root;
    root = root;
    returns = rw (index-up parent x (rw v.size hx), e, returns, reads);
    ranked = Ranked-set out x root hx below less ranked;
    root_of = found;
    keeps = λ y r h.
        RootOf-compress out x root (rw ranked.size hx) apart (keeps x root found) (keeps y r h);
    below = below;
    taller = λ _. less;
  }
    where
      open rest use {out, root, returns, ranked, root_of, keeps, below, taller}

      less : rank_of rank x < rank_of rank root
      less = elim (ℕ_discrete (up parent x) root) [
        | yes same ↦ subst (λ z. rank_of rank x < rank_of rank z) same (v.climbs x hx ne)
        | no other ↦ omega (arith, v.climbs x hx ne, taller other)
      ]

      apart : x ≢ root
      apart same = absurd (omega (arith, less, ap (rank_of rank) same))

      found : RootOf parent root x
      found = step refl ne root_of

      reads : index (set out x root) x ≡ ok root
      reads = rw (get_elem?-set_self out x root (rw ranked.size hx), index)

  pub find_within-Found :
      (fuel : ℕ) (parent : List ℕ) (x : ℕ)
      → Ranked n bound parent rank
      → x < n
      → bound < rank_of rank x + fuel
      → Found n bound parent rank x (find_within fuel parent x)
  unfolding find_within
  find_within-Found zero parent x v hx f = absurd (omega (arith, v.bounded x hx))
  find_within-Found (suc fuel) parent x v hx f = elim (Bool-cases (up parent x == x)) [
    | inl e ↦ record {
      out = parent;
      root = up parent x;
      returns = rw (index-up parent x (rw v.size hx), e);
      ranked = v;
      root_of = here (sym (==→≡ _ x e)) (ap (up parent) (==→≡ _ x e));
      keeps = λ y r h. h;
      below = v.within x hx;
      taller = λ ne. absurd (ne (sym (==→≡ _ x e)));
    }
    | inr e ↦
        let ne : up parent x ≢ x = ==→≢ _ x e in
        let less = v.climbs x hx ne in
        let up_below = v.within x hx in
        let rest = find_within-Found fuel parent (up parent x) v up_below (omega arith) in
        compress fuel parent x v hx e ne rest
  ]

  -- Every node has a root.
  pub root_total :
      (parent : List ℕ) (x : ℕ) → Ranked n bound parent rank → x < n → (r : ℕ) × RootOf parent r x
  root_total parent x v hx =
      let f = find_within-Found (suc bound) parent x v hx (omega arith) in (f.root, f.root_of)

  -- `find` gets enough fuel while the ranks are at most the number of nodes.
  pub find-Found :
      (parent : List ℕ) (x : ℕ)
      → Ranked n bound parent rank
      → bound ≤ n
      → x < n
      → Found n bound parent rank x (find parent x)
  unfolding find
  find-Found parent x v small hx =
      find_within-Found (length parent + 1) parent x v hx (omega (arith, v.size))
