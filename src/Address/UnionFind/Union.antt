-- ===== src/Address/UnionFind/Union.antt =====
-- `union` of device_addr.rs: it returns a forest in which the components of its two nodes are one,
-- and no other two are.
use async_usb_host.Prelude.{
  ℕ, suc, ◌+◌, ◌≤◌, ◌<◌, ◌≡◌, refl, sym, ap, subst, ◌∙◌, ◌≢◌, ◌⊎◌, inl, inr,
}
use async_usb_host.Prelude.{false, arith, List, set, length-set, get_or-set_self}
use async_usb_host.Prelude.{get_or-set_ne, get_elem?-eq-get_or, ltb, Bool-cases}
use async_usb_host.Prelude.{ℕ_discrete}
use async_usb_host.Errors.{Outcome, ok, index}
use async_usb_host.Address.UnionFind.{Forest, find, union, link}
use async_usb_host.Address.UnionFind.Roots.{
  up, RootOf, moved, RootOf-unique, RootOf-up, RootOf-link,
}
use async_usb_host.Address.UnionFind.Find.{
  Ranked, Found, rank_of, Ranked-set, Ranked-mono, find-Found,
}

-- `o` returns a forest in which `x` and `y` have one root, an old root of one of them; `moves` sends
-- each old root to the new one, and moves none but the old roots of `x` and `y`.
pub record Joined (n bound : ℕ) (s : Forest) (x y : ℕ) (o : Outcome Forest) : Type 0 where
  pub out : Forest
  pub returns : o ≡ ok out
  pub ranked : Ranked n (suc bound) out.parent out.rank
  pub moves : ℕ → ℕ
  pub keeps : (z r : ℕ) → RootOf s.parent r z → RootOf out.parent (moves r) z
  pub root : ℕ
  pub root_of_x : RootOf out.parent root x
  pub root_of_y : RootOf out.parent root y
  pub old_root : RootOf s.parent root x ⊎ RootOf s.parent root y
  pub only :
      (r : ℕ) → (moves r ≡ r) ⊎ ((RootOf s.parent r x ⊎ RootOf s.parent r y) × (moves r ≡ root))

moved_winner : (l w : ℕ) → moved l w w ≡ w
moved_winner l w = elim (ℕ_discrete l w) as (λ d. elim d [ yes _ ↦ w | no _ ↦ w ] ≡ w) [
  | yes e ↦ refl
  | no d ↦ refl
]

moved_loser : (l w : ℕ) → moved l w l ≡ w
moved_loser l w = elim (ℕ_discrete l l) as (λ d. elim d [ yes _ ↦ w | no _ ↦ l ] ≡ w) [
  | yes e ↦ refl
  | no d ↦ absurd (d refl)
]

moved_cases : (l w r : ℕ) → (moved l w r ≡ r) ⊎ (l ≡ r) × (moved l w r ≡ w)
moved_cases l w r =
    elim (ℕ_discrete l r)
      as (λ d.
        (elim d [ yes _ ↦ w | no _ ↦ r ] ≡ r) ⊎ (l ≡ r) × (elim d [ yes _ ↦ w | no _ ↦ r ] ≡ w)) [
          | yes e ↦ inr (e, refl)
          | no d ↦ inl refl
        ]

-- A root may rise by one rank.
Ranked-raise :
    (n bound : ℕ) (parent rank : List ℕ) (w : ℕ)
    → w < n
    → up parent w ≡ w
    → Ranked n bound parent rank
    → Ranked n (suc bound) parent (set rank w (rank_of rank w + 1))
Ranked-raise n bound parent rank w hw top v = record {
  size = v.size;
  size_rank = length-set rank w (rank_of rank w + 1) ∙ v.size_rank;
  within = v.within;
  climbs =
      λ x hx ne. ground (arith, raised x, raised (up parent x), v.climbs x hx ne, v.within x hx);
  bounded = λ x hx. ground (arith, raised x, v.bounded x hx, v.bounded w hw);
}
  where
    raised :
        (x : ℕ)
        → (w ≡ x) × (rank_of (set rank w (rank_of rank w + 1)) x ≡ rank_of rank w + 1)
          ⊎ (w ≢ x) × (rank_of (set rank w (rank_of rank w + 1)) x ≡ rank_of rank x)
    raised x = elim (ℕ_discrete w x) [
      | yes e ↦ inl (
        e,
        subst (λ z. rank_of (set rank w (rank_of rank w + 1)) z ≡ rank_of rank w + 1) e
            (get_or-set_self rank w _ 0 (rw v.size_rank hw)),
      )
      | no d ↦ inr (d, get_or-set_ne rank w x _ 0 d)
    ]

module _ (n bound : ℕ) (s : Forest) (x y : ℕ) where
  -- The root `l` comes under the root `w`.
  linked :
      (q rank : List ℕ) (l w : ℕ) (o : Outcome Forest)
      → l < n
      → w < n
      → Ranked n (suc bound) q rank
      → rank_of rank l < rank_of rank w
      → up q l ≡ l
      → up q w ≡ w
      → ((z r : ℕ) → RootOf s.parent r z → RootOf q r z)
      → (RootOf s.parent l x × RootOf s.parent w y ⊎ RootOf s.parent w x × RootOf s.parent l y)
      → o ≡ ok (record { parent = set q l w; rank = rank })
      → Joined n bound s x y o
  linked q rank l w o hl hw v less tl tw keep roots e = record {
    out = record { parent = set q l w; rank = rank };
    returns = e;
    ranked = Ranked-set n (suc bound) rank q l w hl hw less v;
    moves = moved l w;
    keeps = keeps';
    root = w;
    root_of_x = elim roots [ inl h ↦ loser x h.0 | inr h ↦ winner x h.0 ];
    root_of_y = elim roots [ inl h ↦ winner y h.1 | inr h ↦ loser y h.1 ];
    old_root = elim roots [ inl h ↦ inr h.1 | inr h ↦ inl h.0 ];
    only = λ r. elim (moved_cases l w r) [
      | inl same ↦ inl same
      | inr (e', m) ↦ inr (
        subst (λ t. RootOf s.parent t x ⊎ RootOf s.parent t y) e'
            (elim roots [ inl h ↦ inl h.0 | inr h ↦ inr h.1 ]),
        m,
      )
    ];
  }
    where
      apart : l ≢ w
      apart e' = absurd (omega (arith, less, ap (rank_of rank) e'))

      keeps' : (z r : ℕ) → RootOf s.parent r z → RootOf (set q l w) (moved l w r) z
      keeps' z r h = RootOf-link q l w (rw v.size hl) apart tl tw (keep z r h)

      winner : (z : ℕ) → RootOf s.parent w z → RootOf (set q l w) w z
      winner z h = subst (λ t. RootOf (set q l w) t z) (moved_winner l w) (keeps' z w h)

      loser : (z : ℕ) → RootOf s.parent l z → RootOf (set q l w) w z
      loser z h = subst (λ t. RootOf (set q l w) t z) (moved_loser l w) (keeps' z l h)

  module _ (v : Ranked n bound s.parent s.rank) (small : bound ≤ n) (hx : x < n) (hy : y < n) where
    fx : Found n bound s.parent s.rank x (find s.parent x)
    fx = find-Found n bound s.rank s.parent x v small hx

    fy : Found n bound fx.out s.rank y (find fx.out y)
    fy = find-Found n bound s.rank fx.out y fx.ranked small hy

    keeps_both : (z r : ℕ) → RootOf s.parent r z → RootOf fy.out r z
    keeps_both z r h = fy.keeps z r (fx.keeps z r h)

    old-RootOf_y : RootOf s.parent fy.root y
    old-RootOf_y =
        let f = find-Found n bound s.rank s.parent y v small hy in
        subst (λ r. RootOf s.parent r y) (RootOf-unique (fx.keeps y f.root f.root_of) fy.root_of)
          f.root_of

    rank_x : index s.rank fx.root ≡ ok (rank_of s.rank fx.root)
    rank_x = rw (get_elem?-eq-get_or s.rank fx.root 0 (rw v.size_rank fx.below), index)

    rank_y : index s.rank fy.root ≡ ok (rank_of s.rank fy.root)
    rank_y = rw (get_elem?-eq-get_or s.rank fy.root 0 (rw v.size_rank fy.below), index)

    -- Two different roots: `union` comes to `link`.
    union-link :
        fx.root ≢ fy.root
        → union s x y
          ≡ ok (
              link
                (record s { parent = fy.out })
                fx.root
                fy.root
                (rank_of s.rank fx.root)
                (rank_of s.rank fy.root))
    unfolding union
    union-link ne = rw (fx.returns, fy.returns, rank_x, rank_y) (ground arith)

    union_same : fx.root ≡ fy.root → union s x y ≡ ok (record s { parent = fy.out })
    unfolding union
    union_same e = rw (fx.returns, fy.returns, rank_x, rank_y) (ground arith)

    top_x : up fy.out fx.root ≡ fx.root
    top_x = RootOf-up (keeps_both x fx.root fx.root_of)

    top_y : up fy.out fy.root ≡ fy.root
    top_y = RootOf-up (keeps_both y fy.root old-RootOf_y)

    Joined-other : fx.root ≢ fy.root → Joined n bound s x y (union s x y)
    unfolding link
    Joined-other ne = elim (Bool-cases (ltb (rank_of s.rank fx.root) (rank_of s.rank fy.root))) [
      | inl e ↦
          linked fy.out s.rank fx.root fy.root (union s x y) fx.below fy.below
            (Ranked-mono fy.ranked (omega arith)) (ground arith) top_x top_y keeps_both
            (inl (fx.root_of, old-RootOf_y)) (union-link ne ∙ rw e)
      | inr e ↦ elim (Bool-cases (ltb (rank_of s.rank fy.root) (rank_of s.rank fx.root))) [
        | inl e' ↦
            linked fy.out s.rank fy.root fx.root (union s x y) fy.below fx.below
              (Ranked-mono fy.ranked (omega arith)) (ground arith) top_y top_x keeps_both
              (inr (fx.root_of, old-RootOf_y)) (union-link ne ∙ rw (e, e'))
        | inr e' ↦
            linked fy.out (set s.rank fx.root (rank_of s.rank fx.root + 1)) fy.root fx.root
              (union s x y) fy.below fx.below
              (Ranked-raise n bound fy.out s.rank fx.root fx.below top_x fy.ranked) (raised e e')
              top_y top_x keeps_both (inr (fx.root_of, old-RootOf_y)) (union-link ne ∙ rw (e, e'))
      ]
    ]
      where
        raised :
            ltb (rank_of s.rank fx.root) (rank_of s.rank fy.root) ≡ false
            → ltb (rank_of s.rank fy.root) (rank_of s.rank fx.root) ≡ false
            → rank_of (set s.rank fx.root (rank_of s.rank fx.root + 1)) fy.root
              < rank_of (set s.rank fx.root (rank_of s.rank fx.root + 1)) fx.root
        raised e e' = ground (
          arith,
          get_or-set_self s.rank fx.root (rank_of s.rank fx.root + 1) 0 (rw v.size_rank fx.below),
          get_or-set_ne s.rank fx.root fy.root (rank_of s.rank fx.root + 1) 0 ne,
        )

    -- In a forest of `n` nodes whose ranks grow upwards and are at most `bound ≤ n`, `union` of two
    -- nodes returns; their components become one, and no other two do.
    pub union-Joined : Joined n bound s x y (union s x y)
    union-Joined = elim (ℕ_discrete fx.root fy.root) [
      | yes e ↦ record {
        out = record s { parent = fy.out };
        returns = union_same e;
        ranked = Ranked-mono fy.ranked (omega arith);
        moves = λ r. r;
        keeps = keeps_both;
        root = fx.root;
        root_of_x = keeps_both x fx.root fx.root_of;
        root_of_y = subst (λ r. RootOf fy.out r y) (sym e) (keeps_both y fy.root old-RootOf_y);
        old_root = inl fx.root_of;
        only = λ r. inl refl;
      }
      | no ne ↦ Joined-other ne
    ]
