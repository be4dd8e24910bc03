-- ===== src/Address/Connect.antt =====
-- The first loop of `free_subtree` of device_addr.rs, which connects each device to its parent.
use async_usb_host.Prelude.{ℕ, zero, suc, ◌+◌, ◌-◌, ◌<◌, ◌≡◌, refl, sym, subst, ◌∙◌, ◌⊎◌, inl, inr}
use async_usb_host.Prelude.{arith, dec_lt, Option, some, none, List}
use async_usb_host.Prelude.{length, replicate, length-replicate, get_or-replicate}
use async_usb_host.Errors.{Outcome, ok}
use async_usb_host.Loops.{for_range, for_range_keeps}
use async_usb_host.Types.Port.{PortInfo, parent_addr}
use async_usb_host.Address.{connect}
use async_usb_host.Address.Tree.{slot, index-slot, parent_addr-some, Child}
use async_usb_host.Address.UnionFind.{Forest, union, count_up}
use async_usb_host.Address.UnionFind.Roots.{up, RootOf, here, RootOf-unique, length-count_up}
use async_usb_host.Address.UnionFind.Roots.{get_or-count_up}
use async_usb_host.Address.UnionFind.Find.{Ranked, Ranked-mono, root_total}
use async_usb_host.Address.UnionFind.Union.{Joined, union-Joined}

-- The parts of the table that its parent links connect.
pub data Connected (info : List PortInfo) : ℕ → ℕ → Type 0 where
  self : {i : ℕ} → Connected info i i
  link : {i j : ℕ} → Child info i j → Connected info i j
  back : {i j : ℕ} → Connected info i j → Connected info j i
  join : {i j k : ℕ} → Connected info i j → Connected info j k → Connected info i k

-- The forest after the first `k` rounds.
pub record Built (info : List PortInfo) (k : ℕ) (s : Forest) : Type 0 where
  pub ranked : Ranked (length info) k s.parent s.rank
  pub sound : (z r : ℕ) → z < length info → RootOf s.parent r z → Connected info z r
  pub done :
      (i j : ℕ) → i < k → Child info i j → (r : ℕ) × RootOf s.parent r i × RootOf s.parent r j

module _ (info : List PortInfo)
    (inside : (i j : ℕ) → i < length info → Child info i j → j < length info) where
  -- A round at a slot with no parent device changes nothing.
  connect-none :
      (i : ℕ) (s : Forest)
      → i < length info
      → parent_addr (slot info i) ≡ none ⊎ parent_addr (slot info i) ≡ some 0
      → connect info i s ≡ ok s
  unfolding connect
  connect-none i s h (inl e) = rw (index-slot info i h, e) (ground arith)
  connect-none i s h (inr e) = rw (index-slot info i h, e) (ground arith)

  connect-union :
      (i j : ℕ) (s : Forest) → i < length info → Child info i j → connect info i s ≡ union s i j
  unfolding connect
  connect-union i j s h e =
      rw (index-slot info i h, parent_addr-some _ _ e, e) (ground (arith, same))
    where
      same : suc j - 1 ≡ j
      same = omega arith

  Built-none :
      (i : ℕ) (s : Forest) → ((j : ℕ) → ¬ Child info i j) → Built info i s → Built info (i + 1) s
  Built-none i s free b = record {
    ranked = Ranked-mono b.ranked (omega arith);
    sound = b.sound;
    done = λ k j hk c. elim (dec_lt k i) [
      | yes h ↦ b.done k j h c
      | no h ↦ absurd (free j (subst (λ t. Child info t j) (omega arith) c))
    ];
  }

  Built-union :
      (i j : ℕ) (s : Forest) (o : Outcome Forest)
      → i < length info
      → Child info i j
      → Built info i s
      → (u : Joined (length info) i s i j o) → Built info (i + 1) u.out
  Built-union i j s o hi c b u = record {
    ranked = Ranked-mono u.ranked (omega arith);
    sound = sound;
    done = λ k l hk c'. elim (dec_lt k i) [
      | yes h ↦ let (r, rk, rl) = b.done k l h c' in (u.moves r, u.keeps k r rk, u.keeps l r rl)
      | no h ↦ last k l (omega arith) c'
    ];
  }
    where
      near : (t : ℕ) → RootOf s.parent t i ⊎ RootOf s.parent t j → Connected info i t
      near t (inl h) = b.sound i t hi h
      near t (inr h) = join (link c) (b.sound j t (inside i j hi c) h)

      sound : (z r : ℕ) → z < length info → RootOf u.out.parent r z → Connected info z r
      sound z r hz h =
          let (old, ho) = root_total (length info) i s.rank s.parent z b.ranked hz in
          let same = RootOf-unique (u.keeps z old ho) h in
          elim (u.only old) [
            | inl kept ↦ subst (Connected info z) (sym kept ∙ same) (b.sound z old hz ho)
            | inr (side, m) ↦
                subst (Connected info z) (sym m ∙ same) (
                  join (b.sound z old hz ho) (join (back (near old side)) (near u.root u.old_root)))
          ]

      last :
          (k l : ℕ)
          → i ≡ k
          → Child info k l
          → (r : ℕ) × RootOf u.out.parent r k × RootOf u.out.parent r l
      last k l e c' =
          let other : Child info i l = subst (λ t. Child info t l) (sym e) c' in
          let same : j ≡ l = ground arith in
          (
            u.root,
            subst (RootOf u.out.parent u.root) e u.root_of_x,
            subst (RootOf u.out.parent u.root) same u.root_of_y,
          )

  abbrev Round : ℕ → Forest → Type 0
  Round i s = (t : Forest) × (connect info i s ≡ ok t) × Built info (i + 1) t

  idle :
      (i : ℕ) (s : Forest) (a : Option ℕ)
      → i < length info
      → parent_addr (slot info i) ≡ a
      → a ≡ none ⊎ a ≡ some 0
      → Built info i s
      → Round i s
  idle i s a hi e either b = (s, connect-none i s hi (rw e either), Built-none i s free b)
    where
      free : (j : ℕ) → ¬ Child info i j
      free j c = ground arith

  round_at :
      (i : ℕ) (s : Forest) (a : Option ℕ)
      → i < length info
      → parent_addr (slot info i) ≡ a
      → Built info i s
      → Round i s
  round_at i s none hi e b = idle i s none hi e (inl refl) b
  round_at i s (some zero) hi e b = idle i s (some 0) hi e (inr refl) b
  round_at i s (some (suc j)) hi e b =
      let u = union-Joined (length info) i s i j b.ranked (omega arith) hi (inside i j hi e) in
      (u.out, connect-union i j s hi e ∙ u.returns, Built-union i j s (union s i j) hi e b u)

  -- The singletons that the loop starts from.
  abbrev pub start : Forest
  start = record { parent = count_up 0 (length info); rank = replicate (length info) 0 }

  Built-start : Built info 0 start
  Built-start = record {
    ranked = record {
      size = length-count_up 0 (length info);
      size_rank = length-replicate (length info) 0;
      within = λ x h. omega (arith, up-count_up x h);
      climbs = λ x h ne. absurd (ne (up-count_up x h));
      bounded = λ x h. omega (arith, get_or-replicate {A = ℕ} (length info) x 0);
    };
    sound = λ z r h root.
        subst (Connected info z) (RootOf-unique (here refl (up-count_up z h)) root) self;
    done = λ i j h c. absurd (omega arith);
  }
    where
      up-count_up : (x : ℕ) → x < length info → up (count_up 0 (length info)) x ≡ x
      up-count_up x h = omega (arith, get_or-count_up 0 (length info) x x h)

  -- The loop returns; two slots are in one component exactly when the table connects them.
  pub connect_loop :
      (s : Forest) × (for_range (length info) 0 (connect info) start ≡ ok s)
      × Built info (length info) s
  connect_loop =
      for_range_keeps (Built info) (connect info) (length info)
        (λ i s hi b. round_at i s (parent_addr (slot info i)) hi refl b) (length info) 0 start
        (omega arith) Built-start
