-- ===== src/Address/RootComponent.antt =====
-- The loop of `free_subtree` of device_addr.rs that looks for the component of the root.
use async_usb_host.Prelude.{
  ℕ, zero, suc, ◌+◌, ◌≤◌, ◌<◌, ◌≡◌, sym, subst, ◌≢◌, ◌↔◌, Option, inl, inr,
}
use async_usb_host.Prelude.{arith, true, not, ◌&&◌, Bool-cases, some, List, length}
use async_usb_host.Errors.{Outcome, ok}
use async_usb_host.Types.Port.{PortInfo, is_empty, parent_addr}
use async_usb_host.Address.{root_component, is_root}
use async_usb_host.Address.Tree.{slot, index-slot, parent_addr-some, OnRoot}
use async_usb_host.Address.UnionFind.Roots.{RootOf}
use async_usb_host.Address.UnionFind.Find.{Ranked, find-Found}

is_root-OnRoot : (p : PortInfo) → (is_root p ≡ true) ↔ (parent_addr p ≡ some 0)
unfolding is_root
is_root-OnRoot p = ground arith

module _ (n : ℕ) (rank : List ℕ) where
  -- The search found the root `r` of a slot on the root port, and kept all roots.
  pub record RootFound (info : List PortInfo) (parent : List ℕ) (o : Outcome (List ℕ × Option ℕ))
      : Type 0 where
    pub out : List ℕ
    pub root : ℕ
    pub returns : o ≡ ok (out, some root)
    pub ranked : Ranked n n out rank
    pub keeps : (z r : ℕ) → RootOf parent r z → RootOf out r z
    pub at : ℕ
    pub on_root : OnRoot info at
    pub root_of : RootOf parent root at

  pub root_component-RootFound :
      (left i g : ℕ) (info : List PortInfo) (parent : List ℕ)
      → Ranked n n parent rank
      → length info ≡ n
      → i + left ≡ n
      → i ≤ g
      → g < n
      → OnRoot info g
      → RootFound info parent (root_component left i info parent)
  unfolding root_component
  root_component-RootFound zero i g info parent v size e lo hi on = absurd (omega arith)
  root_component-RootFound (suc left) i g info parent v size e lo hi on =
      elim (Bool-cases (not (is_empty (slot info i)) && is_root (slot info i))) [
        | inl yes_root ↦
            let f = find-Found n n rank parent i v (omega arith) (omega arith) in
            record {
              out = f.out;
              root = f.root;
              returns = rw (index-slot info i (omega arith), yes_root, f.returns);
              ranked = f.ranked;
              keeps = f.keeps;
              at = i;
              on_root = (is_root-OnRoot (slot info i)).0 (ground arith);
              root_of = f.root_of;
            }
        | inr no_root ↦
            let differs : ¬ OnRoot info i = λ on'. ground (
              arith,
              no_root,
              parent_addr-some (slot info i) 0 on',
              (is_root-OnRoot (slot info i)).1 on',
            ) in
            let later : i ≢ g = λ e. differs (subst (OnRoot info) (sym e) on) in
            let rest =
              root_component-RootFound left (i + 1) g info parent v size (omega arith) (omega arith)
                hi on in
            record {
              out = rest.out;
              root = rest.root;
              returns = rw (index-slot info i (omega arith), no_root) rest.returns;
              ranked = rest.ranked;
              keeps = rest.keeps;
              at = rest.at;
              on_root = rest.on_root;
              root_of = rest.root_of;
            }
      ]
