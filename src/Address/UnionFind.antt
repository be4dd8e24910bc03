-- ===== src/Address/UnionFind.antt =====
-- The union-find that `free_subtree` of device_addr.rs keeps inside itself: `parent` and `rank`,
-- `find` with path compression, `union` by rank.
pub mod Roots
pub mod Find
pub mod Union
use async_usb_host.Prelude.{ℕ, zero, suc, ◌+◌, ◌≡◌, List, [], ◌∷◌, length, set}
use async_usb_host.Prelude.{ltb, ◌==◌, if◌then◌else◌}
use async_usb_host.Errors.{Outcome, ok, panics, index, ◌>>=◌}

pub record Forest : Type 0 where
  pub parent : List ℕ
  pub rank : List ℕ

-- The recursion of the inner `find`. Without fuel the call stack is exhausted, which aborts.
unfoldable pub find_within : ℕ → List ℕ → ℕ → Outcome (List ℕ × ℕ)
find_within zero parent x = panics
find_within (suc fuel) parent x = do
  up ← index parent x
  let climb : Outcome (List ℕ × ℕ) = do
    (parent', root) ← find_within fuel parent up
    r ← index (set parent' x root) x
    ok (set parent' x root, r)
  if up == x then ok (parent, up) else climb

-- A chain of parents is at most as long as the array.
unfoldable pub find : List ℕ → ℕ → Outcome (List ℕ × ℕ)
find parent x = find_within (length parent + 1) parent x

-- The branches of `union` on the ranks `a` and `b` of two different roots.
link : Forest → ℕ → ℕ → ℕ → ℕ → Forest
link s x_root y_root a b =
    if ltb a b
    then record s { parent = set s.parent x_root y_root }
    else if ltb b a
    then record s { parent = set s.parent y_root x_root }
    else record { parent = set s.parent y_root x_root; rank = set s.rank x_root (a + 1) }

unfoldable pub union : Forest → ℕ → ℕ → Outcome Forest
unfolding link
union s x y = do
  (p, x_root) ← find s.parent x
  (q, y_root) ← find p y
  let joined : Outcome Forest = do
    a ← index s.rank x_root
    b ← index s.rank y_root
    ok (link (record s { parent = q }) x_root y_root a b)
  if x_root == y_root then ok (record s { parent = q }) else joined

-- `[0, 1, …, n - 1]`, from `i`.
pub count_up : ℕ → ℕ → List ℕ
count_up i zero = []
count_up i (suc n) = i ∷ count_up (i + 1) n
