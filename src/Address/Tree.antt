-- ===== src/Address/Tree.antt =====
-- The tree of devices that the table of device_addr.rs describes: a device hangs on the root (parent
-- address 0) or on the device in the slot before the parent address.
use async_usb_host.Prelude.{ℕ, zero, suc, ◌≤◌, ◌<◌, ◌≡◌, refl, subst, arith}
use async_usb_host.Prelude.{dec_lt, true, false, some, none, List, [], ◌∷◌, length, get_or}
use async_usb_host.Prelude.{get_elem?-eq-get_or}
use async_usb_host.Errors.{ok, index}
use async_usb_host.Types.Port.{PortInfo, invalid, is_empty, parent_addr}

-- `info[i]`.
abbrev pub slot : List PortInfo → ℕ → PortInfo
slot info i = get_or info i invalid

pub index-slot : (info : List PortInfo) (i : ℕ) → i < length info → index info i ≡ ok (slot info i)
index-slot info i h = rw (get_elem?-eq-get_or info i invalid h, index)

pub is_empty-invalid : is_empty invalid ≡ true
unfolding is_empty
is_empty-invalid = refl

pub parent_addr-none : (p : PortInfo) → is_empty p ≡ true → parent_addr p ≡ none
unfolding parent_addr
parent_addr-none p e = ground arith

pub parent_addr-some : (p : PortInfo) (a : ℕ) → parent_addr p ≡ some a → is_empty p ≡ false
unfolding parent_addr
parent_addr-some p a e = ground arith

pub slot-beyond : (info : List PortInfo) (i : ℕ) → length info ≤ i → slot info i ≡ invalid
slot-beyond [] i h = refl
slot-beyond (p ∷ ps) zero h = absurd (omega arith)
slot-beyond (p ∷ ps) (suc i) h = slot-beyond ps i (omega arith)

-- The parent of slot `i` is slot `j`.
abbrev pub Child : List PortInfo → ℕ → ℕ → Type 0
Child info i j = parent_addr (slot info i) ≡ some (suc j)

-- Slot `i` hangs on the root port.
abbrev pub OnRoot : List PortInfo → ℕ → Type 0
OnRoot info i = parent_addr (slot info i) ≡ some 0

-- Slot `i` is slot `top` or a device behind it.
pub data Below (info : List PortInfo) (top : ℕ) : ℕ → Type 0 where
  top_itself : {i : ℕ} → i ≡ top → Below info top i
  behind : {i j : ℕ} → Child info i j → Below info top j → Below info top i

-- The chain of parents of slot `i` ends at the root port.
pub data Rooted (info : List PortInfo) : ℕ → Type 0 where
  on_root : {i : ℕ} → OnRoot info i → Rooted info i
  child : {i j : ℕ} → Child info i j → Rooted info j → Rooted info i

-- Every device is rooted, at most one hangs on the root port, and empty slots are all alike.
pub record IsTree (info : List PortInfo) : Type 0 where
  pub rooted : (i : ℕ) → is_empty (slot info i) ≡ false → Rooted info i
  pub one_root : (i j : ℕ) → OnRoot info i → OnRoot info j → i ≡ j
  pub clean : (i : ℕ) → is_empty (slot info i) ≡ true → slot info i ≡ invalid

pub Rooted-occupied :
    {info : List PortInfo} {i : ℕ} → Rooted info i → is_empty (slot info i) ≡ false
Rooted-occupied (on_root e) = parent_addr-some _ _ e
Rooted-occupied (child e r) = parent_addr-some _ _ e

pub occupied_within :
    (info : List PortInfo) (i : ℕ) → is_empty (slot info i) ≡ false → i < length info
unfolding is_empty
occupied_within info i e = elim (dec_lt i (length info)) [
  | yes h ↦ h
  | no h ↦ ground (arith, slot-beyond info i (omega arith))
]

pub Rooted-parent :
    {info : List PortInfo} {i j : ℕ} → Rooted info i → Child info i j → Rooted info j
Rooted-parent (on_root e) c = absurd (ground arith)
Rooted-parent {info} (child e r) c = subst (Rooted info) (ground arith) r

-- The slot on the root port that a chain of parents ends at.
pub root_above : {info : List PortInfo} {i : ℕ} → Rooted info i → (g : ℕ) × OnRoot info g
root_above (on_root {i} e) = (i, e)
root_above (child e r) = root_above r
