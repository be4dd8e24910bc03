-- ===== src/External/ArrayVec.antt =====
-- The crate `arrayvec`, as the code uses it: `swap_remove` takes an item out of an array, whose place
-- the last item takes.
use async_usb_host.Prelude.{ℕ, zero, suc, ◌≡◌, refl, ap, ◌∙◌, List, [], ◌∷◌, ◌++◌, length}

pub record ArrayVec : Type 1 where
  pub swap_remove : {A : Type 0} → List A → ℕ → List A
  pub swap_remove_last :
      {A : Type 0} (pre : List A) (x : A) → swap_remove (pre ++ (x ∷ [])) (length pre) ≡ pre
  pub swap_remove_middle :
      {A : Type 0} (pre rest : List A) (x y : A)
      → swap_remove (pre ++ (x ∷ (rest ++ (y ∷ [])))) (length pre) ≡ pre ++ (y ∷ rest)

module _ {A : Type 0} where
  -- The last item of a list, of which the first one is given.
  abbrev pub last_or : A → List A → A
  last_or a [] = a
  last_or a (x ∷ xs) = last_or x xs

  abbrev pub without_last : List A → List A
  without_last [] = []
  without_last (x ∷ []) = []
  without_last (x ∷ y ∷ ys) = x ∷ without_last (y ∷ ys)

  pub split_last : (y : A) (ys : List A) → without_last (y ∷ ys) ++ (last_or y ys ∷ []) ≡ y ∷ ys
  split_last y [] = refl
  split_last y (z ∷ zs) = ap (◌∷◌ y) (split_last z zs)

  last_or-append : (x y : A) (xs : List A) → last_or x (xs ++ (y ∷ [])) ≡ y
  last_or-append x y [] = refl
  last_or-append x y (z ∷ zs) = last_or-append z y zs

  without_last-append : (xs : List A) (y : A) → without_last (xs ++ (y ∷ [])) ≡ xs
  without_last-append [] y = refl
  without_last-append (x ∷ []) y = refl
  without_last-append (x ∷ z ∷ zs) y = ap (◌∷◌ x) (without_last-append (z ∷ zs) y)

  abbrev remove_at : List A → ℕ → List A
  remove_at [] i = []
  remove_at (x ∷ []) zero = []
  remove_at (x ∷ y ∷ ys) zero = last_or y ys ∷ without_last (y ∷ ys)
  remove_at (x ∷ xs) (suc i) = x ∷ remove_at xs i

  remove_at_last : (pre : List A) (x : A) → remove_at (pre ++ (x ∷ [])) (length pre) ≡ pre
  remove_at_last [] x = refl
  remove_at_last (p ∷ []) x = refl
  remove_at_last (p ∷ q ∷ pre) x = ap (◌∷◌ p) (remove_at_last (q ∷ pre) x)

  remove_at_middle :
      (pre rest : List A) (x y : A)
      → remove_at (pre ++ (x ∷ (rest ++ (y ∷ [])))) (length pre) ≡ pre ++ (y ∷ rest)
  remove_at_middle [] [] x y = refl
  remove_at_middle [] (z ∷ zs) x y =
      ap (λ a. a ∷ without_last (z ∷ (zs ++ (y ∷ [])))) (last_or-append z y zs)
      ∙ ap (◌∷◌ y) (without_last-append (z ∷ zs) y)
  remove_at_middle (p ∷ []) rest x y = ap (◌∷◌ p) (remove_at_middle [] rest x y)
  remove_at_middle (p ∷ q ∷ pre) rest x y = ap (◌∷◌ p) (remove_at_middle (q ∷ pre) rest x y)

-- Lists meet the interface.
pub array_lists : ArrayVec
array_lists = record {
  swap_remove = remove_at;
  swap_remove_last = remove_at_last;
  swap_remove_middle = remove_at_middle;
}
