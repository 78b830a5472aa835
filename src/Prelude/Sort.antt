-- ===== src/Prelude/Sort.antt =====
-- ORDER BY a number: a stable insertion sort. SQLite leaves the order of ties open; here ties keep
-- the order of the rows.
use Prim.Native.Nat.{ℕ}
use mathlib.Core.Path.{◌≡◌, refl}
use mathlib.Core.Bool.{Bool, true}
use mathlib.Core.List.{List, [], ◌∷◌}
use native.Mathlib.Omega.{arith}
use qiyan_bot.Prelude.Lists.{any}
use qiyan_bot.Prelude.Tests.{if◌then◌else◌, ltb}

module _ {ℓ} {A : Type ℓ} (rank : A → ℕ) where
  unfoldable pub insert_by : A → List A → List A
  insert_by x [] = x ∷ []
  insert_by x (y ∷ ys) = if ltb (rank x) (rank y) then x ∷ y ∷ ys else y ∷ insert_by x ys

  -- later rows are inserted behind their equals
  unfoldable pub sort_onto : List A → List A → List A
  sort_onto sorted [] = sorted
  sort_onto sorted (x ∷ xs) = sort_onto (insert_by x sorted) xs

  unfoldable pub sort_by : List A → List A
  unfolding sort_onto insert_by
  sort_by xs = sort_onto [] xs

  any-insert_by :
      (p : A → Bool) (x : A) (ys : List A)
      → any p (insert_by x ys) ≡ (if p x then true else any p ys)
  unfolding insert_by
  any-insert_by p x [] = refl
  any-insert_by p x (y ∷ ys) = ground (arith, any-insert_by p x ys)

  any-sort_onto :
      (p : A → Bool) (sorted xs : List A)
      → any p (sort_onto sorted xs) ≡ (if any p sorted then true else any p xs)
  unfolding sort_onto
  any-sort_onto p sorted [] = ground arith
  any-sort_onto p sorted (x ∷ xs) =
      ground (arith, any-sort_onto p (insert_by x sorted) xs, any-insert_by p x sorted)

  -- sorting neither drops nor invents a row
  pub any-sort_by : (p : A → Bool) (xs : List A) → any p (sort_by xs) ≡ any p xs
  unfolding sort_by
  any-sort_by p xs = any-sort_onto p [] xs
