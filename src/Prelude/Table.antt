-- ===== src/Prelude/Table.antt =====
-- Tables keyed by a text: SQLite tables with a primary key, and JavaScript maps. The rows stand in
-- the order in which they were inserted. A key names at most one row, so an UPDATE by key writes
-- the first row that has it.
use Prim.Native.String.{String}
use mathlib.Core.Path.{◌≡◌, refl, ap}
use mathlib.Core.Bool.{Bool, true, false}
use mathlib.Core.Option.{Option, none, some}
use mathlib.Core.List.{List, [], ◌∷◌, ◌++◌}
use native.Mathlib.Omega.{arith}
use text.Mathlib.Text.{◌==◌ as str_eq}
use text.Mathlib.TextEquality.{eq_iff}
use mathlib.Core.Logic.{inl, inr, ◌≢◌}
use qiyan_bot.Prelude.Lists.{All}
use qiyan_bot.Prelude.Tests.{if◌then◌else◌, is_some, Bool-cases}

module _ {ℓ} {R : Type ℓ} where
  -- what an UPDATE ... SET f WHERE guard makes of the row that it finds
  abbrev pub written : (R → Bool) → (R → R) → Option R → Option R
  written guard f none = none
  written guard f (some r) = some (if guard r then f r else r)

  abbrev pub passes : (R → Bool) → Option R → Bool
  passes guard none = false
  passes guard (some r) = guard r

module _ {ℓ} {R : Type ℓ} (key : R → String) where
  -- SELECT ... WHERE key = k
  unfoldable pub get : String → List R → Option R
  get k [] = none
  get k (r ∷ rs) = if str_eq (key r) k then some r else get k rs

  -- UPDATE ... SET f WHERE key = k AND guard
  unfoldable pub modify : String → (R → Bool) → (R → R) → List R → List R
  modify k guard f [] = []
  modify k guard f (r ∷ rs) =
      if str_eq (key r) k then (if guard r then f r else r) ∷ rs else r ∷ modify k guard f rs

  -- whether that UPDATE changes a row: `.changes === 1`
  abbrev pub changes : String → (R → Bool) → List R → Bool
  changes k guard rs = passes guard (get k rs)

  -- DELETE ... WHERE key = k AND guard
  unfoldable pub delete : String → (R → Bool) → List R → List R
  delete k guard [] = []
  delete k guard (r ∷ rs) =
      let rest = delete k guard rs in
      if str_eq (key r) k then (if guard r then rest else r ∷ rest) else r ∷ rest

  pub get-modify :
      (j k : String) (guard : R → Bool) (f : R → R) (rs : List R)
      → ((r : R) → key (f r) ≡ key r)
      → get j (modify k guard f rs) ≡ (if str_eq k j then written guard f (get k rs) else get j rs)
  unfolding get modify
  get-modify j k guard f [] h = ground arith
  get-modify j k guard f (r ∷ rs) h = ground (
    arith,
    eq_iff k j,
    eq_iff (key r) k,
    eq_iff (key r) j,
    eq_iff (key (f r)) j,
    h r,
    get-modify j k guard f rs h,
  )

  pub get-append :
      (j : String) (r : R) (rs : List R)
      → get j (rs ++ r ∷ [])
        ≡ (if is_some (get j rs) then get j rs else if str_eq (key r) j then some r else none)
  unfolding get
  get-append j r [] = refl
  get-append j r (x ∷ rs) = ground (arith, get-append j r rs)

  -- `map.set(k, r)`: an entry that is there keeps its place
  unfoldable pub put : R → List R → List R
  put r [] = r ∷ []
  put r (x ∷ rs) = if str_eq (key x) (key r) then r ∷ rs else x ∷ put r rs

  pub get-put :
      (j : String) (r : R) (rs : List R)
      → get j (put r rs) ≡ (if str_eq (key r) j then some r else get j rs)
  unfolding get put
  get-put j r [] = refl
  get-put j r (x ∷ rs) =
      ground (arith, eq_iff (key r) j, eq_iff (key x) (key r), eq_iff (key x) j, get-put j r rs)

  -- a row that the guard refuses hides the rows behind it; in a table there are none
  pub get-delete_all :
      (j k : String) (rs : List R)
      → get j (delete k (λ _. true) rs) ≡ (if str_eq k j then none else get j rs)
  unfolding get delete
  get-delete_all j k [] = ground arith
  get-delete_all j k (x ∷ rs) =
      ground (arith, eq_iff k j, eq_iff (key x) k, eq_iff (key x) j, get-delete_all j k rs)

  pub All-put {κ} : (P : R → Type κ) (r : R) (rs : List R) → P r → All P rs → All P (put r rs)
  unfolding put
  All-put P r [] p h = (p, tt)
  All-put P r (x ∷ rs) p h = elim (Bool-cases (str_eq (key x) (key r))) [
    | inl same ↦ rw same (p, h.1)
    | inr other ↦ rw other (h.0, All-put P r rs p h.1)
  ]

  pub All-delete {κ} :
      (P : R → Type κ) (k : String) (guard : R → Bool) (rs : List R)
      → All P rs
      → All P (delete k guard rs)
  unfolding delete
  All-delete P k guard [] h = tt
  All-delete P k guard (x ∷ rs) h =
      let rest = All-delete P k guard rs h.1 in
      elim (Bool-cases (str_eq (key x) k)) [
        | inl same ↦ rw same (elim (Bool-cases (guard x)) [
          | inl drop ↦ rw drop rest
          | inr stay ↦ rw stay (h.0, rest)
        ])
        | inr other ↦ rw other (h.0, rest)
      ]

  -- a DELETE leaves the rows of other keys alone
  pub get-delete_ne :
      (j k : String) (guard : R → Bool) (rs : List R) → k ≢ j → get j (delete k guard rs) ≡ get j rs
  unfolding get delete
  get-delete_ne j k guard [] d = refl
  get-delete_ne j k guard (x ∷ rs) d =
      ground (arith, eq_iff (key x) k, eq_iff (key x) j, get-delete_ne j k guard rs d)

  -- and takes off a row that was just inserted
  pub get-delete-append :
      (k : String) (guard : R → Bool) (r : R) (rs : List R)
      → get k rs ≡ none
      → guard r ≡ true
      → key r ≡ k
      → get k (delete k guard (rs ++ r ∷ [])) ≡ none
  unfolding get delete
  get-delete-append k guard r [] n g e = ground (arith, eq_iff (key r) k)
  get-delete-append k guard r (x ∷ rs) n g e = ground (arith, get-delete-append k guard r rs)

  -- the row that is found has the key
  pub key-get : (k : String) (r : R) (rs : List R) → get k rs ≡ some r → key r ≡ k
  unfolding get
  key-get k r [] e = absurd (ground arith)
  key-get k r (x ∷ rs) e = ground (arith, eq_iff (key x) k, key-get k r rs)

  -- an UPDATE whose guard refuses the row changes nothing
  pub modify-refused :
      (k : String) (guard : R → Bool) (f : R → R) (rs : List R)
      → changes k guard rs ≡ false
      → modify k guard f rs ≡ rs
  unfolding get modify
  modify-refused k guard f [] h = refl
  modify-refused k guard f (r ∷ rs) h = elim (Bool-cases (str_eq (key r) k)) [
    | inl same ↦ rw same (ground arith)
    | inr other ↦ rw other (ap (λ tail. r ∷ tail) (modify-refused k guard f rs (ground arith)))
  ]
