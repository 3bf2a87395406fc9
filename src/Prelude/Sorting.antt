-- ===== src/Prelude/Sorting.antt =====
-- `rows.sort(...)` and ORDER BY, as a stable insertion sort, with what it keeps.
use Prim.Native.Nat.{ℕ, ◌+◌}
use mathlib.Core.Path.{◌≡◌, refl, sym, subst}
use mathlib.Core.Option.{none, some}
use mathlib.Core.Logic.{inl, inr}
use mathlib.Core.Bool.{Bool, true, false}
use mathlib.Core.List.{List, [], ◌∷◌}
use native.Mathlib.Omega.{arith}
use ghost_protocol.Prelude.Tests.{if◌then◌else◌, Bool-cases, some-eq}
use ghost_protocol.Prelude.Lists.{All, length, last_of, last-All, last-none}
use ghost_protocol.Prelude.Rows.{sum_by}

module _ {ℓ} {A : Type ℓ} (le : A → A → Bool) where
  unfoldable pub insert : A → List A → List A
  insert x [] = x ∷ []
  insert x (y ∷ ys) = if le x y then x ∷ y ∷ ys else y ∷ insert x ys

  -- `le x y` says that x may stand before y; equal rows keep their order.
  unfoldable pub sort_by : List A → List A
  unfolding insert
  sort_by [] = []
  sort_by (x ∷ xs) = insert x (sort_by xs)

  -- No row stands before one that must come first.
  abbrev pub IsSorted : List A → Type ℓ
  IsSorted [] = Unit
  IsSorted (x ∷ xs) = All (λ y. le x y ≡ true) xs × IsSorted xs

  pub All-insert {κ} : (P : A → Type κ) (x : A) (ys : List A) → P x → All P ys → All P (insert x ys)
  unfolding insert
  All-insert P x [] h hs = (h, tt)
  All-insert P x (y ∷ ys) h (k, ks) = elim (Bool-cases (le x y)) [
    | inl e ↦ rw e (h, (k, ks))
    | inr e ↦ rw e (k, All-insert P x ys h ks)
  ]

  pub All-sort_by {κ} : (P : A → Type κ) (xs : List A) → All P xs → All P (sort_by xs)
  unfolding sort_by
  All-sort_by P [] h = tt
  All-sort_by P (x ∷ xs) (h, hs) = All-insert P x (sort_by xs) h (All-sort_by P xs hs)

  All-of_insert {κ} : (P : A → Type κ) (x : A) (ys : List A) → All P (insert x ys) → P x × All P ys
  unfolding insert
  All-of_insert P x [] (h, hs) = (h, tt)
  All-of_insert P x (y ∷ ys) h = elim (Bool-cases (le x y)) [
    | inl e ↦ let (k, ks) : P x × All P (y ∷ ys) = rw e at h in (k, ks)
    | inr e ↦
        let (k, ks) : P y × All P (insert x ys) = rw e at h in
        let (here, there) = All-of_insert P x ys ks in (here, (k, there))
  ]

  -- What holds of the sorted rows holds of the rows.
  pub All-of_sort_by {κ} : (P : A → Type κ) (xs : List A) → All P (sort_by xs) → All P xs
  unfolding sort_by
  All-of_sort_by P [] h = tt
  All-of_sort_by P (x ∷ xs) h =
      let (here, there) = All-of_insert P x (sort_by xs) h in (here, All-of_sort_by P xs there)

  pub last-sort_by-none : (xs : List A) → last_of (sort_by xs) ≡ none → length xs ≡ 0
  last-sort_by-none xs e =
      go xs (All-of_sort_by (λ x. ⊥) xs (subst (All (λ x. ⊥)) (sym (last-none (sort_by xs) e)) tt))
    where
      go : (ys : List A) → All (λ x. ⊥) ys → length ys ≡ 0
      go [] h = refl
      go (y ∷ ys) (h, hs) = absurd h

  -- `rows.at(-1)`: in sorted rows, what every other row may stand before.
  pub IsSorted-last :
      (refl_le : (x : A) → le x x ≡ true) (xs : List A) {e : A}
      → IsSorted xs
      → last_of xs ≡ some e
      → All (λ x. le x e ≡ true) xs
  IsSorted-last refl_le [] h k = tt
  IsSorted-last refl_le (x ∷ []) (h, hs) k =
      (subst (λ y. le x y ≡ true) (some-eq k) (refl_le x), tt)
  IsSorted-last refl_le (x ∷ y ∷ ys) {e} (h, hs) k =
      (last-All (λ z. le x z ≡ true) (y ∷ ys) k h, IsSorted-last refl_le (y ∷ ys) {e = e} hs k)

  sum_by-insert : (g : A → ℕ) (x : A) (ys : List A) → sum_by g (insert x ys) ≡ g x + sum_by g ys
  unfolding insert sum_by
  sum_by-insert g x [] = refl
  sum_by-insert g x (y ∷ ys) = ground (arith, sum_by-insert g x ys)

  -- A sort neither loses a row nor makes one up, whatever is summed.
  pub sum_by-sort_by : (g : A → ℕ) (xs : List A) → sum_by g (sort_by xs) ≡ sum_by g xs
  unfolding sort_by sum_by
  sum_by-sort_by g [] = refl
  sum_by-sort_by g (x ∷ xs) = omega (arith, sum_by-insert g x (sort_by xs), sum_by-sort_by g xs)

  module _ (total : (x y : A) → le x y ≡ false → le y x ≡ true)
      (trans : (x y z : A) → le x y ≡ true → le y z ≡ true → le x z ≡ true) where
    All-le :
        (x y : A) (ys : List A)
        → le x y ≡ true
        → All (λ z. le y z ≡ true) ys
        → All (λ z. le x z ≡ true) ys
    All-le x y [] e h = tt
    All-le x y (z ∷ zs) e (h, hs) = (trans x y z e h, All-le x y zs e hs)

    insert-IsSorted : (x : A) (ys : List A) → IsSorted ys → IsSorted (insert x ys)
    unfolding insert
    insert-IsSorted x [] h = (tt, tt)
    insert-IsSorted x (y ∷ ys) (h, hs) = elim (Bool-cases (le x y)) [
      | inl e ↦ rw e ((e, All-le x y ys e h), (h, hs))
      | inr e ↦ rw e (All-insert _ x ys (total x y e) h, insert-IsSorted x ys hs)
    ]

    pub sort_by-IsSorted : (xs : List A) → IsSorted (sort_by xs)
    unfolding sort_by
    sort_by-IsSorted [] = tt
    sort_by-IsSorted (x ∷ xs) = insert-IsSorted x (sort_by xs) (sort_by-IsSorted xs)
