-- ===== src/Prelude/Rows.antt =====
-- A table as the list of its rows: the queries and the writes that the database client offers.
use Prim.Native.Nat.{ℕ, ◌+◌, ◌≤◌}
use mathlib.Core.Path.{◌≡◌, refl, subst}
use mathlib.Core.Logic.{◌↔◌, ◌⊎◌, inl, inr}
use mathlib.Core.Bool.{Bool, true, false}
use mathlib.Core.Option.{Option, none, some}
use mathlib.Core.List.{List, [], ◌∷◌, map}
use native.Mathlib.Omega.{arith}
use ghost_protocol.Prelude.Tests.{if◌then◌else◌, Bool-cases, some-eq}
use ghost_protocol.Prelude.Lists.{All, some_of}

module _ {ℓ} {A : Type ℓ} where
  -- `findFirst`, `findUnique`, and the first row of a locking SELECT.
  unfoldable pub find : (A → Bool) → List A → Option A
  find p [] = none
  find p (x ∷ xs) = if p x then some x else find p xs

  -- `findMany`.
  unfoldable pub select : (A → Bool) → List A → List A
  select p [] = []
  select p (x ∷ xs) = let rest = select p xs in if p x then x ∷ rest else rest

  unfoldable pub count : (A → Bool) → List A → ℕ
  count p [] = 0
  count p (x ∷ xs) = (if p x then 1 else 0) + count p xs

  unfoldable pub sum_by : (A → ℕ) → List A → ℕ
  sum_by g [] = 0
  sum_by g (x ∷ xs) = g x + sum_by g xs

  -- `update` by a unique column: one row is written.
  unfoldable pub update : (A → Bool) → (A → A) → List A → List A
  update p f [] = []
  update p f (x ∷ xs) = if p x then f x ∷ xs else x ∷ update p f xs

  -- `updateMany`.
  unfoldable pub update_many : (A → Bool) → (A → A) → List A → List A
  update_many p f [] = []
  update_many p f (x ∷ xs) = (if p x then f x else x) ∷ update_many p f xs

  -- What a sum over the table gains and loses by the update of one row.
  pub sum_by-update :
      (p : A → Bool) (f : A → A) (g : A → ℕ) (xs : List A) {a : A}
      → find p xs ≡ some a
      → sum_by g (update p f xs) + g a ≡ sum_by g xs + g (f a)
  unfolding find update sum_by
  sum_by-update p f g [] h = cc
  sum_by-update p f g (x ∷ xs) {a} h = ground (arith, sum_by-update p f g xs {a = a})

  pub count-update :
      (p : A → Bool) (f : A → A) (q : A → Bool) (xs : List A)
      → ((x : A) → p x ≡ true → q (f x) ≡ false)
      → count q (update p f xs) ≤ count q xs
  unfolding update count
  count-update p f q [] out = ground arith
  count-update p f q (x ∷ xs) out = ground (arith, out x, count-update p f q xs out)

  pub count-of_find-none : (p : A → Bool) (xs : List A) → find p xs ≡ none → count p xs ≡ 0
  unfolding find count
  count-of_find-none p [] e = refl
  count-of_find-none p (x ∷ xs) e = ground (arith, count-of_find-none p xs)

  pub find-test : (p : A → Bool) (xs : List A) {a : A} → find p xs ≡ some a → p a ≡ true
  unfolding find
  find-test p [] h = cc
  find-test p (x ∷ xs) {a} h = ground (arith, find-test p xs {a = a})

  pub All-find {κ} :
      (P : A → Type κ) (p : A → Bool) (xs : List A) {a : A} → All P xs → find p xs ≡ some a → P a
  unfolding find
  All-find P p [] h there = cc
  All-find P p (x ∷ xs) {a} (h, hs) there = elim (Bool-cases (p x)) [
    | inl hit ↦ subst P (some-eq (ground arith)) h
    | inr miss ↦ All-find P p xs {a = a} hs (ground arith)
  ]

  -- A lookup after an update, when the update keeps what both tests read.
  pub find-update_self :
      (p : A → Bool) (f : A → A) (xs : List A) {a : A}
      → ((x : A) → p x ≡ true → p (f x) ≡ true)
      → find p xs ≡ some a
      → find p (update p f xs) ≡ some (f a)
  unfolding find update
  find-update_self p f [] keep h = cc
  find-update_self p f (x ∷ xs) {a} keep h =
      ground (arith, keep x, find-update_self p f xs {a = a} keep)

  pub find-update_ne :
      (p q : A → Bool) (f : A → A) (xs : List A)
      → ((x : A) → p x ≡ true → q x ≡ false)
      → ((x : A) → p x ≡ true → q (f x) ≡ false)
      → find q (update p f xs) ≡ find q xs
  unfolding find update
  find-update_ne p q f [] apart moved = refl
  find-update_ne p q f (x ∷ xs) apart moved =
      ground (arith, apart x, moved x, find-update_ne p q f xs apart moved)

  -- A row that a lookup finds is found after an update that keeps what the lookup reads.
  pub find-update_kept :
      (p q : A → Bool) (f : A → A) (xs : List A) {a : A}
      → ((x : A) → q (f x) ≡ q x)
      → find q xs ≡ some a
      → (find q (update p f xs) ≡ some a) ⊎ (find q (update p f xs) ≡ some (f a))
  unfolding find update
  find-update_kept p q f [] keep h = cc
  find-update_kept p q f (x ∷ xs) {a} keep h = elim (Bool-cases (p x)) [
    | inl hit ↦ elim (Bool-cases (q x)) [
      | inl same ↦ inr (ground (arith, keep x))
      | inr other ↦ inl (ground (arith, keep x))
    ]
    | inr miss ↦ elim (Bool-cases (q x)) [
      | inl same ↦ inl (ground arith)
      | inr other ↦
          rw (miss, other, update, find) (find-update_kept p q f xs {a = a} keep (ground arith))
    ]
  ]

  pub some_of-find : (p : A → Bool) (xs : List A) {a : A} → find p xs ≡ some a → some_of p xs ≡ true
  unfolding find
  some_of-find p [] h = cc
  some_of-find p (x ∷ xs) {a} h = ground (arith, some_of-find p xs {a = a})

  pub All-update {κ} :
      (P : A → Type κ) (p : A → Bool) (f : A → A) (xs : List A)
      → ((x : A) → p x ≡ true → P x → P (f x))
      → All P xs
      → All P (update p f xs)
  unfolding update
  All-update P p f [] keep h = tt
  All-update P p f (x ∷ xs) keep (h, hs) = elim (Bool-cases (p x)) [
    | inl hit ↦ rw hit (keep x hit h, hs)
    | inr miss ↦ rw miss (h, All-update P p f xs keep hs)
  ]

  pub All-select {κ} :
      (P : A → Type κ) (p : A → Bool) (xs : List A) → All P xs → All P (select p xs)
  unfolding select
  All-select P p [] h = tt
  All-select P p (x ∷ xs) (h, hs) = elim (Bool-cases (p x)) [
    | inl hit ↦ rw hit (h, All-select P p xs hs)
    | inr miss ↦ rw miss (All-select P p xs hs)
  ]

  pub select-test : (p : A → Bool) (xs : List A) → All (λ x. p x ≡ true) (select p xs)
  unfolding select
  select-test p [] = tt
  select-test p (x ∷ xs) = elim (Bool-cases (p x)) [
    | inl hit ↦ rw hit (hit, select-test p xs)
    | inr miss ↦ rw miss (select-test p xs)
  ]

  pub All-of_find-none : (p : A → Bool) (xs : List A) → find p xs ≡ none → All (λ x. p x ≡ false) xs
  unfolding find
  All-of_find-none p [] h = tt
  All-of_find-none p (x ∷ xs) h = elim (Bool-cases (p x)) [
    | inl hit ↦ absurd (ground arith)
    | inr miss ↦ (miss, All-of_find-none p xs (ground arith))
  ]

-- What holds of the rows that a query picked and mapped, read off the table.
pub All-map-select {ℓ κ₁ κ₂} :
    {A : Type ℓ} {B : Type κ₁} (P : B → Type κ₂) (f : A → B) (t : A → Bool) (xs : List A)
    → All P (map f (select t xs)) ↔ All (λ x. t x ≡ true → P (f x)) xs
unfolding select
All-map-select P f t [] = ((λ h. tt), λ h. tt)
All-map-select P f t (x ∷ xs) =
    let (down, up) = All-map-select P f t xs in
    elim (Bool-cases (t x)) [
      | inl hit ↦ rw hit ((λ (h, hs). ((λ _. h), down hs)), λ (h, hs). (h refl, up hs))
      | inr miss ↦ rw miss ((λ hs. ((λ e. absurd (ground arith)), down hs)), λ (h, hs). up hs)
    ]
