-- ===== src/Prelude/Lists.antt =====
-- Lists measured by native numbers, under the library's names, and predicates on all entries.
use Prim.Native.Nat.{ℕ, zero, suc, ◌+◌, min}
use mathlib.Core.Path.{◌≡◌, refl, ap}
use mathlib.Core.Bool.{Bool, true, false, ◌&&◌, ◌||◌}
use mathlib.Core.List.{List, [], ◌∷◌, ◌++◌, map}
use mathlib.Core.Path.{subst}
use mathlib.Core.Logic.{◌↔◌, ◌⊎◌, inl, inr}
use mathlib.Core.Option.{Option, none, some}
use ghost_protocol.Prelude.Tests.{some-eq}
use native.Mathlib.Omega.{arith}

module _ {ℓ} {A : Type ℓ} where
  abbrev pub length : List A → ℕ
  length [] = 0
  length (x ∷ xs) = suc (length xs)

  abbrev pub take : ℕ → List A → List A
  take zero xs = []
  take (suc n) [] = []
  take (suc n) (x ∷ xs) = x ∷ take n xs

  pub length-append : (xs ys : List A) → length (xs ++ ys) ≡ length xs + length ys
  length-append [] ys = omega arith
  length-append (x ∷ xs) ys = omega (arith, length-append xs ys)

  pub length-take : (n : ℕ) (xs : List A) → length (take n xs) ≡ min n (length xs)
  length-take zero xs = omega arith
  length-take (suc n) [] = omega arith
  length-take (suc n) (x ∷ xs) = omega (arith, length-take n xs)

  -- `rows.some(...)` and `rows.every(...)`.
  abbrev pub some_of : (A → Bool) → List A → Bool
  some_of p [] = false
  some_of p (x ∷ xs) = p x || some_of p xs

  abbrev pub every : (A → Bool) → List A → Bool
  every p [] = true
  every p (x ∷ xs) = p x && every p xs

  -- A predicate by recursion computes to tuples, which the tactics read and build.
  abbrev pub All {κ} : (A → Type κ) → List A → Type κ
  All P [] = Unit
  All P (x ∷ xs) = P x × All P xs

-- `rows.at(-1)`.
abbrev pub last_of {ℓ} : {A : Type ℓ} → List A → Option A
last_of [] = none
last_of (x ∷ []) = some x
last_of (x ∷ y ∷ ys) = last_of (y ∷ ys)

pub last-All {ℓ κ} :
    {A : Type ℓ} (P : A → Type κ) (xs : List A) {e : A} → last_of xs ≡ some e → All P xs → P e
last-All P [] k h = cc
last-All P (x ∷ []) k (h, hs) = subst P (some-eq k) h
last-All P (x ∷ y ∷ ys) {e} k (h, hs) = last-All P (y ∷ ys) {e = e} k hs

pub last-none {ℓ} : {A : Type ℓ} (xs : List A) → last_of xs ≡ none → xs ≡ []
last-none [] k = refl
last-none (x ∷ []) k = cc
last-none (x ∷ y ∷ ys) k = let gone : (y ∷ ys) ≡ [] = last-none (y ∷ ys) k in absurd (ground arith)

pub All-append {ℓ κ} :
    {A : Type ℓ} (P : A → Type κ) (xs ys : List A) → All P (xs ++ ys) ↔ (All P xs × All P ys)
All-append P [] ys = ((λ h. (tt, h)), λ h. h.1)
All-append P (x ∷ xs) ys =
    let (split, join) = All-append P xs ys in
    ((λ (h, hs). let (l, r) = split hs in ((h, l), r)), λ ((h, hs), ks). (h, join (hs, ks)))

pub length-map {ℓ κ} :
    {A : Type ℓ} {B : Type κ} (f : A → B) (xs : List A) → length (map f xs) ≡ length xs
length-map f [] = refl
length-map f (x ∷ xs) = ap suc (length-map f xs)

-- Two facts of every entry give a third.
pub All-zip {ℓ κ₁ κ₂ κ₃} :
    {A : Type ℓ} (P : A → Type κ₁) (Q : A → Type κ₂) (R : A → Type κ₃) (xs : List A)
    → ((x : A) → P x → Q x → R x)
    → All P xs
    → All Q xs
    → All R xs
All-zip P Q R [] f h k = tt
All-zip P Q R (x ∷ xs) f (h, hs) (k, ks) = (f x h k, All-zip P Q R xs f hs ks)

pub All-map {ℓ κ₁ κ₂} :
    {A : Type ℓ} (P : A → Type κ₁) (Q : A → Type κ₂) (xs : List A)
    → ((x : A) → P x → Q x)
    → All P xs
    → All Q xs
All-map P Q [] f h = tt
All-map P Q (x ∷ xs) f (h, hs) = (f x h, All-map P Q xs f hs)

-- Some entry has the property.
abbrev pub Any {ℓ} : {A : Type ℓ} → (A → Type 0) → List A → Type 0
Any P [] = ⊥
Any P (x ∷ xs) = P x ⊎ Any P xs

-- Every entry is one of the entries.
pub All-Any {ℓ} :
    {A : Type ℓ} (Q : A → A → Type 0) (xs : List A)
    → ((x : A) → Q x x)
    → All (λ x. Any (λ y. Q y x) xs) xs
All-Any Q [] here = tt
All-Any Q (x ∷ xs) here = (
  inl (here x),
  All-map (λ z. Any (λ y. Q y z) xs) (λ z. Q x z ⊎ Any (λ y. Q y z) xs) xs (λ z h. inr h)
      (All-Any Q xs here),
)

pub Any-map {ℓ} :
    {A : Type ℓ} (P Q : A → Type 0) (xs : List A) → ((x : A) → P x → Q x) → Any P xs → Any Q xs
Any-map P Q [] f h = h
Any-map P Q (x ∷ xs) f (inl h) = inl (f x h)
Any-map P Q (x ∷ xs) f (inr h) = inr (Any-map P Q xs f h)

pub All-of_every_one {ℓ κ} :
    {A : Type ℓ} (P : A → Type κ) (xs : List A) → ((x : A) → P x) → All P xs
All-of_every_one P [] f = tt
All-of_every_one P (x ∷ xs) f = (f x, All-of_every_one P xs f)

pub All-of_empty {ℓ κ} : {A : Type ℓ} (P : A → Type κ) (xs : List A) → length xs ≡ 0 → All P xs
All-of_empty P [] e = tt
All-of_empty P (x ∷ xs) e = absurd (omega arith)
