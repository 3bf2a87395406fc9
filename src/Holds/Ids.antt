-- ===== src/Holds/Ids.antt =====
-- The primary key of FulfillmentHold: rows with distinct ids, and lookups by id.
use ghost_protocol.Prelude.{
  ◌≡◌, some-eq, inl, inr, Bool, true, false, some, List, [], ◌∷◌, text_eq, text_eq_refl,
  text_eq_sym, text_eq_iff, All, All-zip, All-map, All-select, All-update, select, find, update,
  Bool-cases, find-update_ne, ◌∙◌,
}
use ghost_protocol.Prelude.Sorting.{sort_by, insert, All-insert, All-sort_by}
use mathlib.Core.Path.{subst}
use ghost_protocol.Store.{FulfillmentHold}
use ghost_protocol.Holds.{hold_id_is}

abbrev pub Apart : FulfillmentHold → FulfillmentHold → Type 0
Apart h k = text_eq h.id k.id ≡ false

abbrev pub IsDistinct : List FulfillmentHold → Type 0
IsDistinct [] = Unit
IsDistinct (h ∷ hs) = All (Apart h) hs × IsDistinct hs

abbrev pub IsStored : List FulfillmentHold → FulfillmentHold → Type 0
IsStored holds h = find (hold_id_is h.id) holds ≡ some h

IsStored-cons :
    (h k : FulfillmentHold) (hs : List FulfillmentHold)
    → Apart h k
    → IsStored hs k
    → IsStored (h ∷ hs) k
unfolding find
IsStored-cons h k hs apart stored = rw apart stored

All-IsStored-cons :
    (h : FulfillmentHold) (hs ks : List FulfillmentHold)
    → All (Apart h) ks
    → All (IsStored hs) ks
    → All (IsStored (h ∷ hs)) ks
All-IsStored-cons h hs ks =
    All-zip (Apart h) (IsStored hs) (IsStored (h ∷ hs)) ks (λ k a s. IsStored-cons h k hs a s)

IsStored-self : (h : FulfillmentHold) (hs : List FulfillmentHold) → IsStored (h ∷ hs) h
unfolding find
IsStored-self h hs = rw (text_eq_refl h.id)

-- Every selected row is found by its id.
pub select-IsStored :
    (p : FulfillmentHold → Bool) (hs : List FulfillmentHold)
    → IsDistinct hs
    → All (IsStored hs) (select p hs)
unfolding select
select-IsStored p [] d = tt
select-IsStored p (h ∷ hs) (apart, d) =
    let rest =
      All-IsStored-cons h hs (select p hs) (All-select (Apart h) p hs apart)
        (select-IsStored p hs d) in
    elim (Bool-cases (p h)) [
      | inl hit ↦ rw hit (IsStored-self h hs, rest)
      | inr miss ↦ rw miss rest
    ]

pub select-IsDistinct :
    (p : FulfillmentHold → Bool) (hs : List FulfillmentHold)
    → IsDistinct hs
    → IsDistinct (select p hs)
unfolding select
select-IsDistinct p [] d = tt
select-IsDistinct p (h ∷ hs) (apart, d) = elim (Bool-cases (p h)) [
  | inl hit ↦ rw hit (All-select (Apart h) p hs apart, select-IsDistinct p hs d)
  | inr miss ↦ rw miss (select-IsDistinct p hs d)
]

module _ (le : FulfillmentHold → FulfillmentHold → Bool) where
  insert-IsDistinct :
      (h : FulfillmentHold) (hs : List FulfillmentHold)
      → All (Apart h) hs
      → IsDistinct hs
      → IsDistinct (insert le h hs)
  unfolding insert
  insert-IsDistinct h [] apart d = (tt, tt)
  insert-IsDistinct h (k ∷ ks) (a, apart) (b, d) = elim (Bool-cases (le h k)) [
    | inl e ↦ rw e ((a, apart), (b, d))
    | inr e ↦
        rw e (
          All-insert le (Apart k) h ks (text_eq_sym k.id h.id ∙ a) b,
          insert-IsDistinct h ks apart d,
        )
  ]

  pub sort_by-IsDistinct : (hs : List FulfillmentHold) → IsDistinct hs → IsDistinct (sort_by le hs)
  unfolding sort_by
  sort_by-IsDistinct [] d = tt
  sort_by-IsDistinct (h ∷ hs) (apart, d) =
      insert-IsDistinct h (sort_by le hs) (All-sort_by le (Apart h) hs apart)
        (sort_by-IsDistinct hs d)

-- An update that keeps the id keeps the key.
pub update-IsDistinct :
    (p : FulfillmentHold → Bool) (f : FulfillmentHold → FulfillmentHold) (hs : List FulfillmentHold)
    → ((h : FulfillmentHold) → (f h).id ≡ h.id)
    → IsDistinct hs
    → IsDistinct (update p f hs)
unfolding update
update-IsDistinct p f [] keep d = tt
update-IsDistinct p f (h ∷ hs) keep (apart, d) = elim (Bool-cases (p h)) [
  | inl hit ↦ rw hit (All-map (Apart h) (Apart (f h)) hs (λ k a. rw (keep h) a) apart, d)
  | inr miss ↦
      rw miss (
        All-update (Apart h) p f hs (λ k _ a. rw (keep k) a) apart,
        update-IsDistinct p f hs keep d,
      )
]

-- An update of one row leaves the others to be found as they were.
pub IsStored-update :
    (h k : FulfillmentHold) (f : FulfillmentHold → FulfillmentHold) (hs : List FulfillmentHold)
    → ((x : FulfillmentHold) → (f x).id ≡ x.id)
    → Apart h k
    → IsStored hs k
    → IsStored (update (hold_id_is h.id) f hs) k
IsStored-update h k f hs keep apart stored =
    find-update_ne (hold_id_is h.id) (hold_id_is k.id) f hs (λ x e. other x e)
      (λ x e. rw (keep x) (other x e))
    ∙ stored
  where
    other : (x : FulfillmentHold) → text_eq x.id h.id ≡ true → text_eq x.id k.id ≡ false
    other x e = rw ((text_eq_iff x.id h.id).0 e) apart

find-All :
    (P : FulfillmentHold → Type 0) (p : FulfillmentHold → Bool) (hs : List FulfillmentHold)
    {h : FulfillmentHold}
    → All P hs
    → find p hs ≡ some h
    → P h
unfolding find
find-All P p [] a e = cc
find-All P p (k ∷ ks) {h} (a, as') e = elim (Bool-cases (p k)) [
  | inl hit ↦ subst P (some-eq (rw hit at e)) a
  | inr miss ↦ find-All P p ks as' (rw miss at e)
]

-- Whatever a row is found by, it is found by its id.
pub find-IsStored :
    (p : FulfillmentHold → Bool) (hs : List FulfillmentHold) {h : FulfillmentHold}
    → IsDistinct hs
    → find p hs ≡ some h
    → IsStored hs h
unfolding find
find-IsStored p [] d e = cc
find-IsStored p (k ∷ ks) {h} (apart, d) e = elim (Bool-cases (p k)) [
  | inl hit ↦ subst (IsStored (k ∷ ks)) (some-eq (rw hit at e)) (IsStored-self k ks)
  | inr miss ↦
      let later = rw miss at e in
      IsStored-cons k h ks (find-All (Apart k) p ks apart later) (find-IsStored p ks d later)
]
