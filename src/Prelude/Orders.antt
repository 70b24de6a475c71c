-- ===== src/Prelude/Orders.antt =====
-- ORDER BY … LIMIT 1: the first row of a sorted selection is a selected row, and no selected row
-- stands before it.
use mathlib.Core.Path.{◌≡◌, refl, subst}
use mathlib.Core.Bool.{Bool, true, false}
use mathlib.Core.Option.{none, some}
use mathlib.Core.List.{List, [], ◌∷◌}
use mathlib.Core.Logic.{inl, inr}
use native.Mathlib.Omega.{arith}
use ruchat.Prelude.Tests.{Bool-cases}
use ruchat.Prelude.Lists.{select, insert_by, order_by, head?, All}

module _ {ℓ κ} {A : Type ℓ} (P : A → Type κ) where
  pub All-select : (p : A → Bool) (xs : List A) → All P xs → All P (select p xs)
  unfolding select
  All-select p [] h = h
  All-select p (x ∷ xs) h = elim (Bool-cases (p x)) [
    | inl e ↦ rw e (h.0, All-select p xs h.1)
    | inr e ↦ rw e (All-select p xs h.1)
  ]

  All-insert_by :
      (le : A → A → Bool) (x : A) (xs : List A) → P x → All P xs → All P (insert_by le x xs)
  unfolding insert_by
  All-insert_by le x [] p h = (p, tt)
  All-insert_by le x (y ∷ ys) p h = elim (Bool-cases (le x y)) [
    | inl e ↦ rw e (p, h)
    | inr e ↦ rw e (h.0, All-insert_by le x ys p h.1)
  ]

  pub All-order_by : (le : A → A → Bool) (xs : List A) → All P xs → All P (order_by le xs)
  unfolding order_by
  All-order_by le [] h = h
  All-order_by le (x ∷ xs) h = All-insert_by le x (order_by le xs) h.0 (All-order_by le xs h.1)

  pub All-head : (xs : List A) {a : A} → All P xs → head? xs ≡ some a → P a
  All-head [] h e = cc
  All-head (x ∷ xs) h e = ground (arith, h.0)

module _ {ℓ} {A : Type ℓ} where
  pub select-All : (p : A → Bool) (xs : List A) → All (λ x. p x ≡ true) (select p xs)
  unfolding select
  select-All p [] = tt
  select-All p (x ∷ xs) = elim (Bool-cases (p x)) [
    | inl e ↦ rw e (e, select-All p xs)
    | inr e ↦ rw e (select-All p xs)
  ]

  pub All-unselect {κ} :
      (Q : A → Type κ) (p : A → Bool) (xs : List A)
      → All Q (select p xs)
      → All (λ x. p x ≡ true → Q x) xs
  unfolding select
  All-unselect Q p [] h = tt
  All-unselect Q p (x ∷ xs) h = elim (Bool-cases (p x)) [
    | inl e ↦ let h' = (rw e at h) in ((λ _. h'.0), All-unselect Q p xs h'.1)
    | inr e ↦ let h' = (rw e at h) in ((λ t. cc), All-unselect Q p xs h')
  ]

-- A test that orders all items.
pub record IsOrder {ℓ} {A : Type ℓ} (le : A → A → Bool) : Type ℓ where
  pub total : (a b : A) → le a b ≡ false → le b a ≡ true
  pub trans : (a b c : A) → le a b ≡ true → le b c ≡ true → le a c ≡ true

module _ {ℓ} {A : Type ℓ} {le : A → A → Bool} (order : IsOrder le) where
  least_refl : (a : A) → le a a ≡ true
  least_refl a = elim (Bool-cases (le a a)) [ inl e ↦ e | inr e ↦ order.total a a e ]

  All-trans :
      (a b : A) (xs : List A)
      → le a b ≡ true
      → All (λ x. le b x ≡ true) xs
      → All (λ x. le a x ≡ true) xs
  All-trans a b [] e h = tt
  All-trans a b (x ∷ xs) e h = (order.trans a b x e h.0, All-trans a b xs e h.1)

  insert_by_head :
      (x : A) (xs ys : List A) {m : A}
      → ((k : A) → head? ys ≡ some k → All (λ z. le k z ≡ true) xs)
      → (ys ≡ [] → All (λ z. le x z ≡ true) xs)
      → head? (insert_by le x ys) ≡ some m
      → (le m x ≡ true) × All (λ z. le m z ≡ true) xs
  unfolding insert_by
  insert_by_head x xs [] ih empty e =
      subst (λ k. (le k x ≡ true) × All (λ z. le k z ≡ true) xs) (cc e) (least_refl x, empty refl)
  insert_by_head x xs (y ∷ ys) {m} ih empty e = elim (Bool-cases (le x y)) [
    | inl t ↦
        subst (λ k. (le k x ≡ true) × All (λ z. le k z ≡ true) xs) (cc (rw t at e))
          (least_refl x, All-trans x y xs t (ih y refl))
    | inr t ↦
        subst (λ k. (le k x ≡ true) × All (λ z. le k z ≡ true) xs) (cc (rw t at e))
          (order.total x y t, ih y refl)
  ]

  insert_by-ne-nil : (x : A) (xs : List A) → insert_by le x xs ≡ [] → ⊥
  unfolding insert_by
  insert_by-ne-nil x [] e = cc
  insert_by-ne-nil x (y ∷ ys) e = ground arith

  order_by_empty {κ} : (P : A → Type κ) (xs : List A) → order_by le xs ≡ [] → All P xs
  unfolding order_by
  order_by_empty P [] e = tt
  order_by_empty P (x ∷ xs) e = absurd (insert_by-ne-nil x (order_by le xs) e)

  -- The head of the sorted list stands before every item of the list.
  pub order_by_head :
      (xs : List A) {m : A} → head? (order_by le xs) ≡ some m → All (λ x. le m x ≡ true) xs
  unfolding order_by
  order_by_head [] e = tt
  order_by_head (x ∷ xs) e =
      insert_by_head x xs (order_by le xs) (λ k h. order_by_head xs h)
        (λ h. order_by_empty (λ z. le x z ≡ true) xs h) e

  -- Nothing stands first in the sorted list of an empty list only.
  pub order_by-none {κ} : (P : A → Type κ) (xs : List A) → head? (order_by le xs) ≡ none → All P xs
  order_by-none P xs e = order_by_empty P xs (empty (order_by le xs) e)
    where
      empty : (ys : List A) → head? ys ≡ none → ys ≡ []
      empty [] h = refl
      empty (y ∷ ys) h = cc
