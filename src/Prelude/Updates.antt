-- ===== src/Prelude/Updates.antt =====
-- Laws of the list operations that stand for SQL: what an update or an insertion leaves in a table.
use mathlib.Core.Path.{◌≡◌, refl}
use mathlib.Core.Logic.{◌≢◌, inl, inr}
use mathlib.Core.Bool.{Bool, true, false}
use mathlib.Core.Option.{Option, none, some}
use mathlib.Core.List.{List, [], ◌∷◌, ◌++◌}
use native.Mathlib.Omega.{arith}
use ruchat.Prelude.Tests.{if◌then◌else◌, Bool-cases}
use ruchat.Prelude.Lists.{find, update, matching, All}

-- What an UPDATE … WHERE does to one row.
abbrev pub rewritten {ℓ} : {A : Type ℓ} → (A → Bool) → (A → A) → A → A
rewritten p f x = if p x then f x else x

abbrev pub map_option {ℓ κ} : {A : Type ℓ} {B : Type κ} → (A → B) → Option A → Option B
map_option f none = none
map_option f (some a) = some (f a)

module _ {ℓ κ} {A : Type ℓ} (P : A → Type κ) where
  pub All-append : (xs ys : List A) → All P xs → All P ys → All P (xs ++ ys)
  All-append [] ys h k = k
  All-append (x ∷ xs) ys h k = (h.0, All-append xs ys h.1 k)

  pub All-update :
      (p : A → Bool) (f : A → A) (xs : List A)
      → ((x : A) → P x → p x ≡ true → P (f x))
      → All P xs
      → All P (update p f xs)
  unfolding update
  All-update p f [] step h = h
  All-update p f (x ∷ xs) step h = elim (Bool-cases (p x)) [
    | inl e ↦ rw e (step x h.0 e, All-update p f xs step h.1)
    | inr e ↦ rw e (h.0, All-update p f xs step h.1)
  ]

  pub All-find : (p : A → Bool) (xs : List A) {x : A} → All P xs → find p xs ≡ some x → P x
  unfolding find
  All-find p [] h e = cc
  All-find p (x ∷ xs) h e = elim (Bool-cases (p x)) [
    | inl t ↦ ground (arith, h.0)
    | inr t ↦ All-find p xs h.1 (ground arith)
  ]

module _ {ℓ} {A : Type ℓ} where
  pub find_holds : (p : A → Bool) (xs : List A) {x : A} → find p xs ≡ some x → p x ≡ true
  unfolding find
  find_holds p [] e = cc
  find_holds p (x ∷ xs) e = elim (Bool-cases (p x)) [
    | inl t ↦ ground arith
    | inr t ↦ find_holds p xs (ground arith)
  ]

  pub find-update :
      (q p : A → Bool) (f : A → A) (xs : List A)
      → ((x : A) → q (f x) ≡ q x)
      → find q (update p f xs) ≡ map_option (rewritten p f) (find q xs)
  unfolding find update
  find-update q p f [] keep = refl
  find-update q p f (x ∷ xs) keep = ground (arith, keep x, find-update q p f xs keep)

  pub find-append :
      (q : A → Bool) (xs ys : List A) {a : A} → find q xs ≡ some a → find q (xs ++ ys) ≡ some a
  unfolding find
  find-append q [] ys e = cc
  find-append q (x ∷ xs) ys {a} e = ground (arith, find-append q xs ys {a = a})

  pub find-append_none :
      (q : A → Bool) (xs ys : List A) → find q xs ≡ none → find q (xs ++ ys) ≡ find q ys
  unfolding find
  find-append_none q [] ys e = refl
  find-append_none q (x ∷ xs) ys e = elim (Bool-cases (q x)) [
    | inl t ↦ ground arith
    | inr t ↦ ground (arith, find-append_none q xs ys)
  ]

  pub matching-find : (q : A → Bool) (xs : List A) {a : A} → find q xs ≡ some a → matching q xs ≢ 0
  unfolding find matching
  matching-find q [] e = λ _. cc
  matching-find q (x ∷ xs) {a} e = ground (arith, matching-find q xs {a = a})

  pub find-matching :
      (q : A → Bool) (xs : List A) → matching q xs ≢ 0 → (x : A) × (find q xs ≡ some x)
  unfolding find matching
  find-matching q [] h = absurd (h refl)
  find-matching q (x ∷ xs) h = elim (Bool-cases (q x)) [
    | inl t ↦ (x, rw t)
    | inr t ↦ let (y, e) = find-matching q xs (ground arith) in (y, ground arith)
  ]

  pub update_none :
      (p : A → Bool) (f : A → A) (xs : List A) → matching p xs ≡ 0 → update p f xs ≡ xs
  unfolding update matching
  update_none p f [] h = refl
  update_none p f (x ∷ xs) h = ground (arith, update_none p f xs)

-- What holds of all items holds of those that a guard picks.
pub All-guard {ℓ κ} :
    {A : Type ℓ} (P Q : A → Type κ) (p : A → Bool) (xs : List A)
    → ((x : A) → P x → p x ≡ true → Q x)
    → All P xs
    → All (λ x. p x ≡ true → Q x) xs
All-guard P Q p [] step h = tt
All-guard P Q p (x ∷ xs) step h = ((λ e. step x h.0 e), All-guard P Q p xs step h.1)

pub All-map {ℓ κ} :
    {A : Type ℓ} (P Q : A → Type κ) (xs : List A) → ((x : A) → P x → Q x) → All P xs → All Q xs
All-map P Q [] step h = tt
All-map P Q (x ∷ xs) step h = (step x h.0, All-map P Q xs step h.1)

-- A write under a guard, from one property to another.
pub All-rewrite {ℓ κ} :
    {A : Type ℓ} (P Q : A → Type κ) (p : A → Bool) (f : A → A) (xs : List A)
    → ((x : A) → P x → p x ≡ true → Q (f x))
    → ((x : A) → P x → p x ≡ false → Q x)
    → All P xs
    → All Q (update p f xs)
unfolding update
All-rewrite P Q p f [] step skip h = tt
All-rewrite P Q p f (x ∷ xs) step skip h = elim (Bool-cases (p x)) [
  | inl e ↦ rw e (step x h.0 e, All-rewrite P Q p f xs step skip h.1)
  | inr e ↦ rw e (skip x h.0 e, All-rewrite P Q p f xs step skip h.1)
]

pub All-zip {ℓ κ} :
    {A : Type ℓ} (P Q : A → Type κ) (xs : List A) → All P xs → All Q xs → All (λ x. P x × Q x) xs
All-zip P Q [] h k = tt
All-zip P Q (x ∷ xs) h k = ((h.0, k.0), All-zip P Q xs h.1 k.1)
