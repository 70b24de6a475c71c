-- ===== src/Console/Pages/Markup.antt =====
-- The markup of a part of a page: what is left of it without the characters that stand for themselves.
use ruchat.Prelude.{
  ℕ, zero, suc, ◌≡◌, refl, ap, ◌∙◌, Bool, false, Bool-cases, inl, inr, List, [], ◌∷◌, ◌++◌,
}
use ruchat.Prelude.Lists.{All, select, take}
use ruchat.Server.Api.{map_items}
use ruchat.Console.Escape.{escape_html, is_markup, escape_html-plain}
use ruchat.Console.Pages.Html.{concat, reversed}

-- The characters of a part of a page that open or close an element or an attribute, in order.
unfoldable pub markup : List ℕ → List ℕ
markup part = select is_markup part

select-append : (p : ℕ → Bool) (xs ys : List ℕ) → select p (xs ++ ys) ≡ select p xs ++ select p ys
unfolding select
select-append p [] ys = refl
select-append p (x ∷ xs) ys = elim (Bool-cases (p x)) [
  | inl e ↦ rw (e, select-append p xs ys) refl
  | inr e ↦ rw (e, select-append p xs ys) refl
]

select-none : (p : ℕ → Bool) (xs : List ℕ) → All (λ x. p x ≡ false) xs → select p xs ≡ []
unfolding select
select-none p [] h = refl
select-none p (x ∷ xs) h = rw (h.0, select-none p xs h.1) refl

pub markup-append : (xs ys : List ℕ) → markup (xs ++ ys) ≡ markup xs ++ markup ys
unfolding markup
markup-append xs ys = select-append is_markup xs ys

pub markup-escape_html : (text : List ℕ) → markup (escape_html text) ≡ []
unfolding markup
markup-escape_html text = select-none is_markup (escape_html text) (escape_html-plain text)

pub markup-concat :
    (piece : List ℕ) (pieces : List (List ℕ))
    → markup (concat (piece ∷ pieces)) ≡ markup piece ++ markup (concat pieces)
unfolding concat
markup-concat piece pieces = markup-append piece (concat pieces)

-- Rendering many items, when each is rendered with the markup of its blank.
module _ {A : Type 0} (render other : A → List ℕ) (blank : A → A) where
  pub markup-items :
      ((a : A) → markup (render a) ≡ markup (other (blank a)))
      → (items : List A)
      → markup (concat (map_items render items))
        ≡ markup (concat (map_items other (map_items blank items)))
  markup-items same [] = refl
  markup-items same (item ∷ items) =
      rw
        (
          markup-concat (render item) (map_items render items),
          markup-concat (other (blank item)) (map_items other (map_items blank items)),
          same item,
          markup-items same items,
        )
        refl

-- A blank list, read in the other order, cut off or filtered.
module _ {A : Type 0} (blank : A → A) where
  map_items-append :
      (xs ys : List A) → map_items blank (xs ++ ys) ≡ map_items blank xs ++ map_items blank ys
  map_items-append [] ys = refl
  map_items-append (x ∷ xs) ys = ap (λ rest. blank x ∷ rest) (map_items-append xs ys)

  pub reversed-blank : (xs : List A) → map_items blank (reversed xs) ≡ reversed (map_items blank xs)
  unfolding reversed
  reversed-blank [] = refl
  reversed-blank (x ∷ xs) =
      map_items-append (reversed xs) (x ∷ [])
      ∙ ap (λ rest. rest ++ blank x ∷ []) (reversed-blank xs)

  pub take-blank : (n : ℕ) (xs : List A) → map_items blank (take n xs) ≡ take n (map_items blank xs)
  take-blank zero xs = refl
  take-blank (suc n) [] = refl
  take-blank (suc n) (x ∷ xs) = ap (λ rest. blank x ∷ rest) (take-blank n xs)

  pub select-blank :
      (test : A → Bool)
      → ((a : A) → test (blank a) ≡ test a)
      → (xs : List A) → map_items blank (select test xs) ≡ select test (map_items blank xs)
  unfolding select
  select-blank test kept [] = refl
  select-blank test kept (x ∷ xs) = elim (Bool-cases (test x)) [
    | inl e ↦ rw (kept x, e, select-blank test kept xs) refl
    | inr e ↦ rw (kept x, e, select-blank test kept xs) refl
  ]
