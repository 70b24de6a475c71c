-- ===== src/Console/Escape.antt =====
-- apps/command-server/src/console.rs: `escape_html`, on the code points of a text.
use Prim.Native.Char.{code}
use Prim.Native.String.{String}
use ruchat.Prelude.{
  ℕ, ◌≡◌, refl, ◌∙◌, Bool, false, ◌||◌, Bool-cases, inl, inr, List, [], ◌∷◌, ◌++◌, ◌==◌, arith,
  if◌then◌else◌,
}
use mathlib.Core.List.{append_assoc}
use ruchat.Prelude.Lists.{All}
use ruchat.Prelude.Updates.{All-append}

-- The code points of a text.
unfoldable pub codes : String → List ℕ
codes String.[] = []
codes (String.◌∷◌ c s) = code c ∷ codes s

-- `str::replace` of one character.
unfoldable pub replace : ℕ → List ℕ → List ℕ → List ℕ
replace from to [] = []
replace from to (c ∷ cs) =
    let rest = replace from to cs in if c == from then to ++ rest else c ∷ rest

abbrev pub ampersand : List ℕ
ampersand = 38 ∷ 97 ∷ 109 ∷ 112 ∷ 59 ∷ []

abbrev pub less_than : List ℕ
less_than = 38 ∷ 108 ∷ 116 ∷ 59 ∷ []

abbrev pub greater_than : List ℕ
greater_than = 38 ∷ 103 ∷ 116 ∷ 59 ∷ []

abbrev pub quote : List ℕ
quote = 38 ∷ 113 ∷ 117 ∷ 111 ∷ 116 ∷ 59 ∷ []

abbrev pub apostrophe : List ℕ
apostrophe = 38 ∷ 35 ∷ 51 ∷ 57 ∷ 59 ∷ []

-- The five replacements, one after the other.
unfoldable pub escape_html : List ℕ → List ℕ
escape_html input =
    replace 39 apostrophe (
      replace 34 quote
        (replace 62 greater_than (replace 60 less_than (replace 38 ampersand input))))

-- What one character stands for on a page.
abbrev pub entity : ℕ → List ℕ
entity c =
    if c == 38
    then ampersand
    else if c == 60
    then less_than
    else if c == 62
    then greater_than
    else if c == 34
    then quote
    else if c == 39
    then apostrophe
    else c ∷ []

-- Every character by itself.
unfoldable pub escaped : List ℕ → List ℕ
escaped [] = []
escaped (c ∷ cs) = entity c ++ escaped cs

replace-append :
    (from : ℕ) (to xs ys : List ℕ)
    → replace from to (xs ++ ys) ≡ replace from to xs ++ replace from to ys
unfolding replace
replace-append from to [] ys = refl
replace-append from to (x ∷ xs) ys =
    ground (
      arith,
      replace-append from to xs ys,
      append_assoc to (replace from to xs) (replace from to ys),
    )

escape_html-append : (xs ys : List ℕ) → escape_html (xs ++ ys) ≡ escape_html xs ++ escape_html ys
unfolding escape_html
escape_html-append xs ys = rw (replace-append 38 ampersand xs ys) (
    rw (replace-append 60 less_than _ _) (
      rw (replace-append 62 greater_than _ _)
        (rw (replace-append 34 quote _ _) (replace-append 39 apostrophe _ _))))

escape_html-one : (c : ℕ) → escape_html (c ∷ []) ≡ entity c
unfolding escape_html replace
escape_html-one c = ground arith

-- The five replacements in a row do what one pass does that looks at every character once: no entity
-- that one replacement writes is changed by a later one.
pub escape_html-escaped : (input : List ℕ) → escape_html input ≡ escaped input
unfolding escaped
escape_html-escaped [] = unfold escape_html in unfold replace in refl
escape_html-escaped (c ∷ cs) =
    escape_html-append (c ∷ []) cs ∙ rw (escape_html-one c, escape_html-escaped cs) refl

-- The characters that end a text or an attribute.
abbrev pub is_markup : ℕ → Bool
is_markup c = (c == 60) || ((c == 62) || ((c == 34) || (c == 39)))

entity-plain : (c : ℕ) → All (λ d. is_markup d ≡ false) (entity c)
entity-plain c = elim (Bool-cases (c == 38)) [
  | inl e ↦ rw e (refl, (refl, (refl, (refl, (refl, tt)))))
  | inr a ↦ elim (Bool-cases (c == 60)) [
    | inl e ↦ rw (a, e) (refl, (refl, (refl, (refl, tt))))
    | inr b ↦ elim (Bool-cases (c == 62)) [
      | inl e ↦ rw (a, b, e) (refl, (refl, (refl, (refl, tt))))
      | inr d ↦ elim (Bool-cases (c == 34)) [
        | inl e ↦ rw (a, b, d, e) (refl, (refl, (refl, (refl, (refl, (refl, tt))))))
        | inr f ↦ elim (Bool-cases (c == 39)) [
          | inl e ↦ rw (a, b, d, f, e) (refl, (refl, (refl, (refl, (refl, tt)))))
          | inr g ↦ rw (a, b, d, f, g) (rw (b, d, f, g) refl, tt)
        ]
      ]
    ]
  ]
]

escaped-plain : (input : List ℕ) → All (λ d. is_markup d ≡ false) (escaped input)
unfolding escaped
escaped-plain [] = tt
escaped-plain (c ∷ cs) =
    All-append (λ d. is_markup d ≡ false) (entity c) (escaped cs) (entity-plain c)
      (escaped-plain cs)

-- No escaped text has a character that could end the element or the attribute that it stands in.
pub escape_html-plain : (input : List ℕ) → All (λ d. is_markup d ≡ false) (escape_html input)
escape_html-plain input = rw (escape_html-escaped input) (escaped-plain input)
