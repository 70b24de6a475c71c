-- ===== src/Server/Cookies/RoundTrip.antt =====
-- apps/command-server/src/app_state.rs: the `cookie` header that a browser writes.
mod Tests
use Prim.Native.Char.{Char, code}
use Prim.Native.String.{String, ◌++◌ as str_append}
use text.Mathlib.TextLemmas.{nil-append, cons-append}
use ruchat.Prelude.{
  ℕ, ◌≡◌, refl, sym, ap, ◌∙◌, Bool, true, false, Bool-cases, inl, inr, Option, none, some, List, [],
  ◌∷◌, ◌==◌, ◌||◌, not, arith, if◌then◌else◌, str_eq,
}
use ruchat.Prelude.Lists.{All}
use ruchat.Prelude.Trimming.{Each, Each-append, Each-map, Dense, trim-Dense, trim_space}
use ruchat.Prelude.Maps.{Map, lookup}
use ruchat.Prelude.Text.{is_whitespace, is_empty, trim, trim_start, trim_end, split, split_once}
use ruchat.Server.Api.{map_items}
use ruchat.Server.Cookies.{find_cookie, cookie_parts, extract_cookie}

-- A character that neither ends a cookie nor is trimmed away.
abbrev pub Inner : Char → Type 0
Inner c = (is_whitespace (code c) ≡ false) × ((code c == 59) ≡ false)

-- A character of a name, which does not end the name either.
abbrev pub InName : Char → Type 0
InName c = Inner c × ((code c == 61) ≡ false)

module _ (mark : ℕ) where
  abbrev pub Other : Char → Type 0
  Other c = (code c == mark) ≡ false

  split-last : (s : String) → Each Other s → split mark s ≡ (s, [])
  unfolding split
  split-last String.[] p = refl
  split-last (String.◌∷◌ c s) p = rw (p.0, split-last s p.1) refl

  module _ (m : Char) (marks : (code m == mark) ≡ true) (rest : String) where
    pub split-next :
        (s : String)
        → Each Other s
        → split mark (str_append s (String.◌∷◌ m rest))
          ≡ (s, (split mark rest).0 ∷ (split mark rest).1)
    unfolding split
    split-next String.[] p = rw (nil-append (String.◌∷◌ m rest)) (rw marks refl)
    split-next (String.◌∷◌ c s) p =
        rw (cons-append c s (String.◌∷◌ m rest)) (rw (p.0, split-next s p.1) refl)

    split_once-at :
        (s : String)
        → Each Other s
        → split_once mark (str_append s (String.◌∷◌ m rest)) ≡ some (s, rest)
    unfolding split_once
    split_once-at String.[] p = rw (nil-append (String.◌∷◌ m rest)) (rw marks refl)
    split_once-at (String.◌∷◌ c s) p =
        rw (cons-append c s (String.◌∷◌ m rest)) (rw (p.0, split_once-at s p.1) refl)

abbrev pub pair : String × String → String
pair (name, value) = str_append name (String.◌∷◌ "=" value)

-- The header that a browser sends for the cookies it has.
unfoldable pub cookie_header : String × String → List (String × String) → String
cookie_header first [] = pair first
cookie_header first (next ∷ more) =
    str_append (pair first) (String.◌∷◌ ";" (String.◌∷◌ " " (cookie_header next more)))

-- A cookie that a header can carry: no white space and no semicolon, and no equals sign in its name.
abbrev pub IsCookie : String × String → Type 0
IsCookie (name, value) = Each InName name × Each Inner value

abbrev spaced : String × String → String
spaced cookie = String.◌∷◌ " " (pair cookie)

pair-Dense : (cookie : String × String) → IsCookie cookie → Each Dense (pair cookie)
pair-Dense (name, value) is =
    Each-append Dense name (String.◌∷◌ "=" value) (Each-map InName Dense (λ c p. p.0.0) name is.0)
      (refl, Each-map Inner Dense (λ c p. p.0) value is.1)

pub pair-Unbroken : (cookie : String × String) → IsCookie cookie → Each (Other 59) (pair cookie)
pair-Unbroken (name, value) is =
    Each-append (Other 59) name (String.◌∷◌ "=" value)
      (Each-map InName (Other 59) (λ c p. p.0.1) name is.0)
      (refl, Each-map Inner (Other 59) (λ c p. p.1) value is.1)

pair-full : (cookie : String × String) → is_empty (pair cookie) ≡ false
pair-full (String.[], value) = rw (nil-append (String.◌∷◌ "=" value)) refl
pair-full (String.◌∷◌ c s, value) = rw (cons-append c s (String.◌∷◌ "=" value)) refl

split_once-pair :
    (cookie : String × String) → IsCookie cookie → split_once 61 (pair cookie) ≡ some cookie
split_once-pair (name, value) is =
    split_once-at 61 "=" refl value name (Each-map InName (Other 61) (λ c p. p.1) name is.0)

split-space :
    (s : String) (parts : String × List String)
    → split 59 s ≡ parts
    → split 59 (String.◌∷◌ " " s) ≡ (String.◌∷◌ " " parts.0, parts.1)
unfolding split
split-space s parts e = rw e refl

split-cookie_header :
    (first : String × String) (more : List (String × String))
    → IsCookie first
    → All IsCookie more
    → split 59 (cookie_header first more) ≡ (pair first, map_items spaced more)
unfolding cookie_header
split-cookie_header first [] is all = split-last 59 (pair first) (pair-Unbroken first is)
split-cookie_header first (next ∷ more) is all =
    let rest = String.◌∷◌ " " (cookie_header next more) in
    let later =
      split-space (cookie_header next more) _ (split-cookie_header next more all.0 all.1) in
    split-next 59 ";" refl rest (pair first) (pair-Unbroken first is)
    ∙ ap (λ q. (pair first, q.0 ∷ q.1)) later

cookie_parts-spaced :
    (cookies : List (String × String))
    → All IsCookie cookies
    → cookie_parts (map_items spaced cookies) ≡ map_items some cookies
unfolding cookie_parts
cookie_parts-spaced [] all = refl
cookie_parts-spaced (cookie ∷ cookies) all =
    rw
      (
        trim_space (pair cookie) (pair-full cookie) (pair-Dense cookie all.0),
        split_once-pair cookie all.0,
        cookie_parts-spaced cookies all.1,
      )
      refl

find_cookie-lookup :
    (name : String) (cookies : List (String × String))
    → find_cookie name (map_items some cookies) ≡ lookup name cookies
unfolding find_cookie lookup
find_cookie-lookup name [] = refl
find_cookie-lookup name ((other, value) ∷ cookies) = rw (find_cookie-lookup name cookies) refl

-- From a header of cookies that are each written as the name, an equals sign and the value, joined by
-- a semicolon and a space, where no name has an equals sign and no name and no value has a semicolon
-- or white space, `extract_cookie` takes the value of the first cookie of that name, or nothing where
-- no cookie has it.
pub extract_cookie-header :
    (name : String) (first : String × String) (more : List (String × String))
    → IsCookie first
    → All IsCookie more
    → extract_cookie (some (cookie_header first more)) name ≡ lookup name (first ∷ more)
unfolding extract_cookie
extract_cookie-header name first more is all = rw (split-cookie_header first more is all) (
    unfold cookie_parts in
    rw
      (
        trim-Dense (pair first) (pair-Dense first is),
        split_once-pair first is,
        cookie_parts-spaced more all,
      )
      (find_cookie-lookup name (first ∷ more)))
