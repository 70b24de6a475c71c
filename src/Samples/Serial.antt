-- ===== src/Samples/Serial.antt =====
-- A printer and a parser over a stream of numbers, with combinators; and streams as texts.
use Prim.Native.Nat.{compare, Ordering}
use Prim.Native.Char.{Char, char, code, nul, IsLt, IsScalar}
use Prim.Native.String.{[] as empty_text, ◌∷◌ as cons_char}
use text.Mathlib.TextEquality.{Char-path}
use ruchat.Prelude.{
  ℕ, zero, suc, String, ◌≡◌, refl, ◌⊎◌, inl, inr, Option, none, some, List, [], ◌∷◌,
}

-- What `print` puts in front of a rest, `parse` takes off again.
pub record Serial (A : Type 0) : Type 0 where
  pub print : A → List ℕ → List ℕ
  pub parse : List ℕ → Option (A × List ℕ)
  pub parse-print : (a : A) (rest : List ℕ) → parse (print a rest) ≡ some (a, rest)

abbrev bind_option : {A B : Type 0} → Option A → (A → Option B) → Option B
bind_option none f = none
bind_option (some a) f = f a

abbrev pub number : Serial ℕ
number = record {
  print = λ n rest. n ∷ rest;
  parse = elim [ [] ↦ none | n ∷ rest ↦ some (n, rest) ];
  parse-print = λ n rest. refl;
}

module _ {A B : Type 0} (sa : Serial A) (sb : Serial B) where
  abbrev parse_pair : List ℕ → Option ((A × B) × List ℕ)
  parse_pair input =
      bind_option (sa.parse input)
        (λ (a, rest). bind_option (sb.parse rest) (λ (b, rest'). some ((a, b), rest')))

  pub parse_pair-print :
      (p : A × B) (rest : List ℕ) → parse_pair (sa.print p.0 (sb.print p.1 rest)) ≡ some (p, rest)
  parse_pair-print p rest = rw (sa.parse-print p.0 (sb.print p.1 rest), sb.parse-print p.1 rest)

  abbrev pub pair : Serial (A × B)
  pair = record {
    print = λ p rest. sa.print p.0 (sb.print p.1 rest);
    parse = parse_pair;
    parse-print = parse_pair-print;
  }

-- A tag stands in front.
module _ {A B : Type 0} (sa : Serial A) (sb : Serial B) where
  left : Option (A × List ℕ) → Option ((A ⊎ B) × List ℕ)
  left none = none
  left (some (a, rest)) = some (inl a, rest)

  right : Option (B × List ℕ) → Option ((A ⊎ B) × List ℕ)
  right none = none
  right (some (b, rest)) = some (inr b, rest)

  unfoldable pub parse_choice : List ℕ → Option ((A ⊎ B) × List ℕ)
  unfolding left right
  parse_choice [] = none
  parse_choice (zero ∷ rest) = left (sa.parse rest)
  parse_choice (suc n ∷ rest) = right (sb.parse rest)

  unfoldable pub print_choice : A ⊎ B → List ℕ → List ℕ
  print_choice (inl a) rest = 0 ∷ sa.print a rest
  print_choice (inr b) rest = 1 ∷ sb.print b rest

  pub parse_choice-print :
      (c : A ⊎ B) (rest : List ℕ) → parse_choice (print_choice c rest) ≡ some (c, rest)
  unfolding parse_choice print_choice
  parse_choice-print (inl a) rest = rw (sa.parse-print a rest)
  parse_choice-print (inr b) rest = rw (sb.parse-print b rest)

  abbrev pub choice : Serial (A ⊎ B)
  choice = record { print = print_choice; parse = parse_choice; parse-print = parse_choice-print }

module _ {A B : Type 0} (to : A → B) (from : B → A) (law : (a : A) → from (to a) ≡ a)
    (sb : Serial B) where
  abbrev parse_via : List ℕ → Option (A × List ℕ)
  parse_via input = bind_option (sb.parse input) (λ (b, rest). some (from b, rest))

  pub parse_via-print : (a : A) (rest : List ℕ) → parse_via (sb.print (to a) rest) ≡ some (a, rest)
  parse_via-print a rest = rw (sb.parse-print (to a) rest, law a)

  abbrev pub via : Serial A
  via = record {
    print = λ a rest. sb.print (to a) rest;
    parse = parse_via;
    parse-print = parse_via-print;
  }

module _ {A : Type 0} (sa : Serial A) where
  -- The number of items stands in front.
  unfoldable pub parse_items : ℕ → List ℕ → Option (List A × List ℕ)
  parse_items zero input = some ([], input)
  parse_items (suc n) input =
      bind_option (sa.parse input)
        (λ (a, rest). bind_option (parse_items n rest) (λ (as', rest'). some (a ∷ as', rest')))

  unfoldable pub count_items : List A → ℕ
  count_items [] = 0
  count_items (a ∷ as') = suc (count_items as')

  unfoldable pub print_items : List A → List ℕ → List ℕ
  print_items [] rest = rest
  print_items (a ∷ as') rest = sa.print a (print_items as' rest)

  pub parse_items-print :
      (items : List A) (rest : List ℕ)
      → parse_items (count_items items) (print_items items rest) ≡ some (items, rest)
  unfolding parse_items count_items print_items
  parse_items-print [] rest = refl
  parse_items-print (a ∷ items) rest =
      rw (sa.parse-print a (print_items items rest), parse_items-print items rest)

  abbrev pub list : Serial (List A)
  list = record {
    print = λ items rest. count_items items ∷ print_items items rest;
    parse = elim [ [] ↦ none | n ∷ rest ↦ parse_items n rest ];
    parse-print = parse_items-print;
  }

abbrev BothScalar : Ordering → Ordering → Type 0
BothScalar Ordering.lt o = IsLt o
BothScalar Ordering.eq _ = ⊥
BothScalar Ordering.gt _ = ⊥

abbrev Scalar : Ordering → Ordering → Ordering → Type 0
Scalar Ordering.lt _ _ = Unit
Scalar Ordering.eq o p = BothScalar o p
Scalar Ordering.gt o p = BothScalar o p

both_scalar? : (o p : Ordering) → Option (BothScalar o p)
both_scalar? Ordering.lt Ordering.lt = some tt
both_scalar? _ _ = none

scalar? : (o p q : Ordering) → Option (Scalar o p q)
unfolding both_scalar?
scalar? Ordering.lt p q = some tt
scalar? Ordering.eq p q = both_scalar? p q
scalar? Ordering.gt p q = both_scalar? p q

scalar?-finds :
    (o p q : Ordering) (s : Scalar o p q) → (s' : Scalar o p q) × (scalar? o p q ≡ some s')
unfolding scalar?
scalar?-finds Ordering.lt p q s = (tt, refl)
scalar?-finds Ordering.eq Ordering.lt Ordering.lt s = (tt, refl)
scalar?-finds Ordering.gt Ordering.lt Ordering.lt s = (tt, refl)
scalar?-finds Ordering.eq Ordering.lt Ordering.eq s = elim s [ ]
scalar?-finds Ordering.eq Ordering.lt Ordering.gt s = elim s [ ]
scalar?-finds Ordering.gt Ordering.lt Ordering.eq s = elim s [ ]
scalar?-finds Ordering.gt Ordering.lt Ordering.gt s = elim s [ ]
scalar?-finds Ordering.eq Ordering.eq q s = elim s [ ]
scalar?-finds Ordering.eq Ordering.gt q s = elim s [ ]
scalar?-finds Ordering.gt Ordering.eq q s = elim s [ ]
scalar?-finds Ordering.gt Ordering.gt q s = elim s [ ]

char_from : (n : ℕ) → Option (IsScalar n) → Char
char_from n none = nul
char_from n (some s) = char n s

unfoldable pub of_code : ℕ → Char
unfolding char_from scalar?
of_code n = char_from n (scalar? (compare n 55296) (compare 57343 n) (compare n 1114112))

of_code-code : (c : Char) → of_code (code c) ≡ c
unfolding of_code
of_code-code (char n s) =
    let (s', found) = scalar?-finds (compare n 55296) (compare 57343 n) (compare n 1114112) s in
    Char-path _ _ (rw found)

unfoldable pub chars : String → List ℕ
chars empty_text = []
chars (cons_char c s) = code c ∷ chars s

unfoldable pub of_chars : List ℕ → String
of_chars [] = empty_text
of_chars (n ∷ rest) = cons_char (of_code n) (of_chars rest)

pub of_chars-chars : (s : String) → of_chars (chars s) ≡ s
unfolding of_chars chars
of_chars-chars empty_text = refl
of_chars-chars (cons_char c s) = rw (of_code-code c, of_chars-chars s)

abbrev pub string : Serial String
string = via chars of_chars of_chars-chars (list number)
