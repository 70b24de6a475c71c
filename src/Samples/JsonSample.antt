-- ===== src/Samples/JsonSample.antt =====
-- Texts for the three JSON columns that decode to what was encoded: a stream of numbers, each in
-- unary. The text "[]", which the program writes itself, is the empty list of commands.
use Prim.Native.Char.{Char, code}
use Prim.Native.String.{[] as empty_text, ◌∷◌ as cons_char}
use mathlib.Core.Path.{ap₂}
use text.Mathlib.TextLemmas.{head-eq_of_cons-eq}
use ruchat.Prelude.{
  ℕ, zero, suc, ◌+◌, String, ◌≡◌, refl, ap, ◌∙◌, Bool, true, false, Option, none, some, List, [],
  ◌∷◌, ◌==◌, str_eq, eq_iff, Bool-cases, inl, inr, ◌≢◌, arith, if◌then◌else◌,
}
use ruchat.Prelude.Result.{Result, ok, err}
use ruchat.Protocol.Domain.{ℤ, pos, negsuc, CommandDescriptor, ExecutionResult}
use ruchat.Protocol.Codec.{Json}
use ruchat.Samples.Serial.{Serial, number, pair, via, list, string}

unfoldable pub unary : ℕ → String → String
unary zero s = cons_char "0" s
unary (suc n) s = cons_char "1" (unary n s)

unfoldable pub to_text : List ℕ → String
unfolding unary
to_text [] = empty_text
to_text (n ∷ rest) = unary n (to_text rest)

unfoldable pub of_text : ℕ → String → List ℕ
of_text n empty_text = []
of_text n (cons_char c s) =
    let more = of_text (n + 1) s in
    let done = n ∷ of_text 0 s in if code c == 49 then more else done

of_text-unary : (n m : ℕ) (s : String) → of_text n (unary m s) ≡ (n + m) ∷ of_text 0 s
unfolding of_text unary
of_text-unary n zero s = ap (λ k. k ∷ of_text 0 s) (omega arith)
of_text-unary n (suc m) s = of_text-unary (n + 1) m s ∙ ap (λ k. k ∷ of_text 0 s) (omega arith)

of_text-to_text : (l : List ℕ) → of_text 0 (to_text l) ≡ l
unfolding of_text to_text
of_text-to_text [] = refl
of_text-to_text (n ∷ rest) =
    of_text-unary 0 n (to_text rest) ∙ ap₂ ◌∷◌ (omega arith) (of_text-to_text rest)

-- What is left of a stream that was parsed to its end.
unfoldable pub finished {ℓ} : {A : Type ℓ} → Option (A × List ℕ) → Result String A
finished (some (a, [])) = ok a
finished _ = err "malformed"

module _ {A : Type 0} (sa : Serial A) where
  abbrev encode_text : A → String
  encode_text a = to_text (sa.print a [])

  abbrev decode_text : String → Result String A
  decode_text s = finished (sa.parse (of_text 0 s))

  pub decode_text-encode_text : (a : A) → decode_text (encode_text a) ≡ ok a
  unfolding finished
  decode_text-encode_text a = rw (of_text-to_text (sa.print a []), sa.parse-print a [])

unfoldable pub of_bit : ℕ → Bool
of_bit n = n == 1

unfoldable pub to_bit : Bool → ℕ
to_bit true = 1
to_bit false = 0

pub of_bit-to_bit : (b : Bool) → of_bit (to_bit b) ≡ b
unfolding of_bit to_bit
of_bit-to_bit true = refl
of_bit-to_bit false = refl

abbrev pub bool : Serial Bool
bool = via to_bit of_bit of_bit-to_bit number

-- An option as a list of at most one item.
module _ {A : Type 0} where
  unfoldable pub to_items : Option A → List A
  to_items none = []
  to_items (some a) = a ∷ []

  unfoldable pub of_items : List A → Option A
  of_items [] = none
  of_items (a ∷ _) = some a

  pub of_items-to_items : (o : Option A) → of_items (to_items o) ≡ o
  unfolding of_items to_items
  of_items-to_items none = refl
  of_items-to_items (some a) = refl

abbrev pub option : {A : Type 0} → Serial A → Serial (Option A)
option sa = via to_items of_items of_items-to_items (list sa)

unfoldable pub to_signed : ℤ → Bool × ℕ
to_signed (pos n) = (true, n)
to_signed (negsuc n) = (false, n)

unfoldable pub of_signed : Bool × ℕ → ℤ
of_signed (true, n) = pos n
of_signed (false, n) = negsuc n

pub of_signed-to_signed : (z : ℤ) → of_signed (to_signed z) ≡ z
unfolding of_signed to_signed
of_signed-to_signed (pos n) = refl
of_signed-to_signed (negsuc n) = refl

abbrev pub integer : Serial ℤ
integer = via to_signed of_signed of_signed-to_signed (pair bool number)

abbrev pub descriptor : Serial CommandDescriptor
descriptor =
    via (λ d. ((d.name, d.description), (d.default_args, d.allow_extra_args)))
      (λ t. record {
        name = t.0.0;
        description = t.0.1;
        default_args = t.1.0;
        allow_extra_args = t.1.1;
      })
      (λ d. refl) (pair (pair string string) (pair (list string) bool))

abbrev pub result : Serial ExecutionResult
result =
    via
      (λ r. (
        ((r.success, r.exit_code), (r.stdout, r.stderr)),
        ((r.stdout_truncated, r.stderr_truncated), (r.duration_ms, r.error)),
      ))
      (λ t. record {
        success = t.0.0.0;
        exit_code = t.0.0.1;
        stdout = t.0.1.0;
        stderr = t.0.1.1;
        stdout_truncated = t.1.0.0;
        stderr_truncated = t.1.0.1;
        duration_ms = t.1.1.0;
        error = t.1.1.1;
      })
      (λ r. refl)
      (pair (pair (pair bool (option integer)) (pair string string))
        (pair (pair bool bool) (pair number (option string))))

unfoldable pub decode_commands : String → Result String (List CommandDescriptor)
unfolding finished
decode_commands s = if str_eq s "[]" then ok [] else decode_text (list descriptor) s

-- An encoding begins with a digit.
digit-ne-bracket : (c : Char) (s : String) → code c ≢ 91 → str_eq (cons_char c s) "[]" ≡ false
digit-ne-bracket c s h = elim (Bool-cases (str_eq (cons_char c s) "[]")) [
  | inl e ↦ absurd (h (ap code (head-eq_of_cons-eq ((eq_iff (cons_char c s) "[]").0 e))))
  | inr e ↦ e
]

unary-ne-brackets : (n : ℕ) (s : String) → str_eq (unary n s) "[]" ≡ false
unfolding unary
unary-ne-brackets zero s = digit-ne-bracket "0" s (λ e. omega arith)
unary-ne-brackets (suc n) s = digit-ne-bracket "1" (unary n s) (λ e. omega arith)

encode-ne-brackets :
    (cs : List CommandDescriptor) → str_eq (encode_text (list descriptor) cs) "[]" ≡ false
unfolding to_text
encode-ne-brackets cs = unary-ne-brackets _ _

pub decode_commands-encode :
    (cs : List CommandDescriptor) → decode_commands (encode_text (list descriptor) cs) ≡ ok cs
unfolding decode_commands
decode_commands-encode cs =
    rw (encode-ne-brackets cs) (decode_text-encode_text (list descriptor) cs)

pub decode_commands-empty : decode_commands "[]" ≡ ok []
unfolding decode_commands
decode_commands-empty = refl

abbrev pub sample_json : Json
sample_json = record {
  args = record {
    encode = λ a. encode_text (list string) a;
    decode = λ s. decode_text (list string) s;
    decode-encode = decode_text-encode_text (list string);
  };
  commands = record {
    encode = λ a. encode_text (list descriptor) a;
    decode = decode_commands;
    decode-encode = decode_commands-encode;
  };
  result = record {
    encode = λ a. encode_text result a;
    decode = λ s. decode_text result s;
    decode-encode = decode_text-encode_text result;
  };
  commands_empty = decode_commands-empty;
}
