-- ===== src/Server/Cookies/Tokens.antt =====
-- apps/command-server/src/app_state.rs and console.rs: the token of an admin session as a cookie.
use Prim.Native.Nat.{◌/◌}
use Prim.Native.String.{String, ◌++◌ as str_append}
use text.Mathlib.TextLemmas.{nil-append, cons-append, append_assoc}
use ruchat.Prelude.{
  ℕ, zero, suc, ◌%◌, ◌<◌, ◌≡◌, refl, ap, sym, ◌∙◌, ◌∷◌, true, Bool-cases, inl, inr, some, [], ltb,
  arith, eq_refl,
}
use ruchat.Prelude.Text.{split}
use ruchat.Prelude.Maps.{lookup}
use ruchat.Prelude.Trimming.{Each, Each-append}
use ruchat.Server.AppState.{hex_digit, hex_digits, hex, new_admin_token}
use ruchat.Server.Cookies.{extract_admin_session_token}
use ruchat.Server.Cookies.RoundTrip.{
  Inner, InName, pair, cookie_header, extract_cookie-header, split-next, IsCookie, pair-Unbroken,
}

hex_digit-Inner : (n : ℕ) → n < 16 → Each Inner (hex_digit n)
hex_digit-Inner zero small = ((refl, refl), tt)
hex_digit-Inner (suc zero) small = ((refl, refl), tt)
hex_digit-Inner (suc (suc zero)) small = ((refl, refl), tt)
hex_digit-Inner (suc (suc (suc zero))) small = ((refl, refl), tt)
hex_digit-Inner (suc (suc (suc (suc zero)))) small = ((refl, refl), tt)
hex_digit-Inner (suc (suc (suc (suc (suc zero))))) small = ((refl, refl), tt)
hex_digit-Inner (suc (suc (suc (suc (suc (suc zero)))))) small = ((refl, refl), tt)
hex_digit-Inner (suc (suc (suc (suc (suc (suc (suc zero))))))) small = ((refl, refl), tt)
hex_digit-Inner (suc (suc (suc (suc (suc (suc (suc (suc zero)))))))) small = ((refl, refl), tt)
hex_digit-Inner (suc (suc (suc (suc (suc (suc (suc (suc (suc zero))))))))) small =
    ((refl, refl), tt)
hex_digit-Inner (suc (suc (suc (suc (suc (suc (suc (suc (suc (suc zero)))))))))) small =
    ((refl, refl), tt)
hex_digit-Inner (suc (suc (suc (suc (suc (suc (suc (suc (suc (suc (suc zero))))))))))) small =
    ((refl, refl), tt)
hex_digit-Inner (suc (suc (suc (suc (suc (suc (suc (suc (suc (suc (suc (suc zero)))))))))))) small =
    ((refl, refl), tt)
hex_digit-Inner (suc (suc (suc (suc (suc (suc (suc (suc (suc (suc (suc (suc (suc zero)))))))))))))
      small =
    ((refl, refl), tt)
hex_digit-Inner
      (suc (suc (suc (suc (suc (suc (suc (suc (suc (suc (suc (suc (suc (suc zero))))))))))))))
      small =
    ((refl, refl), tt)
hex_digit-Inner
      (suc (suc (suc (suc (suc (suc (suc (suc (suc (suc (suc (suc (suc (suc (suc zero)))))))))))))))
      small =
    ((refl, refl), tt)
hex_digit-Inner
      (suc
        (suc (suc (suc (suc (suc (suc (suc (suc (suc (suc (suc (suc (suc (suc (suc n))))))))))))))))
      small =
    absurd (omega (arith, small))

hex_digits-Inner : (fuel n : ℕ) → Each Inner (hex_digits fuel n)
unfolding hex_digits
hex_digits-Inner zero n = tt
hex_digits-Inner (suc fuel) n = elim (Bool-cases (ltb n 16)) [
  | inl e ↦ rw e (hex_digit-Inner n (small e))
  | inr e ↦ rw e (
      Each-append Inner (hex_digits fuel (n / 16)) (hex_digit (n % 16))
        (hex_digits-Inner fuel (n / 16)) (hex_digit-Inner (n % 16) (omega arith)))
]
  where
    small : ltb n 16 ≡ true → n < 16
    small e = ground arith

token-Inner : (now counter : ℕ) → Each Inner (new_admin_token now counter)
unfolding new_admin_token hex
token-Inner now counter =
    Each-append Inner (hex_digits 16 now) (str_append "-" (hex_digits 16 counter))
      (hex_digits-Inner 16 now)
      (Each-append Inner "-" (hex_digits 16 counter) ((refl, refl), tt)
        (hex_digits-Inner 16 counter))

name-InName : Each InName "ru_admin_session"
name-InName = (
  ((refl, refl), refl),
  (
    ((refl, refl), refl),
    (
      ((refl, refl), refl),
      (
        ((refl, refl), refl),
        (
          ((refl, refl), refl),
          (
            ((refl, refl), refl),
            (
              ((refl, refl), refl),
              (
                ((refl, refl), refl),
                (
                  ((refl, refl), refl),
                  (
                    ((refl, refl), refl),
                    (
                      ((refl, refl), refl),
                      (
                        ((refl, refl), refl),
                        (
                          ((refl, refl), refl),
                          (
                            ((refl, refl), refl),
                            (((refl, refl), refl), (((refl, refl), refl), tt)),
                          ),
                        ),
                      ),
                    ),
                  ),
                ),
              ),
            ),
          ),
        ),
      ),
    ),
  ),
)

-- The name and the value that stand at the start of a `set-cookie` header.
abbrev pub session_pair : String → String → String
session_pair token rest = str_append "ru_admin_session=" (str_append token (str_append ";" rest))

session_pair-pair :
    (token rest : String)
    → session_pair token rest ≡ str_append (pair ("ru_admin_session", token)) (String.◌∷◌ ";" rest)
session_pair-pair token rest =
    let semicolon : str_append ";" rest ≡ String.◌∷◌ ";" rest =
      cons-append ";" "" rest ∙ ap (λ t. String.◌∷◌ ";" t) (nil-append rest) in
    let equals : str_append "=" token ≡ String.◌∷◌ "=" token =
      cons-append "=" "" token ∙ ap (λ t. String.◌∷◌ "=" t) (nil-append token) in
    let joined : str_append "ru_admin_session=" token ≡ pair ("ru_admin_session", token) =
      append_assoc "ru_admin_session" "=" token
      ∙ ap (λ t. str_append "ru_admin_session" t) equals in
    sym (append_assoc "ru_admin_session=" token (str_append ";" rest))
    ∙ ap (λ t. str_append t (str_append ";" rest)) joined
    ∙ ap (λ t. str_append (pair ("ru_admin_session", token)) t) semicolon

-- A browser keeps of a `set-cookie` header what stands before the first semicolon, and sends it back.
abbrev pub kept_cookie : String → String
kept_cookie set_cookie = (split 59 set_cookie).0

header_one : (cookie : String × String) → cookie_header cookie [] ≡ pair cookie
unfolding cookie_header
header_one cookie = refl

lookup_one : (name value : String) → lookup name ((name, value) ∷ []) ≡ some value
unfolding lookup
lookup_one name value = rw (eq_refl name) refl

-- A token of the server comes back from the browser.
pub kept_cookie-token :
    (now counter : ℕ) (rest : String)
    → extract_admin_session_token
        (some (kept_cookie (session_pair (new_admin_token now counter) rest)))
      ≡ some (new_admin_token now counter)
unfolding extract_admin_session_token
kept_cookie-token now counter rest =
    let token = new_admin_token now counter in
    let cookie : String × String = ("ru_admin_session", token) in
    let is : IsCookie cookie = (name-InName, token-Inner now counter) in
    let kept : kept_cookie (session_pair token rest) ≡ pair cookie =
      ap (λ t. (split 59 t).0) (session_pair-pair token rest)
      ∙ ap (λ p. p.0) (split-next 59 ";" refl rest (pair cookie) (pair-Unbroken cookie is)) in
    let found = extract_cookie-header "ru_admin_session" cookie [] is tt in
    rw kept (rw (header_one cookie) at found) ∙ lookup_one "ru_admin_session" token
