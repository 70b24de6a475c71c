-- ===== src/Server/Cookies/RoundTrip/Tests.antt =====
-- The cookies of a request with two of them.
use ruchat.Prelude.{String, ◌≡◌, refl, none, some, [], ◌∷◌}
use ruchat.Prelude.Maps.{lookup}
use ruchat.Prelude.Text.{split, split_once, trim, trim_start, trim_end}
use ruchat.Server.Cookies.{find_cookie, cookie_parts, extract_cookie}
use ruchat.Server.Cookies.RoundTrip.{IsCookie, cookie_header, extract_cookie-header}

abbrev theme : String × String
theme = ("theme", "a=b")

theme-IsCookie : IsCookie theme
theme-IsCookie = (
  (
    ((refl, refl), refl),
    (
      ((refl, refl), refl),
      (((refl, refl), refl), (((refl, refl), refl), (((refl, refl), refl), tt))),
    ),
  ),
  ((refl, refl), ((refl, refl), ((refl, refl), tt))),
)

session_only : IsCookie ("s", "5f-1")
session_only =
    ((((refl, refl), refl), tt), ((refl, refl), ((refl, refl), ((refl, refl), ((refl, refl), tt)))))

extract_cookie-header_example :
    extract_cookie (some (cookie_header theme (("s", "5f-1") ∷ []))) "s"
    ≡ lookup "s" (theme ∷ ("s", "5f-1") ∷ [])
extract_cookie-header_example =
    extract_cookie-header "s" theme (("s", "5f-1") ∷ []) theme-IsCookie (session_only, tt)

-- A part without an equals sign hides the cookies behind it.
hidden : extract_cookie (some "flag; s=1") "s" ≡ none
unfolding extract_cookie find_cookie cookie_parts split split_once trim trim_start trim_end
hidden = refl
