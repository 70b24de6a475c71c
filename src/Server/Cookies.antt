-- ===== src/Server/Cookies.antt =====
-- apps/command-server/src/app_state.rs: the cookie of a request. `headers` is the text of the `cookie`
-- header, if the request has one of visible ASCII characters.
pub mod RoundTrip
pub mod Tokens
use Prim.Native.Char.{code}
use ruchat.Prelude.{String, Option, none, some, List, [], ◌∷◌, ◌==◌, str_eq, if◌then◌else◌}
use ruchat.Prelude.Text.{split, split_once, trim}

abbrev pub session_cookie_name : String
session_cookie_name = "ru_admin_session"

-- `?` on a part without an equals sign ends the search.
unfoldable pub find_cookie : String → List (Option (String × String)) → Option String
find_cookie name [] = none
find_cookie name (none ∷ parts) = none
find_cookie name (some (cookie_name, cookie_value) ∷ parts) =
    let rest = find_cookie name parts in if str_eq cookie_name name then some cookie_value else rest

-- `part.trim().split_once('=')` of every part.
unfoldable pub cookie_parts : List String → List (Option (String × String))
cookie_parts [] = []
cookie_parts (part ∷ parts) = split_once 61 (trim part) ∷ cookie_parts parts

unfoldable pub extract_cookie : Option String → String → Option String
unfolding find_cookie cookie_parts
extract_cookie none name = none
extract_cookie (some header) name =
    find_cookie name (cookie_parts ((split 59 header).0 ∷ (split 59 header).1))

unfoldable pub extract_admin_session_token : Option String → Option String
extract_admin_session_token headers = extract_cookie headers session_cookie_name
