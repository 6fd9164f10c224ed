-- ===== src/Http/Origins.antt =====
-- The Options handlers of src/HttpServer.hpp and the headers that let pages of other origins in.
use Prim.Native.String.{String}
use unopp_server.Prelude.{
  arith, ◌≡◌, refl, Bool, true, false, List, [], ◌∷◌, Option, none, some, Defined, ◌++◌,
}

-- The paths with a handler.
pub data Route : Type 0 where
  hello login login_by_id logout register upload_icon icon set_name friend_request : Route
  get_friend_requests handle_friend_request get_friend_list get_chat_history : Route
  get_chat_history_20 get_user_info set_slogan : Route

-- Access-Control-Allow-Origin, -Credentials and -Headers.
pub data Header : Type 0 where
  allow_origin : String → Header
  allow_credentials : Bool → Header
  allow_headers : List String → Header

-- What every handler sets: the Origin of the request, and the credentials.
abbrev pub cors : String → List Header
cors origin = allow_origin origin ∷ allow_credentials true ∷ []

-- What a preflight allows, at the paths that have an Options handler.
unfoldable pub allowed_headers : Route → Option (List String)
allowed_headers login = some ("Content-Type" ∷ [])
allowed_headers login_by_id = some ("Content-Type" ∷ [])
allowed_headers register = some ("Content-Type" ∷ [])
allowed_headers upload_icon = some ("Content-Type" ∷ "x-requested-with" ∷ [])
allowed_headers set_name = some ("Content-Type" ∷ "x-requested-with" ∷ [])
allowed_headers friend_request = some ("Content-Type" ∷ "x-requested-with" ∷ [])
allowed_headers handle_friend_request = some ("Content-Type" ∷ "x-requested-with" ∷ [])
allowed_headers set_slogan = some ("Content-Type" ∷ "x-requested-with" ∷ [])
allowed_headers _ = none

unfoldable pub on_options : Route → String → Option (List Header)
on_options path origin = elim (allowed_headers path) [
  | none ↦ none
  | some names ↦ some (cors origin ++ allow_headers names ∷ [])
]

-- The paths of Post, whose bodies are JSON or files.
abbrev pub is_post : Route → Bool
is_post login = true
is_post login_by_id = true
is_post register = true
is_post upload_icon = true
is_post set_name = true
is_post friend_request = true
is_post handle_friend_request = true
is_post set_slogan = true
is_post _ = false

-- Every path of Post answers the preflight of a page of another origin.
pub on_options-post :
    (path : Route) (origin : String) → is_post path ≡ true → Defined (on_options path origin)
unfolding on_options allowed_headers
on_options-post login origin e = (_, refl)
on_options-post login_by_id origin e = (_, refl)
on_options-post register origin e = (_, refl)
on_options-post upload_icon origin e = (_, refl)
on_options-post set_name origin e = (_, refl)
on_options-post friend_request origin e = (_, refl)
on_options-post handle_friend_request origin e = (_, refl)
on_options-post set_slogan origin e = (_, refl)
on_options-post _ origin e = ground arith
