-- ===== src/Http/Sessions.antt =====
-- Sessions over HTTP: what a request without one gets, and from a login to the logout.
use Prim.Native.String.{String}
use text.Mathlib.Text.{◌==◌ as str_eq}
use unopp_server.Accounts.Tables.{User}
use unopp_server.Accounts.Users.{success, log_in, log_out}
use unopp_server.Accounts.Sessions.{OnlyHas, log_in-some, log_in-log_out}
use unopp_server.Http.Cookie.{Bytes, parse_cookie, sessdata_cookie, digits_of}
use unopp_server.Http.Decimal.{parse_cookie-sessdata_cookie}
use unopp_server.Http.Messages.{
  Stores, Env, Request, hello, logout, login, login_by_id, register, get_user_info, Content,
  please_log_in, failed_to_log_out, logged_out, greeting, says, session, name_cookie, id_cookie,
  answer,
}
use unopp_server.Http.Server.{
  Site, Handled, with_session, if_authorized, handle, on_hello, on_logout, on_login,
}
use unopp_server.Prelude.{ℕ, ◌<◌, ◌^◌, ◌≡◌, ◌⊎◌, refl, Bool, true, false, [], ◌∷◌, ◌++◌, none, some}

-- The routes that ask for a session.
unfoldable pub needs_session : Request → Bool
needs_session (login user_name password) = false
needs_session (login_by_id id password) = false
needs_session (register user_name password) = false
needs_session (get_user_info id) = false
needs_session _ = true

module _ (stores : Stores) where
  open stores use {users, Item}

  -- The cookie has no sessdata, or nobody has the one in it.
  abbrev pub HasNoSession : Bytes → Site stores → Type 0
  HasNoSession cookie s =
      (parse_cookie cookie ≡ some none)
      ⊎ ((sessdata : ℕ) × (parse_cookie cookie ≡ some (some sessdata))
          × (users.by_sessdata s.accounts sessdata ≡ none))

  IsRefused : Handled stores → Site stores → Type 0
  IsRefused m s =
      (c : Content Item) × (m ≡ some (answer c, s))
      × ((c ≡ please_log_in) ⊎ (c ≡ failed_to_log_out))

-- A user logs in by name with the right password, and nobody else has the sessdata that is generated
-- for him. Then /login sets the cookie with that sessdata, the name and the id. With that cookie, whatever
-- the browser adds behind it that does not begin with a digit, /hello greets him, /logout logs him out,
-- and after it /hello asks him to log in.
pub login-logout :
    (stores : Stores) (env : Env) (s : Site stores) (u : User) (name password : String)
    (cookie rest : Bytes)
    → stores.users.by_name s.accounts name ≡ some u
    → str_eq u.password password ≡ true
    → OnlyHas stores.users s.accounts (env.fresh name) u.id
    → env.fresh name < 2 ^ 32
    → digits_of rest ≡ []
    → let own = sessdata_cookie (env.fresh name) ++ rest in
      let (logged_in, accounts) = log_in stores.users name password env.fresh s.accounts in
      let s₁ : Site stores = (record s { accounts = accounts }) in
      let s₂ : Site stores = (record s {
        accounts = (log_out stores.users (env.fresh name) accounts).1;
      }) in
      (handle stores env (login name password) cookie s
        ≡ some (
          record {
            content = says success;
            cookies =
                session (sessdata_cookie (env.fresh name)) ∷ name_cookie name ∷ id_cookie u.id ∷ [];
          },
          s₁,
        ))
      × (handle stores env hello own s₁ ≡ some (answer (greeting u.id name), s₁))
      × (handle stores env logout own s₁ ≡ some (answer logged_out, s₂))
      × (handle stores env hello own s₂ ≡ some (answer please_log_in, s₂))
unfolding handle on_hello on_logout on_login with_session if_authorized
login-logout stores env s u name password cookie rest known right only small stops =
    let own = parse_cookie-sessdata_cookie (env.fresh name) rest small stops in
    let (result, sent, greeted, left, gone) =
      log_in-log_out stores.users s.accounts u name password env.fresh known right only in
    let is_name = (stores.users.by_name_some s.accounts name u known).1 in
    let logged_in =
      log_in-some stores.users s.accounts u name password env.fresh known right is_name in
    (
      rw logged_in refl,
      rw (own, with_session, greeted, if_authorized) refl,
      rw (own, on_logout, left) refl,
      rw (own, with_session, gone, if_authorized) refl,
    )
