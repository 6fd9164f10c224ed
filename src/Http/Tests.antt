-- ===== src/Http/Tests.antt =====
-- Requests of one user.
use unopp_server.Accounts.Tables.{User}
use unopp_server.Accounts.Users.{success, log_in, log_out, authorize}
use unopp_server.Accounts.Samples.{relations, requests, users, find, user_row-some}
use unopp_server.Accounts.Sessions.{OnlyHas}
use unopp_server.Chat.History.{empty as no_history}
use unopp_server.Chat.Samples.{chats}
use unopp_server.Http.Cookie.{
  Bytes, parse_cookie, sessdata_cookie, digits_of, after_key, read, atoll, to_string, print,
}
use unopp_server.Http.Messages.{
  Stores, Env, hello, logout, login, handle_friend_request, please_log_in, logged_out, greeting,
  says, session, name_cookie, id_cookie, answer,
}
use unopp_server.Http.Server.{Site, handle}
use unopp_server.Http.Sessions.{needs_session, login-logout}
use unopp_server.Http.Isolation.{Untouched, HasSession, handle-Untouched}
use unopp_server.Prelude.{
  ℕ, ◌≡◌, refl, true, [], ◌∷◌, ◌++◌, Option, none, some, arith, Ensures, false,
}

abbrev stores : Stores
stores = record {
  users = users;
  relations = relations;
  requests = requests;
  chats = chats;
  Item = ℕ;
  item_of = λ content time. time;
}

abbrev env : Env
env = record { size = λ s. 3; fresh = λ name. 4096; now = 50; opens = λ id. true }

abbrev ann : User
ann = record { id = 0; user_name = "ann"; password = "secret"; sessdata = none; slogan = none }

abbrev site_of : Option ℕ → Site stores
site_of sessdata = record {
  accounts = record { next = 1; at = λ x. record ann { sessdata = sessdata } };
  friends = record { bound = 0; at = λ x y. none };
  asked = λ x y. false;
  unread = [];
  icons = λ x. none;
  history = no_history;
  stored = [];
}

-- "; id=0"
abbrev more : Bytes
more = b';' ∷ b' ' ∷ b'i' ∷ b'd' ∷ b'=' ∷ b'0' ∷ []

only_ann : OnlyHas users (site_of none).accounts 4096 0
only_ann x w at its = let below = (user_row-some (site_of none).accounts x w at).0 in omega arith

login-logout_example :
    let own = sessdata_cookie 4096 ++ more in
    let (logged_in, accounts) = log_in users "ann" "secret" env.fresh (site_of none).accounts in
    let s₁ : Site stores = (record (site_of none) { accounts = accounts }) in
    let s₂ : Site stores = (record (site_of none) { accounts = (log_out users 4096 accounts).1 }) in
    (handle stores env (login "ann" "secret") [] (site_of none)
      ≡ some (
        record {
          content = says success;
          cookies = session (sessdata_cookie 4096) ∷ name_cookie "ann" ∷ id_cookie 0 ∷ [];
        },
        s₁,
      ))
    × (handle stores env hello own s₁ ≡ some (answer (greeting 0 "ann"), s₁))
    × (handle stores env logout own s₁ ≡ some (answer logged_out, s₂))
    × (handle stores env hello own s₂ ≡ some (answer please_log_in, s₂))
unfolding find digits_of
login-logout_example =
    login-logout stores env (site_of none) ann "ann" "secret" [] more refl refl only_ann
      (omega arith) refl

-- The site after a login of ann.
abbrev open_site : Site stores
open_site = site_of (some 4096)

by_ann : HasSession stores (sessdata_cookie 4096) open_site 0 "ann"
unfolding parse_cookie after_key digits_of to_string print atoll read find authorize
by_ann = record { sessdata = 4096; parsed = refl; own = refl }

handle-Untouched_example :
    Ensures
      (λ x. Untouched stores 0 open_site x.1)
      (handle stores env (handle_friend_request true 2) (sessdata_cookie 4096) open_site)
unfolding needs_session
handle-Untouched_example =
    handle-Untouched stores env (handle_friend_request true 2) (sessdata_cookie 4096) open_site 0
      "ann" refl by_ann
