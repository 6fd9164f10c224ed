-- ===== src/Http/Server.antt =====
-- The handlers of src/HttpServer.hpp, on the accounts and the chat. `none` is undefined behaviour. The
-- headers for other origins are in Http/Origins.antt; the log and Get /icon are left out.
use Prim.Native.String.{String}
use unopp_server.Accounts.Users.{
  Result, success, failed, username_duplicate, password_incorrect, user_donot_exist, already_friend,
  already_requested, cannot_request_self, LoggedIn, log_in, log_in_by_id, log_out, authorize,
  new_user, set_user_name, set_slogan as store_slogan, get_user_info as user_info_of,
}
use unopp_server.Accounts.Icons.{Icons, set_icon_new}
use unopp_server.Accounts.Friends.{
  raise_friend_request, get_friend_requests as friend_requests_of, accept_friend_request,
  remove_friend_request,
}
use unopp_server.Accounts.Unread
use unopp_server.Accounts.Unread.{Entry}
use unopp_server.Chat.History.{ChatHistory, get_chat_message, get_20_chat_messages}
use unopp_server.Http.Messages.{
  Stores, Env, Request, hello, logout, get_friend_requests, get_friend_list, login, login_by_id,
  register, upload_icon, set_name, set_slogan, friend_request, handle_friend_request,
  get_chat_history, get_chat_history_20, get_user_info, Content, empty, please_log_in, miss_params,
  logged_out, failed_to_log_out, greeting, says, friend_requests, friend_list, chat_history,
  chat_messages, user_info, SetCookie, session, name_cookie, id_cookie, Response, answer,
}
use unopp_server.Http.Cookie.{Bytes, parse_cookie, sessdata_cookie}
use unopp_server.Prelude.{
  ℕ, Bool, List, [], ◌∷◌, length, take, Option, none, some, ◌>>=◌, if◌then◌else◌,
}

module _ (stores : Stores) where
  open stores use {users, relations, requests, chats, Item, item_of}

  pub record Site : Type 0 where
    pub accounts : users.Table
    pub friends : relations.Table
    pub asked : requests.Table
    pub unread : List Entry
    pub icons : Icons
    pub history : ChatHistory
    pub stored : chats.Table

  abbrev pub Handled : Type 0
  Handled = Option (Response Item × Site)

  -- What every handler that needs a session does first.
  unfoldable pub if_authorized :
      Result × Option (ℕ × String) → Site → (ℕ → String → Handled) → Handled
  if_authorized (success, some (id, user_name)) s k = k id user_name
  if_authorized _ s k = some (answer please_log_in, s)

  unfoldable pub with_session : Bytes → Site → (ℕ → String → Handled) → Handled
  with_session cookie s k = parse_cookie cookie >>= λ c. elim c [
    | none ↦ some (answer please_log_in, s)
    | some sessdata ↦ if_authorized (authorize users sessdata s.accounts) s k
  ]

  abbrev pub login_content : Result → Content Item
  login_content success = says success
  login_content password_incorrect = says password_incorrect
  login_content user_donot_exist = says user_donot_exist
  login_content _ = empty

  abbrev pub login_cookies : Result → Option (ℕ × String) → Option ℕ → List SetCookie
  login_cookies success (some u) (some sessdata) =
      session (sessdata_cookie sessdata) ∷ name_cookie u.1 ∷ id_cookie u.0 ∷ []
  login_cookies _ _ _ = []

  -- What the two logins send.
  abbrev pub login_response : LoggedIn → Response Item
  login_response l = record {
    content = login_content l.result;
    cookies = login_cookies l.result l.user l.sessdata;
  }

  -- Get /hello
  unfoldable pub on_hello : Bytes → Site → Handled
  on_hello cookie s = with_session cookie s λ id user_name. some (answer (greeting id user_name), s)

  -- Post /login
  unfoldable pub on_login : Env → String → String → Site → Handled
  on_login env user_name password s =
      let (logged_in, accounts) = log_in users user_name password env.fresh s.accounts in
      some (login_response logged_in, record s { accounts = accounts })

  -- Post /login-byid
  unfoldable pub on_login_by_id : Env → ℕ → String → Site → Handled
  on_login_by_id env id password s =
      let (logged_in, accounts) = log_in_by_id users id password env.fresh s.accounts in
      some (login_response logged_in, record s { accounts = accounts })

  abbrev pub logout_content : Result → Content Item
  logout_content success = logged_out
  logout_content _ = failed_to_log_out

  -- Get /logout
  unfoldable pub on_logout : Bytes → Site → Handled
  on_logout cookie s = parse_cookie cookie >>= λ c. elim c [
    | none ↦ some (answer please_log_in, s)
    | some sessdata ↦
        let (result, accounts) = log_out users sessdata s.accounts in
        some (answer (logout_content result), record s { accounts = accounts })
  ]

  abbrev pub or_failed : Result → Content Item
  or_failed success = says success
  or_failed _ = says failed

  abbrev pub or_duplicate : Result → Content Item
  or_duplicate username_duplicate = says username_duplicate
  or_duplicate r = or_failed r

  -- Post /register
  unfoldable pub on_register : Env → String → String → Site → Handled
  on_register env user_name password s =
      let (result, accounts) = new_user users env.size user_name password s.accounts in
      some (answer (or_duplicate result), record s { accounts = accounts })

  -- The first file without its last byte: undefined without a file or a byte.
  unfoldable pub store_icon : Env → ℕ → List Bytes → Site → Handled
  store_icon env id [] s = none
  store_icon env id ([] ∷ files) s = none
  store_icon env id ((c ∷ content) ∷ files) s =
      let (result, icons) =
        set_icon_new (env.opens id) id (take (length content) (c ∷ content)) s.icons in
      some (answer (or_failed result), record s { icons = icons })

  -- Post /upload-icon
  unfoldable pub on_upload_icon : Env → List Bytes → Bytes → Site → Handled
  on_upload_icon env files cookie s =
      with_session cookie s λ id user_name. store_icon env id files s

  abbrev pub name_response : Result → String → Response Item
  name_response success name = record { content = says success; cookies = name_cookie name ∷ [] }
  name_response r name = answer (or_duplicate r)

  -- Post /set-name
  unfoldable pub on_set_name : String → Bytes → Site → Handled
  on_set_name name cookie s = with_session cookie s λ id user_name.
      let (result, accounts) = set_user_name users id name s.accounts in
      some (name_response result name, record s { accounts = accounts })

  abbrev pub request_content : Result → Content Item
  request_content already_friend = says already_friend
  request_content already_requested = says already_requested
  request_content user_donot_exist = says user_donot_exist
  request_content cannot_request_self = says cannot_request_self
  request_content _ = says success

  -- Post /friend-request
  unfoldable pub on_friend_request : ℕ → Bytes → Site → Handled
  on_friend_request requestee_id cookie s = with_session cookie s λ id user_name.
      let (result, asked) =
        raise_friend_request users requests relations id requestee_id s.accounts s.friends
          s.asked in
      some (answer (request_content result), record s { asked = asked })

  -- Get /get-friend-requests
  unfoldable pub on_get_friend_requests : Bytes → Site → Handled
  on_get_friend_requests cookie s = with_session cookie s λ id user_name.
      some (answer (friend_requests (friend_requests_of users requests id s.accounts s.asked)), s)

  -- accept_friend_request or remove_friend_request
  unfoldable pub handle_request :
      Bool → ℕ → ℕ → relations.Table → requests.Table → Result × relations.Table × requests.Table
  handle_request accept id requester_id r q =
      let removed = remove_friend_request requests id requester_id q in
      if accept
      then accept_friend_request requests relations id requester_id r q
      else (removed.0, r, removed.1)

  -- Post /handle-friend-request
  unfoldable pub on_handle_friend_request : Bool → ℕ → Bytes → Site → Handled
  on_handle_friend_request accept requester_id cookie s = with_session cookie s λ id user_name.
      let (result, friends, asked) = handle_request accept id requester_id s.friends s.asked in
      some (answer (or_failed result), record s { friends = friends; asked = asked })

  -- Get /get-friend-list
  unfoldable pub on_get_friend_list : Bytes → Site → Handled
  on_get_friend_list cookie s = with_session cookie s λ id user_name. some (
    answer (friend_list (Unread.get_friend_list relations users id s.accounts s.friends s.unread)),
    s,
  )

  abbrev pub or_now : ℕ → Option ℕ → ℕ
  or_now now none = now
  or_now now (some timestamp) = timestamp

  -- Get /get-chat-history
  unfoldable pub on_get_chat_history : Env → Option ℕ → Bytes → Site → Handled
  on_get_chat_history env latest cookie s = with_session cookie s λ id user_name.
      get_chat_message item_of chats id (or_now env.now latest) s.history s.stored >>= λ items.
      some (answer (chat_history items), s)

  abbrev pub messages_content : Option ℕ → Option ℕ → ℕ → Site → Content Item
  messages_content (some timestamp) (some friend_id) id s =
      chat_messages (get_20_chat_messages item_of chats id friend_id timestamp s.stored)
  messages_content _ _ id s = miss_params

  -- Get /get-chat-history-20
  unfoldable pub on_get_chat_history_20 : Option ℕ → Option ℕ → Bytes → Site → Handled
  on_get_chat_history_20 latest friend_id cookie s =
      with_session cookie s
        λ id user_name. some (answer (messages_content latest friend_id id s), s)

  -- Get /get-user-info
  unfoldable pub on_get_user_info : Option ℕ → Site → Handled
  on_get_user_info none s = some (answer miss_params, s)
  on_get_user_info (some id) s = some (answer (user_info (user_info_of users id s.accounts)), s)

  -- Post /set-slogan
  unfoldable pub on_set_slogan : String → Bytes → Site → Handled
  on_set_slogan slogan cookie s = with_session cookie s λ id user_name.
      let (result, accounts) = store_slogan users id slogan s.accounts in
      some (answer (or_failed result), record s { accounts = accounts })

  -- The routes.
  unfoldable pub handle : Env → Request → Bytes → Site → Handled
  handle env hello cookie s = on_hello cookie s
  handle env (login user_name password) cookie s = on_login env user_name password s
  handle env (login_by_id id password) cookie s = on_login_by_id env id password s
  handle env logout cookie s = on_logout cookie s
  handle env (register user_name password) cookie s = on_register env user_name password s
  handle env (upload_icon files) cookie s = on_upload_icon env files cookie s
  handle env (set_name name) cookie s = on_set_name name cookie s
  handle env (friend_request requestee_id) cookie s = on_friend_request requestee_id cookie s
  handle env get_friend_requests cookie s = on_get_friend_requests cookie s
  handle env (handle_friend_request accept requester_id) cookie s =
      on_handle_friend_request accept requester_id cookie s
  handle env get_friend_list cookie s = on_get_friend_list cookie s
  handle env (get_chat_history latest) cookie s = on_get_chat_history env latest cookie s
  handle env (get_chat_history_20 latest friend_id) cookie s =
      on_get_chat_history_20 latest friend_id cookie s
  handle env (get_user_info id) cookie s = on_get_user_info id s
  handle env (set_slogan slogan) cookie s = on_set_slogan slogan cookie s
