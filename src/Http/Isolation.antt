-- ===== src/Http/Isolation.antt =====
-- What a request of one user leaves to the others.
use Prim.Native.String.{String}
use unopp_server.Accounts.Users.{
  success, authorize, log_out, set_sessdata, set_user_name, set_slogan as store_slogan,
}
use unopp_server.Accounts.Icons.{Icons, set_icon_new}
use unopp_server.Accounts.Friends.{
  raise_friend_request, remove_friend_request, befriend, accept_friend_request,
}
use unopp_server.Chat.History.{get_chat_message}
use unopp_server.Http.Cookie.{Bytes, parse_cookie}
use unopp_server.Http.Messages.{
  Stores, Env, Request, hello, logout, login, login_by_id, register, get_user_info, upload_icon,
  set_name, set_slogan, friend_request, get_friend_requests, handle_friend_request, get_friend_list,
  get_chat_history, get_chat_history_20, Response, answer, chat_history,
}
use unopp_server.Http.Server.{
  Site, Handled, with_session, if_authorized, store_icon, handle_request, handle, on_hello,
  on_logout, on_upload_icon, on_set_name, on_set_slogan, on_friend_request, on_get_friend_requests,
  or_now, on_handle_friend_request, on_get_friend_list, on_get_chat_history, on_get_chat_history_20,
}
use unopp_server.Http.Others.{
  test-ne, row-update_other, row-set_user_name, unread-befriend_other, requested-remove_other,
  requested-raise_other,
}
use unopp_server.Http.Sessions.{needs_session}
use unopp_server.Prelude.{
  ℕ, ◌≡◌, ◌≢◌, inl, inr, refl, sym, ◌∙◌, ap, Bool, true, false, List, [], ◌∷◌, Option, none, some,
  arith, Option-cases, Ensures, fails, returns, Ensures-bind, take, length,
}

abbrev id_or : ℕ → Option (ℕ × String) → ℕ
id_or d none = d
id_or d (some u) = u.0

module _ (stores : Stores) where
  open stores use {users, relations, requests, Item}

  -- Of the rows and the files, only those of id may change.
  pub record Untouched (id : ℕ) (s s' : Site stores) : Type 0 where
    pub accounts : (x : ℕ) → id ≢ x → users.row s'.accounts x ≡ users.row s.accounts x
    pub friends :
        (x y : ℕ)
        → id ≢ x
        → id ≢ y
        → relations.unread s'.friends x y ≡ relations.unread s.friends x y
    pub asked :
        (x y : ℕ)
        → id ≢ x
        → id ≢ y
        → requests.requested s'.asked x y ≡ requests.requested s.asked x y
    pub icons : (x : ℕ) → id ≢ x → s'.icons x ≡ s.icons x
    pub unread : s'.unread ≡ s.unread
    pub history : s'.history ≡ s.history
    pub stored : s'.stored ≡ s.stored

  -- Only these four may change at all.
  changed :
      (id : ℕ) (s : Site stores) (t : users.Table) (r : relations.Table) (q : requests.Table)
      (icons : Icons)
      → ((x : ℕ) → id ≢ x → users.row t x ≡ users.row s.accounts x)
      → ((x y : ℕ) → id ≢ x → id ≢ y → relations.unread r x y ≡ relations.unread s.friends x y)
      → ((x y : ℕ) → id ≢ x → id ≢ y → requests.requested q x y ≡ requests.requested s.asked x y)
      → ((x : ℕ) → id ≢ x → icons x ≡ s.icons x)
      → Untouched id s (record s { accounts = t; friends = r; asked = q; icons = icons })
  changed id s t r q icons in_accounts in_friends in_asked in_icons = record {
    accounts = in_accounts;
    friends = in_friends;
    asked = in_asked;
    icons = in_icons;
    unread = refl;
    history = refl;
    stored = refl;
  }

  with_accounts :
      (id : ℕ) (s : Site stores) (t : users.Table)
      → ((x : ℕ) → id ≢ x → users.row t x ≡ users.row s.accounts x)
      → Untouched id s (record s { accounts = t })
  with_accounts id s t h =
      changed id s t s.friends s.asked s.icons h (λ x y ne ne'. refl) (λ x y ne ne'. refl)
        (λ x ne. refl)

  with_icons :
      (id : ℕ) (s : Site stores) (icons : Icons)
      → ((x : ℕ) → id ≢ x → icons x ≡ s.icons x)
      → Untouched id s (record s { icons = icons })
  with_icons id s icons h =
      changed id s s.accounts s.friends s.asked icons (λ x ne. refl) (λ x y ne ne'. refl)
        (λ x y ne ne'. refl) h

  with_friends :
      (id : ℕ) (s : Site stores) (r : relations.Table) (q : requests.Table)
      → ((x y : ℕ) → id ≢ x → id ≢ y → relations.unread r x y ≡ relations.unread s.friends x y)
      → ((x y : ℕ) → id ≢ x → id ≢ y → requests.requested q x y ≡ requests.requested s.asked x y)
      → Untouched id s (record s { friends = r; asked = q })
  with_friends id s r q h k = changed id s s.accounts r q s.icons (λ x ne. refl) h k (λ x ne. refl)

  Untouched-refl : (id : ℕ) (s : Site stores) → Untouched id s s
  Untouched-refl id s = with_accounts id s s.accounts (λ x ne. refl)

  set_icon_new-other :
      (opens : Bool) (id : ℕ) (content : Bytes) (icons : Icons) (x : ℕ)
      → id ≢ x
      → (set_icon_new opens id content icons).1 x ≡ icons x
  unfolding set_icon_new
  set_icon_new-other true id content icons x ne = rw (test-ne stores id x ne) refl
  set_icon_new-other false id content icons x ne = refl

  store_icon-Untouched :
      (env : Env) (id : ℕ) (files : List Bytes) (s : Site stores)
      → Ensures (λ x. Untouched id s x.1) (store_icon stores env id files s)
  unfolding store_icon
  store_icon-Untouched env id [] s = fails
  store_icon-Untouched env id ([] ∷ files) s = fails
  store_icon-Untouched env id ((c ∷ content) ∷ files) s = returns (
      let file = take (length content) (c ∷ content) in
      with_icons id s (set_icon_new (env.opens id) id file s.icons).1
        (set_icon_new-other (env.opens id) id file s.icons))

  handle_request-Untouched :
      (accept : Bool) (id b : ℕ) (s : Site stores)
      → let done = handle_request stores accept id b s.friends s.asked in
        Untouched id s (record s { friends = done.1; asked = done.2 })
  unfolding handle_request accept_friend_request
  handle_request-Untouched true id b s =
      with_friends id s (befriend relations id b s.friends).1
        (remove_friend_request requests id b s.asked).1
        (unread-befriend_other stores id b s.friends) (requested-remove_other stores id b s.asked)
  handle_request-Untouched false id b s =
      with_friends id s s.friends (remove_friend_request requests id b s.asked).1
        (λ x y ne ne'. refl) (requested-remove_other stores id b s.asked)

  -- The cookie is that of the user with this id and name.
  pub record HasSession (cookie : Bytes) (s : Site stores) (id : ℕ) (user_name : String)
      : Type 0 where
    pub sessdata : ℕ
    pub parsed : parse_cookie cookie ≡ some (some sessdata)
    pub own : authorize users sessdata s.accounts ≡ (success, some (id, user_name))

  with_session-Ensures :
      (cookie : Bytes) (s : Site stores) (id : ℕ) (user_name : String)
      (k : ℕ → String → Handled stores)
      → HasSession cookie s id user_name
      → Ensures (λ x. Untouched id s x.1) (k id user_name)
      → Ensures (λ x. Untouched id s x.1) (with_session stores cookie s k)
  unfolding with_session if_authorized
  with_session-Ensures cookie s id user_name k h done =
      rw (h.parsed, with_session, h.own, if_authorized) done

  on_logout-Untouched :
      (cookie : Bytes) (s : Site stores) (id : ℕ) (user_name : String)
      → HasSession cookie s id user_name
      → Ensures (λ x. Untouched id s x.1) (on_logout stores cookie s)
  unfolding on_logout log_out authorize
  on_logout-Untouched cookie s id user_name h =
      elim (Option-cases (users.by_sessdata s.accounts h.sessdata)) [
        | inl e ↦ rw (h.parsed, on_logout, e, log_out) (returns (Untouched-refl id s))
        | inr (u, e) ↦
            let its = rw (e, authorize) at h.own in
            let same : u.id ≡ id = ap (λ r. id_or id r.1) its in
            rw (h.parsed, on_logout, e, log_out)
              (returns (
                with_accounts id s (set_sessdata users u.id none s.accounts) λ x ne.
                  row-update_other stores s.accounts u.id (λ v. record v { sessdata = none }) x
                    (λ v. refl) (λ is. ne (sym same ∙ is))))
      ]

  show-Untouched :
      (id : ℕ) (s : Site stores) (r : Response Item)
      → Ensures {A = Response Item × Site stores} (λ x. Untouched id s x.1) (some (r, s))
  show-Untouched id s r = returns (Untouched-refl id s)

-- A request with the session of the user id, to any route that asks for one, leaves alone what belongs to
-- the others: the rows of the other users, the friendships and the requests between any two of them,
-- their icons, and all counts in the cache and all chat messages.
pub handle-Untouched :
    (stores : Stores) (env : Env) (req : Request) (cookie : Bytes) (s : Site stores) (id : ℕ)
    (user_name : String)
    → needs_session req ≡ true
    → HasSession stores cookie s id user_name
    → Ensures (λ x. Untouched stores id s x.1) (handle stores env req cookie s)
unfolding needs_session handle on_hello on_upload_icon on_set_name on_set_slogan on_friend_request
    on_get_friend_requests on_handle_friend_request on_get_friend_list on_get_chat_history
    on_get_chat_history_20 store_slogan
handle-Untouched stores env logout cookie s id n needs h =
    on_logout-Untouched stores cookie s id n h
handle-Untouched stores env (login a b) cookie s id n needs h = ground arith
handle-Untouched stores env (login_by_id a b) cookie s id n needs h = ground arith
handle-Untouched stores env (register a b) cookie s id n needs h = ground arith
handle-Untouched stores env (get_user_info a) cookie s id n needs h = ground arith
handle-Untouched stores env (upload_icon files) cookie s id n needs h =
    with_session-Ensures stores cookie s id n _ h (store_icon-Untouched stores env id files s)
handle-Untouched stores env (set_name name) cookie s id n needs h =
    with_session-Ensures stores cookie s id n _ h (
      returns (
        with_accounts stores id s (set_user_name stores.users id name s.accounts).1
          (row-set_user_name stores s.accounts id name)))
handle-Untouched stores env (set_slogan slogan) cookie s id n needs h =
    with_session-Ensures stores cookie s id n _ h (
      returns (
        with_accounts stores id s (store_slogan stores.users id slogan s.accounts).1 λ x.
          row-update_other stores s.accounts id (λ u. record u { slogan = some slogan }) x
            (λ u. refl)))
handle-Untouched stores env (friend_request b) cookie s id n needs h =
    with_session-Ensures stores cookie s id n _ h (
      returns (
        with_friends stores id s s.friends
          (raise_friend_request stores.users stores.requests stores.relations id b s.accounts
            s.friends s.asked).1
          (λ x y ne ne'. refl) (requested-raise_other stores id b s.accounts s.friends s.asked)))
handle-Untouched stores env (handle_friend_request accept b) cookie s id n needs h =
    with_session-Ensures stores cookie s id n _ h
      (returns (handle_request-Untouched stores accept id b s))
handle-Untouched stores env hello cookie s id n needs h =
    with_session-Ensures stores cookie s id n _ h (show-Untouched stores id s _)
handle-Untouched stores env get_friend_requests cookie s id n needs h =
    with_session-Ensures stores cookie s id n _ h (show-Untouched stores id s _)
handle-Untouched stores env get_friend_list cookie s id n needs h =
    with_session-Ensures stores cookie s id n _ h (show-Untouched stores id s _)
handle-Untouched stores env (get_chat_history latest) cookie s id n needs h =
    with_session-Ensures stores cookie s id n _ h (
      Ensures-bind
        (get_chat_message stores.item_of stores.chats id (or_now stores env.now latest) s.history
          s.stored)
        λ items e. show-Untouched stores id s (answer (chat_history items)))
handle-Untouched stores env (get_chat_history_20 latest f) cookie s id n needs h =
    with_session-Ensures stores cookie s id n _ h (show-Untouched stores id s _)
