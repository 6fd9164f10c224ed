-- ===== src/Accounts/Friends.antt =====
-- The friends of src/Authorizer.hpp: raise_friend_request, get_friend_requests, remove_friend_request,
-- accept_friend_request. What a transaction without its commit did is undone.
use Prim.Native.String.{String}
use unopp_server.Accounts.Tables
use unopp_server.Accounts.Users.{
  Result, success, failed, user_donot_exist, cannot_request_self, already_friend, already_requested,
  get_user_info,
}
use unopp_server.Prelude.{
  ℕ, Bool, Option, none, some, List, map, if◌then◌else◌, ◌==◌, ◌||◌, not, true, false,
}

abbrev pub is_row {ℓ} : {A : Type ℓ} → Option A → Bool
is_row none = false
is_row (some a) = true

module _ (users : Tables.Users) (requests : Tables.Requests) where
  unfoldable pub get_friend_requests :
      ℕ → users.Table → requests.Table → List (Option (String × String × ℕ))
  get_friend_requests id t q = map (λ r. get_user_info users r t) (requests.requesters_of q id)

module _ (users : Tables.Users) (requests : Tables.Requests) (relations : Tables.Relations) where
  unfoldable pub raise_friend_request :
      ℕ → ℕ → users.Table → relations.Table → requests.Table → Result × requests.Table
  raise_friend_request requester_id requestee_id t r q =
      if requester_id == requestee_id
      then (cannot_request_self, q)
      else if not (is_row (users.row t requester_id)) || not (is_row (users.row t requestee_id))
      then (user_donot_exist, q)
      else if is_row (relations.unread r requester_id requestee_id)
      then (already_friend, q)
      else elim (requests.insert requester_id requestee_id q) [
        | none ↦ (already_requested, q)
        | some q' ↦ (success, q')
      ]

module _ (relations : Tables.Relations) where
  -- The transaction of accept_friend_request.
  unfoldable pub befriend : ℕ → ℕ → relations.Table → Result × relations.Table
  befriend id requester_id r = elim (relations.insert id requester_id r) [
    | none ↦ (failed, r)
    | some r₁ ↦ elim (relations.insert requester_id id r₁) [
      | none ↦ (failed, r)
      | some r₂ ↦ (success, r₂)
    ]
  ]

module _ (requests : Tables.Requests) where
  unfoldable pub remove_friend_request : ℕ → ℕ → requests.Table → Result × requests.Table
  remove_friend_request id requester_id q =
      (success, requests.delete id requester_id (requests.delete requester_id id q))

  -- remove_friend_request does not fail here.
  unfoldable pub accept_friend_request :
      (relations : Tables.Relations)
      → ℕ
      → ℕ
      → relations.Table
      → requests.Table
      → Result × relations.Table × requests.Table
  accept_friend_request relations id requester_id r q =
      let done = befriend relations id requester_id r in
      (done.0, done.1, (remove_friend_request id requester_id q).1)
