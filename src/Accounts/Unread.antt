-- ===== src/Accounts/Unread.antt =====
-- The counts of unread messages of src/Authorizer.hpp: add_one_unread, clear_unread, the cache that
-- write_cache_to_database brings into the table relation, and get_friend_list.
use Prim.Native.String.{String}
use unopp_server.Accounts.Tables
use unopp_server.Accounts.Tables.{same_pair}
use unopp_server.Accounts.Users.{get_user_info}
use unopp_server.Prelude.{ℕ, ◌+◌, List, [], ◌∷◌, map, Option, if◌then◌else◌, Bool}

-- An element of cache, an unordered_multimap. The list is in its iteration order.
pub record Entry : Type 0 where
  pub user_id : ℕ
  pub friend_id : ℕ
  pub count : ℕ

-- it->first == user_id, by equal_range, and it->second.first == friend_id.
abbrev pub is_for : ℕ → ℕ → Entry → Bool
is_for user_id friend_id it = same_pair it.user_id it.friend_id user_id friend_id

unfoldable pub add_one_unread : ℕ → ℕ → List Entry → List Entry
add_one_unread user_id friend_id [] =
    record { user_id = user_id; friend_id = friend_id; count = 1 } ∷ []
add_one_unread user_id friend_id (it ∷ cache) =
    let rest = add_one_unread user_id friend_id cache in
    if is_for user_id friend_id it then record it { count = it.count + 1 } ∷ cache else it ∷ rest

-- The first half of clear_unread.
unfoldable pub clear_cached : ℕ → ℕ → List Entry → List Entry
clear_cached user_id friend_id [] = []
clear_cached user_id friend_id (it ∷ cache) =
    let rest = clear_cached user_id friend_id cache in
    if is_for user_id friend_id it then record it { count = 0 } ∷ cache else it ∷ rest

-- The count that get_friend_list adds to that of the row.
unfoldable pub cached : ℕ → ℕ → List Entry → ℕ
cached user_id friend_id [] = 0
cached user_id friend_id (it ∷ cache) =
    let rest = cached user_id friend_id cache in
    if is_for user_id friend_id it then it.count else rest

module _ (relations : Tables.Relations) where
  unfoldable pub clear_unread : ℕ → ℕ → relations.Table → List Entry → relations.Table × List Entry
  clear_unread user_id friend_id r cache =
      (relations.clear user_id friend_id r, clear_cached user_id friend_id cache)

  -- The loop of write_cache_to_database.
  unfoldable pub write_entries : List Entry → relations.Table → relations.Table
  write_entries [] r = r
  write_entries (it ∷ cache) r =
      write_entries cache (relations.add it.count it.user_id it.friend_id r)

  -- One round of write_cache_to_database. The code holds cache_mutex but not db_mutex: that no other
  -- statement on the table comes between its own is assumed here.
  unfoldable pub write_cache_to_database :
      relations.Table → List Entry → relations.Table × List Entry
  write_cache_to_database r cache = (write_entries cache r, [])

module _ (relations : Tables.Relations) (users : Tables.Users) where
  -- The friends with their counts of unread messages.
  unfoldable pub get_friend_list :
      ℕ → users.Table → relations.Table → List Entry → List (Option (String × String × ℕ) × ℕ)
  get_friend_list id t r cache =
      map (λ row. (get_user_info users row.0 t, row.1 + cached id row.0 cache))
        (relations.friends_of r id)
