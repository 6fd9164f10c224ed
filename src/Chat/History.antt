-- ===== src/Chat/History.antt =====
-- The class ChatHistory: new_chat_message, a round of write_database, get_chat_message and
-- get_20_chat_messages. The clock is an argument, and so is what jsoncpp makes of a message:
-- `item_of content timestamp` parses the content and adds the timestamp.
use Prim.Native.String.{String}
use unopp_server.Chat.Table.{ChatMessage, Chats, has}
use unopp_server.Prelude.{
  ℕ, List, [], ◌∷◌, ◌++◌, map, take, drop, length, Option, some, ◌>>=◌, get_elem?, if◌then◌else◌,
  ◌==◌, ltb,
}

-- The members. index is in its iteration order.
pub record ChatHistory : Type 0 where
  pub cache : List ChatMessage
  pub index : List (ℕ × ℕ)

abbrev pub empty : ChatHistory
empty = record { cache = []; index = [] }

-- std::unordered_multimap::emplace, which may put an element anywhere: before `place` others.
abbrev pub emplace : ℕ → ℕ × ℕ → List (ℕ × ℕ) → List (ℕ × ℕ)
emplace place e index = take place index ++ e ∷ drop place index

unfoldable pub new_chat_message : (ℕ → ℕ) → ChatMessage → ChatHistory → ChatHistory
new_chat_message places m h =
    let last = length h.cache in
    record {
      cache = h.cache ++ m ∷ [];
      index =
          emplace (places 1) (m.receiver_id, last) (emplace (places 0) (m.sender_id, last) h.index);
    }

module _ (chats : Chats) where
  open chats use {Table, insert, receivers_of, senders_of, between}

  -- The loop of write_database goes from the end of the cache to its front.
  unfoldable pub write_messages : List ChatMessage → Table → Table
  write_messages [] t = t
  write_messages (m ∷ ms) t = insert m (write_messages ms t)

  -- One round of write_database.
  unfoldable pub write_database : ChatHistory → Table → ChatHistory × Table
  write_database h t = (empty, write_messages h.cache t)

-- cache[it->second].sender_id == user_id ? receiver_id : sender_id
abbrev pub friend_of : ℕ → ChatMessage → ℕ
friend_of user_id m = if m.sender_id == user_id then m.receiver_id else m.sender_id

-- std::set::insert: in order, each id once.
unfoldable pub place_id : ℕ → List ℕ → List ℕ
place_id x [] = x ∷ []
place_id x (y ∷ ys) = let rest = place_id x ys in if ltb x y then x ∷ y ∷ ys else y ∷ rest

unfoldable pub insert_id : ℕ → List ℕ → List ℕ
insert_id x ids = if has x ids then ids else place_id x ids

unfoldable pub insert_ids : List ℕ → List ℕ → List ℕ
insert_ids [] ids = ids
insert_ids (x ∷ xs) ids = insert_ids xs (insert_id x ids)

module _ {Item : Type 0} (item_of : String → ℕ → Item) where
  unfoldable pub entry_of : ℕ → ChatMessage → ℕ × Item
  entry_of user_id m = (friend_of user_id m, item_of m.message m.timestamp)

  -- The messages in the cache: `none` is a read past its end.
  unfoldable pub from_cache : ℕ → ℕ → List ChatMessage → List (ℕ × ℕ) → Option (List (ℕ × Item))
  from_cache user_id latest_timestamp cache [] = some []
  from_cache user_id latest_timestamp cache (it ∷ index) =
      let rest = from_cache user_id latest_timestamp cache index in
      if it.0 == user_id
      then (get_elem? cache it.1 >>= λ m. rest >>= λ items.
          some (if ltb m.timestamp latest_timestamp then entry_of user_id m ∷ items else items))
      else rest

module _ {Item : Type 0} (item_of : String → ℕ → Item) (chats : Chats) where
  open chats use {Table, receivers_of, senders_of, between}

  unfoldable pub from_table : ℕ → ℕ → Table → List ℕ → List (ℕ × Item)
  from_table user_id latest_timestamp t [] = []
  from_table user_id latest_timestamp t (id ∷ ids) =
      map (entry_of item_of user_id) (take 20 (between t user_id id latest_timestamp))
      ++ from_table user_id latest_timestamp t ids

  -- res[friend_id].append(item), in this order. The code takes cache_mutex for the cache and then
  -- db_mutex for the table: `h` is what the first lock sees, and `t` what the second one sees. A round
  -- of write_database may fall between the two.
  unfoldable pub get_chat_message : ℕ → ℕ → ChatHistory → Table → Option (List (ℕ × Item))
  get_chat_message user_id latest_timestamp h t =
      let ids = insert_ids (senders_of t user_id) (insert_ids (receivers_of t user_id) []) in
      from_cache item_of user_id latest_timestamp h.cache h.index >>= λ items.
      some (items ++ from_table user_id latest_timestamp t ids)

  unfoldable pub get_20_chat_messages : ℕ → ℕ → ℕ → Table → List Item
  get_20_chat_messages user_id friend_id latest_timestamp t =
      map (λ m. item_of m.message m.timestamp)
        (take 20 (between t user_id friend_id latest_timestamp))
