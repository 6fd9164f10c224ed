-- ===== src/Room/Messages.antt =====
-- The messages of a room in src/Room.hpp: process_message and process_close with what they send.
-- A JSON object is a constructor with the values in it; the words of an `info` are left out.
use Prim.Native.String.{String}
use unopp_server.Room.Members.{
  UserInfo, Room, JoinRoom, Answer, joined, answer, admit, join, restored, prepare, find_conn,
  process_close, is_some,
}
use unopp_server.Prelude.{
  ℕ, Bool, false, List, [], ◌∷◌, ◌++◌, Option, none, some, map, if◌then◌else◌, ◌==◌,
}

-- get_type()
pub data Kind : Type 0 where
  chat_room uno splendor gomoku : Kind

-- What a room sends; `G` are the objects of its game.
pub data Body (G : Type 0) : Type 0 where
  join_refused : Answer → Body G
  join_accepted : Kind → Body G
  new_member : String → Body G
  member_leaves : String → ℕ → Body G
  room_members_info : List UserInfo → Body G
  please_join : Body G
  chat_message : String → ℕ → String → Body G
  of_game : G → Body G

-- The connection of a message, and its user.
pub record Sender : Type 0 where
  pub conn_id : ℕ
  pub user_name : String
  pub user_id : ℕ

-- The messages that Room reads: JOIN_ROOM with no_password and the password, CHAT_MESSAGE, GAME_PREPARE
-- and any other.
pub data Message : Type 0 where
  join_room : Bool → String → Message
  chats : String → Message
  game_prepare : Bool → Message
  unknown : Message

abbrev pub join_of : Sender → Bool → String → JoinRoom
join_of from no_password password = record {
  conn_id = from.conn_id;
  user_name = from.user_name;
  user_id = from.user_id;
  no_password = no_password;
  password = password;
}

-- A user_name by user_id, and the empty one for an id that nobody has.
unfoldable pub user_id_to_user_name : ℕ → List (ℕ × UserInfo) → String
user_id_to_user_name id [] = ""
user_id_to_user_name id ((c, p) ∷ rest) =
    if p.user_id == id then p.user_name else user_id_to_user_name id rest

-- A call of process_message: the room after it, what is sent, in order, and whether
-- on_everyone_prepared is called at its end.
pub record Outcome (G : Type 0) : Type 0 where
  pub room : Room
  pub sent : List (ℕ × Body G)
  pub everyone_prepared : Bool

module _ {G : Type 0} where
  unfoldable pub broadcast : Body G → List (ℕ × UserInfo) → List (ℕ × Body G)
  broadcast body [] = []
  broadcast body ((c, p) ∷ rest) = (c, body) ∷ broadcast body rest

  abbrev pub get_room_members_info : List (ℕ × UserInfo) → Body G
  get_room_members_info cs = room_members_info (map (λ e. e.1) cs)

  abbrev pub welcome : Option ℕ → String → List (ℕ × UserInfo) → List (ℕ × Body G)
  welcome none user_name cs = broadcast (new_member user_name) cs
  welcome (some c) user_name cs = []

  -- What JOIN_ROOM sends, by the answer.
  unfoldable pub join_sent : Answer → Kind → JoinRoom → Room → List (ℕ × Body G)
  unfolding broadcast
  join_sent joined kind q r =
      welcome (restored q r) q.user_name r.connections
      ++ ((q.conn_id, join_accepted kind)
          ∷ broadcast (get_room_members_info (admit q r).connections) (admit q r).connections)
  join_sent a kind q r = (q.conn_id, join_refused a) ∷ []

  -- What every message but JOIN_ROOM asks first.
  abbrev pub if_member : Sender → Room → Outcome G → Outcome G
  if_member from r outcome =
      if is_some (find_conn from.conn_id r.connections)
      then outcome
      else record { room = r; sent = (from.conn_id, please_join) ∷ []; everyone_prepared = false }

  unfoldable pub process_message : Kind → Sender → Message → Room → Outcome G
  process_message kind from (join_room no_password password) r =
      let q = join_of from no_password password in
      record {
        room = (join q r).1;
        sent = join_sent (answer q r) kind q r;
        everyone_prepared = false;
      }
  process_message kind from (chats text) r = if_member from r (record {
    room = r;
    sent = broadcast (chat_message from.user_name from.user_id text) r.connections;
    everyone_prepared = false;
  })
  process_message kind from (game_prepare ready) r =
      let (everyone, r') = prepare from.conn_id ready r in
      if_member from r (record {
        room = r';
        sent = broadcast (get_room_members_info r'.connections) r'.connections;
        everyone_prepared = everyone;
      })
  process_message kind from unknown r =
      if_member from r (record { room = r; sent = []; everyone_prepared = false })

  -- What process_close sends.
  unfoldable pub close_sent : ℕ → Room → List (ℕ × Body G)
  close_sent conn_id r =
      let left = (process_close conn_id r).connections in
      let members = broadcast (get_room_members_info left) left in
      elim (find_conn conn_id r.connections) [
        | none ↦ members
        | some p ↦
            if r.is_game_on
            then members
            else broadcast (member_leaves p.user_name p.user_id) r.connections ++ members
      ]
