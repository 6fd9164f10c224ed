-- ===== src/Room/Members.antt =====
-- The members of a room in src/Room.hpp: joining, preparing, leaving, and the table user_2_room_id
-- that all rooms share. What is sent is in Room/Messages.antt. connections is a list of its entries,
-- without repeated keys.
use Prim.Native.String.{String}
use text.Mathlib.Text.{◌==◌ as str_eq}
use unopp_server.Prelude.{
  ℕ, Bool, true, false, not, ◌&&◌, List, [], ◌∷◌, Option, none, some, if◌then◌else◌, ◌==◌,
}

pub record UserInfo : Type 0 where
  pub user_name : String
  pub user_id : ℕ
  pub offline : Bool
  pub prepared : Bool

-- A room, with the table that the rooms share.
pub record Room : Type 0 where
  pub id : ℕ
  pub creator : String
  pub name : String
  pub password : String
  pub authorized_user_id : List ℕ
  pub connections : List (ℕ × UserInfo)
  pub is_game_on : Bool
  pub user_2_room_id : ℕ → Option ℕ

-- The constructor; user_2_room_id is there before.
abbrev pub new_room : ℕ → String → ℕ → String → String → (ℕ → Option ℕ) → Room
new_room id creator creator_id name password table = record {
  id = id;
  creator = creator;
  name = name;
  password = password;
  authorized_user_id = creator_id ∷ [];
  connections = [];
  is_game_on = false;
  user_2_room_id = table;
}

-- A message JOIN_ROOM.
pub record JoinRoom : Type 0 where
  pub conn_id : ℕ
  pub user_name : String
  pub user_id : ℕ
  pub no_password : Bool
  pub password : String

-- The answers to it.
pub data Answer : Type 0 where
  joined game_is_on already_joined password_incorrect need_password : Answer

abbrev pub is_some {ℓ} : {A : Type ℓ} → Option A → Bool
is_some none = false
is_some (some a) = true

-- The loop that looks for an old connection of this name.
unfoldable pub old_conn_id : String → List (ℕ × UserInfo) → Option ℕ
old_conn_id user_name [] = none
old_conn_id user_name ((c, p) ∷ rest) =
    if str_eq p.user_name user_name then some c else old_conn_id user_name rest

unfoldable pub member : ℕ → List ℕ → Bool
member x [] = false
member x (y ∷ ys) = if y == x then true else member x ys

-- connections.find and connections.erase
unfoldable pub find_conn : ℕ → List (ℕ × UserInfo) → Option UserInfo
find_conn conn_id [] = none
find_conn conn_id ((c, p) ∷ rest) = if c == conn_id then some p else find_conn conn_id rest

unfoldable pub erase_conn : ℕ → List (ℕ × UserInfo) → List (ℕ × UserInfo)
erase_conn conn_id [] = []
erase_conn conn_id ((c, p) ∷ rest) =
    let others = erase_conn conn_id rest in if c == conn_id then others else (c, p) ∷ others

-- user_2_room_id[user_id] = v, and its erase.
unfoldable pub set_room : ℕ → Option ℕ → (ℕ → Option ℕ) → ℕ → Option ℕ
set_room user_id v table x = if user_id == x then v else table x

-- The old connection, which only a room with a game on looks for.
abbrev pub restored : JoinRoom → Room → Option ℕ
restored q r = if r.is_game_on then old_conn_id q.user_name r.connections else none

-- The tests of JOIN_ROOM, in their order.
unfoldable pub answer : JoinRoom → Room → Answer
answer q r =
    if r.is_game_on && not (is_some (restored q r))
    then game_is_on
    else if is_some (r.user_2_room_id q.user_id) && not (is_some (restored q r))
    then already_joined
    else if not q.no_password && not (str_eq q.password r.password)
    then password_incorrect
    else if q.no_password && not (member q.user_id r.authorized_user_id)
    then need_password
    else joined

abbrev pub erase_old : Option ℕ → List (ℕ × UserInfo) → List (ℕ × UserInfo)
erase_old none cs = cs
erase_old (some c) cs = erase_conn c cs

-- The member gets in.
unfoldable pub admit : JoinRoom → Room → Room
admit q r = record r {
  connections =
      (
        q.conn_id,
        record { user_name = q.user_name; user_id = q.user_id; offline = false; prepared = false },
      )
      ∷ erase_conn q.conn_id (erase_old (restored q r) r.connections);
  authorized_user_id =
      if member q.user_id r.authorized_user_id
      then r.authorized_user_id
      else q.user_id ∷ r.authorized_user_id;
  user_2_room_id = set_room q.user_id (some r.id) r.user_2_room_id;
}

abbrev pub admitted : Answer → JoinRoom → Room → Room
admitted joined q r = admit q r
admitted _ q r = r

-- process_message on JOIN_ROOM.
unfoldable pub join : JoinRoom → Room → Answer × Room
join q r = (answer q r, admitted (answer q r) q r)

-- A write to connections[conn_id].
unfoldable pub modify_conn : ℕ → (UserInfo → UserInfo) → List (ℕ × UserInfo) → List (ℕ × UserInfo)
modify_conn conn_id f [] = []
modify_conn conn_id f ((c, p) ∷ rest) =
    if c == conn_id then (c, f p) ∷ rest else (c, p) ∷ modify_conn conn_id f rest

unfoldable pub all_prepared : List (ℕ × UserInfo) → Bool
all_prepared [] = true
all_prepared ((c, p) ∷ rest) = p.prepared && all_prepared rest

-- process_message on GAME_PREPARE: whether on_everyone_prepared is called, and the room.
unfoldable pub prepare : ℕ → Bool → Room → Bool × Room
prepare conn_id ready r =
    let cs = modify_conn conn_id (λ p. record p { prepared = ready }) r.connections in
    if is_some (find_conn conn_id r.connections)
    then (all_prepared cs, record r { connections = cs })
    else (false, r)

unfoldable pub process_close : ℕ → Room → Room
process_close conn_id r = elim (find_conn conn_id r.connections) [
  | none ↦ r
  | some p ↦
      if r.is_game_on
      then record r {
        connections = modify_conn conn_id (λ q. record q { offline = true }) r.connections;
      }
      else record r {
        connections = erase_conn conn_id r.connections;
        user_2_room_id = set_room p.user_id none r.user_2_room_id;
      }
]

unfoldable pub have_no_one_online : List (ℕ × UserInfo) → Bool
have_no_one_online [] = true
have_no_one_online ((c, p) ∷ rest) = p.offline && have_no_one_online rest

unfoldable pub get_users_room_id : ℕ → Room → ℕ
get_users_room_id user_id r = elim (r.user_2_room_id user_id) [ none ↦ 0 | some id ↦ id ]
