-- ===== src/Room/Manager.antt =====
-- The rooms of the server, src/RoomManager.hpp: CREATE_ROOM, GET_ROOM_LIST, the dispatch of the other
-- messages to a room, process_close and a round of check_empty_rooms.
-- rooms is a list of its entries, without repeated keys. The static table user_2_room_id is kept here
-- and lent to the room that a message goes to. `none` is undefined behaviour in a room.
use Prim.Native.String.{String}
use unopp_server.Prelude.Int.{ℤ}
use unopp_server.Gomoku.Rules.{Gomoku}
use unopp_server.Room.Members.{
  UserInfo, Room, new_room, set_room, process_close, have_no_one_online,
}
use unopp_server.Room.Messages.{
  Kind, uno, splendor, gomoku, Body, Sender, Message, unknown, close_sent,
}
use unopp_server.Room.UnoRoom
use unopp_server.Room.UnoRoom.{UnoRoom, UnoMessage, UnoBody, process_uno}
use unopp_server.Room.SplendorRoom
use unopp_server.Room.SplendorRoom.{SplendorRoom, SplendorMessage, SplendorBody, process_splendor}
use unopp_server.Room.GomokuRoom
use unopp_server.Room.GomokuRoom.{GomokuRoom, Side, GomokuBody, on_drop, after_drop}
use unopp_server.Prelude.{
  ℕ, Bool, true, false, not, ◌&&◌, List, [], ◌∷◌, Option, none, some, map, length, if◌then◌else◌,
  ◌==◌, ◌>>=◌,
}

-- A room of one of the three classes.
pub data AnyRoom : Type 0 where
  uno_room : UnoRoom → AnyRoom
  splendor_room : SplendorRoom → AnyRoom
  gomoku_room : GomokuRoom → AnyRoom

abbrev pub base : AnyRoom → Room
base (uno_room r) = r.room
base (splendor_room r) = r.room
base (gomoku_room r) = r.room

abbrev pub with_base : Room → AnyRoom → AnyRoom
with_base b (uno_room r) = uno_room (record r { room = b })
with_base b (splendor_room r) = splendor_room (record r { room = b })
with_base b (gomoku_room r) = gomoku_room (record r { room = b })

abbrev pub get_type : AnyRoom → Kind
get_type (uno_room r) = uno
get_type (splendor_room r) = splendor
get_type (gomoku_room r) = gomoku

-- An entry of the answer to GET_ROOM_LIST.
pub record Entry : Type 0 where
  pub name : String
  pub id : ℕ
  pub creator : String
  pub num_of_people : ℕ
  pub type : Kind

-- What the server sends from here.
pub data AnyBody : Type 0 where
  of_uno : Body UnoBody → AnyBody
  of_splendor : Body SplendorBody → AnyBody
  of_gomoku : Body GomokuBody → AnyBody
  create_room_res : Bool → AnyBody
  room_list : List Entry → AnyBody
  room_donot_exist : AnyBody

abbrev pub Sent : Type 0
Sent = List (ℕ × AnyBody)

abbrev pub wrap {ℓ} : {A : Type ℓ} → (A → AnyBody) → List (ℕ × A) → Sent
wrap f [] = []
wrap f ((c, body) ∷ rest) = (c, f body) ∷ wrap f rest

-- The messages for a room.
pub data RoomMessage : Type 0 where
  uno_message : UnoMessage → RoomMessage
  splendor_message : SplendorMessage → RoomMessage
  gomoku_drop : ℤ → ℤ → RoomMessage
  room_message : Message → RoomMessage

-- What rand() returns in the rooms, and the colour that begin_game of src/GomokuRoom.hpp begins with.
pub record Rand : Type 0 where
  pub uno : UnoRoom.Rand
  pub splendor : SplendorRoom.Rand
  pub coin : Bool

pub record RoomManager : Type 0 where
  pub rooms : List (ℕ × AnyRoom)
  pub user_2_room_id : ℕ → Option ℕ

-- rooms.find, a write to rooms[room_id], and rooms.erase
unfoldable pub find_room : ℕ → List (ℕ × AnyRoom) → Option AnyRoom
find_room room_id [] = none
find_room room_id ((id, r) ∷ rest) = if id == room_id then some r else find_room room_id rest

unfoldable pub put_room : ℕ → AnyRoom → List (ℕ × AnyRoom) → List (ℕ × AnyRoom)
put_room room_id new [] = []
put_room room_id new ((id, r) ∷ rest) =
    if id == room_id then (id, new) ∷ rest else (id, r) ∷ put_room room_id new rest

unfoldable pub erase_room : ℕ → List (ℕ × AnyRoom) → List (ℕ × AnyRoom)
erase_room room_id [] = []
erase_room room_id ((id, r) ∷ rest) =
    let others = erase_room room_id rest in if id == room_id then others else (id, r) ∷ others

-- The values of room_type that CREATE_ROOM knows: "UNO", "SPLENDOR" and "GOMOKU".
pub data RoomType : Type 0 where
  uno_type splendor_type gomoku_type : RoomType

-- The arguments of CREATE_ROOM; `none` is any other room_type.
pub record CreateRoom : Type 0 where
  pub room_id : ℕ
  pub room_type : Option RoomType
  pub room_name : String
  pub password : String

-- The constructors of the three classes. Gomoku's array of sides is not set before a game.
abbrev pub white_side : Side
white_side = record { user_id = 0; is_black = false }

unfoldable pub make_room : RoomType → Room → AnyRoom
make_room uno_type b = uno_room (record { room = b; uno_game = none })
make_room splendor_type b = splendor_room (record { room = b; game = none })
make_room gomoku_type b = gomoku_room (record {
  room = b;
  game = unopp_server.Gomoku.Rules.new_game;
  side_0 = white_side;
  side_1 = white_side;
})

-- CREATE_ROOM
unfoldable pub create_room : Sender → CreateRoom → RoomManager → RoomManager × Sent
create_room from q m = elim (find_room q.room_id m.rooms) [
  | some r ↦ (m, (from.conn_id, create_room_res false) ∷ [])
  | none ↦
      let b =
        new_room q.room_id from.user_name from.user_id q.room_name q.password m.user_2_room_id in
      (
        elim q.room_type [
          | none ↦ m
          | some type ↦ record m { rooms = (q.room_id, make_room type b) ∷ m.rooms }
        ],
        (from.conn_id, create_room_res true) ∷ [],
      )
]

abbrev pub entry_of : ℕ × AnyRoom → Entry
entry_of e =
    let b = base e.1 in
    record {
      name = b.name;
      id = b.id;
      creator = b.creator;
      num_of_people = length b.connections;
      type = get_type e.1;
    }

-- GET_ROOM_LIST
unfoldable pub get_room_list : Sender → RoomManager → RoomManager × Sent
get_room_list from m = (m, (from.conn_id, room_list (map entry_of m.rooms)) ∷ [])

-- A message of another game is an unknown one to a room.
abbrev pub to_base : RoomMessage → Message
to_base (room_message m) = m
to_base _ = unknown

-- process_message of the room's class.
unfoldable pub to_room : Rand → Sender → RoomMessage → AnyRoom → Option (AnyRoom × Sent)
to_room rand from (uno_message m) (uno_room r) =
    r.uno_game >>= λ u. process_uno from m r u >>= λ x. some (uno_room x.0, wrap of_uno x.1)
to_room rand from m (uno_room r) =
    UnoRoom.process_room rand.uno from (to_base m) r >>= λ x. some (uno_room x.0, wrap of_uno x.1)
to_room rand from (splendor_message m) (splendor_room r) = r.game >>= λ g.
    process_splendor from m r g >>= λ x. some (splendor_room x.0, wrap of_splendor x.1)
to_room rand from m (splendor_room r) =
    SplendorRoom.process_room rand.splendor from (to_base m) r >>= λ x.
    some (splendor_room x.0, wrap of_splendor x.1)
to_room rand from (gomoku_drop y x) (gomoku_room r) =
    let (started, r', sent) = on_drop from y x r in some (gomoku_room r', wrap of_gomoku sent)
to_room rand from m (gomoku_room r) =
    let (r', sent) = GomokuRoom.process_room rand.coin from (to_base m) r in
    some (gomoku_room r', wrap of_gomoku sent)

-- The room of a message: the one to join, or the one that the user is in, or 0.
abbrev pub room_of : (ℕ → Option ℕ) → ℕ → Option ℕ → ℕ
room_of table user_id (some room_id) = room_id
room_of table user_id none = elim (table user_id) [ none ↦ 0 | some room_id ↦ room_id ]

-- The room is lent the table.
abbrev pub lend : (ℕ → Option ℕ) → AnyRoom → AnyRoom
lend table r = with_base (record (base r) { user_2_room_id = table }) r

-- Any other message; `to_join` is the room_id of a JOIN_ROOM.
unfoldable pub dispatch :
    Rand → Sender → Option ℕ → RoomMessage → RoomManager → Option (RoomManager × Sent)
dispatch rand from to_join msg m =
    let room_id = room_of m.user_2_room_id from.user_id to_join in
    elim (find_room room_id m.rooms) [
      | none ↦ some (m, (from.conn_id, room_donot_exist) ∷ [])
      | some r ↦ to_room rand from msg (lend m.user_2_room_id r) >>= λ x. some (
        record { rooms = put_room room_id x.0 m.rooms; user_2_room_id = (base x.0).user_2_room_id },
        x.1,
      )
    ]

-- ~Room
unfoldable pub free_members : List (ℕ × UserInfo) → (ℕ → Option ℕ) → ℕ → Option ℕ
free_members [] table = table
free_members ((c, p) ∷ rest) table = free_members rest (set_room p.user_id none table)

abbrev pub close_in : ℕ → AnyRoom → AnyRoom × Sent
close_in conn_id (uno_room r) = (
  uno_room (record r { room = process_close conn_id r.room }),
  wrap of_uno (close_sent conn_id r.room),
)
close_in conn_id (splendor_room r) = (
  splendor_room (record r { room = process_close conn_id r.room }),
  wrap of_splendor (close_sent conn_id r.room),
)
close_in conn_id (gomoku_room r) = (
  gomoku_room (record r { room = process_close conn_id r.room }),
  wrap of_gomoku (close_sent conn_id r.room),
)

-- process_close, in the room of this id.
unfoldable pub close_room : ℕ → ℕ → AnyRoom → RoomManager → RoomManager × Sent
close_room conn_id room_id r m =
    let (closed, sent) = close_in conn_id (lend m.user_2_room_id r) in
    let b = base closed in
    (
      if have_no_one_online b.connections && not b.is_game_on
          then record {
            rooms = erase_room room_id m.rooms;
            user_2_room_id = free_members b.connections b.user_2_room_id;
          }
          else record {
            rooms = put_room room_id closed m.rooms;
            user_2_room_id = b.user_2_room_id;
          },
      sent,
    )

unfoldable pub manager_process_close : ℕ → ℕ → RoomManager → RoomManager × Sent
manager_process_close conn_id user_id m =
    let room_id = room_of m.user_2_room_id user_id none in
    elim (find_room room_id m.rooms) [ none ↦ (m, []) | some r ↦ close_room conn_id room_id r m ]

-- A round of check_empty_rooms. The destructor of Room is not virtual, and the rooms are deleted through
-- pointers to it, which is undefined: taken here is what it does, free the members.
unfoldable pub sweep : List (ℕ × AnyRoom) → (ℕ → Option ℕ) → RoomManager
sweep [] table = record { rooms = []; user_2_room_id = table }
sweep ((id, r) ∷ rest) table =
    let gone = sweep rest (free_members (base r).connections table) in
    let kept = sweep rest table in
    if have_no_one_online (base r).connections
    then gone
    else record kept { rooms = (id, r) ∷ kept.rooms }
