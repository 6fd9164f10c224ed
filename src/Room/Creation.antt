-- ===== src/Room/Creation.antt =====
-- Who creates a room, src/RoomManager.hpp, and joins it.
use Prim.Native.String.{String}
use unopp_server.Room.Members.{
  Room, new_room, JoinRoom, joined, answer, admit, admitted, join, member, set_room, find_conn,
  is_some,
}
use unopp_server.Room.Messages.{Sender, join_room, join_of, process_message}
use unopp_server.Room.Seats.{admitted-is_game_on}
use unopp_server.Room.UnoRoom
use unopp_server.Room.UnoRoom.{UnoRoom}
use unopp_server.Room.SplendorRoom
use unopp_server.Room.SplendorRoom.{SplendorRoom}
use unopp_server.Room.GomokuRoom
use unopp_server.Room.GomokuRoom.{GomokuRoom}
use unopp_server.Room.Manager.{
  RoomType, uno_type, splendor_type, gomoku_type, AnyRoom, base, RoomMessage, room_message, Rand,
  RoomManager, find_room, put_room, CreateRoom, make_room, create_room, to_room, dispatch, Sent,
  lend,
}
use unopp_server.Prelude.{
  ℕ, ◌≡◌, refl, ap, ◌∙◌, Bool, true, false, List, ◌∷◌, Option, none, some, ◌==◌, ==_iff,
}

eq_self : (n : ℕ) → (n == n) ≡ true
eq_self n = (==_iff n n).1 refl

-- The room as it was made for the sender.
abbrev fresh_room : Sender → CreateRoom → (ℕ → Option ℕ) → Room
fresh_room from q table =
    new_room q.room_id from.user_name from.user_id q.room_name q.password table

creator_joins :
    (from : Sender) (q : CreateRoom) (table : ℕ → Option ℕ) (password : String)
    → table from.user_id ≡ none
    → answer (join_of from true password) (fresh_room from q table) ≡ joined
unfolding answer member
creator_joins from q table password out = rw (out, eq_self from.user_id) refl

-- A room without a game has nothing to tell the new member.
uno_join :
    (rand : UnoRoom.Rand) (from : Sender) (no_password : Bool) (password : String) (r : UnoRoom)
    → r.room.is_game_on ≡ false
    → (sent : UnoRoom.Sent) × (UnoRoom.process_room rand from (join_room no_password password) r
        ≡ some (record r { room = (join (join_of from no_password password) r.room).1 }, sent))
unfolding UnoRoom.process_room UnoRoom.tell_joined UnoRoom.if_prepared process_message join
uno_join rand from no_password password r off =
    let q = join_of from no_password password in
    let still_off : (admitted (answer q r.room) q r.room).is_game_on ≡ false =
      admitted-is_game_on (answer q r.room) q r.room ∙ off in
    rw still_off (_, refl)

splendor_join :
    (rand : SplendorRoom.Rand) (from : Sender) (no_password : Bool) (password : String)
    (r : SplendorRoom)
    → r.room.is_game_on ≡ false
    → (sent : SplendorRoom.Sent) × (SplendorRoom.process_room rand from
          (join_room no_password password)
          r
        ≡ some (record r { room = (join (join_of from no_password password) r.room).1 }, sent))
unfolding SplendorRoom.process_room SplendorRoom.tell_joined SplendorRoom.if_prepared
    process_message join
splendor_join rand from no_password password r off =
    let q = join_of from no_password password in
    let still_off : (admitted (answer q r.room) q r.room).is_game_on ≡ false =
      admitted-is_game_on (answer q r.room) q r.room ∙ off in
    rw still_off (_, refl)

-- The sender's message to the room that was made for him.
any_join :
    (rand : Rand) (from : Sender) (password : String) (type : RoomType) (b : Room)
    → b.is_game_on ≡ false
    → (x : AnyRoom × Sent) × (to_room rand from
          (room_message (join_room true password))
          (make_room type b)
        ≡ some x)
      × (base x.0 ≡ (join (join_of from true password) b).1)
unfolding make_room to_room
any_join rand from password uno_type b off =
    let (sent, e) =
      uno_join rand.uno from true password (record { room = b; uno_game = none }) off in
    rw e (_, refl, refl)
any_join rand from password splendor_type b off =
    let (sent, e) =
      splendor_join rand.splendor from true password (record { room = b; game = none }) off in
    rw e (_, refl, refl)
any_join rand from password gomoku_type b off =
    unfold GomokuRoom.process_room in unfold process_message in (_, refl, refl)

lend-make_room :
    (type : RoomType) (b : Room) → lend b.user_2_room_id (make_room type b) ≡ make_room type b
unfolding make_room
lend-make_room uno_type b = refl
lend-make_room splendor_type b = refl
lend-make_room gomoku_type b = refl

-- The manager after the sender has created a room and joined it.
pub record Settled (from : Sender) (q : CreateRoom) (m : RoomManager) : Type 0 where
  pub in_room : m.user_2_room_id from.user_id ≡ some q.room_id
  pub room : AnyRoom
  pub there : find_room q.room_id m.rooms ≡ some room
  pub connected : is_some (find_conn from.conn_id (base room).connections) ≡ true

created :
    (from : Sender) (q : CreateRoom) (type : RoomType) (m : RoomManager)
    → find_room q.room_id m.rooms ≡ none
    → q.room_type ≡ some type
    → (create_room from q m).0 ≡ record m {
      rooms = (q.room_id, make_room type (fresh_room from q m.user_2_room_id)) ∷ m.rooms;
    }
unfolding create_room
created from q type m free known = rw (free, create_room, known) refl

find_first :
    (room_id : ℕ) (r : AnyRoom) (rooms : List (ℕ × AnyRoom))
    → find_room room_id ((room_id, r) ∷ rooms) ≡ some r
unfolding find_room
find_first room_id r rooms = rw (eq_self room_id) refl

find_first_put :
    (room_id : ℕ) (r new : AnyRoom) (rooms : List (ℕ × AnyRoom))
    → find_room room_id (put_room room_id new ((room_id, r) ∷ rooms)) ≡ some new
unfolding find_room put_room
find_first_put room_id r new rooms = rw (eq_self room_id) (rw (eq_self room_id) refl)

join_admits : (q : JoinRoom) (r : Room) → answer q r ≡ joined → (join q r).1 ≡ admit q r
unfolding join
join_admits q r e = rw e refl

-- The message goes to the room that is found.
dispatched :
    (rand : Rand) (from : Sender) (room_id : ℕ) (msg : RoomMessage) (m : RoomManager) (r : AnyRoom)
    (x : AnyRoom × Sent)
    → find_room room_id m.rooms ≡ some r
    → to_room rand from msg (lend m.user_2_room_id r) ≡ some x
    → dispatch rand from (some room_id) msg m
      ≡ some (
        record { rooms = put_room room_id x.0 m.rooms; user_2_room_id = (base x.0).user_2_room_id },
        x.1,
      )
unfolding dispatch
dispatched rand from room_id msg m r x found e = rw (found, dispatch, e) refl

admitted_user :
    (from : Sender) (password : String) (b : Room)
    → (admit (join_of from true password) b).user_2_room_id from.user_id ≡ some b.id
unfolding admit set_room
admitted_user from password b = rw (eq_self from.user_id) refl

admitted_conn :
    (from : Sender) (password : String) (b : Room)
    → is_some (find_conn from.conn_id (admit (join_of from true password) b).connections) ≡ true
unfolding admit find_conn
admitted_conn from password b = rw (eq_self from.conn_id) refl

-- A user who is in no room, and who creates a room of a known type under a number that is free, can
-- join it at once without its password; he is then in that room, by its connections and by
-- user_2_room_id.
pub dispatch-create_room :
    (rand : Rand) (from : Sender) (q : CreateRoom) (type : RoomType) (password : String)
    (m : RoomManager)
    → find_room q.room_id m.rooms ≡ none
    → q.room_type ≡ some type
    → m.user_2_room_id from.user_id ≡ none
    → (x : RoomManager × Sent) × (dispatch rand from
          (some q.room_id)
          (room_message (join_room true password))
          (create_room from q m).0
        ≡ some x)
      × Settled from q x.0
dispatch-create_room rand from q type password m free known out =
    let b = fresh_room from q m.user_2_room_id in
    let made = make_room type b in
    let m' : RoomManager = record m { rooms = (q.room_id, made) ∷ m.rooms } in
    let (x, e, same) = any_join rand from password type b refl in
    let joins : (join (join_of from true password) b).1 ≡ admit (join_of from true password) b =
      join_admits (join_of from true password) b
        (creator_joins from q m.user_2_room_id password out) in
    let entered = same ∙ joins in
    let lent : to_room rand from (room_message (join_room true password))
          (lend m.user_2_room_id made)
        ≡ some x =
      ap (to_room rand from _) (lend-make_room type b) ∙ e in
    let sends =
      dispatched rand from q.room_id (room_message (join_room true password)) m' made x
        (find_first q.room_id made m.rooms) lent in
    rw (created from q type m free known) (
      _,
      sends,
      record {
        in_room =
            ap (λ (r : Room). r.user_2_room_id from.user_id) entered
            ∙ admitted_user from password b;
        room = x.0;
        there = find_first_put q.room_id made x.0 m.rooms;
        connected =
            ap (λ (r : Room). is_some (find_conn from.conn_id r.connections)) entered
            ∙ admitted_conn from password b;
      },
    )
