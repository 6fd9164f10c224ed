-- ===== src/Room/TableTests.antt =====
-- Rooms with games at concrete inputs, and the theorems there.
use unopp_server.Prelude.Int.{pos}
use unopp_server.Uno.Card.{Card, red, two}
use unopp_server.Uno.Rules.{play}
use unopp_server.Uno.State.{Uno}
use unopp_server.Room.Members.{
  UserInfo, Room, new_room, find_conn, modify_conn, all_prepared, prepare,
}
use unopp_server.Room.Messages.{uno, Sender, Message, game_prepare, process_message}
use unopp_server.Room.UnoRoom.{
  UnoRoom, UnoBody, Rand, Sent, send_cards_in_hand, on_everyone_prepared, if_prepared, tell_joined,
  process_room, Call, room_message, step,
}
use unopp_server.Room.UnoTable.{Agrees}
use unopp_server.Room.Seats.{NamesAgree}
use unopp_server.Room.UnoCalls.{Reach, start, call, Reach-send_cards_in_hand}
use unopp_server.Room.UnoStart.{Began, on_everyone_prepared-Began}
use unopp_server.Room.SplendorRoom
use unopp_server.Room.SplendorRoom.{SplendorRoom}
use unopp_server.Room.GomokuRoom.{GomokuRoom, Side, on_drop}
use unopp_server.Gomoku.Rules
use unopp_server.Gomoku.Rules.{drop, may_drop, is_outside}
use unopp_server.Room.Manager
use unopp_server.Room.Manager.{
  RoomManager, RoomType, uno_type, CreateRoom, AnyRoom, uno_room, create_room, dispatch, find_room,
  sweep,
}
use unopp_server.Room.Manager.{room_message as to_members}
use unopp_server.Room.Messages.{join_room}
use unopp_server.Room.Sweeps.{with_people, is_left_behind, sweep_lem}
use unopp_server.Room.Creation.{Settled, dispatch-create_room}
use unopp_server.Room.Starts
use unopp_server.Room.Starts.{on_everyone_prepared-SplendorBegan, on_drop-on_drop}
use unopp_server.Prelude.{
  ℕ, ◌≡◌, refl, Bool, true, false, List, [], ◌∷◌, Option, none, some, arith, if◌then◌else◌, ◌==◌,
  Defined, Ensures, length, subst, sym,
}

abbrev no_table : ℕ → Option ℕ
no_table x = none

abbrev user : ℕ → Bool → UserInfo
user id ready = record { user_name = "ann"; user_id = id; offline = false; prepared = ready }

-- Three members, and the third one is not prepared yet.
abbrev hall : Room
hall = record (new_room 5 "ann" 11 "table" "secret" no_table) {
  connections = (1, user 11 true) ∷ (2, user 12 true) ∷ (3, user 13 false) ∷ [];
}

abbrev uno_hall : UnoRoom
uno_hall = record { room = hall; uno_game = none }

abbrev fixed_rand : Rand
fixed_rand = record { seating = λ i. 3; cards = λ i. i; first = 7 }

abbrev third : Sender
third = record { conn_id = 3; user_name = "ann"; user_id = 13 }

on_everyone_prepared-Began_example :
    (x : UnoRoom × Sent) × (on_everyone_prepared fixed_rand uno_hall ≡ some x) × Began uno_hall x.0
on_everyone_prepared-Began_example =
    on_everyone_prepared-Began fixed_rand uno_hall (omega arith) (omega arith)

-- Now the third one is.
unfoldable ready_hall : UnoRoom
unfolding process_message
ready_hall = record uno_hall {
  room = (process_message {G = UnoBody} uno third (game_prepare true) hall).room;
}

three_ready : length ready_hall.room.connections ≡ 3
unfolding ready_hall process_message find_conn prepare modify_conn
three_ready = refl

unfoldable begun :
    (x : UnoRoom × Sent) × (on_everyone_prepared fixed_rand ready_hall ≡ some x)
    × Began ready_hall x.0
unfolding ready_hall
begun =
    on_everyone_prepared-Began fixed_rand ready_hall (rw three_ready (omega arith))
      (rw three_ready (omega arith))

abbrev third_prepares : Call
third_prepares = room_message fixed_rand third (game_prepare true)

prepared_step :
    (rand : Rand) (from : Sender) (ready : Bool) (r : UnoRoom) {x : UnoRoom × Sent}
    → (process_message {G = UnoBody} uno from (game_prepare ready) r.room).everyone_prepared ≡ true
    → on_everyone_prepared rand (record r {
      room = (process_message {G = UnoBody} uno from (game_prepare ready) r.room).room;
    })
      ≡ some x
    → (sent : Sent) × (step (room_message rand from (game_prepare ready)) r ≡ some (x.0, sent))
unfolding step process_room if_prepared tell_joined
prepared_step rand from ready r everyone e = rw (everyone, if_prepared, e) (_, refl)

everyone_ready :
    (process_message {G = UnoBody} uno third (game_prepare true) hall).everyone_prepared ≡ true
unfolding process_message find_conn prepare modify_conn all_prepared
everyone_ready = refl

begun_eq :
    on_everyone_prepared fixed_rand (record uno_hall {
      room = (process_message {G = UnoBody} uno third (game_prepare true) hall).room;
    })
    ≡ some begun.0
unfolding ready_hall
begun_eq = begun.1

third_prepares_lem : (sent : Sent) × (step third_prepares uno_hall ≡ some (begun.0.0, sent))
third_prepares_lem = prepared_step fixed_rand third true uno_hall everyone_ready begun_eq

began_Reach : Reach uno_hall begun.0.0
began_Reach = call third_prepares start tt third_prepares_lem.1

-- A stranger asks to join.
abbrev stranger : Sender
stranger = record { conn_id = 4; user_name = "bob"; user_id = 14 }

abbrev asks : Message
asks = join_room false ""

stranger-Agrees : Agrees stranger asks begun.0.0.room
unfolding ready_hall process_message find_conn prepare modify_conn
stranger-Agrees =
    subst (NamesAgree "bob" 14) (sym begun.2.members)
      ((λ e. ground arith), ((λ e. ground arith), ((λ e. ground arith), tt)))

abbrev red_two : Card
red_two = record { color = red; content = two }

Reach-send_cards_in_hand_example :
    (u : Uno) × (begun.0.0.uno_game ≡ some u)
    × Defined (send_cards_in_hand begun.0.0.room.connections u)
    × Defined (
        send_cards_in_hand
          (process_message {G = UnoBody} uno stranger asks begun.0.0.room).room.connections
          u)
    × Ensures
        (λ played. Defined (send_cards_in_hand begun.0.0.room.connections played.after))
        (play 11 red_two red u)
Reach-send_cards_in_hand_example =
    Reach-send_cards_in_hand stranger asks 11 red_two red refl began_Reach begun.2.on
      stranger-Agrees

-- A game of Splendor for three.
abbrev splendor_hall : SplendorRoom
splendor_hall = record { room = hall; game = none }

abbrev splendor_rand : SplendorRoom.Rand
splendor_rand = record { tables = λ loop i. 5; first = 1; order = λ ids. ids }

on_everyone_prepared-SplendorBegan_example :
    (x : SplendorRoom × SplendorRoom.Sent) × (SplendorRoom.on_everyone_prepared splendor_rand
        splendor_hall
      ≡ some x)
    × Starts.Began splendor_hall x.0
on_everyone_prepared-SplendorBegan_example =
    on_everyone_prepared-SplendorBegan splendor_rand splendor_hall (λ w. refl) (omega arith)
      (omega arith)

-- A game of Gomoku that begins.
abbrev black_side : Side
black_side = record { user_id = 13; is_black = true }

abbrev white_side : Side
white_side = record { user_id = 12; is_black = false }

abbrev board_room : GomokuRoom
board_room = record { room = hall; game = Rules.new_game; side_0 = white_side; side_1 = black_side }

first_drop : (on_drop third (pos 7) (pos 7) board_room).0 ≡ true
unfolding on_drop drop may_drop is_outside
first_drop = refl

on_drop-on_drop_example :
    let after = (on_drop third (pos 7) (pos 7) board_room).1 in
    on_drop third (pos 8) (pos 7) after ≡ (false, after, [])
on_drop-on_drop_example =
    on_drop-on_drop third (pos 7) (pos 7) (pos 8) (pos 7) board_room first_drop

-- A server with a room that everybody has left.
abbrev gone_user : UserInfo
gone_user = record { user_name = "bob"; user_id = 14; offline = true; prepared = false }

abbrev left_room : AnyRoom
left_room = uno_room (record {
  room = record (new_room 6 "bob" 14 "old" "" no_table) { connections = (9, gone_user) ∷ [] };
  uno_game = none;
})

abbrev two_rooms : List (ℕ × AnyRoom)
two_rooms = (6, left_room) ∷ (5, uno_room uno_hall) ∷ []

abbrev in_six : ℕ → Option ℕ
in_six x = if x == 14 then some 6 else none

sweep_lem_example :
    ((sweep two_rooms in_six).rooms ≡ with_people two_rooms)
    × ((x : ℕ)
        → (sweep two_rooms in_six).user_2_room_id x
          ≡ (if is_left_behind x two_rooms then none else in_six x))
sweep_lem_example = sweep_lem two_rooms in_six

abbrev manager : RoomManager
manager = record { rooms = two_rooms; user_2_room_id = in_six }

abbrev new_table : CreateRoom
new_table = record { room_id = 8; room_type = some uno_type; room_name = "cards"; password = "pw" }

abbrev any_rand : Manager.Rand
any_rand = record { uno = fixed_rand; splendor = splendor_rand; coin = true }

eight_is_free : find_room 8 two_rooms ≡ none
unfolding find_room
eight_is_free = refl

dispatch-create_room_example :
    (x : RoomManager × Manager.Sent) × (dispatch any_rand third
        (some 8)
        (to_members (join_room true ""))
        (create_room third new_table manager).0
      ≡ some x)
    × Settled third new_table x.0
dispatch-create_room_example =
    dispatch-create_room any_rand third new_table uno_type "" manager eight_is_free refl refl
