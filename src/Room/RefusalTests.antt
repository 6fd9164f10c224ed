-- ===== src/Room/RefusalTests.antt =====
-- A member who leaves a game of UNO that goes on to its end, and the theorem there.
use unopp_server.Uno.Card.{Card, red, one, two, int_2_card, to_color, color_eq, content_eq, card_eq}
use unopp_server.Uno.Rules.{
  play, is_playable, may_lay, lay_card, settle_uno, forgot_uno, lay, erase, effect, turn_around,
  show_card,
}
use unopp_server.Uno.State.{
  Uno, new_player, player_at, put, next, check_winner, get_last_card, get_next_player,
}
use unopp_server.Room.Members.{
  UserInfo, Room, new_room, JoinRoom, already_joined, join, find_conn, modify_conn, process_close,
}
use unopp_server.Room.Messages.{Sender}
use unopp_server.Room.UnoRoom.{
  UnoRoom, Sent, send_cards_in_hand, uno_message, plays, uno_process_close, step, process_uno,
  on_play, finish_play, get_game_result, send_both, get_cards_in_hand, find_player, send_game_info,
  get_game_info, played_sent,
}
use unopp_server.Room.Refusals.{GoesOn, moves, locked_out}
use unopp_server.Room.Refusals
use unopp_server.Prelude.{
  ℕ, ◌≡◌, refl, Bool, true, false, [], ◌∷◌, Option, none, some, if◌then◌else◌, ◌==◌,
}

abbrev no_table : ℕ → Option ℕ
no_table x = none

abbrev user : ℕ → Bool → UserInfo
user id ready = record { user_name = "ann"; user_id = id; offline = false; prepared = ready }

abbrev red_two : Card
red_two = record { color = red; content = two }

-- The third member leaves during a game, and finds the other rooms closed to him.
abbrev in_five : ℕ → Option ℕ
in_five x = if x == 13 then some 5 else none

abbrev red_one : Card
red_one = record { color = red; content = one }

-- Two members; user 11 has a last card and has said UNO.
abbrev last_round : Uno
last_round = record {
  players =
      record (new_player 11) { cards_in_hand = red_one ∷ []; said_uno = true }
      ∷ record (new_player 13) { cards_in_hand = red_two ∷ red_two ∷ [] }
      ∷ [];
  deck = red_two ∷ [];
  last_color = red;
  last_number = two;
  card_b4_wild_draw_4 = red_two;
  reversed = false;
  wait_suspect = false;
  next_player_idx = 0;
}

abbrev busy_room : UnoRoom
busy_room = record {
  room = record (new_room 5 "ann" 11 "table" "secret" no_table) {
    connections = (1, user 11 false) ∷ (3, user 13 false) ∷ [];
    is_game_on = true;
    user_2_room_id = in_five;
  };
  uno_game = some last_round;
}

third_found : find_conn 3 busy_room.room.connections ≡ some (user 13 false)
unfolding find_conn
third_found = refl

abbrev first_member : Sender
first_member = record { conn_id = 1; user_name = "ann"; user_id = 11 }

abbrev abandoned : UnoRoom
abandoned = (uno_process_close 3 busy_room).0

abbrev or_left : Option (UnoRoom × Sent) → UnoRoom × Sent
or_left none = (abandoned, [])
or_left (some x) = x

-- The others play on, and user 11 wins.
unfoldable ended : UnoRoom × Sent
ended = or_left (step (uno_message first_member (plays 1 0)) abandoned)

ended_lem : step (uno_message first_member (plays 1 0)) abandoned ≡ some ended
unfolding ended step uno_process_close process_close find_conn process_uno on_play int_2_card
    to_color play is_playable color_eq content_eq card_eq player_at may_lay lay_card settle_uno
    forgot_uno lay erase put effect next turn_around show_card finish_play check_winner
    get_game_result get_last_card send_both send_cards_in_hand get_cards_in_hand find_player
    send_game_info get_game_info get_next_player played_sent modify_conn
ended_lem = refl

ended-GoesOn : GoesOn abandoned ended.0
ended-GoesOn = moves first_member (plays 1 0) Refusals.start ended_lem

ended_off : ended.0.room.is_game_on ≡ false
unfolding ended step uno_process_close process_close find_conn process_uno on_play int_2_card
    to_color play is_playable color_eq content_eq card_eq player_at may_lay lay_card settle_uno
    forgot_uno lay erase put effect next turn_around show_card finish_play check_winner
    get_game_result get_last_card send_both send_cards_in_hand get_cards_in_hand find_player
    send_game_info get_game_info get_next_player played_sent modify_conn
ended_off = refl

abbrev elsewhere : Room
elsewhere = record (new_room 6 "bob" 14 "old" "" no_table) {
  user_2_room_id = ended.0.room.user_2_room_id;
}

abbrev rejoin : JoinRoom
rejoin = record {
  conn_id = 20;
  user_name = "ann";
  user_id = 13;
  no_password = false;
  password = "";
}

locked_out_example :
    (join rejoin ended.0.room ≡ (already_joined, ended.0.room))
    × (join rejoin elsewhere ≡ (already_joined, elsewhere))
locked_out_example =
    locked_out 3 (user 13 false) busy_room ended.0 5 rejoin elsewhere third_found refl refl refl
      ended-GoesOn ended_off refl refl
