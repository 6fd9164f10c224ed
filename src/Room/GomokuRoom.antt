-- ===== src/Room/GomokuRoom.antt =====
-- The room of a game of Gomoku, src/GomokuRoom.hpp: the dispatch of messages to the class Gomoku and
-- what is sent. What the thread of GOMOKU_DROP does is a step of its own, `after_drop`, which may come
-- after other messages. `draws` is what mt() returns, by the number of calls before.
use Prim.Native.String.{String}
use unopp_server.Prelude.Int.{ℤ}
use unopp_server.Gomoku.Rules.{
  Gomoku, Status, black_win, tied, not_end, status_code, drop, update, clear, enable_ai,
}
use unopp_server.Gomoku.Search.{ai_drop}
use unopp_server.Room.Members.{Room, find_conn, is_some}
use unopp_server.Room.Messages.{
  gomoku, Body, of_game, Sender, Message, join_room, broadcast, get_room_members_info,
  user_id_to_user_name, process_message,
}
use unopp_server.Room.UnoRoom.{Connections, unprepared}
use unopp_server.Prelude.{
  ℕ, ltb, Bool, true, false, ◌&&◌, List, [], ◌∷◌, ◌++◌, Option, none, some, map, length,
  if◌then◌else◌, ◌==◌,
}

-- An entry of user_id_to_is_black: the user's id and whether he plays black. The array has two.
pub record Side : Type 0 where
  pub user_id : ℕ
  pub is_black : Bool

pub record GomokuRoom : Type 0 where
  pub room : Room
  pub game : Gomoku
  pub side_0 : Side
  pub side_1 : Side

-- An entry of info["players"]; the id 0 is the robot's.
pub record Seat : Type 0 where
  pub id : Option ℕ
  pub name : String
  pub is_black : Bool

pub data GomokuBody : Type 0 where
  gomoku_game_info : Gomoku → Seat → Seat → GomokuBody
  gomoku_game_over : Option Bool → GomokuBody
  gomoku_start more_than_2_people play_with_algorithm : GomokuBody

abbrev pub Sent : Type 0
Sent = List (ℕ × Body GomokuBody)

unfoldable pub second_seat : Connections → Side → Seat
second_seat cs s =
    if s.user_id == 0
    then record { id = none; name = "AlphaGomoku"; is_black = s.is_black }
    else record {
      id = some s.user_id;
      name = user_id_to_user_name s.user_id cs;
      is_black = s.is_black;
    }

unfoldable pub send_game_info : GomokuRoom → Sent
send_game_info r =
    let cs = r.room.connections in
    let first : Seat = record {
      id = some r.side_0.user_id;
      name = user_id_to_user_name r.side_0.user_id cs;
      is_black = r.side_0.is_black;
    } in
    broadcast (of_game (gomoku_game_info r.game first (second_seat cs r.side_1))) cs

-- The colour that wins, and none for TIED.
abbrev pub result_of : Status → Option Bool
result_of black_win = some true
result_of tied = none
result_of _ = some false

abbrev pub is_black_of : ℕ → GomokuRoom → Bool
is_black_of user_id r = if r.side_0.user_id == user_id then r.side_0.is_black else r.side_1.is_black

-- GOMOKU_DROP at row y and column x: whether the thread starts, and what is sent before.
unfoldable pub on_drop : Sender → ℤ → ℤ → GomokuRoom → Bool × GomokuRoom × Sent
on_drop from y x r =
    let (can_drop, g) = drop y x (is_black_of from.user_id r) r.game in
    let r' = record r { game = g } in (can_drop, r', if can_drop then send_game_info r' else [])

-- update, once more where one user is alone.
unfoldable pub updates : (ℕ → ℕ) → GomokuRoom → Gomoku
updates draws r =
    let once = update (ai_drop draws) r.game in
    if length r.room.connections == 1 then update (ai_drop draws) once else once

-- The thread.
unfoldable pub after_drop : (ℕ → ℕ) → GomokuRoom → GomokuRoom × Sent
after_drop draws r =
    let r' = record r { game = updates draws r } in
    let over = record r' { room = record r'.room { is_game_on = false } } in
    if status_code r'.game.status == status_code not_end then (r', send_game_info r') else (
      over,
      send_game_info r'
          ++ broadcast (of_game (gomoku_game_over (result_of r'.game.status))) r'.room.connections,
    )

-- The loop that gives the colours out from index and colour `i` on.
unfoldable pub give_colors : Bool → Connections → Side × Side → Side × Side
give_colors i [] sides = sides
give_colors true ((c, p) ∷ rest) (s, t) =
    give_colors false rest (s, record { user_id = p.user_id; is_black = true })
give_colors false ((c, p) ∷ rest) (s, t) =
    give_colors true rest (record { user_id = p.user_id; is_black = false }, t)

-- The sides and the use of the computer player, by the members; `coin` is rand() % 2. No member at
-- all takes the loop's branch.
unfoldable pub seat_players : Bool → GomokuRoom → GomokuRoom × Sent
seat_players coin r = elim r.room.connections [
  | (c, p) ∷ [] ↦ (
    record r {
      game = enable_ai true (clear r.game);
      side_0 = record { user_id = p.user_id; is_black = true };
      side_1 = record r.side_1 { user_id = 0 };
    },
    broadcast (of_game play_with_algorithm) r.room.connections,
  )
  | _ ↦
      let sides = give_colors coin r.room.connections (r.side_0, r.side_1) in
      (record r { game = enable_ai false (clear r.game); side_0 = sides.0; side_1 = sides.1 }, [])
]

unfoldable pub begin_game : Bool → GomokuRoom → GomokuRoom × Sent
begin_game coin r =
    let (seated, told) = seat_players coin r in
    let ready = map unprepared r.room.connections in
    let r' = record seated { room = record r.room { is_game_on = true; connections = ready } } in
    (
      r',
      told
          ++ (broadcast (of_game gomoku_start) r.room.connections
              ++ (send_game_info r' ++ broadcast (get_room_members_info ready) ready)),
    )

unfoldable pub on_everyone_prepared : Bool → GomokuRoom → GomokuRoom × Sent
on_everyone_prepared coin r =
    let cs = r.room.connections in
    if ltb 2 (length cs) then (r, broadcast (of_game more_than_2_people) cs) else begin_game coin r

abbrev pub if_prepared : Bool → Bool → GomokuRoom → GomokuRoom × Sent
if_prepared coin true r = on_everyone_prepared coin r
if_prepared coin false r = (r, [])

unfoldable pub tell_joined : Sender → Message → GomokuRoom → Sent
tell_joined from (join_room no_password password) r =
    if r.room.is_game_on && is_some (find_conn from.conn_id r.room.connections)
    then send_game_info r
    else []
tell_joined from m r = []

-- process_message on any other message.
unfoldable pub process_room : Bool → Sender → Message → GomokuRoom → GomokuRoom × Sent
process_room coin from m r =
    let done = process_message gomoku from m r.room in
    let (r', sent) = if_prepared coin done.everyone_prepared (record r { room = done.room }) in
    (r', done.sent ++ (sent ++ tell_joined from m r'))
