-- ===== src/Room/SplendorRoom.antt =====
-- The room of a game of Splendor, src/SplendorRoom.hpp: the dispatch of messages to the class Splendor
-- and what is sent. `none` is undefined behaviour: of Splendor, of a message to a game that is not
-- there (game is null), and of a number that is no Mine.
use Prim.Native.String.{String}
use unopp_server.Splendor.Defs.{
  Mine, copper, diamond, emerald, iron, netherite, gold, Player, Splendor, find_player, player_at,
}
use unopp_server.Splendor.Setup.{new_game}
use unopp_server.Splendor.Moves.{take_3_mines, take_2_mines, reserve_coupon, return_mine}
use unopp_server.Splendor.Buying.{buy_coupon, buy_reserved_coupon, check_winner}
use unopp_server.Room.Members.{Room, find_conn, is_some}
use unopp_server.Room.Messages.{
  splendor, Body, of_game, Sender, Message, join_room, broadcast, get_room_members_info,
  user_id_to_user_name, process_message,
}
use unopp_server.Room.UnoRoom.{Connections, user_ids, unprepared}
use unopp_server.Prelude.{
  ℕ, Bool, true, false, ltb, ◌&&◌, List, [], ◌∷◌, ◌++◌, Option, none, some, map, length,
  if◌then◌else◌, ◌==◌, ◌>>=◌,
}

-- SPLENDOR_TAKE_2 with the mine, SPLENDOR_TAKE_3 with the array mines, and so on.
pub data SplendorMessage : Type 0 where
  take_2 : ℕ → SplendorMessage
  take_3 : List ℕ → SplendorMessage
  buy reserve buy_reserved : ℕ → SplendorMessage
  return_one : ℕ → SplendorMessage
  other_splendor : SplendorMessage

-- What get_game_info tells of the game, and of the player with the id, with the names of the users.
pub record GameInfo : Type 0 where
  pub game : Splendor
  pub names : List (ℕ × String)
  pub player_info : Option Player

pub data SplendorBody : Type 0 where
  splendor_game_info : GameInfo → SplendorBody
  splendor_game_over : GameInfo → ℕ → String → SplendorBody
  splendor_start less_than_2_people more_than_4_people : SplendorBody

abbrev pub Sent : Type 0
Sent = List (ℕ × Body SplendorBody)

pub record SplendorRoom : Type 0 where
  pub room : Room
  pub game : Option Splendor

-- static_cast<Splendor::Mine>
unfoldable pub to_mine : ℕ → Option Mine
to_mine n =
    if n == 0
    then some copper
    else if n == 1
    then some diamond
    else if n == 2
    then some emerald
    else if n == 3
    then some iron
    else if n == 4
    then some netherite
    else if n == 5
    then some gold
    else none

-- The object for one connection.
unfoldable pub info_for : Connections → Splendor → ℕ → GameInfo
info_for cs g user_id = record {
  game = g;
  names = map (λ (e : ℕ × Player). (e.0, user_id_to_user_name e.0 cs)) g.players;
  player_info = find_player user_id g.players >>= λ i. player_at i g.players;
}

-- The loop of send_game_info over the connections; `all` are all of them.
unfoldable pub send_info_to : Connections → Connections → Splendor → Sent
send_info_to all [] g = []
send_info_to all ((c, p) ∷ rest) g =
    (c, of_game (splendor_game_info (info_for all g p.user_id))) ∷ send_info_to all rest g

abbrev pub send_game_info : Connections → Splendor → Sent
send_game_info cs g = send_info_to cs cs g

unfoldable pub send_result_to : ℕ → Connections → Connections → Splendor → Sent
send_result_to winner all [] g = []
send_result_to winner all ((c, p) ∷ rest) g =
    (
      c,
      of_game
          (splendor_game_over (info_for all g p.user_id) winner (user_id_to_user_name winner all)),
    )
    ∷ send_result_to winner all rest g

abbrev pub send_game_result : ℕ → Connections → Splendor → Sent
send_game_result winner cs g = send_result_to winner cs cs g

-- A move that no winner follows.
unfoldable pub after_move : SplendorRoom → Bool × Splendor → SplendorRoom × Sent
after_move r (success, g) =
    (record r { game = some g }, if success then send_game_info r.room.connections g else [])

-- A purchase: a winner ends the game.
unfoldable pub after_purchase : SplendorRoom → Bool × Splendor → SplendorRoom × Sent
after_purchase r (false, g) = (record r { game = some g }, [])
after_purchase r (true, g) =
    let cs = r.room.connections in
    elim (check_winner g) [
      | none ↦ (record r { game = some g }, send_game_info cs g)
      | some winner ↦ (
        record { room = record r.room { is_game_on = false }; game = some g },
        send_game_info cs g ++ send_game_result winner cs g,
      )
    ]

-- The three numbers of SPLENDOR_TAKE_3; an array of another length is left alone.
unfoldable pub on_take_3 : List ℕ → ℕ → SplendorRoom → Splendor → Option (SplendorRoom × Sent)
on_take_3 (a ∷ b ∷ c ∷ []) user_id r g = do
  x ← to_mine a
  y ← to_mine b
  z ← to_mine c
  some (after_move r (take_3_mines x y z user_id g))
on_take_3 mines user_id r g = some (r, [])

-- process_message on a message whose type begins with SPLENDOR.
unfoldable pub process_splendor :
    Sender → SplendorMessage → SplendorRoom → Splendor → Option (SplendorRoom × Sent)
process_splendor from (take_2 mine) r g =
    to_mine mine >>= λ m. some (after_move r (take_2_mines m from.user_id g))
process_splendor from (take_3 mines) r g = on_take_3 mines from.user_id r g
process_splendor from (buy coupon_idx) r g =
    buy_coupon coupon_idx from.user_id g >>= λ x. some (after_purchase r x)
process_splendor from (reserve coupon_idx) r g =
    some (after_move r (reserve_coupon coupon_idx from.user_id g))
process_splendor from (buy_reserved coupon_idx) r g =
    buy_reserved_coupon coupon_idx from.user_id g >>= λ x. some (after_purchase r x)
process_splendor from (return_one mine) r g =
    to_mine mine >>= λ m. some (after_move r (return_mine m from.user_id g))
process_splendor from other_splendor r g = some (r, [])

-- What rand() returns for the tables and for the first player, and the iteration order of players.
pub record Rand : Type 0 where
  pub tables : ℕ → ℕ → ℕ
  pub first : ℕ
  pub order : List ℕ → List ℕ

unfoldable pub begin_game : Rand → SplendorRoom → Option (SplendorRoom × Sent)
begin_game rand r = do
  let cs = r.room.connections
  let ready = map unprepared cs
  g ← new_game rand.tables rand.order rand.first (user_ids cs)
  some (
    record { room = record r.room { is_game_on = true; connections = ready }; game = some g },
    broadcast (of_game splendor_start) cs
        ++ (send_game_info ready g ++ broadcast (get_room_members_info ready) ready),
  )

unfoldable pub on_everyone_prepared : Rand → SplendorRoom → Option (SplendorRoom × Sent)
on_everyone_prepared rand r =
    let cs = r.room.connections in
    if ltb (length cs) 2
    then some (r, broadcast (of_game less_than_2_people) cs)
    else if ltb 4 (length cs)
    then some (r, broadcast (of_game more_than_4_people) cs)
    else begin_game rand r

unfoldable pub if_prepared : Rand → Bool → SplendorRoom → Option (SplendorRoom × Sent)
if_prepared rand true r = on_everyone_prepared rand r
if_prepared rand false r = some (r, [])

unfoldable pub tell_joined : Sender → Message → SplendorRoom → Option Sent
tell_joined from (join_room no_password password) r =
    if r.room.is_game_on && is_some (find_conn from.conn_id r.room.connections)
    then (r.game >>= λ g. some (send_game_info r.room.connections g))
    else some []
tell_joined from m r = some []

-- process_message on any other message.
unfoldable pub process_room : Rand → Sender → Message → SplendorRoom → Option (SplendorRoom × Sent)
process_room rand from m r = do
  let done = process_message splendor from m r.room
  (r', sent) ← if_prepared rand done.everyone_prepared (record r { room = done.room })
  told ← tell_joined from m r'
  some (r', done.sent ++ (sent ++ told))
