-- ===== src/Room/UnoStart.antt =====
-- How a game of UNO begins in a room, src/UnoRoom.hpp.
use unopp_server.Uno.State.{Uno, get_next_player}
use unopp_server.Uno.Conservation.{seats}
use unopp_server.Uno.Opening.{IsOpening, new_game-IsOpening, new_game-some}
use unopp_server.Uno.Seats.{InBounds, seated}
use unopp_server.Room.UnoRoom.{
  Connections, Sent, UnoRoom, get_game_info, send_game_info, send_both, Rand, user_ids, unprepared,
  begin_game, on_everyone_prepared,
}
use unopp_server.Prelude.{
  ℕ, suc, ◌≤◌, ◌<◌, ◌≡◌, refl, sym, ap, ◌∙◌, true, false, ltb, List, [], ◌∷◌, some, arith, map,
  length, of_Ensures, Defined, Defined->>=,
}
use unopp_server.Room.UnoTable.{AllIn-unprepared, AllIn-user_ids}
use unopp_server.Uno.Game.{count_ids, count_players}
use unopp_server.Room.UnoCalls.{send_cards_in_hand-some}

pub length-user_ids : (cs : Connections) → length (user_ids cs) ≡ length cs
length-user_ids [] = refl
length-user_ids (e ∷ cs) = ap suc (length-user_ids cs)

-- The game of these members has begun.
pub record Began (r : UnoRoom) (r' : UnoRoom) : Type 0 where
  pub on : r'.room.is_game_on ≡ true
  pub game : Uno
  pub there : r'.uno_game ≡ some game
  pub opening : IsOpening (user_ids r.room.connections) game
  pub members : r'.room.connections ≡ map unprepared r.room.connections

opening-InBounds : (ids : List ℕ) (u : Uno) → IsOpening ids u → InBounds u
opening-InBounds ids u opening =
    let many : length u.players ≡ length ids =
      sym (count_players u.players) ∙ opening.players (λ _. 1) ∙ count_ids ids in
    rw many opening.turn

send_game_info-some :
    (cs : Connections) (ids : List ℕ) (u : Uno) → IsOpening ids u → Defined (send_game_info cs u)
unfolding send_game_info get_game_info get_next_player
send_game_info-some cs ids u opening =
    let (p, e) = seated u (opening-InBounds ids u opening) in
    let known : Defined (get_game_info cs u) =
      unfold get_game_info in rw (opening.on_top, e) (_, refl) in
    Defined->>= (get_game_info cs u) _ known.0 known.1 (_, refl)

begin_game-Began :
    (rand : Rand) (r : UnoRoom)
    → 0 < length r.room.connections
    → length r.room.connections ≤ 10
    → (x : UnoRoom × Sent) × (begin_game rand r ≡ some x) × Began r x.0
unfolding begin_game send_both
begin_game-Began rand r some_members few =
    let cs = r.room.connections in
    let ids = user_ids cs in
    let size = length-user_ids cs in
    let (u, e) =
      new_game-some rand.seating rand.cards rand.first ids (rw size some_members) (rw size few) in
    let opening : IsOpening ids u =
      of_Ensures (new_game-IsOpening rand.seating rand.cards rand.first ids) e in
    let (hands, f) =
      send_cards_in_hand-some (map unprepared cs) u
        (AllIn-unprepared ids (seats u) cs opening.players (AllIn-user_ids cs)) in
    let (info, g) = send_game_info-some (map unprepared cs) ids u opening in
    rw (e, f, g)
      (_, refl, record { on = refl; game = u; there = refl; opening = opening; members = refl })

-- When everyone is prepared and three to ten are in the room, the game begins: nothing on the way to
-- it is undefined, the members are the players, and nobody is prepared any more.
pub on_everyone_prepared-Began :
    (rand : Rand) (r : UnoRoom)
    → 3 ≤ length r.room.connections
    → length r.room.connections ≤ 10
    → (x : UnoRoom × Sent) × (on_everyone_prepared rand r ≡ some x) × Began r x.0
unfolding on_everyone_prepared
on_everyone_prepared-Began rand r enough few =
    let not_less : ltb (length r.room.connections) 3 ≡ false = ground arith in
    let not_more : ltb 10 (length r.room.connections) ≡ false = ground arith in
    rw (not_less, not_more) (begin_game-Began rand r (omega arith) few)
