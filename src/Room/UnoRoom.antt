-- ===== src/Room/UnoRoom.antt =====
-- The room of a game of UNO, src/UnoRoom.hpp: the dispatch of messages to the class Uno and what is
-- sent. `none` is undefined behaviour: of Uno, of a message to a game that is not there (uno_game is
-- null), of a card that is none, and of a connection whose user does not play.
-- What rand() returns is an argument where a game begins.
use Prim.Native.String.{String}
use unopp_server.Uno.Card.{color_code, to_color, card_2_int, int_2_card}
use unopp_server.Uno.State.{
  Uno, Player, get_last_card, get_next_player, get_specified_color, get_direction, check_winner,
}
use unopp_server.Uno.Start.{new_game}
use unopp_server.Uno.Rules.{
  play, Drawn, draw_one, skip_after_drawing_one, say_uno, Suspected, suspect, dissuspect,
}
use unopp_server.Room.Members.{UserInfo, Room, find_conn, is_some, process_close}
use unopp_server.Room.Messages.{
  uno, Body, of_game, Sender, Message, join_room, broadcast, get_room_members_info,
  user_id_to_user_name, process_message, close_sent,
}
use unopp_server.Prelude.{
  ℕ, Bool, true, false, ltb, not, ◌&&◌, List, [], ◌∷◌, ◌++◌, Option, none, some, map, length,
  if◌then◌else◌, ◌==◌, ◌>>=◌,
}

-- UNO_PLAY, with the card and specified_color, and the others.
pub data UnoMessage : Type 0 where
  plays : ℕ → ℕ → UnoMessage
  draws_one skips says_uno suspects dissuspects : UnoMessage
  other_uno : UnoMessage

-- The entries of info["players"]: name, id and count.
pub record Seat : Type 0 where
  pub name : String
  pub id : ℕ
  pub count : ℕ

pub record GameInfo : Type 0 where
  pub last_card : ℕ
  pub next_player : String
  pub specified_color : ℕ
  pub direction : Bool
  pub players : List Seat

pub record GameResult : Type 0 where
  pub last_card : ℕ
  pub players : List (Seat × List ℕ)

-- UNO_BROADCAST, by its type.
pub data Notice : Type 0 where
  wild_draw_4 : String → String → Notice
  didnt_say_uno said_uno_but_didnt_play said_uno missay_uno : String → Notice
  suspected : String → String → Bool → Notice
  less_than_3_people more_than_10_people : Notice

pub data UnoBody : Type 0 where
  uno_cards_in_hand uno_suspect_cards : List ℕ → UnoBody
  uno_game_info : GameInfo → UnoBody
  uno_last_card uno_draw_one_res : ℕ → UnoBody
  uno_broadcast : Notice → UnoBody
  uno_gameover : ℕ → String → GameResult → UnoBody
  uno_start : UnoBody

abbrev pub Sent : Type 0
Sent = List (ℕ × Body UnoBody)

abbrev pub Connections : Type 0
Connections = List (ℕ × UserInfo)

pub record UnoRoom : Type 0 where
  pub room : Room
  pub uno_game : Option Uno

-- std::find_if over the players; its result is read without a test.
unfoldable pub find_player : ℕ → List Player → Option Player
find_player user_id [] = none
find_player user_id (p ∷ ps) = if p.user_id == user_id then some p else find_player user_id ps

unfoldable pub get_cards_in_hand : ℕ → Uno → Option (List ℕ)
get_cards_in_hand user_id u =
    find_player user_id u.players >>= λ p. some (map card_2_int p.cards_in_hand)

unfoldable pub send_cards_in_hand : Connections → Uno → Option Sent
send_cards_in_hand [] u = some []
send_cards_in_hand ((c, p) ∷ rest) u =
    let others = send_cards_in_hand rest u in
    get_cards_in_hand p.user_id u >>= λ cards.
    others >>= λ sent. some ((c, of_game (uno_cards_in_hand cards)) ∷ sent)

abbrev pub seat_of : Connections → Player → Seat
seat_of cs p = record {
  name = user_id_to_user_name p.user_id cs;
  id = p.user_id;
  count = length p.cards_in_hand;
}

unfoldable pub get_game_info : Connections → Uno → Option GameInfo
get_game_info cs u = do
  last ← get_last_card u
  next_id ← get_next_player u
  some (record {
    last_card = card_2_int last;
    next_player = user_id_to_user_name next_id cs;
    specified_color = color_code (get_specified_color u);
    direction = get_direction u;
    players = map (seat_of cs) u.players;
  })

unfoldable pub send_game_info : Connections → Uno → Option Sent
send_game_info cs u =
    get_game_info cs u >>= λ info. some (broadcast (of_game (uno_game_info info)) cs)

unfoldable pub get_game_result : Connections → Uno → Option GameResult
get_game_result cs u = get_last_card u >>= λ last. some (record {
  last_card = card_2_int last;
  players = map (λ p. (seat_of cs p, map card_2_int p.cards_in_hand)) u.players;
})

abbrev pub notify : Notice → Connections → Sent
notify n cs = broadcast (of_game (uno_broadcast n)) cs

-- send_cards_in_hand and send_game_info, in this order.
unfoldable pub send_both : Connections → Uno → Option Sent
send_both cs u =
    send_cards_in_hand cs u >>= λ hands. send_game_info cs u >>= λ info. some (hands ++ info)

-- And in the other order.
unfoldable pub send_info_first : Connections → Uno → Option Sent
send_info_first cs u =
    send_game_info cs u >>= λ info. send_cards_in_hand cs u >>= λ hands. some (info ++ hands)

-- What UNO_PLAY sends when the card is accepted.
unfoldable pub played_sent : String → ℕ → Bool → Connections → Uno → Option Sent
played_sent user_name card punish cs u = send_both cs u >>= λ both. get_game_info cs u >>= λ info.
    some (
      both
      ++ ((if card == 78 then notify (wild_draw_4 user_name info.next_player) cs else [])
          ++ ((if punish then notify (didnt_say_uno user_name) cs else [])
              ++ broadcast (of_game (uno_last_card card)) cs)))

-- What is sent under a condition.
abbrev pub sent_if : Bool → Option Sent → Option Sent
sent_if true sent = sent
sent_if false sent = some []

-- The end of UNO_PLAY: a winner ends the game.
unfoldable pub finish_play : UnoRoom → Uno → Option (UnoRoom × Sent)
finish_play r u =
    let cs = r.room.connections in
    elim (check_winner u) [
      | none ↦ some (record r { uno_game = some u }, [])
      | some winner ↦ get_game_result cs u >>= λ result. some (
        record { room = record r.room { is_game_on = false }; uno_game = some u },
        broadcast (of_game (uno_gameover winner (user_id_to_user_name winner cs) result)) cs
            ++ broadcast (get_room_members_info cs) cs,
      )
    ]

unfoldable pub on_play : Sender → ℕ → ℕ → UnoRoom → Uno → Option (UnoRoom × Sent)
on_play from card specified_color r u = do
  c ← int_2_card card
  color ← to_color specified_color
  played ← play from.user_id c color u
  sent ←
      sent_if played.success
        (played_sent from.user_name card played.punish r.room.connections played.after)
  (r', over) ← finish_play r played.after
  some (r', sent ++ over)

-- What a draw sends to the one who drew.
unfoldable pub draw_sent : Sender → Connections → Drawn → Option Sent
draw_sent from cs drawn = elim drawn.card [
  | none ↦ some []
  | some card ↦ send_game_info cs drawn.after >>= λ info.
      some (info ++ ((from.conn_id, of_game (uno_draw_one_res (card_2_int card))) ∷ []))
]

unfoldable pub on_draw_one : Sender → UnoRoom → Uno → Option (UnoRoom × Sent)
on_draw_one from r u = do
  let cs = r.room.connections
  drawn ← draw_one from.user_id u
  sent ← draw_sent from cs drawn
  some (
    record r { uno_game = some drawn.after },
    sent ++ (if drawn.punish then notify (said_uno_but_didnt_play from.user_name) cs else []),
  )

unfoldable pub on_skip : Sender → UnoRoom → Uno → Option (UnoRoom × Sent)
on_skip from r u = do
  let cs = r.room.connections
  (skipped, u') ← skip_after_drawing_one from.user_id u
  sent ← sent_if skipped (send_info_first cs u')
  some (record r { uno_game = some u' }, sent)

unfoldable pub on_say_uno : Sender → UnoRoom → Uno → Option (UnoRoom × Sent)
on_say_uno from r u = do
  let cs = r.room.connections
  (said, u') ← say_uno from.user_id u
  sent ← sent_if (not said) (send_both cs u')
  some (
    record r { uno_game = some u' },
    sent ++ notify (if said then said_uno from.user_name else missay_uno from.user_name) cs,
  )

-- What a valid UNO_SUSPECT sends.
unfoldable pub suspect_sent : Sender → Suspected → Connections → Uno → Option Sent
suspect_sent from s cs u = send_both cs u >>= λ both. some (
    (from.conn_id, of_game (uno_suspect_cards (map card_2_int s.cards)))
    ∷ (notify (suspected from.user_name (user_id_to_user_name s.suspect_id cs) s.success) cs
        ++ both))

unfoldable pub judged_sent : Sender → Option Suspected → Connections → Uno → Option Sent
judged_sent from none cs u = some []
judged_sent from (some s) cs u = suspect_sent from s cs u

unfoldable pub on_suspect : Sender → UnoRoom → Uno → Option (UnoRoom × Sent)
on_suspect from r u = do
  (judged, u') ← suspect from.user_id u
  sent ← judged_sent from judged r.room.connections u'
  some (record r { uno_game = some u' }, sent)

unfoldable pub on_dissuspect : Sender → UnoRoom → Uno → Option (UnoRoom × Sent)
on_dissuspect from r u = do
  (accepted, u') ← dissuspect from.user_id u
  sent ← sent_if accepted (send_both r.room.connections u')
  some (record r { uno_game = some u' }, sent)

-- process_message on a message whose type begins with UNO.
unfoldable pub process_uno : Sender → UnoMessage → UnoRoom → Uno → Option (UnoRoom × Sent)
process_uno from (plays card specified_color) r u = on_play from card specified_color r u
process_uno from draws_one r u = on_draw_one from r u
process_uno from skips r u = on_skip from r u
process_uno from says_uno r u = on_say_uno from r u
process_uno from suspects r u = on_suspect from r u
process_uno from dissuspects r u = on_dissuspect from r u
process_uno from other_uno r u = some (r, [])

-- What rand() returns for the players, for the cards and for the first player.
pub record Rand : Type 0 where
  pub seating : ℕ → ℕ
  pub cards : ℕ → ℕ
  pub first : ℕ

abbrev pub user_ids : Connections → List ℕ
user_ids cs = map (λ e. e.1.user_id) cs

abbrev pub unprepared : ℕ × UserInfo → ℕ × UserInfo
unprepared e = (e.0, record e.1 { prepared = false })

-- A game begins for all members.
unfoldable pub begin_game : Rand → UnoRoom → Option (UnoRoom × Sent)
begin_game rand r = do
  let cs = r.room.connections
  let ready = map unprepared cs
  u ← new_game rand.seating rand.cards rand.first (user_ids cs)
  sent ← send_both ready u
  some (
    record { room = record r.room { is_game_on = true; connections = ready }; uno_game = some u },
    broadcast (of_game uno_start) cs ++ (sent ++ broadcast (get_room_members_info ready) ready),
  )

unfoldable pub on_everyone_prepared : Rand → UnoRoom → Option (UnoRoom × Sent)
on_everyone_prepared rand r =
    let cs = r.room.connections in
    if ltb (length cs) 3
    then some (r, notify less_than_3_people cs)
    else if ltb 10 (length cs)
    then some (r, notify more_than_10_people cs)
    else begin_game rand r

-- What follows Room::process_message: the new member is told of the game.
unfoldable pub tell_joined : Sender → Message → UnoRoom → Option Sent
tell_joined from (join_room no_password password) r =
    sent_if (r.room.is_game_on && is_some (find_conn from.conn_id r.room.connections))
      (r.uno_game >>= λ u. send_both r.room.connections u)
tell_joined from m r = some []

unfoldable pub if_prepared : Rand → Bool → UnoRoom → Option (UnoRoom × Sent)
if_prepared rand true r = on_everyone_prepared rand r
if_prepared rand false r = some (r, [])

-- process_message on any other message.
unfoldable pub process_room : Rand → Sender → Message → UnoRoom → Option (UnoRoom × Sent)
process_room rand from m r = do
  let done = process_message uno from m r.room
  let r' = record r { room = done.room }
  (r'', sent) ← if_prepared rand done.everyone_prepared r'
  told ← tell_joined from m r''
  some (r'', done.sent ++ (sent ++ told))

unfoldable pub uno_process_close : ℕ → UnoRoom → UnoRoom × Sent
uno_process_close conn_id r =
    (record r { room = process_close conn_id r.room }, close_sent conn_id r.room)

-- The calls of a room.
pub data Call : Type 0 where
  uno_message : Sender → UnoMessage → Call
  room_message : Rand → Sender → Message → Call
  closes : ℕ → Call

unfoldable pub step : Call → UnoRoom → Option (UnoRoom × Sent)
step (uno_message from m) r = r.uno_game >>= λ u. process_uno from m r u
step (room_message rand from m) r = process_room rand from m r
step (closes conn_id) r = some (uno_process_close conn_id r)
