-- ===== src/Room/UnoCalls.antt =====
-- The calls of a room of UNO, src/UnoRoom.hpp, one after another.
use unopp_server.Uno.Card.{Card, CardColor}
use unopp_server.Uno.Rules.{play}
use unopp_server.Uno.State.{Uno, Player}
use unopp_server.Uno.Conservation.{seats}
use unopp_server.Room.Members.{Room, join, answer, prepare, process_close, find_conn, is_some}
use unopp_server.Room.Messages.{
  uno, Sender, Message, join_room, chats, game_prepare, unknown, join_of, Outcome, process_message,
}
use unopp_server.Room.Seats.{IsIn, AllIn, admitted-is_game_on, process_close-IsSeated}
use unopp_server.Room.UnoRoom.{
  UnoBody, Connections, Sent, UnoRoom, find_player, get_cards_in_hand, send_cards_in_hand, Rand,
  process_room, uno_process_close, if_prepared, tell_joined, Call, uno_message, room_message,
  closes, step,
}
use unopp_server.Prelude.{
  ℕ, ◌≡◌, refl, sym, ◌∙◌, Bool, true, false, List, [], ◌∷◌, some, arith, map, ◌==◌, Bool-cases,
  Option-cases, inl, inr, returns, of_Ensures, Ensures, Ensures->>=, Ensures-bind, Ensures-mono,
  Defined,
}
use unopp_server.Room.UnoTable.{
  play-seats, IsReady, process_uno-IsReady, on_everyone_prepared-IsReady, Agrees,
  process_message-IsSeated,
}

prepare-is_game_on :
    (c : ℕ) (ready : Bool) (r : Room) → (prepare c ready r).1.is_game_on ≡ r.is_game_on
unfolding prepare
prepare-is_game_on c ready r = elim (Bool-cases (is_some (find_conn c r.connections))) [
  | inl e ↦ rw e refl
  | inr e ↦ rw e refl
]

process_message-is_game_on :
    (from : Sender) (m : Message) (r : Room)
    → (process_message {G = UnoBody} uno from m r).room.is_game_on ≡ r.is_game_on
unfolding process_message join
process_message-is_game_on from (join_room no_password password) r =
    admitted-is_game_on (answer (join_of from no_password password) r) _ r
process_message-is_game_on from (chats text) r =
    elim (Bool-cases (is_some (find_conn from.conn_id r.connections))) [
      | inl e ↦ rw e refl
      | inr e ↦ rw e refl
    ]
process_message-is_game_on from (game_prepare ready) r =
    elim (Bool-cases (is_some (find_conn from.conn_id r.connections))) [
      | inl e ↦ rw e (prepare-is_game_on from.conn_id ready r)
      | inr e ↦ rw e refl
    ]
process_message-is_game_on from unknown r =
    elim (Bool-cases (is_some (find_conn from.conn_id r.connections))) [
      | inl e ↦ rw e refl
      | inr e ↦ rw e refl
    ]

process_message-IsReady :
    (from : Sender) (m : Message) (r : UnoRoom)
    → Agrees from m r.room
    → IsReady r
    → IsReady (record r { room = (process_message {G = UnoBody} uno from m r.room).room })
process_message-IsReady from m r a h on =
    let (u, e, all) = h (sym (process_message-is_game_on from m r.room) ∙ on) in
    (u, e, process_message-IsSeated (seats u) from m r.room a (λ _. all) on)

if_prepared-IsReady :
    (rand : Rand) (everyone : Bool) (r : UnoRoom)
    → IsReady r
    → Ensures (λ x. IsReady x.0) (if_prepared rand everyone r)
if_prepared-IsReady rand true r h = unfold if_prepared in on_everyone_prepared-IsReady rand r h
if_prepared-IsReady rand false r h = unfold if_prepared in returns h

process_room-IsReady :
    (rand : Rand) (from : Sender) (m : Message) (r : UnoRoom)
    → Agrees from m r.room
    → IsReady r
    → Ensures (λ x. IsReady x.0) (process_room rand from m r)
unfolding process_room
process_room-IsReady rand from m r a h =
    let done : Outcome UnoBody = process_message uno from m r.room in
    Ensures->>=
      (if_prepared-IsReady rand done.everyone_prepared _ (process_message-IsReady from m r a h))
      λ x ready. Ensures-bind (tell_joined from m x.0) λ told _. returns ready

process_close-is_game_on : (c : ℕ) (r : Room) → (process_close c r).is_game_on ≡ r.is_game_on
unfolding process_close
process_close-is_game_on c r = elim (Option-cases (find_conn c r.connections)) [
  | inl e ↦ rw (e, process_close) refl
  | inr (p, e) ↦ elim (Bool-cases r.is_game_on) [
    | inl k ↦ rw (e, process_close, k) refl
    | inr k ↦ rw (e, process_close, k) refl
  ]
]

-- The members agree with their names in a call.
abbrev pub AgreesIn : Call → UnoRoom → Type 0
AgreesIn (room_message rand from m) r = Agrees from m r.room
AgreesIn c r = Unit

step-IsReady :
    (c : Call) (r : UnoRoom) → AgreesIn c r → IsReady r → Ensures (λ x. IsReady x.0) (step c r)
unfolding step uno_process_close
step-IsReady (uno_message from m) r a h =
    Ensures-bind r.uno_game λ u e. process_uno-IsReady from r u e h m
step-IsReady (room_message rand from m) r a h = process_room-IsReady rand from m r a h
step-IsReady (closes c) r a h = returns λ on.
    let (u, e, all) = h (sym (process_close-is_game_on c r.room) ∙ on) in
    (u, e, process_close-IsSeated (seats u) c r.room (λ _. all) on)

-- What a room becomes by calls in which those who join agree with their names.
pub data Reach (r : UnoRoom) : UnoRoom → Type 0 where
  start : Reach r r
  call :
      {s t : UnoRoom} {sent : Sent} (c : Call)
      → Reach r s
      → AgreesIn c s
      → step c s ≡ some (t, sent)
      → Reach r t

Reach-IsReady : {r s : UnoRoom} → IsReady r → Reach r s → IsReady s
Reach-IsReady h start = h
Reach-IsReady h (call {s = s} c before a e) =
    of_Ensures (step-IsReady c s a (Reach-IsReady h before)) e

-- A player is found, and so are the cards in hand.
find_player-some :
    (id : ℕ) (ps : List Player)
    → IsIn id (map (λ (p : Player). p.user_id) ps)
    → Defined (find_player id ps)
unfolding find_player
find_player-some id [] h = elim h [ ]
find_player-some id (p ∷ ps) h = elim (Bool-cases (p.user_id == id)) [
  | inl e ↦ rw e (p, refl)
  | inr e ↦ let more = rw e at h in rw e (find_player-some id ps (omega arith))
]

pub send_cards_in_hand-some :
    (cs : Connections) (u : Uno) → AllIn (seats u) cs → Defined (send_cards_in_hand cs u)
unfolding send_cards_in_hand get_cards_in_hand
send_cards_in_hand-some [] u h = ([], refl)
send_cards_in_hand-some ((c, p) ∷ rest) u h =
    let (q, e) = find_player-some p.user_id u.players h.0 in
    let (sent, f) = send_cards_in_hand-some rest u h.1 in rw (e, f) (_, refl)

-- The players keep their seats, and the members their players.
AllIn-seats :
    (u v : Uno) (cs : Connections) → seats v ≡ seats u → AllIn (seats u) cs → AllIn (seats v) cs
AllIn-seats u v cs same h = rw same h

-- In a room that began without a game, whatever was called since, as long as those who joined under the
-- name of a member were that member: while a game is on there is a game, and send_cards_in_hand, which
-- reads the player of every connection without a test, finds them all. It still does, with that game,
-- for the connections that process_message makes of any further message, a request to join too, if it
-- comes under the name of a member from that member only; and, for the connections as they are, with the
-- game that play makes of any card, where it returns.
pub Reach-send_cards_in_hand :
    {r s : UnoRoom} (from : Sender) (m : Message) (player_id : ℕ) (card : Card) (color : CardColor)
    → r.room.is_game_on ≡ false
    → Reach r s
    → s.room.is_game_on ≡ true
    → Agrees from m s.room
    → (u : Uno) × (s.uno_game ≡ some u)
      × Defined (send_cards_in_hand s.room.connections u)
      × Defined
          (send_cards_in_hand (process_message {G = UnoBody} uno from m s.room).room.connections u)
      × Ensures
          (λ played. Defined (send_cards_in_hand s.room.connections played.after))
          (play player_id card color u)
Reach-send_cards_in_hand {r} {s} from m player_id card color off reach on agrees =
    let (u, e, all) = Reach-IsReady (λ k. absurd (cc)) reach on in
    let still_on = process_message-is_game_on from m s.room ∙ on in
    (
      u,
      e,
      send_cards_in_hand-some s.room.connections u all,
      send_cards_in_hand-some _ u
          (process_message-IsSeated (seats u) from m s.room agrees (λ _. all) still_on),
      Ensures-mono (play-seats player_id card color u) λ played same.
          send_cards_in_hand-some s.room.connections played.after
            (AllIn-seats u played.after s.room.connections same all),
    )
