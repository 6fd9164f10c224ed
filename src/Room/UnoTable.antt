-- ===== src/Room/UnoTable.antt =====
-- The room of a game of UNO keeps its members at the table: what src/UnoRoom.hpp sends to them is
-- there to send.
use unopp_server.Uno.Card.{Card, CardColor, int_2_card, to_color}
use unopp_server.Uno.State.{Uno, player_at, check_winner}
use unopp_server.Uno.Rules.{play, is_playable}
use unopp_server.Uno.Conservation.{seats}
use unopp_server.Uno.Laying.{play_cards}
use unopp_server.Uno.Moves.{
  draw_one-Keeps, skip-Keeps, say_uno-Keeps, suspect-Keeps, dissuspect-Keeps,
}
use unopp_server.Uno.Opening.{new_game-IsOpening}
use unopp_server.Room.Members.{Room, join, find_conn, is_some}
use unopp_server.Room.Messages.{
  uno, Sender, Message, join_room, chats, game_prepare, unknown, join_of, process_message,
}
use unopp_server.Room.Seats.{
  is_id, IsIn, AllIn, NamesAgree, IsSeated, admitted-IsSeated, prepare-IsSeated,
}
use unopp_server.Room.UnoRoom.{
  UnoMessage, plays, draws_one, skips, says_uno, suspects, dissuspects, other_uno, UnoBody,
  Connections, UnoRoom, get_game_result, send_both, finish_play, on_play, on_draw_one, on_skip,
  on_say_uno, on_suspect, on_dissuspect, process_uno, Rand, user_ids, unprepared, begin_game,
  on_everyone_prepared, sent_if, played_sent, draw_sent, send_info_first, judged_sent,
}
use unopp_server.Prelude.{
  ℕ, ◌≡◌, refl, sym, ap, ◌∙◌, true, ltb, not, List, [], ◌∷◌, none, some, arith, map, length, sum_by,
  Bool-cases, Option-cases, inl, inr, fails, returns, Ensures, Ensures-self, Ensures->>=,
  Ensures-bind, Ensures-mono, Ensures-if,
}

-- A game is on only with a game there, in which the user of every connection plays.
abbrev pub IsReady : UnoRoom → Type 0
IsReady r =
    r.room.is_game_on ≡ true
    → (u : Uno) × (r.uno_game ≡ some u) × AllIn (seats u) r.room.connections

AllIn-same : (ids ids' : List ℕ) (cs : Connections) → ids' ≡ ids → AllIn ids cs → AllIn ids' cs
AllIn-same ids ids' cs e h = rw e h

-- The game goes on with the same players.
goes_on :
    (r : UnoRoom) (u u' : Uno)
    → r.uno_game ≡ some u
    → seats u' ≡ seats u
    → IsReady r
    → IsReady (record r { uno_game = some u' })
goes_on r u u' e same h on =
    let (v, f, all) = h on in
    let eq : v ≡ u = some_eq v u (sym f ∙ e) in
    (u', refl, AllIn-same (seats v) (seats u') r.room.connections (same ∙ ap seats (sym eq)) all)
  where
    some_eq : (v w : Uno) → some v ≡ some w → v ≡ w
    some_eq v w e = cc

play_nobody :
    (player_id : ℕ) (card : Card) (color : CardColor) (u : Uno)
    → player_at u u.next_player_idx ≡ none
    → Ensures (λ r. seats r.after ≡ seats u) (play player_id card color u)
unfolding play
play_nobody player_id card color u e =
    Ensures-if u.wait_suspect (λ _. returns refl)
      (λ _. Ensures-if (not (is_playable card u)) (λ _. returns refl) (λ _. rw e fails))

pub play-seats :
    (player_id : ℕ) (card : Card) (color : CardColor) (u : Uno)
    → Ensures (λ r. seats r.after ≡ seats u) (play player_id card color u)
play-seats player_id card color u = elim (Option-cases (player_at u u.next_player_idx)) [
  | inl e ↦ play_nobody player_id card color u e
  | inr (p, e) ↦
      Ensures-mono (Ensures-self (play player_id card color u))
        λ r h. (play_cards player_id card color p u e h).2
]

finish_play-IsReady :
    (r : UnoRoom) (u u' : Uno)
    → r.uno_game ≡ some u
    → seats u' ≡ seats u
    → IsReady r
    → Ensures (λ x. IsReady x.0) (finish_play r u')
unfolding finish_play
finish_play-IsReady r u u' e same h = elim (Option-cases (check_winner u')) [
  | inl n ↦ rw (n, finish_play) (returns (goes_on r u u' e same h))
  | inr (winner, n) ↦
      rw (n, finish_play)
        (Ensures-bind (get_game_result r.room.connections u')
          λ result _. returns (λ on. absurd (cc)))
]

on_play-IsReady :
    (from : Sender) (card color : ℕ) (r : UnoRoom) (u : Uno)
    → r.uno_game ≡ some u
    → IsReady r
    → Ensures (λ x. IsReady x.0) (on_play from card color r u)
unfolding on_play
on_play-IsReady from card color r u e h = Ensures-bind (int_2_card card) λ c _.
    Ensures-bind (to_color color) λ k _. Ensures->>= (play-seats from.user_id c k u) λ played same.
      Ensures-bind
        (sent_if played.success
          (played_sent from.user_name card played.punish r.room.connections played.after))
        λ sent _.
          Ensures->>= (finish_play-IsReady r u played.after e same h) λ x ready. returns ready

-- The moves after which only messages follow.
module _ (from : Sender) (r : UnoRoom) (u : Uno) (e : r.uno_game ≡ some u) (h : IsReady r) where
  on_draw_one-IsReady : Ensures (λ x. IsReady x.0) (on_draw_one from r u)
  unfolding on_draw_one
  on_draw_one-IsReady = Ensures->>= (draw_one-Keeps from.user_id u) λ drawn k.
      Ensures-bind (draw_sent from r.room.connections drawn)
        λ sent _. returns (goes_on r u drawn.after e k.players h)

  on_skip-IsReady : Ensures (λ x. IsReady x.0) (on_skip from r u)
  unfolding on_skip
  on_skip-IsReady = Ensures->>= (skip-Keeps from.user_id u) λ x k.
      Ensures-bind (sent_if x.0 (send_info_first r.room.connections x.1))
        λ sent _. returns (goes_on r u x.1 e k.players h)

  on_say_uno-IsReady : Ensures (λ x. IsReady x.0) (on_say_uno from r u)
  unfolding on_say_uno
  on_say_uno-IsReady = Ensures->>= (say_uno-Keeps from.user_id u) λ x k.
      Ensures-bind (sent_if (not x.0) (send_both r.room.connections x.1))
        λ sent _. returns (goes_on r u x.1 e k.players h)

  on_suspect-IsReady : Ensures (λ x. IsReady x.0) (on_suspect from r u)
  unfolding on_suspect
  on_suspect-IsReady = Ensures->>= (suspect-Keeps from.user_id u) λ x k.
      Ensures-bind (judged_sent from x.0 r.room.connections x.1)
        λ sent _. returns (goes_on r u x.1 e k.players h)

  on_dissuspect-IsReady : Ensures (λ x. IsReady x.0) (on_dissuspect from r u)
  unfolding on_dissuspect
  on_dissuspect-IsReady = Ensures->>= (dissuspect-Keeps from.user_id u) λ x k.
      Ensures-bind (sent_if x.0 (send_both r.room.connections x.1))
        λ sent _. returns (goes_on r u x.1 e k.players h)

  pub process_uno-IsReady : (m : UnoMessage) → Ensures (λ x. IsReady x.0) (process_uno from m r u)
  unfolding process_uno
  process_uno-IsReady (plays card color) = on_play-IsReady from card color r u e h
  process_uno-IsReady draws_one = on_draw_one-IsReady
  process_uno-IsReady skips = on_skip-IsReady
  process_uno-IsReady says_uno = on_say_uno-IsReady
  process_uno-IsReady suspects = on_suspect-IsReady
  process_uno-IsReady dissuspects = on_dissuspect-IsReady
  process_uno-IsReady other_uno = returns h

-- The members are among the ids that they have.
IsIn-cons : (id x : ℕ) (ids : List ℕ) → IsIn id ids → IsIn id (x ∷ ids)
IsIn-cons id x ids h = omega (arith, h)

AllIn-cons : (x : ℕ) (ids : List ℕ) (cs : Connections) → AllIn ids cs → AllIn (x ∷ ids) cs
AllIn-cons x ids [] h = tt
AllIn-cons x ids ((c, p) ∷ rest) h = (IsIn-cons p.user_id x ids h.0, AllIn-cons x ids rest h.1)

IsIn-first : (id : ℕ) (ids : List ℕ) → IsIn id (id ∷ ids)
IsIn-first id ids = ground arith

pub AllIn-user_ids : (cs : Connections) → AllIn (user_ids cs) cs
AllIn-user_ids [] = tt
AllIn-user_ids ((c, p) ∷ rest) = (
  IsIn-first p.user_id (user_ids rest),
  AllIn-cons p.user_id (user_ids rest) rest (AllIn-user_ids rest),
)

-- The table has the same ids, in some order; the members are no longer prepared.
pub AllIn-unprepared :
    (ids ids' : List ℕ) (cs : Connections)
    → ((w : ℕ → ℕ) → sum_by w ids' ≡ sum_by w ids)
    → AllIn ids cs
    → AllIn ids' (map unprepared cs)
AllIn-unprepared ids ids' [] same h = tt
AllIn-unprepared ids ids' ((c, p) ∷ rest) same h =
    let more : IsIn p.user_id ids' = rw (same (is_id p.user_id)) h.0 in
    (more, AllIn-unprepared ids ids' rest same h.1)

begin_game-IsReady : (rand : Rand) (r : UnoRoom) → Ensures (λ x. IsReady x.0) (begin_game rand r)
unfolding begin_game
begin_game-IsReady rand r =
    let cs = r.room.connections in
    Ensures->>= (new_game-IsOpening rand.seating rand.cards rand.first (user_ids cs)) λ u opening.
      Ensures-bind (send_both (map unprepared cs) u) λ sent _. returns (λ on.
        (u, refl, AllIn-unprepared (user_ids cs) (seats u) cs opening.players (AllIn-user_ids cs)))

pub on_everyone_prepared-IsReady :
    (rand : Rand) (r : UnoRoom)
    → IsReady r
    → Ensures (λ x. IsReady x.0) (on_everyone_prepared rand r)
unfolding on_everyone_prepared
on_everyone_prepared-IsReady rand r h =
    Ensures-if (ltb (length r.room.connections) 3) (λ _. returns h)
      λ _.
        Ensures-if (ltb 10 (length r.room.connections)) (λ _. returns h)
          λ _. begin_game-IsReady rand r

-- Who joins under the name of a member is that member.
abbrev pub Agrees : Sender → Message → Room → Type 0
Agrees from (join_room no_password password) r =
    NamesAgree from.user_name from.user_id r.connections
Agrees from m r = Unit

-- What the class Room does with a message keeps the members at the table.
pub process_message-IsSeated :
    (ids : List ℕ) (from : Sender) (m : Message) (r : Room)
    → Agrees from m r
    → IsSeated ids r
    → IsSeated ids (process_message {G = UnoBody} uno from m r).room
unfolding process_message join
process_message-IsSeated ids from (join_room no_password password) r a h =
    admitted-IsSeated ids (join_of from no_password password) r a h
process_message-IsSeated ids from (chats text) r a h =
    elim (Bool-cases (is_some (find_conn from.conn_id r.connections))) [
      | inl e ↦ rw e h
      | inr e ↦ rw e h
    ]
process_message-IsSeated ids from (game_prepare ready) r a h =
    elim (Bool-cases (is_some (find_conn from.conn_id r.connections))) [
      | inl e ↦ rw e (prepare-IsSeated ids from.conn_id ready r h)
      | inr e ↦ rw e h
    ]
process_message-IsSeated ids from unknown r a h =
    elim (Bool-cases (is_some (find_conn from.conn_id r.connections))) [
      | inl e ↦ rw e h
      | inr e ↦ rw e h
    ]
