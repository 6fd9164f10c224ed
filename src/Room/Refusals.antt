-- ===== src/Room/Refusals.antt =====
-- Who cannot join a room of src/Room.hpp.
use unopp_server.Room.Members.{
  UserInfo, Room, JoinRoom, already_joined, answer, join, find_conn, process_close,
}
use unopp_server.Uno.Card.{int_2_card, to_color}
use unopp_server.Uno.State.{Uno, check_winner}
use unopp_server.Uno.Rules.{play, draw_one, skip_after_drawing_one, say_uno, suspect, dissuspect}
use unopp_server.Room.Messages.{Sender}
use unopp_server.Room.UnoRoom.{
  UnoMessage, plays, draws_one, skips, says_uno, suspects, dissuspects, other_uno, Sent, UnoRoom,
  get_game_result, send_both, send_info_first, played_sent, sent_if, finish_play, on_play,
  draw_sent, on_draw_one, on_skip, on_say_uno, judged_sent, on_suspect, on_dissuspect, process_uno,
  uno_process_close, uno_message, step,
}
use unopp_server.Prelude.{
  ℕ, ◌≡◌, refl, ap, ◌∙◌, not, true, false, some, Option-cases, inl, inr, returns, of_Ensures,
  Ensures, Ensures->>=, Ensures-bind,
}

in_a_room :
    (q : JoinRoom) (r : Room) (id : ℕ)
    → r.is_game_on ≡ false
    → r.user_2_room_id q.user_id ≡ some id
    → answer q r ≡ already_joined
unfolding answer
in_a_room q r id off e = rw (off, e) refl

join-refused :
    (q : JoinRoom) (r : Room) → answer q r ≡ already_joined → join q r ≡ (already_joined, r)
unfolding join
join-refused q r e = rw e refl

-- A member who leaves during a game stays in the table.
left_in_game :
    (c : ℕ) (p : UserInfo) (r : Room)
    → find_conn c r.connections ≡ some p
    → r.is_game_on ≡ true
    → (process_close c r).user_2_room_id ≡ r.user_2_room_id
unfolding process_close
left_in_game c p r e on = rw (e, process_close, on) refl

-- A write of the game leaves the table user_2_room_id alone.
module _ (from : Sender) (r : UnoRoom) where
  abbrev IsSameTable : UnoRoom × Sent → Type 0
  IsSameTable x = x.0.room.user_2_room_id ≡ r.room.user_2_room_id

  finish_play-table : (u : Uno) → Ensures IsSameTable (finish_play r u)
  unfolding finish_play
  finish_play-table u = elim (Option-cases (check_winner u)) [
    | inl n ↦ rw (n, finish_play) (returns refl)
    | inr (winner, n) ↦
        rw (n, finish_play)
          (Ensures-bind (get_game_result r.room.connections u) λ result _. returns refl)
  ]

  on_play-table : (card color : ℕ) (u : Uno) → Ensures IsSameTable (on_play from card color r u)
  unfolding on_play
  on_play-table card color u = Ensures-bind (int_2_card card) λ c _.
      Ensures-bind (to_color color) λ k _. Ensures-bind (play from.user_id c k u) λ played _.
        Ensures-bind
          (sent_if played.success
            (played_sent from.user_name card played.punish r.room.connections played.after))
          λ sent _. Ensures->>= (finish_play-table played.after) λ x same. returns same

  process_uno-table : (m : UnoMessage) (u : Uno) → Ensures IsSameTable (process_uno from m r u)
  unfolding process_uno on_draw_one on_skip on_say_uno on_suspect on_dissuspect
  process_uno-table (plays card color) u = on_play-table card color u
  process_uno-table draws_one u =
      Ensures-bind (draw_one from.user_id u)
        λ drawn _. Ensures-bind (draw_sent from r.room.connections drawn) λ sent _. returns refl
  process_uno-table skips u = Ensures-bind (skip_after_drawing_one from.user_id u) λ x _.
      Ensures-bind (sent_if x.0 (send_info_first r.room.connections x.1)) λ sent _. returns refl
  process_uno-table says_uno u = Ensures-bind (say_uno from.user_id u) λ x _.
      Ensures-bind (sent_if (not x.0) (send_both r.room.connections x.1)) λ sent _. returns refl
  process_uno-table suspects u =
      Ensures-bind (suspect from.user_id u)
        λ x _. Ensures-bind (judged_sent from x.0 r.room.connections x.1) λ sent _. returns refl
  process_uno-table dissuspects u =
      Ensures-bind (dissuspect from.user_id u)
        λ x _. Ensures-bind (sent_if x.0 (send_both r.room.connections x.1)) λ sent _. returns refl
  process_uno-table other_uno u = returns refl

-- How a game of UNO goes on to its end: by messages about it, and by connections that close meanwhile.
pub data GoesOn (r : UnoRoom) : UnoRoom → Type 0 where
  start : GoesOn r r
  moves :
      {s t : UnoRoom} {sent : Sent} (from : Sender) (m : UnoMessage)
      → GoesOn r s
      → step (uno_message from m) s ≡ some (t, sent)
      → GoesOn r t
  leaves :
      {s : UnoRoom} (conn_id : ℕ)
      → GoesOn r s
      → s.room.is_game_on ≡ true
      → GoesOn r (uno_process_close conn_id s).0

close-table :
    (conn_id : ℕ) (r : Room)
    → r.is_game_on ≡ true
    → (process_close conn_id r).user_2_room_id ≡ r.user_2_room_id
close-table conn_id r on = elim (Option-cases (find_conn conn_id r.connections)) [
  | inl e ↦ unfold process_close in rw (e, process_close) refl
  | inr (p, e) ↦ left_in_game conn_id p r e on
]

step-table :
    (from : Sender) (m : UnoMessage) (s : UnoRoom)
    → Ensures (λ x. x.0.room.user_2_room_id ≡ s.room.user_2_room_id) (step (uno_message from m) s)
unfolding step
step-table from m s = Ensures-bind s.uno_game λ u _. process_uno-table from s m u

GoesOn-table : {r s : UnoRoom} → GoesOn r s → s.room.user_2_room_id ≡ r.room.user_2_room_id
unfolding uno_process_close
GoesOn-table start = refl
GoesOn-table (moves {s = s} from m before e) =
    of_Ensures (step-table from m s) e ∙ GoesOn-table before
GoesOn-table (leaves {s = s} conn_id before on) =
    close-table conn_id s.room on ∙ GoesOn-table before

-- The connection of a member of a room of UNO closes during a game, and the game goes on to its end, by
-- any moves and by any connections that close meanwhile. Then every room without a game that shares the
-- table, his own too, refuses him as one who has already joined a room, and stays as it is.
pub locked_out :
    (c : ℕ) (p : UserInfo) (r s : UnoRoom) (id : ℕ) (q : JoinRoom) (other : Room)
    → find_conn c r.room.connections ≡ some p
    → r.room.is_game_on ≡ true
    → r.room.user_2_room_id p.user_id ≡ some id
    → q.user_id ≡ p.user_id
    → GoesOn (uno_process_close c r).0 s
    → s.room.is_game_on ≡ false
    → other.is_game_on ≡ false
    → other.user_2_room_id ≡ s.room.user_2_room_id
    → (join q s.room ≡ (already_joined, s.room)) × (join q other ≡ (already_joined, other))
unfolding uno_process_close
locked_out c p r s id q other found on e same goes_on over off shared =
    let left : s.room.user_2_room_id q.user_id ≡ some id =
      ap (λ table. table q.user_id) (GoesOn-table goes_on ∙ left_in_game c p r.room found on)
      ∙ ap r.room.user_2_room_id same
      ∙ e in
    (
      join-refused q s.room (in_a_room q s.room id over left),
      join-refused q other (in_a_room q other id off (ap (λ table. table q.user_id) shared ∙ left)),
    )
