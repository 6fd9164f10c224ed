-- ===== src/Room/Visits.antt =====
-- Who joins a room of src/Room.hpp and leaves it again.
use unopp_server.Room.Members.{
  UserInfo, Room, JoinRoom, joined, answer, admit, join, restored, erase_old, find_conn, erase_conn,
  set_room, process_close, get_users_room_id,
}
use unopp_server.Prelude.{
  ℕ, ◌≡◌, refl, sym, ap, ◌∙◌, true, false, List, [], ◌∷◌, Option, none, some, arith, ◌==◌,
  Bool-cases, ==_iff, inl, inr,
}

eq_self : (n : ℕ) → (n == n) ≡ true
eq_self n = (==_iff n n).1 refl

erase_conn-erase_conn :
    (c : ℕ) (cs : List (ℕ × UserInfo)) → erase_conn c (erase_conn c cs) ≡ erase_conn c cs
unfolding erase_conn
erase_conn-erase_conn c [] = refl
erase_conn-erase_conn c ((d, p) ∷ rest) = elim (Bool-cases (d == c)) [
  | inl e ↦ rw e (erase_conn-erase_conn c rest)
  | inr e ↦ rw (e, e) (ap (λ t. (d, p) ∷ t) (erase_conn-erase_conn c rest))
]

-- Nobody who is in a room gets into one without a game.
was_out :
    (q : JoinRoom) (r : Room)
    → r.is_game_on ≡ false
    → answer q r ≡ joined
    → r.user_2_room_id q.user_id ≡ none
unfolding answer
was_out q r off e = ground arith

-- The table after a visit of a user who was in no room.
table_back :
    (user_id : ℕ) (v : Option ℕ) (table : ℕ → Option ℕ) (x : ℕ)
    → table user_id ≡ none
    → set_room user_id none (set_room user_id v table) x ≡ table x
unfolding set_room
table_back user_id v table x h = elim (Bool-cases (user_id == x)) [
  | inl e ↦ rw e (sym h ∙ ap table ((==_iff user_id x).0 e))
  | inr e ↦ rw e refl
]

-- What a visit leaves behind.
pub record Visited (q : JoinRoom) (r inside left : Room) : Type 0 where
  pub in_room : get_users_room_id q.user_id inside ≡ r.id
  pub connections : left.connections ≡ erase_conn q.conn_id r.connections
  pub tables : (x : ℕ) → left.user_2_room_id x ≡ r.user_2_room_id x

joined-admit : (q : JoinRoom) (r : Room) → answer q r ≡ joined → (join q r).1 ≡ admit q r
unfolding join
joined-admit q r e = rw e refl

set_room_self :
    (user_id : ℕ) (v : Option ℕ) (table : ℕ → Option ℕ) → set_room user_id v table user_id ≡ v
unfolding set_room
set_room_self user_id v table = rw (eq_self user_id) refl

admitted_id : (q : JoinRoom) (r : Room) → get_users_room_id q.user_id (admit q r) ≡ r.id
unfolding get_users_room_id admit
admitted_id q r =
    ap (λ (o : Option ℕ). elim o [ none ↦ 0 | some id ↦ id ])
      (set_room_self q.user_id (some r.id) r.user_2_room_id)

erase_first :
    (c : ℕ) (p : UserInfo) (cs : List (ℕ × UserInfo))
    → erase_conn c ((c, p) ∷ erase_conn c cs) ≡ erase_conn c cs
unfolding erase_conn
erase_first c p cs = rw (eq_self c) (erase_conn-erase_conn c cs)

find_first : (c : ℕ) (p : UserInfo) (cs : List (ℕ × UserInfo)) → find_conn c ((c, p) ∷ cs) ≡ some p
unfolding find_conn
find_first c p cs = rw (eq_self c) refl

-- A member leaves while no game is on.
left_room :
    (c : ℕ) (p : UserInfo) (r : Room)
    → find_conn c r.connections ≡ some p
    → r.is_game_on ≡ false
    → process_close c r ≡ record r {
      connections = erase_conn c r.connections;
      user_2_room_id = set_room p.user_id none r.user_2_room_id;
    }
unfolding process_close
left_room c p r e off = rw (e, process_close, off) refl

not_restored : (q : JoinRoom) (r : Room) → r.is_game_on ≡ false → restored q r ≡ none
not_restored q r off = rw off refl

admit-Visited :
    (q : JoinRoom) (r : Room)
    → r.is_game_on ≡ false
    → r.user_2_room_id q.user_id ≡ none
    → Visited q r (admit q r) (process_close q.conn_id (admit q r))
unfolding admit
admit-Visited q r off out =
    let info : UserInfo = record {
      user_name = q.user_name;
      user_id = q.user_id;
      offline = false;
      prepared = false;
    } in
    let others = erase_conn q.conn_id (erase_old (restored q r) r.connections) in
    let closed = left_room q.conn_id info (admit q r) (find_first q.conn_id info others) off in
    record {
      in_room = admitted_id q r;
      connections =
          ap (λ (s : Room). s.connections) closed
          ∙ erase_first q.conn_id info (erase_old (restored q r) r.connections)
          ∙ ap (λ o. erase_conn q.conn_id (erase_old o r.connections)) (not_restored q r off);
      tables = λ x.
          ap (λ (s : Room). s.user_2_room_id x) closed
          ∙ table_back q.user_id (some r.id) r.user_2_room_id x out;
    }

-- Who joins a room where no game is on is in that room by the table, and after the connection closes
-- the connections are those of before without that one, and the table is the one of before.
pub process_close-join :
    (q : JoinRoom) (r : Room)
    → r.is_game_on ≡ false
    → answer q r ≡ joined
    → Visited q r (join q r).1 (process_close q.conn_id (join q r).1)
process_close-join q r off e = rw (joined-admit q r e) (admit-Visited q r off (was_out q r off e))
