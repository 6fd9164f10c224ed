-- ===== src/Room/Starts.antt =====
-- How games of Splendor and Gomoku begin in a room, src/SplendorRoom.hpp and src/GomokuRoom.hpp, and
-- whose turn a drop takes.
use unopp_server.Prelude.Int.{ℤ, pos, ◌≤ℤ◌}
use unopp_server.Splendor.Defs.{Mine, copper, diamond, emerald, iron, netherite, gold, Splendor}
use unopp_server.Splendor.Setup.{first_bank}
use unopp_server.Splendor.Defs.{write, mine_eq}
use unopp_server.Splendor.SettingUp.{IsSetUp, new_game-IsSetUp, new_game-begins}
use unopp_server.Splendor.Seating.{ids_of, new_game-ids_of}
use unopp_server.Uno.Game.{count_ids}
use unopp_server.Gomoku.Rules.{Gomoku, may_drop, bool_eq, drop}
use unopp_server.Room.Messages.{Sender}
use unopp_server.Room.UnoRoom.{user_ids, unprepared}
use unopp_server.Room.UnoStart.{length-user_ids}
use unopp_server.Room.SplendorRoom.{SplendorRoom, Rand, begin_game, on_everyone_prepared}
use unopp_server.Room.SplendorRoom
use unopp_server.Room.GomokuRoom.{GomokuRoom, is_black_of, on_drop}
use unopp_server.Prelude.{
  ℕ, ltb, ◌≤◌, ◌≡◌, refl, ap, ◌∙◌, sum_by, Bool, true, false, not, ◌&&◌, [], map, some, arith,
  length, Bool-cases, inl, inr, of_Ensures, and-left, and-right,
}

-- The bank for two to four players has four or more of each mine.
first_bank_ge : (n : ℕ) → 2 ≤ n → n ≤ 4 → (m : Mine) → pos 4 ≤ℤ first_bank n m
unfolding first_bank write mine_eq
first_bank_ge n h k copper = ground arith
first_bank_ge n h k diamond = ground arith
first_bank_ge n h k emerald = ground arith
first_bank_ge n h k iron = ground arith
first_bank_ge n h k netherite = ground arith
first_bank_ge n h k gold = ground arith

-- The game of these members has begun.
pub record Began (r r' : SplendorRoom) : Type 0 where
  pub on : r'.room.is_game_on ≡ true
  pub game : Splendor
  pub there : r'.game ≡ some game
  pub set_up : IsSetUp (user_ids r.room.connections) game
  pub members : r'.room.connections ≡ map unprepared r.room.connections
  pub players :
      (w : ℕ → ℕ) → sum_by w (ids_of game.players) ≡ sum_by w (user_ids r.room.connections)
  pub bank : (m : Mine) → pos 4 ≤ℤ game.bank m

begin_game-Began :
    (rand : Rand) (r : SplendorRoom)
    → ((w : ℕ → ℕ)
        → sum_by w (rand.order (user_ids r.room.connections))
          ≡ sum_by w (user_ids r.room.connections))
    → 2 ≤ length r.room.connections
    → length r.room.connections ≤ 4
    → (x : SplendorRoom × SplendorRoom.Sent) × (begin_game rand r ≡ some x) × Began r x.0
unfolding begin_game
begin_game-Began rand r listed enough few =
    let ids = user_ids r.room.connections in
    let size = length-user_ids r.room.connections in
    let some_ids : 1 ≤ length (rand.order ids) =
      omega (arith, size, listed (λ _. 1), count_ids ids, count_ids (rand.order ids)) in
    let (g, e) =
      new_game-begins rand.tables rand.order rand.first ids some_ids (omega (arith, size)) in
    let same = of_Ensures (new_game-ids_of rand.tables rand.order rand.first ids) e in
    let set_up : IsSetUp ids g =
      of_Ensures (new_game-IsSetUp rand.tables rand.order rand.first ids) e in
    rw e (
      _,
      refl,
      record {
        on = refl;
        game = g;
        there = refl;
        set_up = set_up;
        members = refl;
        players = λ w. ap (sum_by w) same ∙ listed w;
        bank =
            λ m. rw (set_up.bank m, size) (first_bank_ge (length r.room.connections) enough few m);
      },
    )

-- When everyone is prepared and two to four are in the room, the game begins: its players have the ids
-- of the members, each as often, nobody is prepared any more, and the bank has four or more of each
-- mine. `order`, which lists the ids in the order of the unordered_map, keeps them, each as often.
pub on_everyone_prepared-SplendorBegan :
    (rand : Rand) (r : SplendorRoom)
    → ((w : ℕ → ℕ)
        → sum_by w (rand.order (user_ids r.room.connections))
          ≡ sum_by w (user_ids r.room.connections))
    → 2 ≤ length r.room.connections
    → length r.room.connections ≤ 4
    → (x : SplendorRoom × SplendorRoom.Sent) × (on_everyone_prepared rand r ≡ some x) × Began r x.0
unfolding on_everyone_prepared
on_everyone_prepared-SplendorBegan rand r listed enough few =
    let not_less : ltb (length r.room.connections) 2 ≡ false = ground arith in
    let not_more : ltb 4 (length r.room.connections) ≡ false = ground arith in
    rw (not_less, not_more) (begin_game-Began rand r listed enough few)

not_again :
    (is_black current : Bool)
    → bool_eq is_black current ≡ true
    → bool_eq is_black (not current) ≡ false
not_again true true h = refl
not_again true false h = ground arith
not_again false true h = ground arith
not_again false false h = refl

may_drop-bool_eq :
    (i j : ℤ) (is_black : Bool) (g : Gomoku)
    → may_drop i j is_black g ≡ true
    → bool_eq is_black g.current_is_black ≡ true
unfolding may_drop
may_drop-bool_eq i j is_black g h = and-left _ _ (and-right _ _ h)

other_turn :
    (i j : ℤ) (is_black : Bool) (g : Gomoku)
    → bool_eq is_black g.current_is_black ≡ false
    → drop i j is_black g ≡ (false, g)
unfolding drop may_drop
other_turn i j is_black g h = elim (Bool-cases (is_black && g.is_ai_thinking)) [
  | inl e ↦ rw (h, e) refl
  | inr e ↦ rw (h, e) refl
]

drop-turned :
    (i j : ℤ) (is_black : Bool) (g : Gomoku)
    → (drop i j is_black g).0 ≡ true
    → bool_eq is_black (drop i j is_black g).1.current_is_black ≡ false
unfolding drop
drop-turned i j is_black g h = elim (Bool-cases (may_drop i j is_black g)) [
  | inl e ↦ rw e (not_again is_black g.current_is_black (may_drop-bool_eq i j is_black g e))
  | inr e ↦ let refused = rw e at h in absurd (cc)
]

-- After a drop that is accepted, the next one by the same user is refused and changes nothing, unless
-- something comes between.
pub on_drop-on_drop :
    (from : Sender) (y x y' x' : ℤ) (r : GomokuRoom)
    → (on_drop from y x r).0 ≡ true
    → let after = (on_drop from y x r).1 in on_drop from y' x' after ≡ (false, after, [])
unfolding on_drop
on_drop-on_drop from y x y' x' r h =
    let black = is_black_of from.user_id r in
    let turned = drop-turned y x black r.game h in
    rw (other_turn y' x' black (drop y x black r.game).1 turned) refl
