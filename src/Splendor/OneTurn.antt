-- ===== src/Splendor/OneTurn.antt =====
-- In a game of src/Splendor.hpp one player has the turn at any time.
use unopp_server.Splendor.Defs.{Splendor}
use unopp_server.Splendor.Setup.{new_game, choose_allies}
use unopp_server.Splendor.Tables.{all_allies}
use unopp_server.Splendor.Game.{
  Move, takes_3, takes_2, returns_mine, reserves, buys, buys_reserved, step, Reach, start, move,
}
use unopp_server.Splendor.Replies.{of_Replies}
use unopp_server.Splendor.Turns.{turn_count, seat-one}
use unopp_server.Prelude.{
  ℕ, ◌+◌, ◌≡◌, List, some, length, returns, Ensures, Ensures->>=, Ensures-bind, of_Ensures,
}
use unopp_server.Splendor.TurnMoves.{
  IsOneTurn, take_3_mines-one, take_2_mines-one, return_mine-one, reserve_coupon-one,
  buy_coupon-one, buy_reserved_coupon-one,
}

pub step-one : (m : Move) (g : Splendor) → IsOneTurn g → Ensures (λ r. IsOneTurn r.1) (step m g)
unfolding step
step-one (takes_3 a b c player) g one = returns (of_Replies (take_3_mines-one a b c player g one))
step-one (takes_2 mine player) g one = returns (of_Replies (take_2_mines-one mine player g one))
step-one (returns_mine mine player) g one = returns (of_Replies (return_mine-one mine player g one))
step-one (reserves coupon_idx player) g one =
    returns (of_Replies (reserve_coupon-one coupon_idx player g one))
step-one (buys coupon_idx player) g one = buy_coupon-one coupon_idx player g one
step-one (buys_reserved coupon_idx player) g one = buy_reserved_coupon-one coupon_idx player g one

turn_count-Reach : {g h : Splendor} → Reach g h → IsOneTurn g → IsOneTurn h
turn_count-Reach start one = one
turn_count-Reach (move {h = h} m r e) one = of_Ensures (step-one m h (turn_count-Reach r one)) e

pub new_game-one :
    (rand : ℕ → ℕ → ℕ) (order : List ℕ → List ℕ) (first : ℕ) (player_ids : List ℕ)
    → Ensures IsOneTurn (new_game rand order first player_ids)
unfolding new_game
new_game-one rand order first player_ids =
    Ensures->>= (seat-one first (order player_ids)) λ players one.
      Ensures-bind (choose_allies (rand 0) 9 (length player_ids + 1) all_allies)
        λ allies e. returns one

-- In every game that began for these players and went on by any moves, accepted or refused, exactly
-- one player acts or has mines to return, and all the others wait.
pub turn_count-new_game :
    (rand : ℕ → ℕ → ℕ) (order : List ℕ → List ℕ) (first : ℕ) (player_ids : List ℕ) (g h : Splendor)
    → new_game rand order first player_ids ≡ some g
    → Reach g h
    → turn_count h.players ≡ 1
turn_count-new_game rand order first player_ids g h e r =
    turn_count-Reach r (of_Ensures (new_game-one rand order first player_ids) e)
