-- ===== src/Splendor/TenMines.antt =====
-- In a game of src/Splendor.hpp a player has more than ten mines just while mines are to be returned.
use unopp_server.Splendor.Defs.{Player, Splendor, player_at}
use unopp_server.Splendor.Setup.{new_game, choose_allies}
use unopp_server.Splendor.Tables.{all_allies}
use unopp_server.Splendor.Game.{
  Move, takes_3, takes_2, returns_mine, reserves, buys, buys_reserved, step, Reach, start, move,
}
use unopp_server.Splendor.Replies.{of_Replies}
use unopp_server.Splendor.OneTurn.{step-one, new_game-one}
use unopp_server.Splendor.Limit.{is_over, is_returning, IsLimited-player_at, seat-AreLimited}
use unopp_server.Prelude.{
  ℕ, ◌+◌, ◌≡◌, List, some, length, returns, Ensures, Ensures->>=, Ensures-bind, of_Ensures,
}
use unopp_server.Splendor.TenMoves.{
  IsWithin, IsLimitedGame, take_3_mines-IsLimitedGame, take_2_mines-IsLimitedGame,
  return_mine-IsLimitedGame, reserve_coupon-IsLimitedGame, buy_coupon-IsLimitedGame,
  buy_reserved_coupon-IsLimitedGame,
}

step-IsLimitedGame :
    (m : Move) (g : Splendor) → IsWithin g → Ensures (λ r. IsLimitedGame r.1) (step m g)
unfolding step
step-IsLimitedGame (takes_3 a b c player) g h =
    returns (of_Replies (take_3_mines-IsLimitedGame a b c player g h))
step-IsLimitedGame (takes_2 mine player) g h =
    returns (of_Replies (take_2_mines-IsLimitedGame mine player g h))
step-IsLimitedGame (returns_mine mine player) g h =
    returns (of_Replies (return_mine-IsLimitedGame mine player g h))
step-IsLimitedGame (reserves coupon_idx player) g h =
    returns (of_Replies (reserve_coupon-IsLimitedGame coupon_idx player g h))
step-IsLimitedGame (buys coupon_idx player) g h = buy_coupon-IsLimitedGame coupon_idx player g h
step-IsLimitedGame (buys_reserved coupon_idx player) g h =
    buy_reserved_coupon-IsLimitedGame coupon_idx player g h

Reach-IsWithin : {g h : Splendor} → Reach g h → IsWithin g → IsWithin h
Reach-IsWithin start within = within
Reach-IsWithin (move {h = h} m r e) within =
    let before = Reach-IsWithin r within in
    (of_Ensures (step-one m h before.0) e, of_Ensures (step-IsLimitedGame m h before) e)

new_game-IsLimitedGame :
    (rand : ℕ → ℕ → ℕ) (order : List ℕ → List ℕ) (first : ℕ) (player_ids : List ℕ)
    → Ensures IsLimitedGame (new_game rand order first player_ids)
unfolding new_game
new_game-IsLimitedGame rand order first player_ids =
    Ensures->>= (seat-AreLimited first (order player_ids)) λ players limited.
      Ensures-bind (choose_allies (rand 0) 9 (length player_ids + 1) all_allies)
        λ allies e. returns limited

-- In every game that began for these players and went on by any moves, accepted or refused, a player
-- holds more than ten mines exactly if the player's status says that mines are to be returned.
pub is_over-new_game :
    (rand : ℕ → ℕ → ℕ) (order : List ℕ → List ℕ) (first : ℕ) (player_ids : List ℕ) (g h : Splendor)
    (i : ℕ) (p : Player)
    → new_game rand order first player_ids ≡ some g
    → Reach g h
    → player_at i h.players ≡ some p
    → is_over p ≡ is_returning p
is_over-new_game rand order first player_ids g h i p e r at =
    let begun : IsWithin g = (
      of_Ensures (new_game-one rand order first player_ids) e,
      of_Ensures (new_game-IsLimitedGame rand order first player_ids) e,
    ) in
    IsLimited-player_at i h.players p at (Reach-IsWithin r begun).1
