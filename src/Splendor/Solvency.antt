-- ===== src/Splendor/Solvency.antt =====
-- In a game of src/Splendor.hpp nobody owes mines: neither the bank nor a player.
use unopp_server.Prelude.Int.{pos, ◌≤ℤ◌}
use unopp_server.Splendor.Defs.{
  Mine, write, Player, new_player, action, Splendor, player_at, with_status,
}
use unopp_server.Splendor.Setup.{first_bank, new_game, choose_allies, seat}
use unopp_server.Splendor.Tables.{all_allies}
use unopp_server.Splendor.Game.{
  Move, takes_3, takes_2, returns_mine, reserves, buys, buys_reserved, step, Reach, start, move,
}
use unopp_server.Splendor.Replies.{of_Replies}
use unopp_server.Splendor.Covered.{IsCovered}
use unopp_server.Splendor.Solvent.{AreCovered, IsSolvent, AreCovered-modify, AreCovered-player_at}
use unopp_server.Splendor.CoverMoves.{
  take_3_mines-IsSolvent, take_2_mines-IsSolvent, return_mine-IsSolvent, reserve_coupon-IsSolvent,
  buy_coupon-IsSolvent, buy_reserved_coupon-IsSolvent,
}
use unopp_server.Prelude.{
  ℕ, ◌+◌, ◌%◌, ◌≡◌, List, [], ◌∷◌, map, some, arith, length, fails, returns, Ensures, Ensures->>=,
  Ensures-bind, of_Ensures,
}

step-IsSolvent : (m : Move) (g : Splendor) → IsSolvent g → Ensures (λ r. IsSolvent r.1) (step m g)
unfolding step
step-IsSolvent (takes_3 a b c player) g h =
    returns (of_Replies (take_3_mines-IsSolvent a b c player g h))
step-IsSolvent (takes_2 mine player) g h =
    returns (of_Replies (take_2_mines-IsSolvent mine player g h))
step-IsSolvent (returns_mine mine player) g h =
    returns (of_Replies (return_mine-IsSolvent mine player g h))
step-IsSolvent (reserves coupon_idx player) g h =
    returns (of_Replies (reserve_coupon-IsSolvent coupon_idx player g h))
step-IsSolvent (buys coupon_idx player) g h = buy_coupon-IsSolvent coupon_idx player g h
step-IsSolvent (buys_reserved coupon_idx player) g h =
    buy_reserved_coupon-IsSolvent coupon_idx player g h

Reach-IsSolvent : {g h : Splendor} → Reach g h → IsSolvent g → IsSolvent h
Reach-IsSolvent start solvent = solvent
Reach-IsSolvent (move {h = h} m r e) solvent =
    of_Ensures (step-IsSolvent m h (Reach-IsSolvent r solvent)) e

first_bank-IsCovered : (n : ℕ) → IsCovered (first_bank n)
unfolding first_bank write
first_bank-IsCovered n m = ground arith

AreCovered-new :
    (ids : List ℕ)
    → let seats : List (ℕ × Player) = map (λ i. (i, new_player)) ids in AreCovered seats
AreCovered-new [] = tt
AreCovered-new (id ∷ ids) = ((λ m. omega arith), AreCovered-new ids)

seat-AreCovered : (first : ℕ) (ids : List ℕ) → Ensures AreCovered (seat first ids)
unfolding seat
seat-AreCovered first [] = fails
seat-AreCovered first (id ∷ ids) =
    let players : List (ℕ × Player) = map (λ i. (i, new_player)) (id ∷ ids) in
    returns (
      AreCovered-modify (with_status action) (λ p own. own) (first % length players) players
        (AreCovered-new (id ∷ ids)))

new_game-IsSolvent :
    (rand : ℕ → ℕ → ℕ) (order : List ℕ → List ℕ) (first : ℕ) (player_ids : List ℕ)
    → Ensures IsSolvent (new_game rand order first player_ids)
unfolding new_game
new_game-IsSolvent rand order first player_ids =
    Ensures->>= (seat-AreCovered first (order player_ids)) λ players covered.
      Ensures-bind (choose_allies (rand 0) 9 (length player_ids + 1) all_allies) λ allies e.
        returns (record { bank = first_bank-IsCovered (length player_ids); players = covered })

-- In every game that began for these players and went on by any moves, accepted or refused, no count
-- of mines, of the bank or of a player, is below 0.
pub covered-new_game :
    (rand : ℕ → ℕ → ℕ) (order : List ℕ → List ℕ) (first : ℕ) (player_ids : List ℕ) (g h : Splendor)
    (i : ℕ) (p : Player) (m : Mine)
    → new_game rand order first player_ids ≡ some g
    → Reach g h
    → player_at i h.players ≡ some p
    → (pos 0 ≤ℤ h.bank m) × (pos 0 ≤ℤ p.mine_count m)
covered-new_game rand order first player_ids g h i p m e r at =
    let solvent =
      Reach-IsSolvent r (of_Ensures (new_game-IsSolvent rand order first player_ids) e) in
    (solvent.bank m, AreCovered-player_at i h.players p at solvent.players m)
