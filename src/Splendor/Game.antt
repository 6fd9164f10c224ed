-- ===== src/Splendor/Game.antt =====
-- A game of src/Splendor.hpp as a sequence of moves.
use unopp_server.Splendor.Defs.{Mine, Splendor}
use unopp_server.Splendor.Setup.{first_bank, new_game}
use unopp_server.Splendor.SettingUp.{IsSetUp, new_game-IsSetUp}
use unopp_server.Splendor.Moves.{take_3_mines, take_2_mines, reserve_coupon, return_mine}
use unopp_server.Splendor.Buying.{buy_coupon, buy_reserved_coupon}
use unopp_server.Splendor.Replies.{of_Replies}
use unopp_server.Splendor.Supply.{
  supply, Conserves, take_2_mines-Conserves, take_3_mines-Conserves, return_mine-Conserves,
  reserve_coupon-Conserves,
}
use unopp_server.Splendor.Payment.{buy_coupon-Conserves, buy_reserved_coupon-Conserves}
use unopp_server.Prelude.{
  ℕ, ◌≡◌, refl, ◌∙◌, Bool, List, Option, some, length, returns, of_Ensures, Ensures,
}

pub data Move : Type 0 where
  takes_3 : Mine → Mine → Mine → ℕ → Move
  takes_2 returns_mine : Mine → ℕ → Move
  reserves buys buys_reserved : ℕ → ℕ → Move

-- Any of the six moves.
unfoldable pub step : Move → Splendor → Option (Bool × Splendor)
step (takes_3 a b c player) g = some (take_3_mines a b c player g)
step (takes_2 mine player) g = some (take_2_mines mine player g)
step (returns_mine mine player) g = some (return_mine mine player g)
step (reserves coupon_idx player) g = some (reserve_coupon coupon_idx player g)
step (buys coupon_idx player) g = buy_coupon coupon_idx player g
step (buys_reserved coupon_idx player) g = buy_reserved_coupon coupon_idx player g

-- No move makes or loses a mine: of each kind, those of the bank and of all the players together
-- stay as many, whether the move is accepted or refused.
pub supply-step :
    (move : Move) (g g' : Splendor) {ok : Bool}
    → step move g ≡ some (ok, g')
    → (m : Mine) → supply m g' ≡ supply m g
supply-step move g g' {ok} e m = (of_Ensures (conserved move) e).mines m
  where
    conserved : (move : Move) → Ensures (λ r. Conserves g r.1) (step move g)
    conserved (takes_3 a b c player) =
        unfold step in returns (of_Replies (take_3_mines-Conserves a b c player g))
    conserved (takes_2 mine player) =
        unfold step in returns (of_Replies (take_2_mines-Conserves mine player g))
    conserved (returns_mine mine player) =
        unfold step in returns (of_Replies (return_mine-Conserves mine player g))
    conserved (reserves coupon_idx player) =
        unfold step in returns (of_Replies (reserve_coupon-Conserves coupon_idx player g))
    conserved (buys coupon_idx player) = unfold step in buy_coupon-Conserves coupon_idx player g
    conserved (buys_reserved coupon_idx player) =
        unfold step in buy_reserved_coupon-Conserves coupon_idx player g

-- What a game becomes by moves.
pub data Reach (g : Splendor) : Splendor → Type 0 where
  start : Reach g g
  move :
      {h h' : Splendor} (m : Move) {ok : Bool} → Reach g h → step m h ≡ some (ok, h') → Reach g h'

supply-Reach : {g h : Splendor} → Reach g h → (m : Mine) → supply m h ≡ supply m g
supply-Reach start m = refl
supply-Reach (move {h = h} {h' = h'} mv r e) m = supply-step mv h h' e m ∙ supply-Reach r m

-- In every game that began for these players and went on by any moves, accepted or refused, the bank
-- and the players hold together as many mines of each kind as the bank held at first.
pub supply-new_game :
    (rand : ℕ → ℕ → ℕ) (order : List ℕ → List ℕ) (first : ℕ) (player_ids : List ℕ) (g h : Splendor)
    → new_game rand order first player_ids ≡ some g
    → Reach g h
    → (m : Mine) → supply m h ≡ first_bank (length player_ids) m
supply-new_game rand order first player_ids g h e r m =
    let set_up : IsSetUp player_ids g =
      of_Ensures (new_game-IsSetUp rand order first player_ids) e in
    supply-Reach r m ∙ set_up.mines m
