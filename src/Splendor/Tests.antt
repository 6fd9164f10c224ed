-- ===== src/Splendor/Tests.antt =====
-- Splendor at concrete inputs: a game of two that begins and goes on, and the theorems there.
use unopp_server.Prelude.Int.{◌≤ℤ◌, pos, ◌+ℤ◌}
use unopp_server.Splendor.Defs.{
  copper, no_counts, Splendor, Player, new_player, nothing, mine_eq, find_player, player_at,
  total_mine_count, add_to, pass_turn, following,
}
use unopp_server.Splendor.Moves.{take_2_mines, turn_of, finish}
use unopp_server.Splendor.Setup.{new_game, first_bank}
use unopp_server.Splendor.Supply.{supply}
use unopp_server.Splendor.Turns.{turn_count}
use unopp_server.Splendor.Limit.{is_over, is_returning}
use unopp_server.Splendor.TenMines.{is_over-new_game}
use unopp_server.Splendor.Solvency.{covered-new_game}
use unopp_server.Splendor.OneTurn.{turn_count-new_game}
use unopp_server.Splendor.SettingUp.{IsSetUp, new_game-IsSetUp, new_game-begins}
use unopp_server.Splendor.Game.{takes_2, step, Reach, start, move, supply-new_game}
use unopp_server.Prelude.{ℕ, ◌≡◌, refl, List, [], ◌∷◌, Option, some, none, arith, Defined, Ensures}

-- A game of two that begins, and the first move in it.
abbrev always_5 : ℕ → ℕ → ℕ
always_5 loop i = 5

abbrev as_given : List ℕ → List ℕ
as_given ids = ids

abbrev pair_of_ids : List ℕ
pair_of_ids = 21 ∷ 22 ∷ []

new_game-begins_example : Defined (new_game always_5 as_given 1 pair_of_ids)
new_game-begins_example =
    new_game-begins always_5 as_given 1 pair_of_ids (omega arith) (omega arith)

new_game-IsSetUp_example : Ensures (IsSetUp pair_of_ids) (new_game always_5 as_given 1 pair_of_ids)
new_game-IsSetUp_example = new_game-IsSetUp always_5 as_given 1 pair_of_ids

unfoldable begun : Splendor
begun = (new_game-begins always_5 as_given 1 pair_of_ids (omega arith) (omega arith)).0

begun_lem : new_game always_5 as_given 1 pair_of_ids ≡ some begun
unfolding begun
begun_lem = (new_game-begins always_5 as_given 1 pair_of_ids (omega arith) (omega arith)).1

unfoldable moved : Splendor
moved = (take_2_mines copper 22 begun).1

moved_lem : step (takes_2 copper 22) begun ≡ some (take_2_mines copper 22 begun)
unfolding step
moved_lem = refl

moved-Reach : Reach begun moved
unfolding moved
moved-Reach = move (takes_2 copper 22) start moved_lem

supply-new_game_example : supply copper moved ≡ first_bank 2 copper
supply-new_game_example =
    supply-new_game always_5 as_given 1 pair_of_ids begun moved begun_lem moved-Reach copper

turn_count-new_game_example : turn_count moved.players ≡ 1
turn_count-new_game_example =
    turn_count-new_game always_5 as_given 1 pair_of_ids begun moved begun_lem moved-Reach

abbrev or_new : Option Player → Player
or_new none = new_player
or_new (some p) = p

abbrev nobody : Splendor
nobody = record {
  bank = no_counts;
  coupons = [];
  coupons_rest = [];
  allies = [];
  players = [];
  last_action = nothing;
  ally_actions = [];
}

abbrev or_nobody : Option Splendor → Splendor
or_nobody none = nobody
or_nobody (some g) = g

unfoldable opened : Splendor
opened = or_nobody (new_game always_5 as_given 1 pair_of_ids)

opened_lem : new_game always_5 as_given 1 pair_of_ids ≡ some opened
unfolding opened new_game
opened_lem = refl

unfoldable after_two : Splendor
after_two = (take_2_mines copper 22 opened).1

after_two-Reach : Reach opened after_two
unfolding after_two step
after_two-Reach = move (takes_2 copper 22) start refl

-- Player 22, who has taken two mines.
unfoldable taker : Player
taker = or_new (player_at 1 after_two.players)

taker_lem : player_at 1 after_two.players ≡ some taker
unfolding taker after_two opened new_game take_2_mines player_at turn_of find_player mine_eq finish
    total_mine_count ◌+ℤ◌ add_to pass_turn following
taker_lem = refl

is_over-new_game_example : is_over taker ≡ is_returning taker
is_over-new_game_example =
    is_over-new_game always_5 as_given 1 pair_of_ids opened after_two 1 taker opened_lem
      after_two-Reach taker_lem

covered-new_game_example : (pos 0 ≤ℤ after_two.bank copper) × (pos 0 ≤ℤ taker.mine_count copper)
covered-new_game_example =
    covered-new_game always_5 as_given 1 pair_of_ids opened after_two 1 taker copper opened_lem
      after_two-Reach taker_lem
