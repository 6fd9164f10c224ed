-- ===== src/Gomoku/Tests.antt =====
-- Gomoku at concrete inputs: a board with five black pieces in a column, and the theorems there.
use unopp_server.Prelude.Int.{pos, negsuc}
use unopp_server.Gomoku.Board.{Board, Piece, black_piece, empty_board, write, piece_eq, no_piece}
use unopp_server.Gomoku.Rules.{Gomoku, new_game, update, not_end}
use unopp_server.Gomoku.Search.{Search, search}
use unopp_server.Gomoku.Restoring.{search-board}
use unopp_server.Gomoku.Fives.{Five, Verdict}
use unopp_server.Gomoku.Update.{IsOver, update-Verdict}
use unopp_server.Gomoku.Turns.{Move, drops, updates, enables, run, Alternates, run-Alternates}
use unopp_server.Prelude.{ℕ, ◌≡◌, refl, true, false, List, [], ◌∷◌}

unfoldable column_of_five : Board
unfolding write
column_of_five =
    write
      (write (write (write (write empty_board 3 7 black_piece) 4 7 black_piece) 5 7 black_piece) 6 7
        black_piece)
      7 7 black_piece

unfoldable won_board : Gomoku
unfolding column_of_five
won_board = record new_game { board = column_of_five }

abbrev idle : Gomoku → Gomoku
idle g = g

won_board_status : won_board.status ≡ not_end
unfolding won_board
won_board_status = refl

won_board_use_ai : won_board.use_ai ≡ false
unfolding won_board
won_board_use_ai = refl

update-Verdict_example :
    Verdict won_board.board (update idle won_board).status
    × ((p : Piece)
        → piece_eq p no_piece ≡ false
        → Five won_board.board p
        → IsOver (update idle won_board).status)
update-Verdict_example = update-Verdict idle won_board won_board_status won_board_use_ai

abbrev always_5 : ℕ → ℕ
always_5 i = 5

abbrev first_calls : List Move
first_calls =
    enables true ∷ drops (pos 7) (pos 7) true ∷ updates ∷ drops (negsuc 0) (pos 3) true ∷ []

run-Alternates_example : Alternates (run always_5 first_calls new_game)
run-Alternates_example = run-Alternates always_5 first_calls

abbrev first_search : Search
first_search = record { board = column_of_five; ai_drop_pos = (0, 0); drawn = 0 }

search-board_example :
    (search always_5 1 true true true (pos 100) first_search).1.board ≡ column_of_five
search-board_example = search-board always_5 1 true true true (pos 100) first_search
