-- ===== src/Gomoku/Rules.antt =====
-- The class Gomoku of src/Gomoku.hpp without the computer player: the state, drop, update and clear.
use unopp_server.Prelude.Int.{ℤ, pos, negsuc, pos_part, ltb_ℤ, leb_ℤ}
use unopp_server.Gomoku.Board.{
  Piece, white_piece, black_piece, no_piece, piece_eq, Board, size, empty_board, write, places,
}
use unopp_server.Prelude.{
  ℕ, ◌+◌, Bool, true, false, not, ◌&&◌, ◌||◌, List, [], ◌∷◌, if◌then◌else◌, ◌==◌,
}

pub data Status : Type 0 where
  black_win white_win tied not_end : Status

abbrev pub status_code : Status → ℕ
status_code black_win = 0
status_code white_win = 1
status_code tied = 2
status_code not_end = 3

-- `last_drop` is the point's x and y, `ai_drop_pos` the row and the column, and `drawn` how often mt()
-- was called.
pub record Gomoku : Type 0 where
  pub board : Board
  pub current_is_black : Bool
  pub last_drop : ℤ × ℤ
  pub use_ai : Bool
  pub is_ai_thinking : Bool
  pub status : Status
  pub ai_drop_pos : ℕ × ℕ
  pub drawn : ℕ

-- The constructor.
abbrev pub new_game : Gomoku
new_game = record {
  board = empty_board;
  current_is_black = true;
  last_drop = (negsuc 0, negsuc 0);
  use_ai = false;
  is_ai_thinking = false;
  status = not_end;
  ai_drop_pos = (0, 0);
  drawn = 0;
}

abbrev pub bool_eq : Bool → Bool → Bool
bool_eq true b = b
bool_eq false b = not b

unfoldable pub is_outside : ℤ → ℤ → Bool
is_outside i j = ltb_ℤ i (pos 0) || (leb_ℤ (pos size) i || (ltb_ℤ j (pos 0) || leb_ℤ (pos size) j))

-- The piece of the one whose turn it is.
abbrev pub own_piece : Bool → Piece
own_piece true = black_piece
own_piece false = white_piece

unfoldable pub may_drop : ℤ → ℤ → Bool → Gomoku → Bool
may_drop i j is_black g =
    not (is_black && g.is_ai_thinking)
    && (bool_eq is_black g.current_is_black
        && (not (is_outside i j)
            && (piece_eq (g.board (pos_part i) (pos_part j)) no_piece
                && (status_code g.status == status_code not_end))))

-- drop, with the value that it returns.
unfoldable pub drop : ℤ → ℤ → Bool → Gomoku → Bool × Gomoku
unfolding may_drop write
drop i j is_black g =
    if may_drop i j is_black g
    then (
      true,
      record g {
        board = write g.board (pos_part i) (pos_part j) (own_piece g.current_is_black);
        current_is_black = not g.current_is_black;
        last_drop = (j, i);
      },
    )
    else (false, g)

-- board[i][j] != NONE && equal(...) for five places in a row.
unfoldable pub same_five : Piece → Piece → Piece → Piece → Piece → Bool
same_five a b c d e =
    not (piece_eq a no_piece) && (piece_eq a b && (piece_eq b c && (piece_eq c d && piece_eq d e)))

abbrev pub winner_of : Piece → Status
winner_of white_piece = white_win
winner_of _ = black_win

-- A round of update's loops at (i, j): the status after it.
unfoldable pub row_round : Board → ℕ × ℕ → Status → Status
row_round b (i, j) s =
    if same_five (b i j) (b i (j + 1)) (b i (j + 2)) (b i (j + 3)) (b i (j + 4))
    then winner_of (b i j)
    else s

unfoldable pub column_round : Board → ℕ × ℕ → Status → Status
column_round b (i, j) s =
    if same_five (b j i) (b (j + 1) i) (b (j + 2) i) (b (j + 3) i) (b (j + 4) i)
    then winner_of (b j i)
    else s

unfoldable pub diagonal_round : Board → ℕ × ℕ → Status → Status
diagonal_round b (i, j) s =
    if same_five (b i j) (b (i + 1) (j + 1)) (b (i + 2) (j + 2)) (b (i + 3) (j + 3))
        (b (i + 4) (j + 4))
      || same_five (b (i + 4) j) (b (i + 3) (j + 1)) (b (i + 2) (j + 2)) (b (i + 1) (j + 3))
          (b i (j + 4))
    then winner_of (b (i + 2) (j + 2))
    else s

unfoldable pub rounds : (ℕ × ℕ → Status → Status) → List (ℕ × ℕ) → Status → Status
rounds round [] s = s
rounds round (at ∷ rest) s = rounds round rest (round at s)

-- The three loops of update.
unfoldable pub judge : Board → Status → Status
unfolding rounds row_round column_round diagonal_round
judge b s =
    let after_rows = rounds (row_round b) (places size 11) s in
    let after_columns = rounds (column_round b) (places size 11) after_rows in
    rounds (diagonal_round b) (places 11 11) after_columns

-- update, with the computer player's move as an argument.
unfoldable pub update : (Gomoku → Gomoku) → Gomoku → Gomoku
update ai_drop g =
    let judged = record g { status = judge g.board g.status } in
    if not (status_code g.status == status_code not_end)
    then g
    else if (status_code judged.status == status_code not_end)
        && (not judged.current_is_black && judged.use_ai)
    then ai_drop judged
    else judged

unfoldable pub clear : Gomoku → Gomoku
clear g = record g {
  board = empty_board;
  current_is_black = true;
  status = not_end;
  is_ai_thinking = false;
  last_drop = (negsuc 0, negsuc 0);
}

unfoldable pub enable_ai : Bool → Gomoku → Gomoku
enable_ai enable g = record g { use_ai = enable }
