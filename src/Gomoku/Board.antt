-- ===== src/Gomoku/Board.antt =====
-- The board of src/Gomoku.hpp: an array of 15 rows of 15 places, read and written inside only, as a
-- function of the row and the column.
use unopp_server.Prelude.{ℕ, zero, suc, Bool, ◌&&◌, List, [], ◌∷◌, ◌++◌, if◌then◌else◌, ◌==◌}

-- 'w', 'b' and 'n'.
pub data Piece : Type 0 where
  white_piece black_piece no_piece : Piece

abbrev pub piece_code : Piece → ℕ
piece_code white_piece = 0
piece_code black_piece = 1
piece_code no_piece = 2

abbrev pub piece_eq : Piece → Piece → Bool
piece_eq p q = piece_code p == piece_code q

abbrev pub Board : Type 0
Board = ℕ → ℕ → Piece

abbrev pub size : ℕ
size = 15

abbrev pub empty_board : Board
empty_board i j = no_piece

-- board[i][j] = p
unfoldable pub write : Board → ℕ → ℕ → Piece → Board
write b i j p x y = if i == x && j == y then p else b x y

-- 0, 1 and so on, n numbers.
abbrev pub from : ℕ → ℕ → List ℕ
from i zero = []
from i (suc n) = i ∷ from (suc i) n

abbrev pub row_of : ℕ → List ℕ → List (ℕ × ℕ)
row_of i [] = []
row_of i (j ∷ js) = (i, j) ∷ row_of i js

abbrev pub pairs : List ℕ → List ℕ → List (ℕ × ℕ)
pairs [] js = []
pairs (i ∷ is) js = row_of i js ++ pairs is js

-- for (int i = 0; i < m; ++i) for (int j = 0; j < n; ++j)
abbrev pub places : ℕ → ℕ → List (ℕ × ℕ)
places m n = pairs (from 0 m) (from 0 n)
