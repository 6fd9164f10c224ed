-- ===== src/Gomoku/Search.antt =====
-- The computer player of src/Gomoku.hpp: situation, is_nearby, search_max and search_min, AIDrop.
-- `draws` is what mt() returns, by the number of calls before.
use unopp_server.Prelude.Int.{ℤ, pos, negsuc, ◌+ℤ◌, ◌-ℤ◌, ltb_ℤ, leb_ℤ}
use unopp_server.Gomoku.Board.{
  Piece, white_piece, black_piece, no_piece, piece_eq, Board, size, write, places,
}
use unopp_server.Gomoku.Scores.{point_score}
use unopp_server.Gomoku.Rules.{Gomoku, drop}
use unopp_server.Prelude.{
  ℕ, zero, suc, ◌+◌, ◌-◌, ◌%◌, ◌^◌, Bool, true, false, not, ◌&&◌, ◌||◌, List, [], ◌∷◌, ltb,
  if◌then◌else◌,
}

-- What the search changes: the board, ai_drop_pos (its row and its column) and the engine.
pub record Search : Type 0 where
  pub board : Board
  pub ai_drop_pos : ℕ × ℕ
  pub drawn : ℕ

-- map[to_black]
abbrev pub map_piece : Bool → Piece
map_piece false = black_piece
map_piece true = white_piece

-- The scores of the places that hold this piece.
unfoldable pub side_score : Board → Piece → List (ℕ × ℕ) → ℕ
side_score b side [] = 0
side_score b side ((i, j) ∷ rest) =
    (if piece_eq (b i j) side then point_score b i j side else 0) + side_score b side rest

unfoldable pub situation : (ℕ → ℕ) → Bool → Search → ℤ × Search
unfolding side_score
situation draws to_black s =
    let score = λ (side : Piece). pos (side_score s.board side (places size size)) in
    (
      score (map_piece to_black) -ℤ score (map_piece (not to_black)) +ℤ pos (draws s.drawn % 8),
      record s { drawn = s.drawn + 1 },
    )

-- The loops of is_nearby over di + 1 and dj + 1.
unfoldable pub any_nearby : Board → ℕ → ℕ → List (ℕ × ℕ) → Bool
any_nearby b i j [] = false
any_nearby b i j ((di, dj) ∷ rest) =
    (ltb 0 (i + di)
      && (ltb (i + di) (size + 1) && (ltb 0 (j + dj) && ltb (j + dj) (size + 1)))
      && not (piece_eq (b (i + di - 1) (j + dj - 1)) no_piece))
    || any_nearby b i j rest

unfoldable pub is_nearby : Board → ℕ → ℕ → Bool
unfolding any_nearby
is_nearby b i j = any_nearby b i j (places 3 3)

-- Is the score better than the best so far, and does it end the loops?
abbrev pub better : Bool → ℤ → ℤ → Bool
better true score best = ltb_ℤ best score
better false score best = ltb_ℤ score best

abbrev pub cuts : Bool → ℤ → ℤ → Bool
cuts true best bound = leb_ℤ bound best
cuts false best bound = leb_ℤ best bound

-- The loops of search_max (`maximal`) and search_min from a place on. `child` scores a board with the
-- piece put, given the best score so far; `top` is depth == 0 in search_max.
unfoldable pub visit :
    (ℤ → Search → ℤ × Search) → Bool → Bool → Piece → ℤ → List (ℕ × ℕ) → ℤ → Search → ℤ × Search
unfolding is_nearby write
visit child maximal top side bound [] best s = (best, s)
visit child maximal top side bound ((i, j) ∷ rest) best s =
    let put = record s { board = write s.board i j side } in
    let (score, below) = child best put in
    let back = record below { board = write below.board i j no_piece } in
    let chosen = if top then record back { ai_drop_pos = (i, j) } else back in
    let skip = visit child maximal top side bound rest best s in
    let worse = visit child maximal top side bound rest best back in
    let go_on = visit child maximal top side bound rest score chosen in
    if not (piece_eq (s.board i j) no_piece && is_nearby s.board i j)
    then skip
    else if not (better maximal score best)
    then worse
    else if cuts maximal score bound
    then (score, chosen)
    else go_on

-- INT_MIN and INT_MAX
abbrev pub worst : Bool → ℤ
worst true = negsuc (2 ^ 31 - 1)
worst false = pos (2 ^ 31 - 1)

-- search_max (`maximal`) and search_min with this many levels to go before max_search_depth. A leaf
-- is scored by situation(WHITE_PIECE), whose argument is a character that is not 0.
unfoldable pub search : (ℕ → ℕ) → ℕ → Bool → Bool → Bool → ℤ → Search → ℤ × Search
unfolding visit situation
search draws zero maximal top to_black bound s =
    visit (λ best t. situation draws true t) maximal top (map_piece to_black) bound
      (places size size) (worst maximal) s
search draws (suc levels) maximal top to_black bound s =
    visit (λ best t. search draws levels (not maximal) false (not to_black) best t) maximal top
      (map_piece to_black) bound (places size size) (worst maximal) s

-- AIDrop; max_search_depth is 1.
unfoldable pub ai_drop : (ℕ → ℕ) → Gomoku → Gomoku
unfolding search
ai_drop draws g =
    let begin : Search = record { board = g.board; ai_drop_pos = g.ai_drop_pos; drawn = g.drawn } in
    let (score, found) = search draws 1 true true true (pos (2 ^ 31 - 1)) begin in
    let (i, j) = found.ai_drop_pos in
    let thinking = record g {
      board = found.board;
      ai_drop_pos = (i, j);
      drawn = found.drawn;
      is_ai_thinking = true;
    } in
    let (ok, dropped) = drop (pos i) (pos j) false thinking in
    record dropped { is_ai_thinking = false }
