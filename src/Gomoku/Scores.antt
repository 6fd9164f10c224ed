-- ===== src/Gomoku/Scores.antt =====
-- The score of a place in src/Gomoku.hpp: point_score.
use unopp_server.Prelude.Int.{ℤ, pos, negsuc, pos_part, ◌-ℤ◌, ltb_ℤ, leb_ℤ}
use unopp_server.Gomoku.Board.{Piece, no_piece, piece_eq, Board, size}
use unopp_server.Prelude.{
  ℕ, ◌+◌, Bool, true, false, ◌&&◌, ◌||◌, List, [], ◌∷◌, map, if◌then◌else◌, ◌==◌,
}

-- The characters of line_str: 's', 'o', ' ' and 'n'.
pub data Mark : Type 0 where
  own other blank outside : Mark

abbrev pub mark_code : Mark → ℕ
mark_code own = 0
mark_code other = 1
mark_code blank = 2
mark_code outside = 3

abbrev pub cheng5 : List Mark
cheng5 = own ∷ own ∷ own ∷ own ∷ own ∷ []

abbrev pub huo4 : List Mark
huo4 = blank ∷ own ∷ own ∷ own ∷ own ∷ blank ∷ []

abbrev pub chong4 : List (List Mark)
chong4 =
    (blank ∷ own ∷ own ∷ own ∷ own ∷ other ∷ [])
    ∷ (own ∷ blank ∷ own ∷ own ∷ own ∷ [])
    ∷ (own ∷ own ∷ blank ∷ own ∷ own ∷ [])
    ∷ (own ∷ own ∷ own ∷ blank ∷ own ∷ [])
    ∷ (other ∷ own ∷ own ∷ own ∷ own ∷ blank ∷ [])
    ∷ []

abbrev pub lianhuo3 : List (List Mark)
lianhuo3 =
    (blank ∷ own ∷ own ∷ own ∷ blank ∷ blank ∷ [])
    ∷ (blank ∷ blank ∷ own ∷ own ∷ own ∷ blank ∷ [])
    ∷ []

abbrev pub tiaohuo3 : List (List Mark)
tiaohuo3 =
    (blank ∷ own ∷ blank ∷ own ∷ own ∷ blank ∷ [])
    ∷ (blank ∷ own ∷ own ∷ blank ∷ own ∷ blank ∷ [])
    ∷ []

abbrev pub mian3 : List (List Mark)
mian3 =
    (blank ∷ blank ∷ own ∷ own ∷ own ∷ other ∷ [])
    ∷ (blank ∷ own ∷ blank ∷ own ∷ own ∷ other ∷ [])
    ∷ (blank ∷ own ∷ own ∷ blank ∷ own ∷ other ∷ [])
    ∷ (other ∷ own ∷ own ∷ own ∷ blank ∷ blank ∷ [])
    ∷ (other ∷ own ∷ own ∷ blank ∷ own ∷ blank ∷ [])
    ∷ (other ∷ own ∷ blank ∷ own ∷ own ∷ blank ∷ [])
    ∷ (own ∷ own ∷ blank ∷ blank ∷ own ∷ [])
    ∷ (own ∷ blank ∷ blank ∷ own ∷ own ∷ [])
    ∷ (own ∷ blank ∷ own ∷ blank ∷ own ∷ [])
    ∷ (other ∷ blank ∷ own ∷ own ∷ own ∷ blank ∷ other ∷ [])
    ∷ []

abbrev pub huo2 : List (List Mark)
huo2 =
    (blank ∷ blank ∷ blank ∷ own ∷ own ∷ blank ∷ [])
    ∷ (blank ∷ blank ∷ own ∷ own ∷ blank ∷ blank ∷ [])
    ∷ (blank ∷ own ∷ own ∷ blank ∷ blank ∷ blank ∷ [])
    ∷ (blank ∷ blank ∷ own ∷ blank ∷ own ∷ blank ∷ [])
    ∷ (blank ∷ own ∷ blank ∷ own ∷ blank ∷ blank ∷ [])
    ∷ []

abbrev pub mian2 : List (List Mark)
mian2 =
    (blank ∷ blank ∷ blank ∷ own ∷ own ∷ other ∷ [])
    ∷ (blank ∷ blank ∷ own ∷ blank ∷ own ∷ other ∷ [])
    ∷ (blank ∷ own ∷ blank ∷ blank ∷ own ∷ other ∷ [])
    ∷ (own ∷ blank ∷ blank ∷ blank ∷ own ∷ [])
    ∷ (other ∷ own ∷ own ∷ blank ∷ blank ∷ blank ∷ [])
    ∷ (other ∷ own ∷ blank ∷ own ∷ blank ∷ blank ∷ [])
    ∷ (other ∷ own ∷ blank ∷ blank ∷ own ∷ blank ∷ [])
    ∷ (other ∷ blank ∷ blank ∷ own ∷ own ∷ blank ∷ other ∷ [])
    ∷ (other ∷ blank ∷ own ∷ own ∷ blank ∷ blank ∷ other ∷ [])
    ∷ (other ∷ blank ∷ own ∷ blank ∷ own ∷ blank ∷ other ∷ [])
    ∷ []

-- The points x and y of the four lines.
abbrev pub lines : List (List (ℤ × ℤ))
lines =
    ((negsuc 3, pos 0)
      ∷ (negsuc 2, pos 0)
      ∷ (negsuc 1, pos 0)
      ∷ (negsuc 0, pos 0)
      ∷ (pos 0, pos 0)
      ∷ (pos 1, pos 0)
      ∷ (pos 2, pos 0)
      ∷ (pos 3, pos 0)
      ∷ (pos 4, pos 0)
      ∷ [])
    ∷ ((pos 0, negsuc 3)
        ∷ (pos 0, negsuc 2)
        ∷ (pos 0, negsuc 1)
        ∷ (pos 0, negsuc 0)
        ∷ (pos 0, pos 0)
        ∷ (pos 0, pos 1)
        ∷ (pos 0, pos 2)
        ∷ (pos 0, pos 3)
        ∷ (pos 0, pos 4)
        ∷ [])
    ∷ ((negsuc 3, negsuc 3)
        ∷ (negsuc 2, negsuc 2)
        ∷ (negsuc 1, negsuc 1)
        ∷ (negsuc 0, negsuc 0)
        ∷ (pos 0, pos 0)
        ∷ (pos 1, pos 1)
        ∷ (pos 2, pos 2)
        ∷ (pos 3, pos 3)
        ∷ (pos 4, pos 4)
        ∷ [])
    ∷ ((negsuc 3, pos 4)
        ∷ (negsuc 2, pos 3)
        ∷ (negsuc 1, pos 2)
        ∷ (negsuc 0, pos 1)
        ∷ (pos 0, pos 0)
        ∷ (pos 1, negsuc 0)
        ∷ (pos 2, negsuc 1)
        ∷ (pos 3, negsuc 2)
        ∷ (pos 4, negsuc 3)
        ∷ [])
    ∷ []

-- The character for a point of a line through (i, j).
unfoldable pub mark_at : Board → ℕ → ℕ → Piece → ℤ × ℤ → Mark
mark_at b i j side (px, py) =
    let x = pos j -ℤ px in
    let y = pos i -ℤ py in
    let there = b (pos_part y) (pos_part x) in
    if ltb_ℤ x (pos 0) || (leb_ℤ (pos size) x || (ltb_ℤ y (pos 0) || leb_ℤ (pos size) y))
    then outside
    else if piece_eq there side
    then own
    else if piece_eq there no_piece
    then blank
    else other

-- std::string::find, as to whether there is an occurrence.
unfoldable pub is_prefix : List Mark → List Mark → Bool
is_prefix [] ms = true
is_prefix (p ∷ ps) [] = false
is_prefix (p ∷ ps) (m ∷ ms) = (mark_code p == mark_code m) && is_prefix ps ms

unfoldable pub contains : List Mark → List Mark → Bool
unfolding is_prefix
contains pattern [] = is_prefix pattern []
contains pattern (m ∷ ms) = is_prefix pattern (m ∷ ms) || contains pattern ms

-- The loop over the patterns of one kind, left at the first that occurs.
unfoldable pub contains_any : List (List Mark) → List Mark → Bool
unfolding contains
contains_any [] line_str = false
contains_any (pattern ∷ rest) line_str = contains pattern line_str || contains_any rest line_str

abbrev pub points_if : Bool → ℕ → ℕ
points_if true points = points
points_if false points = 0

unfoldable pub line_score : List Mark → ℕ
unfolding contains_any
line_score line_str =
    points_if (contains cheng5 line_str) 5000000
    + (points_if (contains huo4 line_str) 100000
        + (points_if (contains_any chong4 line_str) 16000
            + (points_if (contains_any lianhuo3 line_str) 8000
                + (points_if (contains_any tiaohuo3 line_str) 2000
                    + (points_if (contains_any mian3 line_str) 300
                        + (points_if (contains_any huo2 line_str) 20
                            + points_if (contains_any mian2 line_str) 2))))))

-- The sum over the lines.
unfoldable pub lines_score : Board → ℕ → ℕ → Piece → List (List (ℤ × ℤ)) → ℕ
unfolding mark_at line_score
lines_score b i j side [] = 0
lines_score b i j side (l ∷ ls) =
    line_score (map (mark_at b i j side) l) + lines_score b i j side ls

unfoldable pub point_score : Board → ℕ → ℕ → Piece → ℕ
unfolding lines_score
point_score b i j side = 1 + lines_score b i j side lines
