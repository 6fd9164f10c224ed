-- ===== src/Gomoku/Turns.antt =====
-- The pieces and the turns of src/Gomoku.hpp.
use unopp_server.Prelude.Int.{ℤ, pos, negsuc, pos_part, ltb_ℤ, leb_ℤ}
use unopp_server.Gomoku.Board.{
  Piece, white_piece, black_piece, no_piece, piece_eq, Board, size, empty_board, write,
}
use unopp_server.Gomoku.Rules.{
  Gomoku, new_game, is_outside, own_piece, may_drop, drop, update, clear, enable_ai, judge,
  status_code, not_end,
}
use unopp_server.Gomoku.Search.{Search, search, ai_drop}
use unopp_server.Gomoku.Restoring.{of_no_piece, search-board}
use native.Mathlib.Decide.{ℕ_discrete}
use unopp_server.Prelude.{
  ℕ, zero, suc, ◌+◌, ◌-◌, ◌^◌, ◌≤◌, ◌<◌, ◌≡◌, ◌≢◌, refl, sym, ap, ◌∙◌, Bool, true, false, List, [],
  ◌∷◌, not, ◌&&◌, inl, inr, arith, if◌then◌else◌, ◌==◌, Bool-cases, ==_iff, and-left, and-right,
  or-left, or-right, of_not,
}

abbrev pub sum_below : ℕ → (ℕ → ℕ) → ℕ
sum_below zero f = 0
sum_below (suc n) f = f n + sum_below n f

sum_below-same :
    (n k : ℕ) (f g : ℕ → ℕ) → ((x : ℕ) → x ≢ k → f x ≡ g x) → n ≤ k → sum_below n f ≡ sum_below n g
sum_below-same zero k f g h l = refl
sum_below-same (suc n) k f g h l =
    omega (arith, h n (omega arith), sum_below-same n k f g h (omega arith))

sum_below-all : (n : ℕ) {f g : ℕ → ℕ} → ((x : ℕ) → f x ≡ g x) → sum_below n f ≡ sum_below n g
sum_below-all zero h = refl
sum_below-all (suc n) h = omega (arith, h n, sum_below-all n h)

-- A sum where one term changes.
sum_below-change :
    (n k : ℕ) (f g : ℕ → ℕ)
    → ((x : ℕ) → x ≢ k → f x ≡ g x)
    → k < n
    → sum_below n g + f k ≡ sum_below n f + g k
sum_below-change zero k f g h l = elim l [ ]
sum_below-change (suc n) k f g h l = elim (ℕ_discrete n k) [
  | yes e ↦ rw e (omega (arith, sum_below-same k k f g h (omega arith)))
  | no ne ↦ omega (arith, h n ne, sum_below-change n k f g h (omega arith))
]

abbrev is_piece : Piece → Piece → ℕ
is_piece p q = if piece_eq q p then 1 else 0

abbrev row_count : Piece → Board → ℕ → ℕ
row_count p b i = sum_below size (λ j. is_piece p (b i j))

-- How many of these pieces lie on the board.
abbrev pub count : Piece → Board → ℕ
count p b = sum_below size (row_count p b)

write_same : (b : Board) (i j : ℕ) (p : Piece) → write b i j p i j ≡ p
unfolding write
write_same b i j p = rw ((==_iff i i).1 refl, (==_iff j j).1 refl) refl

write_row : (b : Board) (i j x y : ℕ) (p : Piece) → x ≢ i → write b i j p x y ≡ b x y
unfolding write
write_row b i j x y p h = elim (Bool-cases (i == x)) [
  | inl e ↦ absurd (h (sym ((==_iff i x).0 e)))
  | inr e ↦ rw e refl
]

write_column : (b : Board) (i j y : ℕ) (p : Piece) → y ≢ j → write b i j p i y ≡ b i y
unfolding write
write_column b i j y p h = elim (Bool-cases (j == y)) [
  | inl e ↦ absurd (h (sym ((==_iff j y).0 e)))
  | inr e ↦ rw ((==_iff i i).1 refl, e) refl
]

two_changes : (a a' r r' x y z : ℕ) → a' + r ≡ a + r' → r' + x ≡ r + y → y ≡ z → a' + x ≡ a + z
two_changes a a' r r' x y z h k e = omega arith

count-write :
    (q : Piece) (b : Board) (i j : ℕ) (p : Piece)
    → i < size
    → j < size
    → count q (write b i j p) + is_piece q (b i j) ≡ count q b + is_piece q p
count-write q b i j p hi hj =
    let rows =
      sum_below-change size i (row_count q b) (row_count q (write b i j p))
        (λ x ne. sum_below-all size (λ y. ap (is_piece q) (sym (write_row b i j x y p ne)))) hi in
    let columns =
      sum_below-change size j (λ y. is_piece q (b i y)) (λ y. is_piece q (write b i j p i y))
        (λ y ne. ap (is_piece q) (sym (write_column b i j y p ne))) hj in
    let there : is_piece q (write b i j p i j) ≡ is_piece q p =
      ap (is_piece q) (write_same b i j p) in
    let after = write b i j p in
    two_changes (count q b) (count q after) (row_count q b i) (row_count q after i)
      (is_piece q (b i j)) (is_piece q (after i j)) (is_piece q p) rows columns there

-- Black began, and the two alternate.
abbrev pub Alternates : Gomoku → Type 0
Alternates g =
    count black_piece g.board ≡ count white_piece g.board + (if g.current_is_black then 0 else 1)

inside : (i : ℤ) → ltb_ℤ i (pos 0) ≡ false → leb_ℤ (pos size) i ≡ false → pos_part i < size
inside (pos n) h k = ground arith
inside (negsuc n) h k = omega arith

-- What the tests of drop have found.
record Free (i j : ℤ) (is_black : Bool) (g : Gomoku) : Type 0 where
  row : pos_part i < size
  column : pos_part j < size
  empty : g.board (pos_part i) (pos_part j) ≡ no_piece

may_drop-Free :
    (i j : ℤ) (is_black : Bool) (g : Gomoku) → may_drop i j is_black g ≡ true → Free i j is_black g
unfolding may_drop is_outside
may_drop-Free i j is_black g h =
    let h1 = and-right _ _ (and-right _ _ h) in
    let out = of_not _ (and-left _ _ h1) in
    let out1 = or-right _ _ out in
    let out2 = or-right _ _ out1 in
    record {
      row = inside i (or-left _ _ out) (or-left _ _ out1);
      column = inside j (or-left _ _ out2) (or-right _ _ out2);
      empty = of_no_piece _ (and-left _ _ (and-right _ _ h1));
    }

plus : (a x b : ℕ) → x ≡ 0 → a + x ≡ b → a + 0 ≡ b
plus a x b e h = omega arith

alternated :
    (black white black' white' : ℕ) (current : Bool)
    → black ≡ white + (if current then 0 else 1)
    → black' + 0 ≡ black + is_piece black_piece (own_piece current)
    → white' + 0 ≡ white + is_piece white_piece (own_piece current)
    → black' ≡ white' + (if not current then 0 else 1)
alternated black white black' white' true h k l = omega arith
alternated black white black' white' false h k l = omega arith

pub drop-Alternates :
    (i j : ℤ) (is_black : Bool) (g : Gomoku) → Alternates g → Alternates (drop i j is_black g).1
unfolding drop
drop-Alternates i j is_black g h = elim (Bool-cases (may_drop i j is_black g)) [
  | inr e ↦ rw e h
  | inl e ↦
      let free = may_drop-Free i j is_black g e in
      let own = own_piece g.current_is_black in
      let after = write g.board (pos_part i) (pos_part j) own in
      let written =
        λ (q : Piece). count-write q g.board (pos_part i) (pos_part j) own free.row free.column in
      let none_black : is_piece black_piece (g.board (pos_part i) (pos_part j)) ≡ 0 =
        ap (is_piece black_piece) free.empty in
      let none_white : is_piece white_piece (g.board (pos_part i) (pos_part j)) ≡ 0 =
        ap (is_piece white_piece) free.empty in
      rw e (
        alternated (count black_piece g.board) (count white_piece g.board) (count black_piece after)
          (count white_piece after) g.current_is_black h
          (plus (count black_piece after) _ _ none_black (written black_piece))
          (plus (count white_piece after) _ _ none_white (written white_piece)))
]

-- The move of the computer player.
pub ai_drop-Alternates : (draws : ℕ → ℕ) (g : Gomoku) → Alternates g → Alternates (ai_drop draws g)
unfolding ai_drop
ai_drop-Alternates draws g h =
    let begin : Search = record { board = g.board; ai_drop_pos = g.ai_drop_pos; drawn = g.drawn } in
    let found = search draws 1 true true true (pos (2 ^ 31 - 1)) begin in
    let same : found.1.board ≡ g.board =
      search-board draws 1 true true true (pos (2 ^ 31 - 1)) begin in
    let thinking : Gomoku = record g {
      board = found.1.board;
      ai_drop_pos = found.1.ai_drop_pos;
      drawn = found.1.drawn;
      is_ai_thinking = true;
    } in
    drop-Alternates (pos found.1.ai_drop_pos.0) (pos found.1.ai_drop_pos.1) false thinking (
      ap (count black_piece) same
      ∙ h
      ∙ sym (ap (λ b. count white_piece b + (if g.current_is_black then 0 else 1)) same))

update-Alternates :
    (draws : ℕ → ℕ) (g : Gomoku) → Alternates g → Alternates (update (ai_drop draws) g)
unfolding update
update-Alternates draws g h =
    let judged : Gomoku = record g { status = judge g.board g.status } in
    let plays =
      (status_code judged.status == status_code not_end)
      && (not judged.current_is_black && judged.use_ai) in
    elim (Bool-cases (not (status_code g.status == status_code not_end))) [
      | inl e ↦ rw e h
      | inr e ↦ elim (Bool-cases plays) [
        | inl f ↦ rw (e, f) (ai_drop-Alternates draws judged h)
        | inr f ↦ rw (e, f) h
      ]
    ]

empty_counts :
    (current : Bool)
    → current ≡ true
    → count black_piece empty_board ≡ count white_piece empty_board + (if current then 0 else 1)
empty_counts true e = refl
empty_counts false e = ground arith

-- The calls that a room makes.
pub data Move : Type 0 where
  drops : ℤ → ℤ → Bool → Move
  updates clears : Move
  enables : Bool → Move

unfoldable pub step : (ℕ → ℕ) → Move → Gomoku → Gomoku
step draws (drops i j is_black) g = (drop i j is_black g).1
step draws updates g = update (ai_drop draws) g
step draws clears g = clear g
step draws (enables enable) g = enable_ai enable g

step-Alternates :
    (draws : ℕ → ℕ) (m : Move) (g : Gomoku) → Alternates g → Alternates (step draws m g)
unfolding step clear enable_ai
step-Alternates draws (drops i j is_black) g h = drop-Alternates i j is_black g h
step-Alternates draws updates g h = update-Alternates draws g h
step-Alternates draws clears g h = empty_counts true refl
step-Alternates draws (enables enable) g h = h

-- What a game becomes by calls.
abbrev pub run : (ℕ → ℕ) → List Move → Gomoku → Gomoku
run draws [] g = g
run draws (m ∷ ms) g = run draws ms (step draws m g)

run_kept :
    (draws : ℕ → ℕ) (ms : List Move) (g : Gomoku) → Alternates g → Alternates (run draws ms g)
run_kept draws [] g h = h
run_kept draws (m ∷ ms) g h = run_kept draws ms (step draws m g) (step-Alternates draws m g h)

-- Whatever calls are made of a new game, the moves of the computer player among them, the board holds
-- as many black pieces as white ones when it is black's turn, and one more when it is white's.
pub run-Alternates : (draws : ℕ → ℕ) (ms : List Move) → Alternates (run draws ms new_game)
run-Alternates draws ms = run_kept draws ms new_game (empty_counts true refl)
