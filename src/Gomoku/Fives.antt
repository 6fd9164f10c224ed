-- ===== src/Gomoku/Fives.antt =====
-- What update of src/Gomoku.hpp finds: five pieces of one colour in a row.
use unopp_server.Gomoku.Board.{Piece, white_piece, black_piece, no_piece, piece_eq, Board, size}
use unopp_server.Gomoku.Rules.{
  Status, black_win, white_win, not_end, same_five, winner_of, row_round, column_round,
  diagonal_round,
}
use unopp_server.Prelude.{
  ℕ, zero, suc, ◌+◌, ◌-◌, ◌≤◌, ◌<◌, ◌≡◌, refl, sym, ap, ◌∙◌, true, false, not, ◌&&◌, inl, inr,
  arith, Bool-cases, and-left, and-right, of_not,
}

-- A row, a column, or a diagonal downwards or upwards, from its left or upper end.
pub data Direction : Type 0 where
  along down falling rising : Direction

-- The k-th place of the five that start at (i, j).
abbrev pub place : Direction → ℕ → ℕ → ℕ → ℕ × ℕ
place along i j k = (i, j + k)
place down i j k = (i + k, j)
place falling i j k = (i + k, j + k)
place rising i j k = (i + 4 - k, j + k)

-- All five places are on the board.
abbrev pub Fits : Direction → ℕ → ℕ → Type 0
Fits along i j = (i < size) × (j + 4 < size)
Fits down i j = (i + 4 < size) × (j < size)
Fits falling i j = (i + 4 < size) × (j + 4 < size)
Fits rising i j = (i + 4 < size) × (j + 4 < size)

-- Five of the pieces in a row.
pub record Five (b : Board) (p : Piece) : Type 0 where
  pub direction : Direction
  pub i : ℕ
  pub j : ℕ
  pub fits : Fits direction i j
  pub pieces : (k : ℕ) → k < 5 → b (place direction i j k).0 (place direction i j k).1 ≡ p

-- The status after the loops, on this board.
pub data Verdict (b : Board) : Status → Type 0 where
  goes_on : Verdict b not_end
  black_has : Five b black_piece → Verdict b black_win
  white_has : Five b white_piece → Verdict b white_win

piece_eq-eq : (p q : Piece) → piece_eq p q ≡ true → p ≡ q
piece_eq-eq white_piece white_piece h = refl
piece_eq-eq white_piece black_piece h = ground arith
piece_eq-eq white_piece no_piece h = ground arith
piece_eq-eq black_piece white_piece h = ground arith
piece_eq-eq black_piece black_piece h = refl
piece_eq-eq black_piece no_piece h = ground arith
piece_eq-eq no_piece white_piece h = ground arith
piece_eq-eq no_piece black_piece h = ground arith
piece_eq-eq no_piece no_piece h = refl

-- What same_five tests of five pieces.
pub record Same (p p1 p2 p3 p4 : Piece) : Type 0 where
  pub taken : piece_eq p no_piece ≡ false
  pub second : p1 ≡ p
  pub third : p2 ≡ p
  pub fourth : p3 ≡ p
  pub fifth : p4 ≡ p

same_five-Same : (p p1 p2 p3 p4 : Piece) → same_five p p1 p2 p3 p4 ≡ true → Same p p1 p2 p3 p4
unfolding same_five
same_five-Same p p1 p2 p3 p4 h =
    let all : (not (piece_eq p no_piece)
          && (piece_eq p p1 && (piece_eq p1 p2 && (piece_eq p2 p3 && piece_eq p3 p4))))
        ≡ true =
      h in
    let h1 = and-right _ _ all in
    let h2 = and-right _ _ h1 in
    let h3 = and-right _ _ h2 in
    let e1 = sym (piece_eq-eq p p1 (and-left _ _ h1)) in
    let e2 = sym (piece_eq-eq p1 p2 (and-left _ _ h2)) ∙ e1 in
    let e3 = sym (piece_eq-eq p2 p3 (and-left _ _ h3)) ∙ e2 in
    let e4 = sym (piece_eq-eq p3 p4 (and-right _ _ h3)) ∙ e3 in
    record { taken = of_not _ (and-left _ _ all); second = e1; third = e2; fourth = e3; fifth = e4 }

pub same_five_lem : (p p1 p2 p3 p4 : Piece) → Same p p1 p2 p3 p4 → same_five p p1 p2 p3 p4 ≡ true
unfolding same_five
same_five_lem p p1 p2 p3 p4 s =
    rw (s.second, s.third, s.fourth, s.fifth, s.taken)
      (ap (λ t. t && (t && (t && t))) (piece_eq_refl p))
  where
    piece_eq_refl : (q : Piece) → piece_eq q q ≡ true
    piece_eq_refl white_piece = refl
    piece_eq_refl black_piece = refl
    piece_eq_refl no_piece = refl

winner_of-Verdict :
    (b : Board) (p : Piece) → piece_eq p no_piece ≡ false → Five b p → Verdict b (winner_of p)
winner_of-Verdict b white_piece h f = white_has f
winner_of-Verdict b black_piece h f = black_has f
winner_of-Verdict b no_piece h f = ground arith

-- Five equations, one for each of the numbers below 5.
five_lem {ℓ} :
    {A : Type ℓ} (f : ℕ → A) (a : A)
    → f 0 ≡ a
    → f 1 ≡ a
    → f 2 ≡ a
    → f 3 ≡ a
    → f 4 ≡ a
    → (k : ℕ) → k < 5
    → f k ≡ a
five_lem f a e0 e1 e2 e3 e4 zero h = e0
five_lem f a e0 e1 e2 e3 e4 (suc zero) h = e1
five_lem f a e0 e1 e2 e3 e4 (suc (suc zero)) h = e2
five_lem f a e0 e1 e2 e3 e4 (suc (suc (suc zero))) h = e3
five_lem f a e0 e1 e2 e3 e4 (suc (suc (suc (suc zero)))) h = e4
five_lem f a e0 e1 e2 e3 e4 (suc (suc (suc (suc (suc k))))) h = elim (five_le k h) [ ]
  where
    five_le : (n : ℕ) → suc (suc (suc (suc (suc n)))) < 5 → 1 ≤ 0
    five_le n l = omega arith

pub moved_to : (b : Board) {x x' y y' : ℕ} → x ≡ x' → y ≡ y' → b x y ≡ b x' y'
moved_to b {x' = x'} {y = y} h k = ap (λ x. b x y) h ∙ ap (b x') k

-- The five places from (i, j) on, one by one.
Five-at :
    (b : Board) (d : Direction) (i j : ℕ) (p : Piece)
    → Fits d i j
    → ((k : ℕ) → k < 5 → b (place d i j k).0 (place d i j k).1 ≡ p)
    → Five b p
Five-at b d i j p f h = record { direction = d; i = i; j = j; fits = f; pieces = h }

pub row_round-Verdict :
    (b : Board) (i j : ℕ) (s : Status)
    → i < size
    → j < 11
    → Verdict b s
    → Verdict b (row_round b (i, j) s)
unfolding row_round
row_round-Verdict b i j s hi hj v =
    let five = same_five (b i j) (b i (j + 1)) (b i (j + 2)) (b i (j + 3)) (b i (j + 4)) in
    elim (Bool-cases five) [
      | inr e ↦ rw e v
      | inl e ↦
          let same = same_five-Same _ _ _ _ _ e in
          rw e (
            winner_of-Verdict b (b i j) same.taken (
              Five-at b along i j (b i j) (hi, omega arith)
                (five_lem (λ k. b i (j + k)) (b i j) (moved_to b refl (omega arith)) same.second
                  same.third same.fourth same.fifth)))
    ]

pub column_round-Verdict :
    (b : Board) (i j : ℕ) (s : Status)
    → i < size
    → j < 11
    → Verdict b s
    → Verdict b (column_round b (i, j) s)
unfolding column_round
column_round-Verdict b i j s hi hj v =
    let five = same_five (b j i) (b (j + 1) i) (b (j + 2) i) (b (j + 3) i) (b (j + 4) i) in
    elim (Bool-cases five) [
      | inr e ↦ rw e v
      | inl e ↦
          let same = same_five-Same _ _ _ _ _ e in
          rw e (
            winner_of-Verdict b (b j i) same.taken (
              Five-at b down j i (b j i) (omega arith, hi)
                (five_lem (λ k. b (j + k) i) (b j i) (moved_to b (omega arith) refl) same.second
                  same.third same.fourth same.fifth)))
    ]

pub diagonal_round-Verdict :
    (b : Board) (i j : ℕ) (s : Status)
    → i < 11
    → j < 11
    → Verdict b s
    → Verdict b (diagonal_round b (i, j) s)
unfolding diagonal_round
diagonal_round-Verdict b i j s hi hj v =
    let falls =
      same_five (b i j) (b (i + 1) (j + 1)) (b (i + 2) (j + 2)) (b (i + 3) (j + 3))
        (b (i + 4) (j + 4)) in
    let rises =
      same_five (b (i + 4) j) (b (i + 3) (j + 1)) (b (i + 2) (j + 2)) (b (i + 1) (j + 3))
        (b i (j + 4)) in
    elim (Bool-cases falls) [
      | inl e ↦
          let same = same_five-Same _ _ _ _ _ e in
          rw (e, same.third)
            (winner_of-Verdict b (b i j) same.taken (
              Five-at b falling i j (b i j) (omega arith, omega arith)
                (five_lem (λ k. b (i + k) (j + k)) (b i j) (moved_to b (omega arith) (omega arith))
                  same.second same.third same.fourth same.fifth)))
      | inr e ↦ elim (Bool-cases rises) [
        | inr f ↦ rw (e, f) v
        | inl f ↦
            let same = same_five-Same _ _ _ _ _ f in
            rw (e, f, same.third)
              (winner_of-Verdict b (b (i + 4) j) same.taken (
                Five-at b rising i j (b (i + 4) j) (omega arith, omega arith)
                  (five_lem (λ k. b (i + 4 - k) (j + k)) (b (i + 4) j)
                    (moved_to b (omega arith) (omega arith))
                    (moved_to b (omega arith) refl ∙ same.second)
                    (moved_to b (omega arith) refl ∙ same.third)
                    (moved_to b (omega arith) refl ∙ same.fourth)
                    (moved_to b (omega arith) refl ∙ same.fifth))))
      ]
    ]
