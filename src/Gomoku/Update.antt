-- ===== src/Gomoku/Update.antt =====
-- update of src/Gomoku.hpp finds the rows of five, by its three loops.
use unopp_server.Gomoku.Board.{
  Piece, white_piece, black_piece, no_piece, piece_eq, Board, size, places, pairs, row_of, from,
}
use unopp_server.Gomoku.Rules.{
  Gomoku, Status, not_end, status_code, same_five, winner_of, row_round, column_round,
  diagonal_round, rounds, judge, update,
}
use unopp_server.Gomoku.Fives.{
  Direction, Fits, along, down, falling, rising, Five, Verdict, goes_on, row_round-Verdict,
  column_round-Verdict, diagonal_round-Verdict, same_five_lem, place, moved_to,
}
use unopp_server.Prelude.{
  ℕ, zero, suc, ◌+◌, ◌≤◌, ◌<◌, ◌≡◌, ◌⊎◌, refl, sym, ap, ◌∙◌, Bool, true, false, not, ◌&&◌, ◌||◌,
  List, [], ◌∷◌, ◌++◌, inl, inr, arith, if◌then◌else◌, ◌==◌, Bool-cases,
}

-- Every, and some, place of a list.
abbrev Every : (ℕ × ℕ → Type 0) → List (ℕ × ℕ) → Type 0
Every P [] = Unit
Every P (at ∷ rest) = P at × Every P rest

abbrev Among : ℕ × ℕ → List (ℕ × ℕ) → Type 0
Among at [] = ⊥
Among at (x ∷ rest) = (x ≡ at) ⊎ Among at rest

Every-append :
    (P : ℕ × ℕ → Type 0) (xs ys : List (ℕ × ℕ)) → Every P xs → Every P ys → Every P (xs ++ ys)
Every-append P [] ys h k = k
Every-append P (x ∷ xs) ys h k = (h.0, Every-append P xs ys h.1 k)

Every-row_of :
    (P : ℕ × ℕ → Type 0) (i j n : ℕ)
    → ((y : ℕ) → y < j + n → P (i, y))
    → Every P (row_of i (from j n))
Every-row_of P i j zero h = tt
Every-row_of P i j (suc n) h =
    (h j (omega arith), Every-row_of P i (suc j) n (λ y l. h y (omega arith)))

Every-pairs :
    (P : ℕ × ℕ → Type 0) (i m n : ℕ)
    → ((x y : ℕ) → x < i + m → y < n → P (x, y))
    → Every P (pairs (from i m) (from 0 n))
Every-pairs P i zero n h = tt
Every-pairs P i (suc m) n h =
    Every-append P (row_of i (from 0 n)) _
      (Every-row_of P i 0 n (λ y l. h i y (omega arith) (omega arith)))
      (Every-pairs P (suc i) m n (λ x y k l. h x y (omega arith) l))

Among-row_of : (i j n y : ℕ) → j ≤ y → y < j + n → Among (i, y) (row_of i (from j n))
Among-row_of i j zero y h k = absurd (lt_not j y h k)
  where
    lt_not : (a c : ℕ) → a ≤ c → c < a + 0 → ⊥
    lt_not a c h k = omega arith
Among-row_of i j (suc n) y h k = elim (Bool-cases (j == y)) [
  | inl e ↦ inl (ap (λ t. (i, t)) (ground arith))
  | inr e ↦ inr (Among-row_of i (suc j) n y (ground arith) (omega arith))
]

Among-append_left : (at : ℕ × ℕ) (xs ys : List (ℕ × ℕ)) → Among at xs → Among at (xs ++ ys)
Among-append_left at [] ys h = elim h [ ]
Among-append_left at (x ∷ xs) ys (inl e) = inl e
Among-append_left at (x ∷ xs) ys (inr h) = inr (Among-append_left at xs ys h)

Among-append_right : (at : ℕ × ℕ) (xs ys : List (ℕ × ℕ)) → Among at ys → Among at (xs ++ ys)
Among-append_right at [] ys h = h
Among-append_right at (x ∷ xs) ys h = inr (Among-append_right at xs ys h)

Among-pairs :
    (i m n x y : ℕ) → i ≤ x → x < i + m → y < n → Among (x, y) (pairs (from i m) (from 0 n))
Among-pairs i zero n x y h k l = absurd (lt_not i x h k)
  where
    lt_not : (a c : ℕ) → a ≤ c → c < a + 0 → ⊥
    lt_not a c h k = omega arith
Among-pairs i (suc m) n x y h k l = elim (Bool-cases (i == x)) [
  | inl e ↦
      let same : i ≡ x = ground arith in
      rw same (
        Among-append_left (x, y) (row_of x (from 0 n)) _
          (Among-row_of x 0 n y (omega arith) (omega arith)))
  | inr e ↦
      Among-append_right (x, y) (row_of i (from 0 n)) _
        (Among-pairs (suc i) m n x y (ground arith) (omega arith) l)
]

rounds-Verdict :
    (b : Board) (round : ℕ × ℕ → Status → Status) (xs : List (ℕ × ℕ)) (s : Status)
    → Every (λ at. (t : Status) → Verdict b t → Verdict b (round at t)) xs
    → Verdict b s
    → Verdict b (rounds round xs s)
unfolding rounds
rounds-Verdict b round [] s h v = v
rounds-Verdict b round (at ∷ rest) s h v = rounds-Verdict b round rest _ h.1 (h.0 s v)

-- The game is over.
abbrev pub IsOver : Status → Type 0
IsOver s = (status_code s == status_code not_end) ≡ false

rounds-IsOver :
    (round : ℕ × ℕ → Status → Status) (xs : List (ℕ × ℕ)) (s : Status)
    → ((at : ℕ × ℕ) (t : Status) → IsOver t → IsOver (round at t))
    → IsOver s
    → IsOver (rounds round xs s)
unfolding rounds
rounds-IsOver round [] s keeps h = h
rounds-IsOver round (at ∷ rest) s keeps h = rounds-IsOver round rest _ keeps (keeps at s h)

-- A round that ends the game is not undone.
rounds-ended :
    (round : ℕ × ℕ → Status → Status) (at : ℕ × ℕ) (xs : List (ℕ × ℕ)) (s : Status)
    → ((x : ℕ × ℕ) (t : Status) → IsOver t → IsOver (round x t))
    → Among at xs
    → ((t : Status) → IsOver (round at t))
    → IsOver (rounds round xs s)
unfolding rounds
rounds-ended round at [] s keeps h ends = elim h [ ]
rounds-ended round at (x ∷ rest) s keeps (inl e) ends =
    rounds-IsOver round rest _ keeps (rw e (ends s))
rounds-ended round at (x ∷ rest) s keeps (inr h) ends = rounds-ended round at rest _ keeps h ends

winner_of-IsOver : (p : Piece) → IsOver (winner_of p)
winner_of-IsOver white_piece = refl
winner_of-IsOver black_piece = refl
winner_of-IsOver no_piece = refl

IsOver-if : (c : Bool) (p : Piece) (s : Status) → IsOver s → IsOver (if c then winner_of p else s)
IsOver-if true p s h = winner_of-IsOver p
IsOver-if false p s h = h

IsOver-or :
    (c : Bool) {d : Bool} (p : Piece) (s : Status)
    → d ≡ true
    → IsOver (if c || d then winner_of p else s)
IsOver-or true p s e = winner_of-IsOver p
IsOver-or false p s e = rw e (winner_of-IsOver p)

abbrev Respects : (b : Board) → (ℕ × ℕ → Status → Status) → ℕ × ℕ → Type 0
Respects b round at = (t : Status) → Verdict b t → Verdict b (round at t)

judge-Verdict : (b : Board) → Verdict b (judge b not_end)
unfolding judge
judge-Verdict b =
    rounds-Verdict b (diagonal_round b) (places 11 11) _
      (Every-pairs (Respects b (diagonal_round b)) 0 11 11
        (λ i j h k t v. diagonal_round-Verdict b i j t h k v))
      (rounds-Verdict b (column_round b) (places size 11) _
        (Every-pairs (Respects b (column_round b)) 0 size 11
          (λ i j h k t v. column_round-Verdict b i j t h k v))
        (rounds-Verdict b (row_round b) (places size 11) not_end
          (Every-pairs (Respects b (row_round b)) 0 size 11
            (λ i j h k t v. row_round-Verdict b i j t h k v))
          goes_on))

row_round-IsOver : (b : Board) (at : ℕ × ℕ) (t : Status) → IsOver t → IsOver (row_round b at t)
unfolding row_round
row_round-IsOver b (i, j) t h = IsOver-if _ (b i j) t h

column_round-IsOver :
    (b : Board) (at : ℕ × ℕ) (t : Status) → IsOver t → IsOver (column_round b at t)
unfolding column_round
column_round-IsOver b (i, j) t h = IsOver-if _ (b j i) t h

diagonal_round-IsOver :
    (b : Board) (at : ℕ × ℕ) (t : Status) → IsOver t → IsOver (diagonal_round b at t)
unfolding diagonal_round
diagonal_round-IsOver b (i, j) t h = IsOver-if _ (b (i + 2) (j + 2)) t h

-- The test on five pieces that are the same.
same_of :
    (p q q1 q2 q3 q4 : Piece)
    → piece_eq p no_piece ≡ false
    → q ≡ p
    → q1 ≡ p
    → q2 ≡ p
    → q3 ≡ p
    → q4 ≡ p
    → same_five q q1 q2 q3 q4 ≡ true
same_of p q q1 q2 q3 q4 t e e1 e2 e3 e4 = same_five_lem q q1 q2 q3 q4 (record {
  taken = ap (λ r. piece_eq r no_piece) e ∙ t;
  second = e1 ∙ sym e;
  third = e2 ∙ sym e;
  fourth = e3 ∙ sym e;
  fifth = e4 ∙ sym e;
})

-- After a five in a row, in a column and on a diagonal, the loops have ended the game.
IsOver-by_row :
    (b : Board) → IsOver (rounds (row_round b) (places size 11) not_end) → IsOver (judge b not_end)
unfolding judge
IsOver-by_row b h =
    rounds-IsOver (diagonal_round b) (places 11 11) _ (diagonal_round-IsOver b)
      (rounds-IsOver (column_round b) (places size 11) _ (column_round-IsOver b) h)

IsOver-by_column :
    (b : Board)
    → ((s : Status) → IsOver (rounds (column_round b) (places size 11) s))
    → IsOver (judge b not_end)
unfolding judge
IsOver-by_column b h =
    rounds-IsOver (diagonal_round b) (places 11 11) _ (diagonal_round-IsOver b) (h _)

IsOver-by_diagonal :
    (b : Board)
    → ((s : Status) → IsOver (rounds (diagonal_round b) (places 11 11) s))
    → IsOver (judge b not_end)
unfolding judge
IsOver-by_diagonal b h = h _

judge-IsOver :
    (b : Board) (p : Piece) (d : Direction) (i j : ℕ)
    → piece_eq p no_piece ≡ false
    → Fits d i j
    → ((k : ℕ) → k < 5 → b (place d i j k).0 (place d i j k).1 ≡ p)
    → IsOver (judge b not_end)
unfolding row_round column_round diagonal_round
judge-IsOver b p along i j t f h = IsOver-by_row b (
    rounds-ended (row_round b) (i, j) (places size 11) not_end (row_round-IsOver b)
      (Among-pairs 0 size 11 i j (omega arith) f.0 (omega (arith, f.1)))
      (λ s.
        rw
          (same_of p (b i j) (b i (j + 1)) (b i (j + 2)) (b i (j + 3)) (b i (j + 4)) t
            (moved_to b refl (omega arith) ∙ h 0 (omega arith)) (h 1 (omega arith))
            (h 2 (omega arith)) (h 3 (omega arith)) (h 4 (omega arith)))
          (winner_of-IsOver (b i j))))
judge-IsOver b p down i j t f h = IsOver-by_column b (λ s0.
    rounds-ended (column_round b) (j, i) (places size 11) s0 (column_round-IsOver b)
      (Among-pairs 0 size 11 j i (omega arith) f.1 (omega (arith, f.0)))
      (λ s.
        rw
          (same_of p (b i j) (b (i + 1) j) (b (i + 2) j) (b (i + 3) j) (b (i + 4) j) t
            (moved_to b (omega arith) refl ∙ h 0 (omega arith)) (h 1 (omega arith))
            (h 2 (omega arith)) (h 3 (omega arith)) (h 4 (omega arith)))
          (winner_of-IsOver (b i j))))
judge-IsOver b p falling i j t f h = IsOver-by_diagonal b (λ s0.
    rounds-ended (diagonal_round b) (i, j) (places 11 11) s0 (diagonal_round-IsOver b)
      (Among-pairs 0 11 11 i j (omega arith) (omega (arith, f.0)) (omega (arith, f.1)))
      (λ s.
        rw
          (same_of p (b i j) (b (i + 1) (j + 1)) (b (i + 2) (j + 2)) (b (i + 3) (j + 3))
            (b (i + 4) (j + 4)) t (moved_to b (omega arith) (omega arith) ∙ h 0 (omega arith))
            (h 1 (omega arith)) (h 2 (omega arith)) (h 3 (omega arith)) (h 4 (omega arith)))
          (winner_of-IsOver (b (i + 2) (j + 2)))))
judge-IsOver b p rising i j t f h = IsOver-by_diagonal b (λ s0.
    rounds-ended (diagonal_round b) (i, j) (places 11 11) s0 (diagonal_round-IsOver b)
      (Among-pairs 0 11 11 i j (omega arith) (omega (arith, f.0)) (omega (arith, f.1)))
      (λ s. IsOver-or _ (b (i + 2) (j + 2)) s (
        same_of p (b (i + 4) j) (b (i + 3) (j + 1)) (b (i + 2) (j + 2)) (b (i + 1) (j + 3))
          (b i (j + 4)) t (moved_to b (omega arith) (omega arith) ∙ h 0 (omega arith))
          (moved_to b (omega arith) refl ∙ h 1 (omega arith))
          (moved_to b (omega arith) refl ∙ h 2 (omega arith))
          (moved_to b (omega arith) refl ∙ h 3 (omega arith))
          (moved_to b (omega arith) refl ∙ h 4 (omega arith)))))

ai_skipped : (x y z : Bool) → z ≡ false → (x && (y && z)) ≡ false
ai_skipped x y z h = ground arith

judged_status :
    (ai : Gomoku → Gomoku) (g : Gomoku)
    → g.status ≡ not_end
    → g.use_ai ≡ false
    → (update ai g).status ≡ judge g.board not_end
unfolding update
judged_status ai g e no_ai =
    rw
      (
        e,
        ai_skipped (status_code (judge g.board not_end) == 3) (not g.current_is_black) g.use_ai
            no_ai,
      )
      refl

-- Without the computer player, update of a game that goes on finds out who has won: it ends the game
-- if and only if there are five pieces of one colour in a row, a column or a diagonal, and the winner
-- has such a five.
pub update-Verdict :
    (ai : Gomoku → Gomoku) (g : Gomoku)
    → g.status ≡ not_end
    → g.use_ai ≡ false
    → Verdict g.board (update ai g).status
      × ((p : Piece) → piece_eq p no_piece ≡ false → Five g.board p → IsOver (update ai g).status)
update-Verdict ai g e no_ai =
    let same : (update ai g).status ≡ judge g.board not_end = judged_status ai g e no_ai in
    (
      rw same (judge-Verdict g.board),
      λ p t five.
          rw same (judge-IsOver g.board p five.direction five.i five.j t five.fits five.pieces),
    )
