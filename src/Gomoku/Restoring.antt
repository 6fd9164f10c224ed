-- ===== src/Gomoku/Restoring.antt =====
-- The search of the computer player of src/Gomoku.hpp tries pieces on the board and takes them back.
use unopp_server.Prelude.Int.{ℤ}
use unopp_server.Gomoku.Board.{
  Piece, white_piece, black_piece, no_piece, piece_eq, Board, size, write, places,
}
use unopp_server.Gomoku.Search.{
  Search, situation, is_nearby, visit, search, better, cuts, map_piece, worst,
}
use mathlib.Core.Path.{fun_ext}
use unopp_server.Prelude.{
  ℕ, zero, suc, ◌≡◌, refl, sym, ap, ◌∙◌, Bool, true, false, not, ◌&&◌, List, [], ◌∷◌, inl, inr,
  arith, if◌then◌else◌, ◌==◌, Bool-cases, ==_iff, and-left,
}

pub of_no_piece : (p : Piece) → piece_eq p no_piece ≡ true → p ≡ no_piece
of_no_piece white_piece h = ground arith
of_no_piece black_piece h = ground arith
of_no_piece no_piece h = refl

-- A place that was empty is emptied again.
write-write :
    (b : Board) (i j : ℕ) (p : Piece)
    → b i j ≡ no_piece
    → (x y : ℕ) → write (write b i j p) i j no_piece x y ≡ b x y
unfolding write
write-write b i j p e x y = elim (Bool-cases (i == x)) [
  | inl h ↦ elim (Bool-cases (j == y)) [
    | inl k ↦
        let same : b x y ≡ no_piece = rw (← (==_iff i x).0 h, ← (==_iff j y).0 k) e in
        rw (h, k) (sym same)
    | inr k ↦ rw (h, k) refl
  ]
  | inr h ↦ rw h refl
]

top-board :
    (top : Bool) (i j : ℕ) (s : Search)
    → (let chosen : Search = if top then record s { ai_drop_pos = (i, j) } else s in chosen.board)
      ≡ s.board
top-board true i j s = refl
top-board false i j s = refl

-- The round of the loops at one place, whichever way it goes.
visit-board :
    (child : ℤ → Search → ℤ × Search) (maximal top : Bool) (side : Piece) (bound : ℤ)
    → ((best : ℤ) (s : Search) → (child best s).1.board ≡ s.board)
    → (at : List (ℕ × ℕ)) (best : ℤ) (s : Search)
    → (visit child maximal top side bound at best s).1.board ≡ s.board
unfolding visit
visit-board child maximal top side bound keeps [] best s = refl
visit-board child maximal top side bound keeps ((i, j) ∷ rest) best s =
    let put : Search = record s { board = write s.board i j side } in
    let below = child best put in
    let emptied = write below.1.board i j no_piece in
    elim (Bool-cases (piece_eq (s.board i j) no_piece && is_nearby s.board i j)) [
      | inr e ↦ rw e (visit-board child maximal top side bound keeps rest best s)
      | inl e ↦
          let free : s.board i j ≡ no_piece = of_no_piece (s.board i j) (and-left _ _ e) in
          let same : emptied ≡ s.board =
            ap (λ b. write b i j no_piece) (keeps best put)
            ∙ fun_ext (λ x. fun_ext (write-write s.board i j side free x)) in
          let back : Search = record below.1 { board = emptied } in
          elim (Bool-cases (better maximal below.0 best)) [
            | inr f ↦
                rw (e, f) (visit-board child maximal top side bound keeps rest best back ∙ same)
            | inl f ↦
                let chosen : Search = if top then record back { ai_drop_pos = (i, j) } else back in
                let kept : chosen.board ≡ s.board = top-board top i j back ∙ same in
                elim (Bool-cases (cuts maximal below.0 bound)) [
                  | inl k ↦ rw (e, f, k) kept
                  | inr k ↦
                      rw (e, f, k)
                        (visit-board child maximal top side bound keeps rest below.0 chosen ∙ kept)
                ]
          ]
    ]

-- The search for the move of the computer player leaves the board as it was, at any depth.
pub search-board :
    (draws : ℕ → ℕ) (levels : ℕ) (maximal top to_black : Bool) (bound : ℤ) (s : Search)
    → (search draws levels maximal top to_black bound s).1.board ≡ s.board
unfolding search situation
search-board draws zero maximal top to_black bound s =
    visit-board (λ best t. situation draws true t) maximal top (map_piece to_black) bound
      (λ best t. refl) (places size size) (worst maximal) s
search-board draws (suc levels) maximal top to_black bound s =
    visit-board (λ best t. search draws levels (not maximal) false (not to_black) best t) maximal
      top (map_piece to_black) bound
      (λ best t. search-board draws levels (not maximal) false (not to_black) best t)
      (places size size) (worst maximal) s
