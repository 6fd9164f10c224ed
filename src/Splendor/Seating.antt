-- ===== src/Splendor/Seating.antt =====
-- Who plays in a game that the constructor of src/Splendor.hpp begins.
use unopp_server.Splendor.Defs.{Player, new_player, action, modify, with_status}
use unopp_server.Splendor.Setup.{new_game, choose_allies, seat}
use unopp_server.Splendor.Tables.{all_allies}
use unopp_server.Prelude.{
  ℕ, zero, suc, ◌+◌, ◌%◌, ◌≡◌, refl, ap, ◌∙◌, List, [], ◌∷◌, map, length, fails, returns, Ensures,
  Ensures->>=, Ensures-bind,
}

abbrev pub ids_of : List (ℕ × Player) → List ℕ
ids_of ps = map (λ e. e.0) ps

ids_of-modify :
    (f : Player → Player) (i : ℕ) (ps : List (ℕ × Player)) → ids_of (modify i f ps) ≡ ids_of ps
unfolding modify
ids_of-modify f i [] = refl
ids_of-modify f zero ((id, p) ∷ ps) = refl
ids_of-modify f (suc i) ((id, p) ∷ ps) = ap (λ rest. id ∷ rest) (ids_of-modify f i ps)

ids_of-new :
    (ids : List ℕ)
    → (let seats : List (ℕ × Player) = map (λ i. (i, new_player)) ids in ids_of seats) ≡ ids
ids_of-new [] = refl
ids_of-new (id ∷ ids) = ap (λ rest. id ∷ rest) (ids_of-new ids)

seat-ids_of : (first : ℕ) (ids : List ℕ) → Ensures (λ ps. ids_of ps ≡ ids) (seat first ids)
unfolding seat
seat-ids_of first [] = fails
seat-ids_of first (id ∷ ids) =
    let players : List (ℕ × Player) = map (λ i. (i, new_player)) (id ∷ ids) in
    returns
      (ids_of-modify (with_status action) (first % length players) players ∙ ids_of-new (id ∷ ids))

pub new_game-ids_of :
    (rand : ℕ → ℕ → ℕ) (order : List ℕ → List ℕ) (first : ℕ) (player_ids : List ℕ)
    → Ensures (λ g. ids_of g.players ≡ order player_ids) (new_game rand order first player_ids)
unfolding new_game
new_game-ids_of rand order first player_ids =
    Ensures->>= (seat-ids_of first (order player_ids)) λ players same.
      Ensures-bind (choose_allies (rand 0) 9 (length player_ids + 1) all_allies)
        λ allies e. returns same
