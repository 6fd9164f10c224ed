-- ===== src/Splendor/Sums.antt =====
-- Sums over the players of a game of Splendor, and the mines as such a sum.
use unopp_server.Prelude.Int.{ℤ, pos, pos_part, neg_part, ◌+ℤ◌, int_laws}
use unopp_server.Splendor.Defs.{
  Mine, copper, diamond, emerald, iron, netherite, gold, mine_eq, mine_code, Counts, write, add_to,
  Player, player_at, modify,
}
use unopp_server.Prelude.{
  ℕ, zero, suc, ◌≡◌, refl, sym, ap, ◌∙◌, true, List, [], ◌∷◌, Option, some, arith, if◌then◌else◌,
  ◌==◌, Bool-cases, inl, inr,
}

pub +ℤ_zero : (a : ℤ) → a +ℤ pos 0 ≡ a
+ℤ_zero a = omega int_laws

to_mine : ℕ → Option Mine
to_mine n =
    if n == 0
    then some copper
    else if n == 1
    then some diamond
    else if n == 2
    then some emerald
    else if n == 3
    then some iron
    else if n == 4
    then some netherite
    else some gold

to_mine-mine_code : (m : Mine) → to_mine (mine_code m) ≡ some m
unfolding to_mine
to_mine-mine_code copper = refl
to_mine-mine_code _ = refl

pub mine_eq-eq : (a b : Mine) → mine_eq a b ≡ true → a ≡ b
unfolding mine_eq
mine_eq-eq a b h =
    let e : mine_code a ≡ mine_code b = ground arith in
    let same : some a ≡ some b = sym (to_mine-mine_code a) ∙ ap to_mine e ∙ to_mine-mine_code b in
    cc

-- A write shows at its own mine only.
pub add_to_lem :
    (counts : Counts) (m x : Mine) (d : ℤ)
    → add_to counts m d x ≡ counts x +ℤ (if mine_eq m x then d else pos 0)
unfolding add_to write
add_to_lem counts m x d = elim (Bool-cases (mine_eq m x)) [
  | inl e ↦ rw (e, mine_eq-eq m x e) refl
  | inr e ↦ rw e (omega int_laws)
]

module _ (f : Player → ℤ) where
  unfoldable pub sum_players : List (ℕ × Player) → ℤ
  sum_players [] = pos 0
  sum_players ((id, p) ∷ ps) = f p +ℤ sum_players ps

  pub sum_players-modify :
      (h : Player → Player) (i : ℕ) (ps : List (ℕ × Player)) (p : Player)
      → player_at i ps ≡ some p
      → sum_players (modify i h ps) +ℤ f p ≡ sum_players ps +ℤ f (h p)
  unfolding sum_players modify player_at
  sum_players-modify h i [] p e = cc
  sum_players-modify h zero ((id, q) ∷ ps) p e = let same : q ≡ p = cc in rw same (omega int_laws)
  sum_players-modify h (suc i) ((id, q) ∷ ps) p e =
      let ih = sum_players-modify h i ps p e in omega (int_laws, ap pos_part ih, ap neg_part ih)

  -- A change that the number does not see.
  pub sum_players-same :
      (h : Player → Player)
      → ((p : Player) → f (h p) ≡ f p)
      → (i : ℕ) (ps : List (ℕ × Player)) → sum_players (modify i h ps) ≡ sum_players ps
  unfolding sum_players modify
  sum_players-same h same i [] = refl
  sum_players-same h same zero ((id, q) ∷ ps) = rw same
  sum_players-same h same (suc i) ((id, q) ∷ ps) = rw (sum_players-same h same i ps)
