-- ===== src/Splendor/Moves.antt =====
-- The moves of src/Splendor.hpp about mines: take_3_mines, take_2_mines, reserve_coupon and
-- return_mine, with fill_coupon.
-- A move returns the value of the C++ function and the new state.
use unopp_server.Prelude.Int.{ℤ, pos, negsuc, ltb_ℤ, eqb_ℤ}
use unopp_server.Splendor.Defs.{
  Mine, gold, mine_eq, Counts, add_to, Coupon, empty_coupon, Status, action, need_return_mine,
  status_code, Player, Action, take_3, take_2, Splendor, total_mine_count, find_player, player_at,
  modify, with_status, pass_turn,
}
use unopp_server.Splendor.Defs.{Action}
use unopp_server.Prelude.{
  ℕ, Bool, true, false, not, ◌&&◌, ◌||◌, List, [], ◌∷◌, ◌++◌, Option, none, some, length, ltb, ◌==◌,
  if◌then◌else◌, ◌>>=◌,
}

abbrev pub minus_one : ℤ
minus_one = negsuc 0

-- The place and the player, if there is one of this id and status.
unfoldable pub turn_of : Status → ℕ → Splendor → Option (ℕ × Player)
turn_of s player g = do
  i ← find_player player g.players
  p ← player_at i g.players
  if status_code p.status == status_code s then some (i, p) else none

-- The end of a move by the player at `i`, who is `p` now: with more than ten mines some go back
-- first, and otherwise the turn passes.
unfoldable pub finish : ℕ → Player → Splendor → Splendor
finish i p g =
    if ltb_ℤ (pos 10) (total_mine_count p)
    then record g { players = modify i (with_status need_return_mine) g.players }
    else pass_turn i g

-- The tests of take_3_mines on the mines.
unfoldable pub may_take_3 : Counts → Mine → Mine → Mine → Bool
may_take_3 bank a b c =
    not (mine_eq a b || (mine_eq b c || mine_eq c a))
    && (not (eqb_ℤ (bank a) (pos 0) || (eqb_ℤ (bank b) (pos 0) || eqb_ℤ (bank c) (pos 0)))
        && not (mine_eq a gold || (mine_eq b gold || mine_eq c gold)))

unfoldable pub take_3_mines : Mine → Mine → Mine → ℕ → Splendor → Bool × Splendor
take_3_mines a b c player g = elim (turn_of action player g) [
  | none ↦ (false, g)
  | some (i, p) ↦
      let each = λ (counts : Counts) (d : ℤ). add_to (add_to (add_to counts a d) b d) c d in
      let p' = record p { mine_count = each p.mine_count (pos 1) } in
      let taken = record g {
        bank = each g.bank minus_one;
        players = modify i (λ _. p') g.players;
        last_action = take_3 player a b c;
        ally_actions = [];
      } in
      if may_take_3 g.bank a b c then (true, finish i p' taken) else (false, g)
]

unfoldable pub take_2_mines : Mine → ℕ → Splendor → Bool × Splendor
take_2_mines mine player g = elim (turn_of action player g) [
  | none ↦ (false, g)
  | some (i, p) ↦
      let p' = record p { mine_count = add_to p.mine_count mine (pos 2) } in
      let taken = record g {
        bank = add_to g.bank mine (negsuc 1);
        players = modify i (λ _. p') g.players;
        last_action = take_2 player mine;
        ally_actions = [];
      } in
      if ltb_ℤ (g.bank mine) (pos 4) || mine_eq mine gold
      then (false, g)
      else (true, finish i p' taken)
]

-- std::find_if by index. `coupon_idx` is the unsigned number that the C++ comparison makes of it.
unfoldable pub find_coupon : ℕ → List Coupon → Option Coupon
find_coupon coupon_idx [] = none
find_coupon coupon_idx (c ∷ cs) = if c.idx == coupon_idx then some c else find_coupon coupon_idx cs

-- The first coupon of the level, and the others.
unfoldable pub take_level : ℕ → List Coupon → Option (Coupon × List Coupon)
take_level level [] = none
take_level level (c ∷ cs) =
    let rest = take_level level cs in
    if c.level == level then some (c, cs) else (rest >>= λ r. some (r.0, c ∷ r.1))

-- A write to the coupon that find_coupon finds.
unfoldable pub replace_coupon : ℕ → Coupon → List Coupon → List Coupon
replace_coupon coupon_idx new [] = []
replace_coupon coupon_idx new (c ∷ cs) =
    if c.idx == coupon_idx then new ∷ cs else c ∷ replace_coupon coupon_idx new cs

-- fill_coupon, on the coupon of this index.
unfoldable pub fill_coupon : ℕ → ℕ → Splendor → Splendor
fill_coupon level coupon_idx g = elim (take_level level g.coupons_rest) [
  | none ↦ record g { coupons = replace_coupon coupon_idx (empty_coupon level) g.coupons }
  | some (new, rest) ↦ record g {
    coupons = replace_coupon coupon_idx new g.coupons;
    coupons_rest = rest;
  }
]

-- A mine of gold for the player who reserves, while the bank has one.
unfoldable pub take_gold : ℕ → Player → Splendor → Player × Splendor
take_gold i p g =
    let p' = record p { mine_count = add_to p.mine_count gold (pos 1) } in
    if ltb_ℤ (pos 0) (g.bank gold)
    then (
      p',
      record g { bank = add_to g.bank gold minus_one; players = modify i (λ _. p') g.players },
    )
    else (p, g)

-- reserve_coupon, once the coupon is found.
unfoldable pub reserve : ℕ → ℕ → ℕ → Player → Coupon → Splendor → Splendor
reserve coupon_idx player i p c g =
    let p' = record p { reserved_coupons = p.reserved_coupons ++ c ∷ [] } in
    let reserved = record g {
      players = modify i (λ _. p') g.players;
      last_action = Action.reserve_coupon player c;
      ally_actions = [];
    } in
    let (p'', filled) = take_gold i p' (fill_coupon c.level coupon_idx reserved) in
    finish i p'' filled

unfoldable pub reserve_coupon : ℕ → ℕ → Splendor → Bool × Splendor
reserve_coupon coupon_idx player g = elim (turn_of action player g) [
  | none ↦ (false, g)
  | some (i, p) ↦
      if ltb 2 (length p.reserved_coupons)
      then (false, g)
      else elim (find_coupon coupon_idx g.coupons) [
        | none ↦ (false, g)
        | some c ↦ (true, reserve coupon_idx player i p c g)
      ]
]

-- The turn passes once the player has ten mines or fewer.
unfoldable pub after_return : ℕ → Player → Splendor → Splendor
after_return i p g = if ltb_ℤ (total_mine_count p) (pos 11) then pass_turn i g else g

unfoldable pub return_mine : Mine → ℕ → Splendor → Bool × Splendor
return_mine mine player g = elim (turn_of need_return_mine player g) [
  | none ↦ (false, g)
  | some (i, p) ↦
      let p' = record p { mine_count = add_to p.mine_count mine minus_one } in
      let returned = record g {
        bank = add_to g.bank mine (pos 1);
        players = modify i (λ _. p') g.players;
      } in
      if ltb_ℤ (p.mine_count mine) (pos 1) then (false, g) else (true, after_return i p' returned)
]
