-- ===== src/Splendor/Buying.antt =====
-- The purchases of src/Splendor.hpp: buy_coupon and buy_reserved_coupon, with check_affordabillity
-- and check_ally, and check_winner. `none` is the write past coupon_count that a purchase of a coupon
-- of type GOLD makes.
use unopp_server.Prelude.Int.{ℤ, pos, ◌+ℤ◌, ◌-ℤ◌, ltb_ℤ, leb_ℤ}
use unopp_server.Splendor.Defs.{
  Mine, gold, mine_eq, five_mines, Counts, write, add_to, Coupon, Ally, action, Player, Action,
  Splendor, modify, pass_turn,
}
use unopp_server.Splendor.Defs.{Action}
use unopp_server.Prelude.{
  ℕ, Bool, true, false, not, ◌&&◌, List, [], ◌∷◌, ◌++◌, Option, none, some, ◌==◌, if◌then◌else◌,
}
use unopp_server.Splendor.Moves.{turn_of, find_coupon, fill_coupon}

-- check_affordabillity's loop, with gold_cnt left.
unfoldable pub affordable : Player → Coupon → ℤ → List Mine → Bool
affordable p c gold_cnt [] = true
affordable p c gold_cnt (m ∷ ms) =
    let missing = c.costs m -ℤ p.mine_count m -ℤ p.coupon_count m in
    let rest = affordable p c (gold_cnt -ℤ (if ltb_ℤ (pos 0) missing then missing else pos 0)) ms in
    if ltb_ℤ (p.mine_count m +ℤ p.coupon_count m +ℤ gold_cnt) (c.costs m) then false else rest

unfoldable pub check_affordabillity : Player → Coupon → Bool
unfolding affordable
check_affordabillity p c = affordable p c (p.mine_count gold) five_mines

-- The mines of the player and of the bank.
pub record Purse : Type 0 where
  pub mine_count : Counts
  pub bank : Counts

-- One round of the payment: what the player is short of is paid in gold.
unfoldable pub pay_one : Coupon → Counts → Mine → Purse → Purse
pay_one c coupon_count m q =
    let cost = c.costs m -ℤ coupon_count m in
    let mines = add_to q.mine_count m (pos 0 -ℤ cost) in
    let bank = add_to q.bank m cost in
    let short = mines m in
    if leb_ℤ cost (pos 0)
    then q
    else if ltb_ℤ short (pos 0)
    then record {
      mine_count = write (add_to mines gold short) m (pos 0);
      bank = add_to (add_to bank m short) gold (pos 0 -ℤ short);
    }
    else record { mine_count = mines; bank = bank }

unfoldable pub pay : Coupon → Counts → List Mine → Purse → Purse
pay c coupon_count [] q = q
pay c coupon_count (m ∷ ms) q = pay c coupon_count ms (pay_one c coupon_count m q)

-- The coupon is paid and handed over: what buy_coupon and buy_reserved_coupon do alike to the
-- player and the bank.
unfoldable pub purchase : Coupon → Player → Counts → Player × Counts
purchase c p bank =
    let q = pay c p.coupon_count five_mines (record { mine_count = p.mine_count; bank = bank }) in
    (
      record p {
        coupons = p.coupons ++ c ∷ [];
        coupon_count = add_to p.coupon_count c.type (pos 1);
        mine_count = q.mine_count;
        reputation = p.reputation +ℤ c.reputation;
      },
      q.bank,
    )

unfoldable pub meets : Player → Ally → List Mine → Bool
meets p a [] = true
meets p a (m ∷ ms) = not (ltb_ℤ (p.coupon_count m) (a.condition m)) && meets p a ms

-- The inner loop of check_ally: it goes on after a player has got the ally.
unfoldable pub award : Ally → List (ℕ × Player) → Ally × List (ℕ × Player) × List (ℕ × Ally)
award a [] = (a, [], [])
award a ((id, p) ∷ ps) =
    let ok = meets p a five_mines in
    let a' = if ok then record a { is_owned = true; owner_id = id } else a in
    let p' = if ok then record p { reputation = p.reputation +ℤ a.reputation } else p in
    let (a'', ps', actions) = award a' ps in
    (a'', (id, p') ∷ ps', if ok then (id, a') ∷ actions else actions)

-- The outer loop.
unfoldable pub award_all :
    List Ally → List (ℕ × Player) → List Ally × List (ℕ × Player) × List (ℕ × Ally)
award_all [] ps = ([], ps, [])
award_all (a ∷ as') ps =
    let first = if a.is_owned then (a, ps, []) else award a ps in
    let (rest, ps', actions) = award_all as' first.1 in (first.0 ∷ rest, ps', first.2 ++ actions)

unfoldable pub check_ally : Splendor → Splendor
check_ally g =
    let (allies, players, actions) = award_all g.allies g.players in
    record g { allies = allies; players = players; ally_actions = g.ally_actions ++ actions }

-- The turn after a purchase, and the allies.
unfoldable pub finish_purchase : ℕ → Splendor → Splendor
finish_purchase i g = check_ally (pass_turn i g)

unfoldable pub buy_coupon : ℕ → ℕ → Splendor → Option (Bool × Splendor)
buy_coupon coupon_idx player g = elim (turn_of action player g) [
  | none ↦ some (false, g)
  | some (i, p) ↦ elim (find_coupon coupon_idx g.coupons) [
    | none ↦ some (false, g)
    | some c ↦
        let (p', bank') = purchase c p g.bank in
        let bought = record g {
          bank = bank';
          players = modify i (λ _. p') g.players;
          last_action = Action.buy_coupon player c;
          ally_actions = [];
        } in
        if not (check_affordabillity p c)
        then some (false, g)
        else if mine_eq c.type gold
        then none
        else some (true, finish_purchase i (fill_coupon c.level coupon_idx bought))
  ]
]

-- reserved_coupons.erase
unfoldable pub erase_coupon : ℕ → List Coupon → List Coupon
erase_coupon coupon_idx [] = []
erase_coupon coupon_idx (c ∷ cs) =
    if c.idx == coupon_idx then cs else c ∷ erase_coupon coupon_idx cs

unfoldable pub buy_reserved_coupon : ℕ → ℕ → Splendor → Option (Bool × Splendor)
buy_reserved_coupon coupon_idx player g = elim (turn_of action player g) [
  | none ↦ some (false, g)
  | some (i, p) ↦ elim (find_coupon coupon_idx p.reserved_coupons) [
    | none ↦ some (false, g)
    | some c ↦
        let (paid, bank') = purchase c p g.bank in
        let p' = record paid { reserved_coupons = erase_coupon coupon_idx p.reserved_coupons } in
        let bought = record g {
          bank = bank';
          players = modify i (λ _. p') g.players;
          last_action = Action.buy_reserved_coupon player c;
          ally_actions = [];
        } in
        if not (check_affordabillity p c)
        then some (false, g)
        else if mine_eq c.type gold
        then none
        else some (true, finish_purchase i bought)
  ]
]

-- The loop of check_winner.
unfoldable pub first_winner : List (ℕ × Player) → Option ℕ
first_winner [] = none
first_winner ((id, p) ∷ ps) = if ltb_ℤ (pos 14) p.reputation then some id else first_winner ps

unfoldable pub check_winner : Splendor → Option ℕ
unfolding first_winner
check_winner g = first_winner g.players
