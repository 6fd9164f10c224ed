-- ===== src/Splendor/TenMoves.antt =====
-- Each move of src/Splendor.hpp against the limit of ten mines.
use unopp_server.Splendor.Defs.{
  Mine, gold, mine_eq, add_to, Coupon, Status, action, need_return_mine, Player, Action, Splendor,
  total_mine_count, modify,
}
use unopp_server.Splendor.Moves.{
  turn_of, may_take_3, take_3_mines, take_2_mines, find_coupon, fill_coupon, take_gold, reserve,
  reserve_coupon, return_mine, finish,
}
use unopp_server.Splendor.Buying.{check_affordabillity, purchase, buy_coupon, buy_reserved_coupon}
use unopp_server.Splendor.Replies.{Replies, replies, Replies-if}
use unopp_server.Splendor.Supply.{turn_of_player, fill_coupon-same}
use unopp_server.Splendor.Turns.{turn_weight}
use unopp_server.Splendor.TurnMoves.{IsOneTurn, turn_of-turn, turn_of-HasTurn, purchase-status}
use unopp_server.Splendor.Limit.{
  is_over, AreLimited, AtMove, AtMove-modify, others_of_all, IsLimited-player_at, limited_few,
  finish-AreLimited, after_return-AreLimited, finish_purchase-AreLimited,
}
use unopp_server.Splendor.Totals.{purchase-total}
use unopp_server.Prelude.Int.{pos, ltb_ℤ}
use unopp_server.Prelude.{
  ℕ, ltb, ◌≡◌, refl, ap, ◌∙◌, false, not, ◌||◌, [], ◌∷◌, ◌++◌, some, length, Bool-cases,
  Option-cases, inl, inr, fails, returns, Ensures, Ensures-if,
}

-- One player has the turn, and the limit holds for all.
abbrev pub IsWithin : Splendor → Type 0
IsWithin g = IsOneTurn g × AreLimited g.players

abbrev pub IsLimitedGame : Splendor → Type 0
IsLimitedGame g = AreLimited g.players

turn_of-AtMove :
    (s : Status) (player : ℕ) (g : Splendor) {i : ℕ} {p : Player}
    → turn_weight s ≡ 1
    → IsWithin g
    → turn_of s player g ≡ some (i, p)
    → AtMove i g.players p
turn_of-AtMove s player g {i} {p} may h e = record {
  has = turn_of-HasTurn s player g may h.0 e;
  others = others_of_all i g.players h.1;
}

-- The player who acts has ten mines at most.
turn_of-few :
    (player : ℕ) (g : Splendor) {i : ℕ} {p : Player}
    → IsWithin g
    → turn_of action player g ≡ some (i, p)
    → is_over p ≡ false
turn_of-few player g {i} {p} h e =
    limited_few p (turn_of-turn action player g e)
      (IsLimited-player_at i g.players p (turn_of_player action player g e) h.1)

pub take_3_mines-IsLimitedGame :
    (a b c : Mine) (player : ℕ) (g : Splendor)
    → IsWithin g
    → Replies (λ ok. IsLimitedGame) (take_3_mines a b c player g)
unfolding take_3_mines
take_3_mines-IsLimitedGame a b c player g h = elim (Option-cases (turn_of action player g)) [
  | inl e ↦ rw (e, take_3_mines) (replies h.1)
  | inr (t, e) ↦
      let at = turn_of-AtMove action player g refl h e in
      rw (e, take_3_mines)
        (Replies-if (may_take_3 g.bank a b c)
          (λ _.
            replies (finish-AreLimited t.0 _ _ (AtMove-modify _ t.0 g.players t.1 at.has.turn at)))
          λ _. replies h.1)
]

pub take_2_mines-IsLimitedGame :
    (mine : Mine) (player : ℕ) (g : Splendor)
    → IsWithin g
    → Replies (λ ok. IsLimitedGame) (take_2_mines mine player g)
unfolding take_2_mines
take_2_mines-IsLimitedGame mine player g h = elim (Option-cases (turn_of action player g)) [
  | inl e ↦ rw (e, take_2_mines) (replies h.1)
  | inr (t, e) ↦
      let at = turn_of-AtMove action player g refl h e in
      rw (e, take_2_mines)
        (Replies-if (ltb_ℤ (g.bank mine) (pos 4) || mine_eq mine gold) (λ _. replies h.1)
          λ _.
            replies (finish-AreLimited t.0 _ _ (AtMove-modify _ t.0 g.players t.1 at.has.turn at)))
]

pub return_mine-IsLimitedGame :
    (mine : Mine) (player : ℕ) (g : Splendor)
    → IsWithin g
    → Replies (λ ok. IsLimitedGame) (return_mine mine player g)
unfolding return_mine
return_mine-IsLimitedGame mine player g h =
    elim (Option-cases (turn_of need_return_mine player g)) [
      | inl e ↦ rw (e, return_mine) (replies h.1)
      | inr (t, e) ↦
          let at = turn_of-AtMove need_return_mine player g refl h e in
          rw (e, return_mine)
            (Replies-if (ltb_ℤ (t.1.mine_count mine) (pos 1)) (λ _. replies h.1)
              λ _. replies (
                after_return-AreLimited t.0 _ _ (AtMove-modify _ t.0 g.players t.1 at.has.turn at)
                  (turn_of-turn need_return_mine player g e)))
    ]

AtMove-fill_coupon :
    (level coupon_idx : ℕ) (g : Splendor) {i : ℕ} {p : Player}
    → AtMove i g.players p
    → AtMove i (fill_coupon level coupon_idx g).players p
AtMove-fill_coupon level coupon_idx g at = rw (fill_coupon-same level coupon_idx g).0 at

take_gold-IsLimitedGame :
    (i : ℕ) (p : Player) (g : Splendor)
    → AtMove i g.players p
    → IsLimitedGame (finish i (take_gold i p g).0 (take_gold i p g).1)
unfolding take_gold
take_gold-IsLimitedGame i p g at =
    let p' = record p { mine_count = add_to p.mine_count gold (pos 1) } in
    elim (Bool-cases (ltb_ℤ (pos 0) (g.bank gold))) [
      | inl h ↦
          rw h (finish-AreLimited i p' _ (AtMove-modify (λ _. p') i g.players p at.has.turn at))
      | inr h ↦ rw h (finish-AreLimited i p g at)
    ]

reserve-IsLimitedGame :
    (coupon_idx player i : ℕ) (p : Player) (c : Coupon) (g : Splendor)
    → AtMove i g.players p
    → IsLimitedGame (reserve coupon_idx player i p c g)
unfolding reserve
reserve-IsLimitedGame coupon_idx player i p c g at =
    let p' = record p { reserved_coupons = p.reserved_coupons ++ c ∷ [] } in
    let reserved = record g {
      players = modify i (λ _. p') g.players;
      last_action = Action.reserve_coupon player c;
      ally_actions = [];
    } in
    take_gold-IsLimitedGame i p' (fill_coupon c.level coupon_idx reserved) (
      AtMove-fill_coupon c.level coupon_idx reserved
        (AtMove-modify (λ _. p') i g.players p at.has.turn at))

pub reserve_coupon-IsLimitedGame :
    (coupon_idx player : ℕ) (g : Splendor)
    → IsWithin g
    → Replies (λ ok. IsLimitedGame) (reserve_coupon coupon_idx player g)
unfolding reserve_coupon
reserve_coupon-IsLimitedGame coupon_idx player g h = elim (Option-cases (turn_of action player g)) [
  | inl e ↦ rw (e, reserve_coupon) (replies h.1)
  | inr (t, e) ↦
      rw (e, reserve_coupon)
        (Replies-if (ltb 2 (length t.1.reserved_coupons)) (λ _. replies h.1)
          λ _. elim (Option-cases (find_coupon coupon_idx g.coupons)) [
            | inl n ↦ rw n (replies h.1)
            | inr (c, f) ↦ rw f (
                replies (
                  reserve-IsLimitedGame coupon_idx player t.0 t.1 c g
                    (turn_of-AtMove action player g refl h e)))
          ])
]

-- The buyer's payment leaves ten mines at most.
bought-few :
    (c : Coupon) (player : ℕ) (g : Splendor) {i : ℕ} {p : Player}
    → IsWithin g
    → turn_of action player g ≡ some (i, p)
    → is_over (purchase c p g.bank).0 ≡ false
unfolding total_mine_count
bought-few c player g {i} {p} h e = purchase-total c p g.bank (turn_of-few player g h e)

pub buy_coupon-IsLimitedGame :
    (coupon_idx player : ℕ) (g : Splendor)
    → IsWithin g
    → Ensures (λ r. IsLimitedGame r.1) (buy_coupon coupon_idx player g)
unfolding buy_coupon
buy_coupon-IsLimitedGame coupon_idx player g h = elim (Option-cases (turn_of action player g)) [
  | inl e ↦ rw (e, buy_coupon) (returns h.1)
  | inr (t, e) ↦ elim (Option-cases (find_coupon coupon_idx g.coupons)) [
    | inl n ↦ rw (e, buy_coupon, n) (returns h.1)
    | inr (c, f) ↦
        let at = turn_of-AtMove action player g refl h e in
        rw (e, buy_coupon, f)
          (Ensures-if (not (check_affordabillity t.1 c)) (λ _. returns h.1)
            λ _.
              Ensures-if (mine_eq c.type gold) (λ _. fails)
                λ _. returns (
                  finish_purchase-AreLimited t.0 _ _
                    (AtMove-fill_coupon c.level coupon_idx _ (
                      AtMove-modify _ t.0 g.players t.1
                        (ap turn_weight (purchase-status c t.1 g.bank) ∙ at.has.turn) at))
                    (bought-few c player g h e)))
  ]
]

pub buy_reserved_coupon-IsLimitedGame :
    (coupon_idx player : ℕ) (g : Splendor)
    → IsWithin g
    → Ensures (λ r. IsLimitedGame r.1) (buy_reserved_coupon coupon_idx player g)
unfolding buy_reserved_coupon total_mine_count
buy_reserved_coupon-IsLimitedGame coupon_idx player g h =
    elim (Option-cases (turn_of action player g)) [
      | inl e ↦ rw (e, buy_reserved_coupon) (returns h.1)
      | inr (t, e) ↦ elim (Option-cases (find_coupon coupon_idx t.1.reserved_coupons)) [
        | inl n ↦ rw (e, buy_reserved_coupon, n) (returns h.1)
        | inr (c, f) ↦
            let at = turn_of-AtMove action player g refl h e in
            rw (e, buy_reserved_coupon, f)
              (Ensures-if (not (check_affordabillity t.1 c)) (λ _. returns h.1)
                λ _.
                  Ensures-if (mine_eq c.type gold) (λ _. fails)
                    λ _. returns (
                      finish_purchase-AreLimited t.0 _ _
                        (AtMove-modify _ t.0 g.players t.1
                          (ap turn_weight (purchase-status c t.1 g.bank) ∙ at.has.turn) at)
                        (bought-few c player g h e)))
      ]
    ]
