-- ===== src/Splendor/TurnMoves.antt =====
-- Each move of src/Splendor.hpp by the player who has the one turn.
use unopp_server.Splendor.Defs.{
  Mine, gold, mine_eq, Counts, Coupon, Status, waiting, action, need_return_mine, status_code,
  Player, Action, Splendor, modify,
}
use unopp_server.Splendor.Moves.{
  turn_of, may_take_3, take_3_mines, take_2_mines, find_coupon, fill_coupon, take_gold, reserve,
  reserve_coupon, return_mine, finish,
}
use unopp_server.Splendor.Buying.{check_affordabillity, purchase, buy_coupon, buy_reserved_coupon}
use unopp_server.Splendor.Replies.{Replies, replies, Replies-if}
use unopp_server.Splendor.Supply.{turn_of_player, fill_coupon-same}
use unopp_server.Splendor.Turns.{
  turn_weight, turn_count, HasTurn, HasTurn-modify, finish-one, after_return-one,
  finish_purchase-one,
}
use unopp_server.Prelude.Int.{pos, ltb_ℤ}
use unopp_server.Prelude.{
  ℕ, ltb, ◌≡◌, refl, sym, ap, ◌∙◌, ◌==◌, if◌then◌else◌, not, ◌||◌, [], ◌∷◌, ◌++◌, some, arith,
  length, Bool-cases, Option-cases, inl, inr, fails, returns, Ensures, Ensures-if,
}

weight_of_code : ℕ → ℕ
weight_of_code code = if code == 0 then 0 else if code == 3 then 2 else 1

weight_of_code-status_code : (s : Status) → weight_of_code (status_code s) ≡ turn_weight s
unfolding weight_of_code
weight_of_code-status_code waiting = refl
weight_of_code-status_code _ = refl

turn_weight_unique : (s t : Status) → status_code t ≡ status_code s → turn_weight t ≡ turn_weight s
turn_weight_unique s t e =
    sym (weight_of_code-status_code t) ∙ ap weight_of_code e ∙ weight_of_code-status_code s

pub turn_of-turn :
    (s : Status) (player : ℕ) (g : Splendor) {i : ℕ} {p : Player}
    → turn_of s player g ≡ some (i, p)
    → status_code p.status ≡ status_code s
unfolding turn_of
turn_of-turn s player g {i} {p} e = ground arith

-- The player of a move has the turn.
pub turn_of-HasTurn :
    (s : Status) (player : ℕ) (g : Splendor) {i : ℕ} {p : Player}
    → turn_weight s ≡ 1
    → turn_count g.players ≡ 1
    → turn_of s player g ≡ some (i, p)
    → HasTurn i g.players p
turn_of-HasTurn s player g {i} {p} may one e = record {
  at = turn_of_player s player g e;
  turn = rw (turn_weight_unique s p.status (turn_of-turn s player g e)) may;
  one = one;
}

abbrev pub IsOneTurn : Splendor → Type 0
IsOneTurn g = turn_count g.players ≡ 1

pub take_3_mines-one :
    (a b c : Mine) (player : ℕ) (g : Splendor)
    → IsOneTurn g
    → Replies (λ ok. IsOneTurn) (take_3_mines a b c player g)
unfolding take_3_mines
take_3_mines-one a b c player g one = elim (Option-cases (turn_of action player g)) [
  | inl e ↦ rw (e, take_3_mines) (replies one)
  | inr (t, e) ↦
      let has = turn_of-HasTurn action player g refl one e in
      rw (e, take_3_mines)
        (Replies-if (may_take_3 g.bank a b c)
          (λ _. replies (finish-one t.0 _ _ _ (HasTurn-modify _ t.0 g.players t.1 has.turn has)))
          λ _. replies one)
]

pub take_2_mines-one :
    (mine : Mine) (player : ℕ) (g : Splendor)
    → IsOneTurn g
    → Replies (λ ok. IsOneTurn) (take_2_mines mine player g)
unfolding take_2_mines
take_2_mines-one mine player g one = elim (Option-cases (turn_of action player g)) [
  | inl e ↦ rw (e, take_2_mines) (replies one)
  | inr (t, e) ↦
      let has = turn_of-HasTurn action player g refl one e in
      rw (e, take_2_mines)
        (Replies-if (ltb_ℤ (g.bank mine) (pos 4) || mine_eq mine gold) (λ _. replies one)
          λ _. replies (finish-one t.0 _ _ _ (HasTurn-modify _ t.0 g.players t.1 has.turn has)))
]

pub return_mine-one :
    (mine : Mine) (player : ℕ) (g : Splendor)
    → IsOneTurn g
    → Replies (λ ok. IsOneTurn) (return_mine mine player g)
unfolding return_mine
return_mine-one mine player g one = elim (Option-cases (turn_of need_return_mine player g)) [
  | inl e ↦ rw (e, return_mine) (replies one)
  | inr (t, e) ↦
      let has = turn_of-HasTurn need_return_mine player g refl one e in
      rw (e, return_mine)
        (Replies-if (ltb_ℤ (t.1.mine_count mine) (pos 1)) (λ _. replies one)
          λ _.
            replies (after_return-one t.0 _ _ _ (HasTurn-modify _ t.0 g.players t.1 has.turn has)))
]

take_gold-one :
    (i : ℕ) (p : Player) (g : Splendor)
    → HasTurn i g.players p
    → IsOneTurn (finish i (take_gold i p g).0 (take_gold i p g).1)
unfolding take_gold
take_gold-one i p g has = elim (Bool-cases (ltb_ℤ (pos 0) (g.bank gold))) [
  | inl h ↦ rw h (finish-one i _ _ _ (HasTurn-modify _ i g.players p has.turn has))
  | inr h ↦ rw h (finish-one i p p g has)
]

HasTurn-fill_coupon :
    (level coupon_idx : ℕ) (g : Splendor) {i : ℕ} {p : Player}
    → HasTurn i g.players p
    → HasTurn i (fill_coupon level coupon_idx g).players p
HasTurn-fill_coupon level coupon_idx g has = rw (fill_coupon-same level coupon_idx g).0 has

reserve-one :
    (coupon_idx player i : ℕ) (p : Player) (c : Coupon) (g : Splendor)
    → HasTurn i g.players p
    → IsOneTurn (reserve coupon_idx player i p c g)
unfolding reserve
reserve-one coupon_idx player i p c g has =
    let p' = record p { reserved_coupons = p.reserved_coupons ++ c ∷ [] } in
    let reserved = record g {
      players = modify i (λ _. p') g.players;
      last_action = Action.reserve_coupon player c;
      ally_actions = [];
    } in
    take_gold-one i p' (fill_coupon c.level coupon_idx reserved) (
      HasTurn-fill_coupon c.level coupon_idx reserved
        (HasTurn-modify (λ _. p') i g.players p has.turn has))

pub reserve_coupon-one :
    (coupon_idx player : ℕ) (g : Splendor)
    → IsOneTurn g
    → Replies (λ ok. IsOneTurn) (reserve_coupon coupon_idx player g)
unfolding reserve_coupon
reserve_coupon-one coupon_idx player g one = elim (Option-cases (turn_of action player g)) [
  | inl e ↦ rw (e, reserve_coupon) (replies one)
  | inr (t, e) ↦
      rw (e, reserve_coupon)
        (Replies-if (ltb 2 (length t.1.reserved_coupons)) (λ _. replies one)
          λ _. elim (Option-cases (find_coupon coupon_idx g.coupons)) [
            | inl n ↦ rw n (replies one)
            | inr (c, f) ↦ rw f (
                replies (
                  reserve-one coupon_idx player t.0 t.1 c g
                    (turn_of-HasTurn action player g refl one e)))
          ])
]

pub purchase-status :
    (c : Coupon) (p : Player) (bank : Counts) → (purchase c p bank).0.status ≡ p.status
unfolding purchase
purchase-status c p bank = refl

pub buy_coupon-one :
    (coupon_idx player : ℕ) (g : Splendor)
    → IsOneTurn g
    → Ensures (λ r. IsOneTurn r.1) (buy_coupon coupon_idx player g)
unfolding buy_coupon
buy_coupon-one coupon_idx player g one = elim (Option-cases (turn_of action player g)) [
  | inl e ↦ rw (e, buy_coupon) (returns one)
  | inr (t, e) ↦ elim (Option-cases (find_coupon coupon_idx g.coupons)) [
    | inl n ↦ rw (e, buy_coupon, n) (returns one)
    | inr (c, f) ↦
        let has = turn_of-HasTurn action player g refl one e in
        rw (e, buy_coupon, f)
          (Ensures-if (not (check_affordabillity t.1 c)) (λ _. returns one)
            λ _.
              Ensures-if (mine_eq c.type gold) (λ _. fails)
                λ _. returns (
                  finish_purchase-one t.0 _ _ (
                    HasTurn-fill_coupon c.level coupon_idx _ (
                      HasTurn-modify _ t.0 g.players t.1
                        (ap turn_weight (purchase-status c t.1 g.bank) ∙ has.turn) has))))
  ]
]

pub buy_reserved_coupon-one :
    (coupon_idx player : ℕ) (g : Splendor)
    → IsOneTurn g
    → Ensures (λ r. IsOneTurn r.1) (buy_reserved_coupon coupon_idx player g)
unfolding buy_reserved_coupon
buy_reserved_coupon-one coupon_idx player g one = elim (Option-cases (turn_of action player g)) [
  | inl e ↦ rw (e, buy_reserved_coupon) (returns one)
  | inr (t, e) ↦ elim (Option-cases (find_coupon coupon_idx t.1.reserved_coupons)) [
    | inl n ↦ rw (e, buy_reserved_coupon, n) (returns one)
    | inr (c, f) ↦
        let has = turn_of-HasTurn action player g refl one e in
        rw (e, buy_reserved_coupon, f)
          (Ensures-if (not (check_affordabillity t.1 c)) (λ _. returns one)
            λ _.
              Ensures-if (mine_eq c.type gold) (λ _. fails)
                λ _. returns (
                  finish_purchase-one t.0 _ _ (
                    HasTurn-modify _ t.0 g.players t.1
                      (ap turn_weight (purchase-status c t.1 g.bank) ∙ has.turn) has)))
  ]
]
