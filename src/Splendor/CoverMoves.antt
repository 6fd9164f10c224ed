-- ===== src/Splendor/CoverMoves.antt =====
-- Each move of src/Splendor.hpp leaves no count of mines below 0.
use unopp_server.Prelude.Int.{ℤ, pos, negsuc, ◌+ℤ◌, ◌≤ℤ◌, ltb_ℤ, int_laws}
use unopp_server.Splendor.Defs.{
  Mine, gold, mine_eq, Counts, add_to, Coupon, action, need_return_mine, Player, Action, Splendor,
  modify,
}
use unopp_server.Splendor.Moves.{
  minus_one, turn_of, finish, may_take_3, take_3_mines, take_2_mines, find_coupon, fill_coupon,
  take_gold, reserve, reserve_coupon, return_mine,
}
use unopp_server.Splendor.Buying.{check_affordabillity, purchase, buy_coupon, buy_reserved_coupon}
use unopp_server.Splendor.Replies.{Replies, replies, Replies-if}
use unopp_server.Splendor.Payment.{mine_eq_comm}
use unopp_server.Splendor.Covered.{IsCovered, add_to-IsCovered, add_to_other}
use unopp_server.Splendor.Affording.{purchase-IsCovered}
use unopp_server.Prelude.{
  ℕ, ltb, ◌≡◌, refl, ◌∙◌, Bool, true, false, not, ◌||◌, [], ◌∷◌, ◌++◌, some, arith, length,
  Bool-cases, Option-cases, inl, inr, fails, returns, Ensures, Ensures-if,
}
use unopp_server.Splendor.Solvent.{
  IsSolvent, turn_of-IsCovered, changed, finish-IsSolvent, after_return-IsSolvent,
  fill_coupon-IsSolvent, finish_purchase-IsSolvent, gain, lose_one,
}

two_left : (a : ℤ) → ltb_ℤ a (pos 4) ≡ false → pos 0 ≤ℤ a +ℤ negsuc 1
two_left a h = let enough : pos 4 ≤ℤ a = ground arith in omega (int_laws, enough)

-- Three mines of different kinds, each of which the bank has.
take_three-IsCovered :
    (bank : Counts) (a b c : Mine)
    → may_take_3 bank a b c ≡ true
    → IsCovered bank
    → IsCovered (add_to (add_to (add_to bank a minus_one) b minus_one) c minus_one)
unfolding may_take_3
take_three-IsCovered bank a b c may h =
    let a_b : mine_eq a b ≡ false = ground arith in
    let b_c : mine_eq b c ≡ false = ground arith in
    let a_c : mine_eq a c ≡ false = mine_eq_comm a c ∙ ground arith in
    let once = add_to bank a minus_one in
    let twice = add_to once b minus_one in
    let b_left : once b ≡ bank b = add_to_other bank a b minus_one a_b in
    let c_left : twice c ≡ bank c =
      add_to_other once b c minus_one b_c ∙ add_to_other bank a c minus_one a_c in
    lose_one twice c (lose_one once b (lose_one bank a h (ground arith)) (rw b_left (ground arith)))
      (rw c_left (ground arith))

pub take_3_mines-IsSolvent :
    (a b c : Mine) (player : ℕ) (g : Splendor)
    → IsSolvent g
    → Replies (λ ok. IsSolvent) (take_3_mines a b c player g)
unfolding take_3_mines
take_3_mines-IsSolvent a b c player g h = elim (Option-cases (turn_of action player g)) [
  | inl e ↦ rw (e, take_3_mines) (replies h)
  | inr (t, e) ↦
      let own = turn_of-IsCovered action player g h e in
      rw (e, take_3_mines)
        (Replies-if (may_take_3 g.bank a b c)
          (λ may. replies (
            finish-IsSolvent t.0 _ _ (
              changed g _ t.0 _ h refl (take_three-IsCovered g.bank a b c may h.bank)
                (gain _ c 1 (gain _ b 1 (gain _ a 1 own))))))
          λ _. replies h)
]

pub take_2_mines-IsSolvent :
    (mine : Mine) (player : ℕ) (g : Splendor)
    → IsSolvent g
    → Replies (λ ok. IsSolvent) (take_2_mines mine player g)
unfolding take_2_mines
take_2_mines-IsSolvent mine player g h = elim (Option-cases (turn_of action player g)) [
  | inl e ↦ rw (e, take_2_mines) (replies h)
  | inr (t, e) ↦
      let own = turn_of-IsCovered action player g h e in
      rw (e, take_2_mines)
        (Replies-if (ltb_ℤ (g.bank mine) (pos 4) || mine_eq mine gold) (λ _. replies h)
          λ may. replies (
            finish-IsSolvent t.0 _ _ (
              changed g _ t.0 _ h refl
                (add_to-IsCovered g.bank mine (negsuc 1) h.bank
                  (two_left (g.bank mine) (ground arith)))
                (gain _ mine 2 own))))
]

pub return_mine-IsSolvent :
    (mine : Mine) (player : ℕ) (g : Splendor)
    → IsSolvent g
    → Replies (λ ok. IsSolvent) (return_mine mine player g)
unfolding return_mine
return_mine-IsSolvent mine player g h = elim (Option-cases (turn_of need_return_mine player g)) [
  | inl e ↦ rw (e, return_mine) (replies h)
  | inr (t, e) ↦
      let own = turn_of-IsCovered need_return_mine player g h e in
      rw (e, return_mine)
        (Replies-if (ltb_ℤ (t.1.mine_count mine) (pos 1)) (λ _. replies h)
          λ may. replies (
            after_return-IsSolvent t.0 _ _ (
              changed g _ t.0 _ h refl (gain _ mine 1 h.bank)
                (lose_one t.1.mine_count mine own (ground arith)))))
]

take_gold-IsSolvent :
    (i : ℕ) (p : Player) (g : Splendor)
    → IsSolvent g
    → IsCovered p.mine_count
    → IsSolvent (finish i (take_gold i p g).0 (take_gold i p g).1)
unfolding take_gold
take_gold-IsSolvent i p g h own =
    let p' = record p { mine_count = add_to p.mine_count gold (pos 1) } in
    elim (Bool-cases (ltb_ℤ (pos 0) (g.bank gold))) [
      | inl e ↦ rw e (
          finish-IsSolvent i p' _ (
            changed g _ i p' h refl (lose_one g.bank gold h.bank (ground arith))
              (gain _ gold 1 own)))
      | inr e ↦ rw e (finish-IsSolvent i p g h)
    ]

reserve-IsSolvent :
    (coupon_idx player i : ℕ) (p : Player) (c : Coupon) (g : Splendor)
    → IsSolvent g
    → IsCovered p.mine_count
    → IsSolvent (reserve coupon_idx player i p c g)
unfolding reserve
reserve-IsSolvent coupon_idx player i p c g h own =
    let p' = record p { reserved_coupons = p.reserved_coupons ++ c ∷ [] } in
    let reserved = record g {
      players = modify i (λ _. p') g.players;
      last_action = Action.reserve_coupon player c;
      ally_actions = [];
    } in
    take_gold-IsSolvent i p' (fill_coupon c.level coupon_idx reserved)
      (fill_coupon-IsSolvent c.level coupon_idx reserved
        (changed g reserved i p' h refl h.bank own))
      own

pub reserve_coupon-IsSolvent :
    (coupon_idx player : ℕ) (g : Splendor)
    → IsSolvent g
    → Replies (λ ok. IsSolvent) (reserve_coupon coupon_idx player g)
unfolding reserve_coupon
reserve_coupon-IsSolvent coupon_idx player g h = elim (Option-cases (turn_of action player g)) [
  | inl e ↦ rw (e, reserve_coupon) (replies h)
  | inr (t, e) ↦
      rw (e, reserve_coupon)
        (Replies-if (ltb 2 (length t.1.reserved_coupons)) (λ _. replies h)
          λ _. elim (Option-cases (find_coupon coupon_idx g.coupons)) [
            | inl n ↦ rw n (replies h)
            | inr (c, f) ↦ rw f (
                replies (
                  reserve-IsSolvent coupon_idx player t.0 t.1 c g h
                    (turn_of-IsCovered action player g h e)))
          ])
]

true_of_not : (b : Bool) → not b ≡ false → b ≡ true
true_of_not b e = ground arith

-- A purchase by who can pay.
paid_lem :
    (c : Coupon) (player : ℕ) (g : Splendor) (t : ℕ × Player)
    → IsSolvent g
    → turn_of action player g ≡ some t
    → not (check_affordabillity t.1 c) ≡ false
    → IsCovered (purchase c t.1 g.bank).1 × IsCovered (purchase c t.1 g.bank).0.mine_count
paid_lem c player g t h e can =
    purchase-IsCovered c t.1 g.bank (true_of_not _ can) h.bank
      (turn_of-IsCovered action player g h e)

pub buy_coupon-IsSolvent :
    (coupon_idx player : ℕ) (g : Splendor)
    → IsSolvent g
    → Ensures (λ r. IsSolvent r.1) (buy_coupon coupon_idx player g)
unfolding buy_coupon
buy_coupon-IsSolvent coupon_idx player g h = elim (Option-cases (turn_of action player g)) [
  | inl e ↦ rw (e, buy_coupon) (returns h)
  | inr (t, e) ↦ elim (Option-cases (find_coupon coupon_idx g.coupons)) [
    | inl n ↦ rw (e, buy_coupon, n) (returns h)
    | inr (c, f) ↦
        rw (e, buy_coupon, f)
          (Ensures-if (not (check_affordabillity t.1 c)) (λ _. returns h)
            λ can.
              Ensures-if (mine_eq c.type gold) (λ _. fails)
                λ _.
                  (let paid = paid_lem c player g t h e can in
                    returns (
                      finish_purchase-IsSolvent t.0 _ (
                        fill_coupon-IsSolvent c.level coupon_idx _
                          (changed g _ t.0 _ h refl paid.0 paid.1)))))
  ]
]

pub buy_reserved_coupon-IsSolvent :
    (coupon_idx player : ℕ) (g : Splendor)
    → IsSolvent g
    → Ensures (λ r. IsSolvent r.1) (buy_reserved_coupon coupon_idx player g)
unfolding buy_reserved_coupon
buy_reserved_coupon-IsSolvent coupon_idx player g h =
    elim (Option-cases (turn_of action player g)) [
      | inl e ↦ rw (e, buy_reserved_coupon) (returns h)
      | inr (t, e) ↦ elim (Option-cases (find_coupon coupon_idx t.1.reserved_coupons)) [
        | inl n ↦ rw (e, buy_reserved_coupon, n) (returns h)
        | inr (c, f) ↦
            rw (e, buy_reserved_coupon, f)
              (Ensures-if (not (check_affordabillity t.1 c)) (λ _. returns h)
                λ can.
                  Ensures-if (mine_eq c.type gold) (λ _. fails)
                    λ _.
                      (let paid = paid_lem c player g t h e can in
                        returns (
                          finish_purchase-IsSolvent t.0 _
                            (changed g _ t.0 _ h refl paid.0 paid.1))))
      ]
    ]
