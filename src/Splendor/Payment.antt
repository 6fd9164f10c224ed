-- ===== src/Splendor/Payment.antt =====
-- The purchases of src/Splendor.hpp pay the bank, in mines and in gold, and make no mine.
use unopp_server.Prelude.Int.{ℤ, pos, ◌+ℤ◌, ◌-ℤ◌, ltb_ℤ, leb_ℤ, int_laws}
use unopp_server.Splendor.Defs.{
  Mine, gold, mine_eq, five_mines, Counts, write, add_to, Coupon, Ally, action, Player, Splendor,
  player_at, modify, pass_turn,
}
use unopp_server.Splendor.Moves.{turn_of, find_coupon, fill_coupon}
use unopp_server.Splendor.Buying.{
  check_affordabillity, Purse, pay_one, pay, purchase, meets, award, award_all, check_ally,
  finish_purchase, buy_coupon, buy_reserved_coupon,
}
use unopp_server.Splendor.Sums.{add_to_lem, mine_eq-eq, sum_players}
use unopp_server.Prelude.{
  ℕ, ◌≡◌, refl, ap, ◌∙◌, Bool, true, false, not, List, [], ◌∷◌, some, arith, if◌then◌else◌,
  Bool-cases, Option-cases, inl, inr, fails, returns, Ensures, Ensures-if,
}
use unopp_server.Splendor.Supply.{
  mines_of, Conserves, Conserves-refl, Conserves-trans, turn_of_player, shift, opposite,
  pass_turn-Conserves, Conserves_of_eq, fill_coupon-same,
}

pub write_lem :
    (counts : Counts) (m x : Mine) (v : ℤ)
    → write counts m v x ≡ (if mine_eq m x then v else counts x)
unfolding write
write_lem counts m x v = refl

pub mine_eq_comm : (a b : Mine) → mine_eq a b ≡ mine_eq b a
unfolding mine_eq
mine_eq_comm a b = ground arith

-- What the player is short of is taken from the gold.
short_paid :
    (mines bank : Counts) (m x : Mine)
    → mine_eq m gold ≡ false
    → let short = mines m in
      write (add_to mines gold short) m (pos 0) x
        +ℤ add_to (add_to bank m short) gold (pos 0 -ℤ short) x
      ≡ mines x +ℤ bank x
short_paid mines bank m x ne = rw (write_lem _ m x (pos 0)) (elim (Bool-cases (mine_eq m x)) [
  | inl h ↦
      let same = mine_eq-eq m x h in
      let far : mine_eq gold x ≡ false = rw (← same) (mine_eq_comm gold m ∙ ne) in
      rw (h, add_to_lem _ gold x, far, add_to_lem bank m x, h, ← same) (omega int_laws)
  | inr h ↦
      rw (h, add_to_lem mines gold x, add_to_lem _ gold x, add_to_lem bank m x, h)
        (elim (Bool-cases (mine_eq gold x)) [
          | inl k ↦ rw k (omega int_laws)
          | inr k ↦ rw k (omega int_laws)
        ])
])

abbrev held : Purse → Mine → ℤ
held q x = q.mine_count x +ℤ q.bank x

cost_back : (cost : ℤ) → (pos 0 -ℤ cost) +ℤ cost ≡ pos 0
cost_back cost = omega int_laws

pay_one-held :
    (c : Coupon) (counts : Counts) (m : Mine) (q : Purse) (x : Mine)
    → mine_eq m gold ≡ false
    → held (pay_one c counts m q) x ≡ held q x
unfolding pay_one
pay_one-held c counts m q x ne =
    let cost = c.costs m -ℤ counts m in
    let paid = opposite q.mine_count q.bank m x (pos 0 -ℤ cost) cost (cost_back cost) in
    elim (Bool-cases (leb_ℤ cost (pos 0))) [
      | inl e ↦ rw e refl
      | inr e ↦ elim (Bool-cases (ltb_ℤ (add_to q.mine_count m (pos 0 -ℤ cost) m) (pos 0))) [
        | inl s ↦
            rw (e, s)
              (short_paid (add_to q.mine_count m (pos 0 -ℤ cost)) (add_to q.bank m cost) m x ne
                ∙ paid)
        | inr s ↦ rw (e, s) paid
      ]
    ]

abbrev pub IsFive : List Mine → Type 0
IsFive [] = Unit
IsFive (m ∷ ms) = (mine_eq m gold ≡ false) × IsFive ms

pay-held :
    (c : Coupon) (counts : Counts) (ms : List Mine) (q : Purse) (x : Mine)
    → IsFive ms
    → held (pay c counts ms q) x ≡ held q x
unfolding pay
pay-held c counts [] q x h = refl
pay-held c counts (m ∷ ms) q x h =
    pay-held c counts ms (pay_one c counts m q) x h.1 ∙ pay_one-held c counts m q x h.0

pub five_mines-IsFive : IsFive five_mines
unfolding mine_eq
five_mines-IsFive = (refl, (refl, (refl, (refl, (refl, tt)))))

+ℤ_swap : (a b : ℤ) → a +ℤ b ≡ b +ℤ a
+ℤ_swap a b = omega int_laws

purchase-held :
    (c : Coupon) (p : Player) (bank : Counts) (m : Mine)
    → (purchase c p bank).1 m +ℤ (purchase c p bank).0.mine_count m ≡ bank m +ℤ p.mine_count m
unfolding purchase
purchase-held c p bank m =
    +ℤ_swap _ _
    ∙ pay-held c p.coupon_count five_mines _ m five_mines-IsFive
    ∙ +ℤ_swap (p.mine_count m) (bank m)

-- The allies leave the mines alone.
award-mines :
    (m : Mine) (a : Ally) (ps : List (ℕ × Player))
    → sum_players (mines_of m) (award a ps).1 ≡ sum_players (mines_of m) ps
unfolding award sum_players
award-mines m a [] = refl
award-mines m a ((id, p) ∷ ps) = elim (Bool-cases (meets p a five_mines)) [
  | inl e ↦
      rw (e, award)
        (ap (λ s. p.mine_count m +ℤ s)
          (award-mines m (record a { is_owned = true; owner_id = id }) ps))
  | inr e ↦ rw (e, award) (ap (λ s. p.mine_count m +ℤ s) (award-mines m a ps))
]

award_unless-mines :
    (owned : Bool) (m : Mine) (a : Ally) (ps : List (ℕ × Player))
    → (let kept : Ally × List (ℕ × Player) × List (ℕ × Ally) = (a, ps, []) in
        sum_players (mines_of m) (if owned then kept else award a ps).1)
      ≡ sum_players (mines_of m) ps
award_unless-mines true m a ps = refl
award_unless-mines false m a ps = award-mines m a ps

award_all-mines :
    (m : Mine) (allies : List Ally) (ps : List (ℕ × Player))
    → sum_players (mines_of m) (award_all allies ps).1 ≡ sum_players (mines_of m) ps
unfolding award_all
award_all-mines m [] ps = refl
award_all-mines m (a ∷ rest) ps = award_all-mines m rest _ ∙ award_unless-mines a.is_owned m a ps

check_ally-Conserves : (g : Splendor) → Conserves g (check_ally g)
unfolding check_ally
check_ally-Conserves g =
    Conserves_of_eq g (check_ally g) refl (λ m. award_all-mines m g.allies g.players)

finish_purchase-Conserves : (i : ℕ) (g : Splendor) → Conserves g (finish_purchase i g)
unfolding finish_purchase
finish_purchase-Conserves i g =
    Conserves-trans (pass_turn-Conserves i g) (check_ally-Conserves (pass_turn i g))

fill_coupon-Conserves :
    (level coupon_idx : ℕ) (g : Splendor) → Conserves g (fill_coupon level coupon_idx g)
fill_coupon-Conserves level coupon_idx g =
    Conserves_of_eq g _ (fill_coupon-same level coupon_idx g).1
      (λ m. ap (sum_players (mines_of m)) (fill_coupon-same level coupon_idx g).0)

-- The purchase of a coupon by the player at the place.
paid-Conserves :
    (g h : Splendor) (i : ℕ) (c : Coupon) (p p' : Player)
    → player_at i g.players ≡ some p
    → h.players ≡ modify i (λ _. p') g.players
    → h.bank ≡ (purchase c p g.bank).1
    → p'.mine_count ≡ (purchase c p g.bank).0.mine_count
    → Conserves g h
paid-Conserves g h i c p p' e hp hb hm = record {
  mines = λ m.
      rw (hp, hb)
        (shift g i p p' (purchase c p g.bank).1 e (λ x. rw hm (purchase-held c p g.bank x)) m);
}

pub buy_coupon-Conserves :
    (coupon_idx player : ℕ) (g : Splendor)
    → Ensures (λ r. Conserves g r.1) (buy_coupon coupon_idx player g)
unfolding buy_coupon
buy_coupon-Conserves coupon_idx player g = elim (Option-cases (turn_of action player g)) [
  | inl e ↦ rw (e, buy_coupon) (returns (Conserves-refl g))
  | inr (t, e) ↦ elim (Option-cases (find_coupon coupon_idx g.coupons)) [
    | inl n ↦ rw (e, buy_coupon, n) (returns (Conserves-refl g))
    | inr (c, f) ↦
        rw (e, buy_coupon, f)
          (Ensures-if (not (check_affordabillity t.1 c)) (λ _. returns (Conserves-refl g))
            λ _.
              Ensures-if (mine_eq c.type gold) (λ _. fails)
                λ _. returns (
                  Conserves-trans
                    (paid-Conserves g _ t.0 c t.1 _ (turn_of_player action player g e) refl refl
                      refl)
                    (Conserves-trans (fill_coupon-Conserves c.level coupon_idx _)
                      (finish_purchase-Conserves t.0 _))))
  ]
]

pub buy_reserved_coupon-Conserves :
    (coupon_idx player : ℕ) (g : Splendor)
    → Ensures (λ r. Conserves g r.1) (buy_reserved_coupon coupon_idx player g)
unfolding buy_reserved_coupon
buy_reserved_coupon-Conserves coupon_idx player g = elim (Option-cases (turn_of action player g)) [
  | inl e ↦ rw (e, buy_reserved_coupon) (returns (Conserves-refl g))
  | inr (t, e) ↦ elim (Option-cases (find_coupon coupon_idx t.1.reserved_coupons)) [
    | inl n ↦ rw (e, buy_reserved_coupon, n) (returns (Conserves-refl g))
    | inr (c, f) ↦
        rw (e, buy_reserved_coupon, f)
          (Ensures-if (not (check_affordabillity t.1 c)) (λ _. returns (Conserves-refl g))
            λ _.
              Ensures-if (mine_eq c.type gold) (λ _. fails)
                λ _. returns (
                  Conserves-trans
                    (paid-Conserves g _ t.0 c t.1 _ (turn_of_player action player g e) refl refl
                      refl)
                    (finish_purchase-Conserves t.0 _)))
  ]
]
