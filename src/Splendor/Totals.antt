-- ===== src/Splendor/Totals.antt =====
-- How many mines a player of src/Splendor.hpp holds, and that a purchase takes mines only.
use unopp_server.Prelude.Int.{ℤ, pos, pos_part, neg_part, ◌+ℤ◌, ◌-ℤ◌, ◌≤ℤ◌, ltb_ℤ, leb_ℤ, int_laws}
use unopp_server.Splendor.Defs.{
  Mine, copper, diamond, emerald, iron, netherite, gold, mine_eq, five_mines, six_mines, Counts,
  write, add_to, sum_counts, Coupon, Player, total_mine_count,
}
use unopp_server.Splendor.Buying.{Purse, pay_one, pay, purchase}
use unopp_server.Splendor.Sums.{add_to_lem}
use unopp_server.Splendor.Payment.{IsFive, five_mines-IsFive, mine_eq_comm}
use unopp_server.Prelude.{
  ◌<◌, ◌≡◌, refl, ap, ◌∙◌, false, List, [], ◌∷◌, arith, Bool-cases, inl, inr,
}

total-write :
    (counts : Counts) (m : Mine) (v : ℤ)
    → sum_counts (write counts m v) six_mines +ℤ counts m ≡ sum_counts counts six_mines +ℤ v
unfolding sum_counts write mine_eq
total-write counts copper v = omega int_laws
total-write counts diamond v = omega int_laws
total-write counts emerald v = omega int_laws
total-write counts iron v = omega int_laws
total-write counts netherite v = omega int_laws
total-write counts gold v = omega int_laws

total-add_to :
    (counts : Counts) (m : Mine) (d : ℤ)
    → sum_counts (add_to counts m d) six_mines ≡ sum_counts counts six_mines +ℤ d
unfolding add_to
total-add_to counts m d =
    let law = total-write counts m (counts m +ℤ d) in
    omega (int_laws, ap pos_part law, ap neg_part law)

-- What is paid in gold for what is short leaves the total.
total-short :
    (mines : Counts) (m : Mine)
    → mine_eq m gold ≡ false
    → sum_counts (write (add_to mines gold (mines m)) m (pos 0)) six_mines
      ≡ sum_counts mines six_mines
total-short mines m ne =
    let law = total-write (add_to mines gold (mines m)) m (pos 0) in
    let paid = total-add_to mines gold (mines m) in
    let here : add_to mines gold (mines m) m ≡ mines m +ℤ pos 0 =
      rw (add_to_lem mines gold m (mines m), mine_eq_comm gold m ∙ ne) refl in
    omega (
      int_laws,
      ap pos_part law,
      ap neg_part law,
      ap pos_part paid,
      ap neg_part paid,
      ap pos_part here,
      ap neg_part here,
    )

lower_lem : (a b cost : ℤ) → a ≡ b +ℤ (pos 0 -ℤ cost) → leb_ℤ cost (pos 0) ≡ false → a ≤ℤ b
lower_lem a b cost e h =
    let costly : neg_part cost < pos_part cost = ground arith in
    omega (int_laws, ap pos_part e, ap neg_part e, costly)

pay_one-total :
    (c : Coupon) (counts : Counts) (m : Mine) (q : Purse)
    → mine_eq m gold ≡ false
    → sum_counts (pay_one c counts m q).mine_count six_mines ≤ℤ sum_counts q.mine_count six_mines
unfolding pay_one
pay_one-total c counts m q ne =
    let cost = c.costs m -ℤ counts m in
    let mines = add_to q.mine_count m (pos 0 -ℤ cost) in
    let less = total-add_to q.mine_count m (pos 0 -ℤ cost) in
    elim (Bool-cases (leb_ℤ cost (pos 0))) [
      | inl e ↦ rw e (omega arith)
      | inr e ↦
          let lower : sum_counts mines six_mines ≤ℤ sum_counts q.mine_count six_mines =
            lower_lem _ _ cost less e in
          elim (Bool-cases (ltb_ℤ (mines m) (pos 0))) [
            | inl s ↦ rw (e, s, total-short mines m ne) lower
            | inr s ↦ rw (e, s) lower
          ]
    ]

pay-total :
    (c : Coupon) (counts : Counts) (ms : List Mine) (q : Purse)
    → IsFive ms
    → sum_counts (pay c counts ms q).mine_count six_mines ≤ℤ sum_counts q.mine_count six_mines
unfolding pay
pay-total c counts [] q h = omega arith
pay-total c counts (m ∷ ms) q h =
    let rest = pay-total c counts ms (pay_one c counts m q) h.1 in
    let one = pay_one-total c counts m q h.0 in omega arith

-- A purchase leaves the player with no more mines than before.
pub purchase-total :
    (c : Coupon) (p : Player) (bank : Counts)
    → ltb_ℤ (pos 10) (total_mine_count p) ≡ false
    → ltb_ℤ (pos 10) (sum_counts (purchase c p bank).0.mine_count six_mines) ≡ false
unfolding purchase total_mine_count
purchase-total c p bank few =
    let q : Purse = record { mine_count = p.mine_count; bank = bank } in
    let less = pay-total c p.coupon_count five_mines q five_mines-IsFive in ground arith
