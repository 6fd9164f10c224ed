-- ===== src/Splendor/Covered.antt =====
-- The counts of src/Splendor.hpp that are 0 or more, and one round of a payment.
use unopp_server.Prelude.Int.{ℤ, pos, pos_part, neg_part, ◌+ℤ◌, ◌-ℤ◌, ◌≤ℤ◌, ltb_ℤ, leb_ℤ, int_laws}
use unopp_server.Splendor.Defs.{Mine, gold, mine_eq, Counts, write, add_to, Coupon}
use unopp_server.Splendor.Buying.{Purse, pay_one}
use unopp_server.Prelude.{
  ◌<◌, ◌≡◌, refl, ap, ◌∙◌, true, false, arith, if◌then◌else◌, Bool-cases, inl, inr,
}

abbrev pub IsCovered : Counts → Type 0
IsCovered counts = (m : Mine) → pos 0 ≤ℤ counts m

-- An entry that changes.
pub add_to-IsCovered :
    (counts : Counts) (m : Mine) (d : ℤ)
    → IsCovered counts
    → pos 0 ≤ℤ counts m +ℤ d
    → IsCovered (add_to counts m d)
unfolding add_to write
add_to-IsCovered counts m d h own x = elim (Bool-cases (mine_eq m x)) [
  | inl e ↦ rw e own
  | inr e ↦ rw e (h x)
]

-- What a purchase does to one mine, once the player can pay it.
abbrev pub missing : Coupon → Counts → Counts → Mine → ℤ
missing c coupons mines m = c.costs m -ℤ mines m -ℤ coupons m

abbrev pub gold_for : Coupon → Counts → Counts → Mine → ℤ
gold_for c coupons mines m =
    if ltb_ℤ (pos 0) (missing c coupons mines m) then missing c coupons mines m else pos 0

mine_eq_self : (m : Mine) → mine_eq m m ≡ true
unfolding mine_eq
mine_eq_self m = ground arith

pub record IsPaid (c : Coupon) (coupons : Counts) (m : Mine) (q q' : Purse) : Type 0 where
  pub bank_covered : IsCovered q.bank → IsCovered q'.bank
  pub covered : pos 0 ≤ℤ q'.mine_count m
  pub gold_left : q'.mine_count gold ≡ q.mine_count gold -ℤ gold_for c coupons q.mine_count m
  pub others :
      (x : Mine) → mine_eq m x ≡ false → mine_eq gold x ≡ false → q'.mine_count x ≡ q.mine_count x

write_self : (counts : Counts) (m : Mine) (v : ℤ) → write counts m v m ≡ v
unfolding write
write_self counts m v = rw (mine_eq_self m) refl

write_other :
    (counts : Counts) (m x : Mine) (v : ℤ) → mine_eq m x ≡ false → write counts m v x ≡ counts x
unfolding write
write_other counts m x v ne = rw ne refl

pub add_to_self : (counts : Counts) (m : Mine) (d : ℤ) → add_to counts m d m ≡ counts m +ℤ d
unfolding add_to
add_to_self counts m d = write_self counts m _

pub add_to_other :
    (counts : Counts) (m x : Mine) (d : ℤ) → mine_eq m x ≡ false → add_to counts m d x ≡ counts x
unfolding add_to
add_to_other counts m x d ne = write_other counts m x _ ne

gold_for_none :
    (c : Coupon) (coupons mines : Counts) (m : Mine)
    → missing c coupons mines m ≤ℤ pos 0
    → gold_for c coupons mines m ≡ pos 0
gold_for_none c coupons mines m h =
    let none_missing : ltb_ℤ (pos 0) (missing c coupons mines m) ≡ false = ground arith in
    rw none_missing refl

gold_for_some :
    (c : Coupon) (coupons mines : Counts) (m : Mine)
    → ltb_ℤ (pos 0) (missing c coupons mines m) ≡ true
    → gold_for c coupons mines m ≡ missing c coupons mines m
gold_for_some c coupons mines m h = rw h refl

minus_zero : (a b : ℤ) → b ≡ pos 0 → a ≡ a -ℤ b
minus_zero a b e = rw e (omega int_laws)

below_zero : (a : ℤ) → ltb_ℤ a (pos 0) ≡ true → pos_part a < neg_part a
below_zero a h = ground arith

not_below_zero : (a : ℤ) → ltb_ℤ a (pos 0) ≡ false → pos 0 ≤ℤ a
not_below_zero a h = ground arith

above_zero : (a : ℤ) → leb_ℤ a (pos 0) ≡ false → neg_part a < pos_part a
above_zero a h = ground arith

is_above_zero : (a : ℤ) → neg_part a < pos_part a → ltb_ℤ (pos 0) a ≡ true
is_above_zero a h = ground arith

-- The coupons of the player pay for it.
free_lem :
    (c : Coupon) (coupons : Counts) (m : Mine) (q : Purse)
    → pos 0 ≤ℤ q.mine_count m
    → leb_ℤ (c.costs m -ℤ coupons m) (pos 0) ≡ true
    → IsPaid c coupons m q q
free_lem c coupons m q own e =
    let free : c.costs m -ℤ coupons m ≤ℤ pos 0 = ground arith in
    record {
      bank_covered = λ h. h;
      covered = own;
      gold_left =
          minus_zero _ _ (gold_for_none c coupons q.mine_count m (omega (int_laws, own, free)));
      others = λ x far no_gold. refl;
    }

-- The player's mines pay for it.
enough_lem :
    (c : Coupon) (coupons : Counts) (m : Mine) (q : Purse)
    → mine_eq m gold ≡ false
    → leb_ℤ (c.costs m -ℤ coupons m) (pos 0) ≡ false
    → ltb_ℤ (add_to q.mine_count m (pos 0 -ℤ (c.costs m -ℤ coupons m)) m) (pos 0) ≡ false
    → IsPaid c coupons m q (record {
      mine_count = add_to q.mine_count m (pos 0 -ℤ (c.costs m -ℤ coupons m));
      bank = add_to q.bank m (c.costs m -ℤ coupons m);
    })
enough_lem c coupons m q ne e s =
    let cost = c.costs m -ℤ coupons m in
    let costly = above_zero cost e in
    let left = not_below_zero _ s in
    let paid = add_to_self q.mine_count m (pos 0 -ℤ cost) in
    record {
      bank_covered =
          λ h. let had = h m in add_to-IsCovered q.bank m cost h (omega (int_laws, had, costly));
      covered = left;
      gold_left =
          add_to_other q.mine_count m gold (pos 0 -ℤ cost) ne
          ∙ minus_zero _ _ (
              gold_for_none c coupons q.mine_count m
                (omega (int_laws, left, ap pos_part paid, ap neg_part paid)));
      others = λ x far no_gold. add_to_other q.mine_count m x (pos 0 -ℤ cost) far;
    }

-- The player's gold pays for what is short.
short_lem :
    (c : Coupon) (coupons : Counts) (m : Mine) (q : Purse)
    → mine_eq m gold ≡ false
    → pos 0 ≤ℤ q.mine_count m
    → leb_ℤ (c.costs m -ℤ coupons m) (pos 0) ≡ false
    → (let mines = add_to q.mine_count m (pos 0 -ℤ (c.costs m -ℤ coupons m)) in
        ltb_ℤ (mines m) (pos 0) ≡ true
        → IsPaid c coupons m q (record {
          mine_count = write (add_to mines gold (mines m)) m (pos 0);
          bank =
              add_to
                (add_to (add_to q.bank m (c.costs m -ℤ coupons m)) m (mines m))
                gold
                (pos 0 -ℤ mines m);
        }))
short_lem c coupons m q ne own e s =
    let cost = c.costs m -ℤ coupons m in
    let mines = add_to q.mine_count m (pos 0 -ℤ cost) in
    let costly = above_zero cost e in
    let owes = below_zero (mines m) s in
    let paid = add_to_self q.mine_count m (pos 0 -ℤ cost) in
    let gains = ap pos_part paid in
    let losses = ap neg_part paid in
    let kept = add_to_other q.mine_count m gold (pos 0 -ℤ cost) ne in
    record {
      bank_covered = λ h.
          let once = add_to-IsCovered q.bank m cost h (omega (int_laws, h m, costly)) in
          let in_bank = add_to_self q.bank m cost in
          let twice =
            add_to-IsCovered (add_to q.bank m cost) m (mines m) once (
              omega
                (int_laws, own, h m, gains, losses, ap pos_part in_bank, ap neg_part in_bank)) in
          add_to-IsCovered _ gold (pos 0 -ℤ mines m) twice (omega (int_laws, twice gold, owes));
      covered = rw (write_self (add_to mines gold (mines m)) m (pos 0)) (omega arith);
      gold_left =
          write_other (add_to mines gold (mines m)) m gold (pos 0) ne
          ∙ add_to_self mines gold (mines m)
          ∙ (rw kept (
              rw
                (gold_for_some c coupons q.mine_count m
                  (is_above_zero _ (omega (int_laws, owes, gains, losses))))
                (omega (int_laws, gains, losses))));
      others = λ x far no_gold.
          write_other (add_to mines gold (mines m)) m x (pos 0) far
          ∙ add_to_other mines gold x (mines m) no_gold
          ∙ add_to_other q.mine_count m x (pos 0 -ℤ cost) far;
    }

pub pay_one-IsPaid :
    (c : Coupon) (coupons : Counts) (m : Mine) (q : Purse)
    → mine_eq m gold ≡ false
    → pos 0 ≤ℤ q.mine_count m
    → IsPaid c coupons m q (pay_one c coupons m q)
unfolding pay_one
pay_one-IsPaid c coupons m q ne own =
    let cost = c.costs m -ℤ coupons m in
    let mines = add_to q.mine_count m (pos 0 -ℤ cost) in
    elim (Bool-cases (leb_ℤ cost (pos 0))) [
      | inl e ↦ rw e (free_lem c coupons m q own e)
      | inr e ↦ elim (Bool-cases (ltb_ℤ (mines m) (pos 0))) [
        | inl s ↦ rw (e, s) (short_lem c coupons m q ne own e s)
        | inr s ↦ rw (e, s) (enough_lem c coupons m q ne e s)
      ]
    ]
