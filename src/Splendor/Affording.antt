-- ===== src/Splendor/Affording.antt =====
-- Who can pay by check_affordabillity of src/Splendor.hpp owes nothing after a purchase.
use unopp_server.Prelude.Int.{ℤ, pos, ◌+ℤ◌, ◌-ℤ◌, ◌≤ℤ◌, ltb_ℤ, int_laws}
use unopp_server.Splendor.Defs.{Mine, gold, mine_eq, five_mines, Counts, Coupon, Player}
use unopp_server.Splendor.Buying.{affordable, check_affordabillity, Purse, pay_one, pay, purchase}
use unopp_server.Splendor.Sums.{mine_eq-eq}
use unopp_server.Splendor.Payment.{mine_eq_comm}
use unopp_server.Prelude.{
  ◌≡◌, refl, ◌∙◌, subst, true, false, List, [], ◌∷◌, arith, Bool-cases, inl, inr,
}
use unopp_server.Splendor.Covered.{IsCovered, missing, gold_for, IsPaid, pay_one-IsPaid}

-- The mines of a list are apart from one another and from the gold.
abbrev IsFresh : Mine → List Mine → Type 0
IsFresh m [] = Unit
IsFresh m (x ∷ xs) = (mine_eq m x ≡ false) × IsFresh m xs

abbrev AreApart : List Mine → Type 0
AreApart [] = Unit
AreApart (m ∷ ms) = (mine_eq m gold ≡ false) × IsFresh m ms × AreApart ms

five_mines-AreApart : AreApart five_mines
unfolding mine_eq
five_mines-AreApart = (
  refl,
  (refl, (refl, (refl, (refl, tt)))),
  (
    refl,
    (refl, (refl, (refl, tt))),
    (refl, (refl, (refl, tt)), (refl, (refl, tt), (refl, tt, tt))),
  ),
)

-- They are still as many as the player's.
abbrev AreUntouched : Counts → Counts → List Mine → Type 0
AreUntouched now before [] = Unit
AreUntouched now before (m ∷ ms) = (now m ≡ before m) × AreUntouched now before ms

untouched_all : (counts : Counts) (ms : List Mine) → AreUntouched counts counts ms
untouched_all counts [] = tt
untouched_all counts (m ∷ ms) = (refl, untouched_all counts ms)

untouched_later :
    (c : Coupon) (coupons before : Counts) (m : Mine) (q q' : Purse) (ms : List Mine)
    → IsPaid c coupons m q q'
    → IsFresh m ms
    → AreApart ms
    → AreUntouched q.mine_count before ms
    → AreUntouched q'.mine_count before ms
untouched_later c coupons before m q q' [] paid fresh apart h = tt
untouched_later c coupons before m q q' (x ∷ xs) paid fresh apart h = (
  paid.others x fresh.0 (mine_eq_comm gold x ∙ apart.0) ∙ h.0,
  untouched_later c coupons before m q q' xs paid fresh.1 apart.2 h.1,
)

left_lem :
    (p : Player) (c : Coupon) (gold_cnt : ℤ) (m : Mine)
    → pos 0 ≤ℤ gold_cnt
    → ltb_ℤ (p.mine_count m +ℤ p.coupon_count m +ℤ gold_cnt) (c.costs m) ≡ false
    → pos 0 ≤ℤ gold_cnt -ℤ gold_for c p.coupon_count p.mine_count m
left_lem p c gold_cnt m has e =
    let due = missing c p.coupon_count p.mine_count m in
    let enough : c.costs m ≤ℤ p.mine_count m +ℤ p.coupon_count m +ℤ gold_cnt = ground arith in
    elim (Bool-cases (ltb_ℤ (pos 0) due)) [
      | inl k ↦ rw k (omega (int_laws, enough))
      | inr k ↦ rw k (omega (int_laws, has))
    ]

-- One round of check_affordabillity.
affordable_round :
    (p : Player) (c : Coupon) (gold_cnt : ℤ) (m : Mine) (ms : List Mine)
    → pos 0 ≤ℤ gold_cnt
    → affordable p c gold_cnt (m ∷ ms) ≡ true
    → (pos 0 ≤ℤ gold_cnt -ℤ gold_for c p.coupon_count p.mine_count m)
      × (affordable p c (gold_cnt -ℤ gold_for c p.coupon_count p.mine_count m) ms ≡ true)
unfolding affordable
affordable_round p c gold_cnt m ms has h =
    elim (Bool-cases (ltb_ℤ (p.mine_count m +ℤ p.coupon_count m +ℤ gold_cnt) (c.costs m))) [
      | inl e ↦ let gone = rw e at h in ground arith
      | inr e ↦ (left_lem p c gold_cnt m has e, rw e at h)
    ]

record IsSound (q : Purse) : Type 0 where
  bank : IsCovered q.bank
  mines : IsCovered q.mine_count

pay_one-IsSound :
    (c : Coupon) (coupons : Counts) (m : Mine) (q q' : Purse)
    → IsPaid c coupons m q q'
    → pos 0 ≤ℤ q.mine_count gold -ℤ gold_for c coupons q.mine_count m
    → IsSound q
    → IsSound q'
pay_one-IsSound c coupons m q q' paid left sound = record {
  bank = paid.bank_covered sound.bank;
  mines = λ x. elim (Bool-cases (mine_eq m x)) [
    | inl e ↦ subst (λ y. pos 0 ≤ℤ q'.mine_count y) (mine_eq-eq m x e) paid.covered
    | inr e ↦ elim (Bool-cases (mine_eq gold x)) [
      | inl k ↦ subst (λ y. pos 0 ≤ℤ q'.mine_count y) (mine_eq-eq gold x k) (rw paid.gold_left left)
      | inr k ↦ rw (paid.others x e k) (sound.mines x)
    ]
  ];
}

pay-IsSound :
    (c : Coupon) (p : Player) (ms : List Mine) (q : Purse)
    → AreApart ms
    → AreUntouched q.mine_count p.mine_count ms
    → affordable p c (q.mine_count gold) ms ≡ true
    → IsSound q
    → IsSound (pay c p.coupon_count ms q)
unfolding pay
pay-IsSound c p [] q apart same ok sound = sound
pay-IsSound c p (m ∷ ms) q apart same ok sound =
    let coupons = p.coupon_count in
    let q' = pay_one c coupons m q in
    let paid = pay_one-IsPaid c coupons m q apart.0 (sound.mines m) in
    let go_on = affordable_round p c (q.mine_count gold) m ms (sound.mines gold) ok in
    let gold_same : gold_for c coupons q.mine_count m ≡ gold_for c coupons p.mine_count m =
      rw same.0 refl in
    pay-IsSound c p ms q' apart.2
      (untouched_later c coupons p.mine_count m q q' ms paid apart.1 apart.2 same.1)
      (rw (paid.gold_left, gold_same) go_on.1)
      (pay_one-IsSound c coupons m q q' paid (rw gold_same go_on.0) sound)

-- Who can pay by check_affordabillity is left with no count below 0, and so is the bank.
pub purchase-IsCovered :
    (c : Coupon) (p : Player) (bank : Counts)
    → check_affordabillity p c ≡ true
    → IsCovered bank
    → IsCovered p.mine_count
    → IsCovered (purchase c p bank).1 × IsCovered (purchase c p bank).0.mine_count
unfolding purchase check_affordabillity
purchase-IsCovered c p bank ok in_bank mines =
    let q : Purse = record { mine_count = p.mine_count; bank = bank } in
    let sound =
      pay-IsSound c p five_mines q five_mines-AreApart (untouched_all p.mine_count five_mines) ok
        (record { bank = in_bank; mines = mines }) in
    (sound.bank, sound.mines)
