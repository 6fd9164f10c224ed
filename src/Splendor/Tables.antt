-- ===== src/Splendor/Tables.antt =====
-- The tables in the constructor of src/Splendor.hpp: the allies and the coupons of the three levels.
use unopp_server.Prelude.Int.{pos}
use unopp_server.Splendor.Defs.{
  Mine, copper, diamond, emerald, iron, netherite, gold, Counts, Coupon, Ally,
}
use unopp_server.Prelude.{ℕ, false, List, [], ◌∷◌}

-- An array of five.
unfoldable pub five : ℕ → ℕ → ℕ → ℕ → ℕ → Counts
five a b c d e copper = pos a
five a b c d e diamond = pos b
five a b c d e emerald = pos c
five a b c d e iron = pos d
five a b c d e netherite = pos e
five a b c d e gold = pos 0

unfoldable pub coupon : ℕ → Counts → Mine → ℕ → ℕ → Coupon
coupon reputation costs type level idx = record {
  reputation = pos reputation;
  costs = costs;
  type = type;
  level = level;
  idx = idx;
}

unfoldable pub ally : ℕ → Counts → ℕ → Ally
ally reputation condition idx = record {
  reputation = pos reputation;
  condition = condition;
  idx = idx;
  owner_id = 0;
  is_owned = false;
}

unfoldable pub all_allies : List Ally
all_allies =
    ally 3 (five 0 4 4 0 0) 1
    ∷ ally 3 (five 3 3 3 0 0) 2
    ∷ ally 3 (five 0 3 3 3 0) 3
    ∷ ally 3 (five 3 0 0 3 3) 4
    ∷ ally 3 (five 3 0 3 0 3) 5
    ∷ ally 3 (five 4 0 4 0 0) 6
    ∷ ally 3 (five 4 0 0 0 4) 7
    ∷ ally 3 (five 0 4 0 4 0) 8
    ∷ ally 3 (five 0 3 0 3 3) 9
    ∷ ally 3 (five 0 0 0 4 4) 10
    ∷ []

unfoldable pub all_coupons_lv1 : List Coupon
all_coupons_lv1 =
    coupon 0 (five 0 0 0 3 0) copper 1 1
    ∷ coupon 0 (five 1 0 0 1 3) copper 1 2
    ∷ coupon 0 (five 0 2 1 0 0) copper 1 3
    ∷ coupon 0 (five 0 0 1 2 2) copper 1 4
    ∷ coupon 0 (five 0 1 1 2 1) copper 1 5
    ∷ coupon 0 (five 0 1 1 1 1) copper 1 6
    ∷ coupon 0 (five 2 0 0 2 0) copper 1 7
    ∷ coupon 1 (five 0 0 0 4 0) copper 1 8
    ∷ coupon 0 (five 0 0 0 1 2) diamond 1 9
    ∷ coupon 0 (five 2 0 1 1 1) diamond 1 10
    ∷ coupon 0 (five 1 0 1 1 1) diamond 1 11
    ∷ coupon 0 (five 1 1 3 0 0) diamond 1 12
    ∷ coupon 0 (five 0 0 0 0 3) diamond 1 13
    ∷ coupon 0 (five 2 0 2 1 0) diamond 1 14
    ∷ coupon 0 (five 0 0 2 0 2) diamond 1 15
    ∷ coupon 1 (five 0 0 0 0 4) diamond 1 16
    ∷ coupon 0 (five 0 1 0 2 0) emerald 1 17
    ∷ coupon 0 (five 2 2 0 0 0) emerald 1 18
    ∷ coupon 0 (five 0 3 1 1 0) emerald 1 19
    ∷ coupon 0 (five 1 1 0 1 1) emerald 1 20
    ∷ coupon 0 (five 1 1 0 1 2) emerald 1 21
    ∷ coupon 0 (five 2 1 0 0 2) emerald 1 22
    ∷ coupon 0 (five 3 0 0 0 0) emerald 1 23
    ∷ coupon 1 (five 0 0 0 0 4) emerald 1 24
    ∷ coupon 0 (five 0 2 2 0 1) iron 1 25
    ∷ coupon 0 (five 2 0 0 0 1) iron 1 26
    ∷ coupon 0 (five 1 1 1 0 1) iron 1 27
    ∷ coupon 0 (five 0 3 0 0 0) iron 1 28
    ∷ coupon 0 (five 0 2 0 0 2) iron 1 29
    ∷ coupon 0 (five 1 1 2 0 1) iron 1 30
    ∷ coupon 0 (five 0 1 0 0 1) iron 1 31
    ∷ coupon 1 (five 0 0 4 0 0) iron 1 32
    ∷ coupon 0 (five 1 1 1 1 0) netherite 1 33
    ∷ coupon 0 (five 1 0 2 0 0) netherite 1 34
    ∷ coupon 0 (five 0 0 2 2 0) netherite 1 35
    ∷ coupon 0 (five 3 0 1 0 1) netherite 1 36
    ∷ coupon 0 (five 0 0 3 0 0) netherite 1 37
    ∷ coupon 0 (five 1 2 1 1 0) netherite 1 38
    ∷ coupon 0 (five 1 2 0 1 0) netherite 1 39
    ∷ coupon 1 (five 0 4 0 0 0) netherite 1 40
    ∷ []

unfoldable pub all_coupons_lv2 : List Coupon
all_coupons_lv2 =
    coupon 1 (five 2 3 0 0 3) copper 2 41
    ∷ coupon 1 (five 2 0 0 2 3) copper 2 42
    ∷ coupon 2 (five 0 4 2 1 0) copper 2 43
    ∷ coupon 2 (five 0 0 0 3 5) copper 2 44
    ∷ coupon 2 (five 0 0 0 0 5) copper 2 45
    ∷ coupon 3 (five 6 0 0 0 0) copper 2 46
    ∷ coupon 1 (five 3 2 2 0 0) diamond 2 47
    ∷ coupon 1 (five 0 2 3 0 3) diamond 2 48
    ∷ coupon 2 (five 0 3 0 5 0) diamond 2 49
    ∷ coupon 2 (five 0 5 0 0 0) diamond 2 50
    ∷ coupon 2 (five 1 0 0 2 4) diamond 2 51
    ∷ coupon 3 (five 0 6 0 0 0) diamond 2 52
    ∷ coupon 1 (five 3 0 2 3 0) emerald 2 53
    ∷ coupon 1 (five 0 3 0 3 2) emerald 2 54
    ∷ coupon 2 (five 0 2 0 4 1) emerald 2 55
    ∷ coupon 2 (five 0 0 5 0 0) emerald 2 56
    ∷ coupon 2 (five 0 5 3 0 0) emerald 2 57
    ∷ coupon 3 (five 0 0 6 0 0) emerald 2 58
    ∷ coupon 1 (five 2 0 3 0 2) iron 2 59
    ∷ coupon 1 (five 3 3 0 2 0) iron 2 60
    ∷ coupon 2 (five 4 0 1 0 2) iron 2 61
    ∷ coupon 2 (five 5 0 0 0 0) iron 2 62
    ∷ coupon 2 (five 5 0 0 0 3) iron 2 63
    ∷ coupon 3 (five 0 0 0 6 0) iron 2 64
    ∷ coupon 1 (five 0 2 2 3 0) netherite 2 65
    ∷ coupon 1 (five 0 0 3 3 2) netherite 2 66
    ∷ coupon 2 (five 2 1 4 0 0) netherite 2 67
    ∷ coupon 2 (five 0 0 0 5 0) netherite 2 68
    ∷ coupon 2 (five 3 0 5 0 0) netherite 2 69
    ∷ coupon 3 (five 0 0 0 0 6) netherite 2 70
    ∷ []

unfoldable pub all_coupons_lv3 : List Coupon
all_coupons_lv3 =
    coupon 3 (five 0 5 3 3 3) copper 3 71
    ∷ coupon 4 (five 0 0 7 0 0) copper 3 72
    ∷ coupon 4 (five 3 3 6 0 0) copper 3 73
    ∷ coupon 5 (five 3 0 7 0 0) copper 3 74
    ∷ coupon 3 (five 3 0 3 3 5) diamond 3 75
    ∷ coupon 4 (five 0 0 0 7 0) diamond 3 76
    ∷ coupon 4 (five 0 3 0 6 3) diamond 3 77
    ∷ coupon 5 (five 0 3 0 7 0) diamond 3 78
    ∷ coupon 3 (five 3 3 0 5 3) emerald 3 79
    ∷ coupon 4 (five 0 6 3 3 0) emerald 3 80
    ∷ coupon 4 (five 0 7 0 0 0) emerald 3 81
    ∷ coupon 5 (five 0 7 3 0 0) emerald 3 82
    ∷ coupon 3 (five 5 3 3 0 3) iron 3 83
    ∷ coupon 4 (five 0 0 0 0 7) iron 3 84
    ∷ coupon 4 (five 3 0 0 3 6) iron 3 85
    ∷ coupon 5 (five 0 0 0 3 7) iron 3 86
    ∷ coupon 3 (five 3 3 5 3 0) netherite 3 87
    ∷ coupon 4 (five 7 0 0 0 0) netherite 3 88
    ∷ coupon 4 (five 6 0 3 0 3) netherite 3 89
    ∷ coupon 5 (five 7 0 0 0 3) netherite 3 90
    ∷ []
