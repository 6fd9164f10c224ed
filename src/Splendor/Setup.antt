-- ===== src/Splendor/Setup.antt =====
-- The constructor of src/Splendor.hpp.
-- What rand() returns is an argument: by the number of the loop, 0 for the allies and otherwise the
-- level, and by the loop's index. `order` is the iteration order of the unordered_map, a function of
-- the ids put in.
use unopp_server.Prelude.Int.{pos}
use unopp_server.Prelude.Shuffle.{swap, shuffle}
use unopp_server.Splendor.Defs.{
  Mine, gold, Counts, write, Coupon, Ally, Player, new_player, nothing, Splendor, action, modify,
  with_status,
}
use unopp_server.Splendor.Tables.{all_allies, all_coupons_lv1, all_coupons_lv2, all_coupons_lv3}
use unopp_server.Prelude.{
  ℕ, zero, suc, ◌+◌, ◌-◌, ◌%◌, List, [], ◌∷◌, ◌++◌, map, Option, none, some, length, get_elem?,
  take, drop, if◌then◌else◌, ◌==◌, ◌>>=◌,
}

-- The bank by the number of players.
unfoldable pub first_bank : ℕ → Counts
unfolding write
first_bank n =
    let each = λ (k : ℕ) (m : Mine). pos k in
    write (if n == 2 then each 4 else if n == 3 then each 5 else if n == 4 then each 7 else each 0)
      gold (pos 5)

-- The loop that picks `count` allies, from index i down. `none` is a remainder by 0.
unfoldable pub choose_allies : (ℕ → ℕ) → ℕ → ℕ → List Ally → Option (List Ally)
unfolding swap
choose_allies rand i zero xs = some []
choose_allies rand zero (suc count) xs = none
choose_allies rand (suc i) (suc count) xs =
    let swapped = swap (suc i) (rand (suc i) % suc i) xs in
    let others = choose_allies rand i count swapped in
    get_elem? swapped (suc i) >>= λ a. others >>= λ rest. some (a ∷ rest)

-- The coupons of one level: those that stay in the rest, and the four that are shown.
unfoldable pub in_rest : (ℕ → ℕ) → ℕ → List Coupon → List Coupon
unfolding shuffle
in_rest rand last table = take (last - 3) (shuffle rand last table)

unfoldable pub on_show : (ℕ → ℕ) → ℕ → List Coupon → List Coupon
unfolding shuffle
on_show rand last table = drop (last - 3) (shuffle rand last table)

-- players.emplace for each id, and the one who begins. `none` is a remainder by 0.
unfoldable pub seat : ℕ → List ℕ → Option (List (ℕ × Player))
unfolding modify
seat first [] = none
seat first (id ∷ ids) =
    let players : List (ℕ × Player) = map (λ i. (i, new_player)) (id ∷ ids) in
    some (modify (first % length players) (with_status action) players)

-- The constructor.
unfoldable pub new_game : (ℕ → ℕ → ℕ) → (List ℕ → List ℕ) → ℕ → List ℕ → Option Splendor
unfolding seat choose_allies in_rest on_show first_bank all_allies all_coupons_lv1 all_coupons_lv2
    all_coupons_lv3
new_game rand order first player_ids = do
  players ← seat first (order player_ids)
  allies ← choose_allies (rand 0) 9 (length player_ids + 1) all_allies
  some (record {
    bank = first_bank (length player_ids);
    coupons =
        on_show (rand 1) 39 all_coupons_lv1
        ++ (on_show (rand 2) 29 all_coupons_lv2 ++ on_show (rand 3) 19 all_coupons_lv3);
    coupons_rest =
        in_rest (rand 1) 39 all_coupons_lv1
        ++ (in_rest (rand 2) 29 all_coupons_lv2 ++ in_rest (rand 3) 19 all_coupons_lv3);
    allies = allies;
    players = players;
    last_action = nothing;
    ally_actions = [];
  })
