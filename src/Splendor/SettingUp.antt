-- ===== src/Splendor/SettingUp.antt =====
-- What new_game of Splendor/Setup.antt, the constructor of src/Splendor.hpp, sets up.
use unopp_server.Prelude.Int.{pos, ◌+ℤ◌}
use unopp_server.Prelude.Shuffle.{swap, shuffle, shuffle_weight, length-shuffle, length-swap}
use unopp_server.Splendor.Defs.{
  Mine, Coupon, Ally, action, status_code, Player, new_player, Splendor, modify, with_status,
}
use unopp_server.Splendor.Tables.{
  all_allies, all_coupons_lv1, all_coupons_lv2, all_coupons_lv3, coupon,
}
use unopp_server.Splendor.Setup.{first_bank, choose_allies, in_rest, on_show, seat, new_game}
use unopp_server.Splendor.Sums.{sum_players, sum_players-same, +ℤ_zero}
use unopp_server.Splendor.Supply.{mines_of, supply}
use native.Mathlib.Nat.{mod-lt}
use unopp_server.Prelude.{
  ℕ, zero, suc, ◌+◌, ◌-◌, ◌%◌, ◌≤◌, ◌<◌, ◌≡◌, refl, sym, ap, ◌∙◌, List, [], ◌∷◌, ◌++◌, map, arith,
  length, get_elem?, length-drop, length-append, get_elem?-some, sum_by, sum_by-append,
  sum_by-take-drop, if◌then◌else◌, ◌==◌, Defined, Defined->>=, fails, returns, Ensures, Ensures->>=,
  Ensures-bind,
}

-- n, n + 1 and so on, k numbers.
abbrev pub up_from : ℕ → ℕ → List ℕ
up_from n zero = []
up_from n (suc k) = n ∷ up_from (suc n) k

sum_by-map {ℓ} :
    {A : Type ℓ} (w : ℕ → ℕ) (f : A → ℕ) (xs : List A)
    → sum_by (λ x. w (f x)) xs ≡ sum_by w (map f xs)
sum_by-map w f [] = refl
sum_by-map w f (x ∷ xs) = ap (λ s. w (f x) + s) (sum_by-map w f xs)

abbrev idx_of : Coupon → ℕ
idx_of c = c.idx

idxs_lv1 : map idx_of all_coupons_lv1 ≡ up_from 1 40
unfolding all_coupons_lv1 coupon
idxs_lv1 = refl

idxs_lv2 : map idx_of all_coupons_lv2 ≡ up_from 41 30
unfolding all_coupons_lv2 coupon
idxs_lv2 = refl

idxs_lv3 : map idx_of all_coupons_lv3 ≡ up_from 71 20
unfolding all_coupons_lv3 coupon
idxs_lv3 = refl

length-lv1 : length all_coupons_lv1 ≡ 40
unfolding all_coupons_lv1
length-lv1 = refl

length-lv2 : length all_coupons_lv2 ≡ 30
unfolding all_coupons_lv2
length-lv2 = refl

length-lv3 : length all_coupons_lv3 ≡ 20
unfolding all_coupons_lv3
length-lv3 = refl

length-all_allies : length all_allies ≡ 10
unfolding all_allies
length-all_allies = refl

-- A level's coupons lie in the rest or on show.
level_weight :
    (w : ℕ → ℕ) (rand : ℕ → ℕ) (last : ℕ) (table : List Coupon) (idxs : List ℕ)
    → map idx_of table ≡ idxs
    → sum_by (λ (c : Coupon). w c.idx) (in_rest rand last table)
        + sum_by (λ (c : Coupon). w c.idx) (on_show rand last table)
      ≡ sum_by w idxs
unfolding in_rest on_show
level_weight w rand last table idxs e =
    sum_by-take-drop (λ (c : Coupon). w c.idx) (last - 3) (shuffle rand last table)
    ∙ shuffle_weight (λ (c : Coupon). w c.idx) rand last table
    ∙ sum_by-map w idx_of table
    ∙ ap (sum_by w) e

length-on_show :
    (rand : ℕ → ℕ) (last : ℕ) (table : List Coupon)
    → length (on_show rand last table) ≡ length table - (last - 3)
unfolding on_show
length-on_show rand last table =
    length-drop (last - 3) (shuffle rand last table)
    ∙ ap (λ n. n - (last - 3)) (length-shuffle rand last table)

-- The players before one of them acts.
abbrev seated : List ℕ → List (ℕ × Player)
seated ids = map (λ i. (i, new_player)) ids

-- Who acts.
abbrev pub acting : ℕ × Player → ℕ
acting e = if status_code e.1.status == 1 then 1 else 0

acting_none : (ids : List ℕ) → sum_by acting (seated ids) ≡ 0
acting_none [] = refl
acting_none (id ∷ ids) = omega (arith, acting_none ids)

acting_one :
    (k : ℕ) (ids : List ℕ)
    → k < length ids
    → sum_by acting (modify k (with_status action) (seated ids)) ≡ 1
unfolding modify
acting_one k [] h = elim h [ ]
acting_one zero (id ∷ ids) h = omega (arith, acting_none ids)
acting_one (suc k) (id ∷ ids) h = omega (arith, acting_one k ids (omega arith))

length-seated : (ids : List ℕ) → length (seated ids) ≡ length ids
length-seated [] = refl
length-seated (id ∷ ids) = ap suc (length-seated ids)

mines_none : (m : Mine) (ids : List ℕ) → sum_players (mines_of m) (seated ids) ≡ pos 0
unfolding sum_players ◌+ℤ◌
mines_none m [] = refl
mines_none m (id ∷ ids) = ap (λ s. pos 0 +ℤ s) (mines_none m ids)

record Seated (ids : List ℕ) (ps : List (ℕ × Player)) : Type 0 where
  acts : sum_by acting ps ≡ 1
  poor : (m : Mine) → sum_players (mines_of m) ps ≡ pos 0

seat_lem : (first : ℕ) (ids : List ℕ) → Ensures (Seated ids) (seat first ids)
unfolding seat
seat_lem first [] = fails
seat_lem first (id ∷ ids) =
    let players : List (ℕ × Player) = map (λ i. (i, new_player)) (id ∷ ids) in
    let size = length-seated (id ∷ ids) in
    let in_bounds : first % length players < length players = mod-lt first (omega (arith, size)) in
    returns (record {
      acts = acting_one (first % length players) (id ∷ ids) (omega (arith, size, in_bounds));
      poor = λ m.
          sum_players-same (mines_of m) (with_status action) (λ p. refl) (first % length players)
            players
          ∙ mines_none m (id ∷ ids);
    })

choose_allies-length :
    (rand : ℕ → ℕ) (i count : ℕ) (xs : List Ally)
    → Ensures (λ allies. length allies ≡ count) (choose_allies rand i count xs)
unfolding choose_allies
choose_allies-length rand i zero xs = returns refl
choose_allies-length rand zero (suc count) xs = fails
choose_allies-length rand (suc i) (suc count) xs =
    Ensures-bind (get_elem? (swap (suc i) (rand (suc i) % suc i) xs) (suc i))
      λ a e. Ensures->>= (choose_allies-length rand i count _) λ rest n. returns (ap suc n)

-- Allies are left for one more than the players, up to eight players.
choose_allies-some :
    (rand : ℕ → ℕ) (i count : ℕ) (xs : List Ally)
    → i < length xs
    → count ≤ i
    → Defined (choose_allies rand i count xs)
unfolding choose_allies
choose_allies-some rand i zero xs h k = ([], refl)
choose_allies-some rand zero (suc count) xs h k = elim k [ ]
choose_allies-some rand (suc i) (suc count) xs h k =
    let swapped = swap (suc i) (rand (suc i) % suc i) xs in
    let size = length-swap (suc i) (rand (suc i) % suc i) xs in
    let (a, e) = get_elem?-some swapped (suc i) (omega (arith, size)) in
    let (rest, f) = choose_allies-some rand i count swapped (omega (arith, size)) (omega arith) in
    Defined->>= (get_elem? swapped (suc i)) _ a e
      (Defined->>= (choose_allies rand i count swapped) _ rest f (_, refl))

-- A game that begins: each coupon from 1 to 90 lies once, shown or in the rest; twelve are shown;
-- there is one ally more than players, and one player acts; all mines are the bank's.
pub record IsSetUp (player_ids : List ℕ) (g : Splendor) : Type 0 where
  pub idxs :
      (w : ℕ → ℕ)
      → sum_by (λ (c : Coupon). w c.idx) g.coupons + sum_by (λ (c : Coupon). w c.idx) g.coupons_rest
        ≡ sum_by w (up_from 1 90)
  pub shown : length g.coupons ≡ 12
  pub ally_count : length g.allies ≡ length player_ids + 1
  pub turns : sum_by acting g.players ≡ 1
  pub bank : (m : Mine) → g.bank m ≡ first_bank (length player_ids) m
  pub mines : (m : Mine) → supply m g ≡ first_bank (length player_ids) m

-- The sums of three levels.
sum_by-levels {ℓ} :
    {A : Type ℓ} (w : A → ℕ) (a b c : List A)
    → sum_by w (a ++ (b ++ c)) ≡ sum_by w a + (sum_by w b + sum_by w c)
sum_by-levels w a b c = omega (arith, sum_by-append w a (b ++ c), sum_by-append w b c)

up_from-levels :
    (w : ℕ → ℕ)
    → sum_by w (up_from 1 40) + (sum_by w (up_from 41 30) + sum_by w (up_from 71 20))
      ≡ sum_by w (up_from 1 90)
up_from-levels w = sym (sum_by-levels w (up_from 1 40) (up_from 41 30) (up_from 71 20))

-- Where the constructor ends, each coupon from 1 to 90 lies once, shown or in the rest; twelve are
-- shown; there is one ally more than players; one player acts; and the bank holds all mines.
pub new_game-IsSetUp :
    (rand : ℕ → ℕ → ℕ) (order : List ℕ → List ℕ) (first : ℕ) (player_ids : List ℕ)
    → Ensures (IsSetUp player_ids) (new_game rand order first player_ids)
unfolding new_game
new_game-IsSetUp rand order first player_ids =
    Ensures->>= (seat_lem first (order player_ids)) λ players s.
      Ensures->>= (choose_allies-length (rand 0) 9 (length player_ids + 1) all_allies) λ allies n.
        returns (record {
          idxs = λ w.
              let weigh = λ (c : Coupon). w c.idx in
              let level1 = level_weight w (rand 1) 39 all_coupons_lv1 (up_from 1 40) idxs_lv1 in
              let level2 = level_weight w (rand 2) 29 all_coupons_lv2 (up_from 41 30) idxs_lv2 in
              let level3 = level_weight w (rand 3) 19 all_coupons_lv3 (up_from 71 20) idxs_lv3 in
              omega (
                arith,
                level1,
                level2,
                level3,
                up_from-levels w,
                sum_by-levels weigh (on_show (rand 1) 39 all_coupons_lv1)
                    (on_show (rand 2) 29 all_coupons_lv2) (on_show (rand 3) 19 all_coupons_lv3),
                sum_by-levels weigh (in_rest (rand 1) 39 all_coupons_lv1)
                    (in_rest (rand 2) 29 all_coupons_lv2) (in_rest (rand 3) 19 all_coupons_lv3),
              );
          shown = omega (
            arith,
            length-append (on_show (rand 1) 39 all_coupons_lv1)
                (on_show (rand 2) 29 all_coupons_lv2 ++ on_show (rand 3) 19 all_coupons_lv3),
            length-append (on_show (rand 2) 29 all_coupons_lv2)
                (on_show (rand 3) 19 all_coupons_lv3),
            length-on_show (rand 1) 39 all_coupons_lv1,
            length-on_show (rand 2) 29 all_coupons_lv2,
            length-on_show (rand 3) 19 all_coupons_lv3,
            length-lv1,
            length-lv2,
            length-lv3,
          );
          ally_count = n;
          turns = s.acts;
          bank = λ m. refl;
          mines = λ m.
              ap (λ t. first_bank (length player_ids) m +ℤ t) (s.poor m)
              ∙ +ℤ_zero (first_bank (length player_ids) m);
        })

seat-some : (first : ℕ) (ids : List ℕ) → 1 ≤ length ids → Defined (seat first ids)
unfolding seat
seat-some first [] h = elim h [ ]
seat-some first (id ∷ ids) h = (_, refl)

-- For up to eight players, at least one of them, the constructor ends.
pub new_game-begins :
    (rand : ℕ → ℕ → ℕ) (order : List ℕ → List ℕ) (first : ℕ) (player_ids : List ℕ)
    → 1 ≤ length (order player_ids)
    → length player_ids ≤ 8
    → Defined (new_game rand order first player_ids)
unfolding new_game
new_game-begins rand order first player_ids h k =
    let (players, e) = seat-some first (order player_ids) h in
    let (allies, f) =
      choose_allies-some (rand 0) 9 (length player_ids + 1) all_allies
        (omega (arith, length-all_allies)) (omega arith) in
    Defined->>= (seat first (order player_ids)) _ players e (
      Defined->>= (choose_allies (rand 0) 9 (length player_ids + 1) all_allies) _ allies f
        (_, refl))
