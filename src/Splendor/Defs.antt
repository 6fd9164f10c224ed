-- ===== src/Splendor/Defs.antt =====
-- The state of the class Splendor of src/Splendor.hpp.
-- An array indexed by Mine is a function from Mine. The arrays of five are read at the five mines
-- other than gold; the one write that could miss them, coupon_count[type]++, is checked where it
-- stands. The players are in the iteration order of the unordered_map. An int is an integer without
-- overflow.
use unopp_server.Prelude.Int.{ℤ, pos, negsuc, ◌+ℤ◌, eqb_ℤ}
use unopp_server.Prelude.{
  ℕ, zero, suc, Bool, List, [], ◌∷◌, Option, none, some, length, ◌==◌, if◌then◌else◌,
}

pub data Mine : Type 0 where
  copper diamond emerald iron netherite gold : Mine

abbrev pub mine_code : Mine → ℕ
mine_code copper = 0
mine_code diamond = 1
mine_code emerald = 2
mine_code iron = 3
mine_code netherite = 4
mine_code gold = 5

unfoldable pub mine_eq : Mine → Mine → Bool
mine_eq a b = mine_code a == mine_code b

-- The indices 0 to 4, and 0 to 5.
abbrev pub five_mines : List Mine
five_mines = copper ∷ diamond ∷ emerald ∷ iron ∷ netherite ∷ []

abbrev pub six_mines : List Mine
six_mines = copper ∷ diamond ∷ emerald ∷ iron ∷ netherite ∷ gold ∷ []

abbrev pub Counts : Type 0
Counts = Mine → ℤ

-- counts[m] = v
unfoldable pub write : Counts → Mine → ℤ → Counts
write counts m v x = if mine_eq m x then v else counts x

-- counts[m] += d
unfoldable pub add_to : Counts → Mine → ℤ → Counts
add_to counts m d = write counts m (counts m +ℤ d)

abbrev pub no_counts : Counts
no_counts m = pos 0

pub record Coupon : Type 0 where
  pub reputation : ℤ
  pub costs : Counts
  pub type : Mine
  pub level : ℕ
  pub idx : ℕ

-- Coupon::empty; the index that the initialiser leaves out is 0.
abbrev pub empty_coupon : ℕ → Coupon
empty_coupon level = record {
  reputation = negsuc 0;
  costs = no_counts;
  type = gold;
  level = level;
  idx = 0;
}

unfoldable pub is_empty : Coupon → Bool
is_empty c = eqb_ℤ c.reputation (negsuc 0)

pub record Ally : Type 0 where
  pub reputation : ℤ
  pub condition : Counts
  pub idx : ℕ
  pub owner_id : ℕ
  pub is_owned : Bool

pub data Status : Type 0 where
  waiting action need_return_mine choose_ally : Status

abbrev pub status_code : Status → ℕ
status_code waiting = 0
status_code action = 1
status_code need_return_mine = 2
status_code choose_ally = 3

pub record Player : Type 0 where
  pub coupons : List Coupon
  pub reserved_coupons : List Coupon
  pub coupon_count : Counts
  pub mine_count : Counts
  pub reputation : ℤ
  pub status : Status

-- Player{}
abbrev pub new_player : Player
new_player = record {
  coupons = [];
  reserved_coupons = [];
  coupon_count = no_counts;
  mine_count = no_counts;
  reputation = pos 0;
  status = waiting;
}

-- The object in last_action.
pub data Action : Type 0 where
  nothing : Action
  take_3 : ℕ → Mine → Mine → Mine → Action
  take_2 : ℕ → Mine → Action
  reserve_coupon buy_coupon buy_reserved_coupon : ℕ → Coupon → Action

pub record Splendor : Type 0 where
  pub bank : Counts
  pub coupons : List Coupon
  pub coupons_rest : List Coupon
  pub allies : List Ally
  pub players : List (ℕ × Player)
  pub last_action : Action
  pub ally_actions : List (ℕ × Ally)

-- The sum of counts over some mines.
unfoldable pub sum_counts : Counts → List Mine → ℤ
sum_counts counts [] = pos 0
sum_counts counts (m ∷ ms) = counts m +ℤ sum_counts counts ms

unfoldable pub total_mine_count : Player → ℤ
unfolding sum_counts
total_mine_count p = sum_counts p.mine_count six_mines

-- players.find(player), as a place in the iteration order.
unfoldable pub find_player : ℕ → List (ℕ × Player) → Option ℕ
find_player player [] = none
find_player player ((id, p) ∷ ps) =
    let rest = find_player player ps in
    if id == player then some 0 else elim rest [ none ↦ none | some i ↦ some (suc i) ]

-- it->second
unfoldable pub player_at : ℕ → List (ℕ × Player) → Option Player
player_at i [] = none
player_at zero ((id, p) ∷ ps) = some p
player_at (suc i) (e ∷ ps) = player_at i ps

-- A write through the iterator.
unfoldable pub modify : ℕ → (Player → Player) → List (ℕ × Player) → List (ℕ × Player)
modify i f [] = []
modify zero f ((id, p) ∷ ps) = (id, f p) ∷ ps
modify (suc i) f (e ∷ ps) = e ∷ modify i f ps

abbrev pub with_status : Status → Player → Player
with_status s p = record p { status = s }

-- std::advance(it, 1), and from the end to the beginning.
unfoldable pub following : ℕ → List (ℕ × Player) → ℕ
following i ps = if suc i == length ps then 0 else suc i

-- The player at `i` waits, and the next one acts.
unfoldable pub pass_turn : ℕ → Splendor → Splendor
pass_turn i g = record g {
  players =
      modify (following i g.players) (with_status action)
        (modify i (with_status waiting) g.players);
}
