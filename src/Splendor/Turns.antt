-- ===== src/Splendor/Turns.antt =====
-- Whose turn it is in src/Splendor.hpp, and how a turn passes to the next player.
use unopp_server.Splendor.Defs.{
  Status, waiting, action, need_return_mine, choose_ally, five_mines, Ally, Player, new_player,
  Splendor, total_mine_count, player_at, modify, with_status, pass_turn, following,
}
use unopp_server.Splendor.Moves.{finish, after_return}
use unopp_server.Splendor.Buying.{meets, award, award_all, check_ally, finish_purchase}
use unopp_server.Splendor.Setup.{seat}
use unopp_server.Splendor.Supply.{player_at-modify}
use unopp_server.Prelude.Int.{pos, ltb_ℤ}
use native.Mathlib.Nat.{mod-lt}
use unopp_server.Prelude.{
  ℕ, zero, suc, ◌+◌, ◌%◌, ◌<◌, ◌≡◌, refl, ap, ◌∙◌, Bool, true, false, List, [], ◌∷◌, map, some,
  arith, length, if◌then◌else◌, Bool-cases, inl, inr, fails, returns, Ensures,
}

-- A player has the turn, or waits. No code sets choose_ally: it would count twice.
abbrev pub turn_weight : Status → ℕ
turn_weight waiting = 0
turn_weight action = 1
turn_weight need_return_mine = 1
turn_weight choose_ally = 2

unfoldable pub turn_count : List (ℕ × Player) → ℕ
turn_count [] = 0
turn_count ((id, p) ∷ ps) = turn_weight p.status + turn_count ps

-- The one turn is that of the player at the place.
pub record HasTurn (i : ℕ) (ps : List (ℕ × Player)) (p : Player) : Type 0 where
  pub at : player_at i ps ≡ some p
  pub turn : turn_weight p.status ≡ 1
  pub one : turn_count ps ≡ 1

pub turn_count-modify :
    (f : Player → Player) (i : ℕ) (ps : List (ℕ × Player)) (p : Player)
    → player_at i ps ≡ some p
    → turn_count (modify i f ps) + turn_weight p.status ≡ turn_count ps + turn_weight (f p).status
unfolding turn_count modify player_at
turn_count-modify f i [] p e = cc
turn_count-modify f zero ((id, q) ∷ ps) p e = let same : q ≡ p = cc in rw same (omega arith)
turn_count-modify f (suc i) ((id, q) ∷ ps) p e = omega (arith, turn_count-modify f i ps p e)

length-modify :
    (f : Player → Player) (i : ℕ) (ps : List (ℕ × Player)) → length (modify i f ps) ≡ length ps
unfolding modify
length-modify f i [] = refl
length-modify f zero ((id, q) ∷ ps) = refl
length-modify f (suc i) (q ∷ ps) = ap suc (length-modify f i ps)

player_at-below :
    (i : ℕ) (ps : List (ℕ × Player)) (p : Player) → player_at i ps ≡ some p → i < length ps
unfolding player_at
player_at-below i [] p e = cc
player_at-below zero ((id, q) ∷ ps) p e = omega arith
player_at-below (suc i) (q ∷ ps) p e = let ih = player_at-below i ps p e in omega arith

following-below : (i : ℕ) (ps : List (ℕ × Player)) → i < length ps → following i ps < length ps
unfolding following
following-below i ps h = ground arith

-- Where all wait, one is given the turn.
turn_count-action :
    (k : ℕ) (ps : List (ℕ × Player))
    → k < length ps
    → turn_count ps ≡ 0
    → turn_count (modify k (with_status action) ps) ≡ 1
unfolding turn_count modify
turn_count-action k [] h none_has = elim h [ ]
turn_count-action zero ((id, q) ∷ ps) h none_has = omega arith
turn_count-action (suc k) ((id, q) ∷ ps) h none_has =
    let ih = turn_count-action k ps (omega arith) (omega arith) in omega arith

pub HasTurn-modify :
    (f : Player → Player) (i : ℕ) (ps : List (ℕ × Player)) (p : Player)
    → turn_weight (f p).status ≡ 1
    → HasTurn i ps p
    → HasTurn i (modify i f ps) (f p)
HasTurn-modify f i ps p turn h = record {
  at = player_at-modify f i ps p h.at;
  turn = turn;
  one =
      let counts = turn_count-modify f i ps p h.at in
      let had = h.turn in let one = h.one in omega arith;
}

-- The turn passes, and is one again.
pub pass_turn-one :
    (i : ℕ) (p : Player) (g : Splendor)
    → HasTurn i g.players p
    → turn_count (pass_turn i g).players ≡ 1
unfolding pass_turn
pass_turn-one i p g h =
    let waits = with_status waiting in
    let counts = turn_count-modify waits i g.players p h.at in
    let had = h.turn in
    let one = h.one in
    let size = length-modify waits i g.players in
    let below = following-below i g.players (player_at-below i g.players p h.at) in
    turn_count-action (following i g.players) (modify i waits g.players) (omega arith) (omega arith)

pub finish-one :
    (i : ℕ) (p q : Player) (g : Splendor)
    → HasTurn i g.players p
    → turn_count (finish i q g).players ≡ 1
unfolding finish
finish-one i p q g h = elim (Bool-cases (ltb_ℤ (pos 10) (total_mine_count q))) [
  | inl e ↦ rw e (HasTurn-modify (with_status need_return_mine) i g.players p refl h).one
  | inr e ↦ rw e (pass_turn-one i p g h)
]

pub after_return-one :
    (i : ℕ) (p q : Player) (g : Splendor)
    → HasTurn i g.players p
    → turn_count (after_return i q g).players ≡ 1
unfolding after_return
after_return-one i p q g h = elim (Bool-cases (ltb_ℤ (total_mine_count q) (pos 11))) [
  | inl e ↦ rw e (pass_turn-one i p g h)
  | inr e ↦ rw e h.one
]

-- The allies change no turn.
turn_count-award : (a : Ally) (ps : List (ℕ × Player)) → turn_count (award a ps).1 ≡ turn_count ps
unfolding award turn_count
turn_count-award a [] = refl
turn_count-award a ((id, p) ∷ ps) = elim (Bool-cases (meets p a five_mines)) [
  | inl e ↦
      rw (e, award)
        (ap (λ s. turn_weight p.status + s)
          (turn_count-award (record a { is_owned = true; owner_id = id }) ps))
  | inr e ↦ rw (e, award) (ap (λ s. turn_weight p.status + s) (turn_count-award a ps))
]

turn_count-award_unless :
    (owned : Bool) (a : Ally) (ps : List (ℕ × Player))
    → (let kept : Ally × List (ℕ × Player) × List (ℕ × Ally) = (a, ps, []) in
        turn_count (if owned then kept else award a ps).1)
      ≡ turn_count ps
turn_count-award_unless true a ps = refl
turn_count-award_unless false a ps = turn_count-award a ps

turn_count-award_all :
    (allies : List Ally) (ps : List (ℕ × Player))
    → turn_count (award_all allies ps).1 ≡ turn_count ps
unfolding award_all
turn_count-award_all [] ps = refl
turn_count-award_all (a ∷ rest) ps =
    turn_count-award_all rest _ ∙ turn_count-award_unless a.is_owned a ps

pub finish_purchase-one :
    (i : ℕ) (p : Player) (g : Splendor)
    → HasTurn i g.players p
    → turn_count (finish_purchase i g).players ≡ 1
unfolding finish_purchase check_ally
finish_purchase-one i p g h =
    turn_count-award_all (pass_turn i g).allies (pass_turn i g).players ∙ pass_turn-one i p g h

pub turn_count-new :
    (ids : List ℕ)
    → (let seats : List (ℕ × Player) = map (λ i. (i, new_player)) ids in turn_count seats) ≡ 0
unfolding turn_count
turn_count-new [] = refl
turn_count-new (id ∷ ids) = omega (arith, turn_count-new ids)

pub seat-one : (first : ℕ) (ids : List ℕ) → Ensures (λ ps. turn_count ps ≡ 1) (seat first ids)
unfolding seat
seat-one first [] = fails
seat-one first (id ∷ ids) =
    let players : List (ℕ × Player) = map (λ i. (i, new_player)) (id ∷ ids) in
    returns (
      turn_count-action (first % length players) players (mod-lt first (omega arith))
        (turn_count-new (id ∷ ids)))
