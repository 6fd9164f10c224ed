-- ===== src/Splendor/Limit.antt =====
-- The limit of ten mines in src/Splendor.hpp: a player above it has mines to return.
use unopp_server.Splendor.Defs.{
  five_mines, need_return_mine, waiting, action, status_code, Status, sum_counts, Ally, Player,
  new_player, Splendor, total_mine_count, player_at, modify, with_status, pass_turn, following,
}
use unopp_server.Splendor.Moves.{finish, after_return}
use unopp_server.Splendor.Buying.{meets, award, award_all, check_ally, finish_purchase}
use unopp_server.Splendor.Setup.{seat}
use unopp_server.Splendor.Turns.{
  turn_weight, turn_count, HasTurn, turn_count-modify, HasTurn-modify, turn_count-new,
}
use unopp_server.Splendor.Supply.{player_at-modify}
use unopp_server.Prelude.Int.{pos, ltb_ℤ, ◌+ℤ◌}
use unopp_server.Prelude.{
  ℕ, zero, suc, ◌%◌, ◌≡◌, refl, sym, subst, ◌∙◌, ◌==◌, ==_iff, Bool, true, false, List, [], ◌∷◌,
  map, some, arith, length, if◌then◌else◌, Bool-cases, inl, inr, fails, returns, Ensures,
}

-- The player has more than ten mines.
abbrev pub is_over : Player → Bool
is_over p = ltb_ℤ (pos 10) (total_mine_count p)

-- The player has to return mines.
abbrev pub is_returning : Player → Bool
is_returning p = status_code p.status == 2

abbrev pub IsLimited : Player → Type 0
IsLimited p = is_over p ≡ is_returning p

abbrev pub AreLimited : List (ℕ × Player) → Type 0
AreLimited [] = Unit
AreLimited ((id, p) ∷ ps) = IsLimited p × AreLimited ps

-- All but the one at the place.
abbrev pub AreOthersLimited : ℕ → List (ℕ × Player) → Type 0
AreOthersLimited i [] = Unit
AreOthersLimited zero ((id, p) ∷ ps) = AreLimited ps
AreOthersLimited (suc i) ((id, p) ∷ ps) = IsLimited p × AreOthersLimited i ps

pub others_of_all : (i : ℕ) (ps : List (ℕ × Player)) → AreLimited ps → AreOthersLimited i ps
others_of_all i [] h = tt
others_of_all zero ((id, p) ∷ ps) h = h.1
others_of_all (suc i) ((id, p) ∷ ps) h = (h.0, others_of_all i ps h.1)

pub AreOthersLimited-modify :
    (f : Player → Player) (i : ℕ) (ps : List (ℕ × Player))
    → AreOthersLimited i ps
    → AreOthersLimited i (modify i f ps)
unfolding modify
AreOthersLimited-modify f i [] h = tt
AreOthersLimited-modify f zero ((id, p) ∷ ps) h = h
AreOthersLimited-modify f (suc i) ((id, p) ∷ ps) h = (h.0, AreOthersLimited-modify f i ps h.1)

limited_all :
    (i : ℕ) (ps : List (ℕ × Player)) (p : Player)
    → player_at i ps ≡ some p
    → IsLimited p
    → AreOthersLimited i ps
    → AreLimited ps
unfolding player_at
limited_all i [] p e own h = tt
limited_all zero ((id, q) ∷ ps) p e own h =
    let same : q ≡ p = cc in (subst IsLimited (sym same) own, h)
limited_all (suc i) ((id, q) ∷ ps) p e own h = (h.0, limited_all i ps p e own h.1)

AreLimited-modify :
    (f : Player → Player) (i : ℕ) (ps : List (ℕ × Player)) (p : Player)
    → player_at i ps ≡ some p
    → IsLimited (f p)
    → AreOthersLimited i ps
    → AreLimited (modify i f ps)
AreLimited-modify f i ps p e own h =
    limited_all i (modify i f ps) (f p) (player_at-modify f i ps p e) own
      (AreOthersLimited-modify f i ps h)

pub IsLimited-player_at :
    (i : ℕ) (ps : List (ℕ × Player)) (p : Player)
    → player_at i ps ≡ some p
    → AreLimited ps
    → IsLimited p
unfolding player_at
IsLimited-player_at i [] p e h = cc
IsLimited-player_at zero ((id, q) ∷ ps) p e h = let same : q ≡ p = cc in subst IsLimited same h.0
IsLimited-player_at (suc i) ((id, q) ∷ ps) p e h = IsLimited-player_at i ps p e h.1

weight_zero : (s : Status) → turn_weight s ≡ 0 → (status_code s == 2) ≡ false
weight_zero waiting e = refl
weight_zero _ e = ground arith

few_lem : (p : Player) → turn_weight p.status ≡ 0 → IsLimited p → is_over p ≡ false
few_lem p waits h = h ∙ weight_zero p.status waits

-- Where all wait, one is given the turn.
AreLimited-action :
    (k : ℕ) (ps : List (ℕ × Player))
    → turn_count ps ≡ 0
    → AreLimited ps
    → AreLimited (modify k (with_status action) ps)
unfolding modify turn_count total_mine_count
AreLimited-action k [] none_has h = tt
AreLimited-action zero ((id, p) ∷ ps) none_has h = (few_lem p (omega arith) h.0, h.1)
AreLimited-action (suc k) ((id, p) ∷ ps) none_has h =
    (h.0, AreLimited-action k ps (omega arith) h.1)

-- The player at the place, who has the turn, is the only one who may be above the limit unnoticed.
pub record AtMove (i : ℕ) (ps : List (ℕ × Player)) (p : Player) : Type 0 where
  pub has : HasTurn i ps p
  pub others : AreOthersLimited i ps

pub AtMove-modify :
    (f : Player → Player) (i : ℕ) (ps : List (ℕ × Player)) (p : Player)
    → turn_weight (f p).status ≡ 1
    → AtMove i ps p
    → AtMove i (modify i f ps) (f p)
AtMove-modify f i ps p turn at = record {
  has = HasTurn-modify f i ps p turn at.has;
  others = AreOthersLimited-modify f i ps at.others;
}

pub pass_turn-AreLimited :
    (i : ℕ) (p : Player) (g : Splendor)
    → AtMove i g.players p
    → is_over p ≡ false
    → AreLimited (pass_turn i g).players
unfolding pass_turn total_mine_count
pass_turn-AreLimited i p g at few =
    let waits = with_status waiting in
    let counts = turn_count-modify waits i g.players p at.has.at in
    let had = at.has.turn in
    let one = at.has.one in
    AreLimited-action (following i g.players) (modify i waits g.players) (omega arith)
      (AreLimited-modify waits i g.players p at.has.at few at.others)

over_lem : (p : Player) → is_over p ≡ true → IsLimited (with_status need_return_mine p)
unfolding total_mine_count
over_lem p e = e

pub finish-AreLimited :
    (i : ℕ) (p : Player) (g : Splendor) → AtMove i g.players p → AreLimited (finish i p g).players
unfolding finish
finish-AreLimited i p g at = elim (Bool-cases (is_over p)) [
  | inl e ↦ rw e (
      AreLimited-modify (with_status need_return_mine) i g.players p at.has.at (over_lem p e)
        at.others)
  | inr e ↦ rw e (pass_turn-AreLimited i p g at e)
]

pub after_return-AreLimited :
    (i : ℕ) (p : Player) (g : Splendor)
    → AtMove i g.players p
    → status_code p.status ≡ status_code need_return_mine
    → AreLimited (after_return i p g).players
unfolding after_return
after_return-AreLimited i p g at more = elim (Bool-cases (ltb_ℤ (total_mine_count p) (pos 11))) [
  | inl e ↦ rw e (pass_turn-AreLimited i p g at (ground arith))
  | inr e ↦
      let over : is_over p ≡ true = ground arith in
      rw e (
        limited_all i g.players p at.has.at (over ∙ sym ((==_iff (status_code p.status) 2).1 more))
          at.others)
]

-- The allies give no mines.
AreLimited-award : (a : Ally) (ps : List (ℕ × Player)) → AreLimited ps → AreLimited (award a ps).1
unfolding award total_mine_count
AreLimited-award a [] h = tt
AreLimited-award a ((id, p) ∷ ps) h = elim (Bool-cases (meets p a five_mines)) [
  | inl e ↦
      rw (e, award) (h.0, AreLimited-award (record a { is_owned = true; owner_id = id }) ps h.1)
  | inr e ↦ rw (e, award) (h.0, AreLimited-award a ps h.1)
]

AreLimited-award_unless :
    (owned : Bool) (a : Ally) (ps : List (ℕ × Player))
    → AreLimited ps
    → let kept : Ally × List (ℕ × Player) × List (ℕ × Ally) = (a, ps, []) in
      AreLimited (if owned then kept else award a ps).1
AreLimited-award_unless true a ps h = h
AreLimited-award_unless false a ps h = AreLimited-award a ps h

AreLimited-award_all :
    (allies : List Ally) (ps : List (ℕ × Player))
    → AreLimited ps
    → AreLimited (award_all allies ps).1
unfolding award_all
AreLimited-award_all [] ps h = h
AreLimited-award_all (a ∷ rest) ps h =
    AreLimited-award_all rest _ (AreLimited-award_unless a.is_owned a ps h)

pub finish_purchase-AreLimited :
    (i : ℕ) (p : Player) (g : Splendor)
    → AtMove i g.players p
    → is_over p ≡ false
    → AreLimited (finish_purchase i g).players
unfolding finish_purchase check_ally
finish_purchase-AreLimited i p g at few =
    AreLimited-award_all (pass_turn i g).allies (pass_turn i g).players
      (pass_turn-AreLimited i p g at few)

AreLimited-new :
    (ids : List ℕ)
    → let seats : List (ℕ × Player) = map (λ i. (i, new_player)) ids in AreLimited seats
unfolding total_mine_count sum_counts ◌+ℤ◌
AreLimited-new [] = tt
AreLimited-new (id ∷ ids) = (refl, AreLimited-new ids)

pub seat-AreLimited : (first : ℕ) (ids : List ℕ) → Ensures AreLimited (seat first ids)
unfolding seat
seat-AreLimited first [] = fails
seat-AreLimited first (id ∷ ids) =
    let players : List (ℕ × Player) = map (λ i. (i, new_player)) (id ∷ ids) in
    returns (
      AreLimited-action (first % length players) players (turn_count-new (id ∷ ids))
        (AreLimited-new (id ∷ ids)))

-- One who acts is not above the limit.
pub limited_few :
    (p : Player) → status_code p.status ≡ status_code action → IsLimited p → is_over p ≡ false
limited_few p acts h = ground arith
