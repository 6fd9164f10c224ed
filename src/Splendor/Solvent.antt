-- ===== src/Splendor/Solvent.antt =====
-- A state of src/Splendor.hpp in which no count of mines is below 0, and the steps of the moves.
use unopp_server.Prelude.Int.{pos, ◌≤ℤ◌, ltb_ℤ, eqb_ℤ, int_laws}
use unopp_server.Splendor.Defs.{
  Mine, five_mines, Counts, add_to, Ally, Status, waiting, action, need_return_mine, Player,
  Splendor, total_mine_count, player_at, modify, with_status, pass_turn, following,
}
use unopp_server.Splendor.Moves.{minus_one, turn_of, finish, fill_coupon, after_return}
use unopp_server.Splendor.Buying.{meets, award, award_all, check_ally, finish_purchase}
use unopp_server.Splendor.Supply.{turn_of_player, fill_coupon-same}
use unopp_server.Splendor.Covered.{IsCovered, add_to-IsCovered}
use unopp_server.Prelude.{
  ℕ, zero, suc, ◌≡◌, subst, Bool, true, false, List, [], ◌∷◌, some, arith, if◌then◌else◌,
  Bool-cases, inl, inr,
}

abbrev pub AreCovered : List (ℕ × Player) → Type 0
AreCovered [] = Unit
AreCovered ((id, p) ∷ ps) = IsCovered p.mine_count × AreCovered ps

-- No count of mines is below 0, of the bank or of a player.
pub record IsSolvent (g : Splendor) : Type 0 where
  pub bank : IsCovered g.bank
  pub players : AreCovered g.players

pub AreCovered-modify :
    (f : Player → Player)
    → ((p : Player) → IsCovered p.mine_count → IsCovered (f p).mine_count)
    → (i : ℕ) (ps : List (ℕ × Player)) → AreCovered ps
    → AreCovered (modify i f ps)
unfolding modify
AreCovered-modify f keeps i [] h = tt
AreCovered-modify f keeps zero ((id, p) ∷ ps) h = (keeps p h.0, h.1)
AreCovered-modify f keeps (suc i) ((id, p) ∷ ps) h = (h.0, AreCovered-modify f keeps i ps h.1)

pub AreCovered-player_at :
    (i : ℕ) (ps : List (ℕ × Player)) (p : Player)
    → player_at i ps ≡ some p
    → AreCovered ps
    → IsCovered p.mine_count
unfolding player_at
AreCovered-player_at i [] p e h = cc
AreCovered-player_at zero ((id, q) ∷ ps) p e h =
    let same : q ≡ p = cc in subst (λ x. IsCovered x.mine_count) same h.0
AreCovered-player_at (suc i) ((id, q) ∷ ps) p e h = AreCovered-player_at i ps p e h.1

-- The player of a move.
pub turn_of-IsCovered :
    (s : Status) (player : ℕ) (g : Splendor) {i : ℕ} {p : Player}
    → IsSolvent g
    → turn_of s player g ≡ some (i, p)
    → IsCovered p.mine_count
turn_of-IsCovered s player g {i} {p} h e =
    AreCovered-player_at i g.players p (turn_of_player s player g e) h.players

-- The bank and the player at the place change.
pub changed :
    (g h : Splendor) (i : ℕ) (p : Player)
    → IsSolvent g
    → h.players ≡ modify i (λ _. p) g.players
    → IsCovered h.bank
    → IsCovered p.mine_count
    → IsSolvent h
changed g h i p solvent e in_bank mines = record {
  bank = in_bank;
  players = rw e (AreCovered-modify (λ _. p) (λ q old. mines) i g.players solvent.players);
}

with_status-IsSolvent :
    (s : Status) (i : ℕ) (g : Splendor)
    → IsSolvent g
    → IsSolvent (record g { players = modify i (with_status s) g.players })
with_status-IsSolvent s i g h = record {
  bank = h.bank;
  players = AreCovered-modify (with_status s) (λ p own. own) i g.players h.players;
}

pass_turn-IsSolvent : (i : ℕ) (g : Splendor) → IsSolvent g → IsSolvent (pass_turn i g)
unfolding pass_turn
pass_turn-IsSolvent i g h =
    with_status-IsSolvent action (following i g.players)
      (record g { players = modify i (with_status waiting) g.players })
      (with_status-IsSolvent waiting i g h)

pub finish-IsSolvent : (i : ℕ) (p : Player) (g : Splendor) → IsSolvent g → IsSolvent (finish i p g)
unfolding finish
finish-IsSolvent i p g h = elim (Bool-cases (ltb_ℤ (pos 10) (total_mine_count p))) [
  | inl e ↦ rw e (with_status-IsSolvent need_return_mine i g h)
  | inr e ↦ rw e (pass_turn-IsSolvent i g h)
]

pub after_return-IsSolvent :
    (i : ℕ) (p : Player) (g : Splendor) → IsSolvent g → IsSolvent (after_return i p g)
unfolding after_return
after_return-IsSolvent i p g h = elim (Bool-cases (ltb_ℤ (total_mine_count p) (pos 11))) [
  | inl e ↦ rw e (pass_turn-IsSolvent i g h)
  | inr e ↦ rw e h
]

pub fill_coupon-IsSolvent :
    (level coupon_idx : ℕ) (g : Splendor) → IsSolvent g → IsSolvent (fill_coupon level coupon_idx g)
fill_coupon-IsSolvent level coupon_idx g h =
    let same = fill_coupon-same level coupon_idx g in
    record { bank = rw same.1 h.bank; players = rw same.0 h.players }

-- The allies give no mines.
AreCovered-award : (a : Ally) (ps : List (ℕ × Player)) → AreCovered ps → AreCovered (award a ps).1
unfolding award
AreCovered-award a [] h = tt
AreCovered-award a ((id, p) ∷ ps) h = elim (Bool-cases (meets p a five_mines)) [
  | inl e ↦
      rw (e, award) (h.0, AreCovered-award (record a { is_owned = true; owner_id = id }) ps h.1)
  | inr e ↦ rw (e, award) (h.0, AreCovered-award a ps h.1)
]

AreCovered-award_unless :
    (owned : Bool) (a : Ally) (ps : List (ℕ × Player))
    → AreCovered ps
    → let kept : Ally × List (ℕ × Player) × List (ℕ × Ally) = (a, ps, []) in
      AreCovered (if owned then kept else award a ps).1
AreCovered-award_unless true a ps h = h
AreCovered-award_unless false a ps h = AreCovered-award a ps h

AreCovered-award_all :
    (allies : List Ally) (ps : List (ℕ × Player))
    → AreCovered ps
    → AreCovered (award_all allies ps).1
unfolding award_all
AreCovered-award_all [] ps h = h
AreCovered-award_all (a ∷ rest) ps h =
    AreCovered-award_all rest _ (AreCovered-award_unless a.is_owned a ps h)

pub finish_purchase-IsSolvent :
    (i : ℕ) (g : Splendor) → IsSolvent g → IsSolvent (finish_purchase i g)
unfolding finish_purchase check_ally
finish_purchase-IsSolvent i g h =
    let passed = pass_turn-IsSolvent i g h in
    record {
      bank = passed.bank;
      players = AreCovered-award_all (pass_turn i g).allies (pass_turn i g).players passed.players;
    }

-- Mines that are added, and mines that are taken from enough.
pub gain :
    (counts : Counts) (m : Mine) (n : ℕ) → IsCovered counts → IsCovered (add_to counts m (pos n))
gain counts m n h = add_to-IsCovered counts m (pos n) h (omega (int_laws, h m))

pub lose_one :
    (counts : Counts) (m : Mine)
    → IsCovered counts
    → eqb_ℤ (counts m) (pos 0) ≡ false
    → IsCovered (add_to counts m minus_one)
lose_one counts m h some_left =
    let had = h m in
    let enough : pos 1 ≤ℤ counts m = ground arith in
    add_to-IsCovered counts m minus_one h (omega (int_laws, enough))
