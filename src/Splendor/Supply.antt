-- ===== src/Splendor/Supply.antt =====
-- The moves of src/Splendor.hpp move mines between the bank and the players and make none.
use unopp_server.Prelude.Int.{
  ℤ, pos, negsuc, pos_part, neg_part, ◌+ℤ◌, ltb_ℤ, int_laws, eq_of_parts,
}
use unopp_server.Splendor.Defs.{
  Mine, gold, mine_eq, Counts, add_to, Coupon, Status, action, need_return_mine, Player, Action,
  Splendor, total_mine_count, player_at, modify, pass_turn, following,
}
use unopp_server.Splendor.Moves.{
  turn_of, finish, may_take_3, take_3_mines, take_2_mines, find_coupon, take_level, fill_coupon,
  take_gold, reserve, reserve_coupon, after_return, return_mine, minus_one,
}
use unopp_server.Splendor.Replies.{Replies, replies, Replies-if}
use unopp_server.Splendor.Sums.{add_to_lem, sum_players, sum_players-modify, sum_players-same}
use unopp_server.Prelude.{
  ℕ, ltb, ◌≡◌, refl, ap, ◌∙◌, ◌||◌, List, [], ◌∷◌, ◌++◌, some, arith, length, Bool-cases,
  Option-cases, inl, inr,
}

abbrev pub mines_of : Mine → Player → ℤ
mines_of m p = p.mine_count m

-- The mines of one kind that the bank and the players hold.
abbrev pub supply : Mine → Splendor → ℤ
supply m g = g.bank m +ℤ sum_players (mines_of m) g.players

pub record Conserves (g g' : Splendor) : Type 0 where
  pub mines : (m : Mine) → supply m g' ≡ supply m g

pub Conserves-refl : (g : Splendor) → Conserves g g
Conserves-refl g = record { mines = λ m. refl }

pub Conserves-trans : {f g h : Splendor} → Conserves f g → Conserves g h → Conserves f h
Conserves-trans a b = record { mines = λ m. b.mines m ∙ a.mines m }

pub turn_of_player :
    (s : Status) (player : ℕ) (g : Splendor) {i : ℕ} {p : Player}
    → turn_of s player g ≡ some (i, p)
    → player_at i g.players ≡ some p
unfolding turn_of
turn_of_player s player g {i} {p} e = ground arith

-- A player's mines and the bank change by opposite amounts.
pub shift :
    (g : Splendor) (i : ℕ) (p p' : Player) (bank : Counts)
    → player_at i g.players ≡ some p
    → ((m : Mine) → bank m +ℤ p'.mine_count m ≡ g.bank m +ℤ p.mine_count m)
    → (m : Mine) → bank m +ℤ sum_players (mines_of m) (modify i (λ _. p') g.players) ≡ supply m g
shift g i p p' bank e h m =
    let sums = sum_players-modify (mines_of m) (λ _. p') i g.players p e in
    let same = h m in
    omega (int_laws, ap pos_part sums, ap neg_part sums, ap pos_part same, ap neg_part same)

pub pass_turn-Conserves : (i : ℕ) (g : Splendor) → Conserves g (pass_turn i g)
unfolding pass_turn
pass_turn-Conserves i g = record {
  mines = λ m.
      ap (λ s. g.bank m +ℤ s)
        (sum_players-same (mines_of m) _ (λ p. refl) (following i g.players) _
          ∙ sum_players-same (mines_of m) _ (λ p. refl) i g.players);
}

finish-Conserves : (i : ℕ) (p : Player) (g : Splendor) → Conserves g (finish i p g)
unfolding finish
finish-Conserves i p g = elim (Bool-cases (ltb_ℤ (pos 10) (total_mine_count p))) [
  | inl e ↦ rw e (record {
    mines = λ m. ap (λ s. g.bank m +ℤ s) (sum_players-same (mines_of m) _ (λ p. refl) i g.players);
  })
  | inr e ↦ rw e (pass_turn-Conserves i g)
]

-- Opposite changes of the same mine.
pub opposite :
    (a b : Counts) (m x : Mine) (d e : ℤ)
    → d +ℤ e ≡ pos 0
    → add_to a m d x +ℤ add_to b m e x ≡ a x +ℤ b x
opposite a b m x d e z =
    rw (add_to_lem a m x d, add_to_lem b m x e)
      (elim (Bool-cases (mine_eq m x)) [
        | inl h ↦ rw h (omega (int_laws, ap pos_part z, ap neg_part z))
        | inr h ↦ rw h (omega int_laws)
      ])

abbrev minus_two : ℤ
minus_two = negsuc 1

cancel_two : minus_two +ℤ pos 2 ≡ pos 0
unfolding ◌+ℤ◌
cancel_two = refl

pub cancel_one : minus_one +ℤ pos 1 ≡ pos 0
unfolding ◌+ℤ◌
cancel_one = refl

cancel_back : pos 1 +ℤ minus_one ≡ pos 0
unfolding ◌+ℤ◌
cancel_back = refl

-- A move by the player at the place, who ends it.
moved :
    (g h : Splendor) (i : ℕ) (p p' : Player)
    → player_at i g.players ≡ some p
    → h.players ≡ modify i (λ _. p') g.players
    → ((m : Mine) → h.bank m +ℤ p'.mine_count m ≡ g.bank m +ℤ p.mine_count m)
    → Conserves g (finish i p' h)
moved g h i p p' e hp k =
    Conserves-trans (record { mines = λ m. rw hp (shift g i p p' h.bank e k m) })
      (finish-Conserves i p' h)

pub take_2_mines-Conserves :
    (mine : Mine) (player : ℕ) (g : Splendor)
    → Replies (λ b. Conserves g) (take_2_mines mine player g)
unfolding take_2_mines
take_2_mines-Conserves mine player g = elim (Option-cases (turn_of action player g)) [
  | inl e ↦ rw (e, take_2_mines) (replies (Conserves-refl g))
  | inr (t, e) ↦
      rw (e, take_2_mines)
        (Replies-if (ltb_ℤ (g.bank mine) (pos 4) || mine_eq mine gold)
          (λ _. replies (Conserves-refl g))
          λ _. replies (
            moved g _ t.0 t.1 _ (turn_of_player action player g e) refl
              (λ m. opposite g.bank t.1.mine_count mine m minus_two (pos 2) cancel_two)))
]

three :
    (a b : Counts) (x y z m : Mine)
    → add_to (add_to (add_to a x minus_one) y minus_one) z minus_one m
        +ℤ add_to (add_to (add_to b x (pos 1)) y (pos 1)) z (pos 1) m
      ≡ a m +ℤ b m
three a b x y z m =
    opposite _ _ z m minus_one (pos 1) cancel_one
    ∙ opposite _ _ y m minus_one (pos 1) cancel_one
    ∙ opposite a b x m minus_one (pos 1) cancel_one

pub take_3_mines-Conserves :
    (a b c : Mine) (player : ℕ) (g : Splendor)
    → Replies (λ ok. Conserves g) (take_3_mines a b c player g)
unfolding take_3_mines
take_3_mines-Conserves a b c player g = elim (Option-cases (turn_of action player g)) [
  | inl e ↦ rw (e, take_3_mines) (replies (Conserves-refl g))
  | inr (t, e) ↦
      rw (e, take_3_mines)
        (Replies-if (may_take_3 g.bank a b c)
          (λ _. replies (
            moved g _ t.0 t.1 _ (turn_of_player action player g e) refl
              (three g.bank t.1.mine_count a b c)))
          λ _. replies (Conserves-refl g))
]

after_return-Conserves : (i : ℕ) (p : Player) (g : Splendor) → Conserves g (after_return i p g)
unfolding after_return
after_return-Conserves i p g = elim (Bool-cases (ltb_ℤ (total_mine_count p) (pos 11))) [
  | inl e ↦ rw e (pass_turn-Conserves i g)
  | inr e ↦ rw e (Conserves-refl g)
]

pub return_mine-Conserves :
    (mine : Mine) (player : ℕ) (g : Splendor)
    → Replies (λ b. Conserves g) (return_mine mine player g)
unfolding return_mine
return_mine-Conserves mine player g = elim (Option-cases (turn_of need_return_mine player g)) [
  | inl e ↦ rw (e, return_mine) (replies (Conserves-refl g))
  | inr (t, e) ↦
      rw (e, return_mine)
        (Replies-if (ltb_ℤ (t.1.mine_count mine) (pos 1)) (λ _. replies (Conserves-refl g))
          λ _. replies (
            Conserves-trans
              (record {
                mines =
                    shift g t.0 t.1 _ _ (turn_of_player need_return_mine player g e)
                      (λ m. opposite g.bank t.1.mine_count mine m (pos 1) minus_one cancel_back);
              })
              (after_return-Conserves t.0 _ _)))
]

pub fill_coupon-same :
    (level coupon_idx : ℕ) (g : Splendor)
    → ((fill_coupon level coupon_idx g).players ≡ g.players)
      × ((fill_coupon level coupon_idx g).bank ≡ g.bank)
unfolding fill_coupon
fill_coupon-same level coupon_idx g = elim (Option-cases (take_level level g.coupons_rest)) [
  | inl e ↦ rw (e, fill_coupon) (refl, refl)
  | inr (r, e) ↦ rw (e, fill_coupon) (refl, refl)
]

pub player_at-modify :
    (h : Player → Player) (i : ℕ) (ps : List (ℕ × Player)) (p : Player)
    → player_at i ps ≡ some p
    → player_at i (modify i h ps) ≡ some (h p)
unfolding player_at modify
player_at-modify h i [] p e = cc
player_at-modify h ℕ.zero ((id, q) ∷ ps) p e = let same : q ≡ p = cc in rw same refl
player_at-modify h (ℕ.suc i) (q ∷ ps) p e = player_at-modify h i ps p e

take_gold-Conserves :
    (i : ℕ) (p : Player) (g : Splendor)
    → player_at i g.players ≡ some p
    → Conserves g (finish i (take_gold i p g).0 (take_gold i p g).1)
unfolding take_gold
take_gold-Conserves i p g e = elim (Bool-cases (ltb_ℤ (pos 0) (g.bank gold))) [
  | inl h ↦ rw h (
      moved g _ i p _ e refl
        (λ m. opposite g.bank p.mine_count gold m minus_one (pos 1) cancel_one))
  | inr h ↦ rw h (finish-Conserves i p g)
]

-- The same mines stand in the same places.
pub Conserves_of_eq :
    (g h : Splendor)
    → h.bank ≡ g.bank
    → ((m : Mine) → sum_players (mines_of m) h.players ≡ sum_players (mines_of m) g.players)
    → Conserves g h
Conserves_of_eq g h hb hp = record { mines = λ m. rw (hb, hp m) refl }

reserve-Conserves :
    (coupon_idx player i : ℕ) (p : Player) (c : Coupon) (g : Splendor)
    → player_at i g.players ≡ some p
    → Conserves g (reserve coupon_idx player i p c g)
unfolding reserve
reserve-Conserves coupon_idx player i p c g e =
    let p' = record p { reserved_coupons = p.reserved_coupons ++ c ∷ [] } in
    let same = fill_coupon-same c.level coupon_idx (record g {
      players = modify i (λ _. p') g.players;
      last_action = Action.reserve_coupon player c;
      ally_actions = [];
    }) in
    let sums : (m : Mine)
        → sum_players (mines_of m) (modify i (λ _. p') g.players)
          ≡ sum_players (mines_of m) g.players =
      λ m.
        let eq = sum_players-modify (mines_of m) (λ _. p') i g.players p e in
        eq_of_parts _ _ (omega (int_laws, ap pos_part eq, ap neg_part eq)) in
    Conserves-trans
      (Conserves_of_eq g _ same.1 (λ m. ap (sum_players (mines_of m)) same.0 ∙ sums m))
      (take_gold-Conserves i p' _ (rw same.0 (player_at-modify (λ _. p') i g.players p e)))

pub reserve_coupon-Conserves :
    (coupon_idx player : ℕ) (g : Splendor)
    → Replies (λ b. Conserves g) (reserve_coupon coupon_idx player g)
unfolding reserve_coupon
reserve_coupon-Conserves coupon_idx player g = elim (Option-cases (turn_of action player g)) [
  | inl e ↦ rw (e, reserve_coupon) (replies (Conserves-refl g))
  | inr (t, e) ↦
      rw (e, reserve_coupon)
        (Replies-if (ltb 2 (length t.1.reserved_coupons)) (λ _. replies (Conserves-refl g))
          λ _. elim (Option-cases (find_coupon coupon_idx g.coupons)) [
            | inl n ↦ rw n (replies (Conserves-refl g))
            | inr (c, f) ↦ rw f (
                replies (
                  reserve-Conserves coupon_idx player t.0 t.1 c g
                    (turn_of_player action player g e)))
          ])
]
