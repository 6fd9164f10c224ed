-- ===== src/Uno/TurnOrder.antt =====
-- Where the turn goes after a move of src/Uno.hpp, and what the next player has to follow.
use unopp_server.Uno.Card.{
  Card, CardColor, black, draw_2, skip, reverse, wild_draw_4, color_eq, content_eq,
}
use unopp_server.Uno.State.{Uno, Player, player_at, put, give, next, blank_card}
use unopp_server.Uno.Rules.{
  Played, lay, forgot_uno, settle_uno, turn_around, effect, show_card, lay_card, play,
}
use unopp_server.Uno.Conservation.{give_lem}
use unopp_server.Uno.Turn.{beside, beside_lt, next-beside, next-reversed}
use unopp_server.Uno.Laying.{accepts, refuses, play-Answers, play_accepted}
use unopp_server.Prelude.{
  ℕ, ◌<◌, ◌≡◌, refl, sym, ◌∙◌, Bool, true, false, ◌||◌, not, [], ◌∷◌, ◌++◌, some, arith, length,
  length-set, lt_of_get_elem?, if◌then◌else◌, returns, of_Ensures, Ensures, Ensures-bind,
  Ensures->>=, Ensures-mono, Ensures-if,
}

-- The cards move, and all else stays.
pub record SameTurn (u u' : Uno) : Type 0 where
  pub idx : u'.next_player_idx ≡ u.next_player_idx
  pub direction : u'.reversed ≡ u.reversed
  pub waiting : u'.wait_suspect ≡ u.wait_suspect
  pub color : u'.last_color ≡ u.last_color
  pub number : u'.last_number ≡ u.last_number
  pub before : u'.card_b4_wild_draw_4 ≡ u.card_b4_wild_draw_4
  pub size : length u'.players ≡ length u.players

pub SameTurn-trans : {u v w : Uno} → SameTurn u v → SameTurn v w → SameTurn u w
SameTurn-trans h k = record {
  idx = k.idx ∙ h.idx;
  direction = k.direction ∙ h.direction;
  waiting = k.waiting ∙ h.waiting;
  color = k.color ∙ h.color;
  number = k.number ∙ h.number;
  before = k.before ∙ h.before;
  size = k.size ∙ h.size;
}

pub put-SameTurn : (i : ℕ) (p : Player) (u : Uno) → SameTurn u (put i p u)
unfolding put
put-SameTurn i p u = record {
  idx = refl;
  direction = refl;
  waiting = refl;
  color = refl;
  number = refl;
  before = refl;
  size = length-set u.players i p;
}

pub give-SameTurn : (i n : ℕ) (u : Uno) → Ensures (λ r. SameTurn u r.0) (give i n u)
unfolding put
give-SameTurn i n u = Ensures-mono (give_lem i n u) λ r g. rw g.after (record {
  idx = refl;
  direction = refl;
  waiting = refl;
  color = refl;
  number = refl;
  before = refl;
  size = length-set u.players i (record g.player { cards_in_hand = g.hand });
})

pub punish-SameTurn :
    (b : Bool) (i n : ℕ) (u : Uno)
    → Ensures (λ r. SameTurn u r.0) (if b then give i n u else some (u, blank_card))
punish-SameTurn true i n u = give-SameTurn i n u
punish-SameTurn false i n u = returns (record {
  idx = refl;
  direction = refl;
  waiting = refl;
  color = refl;
  number = refl;
  before = refl;
  size = refl;
})

pub settle_uno-SameTurn : (b : Bool) (u : Uno) → Ensures (SameTurn u) (settle_uno b u)
unfolding settle_uno
settle_uno-SameTurn b u = Ensures->>= (punish-SameTurn b u.next_player_idx 2 u) λ r k.
    Ensures-bind (player_at r.0 u.next_player_idx)
      λ p ep. returns (SameTurn-trans k (put-SameTurn u.next_player_idx _ r.0))

-- Does the card take the turn from the player after the one who lays it?
abbrev pub skips : Card → Bool
skips card = content_eq card.content draw_2 || content_eq card.content skip

-- The state of the turn after an effect, `i` being the seat that the turn came to.
record Effected (card : Card) (u u' : Uno) : Type 0 where
  idx : u'.next_player_idx ≡ (
      if skips card
      then beside u.reversed (length u.players) u.next_player_idx
      else u.next_player_idx)
  direction : u'.reversed ≡ u.reversed
  waiting : u.wait_suspect ≡ false → u'.wait_suspect ≡ content_eq card.content wild_draw_4

skip_not_wild : (card : Card) → skips card ≡ true → content_eq card.content wild_draw_4 ≡ false
unfolding content_eq
skip_not_wild card h = ground arith

next-waiting : (u : Uno) → (next u).wait_suspect ≡ u.wait_suspect
unfolding next
next-waiting u = refl

-- The turn passes a seat.
pub next_seat :
    (u v : Uno)
    → u.next_player_idx < length u.players
    → SameTurn u v
    → (next v).next_player_idx ≡ beside u.reversed (length u.players) u.next_player_idx
next_seat u v lt s = next-beside v (rw (s.idx, s.size) lt) ∙ rw (s.idx, s.size, s.direction) refl

next-Effected :
    (card : Card) (u v : Uno)
    → u.next_player_idx < length u.players
    → SameTurn u v
    → skips card ≡ true
    → Effected card u (next v)
next-Effected card u v lt s h = record {
  idx = next_seat u v lt s ∙ rw h refl;
  direction = next-reversed v ∙ s.direction;
  waiting = λ w. next-waiting v ∙ s.waiting ∙ w ∙ sym (skip_not_wild card h);
}

pub SameTurn-refl : (u : Uno) → SameTurn u u
SameTurn-refl u = record {
  idx = refl;
  direction = refl;
  waiting = refl;
  color = refl;
  number = refl;
  before = refl;
  size = refl;
}

effect-Effected :
    (card : Card) (u : Uno)
    → u.next_player_idx < length u.players
    → Ensures (Effected card u) (effect card u)
unfolding effect
effect-Effected card u lt =
    Ensures-if (content_eq card.content draw_2)
      (λ d.
        Ensures->>= (give-SameTurn u.next_player_idx 2 u)
          λ r s. returns (next-Effected card u r.0 lt s (rw d)))
      λ d.
        Ensures-if (content_eq card.content skip)
          (λ k. returns (next-Effected card u u lt (SameTurn-refl u) (rw (d, k))))
          λ k.
            Ensures-if (content_eq card.content wild_draw_4)
              (λ f. returns (record { idx = rw (d, k); direction = refl; waiting = λ _. sym f }))
              (λ f.
                returns (record { idx = rw (d, k); direction = refl; waiting = λ w. w ∙ sym f }))

-- The state of the turn after a card that the player at next_player_idx laid.
pub record TurnAfter (card : Card) (specified : CardColor) (u u' : Uno) : Type 0 where
  pub direction :
      u'.reversed ≡ (if content_eq card.content reverse then not u.reversed else u.reversed)
  pub seat :
      let n = length u.players in
      let first = beside u'.reversed n u.next_player_idx in
      u'.next_player_idx ≡ (if skips card then beside u'.reversed n first else first)
  pub number : u'.last_number ≡ card.content
  pub color : u'.last_color ≡ (if color_eq card.color black then specified else card.color)
  pub waiting : u'.wait_suspect ≡ content_eq card.content wild_draw_4

pub lay-SameTurn :
    (card : Card) (p : Player) (u : Uno)
    → SameTurn u (put u.next_player_idx (lay card p) (record u { deck = u.deck ++ card ∷ [] }))
unfolding put
lay-SameTurn card p u = record {
  idx = refl;
  direction = refl;
  waiting = refl;
  color = refl;
  number = refl;
  before = refl;
  size = length-set u.players u.next_player_idx (lay card p);
}

module _ (card : Card) (u v : Uno) (lt : u.next_player_idx < length u.players)
    (s : SameTurn u v) where
  pub turned_lt : (turn_around card v).next_player_idx < length (turn_around card v).players
  unfolding turn_around
  turned_lt = rw (s.idx, s.size) lt

  turned_direction :
      (turn_around card v).reversed
      ≡ (if content_eq card.content reverse then not u.reversed else u.reversed)
  unfolding turn_around
  turned_direction = rw s.direction refl

  turned_waiting : (turn_around card v).wait_suspect ≡ u.wait_suspect
  unfolding turn_around
  turned_waiting = s.waiting

  passed_seat :
      (next (turn_around card v)).next_player_idx
      ≡ beside (turn_around card v).reversed (length u.players) u.next_player_idx
  passed_seat = next-beside (turn_around card v) turned_lt ∙ same
    where
      same :
          beside
            (turn_around card v).reversed
            (length (turn_around card v).players)
            (turn_around card v).next_player_idx
          ≡ beside (turn_around card v).reversed (length u.players) u.next_player_idx
      same = unfold turn_around in rw (s.idx, s.size) refl

  passed_size : length (next (turn_around card v)).players ≡ length u.players
  unfolding next turn_around
  passed_size = s.size

  passed_lt :
      (next (turn_around card v)).next_player_idx < length (next (turn_around card v)).players
  passed_lt = rw (passed_seat, passed_size) (beside_lt _ _ _ lt)

  Effected-TurnAfter :
      (color : CardColor) (u' : Uno)
      → u.wait_suspect ≡ false
      → Effected card (next (turn_around card v)) u'
      → TurnAfter card color u (show_card card color u')
  unfolding show_card
  Effected-TurnAfter color u' w f = record {
    direction = f.direction ∙ next-reversed _ ∙ turned_direction;
    seat = rw f.direction (f.idx ∙ rw (passed_size, passed_seat, next-reversed) refl);
    number = refl;
    color = refl;
    waiting = f.waiting (next-waiting _ ∙ turned_waiting ∙ w);
  }

lay_card-TurnAfter :
    (card : Card) (color : CardColor) (p : Player) (u : Uno)
    → u.next_player_idx < length u.players
    → u.wait_suspect ≡ false
    → Ensures (λ r. TurnAfter card color u r.after) (lay_card card color p u)
unfolding lay_card
lay_card-TurnAfter card color p u lt w =
    Ensures->>= (settle_uno-SameTurn (forgot_uno (lay card p)) _) λ settled s.
      let s1 = SameTurn-trans (lay-SameTurn card p u) s in
      Ensures->>=
        (effect-Effected card (next (turn_around card settled)) (passed_lt card u settled lt s1))
        λ u' f. returns (Effected-TurnAfter card u settled lt s1 color u' w f)

-- After an accepted card the turn is with the neighbour in the direction of play, which a REVERSE has
-- turned first; past the neighbour after a SKIP or a DRAW_2. The card sets the colour and the number
-- to follow, a black card the colour that was asked for, and a WILD_DRAW_4 waits for a suspicion.
pub play-TurnAfter :
    (player_id : ℕ) (card : Card) (specified : CardColor) (p : Player) (u : Uno) {r : Played}
    → player_at u u.next_player_idx ≡ some p
    → play player_id card specified u ≡ some r
    → r.success ≡ true
    → TurnAfter card specified u r.after
play-TurnAfter player_id card specified p u e h s =
    elim (of_Ensures (play-Answers player_id card specified p u e) h) [
      | accepts a _ _ ↦
          of_Ensures
            (lay_card-TurnAfter card specified p u
              (lt_of_get_elem? u.players u.next_player_idx p (unfold player_at in e)) a.settled)
            (of_Ensures (play_accepted player_id card specified p u e) h s)
      | refuses _ f _ _ ↦ cc
    ]
