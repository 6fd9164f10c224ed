-- ===== src/Uno/Laying.antt =====
-- play of src/Uno.hpp: which cards and players it leaves in the game, and when it is refused.
use unopp_server.Uno.Card.{
  Card, CardColor, CardContent, black, draw_2, skip, wild_draw_4, color_eq, content_eq, card_eq,
  card_eq-eq, card_eq_refl, color_eq-eq, content_eq-eq,
}
use unopp_server.Uno.State.{Uno, Player, player_at, put, next}
use unopp_server.Uno.Rules.{
  Played, erase, lay, forgot_uno, settle_uno, turn_around, effect, show_card, lay_card, may_lay,
  play, is_playable,
}
use unopp_server.Uno.Conservation.{
  weight, seats, Keeps, Keeps-refl, Keeps-trans, put-Keeps, weight-put, put-seats, Keeps-of_eq,
  next-Keeps,
}
use unopp_server.Uno.Drawing.{cost_of, lay_card-deck}
use unopp_server.Uno.Moves.{punish-Keeps, give-next-Keeps}
use unopp_server.Prelude.{
  ℕ, ◌+◌, ◌≡◌, ◌⊎◌, ◌↔◌, refl, ap, ◌∙◌, Bool, true, false, ◌&&◌, ◌||◌, not, List, [], ◌∷◌, ◌++◌,
  drop, some, arith, if◌then◌else◌, Bool-cases, inl, inr, sum_by, sum_by-append, returns,
  of_Ensures, Ensures, Ensures-self, Ensures-self, Ensures-bind, Ensures->>=, Ensures-mono,
  Ensures-if,
}

unfoldable pub contains : Card → List Card → Bool
contains card [] = false
contains card (c ∷ cs) = if card_eq c card then true else contains card cs

-- One copy of the card leaves the hand, if the hand holds it.
erase_weight :
    (w : Card → ℕ) (card : Card) (hand : List Card)
    → sum_by w (erase card hand) + (if contains card hand then w card else 0) ≡ sum_by w hand
unfolding erase contains
erase_weight w card [] = refl
erase_weight w card (c ∷ cs) = elim (Bool-cases (card_eq c card)) [
  | inl e ↦ rw (e, card_eq-eq c card e) (omega arith)
  | inr e ↦ rw e (omega (arith, erase_weight w card cs))
]

settle_uno-Keeps : (b : Bool) (u : Uno) → Ensures (Keeps u) (settle_uno b u)
unfolding settle_uno
settle_uno-Keeps b u = Ensures->>= (punish-Keeps b u.next_player_idx 2 u) λ r k.
    Ensures-bind (player_at r.0 u.next_player_idx) λ p ep. returns (
      Keeps-trans k
        (put-Keeps u.next_player_idx p (record p { said_uno = false }) r.0 ep refl refl))

effect-Keeps : (card : Card) (u : Uno) → Ensures (Keeps u) (effect card u)
unfolding effect
effect-Keeps card u =
    Ensures-if (content_eq card.content draw_2) (λ _. give-next-Keeps u.next_player_idx 2 u)
      λ _.
        Ensures-if (content_eq card.content skip) (λ _. returns (next-Keeps u))
          λ _.
            Ensures-if (content_eq card.content wild_draw_4)
              (λ _. returns (Keeps-of_eq u _ refl refl)) (λ _. returns (Keeps-refl u))

turn_around-Keeps : (card : Card) (u : Uno) → Keeps u (turn_around card u)
unfolding turn_around
turn_around-Keeps card u = Keeps-of_eq u (turn_around card u) refl refl

show_card-Keeps : (card : Card) (color : CardColor) (u : Uno) → Keeps u (show_card card color u)
unfolding show_card
show_card-Keeps card color u = Keeps-of_eq u (show_card card color u) refl refl

-- All that play does once the card lies on the deck moves cards and makes none.
after_lay-Keeps :
    (card : Card) (color : CardColor) (p : Player) (u : Uno)
    → Ensures
        (λ r.
          (r.success ≡ true)
          × Keeps
              (put u.next_player_idx (lay card p) (record u { deck = u.deck ++ card ∷ [] }))
              r.after)
        (lay_card card color p u)
unfolding lay_card
after_lay-Keeps card color p u =
    Ensures->>= (settle_uno-Keeps (forgot_uno (lay card p)) _) λ settled k.
      Ensures->>= (effect-Keeps card (next (turn_around card settled))) λ u' k'. returns (
        refl,
        Keeps-trans k (
            Keeps-trans (turn_around-Keeps card settled)
              (Keeps-trans (next-Keeps _) (Keeps-trans k' (show_card-Keeps card color u')))),
      )

laid_weight :
    (w : Card → ℕ) (card : Card) (p : Player) (u : Uno)
    → player_at u u.next_player_idx ≡ some p
    → weight w (put u.next_player_idx (lay card p) (record u { deck = u.deck ++ card ∷ [] }))
        + (if contains card p.cards_in_hand then w card else 0)
      ≡ weight w u + w card
unfolding lay player_at
laid_weight w card p u e = omega (
  arith,
  weight-put w u.next_player_idx p (lay card p) (record u { deck = u.deck ++ card ∷ [] }) e,
  erase_weight w card p.cards_in_hand,
  sum_by-append w u.deck (card ∷ []),
)

laid-seats :
    (card : Card) (p : Player) (u : Uno)
    → player_at u u.next_player_idx ≡ some p
    → seats (put u.next_player_idx (lay card p) (record u { deck = u.deck ++ card ∷ [] })) ≡ seats u
unfolding lay player_at
laid-seats card p u e =
    put-seats u.next_player_idx p (lay card p) (record u { deck = u.deck ++ card ∷ [] }) e refl

-- The rules for laying a card, for the player `p` whose turn it is.
pub record IsAllowed (player_id : ℕ) (card : Card) (p : Player) (u : Uno) : Type 0 where
  pub settled : u.wait_suspect ≡ false
  pub follows : (card.color ≡ black) ⊎ (card.color ≡ u.last_color) ⊎ (card.content ≡ u.last_number)
  pub turn : player_id ≡ p.user_id
  pub drawn : p.drawn_one ≡ true → p.last_drew ≡ card

pub color_eq_refl : (c : CardColor) → color_eq c c ≡ true
unfolding color_eq
color_eq_refl c = ground arith

pub content_eq_refl : (c : CardContent) → content_eq c c ≡ true
unfolding content_eq
content_eq_refl c = ground arith

is_playable-follows :
    (card : Card) (u : Uno)
    → is_playable card u ≡ true
    → (card.color ≡ black) ⊎ (card.color ≡ u.last_color) ⊎ (card.content ≡ u.last_number)
unfolding is_playable
is_playable-follows card u h = elim (Bool-cases (color_eq card.color black)) [
  | inl e ↦ inl (color_eq-eq card.color black e)
  | inr e ↦
      let other : (color_eq card.color u.last_color || content_eq card.content u.last_number)
          ≡ true =
        rw e at h in
      elim (Bool-cases (color_eq card.color u.last_color)) [
        | inl k ↦ inr (inl (color_eq-eq card.color u.last_color k))
        | inr k ↦ inr (inr (content_eq-eq card.content u.last_number (rw k at other)))
      ]
]

or_true : (a : Bool) {b : Bool} → b ≡ true → (a || b) ≡ true
or_true true e = refl
or_true false e = e

follows-is_playable :
    (card : Card) (u : Uno)
    → (card.color ≡ black) ⊎ (card.color ≡ u.last_color) ⊎ (card.content ≡ u.last_number)
    → is_playable card u ≡ true
unfolding is_playable
follows-is_playable card u h = elim h [
  | inl e ↦ rw (e, color_eq_refl black) refl
  | inr (inl e) ↦
      let same : color_eq card.color u.last_color ≡ true = rw e (color_eq_refl u.last_color) in
      elim (Bool-cases (color_eq card.color black)) [
        | inl k ↦ rw k refl
        | inr k ↦ rw (k, same) refl
      ]
  | inr (inr e) ↦
      let same : content_eq card.content u.last_number ≡ true =
        rw e (content_eq_refl u.last_number) in
      elim (Bool-cases (color_eq card.color black)) [
        | inl k ↦ rw k refl
        | inr k ↦ rw k (or_true (color_eq card.color u.last_color) same)
      ]
]

may_lay_iff :
    (player_id : ℕ) (card : Card) (p : Player)
    → (may_lay player_id card p ≡ true
        → (player_id ≡ p.user_id) × (p.drawn_one ≡ true → p.last_drew ≡ card))
      × ((player_id ≡ p.user_id)
          → (p.drawn_one ≡ true → p.last_drew ≡ card)
          → may_lay player_id card p ≡ true)
unfolding may_lay
may_lay_iff player_id card p = (
  λ h. (ground arith, λ d. ground (arith, card_eq-eq p.last_drew card)),
  λ t d. ground (arith, d, card_eq_refl card),
)

-- How play answers.
pub data Answers (player_id : ℕ) (card : Card) (p : Player) (u : Uno) (r : Played) : Type 0 where
  accepts :
      IsAllowed player_id card p u
      → r.success ≡ true
      → Keeps (put u.next_player_idx (lay card p) (record u { deck = u.deck ++ card ∷ [] })) r.after
      → Answers player_id card p u r
  refuses :
      ¬ IsAllowed player_id card p u
      → r.success ≡ false
      → r.punish ≡ false
      → r.after ≡ u
      → Answers player_id card p u r

pub play-Answers :
    (player_id : ℕ) (card : Card) (color : CardColor) (p : Player) (u : Uno)
    → player_at u u.next_player_idx ≡ some p
    → Ensures (Answers player_id card p u) (play player_id card color u)
unfolding play
play-Answers player_id card color p u e =
    Ensures-if u.wait_suspect (λ w. returns (refuses (λ a. cc a.settled) refl refl refl))
      λ w.
        Ensures-if (not (is_playable card u))
          (λ n.
            returns
              (refuses (λ a. ground (arith, follows-is_playable card u a.follows)) refl refl refl))
          λ n. rw e (
            Ensures-if (may_lay player_id card p)
              (λ m. Ensures-mono (after_lay-Keeps card color p u) λ r h.
                accepts
                  (record {
                    settled = w;
                    follows = is_playable-follows card u (ground arith);
                    turn = ((may_lay_iff player_id card p).0 m).0;
                    drawn = ((may_lay_iff player_id card p).0 m).1;
                  })
                  h.0 h.1)
              (λ m. returns (
                refuses (λ a. cc ((may_lay_iff player_id card p).1 a.turn a.drawn)) refl refl
                  refl)))

-- play is accepted exactly when the rules allow it, and a refused play changes nothing.
pub play_success_iff :
    (player_id : ℕ) (card : Card) (color : CardColor) (p : Player) (u : Uno) {r : Played}
    → player_at u u.next_player_idx ≡ some p
    → play player_id card color u ≡ some r
    → ((r.success ≡ true) ↔ IsAllowed player_id card p u)
      × (r.success ≡ false → (r.after ≡ u) × (r.punish ≡ false))
play_success_iff player_id card color p u e h =
    elim (of_Ensures (play-Answers player_id card color p u e) h) [
      | accepts a s k ↦ ((λ _. a, λ _. s), λ f. cc)
      | refuses n s q same ↦ ((λ t. cc, λ a. absurd (n a)), λ _. (same, q))
    ]

-- An accepted play is lay_card.
pub play_accepted :
    (player_id : ℕ) (card : Card) (color : CardColor) (p : Player) (u : Uno)
    → player_at u u.next_player_idx ≡ some p
    → Ensures
        (λ r. r.success ≡ true → lay_card card color p u ≡ some r)
        (play player_id card color u)
unfolding play
play_accepted player_id card color p u e =
    Ensures-if u.wait_suspect (λ w. returns λ t. cc)
      λ w.
        Ensures-if (not (is_playable card u)) (λ n. returns λ t. cc)
          λ n. rw e (
            Ensures-if (may_lay player_id card p)
              (λ m. Ensures-mono (Ensures-self (lay_card card color p u)) λ r same _. same)
              (λ m. returns λ t. cc))

-- Where play returns, all hands and the deck together hold what they held before, and, if the card is
-- accepted, the card besides, less one copy of it if the hand of the player held it: nothing checks
-- that it did. The deck is what it was, or, after an accepted card, what it was with the card at its
-- back, less two cards off its front if the player is punished and two for a DRAW_2. The players stay.
pub play_cards :
    (player_id : ℕ) (card : Card) (color : CardColor) (p : Player) (u : Uno) {r : Played}
    → player_at u u.next_player_idx ≡ some p
    → play player_id card color u ≡ some r
    → ((w : Card → ℕ)
        → weight w r.after + (if r.success && contains card p.cards_in_hand then w card else 0)
          ≡ weight w u + (if r.success then w card else 0))
      × (r.after.deck ≡ (
          if r.success
          then drop ((if r.punish then 2 else 0) + cost_of card) (u.deck ++ card ∷ [])
          else u.deck))
      × (seats r.after ≡ seats u)
play_cards player_id card color p u {r} e h =
    elim (of_Ensures (play-Answers player_id card color p u e) h) [
      | accepts a s k ↦ (
        λ w. rw s (omega (arith, k.cards w, laid_weight w card p u e)),
        rw s (
            of_Ensures (lay_card-deck card color p u)
              (of_Ensures (play_accepted player_id card color p u e) h s)),
        k.players ∙ laid-seats card p u e,
      )
      | refuses n s q same ↦ (λ w. rw (s, same), rw (s, same) refl, ap seats same)
    ]
