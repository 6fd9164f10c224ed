-- ===== src/Uno/Conservation.antt =====
-- The moves of UNO hand cards on: what each does to the cards of the game and to its players.
use unopp_server.Uno.Card.{Card}
use unopp_server.Uno.State.{Uno, Player, player_at, put, deal_cards, give, next, blank_card}
use unopp_server.Prelude.{
  ℕ, zero, suc, ◌+◌, ◌≡◌, refl, ap, ◌∙◌, List, [], ◌∷◌, ◌++◌, map, some, arith, length, sum_by,
  sum_by-append, sum_by-set, map-set, length-append, Ensures, Ensures-bind, Ensures->>=,
  Ensures-mono, fails, returns,
}
use mathlib.Core.List.{append_assoc}

-- The weight of all cards, in the deck and in the hands, where each card weighs `w` of it.
module _ (w : Card → ℕ) where
  abbrev pub hand_weight : Player → ℕ
  hand_weight p = sum_by w p.cards_in_hand

  abbrev pub weight : Uno → ℕ
  weight u = sum_by w u.deck + sum_by hand_weight u.players

abbrev pub seats : Uno → List ℕ
seats u = map (λ (p : Player). p.user_id) u.players

-- The same cards are in the game, each as often, and the same players sit in the same order.
pub record Keeps (u u' : Uno) : Type 0 where
  pub cards : (w : Card → ℕ) → weight w u' ≡ weight w u
  pub players : seats u' ≡ seats u

pub Keeps-refl : (u : Uno) → Keeps u u
Keeps-refl u = record { cards = λ w. refl; players = refl }

pub Keeps-trans : {u v w : Uno} → Keeps u v → Keeps v w → Keeps u w
Keeps-trans h k = record { cards = λ w. k.cards w ∙ h.cards w; players = k.players ∙ h.players }

-- The cards come off the front of the deck and go to the end of the hand, in order.
pub deal_cards_lem :
    (n : ℕ) (hand deck : List Card) (last : Card)
    → Ensures
        (λ r. (r.0 ++ r.1 ≡ hand ++ deck) × (length r.0 ≡ length hand + n))
        (deal_cards n hand deck last)
unfolding deal_cards
deal_cards_lem zero hand deck last = returns (refl, omega arith)
deal_cards_lem (suc n) hand [] last = fails
deal_cards_lem (suc n) hand (c ∷ deck) last =
    Ensures-mono (deal_cards_lem n (hand ++ c ∷ []) deck c)
      λ r h. (h.0 ∙ append_assoc hand (c ∷ []) deck, omega (arith, length-append {0} hand (c ∷ [])))

-- What give does when it returns: some front part of the deck goes to the end of the hand.
pub record Gave (i n : ℕ) (u u' : Uno) : Type 0 where
  pub player : Player
  pub hand : List Card
  pub deck : List Card
  pub sits : player_at u i ≡ some player
  pub same_cards : hand ++ deck ≡ player.cards_in_hand ++ u.deck
  pub drawn : length hand ≡ length player.cards_in_hand + n
  pub after : u' ≡ put i (record player { cards_in_hand = hand }) (record u { deck = deck })

pub give_lem : (i n : ℕ) (u : Uno) → Ensures (λ r. Gave i n u r.0) (give i n u)
unfolding give
give_lem i n u = Ensures-bind (player_at u i) λ p ep.
    Ensures->>= (deal_cards_lem n p.cards_in_hand u.deck blank_card) λ r h. returns (record {
      player = p;
      hand = r.0;
      deck = r.1;
      sits = ep;
      same_cards = h.0;
      drawn = h.1;
      after = refl;
    })

-- A write to a seat that leaves the player's id alone.
pub weight-put :
    (w : Card → ℕ) (i : ℕ) (p q : Player) (u : Uno)
    → player_at u i ≡ some p
    → weight w (put i q u) + hand_weight w p ≡ weight w u + hand_weight w q
unfolding put player_at
weight-put w i p q u e = omega (arith, sum_by-set (hand_weight w) u.players i p q e)

pub put-seats :
    (i : ℕ) (p q : Player) (u : Uno)
    → player_at u i ≡ some p
    → q.user_id ≡ p.user_id
    → seats (put i q u) ≡ seats u
unfolding put player_at
put-seats i p q u e h = map-set _ u.players i p q e h

pub put-Keeps :
    (i : ℕ) (p q : Player) (u : Uno)
    → player_at u i ≡ some p
    → q.user_id ≡ p.user_id
    → q.cards_in_hand ≡ p.cards_in_hand
    → Keeps u (put i q u)
put-Keeps i p q u e hid hc = record {
  cards = λ w. omega (arith, weight-put w i p q u e, ap (sum_by w) hc);
  players = put-seats i p q u e hid;
}

pub Gave-Keeps : (i n : ℕ) (u u' : Uno) → Gave i n u u' → Keeps u u'
unfolding player_at put
Gave-Keeps i n u u' g =
    let dealt = record u { deck = g.deck } in
    let q = record g.player { cards_in_hand = g.hand } in
    let cards : (w : Card → ℕ) → weight w u' ≡ weight w u = λ w. omega (
      arith,
      weight-put w i g.player q dealt g.sits,
      ap (sum_by w) g.same_cards,
      sum_by-append w g.hand g.deck,
      sum_by-append w g.player.cards_in_hand u.deck,
      ap (weight w) g.after,
    ) in
    record { cards = cards; players = ap seats g.after ∙ put-seats i g.player q dealt g.sits refl }

pub give-Keeps : (i n : ℕ) (u : Uno) → Ensures (λ r. Keeps u r.0) (give i n u)
give-Keeps i n u = Ensures-mono (give_lem i n u) λ r g. Gave-Keeps i n u r.0 g

-- Neither the hands nor the deck change.
pub Keeps-of_eq : (u u' : Uno) → u'.players ≡ u.players → u'.deck ≡ u.deck → Keeps u u'
Keeps-of_eq u u' hp hd = record { cards = λ w. rw (hp, hd); players = rw hp }

pub next-Keeps : (u : Uno) → Keeps u (next u)
unfolding next
next-Keeps u = Keeps-of_eq u (next u) refl refl
