-- ===== src/Uno/Drawing.antt =====
-- What is drawn in src/Uno.hpp comes off the front of the deck, and a card that is laid goes to its back.
use unopp_server.Uno.Card.{Card, CardColor, draw_2, skip, wild_draw_4, content_eq}
use unopp_server.Uno.State.{Uno, Player, player_at, put, give, deal_cards, next, blank_card}
use unopp_server.Uno.Rules.{lay, forgot_uno, settle_uno, turn_around, effect, show_card, lay_card}
use unopp_server.Prelude.{
  ℕ, zero, suc, ◌+◌, ◌≡◌, refl, sym, ap, ◌∙◌, Bool, true, false, List, [], ◌∷◌, ◌++◌, drop, arith,
  if◌then◌else◌, Bool-cases, inl, inr, fails, returns, Ensures, Ensures->>=, Ensures-bind,
  Ensures-if,
}

drop-nil : (n : ℕ) → (let none_left : List Card = [] in drop n none_left ≡ none_left)
drop-nil zero = refl
drop-nil (suc n) = refl

drop-drop : (a b : ℕ) (cards : List Card) → drop a (drop b cards) ≡ drop (b + a) cards
drop-drop a zero cards = ap (λ n. drop n cards) (omega arith)
drop-drop a (suc b) [] = drop-nil a ∙ sym (drop-nil (suc b + a))
drop-drop a (suc b) (c ∷ cards) =
    drop-drop a b cards
    ∙ (let sum : suc (b + a) ≡ suc b + a = omega arith in ap (λ n. drop n (c ∷ cards)) sum)

deal_cards-deck :
    (n : ℕ) (hand deck : List Card) (last : Card)
    → Ensures (λ r. r.1 ≡ drop n deck) (deal_cards n hand deck last)
unfolding deal_cards
deal_cards-deck zero hand deck last = returns refl
deal_cards-deck (suc n) hand [] last = fails
deal_cards-deck (suc n) hand (c ∷ deck) last = deal_cards-deck n (hand ++ c ∷ []) deck c

give-deck : (i n : ℕ) (u : Uno) → Ensures (λ r. r.0.deck ≡ drop n u.deck) (give i n u)
unfolding give put
give-deck i n u =
    Ensures-bind (player_at u i)
      λ p e. Ensures->>= (deal_cards-deck n p.cards_in_hand u.deck blank_card) λ r h. returns h

settle_uno-deck :
    (punish : Bool) (u : Uno)
    → Ensures (λ u'. u'.deck ≡ drop (if punish then 2 else 0) u.deck) (settle_uno punish u)
unfolding settle_uno put
settle_uno-deck true u =
    Ensures->>= (give-deck u.next_player_idx 2 u)
      λ r h. Ensures-bind (player_at r.0 u.next_player_idx) λ p e. returns h
settle_uno-deck false u = Ensures-bind (player_at u u.next_player_idx) λ p e. returns refl

abbrev pub cost_of : Card → ℕ
cost_of card = if content_eq card.content draw_2 then 2 else 0

effect-deck :
    (card : Card) (u : Uno) → Ensures (λ u'. u'.deck ≡ drop (cost_of card) u.deck) (effect card u)
unfolding effect next
effect-deck card u = elim (Bool-cases (content_eq card.content draw_2)) [
  | inl e ↦ rw e (Ensures->>= (give-deck u.next_player_idx 2 u) λ r h. returns h)
  | inr e ↦ rw e (
      Ensures-if (content_eq card.content skip) (λ _. returns refl)
        λ _.
          Ensures-if (content_eq card.content wild_draw_4) (λ _. returns refl) (λ _. returns refl))
]

pub lay_card-deck :
    (card : Card) (color : CardColor) (p : Player) (u : Uno)
    → Ensures
        (λ r.
          r.after.deck ≡ drop ((if r.punish then 2 else 0) + cost_of card) (u.deck ++ card ∷ []))
        (lay_card card color p u)
unfolding lay_card next turn_around show_card put
lay_card-deck card color p u =
    let forgot = forgot_uno (lay card p) in
    Ensures->>= (settle_uno-deck forgot _) λ settled h.
      Ensures->>= (effect-deck card (next (turn_around card settled))) λ u' k. returns (
        k
        ∙ ap (drop (cost_of card)) h
        ∙ drop-drop (cost_of card) (if forgot then 2 else 0) (u.deck ++ card ∷ []))
