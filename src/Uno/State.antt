-- ===== src/Uno/State.antt =====
-- The state of the class Uno of src/Uno.hpp, its players and its deck, and the operations on them
-- that the rules share: next, give, get_last_player_ref and the queries.
-- A queue is a list whose head is its front. An access out of bounds and a card taken from an empty
-- deck, which are undefined in C++, are `none`.
use unopp_server.Uno.Card.{Card, CardColor, CardContent, red, zero}
use unopp_server.Prelude.{
  ℕ, suc, ◌+◌, ◌-◌, ◌%◌, Bool, false, List, [], ◌∷◌, ◌++◌, Option, none, some, length, get_elem?,
  set, ◌==◌, ◌>>=◌, if◌then◌else◌,
}

pub record Player : Type 0 where
  pub user_id : ℕ
  pub cards_in_hand : List Card
  pub cards_when_wild_draw_4 : List Card
  pub drawn_one : Bool
  pub last_drew : Card
  pub said_uno : Bool

pub record Uno : Type 0 where
  pub players : List Player
  pub deck : List Card
  pub last_color : CardColor
  pub last_number : CardContent
  pub card_b4_wild_draw_4 : Card
  pub reversed : Bool
  pub wait_suspect : Bool
  pub next_player_idx : ℕ

-- Card{}, the value of a card that nothing has set.
abbrev pub blank_card : Card
blank_card = record { color = red; content = zero }

-- Player{ user_id, {} }
abbrev pub new_player : ℕ → Player
new_player user_id = record {
  user_id = user_id;
  cards_in_hand = [];
  cards_when_wild_draw_4 = [];
  drawn_one = false;
  last_drew = blank_card;
  said_uno = false;
}

-- deck.back()
unfoldable pub back : List Card → Option Card
back [] = none
back (c ∷ []) = some c
back (c ∷ d ∷ cs) = back (d ∷ cs)

unfoldable pub get_last_card : Uno → Option Card
unfolding back
get_last_card u = back u.deck

-- players_[i]
unfoldable pub player_at : Uno → ℕ → Option Player
player_at u i = get_elem? u.players i

-- A write to players_[i].
unfoldable pub put : ℕ → Player → Uno → Uno
put i p u = record u { players = set u.players i p }

unfoldable pub get_next_player : Uno → Option ℕ
unfolding player_at
get_next_player u = player_at u u.next_player_idx >>= λ p. some p.user_id

unfoldable pub get_specified_color : Uno → CardColor
get_specified_color u = u.last_color

unfoldable pub get_direction : Uno → Bool
get_direction u = u.reversed

-- The loop of get_player_card_count; it returns nothing for an id that no player has.
unfoldable pub card_count_of : ℕ → List Player → Option ℕ
card_count_of player_id [] = none
card_count_of player_id (p ∷ ps) =
    if p.user_id == player_id then some (length p.cards_in_hand) else card_count_of player_id ps

unfoldable pub get_player_card_count : ℕ → Uno → Option ℕ
unfolding card_count_of
get_player_card_count player_id u = card_count_of player_id u.players

-- give(player, count): the player draws from the front of the deck, card by card. `last` is the
-- variable `res`, which holds the card that was drawn last.
unfoldable pub deal_cards : ℕ → List Card → List Card → Card → Option (List Card × List Card × Card)
deal_cards ℕ.zero hand deck last = some (hand, deck, last)
deal_cards (suc count) hand [] last = none
deal_cards (suc count) hand (c ∷ deck) last = deal_cards count (hand ++ c ∷ []) deck c

unfoldable pub give : ℕ → ℕ → Uno → Option (Uno × Card)
unfolding deal_cards player_at put
give i count u = do
  p ← player_at u i
  (hand, deck, card) ← deal_cards count p.cards_in_hand u.deck blank_card
  some (put i (record p { cards_in_hand = hand }) (record u { deck = deck }), card)

-- One step of the turn: (next_player_idx ± 1 + size) % size, where the C++ sum passes through -1
-- as an unsigned number that wraps back.
unfoldable pub next : Uno → Uno
next u =
    let n = length u.players in
    record u {
      next_player_idx =
          (if u.reversed then u.next_player_idx + 1 + n else u.next_player_idx + n - 1) % n;
    }

-- The index that get_last_player_ref reads.
unfoldable pub last_player_idx : Uno → ℕ
last_player_idx u =
    let n = length u.players in
    (if u.reversed then u.next_player_idx + n - 1 else u.next_player_idx + 1 + n) % n

-- The loop of check_winner: the first player with no card.
unfoldable pub first_empty : List Player → Option ℕ
first_empty [] = none
first_empty (p ∷ ps) = elim p.cards_in_hand [ [] ↦ some p.user_id | c ∷ cs ↦ first_empty ps ]

unfoldable pub check_winner : Uno → Option ℕ
unfolding first_empty
check_winner u = first_empty u.players
