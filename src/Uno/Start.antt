-- ===== src/Uno/Start.antt =====
-- The constructor and init of src/Uno.hpp: the cards, the shuffles, the deal and the first card.
-- What rand() returns is an argument: a function from the loop's index of a shuffle, or the number.
use unopp_server.Uno.Card.{
  Card, CardColor, CardContent, zero, one, two, three, four, five, six, seven, eight, nine, skip,
  draw_2, reverse, wild, wild_draw_4, red, yellow, green, blue, black, is_number_card,
}
use unopp_server.Uno.State.{Uno, Player, new_player, blank_card, back, deal_cards}
use unopp_server.Prelude.Shuffle.{shuffle}
use unopp_server.Prelude.{
  ℕ, suc, ◌-◌, ◌%◌, ◌+◌, false, List, [], ◌∷◌, ◌++◌, map, Option, none, some, length, if◌then◌else◌,
  ◌>>=◌, ◌==◌,
}

abbrev pub all_colors : List CardColor
all_colors = red ∷ yellow ∷ green ∷ blue ∷ []

abbrev pub all_contents : List CardContent
all_contents =
    one ∷ two ∷ three ∷ four ∷ five ∷ six ∷ seven ∷ eight ∷ nine ∷ skip ∷ draw_2 ∷ reverse ∷ []

-- Two of each content in one colour.
abbrev pub two_of_each : CardColor → List CardContent → List Card
two_of_each color [] = []
two_of_each color (content ∷ rest) =
    let card : Card = record { color = color; content = content } in
    card ∷ card ∷ two_of_each color rest

abbrev pub coloured : List CardColor → List Card
coloured [] = []
coloured (color ∷ rest) = two_of_each color all_contents ++ coloured rest

-- WILD and WILD_DRAW_4, as often as the loop runs.
abbrev pub wilds : ℕ → List Card
wilds ℕ.zero = []
wilds (suc n) =
    record { color = black; content = wild }
    ∷ record { color = black; content = wild_draw_4 }
    ∷ wilds n

unfoldable pub all_cards : List Card
all_cards =
    coloured all_colors
    ++ (map (λ color. record { color = color; content = zero }) all_colors ++ wilds 4)

-- init's loop over the players: seven cards for each, off the front of the deck.
unfoldable pub deal_hands : List Player → List Card → Option (List Player × List Card)
unfolding deal_cards
deal_hands [] deck = some ([], deck)
deal_hands (p ∷ ps) deck = do
  (hand, deck', _) ← deal_cards 7 [] deck blank_card
  (ps', deck'') ← deal_hands ps deck'
  some (record p { cards_in_hand = hand; drawn_one = false; said_uno = false } ∷ ps', deck'')

-- The loop that moves the front card to the back until a number card lies there. `none` is an empty
-- deck or a loop that goes on after `fuel` rounds.
unfoldable pub turn_up : ℕ → List Card → Option (List Card × Card)
turn_up fuel [] = none
turn_up ℕ.zero (c ∷ cs) = none
turn_up (suc fuel) (c ∷ cs) =
    let again = turn_up fuel (cs ++ c ∷ []) in
    back (c ∷ cs) >>= λ last. if is_number_card last then some (c ∷ cs, last) else again

-- rand() % players_.size(). `none` is a remainder by 0.
unfoldable pub first_idx : ℕ → ℕ → Option ℕ
first_idx first size = if size == 0 then none else some (first % size)

-- The rounds allowed: one more than the deck has cards.
unfoldable pub init : (ℕ → ℕ) → ℕ → List Player → Option Uno
unfolding deal_hands turn_up first_idx
init rand first players = do
  let shuffled = shuffle rand (length all_cards - 1) all_cards
  (dealt, deck) ← deal_hands players shuffled
  (deck', last) ← turn_up (length deck + 1) deck
  idx ← first_idx first (length players)
  some (record {
    players = dealt;
    deck = deck';
    last_color = last.color;
    last_number = last.content;
    card_b4_wild_draw_4 = blank_card;
    reversed = false;
    wait_suspect = false;
    next_player_idx = idx;
  })

-- The constructor: `seating` and `rand` shuffle the players and the cards, `first` picks who begins.
unfoldable pub new_game : (ℕ → ℕ) → (ℕ → ℕ) → ℕ → List ℕ → Option Uno
unfolding init
new_game seating rand first ids =
    init rand first (shuffle seating (length ids - 1) (map new_player ids))
