-- ===== src/Uno/Tests.antt =====
-- UNO at concrete inputs: a table of three players, and the theorems there.
use unopp_server.Uno.Card.{
  Card, red, blue, black, one, five, seven, reverse, wild_draw_4, content_eq, color_eq, card_eq,
  is_number_card, card_2_int, int_2_card, int_2_card-card_2_int,
}
use unopp_server.Uno.State.{
  Uno, Player, blank_card, new_player, back, player_at, put, give, deal_cards, next,
  last_player_idx,
}
use unopp_server.Uno.Rules.{
  Played, Suspected, play, suspect, is_playable, may_lay, lay_card, lay, erase, forgot_uno,
  settle_uno, turn_around, effect, show_card, judge, sentence, any_playable, was_playable, draw_one,
  draw_card,
}
use unopp_server.Uno.Start.{first_idx, all_cards, new_game, init, deal_hands, turn_up}
use unopp_server.Prelude.Shuffle.{shuffle, swap}
use unopp_server.Uno.Conservation.{weight, seats}
use unopp_server.Uno.Turn.{last_player_idx-next}
use unopp_server.Uno.Laying.{contains, IsAllowed, play_success_iff, play_cards}
use unopp_server.Uno.TurnOrder.{TurnAfter, play-TurnAfter}
use unopp_server.Uno.Opening.{IsOpening, new_game-IsOpening, new_game-some}
use unopp_server.Uno.Suspicion.{shown, play-suspect}
use unopp_server.Uno.Following.{HoldsFollowing}
use unopp_server.Uno.Seats.{InBounds}
use unopp_server.Uno.Game.{draws, step, start, move, Reach-new_game}
use unopp_server.Prelude.{
  ℕ, ◌+◌, ◌≡◌, ◌↔◌, refl, Bool, true, false, List, [], ◌∷◌, ◌++◌, Option, none, some, arith,
  Defined, Ensures, sum_by, if◌then◌else◌,
}

abbrev red_one : Card
red_one = record { color = red; content = one }

abbrev red_turn : Card
red_turn = record { color = red; content = reverse }

abbrev blue_five : Card
blue_five = record { color = blue; content = five }

abbrev wild_four : Card
wild_four = record { color = black; content = wild_draw_4 }

abbrev hand_of : ℕ → List Card → Player
hand_of user_id cards = record (new_player user_id) { cards_in_hand = cards }

-- Player 11 is to move, on a red one.
abbrev table : Uno
table = record {
  players =
      hand_of 11 (wild_four ∷ red_turn ∷ blue_five ∷ [])
      ∷ hand_of 12 (blue_five ∷ blue_five ∷ [])
      ∷ hand_of 13 (red_one ∷ red_one ∷ blue_five ∷ [])
      ∷ [];
  deck = blue_five ∷ blue_five ∷ red_one ∷ blue_five ∷ red_turn ∷ blue_five ∷ red_one ∷ [];
  last_color = red;
  last_number = one;
  card_b4_wild_draw_4 = blank_card;
  reversed = false;
  wait_suspect = false;
  next_player_idx = 0;
}

abbrev first_player : Player
first_player = hand_of 11 (wild_four ∷ red_turn ∷ blue_five ∷ [])

abbrev or_table : Option Played → Played
or_table (some r) = r
or_table none = record { success = false; punish = false; after = table }

-- Opens play and all that it calls.
abbrev lays : Card → Option Played
unfolding play is_playable color_eq content_eq card_eq player_at may_lay lay_card lay erase
    forgot_uno settle_uno give deal_cards put turn_around next effect show_card
lays card = play 11 card blue table

lays_turn : lays red_turn ≡ some (or_table (lays red_turn))
unfolding lays play is_playable color_eq content_eq card_eq player_at may_lay lay_card lay erase
    forgot_uno settle_uno give deal_cards put turn_around next effect show_card
lays_turn = refl

play-TurnAfter_example : TurnAfter red_turn blue table (or_table (lays red_turn)).after
unfolding lays play is_playable color_eq content_eq card_eq player_at may_lay lay_card lay erase
    forgot_uno settle_uno give deal_cards put turn_around next effect show_card
play-TurnAfter_example =
    play-TurnAfter 11 red_turn blue first_player table {r = or_table (lays red_turn)} refl lays_turn
      refl

play_turn_test : (or_table (lays red_turn)).after.next_player_idx ≡ 1
unfolding lays play is_playable color_eq content_eq card_eq player_at may_lay lay_card lay erase
    forgot_uno settle_uno give deal_cards put turn_around next effect show_card
play_turn_test = refl

play_success_example :
    ((or_table (lays red_turn)).success ≡ true) ↔ IsAllowed 11 red_turn first_player table
unfolding lays play is_playable color_eq content_eq card_eq player_at may_lay lay_card lay erase
    forgot_uno settle_uno give deal_cards put turn_around next effect show_card
play_success_example =
    (play_success_iff 11 red_turn blue first_player table {r = or_table (lays red_turn)} refl
      lays_turn).0

play_cards_example :
    ((w : Card → ℕ)
      → weight w (or_table (lays red_turn)).after + w red_turn ≡ weight w table + w red_turn)
    × ((or_table (lays red_turn)).after.deck ≡ table.deck ++ red_turn ∷ [])
    × (seats (or_table (lays red_turn)).after ≡ seats table)
unfolding lays contains play is_playable color_eq content_eq card_eq player_at may_lay lay_card lay
    erase forgot_uno settle_uno give deal_cards put turn_around next effect show_card
play_cards_example =
    play_cards 11 red_turn blue first_player table {r = or_table (lays red_turn)} refl lays_turn

-- Laying a card that nobody holds is accepted, and makes a card: eight blue fives become nine.
forged_test :
    sum_by
      (λ c. if card_eq c (record { color = red; content = seven }) then 1 else 0)
      (or_table (lays (record { color = red; content = seven }))).after.deck
    ≡ 1
unfolding lays play is_playable color_eq content_eq card_eq player_at may_lay lay_card lay erase
    forgot_uno settle_uno give deal_cards put turn_around next effect show_card
forged_test = refl

lays_wild : lays wild_four ≡ some (or_table (lays wild_four))
unfolding lays play is_playable color_eq content_eq card_eq player_at may_lay lay_card lay erase
    forgot_uno settle_uno give deal_cards put turn_around next effect show_card
lays_wild = refl

abbrev accused : Option (Option Suspected × Uno)
unfolding lays play is_playable color_eq content_eq card_eq player_at may_lay lay_card lay erase
    forgot_uno settle_uno give deal_cards put turn_around next effect show_card suspect judge
    sentence any_playable was_playable last_player_idx
accused = suspect 13 (or_table (lays wild_four)).after

abbrev verdict_of : Option (Option Suspected × Uno) → Suspected × Uno
verdict_of (some (some s, u)) = (s, u)
verdict_of other = (record { success = false; suspect_id = 0; cards = [] }, table)

accused-some : accused ≡ some (some (verdict_of accused).0, (verdict_of accused).1)
unfolding accused lays play is_playable color_eq content_eq card_eq player_at may_lay lay_card lay
    erase forgot_uno settle_uno give deal_cards put turn_around next effect show_card suspect judge
    sentence any_playable was_playable last_player_idx
accused-some = refl

wild_four-wild : content_eq wild_four.content wild_draw_4 ≡ true
unfolding content_eq
wild_four-wild = refl

table_first : player_at table table.next_player_idx ≡ some first_player
unfolding player_at
table_first = refl

lays_wild-success : (or_table (lays wild_four)).success ≡ true
unfolding lays play is_playable color_eq content_eq card_eq player_at may_lay lay_card lay erase
    forgot_uno settle_uno give deal_cards put turn_around next effect show_card
lays_wild-success = refl

-- The player had a red card to follow the red one: the suspicion succeeds.
play-suspect_example :
    (((verdict_of accused).0.success ≡ true)
      ↔ HoldsFollowing (shown table) first_player.cards_in_hand)
    × ((verdict_of accused).0.suspect_id ≡ 11)
unfolding play lays suspect accused
play-suspect_example =
    play-suspect 11 13 wild_four blue first_player table (verdict_of accused).1
      {r = or_table (lays wild_four)} {s = (verdict_of accused).0} wild_four-wild table_first
      lays_wild lays_wild-success accused-some

last_player_idx-next_example : last_player_idx (next table) ≡ 0
last_player_idx-next_example = last_player_idx-next table (omega arith)

int_2_card-card_2_int_example : int_2_card (card_2_int wild_four) ≡ some wild_four
int_2_card-card_2_int_example = int_2_card-card_2_int wild_four

abbrev ids : List ℕ
ids = 11 ∷ 12 ∷ 13 ∷ []

new_game-some_example : Defined (new_game (λ i. 0) (λ i. i) 5 ids)
new_game-some_example = new_game-some (λ i. 0) (λ i. i) 5 ids (omega arith) (omega arith)

new_game-IsOpening_example : Ensures (IsOpening ids) (new_game (λ i. 0) (λ i. i) 5 ids)
new_game-IsOpening_example = new_game-IsOpening (λ i. 0) (λ i. i) 5 ids

abbrev or_empty : Option Uno → Uno
or_empty (some u) = u
or_empty none = table

abbrev begun : Uno
unfolding new_game init first_idx shuffle swap all_cards deal_hands turn_up back is_number_card
    deal_cards
begun = or_empty (new_game (λ i. 0) (λ i. i) 5 ids)

begun-new_game : new_game (λ i. 0) (λ i. i) 5 ids ≡ some begun
unfolding begun new_game init first_idx shuffle swap all_cards deal_hands turn_up back
    is_number_card deal_cards
begun-new_game = refl

begun_player : begun.next_player_idx ≡ 2
unfolding begun new_game init first_idx shuffle swap all_cards deal_hands turn_up back
    is_number_card deal_cards
begun_player = refl

is_some : Option Uno → Bool
is_some (some u) = true
is_some none = false

some_or : (m : Option Uno) → is_some m ≡ true → m ≡ some (or_empty m)
unfolding is_some
some_or (some u) h = refl
some_or none h = cc

-- The player who begins draws a card.
abbrev drawn : Uno
drawn = or_empty (step (draws 13) begun)

drawn_step : step (draws 13) begun ≡ some drawn
drawn_step = some_or (step (draws 13) begun) can_draw
  where
    can_draw : is_some (step (draws 13) begun) ≡ true
    can_draw =
        unfold begun new_game init shuffle swap all_cards deal_hands turn_up back is_number_card
          deal_cards step draw_one draw_card give put player_at is_some in
        refl

Reach-new_game_example :
    ((w : Card → ℕ) → weight w drawn ≡ sum_by w all_cards)
    × ((w : ℕ → ℕ) → sum_by w (seats drawn) ≡ sum_by w ids)
    × InBounds drawn
Reach-new_game_example =
    Reach-new_game (λ i. 0) (λ i. i) 5 ids begun-new_game
      (move {v = begun} (draws 13) start tt drawn_step)
