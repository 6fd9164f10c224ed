-- ===== src/Uno/Rules.antt =====
-- The moves of src/Uno.hpp: play, draw_one, skip_after_drawing_one, say_uno, suspect, dissuspect.
-- A move returns the value of the C++ function, its reference parameters and the new state; `none`
-- is undefined behaviour (a card from an empty deck, a player out of bounds).
use unopp_server.Uno.Card.{
  Card, CardColor, black, skip, draw_2, reverse, wild, wild_draw_4, color_eq, content_eq, card_eq,
}
use unopp_server.Uno.State.{Uno, Player, player_at, put, give, next, last_player_idx, blank_card}
use unopp_server.Prelude.{
  ℕ, suc, Bool, true, false, not, ◌&&◌, ◌||◌, List, [], ◌∷◌, ◌++◌, Option, none, some, length, ◌==◌,
  ◌>>=◌, if◌then◌else◌,
}

-- The result of play.
pub record Played : Type 0 where
  pub success : Bool
  pub punish : Bool
  pub after : Uno

-- The test of play on the card: a black card, or one of the last colour or the last number.
unfoldable pub is_playable : Card → Uno → Bool
is_playable card u =
    if color_eq card.color black
    then true
    else color_eq card.color u.last_color || content_eq card.content u.last_number

-- The loop that erases the first copy of the card from the hand.
unfoldable pub erase : Card → List Card → List Card
erase card [] = []
erase card (c ∷ cs) = if card_eq c card then cs else c ∷ erase card cs

-- The player with the card laid down.
unfoldable pub lay : Card → Player → Player
unfolding erase
lay card p = record p {
  drawn_one = false;
  cards_when_wild_draw_4 =
      if content_eq card.content wild_draw_4 then p.cards_in_hand else p.cards_when_wild_draw_4;
  cards_in_hand = erase card p.cards_in_hand;
}

-- One card is left and UNO was not said.
unfoldable pub forgot_uno : Player → Bool
forgot_uno p = (length p.cards_in_hand == 1) && not p.said_uno

-- The punishment of two cards, and the reset of said_uno.
unfoldable pub settle_uno : Bool → Uno → Option Uno
settle_uno punish u = do
  (u', _) ← if punish then give u.next_player_idx 2 u else some (u, blank_card)
  p ← player_at u' u.next_player_idx
  some (put u.next_player_idx (record p { said_uno = false }) u')

unfoldable pub turn_around : Card → Uno → Uno
turn_around card u = record u {
  reversed = if content_eq card.content reverse then not u.reversed else u.reversed;
}

-- What the card does to the player after the one who laid it; the turn has passed already.
unfoldable pub effect : Card → Uno → Option Uno
effect card u =
    if content_eq card.content draw_2
    then (give u.next_player_idx 2 u >>= λ r. some (next r.0))
    else if content_eq card.content skip
    then some (next u)
    else if content_eq card.content wild_draw_4
    then some (record u {
      wait_suspect = true;
      card_b4_wild_draw_4 = record { color = u.last_color; content = u.last_number };
    })
    else some u

-- The colour and the number that the next card must follow.
unfoldable pub show_card : Card → CardColor → Uno → Uno
show_card card specified_color u = record u {
  last_color = if color_eq card.color black then specified_color else card.color;
  last_number = card.content;
}

-- play, from the point where nothing can refuse the card any more.
unfoldable pub lay_card : Card → CardColor → Player → Uno → Option Played
lay_card card specified_color p u = do
  let laid = put u.next_player_idx (lay card p) (record u { deck = u.deck ++ card ∷ [] })
  let punish = forgot_uno (lay card p)
  settled ← settle_uno punish laid
  u' ← effect card (next (turn_around card settled))
  some (record { success = true; punish = punish; after = show_card card specified_color u' })

-- May the player whose turn it is, `p`, lay this card?
unfoldable pub may_lay : ℕ → Card → Player → Bool
may_lay player_id card p =
    (player_id == p.user_id) && not (p.drawn_one && not (card_eq p.last_drew card))

unfoldable pub play : ℕ → Card → CardColor → Uno → Option Played
play player_id card specified_color u =
    let refused = some (record { success = false; punish = false; after = u }) in
    if u.wait_suspect then refused else if not (is_playable card u) then refused else do
      p ← player_at u u.next_player_idx
      if may_lay player_id card p then lay_card card specified_color p u else refused

-- The result of draw_one; `card` is left alone where nothing is drawn.
pub record Drawn : Type 0 where
  pub success : Bool
  pub punish : Bool
  pub card : Option Card
  pub after : Uno

-- draw_one, once the player may draw.
unfoldable pub draw_card : Player → Uno → Option Drawn
draw_card p u = do
  let i = u.next_player_idx
  (punished, _) ← if p.said_uno then give i 2 u else some (u, blank_card)
  q ← player_at punished i
  let ready = put i (record q { said_uno = false; drawn_one = true }) punished
  (u', card) ← give i 1 ready
  q' ← player_at u' i
  some (record {
    success = true;
    punish = p.said_uno;
    card = some card;
    after = put i (record q' { last_drew = card }) u';
  })

unfoldable pub draw_one : ℕ → Uno → Option Drawn
draw_one player_id u =
    let refused = some (record { success = false; punish = false; card = none; after = u }) in
    if u.wait_suspect then refused else do
      p ← player_at u u.next_player_idx
      if (player_id == p.user_id) && not p.drawn_one then draw_card p u else refused

unfoldable pub skip_after_drawing_one : ℕ → Uno → Option (Bool × Uno)
skip_after_drawing_one player_id u = if u.wait_suspect then some (false, u) else do
  p ← player_at u u.next_player_idx
  some (
      if (player_id == p.user_id) && p.drawn_one
      then (true, next (put u.next_player_idx (record p { drawn_one = false }) u))
      else (false, u))

-- The place of the first player with this id.
unfoldable pub index_of : ℕ → List Player → Option ℕ
index_of player_id [] = none
index_of player_id (p ∷ ps) =
    if p.user_id == player_id then some 0 else (index_of player_id ps >>= λ i. some (suc i))

-- Two cards for the player at `i`, and the answer false.
unfoldable pub missay : ℕ → Uno → Option (Bool × Uno)
missay i u = give i 2 u >>= λ r. some (false, r.0)

-- say_uno, of the player whose turn it is.
unfoldable pub say_own_uno : Player → Uno → Option (Bool × Uno)
unfolding missay
say_own_uno p u =
    if length p.cards_in_hand == 2
    then some (true, put u.next_player_idx (record p { said_uno = true }) u)
    else missay u.next_player_idx u

-- An id that no player has falls through to the player whose turn it is.
unfoldable pub say_uno : ℕ → Uno → Option (Bool × Uno)
say_uno player_id u = do
  p ← player_at u u.next_player_idx
  if player_id == p.user_id
      then say_own_uno p u
      else elim (index_of player_id u.players) [ some i ↦ missay i u | none ↦ say_own_uno p u ]

-- The test of the loop in suspect: the card could have been played in place of the wild draw 4.
unfoldable pub was_playable : Card → Card → Bool
was_playable before card =
    color_eq card.color before.color
    || (not (content_eq before.content wild)
        && (not (content_eq before.content wild_draw_4) && content_eq card.content before.content))

unfoldable pub any_playable : Card → List Card → Bool
any_playable before [] = false
any_playable before (c ∷ cs) = was_playable before c || any_playable before cs

-- The result of a valid suspect.
pub record Suspected : Type 0 where
  pub success : Bool
  pub suspect_id : ℕ
  pub cards : List Card

-- What a suspicion costs: four cards for the suspect at `i`, or six and the turn for the other.
unfoldable pub sentence : Bool → ℕ → Uno → Option Uno
sentence true i u = give i 4 u >>= λ r. some r.0
sentence false i u = give u.next_player_idx 6 u >>= λ r. some (next r.0)

-- suspect, of the player whose turn it is: the suspect draws four, or the player six and the turn.
unfoldable pub judge : Uno → Option (Suspected × Uno)
unfolding any_playable sentence
judge u = do
  let i = last_player_idx u
  sus ← player_at u i
  let success = any_playable u.card_b4_wild_draw_4 sus.cards_when_wild_draw_4
  u' ← sentence success i u
  sus' ← player_at u' i
  some (
    record { success = success; suspect_id = sus'.user_id; cards = sus'.cards_in_hand },
    record u' { wait_suspect = false },
  )

-- `none` in the result is valid = false.
unfoldable pub suspect : ℕ → Uno → Option (Option Suspected × Uno)
unfolding judge
suspect player_id u = if not u.wait_suspect then some (none, u) else do
  p ← player_at u u.next_player_idx
  if player_id == p.user_id then (judge u >>= λ r. some (some r.0, r.1)) else some (none, u)

unfoldable pub dissuspect : ℕ → Uno → Option (Bool × Uno)
dissuspect player_id u = if not u.wait_suspect then some (false, u) else do
  p ← player_at u u.next_player_idx
  if player_id == p.user_id
      then (give u.next_player_idx 4 u >>= λ r.
          some (true, record (next r.0) { wait_suspect = false }))
      else some (false, u)
