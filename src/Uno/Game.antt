-- ===== src/Uno/Game.antt =====
-- A whole game of UNO: the moves of src/Uno.hpp as one step function, and the states that a game
-- from new_game can reach.
use unopp_server.Uno.Card.{Card, CardColor}
use unopp_server.Uno.State.{Uno, Player, player_at}
use unopp_server.Uno.Rules.{
  Played, play, draw_one, skip_after_drawing_one, say_uno, suspect, dissuspect,
}
use unopp_server.Uno.Conservation.{weight, seats, Keeps, Keeps-refl, Keeps-trans}
use unopp_server.Uno.Moves.{
  draw_one-Keeps, skip-Keeps, say_uno-Keeps, suspect-Keeps, dissuspect-Keeps,
}
use unopp_server.Uno.Laying.{contains, play_cards}
use unopp_server.Uno.Start.{all_cards, new_game}
use unopp_server.Uno.Opening.{new_game-IsOpening}
use unopp_server.Prelude.{
  ℕ, ◌≡◌, refl, sym, ap, ◌∙◌, true, List, [], ◌∷◌, map, Option, some, arith, length, sum_by, ◌>>=◌,
  returns, of_Ensures, Ensures, Ensures-×, Ensures-self, Ensures->>=, Ensures-mono,
}
use unopp_server.Uno.Seats.{
  InBounds, SameTurn-InBounds, seated, play-InBounds, draw_one-SameTurn, say_uno-SameTurn,
  skip-InBounds, suspect-InBounds, dissuspect-InBounds,
}

pub data Move : Type 0 where
  plays : ℕ → Card → CardColor → Move
  draws skips_turn says suspects dissuspects : ℕ → Move

unfoldable pub step : Move → Uno → Option Uno
step (plays player_id card specified) u = play player_id card specified u >>= λ r. some r.after
step (draws player_id) u = draw_one player_id u >>= λ r. some r.after
step (skips_turn player_id) u = skip_after_drawing_one player_id u >>= λ r. some r.1
step (says player_id) u = say_uno player_id u >>= λ r. some r.1
step (suspects player_id) u = suspect player_id u >>= λ r. some r.1
step (dissuspects player_id) u = dissuspect player_id u >>= λ r. some r.1

-- A card that is played is in the hand of the player whose turn it is.
abbrev pub IsHonest : Move → Uno → Type 0
IsHonest (plays player_id card specified) u =
    (p : Player) → player_at u u.next_player_idx ≡ some p → contains card p.cards_in_hand ≡ true
IsHonest (draws player_id) u = Unit
IsHonest (skips_turn player_id) u = Unit
IsHonest (says player_id) u = Unit
IsHonest (suspects player_id) u = Unit
IsHonest (dissuspects player_id) u = Unit

-- The same cards, the same players, and a player whose turn it is.
pub record Continues (u u' : Uno) : Type 0 where
  pub keeps : Keeps u u'
  pub turn : InBounds u'

honest-Keeps :
    (player_id : ℕ) (card : Card) (specified : CardColor) (p : Player) (u : Uno) {r : Played}
    → player_at u u.next_player_idx ≡ some p
    → contains card p.cards_in_hand ≡ true
    → play player_id card specified u ≡ some r
    → Keeps u r.after
honest-Keeps player_id card specified p u {r} e held h =
    let after = play_cards player_id card specified p u e h in
    let cards : (w : Card → ℕ) → weight w r.after ≡ weight w u =
      λ w. let fact = after.0 w in ground arith in
    record { cards = cards; players = after.2 }

play-Continues :
    (player_id : ℕ) (card : Card) (specified : CardColor) (u : Uno)
    → InBounds u
    → IsHonest (plays player_id card specified) u
    → Ensures (λ r. Continues u r.after) (play player_id card specified u)
play-Continues player_id card specified u lt honest =
    let (p, e) = seated u lt in
    Ensures-mono (Ensures-self (play player_id card specified u)) λ r h. record {
      keeps = honest-Keeps player_id card specified p u e (honest p e) h;
      turn = play-InBounds player_id card specified p u lt e h;
    }

step-Continues : (m : Move) (u : Uno) → InBounds u → IsHonest m u → Ensures (Continues u) (step m u)
unfolding step
step-Continues (plays player_id card specified) u lt h =
    Ensures->>= (play-Continues player_id card specified u lt h) λ r c. returns c
step-Continues (draws player_id) u lt h =
    Ensures->>= (Ensures-× (draw_one-Keeps player_id u) (draw_one-SameTurn player_id u))
      λ r c. returns (record { keeps = c.0; turn = SameTurn-InBounds lt c.1 })
step-Continues (skips_turn player_id) u lt h =
    Ensures->>= (Ensures-× (skip-Keeps player_id u) (skip-InBounds player_id u lt))
      λ r c. returns (record { keeps = c.0; turn = c.1 })
step-Continues (says player_id) u lt h =
    Ensures->>= (Ensures-× (say_uno-Keeps player_id u) (say_uno-SameTurn player_id u))
      λ r c. returns (record { keeps = c.0; turn = SameTurn-InBounds lt c.1 })
step-Continues (suspects player_id) u lt h =
    Ensures->>= (Ensures-× (suspect-Keeps player_id u) (suspect-InBounds player_id u lt))
      λ r c. returns (record { keeps = c.0; turn = c.1 })
step-Continues (dissuspects player_id) u lt h =
    Ensures->>= (Ensures-× (dissuspect-Keeps player_id u) (dissuspect-InBounds player_id u lt))
      λ r c. returns (record { keeps = c.0; turn = c.1 })

-- The states of a game: any moves by any players, in which only held cards are played.
pub data Reach (u : Uno) : Uno → Type 0 where
  start : Reach u u
  move : {v w : Uno} (m : Move) → Reach u v → IsHonest m v → step m v ≡ some w → Reach u w

Reach-Continues : {u v : Uno} → InBounds u → Reach u v → Continues u v
Reach-Continues {u} lt start = record { keeps = Keeps-refl u; turn = lt }
Reach-Continues lt (move {v = v} m r h e) =
    let before = Reach-Continues lt r in
    let after = of_Ensures (step-Continues m v before.turn h) e in
    record { keeps = Keeps-trans before.keeps after.keeps; turn = after.turn }

pub count_ids : (ids : List ℕ) → sum_by (λ _. 1) ids ≡ length ids
count_ids [] = refl
count_ids (i ∷ ids) = omega (arith, count_ids ids)

pub count_players :
    (ps : List Player) → sum_by (λ _. 1) (map (λ (p : Player). p.user_id) ps) ≡ length ps
count_players [] = refl
count_players (p ∷ ps) = omega (arith, count_players ps)

-- In every state that a game can reach, as long as only held cards are played, the
-- cards are those of all_cards, each as often, the players are those who began, in some order, and
-- the turn is with one of them.
pub Reach-new_game :
    (seating rand : ℕ → ℕ) (first : ℕ) (ids : List ℕ) {u v : Uno}
    → new_game seating rand first ids ≡ some u
    → Reach u v
    → ((w : Card → ℕ) → weight w v ≡ sum_by w all_cards)
      × ((w : ℕ → ℕ) → sum_by w (seats v) ≡ sum_by w ids)
      × InBounds v
Reach-new_game seating rand first ids {u} {v} e r =
    let opening = of_Ensures (new_game-IsOpening seating rand first ids) e in
    let many : length u.players ≡ length ids =
      sym (count_players u.players) ∙ opening.players (λ _. 1) ∙ count_ids ids in
    let c = Reach-Continues (rw many opening.turn) r in
    (
      (λ w. c.keeps.cards w ∙ opening.cards w),
      (λ w. ap (sum_by w) c.keeps.players ∙ opening.players w),
      c.turn,
    )
