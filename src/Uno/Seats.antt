-- ===== src/Uno/Seats.antt =====
-- The moves of src/Uno.hpp leave the turn with one of the players.
use unopp_server.Uno.Card.{Card, CardColor}
use unopp_server.Uno.State.{Uno, Player, player_at, put, next, last_player_idx}
use unopp_server.Uno.Rules.{
  Played, play, draw_card, draw_one, skip_after_drawing_one, index_of, missay, say_own_uno, say_uno,
  sentence, judge, suspect, dissuspect,
}
use unopp_server.Uno.Conservation.{seats}
use unopp_server.Uno.Turn.{beside, beside_lt, next-lt, next-players}
use unopp_server.Uno.Laying.{accepts, refuses, play-Answers, play_cards}
use unopp_server.Uno.TurnOrder.{
  SameTurn, SameTurn-refl, SameTurn-trans, put-SameTurn, give-SameTurn, punish-SameTurn, skips,
  play-TurnAfter,
}
use unopp_server.Prelude.{
  ℕ, suc, ◌<◌, ◌≡◌, refl, sym, ap, ◌∙◌, Bool, true, false, ◌&&◌, not, List, [], ◌∷◌, map, some,
  length, get_elem?-some, if◌then◌else◌, ◌==◌, Bool-cases, Option-cases, inl, inr, returns,
  of_Ensures, Ensures, Ensures-bind, Ensures->>=, Ensures-if,
}

abbrev pub InBounds : Uno → Type 0
InBounds u = u.next_player_idx < length u.players

length-seats : (ps : List Player) → length (map (λ (p : Player). p.user_id) ps) ≡ length ps
length-seats [] = refl
length-seats (p ∷ ps) = ap suc (length-seats ps)

pub seated : (u : Uno) → InBounds u → (p : Player) × (player_at u u.next_player_idx ≡ some p)
unfolding player_at
seated u lt = get_elem?-some u.players u.next_player_idx lt

pub SameTurn-InBounds : {u u' : Uno} → InBounds u → SameTurn u u' → InBounds u'
SameTurn-InBounds h s = rw (s.idx, s.size) h

next-InBounds : (u : Uno) → InBounds u → InBounds (next u)
next-InBounds u h = rw next-players (next-lt u h)

cleared-InBounds : (u : Uno) → InBounds u → InBounds (record u { wait_suspect = false })
cleared-InBounds u h = h

same-length : (u u' : Uno) → seats u' ≡ seats u → length u'.players ≡ length u.players
same-length u u' e = sym (length-seats u'.players) ∙ ap length e ∙ length-seats u.players

seat_lt :
    (b right : Bool) (n i : ℕ)
    → i < n
    → (if b then beside right n (beside right n i) else beside right n i) < n
seat_lt true right n i h = beside_lt right n _ (beside_lt right n i h)
seat_lt false right n i h = beside_lt right n i h

pub play-InBounds :
    (player_id : ℕ) (card : Card) (specified : CardColor) (p : Player) (u : Uno) {r : Played}
    → InBounds u
    → player_at u u.next_player_idx ≡ some p
    → play player_id card specified u ≡ some r
    → InBounds r.after
play-InBounds player_id card specified p u {r} lt e h =
    elim (of_Ensures (play-Answers player_id card specified p u e) h) [
      | accepts a s k ↦
          let t = play-TurnAfter player_id card specified p u e h s in
          let size = same-length u r.after (play_cards player_id card specified p u e h).2 in
          rw (t.seat, size) (seat_lt (skips card) r.after.reversed (length u.players) _ lt)
      | refuses n s q same ↦ rw same lt
    ]

draw_card-SameTurn : (p : Player) (u : Uno) → Ensures (λ d. SameTurn u d.after) (draw_card p u)
unfolding draw_card
draw_card-SameTurn p u = Ensures->>= (punish-SameTurn p.said_uno u.next_player_idx 2 u) λ r s.
    Ensures-bind (player_at r.0 u.next_player_idx) λ q eq.
      Ensures->>= (give-SameTurn u.next_player_idx 1 _) λ r' s'.
        Ensures-bind (player_at r'.0 u.next_player_idx) λ q' eq'. returns (
          SameTurn-trans s (
            SameTurn-trans (put-SameTurn u.next_player_idx _ r.0)
              (SameTurn-trans s' (put-SameTurn u.next_player_idx _ r'.0))))

pub draw_one-SameTurn :
    (player_id : ℕ) (u : Uno) → Ensures (λ d. SameTurn u d.after) (draw_one player_id u)
unfolding draw_one
draw_one-SameTurn player_id u =
    Ensures-if u.wait_suspect (λ _. returns (SameTurn-refl u))
      λ _. Ensures-bind (player_at u u.next_player_idx) λ p ep.
        Ensures-if ((player_id == p.user_id) && not p.drawn_one) (λ _. draw_card-SameTurn p u)
          (λ _. returns (SameTurn-refl u))

missay-SameTurn : (i : ℕ) (u : Uno) → Ensures (λ r. SameTurn u r.1) (missay i u)
unfolding missay
missay-SameTurn i u = Ensures->>= (give-SameTurn i 2 u) λ r s. returns s

say_own_uno-SameTurn : (p : Player) (u : Uno) → Ensures (λ r. SameTurn u r.1) (say_own_uno p u)
unfolding say_own_uno
say_own_uno-SameTurn p u =
    Ensures-if (length p.cards_in_hand == 2)
      (λ _. returns (put-SameTurn u.next_player_idx (record p { said_uno = true }) u))
      (λ _. missay-SameTurn u.next_player_idx u)

pub say_uno-SameTurn :
    (player_id : ℕ) (u : Uno) → Ensures (λ r. SameTurn u r.1) (say_uno player_id u)
unfolding say_uno
say_uno-SameTurn player_id u = Ensures-bind (player_at u u.next_player_idx) λ p ep.
    Ensures-if (player_id == p.user_id) (λ _. say_own_uno-SameTurn p u)
      λ _. elim (Option-cases (index_of player_id u.players)) [
        | inl e ↦ rw e (say_own_uno-SameTurn p u)
        | inr (i, e) ↦ rw e (missay-SameTurn i u)
      ]

pub skip-InBounds :
    (player_id : ℕ) (u : Uno)
    → InBounds u
    → Ensures (λ r. InBounds r.1) (skip_after_drawing_one player_id u)
unfolding skip_after_drawing_one
skip-InBounds player_id u lt =
    Ensures-if u.wait_suspect (λ _. returns lt)
      λ _. Ensures-bind (player_at u u.next_player_idx) λ p ep.
        elim (Bool-cases ((player_id == p.user_id) && p.drawn_one)) [
          | inl e ↦ rw e (
              returns (
                next-InBounds (put u.next_player_idx (record p { drawn_one = false }) u)
                  (SameTurn-InBounds lt (put-SameTurn u.next_player_idx _ u))))
          | inr e ↦ rw e (returns lt)
        ]

sentence-InBounds : (b : Bool) (i : ℕ) (u : Uno) → InBounds u → Ensures InBounds (sentence b i u)
unfolding sentence
sentence-InBounds true i u lt =
    Ensures->>= (give-SameTurn i 4 u) λ r s. returns (SameTurn-InBounds lt s)
sentence-InBounds false i u lt =
    Ensures->>= (give-SameTurn u.next_player_idx 6 u)
      λ r s. returns (next-InBounds r.0 (SameTurn-InBounds lt s))

judge-InBounds : (u : Uno) → InBounds u → Ensures (λ r. InBounds r.1) (judge u)
unfolding judge
judge-InBounds u lt = Ensures-bind (player_at u (last_player_idx u)) λ sus e.
    Ensures->>= (sentence-InBounds _ (last_player_idx u) u lt) λ u' lt'.
      Ensures-bind (player_at u' (last_player_idx u)) λ sus' e'. returns (cleared-InBounds u' lt')

pub suspect-InBounds :
    (player_id : ℕ) (u : Uno) → InBounds u → Ensures (λ r. InBounds r.1) (suspect player_id u)
unfolding suspect
suspect-InBounds player_id u lt =
    Ensures-if (not u.wait_suspect) (λ _. returns lt)
      λ _. Ensures-bind (player_at u u.next_player_idx) λ p ep.
        Ensures-if (player_id == p.user_id)
          (λ _. Ensures->>= (judge-InBounds u lt) λ r h. returns h) (λ _. returns lt)

pub dissuspect-InBounds :
    (player_id : ℕ) (u : Uno) → InBounds u → Ensures (λ r. InBounds r.1) (dissuspect player_id u)
unfolding dissuspect
dissuspect-InBounds player_id u lt =
    Ensures-if (not u.wait_suspect) (λ _. returns lt)
      λ _. Ensures-bind (player_at u u.next_player_idx) λ p ep.
        Ensures-if (player_id == p.user_id)
          (λ _. Ensures->>= (give-SameTurn u.next_player_idx 4 u) λ r s.
            returns (cleared-InBounds (next r.0) (next-InBounds r.0 (SameTurn-InBounds lt s))))
          (λ _. returns lt)
