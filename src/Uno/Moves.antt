-- ===== src/Uno/Moves.antt =====
-- Which cards and players the moves of src/Uno.hpp leave in the game.
use unopp_server.Uno.Card.{Card}
use unopp_server.Uno.State.{Uno, Player, player_at, give, next, last_player_idx, blank_card}
use unopp_server.Uno.Rules.{
  draw_card, draw_one, skip_after_drawing_one, index_of, missay, say_own_uno, say_uno, sentence,
  judge, suspect, dissuspect,
}
use unopp_server.Uno.Conservation.{
  Keeps, Keeps-refl, Keeps-trans, put-Keeps, give-Keeps, Keeps-of_eq, next-Keeps,
}
use unopp_server.Prelude.{
  ℕ, ◌≡◌, refl, Bool, true, false, ◌&&◌, not, some, ◌==◌, if◌then◌else◌, ◌>>=◌, Bool-cases, inl,
  inr, Option-cases, length, returns, Ensures-bind, Ensures, Ensures->>=, Ensures-if,
}

-- give, in a chain of steps.
pub give-next-Keeps : (i n : ℕ) (u : Uno) → Ensures (Keeps u) (give i n u >>= λ r. some (next r.0))
give-next-Keeps i n u =
    Ensures->>= (give-Keeps i n u) λ r k. returns (Keeps-trans k (next-Keeps r.0))

give_only-Keeps : (i n : ℕ) (u : Uno) → Ensures (Keeps u) (give i n u >>= λ r. some r.0)
give_only-Keeps i n u = Ensures->>= (give-Keeps i n u) λ r k. returns k

pub punish-Keeps :
    (b : Bool) (i n : ℕ) (u : Uno)
    → Ensures (λ r. Keeps u r.0) (if b then give i n u else some (u, blank_card))
punish-Keeps true i n u = give-Keeps i n u
punish-Keeps false i n u = returns (Keeps-refl u)

-- What draw_card writes to its player.
abbrev ready_of : Player → Player
ready_of q = record q { said_uno = false; drawn_one = true }

abbrev drew : Card → Player → Player
drew card q = record q { last_drew = card }

draw_card-Keeps : (p : Player) (u : Uno) → Ensures (λ d. Keeps u d.after) (draw_card p u)
unfolding draw_card
draw_card-Keeps p u =
    let i = u.next_player_idx in
    Ensures->>= (punish-Keeps p.said_uno i 2 u) λ r k. Ensures-bind (player_at r.0 i) λ q eq.
      Ensures->>= (give-Keeps i 1 _) λ r' k'. Ensures-bind (player_at r'.0 i) λ q' eq'. returns (
        Keeps-trans k (
          Keeps-trans (put-Keeps i q (ready_of q) r.0 eq refl refl)
            (Keeps-trans k' (put-Keeps i q' (drew r'.1 q') r'.0 eq' refl refl))))

-- Drawing a card, with or without the punishment, neither loses nor makes a card.
pub draw_one-Keeps :
    (player_id : ℕ) (u : Uno) → Ensures (λ d. Keeps u d.after) (draw_one player_id u)
unfolding draw_one
draw_one-Keeps player_id u =
    Ensures-if u.wait_suspect (λ _. returns (Keeps-refl u))
      λ _. Ensures-bind (player_at u u.next_player_idx) λ p ep.
        Ensures-if ((player_id == p.user_id) && not p.drawn_one) (λ _. draw_card-Keeps p u)
          (λ _. returns (Keeps-refl u))

pub skip-Keeps :
    (player_id : ℕ) (u : Uno) → Ensures (λ r. Keeps u r.1) (skip_after_drawing_one player_id u)
unfolding skip_after_drawing_one
skip-Keeps player_id u =
    Ensures-if u.wait_suspect (λ _. returns (Keeps-refl u))
      λ _. Ensures-bind (player_at u u.next_player_idx) λ p ep.
        elim (Bool-cases ((player_id == p.user_id) && p.drawn_one)) [
          | inl e ↦ rw e (
              returns (
                Keeps-trans
                  (put-Keeps u.next_player_idx p (record p { drawn_one = false }) u ep refl refl)
                  (next-Keeps _)))
          | inr e ↦ rw e (returns (Keeps-refl u))
        ]

missay-Keeps : (i : ℕ) (u : Uno) → Ensures (λ r. Keeps u r.1) (missay i u)
unfolding missay
missay-Keeps i u = Ensures->>= (give-Keeps i 2 u) λ r k. returns k

say_own_uno-Keeps :
    (p : Player) (u : Uno)
    → player_at u u.next_player_idx ≡ some p
    → Ensures (λ r. Keeps u r.1) (say_own_uno p u)
unfolding say_own_uno
say_own_uno-Keeps p u ep =
    Ensures-if (length p.cards_in_hand == 2)
      (λ _. returns (put-Keeps u.next_player_idx p (record p { said_uno = true }) u ep refl refl))
      (λ _. missay-Keeps u.next_player_idx u)

pub say_uno-Keeps : (player_id : ℕ) (u : Uno) → Ensures (λ r. Keeps u r.1) (say_uno player_id u)
unfolding say_uno
say_uno-Keeps player_id u = Ensures-bind (player_at u u.next_player_idx) λ p ep.
    Ensures-if (player_id == p.user_id) (λ _. say_own_uno-Keeps p u ep)
      λ _. elim (Option-cases (index_of player_id u.players)) [
        | inl e ↦ rw e (say_own_uno-Keeps p u ep)
        | inr (i, e) ↦ rw e (missay-Keeps i u)
      ]

sentence-Keeps : (b : Bool) (i : ℕ) (u : Uno) → Ensures (Keeps u) (sentence b i u)
unfolding sentence
sentence-Keeps true i u = give_only-Keeps i 4 u
sentence-Keeps false i u = give-next-Keeps u.next_player_idx 6 u

judge-Keeps : (u : Uno) → Ensures (λ r. Keeps u r.1) (judge u)
unfolding judge
judge-Keeps u = Ensures-bind (player_at u (last_player_idx u)) λ sus es.
    Ensures->>= (sentence-Keeps _ (last_player_idx u) u) λ u' k.
      Ensures-bind (player_at u' (last_player_idx u)) λ sus' es'.
        returns (Keeps-trans k (Keeps-of_eq u' (record u' { wait_suspect = false }) refl refl))

pub suspect-Keeps : (player_id : ℕ) (u : Uno) → Ensures (λ r. Keeps u r.1) (suspect player_id u)
unfolding suspect
suspect-Keeps player_id u =
    Ensures-if (not u.wait_suspect) (λ _. returns (Keeps-refl u))
      λ _. Ensures-bind (player_at u u.next_player_idx) λ p ep.
        Ensures-if (player_id == p.user_id) (λ _. Ensures->>= (judge-Keeps u) λ r k. returns k)
          (λ _. returns (Keeps-refl u))

pub dissuspect-Keeps :
    (player_id : ℕ) (u : Uno) → Ensures (λ r. Keeps u r.1) (dissuspect player_id u)
unfolding dissuspect
dissuspect-Keeps player_id u =
    Ensures-if (not u.wait_suspect) (λ _. returns (Keeps-refl u))
      λ _. Ensures-bind (player_at u u.next_player_idx) λ p ep.
        Ensures-if (player_id == p.user_id)
          (λ _. Ensures->>= (give-Keeps u.next_player_idx 4 u) λ r k. returns (
            Keeps-trans k (
              Keeps-trans (next-Keeps r.0)
                (Keeps-of_eq (next r.0) (record (next r.0) { wait_suspect = false }) refl refl))))
          (λ _. returns (Keeps-refl u))
