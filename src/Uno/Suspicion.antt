-- ===== src/Uno/Suspicion.antt =====
-- A WILD_DRAW_4 and the suspicion that may follow it: play and suspect of src/Uno.hpp together.
use unopp_server.Uno.Card.{Card, CardColor, wild_draw_4, draw_2, skip, content_eq}
use unopp_server.Uno.State.{Uno, Player, player_at, put, give, next, last_player_idx, blank_card}
use unopp_server.Uno.Rules.{
  Played, Suspected, lay, forgot_uno, settle_uno, turn_around, effect, show_card, lay_card, play,
  any_playable, sentence, judge, suspect,
}
use unopp_server.Uno.Conservation.{give_lem}
use unopp_server.Uno.Turn.{last_player_idx-next}
use unopp_server.Uno.Laying.{play_accepted}
use unopp_server.Uno.Following.{
  HoldsFollowing, any_playable-HoldsFollowing, HoldsFollowing-any_playable,
}
use unopp_server.Uno.TurnOrder.{
  SameTurn, SameTurn-trans, settle_uno-SameTurn, lay-SameTurn, turned_lt,
}
use native.Mathlib.Decide.{ℕ_discrete}
use unopp_server.Prelude.{
  ℕ, ◌<◌, ◌≡◌, ◌↔◌, refl, sym, ◌∙◌, Bool, true, false, List, [], ◌∷◌, ◌++◌, some, arith, length,
  lt_of_get_elem?, get_elem?-set_self, get_elem?-set_ne, ◌≢◌, ◌==◌, not, if◌then◌else◌, returns,
  of_Ensures, Ensures, Ensures-bind, Ensures->>=, Ensures-mono, Ensures-if, subst, Ensures-×,
}

-- The player of seat `i` has the id `who`, and is remembered to have held `cards`.
pub record Remembers (i who : ℕ) (cards : List Card) (u : Uno) : Type 0 where
  pub player : Player
  pub sits : player_at u i ≡ some player
  pub same_id : player.user_id ≡ who
  pub memory : player.cards_when_wild_draw_4 ≡ cards

put-Remembers :
    (i who : ℕ) (cards : List Card) (p q : Player) (u : Uno)
    → player_at u i ≡ some p
    → q.user_id ≡ who
    → q.cards_when_wild_draw_4 ≡ cards
    → Remembers i who cards (put i q u)
unfolding put player_at
put-Remembers i who cards p q u e hid hm = record {
  player = q;
  sits = get_elem?-set_self u.players i q (lt_of_get_elem? u.players i p e);
  same_id = hid;
  memory = hm;
}

-- The player at the place.
at_place :
    {i who : ℕ} {cards : List Card} {u : Uno} (p : Player)
    → Remembers i who cards u
    → player_at u i ≡ some p
    → (p.user_id ≡ who) × (p.cards_when_wild_draw_4 ≡ cards)
at_place p m e =
    let same : m.player ≡ p = cc m.sits in (rw (← same) m.same_id, rw (← same) m.memory)

put_other-Remembers :
    (i j who : ℕ) (cards : List Card) (q : Player) (u v : Uno)
    → j ≢ i
    → v.players ≡ u.players
    → Remembers i who cards u
    → Remembers i who cards (put j q v)
unfolding put player_at
put_other-Remembers i j who cards q u v ne same m = record {
  player = m.player;
  sits = get_elem?-set_ne v.players j i q ne ∙ rw same m.sits;
  same_id = m.same_id;
  memory = m.memory;
}

give-Remembers :
    (i j n who : ℕ) (cards : List Card) (u : Uno)
    → Remembers i who cards u
    → Ensures (λ r. Remembers i who cards r.0) (give j n u)
unfolding player_at
give-Remembers i j n who cards u m = Ensures-mono (give_lem j n u) λ r g.
    let q = record g.player { cards_in_hand = g.hand } in
    let dealt = record u { deck = g.deck } in
    rw g.after (elim (ℕ_discrete j i) [
      | yes e ↦ rw e (
          put-Remembers i who cards g.player q dealt (rw (← e) g.sits)
            (at_place g.player m (rw (← e) g.sits)).0 (at_place g.player m (rw (← e) g.sits)).1)
      | no ne ↦ put_other-Remembers i j who cards q u dealt ne refl m
    ])

settle_uno-Remembers :
    (b : Bool) (who : ℕ) (cards : List Card) (u : Uno)
    → Remembers u.next_player_idx who cards u
    → Ensures (Remembers u.next_player_idx who cards) (settle_uno b u)
unfolding settle_uno
settle_uno-Remembers b who cards u m = Ensures->>= (punished b) λ r m'.
    Ensures-bind (player_at r.0 u.next_player_idx) λ p ep. returns (
      put-Remembers u.next_player_idx who cards p _ r.0 ep (at_place p m' ep).0
        (at_place p m' ep).1)
  where
    punished :
        (b : Bool)
        → Ensures
            (λ r. Remembers u.next_player_idx who cards r.0)
            (if b then give u.next_player_idx 2 u else some (u, blank_card))
    punished true = give-Remembers u.next_player_idx u.next_player_idx 2 who cards u m
    punished false = returns m

-- The game waits for a suspicion against the player of seat `i`.
pub record IsSuspected (i who : ℕ) (cards : List Card) (before : Card) (u : Uno) : Type 0 where
  pub suspect_seat : last_player_idx u ≡ i
  pub remembers : Remembers i who cards u
  pub to_follow : u.card_b4_wild_draw_4 ≡ before
  pub waiting : u.wait_suspect ≡ true

abbrev pub shown : Uno → Card
shown u = record { color = u.last_color; content = u.last_number }

wild_not_skip :
    (card : Card)
    → content_eq card.content wild_draw_4 ≡ true
    → (content_eq card.content draw_2 ≡ false) × (content_eq card.content skip ≡ false)
unfolding content_eq
wild_not_skip card h = ground arith

-- What show_card changes is not read by the suspicion.
same_suspect :
    (card : Card) (specified : CardColor) (t : Uno)
    → last_player_idx
        (show_card card specified (record t { wait_suspect = true; card_b4_wild_draw_4 = shown t }))
      ≡ last_player_idx t
unfolding last_player_idx show_card
same_suspect card specified t = refl

module _ (card : Card) (specified : CardColor)
    (w4 : content_eq card.content wild_draw_4 ≡ true) where
  -- The end of lay_card, from the state in which the UNO call is settled.
  waits :
      (u v : Uno) (who : ℕ) (cards : List Card)
      → u.next_player_idx < length u.players
      → SameTurn u v
      → Remembers u.next_player_idx who cards v
      → Ensures
          (λ u'. IsSuspected u.next_player_idx who cards (shown u) (show_card card specified u'))
          (effect card (next (turn_around card v)))
  unfolding effect
  waits u v who cards lt s m =
      let turned = turn_around card v in
      let seat : turned.next_player_idx ≡ u.next_player_idx = turned_seat in
      rw ((wild_not_skip card w4).0, (wild_not_skip card w4).1, w4)
        (returns (record {
          suspect_seat =
              same_suspect card specified (next turned)
              ∙ last_player_idx-next turned (turned_lt card u v lt s)
              ∙ seat;
          remembers = kept;
          to_follow = followed;
          waiting = waited;
        }))
    where
      turned_seat : (turn_around card v).next_player_idx ≡ u.next_player_idx
      turned_seat = unfold turn_around in s.idx

      after : Uno
      after = show_card card specified (record (next (turn_around card v)) {
        wait_suspect = true;
        card_b4_wild_draw_4 = shown (next (turn_around card v));
      })

      kept : Remembers u.next_player_idx who cards after
      kept = record {
        player = m.player;
        sits = unfold turn_around next show_card player_at in m.sits;
        same_id = m.same_id;
        memory = m.memory;
      }

      followed : after.card_b4_wild_draw_4 ≡ shown u
      followed = unfold turn_around next show_card in rw (s.color, s.number) refl

      waited : after.wait_suspect ≡ true
      waited = unfold show_card in refl

  lay-Remembers :
      (p : Player) (u : Uno)
      → player_at u u.next_player_idx ≡ some p
      → let laid = put u.next_player_idx (lay card p) (record u { deck = u.deck ++ card ∷ [] }) in
        Remembers laid.next_player_idx p.user_id p.cards_in_hand laid
  unfolding lay put player_at
  lay-Remembers p u e =
      put-Remembers u.next_player_idx p.user_id p.cards_in_hand p (lay card p)
        (record u { deck = u.deck ++ card ∷ [] }) e refl (rw w4 refl)

  put_idx :
      (p : Player) (u : Uno)
      → (put u.next_player_idx
          (lay card p)
          (record u { deck = u.deck ++ card ∷ [] })).next_player_idx
        ≡ u.next_player_idx
  unfolding put
  put_idx p u = refl

  in_bounds :
      (p : Player) (u : Uno)
      → player_at u u.next_player_idx ≡ some p
      → u.next_player_idx < length u.players
  unfolding player_at
  in_bounds p u e = lt_of_get_elem? u.players u.next_player_idx p e

  -- After an accepted WILD_DRAW_4 the suspicion is against the player who laid it, over the hand
  -- that was held before and the card that lay there before.
  pub lay_card-IsSuspected :
      (p : Player) (u : Uno)
      → player_at u u.next_player_idx ≡ some p
      → Ensures
          (λ r. IsSuspected u.next_player_idx p.user_id p.cards_in_hand (shown u) r.after)
          (lay_card card specified p u)
  unfolding lay_card
  lay_card-IsSuspected p u e =
      Ensures->>=
        (Ensures-× (settle_uno-SameTurn (forgot_uno (lay card p)) _) (
          settle_uno-Remembers (forgot_uno (lay card p)) p.user_id p.cards_in_hand _
            (lay-Remembers p u e)))
        λ settled h.
          Ensures->>=
            (waits u settled p.user_id p.cards_in_hand (in_bounds p u e)
              (SameTurn-trans (lay-SameTurn card p u) h.0)
              (subst (λ i. Remembers i p.user_id p.cards_in_hand settled) (put_idx p u) h.1))
            λ u' f. returns f

next-Remembers :
    (i who : ℕ) (cards : List Card) (u : Uno)
    → Remembers i who cards u
    → Remembers i who cards (next u)
unfolding next player_at
next-Remembers i who cards u m = record {
  player = m.player;
  sits = m.sits;
  same_id = m.same_id;
  memory = m.memory;
}

sentence-Remembers :
    (b : Bool) (i j who : ℕ) (cards : List Card) (u : Uno)
    → Remembers i who cards u
    → Ensures (Remembers i who cards) (sentence b j u)
unfolding sentence
sentence-Remembers true i j who cards u m =
    Ensures->>= (give-Remembers i j 4 who cards u m) λ r m'. returns m'
sentence-Remembers false i j who cards u m =
    Ensures->>= (give-Remembers i u.next_player_idx 6 who cards u m)
      λ r m'. returns (next-Remembers i who cards r.0 m')

judge-verdict :
    (i who : ℕ) (cards : List Card) (before : Card) (u : Uno)
    → IsSuspected i who cards before u
    → Ensures (λ r. (r.0.success ≡ any_playable before cards) × (r.0.suspect_id ≡ who)) (judge u)
unfolding judge
judge-verdict i who cards before u h = rw h.suspect_seat (
    Ensures-bind (player_at u i) λ sus e.
      Ensures->>= (sentence-Remembers _ i i who cards u h.remembers) λ u' m.
        Ensures-bind (player_at u' i) λ sus' e'.
          returns (rw (h.to_follow, (at_place sus h.remembers e).1) refl, (at_place sus' m e').0))

-- suspect, while the game waits for it: it succeeds exactly when one of the remembered cards could
-- have been laid on the card that lay there before.
pub suspect-verdict :
    (player_id i who : ℕ) (cards : List Card) (before : Card) (u : Uno)
    → IsSuspected i who cards before u
    → Ensures
        (λ r.
          (s : Suspected)
          → r.0 ≡ some s
          → (s.success ≡ any_playable before cards) × (s.suspect_id ≡ who))
        (suspect player_id u)
unfolding suspect
suspect-verdict player_id i who cards before u h =
    Ensures-if (not u.wait_suspect) (λ _. returns λ s e. cc)
      λ _. Ensures-bind (player_at u u.next_player_idx) λ p ep.
        Ensures-if (player_id == p.user_id)
          (λ _.
            Ensures->>= (judge-verdict i who cards before u h)
              λ r v. returns λ s e. let same : r.0 ≡ s = cc in rw (← same) v)
          (λ _. returns λ s e. cc)

-- A valid suspicion of an accepted WILD_DRAW_4 succeeds exactly when the player who laid it held
-- before a card of the colour that was asked for, or one of the content that lay there, where that was
-- no WILD and no WILD_DRAW_4; it names that player.
pub play-suspect :
    (player_id accuser : ℕ) (card : Card) (specified : CardColor) (p : Player) (u u' : Uno)
    {r : Played} {s : Suspected}
    → content_eq card.content wild_draw_4 ≡ true
    → player_at u u.next_player_idx ≡ some p
    → play player_id card specified u ≡ some r
    → r.success ≡ true
    → suspect accuser r.after ≡ some (some s, u')
    → ((s.success ≡ true) ↔ HoldsFollowing (shown u) p.cards_in_hand) × (s.suspect_id ≡ p.user_id)
play-suspect player_id accuser card specified p u u' {r} {s} w4 e played ok suspected =
    let verdict =
      of_Ensures
        (suspect-verdict accuser u.next_player_idx p.user_id p.cards_in_hand (shown u) r.after (
          of_Ensures (lay_card-IsSuspected card specified w4 p u e)
            (of_Ensures (play_accepted player_id card specified p u e) played ok)))
        suspected s refl in
    (
      (
        λ yes. any_playable-HoldsFollowing (shown u) p.cards_in_hand (sym verdict.0 ∙ yes),
        λ held.
            verdict.0
            ∙ HoldsFollowing-any_playable (shown u) p.cards_in_hand held.0 held.1 held.2 held.3,
      ),
      verdict.1,
    )
