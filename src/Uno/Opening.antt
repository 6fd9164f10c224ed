-- ===== src/Uno/Opening.antt =====
-- What new_game of Uno/Start.antt, the constructor of src/Uno.hpp, sets up.
use unopp_server.Uno.Card.{Card, is_number_card}
use unopp_server.Uno.State.{Uno, Player, new_player, blank_card, back, deal_cards, get_last_card}
use unopp_server.Prelude.Shuffle.{shuffle, length-shuffle, shuffle_weight}
use unopp_server.Uno.Start.{all_cards, deal_hands, turn_up, first_idx, init, new_game}
use unopp_server.Uno.Conservation.{hand_weight, weight, seats, deal_cards_lem}
use native.Mathlib.Nat.{mod-lt}
use unopp_server.Prelude.{
  ℕ, zero, suc, ◌+◌, ◌-◌, ◌*◌, ◌≤◌, ◌<◌, ◌≡◌, ◌==◌, refl, sym, ap, ◌∙◌, true, false, List, [], ◌∷◌,
  ◌++◌, map, some, arith, length, get_elem?, lt_of_get_elem?, sum_by, sum_by-append, if◌then◌else◌,
  Bool-cases, inl, inr, Defined, Defined->>=, fails, returns, of_Ensures, Ensures, Ensures-bind,
  Ensures->>=, Ensures-mono, Ensures-if,
}

abbrev pub HasSeven : List Player → Type 0
HasSeven [] = Unit
HasSeven (p ∷ ps) =
    (length p.cards_in_hand ≡ 7) × (p.drawn_one ≡ false) × (p.said_uno ≡ false) × HasSeven ps

record Dealt (ps : List Player) (deck : List Card) (ps' : List Player) (deck' : List Card)
    : Type 0 where
  cards : (w : Card → ℕ) → sum_by w deck' + sum_by (hand_weight w) ps' ≡ sum_by w deck
  ids : map (λ (p : Player). p.user_id) ps' ≡ map (λ (p : Player). p.user_id) ps
  hands : HasSeven ps'

deal_hands_lem :
    (ps : List Player) (deck : List Card)
    → Ensures (λ r. Dealt ps deck r.0 r.1) (deal_hands ps deck)
unfolding deal_hands
deal_hands_lem [] deck = returns (record { cards = λ w. omega arith; ids = refl; hands = tt })
deal_hands_lem (p ∷ ps) deck = Ensures->>= (deal_cards_lem 7 [] deck blank_card) λ r h.
    Ensures->>= (deal_hands_lem ps r.1) λ r' d. returns (record {
      cards = λ w. omega (arith, d.cards w, ap (sum_by w) h.0, sum_by-append w r.0 r.1);
      ids = ap (λ t. p.user_id ∷ t) d.ids;
      hands = (h.1, refl, refl, d.hands);
    })

turn_up_lem :
    (fuel : ℕ) (deck : List Card)
    → Ensures
        (λ r.
          ((w : Card → ℕ) → sum_by w r.0 ≡ sum_by w deck)
          × (back r.0 ≡ some r.1)
          × (is_number_card r.1 ≡ true))
        (turn_up fuel deck)
unfolding turn_up
turn_up_lem zero [] = fails
turn_up_lem (suc fuel) [] = fails
turn_up_lem zero (c ∷ cs) = fails
turn_up_lem (suc fuel) (c ∷ cs) = Ensures-bind (back (c ∷ cs)) λ last e.
    Ensures-if (is_number_card last) (λ n. returns (λ w. refl, e, n))
      λ _.
        Ensures-mono (turn_up_lem fuel (cs ++ c ∷ []))
          λ r h. (λ w. omega (arith, h.0 w, sum_by-append w cs (c ∷ [])), h.1, h.2)

-- A game for the players `ids` that is about to begin.
pub record IsOpening (ids : List ℕ) (u : Uno) : Type 0 where
  -- The cards are those of all_cards, and the players those of `ids`, in some order.
  pub cards : (w : Card → ℕ) → weight w u ≡ sum_by w all_cards
  pub players : (w : ℕ → ℕ) → sum_by w (seats u) ≡ sum_by w ids
  pub hands : HasSeven u.players
  pub top : Card
  pub on_top : get_last_card u ≡ some top
  pub number : is_number_card top ≡ true
  pub shown : (u.last_color ≡ top.color) × (u.last_number ≡ top.content)
  pub turn : u.next_player_idx < length ids
  pub forward : u.reversed ≡ false
  pub settled : u.wait_suspect ≡ false

seats-new_player : (ids : List ℕ) → map (λ (p : Player). p.user_id) (map new_player ids) ≡ ids
seats-new_player [] = refl
seats-new_player (i ∷ ids) = ap (λ t. i ∷ t) (seats-new_player ids)

length-new_player : (ids : List ℕ) → length (map new_player ids) ≡ length ids
length-new_player [] = refl
length-new_player (i ∷ ids) = ap suc (length-new_player ids)

sum_by-map :
    (w : ℕ → ℕ) (ps : List Player)
    → sum_by w (map (λ (p : Player). p.user_id) ps) ≡ sum_by (λ (p : Player). w p.user_id) ps
sum_by-map w [] = refl
sum_by-map w (p ∷ ps) = ap (λ t. w p.user_id + t) (sum_by-map w ps)

-- The players of a shuffled table are the players.
shuffled_ids :
    (w : ℕ → ℕ) (rand : ℕ → ℕ) (i : ℕ) (ids : List ℕ)
    → sum_by w (map (λ (p : Player). p.user_id) (shuffle rand i (map new_player ids)))
      ≡ sum_by w ids
shuffled_ids w rand i ids =
    sum_by-map w _
    ∙ shuffle_weight (λ (p : Player). w p.user_id) rand i (map new_player ids)
    ∙ sym (sum_by-map w (map new_player ids))
    ∙ ap (sum_by w) (seats-new_player ids)

first_idx_lem : (first size : ℕ) → Ensures (λ idx. idx < size) (first_idx first size)
unfolding first_idx
first_idx_lem first size = elim (Bool-cases (size == 0)) [
  | inl e ↦ rw e fails
  | inr e ↦ rw e (returns (mod-lt first (ground arith)))
]

first_idx-some : (first size : ℕ) → 0 < size → Defined (first_idx first size)
unfolding first_idx
first_idx-some first size h =
    let positive : (size == 0) ≡ false = ground arith in rw positive (_, refl)

-- Where new_game returns, the cards are those of all_cards and the players those asked for, in some
-- order; every player holds seven cards; the card on top passes is_number_card and sets the colour
-- and the number; the turn is with one of the players; the direction is forward and
-- no suspicion is waited for.
pub new_game-IsOpening :
    (seating rand : ℕ → ℕ) (first : ℕ) (ids : List ℕ)
    → Ensures (IsOpening ids) (new_game seating rand first ids)
unfolding new_game init get_last_card
new_game-IsOpening seating rand first ids =
    let table = shuffle seating (length ids - 1) (map new_player ids) in
    let size : length table ≡ length ids =
      length-shuffle seating (length ids - 1) _ ∙ length-new_player ids in
    Ensures->>= (deal_hands_lem table (shuffle rand (length all_cards - 1) all_cards)) λ r d.
      Ensures->>= (turn_up_lem (length r.1 + 1) r.1) λ r' t.
        Ensures->>= (first_idx_lem first (length table)) λ idx below. returns (record {
          cards = λ w.
              omega
                (arith, t.0 w, d.cards w, shuffle_weight w rand (length all_cards - 1) all_cards);
          players = λ w. ap (sum_by w) d.ids ∙ shuffled_ids w seating (length ids - 1) ids;
          hands = d.hands;
          top = r'.1;
          on_top = t.1;
          number = t.2;
          shown = (refl, refl);
          turn = rw (← size) below;
          forward = refl;
          settled = refl;
        })

-- The weight of a card that is no number card.
abbrev other : Card → ℕ
other card = if is_number_card card then 0 else 1

other_card : (c : Card) → is_number_card c ≡ false → other c ≡ 1
other_card c e = rw e refl

-- The number cards cannot all be missing where the others are fewer than the cards.
find_number :
    (deck : List Card)
    → sum_by other deck < length deck
    → (k : ℕ) × (card : Card) × (get_elem? deck k ≡ some card) × (is_number_card card ≡ true)
find_number [] h = absurd (omega arith)
find_number (c ∷ cs) h = elim (Bool-cases (is_number_card c)) [
  | inl e ↦ (0, c, refl, e)
  | inr e ↦ later (find_number cs (less e h))
]
  where
    less :
        is_number_card c ≡ false
        → sum_by other (c ∷ cs) < length (c ∷ cs)
        → sum_by other cs < length cs
    less e' h' = omega (arith, other_card c e')

    later :
        (k : ℕ) × (card : Card) × (get_elem? cs k ≡ some card) × (is_number_card card ≡ true)
        → (k : ℕ) × (card : Card) × (get_elem? (c ∷ cs) k ≡ some card)
          × (is_number_card card ≡ true)
    later (k, card, at, n) = (suc k, card, at, n)

back-append : (xs : List Card) (c : Card) → back (xs ++ c ∷ []) ≡ some c
unfolding back
back-append [] c = refl
back-append (x ∷ []) c = refl
back-append (x ∷ y ∷ ys) c = back-append (y ∷ ys) c

back-some : (c : Card) (cs : List Card) → (last : Card) × (back (c ∷ cs) ≡ some last)
unfolding back
back-some c [] = (c, refl)
back-some c (d ∷ ds) = back-some d ds

-- With a number card at the back the loop ends at once.
turn_up-append :
    (fuel : ℕ) (xs : List Card) (c : Card)
    → is_number_card c ≡ true
    → turn_up (suc fuel) (xs ++ c ∷ []) ≡ some (xs ++ c ∷ [], c)
unfolding turn_up
turn_up-append fuel [] c n = rw (back-append [] c, n)
turn_up-append fuel (x ∷ xs) c n = rw (back-append (x ∷ xs) c, n)

get_elem?-append :
    (xs ys : List Card) (k : ℕ) {c : Card}
    → get_elem? xs k ≡ some c
    → get_elem? (xs ++ ys) k ≡ some c
get_elem?-append [] ys k e = ground arith
get_elem?-append (x ∷ xs) ys zero e = e
get_elem?-append (x ∷ xs) ys (suc k) e = get_elem?-append xs ys k e

-- A number card at place k comes to the back in k + 1 rounds.
turn_up-some :
    (fuel k : ℕ) (deck : List Card) (card : Card)
    → get_elem? deck k ≡ some card
    → is_number_card card ≡ true
    → k + 2 ≤ fuel
    → (r : List Card × Card) × (turn_up fuel deck ≡ some r)
unfolding turn_up
turn_up-some zero k deck card at n le = absurd (omega arith)
turn_up-some (suc fuel) k [] card at n le = absurd (cc)
turn_up-some (suc zero) zero (c ∷ cs) card at n le = absurd (omega arith)
turn_up-some (suc (suc fuel)) zero (c ∷ cs) card at n le =
    let (last, e) = back-some c cs in
    let front : c ≡ card = cc in
    elim (Bool-cases (is_number_card last)) [
      | inl y ↦ ((c ∷ cs, last), rw (e, y))
      | inr y ↦ ((cs ++ c ∷ [], c), rw (e, y) (turn_up-append fuel cs c (rw front n)))
    ]
turn_up-some (suc fuel) (suc k) (c ∷ cs) card at n le =
    let (last, e) = back-some c cs in
    let (r, found) =
      turn_up-some fuel k (cs ++ c ∷ []) card (get_elem?-append cs (c ∷ []) k at) n (omega arith) in
    elim (Bool-cases (is_number_card last)) [
      | inl y ↦ ((c ∷ cs, last), rw (e, y))
      | inr y ↦ (r, rw (e, y) found)
    ]

deal_cards-some :
    (n : ℕ) (hand deck : List Card) (last : Card)
    → n ≤ length deck
    → (r : List Card × List Card × Card) × (deal_cards n hand deck last ≡ some r)
      × (length r.1 + n ≡ length deck)
unfolding deal_cards
deal_cards-some zero hand deck last h = ((hand, deck, last), refl, omega arith)
deal_cards-some (suc n) hand [] last h = absurd (omega arith)
deal_cards-some (suc n) hand (c ∷ deck) last h =
    let (r, e, l) = deal_cards-some n (hand ++ c ∷ []) deck c (omega arith) in (r, e, omega arith)

deal_hands-some :
    (ps : List Player) (deck : List Card)
    → 7 * length ps ≤ length deck
    → (r : List Player × List Card) × (deal_hands ps deck ≡ some r)
      × (length r.1 + 7 * length ps ≡ length deck)
unfolding deal_hands
deal_hands-some [] deck h = (([], deck), refl, omega arith)
deal_hands-some (p ∷ ps) deck h =
    let (r, e, l) = deal_cards-some 7 [] deck blank_card (omega arith) in
    let (r', e', l') = deal_hands-some ps r.1 (omega arith) in
    (
      (record p { cards_in_hand = r.0; drawn_one = false; said_uno = false } ∷ r'.0, r'.1),
      rw (e, e'),
      omega arith,
    )

all_cards_others : sum_by other all_cards ≡ 24
unfolding all_cards is_number_card
all_cards_others = refl

length-all_cards : length all_cards ≡ 108
unfolding all_cards
length-all_cards = refl

-- For one to ten players the cards suffice, and the loop that looks for a number card ends: the game
-- begins.
pub new_game-some :
    (seating rand : ℕ → ℕ) (first : ℕ) (ids : List ℕ)
    → 1 ≤ length ids
    → length ids ≤ 10
    → Defined (new_game seating rand first ids)
unfolding new_game init
new_game-some seating rand first ids some_ids h =
    let table = shuffle seating (length ids - 1) (map new_player ids) in
    let cards = shuffle rand (length all_cards - 1) all_cards in
    let size : length table ≡ length ids =
      length-shuffle seating (length ids - 1) _ ∙ length-new_player ids in
    let many : length cards ≡ 108 = length-shuffle rand _ all_cards ∙ length-all_cards in
    let (r, e, l) = deal_hands-some table cards (omega arith) in
    let dealt : Dealt table cards r.0 r.1 = of_Ensures (deal_hands_lem table cards) e in
    let few : sum_by other cards ≡ 24 = shuffle_weight other rand _ all_cards ∙ all_cards_others in
    let (k, card, at, n) = find_number r.1 (omega (arith, dealt.cards other)) in
    let (r', e') =
      turn_up-some (length r.1 + 1) k r.1 card at n
        (omega (arith, lt_of_get_elem? r.1 k card at)) in
    Defined->>= (deal_hands table cards) _ r e (
      Defined->>= (turn_up (length r.1 + 1) r.1) _ r' e' (
        let (idx, f) = first_idx-some first (length table) (omega (arith, size)) in
        Defined->>= (first_idx first (length table)) _ idx f (_, refl)))
