-- ===== src/Uno/Following.antt =====
-- What suspect of src/Uno.hpp takes for a card that could have been laid instead.
use unopp_server.Uno.Card.{
  Card, CardContent, wild, wild_draw_4, content_eq, color_eq, color_eq-eq, content_eq-eq,
}
use unopp_server.Uno.Rules.{was_playable, any_playable}
use unopp_server.Uno.Laying.{color_eq_refl, content_eq_refl}
use unopp_server.Prelude.{
  ℕ, zero, suc, ◌≡◌, ◌⊎◌, ◌↔◌, get_elem?, Bool-cases, inl, inr, refl, true, false, List, [], ◌∷◌,
  some, arith, ◌≢◌,
}

-- Does a card follow the one that lies there by its colour, or, on no black card, by its content?
abbrev pub Follows : Card → Card → Type 0
Follows before card =
    (card.color ≡ before.color)
    ⊎ ((before.content ≢ wild) × (before.content ≢ wild_draw_4) × (card.content ≡ before.content))

-- A card of the hand, with its place.
abbrev pub HoldsFollowing : Card → List Card → Type 0
HoldsFollowing before hand =
    (k : ℕ) × (card : Card) × (get_elem? hand k ≡ some card) × Follows before card

content_eq_ne : (a b : CardContent) → a ≢ b → content_eq a b ≡ false
content_eq_ne a b ne = elim (Bool-cases (content_eq a b)) [
  | inl e ↦ absurd (ne (content_eq-eq a b e))
  | inr e ↦ e
]

content_eq_no : (a b : CardContent) → content_eq a b ≡ false → a ≢ b
content_eq_no a b e same = let again : content_eq a b ≡ true = rw same (content_eq_refl b) in cc

was_playable_iff : (before card : Card) → (was_playable before card ≡ true) ↔ Follows before card
unfolding was_playable
was_playable_iff before card = (
  λ h. elim (Bool-cases (color_eq card.color before.color)) [
    | inl e ↦ inl (color_eq-eq card.color before.color e)
    | inr e ↦ inr (
      content_eq_no before.content wild (ground arith),
      content_eq_no before.content wild_draw_4 (ground arith),
      content_eq-eq card.content before.content (ground arith),
    )
  ],
  λ f. elim f [
    | inl same ↦
        let c : color_eq card.color before.color ≡ true = rw same (color_eq_refl before.color) in
        rw c refl
    | inr (no_wild, no_draw, same) ↦
        let a = content_eq_ne before.content wild no_wild in
        let b = content_eq_ne before.content wild_draw_4 no_draw in
        let c : content_eq card.content before.content ≡ true =
          rw same (content_eq_refl before.content) in
        ground arith
  ],
)

pub any_playable-HoldsFollowing :
    (before : Card) (hand : List Card)
    → any_playable before hand ≡ true
    → HoldsFollowing before hand
unfolding any_playable
any_playable-HoldsFollowing before [] h = absurd (cc)
any_playable-HoldsFollowing before (c ∷ cs) h = elim (Bool-cases (was_playable before c)) [
  | inl e ↦ (0, c, refl, (was_playable_iff before c).0 e)
  | inr e ↦
      let (k, card, at, f) = any_playable-HoldsFollowing before cs (rw e at h) in
      (suc k, card, at, f)
]

pub HoldsFollowing-any_playable :
    (before : Card) (hand : List Card) (k : ℕ) (card : Card)
    → get_elem? hand k ≡ some card
    → Follows before card
    → any_playable before hand ≡ true
unfolding any_playable
HoldsFollowing-any_playable before [] k card at f = ground arith
HoldsFollowing-any_playable before (c ∷ cs) zero card at f =
    let front : c ≡ card = cc in
    let plays : was_playable before c ≡ true = rw front ((was_playable_iff before card).1 f) in
    rw plays refl
HoldsFollowing-any_playable before (c ∷ cs) (suc k) card at f =
    let later = HoldsFollowing-any_playable before cs k card at f in ground arith
