-- ===== src/Uno/Card.antt =====
-- The cards of UNO: the enums and the card record of src/Uno.hpp, and their encoding as a number on
-- the wire, card_2_int and int_2_card of src/UnoRoom.hpp. An enum also takes the values without an
-- enumerator that its bits can hold: content_15, and color_5 to color_7. int_2_card makes them of what
-- a client sends.
use unopp_server.Prelude.{
  ℕ, ◌+◌, ◌*◌, ◌/◌, ◌%◌, ◌≡◌, refl, sym, ap, ◌∙◌, Bool, true, ◌&&◌, Option, none, some, arith, leb,
  ◌==◌, if◌then◌else◌,
}

pub data CardContent : Type 0 where
  zero one two three four five six seven eight nine : CardContent
  skip draw_2 reverse : CardContent
  wild wild_draw_4 : CardContent
  content_15 : CardContent

pub data CardColor : Type 0 where
  red yellow green blue black : CardColor
  color_5 color_6 color_7 : CardColor

-- The value of an enum.
abbrev pub content_code : CardContent → ℕ
content_code zero = 0
content_code one = 1
content_code two = 2
content_code three = 3
content_code four = 4
content_code five = 5
content_code six = 6
content_code seven = 7
content_code eight = 8
content_code nine = 9
content_code skip = 10
content_code draw_2 = 11
content_code reverse = 12
content_code wild = 13
content_code wild_draw_4 = 14
content_code content_15 = 15

abbrev pub color_code : CardColor → ℕ
color_code red = 0
color_code yellow = 1
color_code green = 2
color_code blue = 3
color_code black = 4
color_code color_5 = 5
color_code color_6 = 6
color_code color_7 = 7

-- static_cast to an enum; none where the value is out of its range, which is undefined.
abbrev pub to_content : ℕ → Option CardContent
to_content n =
    if n == 0
    then some zero
    else if n == 1
    then some one
    else if n == 2
    then some two
    else if n == 3
    then some three
    else if n == 4
    then some four
    else if n == 5
    then some five
    else if n == 6
    then some six
    else if n == 7
    then some seven
    else if n == 8
    then some eight
    else if n == 9
    then some nine
    else if n == 10
    then some skip
    else if n == 11
    then some draw_2
    else if n == 12
    then some reverse
    else if n == 13
    then some wild
    else if n == 14
    then some wild_draw_4
    else if n == 15
    then some content_15
    else none

abbrev pub to_color : ℕ → Option CardColor
to_color n =
    if n == 0
    then some red
    else if n == 1
    then some yellow
    else if n == 2
    then some green
    else if n == 3
    then some blue
    else if n == 4
    then some black
    else if n == 5
    then some color_5
    else if n == 6
    then some color_6
    else if n == 7
    then some color_7
    else none

pub record Card : Type 0 where
  pub color : CardColor
  pub content : CardContent

unfoldable pub color_eq : CardColor → CardColor → Bool
color_eq a b = color_code a == color_code b

unfoldable pub content_eq : CardContent → CardContent → Bool
content_eq a b = content_code a == content_code b

-- operator==
unfoldable pub card_eq : Card → Card → Bool
card_eq a b = color_eq a.color b.color && content_eq a.content b.content

-- card.content <= 10, which holds of SKIP too.
unfoldable pub is_number_card : Card → Bool
is_number_card card = leb (content_code card.content) 10

unfoldable pub card_2_int : Card → ℕ
card_2_int card = content_code card.content + color_code card.color * 16

unfoldable pub int_2_card : ℕ → Option Card
int_2_card card_hash = elim (to_color (card_hash / 16)) [
  | none ↦ none
  | some color ↦ elim (to_content (card_hash % 16)) [
    | none ↦ none
    | some content ↦ some (record { color = color; content = content })
  ]
]

pub to_content-content_code : (c : CardContent) → to_content (content_code c) ≡ some c
to_content-content_code zero = refl
to_content-content_code _ = refl

pub to_color-color_code : (c : CardColor) → to_color (color_code c) ≡ some c
to_color-color_code red = refl
to_color-color_code _ = refl

some_lem {ℓ} : {A : Type ℓ} {a b : A} → some a ≡ some b → a ≡ b
some_lem e = cc

-- The tests are equality.
pub color_eq-eq : (a b : CardColor) → color_eq a b ≡ true → a ≡ b
unfolding color_eq
color_eq-eq a b h =
    let e : color_code a ≡ color_code b = ground arith in
    some_lem (sym (to_color-color_code a) ∙ ap to_color e ∙ to_color-color_code b)

pub content_eq-eq : (a b : CardContent) → content_eq a b ≡ true → a ≡ b
unfolding content_eq
content_eq-eq a b h =
    let e : content_code a ≡ content_code b = ground arith in
    some_lem (sym (to_content-content_code a) ∙ ap to_content e ∙ to_content-content_code b)

pub card_eq-eq : (a b : Card) → card_eq a b ≡ true → a ≡ b
unfolding card_eq
card_eq-eq a b h = ground (arith, color_eq-eq a.color b.color, content_eq-eq a.content b.content)

pub card_eq_refl : (a : Card) → card_eq a a ≡ true
unfolding card_eq color_eq content_eq
card_eq_refl a = ground arith

read_back :
    (color : CardColor) (content : CardContent)
    → int_2_card (card_2_int (record { color = color; content = content }))
      ≡ some (record { color = color; content = content })
unfolding int_2_card card_2_int
read_back red zero = refl
read_back red _ = refl
read_back yellow zero = refl
read_back yellow _ = refl
read_back green zero = refl
read_back green _ = refl
read_back blue zero = refl
read_back blue _ = refl
read_back black zero = refl
read_back black _ = refl
read_back color_5 zero = refl
read_back color_5 _ = refl
read_back color_6 zero = refl
read_back color_6 _ = refl
read_back color_7 zero = refl
read_back color_7 _ = refl

-- Every card, with enumerators or without, is read back from the number that is sent for it.
pub int_2_card-card_2_int : (c : Card) → int_2_card (card_2_int c) ≡ some c
int_2_card-card_2_int c = read_back c.color c.content
