-- ===== src/Ws/Maps.antt =====
-- The maps of src/WsServer.hpp as association lists in their iteration order.
use unopp_server.Prelude.{
  ℕ, ◌≡◌, ◌≢◌, refl, sym, ◌∙◌, ap, List, [], ◌∷◌, Option, none, some, if◌then◌else◌, ◌==◌, ==_iff,
  arith, Bool-cases, inl, inr, ◌⊎◌, zero, suc, ◌++◌, take, drop, map, subst,
}

module _ {ℓ} {A : Type ℓ} where
  -- find
  unfoldable pub lookup : ℕ → List (ℕ × A) → Option A
  lookup k [] = none
  lookup k ((j, a) ∷ m) = if j == k then some a else lookup k m

  -- m[k] = a
  unfoldable pub assign : ℕ → A → List (ℕ × A) → List (ℕ × A)
  assign k a [] = (k, a) ∷ []
  assign k a ((j, b) ∷ m) = let rest = assign k a m in if j == k then (j, a) ∷ m else (j, b) ∷ rest

  -- erase, of every element with the key
  unfoldable pub remove : ℕ → List (ℕ × A) → List (ℕ × A)
  remove k [] = []
  remove k ((j, b) ∷ m) = let rest = remove k m in if j == k then rest else (j, b) ∷ rest

  -- equal_range
  unfoldable pub all_of : ℕ → List (ℕ × A) → List A
  all_of k [] = []
  all_of k ((j, a) ∷ m) = let rest = all_of k m in if j == k then a ∷ rest else rest

  pub lookup-assign :
      (k j : ℕ) (a : A) (m : List (ℕ × A))
      → lookup j (assign k a m) ≡ (if k == j then some a else lookup j m)
  unfolding lookup assign
  lookup-assign k j a [] = refl
  lookup-assign k j a ((i, b) ∷ m) = let ih = lookup-assign k j a m in ground arith

  pub lookup-remove :
      (k j : ℕ) (m : List (ℕ × A)) → lookup j (remove k m) ≡ (if k == j then none else lookup j m)
  unfolding lookup remove
  lookup-remove k j [] = ground arith
  lookup-remove k j ((i, b) ∷ m) = let ih = lookup-remove k j m in ground arith

  pub all_of-remove : (k : ℕ) (m : List (ℕ × A)) → all_of k (remove k m) ≡ []
  unfolding all_of remove
  all_of-remove k [] = refl
  all_of-remove k ((i, b) ∷ m) = let ih = all_of-remove k m in ground arith

module _ {ℓ κ} {A : Type ℓ} (P : A → Type κ) where
  -- Every entry has the property.
  abbrev pub All : List A → Type κ
  All [] = Unit
  All (entry ∷ rest) = P entry × All rest

  pub All-take : (k : ℕ) (entries : List A) → All entries → All (take k entries)
  All-take zero entries h = tt
  All-take (suc k) [] h = tt
  All-take (suc k) (entry ∷ rest) h = (h.0, All-take k rest h.1)

  pub All-drop : (k : ℕ) (entries : List A) → All entries → All (drop k entries)
  All-drop zero entries h = h
  All-drop (suc k) [] h = tt
  All-drop (suc k) (entry ∷ rest) h = All-drop k rest h.1

  pub All-append : (front back : List A) → All front → All back → All (front ++ back)
  All-append [] back of_front of_back = of_back
  All-append (entry ∷ rest) back of_front of_back =
      (of_front.0, All-append rest back of_front.1 of_back)

  pub All-true : (entries : List A) → ((x : A) → P x) → All entries
  All-true [] always = tt
  All-true (entry ∷ rest) always = (always entry, All-true rest always)

module _ {ℓ κ} {A : Type ℓ} where
  pub All-mono {κ'} :
      (P : A → Type κ) (Q : A → Type κ') (entries : List A)
      → ((x : A) → P x → Q x)
      → All P entries
      → All Q entries
  All-mono P Q [] implies h = tt
  All-mono P Q (entry ∷ rest) implies h = (implies entry h.0, All-mono P Q rest implies h.1)

  pub All-map {ℓ'} :
      {B : Type ℓ'} (P : A → Type κ) (f : B → A) (entries : List B)
      → All (λ x. P (f x)) entries
      → All P (map f entries)
  All-map P f [] h = tt
  All-map P f (entry ∷ rest) h = (h.0, All-map P f rest h.1)

-- Of a map, every element and those of one key.
module _ {ℓ κ} {A : Type ℓ} (P : ℕ × A → Type κ) where
  pub All-remove : (k : ℕ) (m : List (ℕ × A)) → All P m → All P (remove k m)
  unfolding remove
  All-remove k [] h = tt
  All-remove k ((j, a) ∷ m) h = elim (Bool-cases (j == k)) [
    | inl e ↦ rw e (All-remove k m h.1)
    | inr e ↦ rw e (h.0, All-remove k m h.1)
  ]

  pub All-all_of : (k : ℕ) (m : List (ℕ × A)) → All P m → All (λ a. P (k, a)) (all_of k m)
  unfolding all_of
  All-all_of k [] h = tt
  All-all_of k ((j, a) ∷ m) h = elim (Bool-cases (j == k)) [
    | inl e ↦ rw e (subst (λ i. P (i, a)) ((==_iff j k).0 e) h.0, All-all_of k m h.1)
    | inr e ↦ rw e (All-all_of k m h.1)
  ]

module _ {ℓ} {A : Type ℓ} where
  abbrev or_else : A → Option A → A
  or_else d none = d
  or_else d (some a) = a

  -- Two results of one lookup.
  pub lookup_unique :
      (k : ℕ) (m : List (ℕ × A)) (a b : A) → lookup k m ≡ some a → lookup k m ≡ some b → a ≡ b
  lookup_unique k m a b at_a at_b = ap (or_else a) (sym at_a ∙ at_b)

  pub lookup-assign_self : (k : ℕ) (a : A) (m : List (ℕ × A)) → lookup k (assign k a m) ≡ some a
  lookup-assign_self k a m = lookup-assign k k a m ∙ rw ((==_iff k k).1 refl) refl

  pub lookup-assign_other :
      (k j : ℕ) (a : A) (m : List (ℕ × A)) → k ≢ j → lookup j (assign k a m) ≡ lookup j m
  lookup-assign_other k j a m ne = lookup-assign k j a m ∙ ground arith

  pub of_lookup-assign :
      (k j : ℕ) (a b : A) (m : List (ℕ × A))
      → lookup j (assign k a m) ≡ some b
      → ((k ≡ j) × (a ≡ b)) ⊎ ((k ≢ j) × (lookup j m ≡ some b))
  of_lookup-assign k j a b m at =
      let law = sym (lookup-assign k j a m) ∙ at in
      elim (Bool-cases (k == j)) [
        | inl e ↦ inl ((==_iff k j).0 e, ap (or_else a) (rw e at law))
        | inr e ↦ inr (λ same. (let again = (==_iff k j).1 same in ground arith), rw e at law)
      ]

  pub lookup-remove_other :
      (k j : ℕ) (m : List (ℕ × A)) → k ≢ j → lookup j (remove k m) ≡ lookup j m
  lookup-remove_other k j m ne = lookup-remove k j m ∙ ground arith

  pub of_lookup-remove :
      (k j : ℕ) (b : A) (m : List (ℕ × A))
      → lookup j (remove k m) ≡ some b
      → (k ≢ j) × (lookup j m ≡ some b)
  of_lookup-remove k j b m at =
      let law = sym (lookup-remove k j m) ∙ at in
      elim (Bool-cases (k == j)) [
        | inl e ↦ let gone = rw e at law in ground arith
        | inr e ↦ (λ same. (let again = (==_iff k j).1 same in ground arith), rw e at law)
      ]
