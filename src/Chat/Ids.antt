-- ===== src/Chat/Ids.antt =====
-- What get_chat_message takes from the table: the set of ids, and the messages for each.
use unopp_server.Chat.Table.{ChatMessage, count, has}
use unopp_server.Chat.History.{place_id, insert_id, insert_ids}
use unopp_server.Prelude.{
  ℕ, zero, suc, ◌+◌, ◌≤◌, ◌≡◌, refl, ap, Bool, true, false, ◌||◌, List, [], ◌∷◌, take, length,
  if◌then◌else◌, ◌==◌, ==_iff, arith, Bool-cases, inl, inr,
}

-- c for each occurrence of f.
unfoldable pub times : ℕ → ℕ → List ℕ → ℕ
times c f [] = 0
times c f (x ∷ xs) = (if f == x then c else 0) + times c f xs

times-place_id :
    (c f x : ℕ) (ids : List ℕ)
    → times c f (place_id x ids) ≡ (if f == x then c else 0) + times c f ids
unfolding times place_id
times-place_id c f x [] = refl
times-place_id c f x (y ∷ ys) = let ih = times-place_id c f x ys in ground arith

has-place_id : (f x : ℕ) (ids : List ℕ) → has f (place_id x ids) ≡ f == x || has f ids
unfolding place_id
has-place_id f x [] = refl
has-place_id f x (y ∷ ys) = let ih = has-place_id f x ys in ground arith

has-insert_id : (f x : ℕ) (ids : List ℕ) → has f (insert_id x ids) ≡ f == x || has f ids
unfolding insert_id
has-insert_id f x ids = elim (Bool-cases (has x ids)) [
  | inl e ↦ elim (Bool-cases (f == x)) [
    | inl same ↦ rw (e, insert_id, same, (==_iff f x).0 same) e
    | inr other ↦ rw (e, insert_id, other) refl
  ]
  | inr e ↦ rw (e, insert_id) (has-place_id f x ids)
]

-- A set that has f has it once.
abbrev pub OnceEach : ℕ → List ℕ → Type 0
OnceEach f ids = (c : ℕ) → times c f ids ≡ (if has f ids then c else 0)

insert_id-OnceEach : (f x : ℕ) (ids : List ℕ) → OnceEach f ids → OnceEach f (insert_id x ids)
unfolding insert_id
insert_id-OnceEach f x ids h c = elim (Bool-cases (has x ids)) [
  | inl e ↦ rw (e, insert_id) (h c)
  | inr e ↦ elim (Bool-cases (f == x)) [
    | inl same ↦
        let is = (==_iff f x).0 same in
        let none_there : has f ids ≡ false = rw is e in
        let more = times-place_id c f x ids in
        let there = has-place_id f x ids in let old = h c in rw (e, insert_id) (ground arith)
    | inr other ↦
        let more = times-place_id c f x ids in
        let there = has-place_id f x ids in let old = h c in rw (e, insert_id) (ground arith)
  ]
]

pub has-insert_ids : (f : ℕ) (xs ids : List ℕ) → has f (insert_ids xs ids) ≡ has f xs || has f ids
unfolding insert_ids
has-insert_ids f [] ids = refl
has-insert_ids f (x ∷ xs) ids =
    let ih = has-insert_ids f xs (insert_id x ids) in
    let one = has-insert_id f x ids in ground arith

pub insert_ids-OnceEach :
    (f : ℕ) (xs ids : List ℕ) → OnceEach f ids → OnceEach f (insert_ids xs ids)
unfolding insert_ids
insert_ids-OnceEach f [] ids h = h
insert_ids-OnceEach f (x ∷ xs) ids h =
    insert_ids-OnceEach f xs (insert_id x ids) (insert_id-OnceEach f x ids h)

-- Counts of messages.
pub count-take :
    (p : ChatMessage → Bool) (n : ℕ) (ms : List ChatMessage) → count p (take n ms) ≤ count p ms
unfolding count
count-take p zero ms = omega arith
count-take p (suc n) [] = omega arith
count-take p (suc n) (m ∷ ms) = let ih = count-take p n ms in omega arith

pub take-all : (n : ℕ) (ms : List ChatMessage) → length ms ≤ n → take n ms ≡ ms
take-all zero [] h = refl
take-all zero (m ∷ ms) h = ground arith
take-all (suc n) [] h = refl
take-all (suc n) (m ∷ ms) h = ap (λ xs. m ∷ xs) (take-all n ms (omega arith))

pub count-cong :
    (p q : ChatMessage → Bool) (ms : List ChatMessage)
    → ((m : ChatMessage) → p m ≡ q m)
    → count p ms ≡ count q ms
unfolding count
count-cong p q [] h = refl
count-cong p q (m ∷ ms) h = let ih = count-cong p q ms h in let one = h m in rw (one, ih) refl

pub count-or :
    (p q r : ChatMessage → Bool) (ms : List ChatMessage)
    → ((m : ChatMessage) → p m ≡ true → (q m || r m) ≡ true)
    → count p ms ≤ count q ms + count r ms
unfolding count
count-or p q r [] h = omega arith
count-or p q r (m ∷ ms) h =
    let ih = count-or p q r ms h in
    elim (Bool-cases (p m)) [
      | inl e ↦ let some_holds = h m e in ground arith
      | inr e ↦ ground arith
    ]
