-- ===== src/Chat/Found.antt =====
-- What get_chat_message finds in the cache through the index.
use unopp_server.Chat.Table.{ChatMessage}
use unopp_server.Chat.History.{ChatHistory, emplace, new_chat_message}
use unopp_server.Chat.Index.{IsIndexed, entries, uses}
use unopp_server.Prelude.{
  ℕ, zero, suc, ◌+◌, ◌≤◌, ◌<◌, ◌≡◌, refl, Bool, List, [], ◌∷◌, ◌++◌, take, drop, length, Option,
  none, some, get_elem?, if◌then◌else◌, ◌==◌, ==_iff, arith, Option-cases, inl, inr,
  lt_of_get_elem?,
}

abbrev pub bit : Bool → ℕ
bit b = if b then 1 else 0

abbrev test : (ChatMessage → Bool) → Option ChatMessage → ℕ
test p none = 0
test p (some m) = bit (p m)

-- The elements of the index for u whose message meets p.
unfoldable pub found : ℕ → (ChatMessage → Bool) → List ChatMessage → List (ℕ × ℕ) → ℕ
found u p cache [] = 0
found u p cache (it ∷ index) =
    (if it.0 == u then test p (get_elem? cache it.1) else 0) + found u p cache index

-- The messages of the cache that meet p, once for each of sender and receiver who is u.
unfoldable pub total : ℕ → (ChatMessage → Bool) → List ChatMessage → ℕ
total u p [] = 0
total u p (m ∷ ms) =
    (if m.sender_id == u then bit (p m) else 0)
    + (if m.receiver_id == u then bit (p m) else 0)
    + total u p ms

pub InBounds : List ChatMessage → List (ℕ × ℕ) → Type 0
InBounds cache index = (u i : ℕ) → 1 ≤ entries u i index → i < length cache

pub InBounds-tail :
    (cache : List ChatMessage) (it : ℕ × ℕ) (index : List (ℕ × ℕ))
    → InBounds cache (it ∷ index)
    → InBounds cache index
unfolding InBounds entries
InBounds-tail cache it index h u i some_there = h u i (ground arith)

pub InBounds-head :
    (cache : List ChatMessage) (it : ℕ × ℕ) (index : List (ℕ × ℕ))
    → InBounds cache (it ∷ index)
    → it.1 < length cache
unfolding InBounds entries
InBounds-head cache it index h =
    h it.0 it.1
      (let one = (==_iff it.0 it.0).1 refl in let two = (==_iff it.1 it.1).1 refl in ground arith)

pub IsIndexed-InBounds : (h : ChatHistory) → IsIndexed h → InBounds h.cache h.index
unfolding IsIndexed InBounds uses
IsIndexed-InBounds h indexed u i there = elim (Option-cases (get_elem? h.cache i)) [
  | inl e ↦ let same = rw (e, uses) at (indexed u i) in ground arith
  | inr (m, e) ↦ lt_of_get_elem? h.cache i m e
]

get_elem?-append :
    (ms : List ChatMessage) (m : ChatMessage) (i : ℕ)
    → i < length ms
    → get_elem? (ms ++ m ∷ []) i ≡ get_elem? ms i
get_elem?-append [] m i h = elim h [ ]
get_elem?-append (x ∷ ms) m zero h = refl
get_elem?-append (x ∷ ms) m (suc i) h = get_elem?-append ms m i (omega arith)

get_elem?-end :
    (ms : List ChatMessage) (m : ChatMessage) → get_elem? (ms ++ m ∷ []) (length ms) ≡ some m
get_elem?-end [] m = refl
get_elem?-end (x ∷ ms) m = get_elem?-end ms m

found-append :
    (u : ℕ) (p : ChatMessage → Bool) (cache : List ChatMessage) (m : ChatMessage)
    (index : List (ℕ × ℕ))
    → InBounds cache index
    → found u p (cache ++ m ∷ []) index ≡ found u p cache index
unfolding found
found-append u p cache m [] h = refl
found-append u p cache m (it ∷ index) h =
    let ih = found-append u p cache m index (InBounds-tail cache it index h) in
    let same = get_elem?-append cache m it.1 (InBounds-head cache it index h) in rw (same, ih) refl

found-++ :
    (u : ℕ) (p : ChatMessage → Bool) (cache : List ChatMessage) (xs ys : List (ℕ × ℕ))
    → found u p cache (xs ++ ys) ≡ found u p cache xs + found u p cache ys
unfolding found
found-++ u p cache [] ys = omega arith
found-++ u p cache (x ∷ xs) ys = omega (arith, found-++ u p cache xs ys)

found-take-drop :
    (u : ℕ) (p : ChatMessage → Bool) (cache : List ChatMessage) (k : ℕ) (xs : List (ℕ × ℕ))
    → found u p cache (take k xs) + found u p cache (drop k xs) ≡ found u p cache xs
unfolding found
found-take-drop u p cache zero xs = omega arith
found-take-drop u p cache (suc k) [] = omega arith
found-take-drop u p cache (suc k) (x ∷ xs) = omega (arith, found-take-drop u p cache k xs)

found-emplace :
    (u : ℕ) (p : ChatMessage → Bool) (cache : List ChatMessage) (place : ℕ) (it : ℕ × ℕ)
    (xs : List (ℕ × ℕ))
    → found u p cache (emplace place it xs)
      ≡ (if it.0 == u then test p (get_elem? cache it.1) else 0) + found u p cache xs
unfolding found
found-emplace u p cache place it xs =
    let all = found-++ u p cache (take place xs) (it ∷ drop place xs) in
    let parts = found-take-drop u p cache place xs in omega arith

total-append :
    (u : ℕ) (p : ChatMessage → Bool) (ms : List ChatMessage) (m : ChatMessage)
    → total u p (ms ++ m ∷ [])
      ≡ (if m.sender_id == u then bit (p m) else 0)
        + (if m.receiver_id == u then bit (p m) else 0)
        + total u p ms
unfolding total
total-append u p [] m = refl
total-append u p (x ∷ ms) m = let ih = total-append u p ms m in omega arith

-- Through the index get_chat_message finds all messages of u.
unfoldable pub FindsAll : ChatHistory → Type 0
FindsAll h = (u : ℕ) (p : ChatMessage → Bool) → found u p h.cache h.index ≡ total u p h.cache

pub new_chat_message-FindsAll :
    (places : ℕ → ℕ) (m : ChatMessage) (h : ChatHistory)
    → InBounds h.cache h.index
    → FindsAll h
    → FindsAll (new_chat_message places m h)
unfolding FindsAll new_chat_message
new_chat_message-FindsAll places m h bounds all u p =
    let last = length h.cache in
    let cache = h.cache ++ m ∷ [] in
    let end = get_elem?-end h.cache m in
    let first = rw end at (found-emplace u p cache (places 0) (m.sender_id, last) h.index) in
    let second = rw end at (
      found-emplace u p cache (places 1) (m.receiver_id, last)
        (emplace (places 0) (m.sender_id, last) h.index)) in
    let kept = found-append u p h.cache m h.index bounds in
    let old = all u p in let new = total-append u p h.cache m in omega arith
