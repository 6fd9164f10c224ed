-- ===== src/Chat/Index.antt =====
-- The index of ChatHistory: for each user, the places in the cache of the messages that he sent or
-- received.
use unopp_server.Chat.Table.{ChatMessage, Chats}
use unopp_server.Chat.History.{ChatHistory, emplace, new_chat_message, write_database}
use unopp_server.Prelude.{
  ℕ, zero, suc, ◌+◌, ◌≡◌, refl, true, ◌&&◌, List, [], ◌∷◌, ◌++◌, take, drop, length, Option, none,
  some, get_elem?, if◌then◌else◌, ◌==◌, arith, Bool-cases, inl, inr,
}

-- How often the place i stands in the index for the user u.
unfoldable pub entries : ℕ → ℕ → List (ℕ × ℕ) → ℕ
entries u i [] = 0
entries u i (it ∷ index) = (if it.0 == u && it.1 == i then 1 else 0) + entries u i index

-- As often as u is the sender or the receiver of the message at i.
unfoldable pub uses : ℕ → Option ChatMessage → ℕ
uses u none = 0
uses u (some m) = (if m.sender_id == u then 1 else 0) + (if m.receiver_id == u then 1 else 0)

unfoldable pub IsIndexed : ChatHistory → Type 0
IsIndexed h = (u i : ℕ) → entries u i h.index ≡ uses u (get_elem? h.cache i)

entries-append :
    (u i : ℕ) (xs ys : List (ℕ × ℕ)) → entries u i (xs ++ ys) ≡ entries u i xs + entries u i ys
unfolding entries
entries-append u i [] ys = omega arith
entries-append u i (x ∷ xs) ys = omega (arith, entries-append u i xs ys)

entries-take-drop :
    (u i k : ℕ) (xs : List (ℕ × ℕ))
    → entries u i (take k xs) + entries u i (drop k xs) ≡ entries u i xs
unfolding entries
entries-take-drop u i zero xs = omega arith
entries-take-drop u i (suc k) [] = omega arith
entries-take-drop u i (suc k) (x ∷ xs) = omega (arith, entries-take-drop u i k xs)

entries-emplace :
    (u i place : ℕ) (e : ℕ × ℕ) (xs : List (ℕ × ℕ))
    → entries u i (emplace place e xs) ≡ (if e.0 == u && e.1 == i then 1 else 0) + entries u i xs
unfolding entries
entries-emplace u i place e xs =
    let all = entries-append u i (take place xs) (e ∷ drop place xs) in
    let parts = entries-take-drop u i place xs in omega arith

-- The message at i of a cache with one more at its end.
uses-append :
    (u i : ℕ) (ms : List ChatMessage) (m : ChatMessage)
    → uses u (get_elem? (ms ++ m ∷ []) i)
      ≡ (if length ms == i then uses u (some m) else uses u (get_elem? ms i))
unfolding uses
uses-append u zero [] m = refl
uses-append u (suc i) [] m = ground arith
uses-append u zero (x ∷ ms) m = ground arith
uses-append u (suc i) (x ∷ ms) m = let ih = uses-append u i ms m in ground arith

uses-end : (u i : ℕ) (ms : List ChatMessage) → (length ms == i) ≡ true → uses u (get_elem? ms i) ≡ 0
unfolding uses
uses-end u i [] h = refl
uses-end u zero (m ∷ ms) h = ground arith
uses-end u (suc i) (m ∷ ms) h = uses-end u i ms (ground arith)

new_chat_message-IsIndexed :
    (places : ℕ → ℕ) (m : ChatMessage) (h : ChatHistory)
    → IsIndexed h
    → IsIndexed (new_chat_message places m h)
unfolding IsIndexed new_chat_message uses
new_chat_message-IsIndexed places m h indexed u i =
    let last = length h.cache in
    let first = entries-emplace u i (places 0) (m.sender_id, last) h.index in
    let second =
      entries-emplace u i (places 1) (m.receiver_id, last)
        (emplace (places 0) (m.sender_id, last) h.index) in
    let old = indexed u i in
    let new = uses-append u i h.cache m in
    elim (Bool-cases (last == i)) [
      | inl e ↦ let fresh = uses-end u i h.cache e in ground arith
      | inr e ↦ ground arith
    ]

-- What happens to the history.
pub data Event : Type 0 where
  message : (ℕ → ℕ) → ChatMessage → Event
  round : Event

module _ (chats : Chats) where
  unfoldable pub step : Event → ChatHistory × chats.Table → ChatHistory × chats.Table
  step (message places m) s = (new_chat_message places m s.0, s.1)
  step round s = write_database chats s.0 s.1

  unfoldable pub run : List Event → ChatHistory × chats.Table → ChatHistory × chats.Table
  run [] s = s
  run (e ∷ es) s = run es (step e s)

  pub step-IsIndexed :
      (e : Event) (s : ChatHistory × chats.Table) → IsIndexed s.0 → IsIndexed (step e s).0
  unfolding step write_database IsIndexed entries uses
  step-IsIndexed (message places m) s h = new_chat_message-IsIndexed places m s.0 h
  step-IsIndexed round s h = λ u i. refl

  -- Every run of messages and rounds keeps this of the index: the place i stands in it for u once if u
  -- is the sender of the message at i in the cache, once more if he is its receiver, and never for a
  -- place past the end of the cache.
  pub run-IsIndexed :
      (es : List Event) (s : ChatHistory × chats.Table) → IsIndexed s.0 → IsIndexed (run es s).0
  unfolding run
  run-IsIndexed [] s h = h
  run-IsIndexed (e ∷ es) s h = run-IsIndexed es (step e s) (step-IsIndexed e s h)
