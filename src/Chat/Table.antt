-- ===== src/Chat/Table.antt =====
-- What src/ChatHistory.hpp asks of SQLite: the table of setup_chat.sql as an interface, with an operation
-- for each SQL statement and the documented effect of it.
use Prim.Native.String.{String}
use unopp_server.Prelude.{
  ℕ, ◌+◌, ◌≡◌, Bool, ◌&&◌, ◌||◌, List, [], ◌∷◌, if◌then◌else◌, ◌==◌, ltb, false,
}

pub record ChatMessage : Type 0 where
  pub sender_id : ℕ
  pub receiver_id : ℕ
  pub message : String
  pub timestamp : ℕ

unfoldable pub count : (ChatMessage → Bool) → List ChatMessage → ℕ
count p [] = 0
count p (m ∷ ms) = (if p m then 1 else 0) + count p ms

-- (sender_id=? AND receiver_id=?) OR (receiver_id=? AND sender_id=?)
abbrev pub is_between : ℕ → ℕ → ChatMessage → Bool
is_between user_id friend_id m =
    (m.sender_id == user_id && m.receiver_id == friend_id)
    || (m.receiver_id == user_id && m.sender_id == friend_id)

abbrev pub has : ℕ → List ℕ → Bool
has x [] = false
has x (y ∷ ys) = x == y || has x ys

pub record Chats : Type 1 where
  pub Table : Type 0
  pub rows : Table → List ChatMessage
  -- INSERT INTO chat (sender_id, receiver_id, timestamp, message) VALUES (?,?,?,?)
  pub insert : ChatMessage → Table → Table
  -- SELECT DISTINCT receiver_id FROM chat WHERE sender_id=?
  pub receivers_of : Table → ℕ → List ℕ
  -- SELECT DISTINCT sender_id FROM chat WHERE receiver_id=?
  pub senders_of : Table → ℕ → List ℕ
  -- SELECT … FROM chat WHERE (is_between) AND timestamp<? ORDER BY timestamp DESC
  pub between : Table → ℕ → ℕ → ℕ → List ChatMessage
  pub rows_insert :
      (m : ChatMessage) (t : Table) (p : ChatMessage → Bool)
      → count p (rows (insert m t)) ≡ (if p m then 1 else 0) + count p (rows t)
  pub rows_receivers_of :
      (t : Table) (u f : ℕ)
      → has f (receivers_of t u) ≡ false
      → count (λ m. m.sender_id == u && m.receiver_id == f) (rows t) ≡ 0
  pub rows_senders_of :
      (t : Table) (u f : ℕ)
      → has f (senders_of t u) ≡ false
      → count (λ m. m.receiver_id == u && m.sender_id == f) (rows t) ≡ 0
  pub rows_between :
      (t : Table) (u f latest : ℕ) (p : ChatMessage → Bool)
      → count p (between t u f latest)
        ≡ count (λ m. p m && (is_between u f m && ltb m.timestamp latest)) (rows t)
