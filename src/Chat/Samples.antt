-- ===== src/Chat/Samples.antt =====
-- A table that meets the laws of Chat/Table.antt, small enough to run examples on.
use unopp_server.Chat.Table.{ChatMessage, Chats, count, has, is_between}
use unopp_server.Prelude.{
  ℕ, ◌+◌, ◌≡◌, refl, Bool, false, ◌&&◌, List, [], ◌∷◌, if◌then◌else◌, ◌==◌, arith, ltb, Bool-cases,
  inl, inr,
}

unfoldable pub select : (ChatMessage → Bool) → List ChatMessage → List ChatMessage
select r [] = []
select r (m ∷ ms) = let rest = select r ms in if r m then m ∷ rest else rest

pub count-select :
    (p r : ChatMessage → Bool) (ms : List ChatMessage)
    → count p (select r ms) ≡ count (λ m. p m && r m) ms
unfolding select count
count-select p r [] = refl
count-select p r (m ∷ ms) = let ih = count-select p r ms in ground arith

unfoldable pub receivers : ℕ → List ChatMessage → List ℕ
receivers u [] = []
receivers u (m ∷ ms) =
    let rest = receivers u ms in if m.sender_id == u then m.receiver_id ∷ rest else rest

pub has-receivers :
    (u f : ℕ) (ms : List ChatMessage)
    → has f (receivers u ms) ≡ false
    → count (λ m. m.sender_id == u && m.receiver_id == f) ms ≡ 0
unfolding receivers count
has-receivers u f [] h = refl
has-receivers u f (m ∷ ms) h = elim (Bool-cases (has f (receivers u ms))) [
  | inl e ↦ ground arith
  | inr e ↦ let ih = has-receivers u f ms e in ground arith
]

unfoldable pub senders : ℕ → List ChatMessage → List ℕ
senders u [] = []
senders u (m ∷ ms) =
    let rest = senders u ms in if m.receiver_id == u then m.sender_id ∷ rest else rest

pub has-senders :
    (u f : ℕ) (ms : List ChatMessage)
    → has f (senders u ms) ≡ false
    → count (λ m. m.receiver_id == u && m.sender_id == f) ms ≡ 0
unfolding senders count
has-senders u f [] h = refl
has-senders u f (m ∷ ms) h = elim (Bool-cases (has f (senders u ms))) [
  | inl e ↦ ground arith
  | inr e ↦ let ih = has-senders u f ms e in ground arith
]

pub count-cons :
    (m : ChatMessage) (t : List ChatMessage) (p : ChatMessage → Bool)
    → count p (m ∷ t) ≡ (if p m then 1 else 0) + count p t
unfolding count
count-cons m t p = refl

-- The selects give the rows in the order of the table.
abbrev pub chats : Chats
chats = record {
  Table = List ChatMessage;
  rows = λ t. t;
  insert = λ m t. m ∷ t;
  receivers_of = λ t u. receivers u t;
  senders_of = λ t u. senders u t;
  between = λ t u f latest. select (λ m. is_between u f m && ltb m.timestamp latest) t;
  rows_insert = count-cons;
  rows_receivers_of = λ t u f h. has-receivers u f t h;
  rows_senders_of = λ t u f h. has-senders u f t h;
  rows_between =
      λ t u f latest p. count-select p (λ m. is_between u f m && ltb m.timestamp latest) t;
}
