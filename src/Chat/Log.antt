-- ===== src/Chat/Log.antt =====
-- Runs of ChatHistory: the messages that are sent, and rounds of write_database between them.
use Prim.Native.String.{String}
use unopp_server.Chat.Table.{ChatMessage, Chats, count}
use unopp_server.Chat.History.{
  ChatHistory, empty, new_chat_message, write_messages, write_database, get_chat_message,
  insert_ids, from_table,
}
use unopp_server.Chat.Index.{
  IsIndexed, Event, message, round, step, run, step-IsIndexed, entries, uses,
}
use unopp_server.Chat.Found.{FindsAll, IsIndexed-InBounds, new_chat_message-FindsAll, found, total}
use unopp_server.Chat.Shown.{
  items_for, items_for-++, is_for, is_wanted, from_cache-found, from_table-count, total-count,
}
use unopp_server.Prelude.{
  ℕ, ◌+◌, ◌≤◌, ◌≡◌, ◌≢◌, refl, Bool, ◌&&◌, List, [], ◌∷◌, ◌++◌, length, some, if◌then◌else◌, arith,
  ltb,
}

-- The messages of a run.
unfoldable pub sent : List Event → List ChatMessage
sent [] = []
sent (message places m ∷ es) = m ∷ sent es
sent (round ∷ es) = sent es

-- The index is exact, and leads to all messages.
record IsSound (h : ChatHistory) : Type 0 where
  indexed : IsIndexed h
  finds : FindsAll h

count-append :
    (p : ChatMessage → Bool) (ms : List ChatMessage) (m : ChatMessage)
    → count p (ms ++ m ∷ []) ≡ (if p m then 1 else 0) + count p ms
unfolding count
count-append p [] m = refl
count-append p (x ∷ ms) m = omega (arith, count-append p ms m)

module _ (chats : Chats) where
  open chats use {Table, rows}

  count-write_messages :
      (p : ChatMessage → Bool) (ms : List ChatMessage) (t : Table)
      → count p (rows (write_messages chats ms t)) ≡ count p ms + count p (rows t)
  unfolding write_messages count
  count-write_messages p [] t = omega arith
  count-write_messages p (m ∷ ms) t =
      let ih = count-write_messages p ms t in
      let law = chats.rows_insert m (write_messages chats ms t) p in omega arith

  step-IsSound : (e : Event) (s : ChatHistory × Table) → IsSound s.0 → IsSound (step chats e s).0
  unfolding step write_database FindsAll found total
  step-IsSound (message places m) s h = record {
    indexed = step-IsIndexed chats (message places m) s h.indexed;
    finds = new_chat_message-FindsAll places m s.0 (IsIndexed-InBounds s.0 h.indexed) h.finds;
  }
  step-IsSound round s h = record {
    indexed = step-IsIndexed chats round s h.indexed;
    finds = λ u p. refl;
  }

  run-IsSound :
      (es : List Event) (s : ChatHistory × Table) → IsSound s.0 → IsSound (run chats es s).0
  unfolding run
  run-IsSound [] s h = h
  run-IsSound (e ∷ es) s h = run-IsSound es (step chats e s) (step-IsSound e s h)

  -- The messages in the cache and in the table that meet p.
  kept : (ChatMessage → Bool) → ChatHistory × Table → ℕ
  kept p s = count p s.0.cache + count p (rows s.1)

  count-run :
      (p : ChatMessage → Bool) (es : List Event) (s : ChatHistory × Table)
      → kept p (run chats es s) ≡ kept p s + count p (sent es)
  unfolding run step sent kept count new_chat_message write_database
  count-run p [] s = omega arith
  count-run p (message places m ∷ es) s =
      let ih = count-run p es (new_chat_message places m s.0, s.1) in
      let one = count-append p s.0.cache m in omega arith
  count-run p (round ∷ es) s =
      let ih = count-run p es (write_database chats s.0 s.1) in
      let all = count-write_messages p s.0.cache s.1 in omega arith

-- After any run that starts with an empty cache, get_chat_message reads nothing past the cache, and
-- shows to u of his messages with another user f, sent before latest, each message of the table at the
-- start and each message of the run just once, wherever the rounds of write_database fell, as long as
-- the table has at most 20 of them: as many items for f meet a test q as there are such messages.
pub get_chat_message-run :
    {Item : Type 0} (item_of : String → ℕ → Item) (q : Item → Bool) (chats : Chats)
    (es : List Event) (t : chats.Table) (u f latest : ℕ)
    → u ≢ f
    → let end = run chats es (empty, t) in
      length (chats.between end.1 u f latest) ≤ 20
      → (items : List (ℕ × Item)) × (get_chat_message item_of chats u latest end.0 end.1
          ≡ some items)
        × (items_for item_of q f items
            ≡ count (is_wanted item_of q u f latest) (chats.rows t)
              + count (is_wanted item_of q u f latest) (sent es))
unfolding get_chat_message kept FindsAll IsIndexed entries uses found total count
get_chat_message-run item_of q chats es t u f latest ne few =
    let end = run chats es (empty, t) in
    let sound =
      run-IsSound chats es (empty, t) (record { indexed = λ x i. refl; finds = λ x p. refl }) in
    let bounds = IsIndexed-InBounds end.0 sound.indexed in
    let (cached, e, n) = from_cache-found item_of q u f latest end.0.cache end.0.index bounds in
    let old = insert_ids (chats.senders_of end.1 u) (insert_ids (chats.receivers_of end.1 u) []) in
    let stored = from_table item_of chats u latest end.1 old in
    let both = items_for-++ item_of q f cached stored in
    let in_table = from_table-count item_of q chats end.1 u f latest few in
    let all = sound.finds u (λ m. ltb m.timestamp latest && is_for item_of q u f m) in
    let once = total-count item_of q u f latest end.0.cache (ground arith) in
    let log = count-run chats (is_wanted item_of q u f latest) es (empty, t) in
    (cached ++ stored, rw e refl, omega arith)
