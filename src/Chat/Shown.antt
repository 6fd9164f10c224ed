-- ===== src/Chat/Shown.antt =====
-- What get_chat_message shows to a user of his messages with a friend: those that it finds in the
-- cache, and those that it reads in the table.
use Prim.Native.String.{String}
use unopp_server.Chat.Table.{ChatMessage, Chats, count, has, is_between}
use unopp_server.Chat.History.{from_cache, from_table, entry_of, friend_of, insert_ids}
use unopp_server.Chat.Found.{bit, found, total, InBounds, InBounds-head, InBounds-tail}
use unopp_server.Chat.Ids.{
  times, has-insert_ids, insert_ids-OnceEach, count-take, take-all, count-cong, count-or,
}
use unopp_server.Prelude.{
  ℕ, ◌+◌, ◌≤◌, ◌≡◌, refl, sym, ap, ◌∙◌, Bool, false, ◌&&◌, List, [], ◌∷◌, ◌++◌, take, length,
  if◌then◌else◌, ◌==◌, ==_iff, arith, Bool-cases, inl, inr, subst, or-left, or-right, ltb, map,
  some, get_elem?-some,
}

module _ {Item : Type 0} (item_of : String → ℕ → Item) (q : Item → Bool) where
  -- The items for f that meet q.
  unfoldable pub items_for : ℕ → List (ℕ × Item) → ℕ
  items_for f [] = 0
  items_for f (it ∷ items) = bit (it.0 == f && q it.1) + items_for f items

  abbrev pub meets : ChatMessage → Bool
  meets m = q (item_of m.message m.timestamp)

  abbrev pub is_for : ℕ → ℕ → ChatMessage → Bool
  is_for u f m = friend_of u m == f && meets m

  abbrev pub is_wanted : ℕ → ℕ → ℕ → ChatMessage → Bool
  is_wanted u f latest m = meets m && (is_between u f m && ltb m.timestamp latest)

  pub items_for-++ :
      (f : ℕ) (xs ys : List (ℕ × Item)) → items_for f (xs ++ ys) ≡ items_for f xs + items_for f ys
  unfolding items_for
  items_for-++ f [] ys = omega arith
  items_for-++ f (x ∷ xs) ys = omega (arith, items_for-++ f xs ys)

  items_for-map :
      (u f : ℕ) (ms : List ChatMessage)
      → items_for f (map (entry_of item_of u) ms) ≡ count (is_for u f) ms
  unfolding items_for count entry_of
  items_for-map u f [] = refl
  items_for-map u f (m ∷ ms) = let ih = items_for-map u f ms in omega arith

  pub from_cache-found :
      (u f latest : ℕ) (cache : List ChatMessage) (index : List (ℕ × ℕ))
      → InBounds cache index
      → (items : List (ℕ × Item)) × (from_cache item_of u latest cache index ≡ some items)
        × (items_for f items ≡ found u (λ m. ltb m.timestamp latest && is_for u f m) cache index)
  unfolding from_cache found items_for entry_of
  from_cache-found u f latest cache [] bounds = ([], refl, refl)
  from_cache-found u f latest cache (it ∷ index) bounds =
      let (items, e, n) =
        from_cache-found u f latest cache index (InBounds-tail cache it index bounds) in
      let (m, at) = get_elem?-some cache it.1 (InBounds-head cache it index bounds) in
      elim (Bool-cases (it.0 == u)) [
        | inl same ↦ (
          (if ltb m.timestamp latest then entry_of item_of u m ∷ items else items),
          rw (same, at, e) refl,
          rw (same, at) (ground arith),
        )
        | inr other ↦ (items, rw (other, e) refl, rw (other) (ground arith))
      ]

  -- A message with a friend other than the user himself is found once.
  pub total-count :
      (u f latest : ℕ) (ms : List ChatMessage)
      → (u == f) ≡ false
      → total u (λ m. ltb m.timestamp latest && is_for u f m) ms ≡ count (is_wanted u f latest) ms
  unfolding total count
  total-count u f latest [] ne = refl
  total-count u f latest (m ∷ ms) ne = let ih = total-count u f latest ms ne in ground arith

  module _ (chats : Chats) where
    open chats use {Table, rows, between, receivers_of, senders_of}

    count-none :
        (p : ChatMessage → Bool) (ms : List ChatMessage)
        → ((m : ChatMessage) → p m ≡ false)
        → count p ms ≡ 0
    unfolding count
    count-none p [] h = refl
    count-none p (m ∷ ms) h = let ih = count-none p ms h in let one = h m in ground arith

    between-friend :
        (t : Table) (u f latest : ℕ)
        → count (is_for u f) (between t u f latest) ≡ count (is_wanted u f latest) (rows t)
    between-friend t u f latest =
        chats.rows_between t u f latest (is_for u f)
        ∙ count-cong (λ m. is_for u f m && (is_between u f m && ltb m.timestamp latest))
            (is_wanted u f latest) (rows t) (λ m. ground arith)

    between-other :
        (t : Table) (u f id latest : ℕ)
        → (f == id) ≡ false
        → count (is_for u f) (between t u id latest) ≡ 0
    between-other t u f id latest ne =
        chats.rows_between t u id latest (is_for u f)
        ∙ count-none (λ m. is_for u f m && (is_between u id m && ltb m.timestamp latest)) (rows t)
            (λ m. ground arith)

    from_table-times :
        (t : Table) (u f latest : ℕ) (ids : List ℕ)
        → length (between t u f latest) ≤ 20
        → items_for f (from_table item_of chats u latest t ids)
          ≡ times (count (is_wanted u f latest) (rows t)) f ids
    unfolding from_table times items_for
    from_table-times t u f latest [] few = refl
    from_table-times t u f latest (id ∷ ids) few =
        let ih = from_table-times t u f latest ids few in
        let first = map (entry_of item_of u) (take 20 (between t u id latest)) in
        let both = items_for-++ f first (from_table item_of chats u latest t ids) in
        let here = items_for-map u f (take 20 (between t u id latest)) in
        elim (Bool-cases (f == id)) [
          | inl same ↦
              let all =
                subst
                  (λ x.
                    count (is_for u f) (take 20 (between t u x latest))
                    ≡ count (is_wanted u f latest) (rows t))
                  ((==_iff f id).0 same)
                  (ap (count (is_for u f)) (take-all 20 (between t u f latest) few)
                    ∙ between-friend t u f latest) in
              rw same (omega arith)
          | inr other ↦
              let no = between-other t u f id latest other in
              let less = count-take (is_for u f) 20 (between t u id latest) in
              rw other (omega arith)
        ]

    -- A friend in no row has no messages.
    count-no_row :
        (t : Table) (u f latest : ℕ)
        → has f (receivers_of t u) ≡ false
        → has f (senders_of t u) ≡ false
        → count (is_wanted u f latest) (rows t) ≡ 0
    count-no_row t u f latest no_receiver no_sender =
        let sent = chats.rows_receivers_of t u f no_receiver in
        let received = chats.rows_senders_of t u f no_sender in
        let either =
          count-or (is_wanted u f latest) (λ m. m.sender_id == u && m.receiver_id == f)
            (λ m. m.receiver_id == u && m.sender_id == f) (rows t) (λ m e. ground arith) in
        omega arith

    pub from_table-count :
        (t : Table) (u f latest : ℕ)
        → length (between t u f latest) ≤ 20
        → items_for f (
            from_table item_of chats u latest t
              (insert_ids (senders_of t u) (insert_ids (receivers_of t u) [])))
          ≡ count (is_wanted u f latest) (rows t)
    unfolding times
    from_table-count t u f latest few =
        let ids = insert_ids (senders_of t u) (insert_ids (receivers_of t u) []) in
        let c = count (is_wanted u f latest) (rows t) in
        let all = from_table-times t u f latest ids few in
        let first = insert_ids-OnceEach f (receivers_of t u) [] (λ x. refl) in
        let once =
          insert_ids-OnceEach f (senders_of t u) (insert_ids (receivers_of t u) []) first c in
        let there = has-insert_ids f (senders_of t u) (insert_ids (receivers_of t u) []) in
        let here = has-insert_ids f (receivers_of t u) [] in
        elim (Bool-cases (has f ids)) [
          | inl e ↦ let is = rw e at once in omega arith
          | inr e ↦
              let is = rw e at once in
              let neither = sym there ∙ e in
              let no_sender =
                or-left (has f (senders_of t u)) (has f (insert_ids (receivers_of t u) []))
                  neither in
              let no_receiver = or-left (has f (receivers_of t u)) false (
                sym here
                ∙ or-right (has f (senders_of t u)) (has f (insert_ids (receivers_of t u) []))
                    neither) in
              let zero_rows = count-no_row t u f latest no_receiver no_sender in omega arith
        ]
