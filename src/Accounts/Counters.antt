-- ===== src/Accounts/Counters.antt =====
-- The counts of unread messages of src/Authorizer.hpp, by runs of add_one_unread, clear_unread,
-- accept_friend_request and rounds of write_cache_to_database.
use Prim.Native.String.{String}
use native.Mathlib.Numerals.{unary_clauses}
use unopp_server.Accounts.Tables
use unopp_server.Accounts.Tables.{same_pair, change}
use unopp_server.Accounts.Unread.{
  Entry, is_for, add_one_unread, clear_cached, cached, clear_unread, write_entries,
  write_cache_to_database, get_friend_list,
}
use unopp_server.Accounts.Users.{get_user_info}
use unopp_server.Accounts.Friends.{befriend, accept_friend_request}
use unopp_server.Prelude.{
  ℕ, ◌+◌, List, [], ◌∷◌, Option, some, ◌≡◌, refl, ap, ◌∙◌, get_elem?, map, zero, suc, if◌then◌else◌,
  arith, Option-cases, inl, inr,
}

-- What write_cache_to_database adds to the row, all elements for it counted.
unfoldable pub all_cached : ℕ → ℕ → List Entry → ℕ
all_cached u f [] = 0
all_cached u f (it ∷ cache) = (if is_for u f it then it.count else 0) + all_cached u f cache

cached-add :
    (a b u f : ℕ) (c : List Entry)
    → cached u f (add_one_unread a b c) ≡ cached u f c + (if same_pair a b u f then 1 else 0)
unfolding cached add_one_unread
cached-add a b u f [] = ground arith
cached-add a b u f (it ∷ c) = let ih = cached-add a b u f c in ground arith

all_cached-add :
    (a b u f : ℕ) (c : List Entry)
    → all_cached u f (add_one_unread a b c)
      ≡ all_cached u f c + (if same_pair a b u f then 1 else 0)
unfolding all_cached add_one_unread
all_cached-add a b u f [] = ground arith
all_cached-add a b u f (it ∷ c) = let ih = all_cached-add a b u f c in ground arith

cached-clear :
    (a b u f : ℕ) (c : List Entry)
    → cached u f (clear_cached a b c) ≡ (if same_pair a b u f then 0 else cached u f c)
unfolding cached clear_cached
cached-clear a b u f [] = ground arith
cached-clear a b u f (it ∷ c) = let ih = cached-clear a b u f c in ground arith

all_cached-clear :
    (a b u f : ℕ) (c : List Entry)
    → all_cached u f (clear_cached a b c) + (if same_pair a b u f then cached u f c else 0)
      ≡ all_cached u f c
unfolding cached all_cached clear_cached
all_cached-clear a b u f [] = ground arith
all_cached-clear a b u f (it ∷ c) = let ih = all_cached-clear a b u f c in ground arith

-- The messages that u has not read from f: one more by each message, none once they are read.
pub data Event : Type 0 where
  message read accepted : ℕ → ℕ → Event
  round : Event

unfoldable pub next_count : ℕ → ℕ → Event → ℕ → ℕ
next_count u f (message a b) k = if same_pair a b u f then k + 1 else k
next_count u f (read a b) k = if same_pair a b u f then 0 else k
next_count u f (accepted a b) k = k
next_count u f round k = k

unfoldable pub count_of : ℕ → ℕ → List Event → ℕ → ℕ
count_of u f [] k = k
count_of u f (e ∷ es) k = count_of u f es (next_count u f e k)

module _ (relations : Tables.Relations) (requests : Tables.Requests) where
  open relations use {unread}

  pub record Store : Type 0 where
    pub rows : relations.Table
    pub asked : requests.Table
    pub cache : List Entry

  unfoldable pub step : Event → Store → Store
  step (message a b) s = record s { cache = add_one_unread a b s.cache }
  step (read a b) s =
      let (rows, cache) = clear_unread relations a b s.rows s.cache in
      record s { rows = rows; cache = cache }
  step (accepted a b) s =
      let done = accept_friend_request requests relations a b s.rows s.asked in
      record s { rows = done.1; asked = done.2 }
  step round s =
      let (rows, cache) = write_cache_to_database relations s.rows s.cache in
      record s { rows = rows; cache = cache }

  unfoldable pub run : List Event → Store → Store
  run [] s = s
  run (e ∷ es) s = run es (step e s)

  unread-write_entries :
      (c : List Entry) (r : relations.Table) (u f n : ℕ)
      → unread r u f ≡ some n
      → unread (write_entries relations c r) u f ≡ some (n + all_cached u f c)
  unfolding write_entries all_cached
  unread-write_entries [] r u f n h = simp unary_clauses h
  unread-write_entries (it ∷ c) r u f n h =
      let k = (if is_for u f it then it.count else 0) in
      let r' = relations.add it.count it.user_id it.friend_id r in
      let row : unread r' u f ≡ some (n + k) =
        (let law = relations.unread_add r it.count it.user_id it.friend_id u f in ground arith) in
      unread-write_entries c r' u f (n + k) row ∙ ap some (omega arith)

  -- A row stays when another is added.
  unread-insert :
      (a b : ℕ) (r r' : relations.Table) (u f n : ℕ)
      → relations.insert a b r ≡ some r'
      → unread r u f ≡ some n
      → unread r' u f ≡ some n
  unread-insert a b r r' u f n e h =
      let (fresh, rows) = relations.insert_some r r' a b e in let at = rows u f in grind arith

  unread-befriend :
      (a b : ℕ) (r : relations.Table) (u f n : ℕ)
      → unread r u f ≡ some n
      → unread (befriend relations a b r).1 u f ≡ some n
  unfolding befriend
  unread-befriend a b r u f n h = elim (Option-cases (relations.insert a b r)) [
    | inl e ↦ rw (e, befriend, h)
    | inr (r₁, e₁) ↦ elim (Option-cases (relations.insert b a r₁)) [
      | inl e ↦ rw (e₁, befriend, e, h)
      | inr (r₂, e₂) ↦
          rw (e₁, befriend, e₂)
            (unread-insert b a r₁ r₂ u f n e₂ (unread-insert a b r r₁ u f n e₁ h))
    ]
  ]

  record Tracks (s : Store) (u f k : ℕ) : Type 0 where
    once : (x y : ℕ) → all_cached x y s.cache ≡ cached x y s.cache
    row : ℕ
    row_is : unread s.rows u f ≡ some row
    sum_is : row + cached u f s.cache ≡ k

  Tracks-step :
      (e : Event) (s : Store) (u f k : ℕ)
      → Tracks s u f k
      → Tracks (step e s) u f (next_count u f e k)
  unfolding step next_count clear_unread write_cache_to_database accept_friend_request cached
      all_cached
  Tracks-step (message a b) s u f k h = record {
    once = λ x y.
        (let one = all_cached-add a b x y s.cache in
          let other = cached-add a b x y s.cache in let same = h.once x y in omega arith);
    row = h.row;
    row_is = h.row_is;
    sum_is = (let one = cached-add a b u f s.cache in let sum = h.sum_is in ground arith);
  }
  Tracks-step (read a b) s u f k h = record {
    once = λ x y.
        (let one = all_cached-clear a b x y s.cache in
          let other = cached-clear a b x y s.cache in let same = h.once x y in ground arith);
    row = (if same_pair a b u f then 0 else h.row);
    row_is = (let row = relations.unread_clear s.rows a b u f in let is = h.row_is in ground arith);
    sum_is = (let one = cached-clear a b u f s.cache in let sum = h.sum_is in ground arith);
  }
  Tracks-step (accepted a b) s u f k h = record {
    once = h.once;
    row = h.row;
    row_is = unread-befriend a b s.rows u f h.row h.row_is;
    sum_is = h.sum_is;
  }
  Tracks-step round s u f k h = record {
    once = λ x y. refl;
    row = h.row + all_cached u f s.cache;
    row_is = unread-write_entries s.cache s.rows u f h.row h.row_is;
    sum_is = (let same = h.once u f in let sum = h.sum_is in omega arith);
  }

  Tracks-run :
      (es : List Event) (s : Store) (u f k : ℕ)
      → Tracks s u f k
      → Tracks (run es s) u f (count_of u f es k)
  unfolding run count_of
  Tracks-run [] s u f k h = h
  Tracks-run (e ∷ es) s u f k h =
      Tracks-run es (step e s) u f (next_count u f e k) (Tracks-step e s u f k h)

get_elem?-map {ℓ κ} :
    {A : Type ℓ} {B : Type κ} (g : A → B) (xs : List A) (i : ℕ) (a : A)
    → get_elem? xs i ≡ some a
    → get_elem? (map g xs) i ≡ some (g a)
get_elem?-map g [] i a h = ground arith
get_elem?-map g (x ∷ xs) zero a h = ground arith
get_elem?-map g (x ∷ xs) (suc i) a h = get_elem?-map g xs i a h

-- In a run that starts with an empty cache, each friend of u who was one at the start stands in
-- get_friend_list with the messages that u has not read from him: the count of the row at the start,
-- one more by each add_one_unread for the two, and 0 by each clear_unread, whatever requests were
-- accepted and wherever the rounds of write_cache_to_database fell.
pub get_friend_list-run :
    (relations : Tables.Relations) (requests : Tables.Requests) (users : Tables.Users)
    (es : List Event) (s : Store relations requests) (t : users.Table) (u f n : ℕ)
    → s.cache ≡ []
    → relations.unread s.rows u f ≡ some n
    → let end = run relations requests es s in
      (i : ℕ) × (get_elem? (get_friend_list relations users u t end.rows end.cache) i
        ≡ some (get_user_info users f t, count_of u f es n))
unfolding get_friend_list cached all_cached
get_friend_list-run relations requests users es s t u f n empty old =
    let end = run relations requests es s in
    let start : Tracks relations requests s u f n = (record {
      once = λ x y. rw empty refl;
      row = n;
      row_is = old;
      sum_is = rw empty (omega arith);
    }) in
    let tracked = Tracks-run relations requests es s u f n start in
    let (i, here) = relations.friends_of_all end.rows u f tracked.row tracked.row_is in
    let sum = tracked.sum_is in
    let entry : ℕ × ℕ → Option (String × String × ℕ) × ℕ =
      λ row. (get_user_info users row.0 t, row.1 + cached u row.0 end.cache) in
    (
      i,
      get_elem?-map entry (relations.friends_of end.rows u) i (f, tracked.row) here
          ∙ ap (λ k. some (get_user_info users f t, k)) (ground arith),
    )
