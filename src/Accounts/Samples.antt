-- ===== src/Accounts/Samples.antt =====
-- Tables that meet the laws of Accounts/Tables.antt, small enough to run examples on.
use Prim.Native.String.{String}
use text.Mathlib.Text.{◌==◌ as str_eq}
use text.Mathlib.TextEquality.{eq_iff}
use unopp_server.Accounts.Tables.{User, Users, Relations, Requests, change, same_pair}
use unopp_server.Prelude.{
  ℕ, zero, suc, ◌+◌, ◌<◌, ◌≡◌, ◌≢◌, refl, sym, ◌∙◌, ap, Bool, true, false, Option, none, some,
  if◌then◌else◌, ◌==◌, ==_iff, ltb, arith, List, [], ◌∷◌, get_elem?, Option-cases, Bool-cases, inl,
  inr, ltb→lt, lt→ltb,
}

-- The rows of user: those of the ids below `next`.
pub record UserRows : Type 0 where
  pub next : ℕ
  pub at : ℕ → User

abbrev seat : UserRows → ℕ → User
seat t x = record (t.at x) { id = x }

abbrev user_row : UserRows → ℕ → Option User
user_row t x = if ltb x t.next then some (seat t x) else none

unfoldable pub find : (User → Bool) → UserRows → ℕ → Option User
find p t zero = none
find p t (suc n) = let rest = find p t n in if p (seat t n) then some (seat t n) else rest

abbrev or_else {ℓ} : {A : Type ℓ} → A → Option A → A
or_else d none = d
or_else d (some a) = a

pub find-some :
    (p : User → Bool) (t : UserRows) (n : ℕ) (u : User)
    → find p t n ≡ some u
    → (u.id < n) × (seat t u.id ≡ u) × (p u ≡ true)
unfolding find
find-some p t zero u h = ground arith
find-some p t (suc n) u h = elim (Bool-cases (p (seat t n))) [
  | inl e ↦
      let same : seat t n ≡ u = ap (or_else u) (rw e at h) in
      let here : n ≡ u.id = ap (λ v. v.id) same in
      (omega arith, ap (seat t) (sym here) ∙ same, ap p (sym same) ∙ e)
  | inr e ↦ let (below, same, holds) = find-some p t n u (rw e at h) in (omega arith, same, holds)
]

pub find-none :
    (p : User → Bool) (t : UserRows) (n x : ℕ) → find p t n ≡ none → x < n → p (seat t x) ≡ false
unfolding find
find-none p t zero x h below = ground arith
find-none p t (suc n) x h below = elim (Bool-cases (p (seat t n))) [
  | inl e ↦ let gone = rw e at h in ground arith
  | inr e ↦ elim (Bool-cases (x == n)) [
    | inl here ↦ rw ((==_iff x n).0 here) e
    | inr other ↦
        let far : x ≢ n = λ same. (let again = (==_iff x n).1 same in ground arith) in
        find-none p t n x (rw e at h) (omega arith)
  ]
]

abbrev has_sessdata : ℕ → Option ℕ → Bool
has_sessdata s none = false
has_sessdata s (some k) = s == k

-- The rows of friend_request, of the users 1 to 3.
abbrev ids : List ℕ
ids = 1 ∷ 2 ∷ 3 ∷ []

unfoldable pub friend_rows : (ℕ → Option ℕ) → List ℕ → List (ℕ × ℕ)
friend_rows row [] = []
friend_rows row (f ∷ fs) = elim (row f) [
  | none ↦ friend_rows row fs
  | some n ↦ (f, n) ∷ friend_rows row fs
]

pub friend_rows_row :
    (row : ℕ → Option ℕ) (fs : List ℕ) (i f n : ℕ)
    → get_elem? (friend_rows row fs) i ≡ some (f, n)
    → row f ≡ some n
unfolding friend_rows
friend_rows_row row [] i f n h = ground arith
friend_rows_row row (g ∷ fs) zero f n h = elim (Option-cases (row g)) [
  | inl e ↦ friend_rows_row row fs zero f n (rw (e, get_elem?) at h)
  | inr (m, e) ↦
      let same = ap (or_else (f, n)) (rw (e, get_elem?) at h) in
      ap row (sym (ap (λ r. r.0) same)) ∙ e ∙ ap some (ap (λ r. r.1) same)
]
friend_rows_row row (g ∷ fs) (suc i) f n h = elim (Option-cases (row g)) [
  | inl e ↦ friend_rows_row row fs (suc i) f n (rw (e, get_elem?) at h)
  | inr (m, e) ↦ friend_rows_row row fs i f n (rw (e, get_elem?) at h)
]

unfoldable pub requester_rows : (ℕ → Bool) → List ℕ → List ℕ
requester_rows row [] = []
requester_rows row (f ∷ fs) = let rest = requester_rows row fs in if row f then f ∷ rest else rest

pub requester_rows_row :
    (row : ℕ → Bool) (fs : List ℕ) (i a : ℕ)
    → get_elem? (requester_rows row fs) i ≡ some a
    → row a ≡ true
unfolding requester_rows
requester_rows_row row [] i a h = ground arith
requester_rows_row row (g ∷ fs) zero a h = elim (Bool-cases (row g)) [
  | inl e ↦ let same = ap (or_else a) (rw e at h) in ap row (sym same) ∙ e
  | inr e ↦ requester_rows_row row fs zero a (rw e at h)
]
requester_rows_row row (g ∷ fs) (suc i) a h = elim (Bool-cases (row g)) [
  | inl e ↦ requester_rows_row row fs i a (rw e at h)
  | inr e ↦ requester_rows_row row fs (suc i) a (rw e at h)
]

pub friend_rows_all :
    (row : ℕ → Option ℕ) (fs : List ℕ) (k f n : ℕ)
    → get_elem? fs k ≡ some f
    → row f ≡ some n
    → (i : ℕ) × (get_elem? (friend_rows row fs) i ≡ some (f, n))
unfolding friend_rows
friend_rows_all row [] k f n at h = ground arith
friend_rows_all row (g ∷ fs) zero f n at h =
    let here : row g ≡ some n = ap row (ap (or_else f) at) ∙ h in
    rw (here, friend_rows) (0, ap (λ x. some (x, n)) (ap (or_else f) at))
friend_rows_all row (g ∷ fs) (suc k) f n at h =
    let (i, found) = friend_rows_all row fs k f n at h in
    elim (Option-cases (row g)) [
      | inl e ↦ rw (e, friend_rows) (i, found)
      | inr (m, e) ↦ rw (e, friend_rows) (suc i, found)
    ]

-- The rows of relation: those with a friend_id below `bound`.
pub record FriendRows : Type 0 where
  pub bound : ℕ
  pub at : ℕ → ℕ → Option ℕ

abbrev pub unread_of : FriendRows → ℕ → ℕ → Option ℕ
unread_of t x y = if ltb y t.bound then t.at x y else none

-- The ids below n.
abbrev pub below : ℕ → List ℕ
below zero = []
below (suc n) = n ∷ below n

pub get_elem?-below : (n f : ℕ) → f < n → (k : ℕ) × (get_elem? (below n) k ≡ some f)
get_elem?-below zero f h = absurd (omega arith)
get_elem?-below (suc n) f h = elim (Bool-cases (n == f)) [
  | inl e ↦ (0, ap some ((==_iff n f).0 e))
  | inr e ↦
      let other : n ≢ f = λ same. (let again = (==_iff n f).1 same in ground arith) in
      let (k, found) = get_elem?-below n f (omega arith) in (suc k, found)
]

pub unread_of-below : (t : FriendRows) (u f n : ℕ) → unread_of t u f ≡ some n → f < t.bound
unread_of-below t u f n h = ground arith

abbrev pub inserted : ℕ → ℕ → FriendRows → FriendRows
inserted u f t = record {
  bound = t.bound + suc f;
  at = λ x y. if same_pair u f x y then some 0 else unread_of t x y;
}

pub unread_of-inserted :
    (t : FriendRows) (u f x y : ℕ)
    → unread_of (inserted u f t) x y ≡ (if same_pair u f x y then some 0 else unread_of t x y)
unread_of-inserted t u f x y = ground arith

abbrev pub relations : Relations
relations = record {
  Table = FriendRows;
  unread = unread_of;
  friends_of = λ t u. friend_rows (unread_of t u) (below t.bound);
  insert = λ u f t. elim (unread_of t u f) [ none ↦ some (inserted u f t) | some n ↦ none ];
  clear = λ u f t. record t {
    at = λ x y. if same_pair u f x y then change (λ n. 0) (t.at x y) else t.at x y;
  };
  add = λ k u f t. record t {
    at = λ x y. if same_pair u f x y then change (λ n. n + k) (t.at x y) else t.at x y;
  };
  friends_of_row = λ t i u f n. friend_rows_row (unread_of t u) (below t.bound) i f n;
  friends_of_all = λ t u f n h.
      (let (k, found) = get_elem?-below t.bound f (unread_of-below t u f n h) in
        friend_rows_all (unread_of t u) (below t.bound) k f n found h);
  insert_none = λ t u f e. elim (Option-cases (unread_of t u f)) [
    | inl z ↦ let gone = rw z at e in ground arith
    | inr (n, z) ↦ (n, z)
  ];
  insert_some = λ t t' u f e. elim (Option-cases (unread_of t u f)) [
    | inl z ↦
        let same : inserted u f t ≡ t' = ap (or_else t) (rw z at e) in
        (z, λ x y. ap (λ g. unread_of g x y) (sym same) ∙ unread_of-inserted t u f x y)
    | inr (n, z) ↦ let gone = rw z at e in ground arith
  ];
  unread_clear = λ t u f x y. ground arith;
  unread_add = λ t k u f x y. ground arith;
}

abbrev pub requests : Requests
requests = record {
  Table = ℕ → ℕ → Bool;
  requested = λ t. t;
  requesters_of = λ t b. requester_rows (λ a. t a b) ids;
  insert = λ a b t. if t a b then none else some (λ x y. if same_pair a b x y then true else t x y);
  delete = λ a b t x y. if same_pair a b x y then false else t x y;
  requesters_of_row = λ t i a b. requester_rows_row (λ a. t a b) ids i a;
  insert_none = λ t a b e. elim (Bool-cases (t a b)) [
    | inl z ↦ z
    | inr z ↦ let gone = rw z at e in ground arith
  ];
  insert_some = λ t t' a b e. elim (Bool-cases (t a b)) [
    | inl z ↦ let gone = rw z at e in ground arith
    | inr z ↦ (z, λ x y. ap (λ g. or_else t g x y) (sym (rw z at e)))
  ];
  requested_delete = λ t a b x y. refl;
}

abbrev named : String → User → Bool
named name u = str_eq u.user_name name

abbrev in_session : ℕ → User → Bool
in_session s u = has_sessdata s u.sessdata

pub in_session-some : (s : ℕ) (u : User) → in_session s u ≡ true → u.sessdata ≡ some s
in_session-some s u h = elim (Option-cases u.sessdata) [
  | inl e ↦ let gone = rw e at h in ground arith
  | inr (k, e) ↦ e ∙ ap some (sym ((==_iff s k).0 (rw e at h)))
]

pub user_row-some :
    (t : UserRows) (x : ℕ) (u : User) → user_row t x ≡ some u → (x < t.next) × (seat t x ≡ u)
user_row-some t x u h = elim (Bool-cases (ltb x t.next)) [
  | inl e ↦ (ltb→lt x t.next e, ap (or_else u) (rw e at h))
  | inr e ↦ let gone = rw e at h in ground arith
]

pub ltb-suc : (n x : ℕ) → (n == x) ≡ false → ltb x (suc n) ≡ ltb x n
ltb-suc n x h = ground arith

pub user_row-found :
    (p : User → Bool) (t : UserRows) (u : User)
    → find p t t.next ≡ some u
    → (user_row t u.id ≡ some u) × (p u ≡ true)
user_row-found p t u h =
    let (below, same, holds) = find-some p t t.next u h in
    (rw (lt→ltb u.id t.next below) (ap some same), holds)

abbrev pub users : Users
users = record {
  Table = UserRows;
  row = user_row;
  by_name = λ t name. find (named name) t t.next;
  by_sessdata = λ t s. find (in_session s) t t.next;
  insert = λ name password t. record {
    next = suc t.next;
    at = λ x.
        if t.next == x
        then record {
          id = x;
          user_name = name;
          password = password;
          sessdata = none;
          slogan = none;
        }
        else t.at x;
  };
  next_id = λ t. t.next;
  update = λ id f t. record t { at = λ x. if id == x then f (seat t x) else t.at x };
  row_id = λ t id u h. ap (λ v. v.id) (sym (user_row-some t id u h).1);
  by_name_some = λ t name u h.
      (let (row, holds) = user_row-found (named name) t u h in
        (row, (eq_iff u.user_name name).0 holds));
  by_name_none = λ t name id u h at same.
      (let (below, is) = user_row-some t id u at in
        let gone = find-none (named name) t t.next id h below in
        ground (arith, sym gone ∙ ap (named name) is ∙ (eq_iff u.user_name name).1 same));
  by_sessdata_some = λ t s u h.
      (let (row, holds) = user_row-found (in_session s) t u h in (row, in_session-some s u holds));
  by_sessdata_none = λ t s id u h at same.
      (let (below, is) = user_row-some t id u at in
        let gone = find-none (in_session s) t t.next id h below in
        let met : in_session s u ≡ true = rw same ((==_iff s s).1 refl) in
        ground (arith, sym gone ∙ ap (in_session s) is ∙ met));
  next_id_free = λ t. let beyond : ltb t.next t.next ≡ false = ground arith in rw beyond refl;
  row_insert = λ t name password x. elim (Bool-cases (t.next == x)) [
    | inl e ↦
        let last : ltb x (suc t.next) ≡ true = (let same = (==_iff t.next x).0 e in ground arith) in
        rw (last, e) refl
    | inr e ↦ rw (ltb-suc t.next x e, e) refl
  ];
  row_update = λ t id f x keeps. elim (Bool-cases (id == x)) [
    | inl e ↦ elim (Bool-cases (ltb x t.next)) [
      | inl below ↦
          rw (e, below) (ap (λ i. some (record (f (seat t x)) { id = i })) (sym (keeps (seat t x))))
      | inr beyond ↦ rw (e, beyond) refl
    ]
    | inr e ↦ rw e refl
  ];
}
