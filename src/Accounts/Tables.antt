-- ===== src/Accounts/Tables.antt =====
-- What src/Authorizer.hpp asks of SQLite: an interface for each table of setup_users.sql, with an
-- operation for each SQL statement and the documented effect of it. A statement that fails is `none`.
use Prim.Native.String.{String}
use unopp_server.Prelude.{
  ℕ, ◌+◌, ◌≡◌, ◌≢◌, Bool, true, false, ◌&&◌, Option, none, some, if◌then◌else◌, ◌==◌, List,
  get_elem?,
}

-- A row of user.
pub record User : Type 0 where
  pub id : ℕ
  pub user_name : String
  pub password : String
  pub sessdata : Option ℕ
  pub slogan : Option String

abbrev pub change {ℓ} : {A : Type ℓ} → (A → A) → Option A → Option A
change f none = none
change f (some a) = some (f a)

-- CREATE TABLE user. `row` is the row of a primary key; the selects return their first row.
pub record Users : Type 1 where
  pub Table : Type 0
  pub row : Table → ℕ → Option User
  -- SELECT … FROM user WHERE user_name=?
  pub by_name : Table → String → Option User
  -- SELECT … FROM user WHERE sessdata=?
  pub by_sessdata : Table → ℕ → Option User
  -- INSERT INTO user (user_name, password) VALUES (?, ?), and the id that it takes
  pub insert : String → String → Table → Table
  pub next_id : Table → ℕ
  -- UPDATE user SET … WHERE id=?
  pub update : ℕ → (User → User) → Table → Table
  pub row_id : (t : Table) (id : ℕ) (u : User) → row t id ≡ some u → u.id ≡ id
  pub by_name_some :
      (t : Table) (name : String) (u : User)
      → by_name t name ≡ some u
      → (row t u.id ≡ some u) × (u.user_name ≡ name)
  pub by_name_none :
      (t : Table) (name : String) (id : ℕ) (u : User)
      → by_name t name ≡ none
      → row t id ≡ some u
      → u.user_name ≢ name
  pub by_sessdata_some :
      (t : Table) (s : ℕ) (u : User)
      → by_sessdata t s ≡ some u
      → (row t u.id ≡ some u) × (u.sessdata ≡ some s)
  pub by_sessdata_none :
      (t : Table) (s id : ℕ) (u : User)
      → by_sessdata t s ≡ none
      → row t id ≡ some u
      → u.sessdata ≢ some s
  pub next_id_free : (t : Table) → row t (next_id t) ≡ none
  pub row_insert :
      (t : Table) (name password : String) (x : ℕ)
      → row (insert name password t) x ≡ (
          if next_id t == x
          then some (record {
            id = x;
            user_name = name;
            password = password;
            sessdata = none;
            slogan = none;
          })
          else row t x)
  pub row_update :
      (t : Table) (id : ℕ) (f : User → User) (x : ℕ)
      → ((u : User) → (f u).id ≡ u.id)
      → row (update id f t) x ≡ (if id == x then change f (row t x) else row t x)

abbrev pub same_pair : ℕ → ℕ → ℕ → ℕ → Bool
same_pair a b x y = a == x && b == y

-- CREATE TABLE relation, UNIQUE (user_id, friend_id), unread DEFAULT 0. `unread` is that of the row.
pub record Relations : Type 1 where
  pub Table : Type 0
  pub unread : Table → ℕ → ℕ → Option ℕ
  -- SELECT friend_id, unread FROM relation WHERE user_id=?
  pub friends_of : Table → ℕ → List (ℕ × ℕ)
  -- INSERT INTO relation (user_id, friend_id) VALUES (?,?)
  pub insert : ℕ → ℕ → Table → Option Table
  -- UPDATE relation SET unread=0, and unread=unread+?, WHERE user_id=? AND friend_id=?
  pub clear : ℕ → ℕ → Table → Table
  pub add : ℕ → ℕ → ℕ → Table → Table
  pub friends_of_row :
      (t : Table) (i u f n : ℕ) → get_elem? (friends_of t u) i ≡ some (f, n) → unread t u f ≡ some n
  pub friends_of_all :
      (t : Table) (u f n : ℕ)
      → unread t u f ≡ some n
      → (i : ℕ) × (get_elem? (friends_of t u) i ≡ some (f, n))
  pub insert_none : (t : Table) (u f : ℕ) → insert u f t ≡ none → (n : ℕ) × (unread t u f ≡ some n)
  pub insert_some :
      (t t' : Table) (u f : ℕ)
      → insert u f t ≡ some t'
      → (unread t u f ≡ none)
        × ((x y : ℕ) → unread t' x y ≡ (if same_pair u f x y then some 0 else unread t x y))
  pub unread_clear :
      (t : Table) (u f x y : ℕ)
      → unread (clear u f t) x y
        ≡ (if same_pair u f x y then change (λ n. 0) (unread t x y) else unread t x y)
  pub unread_add :
      (t : Table) (k u f x y : ℕ)
      → unread (add k u f t) x y
        ≡ (if same_pair u f x y then change (λ n. n + k) (unread t x y) else unread t x y)

-- CREATE TABLE friend_request, UNIQUE (requester_id, requestee_id). `requested` tells of a row.
pub record Requests : Type 1 where
  pub Table : Type 0
  pub requested : Table → ℕ → ℕ → Bool
  -- SELECT requester_id FROM friend_request WHERE requestee_id=?
  pub requesters_of : Table → ℕ → List ℕ
  -- INSERT INTO friend_request (requester_id, requestee_id) VALUES (?, ?)
  pub insert : ℕ → ℕ → Table → Option Table
  -- DELETE FROM friend_request WHERE requester_id=? AND requestee_id=?
  pub delete : ℕ → ℕ → Table → Table
  pub requesters_of_row :
      (t : Table) (i a b : ℕ) → get_elem? (requesters_of t b) i ≡ some a → requested t a b ≡ true
  pub insert_none : (t : Table) (a b : ℕ) → insert a b t ≡ none → requested t a b ≡ true
  pub insert_some :
      (t t' : Table) (a b : ℕ)
      → insert a b t ≡ some t'
      → (requested t a b ≡ false)
        × ((x y : ℕ) → requested t' x y ≡ (if same_pair a b x y then true else requested t x y))
  pub requested_delete :
      (t : Table) (a b x y : ℕ)
      → requested (delete a b t) x y ≡ (if same_pair a b x y then false else requested t x y)
