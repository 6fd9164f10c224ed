-- ===== src/Http/Others.antt =====
-- What an operation on the rows of one user leaves in the tables of src/Authorizer.hpp.
use Prim.Native.String.{String}
use unopp_server.Accounts.Tables.{User, same_pair}
use unopp_server.Accounts.Users.{set_user_name}
use unopp_server.Accounts.Friends.{raise_friend_request, remove_friend_request, befriend}
use unopp_server.Http.Messages.{Stores}
use unopp_server.Prelude.{ℕ, ◌≡◌, ◌≢◌, inl, inr, refl, ◌∙◌, false, some, ◌==◌, arith, Option-cases}

module _ (stores : Stores) where
  open stores use {users, relations, requests}

  pub test-ne : (a b : ℕ) → a ≢ b → (a == b) ≡ false
  test-ne a b ne = ground arith

  pub row-update_other :
      (t : users.Table) (id : ℕ) (f : User → User) (x : ℕ)
      → ((u : User) → (f u).id ≡ u.id)
      → id ≢ x
      → users.row (users.update id f t) x ≡ users.row t x
  row-update_other t id f x keeps ne =
      let law = users.row_update t id f x keeps in rw (test-ne id x ne) at law

  pub row-set_user_name :
      (t : users.Table) (id : ℕ) (name : String) (x : ℕ)
      → id ≢ x
      → users.row (set_user_name users id name t).1 x ≡ users.row t x
  unfolding set_user_name
  row-set_user_name t id name x ne = elim (Option-cases (users.by_name t name)) [
    | inl free ↦
        rw (free, set_user_name)
          (row-update_other t id (λ u. record u { user_name = name }) x (λ u. refl) ne)
    | inr (u, e) ↦ rw (e, set_user_name) refl
  ]

  pair-ne : (a b x y id : ℕ) → id ≢ x → id ≢ y → id ≡ a → same_pair a b x y ≡ false
  pair-ne a b x y id ne ne' is = ground arith

  pair-ne_second : (a b x y id : ℕ) → id ≢ x → id ≢ y → id ≡ b → same_pair a b x y ≡ false
  pair-ne_second a b x y id ne ne' is = ground arith

  unread-insert_other :
      (a b : ℕ) (r r' : relations.Table) (x y : ℕ)
      → relations.insert a b r ≡ some r'
      → same_pair a b x y ≡ false
      → relations.unread r' x y ≡ relations.unread r x y
  unread-insert_other a b r r' x y e other =
      let law = (relations.insert_some r r' a b e).1 x y in rw other at law

  pub unread-befriend_other :
      (id b : ℕ) (r : relations.Table) (x y : ℕ)
      → id ≢ x
      → id ≢ y
      → relations.unread (befriend relations id b r).1 x y ≡ relations.unread r x y
  unfolding befriend
  unread-befriend_other id b r x y ne ne' = elim (Option-cases (relations.insert id b r)) [
    | inl e ↦ rw (e, befriend) refl
    | inr (r₁, e₁) ↦ elim (Option-cases (relations.insert b id r₁)) [
      | inl e ↦ rw (e₁, befriend, e) refl
      | inr (r₂, e₂) ↦
          rw (e₁, befriend, e₂)
            (unread-insert_other b id r₁ r₂ x y e₂ (pair-ne_second b id x y id ne ne' refl)
              ∙ unread-insert_other id b r r₁ x y e₁ (pair-ne id b x y id ne ne' refl))
    ]
  ]

  pub requested-remove_other :
      (id b : ℕ) (q : requests.Table) (x y : ℕ)
      → id ≢ x
      → id ≢ y
      → requests.requested (remove_friend_request requests id b q).1 x y ≡ requests.requested q x y
  unfolding remove_friend_request
  requested-remove_other id b q x y ne ne' =
      let first = requests.requested_delete q b id x y in
      let second = requests.requested_delete (requests.delete b id q) id b x y in
      rw (pair-ne id b x y id ne ne' refl) at second
      ∙ rw (pair-ne_second b id x y id ne ne' refl) at first

  pub requested-raise_other :
      (id b : ℕ) (t : users.Table) (r : relations.Table) (q : requests.Table) (x y : ℕ)
      → id ≢ x
      → id ≢ y
      → requests.requested (raise_friend_request users requests relations id b t r q).1 x y
        ≡ requests.requested q x y
  unfolding raise_friend_request
  requested-raise_other id b t r q x y ne ne' = elim (Option-cases (requests.insert id b q)) [
    | inl e ↦ rw e (ground arith)
    | inr (q', e) ↦
        let law = (requests.insert_some q q' id b e).1 x y in
        let same = rw (pair-ne id b x y id ne ne' refl) at law in rw e (ground arith)
  ]
