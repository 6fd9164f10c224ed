-- ===== src/Accounts/Friendship.antt =====
-- Requests and friends of src/Authorizer.hpp: a request that is raised and accepted, and friendship
-- both ways.
use unopp_server.Accounts.Tables
use unopp_server.Accounts.Tables.{same_pair}
use unopp_server.Accounts.Users.{success}
use unopp_server.Accounts.Friends.{remove_friend_request, befriend, accept_friend_request, is_row}
use unopp_server.Prelude.{
  ℕ, ◌≡◌, ◌≢◌, refl, false, ◌&&◌, ◌||◌, not, some, arith, Option-cases, inl, inr,
}

module _ (relations : Tables.Relations) where
  -- Friends are friends of each other.
  abbrev pub AreMutual : relations.Table → Type 0
  AreMutual r = (x y : ℕ) → is_row (relations.unread r x y) ≡ is_row (relations.unread r y x)

  is_row-insert :
      (a b : ℕ) (r r' : relations.Table) (x y : ℕ)
      → relations.insert a b r ≡ some r'
      → is_row (relations.unread r' x y) ≡ same_pair a b x y || is_row (relations.unread r x y)
  is_row-insert a b r r' x y e =
      let (fresh, rows) = relations.insert_some r r' a b e in let at = rows x y in ground arith

  -- Between two who are not friends both rows are new.
  pub is_row-befriend :
      (a b : ℕ) (r : relations.Table)
      → AreMutual r
      → a ≢ b
      → is_row (relations.unread r a b) ≡ false
      → let done = befriend relations a b r in
        (done.0 ≡ success)
        × ((x y : ℕ)
            → is_row (relations.unread done.1 x y)
              ≡ same_pair a b x y || same_pair b a x y || is_row (relations.unread r x y))
  unfolding befriend
  is_row-befriend a b r h ne strangers = elim (Option-cases (relations.insert a b r)) [
    | inl e ↦ let (n, old) = relations.insert_none r a b e in grind arith
    | inr (r₁, e₁) ↦ elim (Option-cases (relations.insert b a r₁)) [
      | inl e ↦
          let (n, old) = relations.insert_none r₁ b a e in
          let at = is_row-insert a b r r₁ b a e₁ in let back = h a b in grind arith
      | inr (r₂, e₂) ↦
          rw (e₁, befriend, e₂)
            (
              refl,
              λ x y.
                  (let one = is_row-insert a b r r₁ x y e₁ in
                    let two = is_row-insert b a r₁ r₂ x y e₂ in ground arith),
            )
    ]
  ]

  -- Whatever accept_friend_request returns, the friends it leaves are mutual when they were.
  pub accept_friend_request-AreMutual :
      (requests : Tables.Requests) (id requester_id : ℕ) (r : relations.Table) (q : requests.Table)
      → AreMutual r
      → AreMutual (accept_friend_request requests relations id requester_id r q).1
  unfolding accept_friend_request befriend
  accept_friend_request-AreMutual requests id requester_id r q h x y =
      elim (Option-cases (relations.insert id requester_id r)) [
        | inl e ↦ rw (e, befriend) (h x y)
        | inr (r₁, e₁) ↦ elim (Option-cases (relations.insert requester_id id r₁)) [
          | inl e ↦ rw (e₁, befriend, e) (h x y)
          | inr (r₂, e₂) ↦
              rw (e₁, befriend, e₂)
                (let one = is_row-insert id requester_id r r₁ x y e₁ in
                  let two = is_row-insert id requester_id r r₁ y x e₁ in
                  let three = is_row-insert requester_id id r₁ r₂ x y e₂ in
                  let four = is_row-insert requester_id id r₁ r₂ y x e₂ in
                  let old = h x y in ground arith)
        ]
      ]

-- When id and requester_id are two different users and not friends yet, and friends are mutual,
-- accept_friend_request succeeds: the two are friends both ways, the friends of the others are what they were, and of the requests
-- those between the two are gone.
pub accept_friend_request-friends :
    (relations : Tables.Relations) (requests : Tables.Requests) (id requester_id : ℕ)
    (r : relations.Table) (q : requests.Table)
    → AreMutual relations r
    → id ≢ requester_id
    → is_row (relations.unread r id requester_id) ≡ false
    → let done = accept_friend_request requests relations id requester_id r q in
      (done.0 ≡ success)
      × ((x y : ℕ)
          → is_row (relations.unread done.1 x y)
            ≡ same_pair id requester_id x y
              || same_pair requester_id id x y
              || is_row (relations.unread r x y))
      × ((x y : ℕ)
          → requests.requested done.2 x y
            ≡ not (same_pair id requester_id x y || same_pair requester_id id x y)
              && requests.requested q x y)
unfolding accept_friend_request remove_friend_request
accept_friend_request-friends relations requests id requester_id r q h ne strangers =
    let (result, rows) = is_row-befriend relations id requester_id r h ne strangers in
    (
      result,
      rows,
      λ x y.
          (let first = requests.requested_delete q requester_id id x y in
            let second =
              requests.requested_delete (requests.delete requester_id id q) id requester_id x y in
            ground arith),
    )
