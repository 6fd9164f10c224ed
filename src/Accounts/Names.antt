-- ===== src/Accounts/Names.antt =====
-- The names of users in src/Authorizer.hpp: new_user and set_user_name, and the password at log_in.
use Prim.Native.String.{String}
use unopp_server.Accounts.Tables
use unopp_server.Accounts.Tables.{User, change}
use unopp_server.Accounts.Users.{new_user, set_user_name}
use unopp_server.Prelude.{
  ℕ, ◌≡◌, refl, sym, ◌∙◌, Option, none, some, ◌==◌, arith, Option-cases, Bool-cases, inl, inr,
  subst, ==_iff, ◌⊎◌, ap,
}

abbrev name_of : Option User → String
name_of none = ""
name_of (some u) = u.user_name

module _ (users : Tables.Users) where
  open users use {Table, row}

  -- No two rows have one name.
  abbrev pub HasUniqueNames : Table → Type 0
  HasUniqueNames t =
      (x y : ℕ) (u v : User)
      → row t x ≡ some u
      → row t y ≡ some v
      → u.user_name ≡ v.user_name
      → x ≡ y

  -- Each row has its old name, but for the one of id.
  Renamed : ℕ → String → Table → Table → Type 0
  Renamed id name t t' =
      (x : ℕ) (u : User)
      → row t' x ≡ some u
      → ((id ≡ x) × (u.user_name ≡ name))
        ⊎ ((w : User) × (row t x ≡ some w) × (w.user_name ≡ u.user_name))

  Renamed-HasUniqueNames :
      (t t' : Table) (id : ℕ) (name : String)
      → HasUniqueNames t
      → users.by_name t name ≡ none
      → Renamed id name t t'
      → HasUniqueNames t'
  unfolding Renamed
  Renamed-HasUniqueNames t t' id name h free named x y u v at_x at_y same = elim (named x u at_x) [
    | inl (is_x, its) ↦ elim (named y v at_y) [
      | inl (is_y, own) ↦ sym is_x ∙ is_y
      | inr (w, old, kept) ↦
          elim (users.by_name_none t name y w free old (kept ∙ sym same ∙ its)) [ ]
    ]
    | inr (w, old, kept) ↦ elim (named y v at_y) [
      | inl (is_y, own) ↦ elim (users.by_name_none t name x w free old (kept ∙ same ∙ own)) [ ]
      | inr (w', old', kept') ↦ h x y w w' old old' (kept ∙ same ∙ sym kept')
    ]
  ]

  Renamed-insert :
      (t : Table) (name password : String)
      → Renamed (users.next_id t) name t (users.insert name password t)
  unfolding Renamed
  Renamed-insert t name password x u at =
      let both = sym (users.row_insert t name password x) ∙ at in
      elim (Bool-cases (users.next_id t == x)) [
        | inl e ↦
            let here = rw e at both in inl ((==_iff (users.next_id t) x).0 e, ap name_of (sym here))
        | inr e ↦ let here = rw e at both in inr (u, here, refl)
      ]

  Renamed-update :
      (t : Table) (id : ℕ) (name : String)
      → Renamed id name t (users.update id (λ u. record u { user_name = name }) t)
  unfolding Renamed
  Renamed-update t id name x u at =
      let law = users.row_update t id (λ u. record u { user_name = name }) x (λ u. refl) in
      let both = sym law ∙ at in
      elim (Bool-cases (id == x)) [
        | inl e ↦ elim (Option-cases (row t x)) [
          | inl gone ↦ let here = rw (e, gone) at both in ground arith
          | inr (w, old) ↦
              let here = rw (e, old) at both in inl ((==_iff id x).0 e, ap name_of (sym here))
        ]
        | inr e ↦ let here = rw e at both in inr (u, here, refl)
      ]

new_user-cases :
    (users : Tables.Users) (size : String → ℕ) (name password : String) (t : users.Table)
    → ((new_user users size name password t).1 ≡ t)
      ⊎ ((users.by_name t name ≡ none)
          × ((new_user users size name password t).1 ≡ users.insert name password t))
unfolding new_user
new_user-cases users size name password t = ground arith

-- new_user and set_user_name, whatever they return, leave a table in which no two users have one name
-- when there were no two before.
pub set_user_name-HasUniqueNames :
    (users : Tables.Users) (size : String → ℕ) (name password : String) (id : ℕ) (t : users.Table)
    → HasUniqueNames users t
    → HasUniqueNames users (new_user users size name password t).1
      × HasUniqueNames users (set_user_name users id name t).1
unfolding set_user_name
set_user_name-HasUniqueNames users size name password id t h = (
  elim (new_user-cases users size name password t) [
    | inl same ↦ subst (HasUniqueNames users) (sym same) h
    | inr (free, new) ↦ subst (HasUniqueNames users) (sym new) (
        Renamed-HasUniqueNames users t (users.insert name password t) (users.next_id t) name h free
          (Renamed-insert users t name password))
  ],
  elim (Option-cases (users.by_name t name)) [
    | inl free ↦
        rw (free, set_user_name)
          (Renamed-HasUniqueNames users t (users.update id (λ u. record u { user_name = name }) t)
            id name h free (Renamed-update users t id name))
    | inr (u, e) ↦ rw (e, set_user_name) h
  ],
)
