-- ===== src/Accounts/Sessions.antt =====
-- Sessions in src/Authorizer.hpp: log_in, authorize and log_out one after the other.
use Prim.Native.String.{String}
use text.Mathlib.Text.{◌==◌ as str_eq}
use unopp_server.Accounts.Tables
use unopp_server.Accounts.Tables.{User, change}
use unopp_server.Accounts.Users.{
  generate_sessdata, success, sessdata_invalid, set_sessdata, log_in, log_in_as, log_out, authorize,
}
use unopp_server.Prelude.{
  ◌+◌, ◌%◌, ◌^◌, ◌<◌, ℕ, ◌≡◌, refl, sym, ◌∙◌, ap, true, Option, none, some, if◌then◌else◌, ◌==◌,
  ==_iff, arith, Option-cases, Bool-cases, inl, inr,
}

abbrev sessdata_of : Option User → Option ℕ
sessdata_of none = none
sessdata_of (some u) = u.sessdata

module _ (users : Tables.Users) where
  open users use {Table, row}

  -- No other user than id has this sessdata.
  abbrev pub OnlyHas : Table → ℕ → ℕ → Type 0
  OnlyHas t s id = (x : ℕ) (w : User) → row t x ≡ some w → w.sessdata ≡ some s → x ≡ id

  row-set_sessdata :
      (t : Table) (id : ℕ) (o : Option ℕ) (x : ℕ)
      → row (set_sessdata users id o t) x
        ≡ (if id == x then change (λ u. record u { sessdata = o }) (row t x) else row t x)
  row-set_sessdata t id o x = users.row_update t id (λ u. record u { sessdata = o }) x (λ u. refl)

  row-set_sessdata_self :
      (t : Table) (id : ℕ) (o : Option ℕ) (u : User)
      → row t id ≡ some u
      → row (set_sessdata users id o t) id ≡ some (record u { sessdata = o })
  row-set_sessdata_self t id o u at =
      let law = row-set_sessdata t id o id in rw ((==_iff id id).1 refl, at) at law

  -- The select finds the only user that there is.
  by_sessdata-OnlyHas :
      (t : Table) (s id : ℕ) (u : User)
      → OnlyHas t s id
      → row t id ≡ some u
      → u.sessdata ≡ some s
      → users.by_sessdata t s ≡ some u
  by_sessdata-OnlyHas t s id u only at its = elim (Option-cases (users.by_sessdata t s)) [
    | inl e ↦ elim (users.by_sessdata_none t s id u e at its) [ ]
    | inr (w, e) ↦
        let (found, same) = users.by_sessdata_some t s w e in
        e ∙ sym found ∙ ap (row t) (only w.id w found same) ∙ at
  ]

  OnlyHas-set_sessdata :
      (t : Table) (s id : ℕ) (o : Option ℕ)
      → OnlyHas t s id
      → OnlyHas (set_sessdata users id o t) s id
  OnlyHas-set_sessdata t s id o only x w at its =
      let both = sym (row-set_sessdata t id o x) ∙ at in
      elim (Bool-cases (id == x)) [
        | inl e ↦ sym ((==_iff id x).0 e)
        | inr e ↦ let here = rw e at both in only x w here its
      ]

  -- Nobody has the sessdata that is taken from its only user.
  by_sessdata-set_sessdata :
      (t : Table) (s id : ℕ) (u : User)
      → OnlyHas t s id
      → row t id ≡ some u
      → users.by_sessdata (set_sessdata users id none t) s ≡ none
  by_sessdata-set_sessdata t s id u only at =
      let t' = set_sessdata users id none t in
      elim (Option-cases (users.by_sessdata t' s)) [
        | inl e ↦ e
        | inr (w, e) ↦
            let (found, same) = users.by_sessdata_some t' s w e in
            let its = OnlyHas-set_sessdata t s id none only w.id w found same in
            let cleared =
              sym (row-set_sessdata_self t id none u at) ∙ ap (row t') (sym its) ∙ found in
            let gone = ap sessdata_of cleared ∙ same in ground arith
      ]

pub log_in-some :
    (users : Tables.Users) (t : users.Table) (u : User) (name password : String)
    (fresh : String → ℕ)
    → users.by_name t name ≡ some u
    → str_eq u.password password ≡ true
    → u.user_name ≡ name
    → log_in users name password fresh t ≡ (
      record { result = success; user = some (u.id, name); sessdata = some (fresh name) },
      set_sessdata users u.id (some (fresh name)) t,
    )
unfolding log_in log_in_as
log_in-some users t u name password fresh known right is_name =
    rw (known, log_in, right, is_name) refl

-- A user logs in by name with the right password, and nobody else has the sessdata that is generated
-- for him. Then log_in succeeds and returns that sessdata, authorize answers it with the user's id and
-- name, log_out succeeds, and after it authorize answers SESSDATA_INVALID.
pub log_in-log_out :
    (users : Tables.Users) (t : users.Table) (u : User) (name password : String)
    (fresh : String → ℕ)
    → users.by_name t name ≡ some u
    → str_eq u.password password ≡ true
    → OnlyHas users t (fresh name) u.id
    → let login = log_in users name password fresh t in
      let logout = log_out users (fresh name) login.1 in
      (login.0.result ≡ success)
      × (login.0.sessdata ≡ some (fresh name))
      × (authorize users (fresh name) login.1 ≡ (success, some (u.id, name)))
      × (logout.0 ≡ success)
      × (authorize users (fresh name) logout.1 ≡ (sessdata_invalid, none))
unfolding log_out authorize
log_in-log_out users t u name password fresh known right only =
    let s = fresh name in
    let (at, is_name) = users.by_name_some t name u known in
    let t₁ = set_sessdata users u.id (some s) t in
    let only₁ = OnlyHas-set_sessdata users t s u.id (some s) only in
    let u₁ : User = (record u { sessdata = some s }) in
    let at₁ = row-set_sessdata_self users t u.id (some s) u at in
    let found = by_sessdata-OnlyHas users t₁ s u.id u₁ only₁ at₁ refl in
    let gone = by_sessdata-set_sessdata users t₁ s u.id u₁ only₁ at₁ in
    rw (log_in-some users t u name password fresh known right is_name) (
      refl,
      refl,
      rw (found, authorize, is_name) refl,
      rw (found, log_out) refl,
      rw (found, log_out, gone, authorize) refl,
    )

-- Whatever the random number, the hash and the time are, generate_sessdata returns a number below
-- 2 ^ 32, and for one time it returns the same whenever the sums of random number and hash leave the
-- same remainder by 2 ^ 16.
pub generate_sessdata_lem :
    (random hash random' hash' time : ℕ)
    → (random + hash) % 2 ^ 16 ≡ (random' + hash') % 2 ^ 16
    → (generate_sessdata random hash time < 2 ^ 32)
      × (generate_sessdata random hash time ≡ generate_sessdata random' hash' time)
unfolding generate_sessdata
generate_sessdata_lem random hash random' hash' time h = (omega arith, omega arith)
