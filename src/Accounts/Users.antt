-- ===== src/Accounts/Users.antt =====
-- The users of src/Authorizer.hpp: new_user, log_in, log_out, authorize, set_user_name, set_slogan and
-- get_user_info, on the table of Accounts/Tables.antt. `size` is std::string::size.
use Prim.Native.String.{String}
use text.Mathlib.Text.{◌==◌ as str_eq}
use unopp_server.Accounts.Tables
use unopp_server.Accounts.Tables.{User}
use unopp_server.Prelude.{
  ℕ, ◌+◌, ◌*◌, ◌%◌, ◌^◌, not, ◌||◌, Option, none, some, ltb, if◌then◌else◌, ◌==◌,
}

pub data Result : Type 0 where
  success failed username_duplicate username_invalid password_empty user_donot_exist : Result
  password_incorrect sessdata_invalid set_icon_failed already_requested already_friend : Result
  cannot_request_self : Result

-- generate_sessdata, from mt_rand(), the hash of the name and the time: an unsigned of 32 bits.
unfoldable pub generate_sessdata : ℕ → ℕ → ℕ → ℕ
generate_sessdata random hash time = ((random + hash) % 2 ^ 32 * 2 ^ 16 % 2 ^ 32 + time) % 2 ^ 32

-- What log_in returns, and its output arguments as far as they are set: the id or the user_name of
-- the user, and the sessdata.
pub record LoggedIn : Type 0 where
  pub result : Result
  pub user : Option (ℕ × String)
  pub sessdata : Option ℕ

abbrev slogan_text : Option String → String
slogan_text none = ""
slogan_text (some s) = s

-- log_in and authorize are overloaded, by name and by id.
module _ (users : Tables.Users) where
  open users use {Table, row, by_name, by_sessdata, insert, update}

  unfoldable pub new_user : (String → ℕ) → String → String → Table → Result × Table
  new_user size user_name password t =
      if size user_name == 0 || ltb 40 (size user_name)
      then (username_invalid, t)
      else if size password == 0
      then (password_empty, t)
      else elim (by_name t user_name) [
        | some u ↦ (username_duplicate, t)
        | none ↦ (success, insert user_name password t)
      ]

  -- UPDATE user SET sessdata=? WHERE id=?
  abbrev pub set_sessdata : ℕ → Option ℕ → Table → Table
  set_sessdata id s t = update id (λ u. record u { sessdata = s }) t

  -- log_in, once the user is looked up; `fresh` is what generate_sessdata returns for the name.
  unfoldable pub log_in_as : Option User → String → (String → ℕ) → Table → LoggedIn × Table
  log_in_as none password fresh t =
      (record { result = user_donot_exist; user = none; sessdata = none }, t)
  log_in_as (some u) password fresh t =
      let s = fresh u.user_name in
      if not (str_eq u.password password)
      then (
        record { result = password_incorrect; user = some (u.id, u.user_name); sessdata = none },
        t,
      )
      else (
        record { result = success; user = some (u.id, u.user_name); sessdata = some s },
        set_sessdata u.id (some s) t,
      )

  unfoldable pub log_in : String → String → (String → ℕ) → Table → LoggedIn × Table
  log_in user_name password fresh t = log_in_as (by_name t user_name) password fresh t

  unfoldable pub log_in_by_id : ℕ → String → (String → ℕ) → Table → LoggedIn × Table
  log_in_by_id id password fresh t = log_in_as (row t id) password fresh t

  unfoldable pub log_out : ℕ → Table → Result × Table
  log_out sessdata t = elim (by_sessdata t sessdata) [
    | none ↦ (user_donot_exist, t)
    | some u ↦ (success, set_sessdata u.id none t)
  ]

  -- The result with the id and the user_name.
  unfoldable pub authorize : ℕ → Table → Result × Option (ℕ × String)
  authorize sessdata t = elim (by_sessdata t sessdata) [
    | none ↦ (sessdata_invalid, none)
    | some u ↦ (success, some (u.id, u.user_name))
  ]

  unfoldable pub set_user_name : ℕ → String → Table → Result × Table
  set_user_name id new_user_name t = elim (by_name t new_user_name) [
    | some u ↦ (username_duplicate, t)
    | none ↦ (success, update id (λ u. record u { user_name = new_user_name }) t)
  ]

  unfoldable pub set_slogan : ℕ → String → Table → Result × Table
  set_slogan id slogan t = (success, update id (λ u. record u { slogan = some slogan }) t)

  -- query_for_user_info: name, slogan and id, or an empty object. A slogan of NULL reads as "".
  unfoldable pub get_user_info : ℕ → Table → Option (String × String × ℕ)
  get_user_info id t = elim (row t id) [
    | none ↦ none
    | some u ↦ some (u.user_name, slogan_text u.slogan, id)
  ]
