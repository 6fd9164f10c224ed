-- ===== src/Room/Sweeps.antt =====
-- What a round of check_empty_rooms of src/RoomManager.hpp clears away.
use unopp_server.Room.Members.{UserInfo, set_room, have_no_one_online}
use unopp_server.Room.Manager.{AnyRoom, base, free_members, sweep}
use unopp_server.Prelude.{
  ℕ, ◌≡◌, refl, ap, ◌∙◌, ◌+◌, ltb, arith, not, ◌&&◌, Bool, true, false, ◌||◌, List, [], ◌∷◌, Option,
  none, if◌then◌else◌, ◌==◌, Bool-cases, inl, inr,
}

-- Is it the user of a connection?
abbrev pub is_member : ℕ → List (ℕ × UserInfo) → Bool
is_member user_id [] = false
is_member user_id ((c, p) ∷ rest) = (p.user_id == user_id) || is_member user_id rest

-- How many of the members are online.
unfoldable pub count_online : List (ℕ × UserInfo) → ℕ
count_online [] = 0
count_online ((c, p) ∷ rest) = (if p.offline then 0 else 1) + count_online rest

-- The rooms with somebody online.
unfoldable pub with_people : List (ℕ × AnyRoom) → List (ℕ × AnyRoom)
with_people [] = []
with_people ((id, r) ∷ rest) =
    if ltb 0 (count_online (base r).connections)
    then (id, r) ∷ with_people rest
    else with_people rest

-- Is it a member of a room with nobody online?
unfoldable pub is_left_behind : ℕ → List (ℕ × AnyRoom) → Bool
is_left_behind user_id [] = false
is_left_behind user_id ((id, r) ∷ rest) =
    (not (ltb 0 (count_online (base r).connections)) && is_member user_id (base r).connections)
    || is_left_behind user_id rest

-- The test of the code counts nobody online.
have_no_one_online-count_online :
    (cs : List (ℕ × UserInfo)) → ltb 0 (count_online cs) ≡ not (have_no_one_online cs)
unfolding have_no_one_online count_online
have_no_one_online-count_online [] = refl
have_no_one_online-count_online ((c, p) ∷ rest) =
    let ih = have_no_one_online-count_online rest in ground arith

set_room_other :
    (user_id x : ℕ) (table : ℕ → Option ℕ)
    → set_room user_id none table x ≡ (if user_id == x then none else table x)
unfolding set_room
set_room_other user_id x table = refl

-- Taken out of the table by one test or by another.
taken_out :
    (here there : Bool) (was : Option ℕ) {now : Option ℕ}
    → now ≡ (if here then none else was)
    → (if there then none else now) ≡ (if here || there then none else was)
taken_out true true was e = refl
taken_out true false was e = e
taken_out false true was e = refl
taken_out false false was e = e

free_members_lem :
    (cs : List (ℕ × UserInfo)) (table : ℕ → Option ℕ) (x : ℕ)
    → free_members cs table x ≡ (if is_member x cs then none else table x)
unfolding free_members
free_members_lem [] table x = refl
free_members_lem ((c, p) ∷ rest) table x =
    free_members_lem rest (set_room p.user_id none table) x
    ∙ taken_out (p.user_id == x) (is_member x rest) (table x) (set_room_other p.user_id x table)

sweep-rooms :
    (rooms : List (ℕ × AnyRoom)) (table : ℕ → Option ℕ)
    → (sweep rooms table).rooms ≡ with_people rooms
unfolding sweep with_people
sweep-rooms [] table = refl
sweep-rooms ((id, r) ∷ rest) table =
    let online = have_no_one_online-count_online (base r).connections in
    elim (Bool-cases (have_no_one_online (base r).connections)) [
      | inl e ↦ rw (e, online, e) (sweep-rooms rest (free_members (base r).connections table))
      | inr e ↦ rw (e, online, e) (ap (λ t. (id, r) ∷ t) (sweep-rooms rest table))
    ]

sweep-table :
    (rooms : List (ℕ × AnyRoom)) (table : ℕ → Option ℕ) (x : ℕ)
    → (sweep rooms table).user_2_room_id x ≡ (if is_left_behind x rooms then none else table x)
unfolding sweep is_left_behind
sweep-table [] table x = refl
sweep-table ((id, r) ∷ rest) table x =
    let online = have_no_one_online-count_online (base r).connections in
    elim (Bool-cases (have_no_one_online (base r).connections)) [
      | inl e ↦
          rw (e, online, e)
            (sweep-table rest (free_members (base r).connections table) x
              ∙ taken_out (is_member x (base r).connections) (is_left_behind x rest) (table x)
                  (free_members_lem (base r).connections table x))
      | inr e ↦ rw (e, online, e) (sweep-table rest table x)
    ]

-- A round keeps the rooms in which some member is not offline, in their order, and takes the members of the others, and nobody else, out of
-- user_2_room_id.
pub sweep_lem :
    (rooms : List (ℕ × AnyRoom)) (table : ℕ → Option ℕ)
    → ((sweep rooms table).rooms ≡ with_people rooms)
      × ((x : ℕ)
          → (sweep rooms table).user_2_room_id x
            ≡ (if is_left_behind x rooms then none else table x))
sweep_lem rooms table = (sweep-rooms rooms table, sweep-table rooms table)
