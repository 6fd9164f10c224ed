-- ===== src/Room/Seats.antt =====
-- Who sits at the table of a room of UNO: every connection of a room with a game on belongs to a
-- player.
use unopp_server.Room.Members.{game_is_on, already_joined, password_incorrect, need_password}
use Prim.Native.String.{String}
use text.Mathlib.Text.{◌==◌ as str_eq}
use unopp_server.Room.Members.{
  UserInfo, Room, JoinRoom, Answer, joined, answer, admit, admitted, is_some, restored, erase_old,
  old_conn_id, find_conn, erase_conn, modify_conn, prepare, process_close,
}
use unopp_server.Prelude.{
  ℕ, ◌≤◌, ◌≡◌, ◌⊎◌, refl, sym, ◌∙◌, Bool, true, List, [], ◌∷◌, Option, none, some, arith, sum_by,
  if◌then◌else◌, ◌==◌, Bool-cases, Option-cases, inl, inr,
}

abbrev pub is_id : ℕ → ℕ → ℕ
is_id id x = if x == id then 1 else 0

abbrev pub IsIn : ℕ → List ℕ → Type 0
IsIn id ids = 1 ≤ sum_by (is_id id) ids

-- The user of every connection is one of `ids`.
abbrev pub AllIn : List ℕ → List (ℕ × UserInfo) → Type 0
AllIn ids [] = Unit
AllIn ids ((c, p) ∷ rest) = IsIn p.user_id ids × AllIn ids rest

erase_conn-AllIn :
    (ids : List ℕ) (c : ℕ) (cs : List (ℕ × UserInfo)) → AllIn ids cs → AllIn ids (erase_conn c cs)
unfolding erase_conn
erase_conn-AllIn ids c [] h = tt
erase_conn-AllIn ids c ((d, p) ∷ rest) h = elim (Bool-cases (d == c)) [
  | inl e ↦ rw e (erase_conn-AllIn ids c rest h.1)
  | inr e ↦ rw e (h.0, erase_conn-AllIn ids c rest h.1)
]

erase_old-AllIn :
    (ids : List ℕ) (o : Option ℕ) (cs : List (ℕ × UserInfo))
    → AllIn ids cs
    → AllIn ids (erase_old o cs)
erase_old-AllIn ids none cs h = h
erase_old-AllIn ids (some c) cs h = erase_conn-AllIn ids c cs h

modify_conn-AllIn :
    (ids : List ℕ) (c : ℕ) (f : UserInfo → UserInfo) (cs : List (ℕ × UserInfo))
    → ((p : UserInfo) → (f p).user_id ≡ p.user_id)
    → AllIn ids cs
    → AllIn ids (modify_conn c f cs)
unfolding modify_conn
modify_conn-AllIn ids c f [] k h = tt
modify_conn-AllIn ids c f ((d, p) ∷ rest) k h = elim (Bool-cases (d == c)) [
  | inl e ↦ let same : IsIn (f p).user_id ids = rw (k p) h.0 in rw e (same, h.1)
  | inr e ↦ rw e (h.0, modify_conn-AllIn ids c f rest k h.1)
]

-- Who bears this name has this id.
abbrev pub NamesAgree : String → ℕ → List (ℕ × UserInfo) → Type 0
NamesAgree name id [] = Unit
NamesAgree name id ((c, p) ∷ rest) =
    (str_eq p.user_name name ≡ true → p.user_id ≡ id) × NamesAgree name id rest

old_conn_id-IsIn :
    (ids : List ℕ) (name : String) (id : ℕ) (cs : List (ℕ × UserInfo))
    → NamesAgree name id cs
    → AllIn ids cs
    → is_some (old_conn_id name cs) ≡ true
    → IsIn id ids
unfolding old_conn_id
old_conn_id-IsIn ids name id [] a h e = ground arith
old_conn_id-IsIn ids name id ((c, p) ∷ rest) a h e = elim (Bool-cases (str_eq p.user_name name)) [
  | inl k ↦ let same : IsIn p.user_id ids = h.0 in rw (a.0 k) at same
  | inr k ↦ old_conn_id-IsIn ids name id rest a.1 h.1 (rw k at e)
]

-- In a room with a game on, every connection is a player's.
abbrev pub IsSeated : List ℕ → Room → Type 0
IsSeated ids r = r.is_game_on ≡ true → AllIn ids r.connections

joined_restored :
    (q : JoinRoom) (r : Room)
    → r.is_game_on ≡ true
    → answer q r ≡ joined
    → is_some (old_conn_id q.user_name r.connections) ≡ true
unfolding answer
joined_restored q r on e = ground arith

admit-AllIn :
    (ids : List ℕ) (q : JoinRoom) (r : Room)
    → IsIn q.user_id ids
    → AllIn ids r.connections
    → AllIn ids (admit q r).connections
unfolding admit
admit-AllIn ids q r i h =
    (i, erase_conn-AllIn ids q.conn_id _ (erase_old-AllIn ids (restored q r) r.connections h))

admitted_cases :
    (a : Answer) (q : JoinRoom) (r : Room)
    → (a ≡ joined) × (admitted a q r ≡ admit q r) ⊎ (admitted a q r ≡ r)
admitted_cases joined q r = inl (refl, refl)
admitted_cases game_is_on q r = inr refl
admitted_cases already_joined q r = inr refl
admitted_cases password_incorrect q r = inr refl
admitted_cases need_password q r = inr refl

pub admitted-is_game_on :
    (a : Answer) (q : JoinRoom) (r : Room) → (admitted a q r).is_game_on ≡ r.is_game_on
unfolding admit
admitted-is_game_on joined q r = refl
admitted-is_game_on game_is_on q r = refl
admitted-is_game_on already_joined q r = refl
admitted-is_game_on password_incorrect q r = refl
admitted-is_game_on need_password q r = refl

pub admitted-IsSeated :
    (ids : List ℕ) (q : JoinRoom) (r : Room)
    → NamesAgree q.user_name q.user_id r.connections
    → IsSeated ids r
    → IsSeated ids (admitted (answer q r) q r)
admitted-IsSeated ids q r names h on =
    let was_on : r.is_game_on ≡ true = sym (admitted-is_game_on (answer q r) q r) ∙ on in
    let all = h was_on in
    elim (admitted_cases (answer q r) q r) [
      | inl (k, e) ↦ rw e (
          admit-AllIn ids q r
            (old_conn_id-IsIn ids q.user_name q.user_id r.connections names all
              (joined_restored q r was_on k))
            all)
      | inr e ↦ rw e all
    ]

pub prepare-IsSeated :
    (ids : List ℕ) (c : ℕ) (ready : Bool) (r : Room)
    → IsSeated ids r
    → IsSeated ids (prepare c ready r).1
unfolding prepare
prepare-IsSeated ids c ready r h = elim (Bool-cases (is_some (find_conn c r.connections))) [
  | inl e ↦ rw e (λ on. modify_conn-AllIn ids c _ r.connections (λ p. refl) (h on))
  | inr e ↦ rw e h
]

pub process_close-IsSeated :
    (ids : List ℕ) (c : ℕ) (r : Room) → IsSeated ids r → IsSeated ids (process_close c r)
unfolding process_close
process_close-IsSeated ids c r h = elim (Option-cases (find_conn c r.connections)) [
  | inl e ↦ rw (e, process_close) h
  | inr (p, e) ↦ elim (Bool-cases r.is_game_on) [
    | inl k ↦
        rw (e, process_close, k) (λ on. modify_conn-AllIn ids c _ r.connections (λ q. refl) (h k))
    | inr k ↦ rw (e, process_close, k) (λ on. absurd (cc))
  ]
]
