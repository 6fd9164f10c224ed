-- ===== src/Uno/Turn.antt =====
-- Whose turn it is: next and get_last_player_ref of src/Uno.hpp as steps round a table.
use unopp_server.Uno.State.{Uno, next, last_player_idx}
use unopp_server.Prelude.{
  ℕ, ◌+◌, ◌-◌, ◌%◌, ◌<◌, ◌≡◌, ◌∙◌, refl, Bool, true, false, not, arith, length, ◌==◌, if◌then◌else◌,
  Bool-cases, inl, inr,
}
use native.Mathlib.Nat.{mod-eq_of_lt, add-mod_right, mod_self}

-- The seat beside seat `i` of `n`: to the right if `right`, and else to the left.
abbrev pub beside : Bool → ℕ → ℕ → ℕ
beside true n i = if i + 1 == n then 0 else i + 1
beside false n i = if i == 0 then n - 1 else i - 1

pub beside_lt : (right : Bool) (n i : ℕ) → i < n → beside right n i < n
beside_lt true n i h = ground arith
beside_lt false n i h = ground arith

-- The two directions undo one another.
beside-beside : (right : Bool) (n i : ℕ) → i < n → beside (not right) n (beside right n i) ≡ i
beside-beside true n i h = ground arith
beside-beside false n i h = ground arith

up-mod : (n i : ℕ) → i < n → (i + 1 + n) % n ≡ beside true n i
up-mod n i h = ground (arith, add-mod_right (i + 1) n, mod_self n, mod-eq_of_lt {n = i + 1} {m = n})

regroup_down : (n i : ℕ) → 0 < i → i + n - 1 ≡ (i - 1) + n
regroup_down n i h = omega arith

down-mod : (n i : ℕ) → i < n → (i + n - 1) % n ≡ beside false n i
down-mod n i h = ground (
  arith,
  regroup_down n i,
  add-mod_right (i - 1) n,
  mod-eq_of_lt {n = i + n - 1} {m = n},
  mod-eq_of_lt {n = i - 1} {m = n},
)

-- next passes the turn to the seat beside, in the direction of play.
pub next-beside :
    (u : Uno)
    → u.next_player_idx < length u.players
    → (next u).next_player_idx ≡ beside u.reversed (length u.players) u.next_player_idx
unfolding next
next-beside u h = elim (Bool-cases u.reversed) [
  | inl e ↦ rw e (up-mod (length u.players) u.next_player_idx h)
  | inr e ↦ rw e (down-mod (length u.players) u.next_player_idx h)
]

pub next-lt :
    (u : Uno) → u.next_player_idx < length u.players → (next u).next_player_idx < length u.players
next-lt u h = rw (next-beside u h) (beside_lt u.reversed (length u.players) u.next_player_idx h)

pub last_player_idx-beside :
    (u : Uno)
    → u.next_player_idx < length u.players
    → last_player_idx u ≡ beside (not u.reversed) (length u.players) u.next_player_idx
unfolding last_player_idx
last_player_idx-beside u h = elim (Bool-cases u.reversed) [
  | inl e ↦ rw e (down-mod (length u.players) u.next_player_idx h)
  | inr e ↦ rw e (up-mod (length u.players) u.next_player_idx h)
]

pub next-reversed : (u : Uno) → (next u).reversed ≡ u.reversed
unfolding next
next-reversed u = refl

pub next-players : (u : Uno) → (next u).players ≡ u.players
unfolding next
next-players u = refl

-- The player whom get_last_player_ref reads after next is the one whose turn it was before.
pub last_player_idx-next :
    (u : Uno) → u.next_player_idx < length u.players → last_player_idx (next u) ≡ u.next_player_idx
last_player_idx-next u h =
    last_player_idx-beside (next u) (rw next-players (next-lt u h))
    ∙ rw (next-players, next-reversed, next-beside u h)
        (beside-beside u.reversed (length u.players) u.next_player_idx h)
