-- ===== src/Http/Cookie.antt =====
-- The cookie of src/HttpServer.hpp: parse_cookie, and the cookies that a login sets. A std::string is
-- the list of its bytes. `none` is undefined behaviour: a number that does not fit a long long.
use unopp_server.Prelude.{
  ℕ, ◌≡◌, refl, zero, suc, ◌+◌, ◌-◌, ◌*◌, ◌/◌, ◌%◌, ◌^◌, Bool, true, false, ◌&&◌, List, [], ◌∷◌,
  ◌++◌, drop, Option, none, some, ◌>>=◌, leb, ltb, if◌then◌else◌, ◌==◌,
}

abbrev pub Bytes : Type 0
Bytes = List ℕ

-- "sessdata="
abbrev pub key : Bytes
key = b's' ∷ b'e' ∷ b's' ∷ b's' ∷ b'd' ∷ b'a' ∷ b't' ∷ b'a' ∷ b'=' ∷ []

abbrev pub starts_with : Bytes → Bytes → Bool
starts_with [] s = true
starts_with (c ∷ k) [] = false
starts_with (c ∷ k) (d ∷ s) = c == d && starts_with k s

-- What stands behind the first "sessdata=" that find() finds.
unfoldable pub after_key : Bytes → Option Bytes
after_key [] = none
after_key (c ∷ s) =
    let rest = after_key s in if starts_with key (c ∷ s) then some (drop 9 (c ∷ s)) else rest

abbrev pub is_digit : ℕ → Bool
is_digit c = leb b'0' c && leb c b'9'

-- The digits that stand first.
unfoldable pub digits_of : Bytes → Bytes
digits_of [] = []
digits_of (c ∷ s) = let rest = digits_of s in if is_digit c then c ∷ rest else []

unfoldable pub read : ℕ → Bytes → ℕ
read n [] = n
read n (c ∷ s) = read (n * 10 + (c - b'0')) s

-- std::atoll of digits.
unfoldable pub atoll : Bytes → Option ℕ
atoll s = let n = read 0 s in if ltb n (2 ^ 63) then some n else none

-- The sessdata, an unsigned int; `some none` is a cookie without it, where `failed` is set.
unfoldable pub parse_cookie : Bytes → Option (Option ℕ)
parse_cookie cookie = elim (after_key cookie) [
  | none ↦ some none
  | some s ↦ atoll (digits_of s) >>= λ n. some (some (n % 2 ^ 32))
]

-- std::to_string of a number of up to 20 digits.
unfoldable pub print : ℕ → ℕ → Bytes
print zero n = []
print (suc k) n =
    let rest = print k (n / 10) in
    if ltb n 10 then (b'0' + n) ∷ [] else rest ++ (b'0' + n % 10) ∷ []

unfoldable pub to_string : ℕ → Bytes
to_string n = print 20 n

-- "sessdata=" + std::to_string(sessdata)
abbrev pub sessdata_cookie : ℕ → Bytes
sessdata_cookie sessdata = key ++ to_string sessdata

browser : parse_cookie (b'i' ∷ b'=' ∷ b'7' ∷ b';' ∷ sessdata_cookie 4096) ≡ some (some 4096)
unfolding parse_cookie after_key digits_of to_string print atoll read
browser = refl
