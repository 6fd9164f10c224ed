-- ===== src/Http/Decimal.antt =====
-- That parse_cookie reads the cookie that a login sets.
use native.Mathlib.Numerals.{unary_clauses}
use unopp_server.Http.Cookie.{
  Bytes, key, after_key, is_digit, digits_of, read, atoll, parse_cookie, print, to_string,
  sessdata_cookie,
}
use unopp_server.Prelude.{
  ℕ, zero, suc, ◌+◌, ◌-◌, ◌*◌, ◌/◌, ◌%◌, ◌^◌, ◌<◌, ◌≡◌, refl, ap, Bool, true, ◌&&◌, [], ◌∷◌, ◌++◌,
  some, ltb, lt→ltb, arith, Bool-cases, inl, inr,
}

read-append : (n : ℕ) (s : Bytes) (c : ℕ) → read n (s ++ c ∷ []) ≡ read n s * 10 + (c - b'0')
unfolding read
read-append n [] c = refl
read-append n (d ∷ s) c = read-append (n * 10 + (d - b'0')) s c

abbrev all_digits : Bytes → Bool
all_digits [] = true
all_digits (c ∷ s) = is_digit c && all_digits s

all_digits-append :
    (s : Bytes) (c : ℕ) → all_digits s ≡ true → is_digit c ≡ true → all_digits (s ++ c ∷ []) ≡ true
all_digits-append [] c h e = ground arith
all_digits-append (d ∷ s) c h e = let ih = all_digits-append s c in ground arith

all_digits-print : (k n : ℕ) → all_digits (print k n) ≡ true
unfolding print
all_digits-print zero n = refl
all_digits-print (suc k) n = elim (Bool-cases (ltb n 10)) [
  | inl e ↦ rw e (ground arith)
  | inr e ↦ rw e (
      all_digits-append (print k (n / 10)) (b'0' + n % 10) (all_digits-print k (n / 10))
        (ground arith))
]

read-print : (k n : ℕ) → n < 10 ^ k → read 0 (print k n) ≡ n
unfolding print read
read-print zero n h = omega arith
read-print (suc k) n h = elim (Bool-cases (ltb n 10)) [
  | inl e ↦ rw e (omega arith)
  | inr e ↦
      let power = simp unary_clauses at h in
      let ih = read-print k (n / 10) (omega arith) in
      let last = read-append 0 (print k (n / 10)) (b'0' + n % 10) in rw e (omega arith)
]

digits_of-append :
    (s rest : Bytes) → all_digits s ≡ true → digits_of rest ≡ [] → digits_of (s ++ rest) ≡ s
unfolding digits_of
digits_of-append [] rest h e = e
digits_of-append (c ∷ s) rest h e = elim (Bool-cases (is_digit c)) [
  | inl d ↦ rw (d, digits_of-append s rest (ground arith) e) refl
  | inr d ↦ let gone = rw d at h in ground arith
]

parse_cookie-digits :
    (s rest : Bytes) (n : ℕ)
    → all_digits s ≡ true
    → digits_of rest ≡ []
    → read 0 s ≡ n
    → n < 2 ^ 32
    → parse_cookie (key ++ (s ++ rest)) ≡ some (some n)
unfolding parse_cookie after_key atoll
parse_cookie-digits s rest n digits stops value small =
    let fits = lt→ltb n (2 ^ 63) (omega arith) in
    rw (digits_of-append s rest digits stops, value, fits) (ap (λ x. some (some x)) (omega arith))

-- The cookie that a login sets is read back: behind "sessdata=" and the decimal digits of a number below
-- 2 ^ 32 may stand anything that does not begin with a digit, and parse_cookie returns the number.
pub parse_cookie-sessdata_cookie :
    (sessdata : ℕ) (rest : Bytes)
    → sessdata < 2 ^ 32
    → digits_of rest ≡ []
    → parse_cookie (sessdata_cookie sessdata ++ rest) ≡ some (some sessdata)
unfolding to_string
parse_cookie-sessdata_cookie sessdata rest small stops =
    parse_cookie-digits (to_string sessdata) rest sessdata (all_digits-print 20 sessdata) stops
      (read-print 20 sessdata (omega arith)) small
