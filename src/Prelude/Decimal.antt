-- ===== src/Prelude/Decimal.antt =====
-- `strconv.FormatInt(n, 10)` and `strconv.ParseInt(s, 10, 64)`, over the bytes of the text, and the
-- addition of two `int64`.
use mcache.Prelude.{
  ℕ, zero, suc, ◌+◌, ◌-◌, ◌*◌, ◌/◌, ◌%◌, ◌^◌, ◌<◌, ◌≤◌, ◌≡◌, refl, ap, ◌∙◌, Bool, true, false,
  Option, none, some, [], ◌∷◌, ◌++◌, ltb, leb, ◌==◌, if◌then◌else◌, ◌&&◌, Str, arith, Bool-cases,
  inl, inr,
}
use native.Mathlib.Nat.{pow-suc}
use mcache.Prelude.Int.{ℤ, pos, negsuc, ◌+ℤ◌, ◌-ℤ◌, ltb_ℤ}

-- The digits of a number of at most `f` digits.
unfoldable pub digits_of : ℕ → ℕ → Str
digits_of zero n = []
digits_of (suc f) n =
    let higher = digits_of f (n / 10) in
    if ltb n 10 then (b'0' + n) ∷ [] else higher ++ (b'0' + n % 10) ∷ []

-- 20 digits are enough for 64 bits.
unfoldable pub format_int : ℤ → Str
format_int (pos n) = digits_of 20 n
format_int (negsuc n) = b'-' ∷ digits_of 20 (suc n)

-- the number that digits stand for after `acc`; none on another byte
unfoldable pub value_from : ℕ → Str → Option ℕ
value_from acc [] = some acc
value_from acc (c ∷ cs) =
    let rest = value_from (acc * 10 + (c - b'0')) cs in
    if leb b'0' c && leb c b'9' then rest else none

-- at least one digit
unfoldable pub parse_digits : Str → Option ℕ
parse_digits [] = none
parse_digits (c ∷ cs) = value_from 0 (c ∷ cs)

abbrev signed : Bool → Option ℕ → Option ℤ
signed minus none = none
signed true (some zero) = some (pos zero)
signed true (some (suc n)) = if ltb n (2 ^ 63) then some (negsuc n) else none
signed false (some n) = if ltb n (2 ^ 63) then some (pos n) else none

-- `none` stands for an error.
unfoldable pub parse_int : Str → Option ℤ
parse_int [] = none
parse_int (c ∷ cs) =
    if c == b'-'
    then signed true (parse_digits cs)
    else if c == b'+'
    then signed false (parse_digits cs)
    else signed false (parse_digits (c ∷ cs))

abbrev pub IsInt64 : ℤ → Type 0
IsInt64 (pos n) = n < 2 ^ 63
IsInt64 (negsuc n) = n < 2 ^ 63

-- `a + b` on `int64` wraps round.
unfoldable pub add_int64 : ℤ → ℤ → ℤ
unfolding ◌+ℤ◌ ◌-ℤ◌
add_int64 a b =
    let s = a +ℤ b in
    if ltb_ℤ s (pos (2 ^ 63))
    then (if ltb_ℤ s (negsuc (2 ^ 63 - 1)) then s +ℤ pos (2 ^ 64) else s)
    else s -ℤ pos (2 ^ 64)

pub add_int64-IsInt64 : (a b : ℤ) → IsInt64 a → IsInt64 b → IsInt64 (add_int64 a b)
unfolding add_int64
add_int64-IsInt64 (pos a) (pos b) h k = ground arith
add_int64-IsInt64 (pos a) (negsuc b) h k = ground arith
add_int64-IsInt64 (negsuc a) (pos b) h k = ground arith
add_int64-IsInt64 (negsuc a) (negsuc b) h k = ground arith

abbrev then_from : Option ℕ → Str → Option ℕ
then_from none ys = none
then_from (some a) ys = value_from a ys

value_from-append : (xs ys : Str) (a : ℕ) → value_from a (xs ++ ys) ≡ then_from (value_from a xs) ys
unfolding value_from
value_from-append [] ys a = refl
value_from-append (x ∷ xs) ys a = ground (arith, value_from-append xs ys (a * 10 + (x - b'0')))

last_digit : (a d : ℕ) → d < 10 → value_from a ((b'0' + d) ∷ []) ≡ some (a * 10 + d)
unfolding value_from
last_digit a d h = ground arith

value-digits : (f n : ℕ) → n < 10 ^ f → value_from 0 (digits_of f n) ≡ some n
unfolding digits_of
value-digits zero n h = unfold value_from in ap some (omega arith)
value-digits (suc f) n h = elim (Bool-cases (ltb n 10)) [
  | inl small ↦ rw small (last_digit 0 n (ground arith) ∙ ap some (omega arith))
  | inr big ↦
      let k : n / 10 < 10 ^ f = omega (arith, pow-suc 10 f) in
      rw (big, value_from-append, value-digits f (n / 10) k)
        (last_digit (n / 10) (n % 10) (omega arith) ∙ ap some (omega arith))
]

-- A text of digits starts with a digit.
digits-head :
    (f n : ℕ) → (c : ℕ) × (cs : Str) × (digits_of (suc f) n ≡ c ∷ cs) × (b'0' ≤ c) × (c ≤ b'9')
unfolding digits_of
digits-head zero n = elim (Bool-cases (ltb n 10)) [
  | inl small ↦ (b'0' + n, [], rw small, omega arith, ground arith)
  | inr big ↦ (b'0' + n % 10, [], rw big, omega arith, omega arith)
]
digits-head (suc f) n = elim (Bool-cases (ltb n 10)) [
  | inl small ↦ (b'0' + n, [], rw small, omega arith, ground arith)
  | inr big ↦
      let (c, cs, e, lo, hi) = digits-head f (n / 10) in
      (
        c,
        cs ++ (b'0' + n % 10) ∷ [],
        rw big (unfold digits_of in ap (λ x. x ++ (b'0' + n % 10) ∷ []) e),
        lo,
        hi,
      )
]

parse_digits-cons : (c : ℕ) (cs : Str) → parse_digits (c ∷ cs) ≡ value_from 0 (c ∷ cs)
unfolding parse_digits
parse_digits-cons c cs = refl

parse_int-digits :
    (f n : ℕ) → n < 10 ^ suc f → parse_int (digits_of (suc f) n) ≡ signed false (some n)
unfolding parse_int parse_digits
parse_int-digits f n h =
    let (c, cs, e, lo, hi) = digits-head f n in
    let v : value_from 0 (c ∷ cs) ≡ some n = rw e at (value-digits (suc f) n h) in
    rw e (ground (arith, v))

parse_int-minus :
    (f n : ℕ) → n < 10 ^ suc f → parse_int (b'-' ∷ digits_of (suc f) n) ≡ signed true (some n)
unfolding parse_int parse_digits
parse_int-minus f n h =
    let (c, cs, e, lo, hi) = digits-head f n in
    let v : value_from 0 (c ∷ cs) ≡ some n = rw e at (value-digits (suc f) n h) in
    rw e (ground (arith, v))

-- What `FormatInt` writes, `ParseInt` reads back.
pub parse_int-format_int : (z : ℤ) → IsInt64 z → parse_int (format_int z) ≡ some z
unfolding format_int
parse_int-format_int (pos n) h = rw (parse_int-digits 19 n (omega arith)) (ground arith)
parse_int-format_int (negsuc n) h = rw (parse_int-minus 19 (suc n) (omega arith)) (ground arith)
