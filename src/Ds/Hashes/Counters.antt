-- ===== src/Ds/Hashes/Counters.antt =====
-- `HIncrBy` of ds/hash/hash.go: counters kept as decimal text.
use mcache.Prelude.{◌≡◌, Option, none, some, ite, Str, str_dec, arith}
use mcache.Prelude.Int.{ℤ, pos}
use mcache.Prelude.Decimal.{
  format_int, parse_int, add_int64, IsInt64, parse_int-format_int, add_int64-IsInt64,
}
use mcache.Prelude.Dict.{insert, lookup-insert}
use mcache.Ds.Hashes.{Fields, h_get, h_incr_by}

-- The number that a field holds, where it is missing 0; none if its text is no 64-bit integer.
abbrev pub number_in : Option Str → Option ℤ
number_in none = some (pos 0)
number_in (some v) = parse_int v

abbrev pub counter : Fields → Str → Option ℤ
counter h field = number_in (h_get h field)

add_zero : (b : ℤ) → IsInt64 b → add_int64 (pos 0) b ≡ b
unfolding add_int64
add_zero (ℤ.pos n) h = ground arith
add_zero (ℤ.negsuc n) h = ground arith

-- `HIncrBy` on a field that holds a number, or is missing, returns the sum modulo 2^64 and leaves
-- it in the field, as 64-bit numbers; a later `HIncrBy` reads it. The other fields are as before.
h_incr_by_lem :
    (h : Fields) (f q : Str) (n delta : ℤ)
    → counter h f ≡ some n
    → IsInt64 n
    → IsInt64 delta
    → (h' : Fields) × (h_incr_by h f delta ≡ (h', some (add_int64 n delta)))
      × (counter h' f ≡ some (add_int64 n delta))
      × (h_get h' q ≡ ite (str_dec f q) (some (format_int (add_int64 n delta))) (h_get h q))
unfolding h_incr_by h_get
h_incr_by_lem h f q n delta c hn hd = (
  insert str_dec f (format_int (add_int64 n delta)) h,
  ground (arith, add_zero delta hd),
  ground (
    arith,
    lookup-insert str_dec f f (format_int (add_int64 n delta)) h,
    parse_int-format_int (add_int64 n delta) (add_int64-IsInt64 n delta hn hd),
  ),
  lookup-insert str_dec f q (format_int (add_int64 n delta)) h,
)
