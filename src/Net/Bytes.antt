-- ===== src/Net/Bytes.antt =====
-- What net/protocol.go and net/protocol_ext.go use of slices and of encoding/binary. A payload is a
-- buffer of a pool: behind its bytes it has room, which a slice expression may reach into.
pub mod Views
use mcache.Prelude.Int.{ℤ, pos, negsuc}
use mcache.Prelude.{
  ℕ, zero, suc, ◌+◌, ◌-◌, ◌*◌, ◌/◌, ◌%◌, ◌^◌, ◌≡◌, ◌≤◌, ◌<◌, refl, sym, ap, ◌∙◌, Bool, true, false,
  Option, none, some, List, [], ◌∷◌, ◌++◌, Str, if◌then◌else◌, ltb, leb, length, get_elem?, take,
  drop, arith, ◌&&◌, ◌||◌, ◌==◌,
}

pub data Error : Type 0 where
  too_short truncated invalid_command too_large end_of_stream : Error

-- what a decoder does: it returns a value or an error, or it panics on a slice out of range
pub data Decoded {ℓ} (A : Type ℓ) : Type ℓ where
  ok : A → Decoded A
  failed : Error → Decoded A
  panic : Decoded A

infixl 5 ◌>>=◌
abbrev pub ◌>>=◌ {ℓ κ} : {A : Type ℓ} {B : Type κ} → Decoded A → (A → Decoded B) → Decoded B
ok a >>= f = f a
failed e >>= f = failed e
panic >>= f = panic

-- `if !holds { return nil, e }`
abbrev pub check : Bool → Error → Decoded (Unit {0})
check true e = ok tt
check false e = failed e

pub record Payload : Type 0 where
  pub bytes : List ℕ
  pub spare : List ℕ

abbrev pub len : Payload → ℕ
len p = length p.bytes

-- `p[i]`
unfoldable pub byte_at : Payload → ℕ → Decoded ℕ
byte_at p i = elim (get_elem? p.bytes i) [ none ↦ panic | some b ↦ ok b ]

-- `p[low:high]`
unfoldable pub slice : Payload → ℕ → ℕ → Decoded (List ℕ)
slice p low high =
    if leb low high && leb high (length p.bytes + length p.spare)
    then ok (take (high - low) (drop low (p.bytes ++ p.spare)))
    else panic

-- `binary.BigEndian.PutUint16`, `PutUint32` and `PutUint64` of a number: its last `width` bytes
abbrev pub put : ℕ → ℕ → List ℕ
put zero n = []
put (suc width) n = n / 256 ^ width % 256 ∷ put width n

-- `binary.BigEndian.Uint16`, `Uint32` and `Uint64`
abbrev pub value : ℕ → List ℕ → ℕ
value acc [] = acc
value acc (b ∷ bs) = value (acc * 256 + b) bs

-- the number of `width` bytes at an offset
unfoldable pub num_at : ℕ → Payload → ℕ → Decoded ℕ
num_at width p off = slice p off (off + width) >>= λ bs. ok (value 0 bs)

-- strings, each behind its length in `width` bytes
abbrev pub put_strings : ℕ → List Str → List ℕ
put_strings width [] = []
put_strings width (s ∷ ss) = put width (length s) ++ (s ++ put_strings width ss)

-- `make([]string, 0, n)` where an `int` has 64 bits: a string takes 16 bytes, and it panics if they
-- are more than an allocation can have
unfoldable pub make_strings : ℕ → Decoded (Unit {0})
make_strings n = if ltb (2 ^ 48) (16 * n) then panic else ok tt

-- the loop of a request's decoder over `count` such strings
unfoldable pub get_strings : ℕ → ℕ → Payload → ℕ → Decoded (List Str)
get_strings width zero p off = ok []
get_strings width (suc count) p off = check (leb (off + width) (len p)) truncated >>= λ _.
    num_at width p off >>= λ n. check (leb (off + width + n) (len p)) truncated >>= λ _.
    slice p (off + width) (off + width + n) >>= λ s.
    get_strings width count p (off + width + n) >>= λ ss. ok (s ∷ ss)

-- the loop of a response's decoder, which stops where the payload ends
unfoldable pub get_some : ℕ → ℕ → Payload → ℕ → Decoded (List Str)
get_some width zero p off = ok []
get_some width (suc count) p off =
    if leb (off + width) (len p)
    then (num_at width p off >>= λ n.
        if leb (off + width + n) (len p)
        then (slice p (off + width) (off + width + n) >>= λ s.
            get_some width count p (off + width + n) >>= λ ss. ok (s ∷ ss))
        else ok [])
    else ok []

-- a string behind its length, and the offset behind it
unfoldable pub get_string : ℕ → Payload → ℕ → Decoded (Str × ℕ)
get_string width p off = check (leb (off + width) (len p)) truncated >>= λ _.
    num_at width p off >>= λ n. check (leb (off + width + n) (len p)) truncated >>= λ _.
    slice p (off + width) (off + width + n) >>= λ s. ok (s, off + width + n)

-- `uint64(z)` of an `int64`, and back
abbrev pub to_u64 : ℤ → ℕ
to_u64 (pos n) = n % 2 ^ 64
to_u64 (negsuc n) = 2 ^ 64 - 1 - n % 2 ^ 64

abbrev pub to_i64 : ℕ → ℤ
to_i64 n = if ltb n (2 ^ 63) then pos n else negsuc (2 ^ 64 - 1 - n)

-- `uint32(z)` of an `int32`, and back
abbrev pub to_u32 : ℤ → ℕ
to_u32 (pos n) = n % 2 ^ 32
to_u32 (negsuc n) = 2 ^ 32 - 1 - n % 2 ^ 32

abbrev pub to_i32 : ℕ → ℤ
to_i32 n = if ltb n (2 ^ 31) then pos n else negsuc (2 ^ 32 - 1 - n)

-- an empty string for a missing one
abbrev pub first_of : List Str → Str
first_of [] = []
first_of (s ∷ ss) = s

-- `case a, b, c:` of a switch
abbrev pub any_of : ℕ → List ℕ → Bool
any_of cmd [] = false
any_of cmd (c ∷ cs) = cmd == c || any_of cmd cs

abbrev pub byte_of : Bool → ℕ
byte_of b = if b then 1 else 0
