-- ===== src/Net/Bytes/Views.antt =====
-- Reading back, from a payload, what stands at an offset.
use mcache.Prelude.{
  not, ◌==◌, false, ℕ, zero, suc, ◌+◌, ◌-◌, ◌%◌, ◌^◌, ◌≡◌, ◌≤◌, ◌<◌, refl, sym, ap, ◌∙◌, Bool, true,
  List, [], ◌∷◌, ◌++◌, Str, if◌then◌else◌, leb, ltb, length, get_elem?, some, drop, arith,
  length-append, take-append_exact,
}
use mcache.Prelude.Int.{ℤ, pos, negsuc}
use mcache.Prelude.Decimal.{IsInt64}
use mathlib.Core.Path.{subst}
use mathlib.Core.List.{append_assoc, append-nil}
use mcache.Net.Bytes.{
  byte_of, ok, ◌>>=◌, check, Payload, len, Error, slice, byte_at, to_u64, to_i64, to_u32, to_i32,
  put, value, num_at, put_strings, get_strings, get_some,
}

-- From offset `n` on, the payload's bytes are `s`.
pub record At (p : Payload) (n : ℕ) (s : List ℕ) : Type 0 where
  pub length_at : n + length s ≡ length p.bytes
  pub bytes_at : drop n p.bytes ≡ s

pub At-start : (p : Payload) → At p 0 p.bytes
At-start p = record { length_at = omega arith; bytes_at = refl }

drop-nil : (n : ℕ) → drop {A = ℕ} n [] ≡ []
drop-nil zero = refl
drop-nil (suc n) = refl

drop-drop : (n m : ℕ) (l : List ℕ) → drop (n + m) l ≡ drop m (drop n l)
drop-drop zero m l = ap (λ k. drop k l) (omega arith)
drop-drop (suc n) m [] = drop-nil (suc n + m) ∙ sym (drop-nil m)
drop-drop (suc n) m (b ∷ l) =
    ap (λ k. drop k (b ∷ l)) {y = suc (n + m)} (omega arith) ∙ drop-drop n m l

pub drop-append : (x s : List ℕ) → drop (length x) (x ++ s) ≡ s
drop-append [] s = refl
drop-append (b ∷ x) s = drop-append x s

pub At-next : (p : Payload) (n : ℕ) (x s : List ℕ) → At p n (x ++ s) → At p (n + length x) s
At-next p n x s a = record {
  length_at = omega (arith, a.length_at, length-append x s);
  bytes_at = drop-drop n (length x) p.bytes ∙ ap (drop (length x)) a.bytes_at ∙ drop-append x s;
}

get_elem?-drop :
    (n : ℕ) (l : List ℕ) (b : ℕ) (s : List ℕ) → drop n l ≡ b ∷ s → get_elem? l n ≡ some b
get_elem?-drop zero [] b s e = ground (arith, e)
get_elem?-drop zero (d ∷ l) b s e = ground (arith, e)
get_elem?-drop (suc n) [] b s e = ground (arith, e)
get_elem?-drop (suc n) (d ∷ l) b s e = get_elem?-drop n l b s e

drop-spare : (n : ℕ) (l m : List ℕ) → n ≤ length l → drop n (l ++ m) ≡ drop n l ++ m
drop-spare zero l m h = refl
drop-spare (suc n) [] m h = absurd (omega arith)
drop-spare (suc n) (b ∷ l) m h = drop-spare n l m (omega arith)

pub leb_of : {m n : ℕ} → m ≤ n → leb m n ≡ true
leb_of h = ground (arith, h)

pub length-put : (w n : ℕ) → length (put w n) ≡ w
length-put zero n = refl
length-put (suc w) n = ap suc (length-put w n)

pub slice-At :
    (p : Payload) (n : ℕ) (x s : List ℕ) → At p n (x ++ s) → slice p n (n + length x) ≡ ok x
unfolding slice
slice-At p n x s a =
    let low : leb n (n + length x) ≡ true = leb_of (omega arith) in
    let high : leb (n + length x) (length p.bytes + length p.spare) ≡ true =
      leb_of (omega (arith, a.length_at, length-append x s)) in
    let span : n + length x - n ≡ length x = omega arith in
    let start : n ≤ length p.bytes = omega (arith, a.length_at) in
    rw (low, high, span, drop-spare n p.bytes p.spare start, a.bytes_at, append_assoc x s p.spare)
      (ap ok (take-append_exact (length x) x (s ++ p.spare) refl))

pub num_at-At :
    (width : ℕ) (p : Payload) (n k : ℕ) (s : List ℕ)
    → value 0 (put width k) ≡ k
    → At p n (put width k ++ s)
    → num_at width p n ≡ ok k
unfolding num_at
num_at-At width p n k s fits a =
    let e : slice p n (n + width) ≡ ok (put width k) =
      ap (λ w. slice p n (n + w)) (sym (length-put width k)) ∙ slice-At p n (put width k) s a in
    rw e (ap ok fits)

pub fits2 : (n : ℕ) → n < 2 ^ 16 → value 0 (put 2 n) ≡ n
fits2 n h = omega arith

pub fits4 : (n : ℕ) → n < 2 ^ 32 → value 0 (put 4 n) ≡ n
fits4 n h = omega arith

pub fits8 : (n : ℕ) → n < 2 ^ 64 → value 0 (put 8 n) ≡ n
fits8 n h = omega arith

-- Every string is shorter than the bound.
abbrev pub Shorter : ℕ → List Str → Type 0
Shorter bound [] = Unit
Shorter bound (s ∷ ss) = (length s < bound) × Shorter bound ss

-- the numbers of a width, as `put` and `value` see them
abbrev pub Fits : ℕ → ℕ → Type 0
Fits width bound = (n : ℕ) → n < bound → value 0 (put width n) ≡ n

-- the bytes up to the end of the payload
pub slice-end : (p : Payload) (n : ℕ) (x : List ℕ) → At p n x → slice p n (n + length x) ≡ ok x
slice-end p n x a = slice-At p n x [] (subst (At p n) (sym (append-nil x)) a)

pub no_length : (l : List ℕ) → length l ≡ 0 → l ≡ []
no_length [] e = refl
no_length (b ∷ l) e = absurd (omega (arith, e))

pub ltb-suc : (n : ℕ) → ltb 0 (suc n) ≡ true
ltb-suc n = ground arith

-- a string that a decoder reads only if its length is not 0, with room checked for it
pub string_if :
    (c : Bool) (e : Error) (p : Payload) (n : ℕ) (x : List ℕ)
    → c ≡ true
    → slice p n (n + length x) ≡ ok x
    → (if ltb 0 (length x) then (check c e >>= λ _. slice p n (n + length x)) else ok []) ≡ ok x
string_if c e p n [] h f = refl
string_if c e p n (b ∷ x) h f = rw (ltb-suc (length x), h) f

pub byte_at-At : (p : Payload) (n b : ℕ) (s : List ℕ) → At p n (b ∷ s) → byte_at p n ≡ ok b
unfolding byte_at
byte_at-At p n b s a = rw (get_elem?-drop n p.bytes b s a.bytes_at, byte_at) refl

pub At-byte : (p : Payload) (n b : ℕ) (s : List ℕ) → At p n (b ∷ s) → At p (n + 1) s
At-byte p n b s a = At-next p n (b ∷ []) s a

pub to_i64-to_u64 : (z : ℤ) → IsInt64 z → to_i64 (to_u64 z) ≡ z
to_i64-to_u64 (pos n) h = ground arith
to_i64-to_u64 (negsuc n) h = ground arith

pub to_u64-lt : (z : ℤ) → to_u64 z < 2 ^ 64
to_u64-lt (pos n) = omega arith
to_u64-lt (negsuc n) = omega arith

-- `z` is an `int32`.
abbrev pub IsInt32 : ℤ → Type 0
IsInt32 (pos n) = n < 2 ^ 31
IsInt32 (negsuc n) = n < 2 ^ 31

pub to_i32-to_u32 : (z : ℤ) → IsInt32 z → to_i32 (to_u32 z) ≡ z
to_i32-to_u32 (pos n) h = ground arith
to_i32-to_u32 (negsuc n) h = ground arith

pub to_u32-lt : (z : ℤ) → to_u32 z < 2 ^ 32
to_u32-lt (pos n) = omega arith
to_u32-lt (negsuc n) = omega arith

-- a sum of `uint16` that does not wrap round
pub no_wrap : (n : ℕ) → n < 2 ^ 16 → n % 2 ^ 16 ≡ n
no_wrap n h = omega arith

-- the number that the bytes at an offset hold, and what follows it
abbrev pub Num : ℕ → Payload → ℕ → ℕ → List ℕ → Type 0
Num width p n k s =
    (num_at width p n ≡ ok k) × At p (n + width) s × (leb (n + width) (len p) ≡ true)

pub Num-of :
    (width : ℕ) (p : Payload) (n k : ℕ) (s : List ℕ)
    → value 0 (put width k) ≡ k
    → At p n (put width k ++ s)
    → Num width p n k s
Num-of width p n k s fits a =
    let b = subst (λ w. At p (n + w) s) (length-put width k) (At-next p n (put width k) s a) in
    (num_at-At width p n k s fits a, b, leb_of (omega (arith, b.length_at)))

-- a string of a known length at an offset, and what follows it
abbrev pub Text : Payload → ℕ → Str → List ℕ → Type 0
Text p n x s =
    (slice p n (n + length x) ≡ ok x) × At p (n + length x) s × (leb (n + length x) (len p) ≡ true)

pub Text-of : (p : Payload) (n : ℕ) (x s : List ℕ) → At p n (x ++ s) → Text p n x s
Text-of p n x s a =
    let b = At-next p n x s a in (slice-At p n x s a, b, leb_of (omega (arith, b.length_at)))

-- a string that ends the payload
pub Text-end : (p : Payload) (n : ℕ) (x : List ℕ) → At p n x → Text p n x []
Text-end p n x a = Text-of p n x [] (subst (At p n) (sym (append-nil x)) a)

pub truth : (b : Bool) → not (byte_of b == 0) ≡ b
truth true = refl
truth false = refl

-- a request's first bytes: its command and a number
abbrev pub Head : Payload → ℕ → ℕ → List ℕ → Type 0
Head p cmd k s = (leb 3 (len p) ≡ true) × (byte_at p 0 ≡ ok cmd) × (num_at 2 p 1 ≡ ok k) × At p 3 s

pub Head-of :
    (p : Payload) (cmd k : ℕ) (s : List ℕ)
    → k < 2 ^ 16
    → At p 0 (cmd ∷ (put 2 k ++ s))
    → Head p cmd k s
Head-of p cmd k s h a =
    let (e, b, g) = Num-of 2 p 1 k s (fits2 k h) (At-byte p 0 cmd (put 2 k ++ s) a) in
    (g, byte_at-At p 0 cmd (put 2 k ++ s) a, e, b)

-- a response's first byte: its status
abbrev pub Opening : Payload → ℕ → List ℕ → Type 0
Opening p status s = (leb 1 (len p) ≡ true) × (byte_at p 0 ≡ ok status) × At p 1 s

pub Opening-of : (p : Payload) (status : ℕ) (s : List ℕ) → At p 0 (status ∷ s) → Opening p status s
Opening-of p status s a =
    let b = At-byte p 0 status s a in
    (leb_of (omega (arith, b.length_at)), byte_at-At p 0 status s a, b)

module _ (width bound : ℕ) (fits : Fits width bound) (p : Payload) where
  -- One string behind its length, and what follows it.
  pub string-At :
      (n : ℕ) (x s : List ℕ)
      → length x < bound
      → At p n (put width (length x) ++ (x ++ s))
      → (num_at width p n ≡ ok (length x))
        × (slice p (n + width) (n + width + length x) ≡ ok x)
        × At p (n + width + length x) s
        × (leb (n + width) (len p) ≡ true)
        × (leb (n + width + length x) (len p) ≡ true)
  string-At n x s h a =
      let b : At p (n + width) (x ++ s) =
        subst (λ w. At p (n + w) (x ++ s)) (length-put width (length x))
          (At-next p n (put width (length x)) (x ++ s) a) in
      let c = At-next p (n + width) x s b in
      (
        num_at-At width p n (length x) (x ++ s) (fits (length x) h) a,
        slice-At p (n + width) x s b,
        c,
        leb_of (omega (arith, b.length_at)),
        leb_of (omega (arith, c.length_at)),
      )

  regroup :
      {n : ℕ} (x : Str) (ss : List Str) (s : List ℕ)
      → At p n (put_strings width (x ∷ ss) ++ s)
      → At p n (put width (length x) ++ (x ++ (put_strings width ss ++ s)))
  regroup {n} x ss s a =
      subst (At p n)
        (append_assoc (put width (length x)) (x ++ put_strings width ss) s
          ∙ ap (λ t. put width (length x) ++ t) (append_assoc x (put_strings width ss) s))
        a

  pub get_strings-At :
      (ss : List Str) (n : ℕ) (s : List ℕ)
      → Shorter bound ss
      → At p n (put_strings width ss ++ s)
      → get_strings width (length ss) p n ≡ ok ss
  unfolding get_strings
  get_strings-At [] n s h a = refl
  get_strings-At (x ∷ ss) n s (hx, h) a =
      let (e, f, b, g, k) = string-At n x (put_strings width ss ++ s) hx (regroup x ss s a) in
      rw (g, e, k, f) (rw (get_strings-At ss (n + width + length x) s h b) refl)

  pub get_some-At :
      (ss : List Str) (n : ℕ) (s : List ℕ)
      → Shorter bound ss
      → At p n (put_strings width ss ++ s)
      → get_some width (length ss) p n ≡ ok ss
  unfolding get_some
  get_some-At [] n s h a = refl
  get_some-At (x ∷ ss) n s (hx, h) a =
      let (e, f, b, g, k) = string-At n x (put_strings width ss ++ s) hx (regroup x ss s a) in
      rw (g, e, k, f) (rw (get_some-At ss (n + width + length x) s h b) refl)

  pub get_strings-end :
      (ss : List Str) (n : ℕ)
      → Shorter bound ss
      → At p n (put_strings width ss)
      → get_strings width (length ss) p n ≡ ok ss
  get_strings-end ss n h a = get_strings-At ss n [] h (subst (At p n) (sym (append-nil _)) a)

  pub get_some-end :
      (ss : List Str) (n : ℕ)
      → Shorter bound ss
      → At p n (put_strings width ss)
      → get_some width (length ss) p n ≡ ok ss
  get_some-end ss n h a = get_some-At ss n [] h (subst (At p n) (sym (append-nil _)) a)
