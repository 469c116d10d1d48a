-- ===== src/Net/KvWire/RoundTrip.antt =====
-- net/protocol.go: string commands encoded and decoded again.
use mcache.Prelude.{
  ℕ, ◌+◌, ◌^◌, ◌≡◌, ◌<◌, refl, Bool, true, Option, none, some, List, [], ◌∷◌, ltb, leb, length,
  if◌then◌else◌, arith,
}
use mcache.Prelude.Decimal.{IsInt64}
use mcache.Net.Bytes.{Error, ok, ◌>>=◌, check, truncated, Payload, len, slice, put, to_u64}
use mcache.Net.Bytes.Views.{
  At-start, At-next, At-byte, byte_at-At, num_at-At, slice-At, slice-end, string_if, leb_of,
  ltb-suc, fits2, fits4, fits8, to_i64-to_u64, to_u64-lt,
}
use mcache.Net.KvWire.{
  Request, Response, bytes_of, encode_request, decode_request, encode_response, decode_response,
}

-- an empty value arrives as nil
abbrev pub arrived : Option (List ℕ) → Option (List ℕ)
arrived none = none
arrived (some []) = none
arrived (some (b ∷ l)) = some (b ∷ l)

value_if :
    (c : Bool) (e : Error) (p : Payload) (n : ℕ) (v : Option (List ℕ))
    → c ≡ true
    → slice p n (n + length (bytes_of v)) ≡ ok (bytes_of v)
    → (if ltb 0 (length (bytes_of v))
        then (check c e >>= λ _. slice p n (n + length (bytes_of v)) >>= λ x. ok (some x))
        else ok none)
      ≡ ok (arrived v)
value_if c e p n none h f = refl
value_if c e p n (some []) h f = refl
value_if c e p n (some (b ∷ x)) h f = rw (ltb-suc (length x), h, f) refl

-- The lengths have room in their fields, and the time to live is an `int64`.
pub record IsSendable (req : Request) : Type 0 where
  pub key : length req.key < 2 ^ 16
  pub value : length (bytes_of req.value) < 2 ^ 32
  pub ttl : IsInt64 req.ttl

-- A request whose lengths and time to live have room in their fields is decoded as it was
-- encoded, whatever the buffer holds behind it, but an empty value comes back as nil.
pub decode_request-encode_request :
    (req : Request) (spare : List ℕ)
    → IsSendable req
    → decode_request (record { bytes = encode_request req; spare = spare })
      ≡ ok (record req { value = arrived req.value })
unfolding encode_request decode_request
decode_request-encode_request req spare i =
    let v = bytes_of req.value in
    let p : Payload = record { bytes = encode_request req; spare = spare } in
    let a0 = At-start p in
    let a1 = At-byte p 0 req.cmd _ a0 in
    let a3 = At-next p 1 (put 2 (length req.key)) _ a1 in
    let a7 = At-next p 3 (put 4 (length v)) _ a3 in
    let a15 = At-next p 7 (put 8 (to_u64 req.ttl)) _ a7 in
    let key = req.key in
    let c = At-next p 15 key v a15 in
    let whole : leb 15 (len p) ≡ true = leb_of (omega (arith, a15.length_at)) in
    let room : leb (15 + length key + length v) (len p) ≡ true =
      leb_of (omega (arith, c.length_at)) in
    rw
      (
        whole,
        byte_at-At p 0 req.cmd _ a0,
        num_at-At 2 p 1 (length key) _ (fits2 _ i.key) a1,
        num_at-At 4 p 3 (length v) _ (fits4 _ i.value) a3,
        num_at-At 8 p 7 (to_u64 req.ttl) _ (fits8 _ (to_u64-lt req.ttl)) a7,
      )
      (rw
        (
          string_if (leb (15 + length key + length v) (len p)) truncated p 15 key room
              (slice-At p 15 key v a15),
          value_if true truncated p (15 + length key) req.value refl
              (slice-end p (15 + length key) v c),
          to_i64-to_u64 req.ttl i.ttl,
        )
        refl)

-- The lengths of a response have room in their fields.
pub record IsAnswer (resp : Response) : Type 0 where
  pub value : length (bytes_of resp.value) < 2 ^ 32
  pub err_msg : length resp.err_msg < 2 ^ 16

-- A response whose lengths have room in their fields is decoded as it was encoded, whatever the
-- buffer holds behind it, but an empty value comes back as nil.
pub decode_response-encode_response :
    (resp : Response) (spare : List ℕ)
    → IsAnswer resp
    → decode_response (record { bytes = encode_response resp; spare = spare })
      ≡ ok (record resp { value = arrived resp.value })
unfolding encode_response decode_response
decode_response-encode_response resp spare i =
    let v = bytes_of resp.value in
    let p : Payload = record { bytes = encode_response resp; spare = spare } in
    let msg = resp.err_msg in
    let a0 = At-start p in
    let a1 = At-byte p 0 resp.status _ a0 in
    let a5 = At-next p 1 (put 4 (length v)) _ a1 in
    let a7 = At-next p 5 (put 2 (length msg)) _ a5 in
    let c = At-next p 7 v msg a7 in
    let whole : leb 7 (len p) ≡ true = leb_of (omega (arith, a7.length_at)) in
    let room : leb (7 + length v + length msg) (len p) ≡ true =
      leb_of (omega (arith, c.length_at)) in
    rw
      (
        whole,
        byte_at-At p 0 resp.status _ a0,
        num_at-At 4 p 1 (length v) _ (fits4 _ i.value) a1,
        num_at-At 2 p 5 (length msg) _ (fits2 _ i.err_msg) a5,
      )
      (rw
        (value_if (leb (7 + length v + length msg) (len p)) truncated p 7 resp.value room
          (slice-At p 7 v msg a7))
        (rw (string_if true truncated p (7 + length v) msg refl (slice-end p (7 + length v) msg c))
          refl))
