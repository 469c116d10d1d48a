-- ===== src/Net/KvWire.antt =====
-- net/protocol.go: requests and responses of the string commands. A nil byte slice is `none`.
pub mod RoundTrip
use mcache.Prelude.{
  ℕ, ◌+◌, Bool, Option, none, some, List, [], ◌∷◌, ◌++◌, Str, ltb, leb, length, if◌then◌else◌,
}
use mcache.Prelude.Int.{ℤ}
use mcache.Net.Bytes.{
  Decoded, ok, ◌>>=◌, check, too_short, truncated, Payload, len, slice, byte_at, num_at, put,
  to_u64, to_i64,
}

pub record Request : Type 0 where
  pub cmd : ℕ
  pub key : Str
  pub value : Option (List ℕ)
  pub ttl : ℤ

pub record Response : Type 0 where
  pub status : ℕ
  pub value : Option (List ℕ)
  pub err_msg : Str

abbrev pub bytes_of : Option (List ℕ) → List ℕ
bytes_of none = []
bytes_of (some l) = l

-- `EncodePayload` of a request
pub encode_request : Request → List ℕ
encode_request req =
    let value = bytes_of req.value in
    req.cmd
    ∷ (put 2 (length req.key)
        ++ (put 4 (length value) ++ (put 8 (to_u64 req.ttl) ++ (req.key ++ value))))

-- `DecodeRequestPayload`. The room that the value needs is checked only if there is a key.
pub decode_request : Payload → Decoded Request
decode_request p = check (leb 15 (len p)) too_short >>= λ _. byte_at p 0 >>= λ cmd.
    num_at 2 p 1 >>= λ key_len. num_at 4 p 3 >>= λ val_len. num_at 8 p 7 >>= λ ttl.
    (if ltb 0 key_len
      then (check (leb (15 + key_len + val_len) (len p)) truncated >>= λ _.
          slice p 15 (15 + key_len))
      else ok [])
    >>= λ key.
        (if ltb 0 val_len
          then (slice p (15 + key_len) (15 + key_len + val_len) >>= λ v. ok (some v))
          else ok none)
        >>= λ value. ok (record { cmd = cmd; key = key; value = value; ttl = to_i64 ttl })

-- `EncodePayload` of a response
pub encode_response : Response → List ℕ
encode_response resp =
    let value = bytes_of resp.value in
    resp.status ∷ (put 4 (length value) ++ (put 2 (length resp.err_msg) ++ (value ++ resp.err_msg)))

-- `DecodeResponsePayload`
pub decode_response : Payload → Decoded Response
decode_response p = check (leb 7 (len p)) too_short >>= λ _. byte_at p 0 >>= λ status.
    num_at 4 p 1 >>= λ val_len. num_at 2 p 5 >>= λ err_len.
    (if ltb 0 val_len
      then (check (leb (7 + val_len + err_len) (len p)) truncated >>= λ _.
          slice p 7 (7 + val_len) >>= λ v. ok (some v))
      else ok none)
    >>= λ value.
        (if ltb 0 err_len then slice p (7 + val_len) (7 + val_len + err_len) else ok []) >>= λ msg.
        ok (record { status = status; value = value; err_msg = msg })
