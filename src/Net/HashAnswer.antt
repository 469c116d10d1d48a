-- ===== src/Net/HashAnswer.antt =====
-- net/protocol_ext.go: responses to the hash commands. A response with the error's status has the
-- same layout for all of them. The map of a response is in the order in which `range` visits it.
pub mod RoundTrip
use mcache.Prelude.{
  ℕ, zero, suc, ◌+◌, Bool, true, false, Option, none, some, List, [], ◌∷◌, ◌++◌, Str, str_dec, ltb,
  leb, length, replicate, if◌then◌else◌, ◌==◌, ◌&&◌, not,
}
use mcache.Prelude.Int.{ℤ, pos}
use mcache.Prelude.Dict.{Dict, insert}
use mcache.Net.Bytes.{
  Decoded, ok, ◌>>=◌, check, too_short, Payload, len, slice, byte_at, num_at, put, put_strings,
  get_some, to_u64, to_i64, any_of, byte_of,
}
use mcache.Net.Commands.{
  h_set, h_get, h_del, h_exists, h_get_all, h_keys, h_vals, h_len, h_str_len, h_incr_by,
  h_incr_by_float, hm_get, hm_set, h_set_nx, status_err,
}

pub record Response (F : Type 0) : Type 0 where
  pub cmd : ℕ
  pub status : ℕ
  pub int_result : ℤ
  pub bool_result : Bool
  pub str_result : Str
  pub map_result : Dict Str Str
  pub slice_result : List Str
  pub any_slice : List (Option Str)
  pub float_result : F
  pub err_msg : Str

-- the cases of the switches on the command of a response
pub data Layout : Type 0 where
  number flag text pairs strings float values empty unknown : Layout

abbrev pub layout : ℕ → Layout
layout cmd =
    if any_of cmd (h_set ∷ h_del ∷ h_len ∷ h_str_len ∷ h_incr_by ∷ [])
    then number
    else if any_of cmd (h_exists ∷ h_set_nx ∷ [])
    then flag
    else if any_of cmd (h_get ∷ [])
    then text
    else if any_of cmd (h_get_all ∷ [])
    then pairs
    else if any_of cmd (h_keys ∷ h_vals ∷ [])
    then strings
    else if any_of cmd (h_incr_by_float ∷ [])
    then float
    else if any_of cmd (hm_get ∷ [])
    then values
    else if any_of cmd (hm_set ∷ [])
    then empty
    else unknown

-- an error's response: its status, and its message behind its length
abbrev pub encode_error : Str → List ℕ
encode_error msg = status_err ∷ (put 2 (length msg) ++ msg)

-- the message in an error's response, if all of it is there
unfoldable pub decode_error : Payload → Decoded Str
decode_error p =
    if leb 3 (len p)
    then (num_at 2 p 1 >>= λ n. if leb (3 + n) (len p) then slice p 3 (3 + n) else ok [])
    else ok []

-- a text that is read only if it is not empty and all there
unfoldable pub decode_text : Payload → Decoded Str
decode_text p = check (leb 5 (len p)) too_short >>= λ _.
    num_at 4 p 1 >>= λ n. if ltb 0 n && leb (5 + n) (len p) then slice p 5 (5 + n) else ok []

-- the keys and values of a map
abbrev pub put_pairs : Dict Str Str → List ℕ
put_pairs [] = []
put_pairs (e ∷ m) = put 2 (length e.0) ++ (e.0 ++ (put 4 (length e.1) ++ (e.1 ++ put_pairs m)))

-- the loop that reads them into a map, up to where the payload ends
unfoldable pub get_map : ℕ → Payload → ℕ → Dict Str Str → Decoded (Dict Str Str)
get_map zero p off m = ok m
get_map (suc count) p off m =
    if leb (off + 2) (len p)
    then (num_at 2 p off >>= λ kl.
        if leb (off + 2 + kl) (len p)
        then (slice p (off + 2) (off + 2 + kl) >>= λ k.
            if leb (off + 2 + kl + 4) (len p)
            then (num_at 4 p (off + 2 + kl) >>= λ vl.
                if leb (off + 2 + kl + 4 + vl) (len p)
                then (slice p (off + 2 + kl + 4) (off + 2 + kl + 4 + vl) >>= λ v.
                    get_map count p (off + 2 + kl + 4 + vl) (insert str_dec k v m))
                else ok m)
            else ok m)
        else ok m)
    else ok m

-- the values of an answer to `HMGet`: a byte for nil, or a byte, a length and a text
abbrev pub put_values : List (Option Str) → List ℕ
put_values [] = []
put_values (none ∷ vs) = 0 ∷ put_values vs
put_values (some v ∷ vs) = 1 ∷ (put 4 (length v) ++ (v ++ put_values vs))

-- the loop that reads them; where the payload ends, the rest stays nil
unfoldable pub get_values : ℕ → Payload → ℕ → Decoded (List (Option Str))
get_values zero p off = ok []
get_values (suc count) p off =
    if leb (off + 1) (len p)
    then (byte_at p off >>= λ has_value.
        if has_value == 0
        then (get_values count p (off + 1) >>= λ vs. ok (none ∷ vs))
        else if leb (off + 1 + 4) (len p)
        then (num_at 4 p (off + 1) >>= λ vl.
            if leb (off + 1 + 4 + vl) (len p)
            then (slice p (off + 1 + 4) (off + 1 + 4 + vl) >>= λ v.
                get_values count p (off + 1 + 4 + vl) >>= λ vs. ok (some v ∷ vs))
            else ok (replicate (suc count) none))
        else ok (replicate (suc count) none))
    else ok (replicate (suc count) none)

module _ (F : Type 0) (float64bits : F → ℕ) (float64frombits : ℕ → F) where
  -- `EncodeHashResponse`
  abbrev pub encode_as : Layout → Response F → List ℕ
  encode_as number resp = resp.status ∷ put 8 (to_u64 resp.int_result)
  encode_as flag resp = resp.status ∷ byte_of resp.bool_result ∷ []
  encode_as text resp = resp.status ∷ (put 4 (length resp.str_result) ++ resp.str_result)
  encode_as pairs resp = resp.status ∷ (put 4 (length resp.map_result) ++ put_pairs resp.map_result)
  encode_as strings resp =
      resp.status ∷ (put 4 (length resp.slice_result) ++ put_strings 2 resp.slice_result)
  encode_as float resp = resp.status ∷ put 8 (float64bits resp.float_result)
  encode_as values resp = resp.status ∷ (put 4 (length resp.any_slice) ++ put_values resp.any_slice)
  encode_as empty resp = resp.status ∷ []
  encode_as unknown resp = []

  unfoldable pub encode_response : Response F → List ℕ
  encode_response resp =
      if resp.status == status_err
      then encode_error resp.err_msg
      else encode_as (layout resp.cmd) resp

  -- Go's zero values
  abbrev pub blank : ℕ → ℕ → Response F
  blank cmd status = record {
    cmd = cmd;
    status = status;
    int_result = pos 0;
    bool_result = false;
    str_result = [];
    map_result = [];
    slice_result = [];
    any_slice = [];
    float_result = float64frombits 0;
    err_msg = [];
  }

  -- `DecodeHashResponse`
  abbrev pub decode_as : Layout → Payload → Response F → Decoded (Response F)
  decode_as number p resp = check (leb 9 (len p)) too_short >>= λ _.
      num_at 8 p 1 >>= λ n. ok (record resp { int_result = to_i64 n })
  decode_as flag p resp = check (leb 2 (len p)) too_short >>= λ _.
      byte_at p 1 >>= λ b. ok (record resp { bool_result = not (b == 0) })
  decode_as text p resp = decode_text p >>= λ s. ok (record resp { str_result = s })
  decode_as pairs p resp = check (leb 5 (len p)) too_short >>= λ _.
      num_at 4 p 1 >>= λ n. get_map n p 5 [] >>= λ m. ok (record resp { map_result = m })
  decode_as strings p resp = check (leb 5 (len p)) too_short >>= λ _.
      num_at 4 p 1 >>= λ n. get_some 2 n p 5 >>= λ ss. ok (record resp { slice_result = ss })
  decode_as float p resp = check (leb 9 (len p)) too_short >>= λ _.
      num_at 8 p 1 >>= λ n. ok (record resp { float_result = float64frombits n })
  decode_as values p resp = check (leb 5 (len p)) too_short >>= λ _.
      num_at 4 p 1 >>= λ n. get_values n p 5 >>= λ vs. ok (record resp { any_slice = vs })
  decode_as empty p resp = ok resp
  decode_as unknown p resp = ok resp

  unfoldable pub decode_response : Payload → ℕ → Decoded (Response F)
  decode_response p cmd = check (leb 1 (len p)) too_short >>= λ _. byte_at p 0 >>= λ status.
      if status == status_err
      then (decode_error p >>= λ msg. ok (record (blank cmd status) { err_msg = msg }))
      else decode_as (layout cmd) p (blank cmd status)
