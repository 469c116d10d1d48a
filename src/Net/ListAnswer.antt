-- ===== src/Net/ListAnswer.antt =====
-- net/protocol_ext.go: responses to the list commands. Those with the error's status, and those with
-- a text, are laid out as for the hash commands.
pub mod RoundTrip
use mcache.Prelude.{
  ℕ, zero, suc, ◌+◌, Bool, true, false, List, [], ◌∷◌, ◌++◌, Str, leb, length, if◌then◌else◌, ◌==◌,
  not,
}
use mcache.Prelude.Int.{ℤ, pos}
use mcache.Net.Bytes.{
  Decoded, ok, ◌>>=◌, check, too_short, Payload, len, byte_at, num_at, put, put_strings, get_some,
  to_u64, to_i64, any_of, byte_of,
}
use mcache.Net.HashAnswer.{encode_error, decode_error, decode_text}
use mcache.Net.Commands.{
  l_push, r_push, l_pop, r_pop, l_len, l_range, l_index, l_set, l_rem, l_trim, l_insert, bl_pop,
  br_pop, l_pos, status_err,
}

pub record Response : Type 0 where
  pub cmd : ℕ
  pub status : ℕ
  pub int_result : ℤ
  pub bool_result : Bool
  pub str_result : Str
  pub slice_result : List Str
  pub pos_result : List ℤ
  pub err_msg : Str

-- the cases of the switches on the command of a response
pub data Layout : Type 0 where
  number text strings flag empty positions unknown : Layout

abbrev pub layout : ℕ → Layout
layout cmd =
    if any_of cmd (l_push ∷ r_push ∷ l_len ∷ l_rem ∷ l_insert ∷ [])
    then number
    else if any_of cmd (l_pop ∷ r_pop ∷ bl_pop ∷ br_pop ∷ l_index ∷ [])
    then text
    else if any_of cmd (l_range ∷ [])
    then strings
    else if any_of cmd (l_set ∷ [])
    then flag
    else if any_of cmd (l_trim ∷ [])
    then empty
    else if any_of cmd (l_pos ∷ [])
    then positions
    else unknown

abbrev pub put_numbers : List ℤ → List ℕ
put_numbers [] = []
put_numbers (z ∷ zs) = put 8 (to_u64 z) ++ put_numbers zs

-- the loop that reads positions, up to where the payload ends
unfoldable pub get_numbers : ℕ → Payload → ℕ → Decoded (List ℤ)
get_numbers zero p off = ok []
get_numbers (suc count) p off =
    if leb (off + 8) (len p)
    then (num_at 8 p off >>= λ n. get_numbers count p (off + 8) >>= λ zs. ok (to_i64 n ∷ zs))
    else ok []

-- `EncodeListResponse`
abbrev pub encode_as : Layout → Response → List ℕ
encode_as number resp = resp.status ∷ put 8 (to_u64 resp.int_result)
encode_as text resp = resp.status ∷ (put 4 (length resp.str_result) ++ resp.str_result)
encode_as strings resp =
    resp.status ∷ (put 4 (length resp.slice_result) ++ put_strings 2 resp.slice_result)
encode_as flag resp = resp.status ∷ byte_of resp.bool_result ∷ []
encode_as empty resp = resp.status ∷ []
encode_as positions resp =
    resp.status ∷ (put 4 (length resp.pos_result) ++ put_numbers resp.pos_result)
encode_as unknown resp = []

unfoldable pub encode_response : Response → List ℕ
encode_response resp =
    if resp.status == status_err
    then encode_error resp.err_msg
    else encode_as (layout resp.cmd) resp

-- Go's zero values
abbrev pub blank : ℕ → ℕ → Response
blank cmd status = record {
  cmd = cmd;
  status = status;
  int_result = pos 0;
  bool_result = false;
  str_result = [];
  slice_result = [];
  pos_result = [];
  err_msg = [];
}

-- `DecodeListResponse`
abbrev pub decode_as : Layout → Payload → Response → Decoded Response
decode_as number p resp = check (leb 9 (len p)) too_short >>= λ _.
    num_at 8 p 1 >>= λ n. ok (record resp { int_result = to_i64 n })
decode_as text p resp = decode_text p >>= λ s. ok (record resp { str_result = s })
decode_as strings p resp = check (leb 5 (len p)) too_short >>= λ _.
    num_at 4 p 1 >>= λ n. get_some 2 n p 5 >>= λ ss. ok (record resp { slice_result = ss })
decode_as flag p resp = check (leb 2 (len p)) too_short >>= λ _.
    byte_at p 1 >>= λ b. ok (record resp { bool_result = not (b == 0) })
decode_as empty p resp = ok resp
decode_as positions p resp = check (leb 5 (len p)) too_short >>= λ _.
    num_at 4 p 1 >>= λ n. get_numbers n p 5 >>= λ zs. ok (record resp { pos_result = zs })
decode_as unknown p resp = ok resp

unfoldable pub decode_response : Payload → ℕ → Decoded Response
decode_response p cmd = check (leb 1 (len p)) too_short >>= λ _. byte_at p 0 >>= λ status.
    if status == status_err
    then (decode_error p >>= λ msg. ok (record (blank cmd status) { err_msg = msg }))
    else decode_as (layout cmd) p (blank cmd status)
