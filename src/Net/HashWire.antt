-- ===== src/Net/HashWire.antt =====
-- net/protocol_ext.go: requests of the hash commands. `F` is `float64`, with the bits of its numbers.
pub mod RoundTrip
use mcache.Prelude.{
  ℕ, zero, suc, ◌+◌, ◌/◌, ◌^◌, Bool, List, [], ◌∷◌, ◌++◌, Str, leb, length, if◌then◌else◌,
}
use mcache.Prelude.Int.{ℤ, pos}
use mcache.Net.Bytes.{
  Decoded, ok, failed, ◌>>=◌, check, too_short, truncated, invalid_command, Payload, len, slice,
  byte_at, num_at, put, put_strings, get_strings, get_string, to_u64, to_i64, any_of,
}
use mcache.Net.Commands.{
  h_set, h_get, h_del, h_exists, h_get_all, h_keys, h_vals, h_len, h_str_len, h_incr_by,
  h_incr_by_float, hm_get, hm_set, h_set_nx,
}

pub record Request (F : Type 0) : Type 0 where
  pub cmd : ℕ
  pub key : Str
  pub field : Str
  pub value : Str
  pub fields : List Str
  pub fv_pairs : List Str
  pub delta_i64 : ℤ
  pub delta_f64 : F

-- the cases of the switches on the command of a request
pub data Layout : Type 0 where
  key_only key_field key_field_value key_fields key_field_int key_field_float key_pairs unknown :
      Layout

abbrev pub layout : ℕ → Layout
layout cmd =
    if any_of cmd (h_get_all ∷ h_keys ∷ h_vals ∷ h_len ∷ [])
    then key_only
    else if any_of cmd (h_get ∷ h_exists ∷ h_str_len ∷ [])
    then key_field
    else if any_of cmd (h_set ∷ h_set_nx ∷ [])
    then key_field_value
    else if any_of cmd (h_del ∷ hm_get ∷ [])
    then key_fields
    else if any_of cmd (h_incr_by ∷ [])
    then key_field_int
    else if any_of cmd (h_incr_by_float ∷ [])
    then key_field_float
    else if any_of cmd (hm_set ∷ [])
    then key_pairs
    else unknown

-- the pairs that `for i := 0; i+1 < len(l); i += 2` visits
abbrev pub whole_pairs : List Str → List Str
whole_pairs [] = []
whole_pairs (f ∷ []) = []
whole_pairs (f ∷ v ∷ l) = f ∷ v ∷ whole_pairs l

-- the loop of the decoder over pairs
unfoldable pub get_pairs : ℕ → Payload → ℕ → Decoded (List Str)
get_pairs zero p off = ok []
get_pairs (suc count) p off = get_string 2 p off >>= λ f.
    get_string 2 p f.1 >>= λ v. get_pairs count p v.1 >>= λ l. ok (f.0 ∷ v.0 ∷ l)

module _ (F : Type 0) (float64bits : F → ℕ) (float64frombits : ℕ → F) where
  -- `EncodeHashRequest`
  abbrev pub encode_as : Layout → Request F → List ℕ
  encode_as key_only req = req.cmd ∷ (put 2 (length req.key) ++ req.key)
  encode_as key_field req =
      req.cmd ∷ (put 2 (length req.key) ++ (put 2 (length req.field) ++ (req.key ++ req.field)))
  encode_as key_field_value req =
      req.cmd
      ∷ (put 2 (length req.key)
          ++ (put 2 (length req.field)
              ++ (put 4 (length req.value) ++ (req.key ++ (req.field ++ req.value)))))
  encode_as key_fields req =
      req.cmd
      ∷ (put 2 (length req.key)
          ++ (put 2 (length req.fields) ++ (req.key ++ put_strings 2 req.fields)))
  encode_as key_field_int req =
      req.cmd
      ∷ (put 2 (length req.key)
          ++ (put 2 (length req.field) ++ (put 8 (to_u64 req.delta_i64) ++ (req.key ++ req.field))))
  encode_as key_field_float req =
      req.cmd
      ∷ (put 2 (length req.key)
          ++ (put 2 (length req.field)
              ++ (put 8 (float64bits req.delta_f64) ++ (req.key ++ req.field))))
  encode_as key_pairs req =
      req.cmd
      ∷ (put 2 (length req.key)
          ++ (put 2 (length req.fv_pairs / 2)
              ++ (req.key ++ put_strings 2 (whole_pairs req.fv_pairs))))
  encode_as unknown req = []

  unfoldable pub encode_request : Request F → List ℕ
  encode_request req = encode_as (layout req.cmd) req

  -- Go's zero values
  abbrev pub blank : ℕ → Request F
  blank cmd = record {
    cmd = cmd;
    key = [];
    field = [];
    value = [];
    fields = [];
    fv_pairs = [];
    delta_i64 = pos 0;
    delta_f64 = float64frombits 0;
  }

  -- `DecodeHashRequest`
  abbrev pub decode_as : Layout → Payload → ℕ → ℕ → Decoded (Request F)
  decode_as key_only p cmd key_len = check (leb (3 + key_len) (len p)) truncated >>= λ _.
      slice p 3 (3 + key_len) >>= λ key. ok (record (blank cmd) { key = key })
  decode_as key_field p cmd key_len = check (leb 5 (len p)) too_short >>= λ _.
      num_at 2 p 3 >>= λ field_len. check (leb (5 + key_len + field_len) (len p)) truncated >>= λ _.
      slice p 5 (5 + key_len) >>= λ key.
      slice p (5 + key_len) (5 + key_len + field_len) >>= λ field.
      ok (record (blank cmd) { key = key; field = field })
  decode_as key_field_value p cmd key_len = check (leb 9 (len p)) too_short >>= λ _.
      num_at 2 p 3 >>= λ field_len. num_at 4 p 5 >>= λ value_len.
      check (leb (9 + key_len + field_len + value_len) (len p)) truncated >>= λ _.
      slice p 9 (9 + key_len) >>= λ key.
      slice p (9 + key_len) (9 + key_len + field_len) >>= λ field.
      slice p (9 + key_len + field_len) (9 + key_len + field_len + value_len) >>= λ value.
      ok (record (blank cmd) { key = key; field = field; value = value })
  decode_as key_fields p cmd key_len = check (leb 5 (len p)) too_short >>= λ _.
      num_at 2 p 3 >>= λ num_fields. check (leb (5 + key_len) (len p)) truncated >>= λ _.
      slice p 5 (5 + key_len) >>= λ key. get_strings 2 num_fields p (5 + key_len) >>= λ fields.
      ok (record (blank cmd) { key = key; fields = fields })
  decode_as key_field_int p cmd key_len = check (leb 13 (len p)) too_short >>= λ _.
      num_at 2 p 3 >>= λ field_len. num_at 8 p 5 >>= λ delta.
      check (leb (13 + key_len + field_len) (len p)) truncated >>= λ _.
      slice p 13 (13 + key_len) >>= λ key.
      slice p (13 + key_len) (13 + key_len + field_len) >>= λ field.
      ok (record (blank cmd) { key = key; field = field; delta_i64 = to_i64 delta })
  decode_as key_field_float p cmd key_len = check (leb 13 (len p)) too_short >>= λ _.
      num_at 2 p 3 >>= λ field_len. num_at 8 p 5 >>= λ delta.
      check (leb (13 + key_len + field_len) (len p)) truncated >>= λ _.
      slice p 13 (13 + key_len) >>= λ key.
      slice p (13 + key_len) (13 + key_len + field_len) >>= λ field.
      ok (record (blank cmd) { key = key; field = field; delta_f64 = float64frombits delta })
  decode_as key_pairs p cmd key_len = check (leb 5 (len p)) too_short >>= λ _.
      num_at 2 p 3 >>= λ num_pairs. check (leb (5 + key_len) (len p)) truncated >>= λ _.
      slice p 5 (5 + key_len) >>= λ key. get_pairs num_pairs p (5 + key_len) >>= λ pairs.
      ok (record (blank cmd) { key = key; fv_pairs = pairs })
  decode_as unknown p cmd key_len = failed invalid_command

  unfoldable pub decode_request : Payload → Decoded (Request F)
  decode_request p = check (leb 3 (len p)) too_short >>= λ _.
      byte_at p 0 >>= λ cmd. num_at 2 p 1 >>= λ key_len. decode_as (layout cmd) p cmd key_len
