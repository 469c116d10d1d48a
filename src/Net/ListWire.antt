-- ===== src/Net/ListWire.antt =====
-- net/protocol_ext.go: requests of the list commands. The layout of a payload is chosen by its command.
pub mod RoundTrip
use mcache.Prelude.{
  ℕ, ◌+◌, Bool, false, List, [], ◌∷◌, ◌++◌, Str, leb, length, if◌then◌else◌, ◌==◌, not,
}
use mcache.Prelude.Int.{ℤ, pos}
use mcache.Net.Bytes.{
  Decoded, ok, failed, ◌>>=◌, check, too_short, truncated, invalid_command, Payload, len, slice,
  byte_at, num_at, put, put_strings, get_strings, make_strings, to_u64, to_i64, any_of, byte_of,
}
use mcache.Net.Commands.{
  l_push, r_push, l_pop, r_pop, l_len, l_range, l_index, l_set, l_rem, l_trim, l_insert, bl_pop,
  br_pop, l_pos,
}

pub record Request : Type 0 where
  pub cmd : ℕ
  pub key : Str
  pub elements : List Str
  pub value : Str
  pub index : ℤ
  pub start : ℤ
  pub stop : ℤ
  pub count : ℤ
  pub pivot : Str
  pub before : Bool
  pub timeout : ℤ
  pub rank : ℤ
  pub max_len : ℤ

-- the cases of the switches on the command of a request
pub data Layout : Type 0 where
  key_only key_elems key_span key_index key_index_value key_count_value key_pivot_value key_timeout
        key_position unknown :
      Layout

abbrev pub layout : ℕ → Layout
layout cmd =
    if any_of cmd (l_pop ∷ r_pop ∷ l_len ∷ [])
    then key_only
    else if any_of cmd (l_push ∷ r_push ∷ [])
    then key_elems
    else if any_of cmd (l_range ∷ l_trim ∷ [])
    then key_span
    else if any_of cmd (l_index ∷ [])
    then key_index
    else if any_of cmd (l_set ∷ [])
    then key_index_value
    else if any_of cmd (l_rem ∷ [])
    then key_count_value
    else if any_of cmd (l_insert ∷ [])
    then key_pivot_value
    else if any_of cmd (bl_pop ∷ br_pop ∷ [])
    then key_timeout
    else if any_of cmd (l_pos ∷ [])
    then key_position
    else unknown

-- `EncodeListRequest`
abbrev pub encode_as : Layout → Request → List ℕ
encode_as key_only req = req.cmd ∷ (put 2 (length req.key) ++ req.key)
encode_as key_elems req =
    req.cmd
    ∷ (put 2 (length req.key)
        ++ (put 4 (length req.elements) ++ (req.key ++ put_strings 2 req.elements)))
encode_as key_span req =
    req.cmd
    ∷ (put 2 (length req.key) ++ (put 8 (to_u64 req.start) ++ (put 8 (to_u64 req.stop) ++ req.key)))
encode_as key_index req =
    req.cmd ∷ (put 2 (length req.key) ++ (put 8 (to_u64 req.index) ++ req.key))
encode_as key_index_value req =
    req.cmd
    ∷ (put 2 (length req.key)
        ++ (put 8 (to_u64 req.index) ++ (put 4 (length req.value) ++ (req.key ++ req.value))))
encode_as key_count_value req =
    req.cmd
    ∷ (put 2 (length req.key)
        ++ (put 8 (to_u64 req.count) ++ (put 4 (length req.value) ++ (req.key ++ req.value))))
encode_as key_pivot_value req =
    req.cmd
    ∷ (put 2 (length req.key)
        ++ ((byte_of req.before)
            ∷ (put 2 (length req.pivot)
                ++ (put 4 (length req.value) ++ (req.key ++ (req.pivot ++ req.value))))))
encode_as key_timeout req =
    req.cmd ∷ (put 2 (length req.key) ++ (put 8 (to_u64 req.timeout) ++ req.key))
encode_as key_position req =
    req.cmd
    ∷ (put 2 (length req.key)
        ++ (put 8 (to_u64 req.rank)
            ++ (put 8 (to_u64 req.count)
                ++ (put 8 (to_u64 req.max_len)
                    ++ (put 4 (length req.value) ++ (req.key ++ req.value))))))
encode_as unknown req = []

unfoldable pub encode_request : Request → List ℕ
encode_request req = encode_as (layout req.cmd) req

-- Go's zero values
abbrev pub blank : ℕ → Request
blank cmd = record {
  cmd = cmd;
  key = [];
  elements = [];
  value = [];
  index = pos 0;
  start = pos 0;
  stop = pos 0;
  count = pos 0;
  pivot = [];
  before = false;
  timeout = pos 0;
  rank = pos 0;
  max_len = pos 0;
}

-- `DecodeListRequest`
abbrev pub decode_as : Layout → Payload → ℕ → ℕ → Decoded Request
decode_as key_only p cmd key_len = check (leb (3 + key_len) (len p)) truncated >>= λ _.
    slice p 3 (3 + key_len) >>= λ key. ok (record (blank cmd) { key = key })
decode_as key_elems p cmd key_len = check (leb 7 (len p)) too_short >>= λ _.
    num_at 4 p 3 >>= λ num_elems. check (leb (7 + key_len) (len p)) truncated >>= λ _.
    slice p 7 (7 + key_len) >>= λ key. make_strings num_elems >>= λ _.
    get_strings 2 num_elems p (7 + key_len) >>= λ elements.
    ok (record (blank cmd) { key = key; elements = elements })
decode_as key_span p cmd key_len = check (leb 19 (len p)) too_short >>= λ _.
    num_at 8 p 3 >>= λ start. num_at 8 p 11 >>= λ stop.
    check (leb (19 + key_len) (len p)) truncated >>= λ _. slice p 19 (19 + key_len) >>= λ key.
    ok (record (blank cmd) { key = key; start = to_i64 start; stop = to_i64 stop })
decode_as key_index p cmd key_len = check (leb 11 (len p)) too_short >>= λ _.
    num_at 8 p 3 >>= λ index. check (leb (11 + key_len) (len p)) truncated >>= λ _.
    slice p 11 (11 + key_len) >>= λ key. ok (record (blank cmd) { key = key; index = to_i64 index })
decode_as key_index_value p cmd key_len = check (leb 15 (len p)) too_short >>= λ _.
    num_at 8 p 3 >>= λ index. num_at 4 p 11 >>= λ value_len.
    check (leb (15 + key_len + value_len) (len p)) truncated >>= λ _.
    slice p 15 (15 + key_len) >>= λ key.
    slice p (15 + key_len) (15 + key_len + value_len) >>= λ value.
    ok (record (blank cmd) { key = key; value = value; index = to_i64 index })
decode_as key_count_value p cmd key_len = check (leb 15 (len p)) too_short >>= λ _.
    num_at 8 p 3 >>= λ count. num_at 4 p 11 >>= λ value_len.
    check (leb (15 + key_len + value_len) (len p)) truncated >>= λ _.
    slice p 15 (15 + key_len) >>= λ key.
    slice p (15 + key_len) (15 + key_len + value_len) >>= λ value.
    ok (record (blank cmd) { key = key; value = value; count = to_i64 count })
decode_as key_pivot_value p cmd key_len = check (leb 10 (len p)) too_short >>= λ _.
    byte_at p 3 >>= λ before. num_at 2 p 4 >>= λ pivot_len. num_at 4 p 6 >>= λ value_len.
    check (leb (10 + key_len + pivot_len + value_len) (len p)) truncated >>= λ _.
    slice p 10 (10 + key_len) >>= λ key.
    slice p (10 + key_len) (10 + key_len + pivot_len) >>= λ pivot.
    slice p (10 + key_len + pivot_len) (10 + key_len + pivot_len + value_len) >>= λ value.
    ok (record (blank cmd) { key = key; pivot = pivot; value = value; before = not (before == 0) })
decode_as key_timeout p cmd key_len = check (leb 11 (len p)) too_short >>= λ _.
    num_at 8 p 3 >>= λ timeout. check (leb (11 + key_len) (len p)) truncated >>= λ _.
    slice p 11 (11 + key_len) >>= λ key.
    ok (record (blank cmd) { key = key; timeout = to_i64 timeout })
decode_as key_position p cmd key_len = check (leb 31 (len p)) too_short >>= λ _.
    num_at 8 p 3 >>= λ rank. num_at 8 p 11 >>= λ count. num_at 8 p 19 >>= λ max_len.
    num_at 4 p 27 >>= λ value_len. check (leb (31 + key_len + value_len) (len p)) truncated >>= λ _.
    slice p 31 (31 + key_len) >>= λ key.
    slice p (31 + key_len) (31 + key_len + value_len) >>= λ value. ok (record (blank cmd) {
      key = key;
      value = value;
      rank = to_i64 rank;
      count = to_i64 count;
      max_len = to_i64 max_len;
    })
decode_as unknown p cmd key_len = failed invalid_command

unfoldable pub decode_request : Payload → Decoded Request
decode_request p = check (leb 3 (len p)) too_short >>= λ _.
    byte_at p 0 >>= λ cmd. num_at 2 p 1 >>= λ key_len. decode_as (layout cmd) p cmd key_len
