-- ===== src/Net/SetWire.antt =====
-- net/protocol.go: requests and responses of the set commands. The layout of a payload is chosen by
-- its command.
pub mod RoundTrip
use mcache.Prelude.{
  ℕ, ◌+◌, ◌%◌, ◌^◌, Bool, false, List, [], ◌∷◌, ◌++◌, Str, ltb, leb, length, if◌then◌else◌, ◌==◌,
  ◌&&◌, not, drop,
}
use mcache.Prelude.Int.{ℤ, pos}
use mcache.Net.Bytes.{
  Decoded, ok, failed, ◌>>=◌, check, too_short, truncated, invalid_command, Payload, len, slice,
  byte_at, num_at, put, put_strings, get_strings, get_some, to_u32, to_i32, any_of, first_of,
  byte_of,
}
use mcache.Net.Commands.{
  s_add, s_rem, s_is_member, s_members, s_card, s_pop, s_rand_member, s_union, s_inter, s_diff,
  status_err,
}

pub record Request : Type 0 where
  pub cmd : ℕ
  pub key : Str
  pub elems : List Str
  pub count : ℤ
  pub keys : List Str

pub record Response : Type 0 where
  pub cmd : ℕ
  pub status : ℕ
  pub changed : ℕ
  pub is_member : Bool
  pub card : ℕ
  pub elems : List Str
  pub err_msg : Str

-- the cases of the switches on the command of a request
pub data Layout : Type 0 where
  key_only key_elems key_elem key_count all_keys unknown : Layout

abbrev pub layout : ℕ → Layout
layout cmd =
    if any_of cmd (s_members ∷ s_card ∷ s_pop ∷ [])
    then key_only
    else if any_of cmd (s_add ∷ s_rem ∷ [])
    then key_elems
    else if any_of cmd (s_is_member ∷ [])
    then key_elem
    else if any_of cmd (s_rand_member ∷ [])
    then key_count
    else if any_of cmd (s_union ∷ s_inter ∷ s_diff ∷ [])
    then all_keys
    else unknown

-- `EncodeSetRequest`
abbrev pub encode_as : Layout → Request → List ℕ
encode_as key_only req = req.cmd ∷ (put 2 (length req.key) ++ req.key)
encode_as key_elems req =
    req.cmd
    ∷ (put 2 (length req.key) ++ (put 4 (length req.elems) ++ (req.key ++ put_strings 4 req.elems)))
encode_as key_elem req =
    let elem = first_of req.elems in
    req.cmd ∷ (put 2 (length req.key) ++ (put 4 (length elem) ++ (req.key ++ elem)))
encode_as key_count req =
    req.cmd ∷ (put 2 (length req.key) ++ (put 4 (to_u32 req.count) ++ req.key))
encode_as all_keys req = req.cmd ∷ (put 2 (length req.keys) ++ put_strings 2 req.keys)
encode_as unknown req = []

unfoldable pub encode_request : Request → List ℕ
encode_request req = encode_as (layout req.cmd) req

abbrev pub blank : ℕ → Request
blank cmd = record { cmd = cmd; key = []; elems = []; count = pos 0; keys = [] }

-- `DecodeSetRequest`. In `p[3 : 3+keyLen]` and `p[7 : 7+keyLen]` the sums are of `uint16`.
abbrev pub decode_as : Layout → Payload → ℕ → ℕ → Decoded Request
decode_as key_only p cmd key_len = check (leb (3 + key_len) (len p)) truncated >>= λ _.
    slice p 3 ((3 + key_len) % 2 ^ 16) >>= λ key. ok (record (blank cmd) { key = key })
decode_as key_elems p cmd key_len = check (leb 7 (len p)) too_short >>= λ _.
    num_at 4 p 3 >>= λ elem_count. slice p 7 ((7 + key_len) % 2 ^ 16) >>= λ key.
    get_strings 4 elem_count p (7 + key_len) >>= λ elems.
    ok (record (blank cmd) { key = key; elems = elems })
decode_as key_elem p cmd key_len = check (leb 7 (len p)) too_short >>= λ _.
    num_at 4 p 3 >>= λ elem_len. check (leb (7 + key_len + elem_len) (len p)) truncated >>= λ _.
    slice p 7 ((7 + key_len) % 2 ^ 16) >>= λ key.
    slice p (7 + key_len) (7 + key_len + elem_len) >>= λ elem.
    ok (record (blank cmd) { key = key; elems = elem ∷ [] })
decode_as key_count p cmd key_len = check (leb 7 (len p)) too_short >>= λ _.
    num_at 4 p 3 >>= λ count. check (leb (7 + key_len) (len p)) truncated >>= λ _.
    slice p 7 ((7 + key_len) % 2 ^ 16) >>= λ key.
    ok (record (blank cmd) { key = key; count = to_i32 count })
decode_as all_keys p cmd key_len = num_at 2 p 1 >>= λ num_keys.
    get_strings 2 num_keys p 3 >>= λ keys. ok (record (blank cmd) { keys = keys })
decode_as unknown p cmd key_len = failed invalid_command

unfoldable pub decode_request : Payload → Decoded Request
decode_request p = check (leb 3 (len p)) too_short >>= λ _.
    byte_at p 0 >>= λ cmd. num_at 2 p 1 >>= λ key_len. decode_as (layout cmd) p cmd key_len

-- the cases of the switches on the command of a response
pub data Answer : Type 0 where
  changed_count member card one_elem many_elems no_answer : Answer

abbrev pub answer : ℕ → Answer
answer cmd =
    if any_of cmd (s_add ∷ s_rem ∷ [])
    then changed_count
    else if any_of cmd (s_is_member ∷ [])
    then member
    else if any_of cmd (s_card ∷ [])
    then card
    else if any_of cmd (s_pop ∷ [])
    then one_elem
    else if any_of cmd (s_members ∷ s_rand_member ∷ s_union ∷ s_inter ∷ s_diff ∷ [])
    then many_elems
    else no_answer

-- `EncodeSetResponse`, which does not write the error's message
abbrev pub encode_answer : Answer → Response → List ℕ
encode_answer changed_count resp = resp.status ∷ put 8 resp.changed
encode_answer member resp = resp.status ∷ byte_of resp.is_member ∷ []
encode_answer card resp = resp.status ∷ put 8 resp.card
encode_answer one_elem resp =
    let elem = first_of resp.elems in resp.status ∷ (put 2 (length elem) ++ elem)
encode_answer many_elems resp =
    resp.status ∷ (put 4 (length resp.elems) ++ put_strings 2 resp.elems)
encode_answer no_answer resp = []

unfoldable pub encode_response : Response → List ℕ
encode_response resp = encode_answer (answer resp.cmd) resp

abbrev pub blank_response : ℕ → ℕ → Response
blank_response cmd status = record {
  cmd = cmd;
  status = status;
  changed = 0;
  is_member = false;
  card = 0;
  elems = [];
  err_msg = [];
}

-- `DecodeSetResponse`
abbrev pub decode_answer : Answer → Payload → Response → Decoded Response
decode_answer changed_count p resp =
    check (leb 9 (len p)) too_short >>= λ _. num_at 8 p 1 >>= λ n. ok (record resp { changed = n })
decode_answer member p resp = check (leb 2 (len p)) too_short >>= λ _.
    byte_at p 1 >>= λ b. ok (record resp { is_member = not (b == 0) })
decode_answer card p resp =
    check (leb 9 (len p)) too_short >>= λ _. num_at 8 p 1 >>= λ n. ok (record resp { card = n })
decode_answer one_elem p resp = check (leb 3 (len p)) too_short >>= λ _. num_at 2 p 1 >>= λ n.
    if ltb 0 n && leb (3 + n) (len p)
    then (slice p 3 ((3 + n) % 2 ^ 16) >>= λ elem. ok (record resp { elems = elem ∷ [] }))
    else ok resp
decode_answer many_elems p resp = check (leb 5 (len p)) too_short >>= λ _.
    num_at 4 p 1 >>= λ n. get_some 2 n p 5 >>= λ elems. ok (record resp { elems = elems })
decode_answer no_answer p resp = ok resp

unfoldable pub decode_response : Payload → ℕ → Decoded Response
decode_response p cmd = check (leb 1 (len p)) too_short >>= λ _. byte_at p 0 >>= λ status.
    if status == status_err && ltb 1 (len p)
    then ok (record (blank_response cmd status) { err_msg = drop 1 p.bytes })
    else decode_answer (answer cmd) p (blank_response cmd status)
