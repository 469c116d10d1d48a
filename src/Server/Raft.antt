-- ===== src/Server/Raft.antt =====
-- net/raft_cmd.go, and from net/server_ext.go the requests as commands of the log and the results as
-- responses. The JSON codec and the texts of errors are parameters.
pub mod Apply
pub mod Replicated
pub mod Agreement
mod Tests
use mcache.Prelude.{
  ℕ, ◌+◌, ◌%◌, ◌^◌, Bool, true, false, Option, none, some, List, [], ◌∷◌, Str, if◌then◌else◌, ◌==◌,
}
use mcache.Prelude.Int.{ℤ, pos}
use mcache.Prelude.Text.{codes}
use mcache.Cache.{Error, key_not_found}
use mcache.Net.Bytes.{any_of, to_u64}
use mcache.Net.Commands
use mcache.Net.Commands.{status_ok, status_err, status_not_found}
use mcache.Net.HashWire as HashWire
use mcache.Net.ListWire as ListWire
use mcache.Net.SetWire as SetWire
use mcache.Net.HashAnswer as HashAnswer
use mcache.Net.ListAnswer as ListAnswer
use mcache.Server.Hashes as Hashes
use mcache.Server.Lists as Lists
use mcache.Server.Sets as Sets

pub record RaftCommand (F : Type 0) : Type 0 where
  pub req_id : ℕ
  pub op : ℕ
  pub key : Str
  pub value : Option Str
  pub ttl : ℤ
  pub field : Str
  pub fields : List Str
  pub fv_pairs : List Str
  pub delta_i64 : ℤ
  pub delta_f64 : F
  pub elems : List Str
  pub index : ℤ
  pub start : ℤ
  pub stop : ℤ
  pub count : ℤ
  pub pivot : Str
  pub before : Bool

-- an error of the cache, or that of an operation that the log does not know
pub data Failure : Type 0 where
  of_cache : Error → Failure
  unsupported_op : ℕ → Failure

pub record RaftResult (F : Type 0) : Type 0 where
  pub err : Option Failure
  pub int_result : ℤ
  pub bool_result : Bool
  pub str_result : Str
  pub float_result : F

-- `isRaftWriteOp`
unfoldable pub is_raft_write_op : ℕ → Bool
is_raft_write_op cmd = any_of cmd (
    Commands.set ∷ Commands.del ∷ Commands.cleanup ∷ Commands.s_add ∷ Commands.s_rem
    ∷ Commands.s_pop ∷ Commands.h_set ∷ Commands.h_set_nx ∷ Commands.h_del ∷ Commands.hm_set
    ∷ Commands.h_incr_by ∷ Commands.h_incr_by_float ∷ Commands.l_push ∷ Commands.r_push
    ∷ Commands.l_pop ∷ Commands.r_pop ∷ Commands.l_set ∷ Commands.l_rem ∷ Commands.l_trim
    ∷ Commands.l_insert ∷ [])

-- `string(rc.Value)`
abbrev pub text_of : Option Str → Str
text_of none = []
text_of (some v) = v

module _ (F : Type 0) (zero_float : F) where
  -- a command with Go's zero values
  abbrev pub bare_command : ℕ → Str → RaftCommand F
  bare_command op key = record {
    req_id = 0;
    op = op;
    key = key;
    value = none;
    ttl = pos 0;
    field = [];
    fields = [];
    fv_pairs = [];
    delta_i64 = pos 0;
    delta_f64 = zero_float;
    elems = [];
    index = pos 0;
    start = pos 0;
    stop = pos 0;
    count = pos 0;
    pivot = [];
    before = false;
  }

  abbrev pub bare_result : RaftResult F
  bare_result = record {
    err = none;
    int_result = pos 0;
    bool_result = false;
    str_result = [];
    float_result = zero_float;
  }

  -- the switch of `hashReqToRaft`
  abbrev pub with_hash_fields : Hashes.Command → HashWire.Request F → RaftCommand F → RaftCommand F
  with_hash_fields Hashes.set req rc = record rc { value = some req.value }
  with_hash_fields Hashes.set_nx req rc = record rc { value = some req.value }
  with_hash_fields Hashes.del req rc = record rc { fields = req.fields }
  with_hash_fields Hashes.incr_by req rc = record rc { delta_i64 = req.delta_i64 }
  with_hash_fields Hashes.incr_by_float req rc = record rc { delta_f64 = req.delta_f64 }
  with_hash_fields Hashes.set_many req rc = record rc { fv_pairs = req.fv_pairs }
  with_hash_fields _ req rc = rc

  unfoldable pub hash_req_to_raft : HashWire.Request F → RaftCommand F
  hash_req_to_raft req =
      with_hash_fields (Hashes.command req.cmd) req
        (record (bare_command req.cmd req.key) { field = req.field })

  -- the switch of `listReqToRaft`
  abbrev pub with_list_fields : Lists.Command → ListWire.Request → RaftCommand F → RaftCommand F
  with_list_fields Lists.push_left req rc = record rc { elems = req.elements }
  with_list_fields Lists.push_right req rc = record rc { elems = req.elements }
  with_list_fields Lists.set_at req rc = record rc { index = req.index; value = some req.value }
  with_list_fields Lists.remove req rc = record rc { count = req.count; value = some req.value }
  with_list_fields Lists.trim req rc = record rc { start = req.start; stop = req.stop }
  with_list_fields Lists.insert_by req rc = record rc {
    before = req.before;
    pivot = req.pivot;
    value = some req.value;
  }
  with_list_fields _ req rc = rc

  unfoldable pub list_req_to_raft : ListWire.Request → RaftCommand F
  list_req_to_raft req = with_list_fields (Lists.command req.cmd) req (bare_command req.cmd req.key)

  -- the switch of `setReqToRaft`
  abbrev pub with_set_fields : Sets.Command → SetWire.Request → RaftCommand F → RaftCommand F
  with_set_fields Sets.add req rc = record rc { elems = req.elems }
  with_set_fields Sets.remove req rc = record rc { elems = req.elems }
  with_set_fields _ req rc = rc

  unfoldable pub set_req_to_raft : SetWire.Request → RaftCommand F
  set_req_to_raft req = with_set_fields (Sets.command req.cmd) req (bare_command req.cmd req.key)

-- The text of an error, `res.err.Error()`, is a parameter.
module _ (F : Type 0) (float64bits : F → ℕ) (float64frombits : ℕ → F) (text : Failure → Str) where
  abbrev hash_blank : ℕ → ℕ → HashAnswer.Response F
  hash_blank = HashAnswer.blank F float64bits float64frombits

  -- the switch of `raftResultToHashResponseBytes`
  abbrev pub hash_result : Hashes.Command → ℕ → RaftResult F → HashAnswer.Response F
  hash_result Hashes.set cmd res = record (hash_blank cmd status_ok) { int_result = res.int_result }
  hash_result Hashes.del cmd res = record (hash_blank cmd status_ok) { int_result = res.int_result }
  hash_result Hashes.incr_by cmd res = record (hash_blank cmd status_ok) {
    int_result = res.int_result;
  }
  hash_result Hashes.set_nx cmd res = record (hash_blank cmd status_ok) {
    bool_result = res.bool_result;
  }
  hash_result Hashes.incr_by_float cmd res = record (hash_blank cmd status_ok) {
    float_result = res.float_result;
  }
  hash_result Hashes.set_many cmd res = hash_blank cmd status_ok
  hash_result _ cmd res = record (hash_blank cmd status_err) {
    err_msg = codes "unsupported raft hash op";
  }

  unfoldable pub raft_result_to_hash_response : ℕ → RaftResult F → HashAnswer.Response F
  raft_result_to_hash_response cmd res = elim res.err [
    | none ↦ hash_result (Hashes.command cmd) cmd res
    | some e ↦ record (hash_blank cmd status_err) { err_msg = text e }
  ]

  -- the switch of `raftResultToListResponseBytes`
  abbrev pub list_result : Lists.Command → ℕ → RaftResult F → ListAnswer.Response
  list_result Lists.push_left cmd res = record (ListAnswer.blank cmd status_ok) {
    int_result = res.int_result;
  }
  list_result Lists.push_right cmd res = record (ListAnswer.blank cmd status_ok) {
    int_result = res.int_result;
  }
  list_result Lists.remove cmd res = record (ListAnswer.blank cmd status_ok) {
    int_result = res.int_result;
  }
  list_result Lists.insert_by cmd res = record (ListAnswer.blank cmd status_ok) {
    int_result = res.int_result;
  }
  list_result Lists.pop_left cmd res = record (ListAnswer.blank cmd status_ok) {
    str_result = res.str_result;
  }
  list_result Lists.pop_right cmd res = record (ListAnswer.blank cmd status_ok) {
    str_result = res.str_result;
  }
  list_result Lists.set_at cmd res = record (ListAnswer.blank cmd status_ok) { bool_result = true }
  list_result Lists.trim cmd res = ListAnswer.blank cmd status_ok
  list_result _ cmd res = record (ListAnswer.blank cmd status_err) {
    err_msg = codes "unsupported raft list op";
  }

  abbrev pub list_failure : ℕ → Failure → ListAnswer.Response
  list_failure cmd (of_cache key_not_found) = ListAnswer.blank cmd status_not_found
  list_failure cmd e = record (ListAnswer.blank cmd status_err) { err_msg = text e }

  unfoldable pub raft_result_to_list_response : ℕ → RaftResult F → ListAnswer.Response
  raft_result_to_list_response cmd res = elim res.err [
    | none ↦ list_result (Lists.command cmd) cmd res
    | some e ↦ list_failure cmd e
  ]

  -- the switch of `raftResultToSetResponseBytes`
  abbrev pub set_result : Sets.Command → ℕ → RaftResult F → SetWire.Response
  set_result Sets.add cmd res = record (SetWire.blank_response cmd status_ok) {
    changed = to_u64 res.int_result;
  }
  set_result Sets.remove cmd res = record (SetWire.blank_response cmd status_ok) {
    changed = to_u64 res.int_result;
  }
  set_result Sets.pop cmd res = record (SetWire.blank_response cmd status_ok) {
    elems = res.str_result ∷ [];
  }
  set_result _ cmd res = record (SetWire.blank_response cmd status_err) {
    err_msg = codes "unsupported raft set op";
  }

  abbrev pub set_failure : Sets.Command → ℕ → Failure → SetWire.Response
  set_failure Sets.pop cmd (of_cache key_not_found) = SetWire.blank_response cmd status_not_found
  set_failure c cmd e = record (SetWire.blank_response cmd status_err) { err_msg = text e }

  unfoldable pub raft_result_to_set_response : ℕ → RaftResult F → SetWire.Response
  raft_result_to_set_response cmd res = elim res.err [
    | none ↦ set_result (Sets.command cmd) cmd res
    | some e ↦ set_failure (Sets.command cmd) cmd e
  ]
