-- ===== src/Server/Raft/Apply.antt =====
-- net/raft_cmd.go: `onRaftApply`, which runs a committed command on the cache and hands the result to
-- the proposer that waits for it, if it is on this node. The cache's operations on strings are
-- parameters here; the maps of sets, hashes and lists are those of Cache.Typed.
use mcache.Prelude.{
  ℕ, ◌*◌, ◌%◌, ◌^◌, Bool, Option, none, some, List, [], ◌∷◌, Str, str_dec, if◌then◌else◌, ◌==◌, ltb,
  ◌&&◌, leb,
}
use mcache.Prelude.Int.{ℤ, pos, ltb_ℤ}
use mcache.Prelude.Dict.{delete}
use mcache.Prelude.Panics.{Panics, returns, ◌>>=◌}
use mcache.Ds.Hashes.{Floats}
use mcache.Cache.{Error, Answer, ok, failed}
use mcache.Cache.Typed.{TypedCache, at_key}
use mcache.Cache.Typed.Hashes as CachedHashes
use mcache.Cache.Typed.Lists as CachedLists
use mcache.Cache.Typed.Sets as CachedSets
use mcache.Net.Bytes.{any_of, to_u64, to_i64}
use mcache.Net.Commands
use mcache.Net.Commands.{is_hash_cmd, is_list_cmd}
use mcache.Server.Hashes as Hashes
use mcache.Server.Lists as Lists
use mcache.Server.Sets as Sets
use mcache.Server.Raft.{
  RaftCommand, RaftResult, Failure, of_cache, unsupported_op, text_of, bare_result,
}

-- the cache's operations on strings that a command of the log calls, with their errors
pub record Strings : Type 1 where
  pub State : Type 0
  pub set : State → Str → Option Str → ℤ → State × Option Error
  pub del : State → Str → State × Option Error
  pub cleanup : State → State

-- `encoding/json` on commands; marshalling fails on a float that is no number
pub record Json (F : Type 0) : Type 0 where
  pub marshal : RaftCommand F → Option (List ℕ)
  pub unmarshal : List ℕ → Option (RaftCommand F)

-- `time.Duration(ms) * time.Millisecond`
unfoldable pub millis : ℤ → ℤ
millis ms = to_i64 (to_u64 ms * 1000000 % 2 ^ 64)

-- `none` for no error of the cache
abbrev pub as_failure : Option Error → Option Failure
as_failure none = none
as_failure (some e) = some (of_cache e)

-- the commands of sets
abbrev pub is_set_cmd : ℕ → Bool
is_set_cmd cmd = leb Commands.s_add cmd && leb cmd Commands.s_diff

-- the cases of the switch on the operation
pub data Write : Type 0 where
  of_hash : Hashes.Command → Write
  of_list : Lists.Command → Write
  of_set : Sets.Command → Write
  set del cleanup other : Write

abbrev pub write : ℕ → Write
write op =
    if is_hash_cmd op
    then of_hash (Hashes.command op)
    else if is_list_cmd op
    then of_list (Lists.command op)
    else if is_set_cmd op
    then of_set (Sets.command op)
    else if op == Commands.set
    then set
    else if op == Commands.del
    then del
    else if op == Commands.cleanup
    then cleanup
    else other

-- `Del` of a cache deletes the containers of the key too
abbrev pub forget : TypedCache → Str → Panics (TypedCache × Answer (Unit {0}))
forget c key = at_key c key λ m. returns (
  record m {
    sets = delete str_dec key m.sets;
    hashes = delete str_dec key m.hashes;
    lists = delete str_dec key m.lists;
  },
  ok tt,
)

module _ (fl : Floats) (zero_float : fl.Float) where
  abbrev pub Result : Type 0
  Result = RaftResult fl.Float

  abbrev pub blank : Result
  blank = bare_result fl.Float zero_float

  abbrev pub unsupported : ℕ → Result
  unsupported op = record blank { err = some (unsupported_op op) }

  -- the fields of the result that a case of the switch sets
  abbrev pub outcome : {A : Type 0} → (A → Result → Result) → Answer A → Result
  outcome fill (ok a) = fill a blank
  outcome fill (failed e) = record blank { err = some (of_cache e) }

  abbrev pub record_outcome :
      {A : Type 0}
      → Panics (TypedCache × Answer A)
      → (A → Result → Result)
      → Panics (TypedCache × Result)
  record_outcome call fill = call >>= λ out. returns (out.0, outcome fill out.1)

  abbrev pub counted : ℕ → Result → Result
  counted n res = record res { int_result = pos n }

  abbrev pub numbered : ℤ → Result → Result
  numbered n res = record res { int_result = n }

  abbrev pub tested : Bool → Result → Result
  tested b res = record res { bool_result = b }

  abbrev pub said : Str → Result → Result
  said s res = record res { str_result = s }

  abbrev pub summed : fl.Float → Result → Result
  summed x res = record res { float_result = x }

  abbrev pub done : Unit {0} → Result → Result
  done u res = res

  -- the cases of the switch for hashes
  unfoldable pub apply_hash :
      Hashes.Command → TypedCache → RaftCommand fl.Float → Panics (TypedCache × Result)
  apply_hash Hashes.set c rc =
      record_outcome (CachedHashes.h_set c rc.key rc.field (text_of rc.value)) counted
  apply_hash Hashes.set_nx c rc =
      record_outcome (CachedHashes.h_set_nx c rc.key rc.field (text_of rc.value)) tested
  apply_hash Hashes.del c rc = record_outcome (CachedHashes.h_del c rc.key rc.fields) counted
  apply_hash Hashes.incr_by c rc =
      record_outcome (CachedHashes.h_incr_by c rc.key rc.field rc.delta_i64) numbered
  apply_hash Hashes.incr_by_float c rc =
      record_outcome (CachedHashes.h_incr_by_float fl c rc.key rc.field rc.delta_f64) summed
  apply_hash Hashes.set_many c rc = record_outcome (CachedHashes.hm_set c rc.key rc.fv_pairs) done
  apply_hash _ c rc = returns (c, unsupported rc.op)

  -- the cases of the switch for lists
  unfoldable pub apply_list :
      Lists.Command → TypedCache → RaftCommand fl.Float → Panics (TypedCache × Result)
  apply_list Lists.push_left c rc = record_outcome (CachedLists.l_push c rc.key rc.elems) counted
  apply_list Lists.push_right c rc = record_outcome (CachedLists.r_push c rc.key rc.elems) counted
  apply_list Lists.pop_left c rc = record_outcome (CachedLists.l_pop c rc.key) said
  apply_list Lists.pop_right c rc = record_outcome (CachedLists.r_pop c rc.key) said
  apply_list Lists.set_at c rc =
      record_outcome (CachedLists.l_set c rc.key rc.index (text_of rc.value)) done
  apply_list Lists.remove c rc =
      record_outcome (CachedLists.l_rem c rc.key rc.count (text_of rc.value)) counted
  apply_list Lists.trim c rc = record_outcome (CachedLists.l_trim c rc.key rc.start rc.stop) done
  apply_list Lists.insert_by c rc =
      record_outcome (CachedLists.l_insert c rc.key rc.before rc.pivot (text_of rc.value)) numbered
  apply_list _ c rc = returns (c, unsupported rc.op)

  -- the cases of the switch for sets; `draw` is what `SPop` draws on this node
  unfoldable pub apply_set :
      ℕ → Sets.Command → TypedCache → RaftCommand fl.Float → Panics (TypedCache × Result)
  apply_set draw Sets.add c rc = record_outcome (CachedSets.s_add c rc.key rc.elems) counted
  apply_set draw Sets.remove c rc = record_outcome (CachedSets.s_rem c rc.key rc.elems) counted
  apply_set draw Sets.pop c rc = record_outcome (CachedSets.s_pop draw c rc.key) said
  apply_set draw _ c rc = returns (c, unsupported rc.op)

  module _ (strings : Strings) where
    -- a node: its cache, the requests that wait for their results by their numbers, the last number
    -- given, and the results handed over
    pub record Node : Type 0 where
      pub kv : strings.State
      pub typed : TypedCache
      pub pending : List ℕ
      pub next_id : ℕ
      pub results : List (ℕ × Result)

    abbrev keep : Node → Panics (TypedCache × Result) → Panics (Node × Result)
    keep n call = call >>= λ out. returns (record n { typed = out.0 }, out.1)

    abbrev stored : Node → strings.State × Option Error → Panics (Node × Result)
    stored n out = returns (record n { kv = out.0 }, record blank { err = as_failure out.1 })

    -- the switch of `onRaftApply`
    unfoldable pub apply_as : Write → ℕ → Node → RaftCommand fl.Float → Panics (Node × Result)
    apply_as (of_hash cmd) draw n rc = keep n (apply_hash cmd n.typed rc)
    apply_as (of_list cmd) draw n rc = keep n (apply_list cmd n.typed rc)
    apply_as (of_set cmd) draw n rc = keep n (apply_set draw cmd n.typed rc)
    apply_as set draw n rc =
        stored n
          (strings.set n.kv rc.key rc.value (if ltb_ℤ (pos 0) rc.ttl then millis rc.ttl else pos 0))
    apply_as del draw n rc = forget n.typed rc.key >>= λ out.
        stored (record n { typed = out.0 }) (strings.del n.kv rc.key)
    apply_as cleanup draw n rc = returns (record n { kv = strings.cleanup n.kv }, blank)
    apply_as other draw n rc = returns (n, unsupported rc.op)

    unfoldable pub apply : ℕ → Node → RaftCommand fl.Float → Panics (Node × Result)
    apply draw n rc = apply_as (write rc.op) draw n rc

    -- `delete(s.raftPending, reqID)`
    unfoldable pub without : ℕ → List ℕ → List ℕ
    without id [] = []
    without id (i ∷ pending) = let rest = without id pending in if id == i then rest else i ∷ rest

    -- `notifyRaftPending`
    unfoldable pub notify : ℕ → Result → Node → Node
    notify id res n =
        if id == 0
        then n
        else if any_of id n.pending
        then record n { pending = without id n.pending; results = (id, res) ∷ n.results }
        else n

    -- `onRaftApply` of a committed entry. If it cannot be read, nobody is told.
    unfoldable pub on_raft_apply : Json fl.Float → ℕ → Node → List ℕ → Panics Node
    on_raft_apply json draw n entry = elim (json.unmarshal entry) [
      | none ↦ returns n
      | some rc ↦
          (apply draw n rc >>= λ out.
          returns (if ltb 0 rc.req_id then notify rc.req_id out.1 out.0 else out.0))
    ]
