-- ===== src/Server/Raft/Replicated.antt =====
-- net/raft_cmd.go: `raftPropose`; net/server_ext.go: `processHashRaft`, `processListRaft` and
-- `processSetRaft`. What the raft node says of itself, whether it leads and takes a command, and what
-- it applies while the proposer waits, are arguments.
use mcache.Prelude.{
  ℕ, ◌+◌, ◌%◌, ◌^◌, Bool, Option, none, some, List, [], ◌∷◌, Str, if◌then◌else◌, ◌==◌,
}
use mcache.Prelude.Text.{codes}
use mcache.Prelude.Panics.{Panics, returns, ◌>>=◌}
use mcache.Ds.Hashes.{Floats}
use mcache.Net.Commands.{status_err}
use mcache.Net.HashWire as HashWire
use mcache.Net.ListWire as ListWire
use mcache.Net.SetWire as SetWire
use mcache.Net.HashAnswer as HashAnswer
use mcache.Net.ListAnswer as ListAnswer
use mcache.Server.Raft.{
  RaftCommand, RaftResult, Failure, hash_req_to_raft, list_req_to_raft, set_req_to_raft,
  raft_result_to_hash_response, raft_result_to_list_response, raft_result_to_set_response,
}
use mcache.Server.Raft.Apply.{Strings, Json, Node, without}

-- the result that was handed over for a request
unfoldable pub received : {A : Type 0} → ℕ → List (ℕ × A) → Option A
received id [] = none
received id (r ∷ results) = let older = received id results in if id == r.0 then some r.1 else older

abbrev pub not_leader : Str
not_leader = codes "not leader"

abbrev pub propose_failed : Str
propose_failed = codes "raft propose failed"

abbrev pub apply_timeout : Str
apply_timeout = codes "raft apply timeout"

-- a call that waits for its result, or that failed before
pub data Proposal (N : Type 0) : Type 0 where
  refused : N → Str → Proposal N
  waiting : N → ℕ → List ℕ → Proposal N

module _ (fl : Floats) (zero_float : fl.Float) (strings : Strings) where
  abbrev pub State : Type 0
  State = Node fl zero_float strings

  abbrev pub Result : Type 0
  Result = RaftResult fl.Float

  module _ (json : Json fl.Float) (json_error : Str) where
    -- `raftPropose` up to the wait: the number of the request and the entry of the log
    unfoldable pub raft_propose : Bool → Bool → State → RaftCommand fl.Float → Proposal State
    raft_propose leads takes n rc =
        if leads
        then (let id = (n.next_id + 1) % 2 ^ 64 in
            let n' = record n { next_id = id } in
            elim (json.marshal (record rc { req_id = id })) [
              | none ↦ refused n' json_error
              | some entry ↦
                  if takes
                  then waiting (record n' { pending = id ∷ n.pending }) id entry
                  else refused (record n' { pending = without fl zero_float strings id n.pending })
                      propose_failed
            ])
        else refused n not_leader

    -- the end of `raftPropose`: the result, or a timeout, which takes the request off the map
    unfoldable pub awaited : ℕ → State → State × Option Result
    awaited id n = elim (received id n.results) [
      | none ↦ (record n { pending = without fl zero_float strings id n.pending }, none)
      | some res ↦ (n, some res)
    ]

    -- the response to a call that waited
    unfoldable pub finish : {R : Type 0} → (Result → R) → (Str → R) → ℕ → State → State × R
    finish respond deny id later =
        let (n, result) = awaited id later in
        (n, elim result [ none ↦ deny apply_timeout | some res ↦ respond res ])

    -- a write through the log, with what makes a response of a result, and of an error's text
    unfoldable pub through_log :
        {R : Type 0}
        → Bool
        → Bool
        → (List ℕ → State → Panics State)
        → (Result → R)
        → (Str → R)
        → State
        → RaftCommand fl.Float
        → Panics (State × R)
    through_log leads takes meanwhile respond deny n rc = elim (raft_propose leads takes n rc) [
      | refused n' why ↦ returns (n', deny why)
      | waiting n' id entry ↦
          (meanwhile entry n' >>= λ later. returns (finish respond deny id later))
    ]

    module _ (bits : fl.Float → ℕ) (from_bits : ℕ → fl.Float) (text : Failure → Str)
        (leads takes : Bool) (meanwhile : List ℕ → State → Panics State) where
      unfoldable pub process_hash_raft :
          State → HashWire.Request fl.Float → Panics (State × HashAnswer.Response fl.Float)
      process_hash_raft n req =
          through_log leads takes meanwhile
            (raft_result_to_hash_response fl.Float bits from_bits text req.cmd)
            (λ why. record (HashAnswer.blank fl.Float bits from_bits req.cmd status_err) {
              err_msg = why;
            })
            n (hash_req_to_raft fl.Float zero_float req)

      unfoldable pub process_list_raft :
          State → ListWire.Request → Panics (State × ListAnswer.Response)
      process_list_raft n req =
          through_log leads takes meanwhile
            (raft_result_to_list_response fl.Float bits from_bits text req.cmd)
            (λ why. record (ListAnswer.blank req.cmd status_err) { err_msg = why }) n
            (list_req_to_raft fl.Float zero_float req)

      unfoldable pub process_set_raft : State → SetWire.Request → Panics (State × SetWire.Response)
      process_set_raft n req =
          through_log leads takes meanwhile
            (raft_result_to_set_response fl.Float bits from_bits text req.cmd)
            (λ why. record (SetWire.blank_response req.cmd status_err) { err_msg = why }) n
            (set_req_to_raft fl.Float zero_float req)
