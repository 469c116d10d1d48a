-- ===== src/Raft/State.antt =====
-- raft/rpc.go, raft/config.go and the state of raft/raft.go. What a handler does to the world (a
-- timer, a message to a peer, an answer, an entry handed to the application) is recorded in the
-- order in which it does it, in `effects`.
use mcache.Prelude.{ℕ, ◌+◌, ◌-◌, ◌%◌, ◌^◌, Bool, List, [], ◌∷◌, ◌++◌, Str}
use mcache.Prelude.Dict.{Dict}
use mcache.Raft.Log.{LogEntry, Log, new_log}

-- `State`
pub data Role : Type 0 where
  follower candidate leader : Role

pub record AppendEntriesRequest : Type 0 where
  pub term : ℕ
  pub leader_id : ℕ
  pub prev_log_index : ℕ
  pub prev_log_term : ℕ
  pub entries : List LogEntry
  pub leader_commit : ℕ

pub record AppendEntriesResponse : Type 0 where
  pub term : ℕ
  pub success : Bool
  pub last_index : ℕ

pub record RequestVoteRequest : Type 0 where
  pub term : ℕ
  pub candidate_id : ℕ
  pub last_log_index : ℕ
  pub last_log_term : ℕ

pub record RequestVoteResponse : Type 0 where
  pub term : ℕ
  pub vote_granted : Bool

pub data Effect : Type 0 where
  reset_election_timer stop_election_timer stop_heartbeat_timer : Effect
  -- at once, or after the heartbeat interval
  reset_heartbeat_now reset_heartbeat : Effect
  send_append_entries : ℕ → AppendEntriesRequest → Effect
  send_request_vote : ℕ → RequestVoteRequest → Effect
  answer_append : AppendEntriesResponse → Effect
  answer_vote : RequestVoteResponse → Effect
  -- `ApplyMsg`, with index and command
  apply : ℕ → Str → Effect

-- `Raft` with the fields of `Config` that the handlers read; `peers` is `len(config.Peers)`.
pub record Raft : Type 0 where
  pub node_id : ℕ
  pub peers : ℕ
  pub current_term : ℕ
  pub voted_for : ℕ
  pub log : Log
  pub commit_index : ℕ
  pub last_applied : ℕ
  pub state : Role
  pub leader_id : ℕ
  pub next_index : Dict ℕ ℕ
  pub match_index : Dict ℕ ℕ
  pub votes_received : ℕ
  pub votes_needed : ℕ
  pub effects : List Effect

-- `NewRaft`; the election timer runs.
abbrev pub new_raft : ℕ → ℕ → Raft
new_raft node_id peers = record {
  node_id = node_id;
  peers = peers;
  current_term = 0;
  voted_for = 0;
  log = new_log;
  commit_index = 0;
  last_applied = 0;
  state = follower;
  leader_id = 0;
  next_index = [];
  match_index = [];
  votes_received = 0;
  votes_needed = 0;
  effects = [];
}

abbrev pub emit : Effect → Raft → Raft
emit e r = record r { effects = r.effects ++ e ∷ [] }

-- `uint64` sums and predecessors
abbrev pub add_u64 : ℕ → ℕ → ℕ
add_u64 a b = (a + b) % 2 ^ 64

abbrev pub pred_u64 : ℕ → ℕ
pred_u64 a = (a + 2 ^ 64 - 1) % 2 ^ 64
