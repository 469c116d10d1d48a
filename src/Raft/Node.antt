-- ===== src/Raft/Node.antt =====
-- raft/raft.go: the handlers of the event loop. The loop runs one handler at a time, so a run of a
-- node is a sequence of events.
pub mod Terms
pub mod Votes
pub mod Elections
pub mod Apply
mod Tests
use mcache.Prelude.{
  ℕ, zero, suc, ◌+◌, ◌-◌, ◌/◌, ◌≡◌, Bool, true, false, Option, none, some, List, [], ◌∷◌, ◌++◌, Str,
  if◌then◌else◌, ltb, leb, ◌==◌, length, drop, ◌&&◌, ◌||◌, min, ℕ_discrete,
}
use mcache.Prelude.Dict.{Dict, lookup, insert}
use mcache.Raft.Log
use mcache.Raft.Log.{LogEntry, Log}
use mcache.Raft.State.{
  Role, follower, candidate, leader, AppendEntriesRequest, AppendEntriesResponse,
  RequestVoteRequest, RequestVoteResponse, Effect, reset_election_timer, stop_election_timer,
  stop_heartbeat_timer, reset_heartbeat_now, reset_heartbeat, send_append_entries,
  send_request_vote, answer_append, answer_vote, apply, Raft, emit, add_u64, pred_u64,
}

abbrev pub is_leader : Role → Bool
is_leader leader = true
is_leader r = false

abbrev pub is_candidate : Role → Bool
is_candidate candidate = true
is_candidate r = false

pub become_follower : Raft → ℕ → Raft
become_follower r term =
    let r' =
      if ltb r.current_term term then record r { current_term = term; voted_for = 0 } else r in
    emit stop_heartbeat_timer
      (emit reset_election_timer (record r' { state = follower; leader_id = 0 }))

pub become_candidate : Raft → Raft
become_candidate r = emit reset_election_timer (record r {
  state = candidate;
  current_term = add_u64 r.current_term 1;
  voted_for = r.node_id;
  votes_received = 1;
  votes_needed = r.peers / 2 + 1;
})

-- the map that `becomeLeader` fills: `v` for each peer but this node, from peer `pid` on
pub per_peer : ℕ → ℕ → ℕ → ℕ → Dict ℕ ℕ → Dict ℕ ℕ
per_peer zero pid self v m = m
per_peer (suc rounds) pid self v m =
    per_peer rounds (pid + 1) self v (if pid == self then m else insert ℕ_discrete pid v m)

pub become_leader : Raft → Raft
become_leader r =
    let next = add_u64 (Log.last r.log).0 1 in
    emit reset_heartbeat_now (
      emit stop_election_timer (record r {
        state = leader;
        leader_id = r.node_id;
        next_index = per_peer r.peers 1 r.node_id next [];
        match_index = per_peer r.peers 1 r.node_id 0 [];
      }))

abbrev pub apply_entry : Option LogEntry → Raft → Raft
apply_entry none r = r
apply_entry (some e) r = emit (apply e.index e.command) r

-- The loop of `applyCommitted`, on the rounds left.
pub apply_loop : ℕ → Raft → Raft
apply_loop zero r = r
apply_loop (suc rounds) r =
    let n = add_u64 r.last_applied 1 in
    apply_loop rounds (apply_entry (Log.get r.log n) (record r { last_applied = n }))

pub apply_committed : Raft → Raft
apply_committed r = apply_loop (r.commit_index - r.last_applied) r

-- the peers that have an entry, in `matchIndex`
pub count_matches : ℕ → Dict ℕ ℕ → ℕ
count_matches n [] = 0
count_matches n (e ∷ m) = let rest = count_matches n m in if leb n e.1 then rest + 1 else rest

-- The loop of `advanceCommitIndex` at index `n`, with the log from there on; it ends where the log
-- ends, or at once at the index 0, at which `Get` finds nothing. The result is the commit index.
pub advance_loop : Raft → ℕ → ℕ → List LogEntry → ℕ
advance_loop r commit n [] = commit
advance_loop r commit n (e ∷ entries) =
    let skip = advance_loop r commit (n + 1) entries in
    let next = advance_loop r n (n + 1) entries in
    if e.term == r.current_term
    then (if ltb (r.peers / 2) (1 + count_matches n r.match_index) then next else commit)
    else skip

pub advance_commit_index : Raft → Raft
advance_commit_index r =
    let n = add_u64 r.commit_index 1 in
    let entries = if n == 0 then [] else drop n r.log in
    if is_leader r.state
    then apply_committed (record r { commit_index = advance_loop r r.commit_index n entries })
    else r

abbrev term_of : Option LogEntry → ℕ
term_of none = 0
term_of (some e) = e.term

abbrev send_from : Option ℕ → ℕ → Raft → Raft
send_from none peer r = r
send_from (some next) peer r =
    let prev = pred_u64 next in
    emit
      (send_append_entries peer (record {
        term = r.current_term;
        leader_id = r.node_id;
        prev_log_index = prev;
        prev_log_term = if ltb 0 prev then term_of (Log.get r.log prev) else 0;
        entries = Log.slice r.log next (add_u64 next 100);
        leader_commit = r.commit_index;
      }))
      r

pub send_append_entries_to : Raft → ℕ → Raft
send_append_entries_to r peer = send_from (lookup ℕ_discrete peer r.next_index) peer r

-- `f` for each peer but this node, from peer `pid` on
pub each_peer : ℕ → ℕ → (Raft → ℕ → Raft) → Raft → Raft
each_peer zero pid f r = r
each_peer (suc rounds) pid f r =
    each_peer rounds (pid + 1) f (if pid == r.node_id then r else f r pid)

pub broadcast_append_entries : Raft → Raft
broadcast_append_entries r = each_peer r.peers 1 send_append_entries_to r

pub broadcast_request_vote : Raft → Raft
broadcast_request_vote r =
    let (last_idx, last_term) = Log.last r.log in
    let req : RequestVoteRequest = record {
      term = r.current_term;
      candidate_id = r.node_id;
      last_log_index = last_idx;
      last_log_term = last_term;
    } in
    each_peer r.peers 1 (λ r' peer. emit (send_request_vote peer req) r') r

-- the deferred answer of `handleAppendEntries`
pub answer_ae : AppendEntriesRequest → Bool → Raft → Raft
answer_ae req success r =
    emit
      (answer_append (record {
        term = r.current_term;
        success = success;
        last_index = if success then add_u64 req.prev_log_index (length req.entries) else 0;
      }))
      r

-- does `entry, ok := r.log.Get(req.PrevLogIndex)` pass the consistency check?
pub consistent : Log → AppendEntriesRequest → Bool
consistent l req =
    if ltb 0 req.prev_log_index
    then elim (Log.get l req.prev_log_index) [ none ↦ false | some e ↦ e.term == req.prev_log_term ]
    else true

-- the log after `append new entries`
pub merge_entries : Log → AppendEntriesRequest → Log
merge_entries l req =
    if ltb 0 (length req.entries)
    then Log.append (Log.truncate l (add_u64 req.prev_log_index 1)) req.entries
    else l

-- `update commit index`
pub follow_commit : Raft → AppendEntriesRequest → Raft
follow_commit r req =
    if ltb r.commit_index req.leader_commit
    then apply_committed (record r { commit_index = min req.leader_commit (Log.last r.log).0 })
    else r

-- a request of a higher term makes a follower of the node
pub catch_up : Raft → ℕ → Raft
catch_up r term = if ltb r.current_term term then become_follower r term else r

-- `reset election timer since we heard from leader`
pub adopt : Raft → AppendEntriesRequest → Raft
adopt r req = record (emit reset_election_timer (catch_up r req.term)) {
  leader_id = req.leader_id;
  state = follower;
}

-- `handleAppendEntries`, for a transport that takes an answer
pub handle_append_entries : Raft → AppendEntriesRequest → Raft
handle_append_entries r req =
    let r' = adopt r req in
    if ltb req.term r.current_term
    then answer_ae req false r
    else if consistent r'.log req
    then answer_ae req true (follow_commit (record r' { log = merge_entries r'.log req }) req)
    else answer_ae req false r'

abbrev or_zero : Option ℕ → ℕ
or_zero none = 0
or_zero (some n) = n

-- The entries up to `last` are known to be on the peer; a missing key of a map reads as 0.
pub record_match : Raft → ℕ → ℕ → Raft
record_match r from last =
    let matched = or_zero (lookup ℕ_discrete from r.match_index) in
    if ltb matched last
    then record r {
      match_index = insert ℕ_discrete from last r.match_index;
      next_index = insert ℕ_discrete from (add_u64 last 1) r.next_index;
    }
    else r

-- The peer has refused: the next attempt starts one entry before.
pub back_off : Raft → ℕ → Raft
back_off r from =
    let next = or_zero (lookup ℕ_discrete from r.next_index) in
    if ltb 1 next
    then record r { next_index = insert ℕ_discrete from (next - 1) r.next_index }
    else r

pub handle_append_entries_response : Raft → ℕ → AppendEntriesResponse → Raft
handle_append_entries_response r from resp =
    if ltb r.current_term resp.term
    then become_follower r resp.term
    else if ltb resp.term r.current_term
    then r
    else if is_leader r.state
    then (if resp.success
        then advance_commit_index (record_match r from resp.last_index)
        else send_append_entries_to (back_off r from) from)
    else r

-- the deferred answer of `handleRequestVote`
pub answer_rv : Bool → Raft → Raft
answer_rv granted r =
    emit (answer_vote (record { term = r.current_term; vote_granted = granted })) r

-- `logOK`
pub log_ok : Log → RequestVoteRequest → Bool
log_ok l req =
    let (last_idx, last_term) = Log.last l in
    ltb last_term req.last_log_term
    || (req.last_log_term == last_term && leb last_idx req.last_log_index)

pub handle_request_vote : Raft → RequestVoteRequest → Raft
handle_request_vote r req =
    let r' = catch_up r req.term in
    if ltb req.term r.current_term
    then answer_rv false r
    else if (r'.voted_for == 0 || r'.voted_for == req.candidate_id) && log_ok r'.log req
    then answer_rv true (emit reset_election_timer (record r' { voted_for = req.candidate_id }))
    else answer_rv false r'

pub handle_request_vote_response : Raft → RequestVoteResponse → Raft
handle_request_vote_response r resp =
    let r' = record r { votes_received = r.votes_received + 1 } in
    if ltb r.current_term resp.term
    then become_follower r resp.term
    else if ltb resp.term r.current_term
    then r
    else if is_candidate r.state
    then (if resp.vote_granted
        then (if leb r'.votes_needed r'.votes_received then become_leader r' else r')
        else r)
    else r

pub handle_election_timeout : Raft → Raft
handle_election_timeout r =
    if is_leader r.state then r else broadcast_request_vote (become_candidate r)

pub handle_heartbeat_timeout : Raft → Raft
handle_heartbeat_timeout r =
    if is_leader r.state then emit reset_heartbeat (broadcast_append_entries r) else r

pub handle_propose : Raft → Str → Raft
handle_propose r cmd =
    let entry : LogEntry = record {
      index = add_u64 (Log.last r.log).0 1;
      term = r.current_term;
      command = cmd;
    } in
    if is_leader r.state
    then advance_commit_index
        (broadcast_append_entries (record r { log = Log.append r.log (entry ∷ []) }))
    else r

-- what the event loop of `run` receives
pub data Event : Type 0 where
  append_entries : AppendEntriesRequest → Event
  append_entries_response : ℕ → AppendEntriesResponse → Event
  request_vote : RequestVoteRequest → Event
  request_vote_response : RequestVoteResponse → Event
  propose : Str → Event
  election_timeout heartbeat_timeout : Event

pub handle : Raft → Event → Raft
handle r (append_entries req) = handle_append_entries r req
handle r (append_entries_response from resp) = handle_append_entries_response r from resp
handle r (request_vote req) = handle_request_vote r req
handle r (request_vote_response resp) = handle_request_vote_response r resp
handle r (propose cmd) = handle_propose r cmd
handle r election_timeout = handle_election_timeout r
handle r heartbeat_timeout = handle_heartbeat_timeout r

pub run : Raft → List Event → Raft
run r [] = r
run r (e ∷ events) = run (handle r e) events
