-- ===== src/Raft/Node/Tests.antt =====
-- raft/raft.go: runs of single nodes.
use mcache.Prelude.{◌≡◌, ◌⊎◌, refl, [], ◌∷◌, ◌++◌, arith, ℕ_discrete}
use mcache.Prelude.Dict.{lookup, insert}
use mcache.Raft.Log
use mcache.Raft.State.{Raft, RequestVoteRequest, AppendEntriesRequest, new_raft, candidate}
use mcache.Raft.Node.{
  become_follower, become_candidate, become_leader, per_peer, apply_loop, apply_committed,
  count_matches, advance_loop, advance_commit_index, send_append_entries_to, each_peer,
  broadcast_append_entries, broadcast_request_vote, answer_ae, consistent, merge_entries,
  follow_commit, catch_up, adopt, handle_append_entries, answer_rv, log_ok, handle_request_vote,
  handle_election_timeout, handle_propose, handle, run, election_timeout, request_vote, propose,
}
use mcache.Raft.Node.Votes.{Grows, handle-Grows}
use mcache.Raft.Node.Elections.{
  Grants, Denies, IsGranted, IsBelow, handle_request_vote_lem, run-one_vote,
}
use mcache.Raft.Node.Apply.{messages, advanced, apply_committed-messages}

abbrev node : Raft
node = new_raft 1 3

-- candidate 2 asks for the vote in term 4
abbrev ask : RequestVoteRequest
ask = record { term = 4; candidate_id = 2; last_log_index = 0; last_log_term = 0 }

handle-Grows_example : Grows node (handle node (request_vote ask))
handle-Grows_example = handle-Grows node (request_vote ask) (omega arith)

handle_request_vote_lem_example :
    Grants node (handle_request_vote node ask) ask ⊎ Denies node (handle_request_vote node ask) ask
handle_request_vote_lem_example = handle_request_vote_lem node ask

IsGranted-once : IsGranted node ask
unfolding IsGranted handle_request_vote answer_rv catch_up become_follower log_ok Log.last
IsGranted-once = refl

asked_again : IsBelow (handle_request_vote node ask) (propose [] ∷ [])
unfolding IsBelow handle_request_vote answer_rv catch_up become_follower log_ok Log.last
asked_again = (omega arith, tt)

IsGranted-twice : IsGranted (run (handle_request_vote node ask) (propose [] ∷ [])) ask
unfolding IsGranted run handle handle_propose handle_request_vote answer_rv catch_up become_follower
    log_ok Log.last
IsGranted-twice = refl

run-one_vote_example : ask.candidate_id ≡ ask.candidate_id
run-one_vote_example =
    run-one_vote node ask ask (propose [] ∷ []) IsGranted-once asked_again IsGranted-twice refl
      (omega arith)

-- a node that has committed one entry and applied none
abbrev behind : Raft
behind = record node {
  log = Log.new_log ++ record { index = 1; term = 4; command = b'x' ∷ [] } ∷ [];
  commit_index = 1;
}

apply_committed-messages_example :
    apply_committed behind ≡ advanced behind 1 (behind.effects ++ messages 1 0 behind.log)
apply_committed-messages_example = apply_committed-messages behind (omega arith) (omega arith)

-- A cluster of one node never has a leader: the node becomes a candidate, and no answer comes.
alone_test : (handle (new_raft 1 1) election_timeout).state ≡ candidate
unfolding handle handle_election_timeout become_candidate broadcast_request_vote each_peer Log.last
alone_test = refl

-- a request that repeats the first of two entries
abbrev repeated : AppendEntriesRequest
repeated = record {
  term = 4;
  leader_id = 2;
  prev_log_index = 0;
  prev_log_term = 0;
  entries = record { index = 1; term = 4; command = b'x' ∷ [] } ∷ [];
  leader_commit = 2;
}

-- a node in term 4 with two entries, both committed and applied
abbrev committed : Raft
committed = record node {
  current_term = 4;
  log =
      Log.new_log
      ++ record { index = 1; term = 4; command = b'x' ∷ [] }
        ∷ record { index = 2; term = 4; command = b'y' ∷ [] }
        ∷ [];
  commit_index = 2;
  last_applied = 2;
}

-- The repeated request, which matches the log, drops a committed entry.
repeated_test : Log.len (handle_append_entries committed repeated).log ≡ 1
unfolding handle_append_entries answer_ae follow_commit merge_entries consistent adopt catch_up
    Log.append Log.truncate Log.len
repeated_test = refl

slice_test : Log.slice committed.log 2 9 ≡ record { index = 2; term = 4; command = b'y' ∷ [] } ∷ []
unfolding Log.slice Log.get
slice_test = refl

leader_test :
    (handle_propose (become_leader (become_candidate node)) []).next_index ≡ (2, 1) ∷ (3, 1) ∷ []
unfolding handle_propose become_leader become_candidate per_peer Log.last broadcast_append_entries
    each_peer send_append_entries_to advance_commit_index advance_loop apply_committed apply_loop
    count_matches Log.append insert lookup ℕ_discrete
leader_test = refl
