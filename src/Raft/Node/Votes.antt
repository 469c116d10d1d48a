-- ===== src/Raft/Node/Votes.antt =====
-- raft/raft.go: the term and the vote before and after each handler.
use mcache.Prelude.{
  ℕ, ◌+◌, ◌^◌, ◌≡◌, ◌≤◌, ◌<◌, refl, Bool, true, false, Str, ltb, arith, inl, inr, ◌⊎◌, Bool-cases,
}
use mcache.Raft.State.{
  Raft, RequestVoteRequest, RequestVoteResponse, AppendEntriesRequest, AppendEntriesResponse,
}
use mcache.Raft.Node.{
  become_follower, become_candidate, become_leader, apply_committed, send_append_entries_to,
  broadcast_append_entries, broadcast_request_vote, answer_ae, follow_commit, record_match,
  back_off, catch_up, adopt, consistent, merge_entries, handle_append_entries,
  handle_append_entries_response, answer_rv, handle_request_vote, handle_request_vote_response,
  handle_election_timeout, handle_heartbeat_timeout, handle_propose, Event, append_entries,
  append_entries_response, request_vote, request_vote_response, propose, election_timeout,
  heartbeat_timeout, handle, is_leader,
}
use mcache.Raft.Node.Terms.{
  Keeps, Keeps-refl, Keeps-trans, apply_loop-Keeps, advance_commit_index-Keeps, send-Keeps,
  each_peer-Keeps,
}

-- The term has grown; or it is as before, and so is the vote unless there was none.
pub record Grows (r r' : Raft) : Type 0 where
  pub term : r.current_term ≤ r'.current_term
  pub vote : (r.current_term < r'.current_term) ⊎ (r.voted_for ≡ 0) ⊎ (r'.voted_for ≡ r.voted_for)

Keeps-Grows : (r r' : Raft) → Keeps r r' → Grows r r'
Keeps-Grows r r' k = record { term = omega (arith, k.term); vote = inr (inr k.vote) }

Grows-Keeps : (r s t : Raft) → Grows r s → Keeps s t → Grows r t
Grows-Keeps r s t g k = ground (arith, g.vote, g.term, k.term, k.vote)

Keeps-then : (r s t : Raft) → Keeps r s → Grows s t → Grows r t
Keeps-then r s t k g = ground (arith, g.vote, g.term, k.term, k.vote)

become_follower-Grows : (r : Raft) (t : ℕ) → r.current_term < t → Grows r (become_follower r t)
unfolding become_follower
become_follower-Grows r t h = ground arith

follow_commit-Keeps : (r : Raft) (req : AppendEntriesRequest) → Keeps r (follow_commit r req)
unfolding follow_commit apply_committed
follow_commit-Keeps r req = elim (Bool-cases (ltb r.commit_index req.leader_commit)) [
  | inr same ↦ rw same (Keeps-refl r)
  | inl more ↦ rw more (let a = apply_loop-Keeps _ _ in record { term = a.term; vote = a.vote })
]

become_leader-Keeps : (r : Raft) → Keeps r (become_leader r)
unfolding become_leader
become_leader-Keeps r = record { term = refl; vote = refl }

pub catch_up-Grows : (r : Raft) (t : ℕ) → Grows r (catch_up r t)
unfolding catch_up become_follower
catch_up-Grows r t = ground arith

adopt-Grows : (r : Raft) (req : AppendEntriesRequest) → Grows r (adopt r req)
unfolding adopt
adopt-Grows r req = let g = catch_up-Grows r req.term in record { term = g.term; vote = g.vote }

answer_ae-Keeps : (req : AppendEntriesRequest) (b : Bool) (r : Raft) → Keeps r (answer_ae req b r)
unfolding answer_ae
answer_ae-Keeps req b r = record { term = refl; vote = refl }

handle_append_entries-Grows :
    (r : Raft) (req : AppendEntriesRequest) → Grows r (handle_append_entries r req)
unfolding handle_append_entries
handle_append_entries-Grows r req = elim (Bool-cases (ltb req.term r.current_term)) [
  | inl stale ↦ rw stale (Keeps-Grows _ _ (answer_ae-Keeps req false r))
  | inr fresh ↦ elim (Bool-cases (consistent (adopt r req).log req)) [
    | inl ok ↦
        rw (fresh, ok)
          (let merged : Raft = record (adopt r req) { log = merge_entries (adopt r req).log req } in
            let a : Keeps (adopt r req) merged = record { term = refl; vote = refl } in
            let f = Keeps-trans _ _ _ a (follow_commit-Keeps merged req) in
            Grows-Keeps r (adopt r req) _ (adopt-Grows r req) (
              Keeps-trans _ (follow_commit merged req) _ f
                (answer_ae-Keeps req true (follow_commit merged req))))
    | inr bad ↦
        rw (fresh, bad)
          (Grows-Keeps r (adopt r req) _ (adopt-Grows r req)
            (answer_ae-Keeps req false (adopt r req)))
  ]
]

record_match-Keeps : (r : Raft) (from last : ℕ) → Keeps r (record_match r from last)
unfolding record_match
record_match-Keeps r from last = ground arith

back_off-Keeps : (r : Raft) (from : ℕ) → Keeps r (back_off r from)
unfolding back_off
back_off-Keeps r from = ground arith

higher_term-Grows : (r : Raft) (t : ℕ) → ltb r.current_term t ≡ true → Grows r (become_follower r t)
higher_term-Grows r t h = become_follower-Grows r t (ground arith)

handle_append_entries_response-Grows :
    (r : Raft) (from : ℕ) (resp : AppendEntriesResponse)
    → Grows r (handle_append_entries_response r from resp)
unfolding handle_append_entries_response
handle_append_entries_response-Grows r from resp =
    elim (Bool-cases (ltb r.current_term resp.term)) [
      | inl higher ↦ rw higher (higher_term-Grows r resp.term higher)
      | inr same ↦ rw same (
          Keeps-Grows r _ (elim (Bool-cases (ltb resp.term r.current_term)) [
            | inl lower ↦ rw lower (Keeps-refl r)
            | inr same' ↦ elim (Bool-cases (is_leader r.state)) [
              | inr no_leader ↦ rw (same', no_leader) (Keeps-refl r)
              | inl lead ↦ elim (Bool-cases resp.success) [
                | inl ok ↦
                    rw (same', lead, ok)
                      (Keeps-trans r _ _ (record_match-Keeps r from _)
                        (advance_commit_index-Keeps _))
                | inr fail ↦
                    rw (same', lead, fail)
                      (Keeps-trans r _ _ (back_off-Keeps r from) (send-Keeps _ from))
              ]
            ]
          ]))
    ]

answer_rv-Keeps : (b : Bool) (r : Raft) → Keeps r (answer_rv b r)
unfolding answer_rv
answer_rv-Keeps b r = record { term = refl; vote = refl }

pub handle_request_vote-Grows :
    (r : Raft) (req : RequestVoteRequest) → Grows r (handle_request_vote r req)
unfolding handle_request_vote answer_rv
handle_request_vote-Grows r req =
    let g = catch_up-Grows r req.term in ground (arith, g.term, g.vote)

handle_request_vote_response-Grows :
    (r : Raft) (resp : RequestVoteResponse) → Grows r (handle_request_vote_response r resp)
unfolding handle_request_vote_response become_leader
handle_request_vote_response-Grows r resp = elim (Bool-cases (ltb r.current_term resp.term)) [
  | inl higher ↦ rw higher (higher_term-Grows r resp.term higher)
  | inr same ↦ rw same (ground arith)
]

broadcast_append_entries-Keeps : (r : Raft) → Keeps r (broadcast_append_entries r)
unfolding broadcast_append_entries
broadcast_append_entries-Keeps r = each_peer-Keeps r.peers 1 send_append_entries_to r send-Keeps

broadcast_request_vote-Keeps : (r : Raft) → Keeps r (broadcast_request_vote r)
unfolding broadcast_request_vote
broadcast_request_vote-Keeps r =
    each_peer-Keeps r.peers 1 _ r (λ s k. record { term = refl; vote = refl })

handle_election_timeout-Grows :
    (r : Raft) → r.current_term + 1 < 2 ^ 64 → Grows r (handle_election_timeout r)
unfolding handle_election_timeout become_candidate
handle_election_timeout-Grows r small = elim (Bool-cases (is_leader r.state)) [
  | inl lead ↦ rw lead (Keeps-Grows r r (Keeps-refl r))
  | inr other ↦ rw other (
      Grows-Keeps r _ _ (record { term = omega arith; vote = inl (omega arith) })
        (broadcast_request_vote-Keeps _))
]

handle_heartbeat_timeout-Keeps : (r : Raft) → Keeps r (handle_heartbeat_timeout r)
unfolding handle_heartbeat_timeout
handle_heartbeat_timeout-Keeps r = elim (Bool-cases (is_leader r.state)) [
  | inl lead ↦
      rw lead (let k = broadcast_append_entries-Keeps r in record { term = k.term; vote = k.vote })
  | inr other ↦ rw other (Keeps-refl r)
]

handle_propose-Keeps : (r : Raft) (cmd : Str) → Keeps r (handle_propose r cmd)
unfolding handle_propose
handle_propose-Keeps r cmd = elim (Bool-cases (is_leader r.state)) [
  | inr other ↦ rw other (Keeps-refl r)
  | inl lead ↦ rw lead (
      Keeps-trans r _ _
        (let k = broadcast_append_entries-Keeps _ in record { term = k.term; vote = k.vote })
        (advance_commit_index-Keeps _))
]

-- For every event that a node whose term is below 2^64 - 1 handles, the term does not fall, and
-- when it stays, a vote that was given stays with its candidate.
pub handle-Grows : (r : Raft) (e : Event) → r.current_term + 1 < 2 ^ 64 → Grows r (handle r e)
unfolding handle
handle-Grows r (append_entries req) h = handle_append_entries-Grows r req
handle-Grows r (append_entries_response from resp) h =
    handle_append_entries_response-Grows r from resp
handle-Grows r (request_vote req) h = handle_request_vote-Grows r req
handle-Grows r (request_vote_response resp) h = handle_request_vote_response-Grows r resp
handle-Grows r (propose cmd) h = Keeps-Grows r _ (handle_propose-Keeps r cmd)
handle-Grows r election_timeout h = handle_election_timeout-Grows r h
handle-Grows r heartbeat_timeout h = Keeps-Grows r _ (handle_heartbeat_timeout-Keeps r)
