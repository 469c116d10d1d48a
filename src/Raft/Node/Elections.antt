-- ===== src/Raft/Node/Elections.antt =====
-- raft/raft.go: what a node answers to requests for its vote, one by one and in a run.
use mcache.Prelude.{
  ℕ, ◌+◌, ◌^◌, ◌≡◌, ◌≢◌, ◌≤◌, ◌<◌, refl, sym, ap, ◌∙◌, Bool, true, false, Option, none, some, List,
  [], ◌∷◌, ◌++◌, ltb, ◌==◌, arith, inl, inr, ◌⊎◌, Bool-cases, ◌&&◌, ◌||◌,
}
use mcache.Raft.State.{Raft, Effect, emit, RequestVoteRequest, answer_vote}
use mcache.Raft.Node.{
  become_follower, catch_up, answer_rv, handle_request_vote, Event, handle, run, log_ok,
}
use mcache.Raft.Node.Votes.{handle-Grows, handle_request_vote-Grows}

abbrev pub final : List Effect → Option Effect
final [] = none
final (e ∷ []) = some e
final (e ∷ e' ∷ es) = final (e' ∷ es)

final-emit : (es : List Effect) (e : Effect) → final (es ++ e ∷ []) ≡ some e
final-emit [] e = refl
final-emit (d ∷ []) e = refl
final-emit (d ∷ d' ∷ es) e = final-emit (d' ∷ es) e

abbrev pub vote_for_term : ℕ → Bool → Option Effect
vote_for_term term granted = some (answer_vote (record { term = term; vote_granted = granted }))

-- The vote is granted, in the request's term: it was free or the candidate's, the candidate's log
-- is at least as new, and the node remembers the candidate.
pub record Grants (r r' : Raft) (req : RequestVoteRequest) : Type 0 where
  answer : final r'.effects ≡ vote_for_term req.term true
  term : r'.current_term ≡ req.term
  vote : r'.voted_for ≡ req.candidate_id
  newer : log_ok r.log req ≡ true
  free : (r.current_term < req.term) ⊎ (r.voted_for ≡ 0) ⊎ (r.voted_for ≡ req.candidate_id)

-- The vote is denied, for a reason: an old term, a vote for another candidate, or an older log.
pub record Denies (r r' : Raft) (req : RequestVoteRequest) : Type 0 where
  answer : final r'.effects ≡ vote_for_term r'.current_term false
  reason :
      (req.term < r.current_term)
      ⊎ (log_ok r.log req ≡ false)
      ⊎ ((r.voted_for ≢ 0) × (r.voted_for ≢ req.candidate_id) × (req.term ≡ r.current_term))

answer_rv-final :
    (b : Bool) (r : Raft) → final (answer_rv b r).effects ≡ vote_for_term r.current_term b
unfolding answer_rv
answer_rv-final b r = final-emit r.effects _

answer_rv-voted_for : (b : Bool) (r : Raft) → (answer_rv b r).voted_for ≡ r.voted_for
unfolding answer_rv
answer_rv-voted_for b r = refl

answer_rv-current_term : (b : Bool) (r : Raft) → (answer_rv b r).current_term ≡ r.current_term
unfolding answer_rv
answer_rv-current_term b r = refl

-- the state in which a vote is granted
granted : Raft → RequestVoteRequest → Raft
granted r req =
    emit Effect.reset_election_timer (record (catch_up r req.term) { voted_for = req.candidate_id })

granted-current_term :
    (r : Raft) (req : RequestVoteRequest)
    → (granted r req).current_term ≡ (catch_up r req.term).current_term
unfolding granted
granted-current_term r req = refl

granted-voted_for :
    (r : Raft) (req : RequestVoteRequest) → (granted r req).voted_for ≡ req.candidate_id
unfolding granted
granted-voted_for r req = refl

catch_up-current_term :
    (r : Raft) (t : ℕ) → ltb t r.current_term ≡ false → (catch_up r t).current_term ≡ t
unfolding catch_up become_follower
catch_up-current_term r t fresh = ground arith

catch_up-log : (r : Raft) (t : ℕ) → (catch_up r t).log ≡ r.log
unfolding catch_up become_follower
catch_up-log r t = ground arith

catch_up-voted_for :
    (r : Raft) (t : ℕ)
    → ((r.current_term < t) × ((catch_up r t).voted_for ≡ 0))
      ⊎ ((t ≤ r.current_term) × ((catch_up r t).voted_for ≡ r.voted_for))
unfolding catch_up become_follower
catch_up-voted_for r t = ground arith

-- Every request for a vote is granted in the request's term, with the candidate remembered, its log
-- new enough and the vote free for it; or it is denied, for an old term, an older log or a vote for
-- another candidate.
pub handle_request_vote_lem :
    (r : Raft) (req : RequestVoteRequest)
    → Grants r (handle_request_vote r req) req ⊎ Denies r (handle_request_vote r req) req
unfolding handle_request_vote granted
handle_request_vote_lem r req =
    let c = catch_up r req.term in
    elim (Bool-cases (ltb req.term r.current_term)) [
      | inl stale ↦ rw stale (
          inr (record {
            answer =
                answer_rv-final false r
                ∙ ap (λ t. vote_for_term t false) (sym (answer_rv-current_term false r));
            reason = inl (ground arith);
          }))
      | inr fresh ↦
          elim (Bool-cases
            ((c.voted_for == 0 || c.voted_for == req.candidate_id) && log_ok c.log req)) [
              | inl ok ↦
                  rw (fresh, ok)
                    (inl (record {
                      answer =
                          answer_rv-final true (granted r req)
                          ∙ ap (λ t. vote_for_term t true)
                              (granted-current_term r req ∙ catch_up-current_term r req.term fresh);
                      term =
                          answer_rv-current_term true (granted r req)
                          ∙ granted-current_term r req
                          ∙ catch_up-current_term r req.term fresh;
                      vote = answer_rv-voted_for true (granted r req) ∙ granted-voted_for r req;
                      newer = (let l = catch_up-log r req.term in ground (arith, l, ok));
                      free = (let v = catch_up-voted_for r req.term in ground (arith, v, ok));
                    }))
              | inr bad ↦
                  rw (fresh, bad)
                    (inr (record {
                      answer =
                          answer_rv-final false c
                          ∙ ap (λ t. vote_for_term t false) (sym (answer_rv-current_term false c));
                      reason =
                          (let v = catch_up-voted_for r req.term in
                            let l = catch_up-log r req.term in ground (arith, v, l, bad));
                    }))
            ]
    ]

-- Every event of the sequence finds the node's term below 2^64 - 1.
unfoldable pub IsBelow : Raft → List Event → Type 0
IsBelow r [] = Unit
IsBelow r (e ∷ events) = (r.current_term + 1 < 2 ^ 64) × IsBelow (handle r e) events

run-term :
    (r : Raft) (events : List Event)
    → IsBelow r events
    → r.current_term ≤ (run r events).current_term
unfolding IsBelow run
run-term r [] b = omega arith
run-term r (e ∷ events) (small, b) =
    let g = handle-Grows r e small in
    let rest = run-term (handle r e) events b in omega (arith, g.term, rest)

-- A vote that is given stays with its candidate as long as the term stays.
run-voted_for :
    (r : Raft) (events : List Event)
    → IsBelow r events
    → r.voted_for ≢ 0
    → (run r events).current_term ≡ r.current_term
    → (run r events).voted_for ≡ r.voted_for
unfolding IsBelow run
run-voted_for r [] b voted same = refl
run-voted_for r (e ∷ events) (small, b) voted same =
    let g = handle-Grows r e small in
    let later = run-term (handle r e) events b in
    let rest = run-voted_for (handle r e) events b in
    let kept : (handle r e).voted_for ≡ r.voted_for = ground (arith, g.vote, later, same, voted) in
    rest (λ z. voted (sym kept ∙ z)) (omega (arith, g.term, later, same)) ∙ kept

-- A node's answer grants its vote for a term.
unfoldable pub IsGranted : Raft → RequestVoteRequest → Type 0
IsGranted r req = final (handle_request_vote r req).effects ≡ vote_for_term req.term true

abbrev answered : Option Effect → Bool
answered (some (answer_vote resp)) = resp.vote_granted
answered e = false

IsGranted-Grants :
    (r : Raft) (req : RequestVoteRequest)
    → IsGranted r req
    → Grants r (handle_request_vote r req) req
unfolding IsGranted
IsGranted-Grants r req g = elim (handle_request_vote_lem r req) [
  | inl granting ↦ granting
  | inr denying ↦ absurd (let e = ap answered (sym g ∙ denying.answer) in ground (arith, e))
]

-- When a node grants two requests of one term, with any events between them, each of which finds
-- the node's term below 2^64 - 1, both name the same candidate; the first names a candidate other
-- than 0.
pub run-one_vote :
    (r : Raft) (first second : RequestVoteRequest) (events : List Event)
    → IsGranted r first
    → IsBelow (handle_request_vote r first) events
    → IsGranted (run (handle_request_vote r first) events) second
    → first.term ≡ second.term
    → first.candidate_id ≢ 0
    → second.candidate_id ≡ first.candidate_id
run-one_vote r first second events g b g' same c =
    let s = handle_request_vote r first in
    let t = run s events in
    let one = IsGranted-Grants r first g in
    let two = IsGranted-Grants t second g' in
    let later = run-term s events b in
    let held = handle_request_vote-Grows t second in
    let still : t.current_term ≡ s.current_term =
      omega (arith, one.term, two.term, later, held.term, same) in
    let kept = run-voted_for s events b (λ z. c (sym one.vote ∙ z)) still in
    ground (arith, two.free, one.term, one.vote, kept, still, same, c)
