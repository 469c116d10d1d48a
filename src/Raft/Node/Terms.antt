-- ===== src/Raft/Node/Terms.antt =====
-- raft/raft.go: the term and the vote where a handler sends messages or applies entries.
use mcache.Prelude.{
  ℕ, zero, suc, ◌+◌, ◌^◌, ◌%◌, ◌≡◌, refl, ◌∙◌, Option, none, some, ◌==◌, ℕ_discrete, inl, inr,
  Bool-cases, Option-cases,
}
use mcache.Prelude.Dict.{lookup}
use mcache.Raft.Log
use mcache.Raft.State.{Raft}
use mcache.Raft.Node.{
  apply_entry, apply_loop, apply_committed, advance_commit_index, send_append_entries_to, each_peer,
  is_leader,
}

-- The term and the vote are as before.
pub record Keeps (r r' : Raft) : Type 0 where
  pub term : r'.current_term ≡ r.current_term
  pub vote : r'.voted_for ≡ r.voted_for

pub Keeps-refl : (r : Raft) → Keeps r r
Keeps-refl r = record { term = refl; vote = refl }

pub Keeps-trans : (r s t : Raft) → Keeps r s → Keeps s t → Keeps r t
Keeps-trans r s t h k = record { term = k.term ∙ h.term; vote = k.vote ∙ h.vote }

apply_entry-Keeps : (e : Option Log.LogEntry) (r : Raft) → Keeps r (apply_entry e r)
apply_entry-Keeps none r = Keeps-refl r
apply_entry-Keeps (some e) r = record { term = refl; vote = refl }

pub apply_loop-Keeps : (rounds : ℕ) (r : Raft) → Keeps r (apply_loop rounds r)
unfolding apply_loop
apply_loop-Keeps zero r = Keeps-refl r
apply_loop-Keeps (suc rounds) r =
    let s : Raft = record r { last_applied = (r.last_applied + 1) % 2 ^ 64 } in
    let t : Raft = apply_entry (Log.get r.log s.last_applied) s in
    let a : Keeps s t = apply_entry-Keeps (Log.get r.log s.last_applied) s in
    let b : Keeps t (apply_loop rounds t) = apply_loop-Keeps rounds t in
    record { term = b.term ∙ a.term; vote = b.vote ∙ a.vote }

pub advance_commit_index-Keeps : (r : Raft) → Keeps r (advance_commit_index r)
unfolding advance_commit_index apply_committed
advance_commit_index-Keeps r = elim (Bool-cases (is_leader r.state)) [
  | inr no_leader ↦ rw no_leader (Keeps-refl r)
  | inl lead ↦ rw lead (let a = apply_loop-Keeps _ _ in record { term = a.term; vote = a.vote })
]

pub send-Keeps : (r : Raft) (peer : ℕ) → Keeps r (send_append_entries_to r peer)
unfolding send_append_entries_to
send-Keeps r peer = elim (Option-cases (lookup ℕ_discrete peer r.next_index)) [
  | inl none_there ↦ rw none_there (Keeps-refl r)
  | inr (n, there) ↦ rw there (record { term = refl; vote = refl })
]

pub each_peer-Keeps :
    (rounds pid : ℕ) (f : Raft → ℕ → Raft) (r : Raft)
    → ((s : Raft) (k : ℕ) → Keeps s (f s k))
    → Keeps r (each_peer rounds pid f r)
unfolding each_peer
each_peer-Keeps zero pid f r h = Keeps-refl r
each_peer-Keeps (suc rounds) pid f r h = elim (Bool-cases (pid == r.node_id)) [
  | inl self ↦ rw self (each_peer-Keeps rounds (pid + 1) f r h)
  | inr other ↦
      rw other
        (Keeps-trans r (f r pid) _ (h r pid) (each_peer-Keeps rounds (pid + 1) f (f r pid) h))
]
