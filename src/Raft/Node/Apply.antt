-- ===== src/Raft/Node/Apply.antt =====
-- raft/raft.go: the entries that a node hands to the application.
use mcache.Prelude.{
  ℕ, zero, suc, ◌+◌, ◌-◌, ◌^◌, ◌%◌, ◌≡◌, ◌≤◌, ◌<◌, refl, sym, ap, ◌∙◌, Option, none, some, List, [],
  ◌∷◌, ◌++◌, arith,
}
use mathlib.Core.List.{append_assoc, append-nil}
use mcache.Raft.Log
use mcache.Raft.Log.{Log, LogEntry}
use mcache.Raft.State.{Raft, Effect, apply}
use mcache.Raft.Node.{apply_entry, apply_loop, apply_committed}

abbrev message : Option LogEntry → List Effect
message none = []
message (some e) = apply e.index e.command ∷ []

-- the messages for the entries at the next `rounds` indices after `n`
pub messages : ℕ → ℕ → Log → List Effect
messages zero n l = []
messages (suc rounds) n l = message (Log.get l (n + 1)) ++ messages rounds (n + 1) l

-- the node after it has applied up to an index, with its effects
abbrev pub advanced : Raft → ℕ → List Effect → Raft
advanced r n es = record r { last_applied = n; effects = es }

apply_entry-effects :
    (o : Option LogEntry) (r : Raft)
    → apply_entry o r ≡ advanced r r.last_applied (r.effects ++ message o)
apply_entry-effects none r = ap (advanced r r.last_applied) (sym (append-nil r.effects))
apply_entry-effects (some e) r = refl

apply_loop-messages :
    (rounds : ℕ) (r : Raft)
    → r.last_applied + rounds < 2 ^ 64
    → apply_loop rounds r
      ≡ advanced r (r.last_applied + rounds) (r.effects ++ messages rounds r.last_applied r.log)
unfolding apply_loop messages
apply_loop-messages zero r h =
    ap (λ n. advanced r n r.effects) (omega arith)
    ∙ ap (advanced r (r.last_applied + 0)) (sym (append-nil r.effects))
apply_loop-messages (suc rounds) r h =
    let n = r.last_applied + 1 in
    let entry = message (Log.get r.log n) in
    let next : (r.last_applied + 1) % 2 ^ 64 ≡ n = omega (arith, h) in
    let t : Raft = advanced r n (r.effects ++ entry) in
    ap (λ m. apply_loop rounds (apply_entry (Log.get r.log m) (advanced r m r.effects))) next
    ∙ ap (apply_loop rounds) (apply_entry-effects (Log.get r.log n) (advanced r n r.effects))
    ∙ apply_loop-messages rounds t (omega (arith, h))
    ∙ ap (λ m. advanced r m ((r.effects ++ entry) ++ messages rounds n r.log)) (omega arith)
    ∙ ap (advanced r (r.last_applied + suc rounds))
        (append_assoc r.effects entry (messages rounds n r.log))

-- Applying what is committed hands over, once and in the order of the indices, the entries after
-- the last one applied up to the commit index, changes nothing else, and records the commit index
-- as applied; the commit index is a 64-bit number, and not below the last index applied.
pub apply_committed-messages :
    (r : Raft)
    → r.last_applied ≤ r.commit_index
    → r.commit_index < 2 ^ 64
    → apply_committed r
      ≡ advanced r r.commit_index
          (r.effects ++ messages (r.commit_index - r.last_applied) r.last_applied r.log)
unfolding apply_committed
apply_committed-messages r h k =
    let rounds = r.commit_index - r.last_applied in
    apply_loop-messages rounds r (omega (arith, h, k))
    ∙ ap (λ m. advanced r m (r.effects ++ messages rounds r.last_applied r.log)) (omega (arith, h))
