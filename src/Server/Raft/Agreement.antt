-- ===== src/Server/Raft/Agreement.antt =====
-- net/raft_cmd.go: a write through the log answers as a write on the cache does.
pub mod Hashes
pub mod Lists
use mcache.Prelude.{
  ℕ, ◌+◌, ◌%◌, ◌^◌, ◌≡◌, ◌<◌, refl, sym, ◌∙◌, ap, Bool, true, false, Option, none, some, List, [],
  ◌∷◌, Str, if◌then◌else◌, ◌==◌, ◌||◌, ltb, ◌⊎◌, arith, inl, inr, Bool-cases, Option-cases,
}
use mathlib.Core.Path.{subst}
use mcache.Prelude.Panics.{Panics, returns, panic, ◌>>=◌}
use mcache.Ds.Hashes.{Floats}
use mcache.Cache.{Answer}
use mcache.Cache.Typed.{TypedCache}
use mcache.Server.Replies.{reply}
use mcache.Net.Bytes.{any_of}
use mcache.Server.Raft.{RaftCommand, RaftResult, text_of}
use mcache.Server.Raft.Apply.{
  Strings, Json, Node, Write, of_hash, of_list, of_set, set, del, cleanup, other, write, forget,
  apply_hash, apply_list, apply_set, apply_as, outcome, record_outcome, apply, without, notify,
  on_raft_apply,
}
use mcache.Server.Raft.Replicated.{
  received, Proposal, refused, waiting, raft_propose, awaited, finish, through_log,
}

-- what a reader gets of a command: `omitempty` leaves an empty value out
abbrev pub sent_value : Option Str → Option Str
sent_value (some (b ∷ v)) = some (b ∷ v)
sent_value _ = none

abbrev pub as_read : {F : Type 0} → RaftCommand F → RaftCommand F
as_read rc = record rc { value = sent_value rc.value }

pub text_of-sent_value : (v : Option Str) → text_of (sent_value v) ≡ text_of v
text_of-sent_value none = refl
text_of-sent_value (some []) = refl
text_of-sent_value (some (b ∷ v)) = refl

-- What the code relies on of `encoding/json`: it writes and reads back commands whose strings are
-- UTF-8 and whose float is a number.
pub record Laws {F : Type 0} (json : Json F) : Type 1 where
  pub IsPlain : RaftCommand F → Type 0
  pub reads :
      (rc : RaftCommand F)
      → IsPlain rc
      → (entry : List ℕ) × (json.marshal rc ≡ some entry)
        × (json.unmarshal entry ≡ some (as_read rc))

Panics-cases : {A : Type 0} (p : Panics A) → (p ≡ panic) ⊎ ((a : A) × (p ≡ returns a))
Panics-cases panic = inl refl
Panics-cases (returns a) = inr (a, refl)

-- A result of the log and the cache's own answer, made responses.
pub recorded-reply :
    {A R : Type 0} (fl : Floats) (zero_float : fl.Float) (call : Panics (TypedCache × Answer A))
    → (fill : A → RaftResult fl.Float → RaftResult fl.Float)
    → (respond : RaftResult fl.Float → R) (resp : Answer A → R)
    → ((answer : Answer A) → respond (outcome fl zero_float fill answer) ≡ resp answer)
    → (record_outcome fl zero_float call fill >>= λ out. returns (out.0, respond out.1))
      ≡ reply call resp
recorded-reply fl zero_float panic fill respond resp h = refl
recorded-reply fl zero_float (returns out) fill respond resp h =
    ap (λ r. returns (out.0, r)) (h out.1)

module _ (fl : Floats) (zero_float : fl.Float) (strings : Strings) (json : Json fl.Float) where
  abbrev pub State : Type 0
  State = Node fl zero_float strings

  -- The entry is not one of the request `id`.
  abbrev pub IsOther : ℕ → List ℕ → Type 0
  IsOther id entry =
      (rc : RaftCommand fl.Float) → json.unmarshal entry ≡ some rc → id == rc.req_id ≡ false

  -- entries applied one after the other, each with what `SPop` draws in it
  unfoldable pub apply_all : List (ℕ × List ℕ) → State → Panics State
  apply_all [] n = returns n
  apply_all (e ∷ entries) n =
      on_raft_apply fl zero_float strings json e.0 n e.1 >>= λ n'. apply_all entries n'

  abbrev pub AreOther : ℕ → List (ℕ × List ℕ) → Type 0
  AreOther id [] = Unit
  AreOther id (e ∷ entries) = IsOther id e.1 × AreOther id entries

  -- The request waits, and has no result yet.
  pub record Waits (id : ℕ) (n : State) : Type 0 where
    pub pending : any_of id n.pending ≡ true
    pub no_result : received id n.results ≡ none

  without-other :
      (id by : ℕ) (pending : List ℕ)
      → id == by ≡ false
      → any_of id (without fl zero_float strings by pending) ≡ any_of id pending
  unfolding without
  without-other id by [] h = refl
  without-other id by (i ∷ pending) h = ground (arith, h, without-other id by pending h)

  notify-Waits :
      (id by : ℕ) (res : RaftResult fl.Float) (n : State)
      → id == by ≡ false
      → Waits id n
      → Waits id (notify fl zero_float strings by res n)
  unfolding notify received
  notify-Waits id by res n h w =
      ground (arith, h, w.pending, w.no_result, without-other id by n.pending h)

  -- If the call returns, what waits and what was handed over is as before.
  data Kept (n : State) : Panics (State × RaftResult fl.Float) → Type 0 where
    panics : Kept n panic
    keeps :
        (out : State × RaftResult fl.Float)
        → out.0.pending ≡ n.pending
        → out.0.results ≡ n.results
        → Kept n (returns out)

  changed-Kept :
      {A : Type 0} (n : State) (f : A → State × RaftResult fl.Float) (call : Panics A)
      → ((a : A) → ((f a).0.pending ≡ n.pending) × ((f a).0.results ≡ n.results))
      → Kept n (call >>= λ out. returns (f out))
  changed-Kept n f panic h = panics
  changed-Kept n f (returns a) h = keeps (f a) (h a).0 (h a).1

  apply_as-Kept :
      (w : Write) (draw : ℕ) (n : State) (rc : RaftCommand fl.Float)
      → Kept n (apply_as fl zero_float strings w draw n rc)
  unfolding apply_as
  apply_as-Kept (of_hash cmd) draw n rc =
      changed-Kept n (λ out. (record n { typed = out.0 }, out.1))
        (apply_hash fl zero_float cmd n.typed rc) (λ a. (refl, refl))
  apply_as-Kept (of_list cmd) draw n rc =
      changed-Kept n (λ out. (record n { typed = out.0 }, out.1))
        (apply_list fl zero_float cmd n.typed rc) (λ a. (refl, refl))
  apply_as-Kept (of_set cmd) draw n rc =
      changed-Kept n (λ out. (record n { typed = out.0 }, out.1))
        (apply_set fl zero_float draw cmd n.typed rc) (λ a. (refl, refl))
  apply_as-Kept set draw n rc = keeps _ refl refl
  apply_as-Kept del draw n rc = elim (Panics-cases (forget n.typed rc.key)) [
    | inl p ↦ rw p panics
    | inr (out, p) ↦ rw p (keeps _ refl refl)
  ]
  apply_as-Kept cleanup draw n rc = keeps _ refl refl
  apply_as-Kept other draw n rc = keeps _ refl refl

  apply-Kept :
      (draw : ℕ) (n : State) (rc : RaftCommand fl.Float)
      → Kept n (apply fl zero_float strings draw n rc)
  unfolding apply
  apply-Kept draw n rc = apply_as-Kept (write rc.op) draw n rc

  told-Waits :
      (id : ℕ) (b : Bool) (by : ℕ) (res : RaftResult fl.Float) (n : State)
      → id == by ≡ false
      → Waits id n
      → Waits id (if b then notify fl zero_float strings by res n else n)
  told-Waits id true by res n h w = notify-Waits id by res n h w
  told-Waits id false by res n h w = w

  -- the end of `onRaftApply`, on the node and the result of the command
  abbrev pub told : ℕ → State × RaftResult fl.Float → State
  told id out = if ltb 0 id then notify fl zero_float strings id out.1 out.0 else out.0

  applied-Waits :
      (id by : ℕ) (n n' : State) (call : Panics (State × RaftResult fl.Float))
      → Kept n call
      → id == by ≡ false
      → Waits id n
      → (call >>= λ out. returns (told by out)) ≡ returns n'
      → Waits id n'
  applied-Waits id by n n' panic k h w e = absurd (cc)
  applied-Waits id by n n' (returns out) (keeps _ p r) h w e =
      let same : told by out ≡ n' = cc in
      subst (Waits id) same (
        told-Waits id (ltb 0 by) by out.1 out.0 h (record {
          pending = ap (any_of id) p ∙ w.pending;
          no_result = ap (received id) r ∙ w.no_result;
        }))

  on_raft_apply-Waits :
      (id draw : ℕ) (n n' : State) (entry : List ℕ)
      → IsOther id entry
      → Waits id n
      → on_raft_apply fl zero_float strings json draw n entry ≡ returns n'
      → Waits id n'
  unfolding on_raft_apply
  on_raft_apply-Waits id draw n n' entry o w e = elim (Option-cases (json.unmarshal entry)) [
    | inl u ↦ let same : n ≡ n' = cc (rw (u, on_raft_apply) at e) in subst (Waits id) same w
    | inr (rc, u) ↦
        applied-Waits id rc.req_id n n' (apply fl zero_float strings draw n rc)
          (apply-Kept draw n rc) (o rc u) w (rw (u, on_raft_apply) at e)
  ]

  -- Entries of others leave a request waiting.
  apply_all-Waits :
      (id : ℕ) (entries : List (ℕ × List ℕ)) (n n' : State)
      → AreOther id entries
      → Waits id n
      → apply_all entries n ≡ returns n'
      → Waits id n'
  unfolding apply_all
  apply_all-Waits id [] n n' o w e = let same : n ≡ n' = cc in subst (Waits id) same w
  apply_all-Waits id (x ∷ entries) n n' (o, os) w e =
      elim (Panics-cases (on_raft_apply fl zero_float strings json x.0 n x.1)) [
        | inl p ↦ let wrong : panic ≡ returns n' = rw p at e in absurd (cc)
        | inr (m, p) ↦
            apply_all-Waits id entries m n' os (on_raft_apply-Waits id x.0 n m x.1 o w p)
              (rw p at e)
      ]

  -- What is handed over for a request that waits.
  told-received :
      (id : ℕ) (n : State) (out : State × RaftResult fl.Float)
      → 0 < id
      → Waits id n
      → out.0.pending ≡ n.pending
      → (received id (told id out).results ≡ some out.1) × ((told id out).typed ≡ out.0.typed)
  unfolding notify received
  told-received id n out pos w p = ground (arith, pos, w.pending, p)

  module _ (entries : List (ℕ × List ℕ)) (draw id : ℕ) (rc : RaftCommand fl.Float)
      (n later : State) where
    -- the node applies the entries of others, and then that of the request
    abbrev pub meanwhile : List ℕ → State → Panics State
    meanwhile entry n =
        apply_all entries n >>= λ n'. on_raft_apply fl zero_float strings json draw n' entry

    -- the node with the request waiting
    abbrev pub waiting_node : State
    waiting_node = record n { next_id = id; pending = id ∷ n.pending }

    -- The request gets the number `id`; the entries of others, which are applied before its own,
    -- leave the node `later`.
    pub record Setting (laws : Laws json) : Type 0 where
      pub numbered : (n.next_id + 1) % 2 ^ 64 ≡ id
      pub positive : 0 < id
      pub fresh : received id n.results ≡ none
      pub plain : laws.IsPlain (record rc { req_id = id })
      pub others : AreOther id entries
      pub applied : apply_all entries waiting_node ≡ returns later

    module _ (laws : Laws json) (setting : Setting laws) (json_error : Str) where
      entry_read :
          (entry : List ℕ) × (json.marshal (record rc { req_id = id }) ≡ some entry)
          × (json.unmarshal entry ≡ some (as_read (record rc { req_id = id })))
      entry_read = laws.reads (record rc { req_id = id }) setting.plain

      later-Waits : Waits id later
      unfolding received
      later-Waits =
          apply_all-Waits id entries waiting_node later setting.others
            (record { pending = ground arith; no_result = setting.fresh }) setting.applied

      proposed :
          (entry : List ℕ)
          → json.marshal (record rc { req_id = id }) ≡ some entry
          → raft_propose fl zero_float strings json json_error true true n rc
            ≡ waiting waiting_node id entry
      unfolding raft_propose
      proposed entry m =
          let m' : json.marshal (record rc { req_id = (n.next_id + 1) % 2 ^ 64 }) ≡ some entry =
            rw setting.numbered m in
          rw (m', raft_propose) (rw setting.numbered refl)

      module _ {R : Type 0} (respond : RaftResult fl.Float → R) (deny : Str → R) where
        -- the cache and the response that the command's own call leaves
        abbrev pub direct : Panics (TypedCache × RaftResult fl.Float) → Panics (TypedCache × R)
        direct call = call >>= λ out. returns (out.0, respond out.1)

        abbrev pub logged : Panics (TypedCache × R)
        logged =
            through_log fl zero_float strings json json_error true true meanwhile respond deny n rc
            >>= λ out. returns (out.0.typed, out.1)

        delivered :
            (m : State) (out : TypedCache × RaftResult fl.Float)
            → received id m.results ≡ some out.1
            → finish fl zero_float strings json json_error respond deny id m ≡ (m, respond out.1)
        unfolding finish awaited
        delivered m out got = rw (got, awaited) refl

        -- the node after the request's entry
        abbrev handed : TypedCache × RaftResult fl.Float → State
        handed out = told id (record later { typed = out.0 }, out.1)

        pub logged-direct :
            (call : Panics (TypedCache × RaftResult fl.Float))
            → apply fl zero_float strings draw later (as_read (record rc { req_id = id }))
              ≡ (call >>= λ out. returns (record later { typed = out.0 }, out.1))
            → logged ≡ direct call
        unfolding through_log on_raft_apply
        logged-direct panic e =
            let (entry, m, u) = entry_read in
            rw (proposed entry m, through_log, setting.applied, u, e, on_raft_apply) refl
        logged-direct (returns out) e =
            let (entry, m, u) = entry_read in
            let (got, kept) =
              told-received id later (record later { typed = out.0 }, out.1) setting.positive
                later-Waits refl in
            rw (proposed entry m, through_log, setting.applied, u, e, on_raft_apply)
              (let d : finish fl zero_float strings json json_error respond deny id (handed out)
                    ≡ (handed out, respond out.1) =
                  delivered (handed out) out got in
                let same : returns (
                  (finish fl zero_float strings json json_error respond deny id
                      (handed out)).0.typed,
                  (finish fl zero_float strings json json_error respond deny id (handed out)).1,
                )
                    ≡ returns (out.0, respond out.1) =
                  rw d (rw kept refl) in
                same)
