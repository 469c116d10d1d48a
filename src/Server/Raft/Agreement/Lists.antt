-- ===== src/Server/Raft/Agreement/Lists.antt =====
-- net/server_ext.go: list writes through the log.
use mcache.Prelude.{
  ℕ, ◌≡◌, refl, ap, ◌∙◌, true, none, some, List, Str, arith, inl, inr, get_elem?, Bool-cases,
  Option-cases,
}
use mcache.Prelude.Panics.{Panics, returns, panic, ◌>>=◌}
use mcache.Ds.Hashes.{Floats}
use mcache.Rehash.Shards.{old_shard_index}
use mcache.Shard.Typed.Lists as Shards
use mcache.Cache.{Error, Answer, ok, failed, key_not_found, is_empty}
use mcache.Cache.Typed.{TypedCache, Maps, at_key}
use mcache.Cache.Typed.Lists as Cached
use mcache.Net.Commands.{is_hash_cmd, is_list_cmd, status_ok}
use mcache.Net.ListWire.{Request}
use mcache.Net.ListAnswer.{Response, blank}
use mcache.Server.Replies.{reply, OnMissing, as_error, as_not_found, list_reply}
use mcache.Server.Lists as Lists
use mcache.Server.Lists.{
  Command, push_left, push_right, pop_left, pop_right, len, range, index, set_at, remove, trim,
  insert_by, wait_left, wait_right, positions, unknown, command, process_as, process_list,
}
use mcache.Server.Raft.{
  RaftCommand, RaftResult, Failure, of_cache, is_raft_write_op, bare_command, bare_result,
  with_list_fields, list_req_to_raft, list_result, raft_result_to_list_response,
}
use mcache.Server.Raft.Apply.{
  Strings, Json, write, of_list, apply, apply_as, apply_list, record_outcome, outcome, counted,
  said, numbered, done,
}
use mcache.Server.Raft.Replicated.{process_list_raft}
use mcache.Server.Raft.Agreement.{
  State, Laws, Setting, meanwhile, logged-direct, as_read, text_of-sent_value, Panics-cases,
}

-- the commands that the log takes
abbrev IsWrite : Command → Type 0
IsWrite push_left = Unit
IsWrite push_right = Unit
IsWrite pop_left = Unit
IsWrite pop_right = Unit
IsWrite set_at = Unit
IsWrite remove = Unit
IsWrite trim = Unit
IsWrite insert_by = Unit
IsWrite _ = ⊥

is_raft_write_op-IsWrite :
    (cmd : ℕ) → is_list_cmd cmd ≡ true → is_raft_write_op cmd ≡ true → IsWrite (command cmd)
unfolding is_list_cmd is_raft_write_op
is_raft_write_op-IsWrite cmd h w = ground (arith, h, w)

-- A list command is no hash command.
write-list : (op : ℕ) → is_list_cmd op ≡ true → write op ≡ of_list (command op)
unfolding is_list_cmd is_hash_cmd
write-list op h = ground (arith, h)

-- The handler of a command tells a missing key from other errors, or the answer is not that.
abbrev Fits : OnMissing → {A : Type 0} → Answer A → Type 0
Fits as_error (failed key_not_found) = ⊥
Fits _ _ = Unit

abbrev AllFit : OnMissing → {A : Type 0} → Panics (TypedCache × Answer A) → Type 0
AllFit m panic = Unit
AllFit m (returns out) = Fits m out.1

abbrev BodyFits : OnMissing → {A : Type 0} → Panics (Maps × Answer A) → Type 0
BodyFits m panic = Unit
BodyFits m (returns out) = Fits m out.1

module _ {A : Type 0} where
  ok-Fits : (m : OnMissing) (a : A) → Fits m (ok a)
  ok-Fits as_error a = tt
  ok-Fits as_not_found a = tt

  any-Fits : (answer : Answer A) → Fits as_not_found answer
  any-Fits (ok a) = tt
  any-Fits (failed e) = tt

  all-Fit : (call : Panics (TypedCache × Answer A)) → AllFit as_not_found call
  all-Fit panic = tt
  all-Fit (returns out) = any-Fits out.1

  at_key-AllFit :
      (c : TypedCache) (key : Str) (body : Maps → Panics (Maps × Answer A))
      → ((m : Maps) → BodyFits as_error (body m))
      → AllFit as_error (at_key c key body)
  unfolding at_key
  at_key-AllFit c key body h = elim (Bool-cases c.closed) [
    | inl e ↦ rw e tt
    | inr e ↦ elim (Bool-cases (is_empty key)) [
      | inl k ↦ rw (e, k) tt
      | inr k ↦ elim (Option-cases (get_elem? c.table (old_shard_index key c.mask))) [
        | inl g ↦ rw (e, k, g) tt
        | inr (m, g) ↦ elim (Panics-cases (body m)) [
          | inl b ↦ rw (e, k, g, b) tt
          | inr (out, b) ↦
              let fits : BodyFits as_error (returns out) = rw b at (h m) in rw (e, k, g, b) fits
        ]
      ]
    ]
  ]

module _ (fl : Floats) (zero_float : fl.Float) (bits : fl.Float → ℕ)
    (from_bits : ℕ → fl.Float) where
  -- what the log has of a request
  abbrev in_log : Command → ℕ → Request → RaftCommand fl.Float
  in_log w id req =
      as_read
        (record (with_list_fields fl.Float zero_float w req
          (bare_command fl.Float zero_float req.cmd req.key)) { req_id = id })

  module _ (text : Failure → Str) where
    abbrev respond : ℕ → RaftResult fl.Float → Response
    respond = raft_result_to_list_response fl.Float bits from_bits text

    abbrev direct_text : Error → Str
    direct_text e = text (of_cache e)

    module _ {A : Type 0} (m : OnMissing) (w : Command) (cmd : ℕ)
        (fill : A → RaftResult fl.Float → RaftResult fl.Float) (fill' : A → Response → Response)
        (at : command cmd ≡ w)
        (same : (a : A)
          → list_result fl.Float bits from_bits text w cmd
              (fill a (bare_result fl.Float zero_float))
            ≡ fill' a (blank cmd status_ok))
        (fine : (a : A) → (fill a (bare_result fl.Float zero_float)).err ≡ none) where
      fails :
          (m : OnMissing) (e : Error)
          → Fits m {A = A} (failed e)
          → respond cmd (outcome fl zero_float fill (failed e))
            ≡ list_reply direct_text cmd m fill' (failed e)
      unfolding raft_result_to_list_response
      fails as_error key_not_found h = elim h [ ]
      fails as_error _ h = refl
      fails as_not_found key_not_found h = refl
      fails as_not_found _ h = refl

      responds :
          (answer : Answer A)
          → Fits m answer
          → respond cmd (outcome fl zero_float fill answer)
            ≡ list_reply direct_text cmd m fill' answer
      unfolding raft_result_to_list_response
      responds (ok a) h = rw (fine a, raft_result_to_list_response) (rw at (same a))
      responds (failed e) h = fails m e h

      replies :
          (call : Panics (TypedCache × Answer A))
          → AllFit m call
          → (record_outcome fl zero_float call fill >>= λ out. returns (out.0, respond cmd out.1))
            ≡ reply call (list_reply direct_text cmd m fill')
      replies panic h = refl
      replies (returns out) h = ap (λ r. returns (out.0, r)) (responds out.1 h)

    -- the response to the result of a write is that to the cache's answer
    agrees :
        (w : Command) (id : ℕ) (c : TypedCache) (req : Request)
        → IsWrite w
        → command req.cmd ≡ w
        → (apply_list fl zero_float w c (in_log w id req) >>= λ out.
            returns (out.0, respond req.cmd out.1))
          ≡ process_as direct_text w c req
    unfolding apply_list process_as Cached.l_push Cached.r_push Cached.l_rem Cached.l_trim
        Cached.l_insert
    agrees push_left id c req h e =
        replies as_error push_left req.cmd (counted fl zero_float) Lists.counted e (λ a. refl)
          (λ a. refl) (Cached.l_push c req.key req.elements) (at_key-AllFit c req.key _ (λ m. tt))
    agrees push_right id c req h e =
        replies as_error push_right req.cmd (counted fl zero_float) Lists.counted e (λ a. refl)
          (λ a. refl) (Cached.r_push c req.key req.elements) (at_key-AllFit c req.key _ (λ m. tt))
    agrees pop_left id c req h e =
        replies as_not_found pop_left req.cmd (said fl zero_float) Lists.said e (λ a. refl)
          (λ a. refl) (Cached.l_pop c req.key) (all-Fit (Cached.l_pop c req.key))
    agrees pop_right id c req h e =
        replies as_not_found pop_right req.cmd (said fl zero_float) Lists.said e (λ a. refl)
          (λ a. refl) (Cached.r_pop c req.key) (all-Fit (Cached.r_pop c req.key))
    agrees set_at id c req h e = rw (text_of-sent_value (some req.value)) (
        replies as_not_found set_at req.cmd (done fl zero_float) Lists.was_set e (λ a. refl)
          (λ a. refl) (Cached.l_set c req.key req.index req.value)
          (all-Fit (Cached.l_set c req.key req.index req.value)))
    agrees remove id c req h e = rw (text_of-sent_value (some req.value)) (
        replies as_error remove req.cmd (counted fl zero_float) Lists.counted e (λ a. refl)
          (λ a. refl) (Cached.l_rem c req.key req.count req.value)
          (at_key-AllFit c req.key _ (λ m. tt)))
    agrees trim id c req h e =
        replies as_error trim req.cmd (done fl zero_float) Lists.done e (λ a. refl) (λ a. refl)
          (Cached.l_trim c req.key req.start req.stop)
          (at_key-AllFit c req.key _ (λ m.
            elim (Panics-cases (Shards.l_trim m.lists req.key req.start req.stop)) [
              | inl p ↦ rw p tt
              | inr (out, p) ↦ rw p tt
            ]))
    agrees insert_by id c req h e = rw (text_of-sent_value (some req.value)) (
        replies as_error insert_by req.cmd (numbered fl zero_float) Lists.numbered e (λ a. refl)
          (λ a. refl) (Cached.l_insert c req.key req.before req.pivot req.value)
          (at_key-AllFit c req.key _ (λ m. tt)))
    agrees len id c req h e = elim h [ ]
    agrees range id c req h e = elim h [ ]
    agrees index id c req h e = elim h [ ]
    agrees wait_left id c req h e = elim h [ ]
    agrees wait_right id c req h e = elim h [ ]
    agrees positions id c req h e = elim h [ ]
    agrees unknown id c req h e = elim h [ ]

    module _ (strings : Strings) (json : Json fl.Float) (laws : Laws json) (json_error : Str)
        (entries : List (ℕ × List ℕ)) (draw id : ℕ)
        (n later : State fl zero_float strings json) where
      in_log-op : (w : Command) (req : Request) → (in_log w id req).op ≡ req.cmd
      in_log-op push_left req = refl
      in_log-op push_right req = refl
      in_log-op pop_left req = refl
      in_log-op pop_right req = refl
      in_log-op set_at req = refl
      in_log-op remove req = refl
      in_log-op trim req = refl
      in_log-op insert_by req = refl
      in_log-op len req = refl
      in_log-op range req = refl
      in_log-op index req = refl
      in_log-op wait_left req = refl
      in_log-op wait_right req = refl
      in_log-op positions req = refl
      in_log-op unknown req = refl

      applied :
          (req : Request)
          → is_list_cmd req.cmd ≡ true
          → apply fl zero_float strings draw later
              (as_read (record (list_req_to_raft fl.Float zero_float req) { req_id = id }))
            ≡ (apply_list fl zero_float
                  (command req.cmd)
                  later.typed
                  (in_log (command req.cmd) id req)
                >>= λ out. returns (record later { typed = out.0 }, out.1))
      unfolding apply apply_as list_req_to_raft
      applied req h =
          let rc = in_log (command req.cmd) id req in
          let op : write rc.op ≡ of_list (command req.cmd) =
            ap write (in_log-op (command req.cmd) req) ∙ write-list req.cmd h in
          ap (λ o. apply_as fl zero_float strings o draw later rc) op

      -- A list write that the leader's log takes changes the sets, hashes and lists, and answers, as
      -- the same request does without a log on the node that the entries before it leave, whatever
      -- these are: they have other numbers and are applied without a panic, and the request's number is
      -- not 0 and has no result yet. The codec keeps its laws, and the command is one that they speak
      -- of.
      pub process_list_raft-direct :
          (req : Request)
          → Setting fl zero_float strings json entries draw id
              (list_req_to_raft fl.Float zero_float req)
              n
              later
              laws
          → is_list_cmd req.cmd ≡ true
          → is_raft_write_op req.cmd ≡ true
          → (process_list_raft fl zero_float strings json json_error bits from_bits text true true
                (meanwhile fl zero_float strings json entries draw id
                  (list_req_to_raft fl.Float zero_float req)
                  n
                  later)
                n
                req
              >>= λ out. returns (out.0.typed, out.1))
            ≡ process_list direct_text later.typed req
      unfolding process_list_raft process_list
      process_list_raft-direct req setting h w =
          logged-direct fl zero_float strings json entries draw id
            (list_req_to_raft fl.Float zero_float req) n later laws setting json_error
            (respond req.cmd) _
            (apply_list fl zero_float (command req.cmd) later.typed
              (in_log (command req.cmd) id req))
            (applied req h)
          ∙ agrees (command req.cmd) id later.typed req (is_raft_write_op-IsWrite req.cmd h w) refl
