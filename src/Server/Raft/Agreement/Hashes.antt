-- ===== src/Server/Raft/Agreement/Hashes.antt =====
-- net/server_ext.go: hash writes through the log.
use mcache.Prelude.{ℕ, ◌≡◌, refl, ap, ◌∙◌, true, none, some, List, Str, arith}
use mcache.Prelude.Panics.{Panics, returns, ◌>>=◌}
use mcache.Ds.Hashes.{Floats}
use mcache.Cache.{Error, Answer, ok, failed}
use mcache.Cache.Typed.{TypedCache}
use mcache.Net.Commands.{is_hash_cmd, status_ok}
use mcache.Net.HashWire.{Request}
use mcache.Net.HashAnswer.{Response, blank}
use mcache.Cache.Typed.Hashes as CachedHashes
use mcache.Server.Replies.{reply, as_error, hash_reply}
use mcache.Server.Hashes as Hashes
use mcache.Server.Hashes.{
  Command, set, set_nx, get, del, exists, get_all, keys, vals, len, str_len, incr_by, incr_by_float,
  get_many, set_many, unknown, command, process_as, process_hash,
}
use mcache.Server.Raft.{
  RaftCommand, RaftResult, Failure, of_cache, is_raft_write_op, bare_command, bare_result,
  with_hash_fields, hash_req_to_raft, hash_result, raft_result_to_hash_response,
}
use mcache.Server.Raft.Apply.{
  Strings, Json, write, of_hash, apply, apply_as, apply_hash, record_outcome, outcome, counted,
  tested, numbered, summed, done,
}
use mcache.Server.Raft.Replicated.{process_hash_raft}
use mcache.Server.Raft.Agreement.{
  State, Laws, Setting, meanwhile, logged-direct, as_read, text_of-sent_value, recorded-reply,
}

-- the commands that the log takes
abbrev IsWrite : Command → Type 0
IsWrite set = Unit
IsWrite set_nx = Unit
IsWrite del = Unit
IsWrite incr_by = Unit
IsWrite incr_by_float = Unit
IsWrite set_many = Unit
IsWrite _ = ⊥

is_raft_write_op-IsWrite :
    (cmd : ℕ) → is_hash_cmd cmd ≡ true → is_raft_write_op cmd ≡ true → IsWrite (command cmd)
unfolding is_hash_cmd is_raft_write_op
is_raft_write_op-IsWrite cmd h w = ground (arith, h, w)

module _ (fl : Floats) (zero_float : fl.Float) (bits : fl.Float → ℕ)
    (from_bits : ℕ → fl.Float) where
  -- what the log has of a request
  abbrev in_log : Command → ℕ → Request fl.Float → RaftCommand fl.Float
  in_log w id req =
      as_read
        (record (with_hash_fields fl.Float zero_float w req
          (record (bare_command fl.Float zero_float req.cmd req.key) { field = req.field })) {
            req_id = id;
          })

  module _ (text : Failure → Str) where
    abbrev respond : ℕ → RaftResult fl.Float → Response fl.Float
    respond = raft_result_to_hash_response fl.Float bits from_bits text

    abbrev direct_text : Error → Str
    direct_text e = text (of_cache e)

    module _ {A : Type 0} (w : Command) (cmd : ℕ)
        (fill : A → RaftResult fl.Float → RaftResult fl.Float)
        (fill' : A → Response fl.Float → Response fl.Float) (at : command cmd ≡ w)
        (same : (a : A)
          → hash_result fl.Float bits from_bits text w cmd
              (fill a (bare_result fl.Float zero_float))
            ≡ fill' a (blank fl.Float bits from_bits cmd status_ok))
        (fine : (a : A) → (fill a (bare_result fl.Float zero_float)).err ≡ none) where
      responds :
          (answer : Answer A)
          → respond cmd (outcome fl zero_float fill answer)
            ≡ hash_reply direct_text fl.Float bits from_bits cmd as_error fill' answer
      unfolding raft_result_to_hash_response
      responds (ok a) = rw (fine a, raft_result_to_hash_response) (rw at (same a))
      responds (failed e) = refl

      replies :
          (call : Panics (TypedCache × Answer A))
          → (record_outcome fl zero_float call fill >>= λ out. returns (out.0, respond cmd out.1))
            ≡ reply call (hash_reply direct_text fl.Float bits from_bits cmd as_error fill')
      replies call = recorded-reply fl zero_float call fill (respond cmd) _ responds

    -- the response to the result of a write is that to the cache's answer
    agrees :
        (w : Command) (id : ℕ) (c : TypedCache) (req : Request fl.Float)
        → IsWrite w
        → command req.cmd ≡ w
        → (apply_hash fl zero_float w c (in_log w id req) >>= λ out.
            returns (out.0, respond req.cmd out.1))
          ≡ process_as fl bits from_bits direct_text w c req
    unfolding apply_hash process_as
    agrees set id c req h e = rw (text_of-sent_value (some req.value)) (
        replies set req.cmd (counted fl zero_float) (Hashes.counted fl bits from_bits) e (λ a. refl)
          (λ a. refl) (CachedHashes.h_set c req.key req.field req.value))
    agrees set_nx id c req h e = rw (text_of-sent_value (some req.value)) (
        replies set_nx req.cmd (tested fl zero_float) (Hashes.tested fl bits from_bits) e
          (λ a. refl) (λ a. refl) (CachedHashes.h_set_nx c req.key req.field req.value))
    agrees del id c req h e =
        replies del req.cmd (counted fl zero_float) (Hashes.counted fl bits from_bits) e (λ a. refl)
          (λ a. refl) (CachedHashes.h_del c req.key req.fields)
    agrees incr_by id c req h e =
        replies incr_by req.cmd (numbered fl zero_float) (Hashes.summed fl bits from_bits) e
          (λ a. refl) (λ a. refl) (CachedHashes.h_incr_by c req.key req.field req.delta_i64)
    agrees incr_by_float id c req h e =
        replies incr_by_float req.cmd (summed fl zero_float) (Hashes.summed_float fl bits from_bits)
          e (λ a. refl) (λ a. refl)
          (CachedHashes.h_incr_by_float fl c req.key req.field req.delta_f64)
    agrees set_many id c req h e =
        replies set_many req.cmd (done fl zero_float) (Hashes.done fl bits from_bits) e (λ a. refl)
          (λ a. refl) (CachedHashes.hm_set c req.key req.fv_pairs)
    agrees get id c req h e = elim h [ ]
    agrees exists id c req h e = elim h [ ]
    agrees get_all id c req h e = elim h [ ]
    agrees keys id c req h e = elim h [ ]
    agrees vals id c req h e = elim h [ ]
    agrees len id c req h e = elim h [ ]
    agrees str_len id c req h e = elim h [ ]
    agrees get_many id c req h e = elim h [ ]
    agrees unknown id c req h e = elim h [ ]

    module _ (strings : Strings) (json : Json fl.Float) (laws : Laws json) (json_error : Str)
        (entries : List (ℕ × List ℕ)) (draw id : ℕ)
        (n later : State fl zero_float strings json) where
      in_log-op : (w : Command) (req : Request fl.Float) → (in_log w id req).op ≡ req.cmd
      in_log-op set req = refl
      in_log-op set_nx req = refl
      in_log-op del req = refl
      in_log-op incr_by req = refl
      in_log-op incr_by_float req = refl
      in_log-op set_many req = refl
      in_log-op get req = refl
      in_log-op exists req = refl
      in_log-op get_all req = refl
      in_log-op keys req = refl
      in_log-op vals req = refl
      in_log-op len req = refl
      in_log-op str_len req = refl
      in_log-op get_many req = refl
      in_log-op unknown req = refl

      applied :
          (req : Request fl.Float)
          → is_hash_cmd req.cmd ≡ true
          → apply fl zero_float strings draw later
              (as_read (record (hash_req_to_raft fl.Float zero_float req) { req_id = id }))
            ≡ (apply_hash fl zero_float
                  (command req.cmd)
                  later.typed
                  (in_log (command req.cmd) id req)
                >>= λ out. returns (record later { typed = out.0 }, out.1))
      unfolding apply apply_as hash_req_to_raft
      applied req h =
          let rc = in_log (command req.cmd) id req in
          let op : write rc.op ≡ of_hash (command req.cmd) =
            ap write (in_log-op (command req.cmd) req) ∙ rw h refl in
          ap (λ o. apply_as fl zero_float strings o draw later rc) op

      -- A hash write that the leader's log takes changes the sets, hashes and lists, and answers, as
      -- the same request does without a log on the node that the entries before it leave, whatever
      -- these are: they have other numbers and are applied without a panic, and the request's number is
      -- not 0 and has no result yet. The codec keeps its laws, and the command is one that they speak
      -- of.
      pub process_hash_raft-direct :
          (req : Request fl.Float)
          → Setting fl zero_float strings json entries draw id
              (hash_req_to_raft fl.Float zero_float req)
              n
              later
              laws
          → is_hash_cmd req.cmd ≡ true
          → is_raft_write_op req.cmd ≡ true
          → (process_hash_raft fl zero_float strings json json_error bits from_bits text true true
                (meanwhile fl zero_float strings json entries draw id
                  (hash_req_to_raft fl.Float zero_float req)
                  n
                  later)
                n
                req
              >>= λ out. returns (out.0.typed, out.1))
            ≡ process_hash fl bits from_bits direct_text later.typed req
      unfolding process_hash_raft process_hash
      process_hash_raft-direct req setting h w =
          logged-direct fl zero_float strings json entries draw id
            (hash_req_to_raft fl.Float zero_float req) n later laws setting json_error
            (respond req.cmd) _
            (apply_hash fl zero_float (command req.cmd) later.typed
              (in_log (command req.cmd) id req))
            (applied req h)
          ∙ agrees (command req.cmd) id later.typed req (is_raft_write_op-IsWrite req.cmd h w) refl
