-- ===== src/Server/Connection/Hashes.antt =====
-- net/: a call of a hash command, from the client's request to the response that arrives.
use mcache.Prelude.{
  ℕ, ◌≡◌, ◌<◌, ◌^◌, refl, sym, ap, ◌∙◌, true, false, Option, none, some, List, [], ◌∷◌, Str, ◌==◌,
  length, arith, str_dec,
}
use mathlib.Core.Path.{subst}
use mcache.Prelude.Panics.{Panics, returns, panic, ◌>>=◌}
use mcache.Ds.Hashes as Ds
use mcache.Ds.Hashes.{Fields, Floats}
use mcache.Shard.Typed.Hashes as Shards
use mcache.Cache.{Error, Answer, ok, failed}
use mcache.Cache.Typed.{TypedCache, at_key, writing_hashes}
use mcache.Shard.Typed.{obtain, store}
use mcache.Prelude.Dict.{insert}
use mathlib.Core.Path.{fun_ext}
use mcache.Cache.Typed.Hashes as Cached
use mcache.Net.Bytes.{Payload, byte_at}
use mcache.Net.Commands.{is_hash_cmd}
use mcache.Net.HashWire as HashWire
use mcache.Net.HashWire.{
  Request, Layout, key_only, key_field, key_field_value, key_fields, key_field_int, key_field_float,
  key_pairs, whole_pairs,
}
use mcache.Net.HashWire.RoundTrip as RequestTrip
use mcache.Net.HashAnswer as HashAnswer
use mcache.Net.HashAnswer.{Response}
use mcache.Net.HashAnswer.RoundTrip as ResponseTrip
use mcache.Server.Replies.{reply, as_error, hash_reply, invalid_command}
use mcache.Server.Hashes as Hashes
use mcache.Server.Hashes.{
  Command, set, set_nx, get, del, exists, get_all, keys, vals, len, str_len, incr_by, incr_by_float,
  get_many, set_many, unknown, command, process_as, process_hash,
}
use mcache.Server.Blocking.{Round}
use mcache.Prelude.Int.{ℤ}
use mcache.Server.Connection.{
  Handled, handle, answer_hash, decoded, command_of, read_response, Arrived, hash_response,
}

-- the layout of a command's request
abbrev layout_of : Command → Layout
layout_of set = key_field_value
layout_of set_nx = key_field_value
layout_of get = key_field
layout_of exists = key_field
layout_of str_len = key_field
layout_of del = key_fields
layout_of get_many = key_fields
layout_of get_all = key_only
layout_of keys = key_only
layout_of vals = key_only
layout_of len = key_only
layout_of incr_by = key_field_int
layout_of incr_by_float = key_field_float
layout_of set_many = key_pairs
layout_of unknown = HashWire.unknown

layout-command : (cmd : ℕ) → HashWire.layout cmd ≡ layout_of (command cmd)
layout-command cmd = ground arith

answer-known : (cmd : ℕ) → is_hash_cmd cmd ≡ true → ¬ (HashAnswer.layout cmd ≡ HashAnswer.unknown)
unfolding is_hash_cmd
answer-known cmd h e = ground (arith, h, e)

hm_set-whole_pairs : (l : List Str) (h : Fields) → Ds.hm_set h (whole_pairs l) ≡ Ds.hm_set h l
unfolding Ds.hm_set
hm_set-whole_pairs [] h = refl
hm_set-whole_pairs (f ∷ []) h = refl
hm_set-whole_pairs (f ∷ v ∷ l) h = hm_set-whole_pairs l (insert str_dec f v h)

-- An odd last argument is of no use.
cached-whole_pairs :
    (c : TypedCache) (key : Str) (l : List Str)
    → Cached.hm_set c key (whole_pairs l) ≡ Cached.hm_set c key l
unfolding Cached.hm_set Shards.hm_set
cached-whole_pairs c key l = ap (at_key c key) (
    fun_ext (λ m.
      ap (λ (h : Fields). writing_hashes m (store m.hashes key h, ok tt))
        (hm_set-whole_pairs l (obtain m.hashes key))))

module _ (fl : Floats) (bits : fl.Float → ℕ) (from_bits : ℕ → fl.Float) (text : Error → Str) where
  -- The handler uses of a request what its layout carries.
  process_as-carried :
      (w : Command) (c : TypedCache) (req : Request fl.Float)
      → process_as fl bits from_bits text w c (RequestTrip.carried bits from_bits (layout_of w) req)
        ≡ process_as fl bits from_bits text w c req
  unfolding process_as Cached.hm_set Shards.hm_set
  process_as-carried set c req = refl
  process_as-carried set_nx c req = refl
  process_as-carried get c req = refl
  process_as-carried del c req = refl
  process_as-carried exists c req = refl
  process_as-carried get_all c req = refl
  process_as-carried keys c req = refl
  process_as-carried vals c req = refl
  process_as-carried len c req = refl
  process_as-carried str_len c req = refl
  process_as-carried incr_by c req = refl
  process_as-carried incr_by_float c req = refl
  process_as-carried get_many c req = refl
  process_as-carried set_many c req =
      ap
        (λ call. reply call (
          hash_reply text fl.Float bits from_bits req.cmd as_error (Hashes.done fl bits from_bits)))
        (cached-whole_pairs c req.key req.fv_pairs)
  process_as-carried unknown c req = refl

  carried-cmd :
      (l : Layout) (req : Request fl.Float)
      → (RequestTrip.carried bits from_bits l req).cmd ≡ req.cmd
  carried-cmd key_only req = refl
  carried-cmd key_field req = refl
  carried-cmd key_field_value req = refl
  carried-cmd key_fields req = refl
  carried-cmd key_field_int req = refl
  carried-cmd key_field_float req = refl
  carried-cmd key_pairs req = refl
  carried-cmd HashWire.unknown req = refl

  answered-ok :
      {A : Type 0} (cmd : ℕ) (call : Panics (TypedCache × Answer A))
      → (respond : Answer A → Response fl.Float) → (c' : TypedCache) (resp : Response fl.Float)
      → ((a : A) → (respond (ok a)).cmd ≡ cmd)
      → ((e : Error) → (respond (failed e)).cmd ≡ cmd)
      → reply call respond ≡ returns (c', resp)
      → resp.cmd ≡ cmd
  answered-ok cmd panic respond c' resp h k e = absurd (cc)
  answered-ok cmd (returns (c, ok a)) respond c' resp h k e =
      let same : respond (ok a) ≡ resp = cc in subst (λ r. r.cmd ≡ cmd) same (h a)
  answered-ok cmd (returns (c, failed f)) respond c' resp h k e =
      let same : respond (failed f) ≡ resp = cc in subst (λ r. r.cmd ≡ cmd) same (k f)

  process_as-cmd :
      (w : Command) (c c' : TypedCache) (req : Request fl.Float) (resp : Response fl.Float)
      → process_as fl bits from_bits text w c req ≡ returns (c', resp)
      → resp.cmd ≡ req.cmd
  unfolding process_as
  process_as-cmd set c c' req resp e = answered-ok req.cmd _ _ c' resp (λ a. refl) (λ f. refl) e
  process_as-cmd set_nx c c' req resp e = answered-ok req.cmd _ _ c' resp (λ a. refl) (λ f. refl) e
  process_as-cmd get c c' req resp e = answered-ok req.cmd _ _ c' resp (λ a. refl) (λ f. refl) e
  process_as-cmd del c c' req resp e = answered-ok req.cmd _ _ c' resp (λ a. refl) (λ f. refl) e
  process_as-cmd exists c c' req resp e = answered-ok req.cmd _ _ c' resp (λ a. refl) (λ f. refl) e
  process_as-cmd get_all c c' req resp e = answered-ok req.cmd _ _ c' resp (λ a. refl) (λ f. refl) e
  process_as-cmd keys c c' req resp e = answered-ok req.cmd _ _ c' resp (λ a. refl) (λ f. refl) e
  process_as-cmd vals c c' req resp e = answered-ok req.cmd _ _ c' resp (λ a. refl) (λ f. refl) e
  process_as-cmd len c c' req resp e = answered-ok req.cmd _ _ c' resp (λ a. refl) (λ f. refl) e
  process_as-cmd str_len c c' req resp e = answered-ok req.cmd _ _ c' resp (λ a. refl) (λ f. refl) e
  process_as-cmd incr_by c c' req resp e = answered-ok req.cmd _ _ c' resp (λ a. refl) (λ f. refl) e
  process_as-cmd incr_by_float c c' req resp e =
      answered-ok req.cmd _ _ c' resp (λ a. refl) (λ f. refl) e
  process_as-cmd get_many c c' req resp e =
      answered-ok req.cmd _ _ c' resp (λ a. refl) (λ f. refl) e
  process_as-cmd set_many c c' req resp e =
      answered-ok req.cmd _ _ c' resp (λ a. refl) (λ f. refl) e
  process_as-cmd unknown c c' req resp e =
      let same : record (HashAnswer.blank fl.Float bits from_bits req.cmd 1) {
        err_msg = invalid_command;
      }
          ≡ resp =
        cc in
      ap (λ (r : Response fl.Float). r.cmd) (sym same)

  -- The command stands first in a request.
  starts :
      (l : Layout) (req : Request fl.Float) (spare : List ℕ)
      → ¬ (l ≡ HashWire.unknown)
      → (length (HashWire.encode_as fl.Float bits from_bits l req) == 0 ≡ false)
        × (command_of
              (record { bytes = HashWire.encode_as fl.Float bits from_bits l req; spare = spare })
            ≡ returns req.cmd)
  unfolding command_of byte_at
  starts key_only req spare h = (ground arith, refl)
  starts key_field req spare h = (ground arith, refl)
  starts key_field_value req spare h = (ground arith, refl)
  starts key_fields req spare h = (ground arith, refl)
  starts key_field_int req spare h = (ground arith, refl)
  starts key_field_float req spare h = (ground arith, refl)
  starts key_pairs req spare h = (ground arith, refl)
  starts HashWire.unknown req spare h = absurd (h refl)

  module _ (draw : ℕ) (draws : List ℕ) (start : ℤ) (rounds : List Round)
      (process_kv : TypedCache → Payload → Handled) (bits_lt : (x : fl.Float) → bits x < 2 ^ 64)
      (bits_lem : (x : fl.Float) → from_bits (bits x) ≡ x) where
    -- the response, as it arrives
    abbrev pub delivered :
        List ℕ → Option (TypedCache × List ℕ) → Option (TypedCache × Arrived fl.Float)
    delivered spare none = none
    delivered spare (some out) = some (out.0, read_response fl.Float bits from_bits out.1 spare)

    -- what the client gets of a hash request that it sends to a server with the cache `c`
    abbrev pub call_hash :
        TypedCache
        → Request fl.Float
        → List ℕ
        → List ℕ
        → Panics (Option (TypedCache × Arrived fl.Float))
    call_hash c req spare spare' =
        handle fl bits from_bits text draw draws start rounds process_kv c
          (record { bytes = HashWire.encode_request fl.Float bits from_bits req; spare = spare })
        >>= λ out. returns (delivered spare' out)

    carried_run :
        (c c' : TypedCache) (req : Request fl.Float) (resp : Response fl.Float)
        → process_hash fl bits from_bits text c req ≡ returns (c', resp)
        → process_hash fl bits from_bits text c
            (RequestTrip.carried bits from_bits (HashWire.layout req.cmd) req)
          ≡ returns (c', resp)
    unfolding process_hash
    carried_run c c' req resp e = rw (layout-command req.cmd) (
        rw (carried-cmd (layout_of (command req.cmd)) req)
          (process_as-carried (command req.cmd) c req ∙ e))

    answer_carried :
        (c c' : TypedCache) (req : Request fl.Float) (resp : Response fl.Float)
        → process_hash fl bits from_bits text c req ≡ returns (c', resp)
        → answer_hash fl bits from_bits text draw draws start rounds process_kv c
            (RequestTrip.carried bits from_bits (HashWire.layout req.cmd) req)
          ≡ returns (some (c', req.cmd ∷ HashAnswer.encode_response fl.Float bits from_bits resp))
    unfolding answer_hash
    answer_carried c c' req resp e =
        rw (carried_run c c' req resp e) (rw (carried-cmd (HashWire.layout req.cmd) req) refl)

    handled :
        (c c' : TypedCache) (req : Request fl.Float) (resp : Response fl.Float) (spare : List ℕ)
        → is_hash_cmd req.cmd ≡ true
        → RequestTrip.IsSendable req
        → process_hash fl bits from_bits text c req ≡ returns (c', resp)
        → handle fl bits from_bits text draw draws start rounds process_kv c
            (record { bytes = HashWire.encode_request fl.Float bits from_bits req; spare = spare })
          ≡ returns (some (c', req.cmd ∷ HashAnswer.encode_response fl.Float bits from_bits resp))
    unfolding handle decoded HashWire.encode_request
    handled c c' req resp spare h i e =
        let known = RequestTrip.is_hash_cmd-known req.cmd h in
        let (n, f) = starts (HashWire.layout req.cmd) req spare known in
        let d = RequestTrip.hash_decode-encode bits from_bits bits_lem bits_lt req i spare h in
        rw (n, f, h, d) (answer_carried c c' req resp e)

    heard :
        (resp : Response fl.Float) (spare : List ℕ)
        → is_hash_cmd resp.cmd ≡ true
        → ResponseTrip.IsSendable resp
        → read_response fl.Float bits from_bits
            (resp.cmd ∷ HashAnswer.encode_response fl.Float bits from_bits resp)
            spare
          ≡ hash_response (ResponseTrip.received bits from_bits resp)
    unfolding read_response
    heard resp spare h j =
        let d =
          ResponseTrip.hash_response_decode-encode bits from_bits bits_lt bits_lem resp j spare
            (answer-known resp.cmd h) in
        rw (h, d) refl

    -- A hash request that can be sent, over the wire to the server and back, leaves the cache as
    -- the handler leaves it that runs on the request itself, and brings its response to the
    -- client's call, if the response can be sent, whatever the buffers hold behind the payloads. It
    -- is assumed that a float has 64 bits, which give the float back.
    pub call_hash-process_hash :
        (c c' : TypedCache) (req : Request fl.Float) (resp : Response fl.Float)
        → (spare spare' : List ℕ) → is_hash_cmd req.cmd ≡ true
        → RequestTrip.IsSendable req
        → process_hash fl bits from_bits text c req ≡ returns (c', resp)
        → ResponseTrip.IsSendable resp
        → call_hash c req spare spare'
          ≡ returns (some (c', hash_response (ResponseTrip.received bits from_bits resp)))
    call_hash-process_hash c c' req resp spare spare' h i e j =
        let same = process_as-cmd (command req.cmd) c c' req resp (unfold process_hash in e) in
        let back : is_hash_cmd resp.cmd ≡ true = ap is_hash_cmd same ∙ h in
        rw (handled c c' req resp spare h i e, sym same) (rw (heard resp spare' back j) refl)
