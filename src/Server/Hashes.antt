-- ===== src/Server/Hashes.antt =====
-- net/server_ext.go: `processHash` without a raft node.
use mcache.Prelude.{ℕ, Bool, Option, List, Str, if◌then◌else◌, ◌==◌}
use mcache.Prelude.Int.{ℤ, pos}
use mcache.Prelude.Dict.{Dict}
use mcache.Prelude.Panics.{Panics, returns}
use mcache.Ds.Hashes.{Floats}
use mcache.Cache.{Error}
use mcache.Cache.Typed.{TypedCache}
use mcache.Cache.Typed.Hashes as Cached
use mcache.Net.Commands
use mcache.Net.Commands.{status_err}
use mcache.Net.HashWire.{Request}
use mcache.Net.HashAnswer.{Response, blank}
use mcache.Server.Replies.{reply, as_error, as_not_found, hash_reply, invalid_command}

-- the cases of the switch on the command
pub data Command : Type 0 where
  set set_nx get del exists get_all keys vals len str_len incr_by incr_by_float get_many set_many
        unknown :
      Command

abbrev pub command : ℕ → Command
command cmd =
    if cmd == Commands.h_set
    then set
    else if cmd == Commands.h_set_nx
    then set_nx
    else if cmd == Commands.h_get
    then get
    else if cmd == Commands.h_del
    then del
    else if cmd == Commands.h_exists
    then exists
    else if cmd == Commands.h_get_all
    then get_all
    else if cmd == Commands.h_keys
    then keys
    else if cmd == Commands.h_vals
    then vals
    else if cmd == Commands.h_len
    then len
    else if cmd == Commands.h_str_len
    then str_len
    else if cmd == Commands.h_incr_by
    then incr_by
    else if cmd == Commands.h_incr_by_float
    then incr_by_float
    else if cmd == Commands.hm_get
    then get_many
    else if cmd == Commands.hm_set
    then set_many
    else unknown

-- `bits` and `from_bits` are `math.Float64bits` and `math.Float64frombits`.
module _ (fl : Floats) (bits : fl.Float → ℕ) (from_bits : ℕ → fl.Float) where
  -- the results of a response
  abbrev pub Fill : Type 0 → Type 0
  Fill A = A → Response fl.Float → Response fl.Float

  abbrev pub counted : Fill ℕ
  counted n r = record r { int_result = pos n }

  abbrev pub summed : Fill ℤ
  summed n r = record r { int_result = n }

  abbrev pub summed_float : Fill fl.Float
  summed_float x r = record r { float_result = x }

  abbrev pub tested : Fill Bool
  tested b r = record r { bool_result = b }

  abbrev pub said : Fill Str
  said s r = record r { str_result = s }

  abbrev pub mapped : Fill (Dict Str Str)
  mapped m r = record r { map_result = m }

  abbrev pub listed : Fill (List Str)
  listed ss r = record r { slice_result = ss }

  abbrev pub listed_any : Fill (List (Option Str))
  listed_any vs r = record r { any_slice = vs }

  abbrev pub done : Fill (Unit {0})
  done u r = r

  module _ (text : Error → Str) where
    unfoldable pub process_as :
        Command → TypedCache → Request fl.Float → Panics (TypedCache × Response fl.Float)
    process_as set c req =
        reply (Cached.h_set c req.key req.field req.value)
          (hash_reply text fl.Float bits from_bits req.cmd as_error counted)
    process_as set_nx c req =
        reply (Cached.h_set_nx c req.key req.field req.value)
          (hash_reply text fl.Float bits from_bits req.cmd as_error tested)
    process_as get c req =
        reply (Cached.h_get c req.key req.field)
          (hash_reply text fl.Float bits from_bits req.cmd as_not_found said)
    process_as del c req =
        reply (Cached.h_del c req.key req.fields)
          (hash_reply text fl.Float bits from_bits req.cmd as_error counted)
    process_as exists c req =
        reply (Cached.h_exists c req.key req.field)
          (hash_reply text fl.Float bits from_bits req.cmd as_error tested)
    process_as get_all c req =
        reply (Cached.h_get_all c req.key)
          (hash_reply text fl.Float bits from_bits req.cmd as_not_found mapped)
    process_as keys c req =
        reply (Cached.h_keys c req.key)
          (hash_reply text fl.Float bits from_bits req.cmd as_not_found listed)
    process_as vals c req =
        reply (Cached.h_vals c req.key)
          (hash_reply text fl.Float bits from_bits req.cmd as_not_found listed)
    process_as len c req =
        reply (Cached.h_len c req.key)
          (hash_reply text fl.Float bits from_bits req.cmd as_error counted)
    process_as str_len c req =
        reply (Cached.h_str_len c req.key req.field)
          (hash_reply text fl.Float bits from_bits req.cmd as_error counted)
    process_as incr_by c req =
        reply (Cached.h_incr_by c req.key req.field req.delta_i64)
          (hash_reply text fl.Float bits from_bits req.cmd as_error summed)
    process_as incr_by_float c req =
        reply (Cached.h_incr_by_float fl c req.key req.field req.delta_f64)
          (hash_reply text fl.Float bits from_bits req.cmd as_error summed_float)
    process_as get_many c req =
        reply (Cached.hm_get c req.key req.fields)
          (hash_reply text fl.Float bits from_bits req.cmd as_error listed_any)
    process_as set_many c req =
        reply (Cached.hm_set c req.key req.fv_pairs)
          (hash_reply text fl.Float bits from_bits req.cmd as_error done)
    process_as unknown c req =
        returns (
          c,
          record (blank fl.Float bits from_bits req.cmd status_err) { err_msg = invalid_command },
        )

    -- `processHash`, with the response not yet encoded
    unfoldable pub process_hash :
        TypedCache → Request fl.Float → Panics (TypedCache × Response fl.Float)
    process_hash c req = process_as (command req.cmd) c req
