-- ===== src/Server/Sets.antt =====
-- net/server.go: `processSet` without a raft node. What the cache draws at random is an argument.
use mcache.Prelude.{ℕ, Bool, List, [], ◌∷◌, Str, if◌then◌else◌, ◌==◌}
use mcache.Prelude.Int.{pos}
use mcache.Prelude.Panics.{Panics, returns}
use mcache.Cache.{Error}
use mcache.Cache.Typed.{TypedCache}
use mcache.Cache.Typed.Sets as Cached
use mcache.Net.Commands
use mcache.Net.Commands.{status_err}
use mcache.Net.Bytes.{first_of, to_u64}
use mcache.Net.SetWire.{Request, Response, blank_response}
use mcache.Server.Replies.{reply, as_error, as_not_found, set_reply, invalid_command}

-- the cases of the switch on the command
pub data Command : Type 0 where
  add remove is_member members card pop rand_member union inter diff unknown : Command

abbrev pub command : ℕ → Command
command cmd =
    if cmd == Commands.s_add
    then add
    else if cmd == Commands.s_rem
    then remove
    else if cmd == Commands.s_is_member
    then is_member
    else if cmd == Commands.s_members
    then members
    else if cmd == Commands.s_card
    then card
    else if cmd == Commands.s_pop
    then pop
    else if cmd == Commands.s_rand_member
    then rand_member
    else if cmd == Commands.s_union
    then union
    else if cmd == Commands.s_inter
    then inter
    else if cmd == Commands.s_diff
    then diff
    else unknown

-- the results of a response
abbrev pub Fill : Type 0 → Type 0
Fill A = A → Response → Response

abbrev pub changed : Fill ℕ
changed n r = record r { changed = to_u64 (pos n) }

abbrev pub tested : Fill Bool
tested b r = record r { is_member = b }

abbrev pub sized : Fill ℕ
sized n r = record r { card = to_u64 (pos n) }

abbrev pub listed : Fill (List Str)
listed ss r = record r { elems = ss }

abbrev pub popped : Fill Str
popped s r = record r { elems = s ∷ [] }

module _ (text : Error → Str) (draw : ℕ) (draws : List ℕ) where
  unfoldable pub process_as : Command → TypedCache → Request → Panics (TypedCache × Response)
  process_as add c req =
      reply (Cached.s_add c req.key req.elems) (set_reply text req.cmd as_error changed)
  process_as remove c req =
      reply (Cached.s_rem c req.key req.elems) (set_reply text req.cmd as_error changed)
  process_as is_member c req =
      reply (Cached.s_is_member c req.key (first_of req.elems))
        (set_reply text req.cmd as_error tested)
  process_as members c req =
      reply (Cached.s_members c req.key) (set_reply text req.cmd as_error listed)
  process_as card c req = reply (Cached.s_card c req.key) (set_reply text req.cmd as_error sized)
  process_as pop c req =
      reply (Cached.s_pop draw c req.key) (set_reply text req.cmd as_not_found popped)
  process_as rand_member c req =
      reply (Cached.s_rand_member draws c req.key req.count)
        (set_reply text req.cmd as_error listed)
  process_as union c req =
      returns (c, set_reply text req.cmd as_error listed (Cached.s_union c req.keys))
  process_as inter c req =
      returns (c, set_reply text req.cmd as_error listed (Cached.s_inter c req.keys))
  process_as diff c req =
      returns (c, set_reply text req.cmd as_error listed (Cached.s_diff c req.keys))
  process_as unknown c req =
      returns (c, record (blank_response req.cmd status_err) { err_msg = invalid_command })

  -- `processSet`, with the response not yet encoded
  unfoldable pub process_set : TypedCache → Request → Panics (TypedCache × Response)
  process_set c req = process_as (command req.cmd) c req
