-- ===== src/Server/Lists.antt =====
-- net/server_ext.go: `processList` without a raft node. The blocking pops are in Blocking, but for
-- a timeout that is not positive, with which they are `LPop` and `RPop`.
use mcache.Prelude.{ℕ, true, List, Str, map, if◌then◌else◌, ◌==◌}
use mcache.Prelude.Int.{ℤ, pos}
use mcache.Prelude.Panics.{Panics, returns}
use mcache.Cache.{Error}
use mcache.Cache.Typed.{TypedCache}
use mcache.Cache.Typed.Lists as Cached
use mcache.Net.Commands
use mcache.Net.Commands.{status_err}
use mcache.Net.ListWire.{Request}
use mcache.Net.ListAnswer.{Response, blank}
use mcache.Server.Replies.{reply, as_error, as_not_found, list_reply, invalid_command}

-- the cases of the switch on the command
pub data Command : Type 0 where
  push_left push_right pop_left pop_right len range index set_at remove trim insert_by wait_left
        wait_right positions unknown :
      Command

abbrev pub command : ℕ → Command
command cmd =
    if cmd == Commands.l_push
    then push_left
    else if cmd == Commands.r_push
    then push_right
    else if cmd == Commands.l_pop
    then pop_left
    else if cmd == Commands.r_pop
    then pop_right
    else if cmd == Commands.l_len
    then len
    else if cmd == Commands.l_range
    then range
    else if cmd == Commands.l_index
    then index
    else if cmd == Commands.l_set
    then set_at
    else if cmd == Commands.l_rem
    then remove
    else if cmd == Commands.l_trim
    then trim
    else if cmd == Commands.l_insert
    then insert_by
    else if cmd == Commands.bl_pop
    then wait_left
    else if cmd == Commands.br_pop
    then wait_right
    else if cmd == Commands.l_pos
    then positions
    else unknown

-- the results of a response
abbrev pub Fill : Type 0 → Type 0
Fill A = A → Response → Response

abbrev pub counted : Fill ℕ
counted n r = record r { int_result = pos n }

abbrev pub numbered : Fill ℤ
numbered n r = record r { int_result = n }

abbrev pub said : Fill Str
said s r = record r { str_result = s }

abbrev pub listed : Fill (List Str)
listed ss r = record r { slice_result = ss }

abbrev pub was_set : Fill (Unit {0})
was_set u r = record r { bool_result = true }

abbrev pub done : Fill (Unit {0})
done u r = r

abbrev pub placed : Fill (List ℕ)
placed ps r = record r { pos_result = map pos ps }

module _ (text : Error → Str) where
  unfoldable pub process_as : Command → TypedCache → Request → Panics (TypedCache × Response)
  process_as push_left c req =
      reply (Cached.l_push c req.key req.elements) (list_reply text req.cmd as_error counted)
  process_as push_right c req =
      reply (Cached.r_push c req.key req.elements) (list_reply text req.cmd as_error counted)
  process_as pop_left c req =
      reply (Cached.l_pop c req.key) (list_reply text req.cmd as_not_found said)
  process_as pop_right c req =
      reply (Cached.r_pop c req.key) (list_reply text req.cmd as_not_found said)
  process_as len c req = reply (Cached.l_len c req.key) (list_reply text req.cmd as_error counted)
  process_as range c req =
      reply (Cached.l_range c req.key req.start req.stop)
        (list_reply text req.cmd as_not_found listed)
  process_as index c req =
      reply (Cached.l_index c req.key req.index) (list_reply text req.cmd as_not_found said)
  process_as set_at c req =
      reply (Cached.l_set c req.key req.index req.value)
        (list_reply text req.cmd as_not_found was_set)
  process_as remove c req =
      reply (Cached.l_rem c req.key req.count req.value) (list_reply text req.cmd as_error counted)
  process_as trim c req =
      reply (Cached.l_trim c req.key req.start req.stop) (list_reply text req.cmd as_error done)
  process_as insert_by c req =
      reply (Cached.l_insert c req.key req.before req.pivot req.value)
        (list_reply text req.cmd as_error numbered)
  process_as wait_left c req =
      reply (Cached.l_pop c req.key) (list_reply text req.cmd as_not_found said)
  process_as wait_right c req =
      reply (Cached.r_pop c req.key) (list_reply text req.cmd as_not_found said)
  process_as positions c req =
      reply (Cached.l_pos c req.key req.value req.rank req.count req.max_len)
        (list_reply text req.cmd as_error placed)
  process_as unknown c req =
      returns (c, record (blank req.cmd status_err) { err_msg = invalid_command })

  -- `processList` of a request that does not wait, with the response not yet encoded
  unfoldable pub process_list : TypedCache → Request → Panics (TypedCache × Response)
  process_list c req = process_as (command req.cmd) c req
