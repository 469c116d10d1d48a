-- ===== src/Server/Blocking.antt =====
-- net/server_ext.go: the blocking pops, with a timeout that is positive, and `processList` of all
-- requests. While a pop waits, other connections use the cache: what they do before each attempt, and
-- the clock after it, are arguments, one for each round of the loop.
pub mod Ends
use mcache.Prelude.{
  ℕ, ◌*◌, ◌%◌, ◌^◌, Bool, true, false, Option, none, some, List, [], ◌∷◌, Str, if◌then◌else◌,
}
use mcache.Prelude.Int.{ℤ, pos, ltb_ℤ, ◌+ℤ◌}
use mcache.Prelude.Panics.{Panics, returns, panic, ◌>>=◌}
use mcache.Cache.{Error, Answer, ok, failed}
use mcache.Cache.Typed.{TypedCache}
use mcache.Cache.Typed.Lists as Cached
use mcache.Net.Bytes.{to_u64, to_i64}
use mcache.Net.Commands.{status_ok, status_not_found}
use mcache.Net.ListWire.{Request}
use mcache.Net.ListAnswer.{Response, blank}
use mcache.Server.Lists.{Command, wait_left, wait_right, command, process_as}

pub record Round : Type 0 where
  pub others : TypedCache → TypedCache
  pub now : ℤ

-- `time.Now().Add(time.Duration(ms) * time.Millisecond)`
unfoldable pub deadline_of : ℤ → ℤ → ℤ
deadline_of start ms = start +ℤ to_i64 (to_u64 ms * 1000000 % 2 ^ 64)

-- the end of a round, by the answer to its pop; any error is taken for an empty list
unfoldable pub tried :
    ℤ
    → (TypedCache → Panics (Option (TypedCache × Option Str)))
    → ℤ
    → TypedCache × Answer Str
    → Panics (Option (TypedCache × Option Str))
tried deadline again now (c, ok elem) = returns (some (c, some elem))
tried deadline again now (c, failed e) =
    if ltb_ℤ deadline now then returns (some (c, none)) else again c

-- the loop: `none` if it has not ended after the rounds, and else the element or, behind the
-- deadline, `none`
unfoldable pub wait :
    (TypedCache → Panics (TypedCache × Answer Str))
    → ℤ
    → List Round
    → TypedCache
    → Panics (Option (TypedCache × Option Str))
wait pop deadline [] c = returns none
wait pop deadline (r ∷ rounds) c =
    pop (r.others c) >>= λ out. tried deadline (wait pop deadline rounds) r.now out

-- the response to a pop that waited
abbrev pub popped : ℕ → Option Str → Response
popped cmd none = blank cmd status_not_found
popped cmd (some elem) = record (blank cmd status_ok) { str_result = elem }

abbrev pub waited :
    ℕ → Panics (Option (TypedCache × Option Str)) → Panics (Option (TypedCache × Response))
waited cmd call =
    call >>= λ out. returns (elim out [ none ↦ none | some end ↦ some (end.0, popped cmd end.1) ])

module _ (text : Error → Str) (start : ℤ) (rounds : List Round) where
  -- a request that does not wait
  abbrev pub at_once : Command → TypedCache → Request → Panics (Option (TypedCache × Response))
  at_once w c req = process_as text w c req >>= λ out. returns (some out)

  abbrev pub serve_as : Command → TypedCache → Request → Panics (Option (TypedCache × Response))
  serve_as wait_left c req =
      if ltb_ℤ (pos 0) req.timeout
      then waited req.cmd
          (wait (λ c'. Cached.l_pop c' req.key) (deadline_of start req.timeout) rounds c)
      else at_once wait_left c req
  serve_as wait_right c req =
      if ltb_ℤ (pos 0) req.timeout
      then waited req.cmd
          (wait (λ c'. Cached.r_pop c' req.key) (deadline_of start req.timeout) rounds c)
      else at_once wait_right c req
  serve_as w c req = at_once w c req

  -- `processList`, with the response not yet encoded; `none` if a pop still waits after the rounds
  unfoldable pub serve_list : TypedCache → Request → Panics (Option (TypedCache × Response))
  serve_list c req = serve_as (command req.cmd) c req
