-- ===== src/Server/Connection/Lists.antt =====
-- net/: a call of a list command, from the client's request to the response that arrives.
use mcache.Prelude.{
  ℕ, ◌≡◌, refl, sym, ap, ◌∙◌, true, false, Option, none, some, List, ◌∷◌, Str, ◌==◌, length, arith,
  inl, inr, Bool-cases,
}
use mathlib.Core.Path.{subst}
use mcache.Prelude.Int.{ℤ, pos, ltb_ℤ}
use mcache.Prelude.Panics.{Panics, returns, panic, ◌>>=◌}
use mcache.Ds.Hashes.{Floats}
use mcache.Cache.{Error, Answer, ok, failed}
use mcache.Cache.Typed.{TypedCache}
use mcache.Net.Bytes.{Payload, byte_at}
use mcache.Net.Commands.{is_hash_cmd, is_list_cmd}
use mcache.Net.ListWire as ListWire
use mcache.Net.ListWire.{
  Request, Layout, key_only, key_elems, key_span, key_index, key_index_value, key_count_value,
  key_pivot_value, key_timeout, key_position,
}
use mcache.Net.ListWire.RoundTrip as RequestTrip
use mcache.Net.ListAnswer as ListAnswer
use mcache.Net.ListAnswer.{Response}
use mcache.Net.ListAnswer.RoundTrip as ResponseTrip
use mcache.Server.Replies.{reply, invalid_command}
use mcache.Server.Lists.{
  Command, push_left, push_right, pop_left, pop_right, len, range, index, set_at, remove, trim,
  insert_by, wait_left, wait_right, positions, unknown, command, process_as,
}
use mcache.Server.Blocking.{Round, popped, waited, serve_as, serve_list}
use mcache.Server.Connection.{
  Handled, handle, answer_list, decoded, command_of, read_response, Arrived, list_response,
}

-- the layout of a command's request
abbrev layout_of : Command → Layout
layout_of pop_left = key_only
layout_of pop_right = key_only
layout_of len = key_only
layout_of push_left = key_elems
layout_of push_right = key_elems
layout_of range = key_span
layout_of trim = key_span
layout_of index = key_index
layout_of set_at = key_index_value
layout_of remove = key_count_value
layout_of insert_by = key_pivot_value
layout_of wait_left = key_timeout
layout_of wait_right = key_timeout
layout_of positions = key_position
layout_of unknown = ListWire.unknown

layout-command : (cmd : ℕ) → ListWire.layout cmd ≡ layout_of (command cmd)
layout-command cmd = ground arith

answer-known : (cmd : ℕ) → is_list_cmd cmd ≡ true → ¬ (ListAnswer.layout cmd ≡ ListAnswer.unknown)
unfolding is_list_cmd
answer-known cmd h e = ground (arith, h, e)

not_hash : (cmd : ℕ) → is_list_cmd cmd ≡ true → is_hash_cmd cmd ≡ false
unfolding is_list_cmd is_hash_cmd
not_hash cmd h = ground (arith, h)

carried-cmd : (l : Layout) (req : Request) → (RequestTrip.carried l req).cmd ≡ req.cmd
carried-cmd key_only req = refl
carried-cmd key_elems req = refl
carried-cmd key_span req = refl
carried-cmd key_index req = refl
carried-cmd key_index_value req = refl
carried-cmd key_count_value req = refl
carried-cmd key_pivot_value req = refl
carried-cmd key_timeout req = refl
carried-cmd key_position req = refl
carried-cmd ListWire.unknown req = refl

-- The command stands first in a request.
starts :
    (l : Layout) (req : Request) (spare : List ℕ)
    → ¬ (l ≡ ListWire.unknown)
    → (length (ListWire.encode_as l req) == 0 ≡ false)
      × (command_of (record { bytes = ListWire.encode_as l req; spare = spare }) ≡ returns req.cmd)
unfolding command_of byte_at
starts key_only req spare h = (ground arith, refl)
starts key_elems req spare h = (ground arith, refl)
starts key_span req spare h = (ground arith, refl)
starts key_index req spare h = (ground arith, refl)
starts key_index_value req spare h = (ground arith, refl)
starts key_count_value req spare h = (ground arith, refl)
starts key_pivot_value req spare h = (ground arith, refl)
starts key_timeout req spare h = (ground arith, refl)
starts key_position req spare h = (ground arith, refl)
starts ListWire.unknown req spare h = absurd (h refl)

module _ (text : Error → Str) (start : ℤ) (rounds : List Round) where
  -- The handler uses of a request what its layout carries.
  serve_as-carried :
      (w : Command) (c : TypedCache) (req : Request)
      → serve_as text start rounds w c (RequestTrip.carried (layout_of w) req)
        ≡ serve_as text start rounds w c req
  unfolding process_as
  serve_as-carried push_left c req = refl
  serve_as-carried push_right c req = refl
  serve_as-carried pop_left c req = refl
  serve_as-carried pop_right c req = refl
  serve_as-carried len c req = refl
  serve_as-carried range c req = refl
  serve_as-carried index c req = refl
  serve_as-carried set_at c req = refl
  serve_as-carried remove c req = refl
  serve_as-carried trim c req = refl
  serve_as-carried insert_by c req = refl
  serve_as-carried wait_left c req = refl
  serve_as-carried wait_right c req = refl
  serve_as-carried positions c req = refl
  serve_as-carried unknown c req = refl

  at_once-cmd :
      {A : Type 0} (cmd : ℕ) (call : Panics (TypedCache × Answer A)) (respond : Answer A → Response)
      → (c' : TypedCache) (resp : Response) → ((a : A) → (respond (ok a)).cmd ≡ cmd)
      → ((e : Error) → (respond (failed e)).cmd ≡ cmd)
      → (reply call respond >>= λ out. returns (some out)) ≡ returns (some (c', resp))
      → resp.cmd ≡ cmd
  at_once-cmd cmd panic respond c' resp h k e = absurd (cc)
  at_once-cmd cmd (returns (c, ok a)) respond c' resp h k e =
      let same : respond (ok a) ≡ resp = cc in subst (λ r. r.cmd ≡ cmd) same (h a)
  at_once-cmd cmd (returns (c, failed f)) respond c' resp h k e =
      let same : respond (failed f) ≡ resp = cc in subst (λ r. r.cmd ≡ cmd) same (k f)

  waited-cmd :
      (cmd : ℕ) (call : Panics (Option (TypedCache × Option Str))) (c' : TypedCache)
      (resp : Response)
      → waited cmd call ≡ returns (some (c', resp))
      → resp.cmd ≡ cmd
  waited-cmd cmd panic c' resp e = absurd (cc)
  waited-cmd cmd (returns none) c' resp e = absurd (cc)
  waited-cmd cmd (returns (some (c, none))) c' resp e =
      let same : popped cmd none ≡ resp = cc in subst (λ r. r.cmd ≡ cmd) same refl
  waited-cmd cmd (returns (some (c, some s))) c' resp e =
      let same : popped cmd (some s) ≡ resp = cc in subst (λ r. r.cmd ≡ cmd) same refl

  -- The response to a request is one to its command.
  serve_as-cmd :
      (w : Command) (c c' : TypedCache) (req : Request) (resp : Response)
      → serve_as text start rounds w c req ≡ returns (some (c', resp))
      → resp.cmd ≡ req.cmd
  unfolding process_as
  serve_as-cmd push_left c c' req resp e = at_once-cmd req.cmd _ _ c' resp (λ a. refl) (λ f. refl) e
  serve_as-cmd push_right c c' req resp e =
      at_once-cmd req.cmd _ _ c' resp (λ a. refl) (λ f. refl) e
  serve_as-cmd pop_left c c' req resp e = at_once-cmd req.cmd _ _ c' resp (λ a. refl) (λ f. refl) e
  serve_as-cmd pop_right c c' req resp e = at_once-cmd req.cmd _ _ c' resp (λ a. refl) (λ f. refl) e
  serve_as-cmd len c c' req resp e = at_once-cmd req.cmd _ _ c' resp (λ a. refl) (λ f. refl) e
  serve_as-cmd range c c' req resp e = at_once-cmd req.cmd _ _ c' resp (λ a. refl) (λ f. refl) e
  serve_as-cmd index c c' req resp e = at_once-cmd req.cmd _ _ c' resp (λ a. refl) (λ f. refl) e
  serve_as-cmd set_at c c' req resp e = at_once-cmd req.cmd _ _ c' resp (λ a. refl) (λ f. refl) e
  serve_as-cmd remove c c' req resp e = at_once-cmd req.cmd _ _ c' resp (λ a. refl) (λ f. refl) e
  serve_as-cmd trim c c' req resp e = at_once-cmd req.cmd _ _ c' resp (λ a. refl) (λ f. refl) e
  serve_as-cmd insert_by c c' req resp e = at_once-cmd req.cmd _ _ c' resp (λ a. refl) (λ f. refl) e
  serve_as-cmd positions c c' req resp e = at_once-cmd req.cmd _ _ c' resp (λ a. refl) (λ f. refl) e
  serve_as-cmd wait_left c c' req resp e = elim (Bool-cases (ltb_ℤ (pos 0) req.timeout)) [
    | inl t ↦ waited-cmd req.cmd _ c' resp (rw t at e)
    | inr t ↦ at_once-cmd req.cmd _ _ c' resp (λ a. refl) (λ f. refl) (rw t at e)
  ]
  serve_as-cmd wait_right c c' req resp e = elim (Bool-cases (ltb_ℤ (pos 0) req.timeout)) [
    | inl t ↦ waited-cmd req.cmd _ c' resp (rw t at e)
    | inr t ↦ at_once-cmd req.cmd _ _ c' resp (λ a. refl) (λ f. refl) (rw t at e)
  ]
  serve_as-cmd unknown c c' req resp e =
      let same : record (ListAnswer.blank req.cmd 1) { err_msg = invalid_command } ≡ resp = cc in
      subst (λ (r : Response). r.cmd ≡ req.cmd) same refl

  module _ (fl : Floats) (bits : fl.Float → ℕ) (from_bits : ℕ → fl.Float) (draw : ℕ)
      (draws : List ℕ) (process_kv : TypedCache → Payload → Handled) where
    -- the response, as it arrives
    abbrev pub delivered :
        List ℕ → Option (TypedCache × List ℕ) → Option (TypedCache × Arrived fl.Float)
    delivered spare none = none
    delivered spare (some out) = some (out.0, read_response fl.Float bits from_bits out.1 spare)

    -- what the client gets of a list request that it sends to a server with the cache `c`
    abbrev pub call_list :
        TypedCache → Request → List ℕ → List ℕ → Panics (Option (TypedCache × Arrived fl.Float))
    call_list c req spare spare' =
        handle fl bits from_bits text draw draws start rounds process_kv c
          (record { bytes = ListWire.encode_request req; spare = spare })
        >>= λ out. returns (delivered spare' out)

    carried_run :
        (c c' : TypedCache) (req : Request) (resp : Response)
        → serve_list text start rounds c req ≡ returns (some (c', resp))
        → serve_list text start rounds c (RequestTrip.carried (ListWire.layout req.cmd) req)
          ≡ returns (some (c', resp))
    unfolding serve_list
    carried_run c c' req resp e = rw (layout-command req.cmd) (
        rw (carried-cmd (layout_of (command req.cmd)) req)
          (serve_as-carried (command req.cmd) c req ∙ e))

    answer_carried :
        (c c' : TypedCache) (req : Request) (resp : Response)
        → serve_list text start rounds c req ≡ returns (some (c', resp))
        → answer_list fl bits from_bits text draw draws start rounds process_kv c
            (RequestTrip.carried (ListWire.layout req.cmd) req)
          ≡ returns (some (c', req.cmd ∷ ListAnswer.encode_response resp))
    unfolding answer_list
    answer_carried c c' req resp e =
        rw (carried_run c c' req resp e) (rw (carried-cmd (ListWire.layout req.cmd) req) refl)

    handled :
        (c c' : TypedCache) (req : Request) (resp : Response) (spare : List ℕ)
        → is_list_cmd req.cmd ≡ true
        → RequestTrip.IsSendable req
        → serve_list text start rounds c req ≡ returns (some (c', resp))
        → handle fl bits from_bits text draw draws start rounds process_kv c
            (record { bytes = ListWire.encode_request req; spare = spare })
          ≡ returns (some (c', req.cmd ∷ ListAnswer.encode_response resp))
    unfolding handle decoded ListWire.encode_request
    handled c c' req resp spare h i e =
        let known = RequestTrip.is_list_cmd-known req.cmd h in
        let (n, f) = starts (ListWire.layout req.cmd) req spare known in
        let d = RequestTrip.list_decode-encode req i spare h in
        rw (n, f, not_hash req.cmd h, h, d) (answer_carried c c' req resp e)

    heard :
        (resp : Response) (spare : List ℕ)
        → is_list_cmd resp.cmd ≡ true
        → ResponseTrip.IsSendable resp
        → read_response fl.Float bits from_bits (resp.cmd ∷ ListAnswer.encode_response resp) spare
          ≡ list_response (ResponseTrip.received resp)
    unfolding read_response
    heard resp spare h j =
        let d = ResponseTrip.list_response_decode-encode resp j spare (answer-known resp.cmd h) in
        rw (not_hash resp.cmd h, h, d) refl

    -- A list request that can be sent, over the wire to the server and back, leaves the cache as
    -- the handler leaves it that runs on the request itself, after a wait if it is a blocking pop,
    -- and brings its response to the client's call, if there is one that can be sent, whatever the
    -- buffers hold behind the payloads.
    pub call_list-serve_list :
        (c c' : TypedCache) (req : Request) (resp : Response) (spare spare' : List ℕ)
        → is_list_cmd req.cmd ≡ true
        → RequestTrip.IsSendable req
        → serve_list text start rounds c req ≡ returns (some (c', resp))
        → ResponseTrip.IsSendable resp
        → call_list c req spare spare'
          ≡ returns (some (c', list_response (ResponseTrip.received resp)))
    call_list-serve_list c c' req resp spare spare' h i e j =
        let same = serve_as-cmd (command req.cmd) c c' req resp (unfold serve_list in e) in
        let back : is_list_cmd resp.cmd ≡ true = ap is_list_cmd same ∙ h in
        rw (handled c c' req resp spare h i e, sym same) (rw (heard resp spare' back j) refl)
