-- ===== src/Server/Connection.antt =====
-- net/server.go: what `handleConn` and `processRequest` do with the payload of a request, without a
-- raft node; net/client.go: what `readLoop` makes of the payload of a response. Requests on strings
-- and keys, whose handler is `process`, are a parameter of the server's part.
pub mod Hashes
pub mod Lists
use mcache.Prelude.{
  ℕ, Bool, Option, none, some, List, [], ◌∷◌, Str, if◌then◌else◌, ◌==◌, leb, ◌&&◌, length,
}
use mcache.Prelude.Int.{ℤ}
use mcache.Prelude.Text.{codes}
use mcache.Prelude.Panics.{Panics, returns, panic, ◌>>=◌}
use mcache.Ds.Hashes.{Floats}
use mcache.Cache.{Error}
use mcache.Cache.Typed.{TypedCache}
use mcache.Net.Bytes as Bytes
use mcache.Net.Bytes.{Decoded, Payload, byte_at, len}
use mcache.Net.Commands
use mcache.Net.Commands.{is_hash_cmd, is_list_cmd, status_err}
use mcache.Net.KvWire as KvWire
use mcache.Net.HashWire as HashWire
use mcache.Net.ListWire as ListWire
use mcache.Net.SetWire as SetWire
use mcache.Net.HashAnswer as HashAnswer
use mcache.Net.ListAnswer as ListAnswer
use mcache.Server.Hashes.{process_hash}
use mcache.Server.Blocking.{Round, serve_list}
use mcache.Server.Sets.{process_set}

-- `cmd >= CmdSAdd && cmd <= CmdSDiff`
abbrev pub is_set_cmd : ℕ → Bool
is_set_cmd cmd = leb Commands.s_add cmd && leb cmd Commands.s_diff

-- an error response of the read loop, which is one of the string commands
unfoldable pub refusal : Str → List ℕ
refusal msg = KvWire.encode_response (record { status = status_err; value = none; err_msg = msg })

-- the first byte of a payload that is not empty
unfoldable pub command_of : Payload → Panics ℕ
command_of p = elim (byte_at p 0) [
  | Bytes.ok cmd ↦ returns cmd
  | Bytes.failed e ↦ panic
  | Bytes.panic ↦ panic
]

-- what a round leaves: the cache and the payload of the response, or `none` for a pop that waits
abbrev pub Handled : Type 0
Handled = Panics (Option (TypedCache × List ℕ))

-- a decoded request goes on to its handler, and one that is not decoded is refused
unfoldable pub decoded : {A : Type 0} → TypedCache → Str → (A → Handled) → Decoded A → Handled
decoded c msg go (Bytes.ok req) = go req
decoded c msg go (Bytes.failed e) = returns (some (c, refusal msg))
decoded c msg go Bytes.panic = panic

module _ (fl : Floats) (bits : fl.Float → ℕ) (from_bits : ℕ → fl.Float) (text : Error → Str)
    (draw : ℕ) (draws : List ℕ) (start : ℤ) (rounds : List Round)
    (process_kv : TypedCache → Payload → Handled) where
  -- the cases of `processRequest`: a response stands behind its command
  unfoldable pub answer_hash : TypedCache → HashWire.Request fl.Float → Handled
  answer_hash c req = process_hash fl bits from_bits text c req >>= λ out.
      returns (some (out.0, req.cmd ∷ HashAnswer.encode_response fl.Float bits from_bits out.1))

  abbrev pub encoded : ℕ → Option (TypedCache × ListAnswer.Response) → Option (TypedCache × List ℕ)
  encoded cmd none = none
  encoded cmd (some out) = some (out.0, cmd ∷ ListAnswer.encode_response out.1)

  unfoldable pub answer_list : TypedCache → ListWire.Request → Handled
  answer_list c req = serve_list text start rounds c req >>= λ out. returns (encoded req.cmd out)

  unfoldable pub answer_set : TypedCache → SetWire.Request → Handled
  answer_set c req = process_set text draw draws c req >>= λ out.
      returns (some (out.0, req.cmd ∷ SetWire.encode_response out.1))

  -- a round of `handleConn`, with the payload of a request; a panic closes the connection
  unfoldable pub handle : TypedCache → Payload → Handled
  handle c p =
      if len p == 0
      then returns (some (c, refusal (codes "empty request")))
      else (command_of p >>= λ cmd.
          if is_hash_cmd cmd
          then decoded c (codes "invalid hash request") (answer_hash c)
              (HashWire.decode_request fl.Float bits from_bits p)
          else if is_list_cmd cmd
          then decoded c (codes "invalid list request") (answer_list c) (ListWire.decode_request p)
          else if is_set_cmd cmd
          then decoded c (codes "invalid set request") (answer_set c) (SetWire.decode_request p)
          else process_kv c p)

-- what arrives at a call of the client, by the table in which the call waits
pub data Arrived (F : Type 0) : Type 0 where
  hash_response : HashAnswer.Response F → Arrived F
  list_response : ListAnswer.Response → Arrived F
  set_response : SetWire.Response → Arrived F
  kv_response : KvWire.Response → Arrived F
  -- an empty payload, or a decoder's panic, which ends the loop
  nothing stopped : Arrived F

module _ {F : Type 0} {A : Type 0} (wrap : A → Arrived F) (malformed : A) where
  -- a response that is not decoded is replaced by an error
  abbrev pub arrived : Decoded A → Arrived F
  arrived (Bytes.ok resp) = wrap resp
  arrived (Bytes.failed e) = wrap malformed
  arrived Bytes.panic = stopped

module _ (F : Type 0) (bits : F → ℕ) (from_bits : ℕ → F) where
  -- the switch of `readLoop`, on a payload and the room behind it
  abbrev pub read_as : ℕ → Payload → Payload → Arrived F
  read_as cmd rest whole =
      if is_hash_cmd cmd
      then arrived hash_response
          (record (HashAnswer.blank F bits from_bits 0 status_err) {
            err_msg = codes "malformed hash response";
          })
          (HashAnswer.decode_response F bits from_bits rest cmd)
      else if is_list_cmd cmd
      then arrived list_response
          (record (ListAnswer.blank 0 status_err) { err_msg = codes "malformed list response" })
          (ListAnswer.decode_response rest cmd)
      else if is_set_cmd cmd
      then arrived set_response
          (record (SetWire.blank_response 0 status_err) {
            err_msg = codes "malformed set response";
          })
          (SetWire.decode_response rest cmd)
      else arrived kv_response
          (record { status = status_err; value = none; err_msg = codes "malformed response" })
          (KvWire.decode_response whole)

  unfoldable pub read_response : List ℕ → List ℕ → Arrived F
  read_response [] spare = nothing
  read_response (cmd ∷ bytes) spare =
      read_as cmd (record { bytes = bytes; spare = spare })
        (record { bytes = cmd ∷ bytes; spare = spare })
