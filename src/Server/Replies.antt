-- ===== src/Server/Replies.antt =====
-- net/server.go and net/server_ext.go: the responses to what the cache answers. The text of an error,
-- `err.Error()`, is a parameter.
use mcache.Prelude.{ℕ, [], Str}
use mcache.Prelude.Panics.{Panics, returns, ◌>>=◌}
use mcache.Prelude.Text.{codes}
use mcache.Cache.{Error, Answer, ok, failed, key_not_found}
use mcache.Net.Commands.{status_ok, status_err, status_not_found}
use mcache.Net.HashAnswer
use mcache.Net.ListAnswer
use mcache.Net.SetWire

-- the cache's answer, made a response
abbrev pub reply : {S A R : Type 0} → Panics (S × Answer A) → (Answer A → R) → Panics (S × R)
reply call respond = call >>= λ out. returns (out.0, respond out.1)

-- the text of `ErrInvalidCommand`
abbrev pub invalid_command : Str
invalid_command = codes "invalid command"

-- does the handler of a command tell a missing key from other errors?
pub data OnMissing : Type 0 where
  as_error as_not_found : OnMissing

module _ (text : Error → Str) where
  -- the status and the message for an error
  abbrev pub refusal : OnMissing → Error → ℕ × Str
  refusal as_not_found key_not_found = (status_not_found, [])
  refusal m e = (status_err, text e)

  module _ (F : Type 0) (float64bits : F → ℕ) (float64frombits : ℕ → F) where
    abbrev blank_hash : ℕ → ℕ → HashAnswer.Response F
    blank_hash = HashAnswer.blank F float64bits float64frombits

    -- a response with what `fill` makes of the value
    abbrev pub hash_reply :
        {A : Type 0}
        → ℕ
        → OnMissing
        → (A → HashAnswer.Response F → HashAnswer.Response F)
        → Answer A
        → HashAnswer.Response F
    hash_reply cmd m fill (ok a) = fill a (blank_hash cmd status_ok)
    hash_reply cmd m fill (failed e) = record (blank_hash cmd (refusal m e).0) {
      err_msg = (refusal m e).1;
    }

  abbrev pub list_reply :
      {A : Type 0}
      → ℕ
      → OnMissing
      → (A → ListAnswer.Response → ListAnswer.Response)
      → Answer A
      → ListAnswer.Response
  list_reply cmd m fill (ok a) = fill a (ListAnswer.blank cmd status_ok)
  list_reply cmd m fill (failed e) = record (ListAnswer.blank cmd (refusal m e).0) {
    err_msg = (refusal m e).1;
  }

  abbrev pub set_reply :
      {A : Type 0}
      → ℕ
      → OnMissing
      → (A → SetWire.Response → SetWire.Response)
      → Answer A
      → SetWire.Response
  set_reply cmd m fill (ok a) = fill a (SetWire.blank_response cmd status_ok)
  set_reply cmd m fill (failed e) = record (SetWire.blank_response cmd (refusal m e).0) {
    err_msg = (refusal m e).1;
  }
