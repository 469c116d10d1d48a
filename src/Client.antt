-- ===== src/Client.antt =====
-- net/client.go and net/client_ext.go: what a call of the client sends, and what it returns for the
-- response that arrives. `serverError` and `errorString` are texts.
pub mod Hashes
use mcache.Prelude.{ℕ, Bool, Option, List, [], Str, if◌then◌else◌, ◌==◌}
use mcache.Prelude.Int.{ℤ}
use mcache.Prelude.Dict.{Dict}
use mcache.Cache.{Error, Answer, ok, failed, key_not_found}
use mcache.Net.Commands.{status_ok, status_not_found}

-- the results of the methods
pub data Value (F : Type 0) : Type 0 where
  number : ℤ → Value F
  flag : Bool → Value F
  text : Str → Value F
  pairs : Dict Str Str → Value F
  strings : List Str → Value F
  values : List (Option Str) → Value F
  numbers : List ℤ → Value F
  float : F → Value F
  nothing : Value F

-- what a method returns: a value, `ErrKeyNotFound`, or an error with the server's text
pub data Outcome (F : Type 0) : Type 0 where
  value : Value F → Outcome F
  missing : Outcome F
  error : Str → Outcome F

module _ {F : Type 0} where
  -- `if resp.Status != StatusOK`
  abbrev pub or_failed : ℕ → Str → Value F → Outcome F
  or_failed status msg v = if status == status_ok then value v else error msg

  -- the same, behind `if resp.Status == StatusNotFound`
  abbrev pub or_missing : ℕ → Str → Value F → Outcome F
  or_missing status msg v = if status == status_not_found then missing else or_failed status msg v

  module _ (text_of : Error → Str) {A : Type 0} (v : A → Value F) where
    -- what the caller should see of the cache's answer: every error by its text
    abbrev pub failing : Answer A → Outcome F
    failing (ok n) = value (v n)
    failing (failed e) = error (text_of e)

    -- with a missing key told apart
    abbrev pub missing_too : Answer A → Outcome F
    missing_too (failed key_not_found) = missing
    missing_too answer = failing answer

    -- with a missing key as an error without a text
    abbrev pub failing_blank : Answer A → Outcome F
    failing_blank (failed key_not_found) = error []
    failing_blank answer = failing answer
