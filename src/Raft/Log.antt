-- ===== src/Raft/Log.antt =====
-- raft/log.go. Position 0 holds a dummy entry, so that positions are indices.
use mcache.Prelude.{
  ℕ, ◌-◌, Option, none, List, [], ◌∷◌, ◌++◌, Str, if◌then◌else◌, ltb, leb, ◌==◌, length, get_elem?,
  take, drop, ◌||◌,
}

pub record LogEntry : Type 0 where
  pub index : ℕ
  pub term : ℕ
  pub command : Str

abbrev pub Log : Type 0
Log = List LogEntry

-- `NewLog`
abbrev pub new_log : Log
new_log = record { index = 0; term = 0; command = [] } ∷ []

unfoldable pub append : Log → List LogEntry → Log
append l entries = l ++ entries

-- `Get`; `none` for a false `ok`
unfoldable pub get : Log → ℕ → Option LogEntry
get l index = if index == 0 || leb (length l) index then none else get_elem? l index

unfoldable pub last : Log → ℕ × ℕ
last [] = (0, 0)
last (e ∷ []) = (e.index, e.term)
last (e ∷ e' ∷ l) = last (e' ∷ l)

unfoldable pub len : Log → ℕ
len l = length l - 1

unfoldable pub truncate : Log → ℕ → Log
truncate l from = if ltb from (length l) then take from l else l

unfoldable pub slice : Log → ℕ → ℕ → List LogEntry
slice l start end =
    let start' = if ltb start 1 then 1 else start in
    let end' = if ltb (length l) end then length l else end in
    if leb end' start' then [] else take (end' - start') (drop start' l)
