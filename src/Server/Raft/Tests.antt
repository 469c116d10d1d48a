-- ===== src/Server/Raft/Tests.antt =====
-- net/raft_cmd.go: writes through the log at concrete requests.
use mcache.Prelude.{
  ℕ, ◌≡◌, refl, sym, ap, ◌∙◌, Bool, true, false, Option, none, some, List, [], ◌∷◌, Str, arith, not,
  ◌==◌, if◌then◌else◌,
}
use mathlib.Core.Path.{subst}
use mcache.Prelude.Panics.{returns, ◌>>=◌}
use mcache.Ds.Hashes.{Floats}
use mcache.Cache.Typed.{TypedCache, Maps, at_key}
use mcache.Cache.Typed.Hashes as CachedHashes
use mcache.Net.Bytes.{byte_of}
use mcache.Net.Commands.{is_hash_cmd, is_list_cmd}
use mcache.Net.HashWire as HashWire
use mcache.Net.ListWire as ListWire
use mcache.Server.Hashes.{process_hash}
use mcache.Server.Lists.{process_list}
use mcache.Server.Raft.{
  RaftCommand, Failure, of_cache, is_raft_write_op, bare_command, hash_req_to_raft,
  list_req_to_raft,
}
use mcache.Server.Raft.Apply.{Strings, Json, apply, apply_as, apply_hash, notify, on_raft_apply}
use mcache.Server.Raft.Replicated.{process_hash_raft, process_list_raft, received}
use mcache.Server.Raft.Agreement.{State, Laws, Setting, as_read, apply_all, meanwhile}
use mcache.Server.Raft.Agreement.Hashes.{process_hash_raft-direct}
use mcache.Server.Raft.Agreement.Lists.{process_list_raft-direct}

abbrev word : Str
word = b'a' ∷ b'b' ∷ []

abbrev bits : Bool → ℕ
bits = byte_of

abbrev from_bits : ℕ → Bool
from_bits n = not (n == 0)

abbrev floats : Floats
floats = record {
  Float = Bool;
  plus = λ a b. a;
  format_float = λ b. byte_of b ∷ [];
  parse_float = λ s. none;
}

abbrev text : Failure → Str
text e = word

-- a cache of strings that keeps nothing
abbrev strings : Strings
strings = record {
  State = Unit;
  set = λ s key value ttl. (s, none);
  del = λ s key. (s, none);
  cleanup = λ s. s;
}

-- `HSet`, of another node's request 9
abbrev foreign : RaftCommand Bool
foreign = record (bare_command Bool false 32 word) {
  req_id = 9;
  field = word;
  value = some (b'd' ∷ []);
}

-- a codec that writes the command `rc`, and reads it and the foreign one
abbrev read : RaftCommand Bool → List ℕ → Option (RaftCommand Bool)
read rc (b ∷ []) = if b == 1 then some (as_read rc) else if b == 2 then some foreign else none
read rc _ = none

abbrev json : RaftCommand Bool → Json Bool
json rc = record { marshal = λ rc'. some (1 ∷ []); unmarshal = read rc }

laws : (rc : RaftCommand Bool) → Laws (json rc)
laws rc = record {
  IsPlain = λ rc'. rc ≡ rc';
  reads = λ rc' e. (1 ∷ [], refl, ap (λ r. some (as_read r)) e);
}

abbrev maps : Str → Maps
maps v = record { sets = []; hashes = (word, (word, v) ∷ []) ∷ []; lists = (word, word ∷ []) ∷ [] }

-- a cache with one shard
abbrev cache : Str → TypedCache
cache v = record { table = maps v ∷ []; mask = 0; closed = false }

abbrev entries : List (ℕ × List ℕ)
entries = (0, 2 ∷ []) ∷ []

module _ (rc : RaftCommand Bool) where
  abbrev node : State floats false strings (json rc)
  node = record { kv = tt; typed = cache word; pending = []; next_id = 0; results = [] }

  -- the node behind the foreign entry
  abbrev later : State floats false strings (json rc)
  later = record { kv = tt; typed = cache (b'd' ∷ []); pending = 1 ∷ []; next_id = 1; results = [] }

  others : (rc' : RaftCommand Bool) → some foreign ≡ some rc' → 1 == rc'.req_id ≡ false
  others rc' e = let same : foreign ≡ rc' = cc in subst (λ r. 1 == r.req_id ≡ false) same refl

  setting_of :
      (rc' : RaftCommand Bool)
      → rc ≡ record rc' { req_id = 1 }
      → Setting floats false strings (json rc) entries 0 1 rc' node later (laws rc)
  unfolding apply_all on_raft_apply apply apply_as apply_hash received notify CachedHashes.h_set
      at_key laws is_hash_cmd mcache.Rehash.Shards.old_shard_index mcache.Shard.Kv.fnv_loop
      mcache.Shard.Typed.Hashes.h_set mcache.Prelude.Dict.insert mcache.Prelude.Dict.lookup
      mcache.Prelude.str_dec mcache.Ds.Hashes.h_set
  setting_of rc' e = record {
    numbered = refl;
    positive = omega arith;
    fresh = refl;
    plain = e;
    others = (others, tt);
    applied = refl;
  }

abbrev hash_request : HashWire.Request Bool
hash_request = record (HashWire.blank Bool bits from_bits 32) {
  key = word;
  field = word;
  value = b'c' ∷ [];
}

abbrev hash_command : RaftCommand Bool
hash_command = record (hash_req_to_raft Bool false hash_request) { req_id = 1 }

process_hash_raft-direct_example :
    (process_hash_raft floats false strings
        (json hash_command)
        word
        bits
        from_bits
        text
        true
        true
        (meanwhile floats false strings
          (json hash_command)
          entries
          0
          1
          (hash_req_to_raft Bool false hash_request)
          (node hash_command)
          (later hash_command))
        (node hash_command)
        hash_request
      >>= λ out. returns (out.0.typed, out.1))
    ≡ process_hash floats bits from_bits (λ e. text (of_cache e)) (cache (b'd' ∷ [])) hash_request
unfolding is_hash_cmd is_raft_write_op
process_hash_raft-direct_example =
    process_hash_raft-direct floats false bits from_bits text strings (json hash_command)
      (laws hash_command) word entries 0 1 (node hash_command) (later hash_command) hash_request
      (setting_of hash_command (hash_req_to_raft Bool false hash_request) refl) refl refl

abbrev list_request : ListWire.Request
list_request = record (ListWire.blank 48) { key = word; elements = word ∷ [] }

abbrev list_command : RaftCommand Bool
list_command = record (list_req_to_raft Bool false list_request) { req_id = 1 }

process_list_raft-direct_example :
    (process_list_raft floats false strings
        (json list_command)
        word
        bits
        from_bits
        text
        true
        true
        (meanwhile floats false strings
          (json list_command)
          entries
          0
          1
          (list_req_to_raft Bool false list_request)
          (node list_command)
          (later list_command))
        (node list_command)
        list_request
      >>= λ out. returns (out.0.typed, out.1))
    ≡ process_list (λ e. text (of_cache e)) (cache (b'd' ∷ [])) list_request
unfolding is_list_cmd is_raft_write_op
process_list_raft-direct_example =
    process_list_raft-direct floats false bits from_bits text strings (json list_command)
      (laws list_command) word entries 0 1 (node list_command) (later list_command) list_request
      (setting_of list_command (list_req_to_raft Bool false list_request) refl) refl refl
