-- ===== src/Server/Tests.antt =====
-- net/: the server and its clients at concrete requests.
use mcache.Prelude.{
  ℕ, suc, ◌≡◌, ◌<◌, ◌^◌, refl, Bool, true, false, Option, none, some, List, [], ◌∷◌, Str, arith,
  not, ◌==◌, inl, inr,
}
use mcache.Prelude.Int.{pos, ◌+ℤ◌}
use mcache.Shard.Kv.{fnv_loop}
use mcache.Prelude.Panics.{Panics, returns}
use mcache.Ds.Hashes.{Floats}
use mcache.Cache.{Error}
use mcache.Cache.Typed.{TypedCache, Maps, at_key}
use mcache.Cache.Typed.Hashes as CachedHashes
use mcache.Cache.Typed.Lists as CachedLists
use mcache.Shard.Typed.Hashes as ShardHashes
use mcache.Shard.Typed.Lists as ShardLists
use mcache.Rehash.Shards.{old_shard_index}
use mcache.Net.Bytes as Bytes
use mcache.Net.Bytes.{Payload, byte_of}
use mcache.Net.Bytes.Views.{truth}
use mcache.Net.Commands.{is_hash_cmd, is_list_cmd}
use mcache.Net.HashWire as HashWire
use mcache.Net.HashAnswer as HashAnswer
use mcache.Net.HashAnswer.RoundTrip as HashTrip
use mcache.Net.HashWire.RoundTrip as HashRequestTrip
use mcache.Net.ListWire as ListWire
use mcache.Net.ListWire.RoundTrip as ListRequestTrip
use mcache.Net.ListAnswer as ListAnswer
use mcache.Net.ListAnswer.RoundTrip as ListTrip
use mcache.Server.Hashes.{process_hash}
use mcache.Server.Hashes as Hashes
use mcache.Server.Blocking.{Round, serve_list, tried, wait, deadline_of}
use mcache.Server.Blocking.Ends.{serve_list-Ends}
use mcache.Server.Connection.{Handled, hash_response, list_response}
use mcache.Server.Connection.Hashes.{call_hash, call_hash-process_hash}
use mcache.Client.{value, text as said}
use mcache.Client.Hashes.{HashCall, h_get, request_of, result_of, local}
use mcache.Client.Hashes.Remote.{client_hash-local}
use mathlib.Core.Path.{subst}
use mcache.Server.Connection.Lists.{call_list, call_list-serve_list}

abbrev word : Str
word = b'a' ∷ b'b' ∷ []

-- a type of two floats, with the bits of 0 and of the least positive number
abbrev bits : Bool → ℕ
bits = byte_of

abbrev from_bits : ℕ → Bool
from_bits n = not (n == 0)

wide : (b : Bool) → bits b < 2 ^ 64
wide true = omega arith
wide false = omega arith

abbrev floats : Floats
floats = record {
  Float = Bool;
  plus = λ a b. a;
  format_float = λ b. byte_of b ∷ [];
  parse_float = λ s. none;
}

abbrev text : Error → Str
text e = word

abbrev no_kv : TypedCache → Payload → Handled
no_kv c p = returns none

abbrev maps : Maps
maps = record {
  sets = [];
  hashes = (word, (word, b'c' ∷ []) ∷ []) ∷ [];
  lists = (word, word ∷ []) ∷ [];
}

-- a cache with one shard
abbrev cache : TypedCache
cache = record { table = maps ∷ []; mask = 0; closed = false }

abbrev hash_request : HashWire.Request Bool
hash_request = record (HashWire.blank Bool bits from_bits 33) { key = word; field = word }

abbrev hash_answer : HashAnswer.Response Bool
hash_answer = record (HashAnswer.blank Bool bits from_bits 33 0) { str_result = b'c' ∷ [] }

hash_request-IsSendable : HashRequestTrip.IsSendable hash_request
hash_request-IsSendable = record {
  key = omega arith;
  field = omega arith;
  value = omega arith;
  fields = tt;
  num_fields = omega arith;
  pairs = tt;
  num_pairs = omega arith;
  delta = omega arith;
}

hash_answer-IsSendable : HashTrip.IsSendable hash_answer
hash_answer-IsSendable = record {
  int_result = omega arith;
  str_result = omega arith;
  map_result = tt;
  map_keys = tt;
  map_length = omega arith;
  slice_result = tt;
  slice_length = omega arith;
  any_slice = tt;
  any_length = omega arith;
  err_msg = omega arith;
}

hash_response_decode-encode_example :
    HashAnswer.decode_response Bool bits from_bits
      (record {
        bytes = HashAnswer.encode_response Bool bits from_bits hash_answer;
        spare = 7 ∷ [];
      })
      33
    ≡ Bytes.ok (HashTrip.received bits from_bits hash_answer)
hash_response_decode-encode_example =
    HashTrip.hash_response_decode-encode bits from_bits wide truth hash_answer
      hash_answer-IsSendable (7 ∷ []) (λ e. ground (arith, e))

hash_run : process_hash floats bits from_bits text cache hash_request ≡ returns (cache, hash_answer)
unfolding process_hash Hashes.process_as CachedHashes.h_get ShardHashes.h_get at_key old_shard_index
    fnv_loop mcache.Prelude.Dict.lookup mcache.Prelude.str_dec mcache.Ds.Hashes.h_get
hash_run = refl

call_hash-process_hash_example :
    call_hash floats bits from_bits text 0 []
      (pos 0)
      []
      no_kv
      wide
      truth
      cache
      hash_request
      []
      (7 ∷ [])
    ≡ returns (some (cache, hash_response (HashTrip.received bits from_bits hash_answer)))
unfolding is_hash_cmd
call_hash-process_hash_example =
    call_hash-process_hash floats bits from_bits text 0 [] (pos 0) [] no_kv wide truth cache cache
      hash_request hash_answer [] (7 ∷ []) refl hash_request-IsSendable hash_run
      hash_answer-IsSendable

-- `BLPop` on a list that is not empty
abbrev list_request : ListWire.Request
list_request = record (ListWire.blank 59) { key = word; timeout = pos 5 }

abbrev list_answer : ListAnswer.Response
list_answer = record (ListAnswer.blank 59 0) { str_result = word }

abbrev emptied : TypedCache
emptied = record cache { table = record maps { lists = [] } ∷ [] }

-- a round in which nobody else does anything, before and behind the deadline
abbrev quiet : ℕ → Round
quiet n = record { others = λ c. c; now = pos n }

abbrev rounds : List Round
rounds = quiet 1 ∷ quiet 6000000 ∷ []

list_request-IsSendable : ListRequestTrip.IsSendable list_request
list_request-IsSendable = record {
  key = omega arith;
  elements = tt;
  num_elements = omega arith;
  value = omega arith;
  pivot = omega arith;
  index = omega arith;
  start = omega arith;
  stop = omega arith;
  count = omega arith;
  timeout = omega arith;
  rank = omega arith;
  max_len = omega arith;
}

list_answer-IsSendable : ListTrip.IsSendable list_answer
list_answer-IsSendable = record {
  int_result = omega arith;
  str_result = omega arith;
  slice_result = tt;
  slice_length = omega arith;
  pos_result = tt;
  pos_length = omega arith;
  err_msg = omega arith;
}

list_response_decode-encode_example :
    ListAnswer.decode_response
      (record { bytes = ListAnswer.encode_response list_answer; spare = [] })
      59
    ≡ Bytes.ok (ListTrip.received list_answer)
list_response_decode-encode_example =
    ListTrip.list_response_decode-encode list_answer list_answer-IsSendable []
      (λ e. ground (arith, e))

list_run : serve_list text (pos 0) rounds cache list_request ≡ returns (some (emptied, list_answer))
unfolding serve_list wait tried deadline_of CachedLists.l_pop at_key old_shard_index fnv_loop ◌+ℤ◌
    ShardLists.l_pop mcache.Prelude.Dict.lookup mcache.Prelude.str_dec mcache.Ds.Lists.l_pop
    mcache.Shard.Typed.store_left mcache.Prelude.Dict.delete
list_run = refl

call_list-serve_list_example :
    call_list text (pos 0) rounds floats bits from_bits 0 [] no_kv cache list_request [] (7 ∷ [])
    ≡ returns (some (emptied, list_response (ListTrip.received list_answer)))
unfolding is_list_cmd
call_list-serve_list_example =
    call_list-serve_list text (pos 0) rounds floats bits from_bits 0 [] no_kv cache emptied
      list_request list_answer [] (7 ∷ []) refl list_request-IsSendable list_run
      list_answer-IsSendable

serve_list-Ends_example :
    (out : TypedCache × ListAnswer.Response) × (serve_list text (pos 0) rounds emptied list_request
      ≡ returns (some out))
unfolding deadline_of ◌+ℤ◌ old_shard_index fnv_loop
serve_list-Ends_example =
    serve_list-Ends text (pos 0) rounds emptied list_request (inl refl) (inr (inl refl))
      ((λ c h. h), ((λ c h. h), tt)) (omega arith)

answered :
    {A B : Type 0} {p : Panics (A × B)} {a a' : A} {b b' : B}
    → p ≡ returns (a, b)
    → p ≡ returns (a', b')
    → b ≡ b'
answered e f = cc

abbrev hash_call : HashCall Bool
hash_call = h_get word word

hash_call-IsSendable : HashRequestTrip.IsSendable (request_of Bool bits from_bits hash_call)
unfolding request_of
hash_call-IsSendable = hash_request-IsSendable

hash_call_run :
    process_hash floats bits from_bits text cache (request_of Bool bits from_bits hash_call)
    ≡ returns (cache, hash_answer)
unfolding request_of
hash_call_run = hash_run

client_hash-local_example :
    (resp : HashAnswer.Response Bool) × (call_hash floats bits from_bits text 0 []
        (pos 0)
        []
        no_kv
        wide
        truth
        cache
        (request_of Bool bits from_bits hash_call)
        []
        (7 ∷ [])
      ≡ returns (some (cache, hash_response resp)))
    × (result_of Bool bits from_bits hash_call resp ≡ value (said (b'c' ∷ [])))
unfolding local CachedHashes.h_get ShardHashes.h_get at_key old_shard_index fnv_loop
    mcache.Prelude.Dict.lookup mcache.Prelude.str_dec mcache.Ds.Hashes.h_get
client_hash-local_example =
    client_hash-local floats bits from_bits text 0 [] (pos 0) [] no_kv wide truth hash_call cache
      cache (value (said (b'c' ∷ []))) [] (7 ∷ []) hash_call-IsSendable
      (λ resp e.
        let same : hash_answer ≡ resp = answered hash_call_run e in
        subst HashTrip.IsSendable same hash_answer-IsSendable)
      refl
