-- ===== src/Net/Tests.antt =====
-- net/: the codecs at concrete messages.
use mcache.Prelude.{
  ℕ, ◌^◌, ◌≡◌, ◌<◌, refl, Bool, true, false, some, [], ◌∷◌, List, arith, not, ◌==◌, length,
}
use mcache.Prelude.Int.{pos, negsuc}
use mcache.Net.Bytes.{ok, Payload, byte_of}
use mcache.Net.Bytes.Views.{truth}
use mcache.Net.Frames.{Frame, decode_all}
use mcache.Net.Frames.Stream.{IsFrame, encode_all, decode_all-encode_all}
use mcache.Net.KvWire
use mcache.Net.KvWire.RoundTrip as KvTrip
use mcache.Net.SetWire
use mcache.Net.SetWire.RoundTrip as SetTrip
use mcache.Net.Commands.{is_hash_cmd, is_list_cmd}
use mcache.Net.HashWire
use mcache.Net.HashWire.RoundTrip as HashTrip
use mcache.Net.ListWire
use mcache.Net.ListWire.RoundTrip as ListTrip
use mcache.Net.Safety.{IsSafe}
use mcache.Net.Safety.Hashes.{hash_decode_request-IsSafe}
use mcache.Net.Safety.Lists.{list_decode_request-IsSafe}

abbrev word : List ℕ
word = b'a' ∷ b'b' ∷ []

abbrev frame : Frame
frame = record { stream_id = 7; kind = 1; flags = 0; payload = word }

frame-IsFrame : IsFrame frame
frame-IsFrame = record { stream_id = omega arith; kind = omega arith; flags = omega arith }

decode_all-encode_all_example :
    decode_all (length (frame ∷ frame ∷ [])) (encode_all (frame ∷ frame ∷ []))
    ≡ ok (frame ∷ frame ∷ [])
decode_all-encode_all_example =
    decode_all-encode_all (frame ∷ frame ∷ [])
      (frame-IsFrame, omega arith, (frame-IsFrame, omega arith, tt))

abbrev kv_request : KvWire.Request
kv_request = record { cmd = 2; key = word; value = some word; ttl = negsuc 4 }

decode_request-encode_request_example :
    KvWire.decode_request (record { bytes = KvWire.encode_request kv_request; spare = 9 ∷ [] })
    ≡ ok kv_request
decode_request-encode_request_example =
    KvTrip.decode_request-encode_request kv_request (9 ∷ [])
      (record { key = omega arith; value = omega arith; ttl = omega arith })

abbrev kv_response : KvWire.Response
kv_response = record { status = 0; value = some word; err_msg = word }

decode_response-encode_response_example :
    KvWire.decode_response (record { bytes = KvWire.encode_response kv_response; spare = [] })
    ≡ ok kv_response
decode_response-encode_response_example =
    KvTrip.decode_response-encode_response kv_response []
      (record { value = omega arith; err_msg = omega arith })

abbrev set_request : SetWire.Request
set_request = record { cmd = 10; key = word; elems = word ∷ [] ∷ []; count = pos 0; keys = [] }

set_decode-encode_example :
    SetWire.decode_request (record { bytes = SetWire.encode_request set_request; spare = [] })
    ≡ ok set_request
set_decode-encode_example =
    SetTrip.set_decode-encode set_request []
      (record {
        key = omega arith;
        elems = (omega arith, (omega arith, tt));
        num_elems = omega arith;
        keys = tt;
        num_keys = omega arith;
        count = omega arith;
      })
      (λ e. ground (arith, e))

abbrev set_response : SetWire.Response
set_response = record {
  cmd = 13;
  status = 0;
  changed = 0;
  is_member = false;
  card = 0;
  elems = word ∷ [] ∷ [];
  err_msg = [];
}

set_response_decode-encode_example :
    SetWire.decode_response (record { bytes = SetWire.encode_response set_response; spare = [] }) 13
    ≡ ok set_response
set_response_decode-encode_example =
    SetTrip.set_response_decode-encode set_response []
      (record {
        status = refl;
        changed = omega arith;
        card = omega arith;
        elem = omega arith;
        elems = (omega arith, (omega arith, tt));
        num_elems = omega arith;
      })
      (λ e. ground (arith, e))

-- a type of two floats, with the bits of 0 and of the least positive number
abbrev bits : Bool → ℕ
bits = byte_of

abbrev from_bits : ℕ → Bool
from_bits n = not (n == 0)

wide : (b : Bool) → bits b < 2 ^ 64
wide true = omega arith
wide false = omega arith

abbrev hash_request : HashWire.Request Bool
hash_request = record {
  cmd = 42;
  key = word;
  field = word;
  value = [];
  fields = [];
  fv_pairs = [];
  delta_i64 = pos 0;
  delta_f64 = true;
}

hash_decode-encode_example :
    HashWire.decode_request Bool bits from_bits
      (record { bytes = HashWire.encode_request Bool bits from_bits hash_request; spare = [] })
    ≡ ok hash_request
unfolding is_hash_cmd
hash_decode-encode_example =
    HashTrip.hash_decode-encode bits from_bits truth wide hash_request
      (record {
        key = omega arith;
        field = omega arith;
        value = omega arith;
        fields = tt;
        num_fields = omega arith;
        pairs = tt;
        num_pairs = omega arith;
        delta = omega arith;
      })
      [] refl

abbrev list_request : ListWire.Request
list_request = record {
  cmd = 58;
  key = word;
  elements = [];
  value = word;
  index = pos 0;
  start = pos 0;
  stop = pos 0;
  count = pos 0;
  pivot = word;
  before = true;
  timeout = pos 0;
  rank = pos 0;
  max_len = pos 0;
}

list_decode-encode_example :
    ListWire.decode_request (record { bytes = ListWire.encode_request list_request; spare = [] })
    ≡ ok list_request
unfolding is_list_cmd
list_decode-encode_example =
    ListTrip.list_decode-encode list_request
      (record {
        key = omega arith;
        elements = tt;
        num_elements = omega arith;
        value = omega arith;
        pivot = omega arith;
        index = omega arith;
        start = omega arith;
        stop = omega arith;
        count = omega arith;
        timeout = omega arith;
        rank = omega arith;
        max_len = omega arith;
      })
      [] refl

-- a payload that promises a longer key than it has
abbrev short : Payload
short = record { bytes = 33 ∷ 0 ∷ 9 ∷ 0 ∷ 1 ∷ 5 ∷ []; spare = 1 ∷ [] }

hash_decode_request-IsSafe_example : IsSafe (HashWire.decode_request Bool bits from_bits short)
hash_decode_request-IsSafe_example = hash_decode_request-IsSafe bits from_bits short

-- a push that announces more elements than it has
abbrev push : Payload
push = record { bytes = 48 ∷ 0 ∷ 0 ∷ 255 ∷ 255 ∷ 255 ∷ 255 ∷ 0 ∷ 9 ∷ []; spare = 1 ∷ [] }

list_decode_request-IsSafe_example : IsSafe (ListWire.decode_request push)
list_decode_request-IsSafe_example = list_decode_request-IsSafe push (
  omega arith,
  (
    omega arith,
    (
      omega arith,
      (
        omega arith,
        (
          omega arith,
          (omega arith, (omega arith, (omega arith, (omega arith, (omega arith, tt))))),
        ),
      ),
    ),
  ),
)
