-- ===== src/Net/Frames.antt =====
-- net/protocol.go: frames, the units of a connection. A writer takes all bytes of a frame at once;
-- a reader is the stream of the bytes to come, and `io.ReadFull` fails at its end.
pub mod Stream
use mcache.Prelude.{
  ℕ, zero, suc, ◌+◌, ◌*◌, Bool, List, [], ◌∷◌, ◌++◌, ltb, leb, length, get_or, take, drop,
  if◌then◌else◌,
}
use mcache.Net.Bytes.{
  Decoded, ok, failed, panic, ◌>>=◌, check, too_large, end_of_stream, put, value,
}

pub record Frame : Type 0 where
  pub stream_id : ℕ
  pub kind : ℕ
  pub flags : ℕ
  pub payload : List ℕ

-- `MaxPayloadSize`
abbrev pub max_payload_size : ℕ
max_payload_size = 16 * 1024 * 1024

-- `Encode`: what it writes
pub encode : Frame → List ℕ
encode f = put 4 (length f.payload) ++ (put 4 f.stream_id ++ (f.kind ∷ f.flags ∷ f.payload))

-- `io.ReadFull` of a buffer of `n` bytes: the buffer, and the stream behind it
pub read_full : ℕ → List ℕ → Decoded (List ℕ × List ℕ)
read_full n r = if leb n (length r) then ok (take n r, drop n r) else failed end_of_stream

-- the fields in the ten bytes of a header
abbrev pub frame_of : List ℕ → List ℕ → Frame
frame_of header payload = record {
  stream_id = value 0 (take 4 (drop 4 header));
  kind = get_or header 8 0;
  flags = get_or header 9 0;
  payload = payload;
}

-- `DecodeFrame`: the frame, and the stream behind it. A payload of no bytes is not read.
pub decode : List ℕ → Decoded (Frame × List ℕ)
decode r = read_full 10 r >>= λ h.
    let n = value 0 (take 4 h.0) in
    check (leb n max_payload_size) too_large >>= λ _.
    (if ltb 0 n then read_full n h.1 else ok ([], h.1)) >>= λ body. ok (frame_of h.0 body.0, body.1)

-- the frames that a loop over `DecodeFrame` delivers until the stream ends, on fuel
pub decode_all : ℕ → List ℕ → Decoded (List Frame)
decode_all fuel [] = ok []
decode_all zero (b ∷ r) = failed end_of_stream
decode_all (suc fuel) (b ∷ r) =
    decode (b ∷ r) >>= λ out. decode_all fuel out.1 >>= λ fs. ok (out.0 ∷ fs)
