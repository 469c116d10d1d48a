-- ===== src/Net/Frames/Stream.antt =====
-- net/protocol.go: frames written to a connection, read from it again.
use mcache.Prelude.{
  ℕ, ◌^◌, ◌≡◌, ◌≤◌, ◌<◌, refl, sym, ap, ◌∙◌, List, [], ◌∷◌, ◌++◌, ltb, leb, length, if◌then◌else◌,
  arith, Bool-cases, inl, inr, take-append_exact, length-append,
}
use mcache.Net.Bytes.{ok, failed, too_large, put}
use mcache.Net.Bytes.Views.{drop-append, leb_of, fits4}
use mcache.Net.Frames.{Frame, max_payload_size, encode, read_full, frame_of, decode, decode_all}

-- The stream id and the two bytes are in their ranges.
pub record IsFrame (f : Frame) : Type 0 where
  pub stream_id : f.stream_id < 2 ^ 32
  pub kind : f.kind < 256
  pub flags : f.flags < 256

read_full-append : (x s : List ℕ) → read_full (length x) (x ++ s) ≡ ok (x, s)
unfolding read_full
read_full-append x s =
    rw
      (
        leb_of {m = length x} {n = length (x ++ s)} (omega (arith, length-append x s)),
        take-append_exact (length x) x s refl,
        drop-append x s,
      )
      refl

no_length : (l : List ℕ) → length l ≡ 0 → l ≡ []
no_length [] e = refl
no_length (x ∷ l) e = absurd (omega (arith, e))

abbrev header : Frame → List ℕ
header f = put 4 (length f.payload) ++ (put 4 f.stream_id ++ (f.kind ∷ f.flags ∷ []))

abbrev with_fields : List ℕ → ℕ → ℕ → ℕ → Frame
with_fields payload stream_id kind flags = record {
  stream_id = stream_id;
  kind = kind;
  flags = flags;
  payload = payload;
}

frame_of-header : (f : Frame) → IsFrame f → frame_of (header f) f.payload ≡ f
frame_of-header f i =
    ap (λ n. with_fields f.payload n f.kind f.flags) (fits4 f.stream_id i.stream_id)

-- A frame that was written is read again, and the stream behind it is left, if its payload is not
-- over the limit; if it is, and is shorter than 2^32, the reader refuses it.
pub decode-encode :
    (f : Frame) (s : List ℕ)
    → IsFrame f
    → length f.payload < 2 ^ 32
    → decode (encode f ++ s)
      ≡ (if leb (length f.payload) max_payload_size then ok (f, s) else failed too_large)
unfolding decode encode
decode-encode f s i small =
    let n = length f.payload in
    let first : read_full 10 (encode f ++ s) ≡ ok (header f, f.payload ++ s) =
      read_full-append (header f) (f.payload ++ s) in
    elim (Bool-cases (leb n max_payload_size)) [
      | inr over ↦ rw first (rw (fits4 n small, over) refl)
      | inl within ↦ elim (Bool-cases (ltb 0 n)) [
        | inl some_bytes ↦ rw first (
            rw (fits4 n small, within, some_bytes, read_full-append f.payload s)
              (ap (λ g. ok (g, s)) (frame_of-header f i)))
        | inr no_bytes ↦ rw first (
            rw (fits4 n small, within, no_bytes)
              (let e : f.payload ≡ [] = no_length f.payload (ground (arith, no_bytes)) in
                ap (λ (l : List ℕ). ok (frame_of (header f) l, f.payload ++ s)) (sym e)
                ∙ ap (λ (l : List ℕ). ok (frame_of (header f) f.payload, l ++ s)) e
                ∙ ap (λ g. ok (g, s)) (frame_of-header f i)))
      ]
    ]

-- the bytes of frames written one after the other
pub encode_all : List Frame → List ℕ
encode_all [] = []
encode_all (f ∷ fs) = encode f ++ encode_all fs

-- Every frame is in range, with a payload within the limit.
abbrev pub AreFrames : List Frame → Type 0
AreFrames [] = Unit
AreFrames (f ∷ fs) = IsFrame f × (length f.payload ≤ max_payload_size) × AreFrames fs

-- Frames in range, with payloads within the limit, that are written one after the other, whatever
-- streams they belong to, are read in the same order, each whole, and nothing is left over.
pub decode_all-encode_all :
    (fs : List Frame) → AreFrames fs → decode_all (length fs) (encode_all fs) ≡ ok fs
unfolding encode encode_all decode_all
decode_all-encode_all [] h = refl
decode_all-encode_all (f ∷ fs) (i, small, h) =
    let e : decode (encode f ++ encode_all fs) ≡ ok (f, encode_all fs) =
      decode-encode f (encode_all fs) i (omega (arith, small)) ∙ ground (arith, small) in
    rw (e, decode_all-encode_all fs h) refl
