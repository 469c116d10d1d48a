-- ===== src/Net/HashAnswer/RoundTrip.antt =====
-- net/protocol_ext.go: responses to hash commands encoded and decoded again.
use mcache.Prelude.{
  ℕ, ◌+◌, ◌^◌, ◌≡◌, ◌<◌, refl, true, Option, none, some, List, [], ◌∷◌, ◌++◌, Str, str_dec, leb,
  length, if◌then◌else◌, ◌==◌, arith, inl, inr, Bool-cases,
}
use mcache.Prelude.Decimal.{IsInt64}
use mcache.Prelude.Dict.{Dict, insert, IsDistinct}
use mcache.Ds.Hashes.{copy_into}
use mcache.Ds.Hashes.Fields.{copy_into_lem}
use mcache.Net.Bytes.{ok, Payload, len, byte_at, put, to_u64, byte_of}
use mcache.Net.Bytes.Views.{
  truth, Opening-of, get_some-end, fits2, fits4, fits8, byte_at-At, ltb-suc, At, At-start, At-byte,
  Shorter, Num-of, Text-end, to_i64-to_u64, to_u64-lt, string-At, leb_of,
}
use mcache.Net.HashAnswer.{
  Response, Layout, number, flag, text, pairs, strings, float, values, empty, unknown, layout,
  encode_error, decode_error, decode_text, put_pairs, get_map, put_values, get_values, encode_as,
  encode_response, blank, decode_as, decode_response,
}
use mcache.Net.Commands.{status_err}

pub decode_error-At :
    (p : Payload) (msg : Str)
    → length msg < 2 ^ 16
    → At p 1 (put 2 (length msg) ++ msg)
    → decode_error p ≡ ok msg
unfolding decode_error
decode_error-At p msg h a =
    let (e, an, g) = Num-of 2 p 1 (length msg) msg (fits2 _ h) a in
    let (ek, ak, gk) = Text-end p 3 msg an in rw (g, e, gk) ek

pub decode_text-At :
    (p : Payload) (s : Str)
    → length s < 2 ^ 32
    → At p 1 (put 4 (length s) ++ s)
    → decode_text p ≡ ok s
unfolding decode_text
decode_text-At p [] h a = let (e, an, g) = Num-of 4 p 1 0 [] refl a in rw (g, e) refl
decode_text-At p (b ∷ s) h a =
    let (e, an, g) = Num-of 4 p 1 (length (b ∷ s)) (b ∷ s) (fits4 _ h) a in
    let (ek, ak, gk) = Text-end p 5 (b ∷ s) an in rw (g, e, ltb-suc (length s), gk) ek

-- The keys and values have room in their fields.
abbrev pub FitPairs : Dict Str Str → Type 0
FitPairs [] = Unit
FitPairs (e ∷ m) = (length e.0 < 2 ^ 16) × (length e.1 < 2 ^ 32) × FitPairs m

get_map-At :
    (p : Payload) (m out : Dict Str Str) (n : ℕ)
    → FitPairs m
    → At p n (put_pairs m)
    → get_map (length m) p n out ≡ ok (copy_into out m)
unfolding get_map copy_into
get_map-At p [] out n h a = refl
get_map-At p (e ∷ m) out n (hk, hv, h) a =
    let (ek, fk, ak, gk, lk) = string-At 2 (2 ^ 16) fits2 p n e.0 _ hk a in
    let (ev, fv, av, gv, lv) = string-At 4 (2 ^ 32) fits4 p (n + 2 + length e.0) e.1 _ hv ak in
    rw (gk, ek, lk, fk, gv, ev, lv, fv)
      (get_map-At p m (insert str_dec e.0 e.1 out) (n + 2 + length e.0 + 4 + length e.1) h av)

-- The values have room in their fields.
abbrev pub FitValues : List (Option Str) → Type 0
FitValues [] = Unit
FitValues (none ∷ vs) = FitValues vs
FitValues (some v ∷ vs) = (length v < 2 ^ 32) × FitValues vs

get_values-At :
    (p : Payload) (vs : List (Option Str)) (n : ℕ)
    → FitValues vs
    → At p n (put_values vs)
    → get_values (length vs) p n ≡ ok vs
unfolding get_values
get_values-At p [] n h a = refl
get_values-At p (none ∷ vs) n h a =
    let b = At-byte p n 0 _ a in
    let g : leb (n + 1) (len p) ≡ true = leb_of (omega (arith, b.length_at)) in
    rw (g, byte_at-At p n 0 _ a) (rw (get_values-At p vs (n + 1) h b) refl)
get_values-At p (some v ∷ vs) n (hv, h) a =
    let b = At-byte p n 1 _ a in
    let g : leb (n + 1) (len p) ≡ true = leb_of (omega (arith, b.length_at)) in
    let (e, f, c, k, l) = string-At 4 (2 ^ 32) fits4 p (n + 1) v _ hv b in
    rw (g, byte_at-At p n 1 _ a, k, e, l, f)
      (rw (get_values-At p vs (n + 1 + 4 + length v) h c) refl)

-- A response can be sent: its lengths have room in their fields, and a map has no key twice.
pub record IsSendable {F : Type 0} (resp : Response F) : Type 0 where
  pub int_result : IsInt64 resp.int_result
  pub str_result : length resp.str_result < 2 ^ 32
  pub map_result : FitPairs resp.map_result
  pub map_keys : IsDistinct str_dec resp.map_result
  pub map_length : length resp.map_result < 2 ^ 32
  pub slice_result : Shorter (2 ^ 16) resp.slice_result
  pub slice_length : length resp.slice_result < 2 ^ 32
  pub any_slice : FitValues resp.any_slice
  pub any_length : length resp.any_slice < 2 ^ 32
  pub err_msg : length resp.err_msg < 2 ^ 16

module _ {F : Type 0} (float64bits : F → ℕ) (float64frombits : ℕ → F) where
  abbrev pub bare : Response F → Response F
  bare resp = blank F float64bits float64frombits resp.cmd resp.status

  -- what a layout carries of a response
  abbrev pub carried : Layout → Response F → Response F
  carried number resp = record (bare resp) { int_result = resp.int_result }
  carried flag resp = record (bare resp) { bool_result = resp.bool_result }
  carried text resp = record (bare resp) { str_result = resp.str_result }
  carried pairs resp = record (bare resp) { map_result = resp.map_result }
  carried strings resp = record (bare resp) { slice_result = resp.slice_result }
  carried float resp = record (bare resp) { float_result = resp.float_result }
  carried values resp = record (bare resp) { any_slice = resp.any_slice }
  carried empty resp = bare resp
  carried unknown resp = bare resp

  -- what the client gets of a response: the message of an error, or what the layout carries
  abbrev pub received : Response F → Response F
  received resp =
      if resp.status == status_err
      then record (bare resp) { err_msg = resp.err_msg }
      else carried (layout resp.cmd) resp

  module _ (bits_lt : (x : F) → float64bits x < 2 ^ 64)
      (bits_lem : (x : F) → float64frombits (float64bits x) ≡ x) (resp : Response F)
      (i : IsSendable resp) (spare : List ℕ) where
    abbrev payload : List ℕ → Payload
    payload bytes = record { bytes = bytes; spare = spare }

    -- The response's first byte is the status, and the rest is decoded with it.
    abbrev Opens : List ℕ → Layout → Type 0
    Opens bytes l =
        (leb 1 (length bytes) ≡ true)
        × (byte_at (payload bytes) 0 ≡ ok resp.status)
        × (decode_as F float64bits float64frombits l (payload bytes) (bare resp)
            ≡ ok (carried l resp))

    opens :
        (l : Layout) → ¬ (l ≡ unknown) → Opens (encode_as F float64bits float64frombits l resp) l
    opens number h =
        let p = payload (encode_as F float64bits float64frombits number resp) in
        let (g, b, a) = Opening-of p resp.status _ (At-start p) in
        let (e, an, gn) =
          Num-of 8 p 1 (to_u64 resp.int_result) [] (fits8 _ (to_u64-lt resp.int_result)) a in
        (g, b, rw (e, to_i64-to_u64 resp.int_result i.int_result) refl)
    opens flag h =
        let p = payload (encode_as F float64bits float64frombits flag resp) in
        let (g, b, a) = Opening-of p resp.status _ (At-start p) in
        (g, b, rw (byte_at-At p 1 (byte_of resp.bool_result) [] a, truth resp.bool_result) refl)
    opens text h =
        let p = payload (encode_as F float64bits float64frombits text resp) in
        let (g, b, a) = Opening-of p resp.status _ (At-start p) in
        (g, b, rw (decode_text-At p resp.str_result i.str_result a) refl)
    opens pairs h =
        let p = payload (encode_as F float64bits float64frombits pairs resp) in
        let (g, b, a) = Opening-of p resp.status _ (At-start p) in
        let (e, an, gn) = Num-of 4 p 1 (length resp.map_result) _ (fits4 _ i.map_length) a in
        let es = get_map-At p resp.map_result [] 5 i.map_result an in
        (g, b, rw (gn, e, es, copy_into_lem resp.map_result i.map_keys) refl)
    opens strings h =
        let p = payload (encode_as F float64bits float64frombits strings resp) in
        let (g, b, a) = Opening-of p resp.status _ (At-start p) in
        let (e, an, gn) = Num-of 4 p 1 (length resp.slice_result) _ (fits4 _ i.slice_length) a in
        let es = get_some-end 2 (2 ^ 16) fits2 p resp.slice_result 5 i.slice_result an in
        (g, b, rw (gn, e, es) refl)
    opens float h =
        let p = payload (encode_as F float64bits float64frombits float resp) in
        let (g, b, a) = Opening-of p resp.status _ (At-start p) in
        let (e, an, gn) =
          Num-of 8 p 1 (float64bits resp.float_result) [] (fits8 _ (bits_lt resp.float_result)) a in
        (g, b, rw (e, bits_lem resp.float_result) refl)
    opens values h =
        let p = payload (encode_as F float64bits float64frombits values resp) in
        let (g, b, a) = Opening-of p resp.status _ (At-start p) in
        let (e, an, gn) = Num-of 4 p 1 (length resp.any_slice) _ (fits4 _ i.any_length) a in
        let es = get_values-At p resp.any_slice 5 i.any_slice an in (g, b, rw (gn, e, es) refl)
    opens empty h =
        let p = payload (encode_as F float64bits float64frombits empty resp) in
        let (g, b, a) = Opening-of p resp.status [] (At-start p) in (g, b, refl)
    opens unknown h = absurd (h refl)

    fails :
        resp.status ≡ status_err
        → decode_response F float64bits float64frombits
            (payload (encode_error resp.err_msg))
            resp.cmd
          ≡ ok (record (blank F float64bits float64frombits resp.cmd status_err) {
            err_msg = resp.err_msg;
          })
    unfolding decode_response
    fails s =
        let p = payload (encode_error resp.err_msg) in
        let (g, b, a) = Opening-of p status_err _ (At-start p) in
        rw (g, b, decode_error-At p resp.err_msg i.err_msg a) refl

    -- A response to a hash command, with lengths that have room in their fields and no key twice
    -- in a map, is decoded as it was encoded, with the fields that its command carries, or with
    -- the message if it is an error, whatever the buffer holds behind it. It is assumed that a
    -- float has 64 bits, which give the float back.
    pub hash_response_decode-encode :
        ¬ (layout resp.cmd ≡ unknown)
        → decode_response F float64bits float64frombits
            (payload (encode_response F float64bits float64frombits resp))
            resp.cmd
          ≡ ok (received resp)
    unfolding encode_response decode_response
    hash_response_decode-encode h = elim (Bool-cases (resp.status == status_err)) [
      | inl s ↦ let e : resp.status ≡ status_err = ground (arith, s) in rw s (rw e (fails e))
      | inr s ↦ let (g, b, d) = opens (layout resp.cmd) h in rw s (rw (g, b, s) d)
    ]
