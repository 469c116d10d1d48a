-- ===== src/Net/ListAnswer/RoundTrip.antt =====
-- net/protocol_ext.go: responses to list commands encoded and decoded again.
use mcache.Prelude.{
  ℕ, ◌+◌, ◌^◌, ◌≡◌, ◌<◌, refl, true, List, [], ◌∷◌, leb, length, if◌then◌else◌, ◌==◌, arith, inl,
  inr, Bool-cases,
}
use mcache.Prelude.Int.{ℤ}
use mcache.Prelude.Decimal.{IsInt64}
use mcache.Net.Bytes.{ok, Payload, byte_at, to_u64, byte_of}
use mcache.Net.Bytes.Views.{
  truth, Opening-of, get_some-end, fits2, fits4, fits8, byte_at-At, At, At-start, Shorter, Num-of,
  to_i64-to_u64, to_u64-lt,
}
use mcache.Net.HashAnswer.{encode_error}
use mcache.Net.HashAnswer.RoundTrip.{decode_error-At, decode_text-At}
use mcache.Net.ListAnswer.{
  Response, Layout, number, text, strings, flag, empty, positions, unknown, layout, put_numbers,
  get_numbers, encode_as, encode_response, blank, decode_as, decode_response,
}
use mcache.Net.Commands.{status_err}

-- Every number is an `int64`.
abbrev pub AreInt64 : List ℤ → Type 0
AreInt64 [] = Unit
AreInt64 (z ∷ zs) = IsInt64 z × AreInt64 zs

get_numbers-At :
    (p : Payload) (zs : List ℤ) (n : ℕ)
    → AreInt64 zs
    → At p n (put_numbers zs)
    → get_numbers (length zs) p n ≡ ok zs
unfolding get_numbers
get_numbers-At p [] n h a = refl
get_numbers-At p (z ∷ zs) n (hz, h) a =
    let (e, an, g) = Num-of 8 p n (to_u64 z) (put_numbers zs) (fits8 _ (to_u64-lt z)) a in
    rw (g, e) (rw (get_numbers-At p zs (n + 8) h an, to_i64-to_u64 z hz) refl)

-- A response can be sent: its lengths and numbers have room in their fields.
pub record IsSendable (resp : Response) : Type 0 where
  pub int_result : IsInt64 resp.int_result
  pub str_result : length resp.str_result < 2 ^ 32
  pub slice_result : Shorter (2 ^ 16) resp.slice_result
  pub slice_length : length resp.slice_result < 2 ^ 32
  pub pos_result : AreInt64 resp.pos_result
  pub pos_length : length resp.pos_result < 2 ^ 32
  pub err_msg : length resp.err_msg < 2 ^ 16

abbrev pub bare : Response → Response
bare resp = blank resp.cmd resp.status

-- what a layout carries of a response
abbrev pub carried : Layout → Response → Response
carried number resp = record (bare resp) { int_result = resp.int_result }
carried text resp = record (bare resp) { str_result = resp.str_result }
carried strings resp = record (bare resp) { slice_result = resp.slice_result }
carried flag resp = record (bare resp) { bool_result = resp.bool_result }
carried empty resp = bare resp
carried positions resp = record (bare resp) { pos_result = resp.pos_result }
carried unknown resp = bare resp

-- what the client gets of a response: the message of an error, or what the layout carries
abbrev pub received : Response → Response
received resp =
    if resp.status == status_err
    then record (bare resp) { err_msg = resp.err_msg }
    else carried (layout resp.cmd) resp

module _ (resp : Response) (i : IsSendable resp) (spare : List ℕ) where
  abbrev payload : List ℕ → Payload
  payload bytes = record { bytes = bytes; spare = spare }

  -- The response's first byte is the status, and the rest is decoded with it.
  abbrev Opens : List ℕ → Layout → Type 0
  Opens bytes l =
      (leb 1 (length bytes) ≡ true)
      × (byte_at (payload bytes) 0 ≡ ok resp.status)
      × (decode_as l (payload bytes) (bare resp) ≡ ok (carried l resp))

  opens : (l : Layout) → ¬ (l ≡ unknown) → Opens (encode_as l resp) l
  opens number h =
      let p = payload (encode_as number resp) in
      let (g, b, a) = Opening-of p resp.status _ (At-start p) in
      let (e, an, gn) =
        Num-of 8 p 1 (to_u64 resp.int_result) [] (fits8 _ (to_u64-lt resp.int_result)) a in
      (g, b, rw (e, to_i64-to_u64 resp.int_result i.int_result) refl)
  opens text h =
      let p = payload (encode_as text resp) in
      let (g, b, a) = Opening-of p resp.status _ (At-start p) in
      (g, b, rw (decode_text-At p resp.str_result i.str_result a) refl)
  opens strings h =
      let p = payload (encode_as strings resp) in
      let (g, b, a) = Opening-of p resp.status _ (At-start p) in
      let (e, an, gn) = Num-of 4 p 1 (length resp.slice_result) _ (fits4 _ i.slice_length) a in
      let es = get_some-end 2 (2 ^ 16) fits2 p resp.slice_result 5 i.slice_result an in
      (g, b, rw (gn, e, es) refl)
  opens flag h =
      let p = payload (encode_as flag resp) in
      let (g, b, a) = Opening-of p resp.status _ (At-start p) in
      (g, b, rw (byte_at-At p 1 (byte_of resp.bool_result) [] a, truth resp.bool_result) refl)
  opens empty h =
      let p = payload (encode_as empty resp) in
      let (g, b, a) = Opening-of p resp.status [] (At-start p) in (g, b, refl)
  opens positions h =
      let p = payload (encode_as positions resp) in
      let (g, b, a) = Opening-of p resp.status _ (At-start p) in
      let (e, an, gn) = Num-of 4 p 1 (length resp.pos_result) _ (fits4 _ i.pos_length) a in
      let es = get_numbers-At p resp.pos_result 5 i.pos_result an in (g, b, rw (gn, e, es) refl)
  opens unknown h = absurd (h refl)

  fails :
      resp.status ≡ status_err
      → decode_response (payload (encode_error resp.err_msg)) resp.cmd
        ≡ ok (record (blank resp.cmd status_err) { err_msg = resp.err_msg })
  unfolding decode_response
  fails s =
      let p = payload (encode_error resp.err_msg) in
      let (g, b, a) = Opening-of p status_err _ (At-start p) in
      rw (g, b, decode_error-At p resp.err_msg i.err_msg a) refl

  -- A response to a list command, with lengths and numbers that have room in their fields, is
  -- decoded as it was encoded, with the fields that its command carries, or with the message if it
  -- is an error, whatever the buffer holds behind it.
  pub list_response_decode-encode :
      ¬ (layout resp.cmd ≡ unknown)
      → decode_response (payload (encode_response resp)) resp.cmd ≡ ok (received resp)
  unfolding encode_response decode_response
  list_response_decode-encode h = elim (Bool-cases (resp.status == status_err)) [
    | inl s ↦ let e : resp.status ≡ status_err = ground (arith, s) in rw s (rw e (fails e))
    | inr s ↦ let (g, b, d) = opens (layout resp.cmd) h in rw s (rw (g, b, s) d)
  ]
