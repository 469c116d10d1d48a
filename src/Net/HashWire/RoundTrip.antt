-- ===== src/Net/HashWire/RoundTrip.antt =====
-- net/protocol_ext.go: hash commands encoded and decoded again.
use mcache.Prelude.{
  ℕ, suc, ◌+◌, ◌/◌, ◌^◌, ◌≡◌, ◌<◌, refl, true, List, [], ◌∷◌, ◌++◌, Str, leb, length, arith,
}
use mcache.Prelude.Decimal.{IsInt64}
use mcache.Net.Bytes.{ok, Payload, len, byte_at, num_at, put, put_strings, get_string, to_u64}
use mcache.Net.Bytes.Views.{
  At, At-start, fits2, fits4, fits8, Shorter, get_strings-end, to_i64-to_u64, to_u64-lt, Num-of,
  Text-of, Text-end, Head-of, string-At,
}
use mcache.Net.Commands.{is_hash_cmd}
use mcache.Net.HashWire.{
  Request, Layout, key_only, key_field, key_field_value, key_fields, key_field_int, key_field_float,
  key_pairs, unknown, layout, whole_pairs, get_pairs, encode_as, encode_request, blank, decode_as,
  decode_request,
}

-- every command in the range has a layout
pub is_hash_cmd-known : (cmd : ℕ) → is_hash_cmd cmd ≡ true → ¬ (layout cmd ≡ unknown)
unfolding is_hash_cmd
is_hash_cmd-known cmd h e = ground (arith, h, e)

-- The lengths have room in their fields, and the increment is an `int64`.
pub record IsSendable {F : Type 0} (req : Request F) : Type 0 where
  pub key : length req.key < 2 ^ 16
  pub field : length req.field < 2 ^ 16
  pub value : length req.value < 2 ^ 32
  pub fields : Shorter (2 ^ 16) req.fields
  pub num_fields : length req.fields < 2 ^ 16
  pub pairs : Shorter (2 ^ 16) req.fv_pairs
  pub num_pairs : length req.fv_pairs < 2 ^ 17
  pub delta : IsInt64 req.delta_i64

get_string-At :
    (p : Payload) (n : ℕ) (x s : List ℕ)
    → length x < 2 ^ 16
    → At p n (put 2 (length x) ++ (x ++ s))
    → (get_string 2 p n ≡ ok (x, n + 2 + length x)) × At p (n + 2 + length x) s
unfolding get_string
get_string-At p n x s h a =
    let (e, f, b, g, k) = string-At 2 (2 ^ 16) fits2 p n x s h a in (rw (g, e, k, f) refl, b)

get_pairs-At :
    (p : Payload) (n : ℕ) (l : List Str)
    → Shorter (2 ^ 16) l
    → At p n (put_strings 2 (whole_pairs l))
    → get_pairs (length l / 2) p n ≡ ok (whole_pairs l)
unfolding get_pairs
get_pairs-At p n [] h a = refl
get_pairs-At p n (f ∷ []) h a = refl
get_pairs-At p n (f ∷ v ∷ l) (hf, (hv, h)) a =
    let (ef, af) = get_string-At p n f _ hf a in
    let (ev, av) = get_string-At p (n + 2 + length f) v _ hv af in
    let half : suc (suc (length l)) / 2 ≡ suc (length l / 2) = omega arith in
    rw (half, ef, ev) (rw (get_pairs-At p (n + 2 + length f + 2 + length v) l h av) refl)

module _ {F : Type 0} (float64bits : F → ℕ) (float64frombits : ℕ → F) where
  abbrev pub empty : ℕ → Request F
  empty = blank F float64bits float64frombits

  -- what a layout carries of a request
  abbrev pub carried : Layout → Request F → Request F
  carried key_only req = record (empty req.cmd) { key = req.key }
  carried key_field req = record (empty req.cmd) { key = req.key; field = req.field }
  carried key_field_value req = record (empty req.cmd) {
    key = req.key;
    field = req.field;
    value = req.value;
  }
  carried key_fields req = record (empty req.cmd) { key = req.key; fields = req.fields }
  carried key_field_int req = record (empty req.cmd) {
    key = req.key;
    field = req.field;
    delta_i64 = req.delta_i64;
  }
  carried key_field_float req = record (empty req.cmd) {
    key = req.key;
    field = req.field;
    delta_f64 = req.delta_f64;
  }
  carried key_pairs req = record (empty req.cmd) {
    key = req.key;
    fv_pairs = whole_pairs req.fv_pairs;
  }
  carried unknown req = empty req.cmd

  module _ (same : (x : F) → float64frombits (float64bits x) ≡ x)
      (wide : (x : F) → float64bits x < 2 ^ 64) (req : Request F) (i : IsSendable req)
      (spare : List ℕ) where
    abbrev payload : Layout → Payload
    payload l = record { bytes = encode_as F float64bits float64frombits l req; spare = spare }

    -- The request's first bytes are the command and the key's length, and the rest is decoded with
    -- them.
    abbrev Opens : Layout → Type 0
    Opens l =
        (leb 3 (len (payload l)) ≡ true)
        × (byte_at (payload l) 0 ≡ ok req.cmd)
        × (num_at 2 (payload l) 1 ≡ ok (length req.key))
        × (decode_as F float64bits float64frombits l (payload l) req.cmd (length req.key)
            ≡ ok (carried l req))

    opens : (l : Layout) → ¬ (l ≡ unknown) → Opens l
    opens key_only h =
        let p = payload key_only in
        let (g, b, e, a) = Head-of p req.cmd (length req.key) _ i.key (At-start p) in
        let (ek, ak, gk) = Text-end p 3 req.key a in (g, b, e, rw (gk, ek) refl)
    opens key_field h =
        let p = payload key_field in
        let (g, b, e, a) = Head-of p req.cmd (length req.key) _ i.key (At-start p) in
        let (ef, af, gf) = Num-of 2 p 3 (length req.field) _ (fits2 _ i.field) a in
        let (ek, ak, gk) = Text-of p 5 req.key _ af in
        let (et, at, gt) = Text-end p (5 + length req.key) req.field ak in
        (g, b, e, rw (gf, ef, gt, ek, et) refl)
    opens key_field_value h =
        let p = payload key_field_value in
        let (g, b, e, a) = Head-of p req.cmd (length req.key) _ i.key (At-start p) in
        let (ef, af, gf) = Num-of 2 p 3 (length req.field) _ (fits2 _ i.field) a in
        let (ev, av, gv) = Num-of 4 p 5 (length req.value) _ (fits4 _ i.value) af in
        let (ek, ak, gk) = Text-of p 9 req.key _ av in
        let (et, at, gt) = Text-of p (9 + length req.key) req.field _ ak in
        let (eu, au, gu) = Text-end p (9 + length req.key + length req.field) req.value at in
        (g, b, e, rw (gv, ef, ev, gu, ek, et, eu) refl)
    opens key_fields h =
        let p = payload key_fields in
        let (g, b, e, a) = Head-of p req.cmd (length req.key) _ i.key (At-start p) in
        let (ef, af, gf) = Num-of 2 p 3 (length req.fields) _ (fits2 _ i.num_fields) a in
        let (ek, ak, gk) = Text-of p 5 req.key _ af in
        let es = get_strings-end 2 (2 ^ 16) fits2 p req.fields (5 + length req.key) i.fields ak in
        (g, b, e, rw (gf, ef, gk, ek, es) refl)
    opens key_field_int h =
        let p = payload key_field_int in
        let (g, b, e, a) = Head-of p req.cmd (length req.key) _ i.key (At-start p) in
        let (ef, af, gf) = Num-of 2 p 3 (length req.field) _ (fits2 _ i.field) a in
        let (ed, ad, gd) =
          Num-of 8 p 5 (to_u64 req.delta_i64) _ (fits8 _ (to_u64-lt req.delta_i64)) af in
        let (ek, ak, gk) = Text-of p 13 req.key _ ad in
        let (et, at, gt) = Text-end p (13 + length req.key) req.field ak in
        (g, b, e, rw (gd, ef, ed, gt, ek, et, to_i64-to_u64 req.delta_i64 i.delta) refl)
    opens key_field_float h =
        let p = payload key_field_float in
        let (g, b, e, a) = Head-of p req.cmd (length req.key) _ i.key (At-start p) in
        let (ef, af, gf) = Num-of 2 p 3 (length req.field) _ (fits2 _ i.field) a in
        let (ed, ad, gd) =
          Num-of 8 p 5 (float64bits req.delta_f64) _ (fits8 _ (wide req.delta_f64)) af in
        let (ek, ak, gk) = Text-of p 13 req.key _ ad in
        let (et, at, gt) = Text-end p (13 + length req.key) req.field ak in
        (g, b, e, rw (gd, ef, ed, gt, ek, et, same req.delta_f64) refl)
    opens key_pairs h =
        let p = payload key_pairs in
        let few : length req.fv_pairs / 2 < 2 ^ 16 = omega (arith, i.num_pairs) in
        let (g, b, e, a) = Head-of p req.cmd (length req.key) _ i.key (At-start p) in
        let (ef, af, gf) = Num-of 2 p 3 (length req.fv_pairs / 2) _ (fits2 _ few) a in
        let (ek, ak, gk) = Text-of p 5 req.key _ af in
        let es = get_pairs-At p (5 + length req.key) req.fv_pairs i.pairs ak in
        (g, b, e, rw (gf, ef, gk, ek, es) refl)
    opens unknown h = absurd (h refl)

    -- A request with a hash command, whose lengths have room in their fields, is decoded as it
    -- was encoded, with the fields that the command's layout carries, whatever the buffer holds
    -- behind it; of an odd number of field and value strings the last is dropped. It is assumed
    -- that a float has 64 bits, which give the float back.
    pub hash_decode-encode :
        is_hash_cmd req.cmd ≡ true
        → decode_request F float64bits float64frombits
            (record { bytes = encode_request F float64bits float64frombits req; spare = spare })
          ≡ ok (carried (layout req.cmd) req)
    unfolding encode_request decode_request
    hash_decode-encode h =
        let (g, b, e, d) = opens (layout req.cmd) (is_hash_cmd-known req.cmd h) in rw (g, b, e) d
