-- ===== src/Net/ListWire/RoundTrip.antt =====
-- net/protocol_ext.go: list commands encoded and decoded again.
use mcache.Prelude.{ltb, false, ◌*◌, arith, ℕ, ◌+◌, ◌^◌, ◌≡◌, ◌<◌, refl, true, List, leb, length}
use mcache.Prelude.Decimal.{IsInt64}
use mcache.Net.Bytes.{make_strings, ok, Payload, len, byte_at, num_at, byte_of, to_u64}
use mcache.Net.Bytes.Views.{
  At-start, At-byte, byte_at-At, fits2, fits4, fits8, Shorter, get_strings-end, to_i64-to_u64,
  to_u64-lt, Num-of, Text-of, Text-end, Head-of, truth,
}
use mcache.Net.Commands.{is_list_cmd}
use mcache.Net.ListWire.{
  Request, Layout, key_only, key_elems, key_span, key_index, key_index_value, key_count_value,
  key_pivot_value, key_timeout, key_position, unknown, layout, encode_as, encode_request, blank,
  decode_as, decode_request,
}

-- every command in the range has a layout
pub is_list_cmd-known : (cmd : ℕ) → is_list_cmd cmd ≡ true → ¬ (layout cmd ≡ unknown)
unfolding is_list_cmd
is_list_cmd-known cmd h e = ground (arith, h, e)

make_strings-ok : (n : ℕ) → n < 2 ^ 32 → make_strings n ≡ ok tt
unfolding make_strings
make_strings-ok n h = let small : ltb (2 ^ 48) (16 * n) ≡ false = ground (arith, h) in rw small refl

-- The lengths have room in their fields, and the numbers are `int64`.
pub record IsSendable (req : Request) : Type 0 where
  pub key : length req.key < 2 ^ 16
  pub elements : Shorter (2 ^ 16) req.elements
  pub num_elements : length req.elements < 2 ^ 32
  pub value : length req.value < 2 ^ 32
  pub pivot : length req.pivot < 2 ^ 16
  pub index : IsInt64 req.index
  pub start : IsInt64 req.start
  pub stop : IsInt64 req.stop
  pub count : IsInt64 req.count
  pub timeout : IsInt64 req.timeout
  pub rank : IsInt64 req.rank
  pub max_len : IsInt64 req.max_len

-- what a layout carries of a request
abbrev pub carried : Layout → Request → Request
carried key_only req = record (blank req.cmd) { key = req.key }
carried key_elems req = record (blank req.cmd) { key = req.key; elements = req.elements }
carried key_span req = record (blank req.cmd) { key = req.key; start = req.start; stop = req.stop }
carried key_index req = record (blank req.cmd) { key = req.key; index = req.index }
carried key_index_value req = record (blank req.cmd) {
  key = req.key;
  value = req.value;
  index = req.index;
}
carried key_count_value req = record (blank req.cmd) {
  key = req.key;
  value = req.value;
  count = req.count;
}
carried key_pivot_value req = record (blank req.cmd) {
  key = req.key;
  pivot = req.pivot;
  value = req.value;
  before = req.before;
}
carried key_timeout req = record (blank req.cmd) { key = req.key; timeout = req.timeout }
carried key_position req = record (blank req.cmd) {
  key = req.key;
  value = req.value;
  rank = req.rank;
  count = req.count;
  max_len = req.max_len;
}
carried unknown req = blank req.cmd

module _ (req : Request) (i : IsSendable req) (spare : List ℕ) where
  abbrev payload : Layout → Payload
  payload l = record { bytes = encode_as l req; spare = spare }

  -- The request's first bytes are the command and the key's length, and the rest is decoded with
  -- them.
  abbrev Opens : Layout → Type 0
  Opens l =
      (leb 3 (len (payload l)) ≡ true)
      × (byte_at (payload l) 0 ≡ ok req.cmd)
      × (num_at 2 (payload l) 1 ≡ ok (length req.key))
      × (decode_as l (payload l) req.cmd (length req.key) ≡ ok (carried l req))

  opens : (l : Layout) → ¬ (l ≡ unknown) → Opens l
  opens key_only h =
      let p = payload key_only in
      let (g, b, e, a) = Head-of p req.cmd (length req.key) _ i.key (At-start p) in
      let (t0, s0, r0) = Text-end p 3 req.key a in (g, b, e, rw (r0, t0) refl)
  opens key_elems h =
      let p = payload key_elems in
      let (g, b, e, a) = Head-of p req.cmd (length req.key) _ i.key (At-start p) in
      let (e0, a0, g0) = Num-of 4 p 3 (length req.elements) _ (fits4 _ i.num_elements) a in
      let (t0, s0, r0) = Text-of p 7 req.key _ a0 in
      let es = get_strings-end 2 (2 ^ 16) fits2 p req.elements (7 + length req.key) i.elements s0 in
      (g, b, e, rw (g0, e0, r0, t0, make_strings-ok (length req.elements) i.num_elements, es) refl)
  opens key_span h =
      let p = payload key_span in
      let (g, b, e, a) = Head-of p req.cmd (length req.key) _ i.key (At-start p) in
      let (e0, a0, g0) = Num-of 8 p 3 (to_u64 req.start) _ (fits8 _ (to_u64-lt req.start)) a in
      let (e1, a1, g1) = Num-of 8 p 11 (to_u64 req.stop) _ (fits8 _ (to_u64-lt req.stop)) a0 in
      let (t0, s0, r0) = Text-end p 19 req.key a1 in
      (
        g,
        b,
        e,
        rw (g1, e0, e1, r0, t0, to_i64-to_u64 req.start i.start, to_i64-to_u64 req.stop i.stop)
            refl,
      )
  opens key_index h =
      let p = payload key_index in
      let (g, b, e, a) = Head-of p req.cmd (length req.key) _ i.key (At-start p) in
      let (e0, a0, g0) = Num-of 8 p 3 (to_u64 req.index) _ (fits8 _ (to_u64-lt req.index)) a in
      let (t0, s0, r0) = Text-end p 11 req.key a0 in
      (g, b, e, rw (g0, e0, r0, t0, to_i64-to_u64 req.index i.index) refl)
  opens key_index_value h =
      let p = payload key_index_value in
      let (g, b, e, a) = Head-of p req.cmd (length req.key) _ i.key (At-start p) in
      let (e0, a0, g0) = Num-of 8 p 3 (to_u64 req.index) _ (fits8 _ (to_u64-lt req.index)) a in
      let (e1, a1, g1) = Num-of 4 p 11 (length req.value) _ (fits4 _ i.value) a0 in
      let (t0, s0, r0) = Text-of p 15 req.key _ a1 in
      let (t1, s1, r1) = Text-end p (15 + length req.key) req.value s0 in
      (g, b, e, rw (g1, e0, e1, r1, t0, t1, to_i64-to_u64 req.index i.index) refl)
  opens key_count_value h =
      let p = payload key_count_value in
      let (g, b, e, a) = Head-of p req.cmd (length req.key) _ i.key (At-start p) in
      let (e0, a0, g0) = Num-of 8 p 3 (to_u64 req.count) _ (fits8 _ (to_u64-lt req.count)) a in
      let (e1, a1, g1) = Num-of 4 p 11 (length req.value) _ (fits4 _ i.value) a0 in
      let (t0, s0, r0) = Text-of p 15 req.key _ a1 in
      let (t1, s1, r1) = Text-end p (15 + length req.key) req.value s0 in
      (g, b, e, rw (g1, e0, e1, r1, t0, t1, to_i64-to_u64 req.count i.count) refl)
  opens key_pivot_value h =
      let p = payload key_pivot_value in
      let (g, b, e, a) = Head-of p req.cmd (length req.key) _ i.key (At-start p) in
      let a0 = At-byte p 3 (byte_of req.before) _ a in
      let (e1, a1, g1) = Num-of 2 p 4 (length req.pivot) _ (fits2 _ i.pivot) a0 in
      let (e2, a2, g2) = Num-of 4 p 6 (length req.value) _ (fits4 _ i.value) a1 in
      let (t0, s0, r0) = Text-of p 10 req.key _ a2 in
      let (t1, s1, r1) = Text-of p (10 + length req.key) req.pivot _ s0 in
      let (t2, s2, r2) = Text-end p (10 + length req.key + length req.pivot) req.value s1 in
      (
        g,
        b,
        e,
        rw (g2, byte_at-At p 3 (byte_of req.before) _ a, e1, e2, r2, t0, t1, t2, truth req.before)
            refl,
      )
  opens key_timeout h =
      let p = payload key_timeout in
      let (g, b, e, a) = Head-of p req.cmd (length req.key) _ i.key (At-start p) in
      let (e0, a0, g0) = Num-of 8 p 3 (to_u64 req.timeout) _ (fits8 _ (to_u64-lt req.timeout)) a in
      let (t0, s0, r0) = Text-end p 11 req.key a0 in
      (g, b, e, rw (g0, e0, r0, t0, to_i64-to_u64 req.timeout i.timeout) refl)
  opens key_position h =
      let p = payload key_position in
      let (g, b, e, a) = Head-of p req.cmd (length req.key) _ i.key (At-start p) in
      let (e0, a0, g0) = Num-of 8 p 3 (to_u64 req.rank) _ (fits8 _ (to_u64-lt req.rank)) a in
      let (e1, a1, g1) = Num-of 8 p 11 (to_u64 req.count) _ (fits8 _ (to_u64-lt req.count)) a0 in
      let (e2, a2, g2) =
        Num-of 8 p 19 (to_u64 req.max_len) _ (fits8 _ (to_u64-lt req.max_len)) a1 in
      let (e3, a3, g3) = Num-of 4 p 27 (length req.value) _ (fits4 _ i.value) a2 in
      let (t0, s0, r0) = Text-of p 31 req.key _ a3 in
      let (t1, s1, r1) = Text-end p (31 + length req.key) req.value s0 in
      (
        g,
        b,
        e,
        rw
            (
              g3,
              e0,
              e1,
              e2,
              e3,
              r1,
              t0,
              t1,
              to_i64-to_u64 req.rank i.rank,
              to_i64-to_u64 req.count i.count,
              to_i64-to_u64 req.max_len i.max_len,
            )
            refl,
      )
  opens unknown h = absurd (h refl)

  -- A request with a list command, whose lengths have room in their fields, is decoded as it was
  -- encoded, with the fields that the command's layout carries, whatever the buffer holds behind
  -- it.
  pub list_decode-encode :
      is_list_cmd req.cmd ≡ true
      → decode_request (record { bytes = encode_request req; spare = spare })
        ≡ ok (carried (layout req.cmd) req)
  unfolding encode_request decode_request
  list_decode-encode h =
      let (g, b, e, d) = opens (layout req.cmd) (is_list_cmd-known req.cmd h) in rw (g, b, e) d
