-- ===== src/Net/SetWire/RoundTrip.antt =====
-- net/protocol.go: set commands encoded and decoded again.
use mcache.Prelude.{
  false, if◌then◌else◌, ◌&&◌, ◌==◌, ltb, ℕ, ◌+◌, ◌%◌, ◌^◌, ◌≡◌, ◌<◌, refl, true, List, [], ◌∷◌, Str,
  leb, length, arith,
}
use mcache.Net.Bytes.{byte_of, slice, ◌>>=◌, ok, Payload, len, byte_at, num_at, to_u32, first_of}
use mcache.Net.Bytes.Views.{
  truth, Opening-of, Head-of, get_strings-end, get_some-end, fits8, byte_at-At, ltb-suc, At,
  At-start, fits2, fits4, Shorter, IsInt32, to_i32-to_u32, to_u32-lt, no_wrap, Num-of, Text-of,
  Text-end,
}
use mcache.Net.SetWire.{
  Response, Answer, changed_count, member, card, one_elem, many_elems, no_answer, answer,
  encode_answer, encode_response, blank_response, decode_answer, decode_response, Request, Layout,
  key_only, key_elems, key_elem, key_count, all_keys, unknown, layout, encode_as, encode_request,
  decode_as, decode_request, blank,
}
use mcache.Net.Commands.{status_err}

-- The lengths have room in their fields, the sum of the key's length and of its offset too.
pub record IsSendable (req : Request) : Type 0 where
  pub key : 7 + length req.key < 2 ^ 16
  pub elems : Shorter (2 ^ 32) req.elems
  pub num_elems : length req.elems < 2 ^ 32
  pub keys : Shorter (2 ^ 16) req.keys
  pub num_keys : length req.keys < 2 ^ 16
  pub count : IsInt32 req.count

-- what a layout carries of a request
abbrev pub carried : Layout → Request → Request
carried key_only req = record (blank req.cmd) { key = req.key }
carried key_elems req = record (blank req.cmd) { key = req.key; elems = req.elems }
carried key_elem req = record (blank req.cmd) { key = req.key; elems = first_of req.elems ∷ [] }
carried key_count req = record (blank req.cmd) { key = req.key; count = req.count }
carried all_keys req = record (blank req.cmd) { keys = req.keys }
carried unknown req = blank req.cmd

first-Shorter :
    (bound : ℕ) (ss : List Str) → 0 < bound → Shorter bound ss → length (first_of ss) < bound
first-Shorter bound [] h a = h
first-Shorter bound (s ∷ ss) h (a, b) = a

-- The request's first bytes are the command and a number, and the rest is decoded with them.
abbrev Opens : Payload → Request → Layout → Type 0
Opens p req l =
    (leb 3 (len p) ≡ true)
    × (byte_at p 0 ≡ ok req.cmd)
    × ((k : ℕ) × (num_at 2 p 1 ≡ ok k) × (decode_as l p req.cmd k ≡ ok (carried l req)))

module _ (req : Request) (i : IsSendable req) (spare : List ℕ) where
  abbrev payload : Layout → Payload
  payload l = record { bytes = encode_as l req; spare = spare }

  short_key : length req.key < 2 ^ 16
  short_key = omega (arith, i.key)

  unwrapped : (7 + length req.key) % 2 ^ 16 ≡ 7 + length req.key
  unwrapped = no_wrap _ i.key

  opens : (l : Layout) → ¬ (l ≡ unknown) → Opens (payload l) req l
  opens key_only h =
      let p = payload key_only in
      let (g, b, e, a) = Head-of p req.cmd (length req.key) _ short_key (At-start p) in
      let (ek, ak, gk) = Text-end p 3 req.key a in
      let w : (3 + length req.key) % 2 ^ 16 ≡ 3 + length req.key =
        no_wrap _ (omega (arith, i.key)) in
      (g, b, (length req.key, e, rw (gk, w, ek) refl))
  opens key_elems h =
      let p = payload key_elems in
      let (g, b, e, a) = Head-of p req.cmd (length req.key) _ short_key (At-start p) in
      let (en, an, gn) = Num-of 4 p 3 (length req.elems) _ (fits4 _ i.num_elems) a in
      let (ek, ak, gk) = Text-of p 7 req.key _ an in
      let es = get_strings-end 4 (2 ^ 32) fits4 p req.elems (7 + length req.key) i.elems ak in
      (g, b, (length req.key, e, rw (gn, en, unwrapped, ek, es) refl))
  opens key_elem h =
      let p = payload key_elem in
      let elem = first_of req.elems in
      let short = first-Shorter (2 ^ 32) req.elems (omega arith) i.elems in
      let (g, b, e, a) = Head-of p req.cmd (length req.key) _ short_key (At-start p) in
      let (en, an, gn) = Num-of 4 p 3 (length elem) _ (fits4 _ short) a in
      let (ek, ak, gk) = Text-of p 7 req.key _ an in
      let (ee, ae, ge) = Text-end p (7 + length req.key) elem ak in
      (g, b, (length req.key, e, rw (gn, en, ge, unwrapped, ek, ee) refl))
  opens key_count h =
      let p = payload key_count in
      let (g, b, e, a) = Head-of p req.cmd (length req.key) _ short_key (At-start p) in
      let (en, an, gn) = Num-of 4 p 3 (to_u32 req.count) _ (fits4 _ (to_u32-lt req.count)) a in
      let (ek, ak, gk) = Text-end p 7 req.key an in
      let same = to_i32-to_u32 req.count i.count in
      (g, b, (length req.key, e, rw (gn, en, gk, unwrapped, ek, same) refl))
  opens all_keys h =
      let p = payload all_keys in
      let (g, b, e, a) = Head-of p req.cmd (length req.keys) _ i.num_keys (At-start p) in
      let es = get_strings-end 2 (2 ^ 16) fits2 p req.keys 3 i.keys a in
      (g, b, (length req.keys, e, rw (e, es) refl))
  opens unknown h = absurd (h refl)

-- A set request, whose command has a layout and whose lengths have room in their fields, is
-- decoded as it was encoded, with the fields that the layout carries, whatever the buffer holds
-- behind it; the key is so short that the 16-bit sum of its length and offset does not wrap
-- round.
pub set_decode-encode :
    (req : Request) (spare : List ℕ)
    → IsSendable req
    → ¬ (layout req.cmd ≡ unknown)
    → decode_request (record { bytes = encode_request req; spare = spare })
      ≡ ok (carried (layout req.cmd) req)
unfolding encode_request decode_request
set_decode-encode req spare i h =
    let (g, b, (k, e, d)) = opens req i spare (layout req.cmd) h in rw (g, b, e) d

-- what the answer to a command carries; a member that is popped arrives unless it is empty
abbrev pub arrived : List Str → List Str
arrived [] = []
arrived ([] ∷ ss) = []
arrived ((b ∷ s) ∷ ss) = (b ∷ s) ∷ []

abbrev pub carried_answer : Answer → Response → Response
carried_answer changed_count resp = record (blank_response resp.cmd resp.status) {
  changed = resp.changed;
}
carried_answer member resp = record (blank_response resp.cmd resp.status) {
  is_member = resp.is_member;
}
carried_answer card resp = record (blank_response resp.cmd resp.status) { card = resp.card }
carried_answer one_elem resp = record (blank_response resp.cmd resp.status) {
  elems = arrived resp.elems;
}
carried_answer many_elems resp = record (blank_response resp.cmd resp.status) { elems = resp.elems }
carried_answer no_answer resp = blank_response resp.cmd resp.status

pub record IsAnswer (resp : Response) : Type 0 where
  pub status : resp.status == status_err ≡ false
  pub changed : resp.changed < 2 ^ 64
  pub card : resp.card < 2 ^ 64
  pub elem : 3 + length (first_of resp.elems) < 2 ^ 16
  pub elems : Shorter (2 ^ 16) resp.elems
  pub num_elems : length resp.elems < 2 ^ 32

abbrev Answers : Payload → Response → Answer → Type 0
Answers p resp l =
    (leb 1 (len p) ≡ true)
    × (byte_at p 0 ≡ ok resp.status)
    × (decode_answer l p (blank_response resp.cmd resp.status) ≡ ok (carried_answer l resp))

answers_one :
    (p : Payload) (resp : Response) (ss : List Str)
    → 3 + length (first_of ss) < 2 ^ 16
    → At p 3 (first_of ss)
    → (let n = length (first_of ss) in
        if ltb 0 n && leb (3 + n) (len p)
        then (slice p 3 ((3 + n) % 2 ^ 16) >>= λ elem. ok (record resp { elems = elem ∷ [] }))
        else ok (record resp { elems = [] }))
      ≡ ok (record resp { elems = arrived ss })
answers_one p resp [] h a = refl
answers_one p resp ([] ∷ ss) h a = refl
answers_one p resp ((b ∷ s) ∷ ss) h a =
    let (ek, ak, gk) = Text-end p 3 (b ∷ s) a in
    let w : (3 + length (b ∷ s)) % 2 ^ 16 ≡ 3 + length (b ∷ s) = no_wrap _ h in
    rw (ltb-suc (length s), gk) (rw (w, ek) refl)

module _ (resp : Response) (i : IsAnswer resp) (spare : List ℕ) where
  abbrev answer_payload : Answer → Payload
  answer_payload l = record { bytes = encode_answer l resp; spare = spare }

  answers : (l : Answer) → ¬ (l ≡ no_answer) → Answers (answer_payload l) resp l
  answers changed_count h =
      let p = answer_payload changed_count in
      let (g, b, a) = Opening-of p resp.status _ (At-start p) in
      let (e, an, gn) = Num-of 8 p 1 resp.changed [] (fits8 _ i.changed) a in (g, b, rw e refl)
  answers member h =
      let p = answer_payload member in
      let (g, b, a) = Opening-of p resp.status _ (At-start p) in
      (g, b, rw (byte_at-At p 1 (byte_of resp.is_member) [] a, truth resp.is_member) refl)
  answers card h =
      let p = answer_payload card in
      let (g, b, a) = Opening-of p resp.status _ (At-start p) in
      let (e, an, gn) = Num-of 8 p 1 resp.card [] (fits8 _ i.card) a in (g, b, rw e refl)
  answers one_elem h =
      let p = answer_payload one_elem in
      let (g, b, a) = Opening-of p resp.status _ (At-start p) in
      let (e, an, gn) =
        Num-of 2 p 1 (length (first_of resp.elems)) _ (fits2 _ (omega (arith, i.elem))) a in
      (g, b, rw (gn, e) (answers_one p (blank_response resp.cmd resp.status) resp.elems i.elem an))
  answers many_elems h =
      let p = answer_payload many_elems in
      let (g, b, a) = Opening-of p resp.status _ (At-start p) in
      let (e, an, gn) = Num-of 4 p 1 (length resp.elems) _ (fits4 _ i.num_elems) a in
      let es = get_some-end 2 (2 ^ 16) fits2 p resp.elems 5 i.elems an in
      (g, b, rw (gn, e, es) refl)
  answers no_answer h = absurd (h refl)

-- A response to a set command, with a status other than the error's, a command that the switch
-- has and numbers and lengths that have room in their fields, is decoded as it was encoded, with the fields that its command carries; a popped member
-- that is empty does not arrive.
pub set_response_decode-encode :
    (resp : Response) (spare : List ℕ)
    → IsAnswer resp
    → ¬ (answer resp.cmd ≡ no_answer)
    → decode_response (record { bytes = encode_response resp; spare = spare }) resp.cmd
      ≡ ok (carried_answer (answer resp.cmd) resp)
unfolding encode_response decode_response
set_response_decode-encode resp spare i h =
    let (g, b, d) = answers resp i spare (answer resp.cmd) h in rw (g, b, i.status) d
