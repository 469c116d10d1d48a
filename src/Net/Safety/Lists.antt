-- ===== src/Net/Safety/Lists.antt =====
-- DecodeListRequest of net/protocol_ext.go on a payload of any bytes.
use mcache.Prelude.{
  ℕ, zero, suc, ◌+◌, ◌*◌, ◌^◌, ◌≡◌, ◌≤◌, ◌<◌, true, false, List, [], ◌∷◌, ◌++◌, ltb, leb, length,
  take, drop, arith,
}
use mcache.Net.Bytes.Views.{leb_of}
use mcache.Net.Bytes.{Payload, Decoded, len, value, num_at, slice, make_strings, ◌>>=◌}
use mcache.Net.Safety.{
  IsSafe, bind-IsSafe, check-IsSafe, slice-IsSafe, num_at-IsSafe, byte_at-IsSafe,
  get_strings-IsSafe,
}
use mcache.Net.ListWire.{
  Layout, layout, decode_as, decode_request, key_only, key_span, key_index, key_index_value,
  key_count_value, key_pivot_value, key_timeout, key_position, key_elems, unknown,
}

abbrev AreBytes : List ℕ → Type 0
AreBytes [] = Unit
AreBytes (b ∷ l) = (b < 256) × AreBytes l

value-lt : (l : List ℕ) → AreBytes l → value 0 (take 4 l) < 2 ^ 32
value-lt [] h = omega arith
value-lt (a ∷ []) (ha, h) = omega arith
value-lt (a ∷ b ∷ []) (ha, (hb, h)) = omega arith
value-lt (a ∷ b ∷ c ∷ []) (ha, (hb, (hc, h))) = omega arith
value-lt (a ∷ b ∷ c ∷ d ∷ l) (ha, (hb, (hc, (hd, h)))) = omega arith

drop-AreBytes : (n : ℕ) (l : List ℕ) → AreBytes l → AreBytes (drop n l)
drop-AreBytes zero l h = h
drop-AreBytes (suc n) [] h = h
drop-AreBytes (suc n) (b ∷ l) (hb, h) = drop-AreBytes n l h

module _ {κ} {B : Type κ} where
  -- the number of elements of a push, which has 32 bits
  count-IsSafe :
      (p : Payload) (f : ℕ → Decoded B)
      → AreBytes (p.bytes ++ p.spare)
      → 7 ≤ len p
      → ((n : ℕ) → n < 2 ^ 32 → IsSafe (f n))
      → IsSafe (num_at 4 p 3 >>= f)
  unfolding num_at slice
  count-IsSafe p f b h k =
      let room : leb 7 (length p.bytes + length p.spare) ≡ true = leb_of (omega arith) in
      rw room (k _ (value-lt (drop 3 (p.bytes ++ p.spare)) (drop-AreBytes 3 _ b)))

  make_strings-IsSafe :
      (n : ℕ) (d : Decoded B) → n < 2 ^ 32 → IsSafe d → IsSafe (make_strings n >>= λ _. d)
  unfolding make_strings
  make_strings-IsSafe n d h k =
      let small : ltb (2 ^ 48) (16 * n) ≡ false = ground (arith, h) in rw small k

decode_as-IsSafe :
    (l : Layout) (p : Payload) (cmd k : ℕ)
    → AreBytes (p.bytes ++ p.spare)
    → 3 ≤ len p
    → IsSafe (decode_as l p cmd k)
decode_as-IsSafe key_only p cmd k b w =
    check-IsSafe (3 + k) (len p) _ _
      (λ r. slice-IsSafe p 3 (3 + k) _ (omega arith) (omega arith) (λ key_bytes. tt))
decode_as-IsSafe key_span p cmd k b w = check-IsSafe 19 (len p) _ _ (λ g.
    num_at-IsSafe 8 p 3 _ (omega arith) (λ n3. num_at-IsSafe 8 p 11 _ (omega arith) (λ n11.
      check-IsSafe (19 + k) (len p) _ _
        (λ r. slice-IsSafe p 19 (19 + k) _ (omega arith) (omega arith) (λ key_bytes. tt)))))
decode_as-IsSafe key_index p cmd k b w = check-IsSafe 11 (len p) _ _ (λ g.
    num_at-IsSafe 8 p 3 _ (omega arith) (λ n3.
      check-IsSafe (11 + k) (len p) _ _
        (λ r. slice-IsSafe p 11 (11 + k) _ (omega arith) (omega arith) (λ key_bytes. tt))))
decode_as-IsSafe key_index_value p cmd k b w = check-IsSafe 15 (len p) _ _ (λ g.
    num_at-IsSafe 8 p 3 _ (omega arith) (λ n3. num_at-IsSafe 4 p 11 _ (omega arith) (λ n11.
      check-IsSafe (15 + k + n11) (len p) _ _ (λ r.
        slice-IsSafe p 15 (15 + k) _ (omega arith) (omega arith) (λ key_bytes.
          slice-IsSafe p (15 + k) (15 + k + n11) _ (omega arith) (omega arith)
            (λ value_bytes. tt))))))
decode_as-IsSafe key_count_value p cmd k b w = check-IsSafe 15 (len p) _ _ (λ g.
    num_at-IsSafe 8 p 3 _ (omega arith) (λ n3. num_at-IsSafe 4 p 11 _ (omega arith) (λ n11.
      check-IsSafe (15 + k + n11) (len p) _ _ (λ r.
        slice-IsSafe p 15 (15 + k) _ (omega arith) (omega arith) (λ key_bytes.
          slice-IsSafe p (15 + k) (15 + k + n11) _ (omega arith) (omega arith)
            (λ value_bytes. tt))))))
decode_as-IsSafe key_pivot_value p cmd k b w = check-IsSafe 10 (len p) _ _ (λ g.
    byte_at-IsSafe p 3 _ (omega arith) (λ n3. num_at-IsSafe 2 p 4 _ (omega arith) (λ n4.
      num_at-IsSafe 4 p 6 _ (omega arith) (λ n6. check-IsSafe (10 + k + n4 + n6) (len p) _ _ (λ r.
        slice-IsSafe p 10 (10 + k) _ (omega arith) (omega arith) (λ key_bytes.
          slice-IsSafe p (10 + k) (10 + k + n4) _ (omega arith) (omega arith) (λ pivot_bytes.
            slice-IsSafe p (10 + k + n4) (10 + k + n4 + n6) _ (omega arith) (omega arith)
              (λ value_bytes. tt))))))))
decode_as-IsSafe key_timeout p cmd k b w = check-IsSafe 11 (len p) _ _ (λ g.
    num_at-IsSafe 8 p 3 _ (omega arith) (λ n3.
      check-IsSafe (11 + k) (len p) _ _
        (λ r. slice-IsSafe p 11 (11 + k) _ (omega arith) (omega arith) (λ key_bytes. tt))))
decode_as-IsSafe key_position p cmd k b w = check-IsSafe 31 (len p) _ _ (λ g.
    num_at-IsSafe 8 p 3 _ (omega arith) (λ n3. num_at-IsSafe 8 p 11 _ (omega arith) (λ n11.
      num_at-IsSafe 8 p 19 _ (omega arith) (λ n19. num_at-IsSafe 4 p 27 _ (omega arith) (λ n27.
        check-IsSafe (31 + k + n27) (len p) _ _ (λ r.
          slice-IsSafe p 31 (31 + k) _ (omega arith) (omega arith) (λ key_bytes.
            slice-IsSafe p (31 + k) (31 + k + n27) _ (omega arith) (omega arith)
              (λ value_bytes. tt))))))))
decode_as-IsSafe key_elems p cmd k b w = check-IsSafe 7 (len p) _ _ (λ g.
    count-IsSafe p _ b g (λ n small. check-IsSafe (7 + k) (len p) _ _ (λ r.
      slice-IsSafe p _ _ _ (omega arith) r (λ key.
        make_strings-IsSafe n _ small
          (bind-IsSafe _ _ (get_strings-IsSafe 2 n p (7 + k)) (λ es. tt))))))
decode_as-IsSafe unknown p cmd k b w = tt

-- On 64 bits no payload, of any bytes and with any bytes behind it, makes the decoder of list
-- requests panic: no index or slice is out of range, and the capacity for which it calls `make` is
-- one that `make` takes. It returns a request or an error if it gets the memory for it, which for a
-- push are 16 bytes for each element that the payload announces, whether it has them or not.
pub list_decode_request-IsSafe :
    (p : Payload) → AreBytes (p.bytes ++ p.spare) → IsSafe (decode_request p)
unfolding decode_request
list_decode_request-IsSafe p b = check-IsSafe 3 (len p) _ _ (λ w.
    byte_at-IsSafe p 0 _ (omega arith)
      (λ cmd. num_at-IsSafe 2 p 1 _ (omega arith) (λ k. decode_as-IsSafe (layout cmd) p cmd k b w)))
