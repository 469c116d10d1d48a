-- ===== src/Net/Safety/Hashes.antt =====
-- DecodeHashRequest of net/protocol_ext.go on a payload of any bytes.
use mcache.Prelude.{ℕ, zero, suc, ◌+◌, ◌≤◌, arith}
use mcache.Net.Bytes.{Payload, len}
use mcache.Net.Safety.{
  IsSafe, bind-IsSafe, check-IsSafe, slice-IsSafe, num_at-IsSafe, byte_at-IsSafe, get_string-IsSafe,
  get_strings-IsSafe,
}
use mcache.Net.HashWire.{
  Layout, layout, decode_as, decode_request, get_pairs, key_only, key_field, key_field_value,
  key_field_int, key_field_float, key_fields, key_pairs, unknown,
}

get_pairs-IsSafe : (count : ℕ) (p : Payload) (off : ℕ) → IsSafe (get_pairs count p off)
unfolding get_pairs
get_pairs-IsSafe zero p off = tt
get_pairs-IsSafe (suc count) p off = bind-IsSafe _ _ (get_string-IsSafe 2 p off) (λ f.
    bind-IsSafe _ _ (get_string-IsSafe 2 p f.1)
      (λ v. bind-IsSafe _ _ (get_pairs-IsSafe count p v.1) (λ l. tt)))

decode_as-IsSafe :
    {F : Type 0} (float64bits : F → ℕ) (float64frombits : ℕ → F) (l : Layout) (p : Payload)
    (cmd k : ℕ)
    → 3 ≤ len p
    → IsSafe (decode_as F float64bits float64frombits l p cmd k)
decode_as-IsSafe bits from_bits key_only p cmd k w =
    check-IsSafe (3 + k) (len p) _ _
      (λ r. slice-IsSafe p 3 (3 + k) _ (omega arith) (omega arith) (λ key_bytes. tt))
decode_as-IsSafe bits from_bits key_field p cmd k w = check-IsSafe 5 (len p) _ _ (λ g.
    num_at-IsSafe 2 p 3 _ (omega arith) (λ n3. check-IsSafe (5 + k + n3) (len p) _ _ (λ r.
      slice-IsSafe p 5 (5 + k) _ (omega arith) (omega arith) (λ key_bytes.
        slice-IsSafe p (5 + k) (5 + k + n3) _ (omega arith) (omega arith) (λ field_bytes. tt)))))
decode_as-IsSafe bits from_bits key_field_value p cmd k w = check-IsSafe 9 (len p) _ _ (λ g.
    num_at-IsSafe 2 p 3 _ (omega arith) (λ n3. num_at-IsSafe 4 p 5 _ (omega arith) (λ n5.
      check-IsSafe (9 + k + n3 + n5) (len p) _ _ (λ r.
        slice-IsSafe p 9 (9 + k) _ (omega arith) (omega arith) (λ key_bytes.
          slice-IsSafe p (9 + k) (9 + k + n3) _ (omega arith) (omega arith) (λ field_bytes.
            slice-IsSafe p (9 + k + n3) (9 + k + n3 + n5) _ (omega arith) (omega arith)
              (λ value_bytes. tt)))))))
decode_as-IsSafe bits from_bits key_field_int p cmd k w = check-IsSafe 13 (len p) _ _ (λ g.
    num_at-IsSafe 2 p 3 _ (omega arith) (λ n3. num_at-IsSafe 8 p 5 _ (omega arith) (λ n5.
      check-IsSafe (13 + k + n3) (len p) _ _ (λ r.
        slice-IsSafe p 13 (13 + k) _ (omega arith) (omega arith) (λ key_bytes.
          slice-IsSafe p (13 + k) (13 + k + n3) _ (omega arith) (omega arith)
            (λ field_bytes. tt))))))
decode_as-IsSafe bits from_bits key_field_float p cmd k w = check-IsSafe 13 (len p) _ _ (λ g.
    num_at-IsSafe 2 p 3 _ (omega arith) (λ n3. num_at-IsSafe 8 p 5 _ (omega arith) (λ n5.
      check-IsSafe (13 + k + n3) (len p) _ _ (λ r.
        slice-IsSafe p 13 (13 + k) _ (omega arith) (omega arith) (λ key_bytes.
          slice-IsSafe p (13 + k) (13 + k + n3) _ (omega arith) (omega arith)
            (λ field_bytes. tt))))))
decode_as-IsSafe bits from_bits key_fields p cmd k w = check-IsSafe 5 (len p) _ _ (λ g.
    num_at-IsSafe 2 p 3 _ (omega arith) (λ n. check-IsSafe (5 + k) (len p) _ _ (λ r.
      slice-IsSafe p _ _ _ (omega arith) r
        (λ key. bind-IsSafe _ _ (get_strings-IsSafe 2 n p (5 + k)) (λ fs. tt)))))
decode_as-IsSafe bits from_bits key_pairs p cmd k w = check-IsSafe 5 (len p) _ _ (λ g.
    num_at-IsSafe 2 p 3 _ (omega arith) (λ n. check-IsSafe (5 + k) (len p) _ _ (λ r.
      slice-IsSafe p _ _ _ (omega arith) r
        (λ key. bind-IsSafe _ _ (get_pairs-IsSafe n p (5 + k)) (λ l. tt)))))
decode_as-IsSafe bits from_bits unknown p cmd k w = tt

-- No payload of any bytes and any spare capacity makes the decoder of hash requests panic: it
-- returns a request or an error.
pub hash_decode_request-IsSafe :
    {F : Type 0} (float64bits : F → ℕ) (float64frombits : ℕ → F) (p : Payload)
    → IsSafe (decode_request F float64bits float64frombits p)
unfolding decode_request
hash_decode_request-IsSafe bits from_bits p = check-IsSafe 3 (len p) _ _ (λ w.
    byte_at-IsSafe p 0 _ (omega arith) (λ cmd.
      num_at-IsSafe 2 p 1 _ (omega arith)
        (λ k. decode_as-IsSafe bits from_bits (layout cmd) p cmd k w)))
