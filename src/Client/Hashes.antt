-- ===== src/Client/Hashes.antt =====
-- net/client_ext.go: the hash methods of a client.
pub mod Remote
use mcache.Prelude.{ℕ, Bool, Option, List, [], Str, if◌then◌else◌, ◌==◌}
use mcache.Prelude.Int.{ℤ, pos}
use mcache.Prelude.Panics.{Panics, returns, ◌>>=◌}
use mcache.Ds.Hashes.{Floats}
use mcache.Cache.{Error}
use mcache.Cache.Typed.{TypedCache}
use mcache.Cache.Typed.Hashes as Cached
use mcache.Net.Commands
use mcache.Net.HashWire.{Request, blank}
use mcache.Net.HashAnswer.{Response}
use mcache.Server.Replies.{reply}
use mcache.Client.{
  Value, number, flag, text, pairs, strings, values, float, nothing, Outcome, or_failed, or_missing,
  failing, missing_too, failing_blank,
}

-- the methods, with their arguments
pub data HashCall (F : Type 0) : Type 0 where
  h_set : Str → Str → Str → HashCall F
  h_set_nx : Str → Str → Str → HashCall F
  h_get : Str → Str → HashCall F
  h_del : Str → List Str → HashCall F
  h_exists : Str → Str → HashCall F
  h_get_all : Str → HashCall F
  h_keys : Str → HashCall F
  h_vals : Str → HashCall F
  h_len : Str → HashCall F
  h_str_len : Str → Str → HashCall F
  h_incr_by : Str → Str → ℤ → HashCall F
  h_incr_by_float : Str → Str → F → HashCall F
  hm_get : Str → List Str → HashCall F
  hm_set : Str → List Str → HashCall F

module _ (F : Type 0) (bits : F → ℕ) (from_bits : ℕ → F) where
  -- the request of a method
  unfoldable pub request_of : HashCall F → Request F
  request_of (h_set key field value) = record (blank F bits from_bits Commands.h_set) {
    key = key;
    field = field;
    value = value;
  }
  request_of (h_set_nx key field value) = record (blank F bits from_bits Commands.h_set_nx) {
    key = key;
    field = field;
    value = value;
  }
  request_of (h_get key field) = record (blank F bits from_bits Commands.h_get) {
    key = key;
    field = field;
  }
  request_of (h_del key fields) = record (blank F bits from_bits Commands.h_del) {
    key = key;
    fields = fields;
  }
  request_of (h_exists key field) = record (blank F bits from_bits Commands.h_exists) {
    key = key;
    field = field;
  }
  request_of (h_get_all key) = record (blank F bits from_bits Commands.h_get_all) { key = key }
  request_of (h_keys key) = record (blank F bits from_bits Commands.h_keys) { key = key }
  request_of (h_vals key) = record (blank F bits from_bits Commands.h_vals) { key = key }
  request_of (h_len key) = record (blank F bits from_bits Commands.h_len) { key = key }
  request_of (h_str_len key field) = record (blank F bits from_bits Commands.h_str_len) {
    key = key;
    field = field;
  }
  request_of (h_incr_by key field delta_i64) = record (blank F bits from_bits Commands.h_incr_by) {
    key = key;
    field = field;
    delta_i64 = delta_i64;
  }
  request_of (h_incr_by_float key field delta_f64) =
      record (blank F bits from_bits Commands.h_incr_by_float) {
        key = key;
        field = field;
        delta_f64 = delta_f64;
      }
  request_of (hm_get key fields) = record (blank F bits from_bits Commands.hm_get) {
    key = key;
    fields = fields;
  }
  request_of (hm_set key fv_pairs) = record (blank F bits from_bits Commands.hm_set) {
    key = key;
    fv_pairs = fv_pairs;
  }

  -- what a method returns for a response
  unfoldable pub result_of : HashCall F → Response F → Outcome F
  result_of (h_set key field value) r = or_failed r.status r.err_msg (number r.int_result)
  result_of (h_set_nx key field value) r = or_failed r.status r.err_msg (flag r.bool_result)
  result_of (h_get key field) r = or_missing r.status r.err_msg (text r.str_result)
  result_of (h_del key fields) r = or_failed r.status r.err_msg (number r.int_result)
  result_of (h_exists key field) r = or_failed r.status r.err_msg (flag r.bool_result)
  result_of (h_get_all key) r = or_missing r.status r.err_msg (pairs r.map_result)
  result_of (h_keys key) r = or_failed r.status r.err_msg (strings r.slice_result)
  result_of (h_vals key) r = or_failed r.status r.err_msg (strings r.slice_result)
  result_of (h_len key) r = or_failed r.status r.err_msg (number r.int_result)
  result_of (h_str_len key field) r = or_failed r.status r.err_msg (number r.int_result)
  result_of (h_incr_by key field delta_i64) r = or_failed r.status r.err_msg (number r.int_result)
  result_of (h_incr_by_float key field delta_f64) r =
      or_failed r.status r.err_msg (float r.float_result)
  result_of (hm_get key fields) r = or_failed r.status r.err_msg (values r.any_slice)
  result_of (hm_set key fv_pairs) r = or_failed r.status r.err_msg (nothing)

module _ (fl : Floats) (text_of : Error → Str) where
  -- the same call on a cache in the same process, with its answer as the caller of the client sees
  -- it: `HKeys` and `HVals` do not tell a missing key apart
  unfoldable pub local : HashCall fl.Float → TypedCache → Panics (TypedCache × Outcome fl.Float)
  local (h_set key field value) c =
      reply (Cached.h_set c key field value) (failing text_of (λ n. number (pos n)))
  local (h_set_nx key field value) c =
      reply (Cached.h_set_nx c key field value) (failing text_of (λ n. flag n))
  local (h_get key field) c = reply (Cached.h_get c key field) (missing_too text_of (λ n. text n))
  local (h_del key fields) c =
      reply (Cached.h_del c key fields) (failing text_of (λ n. number (pos n)))
  local (h_exists key field) c = reply (Cached.h_exists c key field) (failing text_of (λ n. flag n))
  local (h_get_all key) c = reply (Cached.h_get_all c key) (missing_too text_of (λ n. pairs n))
  local (h_keys key) c = reply (Cached.h_keys c key) (failing_blank text_of (λ n. strings n))
  local (h_vals key) c = reply (Cached.h_vals c key) (failing_blank text_of (λ n. strings n))
  local (h_len key) c = reply (Cached.h_len c key) (failing text_of (λ n. number (pos n)))
  local (h_str_len key field) c =
      reply (Cached.h_str_len c key field) (failing text_of (λ n. number (pos n)))
  local (h_incr_by key field delta_i64) c =
      reply (Cached.h_incr_by c key field delta_i64) (failing text_of (λ n. number n))
  local (h_incr_by_float key field delta_f64) c =
      reply (Cached.h_incr_by_float fl c key field delta_f64) (failing text_of (λ n. float n))
  local (hm_get key fields) c = reply (Cached.hm_get c key fields) (failing text_of (λ n. values n))
  local (hm_set key fv_pairs) c =
      reply (Cached.hm_set c key fv_pairs) (failing text_of (λ n. nothing))
