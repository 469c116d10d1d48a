-- ===== src/Client/Hashes/Remote.antt =====
-- net/client_ext.go: the hash methods of a client of a server without a raft node, against the same
-- calls of the server's cache.
use mcache.Prelude.{ℕ, ◌≡◌, ◌<◌, ◌^◌, refl, ap, ◌∙◌, true, some, List, Str}
use mcache.Prelude.Int.{ℤ, pos}
use mcache.Prelude.Panics.{Panics, returns, panic}
use mcache.Ds.Hashes.{Floats}
use mcache.Cache.{
  Error, Answer, ok, failed, key_not_found, key_empty, value_nil, negative_ttl, cache_closed,
  invalid_shards, rehash_in_progress, no_number,
}
use mcache.Cache.Typed.{TypedCache}
use mcache.Cache.Typed.Hashes as Cached
use mcache.Net.Bytes.{Payload}
use mcache.Net.Commands
use mcache.Net.Commands.{is_hash_cmd}
use mcache.Net.HashWire.RoundTrip as RequestTrip
use mcache.Net.HashAnswer.{Response}
use mcache.Net.HashAnswer.RoundTrip as ResponseTrip
use mcache.Server.Replies.{reply, as_error, as_not_found, hash_reply}
use mcache.Server.Hashes as Hashes
use mcache.Server.Hashes.{process_as, process_hash}
use mcache.Server.Blocking.{Round}
use mcache.Server.Connection.{Handled, hash_response}
use mcache.Server.Connection.Hashes.{call_hash, call_hash-process_hash}
use mcache.Client.{
  Outcome, number, flag, text as said, pairs, strings, values, float, nothing, failing, missing_too,
  failing_blank,
}
use mcache.Client.Hashes.{
  HashCall, h_set, h_set_nx, h_get, h_del, h_exists, h_get_all, h_keys, h_vals, h_len, h_str_len,
  h_incr_by, h_incr_by_float, hm_get, hm_set, request_of, result_of, local,
}

module _ (fl : Floats) (bits : fl.Float → ℕ) (from_bits : ℕ → fl.Float) (text : Error → Str) where
  -- what the caller gets of the response that the client's side made of one of the server's
  abbrev hear : HashCall fl.Float → Response fl.Float → Outcome fl.Float
  hear call resp =
      result_of fl.Float bits from_bits call (ResponseTrip.received bits from_bits resp)

  related :
      {A : Type 0} (call : Panics (TypedCache × Answer A)) (respond : Answer A → Response fl.Float)
      → (see : Answer A → Outcome fl.Float) (listen : Response fl.Float → Outcome fl.Float)
      → ((a : A) → listen (respond (ok a)) ≡ see (ok a))
      → ((e : Error) → listen (respond (failed e)) ≡ see (failed e))
      → (c' : TypedCache) (o : Outcome fl.Float) → reply call see ≡ returns (c', o)
      → (resp : Response fl.Float) × (reply call respond ≡ returns (c', resp)) × (listen resp ≡ o)
  related panic respond see listen h k c' o e = absurd (cc)
  related (returns (c, ok a)) respond see listen h k c' o e =
      let same : c ≡ c' = cc in
      let answer : see (ok a) ≡ o = cc in
      (respond (ok a), ap (λ d. returns (d, respond (ok a))) same, h a ∙ answer)
  related (returns (c, failed f)) respond see listen h k c' o e =
      let same : c ≡ c' = cc in
      let answer : see (failed f) ≡ o = cc in
      (respond (failed f), ap (λ d. returns (d, respond (failed f))) same, k f ∙ answer)

  each :
      (f g : Error → Outcome fl.Float)
      → f key_not_found ≡ g key_not_found
      → f key_empty ≡ g key_empty
      → f value_nil ≡ g value_nil
      → f negative_ttl ≡ g negative_ttl
      → f cache_closed ≡ g cache_closed
      → f invalid_shards ≡ g invalid_shards
      → f rehash_in_progress ≡ g rehash_in_progress
      → ((s : Str) → f (no_number s) ≡ g (no_number s))
      → (e : Error) → f e ≡ g e
  each f g a b c d h i j k key_not_found = a
  each f g a b c d h i j k key_empty = b
  each f g a b c d h i j k value_nil = c
  each f g a b c d h i j k negative_ttl = d
  each f g a b c d h i j k cache_closed = h
  each f g a b c d h i j k invalid_shards = i
  each f g a b c d h i j k rehash_in_progress = j
  each f g a b c d h i j k (no_number s) = k s

  -- Every method's response, as it is heard, is the cache's answer as the caller should see it.
  heard :
      (call : HashCall fl.Float) (c c' : TypedCache) (o : Outcome fl.Float)
      → local fl text call c ≡ returns (c', o)
      → (resp : Response fl.Float) × (process_hash fl bits from_bits text c
            (request_of fl.Float bits from_bits call)
          ≡ returns (c', resp))
        × (hear call resp ≡ o)
  unfolding local process_hash process_as request_of result_of
  heard (h_set key field value) c c' o e =
      related (Cached.h_set c key field value)
        (hash_reply text fl.Float bits from_bits Commands.h_set as_error
          (Hashes.counted fl bits from_bits))
        (failing text (λ n. number (pos n))) (hear (h_set key field value)) (λ a. refl) (λ f. refl)
        c' o e
  heard (h_set_nx key field value) c c' o e =
      related (Cached.h_set_nx c key field value)
        (hash_reply text fl.Float bits from_bits Commands.h_set_nx as_error
          (Hashes.tested fl bits from_bits))
        (failing text (λ n. flag n)) (hear (h_set_nx key field value)) (λ a. refl) (λ f. refl) c' o
        e
  heard (h_get key field) c c' o e =
      related (Cached.h_get c key field)
        (hash_reply text fl.Float bits from_bits Commands.h_get as_not_found
          (Hashes.said fl bits from_bits))
        (missing_too text (λ n. said n)) (hear (h_get key field)) (λ a. refl)
        (each
          (λ f. hear (h_get key field) (
            hash_reply text fl.Float bits from_bits Commands.h_get as_not_found
              (Hashes.said fl bits from_bits) (failed f)))
          (λ f. missing_too text (λ n. said n) (failed f)) refl refl refl refl refl refl refl
          (λ s. refl))
        c' o e
  heard (h_del key fields) c c' o e =
      related (Cached.h_del c key fields)
        (hash_reply text fl.Float bits from_bits Commands.h_del as_error
          (Hashes.counted fl bits from_bits))
        (failing text (λ n. number (pos n))) (hear (h_del key fields)) (λ a. refl) (λ f. refl) c' o
        e
  heard (h_exists key field) c c' o e =
      related (Cached.h_exists c key field)
        (hash_reply text fl.Float bits from_bits Commands.h_exists as_error
          (Hashes.tested fl bits from_bits))
        (failing text (λ n. flag n)) (hear (h_exists key field)) (λ a. refl) (λ f. refl) c' o e
  heard (h_get_all key) c c' o e =
      related (Cached.h_get_all c key)
        (hash_reply text fl.Float bits from_bits Commands.h_get_all as_not_found
          (Hashes.mapped fl bits from_bits))
        (missing_too text (λ n. pairs n)) (hear (h_get_all key)) (λ a. refl)
        (each
          (λ f. hear (h_get_all key) (
            hash_reply text fl.Float bits from_bits Commands.h_get_all as_not_found
              (Hashes.mapped fl bits from_bits) (failed f)))
          (λ f. missing_too text (λ n. pairs n) (failed f)) refl refl refl refl refl refl refl
          (λ s. refl))
        c' o e
  heard (h_keys key) c c' o e =
      related (Cached.h_keys c key)
        (hash_reply text fl.Float bits from_bits Commands.h_keys as_not_found
          (Hashes.listed fl bits from_bits))
        (failing_blank text (λ n. strings n)) (hear (h_keys key)) (λ a. refl)
        (each
          (λ f. hear (h_keys key) (
            hash_reply text fl.Float bits from_bits Commands.h_keys as_not_found
              (Hashes.listed fl bits from_bits) (failed f)))
          (λ f. failing_blank text (λ n. strings n) (failed f)) refl refl refl refl refl refl refl
          (λ s. refl))
        c' o e
  heard (h_vals key) c c' o e =
      related (Cached.h_vals c key)
        (hash_reply text fl.Float bits from_bits Commands.h_vals as_not_found
          (Hashes.listed fl bits from_bits))
        (failing_blank text (λ n. strings n)) (hear (h_vals key)) (λ a. refl)
        (each
          (λ f. hear (h_vals key) (
            hash_reply text fl.Float bits from_bits Commands.h_vals as_not_found
              (Hashes.listed fl bits from_bits) (failed f)))
          (λ f. failing_blank text (λ n. strings n) (failed f)) refl refl refl refl refl refl refl
          (λ s. refl))
        c' o e
  heard (h_len key) c c' o e =
      related (Cached.h_len c key)
        (hash_reply text fl.Float bits from_bits Commands.h_len as_error
          (Hashes.counted fl bits from_bits))
        (failing text (λ n. number (pos n))) (hear (h_len key)) (λ a. refl) (λ f. refl) c' o e
  heard (h_str_len key field) c c' o e =
      related (Cached.h_str_len c key field)
        (hash_reply text fl.Float bits from_bits Commands.h_str_len as_error
          (Hashes.counted fl bits from_bits))
        (failing text (λ n. number (pos n))) (hear (h_str_len key field)) (λ a. refl) (λ f. refl) c'
        o e
  heard (h_incr_by key field delta_i64) c c' o e =
      related (Cached.h_incr_by c key field delta_i64)
        (hash_reply text fl.Float bits from_bits Commands.h_incr_by as_error
          (Hashes.summed fl bits from_bits))
        (failing text (λ n. number n)) (hear (h_incr_by key field delta_i64)) (λ a. refl)
        (λ f. refl) c' o e
  heard (h_incr_by_float key field delta_f64) c c' o e =
      related (Cached.h_incr_by_float fl c key field delta_f64)
        (hash_reply text fl.Float bits from_bits Commands.h_incr_by_float as_error
          (Hashes.summed_float fl bits from_bits))
        (failing text (λ n. float n)) (hear (h_incr_by_float key field delta_f64)) (λ a. refl)
        (λ f. refl) c' o e
  heard (hm_get key fields) c c' o e =
      related (Cached.hm_get c key fields)
        (hash_reply text fl.Float bits from_bits Commands.hm_get as_error
          (Hashes.listed_any fl bits from_bits))
        (failing text (λ n. values n)) (hear (hm_get key fields)) (λ a. refl) (λ f. refl) c' o e
  heard (hm_set key fv_pairs) c c' o e =
      related (Cached.hm_set c key fv_pairs)
        (hash_reply text fl.Float bits from_bits Commands.hm_set as_error
          (Hashes.done fl bits from_bits))
        (failing text (λ n. nothing)) (hear (hm_set key fv_pairs)) (λ a. refl) (λ f. refl) c' o e

  asks :
      (call : HashCall fl.Float) → is_hash_cmd (request_of fl.Float bits from_bits call).cmd ≡ true
  unfolding request_of is_hash_cmd
  asks (h_set key field value) = refl
  asks (h_set_nx key field value) = refl
  asks (h_get key field) = refl
  asks (h_del key fields) = refl
  asks (h_exists key field) = refl
  asks (h_get_all key) = refl
  asks (h_keys key) = refl
  asks (h_vals key) = refl
  asks (h_len key) = refl
  asks (h_str_len key field) = refl
  asks (h_incr_by key field delta) = refl
  asks (h_incr_by_float key field delta) = refl
  asks (hm_get key fields) = refl
  asks (hm_set key fv) = refl

  module _ (draw : ℕ) (draws : List ℕ) (start : ℤ) (rounds : List Round)
      (process_kv : TypedCache → Payload → Handled) (bits_lt : (x : fl.Float) → bits x < 2 ^ 64)
      (bits_lem : (x : fl.Float) → from_bits (bits x) ≡ x) where
    -- If a hash method, called on the server's cache itself, returns with the cache `c'` and the
    -- outcome `o`, where a missing key is an error without a text for `HKeys` and `HVals`, then the client's call leaves the server's cache as `c'`, and of the response that
    -- arrives the client makes `o`: the encoding of the request, the server's choice of the handler,
    -- the cache, the encoding of the response and the client's reading of it agree for each of the
    -- methods. It is assumed that the request and the server's response can be sent, and that a
    -- float has 64 bits, which give the float back.
    pub client_hash-local :
        (call : HashCall fl.Float)
        → (c c' : TypedCache) → (o : Outcome fl.Float) → (spare spare' : List ℕ)
        → RequestTrip.IsSendable (request_of fl.Float bits from_bits call)
        → ((resp : Response fl.Float)
            → process_hash fl bits from_bits text c (request_of fl.Float bits from_bits call)
              ≡ returns (c', resp)
            → ResponseTrip.IsSendable resp)
        → local fl text call c ≡ returns (c', o)
        → (resp : Response fl.Float) × (call_hash fl bits from_bits text draw draws start rounds
              process_kv bits_lt bits_lem c
              (request_of fl.Float bits from_bits call)
              spare
              spare'
            ≡ returns (some (c', hash_response resp)))
          × (result_of fl.Float bits from_bits call resp ≡ o)
    client_hash-local call c c' o spare spare' i j e =
        let (resp, run, same) = heard call c c' o e in
        (
          ResponseTrip.received bits from_bits resp,
          call_hash-process_hash fl bits from_bits text draw draws start rounds process_kv bits_lt
              bits_lem c c' (request_of fl.Float bits from_bits call) resp spare spare' (asks call)
              i run (j resp run),
          same,
        )
