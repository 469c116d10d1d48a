-- ===== src/Shard/Entry.antt =====
-- entry.go. The clock is read where the source calls `time.Now()`: each reading is an argument, in
-- nanoseconds. Values are copied in and out, so an entry never changes.
use mcache.Prelude.{ℕ, ◌+◌, ◌^◌, ◌≡◌, ◌<◌, Bool, true, false, Str, if◌then◌else◌, ltb, arith}
use mcache.Prelude.Int.{ℤ, pos, ltb_ℤ}
use mcache.Prelude.Decimal.{add_int64}

-- `cacheEntry`
pub record CacheEntry : Type 0 where
  pub value : Str
  pub expires_at : ℤ

unfoldable pub new_entry : ℕ → Str → ℤ → CacheEntry
new_entry now value ttl = record {
  value = value;
  expires_at = if ltb_ℤ (pos 0) ttl then add_int64 (pos now) ttl else pos 0;
}

abbrev pub is_zero : ℤ → Bool
is_zero (pos ℕ.zero) = true
is_zero n = false

unfoldable pub is_expired : ℕ → CacheEntry → Bool
is_expired now e =
    if is_zero e.expires_at then false else if ltb_ℤ (pos now) e.expires_at then false else true

-- An entry with a positive time to live lives up to its end, and not from then on, where the end
-- is a 64-bit number.
pub is_expired-new_entry :
    (t now ttl : ℕ) (v : Str)
    → 0 < ttl
    → t + ttl < 2 ^ 63
    → is_expired now (new_entry t v (pos ttl)) ≡ (if ltb now (t + ttl) then false else true)
unfolding is_expired new_entry add_int64
is_expired-new_entry t now ttl v h k = ground arith
