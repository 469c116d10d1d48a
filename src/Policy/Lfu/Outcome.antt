-- ===== src/Policy/Lfu/Outcome.antt =====
-- lfu.go: what `Evict` does.
use mcache.Prelude.{Str}
use mcache.Policy.Outcome.{Evicts, evict_lem}
use mcache.Policy.Lfu.{LfuPolicy, lfu}
use mcache.Policy.Lfu.Laws.{IsSound, tracks, lfu-Laws}

-- In a sound LFU policy, `Evict` finds a key exactly when one is tracked; it then drops that key
-- and no other, and the policy stays sound.
pub lfu-Evicts : (p : LfuPolicy) (q : Str) → IsSound p → Evicts lfu IsSound tracks p q
lfu-Evicts p q s = evict_lem lfu IsSound tracks lfu-Laws p q s
