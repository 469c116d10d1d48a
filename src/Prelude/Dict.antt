-- ===== src/Prelude/Dict.antt =====
-- Go maps as association lists. The order of the entries is the order in which one `range` visits
-- them, which Go leaves open: statements hold for every order.
use mcache.Prelude.{
  suc, ◌≡◌, refl, Option, none, some, List, [], ◌∷◌, ite, arith, length, is_some, if◌then◌else◌,
}

abbrev pub Dict {ℓ} : Type 0 → Type ℓ → Type ℓ
Dict K V = List (K × V)

module _ {ℓ} {K : Type 0} {V : Type ℓ} where
  abbrev pub keys : Dict K V → List K
  keys [] = []
  keys (e ∷ m) = e.0 ∷ keys m

module _ {ℓ} {K : Type 0} {V : Type ℓ} (dec : Discrete K) where
  -- `v, ok := m[k]`
  unfoldable pub lookup : K → Dict K V → Option V
  lookup k [] = none
  lookup k (e ∷ m) = ite (dec e.0 k) (some e.1) (lookup k m)

  -- `m[k] = v`
  unfoldable pub insert : K → V → Dict K V → Dict K V
  insert k v [] = (k, v) ∷ []
  insert k v (e ∷ m) = ite (dec e.0 k) ((k, v) ∷ m) (e ∷ insert k v m)

  -- `delete(m, k)`
  unfoldable pub delete : K → Dict K V → Dict K V
  delete k [] = []
  delete k (e ∷ m) = ite (dec e.0 k) (delete k m) (e ∷ delete k m)

  -- no key is stored twice
  abbrev pub IsDistinct : Dict K V → Type ℓ
  IsDistinct [] = Unit
  IsDistinct (e ∷ m) = (lookup e.0 m ≡ none) × IsDistinct m

  pub lookup-insert :
      (k q : K) (v : V) (m : Dict K V)
      → lookup q (insert k v m) ≡ ite (dec k q) (some v) (lookup q m)
  unfolding lookup insert
  lookup-insert k q v [] = refl
  lookup-insert k q v (e ∷ m) = ground (arith, lookup-insert k q v m)

  pub lookup-delete :
      (k q : K) (m : Dict K V) → lookup q (delete k m) ≡ ite (dec k q) none (lookup q m)
  unfolding lookup delete
  lookup-delete k q [] = ground arith
  lookup-delete k q (e ∷ m) = ground (arith, lookup-delete k q m)

  pub insert-IsDistinct : (k : K) (v : V) (m : Dict K V) → IsDistinct m → IsDistinct (insert k v m)
  unfolding lookup insert
  insert-IsDistinct k v [] d = (refl, tt)
  insert-IsDistinct k v (e ∷ m) d =
      ground (arith, insert-IsDistinct k v m d.1, lookup-insert k e.0 v m)

  pub delete-IsDistinct : (k : K) (m : Dict K V) → IsDistinct m → IsDistinct (delete k m)
  unfolding lookup delete
  delete-IsDistinct k [] d = tt
  delete-IsDistinct k (e ∷ m) d = ground (arith, delete-IsDistinct k m d.1, lookup-delete k e.0 m)

  pub delete_absent : (k : K) (m : Dict K V) → lookup k m ≡ none → delete k m ≡ m
  unfolding lookup delete
  delete_absent k [] h = refl
  delete_absent k (e ∷ m) h = ground (arith, delete_absent k m)

  pub length-insert :
      (k : K) (v : V) (m : Dict K V)
      → length (insert k v m) ≡ (if is_some (lookup k m) then length m else suc (length m))
  unfolding lookup insert
  length-insert k v [] = refl
  length-insert k v (e ∷ m) = ground (arith, length-insert k v m)

  pub length-delete :
      (k : K) (m : Dict K V)
      → IsDistinct m
      → (if is_some (lookup k m) then suc (length (delete k m)) else length (delete k m)) ≡ length m
  unfolding lookup delete
  length-delete k [] d = refl
  length-delete k (e ∷ m) d = ground (arith, length-delete k m d.1, delete_absent k m)
