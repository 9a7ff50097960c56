-- ===== src/Lru.antt =====
-- The cache of the crate `lru`, which src/sessions.rs and src/handoff_cache.rs keep behind a mutex: the
-- operations they call and what its documentation promises of them.
pub mod Lists
use mybro.Prelude.{ℕ, suc, ◌-◌, ◌≤◌, ◌≡◌, ◌≢◌, Option, none, some}
use mathlib.Core.Option

-- `lookup` is what the cache holds, without the change of order that `get` makes. `modify` is a write
-- through `get_mut`.
pub record Lru (K V : Type 0) : Type 1 where
  pub Cache : Type 0
  pub lookup : K → Cache → Option V
  pub len : Cache → ℕ
  pub get : K → Cache → Option V × Cache
  pub modify : K → (V → V) → Cache → Cache
  pub put : K → V → Cache → Cache
  pub pop : K → Cache → Cache
  pub pop_lru : Cache → Cache
  pub create : ℕ → Cache
  pub resize : ℕ → Cache → Cache
  -- A new cache is empty. A smaller one keeps what still fits.
  pub len-create : (cap : ℕ) → len (create cap) ≡ 0
  pub lookup-resize :
      (cap : ℕ) (j : K) (w : V) (c : Cache) → lookup j (resize cap c) ≡ some w → lookup j c ≡ some w
  pub len-resize-le : (cap : ℕ) (c : Cache) → len (resize cap c) ≤ cap
  -- A read gives what the cache holds and changes only the order.
  pub get-lookup : (k : K) (c : Cache) → (get k c).0 ≡ lookup k c
  pub lookup-get : (j k : K) (c : Cache) → lookup j (get k c).1 ≡ lookup j c
  pub len-get : (k : K) (c : Cache) → len (get k c).1 ≡ len c
  -- A write through a reference changes one value.
  pub lookup-modify_self :
      (k : K) (f : V → V) (c : Cache) → lookup k (modify k f c) ≡ Option.map f (lookup k c)
  pub lookup-modify_ne :
      (j k : K) (f : V → V) (c : Cache) → j ≢ k → lookup j (modify k f c) ≡ lookup j c
  pub len-modify : (k : K) (f : V → V) (c : Cache) → len (modify k f c) ≡ len c
  -- An insertion is there afterwards. It may push one other entry out, and adds none but its own.
  pub lookup-put_self : (k : K) (v : V) (c : Cache) → lookup k (put k v c) ≡ some v
  pub lookup-put_ne :
      (j k : K) (v w : V) (c : Cache) → j ≢ k → lookup j (put k v c) ≡ some w → lookup j c ≡ some w
  pub len-put-le : (k : K) (v : V) (c : Cache) → len (put k v c) ≤ suc (len c)
  -- What is removed is gone, and the removal of the oldest entry leaves the others.
  pub lookup-pop_self : (k : K) (c : Cache) → lookup k (pop k c) ≡ none
  pub lookup-pop_lru :
      (j : K) (w : V) (c : Cache) → lookup j (pop_lru c) ≡ some w → lookup j c ≡ some w
  pub len-pop_lru : (c : Cache) → len (pop_lru c) ≡ len c - 1
