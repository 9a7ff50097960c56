-- ===== src/Admin/Sync.antt =====
-- The pool against the configured keys, over any updates, requests and failures. An update is three moves, since
-- `ConfigStore::update` and the handlers hold no lock from the load of the configuration to the rebuild.
use mybro.Admin.{
  initial_entries, KeyAction, ConfigUpdate, apply_action, apply_update, is_some, remove_at,
}
use mybro.Config.{Config, ConfigKey}
use mybro.KeyPool.{
  KeyEntry, KeySlot, PoolInner, from_config, new, revive, acquire, cooldown_for_status,
  mark_unhealthy, mark_healthy, rebuild,
}
use mybro.KeyPool.Acquire.{acquire-Acquired, acquire-Shows}
use mybro.KeyPool.Scan.{probe}
use mybro.Prelude.{
  ℕ, zero, suc, ◌<◌, ◌≡◌, refl, sym, ap, subst, ◌∙◌, ◌⊎◌, inl, inr, String, Bool, true, false, ◌||◌,
  Option, none, some, List, [], ◌∷◌, ◌++◌, map, length, get_elem?, set, Bool-cases, Option-cases,
  if◌then◌else◌, arith,
}

-- What a request sees of an entry, and of a configured key.
abbrev pub entry_shown : KeyEntry → String × String
entry_shown e = (e.key, e.name)

abbrev pub key_shown : ConfigKey → String × String
key_shown k = (k.key, k.name)

-- Two lists show the same, index by index.
abbrev pub Match : List KeyEntry → List ConfigKey → Type 0
Match es ks = map entry_shown es ≡ map key_shown ks

map-set {ℓ κ} :
    {A : Type ℓ} {B : Type κ} (f : A → B) (xs : List A) (i : ℕ) (x y : A)
    → get_elem? xs i ≡ some x
    → f y ≡ f x
    → map f (set xs i y) ≡ map f xs
map-set f [] i x y h e = refl
map-set f (z ∷ xs) zero x y h e =
    ap (λ b. b ∷ map f xs) (let q : z ≡ x = ground arith in e ∙ sym (ap f q))
map-set f (z ∷ xs) (suc i) x y h e = ap (◌∷◌ (f z)) (map-set f xs i x y h e)

get_elem?-map {ℓ κ} :
    {A : Type ℓ} {B : Type κ} (f : A → B) (xs : List A) (i : ℕ) (x : A)
    → get_elem? xs i ≡ some x
    → get_elem? (map f xs) i ≡ some (f x)
get_elem?-map f [] i x h = absurd (ground arith)
get_elem?-map f (z ∷ xs) zero x h = let q : z ≡ x = ground arith in ap (λ a. some (f a)) q
get_elem?-map f (z ∷ xs) (suc i) x h = get_elem?-map f xs i x h

get_elem?-unmap {ℓ κ} :
    {A : Type ℓ} {B : Type κ} (f : A → B) (xs : List A) (i : ℕ) (b : B)
    → get_elem? (map f xs) i ≡ some b
    → (x : A) × (get_elem? xs i ≡ some x) × (f x ≡ b)
get_elem?-unmap f [] i b h = absurd (ground arith)
get_elem?-unmap f (z ∷ xs) zero b h = (z, refl, ground arith)
get_elem?-unmap f (z ∷ xs) (suc i) b h = get_elem?-unmap f xs i b h

-- A pool that is filled from keys matches them.
from_config-Match : (ks : List ConfigKey) → Match (map from_config ks) ks
unfolding from_config
from_config-Match [] = refl
from_config-Match (k ∷ ks) = ap (◌∷◌ (key_shown k)) (from_config-Match ks)

acquire-Match :
    (now : ℕ) (preferred : Option ℕ) (p : PoolInner) (ks : List ConfigKey)
    → Match p.entries ks
    → Match (acquire now preferred p).1.entries ks
acquire-Match now preferred p ks h = elim (acquire-Acquired now preferred p) [
  | inl (e, _) ↦ rw e h
  | inr (inl (idx, x, _, found, _, e)) ↦
      rw e (map-set entry_shown p.entries idx x (revive x) found refl ∙ h)
  | inr (inr (k, x, _, _, found, _, e, _)) ↦
      rw e (map-set entry_shown p.entries (probe p k) x (revive x) found refl ∙ h)
]

mark_unhealthy-Match :
    (now index status : ℕ) (p : PoolInner) (ks : List ConfigKey)
    → Match p.entries ks
    → Match (mark_unhealthy now index status p).entries ks
unfolding mark_unhealthy
mark_unhealthy-Match now index status p ks h = elim (Option-cases (get_elem? p.entries index)) [
  | inl e ↦ rw (mark_unhealthy, e) h
  | inr (x, e) ↦
      rw (mark_unhealthy, e)
        (map-set entry_shown p.entries index x
            (record x {
              healthy = false;
              last_error = some now;
              cooldown = cooldown_for_status status;
            })
            e refl
          ∙ h)
]

mark_healthy-Match :
    (index : ℕ) (p : PoolInner) (ks : List ConfigKey)
    → Match p.entries ks
    → Match (mark_healthy index p).entries ks
unfolding mark_healthy
mark_healthy-Match index p ks h = elim (Option-cases (get_elem? p.entries index)) [
  | inl e ↦ rw (mark_healthy, e) h
  | inr (x, e) ↦ rw (mark_healthy, e) (map-set entry_shown p.entries index x (revive x) e refl ∙ h)
]

initial-Match : (cfg : Config) → 0 < length cfg.keys → Match (initial_entries cfg) cfg.keys
unfolding initial_entries
initial-Match cfg h = by_keys cfg.keys refl
  where
    by_keys : (ks : List ConfigKey) → cfg.keys ≡ ks → Match (initial_entries cfg) cfg.keys
    by_keys [] e = absurd (let q : 0 < 0 = rw e at h in omega arith)
    by_keys (k ∷ ks) e = rw (initial_entries, e) (from_config-Match (k ∷ ks))

-- An update that is under way, after its check of the caller: `ConfigStore::update` has loaded the
-- configuration and made the new one, which is stored and then, perhaps, fills the pool.
pub record Update : Type 0 where
  pub new_cfg : Config
  pub rebuilds : Bool
  pub is_stored : Bool

-- `overlapped` tells whether an update ever began while another was under way.
pub record Running : Type 0 where
  pub config : Config
  pub pool : PoolInner
  pub updates : List Update
  pub overlapped : Bool

-- The moves of the two updates, each by its place among those under way, and the calls on the pool.
pub data Event : Type 0 where
  keys_loaded : KeyAction → Event
  config_loaded : ConfigUpdate → Event
  stored : ℕ → Event
  finished : ℕ → Event
  acquired : ℕ → Option ℕ → Event
  failed : ℕ → ℕ → ℕ → Event
  worked : ℕ → Event

abbrev pub is_busy : List Update → Bool
is_busy [] = false
is_busy (u ∷ us) = true

unfoldable pub load : Config → Bool → Running → Running
load new_cfg rebuilds st = record st {
  updates = st.updates ++ record { new_cfg = new_cfg; rebuilds = rebuilds; is_stored = false } ∷ [];
  overlapped = st.overlapped || is_busy st.updates;
}

unfoldable pub store : ℕ → Option Update → Running → Running
store i none st = st
store i (some u) st = if u.is_stored then st else record st {
  config = u.new_cfg;
  updates = set st.updates i (record u { is_stored = true });
}

-- `keypool.rebuild`, where the update asks for it, and the end of the handler.
unfoldable pub finish : ℕ → Option Update → Running → Running
unfolding rebuild
finish i none st = st
finish i (some u) st =
    if u.is_stored
    then record st {
      pool = if u.rebuilds then rebuild (map from_config u.new_cfg.keys) st.pool else st.pool;
      updates = remove_at st.updates i;
    }
    else st

unfoldable pub step : Event → Running → Running
unfolding apply_action apply_update load store finish acquire mark_unhealthy mark_healthy
step (keys_loaded action) st = load (apply_action action st.config) true st
step (config_loaded u) st = load (apply_update u st.config) (is_some u.keys) st
step (stored i) st = store i (get_elem? st.updates i) st
step (finished i) st = finish i (get_elem? st.updates i) st
step (acquired now preferred) st = record st { pool = (acquire now preferred st.pool).1 }
step (failed now index status) st = record st { pool = mark_unhealthy now index status st.pool }
step (worked index) st = record st { pool = mark_healthy index st.pool }

unfoldable pub run : List Event → Running → Running
unfolding step
run [] st = st
run (e ∷ es) st = run es (step e st)

-- What the pool matches while the only update is not stored yet, and once it is.
abbrev Tracks : Bool → Update → Config → PoolInner → Type 0
Tracks false u cfg pool =
    Match pool.entries cfg.keys × ((u.rebuilds ≡ true) ⊎ (u.new_cfg.keys ≡ cfg.keys))
Tracks true u cfg pool = (u.new_cfg ≡ cfg) × ((u.rebuilds ≡ true) ⊎ Match pool.entries cfg.keys)

abbrev Tracked : List Update → Config → PoolInner → Type 0
Tracked [] cfg pool = Match pool.entries cfg.keys
Tracked (u ∷ []) cfg pool = Tracks u.is_stored u cfg pool
Tracked (u ∷ v ∷ us) cfg pool = ⊥

abbrev InSync : Running → Type 0
InSync st = (st.overlapped ≡ true) ⊎ Tracked st.updates st.config st.pool

abbrev running : Config → PoolInner → List Update → Bool → Running
running cfg pool us o = record { config = cfg; pool = pool; updates = us; overlapped = o }

-- The state at the start of the program.
abbrev pub start : Config → Running
start cfg = running cfg (new (initial_entries cfg)) [] false

Tracks-pool :
    (b : Bool) (u : Update) (cfg : Config) (p q : PoolInner)
    → (Match p.entries cfg.keys → Match q.entries cfg.keys)
    → Tracks b u cfg p
    → Tracks b u cfg q
Tracks-pool false u cfg p q f (m, r) = (f m, r)
Tracks-pool true u cfg p q f (e, inl r) = (e, inl r)
Tracks-pool true u cfg p q f (e, inr m) = (e, inr (f m))

Tracked-pool :
    (us : List Update) (cfg : Config) (p q : PoolInner)
    → (Match p.entries cfg.keys → Match q.entries cfg.keys)
    → Tracked us cfg p
    → Tracked us cfg q
Tracked-pool [] cfg p q f m = f m
Tracked-pool (u ∷ []) cfg p q f t = Tracks-pool u.is_stored u cfg p q f t
Tracked-pool (u ∷ v ∷ us) cfg p q f t = t

InSync-pool :
    (st : Running) (q : PoolInner)
    → (Match st.pool.entries st.config.keys → Match q.entries st.config.keys)
    → InSync st
    → InSync (record st { pool = q })
InSync-pool st q f (inl o) = inl o
InSync-pool st q f (inr t) = inr (Tracked-pool st.updates st.config st.pool q f t)

load-InSync :
    (cfg new_cfg : Config) (rebuilds : Bool) (pool : PoolInner) (us : List Update) (o : Bool)
    → (rebuilds ≡ true) ⊎ (new_cfg.keys ≡ cfg.keys)
    → InSync (running cfg pool us o)
    → InSync (load new_cfg rebuilds (running cfg pool us o))
unfolding load
load-InSync cfg new_cfg rebuilds pool us o r (inl e) = inl (rw e refl)
load-InSync cfg new_cfg rebuilds pool [] o r (inr m) = inr (m, r)
load-InSync cfg new_cfg rebuilds pool (u ∷ us) o r (inr t) =
    inl (elim (Bool-cases o) [ inl e ↦ rw e refl | inr e ↦ rw e refl ])

store_one :
    (b : Bool) (new_cfg cfg : Config) (rebuilds : Bool) (pool : PoolInner) (o : Bool)
    → let u : Update = record { new_cfg = new_cfg; rebuilds = rebuilds; is_stored = b } in
      Tracks b u cfg pool → InSync (store 0 (some u) (running cfg pool (u ∷ []) o))
unfolding store
store_one true new_cfg cfg rebuilds pool o t = inr t
store_one false new_cfg cfg rebuilds pool o (m, inl r) = inr (refl, inl r)
store_one false new_cfg cfg rebuilds pool o (m, inr same) =
    inr (refl, inr (m ∙ ap (map key_shown) (sym same)))

store-overlapped :
    (i : ℕ) (u : Option Update) (st : Running)
    → st.overlapped ≡ true
    → (store i u st).overlapped ≡ true
unfolding store
store-overlapped i none st e = e
store-overlapped i (some u) st e = elim (Bool-cases u.is_stored) [
  | inl f ↦ rw (store, f) e
  | inr f ↦ rw (store, f) e
]

store-InSync :
    (i : ℕ) (cfg : Config) (pool : PoolInner) (us : List Update) (o : Bool)
    → InSync (running cfg pool us o)
    → InSync (store i (get_elem? us i) (running cfg pool us o))
unfolding store
store-InSync i cfg pool us o (inl e) =
    inl (store-overlapped i (get_elem? us i) (running cfg pool us o) e)
store-InSync i cfg pool [] o (inr m) = inr m
store-InSync zero cfg pool (u ∷ []) o (inr t) =
    store_one u.is_stored u.new_cfg cfg u.rebuilds pool o t
store-InSync (suc i) cfg pool (u ∷ []) o (inr t) = inr t
store-InSync i cfg pool (u ∷ v ∷ us) o (inr t) = absurd t

finish_one :
    (b rebuilds : Bool) (new_cfg cfg : Config) (pool : PoolInner) (o : Bool)
    → let u : Update = record { new_cfg = new_cfg; rebuilds = rebuilds; is_stored = b } in
      Tracks b u cfg pool → InSync (finish 0 (some u) (running cfg pool (u ∷ []) o))
unfolding finish rebuild remove_at
finish_one false rebuilds new_cfg cfg pool o t = inr t
finish_one true true new_cfg cfg pool o (e, r) =
    inr (from_config-Match new_cfg.keys ∙ ap (λ c. map key_shown c.keys) e)
finish_one true false new_cfg cfg pool o (e, inl r) = absurd (ground arith)
finish_one true false new_cfg cfg pool o (e, inr m) = inr m

finish-overlapped :
    (i : ℕ) (u : Option Update) (st : Running)
    → st.overlapped ≡ true
    → (finish i u st).overlapped ≡ true
unfolding finish
finish-overlapped i none st e = e
finish-overlapped i (some u) st e = elim (Bool-cases u.is_stored) [
  | inl f ↦ rw (finish, f) e
  | inr f ↦ rw (finish, f) e
]

finish-InSync :
    (i : ℕ) (cfg : Config) (pool : PoolInner) (us : List Update) (o : Bool)
    → InSync (running cfg pool us o)
    → InSync (finish i (get_elem? us i) (running cfg pool us o))
unfolding finish
finish-InSync i cfg pool us o (inl e) =
    inl (finish-overlapped i (get_elem? us i) (running cfg pool us o) e)
finish-InSync i cfg pool [] o (inr m) = inr m
finish-InSync zero cfg pool (u ∷ []) o (inr t) =
    finish_one u.is_stored u.rebuilds u.new_cfg cfg pool o t
finish-InSync (suc i) cfg pool (u ∷ []) o (inr t) = inr t
finish-InSync i cfg pool (u ∷ v ∷ us) o (inr t) = absurd t

config_loaded-keys :
    (u : ConfigUpdate) (cfg : Config)
    → (is_some u.keys ≡ true) ⊎ ((apply_update u cfg).keys ≡ cfg.keys)
unfolding apply_update
config_loaded-keys u cfg = elim (Option-cases u.keys) [
  | inl e ↦ inr (rw (apply_update, e) refl)
  | inr (ks, e) ↦ inl (rw e refl)
]

step-InSync : (e : Event) (st : Running) → InSync st → InSync (step e st)
unfolding step
step-InSync (keys_loaded action) st h =
    load-InSync st.config (apply_action action st.config) true st.pool st.updates st.overlapped
      (inl refl) h
step-InSync (config_loaded u) st h =
    load-InSync st.config (apply_update u st.config) (is_some u.keys) st.pool st.updates
      st.overlapped (config_loaded-keys u st.config) h
step-InSync (stored i) st h = store-InSync i st.config st.pool st.updates st.overlapped h
step-InSync (finished i) st h = finish-InSync i st.config st.pool st.updates st.overlapped h
step-InSync (acquired now preferred) st h =
    InSync-pool st (acquire now preferred st.pool).1
      (acquire-Match now preferred st.pool st.config.keys) h
step-InSync (failed now index status) st h =
    InSync-pool st (mark_unhealthy now index status st.pool)
      (mark_unhealthy-Match now index status st.pool st.config.keys) h
step-InSync (worked index) st h =
    InSync-pool st (mark_healthy index st.pool) (mark_healthy-Match index st.pool st.config.keys) h

run-InSync : (es : List Event) (st : Running) → InSync st → InSync (run es st)
unfolding run
run-InSync [] st h = h
run-InSync (e ∷ es) st h = run-InSync es (step e st) (step-InSync e st h)

at_rest :
    (st : Running)
    → InSync st
    → st.overlapped ≡ false
    → st.updates ≡ []
    → Match st.pool.entries st.config.keys
at_rest st (inl o) once done = absurd (ground arith)
at_rest st (inr t) once done = subst (λ us. Tracked us st.config st.pool) done t

-- The program starts with configured keys, and then its updates load, store and fill the pool, and keys are
-- handed out, fail or work, in any order. Where no update has loaded the configuration while another was under
-- way, and none is under way now, a key that the pool hands out is the one that is then configured at the index
-- of its slot, name included.
pub run-acquire :
    (es : List Event) (cfg : Config) (now : ℕ) (preferred : Option ℕ) (s : KeySlot)
    → 0 < length cfg.keys
    → (run es (start cfg)).overlapped ≡ false
    → (run es (start cfg)).updates ≡ []
    → (acquire now preferred (run es (start cfg)).pool).0 ≡ some s
    → (k : ConfigKey) × (get_elem? (run es (start cfg)).config.keys s.index ≡ some k)
      × (k.key ≡ s.key)
      × (k.name ≡ s.name)
unfolding new
run-acquire es cfg now preferred s some_keys once done got =
    let st = run es (start cfg) in
    let synced =
      at_rest st (run-InSync es (start cfg) (inr (initial-Match cfg some_keys))) once done in
    let (e, found, _, key, name) = acquire-Shows now preferred st.pool s got in
    let at_index = get_elem?-map entry_shown st.pool.entries s.index e found in
    let (k, there, shown) =
      get_elem?-unmap key_shown st.config.keys s.index (entry_shown e)
        (ap (λ xs. get_elem? xs s.index) (sym synced) ∙ at_index) in
    (k, there, ap (λ r. r.0) shown ∙ sym key, ap (λ r. r.1) shown ∙ sym name)
