-- ===== src/Sessions.antt =====
-- src/sessions.rs: which session a conversation belongs to, and which key it was last given.
-- `State` is what the mutex guards, with the counter beside it; each function is one critical section.
pub mod Affinity
pub mod Bounds
pub mod Numbers
mod Examples
use mybro.Lru.{Lru}
use mybro.Prelude.{
  ℕ, zero, suc, ◌+◌, ◌%◌, ◌^◌, String, Bool, true, false, Option, none, some, List, [], ◌∷◌, ltb,
  leb, if◌then◌else◌,
}

pub record Session : Type 0 where
  pub token_index : ℕ
  pub request_count : ℕ
  pub sess_num : ℕ

pub record TouchResult : Type 0 where
  pub sess_num : ℕ
  pub request_count : ℕ
  pub token_index : Option ℕ
  pub is_new : Bool

abbrev pub evict_threshold : ℕ
evict_threshold = 8_000

abbrev pub conversation_map_max : ℕ
conversation_map_max = 10_000

-- What both operations tell of a session.
abbrev pub told : Bool → Session → TouchResult
told is_new s = record {
  sess_num = s.sess_num;
  request_count = s.request_count;
  token_index = some s.token_index;
  is_new = is_new;
}

-- The writes of `track` to a session that it finds.
abbrev pub again : ℕ → Session → Session
again token_index s = record s {
  request_count = (s.request_count + 1) % 2 ^ 64;
  token_index = token_index;
}

-- The two calls that requests make.
pub data Call : Type 0 where
  touching : String → Call
  tracking : String → ℕ → Call

module _ (lru : Lru String Session) where
  pub record State : Type 0 where
    pub inner : lru.Cache
    pub counter : ℕ

  unfoldable pub touch : String → State → Option TouchResult × State
  touch fp st = elim (lru.get fp st.inner).0 [
    | none ↦ (none, record st { inner = (lru.get fp st.inner).1 })
    | some s ↦ (some (told false s), record st { inner = (lru.get fp st.inner).1 })
  ]

  -- `while inner.len() > EVICT_THRESHOLD { inner.pop_lru(); }`, with a bound on the rounds.
  unfoldable pub evict : ℕ → lru.Cache → lru.Cache
  evict zero c = c
  evict (suc rounds) c =
      let rest = evict rounds (lru.pop_lru c) in if ltb evict_threshold (lru.len c) then rest else c

  -- Every round removes an entry, so as many rounds as there are entries are enough.
  unfoldable pub make_room : lru.Cache → lru.Cache
  make_room c = if leb conversation_map_max (lru.len c) then evict (lru.len c) c else c

  -- `fetch_add` on the counter wraps; the sum after it wraps in a release build.
  abbrev pub fresh : ℕ → ℕ → Session
  fresh token_index counter = record {
    token_index = token_index;
    request_count = 1;
    sess_num = (counter + 1) % 2 ^ 64;
  }

  unfoldable pub track : String → ℕ → State → TouchResult × State
  track fp token_index st = elim (lru.lookup fp st.inner) [
    | some s ↦ (
      told false (again token_index s),
      record st { inner = lru.modify fp (again token_index) st.inner },
    )
    | none ↦ (
      told true (fresh token_index st.counter),
      record {
        inner = lru.put fp (fresh token_index st.counter) (make_room st.inner);
        counter = (st.counter + 1) % 2 ^ 64;
      },
    )
  ]

  -- The calls of all requests, in the order in which they get the lock.
  unfoldable pub run : List Call → State → State
  run [] st = st
  run (touching fp ∷ calls) st = run calls (touch fp st).1
  run (tracking fp token_index ∷ calls) st = run calls (track fp token_index st).1
