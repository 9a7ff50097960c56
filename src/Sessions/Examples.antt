-- ===== src/Sessions/Examples.antt =====
-- The sessions at concrete inputs, over a cache of lists: the theorems applied.
use mybro.Lru.{Lru}
use mybro.Lru.Lists.{list_lru, lookup, delete, delete_all, drop_last, get, modify, put}
use mybro.Prelude.{
  ℕ, ◌≤◌, ◌≡◌, ◌≢◌, refl, String, str_eq, eq_iff, some, List, [], ◌∷◌, false, arith,
}
use mybro.Sessions.{Session, State, Call, touching, tracking, touch, track, run, evict, make_room}
use mybro.Sessions.Affinity.{touch-track}
use mybro.Sessions.Bounds.{len-run}
use mybro.Sessions.Numbers.{run-distinct}

program : Unit {0}
unfolding touch track run evict make_room lookup delete delete_all drop_last get modify put
program = tt

abbrev lists : Lru String Session
lists = list_lru str_eq (λ a b e. (eq_iff a b).0 e) (λ a. (eq_iff a a).1 refl) 9_999

abbrev nothing : State lists
nothing = record { inner = []; counter = 0 }

touch-track_example :
    let (r, st') = track lists "fp" 1 nothing in
    ((touch lists "fp" st').0 ≡ some (record r { token_index = some 1; is_new = false }))
    × ((j : String) → lists.lookup j (touch lists "fp" st').1.inner ≡ lists.lookup j st'.inner)
touch-track_example = touch-track lists "fp" 1 nothing

abbrev three_calls : List Call
three_calls = tracking "fp" 1 ∷ touching "fp" ∷ tracking "gp" 0 ∷ []

len-run_example : lists.len (run lists three_calls nothing).inner ≤ 10_000
len-run_example = len-run lists three_calls nothing (omega arith)

abbrev first_session : Session
first_session = record { token_index = 1; request_count = 2; sess_num = 1 }

abbrev second_session : Session
second_session = record { token_index = 0; request_count = 1; sess_num = 2 }

apart : ◌≢◌ {A = String} "fp" "gp"
apart e = let same = (eq_iff "fp" "gp").1 e in absurd (ground arith)

run-distinct_example : ◌≢◌ {A = ℕ} 1 2
unfolding run touch track make_room lookup delete get modify put
run-distinct_example =
    run-distinct lists (tracking "fp" 1 ∷ tracking "gp" 0 ∷ tracking "fp" 1 ∷ []) nothing
      (λ fp. refl) (omega arith) "fp" "gp" first_session second_session refl refl apart
