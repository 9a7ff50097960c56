-- ===== src/Sessions/Affinity.antt =====
-- A conversation keeps its session and its key.
use mathlib.Core.Option
use mybro.Lru.{Lru}
use mybro.Prelude.{ℕ, ◌≡◌, refl, ◌∙◌, ap, String, false, some, Option-cases, inl, inr}
use mybro.Sessions.{Session, again, State, touch, track, fresh, make_room}

module _ (lru : Lru String Session) where
  lookup-track :
      (fp : String) (idx : ℕ) (st : State lru)
      → (s : Session) × (lru.lookup fp (track lru fp idx st).1.inner ≡ some s)
        × ((track lru fp idx st).0.sess_num ≡ s.sess_num)
        × ((track lru fp idx st).0.request_count ≡ s.request_count)
        × (s.token_index ≡ idx)
  unfolding track
  lookup-track fp idx st = elim (Option-cases (lru.lookup fp st.inner)) [
    | inl e ↦
        rw (track, e)
          (
            fresh lru idx st.counter,
            lru.lookup-put_self fp (fresh lru idx st.counter) (make_room lru st.inner),
            refl,
            refl,
            refl,
          )
    | inr (s, e) ↦
        rw (track, e)
          (
            again idx s,
            lru.lookup-modify_self fp (again idx) st.inner ∙ ap (Option.map (again idx)) e,
            refl,
            refl,
            refl,
          )
  ]

  pub lookup-touch :
      (j fp : String) (st : State lru)
      → lru.lookup j (touch lru fp st).1.inner ≡ lru.lookup j st.inner
  unfolding touch
  lookup-touch j fp st = elim (Option-cases (lru.get fp st.inner).0) [
    | inl e ↦ rw (touch, e) (lru.lookup-get j fp st.inner)
    | inr (s, e) ↦ rw (touch, e) (lru.lookup-get j fp st.inner)
  ]

  -- Once a conversation is tracked with a key, the next look at it tells that key, the same session
  -- number and the same number of requests, and that the session is not new; the look itself changes
  -- no session.
  pub touch-track :
      (fp : String) (idx : ℕ) (st : State lru)
      → let (r, st') = track lru fp idx st in
        ((touch lru fp st').0 ≡ some (record r { token_index = some idx; is_new = false }))
        × ((j : String) → lru.lookup j (touch lru fp st').1.inner ≡ lru.lookup j st'.inner)
  unfolding touch
  touch-track fp idx st =
      let st' = (track lru fp idx st).1 in
      let (s, here, num, count, key) = lookup-track fp idx st in
      let got : (lru.get fp st'.inner).0 ≡ some s = lru.get-lookup fp st'.inner ∙ here in
      (rw (touch, got, num, count, key) refl, λ j. lookup-touch j fp st')
