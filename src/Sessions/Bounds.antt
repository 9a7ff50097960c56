-- ===== src/Sessions/Bounds.antt =====
-- How many sessions are kept.
use mybro.Lru.{Lru}
use mybro.Prelude.{
  ℕ, zero, suc, ◌+◌, ◌≤◌, ◌<◌, ◌≡◌, String, List, [], ◌∷◌, Option-cases, Bool-cases, inl, inr, ltb,
  leb, arith,
}
use mybro.Sessions.{
  Session, State, Call, touching, tracking, touch, track, evict, make_room, fresh, again, run,
}

module _ (lru : Lru String Session) where
  len-evict :
      (rounds : ℕ) (c : lru.Cache)
      → lru.len c ≤ rounds + 8_000
      → lru.len (evict lru rounds c) ≤ 8_000
  unfolding evict
  len-evict zero c h = omega (arith, h)
  len-evict (suc rounds) c h = elim (Bool-cases (ltb 8_000 (lru.len c))) [
    | inl e ↦ rw (evict, e) (len-evict rounds (lru.pop_lru c) (omega (arith, lru.len-pop_lru c, h)))
    | inr e ↦ rw (evict, e) (ground arith)
  ]

  len-make_room : (c : lru.Cache) → lru.len (make_room lru c) < 10_000
  unfolding make_room
  len-make_room c = elim (Bool-cases (leb 10_000 (lru.len c))) [
    | inl e ↦ rw (make_room, e) (omega (arith, len-evict (lru.len c) c (omega arith)))
    | inr e ↦ rw (make_room, e) (ground arith)
  ]

  len-track :
      (fp : String) (idx : ℕ) (st : State lru)
      → lru.len st.inner ≤ 10_000
      → lru.len (track lru fp idx st).1.inner ≤ 10_000
  unfolding track
  len-track fp idx st h = elim (Option-cases (lru.lookup fp st.inner)) [
    | inl e ↦
        rw (track, e)
          (omega (
            arith,
            lru.len-put-le fp (fresh lru idx st.counter) (make_room lru st.inner),
            len-make_room st.inner,
          ))
    | inr (s, e) ↦ rw (track, e) (omega (arith, lru.len-modify fp (again idx) st.inner, h))
  ]

  len-touch : (fp : String) (st : State lru) → lru.len (touch lru fp st).1.inner ≡ lru.len st.inner
  unfolding touch
  len-touch fp st = elim (Option-cases (lru.get fp st.inner).0) [
    | inl e ↦ rw (touch, e) (lru.len-get fp st.inner)
    | inr (s, e) ↦ rw (touch, e) (lru.len-get fp st.inner)
  ]

  -- From at most 10,000 sessions on, no sequence of calls leads to more, even where the cache itself
  -- has room for more.
  pub len-run :
      (calls : List Call) (st : State lru)
      → lru.len st.inner ≤ 10_000
      → lru.len (run lru calls st).inner ≤ 10_000
  unfolding run
  len-run [] st h = h
  len-run (touching fp ∷ calls) st h =
      len-run calls (touch lru fp st).1 (omega (arith, len-touch fp st, h))
  len-run (tracking fp idx ∷ calls) st h =
      len-run calls (track lru fp idx st).1 (len-track fp idx st h)
