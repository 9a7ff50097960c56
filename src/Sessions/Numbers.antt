-- ===== src/Sessions/Numbers.antt =====
-- Session numbers tell sessions apart.
use mathlib.Core.Option
use mybro.Lru.{Lru}
use mybro.Prelude.{
  ℕ, zero, suc, ◌+◌, ◌%◌, ◌^◌, ◌≤◌, ◌<◌, ◌≡◌, ◌≢◌, ◌⊎◌, refl, sym, ◌∙◌, ap, String, str_eq, eq_iff,
  none, some, List, [], ◌∷◌, length, Option-cases, Bool-cases, inl, inr, ltb, leb, arith,
}
use mybro.Sessions.{
  Session, State, Call, touching, tracking, touch, track, evict, make_room, again, run,
}
use mybro.Sessions.Affinity.{lookup-touch}

String-cases : (a b : String) → (a ≡ b) ⊎ (a ≢ b)
String-cases a b = elim (Bool-cases (str_eq a b)) [
  | inl e ↦ inl ((eq_iff a b).0 e)
  | inr e ↦ inr (λ q. let t = (eq_iff a b).1 q in cc)
]

module _ (lru : Lru String Session) where
  -- Every number was given out, and no number twice.
  pub record Numbered (c : lru.Cache) (counter : ℕ) : Type 0 where
    pub given : (fp : String) (s : Session) → lru.lookup fp c ≡ some s → s.sess_num ≤ counter
    pub once :
        (fp gp : String) (s t : Session)
        → lru.lookup fp c ≡ some s
        → lru.lookup gp c ≡ some t
        → s.sess_num ≡ t.sess_num
        → fp ≡ gp

  -- The sessions of one cache are in the other, with the same numbers.
  Within : lru.Cache → lru.Cache → Type 0
  Within c d =
      (fp : String) (s : Session)
      → lru.lookup fp c ≡ some s
      → (t : Session) × (lru.lookup fp d ≡ some t) × (t.sess_num ≡ s.sess_num)

  Within-Numbered :
      (c d : lru.Cache) (counter : ℕ) → Within c d → Numbered d counter → Numbered c counter
  unfolding Within
  Within-Numbered c d counter w n = record {
    given = λ fp s h. let (t, e, q) = w fp s h in omega (arith, n.given fp t e, q);
    once = λ fp gp s t h k same.
        let (s', e, q) = w fp s h in
        let (t', f, r) = w gp t k in n.once fp gp s' t' e f (omega (arith, q, r, same));
  }

  evict-Within : (rounds : ℕ) (c : lru.Cache) → Within (evict lru rounds c) c
  unfolding Within evict
  evict-Within zero c fp s h = (s, h, refl)
  evict-Within (suc rounds) c fp s h = elim (Bool-cases (ltb 8_000 (lru.len c))) [
    | inl e ↦
        let h' : lru.lookup fp (evict lru rounds (lru.pop_lru c)) ≡ some s = rw (evict, e) at h in
        let (t, f, q) = evict-Within rounds (lru.pop_lru c) fp s h' in
        (t, lru.lookup-pop_lru fp t c f, q)
    | inr e ↦ let h' : lru.lookup fp c ≡ some s = rw (evict, e) at h in (s, h', refl)
  ]

  make_room-Within : (c : lru.Cache) → Within (make_room lru c) c
  unfolding Within make_room
  make_room-Within c fp s h = elim (Bool-cases (leb 10_000 (lru.len c))) [
    | inl e ↦
        let h' : lru.lookup fp (evict lru (lru.len c) c) ≡ some s = rw (make_room, e) at h in
        evict-Within (lru.len c) c fp s h'
    | inr e ↦ let h' : lru.lookup fp c ≡ some s = rw (make_room, e) at h in (s, h', refl)
  ]

  modify-Within : (fp : String) (idx : ℕ) (c : lru.Cache) → Within (lru.modify fp (again idx) c) c
  unfolding Within
  modify-Within fp idx c gp s h = elim (String-cases gp fp) [
    | inl same ↦ elim (Option-cases (lru.lookup fp c)) [
      | inl e ↦
          let q : none ≡ some s =
            sym (lru.lookup-modify_self fp (again idx) c ∙ ap (Option.map (again idx)) e)
            ∙ (rw same at h) in
          absurd (ground arith)
      | inr (t, e) ↦
          let q : some (again idx t) ≡ some s =
            sym (lru.lookup-modify_self fp (again idx) c ∙ ap (Option.map (again idx)) e)
            ∙ (rw same at h) in
          (t, rw same e, ground arith)
    ]
    | inr ne ↦ (s, sym (lru.lookup-modify_ne gp fp (again idx) c ne) ∙ h, refl)
  ]

  lookup-put-eq :
      (fp : String) (new : Session) (c : lru.Cache) (gp : String) (s : Session)
      → gp ≡ fp
      → lru.lookup gp (lru.put fp new c) ≡ some s
      → s.sess_num ≡ new.sess_num
  lookup-put-eq fp new c gp s same h =
      let q : some new ≡ some s = sym (lru.lookup-put_self fp new c) ∙ (rw same at h) in
      ground arith

  put-Numbered :
      (fp : String) (new : Session) (c : lru.Cache) (counter : ℕ)
      → new.sess_num ≡ suc counter
      → Numbered c counter
      → Numbered (lru.put fp new c) (suc counter)
  put-Numbered fp new c counter e n = record {
    given = λ gp s h. elim (String-cases gp fp) [
      | inl same ↦ let q = lookup-put-eq fp new c gp s same h in omega (arith, e, q)
      | inr ne ↦ let q = n.given gp s (lru.lookup-put_ne gp fp new s c ne h) in omega (arith, q)
    ];
    once = λ gp hp s t h k same. elim (String-cases gp fp) [
      | inl a ↦ elim (String-cases hp fp) [
        | inl b ↦ a ∙ sym b
        | inr b ↦
            let q = lookup-put-eq fp new c gp s a h in
            let r = n.given hp t (lru.lookup-put_ne hp fp new t c b k) in
            absurd (omega (arith, e, q, r, same))
      ]
      | inr a ↦ elim (String-cases hp fp) [
        | inl b ↦
            let q = lookup-put-eq fp new c hp t b k in
            let r = n.given gp s (lru.lookup-put_ne gp fp new s c a h) in
            absurd (omega (arith, e, q, r, same))
        | inr b ↦
            n.once gp hp s t (lru.lookup-put_ne gp fp new s c a h)
              (lru.lookup-put_ne hp fp new t c b k) same
      ]
    ];
  }

  track-Numbered :
      (fp : String) (idx : ℕ) (st : State lru)
      → st.counter + 1 < 2 ^ 64
      → Numbered st.inner st.counter
      → let st' = (track lru fp idx st).1 in
        Numbered st'.inner st'.counter × (st'.counter ≤ st.counter + 1)
  unfolding track
  track-Numbered fp idx st small n = elim (Option-cases (lru.lookup fp st.inner)) [
    | inl e ↦
        let m : (st.counter + 1) % 2 ^ 64 ≡ suc st.counter = omega (arith, small) in
        rw (track, e, m)
          (
            put-Numbered fp
                (record { token_index = idx; request_count = 1; sess_num = suc st.counter })
                (make_room lru st.inner) st.counter refl
                (Within-Numbered (make_room lru st.inner) st.inner st.counter
                  (make_room-Within st.inner) n),
            omega arith,
          )
    | inr (s, e) ↦
        rw (track, e)
          (
            Within-Numbered (lru.modify fp (again idx) st.inner) st.inner st.counter
                (modify-Within fp idx st.inner) n,
            omega arith,
          )
  ]

  touch-Numbered :
      (fp : String) (st : State lru)
      → Numbered st.inner st.counter
      → let st' = (touch lru fp st).1 in Numbered st'.inner st.counter
  unfolding Within
  touch-Numbered fp st n =
      Within-Numbered (touch lru fp st).1.inner st.inner st.counter
        (λ gp s h. (s, sym (lookup-touch lru gp fp st) ∙ h, refl)) n

  counter-touch : (fp : String) (st : State lru) → (touch lru fp st).1.counter ≡ st.counter
  unfolding touch
  counter-touch fp st = elim (Option-cases (lru.get fp st.inner).0) [
    | inl e ↦ rw (touch, e) refl
    | inr (s, e) ↦ rw (touch, e) refl
  ]

  run-Numbered :
      (calls : List Call) (st : State lru)
      → st.counter + length calls < 2 ^ 64
      → Numbered st.inner st.counter
      → Numbered (run lru calls st).inner (run lru calls st).counter
  unfolding run
  run-Numbered [] st small n = n
  run-Numbered (touching fp ∷ calls) st small n =
      run-Numbered calls (touch lru fp st).1 (omega (arith, counter-touch fp st, small))
        (rw (counter-touch fp st) (touch-Numbered fp st n))
  run-Numbered (tracking fp idx ∷ calls) st small n =
      let (m, le) = track-Numbered fp idx st (omega (arith, small)) n in
      run-Numbered calls (track lru fp idx st).1 (omega (arith, le, small)) m

  -- From a map without sessions on, and with fewer than 2^64 calls after the numbers given out, no two
  -- conversations of the map have the same session number, whatever was evicted in between.
  pub run-distinct :
      (calls : List Call) (st : State lru)
      → ((fp : String) → lru.lookup fp st.inner ≡ none)
      → st.counter + length calls < 2 ^ 64
      → (fp gp : String) (s t : Session) → lru.lookup fp (run lru calls st).inner ≡ some s
      → lru.lookup gp (run lru calls st).inner ≡ some t
      → fp ≢ gp
      → s.sess_num ≢ t.sess_num
  run-distinct calls st empty small fp gp s t h k apart same = apart (
      (run-Numbered calls st small (record {
        given = λ ep u e. let q = empty ep in absurd (cc);
        once = λ ep dp u v e f q. let r = empty ep in absurd (cc);
      })).once
        fp gp s t h k same)
