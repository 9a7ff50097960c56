-- ===== src/Database/Writer/Kept.antt =====
-- No record that got into the channel is lost on its way, or before its day is over.
use mathlib.Core.List.{append_assoc, append-nil, map-append}
use mybro.Database.{Row, fits, to_row, execute_all, flush_batch, raw_cutoff, cleanup}
use mybro.Database.Writer.{
  channel_size, batch_size, Task, Outcome, now_hour, flush, after_wait, Event, send, receive,
  timeout, try_send, take_one, step, run, start, took, accepted,
}
use mybro.Prelude.{
  ℕ, ◌%◌, ◌≤◌, ◌<◌, ◌≡◌, refl, sym, ap, ◌∙◌, inl, inr, ◌⊎◌, ◌&&◌, Bool, true, false, some, List, [],
  ◌∷◌, ◌++◌, map, length, length-append, filter, filter-true, filter-false, ltb, leb, ◌==◌,
  Bool-cases, if◌then◌else◌, arith,
}
use mybro.Stats.{RequestRecord}

filter-append {ℓ} :
    {A : Type ℓ} (p : A → Bool) (xs ys : List A) → filter p (xs ++ ys) ≡ filter p xs ++ filter p ys
filter-append p [] ys = refl
filter-append p (x ∷ xs) ys =
    let ih = filter-append p xs ys in
    elim (Bool-cases (p x)) [ inl e ↦ rw (filter, e) (ap (◌∷◌ x) ih) | inr e ↦ rw (filter, e) ih ]

-- A second test that implies the first.
filter-filter {ℓ} :
    {A : Type ℓ} (p q : A → Bool)
    → ((a : A) → q a ≡ true → p a ≡ true)
    → (xs : List A) → filter q (filter p xs) ≡ filter q xs
filter-filter p q imp [] = refl
filter-filter p q imp (x ∷ xs) =
    let ih = filter-filter p q imp xs in
    elim (Bool-cases (q x)) [
      | inl e ↦
          let f = imp x e in
          rw (filter-true p x xs f, filter-true q x (filter p xs) e, filter-true q x xs e)
            (ap (◌∷◌ x) ih)
      | inr e ↦ elim (Bool-cases (p x)) [
        | inl f ↦
            rw (filter-true p x xs f, filter-false q x (filter p xs) e, filter-false q x xs e) ih
        | inr f ↦ rw (filter-false p x xs f, filter-false q x xs e) ih
      ]
    ]

-- Every record of a list can be bound.
abbrev AllFit : List RequestRecord → Type 0
AllFit [] = Unit
AllFit (r ∷ rs) = (fits r ≡ true) × AllFit rs

AllFit-append : (xs ys : List RequestRecord) → AllFit xs → AllFit ys → AllFit (xs ++ ys)
AllFit-append [] ys a b = b
AllFit-append (x ∷ xs) ys a b = (a.0, AllFit-append xs ys a.1 b)

execute_all-AllFit :
    (batch : List RequestRecord) (table : List Row)
    → AllFit batch
    → execute_all batch table ≡ some (table ++ map to_row batch)
unfolding execute_all
execute_all-AllFit [] table a = ap some (sym (append-nil table))
execute_all-AllFit (r ∷ batch) table (fit, a) =
    rw (execute_all, fit)
      (execute_all-AllFit batch (table ++ to_row r ∷ []) a
        ∙ ap some (append_assoc table (to_row r ∷ []) (map to_row batch)))

-- What was accepted and is somewhere between the channel and the table, oldest first.
abbrev view : Task → List Row
view t = t.table ++ map to_row (t.batch ++ t.channel)

record IsFit (t : Task) : Type 0 where
  batch_fits : AllFit t.batch
  channel_fits : AllFit t.channel
  -- below the size of a batch, and of the channel
  batch_small : length t.batch < batch_size
  channel_small : length t.channel ≤ channel_size

-- Where everything can be bound, nothing is lost in a flush.
flush-AllFit :
    (channel batch : List RequestRecord) (table : List Row)
    → AllFit batch
    → flush true (record { channel = channel; batch = batch; table = table })
      ≡ record { channel = channel; batch = []; table = table ++ map to_row batch }
unfolding flush flush_batch
flush-AllFit channel [] table a =
    ap (λ rows. record { channel = channel; batch = []; table = rows }) (sym (append-nil table))
flush-AllFit channel (r ∷ batch) table a = rw (flush, execute_all-AllFit (r ∷ batch) table a) refl

abbrev clean : ℕ → Outcome → List Row → List Row
clean now_ms o rows = if now_hour now_ms % 6 == 0 && o.deletes then cleanup now_ms rows else rows

after_wait-AllFit :
    (now_ms : ℕ) (o : Outcome) (channel batch : List RequestRecord) (table : List Row)
    → o.inserts ≡ true
    → AllFit batch
    → after_wait now_ms o (record { channel = channel; batch = batch; table = table })
      ≡ record { channel = channel; batch = []; table = clean now_ms o (table ++ map to_row batch) }
unfolding after_wait
after_wait-AllFit now_ms o channel batch table works a =
    let t : Task = record { channel = channel; batch = batch; table = table } in
    ap (λ b. after_wait now_ms (record { inserts = b; deletes = o.deletes }) t) works
    ∙ elim (Bool-cases (now_hour now_ms % 6 == 0 && o.deletes)) [
      | inl e ↦ rw (after_wait, flush-AllFit channel batch table a, e) refl
      | inr e ↦ rw (after_wait, flush-AllFit channel batch table a, e) refl
    ]

module _ (cutoff : ℕ) where
  abbrev lasts : Row → Bool
  lasts r = leb cutoff r.ts_ms

  -- No cleanup at this time passes the cutoff: none is made, or it deletes only what is older.
  abbrev pub Spares : ℕ → Outcome → Type 0
  Spares now_ms o = ((now_hour now_ms % 6 == 0 && o.deletes) ≡ false) ⊎ (raw_cutoff now_ms ≤ cutoff)

  filter-clean :
      (now_ms : ℕ) (o : Outcome) (rows : List Row)
      → Spares now_ms o
      → filter lasts (clean now_ms o rows) ≡ filter lasts rows
  unfolding cleanup
  filter-clean now_ms o rows (inl e) = rw e refl
  filter-clean now_ms o rows (inr h) = elim (Bool-cases (now_hour now_ms % 6 == 0 && o.deletes)) [
    | inl e ↦ rw e (
        filter-filter (λ (r : Row). leb (raw_cutoff now_ms) r.ts_ms) lasts (λ r f. ground arith)
          rows)
    | inr e ↦ rw e refl
  ]

  -- Nothing that lasts is lost where a wait ends.
  view-after_wait :
      (now_ms : ℕ) (o : Outcome) (channel batch : List RequestRecord) (table : List Row)
      → Spares now_ms o
      → filter lasts (clean now_ms o (table ++ map to_row batch) ++ map to_row channel)
        ≡ filter lasts (table ++ map to_row (batch ++ channel))
  view-after_wait now_ms o channel batch table h =
      filter-append lasts (clean now_ms o (table ++ map to_row batch)) (map to_row channel)
      ∙ ap (λ rows. rows ++ filter lasts (map to_row channel))
          (filter-clean now_ms o (table ++ map to_row batch) h)
      ∙ sym (filter-append lasts (table ++ map to_row batch) (map to_row channel))
      ∙ ap (filter lasts) (
          append_assoc table (map to_row batch) (map to_row channel)
          ∙ ap (λ rows. table ++ rows) (sym (map-append to_row batch channel)))

  -- An event of the schedule: what is sent can be bound, a transaction works, and a cleanup spares.
  abbrev pub Allowed : Event → Type 0
  Allowed (send rec) = fits rec ≡ true
  Allowed (receive now_ms o) = (o.inserts ≡ true) × Spares now_ms o
  Allowed (timeout now_ms o) = (o.inserts ≡ true) × Spares now_ms o

  abbrev pub AllAllowed : List Event → Type 0
  AllAllowed [] = Unit
  AllAllowed (e ∷ es) = Allowed e × AllAllowed es

  abbrev Kept : Event → Task → Type 0
  Kept e t =
      IsFit (step e t)
      × (filter lasts (view (step e t))
          ≡ filter lasts (view t) ++ filter lasts (map to_row (took e t)))

  abbrev task : List RequestRecord → List RequestRecord → List Row → Task
  task channel batch table = record { channel = channel; batch = batch; table = table }

  after_wait-Kept :
      (now_ms : ℕ) (o : Outcome) (channel batch : List RequestRecord) (table : List Row)
      → (o.inserts ≡ true) × Spares now_ms o
      → AllFit batch
      → AllFit channel
      → length channel ≤ channel_size
      → IsFit (after_wait now_ms o (task channel batch table))
        × (filter lasts (view (after_wait now_ms o (task channel batch table)))
            ≡ filter lasts (view (task channel batch table)))
  after_wait-Kept now_ms o channel batch table (works, h) b c n =
      rw (after_wait-AllFit now_ms o channel batch table works b) (
        record { batch_fits = tt; channel_fits = c; batch_small = omega arith; channel_small = n },
        view-after_wait now_ms o channel batch table h,
      )

  step-send :
      (rec : RequestRecord) (channel batch : List RequestRecord) (table : List Row)
      → IsFit (task channel batch table)
      → fits rec ≡ true
      → Kept (send rec) (task channel batch table)
  unfolding step try_send took
  step-send rec channel batch table h fit = elim (Bool-cases (ltb (length channel) channel_size)) [
    | inr full ↦
        rw (try_send, full) (h, sym (append-nil (filter lasts (view (task channel batch table)))))
    | inl room ↦
        rw (try_send, room)
          (
            record {
              batch_fits = h.batch_fits;
              channel_fits = AllFit-append channel (rec ∷ []) h.channel_fits (fit, tt);
              batch_small = h.batch_small;
              channel_small = ground (arith, length-append channel (rec ∷ []));
            },
            ap (filter lasts) (
                  ap (λ rs. table ++ map to_row rs) (sym (append_assoc batch channel (rec ∷ [])))
                  ∙ ap (λ rows. table ++ rows) (map-append to_row (batch ++ channel) (rec ∷ []))
                  ∙ sym (append_assoc table (map to_row (batch ++ channel)) (to_row rec ∷ [])))
                ∙ filter-append lasts (view (task channel batch table)) (to_row rec ∷ []),
          )
  ]

  step-receive :
      (now_ms : ℕ) (o : Outcome) (channel batch : List RequestRecord) (table : List Row)
      → IsFit (task channel batch table)
      → (o.inserts ≡ true) × Spares now_ms o
      → Kept (receive now_ms o) (task channel batch table)
  unfolding step take_one took
  step-receive now_ms o [] batch table h c =
      (h, sym (append-nil (filter lasts (view (task [] batch table)))))
  step-receive now_ms o (rec ∷ channel) batch table h c =
      let batch' = batch ++ rec ∷ [] in
      let b = AllFit-append batch (rec ∷ []) h.batch_fits (h.channel_fits.0, tt) in
      let old = view (task (rec ∷ channel) batch table) in
      let same : view (task channel batch' table) ≡ old =
        ap (λ rs. table ++ map to_row rs) (append_assoc batch (rec ∷ []) channel) in
      let small = h.channel_small in
      elim (Bool-cases (leb batch_size (length batch'))) [
        | inr few ↦ rw few (
          record {
            batch_fits = b;
            channel_fits = h.channel_fits.1;
            batch_small = ground arith;
            channel_small = omega arith;
          },
          ap (filter lasts) same ∙ sym (append-nil (filter lasts old)),
        )
        | inl full ↦
            let (fit, kept) =
              after_wait-Kept now_ms o channel batch' table c b h.channel_fits.1 (omega arith) in
            rw full (fit, kept ∙ ap (filter lasts) same ∙ sym (append-nil (filter lasts old)))
      ]

  step-Kept : (e : Event) (t : Task) → IsFit t → Allowed e → Kept e t
  step-Kept (send rec) t h a = step-send rec t.channel t.batch t.table h a
  step-Kept (receive now_ms o) t h a = step-receive now_ms o t.channel t.batch t.table h a
  step-Kept (timeout now_ms o) t h a =
      let (fit, kept) =
        after_wait-Kept now_ms o t.channel t.batch t.table a h.batch_fits h.channel_fits
          h.channel_small in
      unfold step took in (fit, kept ∙ sym (append-nil (filter lasts (view t))))

  run-Kept :
      (es : List Event) (t : Task)
      → IsFit t
      → AllAllowed es
      → IsFit (run es t)
        × (filter lasts (view (run es t))
            ≡ filter lasts (view t) ++ filter lasts (map to_row (accepted es t)))
  unfolding run accepted
  run-Kept [] t h a = (h, sym (append-nil (filter lasts (view t))))
  run-Kept (e ∷ es) t h a =
      let (fit, kept) = step-Kept e t h a.0 in
      let (last, all) = run-Kept es (step e t) fit a.1 in
      let rest = filter lasts (map to_row (accepted es (step e t))) in
      let first = map to_row (took e t) in
      (
        last,
        all
            ∙ ap (λ rows. rows ++ rest) kept
            ∙ append_assoc (filter lasts (view t)) (filter lasts first) rest
            ∙ ap (λ rows. filter lasts (view t) ++ rows)
                (sym (filter-append lasts first (map to_row (accepted es (step e t))))
                  ∙ ap (filter lasts)
                      (sym (map-append to_row (took e t) (accepted es (step e t))))),
      )

  -- In every schedule in which each record sent can be bound, and SQLite would carry out a transaction whenever
  -- the task receives a record or times out: the table, then the batch, then the channel hold, once and in the
  -- order of their sending, every record that got into the channel and whose time is not before the cutoff. The
  -- cutoff is any time with this condition: whenever the task receives a record or times out, the number of the
  -- hour is not divisible by six, or a deletion fails, or it is at most 24 hours after the cutoff. The batch is
  -- shorter than 128 records and the channel has at most 4,096.
  pub run-accepted :
      (es : List Event)
      → AllAllowed es
      → let t = run es start in
        (filter lasts (t.table ++ map to_row (t.batch ++ t.channel))
          ≡ filter lasts (map to_row (accepted es start)))
        × (length t.batch < batch_size)
        × (length t.channel ≤ channel_size)
  run-accepted es a =
      let empty : IsFit start = record {
        batch_fits = tt;
        channel_fits = tt;
        batch_small = omega arith;
        channel_small = omega arith;
      } in
      let (fit, kept) = run-Kept es start empty a in (kept, fit.batch_small, fit.channel_small)
