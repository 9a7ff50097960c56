-- ===== src/Stats/Ring.antt =====
-- The ring buffer keeps the newest records.
use mybro.Prelude.{
  ℕ, suc, ◌-◌, ◌≤◌, ◌<◌, ◌≡◌, refl, ◌∙◌, false, List, [], ◌∷◌, ◌++◌, length, length-append, drop,
  Bool-cases, inl, inr, leb, if◌then◌else◌, arith,
}
use mathlib.Core.List.{append_assoc, append-nil}
use mybro.Stats.{RequestRecord, StatsCollector, pop_front, push_record, with_capacity}

-- The records arrive one after another.
unfoldable pub push_all : List RequestRecord → StatsCollector → StatsCollector
push_all [] c = c
push_all (r ∷ rs) c = push_all rs (push_record r c)

-- The last elements of a list, at most so many.
abbrev pub newest : ℕ → List RequestRecord → List RequestRecord
newest n xs = drop (length xs - n) xs

abbrev pushed : ℕ → RequestRecord → List RequestRecord → List RequestRecord
pushed max r cs = (if leb max (length cs) then pop_front cs else cs) ++ r ∷ []

length-pushed :
    (max : ℕ) (r : RequestRecord) (cs : List RequestRecord)
    → 0 < max
    → length cs ≤ max
    → length (pushed max r cs) ≤ max
length-pushed max r [] pos le = let e : leb max 0 ≡ false = ground arith in rw e (omega arith)
length-pushed max r (c ∷ cs) pos le = elim (Bool-cases (leb max (suc (length cs)))) [
  | inl full ↦ rw full (omega (arith, length-append cs (r ∷ [])))
  | inr room ↦
      let lt : suc (length cs) < max = ground arith in
      rw room (omega (arith, length-append (c ∷ cs) (r ∷ [])))
]

newest-pushed :
    (max : ℕ) (r : RequestRecord) (cs rs : List RequestRecord)
    → 0 < max
    → length cs ≤ max
    → newest max (pushed max r cs ++ rs) ≡ newest max (cs ++ r ∷ rs)
newest-pushed max r [] rs pos le = let e : leb max 0 ≡ false = ground arith in rw e refl
newest-pushed max r (c ∷ cs) rs pos le = elim (Bool-cases (leb max (suc (length cs)))) [
  | inl full ↦
      let long : max ≤ suc (length cs) = ground arith in
      let e : length (c ∷ cs ++ r ∷ rs) - max ≡ suc (length (cs ++ r ∷ rs) - max) =
        omega (arith, length-append cs (r ∷ rs), long) in
      rw (full, append_assoc cs (r ∷ []) rs, e) refl
  | inr room ↦ rw (room, append_assoc cs (r ∷ []) rs) refl
]

push_all-newest :
    (rs : List RequestRecord) (c : StatsCollector)
    → 0 < c.max_records
    → length c.records ≤ c.max_records
    → (push_all rs c).records ≡ newest c.max_records (c.records ++ rs)
unfolding push_all push_record
push_all-newest [] c pos le =
    let z : length c.records - c.max_records ≡ 0 = omega (arith, le) in
    rw (append-nil c.records, z) refl
push_all-newest (r ∷ rs) c pos le =
    push_all-newest rs (push_record r c) pos (length-pushed c.max_records r c.records pos le)
    ∙ newest-pushed c.max_records r c.records rs pos le

-- A collector that starts empty with room for at least one record holds, after any records, exactly
-- the newest of them that fit, in the order of their arrival.
pub push_all-with_capacity :
    (max : ℕ) (rs : List RequestRecord)
    → 0 < max
    → (push_all rs (with_capacity max)).records ≡ drop (length rs - max) rs
unfolding with_capacity
push_all-with_capacity max rs pos = push_all-newest rs (with_capacity max) pos (omega arith)
