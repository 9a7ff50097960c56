-- ===== src/Payload/Order.antt =====
-- The order of the images of a request.
use mybro.Json.{Value}
use mybro.Payload.{is_image_part}
use mybro.Payload.Images.{
  ImagePos, in_system, in_message, msg_rank, positions_from, array_at, message_positions, positions,
  insert_pos, sort_positions,
}
use mybro.Prelude.{
  ℕ, suc, ◌+◌, ◌≤◌, ◌≡◌, refl, sym, subst, inl, inr, true, List, [], ◌∷◌, ◌++◌, Bool-cases, leb,
  arith,
}

-- The positions come in the order that the sort wants.
abbrev Rising : ℕ → List ImagePos → Type 0
Rising n [] = Unit
Rising n (p ∷ ps) = (n ≤ msg_rank p) × Rising (msg_rank p) ps

Rising-weaken : (m n : ℕ) (ps : List ImagePos) → m ≤ n → Rising n ps → Rising m ps
Rising-weaken m n [] le r = tt
Rising-weaken m n (p ∷ ps) le r = (let q = r.0 in omega arith, r.1)

sort-Rising : (n : ℕ) (ps : List ImagePos) → Rising n ps → sort_positions ps ≡ ps
unfolding sort_positions insert_pos
sort-Rising n [] r = refl
sort-Rising n (p ∷ []) r = refl
sort-Rising n (p ∷ q ∷ qs) r =
    let below : leb (msg_rank p) (msg_rank q) ≡ true = (let h = r.1.0 in ground arith) in
    rw (sort_positions, sort-Rising (msg_rank p) (q ∷ qs) r.1, insert_pos, below) refl

flat-Rising :
    (f : ℕ → ImagePos) (c i : ℕ) (parts : List Value) (rest : List ImagePos)
    → ((j : ℕ) → msg_rank (f j) ≡ c)
    → Rising c rest
    → Rising c (positions_from f i parts ++ rest)
unfolding positions_from
flat-Rising f c i [] rest same r = r
flat-Rising f c i (part ∷ parts) rest same r = elim (Bool-cases (is_image_part part)) [
  | inr e ↦ rw (positions_from, e) (flat-Rising f c (i + 1) parts rest same r)
  | inl e ↦
      rw (positions_from, e)
        (
          let at_i = same i in omega arith,
          subst (λ m. Rising m (positions_from f (i + 1) parts ++ rest)) (sym (same i))
              (flat-Rising f c (i + 1) parts rest same r),
        )
]

messages-Rising : (mi : ℕ) (msgs : List Value) → Rising (suc mi) (message_positions mi msgs)
unfolding message_positions
messages-Rising mi [] = tt
messages-Rising mi (msg ∷ msgs) =
    flat-Rising (in_message mi) (suc mi) 0 (array_at "content" msg)
      (message_positions (mi + 1) msgs) (λ j. refl)
      (Rising-weaken (suc mi) (suc (mi + 1)) (message_positions (mi + 1) msgs) (omega arith)
        (messages-Rising (mi + 1) msgs))

pub sort-positions : (payload : Value) → sort_positions (positions payload) ≡ positions payload
unfolding positions
sort-positions payload = sort-Rising 0 (positions payload) (
    flat-Rising in_system 0 0 (array_at "system" payload)
      (message_positions 0 (array_at "messages" payload)) (λ j. refl)
      (Rising-weaken 0 1 (message_positions 0 (array_at "messages" payload)) (omega arith)
        (messages-Rising 0 (array_at "messages" payload))))
