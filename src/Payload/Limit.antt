-- ===== src/Payload/Limit.antt =====
-- Which images are left in a request.
use mybro.Json.{
  Value, Fields, Items, null, bool, number, string, array, object, get, as_array, as_str, lookup,
  insert, to_list, from_list,
}
use mybro.Json.Objects.{lookup-insert_self, lookup-insert_ne}
use mybro.Payload.{is_image_part}
use mybro.Payload.Images.{
  Step, key, index, write_at, ImagePos, in_system, in_message, path_of, positions_from, array_at,
  message_positions, positions, shared_before, replace_each, limit_images_in_messages,
}
use mybro.Prelude.{
  ℕ, zero, suc, ◌+◌, ◌-◌, ◌<◌, ◌≡◌, refl, sym, ap, ap₂, subst, ◌∙◌, inl, inr, String, str_eq, false,
  Option, none, some, List, [], ◌∷◌, ◌++◌, length, get_elem?, set, take, drop, Bool-cases, leb,
  ◌==◌, arith,
}
use mybro.Payload.Order.{sort-positions}

-- The first image of a list is at its index, and replacing it leaves the others.
abbrev First : (ℕ → ImagePos) → ℕ → List Value → ImagePos → List ImagePos → Type 0
First f i parts x xs =
    (k : ℕ) × (part : Value) × (x ≡ f (i + k))
    × (get_elem? parts k ≡ some part)
    × (positions_from f i (set parts k shared_before) ≡ xs)

no_image : is_image_part shared_before ≡ false
unfolding is_image_part get lookup as_str
no_image = refl

positions_from-First :
    (f : ℕ → ImagePos) (i : ℕ) (parts : List Value) (x : ImagePos) (xs : List ImagePos)
    → positions_from f i parts ≡ x ∷ xs
    → First f i parts x xs
unfolding positions_from
positions_from-First f i [] x xs h = absurd (ground arith)
positions_from-First f i (part ∷ parts) x xs h = elim (Bool-cases (is_image_part part)) [
  | inl e ↦
      let q : f i ∷ positions_from f (i + 1) parts ≡ x ∷ xs = rw (positions_from, e) at h in
      let head : f i ≡ x = ground arith in
      let tail : positions_from f (i + 1) parts ≡ xs = ground arith in
      let z : i + 0 ≡ i = omega arith in
      (0, part, sym head ∙ ap f (sym z), refl, rw (positions_from, no_image) tail)
  | inr e ↦
      let q : positions_from f (i + 1) parts ≡ x ∷ xs = rw (positions_from, e) at h in
      let (k, p, at_k, found, left) = positions_from-First f (i + 1) parts x xs q in
      let z : (i + 1) + k ≡ i + suc k = omega arith in
      (suc k, p, at_k ∙ ap f z, found, rw (positions_from, e) left)
]

to_list-from_list : (vs : List Value) → to_list (from_list vs) ≡ vs
unfolding to_list from_list
to_list-from_list [] = refl
to_list-from_list (v ∷ vs) = ap (◌∷◌ v) (to_list-from_list vs)

abbrev list_of : Option Value → List Value
list_of o =
    elim (elim o as (λ c. Option (List Value)) [ none ↦ none | some v ↦ as_array v ])
      as (λ c. List Value) [ none ↦ [] | some vs ↦ vs ]

array_at-field :
    (k : String) (fs : Fields) (o : Option Value)
    → lookup k fs ≡ o
    → array_at k (object fs) ≡ list_of o
unfolding get
array_at-field k fs o e = ap list_of e

zero_add : (n : ℕ) → 0 + n ≡ n
zero_add n = omega arith

write_at-nil : (new v : Value) → write_at [] new v ≡ new
unfolding write_at
write_at-nil new v = refl

-- A write to an element of an array in a field.
written_image :
    (f : ℕ → ImagePos) (vs ws : List Value) (c : ℕ) (part : Value) (ps : List ImagePos)
    → ws ≡ set vs c (write_at [] shared_before part)
    → positions_from f 0 (set vs c shared_before) ≡ ps
    → positions_from f 0 ws ≡ ps
written_image f vs ws c part ps e left =
    ap (positions_from f 0) (e ∙ ap (set vs c) (write_at-nil shared_before part)) ∙ left

-- A write below an element of an array in a field.
abbrev Written : String → ℕ → List Step → Value → Value → Value → Type 0
Written k i path v w new =
    (array_at k (write_at (key k ∷ index i ∷ path) new v)
      ≡ set (array_at k v) i (write_at path new w))
    × ((j : String)
        → str_eq k j ≡ false
        → array_at j (write_at (key k ∷ index i ∷ path) new v) ≡ array_at j v)

write_at-field :
    (k : String) (i : ℕ) (path : List Step) (fs : Fields) (vs : Items) (w new : Value)
    → lookup k fs ≡ some (array vs)
    → get_elem? (to_list vs) i ≡ some w
    → write_at (key k ∷ index i ∷ path) new (object fs)
      ≡ object (insert k (array (from_list (set (to_list vs) i (write_at path new w)))) fs)
unfolding write_at
write_at-field k i path fs vs w new e found = rw (write_at, e) (rw found refl)

in_field :
    (k : String) (i : ℕ) (path : List Step) (fs : Fields) (vs : Items) (w new : Value)
    → lookup k fs ≡ some (array vs)
    → get_elem? (to_list vs) i ≡ some w
    → Written k i path (object fs) w new
unfolding get as_array
in_field k i path fs vs w new e found =
    let ws = set (to_list vs) i (write_at path new w) in
    let gs = insert k (array (from_list ws)) fs in
    let old : array_at k (object fs) ≡ to_list vs = array_at-field k fs (some (array vs)) e in
    let new_field : array_at k (object gs) ≡ ws =
      array_at-field k gs (some (array (from_list ws)))
        (lookup-insert_self k (array (from_list ws)) fs)
      ∙ to_list-from_list ws in
    let written = write_at-field k i path fs vs w new e found in
    (
      ap (array_at k) written ∙ new_field ∙ ap (λ l. set l i (write_at path new w)) (sym old),
      λ j ne.
          ap (array_at j) written ∙ ap list_of (lookup-insert_ne k j (array (from_list ws)) fs ne),
    )

write_at-array_at :
    (k : String) (i : ℕ) (path : List Step) (v w new : Value)
    → get_elem? (array_at k v) i ≡ some w
    → Written k i path v w new
unfolding get as_array
write_at-array_at k i path null w new h = absurd (ground arith)
write_at-array_at k i path (bool b) w new h = absurd (ground arith)
write_at-array_at k i path (number n) w new h = absurd (ground arith)
write_at-array_at k i path (string s) w new h = absurd (ground arith)
write_at-array_at k i path (array vs) w new h = absurd (ground arith)
write_at-array_at k i path (object fs) w new h = by_field (lookup k fs) refl
  where
    there : (o : Option Value) → lookup k fs ≡ o → get_elem? (list_of o) i ≡ some w
    there o e = ap (λ l. get_elem? l i) (sym (array_at-field k fs o e)) ∙ h

    by_field : (o : Option Value) → lookup k fs ≡ o → Written k i path (object fs) w new
    by_field none e = absurd (let q = there none e in ground arith)
    by_field (some null) e = absurd (let q = there (some null) e in ground arith)
    by_field (some (bool b)) e = absurd (let q = there (some (bool b)) e in ground arith)
    by_field (some (number n)) e = absurd (let q = there (some (number n)) e in ground arith)
    by_field (some (string s)) e = absurd (let q = there (some (string s)) e in ground arith)
    by_field (some (object gs)) e = absurd (let q = there (some (object gs)) e in ground arith)
    by_field (some (array vs)) e = in_field k i path fs vs w new e (there (some (array vs)) e)

-- The same for the messages.
abbrev FirstMessage : ℕ → List Value → ImagePos → List ImagePos → Type 0
FirstMessage mi msgs x xs =
    (k ci : ℕ) × (msg : Value) × (x ≡ in_message (mi + k) ci)
    × (get_elem? msgs k ≡ some msg)
    × (message_positions mi
          (set msgs k (write_at (key "content" ∷ index ci ∷ []) shared_before msg))
        ≡ xs)

message_positions-FirstMessage :
    (mi : ℕ) (msgs : List Value) (x : ImagePos) (xs : List ImagePos)
    → message_positions mi msgs ≡ x ∷ xs
    → FirstMessage mi msgs x xs
unfolding message_positions
message_positions-FirstMessage mi [] x xs h = absurd (ground arith)
message_positions-FirstMessage mi (msg ∷ msgs) x xs h =
    by_images (positions_from (in_message mi) 0 (array_at "content" msg)) refl
      (message_positions-FirstMessage (mi + 1) msgs x xs)
  where
    by_images :
        (ps : List ImagePos)
        → positions_from (in_message mi) 0 (array_at "content" msg) ≡ ps
        → (message_positions (mi + 1) msgs ≡ x ∷ xs → FirstMessage (mi + 1) msgs x xs)
        → FirstMessage mi (msg ∷ msgs) x xs
    by_images [] e later =
        let q : message_positions (mi + 1) msgs ≡ x ∷ xs = rw e at h in
        let (k, ci, m, at_k, found, left) = later q in
        let z : (mi + 1) + k ≡ mi + suc k = omega arith in
        (suc k, ci, m, at_k ∙ ap (λ n. in_message n ci) z, found, rw e left)
    by_images (p ∷ ps) e later =
        let q : p ∷ (ps ++ message_positions (mi + 1) msgs) ≡ x ∷ xs = rw e at h in
        let head : p ≡ x = ground arith in
        let tail : ps ++ message_positions (mi + 1) msgs ≡ xs = ground arith in
        let (c, part, at_c, found, left) =
          positions_from-First (in_message mi) 0 (array_at "content" msg) p ps e in
        let written = (write_at-array_at "content" c [] msg part shared_before found).0 in
        let z : mi + 0 ≡ mi = omega arith in
        (
          0,
          c,
          msg,
          sym head ∙ at_c ∙ ap₂ in_message (sym z) (zero_add c),
          refl,
          ap (λ l. l ++ message_positions (mi + 1) msgs)
                (written_image (in_message mi) (array_at "content" msg)
                  (array_at "content" (write_at (key "content" ∷ index c ∷ []) shared_before msg)) c
                  part ps written left)
              ∙ tail,
        )

-- Replacing the first image leaves the others where they are.
positions-write_at :
    (payload : Value) (x : ImagePos) (xs : List ImagePos)
    → positions payload ≡ x ∷ xs
    → positions (write_at (path_of x) shared_before payload) ≡ xs
unfolding positions path_of
positions-write_at payload x xs h =
    by_system (positions_from in_system 0 (array_at "system" payload)) refl
  where
    msgs : List Value
    msgs = array_at "messages" payload

    by_system :
        (ps : List ImagePos)
        → positions_from in_system 0 (array_at "system" payload) ≡ ps
        → positions (write_at (path_of x) shared_before payload) ≡ xs
    by_system [] e =
        let q : message_positions 0 msgs ≡ x ∷ xs = rw (positions, e) at h in
        let (k, ci, m, at_k, found, left) = message_positions-FirstMessage 0 msgs x xs q in
        let inner = key "content" ∷ index ci ∷ [] in
        let (own, other) = write_at-array_at "messages" k inner payload m shared_before found in
        subst (λ p. positions (write_at (path_of p) shared_before payload) ≡ xs)
          (ap (λ n. in_message n ci) (sym (zero_add k)) ∙ sym at_k)
          (ap₂ (λ a b. positions_from in_system 0 a ++ message_positions 0 b) (other "system" refl)
              own
            ∙ ap (λ l. l ++ message_positions 0 (set msgs k (write_at inner shared_before m))) e
            ∙ left)
    by_system (p ∷ ps) e =
        let q : p ∷ (ps ++ message_positions 0 msgs) ≡ x ∷ xs = rw (positions, e) at h in
        let head : p ≡ x = ground arith in
        let tail : ps ++ message_positions 0 msgs ≡ xs = ground arith in
        let (k, part, at_k, found, left) =
          positions_from-First in_system 0 (array_at "system" payload) p ps e in
        let (own, other) = write_at-array_at "system" k [] payload part shared_before found in
        subst (λ p. positions (write_at (path_of p) shared_before payload) ≡ xs)
          (ap in_system (sym (zero_add k)) ∙ sym at_k ∙ head)
          (ap₂ (λ a b. a ++ message_positions 0 b)
              (written_image in_system (array_at "system" payload)
                (array_at "system" (write_at (key "system" ∷ index k ∷ []) shared_before payload)) k
                part ps own left)
              (other "messages" refl)
            ∙ tail)

positions-replace_each :
    (ps qs : List ImagePos) (payload : Value)
    → positions payload ≡ ps ++ qs
    → positions (replace_each ps payload) ≡ qs
unfolding replace_each
positions-replace_each [] qs payload h = h
positions-replace_each (p ∷ ps) qs payload h =
    positions-replace_each ps qs (write_at (path_of p) shared_before payload)
      (positions-write_at payload p (ps ++ qs) h)

take-drop {ℓ} : {A : Type ℓ} (n : ℕ) (xs : List A) → xs ≡ take n xs ++ drop n xs
take-drop zero xs = refl
take-drop (suc n) [] = refl
take-drop (suc n) (x ∷ xs) = ap (◌∷◌ x) (take-drop n xs)

-- With a limit of at least one image, the images that are left in the request are the newest ones that
-- fit: of all places with an image, in the order of the request, the last ones, each where it was.
pub limit_images_in_messages-positions :
    (max_images : ℕ) (payload : Value)
    → 0 < max_images
    → positions (limit_images_in_messages max_images payload)
      ≡ drop (length (positions payload) - max_images) (positions payload)
unfolding limit_images_in_messages
limit_images_in_messages-positions max_images payload pos =
    let n = length (positions payload) in
    let nonzero : (max_images == 0) ≡ false = ground arith in
    elim (Bool-cases (leb n max_images)) [
      | inl e ↦
          let z : n - max_images ≡ 0 = ground arith in
          rw (limit_images_in_messages, nonzero) (rw e (rw z refl))
      | inr e ↦
          rw (limit_images_in_messages, nonzero)
            (rw e (
              rw (sort-positions payload) (
                positions-replace_each (take (n - max_images) (positions payload))
                  (drop (n - max_images) (positions payload)) payload
                  (take-drop (n - max_images) (positions payload)))))
    ]
