-- ===== src/Payload/Images.antt =====
-- src/payload.rs, `limit_images_in_messages`: the images of a request, and the replacement of the oldest.
-- A JSON pointer is its list of steps; the source prints it as a text and splits that again.
use mybro.Json.{
  Value, null, bool, number, string, array, object, field, end, get_then, as_array, lookup, insert,
  to_list, from_list,
}
use mybro.Payload.{is_image_part}
use mybro.Prelude.{
  ℕ, suc, ◌+◌, ◌-◌, String, none, some, List, [], ◌∷◌, ◌++◌, length, get_elem?, set, take, leb,
  ◌==◌, if◌then◌else◌,
}

pub data Step : Type 0 where
  key : String → Step
  index : ℕ → Step

-- `navigate_pointer_mut`, and the write through what it finds; where it finds nothing, no write.
unfoldable pub write_at : List Step → Value → Value → Value
unfolding lookup insert to_list from_list
write_at [] new v = new
write_at (key k ∷ path) new (object fs) = elim (lookup k fs) [
  | none ↦ object fs
  | some w ↦ object (insert k (write_at path new w) fs)
]
write_at (index i ∷ path) new (array vs) = elim (get_elem? (to_list vs) i) [
  | none ↦ array vs
  | some w ↦ array (from_list (set (to_list vs) i (write_at path new w)))
]
write_at (key k ∷ path) new null = null
write_at (key k ∷ path) new (bool b) = bool b
write_at (key k ∷ path) new (number n) = number n
write_at (key k ∷ path) new (string s) = string s
write_at (key k ∷ path) new (array vs) = array vs
write_at (index i ∷ path) new null = null
write_at (index i ∷ path) new (bool b) = bool b
write_at (index i ∷ path) new (number n) = number n
write_at (index i ∷ path) new (string s) = string s
write_at (index i ∷ path) new (object fs) = object fs

-- Where an image is: in the system prompt, or in a message, with its index there.
pub data ImagePos : Type 0 where
  in_system : ℕ → ImagePos
  in_message : ℕ → ℕ → ImagePos

unfoldable pub path_of : ImagePos → List Step
path_of (in_system i) = key "system" ∷ index i ∷ []
path_of (in_message mi ci) = key "messages" ∷ index mi ∷ key "content" ∷ index ci ∷ []

-- `msg_index + 1`.
abbrev pub msg_rank : ImagePos → ℕ
msg_rank (in_system i) = 0
msg_rank (in_message mi ci) = suc mi

unfoldable pub positions_from : (ℕ → ImagePos) → ℕ → List Value → List ImagePos
positions_from at_index i [] = []
positions_from at_index i (part ∷ parts) =
    let rest = positions_from at_index (i + 1) parts in
    if is_image_part part then at_index i ∷ rest else rest

abbrev pub array_at : String → Value → List Value
array_at k v = elim (get_then k as_array v) [ none ↦ [] | some vs ↦ vs ]

unfoldable pub message_positions : ℕ → List Value → List ImagePos
message_positions mi [] = []
message_positions mi (msg ∷ msgs) =
    positions_from (in_message mi) 0 (array_at "content" msg) ++ message_positions (mi + 1) msgs

unfoldable pub positions : Value → List ImagePos
unfolding positions_from message_positions
positions payload =
    positions_from in_system 0 (array_at "system" payload)
    ++ message_positions 0 (array_at "messages" payload)

-- `sort_by_key`, which is stable.
unfoldable pub insert_pos : ImagePos → List ImagePos → List ImagePos
insert_pos p [] = p ∷ []
insert_pos p (q ∷ qs) =
    let rest = insert_pos p qs in if leb (msg_rank p) (msg_rank q) then p ∷ q ∷ qs else q ∷ rest

unfoldable pub sort_positions : List ImagePos → List ImagePos
sort_positions [] = []
sort_positions (p ∷ ps) = insert_pos p (sort_positions ps)

abbrev pub shared_before : Value
shared_before =
    object (field "type" (string "text") (field "text" (string "(Image previously shared)") end))

unfoldable pub replace_each : List ImagePos → Value → Value
replace_each [] payload = payload
replace_each (p ∷ ps) payload = replace_each ps (write_at (path_of p) shared_before payload)

unfoldable pub limit_images_in_messages : ℕ → Value → Value
unfolding positions sort_positions replace_each
limit_images_in_messages max_images payload =
    let count = length (positions payload) in
    if max_images == 0
    then payload
    else if leb count max_images
    then payload
    else replace_each (take (count - max_images) (sort_positions (positions payload))) payload
