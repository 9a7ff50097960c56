-- ===== src/ErrorLog/Redacted.antt =====
-- What a redacted body can still show.
use mybro.ErrorLog.{
  redacted, is_sensitive, cut_content, replace, cut, inside_messages, outside, treatment,
  redact_value_in_place, redact_items, redact_fields, redact_body_json,
}
use mybro.Json.{
  Value, Items, Fields, null, bool, number, string, array, object, nil, cons, end, field, as_str,
}
use mybro.Prelude.{
  ◌≤◌, ◌≡◌, refl, inl, inr, String, str_append, byte_len, byte_len-append, byte_len-slice_to,
  slice_to, str_eq, ◌&&◌, Bool, true, false, none, some, ltb, Bool-cases, Option-cases, arith,
}

tail_size : byte_len "...[truncated]" ≡ 14
unfolding byte_len
tail_size = refl

-- A text of at most 2,014 bytes, or no text.
abbrev pub IsShort : Value → Type 0
IsShort (string s) = byte_len s ≤ 2014
IsShort null = Unit
IsShort (bool b) = Unit
IsShort (number n) = Unit
IsShort (array vs) = Unit
IsShort (object fs) = Unit

-- The slice of a content that is a long text does not fall inside a character.
abbrev pub CanCut : Value → Type 0
CanCut v = (w : Value) × (cut_content v ≡ some w)

cut_content-IsShort : (v w : Value) → cut_content v ≡ some w → IsShort w
unfolding cut_content as_str
cut_content-IsShort (string s) w h = elim (Bool-cases (ltb 2000 (byte_len s))) [
  | inr e ↦
      let q : some (string s) ≡ some w = rw (cut_content, e) at h in
      let same : string s ≡ w = ground arith in rw (← same) (ground arith)
  | inl e ↦ elim (Option-cases (slice_to 2000 s)) [
    | inl f ↦ absurd (let q : none ≡ some w = rw (cut_content, e, f) at h in ground arith)
    | inr (start, f) ↦
        let q : some (string (str_append start "...[truncated]")) ≡ some w =
          rw (cut_content, e, f) at h in
        let same : string (str_append start "...[truncated]") ≡ w = ground arith in
        let size = byte_len-slice_to 2000 s start f in
        rw (← same) (omega (arith, byte_len-append start "...[truncated]", tail_size, size))
  ]
]
cut_content-IsShort null w h = let same : null ≡ w = ground arith in rw (← same) tt
cut_content-IsShort (bool b) w h = let same : bool b ≡ w = ground arith in rw (← same) tt
cut_content-IsShort (number n) w h = let same : number n ≡ w = ground arith in rw (← same) tt
cut_content-IsShort (array vs) w h = let same : array vs ≡ w = ground arith in rw (← same) tt
cut_content-IsShort (object fs) w h = let same : object fs ≡ w = ground arith in rw (← same) tt

module _ (to_lowercase : String → String) where
  -- By what a key is in lowercase: the first predicate at the sensitive names, the second at `messages`, the
  -- third at `content` in a message, and the last elsewhere.
  abbrev pub AtKey : Bool → String → Type 0 → Type 0 → Type 0 → Type 0 → Type 0
  AtKey in_messages k sensitive messages content other =
      elim (is_sensitive (to_lowercase k)) as (λ b. Type 0) [
        | true ↦ sensitive
        | false ↦ elim (str_eq (to_lowercase k) "messages") as (λ b. Type 0) [
          | true ↦ messages
          | false ↦ elim (in_messages && str_eq (to_lowercase k) "content") as (λ b. Type 0) [
            | true ↦ content
            | false ↦ other
          ]
        ]
      ]

  -- What is under a sensitive name, at any depth, is the placeholder; what is under `content` in a message is
  -- not looked into, but is no long text.
  abbrev mutual
    pub IsClean : Bool → Value → Type 0
    IsClean in_messages (object fs) = AreClean in_messages fs
    IsClean in_messages (array vs) = AllClean in_messages vs
    IsClean in_messages null = Unit
    IsClean in_messages (bool b) = Unit
    IsClean in_messages (number n) = Unit
    IsClean in_messages (string s) = Unit

    pub AllClean : Bool → Items → Type 0
    AllClean in_messages nil = Unit
    AllClean in_messages (cons v vs) = IsClean in_messages v × AllClean in_messages vs

    pub AreClean : Bool → Fields → Type 0
    AreClean in_messages end = Unit
    AreClean in_messages (field k v fs) =
        AtKey in_messages k (v ≡ redacted) (IsClean true v) (IsShort v) (IsClean false v)
        × AreClean in_messages fs

  -- No content of a message is cut inside a character.
  abbrev mutual
    pub IsCuttable : Bool → Value → Type 0
    IsCuttable in_messages (object fs) = AreCuttable in_messages fs
    IsCuttable in_messages (array vs) = AllCuttable in_messages vs
    IsCuttable in_messages null = Unit
    IsCuttable in_messages (bool b) = Unit
    IsCuttable in_messages (number n) = Unit
    IsCuttable in_messages (string s) = Unit

    pub AllCuttable : Bool → Items → Type 0
    AllCuttable in_messages nil = Unit
    AllCuttable in_messages (cons v vs) = IsCuttable in_messages v × AllCuttable in_messages vs

    pub AreCuttable : Bool → Fields → Type 0
    AreCuttable in_messages end = Unit
    AreCuttable in_messages (field k v fs) =
        AtKey in_messages k Unit (IsCuttable true v) (CanCut v) (IsCuttable false v)
        × AreCuttable in_messages fs

  mutual
    unfolding redact_value_in_place treatment

    redact_value-IsClean :
        (im : Bool) (v : Value)
        → IsCuttable im v
        → (w : Value) × (redact_value_in_place to_lowercase im v ≡ some w) × IsClean im w
    redact_value-IsClean im (object fs) c =
        let (fs', e, clean) = redact_fields-AreClean im fs c in (object fs', rw e refl, clean)
    redact_value-IsClean im (array vs) c =
        let (vs', e, clean) = redact_items-AllClean im vs c in (array vs', rw e refl, clean)
    redact_value-IsClean im null c = (null, refl, tt)
    redact_value-IsClean im (bool b) c = (bool b, refl, tt)
    redact_value-IsClean im (number n) c = (number n, refl, tt)
    redact_value-IsClean im (string s) c = (string s, refl, tt)

    redact_items-AllClean :
        (im : Bool) (vs : Items)
        → AllCuttable im vs
        → (ws : Items) × (redact_items to_lowercase im vs ≡ some ws) × AllClean im ws
    redact_items-AllClean im nil c = (nil, refl, tt)
    redact_items-AllClean im (cons v vs) c =
        let (w, e, clean) = redact_value-IsClean im v c.0 in
        let (ws, f, rest) = redact_items-AllClean im vs c.1 in
        (cons w ws, rw (e, f) refl, (clean, rest))

    redact_fields-AreClean :
        (im : Bool) (fs : Fields)
        → AreCuttable im fs
        → (gs : Fields) × (redact_fields to_lowercase im fs ≡ some gs) × AreClean im gs
    redact_fields-AreClean im end c = (end, refl, tt)
    redact_fields-AreClean im (field k v fs) c =
        let (gs, f, rest) = redact_fields-AreClean im fs c.1 in
        elim (Bool-cases (is_sensitive (to_lowercase k))) [
          | inl s ↦
              let t : treatment to_lowercase im k ≡ replace = rw (treatment, s) refl in
              (field k redacted gs, rw (t, f) refl, rw (AtKey, s) (refl, rest))
          | inr s ↦ elim (Bool-cases (str_eq (to_lowercase k) "messages")) [
            | inl m ↦
                let t : treatment to_lowercase im k ≡ inside_messages = rw (treatment, s, m) refl in
                let c' : IsCuttable true v × AreCuttable im fs = rw (AtKey, s, m) at c in
                let (w, e, clean) = redact_value-IsClean true v c'.0 in
                (field k w gs, rw (t, e, f) refl, rw (AtKey, s, m) (clean, rest))
            | inr m ↦ elim (Bool-cases (im && str_eq (to_lowercase k) "content")) [
              | inl n ↦
                  let t : treatment to_lowercase im k ≡ cut = rw (treatment, s, m, n) refl in
                  let c' : CanCut v × AreCuttable im fs = rw (AtKey, s, m, n) at c in
                  let (w, e) = c'.0 in
                  (
                    field k w gs,
                    rw (t, e, f) refl,
                    rw (AtKey, s, m, n) (cut_content-IsShort v w e, rest),
                  )
              | inr n ↦
                  let t : treatment to_lowercase im k ≡ outside = rw (treatment, s, m, n) refl in
                  let c' : IsCuttable false v × AreCuttable im fs = rw (AtKey, s, m, n) at c in
                  let (w, e, clean) = redact_value-IsClean false v c'.0 in
                  (field k w gs, rw (t, e, f) refl, rw (AtKey, s, m, n) (clean, rest))
            ]
          ]
        ]

  -- A body none of whose message contents is cut inside a character is redacted without a panic, and then
  -- shows at every depth only the placeholder under the sensitive names, and no content of more than 2,014
  -- bytes; only what is inside a content that is no text is left as it was.
  pub redact_body_json-IsClean :
      (body : Value)
      → IsCuttable false body
      → (w : Value) × (redact_body_json to_lowercase body ≡ some w) × IsClean false w
  unfolding redact_body_json
  redact_body_json-IsClean body c = redact_value-IsClean false body c
