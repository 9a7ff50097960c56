-- ===== src/Prelude/Text.antt =====
-- Texts: what `str` offers that the native String does not. Lengths and offsets count UTF-8 bytes.
use Prim.Native.Nat.{ℕ, ◌+◌, ◌-◌}
use Prim.Native.Char.{Char, code, len_utf8}
use Prim.Native.String.{String, ◌++◌}
use Prim.Native.String.append
use mathlib.Core.Path.{◌≡◌, refl}
use mathlib.Core.Bool.{Bool, true, false, ◌&&◌, ◌||◌}
use mathlib.Core.Option.{Option, none, some}
use mathlib.Core.Option
use native.Mathlib.Omega.{arith}
use mathlib.Core.Logic.{inl, inr}
use mybro.Prelude.Tests.{leb, ltb, ◌==◌, if◌then◌else◌, Bool-cases}

-- `str::is_empty`.
abbrev pub is_empty : String → Bool
is_empty String.[] = true
is_empty (String.◌∷◌ c s) = false

-- `str::len`.
unfoldable pub byte_len : String → ℕ
byte_len String.[] = 0
byte_len (String.◌∷◌ c s) = len_utf8 c + byte_len s

-- `&s[..n]`; `none` is the panic at an offset past the end or inside a character.
unfoldable pub slice_to : ℕ → String → Option String
slice_to n String.[] = if n == 0 then some String.[] else none
slice_to n (String.◌∷◌ c s) =
    let rest = slice_to (n - len_utf8 c) s in
    if n == 0
    then some String.[]
    else if leb (len_utf8 c) n
    then Option.map (String.◌∷◌ c) rest
    else none

-- `&s[n..]`, with the same panic.
unfoldable pub slice_from : ℕ → String → Option String
slice_from n String.[] = if n == 0 then some String.[] else none
slice_from n (String.◌∷◌ c s) =
    let rest = slice_from (n - len_utf8 c) s in
    if n == 0 then some (String.◌∷◌ c s) else if leb (len_utf8 c) n then rest else none

-- `char::is_whitespace`: the code points with the property White_Space.
unfoldable pub is_whitespace : ℕ → Bool
is_whitespace c =
    (leb 9 c && leb c 13)
    || c == 32
    || c == 0x85
    || c == 0xa0
    || c == 0x1680
    || (leb 0x2000 c && leb c 0x200a)
    || c == 0x2028
    || c == 0x2029
    || c == 0x202f
    || c == 0x205f
    || c == 0x3000

-- `str::trim_start`.
unfoldable pub trim_start : String → String
trim_start String.[] = String.[]
trim_start (String.◌∷◌ c s) =
    let rest = trim_start s in if is_whitespace (code c) then rest else String.◌∷◌ c s

-- `str::trim_end`: a character stays if it is no white space or if something after it stays.
unfoldable pub trim_end : String → String
trim_end String.[] = String.[]
trim_end (String.◌∷◌ c s) =
    let rest = trim_end s in
    if is_empty rest && is_whitespace (code c) then String.[] else String.◌∷◌ c rest

-- `str::trim`.
unfoldable pub trim : String → String
trim s = trim_end (trim_start s)

-- `str::strip_prefix`.
unfoldable pub strip_prefix : String → String → Option String
strip_prefix String.[] s = some s
strip_prefix (String.◌∷◌ c p) String.[] = none
strip_prefix (String.◌∷◌ c p) (String.◌∷◌ d s) = if code c == code d then strip_prefix p s else none

-- `str::starts_with`.
unfoldable pub starts_with : String → String → Bool
starts_with p s = elim (strip_prefix p s) [ none ↦ false | some _ ↦ true ]

-- `str::contains` for a text.
unfoldable pub contains : String → String → Bool
contains p String.[] = starts_with p String.[]
contains p (String.◌∷◌ c s) = starts_with p (String.◌∷◌ c s) || contains p s

-- `str::cmp` is not after; by code points, which is the order of the bytes.
unfoldable pub text_le : String → String → Bool
text_le String.[] t = true
text_le (String.◌∷◌ c s) String.[] = false
text_le (String.◌∷◌ c s) (String.◌∷◌ d t) =
    let rest = text_le s t in if code c == code d then rest else ltb (code c) (code d)

pub byte_len-append : (s t : String) → byte_len (s ++ t) ≡ byte_len s + byte_len t
unfolding byte_len
byte_len-append String.[] t = let e : String.[] ++ t ≡ t = λ i. append.nil t i in rw e (omega arith)
byte_len-append (String.◌∷◌ c s) t =
    let e : String.◌∷◌ c s ++ t ≡ String.◌∷◌ c (s ++ t) = λ i. append.cons c s t i in
    rw e (omega (arith, byte_len-append s t))

-- The clauses of the slices as equations, for `ground`.
slice_to-nil : (n : ℕ) → slice_to n String.[] ≡ (if n == 0 then some String.[] else none)
unfolding slice_to
slice_to-nil n = refl

slice_to-cons :
    (n : ℕ) (c : Char) (s : String)
    → slice_to n (String.◌∷◌ c s) ≡ (
        if n == 0
        then some String.[]
        else if leb (len_utf8 c) n
        then Option.map (String.◌∷◌ c) (slice_to (n - len_utf8 c) s)
        else none)
unfolding slice_to
slice_to-cons n c s = refl

byte_len-nil : byte_len String.[] ≡ 0
unfolding byte_len
byte_len-nil = refl

byte_len-cons : (c : Char) (s : String) → byte_len (String.◌∷◌ c s) ≡ len_utf8 c + byte_len s
unfolding byte_len
byte_len-cons c s = refl

map-eq-some {ℓ κ} :
    {A : Type ℓ} {B : Type κ} (f : A → B) (o : Option A) {b : B}
    → Option.map f o ≡ some b
    → (a : A) × (o ≡ some a) × (f a ≡ b)
map-eq-some f none h = absurd (ground arith)
map-eq-some f (some a) h = (a, refl, ground arith)

-- A slice at a boundary has the length that was asked for.
pub byte_len-slice_to : (n : ℕ) (s t : String) → slice_to n s ≡ some t → byte_len t ≡ n
byte_len-slice_to n String.[] t h = ground (arith, slice_to-nil n, byte_len-nil)
byte_len-slice_to n (String.◌∷◌ c s) t h = elim (Bool-cases (n == 0)) [
  | inl z ↦ ground (arith, slice_to-cons n c s, byte_len-nil)
  | inr z ↦ elim (Bool-cases (leb (len_utf8 c) n)) [
    | inl fits ↦
        let (u, e, f) = map-eq-some (String.◌∷◌ c) (slice_to (n - len_utf8 c) s) (
          let k : Option.map (String.◌∷◌ c) (slice_to (n - len_utf8 c) s) ≡ some t =
            ground (arith, slice_to-cons n c s) in
          k) in
        let ih = byte_len-slice_to (n - len_utf8 c) s u e in rw (← f, byte_len-cons) (ground arith)
    | inr over ↦ absurd (ground (arith, slice_to-cons n c s))
  ]
]
