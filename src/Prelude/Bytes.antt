-- ===== src/Prelude/Bytes.antt =====
-- Texts as they arrive: bytes, decoded to code points.
use Prim.Native.Nat.{ℕ, zero, suc, ◌+◌, ◌-◌, ◌*◌, ◌%◌}
use Prim.Native.String.{String}
use Prim.Native.Char.{code}
use mathlib.Core.Bool.{Bool, true, false, ◌&&◌}
use mathlib.Core.List.{List, [], ◌∷◌}
use mathlib.Core.Option.{Option, none, some}
use mathlib.Core.Option
use mathlib.Core.Path.{◌≡◌, refl, ap₂}
use native.Mathlib.Omega.{arith}
use mybro.Prelude.Tests.{leb, ◌==◌, if◌then◌else◌}
use mybro.Prelude.Text.{is_whitespace}

abbrev pub codes : String → List ℕ
codes String.[] = []
codes (String.◌∷◌ c s) = code c ∷ codes s

-- What a first byte asks for: how many bytes follow, the range of the next one, and its own bits.
unfoldable pub lead : ℕ → Option (ℕ × ℕ × ℕ × ℕ)
lead b =
    if leb b 0x7f
    then some (0, 0, 0, b)
    else if leb b 0xc1
    then none
    else if leb b 0xdf
    then some (1, 0x80, 0xbf, b - 0xc0)
    else if leb b 0xe0
    then some (2, 0xa0, 0xbf, 0)
    else if b == 0xed
    then some (2, 0x80, 0x9f, 13)
    else if leb b 0xef
    then some (2, 0x80, 0xbf, b - 0xe0)
    else if leb b 0xf0
    then some (3, 0x90, 0xbf, 0)
    else if leb b 0xf3
    then some (3, 0x80, 0xbf, b - 0xf0)
    else if b == 0xf4
    then some (3, 0x80, 0x8f, 4)
    else none

abbrev pub cons? : ℕ → Option (List ℕ) → Option (List ℕ)
cons? c rest = Option.map (◌∷◌ c) rest

-- `str::from_utf8`: the code points, or `none` for bytes that are no UTF-8. `need` bytes of the
-- character at hand are to come, the next of them between `lo` and `hi`.
unfoldable pub decode : ℕ → ℕ → ℕ → ℕ → List ℕ → Option (List ℕ)
unfolding lead
decode zero lo hi acc [] = some []
decode (suc need) lo hi acc [] = none
decode zero lo hi acc (b ∷ bs) = elim (lead b) [
  | none ↦ none
  | some (need, lo', hi', bits) ↦ elim need [
    | zero ↦ cons? b (decode 0 0 0 0 bs)
    | suc n ↦ decode (suc n) lo' hi' bits bs
  ]
]
decode (suc need) lo hi acc (b ∷ bs) = elim (leb lo b && leb b hi) [
  | false ↦ none
  | true ↦ elim need [
    | zero ↦ cons? (acc * 64 + b % 64) (decode 0 0 0 0 bs)
    | suc n ↦ decode (suc n) 0x80 0xbf (acc * 64 + b % 64) bs
  ]
]

abbrev pub from_utf8 : List ℕ → Option (List ℕ)
from_utf8 bs = decode 0 0 0 0 bs

-- `trim` on code points.
unfoldable pub trim_codes_start : List ℕ → List ℕ
trim_codes_start [] = []
trim_codes_start (c ∷ cs) =
    let rest = trim_codes_start cs in if is_whitespace c then rest else c ∷ cs

unfoldable pub trim_codes_end : List ℕ → List ℕ
trim_codes_end [] = []
trim_codes_end (c ∷ cs) = keep c (trim_codes_end cs)
  where
    keep : ℕ → List ℕ → List ℕ
    keep d [] = if is_whitespace d then [] else d ∷ []
    keep d (e ∷ es) = d ∷ e ∷ es

unfoldable pub trim_codes : List ℕ → List ℕ
unfolding is_whitespace trim_codes_start trim_codes_end
trim_codes cs = trim_codes_end (trim_codes_start cs)

unfoldable pub strip_codes : List ℕ → List ℕ → Option (List ℕ)
strip_codes [] s = some s
strip_codes (c ∷ p) [] = none
strip_codes (c ∷ p) (d ∷ s) = if c == d then strip_codes p s else none

unfoldable pub codes_eq : List ℕ → List ℕ → Bool
codes_eq [] [] = true
codes_eq [] (d ∷ s) = false
codes_eq (c ∷ p) [] = false
codes_eq (c ∷ p) (d ∷ s) = c == d && codes_eq p s

pub codes_eq_sound : (a b : List ℕ) → codes_eq a b ≡ true → a ≡ b
unfolding codes_eq
codes_eq_sound [] [] h = refl
codes_eq_sound [] (d ∷ b) h = absurd (ground arith)
codes_eq_sound (c ∷ a) [] h = absurd (ground arith)
codes_eq_sound (c ∷ a) (d ∷ b) h =
    let head : c ≡ d = ground arith in
    let tail : codes_eq a b ≡ true = ground arith in ap₂ (◌∷◌) head (codes_eq_sound a b tail)

pub codes_eq_self : (a : List ℕ) → codes_eq a a ≡ true
unfolding codes_eq
codes_eq_self [] = refl
codes_eq_self (c ∷ a) = let rest = codes_eq_self a in ground arith
