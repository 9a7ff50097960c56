-- ===== src/Prelude/Examples.antt =====
-- The text functions at concrete inputs.
use mybro.Prelude.Bytes.{codes, from_utf8, decode, trim_codes}
use mathlib.Core.Path.{◌≡◌, refl}
use mathlib.Core.List.{[], ◌∷◌}
use mathlib.Core.Option.{none, some}

decodes :
    from_utf8 (0x68 ∷ 0xc3 ∷ 0xa9 ∷ 0xe2 ∷ 0x82 ∷ 0xac ∷ 0xf0 ∷ 0x9f ∷ 0x98 ∷ 0x80 ∷ [])
    ≡ some (codes "hé€😀")
unfolding decode
decodes = refl

refuses_surrogates : from_utf8 (0xed ∷ 0xa0 ∷ 0x80 ∷ []) ≡ none
unfolding decode
refuses_surrogates = refl

trims : trim_codes (codes " a b  ") ≡ codes "a b"
unfolding trim_codes
trims = refl
