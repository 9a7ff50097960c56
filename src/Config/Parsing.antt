-- ===== src/Config/Parsing.antt =====
-- What `parse_duration` makes of digits and a unit.
use Prim.Native.Char.{Char, code}
use Prim.Native.String.{String, ◌++◌}
use Prim.Native.String.append
use mybro.Config.Duration.{
  is_digit, digits, below, parse_below, split_last, multiplier, seconds, millis, parse_trimmed,
  parse_duration,
}
use mybro.Prelude.{
  ℕ, ◌+◌, ◌-◌, ◌*◌, ◌^◌, ◌≡◌, refl, sym, ap, Bool, true, false, ◌&&◌, none, some, is_empty,
  is_whitespace, trim, trim_start, trim_end, leb, ltb, ◌==◌, ◌%◌, if◌then◌else◌, arith, Bool-cases,
  inl, inr, ◌∙◌,
}

-- Digits only; and the number they write, from the left.
abbrev pub all_digits : String → Bool
all_digits String.[] = true
all_digits (String.◌∷◌ c s) = is_digit (code c) && all_digits s

abbrev pub value : ℕ → String → ℕ
value acc String.[] = acc
value acc (String.◌∷◌ c s) = value (acc * 10 + (code c - 48)) s

both : (a b : Bool) → (a && b) ≡ true → (a ≡ true) × (b ≡ true)
both true true h = (refl, refl)
both true false h = absurd (ground arith)
both false b h = absurd (ground arith)

digits-value : (acc : ℕ) (s : String) → all_digits s ≡ true → digits acc s ≡ some (value acc s)
unfolding digits
digits-value acc String.[] h = refl
digits-value acc (String.◌∷◌ c s) h =
    let (d, ds) = both (is_digit (code c)) (all_digits s) h in
    rw (digits, d) (digits-value (acc * 10 + (code c - 48)) s ds)

digit_range : (c : ℕ) → is_digit c ≡ true → (leb 48 c ≡ true) × (leb c 57 ≡ true)
digit_range c h = both (leb 48 c) (leb c 57) h

digit-not_white : (c : ℕ) → is_digit c ≡ true → is_whitespace c ≡ false
unfolding is_whitespace
digit-not_white c h = ground arith

digit-not_plus : (c : ℕ) → is_digit c ≡ true → (c == 43) ≡ false
digit-not_plus c h = ground arith

digit-multiplier : (c : ℕ) → is_digit c ≡ true → multiplier c ≡ none
digit-multiplier c h = ground arith

unit-not_white : (c mult : ℕ) → multiplier c ≡ some mult → is_whitespace c ≡ false
unfolding is_whitespace
unit-not_white c mult h = ground arith

-- A text that ends in the character u.
abbrev pub with_unit : String → Char → String
with_unit s u = s ++ String.◌∷◌ u String.[]

with_unit-nil : (u : Char) → with_unit String.[] u ≡ String.◌∷◌ u String.[]
with_unit-nil u = λ i. append.nil (String.◌∷◌ u String.[]) i

with_unit-cons :
    (c : Char) (s : String) (u : Char) → with_unit (String.◌∷◌ c s) u ≡ String.◌∷◌ c (with_unit s u)
with_unit-cons c s u = λ i. append.cons c s (String.◌∷◌ u String.[]) i

is_empty-with_unit : (s : String) (u : Char) → is_empty (with_unit s u) ≡ false
is_empty-with_unit String.[] u = rw (with_unit-nil u) refl
is_empty-with_unit (String.◌∷◌ c s) u = rw (with_unit-cons c s u) refl

trim_end-with_unit :
    (s : String) (u : Char)
    → is_whitespace (code u) ≡ false
    → trim_end (with_unit s u) ≡ with_unit s u
unfolding trim_end
trim_end-with_unit String.[] u h = rw (with_unit-nil u, trim_end, h) refl
trim_end-with_unit (String.◌∷◌ c s) u h =
    rw (with_unit-cons c s u, trim_end, trim_end-with_unit s u h, is_empty-with_unit s u) refl

trim_end-digits : (s : String) → all_digits s ≡ true → trim_end s ≡ s
unfolding trim_end
trim_end-digits String.[] h = refl
trim_end-digits (String.◌∷◌ c s) h =
    let (d, ds) = both (is_digit (code c)) (all_digits s) h in
    rw (trim_end, trim_end-digits s ds, digit-not_white (code c) d)
      (elim (Bool-cases (is_empty s)) [ inl e ↦ rw e refl | inr e ↦ rw e refl ])

split_last-with_unit :
    (c : Char) (s : String) (u : Char) → split_last c (with_unit s u) ≡ (String.◌∷◌ c s, u)
unfolding split_last
split_last-with_unit c String.[] u = rw (with_unit-nil u) refl
split_last-with_unit c (String.◌∷◌ d s) u =
    rw (with_unit-cons d s u, split_last, split_last-with_unit d s u) refl

-- The last character of digits is a digit.
split_last-digit :
    (c : Char) (s : String)
    → is_digit (code c) ≡ true
    → all_digits s ≡ true
    → is_digit (code (split_last c s).1) ≡ true
unfolding split_last
split_last-digit c String.[] d h = d
split_last-digit c (String.◌∷◌ e s) d h =
    let (f, fs) = both (is_digit (code e)) (all_digits s) h in split_last-digit e s f fs

parse_below-digits :
    (bound : ℕ) (c : Char) (s : String)
    → all_digits (String.◌∷◌ c s) ≡ true
    → parse_below bound (String.◌∷◌ c s) ≡ below bound (some (value 0 (String.◌∷◌ c s)))
unfolding parse_below
parse_below-digits bound c s h =
    let (d, ds) = both (is_digit (code c)) (all_digits s) h in
    rw (parse_below, digit-not_plus (code c) d, digits-value 0 (String.◌∷◌ c s) h) refl

trim-with_unit :
    (c : Char) (s : String) (u : Char)
    → is_digit (code c) ≡ true
    → is_whitespace (code u) ≡ false
    → trim (with_unit (String.◌∷◌ c s) u) ≡ String.◌∷◌ c (with_unit s u)
unfolding trim trim_start
trim-with_unit c s u d h =
    rw (with_unit-cons c s u, trim, trim_start, digit-not_white (code c) d)
      (ap trim_end (sym (with_unit-cons c s u))
        ∙ trim_end-with_unit (String.◌∷◌ c s) u h
        ∙ with_unit-cons c s u)

trim-digits :
    (c : Char) (s : String)
    → all_digits (String.◌∷◌ c s) ≡ true
    → trim (String.◌∷◌ c s) ≡ String.◌∷◌ c s
unfolding trim trim_start
trim-digits c s h =
    let (d, ds) = both (is_digit (code c)) (all_digits s) h in
    rw (trim, trim_start, digit-not_white (code c) d) (trim_end-digits (String.◌∷◌ c s) h)

parse_trimmed-unit :
    (c : Char) (s front : String) (u : Char) (mult : ℕ)
    → split_last c s ≡ (front, u)
    → multiplier (code u) ≡ some mult
    → parse_trimmed (String.◌∷◌ c s) ≡ seconds mult (parse_below (2 ^ 64) front)
unfolding parse_trimmed
parse_trimmed-unit c s front u mult last unit =
    ap
      (λ (r : String × Char). elim (multiplier (code r.1)) as (λ o. ℕ) [
        | some mult ↦ seconds mult (parse_below (2 ^ 64) r.0)
        | none ↦ millis (parse_below (2 ^ 64) (String.◌∷◌ c s))
      ])
      last
    ∙ rw unit refl

module _ (c : Char) (s : String) (written : all_digits (String.◌∷◌ c s) ≡ true) where
  parse_duration-unit :
      (u : Char) (mult : ℕ)
      → multiplier (code u) ≡ some mult
      → parse_duration (with_unit (String.◌∷◌ c s) u)
        ≡ seconds mult (below (2 ^ 64) (some (value 0 (String.◌∷◌ c s))))
  unfolding parse_duration
  parse_duration-unit u mult unit =
      let (d, ds) = both (is_digit (code c)) (all_digits s) written in
      rw (parse_duration, trim-with_unit c s u d (unit-not_white (code u) mult unit))
        (parse_trimmed-unit c (with_unit s u) (String.◌∷◌ c s) u mult (split_last-with_unit c s u)
            unit
          ∙ ap (seconds mult) (parse_below-digits (2 ^ 64) c s written))

  -- `seconds` in closed form.
  seconds-below :
      (mult n : ℕ)
      → seconds mult (below (2 ^ 64) (some n))
        ≡ (if ltb n (2 ^ 64) then ((n * mult) % 2 ^ 64) * 1_000_000_000 else 0)
  seconds-below mult n = elim (Bool-cases (ltb n (2 ^ 64))) [
    | inl e ↦ rw e refl
    | inr e ↦ rw e refl
  ]

  -- For digits that write a number n, the duration in nanoseconds is: with `h`, `m` or `s` after them, n
  -- times 3600, 60 or 1 seconds, where the product wraps at 2^64; without a unit, n milliseconds; and zero
  -- in all four cases for n from 2^64 on.
  pub parse_duration-digits :
      let n = value 0 (String.◌∷◌ c s) in
      let digits_of = String.◌∷◌ c s in
      (parse_duration (with_unit digits_of "h")
        ≡ (if ltb n (2 ^ 64) then ((n * 3600) % 2 ^ 64) * 1_000_000_000 else 0))
      × (parse_duration (with_unit digits_of "m")
          ≡ (if ltb n (2 ^ 64) then ((n * 60) % 2 ^ 64) * 1_000_000_000 else 0))
      × (parse_duration (with_unit digits_of "s")
          ≡ (if ltb n (2 ^ 64) then ((n * 1) % 2 ^ 64) * 1_000_000_000 else 0))
      × (parse_duration digits_of ≡ (if ltb n (2 ^ 64) then n * 1_000_000 else 0))
  unfolding parse_duration parse_trimmed
  parse_duration-digits =
      let (d, ds) = both (is_digit (code c)) (all_digits s) written in
      let n = value 0 (String.◌∷◌ c s) in
      let plain : parse_duration (String.◌∷◌ c s) ≡ millis (below (2 ^ 64) (some n)) =
        rw
          (
            parse_duration,
            trim-digits c s written,
            parse_trimmed,
            digit-multiplier (code (split_last c s).1) (split_last-digit c s d ds),
            parse_below-digits (2 ^ 64) c s written,
          )
          refl in
      (
        parse_duration-unit "h" 3600 refl ∙ seconds-below 3600 n,
        parse_duration-unit "m" 60 refl ∙ seconds-below 60 n,
        parse_duration-unit "s" 1 refl ∙ seconds-below 1 n,
        plain
            ∙ elim (Bool-cases (ltb n (2 ^ 64)))
                as (λ b.
                  millis (below (2 ^ 64) (some n))
                  ≡ (if ltb n (2 ^ 64) then n * 1_000_000 else 0)) [
                    | inl e ↦ rw e refl
                    | inr e ↦ rw e refl
                  ],
      )
