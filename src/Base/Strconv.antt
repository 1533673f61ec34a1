-- ===== src/Base/Strconv.antt =====
-- The functions of the package `strconv` on decimal texts; integers are words of two's complement.
use Prim.Native.Nat.{ℕ, zero, suc, ◌+◌, ◌-◌, ◌/◌, ◌*◌, ◌^◌, ◌%◌, ◌<◌}
use mathlib.Core.Path.{ap, sym, subst, ◌∙◌, ◌≡◌, refl}
use mathlib.Core.Logic.{inl, inr}
use mathlib.Core.Bool.{Bool, true, false, ◌&&◌, ◌||◌}
use mathlib.Core.Option.{Option, none, some}
use mathlib.Core.List.{[], ◌∷◌, ◌++◌}
use native.Mathlib.Omega.{arith, pow_step}
use partforge.Base.Tests.{ltb, leb, ◌==◌, if◌then◌else◌, Bool-cases, Option-cases}
use partforge.Base.Strings.{Text, codes, null}

abbrev pub word_size : ℕ
word_size = 2 ^ 64

abbrev pub max_int_64 : ℕ
max_int_64 = 2 ^ 63 - 1

unfoldable pub is_digit : ℕ → Bool
is_digit c = leb 48 c && leb c 57

-- One digit more, unless the number then leaves the range below `bound`.
push_digit : ℕ → ℕ → ℕ → Option ℕ
unfolding is_digit
push_digit bound value c =
    if is_digit c && ltb (value * 10 + (c - 48)) bound then some (value * 10 + (c - 48)) else none

digits_from : ℕ → Option ℕ → Text → Option ℕ
unfolding push_digit
digits_from bound none s = none
digits_from bound (some value) [] = some value
digits_from bound (some value) (c ∷ s) = digits_from bound (push_digit bound value c) s

-- `strconv.ParseUint(s, 10, bits)` for the numbers below `bound`.
unfoldable pub parse_below : ℕ → Text → Option ℕ
unfolding digits_from
parse_below bound [] = none
parse_below bound (c ∷ s) = digits_from bound (some 0) (c ∷ s)

-- `strconv.ParseUint(s, 10, 64)`
unfoldable pub parse_uint : Text → Option ℕ
unfolding parse_below
parse_uint s = parse_below word_size s

negated : Option ℕ → Option ℕ
negated none = none
negated (some zero) = some zero
negated (some (suc n)) = some (word_size - suc n)

-- `strconv.ParseInt(s, 10, 64)`, and `strconv.Atoi` where an `int` has 64 bits.
unfoldable pub parse_int : Text → Option ℕ
unfolding parse_below negated
parse_int [] = none
parse_int (c ∷ s) =
    if c == 43
    then parse_below (2 ^ 63) s
    else if c == 45
    then negated (parse_below (2 ^ 63 + 1) s)
    else parse_below (2 ^ 63) (c ∷ s)

-- `w < 1` for a word that is read as a signed number.
abbrev pub not_positive : ℕ → Bool
not_positive w = w == 0 || leb (2 ^ 63) w

digits_from-below :
    (bound value : ℕ) (s : Text) (n : ℕ)
    → value < bound
    → digits_from bound (some value) s ≡ some n
    → n < bound
unfolding digits_from
digits_from-below bound value [] n small e = ground arith
digits_from-below bound value (c ∷ s) n small e = elim (Option-cases (push_digit bound value c)) [
  | inl failed ↦ absurd (ground (arith, failed))
  | inr (next, pushed) ↦
      let bounded : next < bound = ground arith in
      digits_from-below bound next s n bounded (rw (digits_from, pushed) at e)
]

pub parse_below-below :
    (bound : ℕ) (s : Text) (n : ℕ) → 0 < bound → parse_below bound s ≡ some n → n < bound
unfolding parse_below
parse_below-below bound [] n some_fit e = cc
parse_below-below bound (c ∷ s) n some_fit e = digits_from-below bound 0 (c ∷ s) n some_fit e

-- `strconv.FormatUint(n, 10)` for at most as many digits as the fuel.
decimal : ℕ → ℕ → Text
decimal zero n = []
decimal (suc fuel) n =
    let leading = decimal fuel (n / 10) in
    if ltb n 10 then (48 + n) ∷ [] else leading ++ ((48 + n % 10) ∷ [])

-- `strconv.FormatUint(n, 10)` below 2 ^ 64, which is below 10 ^ 20.
unfoldable pub format_uint : ℕ → Text
unfolding decimal
format_uint n = decimal 20 n

digits_from-none : (bound : ℕ) (s : Text) → digits_from bound none s ≡ none
unfolding digits_from
digits_from-none bound s = refl

digits_from-append :
    (bound : ℕ) (found : Option ℕ) (s t : Text)
    → digits_from bound found (s ++ t) ≡ digits_from bound (digits_from bound found s) t
unfolding digits_from
digits_from-append bound none s t = refl
digits_from-append bound (some value) [] t = refl
digits_from-append bound (some value) (c ∷ s) t =
    digits_from-append bound (push_digit bound value c) s t

push_digit-digit :
    (bound value d : ℕ)
    → d < 10
    → value * 10 + d < bound
    → push_digit bound value (48 + d) ≡ some (value * 10 + d)
unfolding push_digit
push_digit-digit bound value d small fits = ground arith

div_lt : (n m : ℕ) → n < 10 * m → n / 10 < m
div_lt n m h = omega arith

push_one :
    (bound value d n : ℕ)
    → d < 10
    → n ≡ value * 10 + d
    → n < bound
    → digits_from bound (some value) ((48 + d) ∷ []) ≡ some n
unfolding digits_from
push_one bound value d n digit split small =
    let pushed : push_digit bound value (48 + d) ≡ some (value * 10 + d) =
      push_digit-digit bound value d digit (omega (arith, split)) in
    ap (λ o. digits_from bound o []) pushed ∙ ap (λ k. some k) (sym split)

digits_from-decimal :
    (bound fuel n : ℕ)
    → n < 10 ^ suc fuel
    → n < bound
    → digits_from bound (some 0) (decimal (suc fuel) n) ≡ some n
unfolding decimal
digits_from-decimal bound zero n fits small =
    let one : ltb n 10 ≡ true = ground arith in
    rw one (push_one bound 0 n n (omega arith) (omega arith) small)
digits_from-decimal bound (suc fuel) n fits small = elim (Bool-cases (ltb n 10)) [
  | inl one ↦ rw one (push_one bound 0 n n (ground arith) (omega arith) small)
  | inr more ↦
      let fewer : n / 10 < 10 ^ suc fuel =
        div_lt n (10 ^ suc fuel) (subst (λ m. n < m) (pow_step 10 (suc fuel)) fits) in
      rw more (
        digits_from-append bound (some 0) (decimal (suc fuel) (n / 10)) _
        ∙ ap (λ o. digits_from bound o ((48 + n % 10) ∷ []))
            (digits_from-decimal bound fuel (n / 10) fewer (omega arith))
        ∙ push_one bound (n / 10) (n % 10) n (omega arith) (omega arith) small)
]

null-append : (s t : Text) → null t ≡ false → null (s ++ t) ≡ false
null-append [] t h = h
null-append (c ∷ s) t h = refl

decimal-not_empty : (fuel n : ℕ) → null (decimal (suc fuel) n) ≡ false
unfolding decimal
decimal-not_empty fuel n = elim (Bool-cases (ltb n 10)) [
  | inl one ↦ rw one refl
  | inr more ↦ rw more (null-append (decimal fuel (n / 10)) ((48 + n % 10) ∷ []) refl)
]

parse_below-not_empty :
    (bound : ℕ) (s : Text) → null s ≡ false → parse_below bound s ≡ digits_from bound (some 0) s
unfolding parse_below
parse_below-not_empty bound [] h = cc
parse_below-not_empty bound (c ∷ s) h = refl

-- A number below the bound is read back as it was printed.
pub parse_below-format_uint :
    (bound n : ℕ) → n < 2 ^ 64 → n < bound → parse_below bound (format_uint n) ≡ some n
unfolding format_uint
parse_below-format_uint bound n word small =
    parse_below-not_empty bound (decimal 20 n) (decimal-not_empty 19 n)
    ∙ digits_from-decimal bound 19 n (omega arith) small

pub parse_uint-format_uint : (n : ℕ) → n < 2 ^ 64 → parse_uint (format_uint n) ≡ some n
unfolding parse_uint
parse_uint-format_uint n word = parse_below-format_uint word_size n word word

reads_largest : parse_uint (codes "18446744073709551615") ≡ some (word_size - 1)
unfolding parse_uint
reads_largest = refl

refuses_overflow : parse_uint (codes "18446744073709551616") ≡ none
unfolding parse_uint
refuses_overflow = refl

reads_negative : parse_int (codes "-1") ≡ some (word_size - 1)
unfolding parse_int
reads_negative = refl
