-- ===== src/Common/Decimal.antt =====
-- Decimal numerals: fmt's %d, strconv.Itoa, and strconv.ParseInt(s, 10, 64), which is also
-- strconv.Atoi where int has 64 bits.
use Prim.Native.Nat.{ℕ, zero, suc, ◌+◌, ◌-◌, ◌*◌, ◌/◌, ◌%◌, ◌^◌, ◌<◌}
use mathlib.Core.Path.{◌≡◌, refl}
use mathlib.Core.Bool.{Bool, true, false, ◌&&◌}
use mathlib.Core.Logic.{inl, inr}
use mathlib.Core.Option.{Option, none, some}
use mathlib.Core.List.{[], ◌∷◌, ◌++◌}
use native.Mathlib.Omega.{arith}
use cmgr.Common.Tests.{ltb, leb, ◌==◌, if◌then◌else◌, Bool-cases}
use cmgr.Common.Texts.{Text, is_empty}
use cmgr.Common.Lists.{all}
use cmgr.Common.Int.{ℤ, pos, negsuc, int64_in_range}

abbrev pub is_digit : ℕ → Bool
is_digit c = leb 48 c && leb c 57

-- The digits of `n`, at most `fuel` of them; `n + 1` is always enough.
pub digits_fuel : ℕ → ℕ → Text
digits_fuel zero n = []
digits_fuel (suc f) n =
    let more = digits_fuel f (n / 10) ++ (48 + n % 10) ∷ [] in
    if ltb n 10 then (48 + n) ∷ [] else more

unfoldable pub decimal : ℕ → Text
unfolding digits_fuel
decimal n = digits_fuel (suc n) n

unfoldable pub itoa : ℤ → Text
unfolding decimal
itoa (pos n) = decimal n
itoa (negsuc n) = 45 ∷ decimal (suc n)

unfoldable pub parse_digits : ℕ → Text → Option ℕ
parse_digits acc [] = some acc
parse_digits acc (c ∷ s) =
    let rest = parse_digits (acc * 10 + (c - 48)) s in if is_digit c then rest else none

-- At least one digit, and nothing else.
unfoldable pub parse_nat : Text → Option ℕ
unfolding parse_digits
parse_nat s = if is_empty s then none else parse_digits 0 s

abbrev pub negate : ℕ → ℤ
negate zero = pos 0
negate (suc n) = negsuc n

abbrev pub in_int64 : ℤ → Option ℤ
in_int64 z = if int64_in_range z then some z else none

abbrev pub parse_signed : ℕ → Text → Option ℤ
parse_signed c s =
    if c == 45
    then elim (parse_nat s) [ none ↦ none | some n ↦ in_int64 (negate n) ]
    else if c == 43
    then elim (parse_nat s) [ none ↦ none | some n ↦ in_int64 (pos n) ]
    else elim (parse_nat (c ∷ s)) [ none ↦ none | some n ↦ in_int64 (pos n) ]

unfoldable pub parse_int : Text → Option ℤ
unfolding parse_nat
parse_int [] = none
parse_int (c ∷ s) = parse_signed c s

parse_digits-append_digit :
    (acc : ℕ) (s : Text) (d : ℕ) {n : ℕ}
    → parse_digits acc s ≡ some n
    → d < 10
    → parse_digits acc (s ++ (48 + d) ∷ []) ≡ some (n * 10 + d)
unfolding parse_digits
parse_digits-append_digit acc [] d h lt = ground arith
parse_digits-append_digit acc (c ∷ s) d {n} h lt =
    ground (arith, parse_digits-append_digit (acc * 10 + (c - 48)) s d {n = n})

parse_digits-digits_fuel : (f n : ℕ) → n < f → parse_digits 0 (digits_fuel f n) ≡ some n
unfolding digits_fuel
parse_digits-digits_fuel zero n h = absurd (omega arith)
parse_digits-digits_fuel (suc f) n h = elim (Bool-cases (ltb n 10)) [
  | inl small ↦ rw small (unfold parse_digits in ground arith)
  | inr large ↦ rw large (
      ground (
        arith,
        parse_digits-append_digit 0 (digits_fuel f (n / 10)) (n % 10) {n = n / 10},
        parse_digits-digits_fuel f (n / 10),
      ))
]

all-append_one :
    (s : Text) (c : ℕ)
    → all is_digit s ≡ true
    → is_digit c ≡ true
    → all is_digit (s ++ c ∷ []) ≡ true
all-append_one [] c h k = ground arith
all-append_one (x ∷ s) c h k = ground (arith, all-append_one s c)

all-digits_fuel : (f n : ℕ) → all is_digit (digits_fuel f n) ≡ true
unfolding digits_fuel
all-digits_fuel zero n = refl
all-digits_fuel (suc f) n = elim (Bool-cases (ltb n 10)) [
  | inl small ↦ rw small (ground arith)
  | inr large ↦ rw large (
      all-append_one (digits_fuel f (n / 10)) (48 + n % 10) (all-digits_fuel f (n / 10))
        (ground arith))
]

-- A numeral is not empty, and holds digits alone.
pub all-decimal : (n : ℕ) → all is_digit (decimal n) ≡ true
unfolding decimal
all-decimal n = all-digits_fuel (suc n) n

pub parse_digits-decimal : (n : ℕ) → parse_digits 0 (decimal n) ≡ some n
unfolding decimal
parse_digits-decimal n = parse_digits-digits_fuel (suc n) n (omega arith)

is_empty-digits_fuel : (f n : ℕ) → is_empty (digits_fuel (suc f) n) ≡ false
unfolding digits_fuel
is_empty-digits_fuel f n = elim (Bool-cases (ltb n 10)) [
  | inl small ↦ rw small
  | inr large ↦ rw large (is_empty-append_one (digits_fuel f (n / 10)) (48 + n % 10))
]
  where
    is_empty-append_one : (s : Text) (c : ℕ) → is_empty (s ++ c ∷ []) ≡ false
    is_empty-append_one [] c = refl
    is_empty-append_one (x ∷ s) c = refl

pub is_empty-decimal : (n : ℕ) → is_empty (decimal n) ≡ false
unfolding decimal
is_empty-decimal n = is_empty-digits_fuel n n

pub parse_nat-decimal : (n : ℕ) → parse_nat (decimal n) ≡ some n
unfolding parse_nat
parse_nat-decimal n = rw (is_empty-decimal n) (parse_digits-decimal n)

-- A text of digits is read as the number that it denotes, if that fits.
parse_int_of_digits :
    (t : Text) {n : ℕ}
    → all is_digit t ≡ true
    → parse_nat t ≡ some n
    → n < 2 ^ 63
    → parse_int t ≡ some (pos n)
unfolding parse_int
parse_int_of_digits [] d h lt = unfold parse_nat in cc
parse_int_of_digits (c ∷ s) d h lt = ground arith

pub parse_int-decimal : (n : ℕ) → n < 2 ^ 63 → parse_int (decimal n) ≡ some (pos n)
parse_int-decimal n h = parse_int_of_digits (decimal n) (all-decimal n) (parse_nat-decimal n) h
