-- ===== src/Types/Reading.antt =====
-- cxsom/src/cxsomData.hpp: a stream gives back the numbers that `std::to_string` writes.
use cxsom.Prelude.{
  ℕ, zero, suc, ◌+◌, ◌*◌, ◌/◌, ◌%◌, ◌<◌, ◌≡◌, refl, true, false, List, [], ◌∷◌, ◌++◌, arith,
}
use cxsom.Types.{unsigned}
use cxsom.Types.Decimal.{digits}
use cxsom.Types.Grammar.{starts_digit, skip_spaces, sign, scan, convert, extract}

abbrev pow10 : ℕ → ℕ
pow10 zero = 1
pow10 (suc f) = 10 * pow10 f

pub digits-append : (f n : ℕ) (xs ys : List ℕ) → digits f n xs ++ ys ≡ digits f n (xs ++ ys)
unfolding digits
digits-append zero n xs ys = refl
digits-append (suc f) n xs ys = ground (arith, digits-append f (n / 10) ((b'0' + n % 10) ∷ xs) ys)

digits-starts :
    (f n : ℕ) (rest : List ℕ) → n < pow10 (suc f) → starts_digit (digits (suc f) n rest) ≡ true
unfolding digits
digits-starts zero n rest h = ground arith
digits-starts (suc f) n rest h = ground (arith, digits-starts f (n / 10) ((b'0' + n % 10) ∷ rest))

scan-digits :
    (f n : ℕ) (rest : List ℕ) → n < pow10 (suc f) → scan 0 (digits (suc f) n rest) ≡ scan n rest
unfolding scan digits
scan-digits zero n rest h = ground arith
scan-digits (suc f) n rest h = ground (arith, scan-digits f (n / 10) ((b'0' + n % 10) ∷ rest))

scan-stops : (n : ℕ) (rest : List ℕ) → starts_digit rest ≡ false → scan n rest ≡ (n, rest)
unfolding scan
scan-stops n [] h = refl
scan-stops n (c ∷ cs) h = ground arith

skip_spaces-digit : (cs : List ℕ) → starts_digit cs ≡ true → skip_spaces cs ≡ cs
unfolding skip_spaces
skip_spaces-digit [] h = ground arith
skip_spaces-digit (c ∷ cs) h = ground arith

sign-digit : (cs : List ℕ) → starts_digit cs ≡ true → sign cs ≡ (false, cs)
sign-digit [] h = ground arith
sign-digit (c ∷ cs) h = ground arith

pub extract-digits :
    (n : ℕ) (rest : List ℕ)
    → n < unsigned
    → starts_digit rest ≡ false
    → extract (record { rest = digits 10 n rest; failed = false })
      ≡ (n, record { rest = rest; failed = false })
unfolding extract convert
extract-digits n rest h stop = ground (
  arith,
  digits-starts 9 n rest,
  skip_spaces-digit (digits 10 n rest),
  sign-digit (digits 10 n rest),
  scan-digits 9 n rest,
  scan-stops n rest stop,
)
