-- ===== src/Types/Decimal.antt =====
-- Numbers in decimal digits, as `std::to_string` writes them.
use cxsom.Prelude.{ℕ, zero, suc, ◌+◌, ◌/◌, ◌%◌, if◌then◌else◌, ltb, List, [], ◌∷◌}

-- The digits of a number before what follows; an `unsigned int` has ten at most.
unfoldable pub digits : ℕ → ℕ → List ℕ → List ℕ
digits zero n rest = rest
digits (suc f) n rest =
    let more = digits f (n / 10) ((b'0' + n % 10) ∷ rest) in
    if ltb n 10 then (b'0' + n) ∷ rest else more

abbrev pub to_string : ℕ → List ℕ
to_string n = digits 10 n []
