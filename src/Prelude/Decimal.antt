-- ===== src/Prelude/Decimal.antt =====
-- Decimal text: `strconv.Itoa` and `strconv.FormatInt(·, 10)`.
use Prim.Native.Char.{Char}
use odyssey_core_agent.Prelude.{ℕ, zero, suc, ◌/◌, ◌%◌, String, true, false, ℤ, pos, negsuc, nat_eq}

-- The character of a digit below ten.
unfoldable pub digit : ℕ → Char
digit zero = "0"
digit (suc zero) = "1"
digit (suc (suc zero)) = "2"
digit (suc (suc (suc zero))) = "3"
digit (suc (suc (suc (suc zero)))) = "4"
digit (suc (suc (suc (suc (suc zero))))) = "5"
digit (suc (suc (suc (suc (suc (suc zero)))))) = "6"
digit (suc (suc (suc (suc (suc (suc (suc zero))))))) = "7"
digit (suc (suc (suc (suc (suc (suc (suc (suc zero)))))))) = "8"
digit (suc (suc (suc (suc (suc (suc (suc (suc (suc n))))))))) = "9"

-- The digits of `n` in front of `rest`; a fuel above `n` is enough.
unfoldable pub digits : ℕ → ℕ → String → String
unfolding digit
digits zero n rest = rest
digits (suc fuel) n rest = elim (nat_eq (n / 10) 0) [
  | true ↦ String.◌∷◌ (digit (n % 10)) rest
  | false ↦ digits fuel (n / 10) (String.◌∷◌ (digit (n % 10)) rest)
]

unfoldable pub format_nat : ℕ → String
unfolding digits
format_nat n = digits (suc n) n ""

unfoldable pub format_int : ℤ → String
unfolding format_nat
format_int (pos n) = format_nat n
format_int (negsuc n) = String.◌∷◌ "-" (format_nat (suc n))
