-- ===== src/Results/Numbers.antt =====
-- `strconv.Atoi` and `strconv.ParseInt(s, 10, 64)`, as internal/results/store.go uses them. The two
-- agree where an int has 64 bits.
use Prim.Native.Char.{code}
use odyssey_core_agent.Prelude.{
  ℕ, ◌+◌, ◌-◌, ◌*◌, ◌^◌, String, ◌&&◌, Option, none, some, ℤ, pos, leb, nat_eq, if◌then◌else◌,
}
use odyssey_core_agent.Prelude.Error.{Error, external, Result, ok, err}
use odyssey_core_agent.Domain.Duration.{neg}

-- The `*strconv.NumError`; a wrong syntax and a value out of range are not told apart.
abbrev pub not_a_number : Error
not_a_number = external "strconv.NumError"

-- The value of the digits, behind those so far.
unfoldable pub parse_digits : ℕ → String → Option ℕ
parse_digits n String.[] = some n
parse_digits n (String.◌∷◌ c s) =
    let rest = parse_digits (10 * n + (code c - b'0')) s in
    if leb b'0' (code c) && leb (code c) b'9' then rest else none

unfoldable pub parse_natural : String → Option ℕ
unfolding parse_digits
parse_natural String.[] = none
parse_natural (String.◌∷◌ c s) = parse_digits 0 (String.◌∷◌ c s)

-- The value, if it fits: the largest magnitude is `limit`.
unfoldable pub in_range : (ℕ → ℤ) → ℕ → Option ℕ → Result ℤ
in_range sign limit none = err not_a_number
in_range sign limit (some n) = if leb n limit then ok (sign n) else err not_a_number

-- An optional sign, then at least one digit.
unfoldable pub parse_int : String → Result ℤ
unfolding parse_natural in_range
parse_int String.[] = err not_a_number
parse_int (String.◌∷◌ c s) =
    if nat_eq (code c) b'-'
    then in_range neg (2 ^ 63) (parse_natural s)
    else if nat_eq (code c) b'+'
    then in_range pos (2 ^ 63 - 1) (parse_natural s)
    else in_range pos (2 ^ 63 - 1) (parse_natural (String.◌∷◌ c s))
