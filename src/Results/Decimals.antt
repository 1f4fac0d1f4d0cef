-- ===== src/Results/Decimals.antt =====
-- Numbers that internal/runner/docker.go prints are read back by internal/results/store.go.
use Prim.Native.Char.{Char, code}
use odyssey_core_agent.Prelude.{
  ℕ, zero, suc, ◌+◌, ◌-◌, ◌*◌, ◌/◌, ◌%◌, ◌^◌, ◌≤◌, ◌<◌, String, true, false, Bool-cases, some, ℤ,
  pos, negsuc, ◌≡◌, ◌≢◌, refl, sym, ◌∙◌, ap, inl, inr, leb, nat_eq, nat_eq_iff, arith,
}
use odyssey_core_agent.Prelude.Error.{ok}
use odyssey_core_agent.Prelude.Decimal.{digit, digits, format_nat, format_int}
use odyssey_core_agent.Domain.Duration.{neg}
use odyssey_core_agent.Results.Numbers.{parse_digits, parse_natural, in_range, parse_int}

code-digit : (n : ℕ) → n < 10 → code (digit n) ≡ b'0' + n
unfolding digit
code-digit zero h = refl
code-digit (suc zero) h = refl
code-digit (suc (suc zero)) h = refl
code-digit (suc (suc (suc zero))) h = refl
code-digit (suc (suc (suc (suc zero)))) h = refl
code-digit (suc (suc (suc (suc (suc zero))))) h = refl
code-digit (suc (suc (suc (suc (suc (suc zero)))))) h = refl
code-digit (suc (suc (suc (suc (suc (suc (suc zero))))))) h = refl
code-digit (suc (suc (suc (suc (suc (suc (suc (suc zero)))))))) h = refl
code-digit (suc (suc (suc (suc (suc (suc (suc (suc (suc zero))))))))) h = refl
code-digit (suc (suc (suc (suc (suc (suc (suc (suc (suc (suc n)))))))))) h = absurd (omega arith)

parse_digits-digit :
    (n d : ℕ) (s : String)
    → d < 10
    → parse_digits n (String.◌∷◌ (digit d) s) ≡ parse_digits (10 * n + d) s
unfolding parse_digits
parse_digits-digit n d s h =
    let value : code (digit d) ≡ b'0' + d = code-digit d h in
    let low : leb b'0' (b'0' + d) ≡ true = ground arith in
    let high : leb (b'0' + d) b'9' ≡ true = ground arith in
    let same : b'0' + d - b'0' ≡ d = omega arith in rw (value, low, high, same) refl

fewer : (n fuel : ℕ) → n < suc fuel → nat_eq (n / 10) 0 ≡ false → n / 10 < fuel
fewer n fuel h e =
    let some_left : n / 10 ≢ 0 = λ k. (let zero_left = (nat_eq_iff (n / 10) 0).1 k in cc) in
    omega arith

parse_digits-digits :
    (fuel n : ℕ) (rest : String)
    → n < fuel
    → parse_digits 0 (digits fuel n rest) ≡ parse_digits n rest
unfolding digits
parse_digits-digits zero n rest h = absurd (omega arith)
parse_digits-digits (suc fuel) n rest h =
    let last : n % 10 < 10 = omega arith in
    elim (Bool-cases (nat_eq (n / 10) 0)) [
      | inl e ↦
          let none_left : n / 10 ≡ 0 = (nat_eq_iff (n / 10) 0).0 e in
          let whole : 10 * 0 + n % 10 ≡ n = omega arith in
          rw (e, digits)
            (parse_digits-digit 0 (n % 10) rest last ∙ ap (λ m. parse_digits m rest) whole)
      | inr e ↦
          let less : n / 10 < fuel = fewer n fuel h e in
          let whole : 10 * (n / 10) + n % 10 ≡ n = omega arith in
          rw (e, digits)
            (parse_digits-digits fuel (n / 10) _ less
              ∙ parse_digits-digit (n / 10) (n % 10) rest last
              ∙ ap (λ m. parse_digits m rest) whole)
    ]

-- A printed number begins with a digit.
first_digit :
    (fuel n : ℕ) (rest : String)
    → n < fuel
    → (d : ℕ) × (s : String) × (d < 10) × (digits fuel n rest ≡ String.◌∷◌ (digit d) s)
unfolding digits
first_digit zero n rest h = absurd (omega arith)
first_digit (suc fuel) n rest h = elim (Bool-cases (nat_eq (n / 10) 0)) [
  | inl e ↦ let last : n % 10 < 10 = omega arith in (n % 10, rest, last, rw (e, digits) refl)
  | inr e ↦
      let less : n / 10 < fuel = fewer n fuel h e in
      rw (e, digits) (first_digit fuel (n / 10) _ less)
]

parse_natural-cons :
    (c : Char) (s : String) → parse_natural (String.◌∷◌ c s) ≡ parse_digits 0 (String.◌∷◌ c s)
unfolding parse_natural
parse_natural-cons c s = refl

parse_digits-nil : (n : ℕ) → parse_digits n "" ≡ some n
unfolding parse_digits
parse_digits-nil n = refl

first_digit-format_nat :
    (n : ℕ) → (d : ℕ) × (s : String) × (d < 10) × (format_nat n ≡ String.◌∷◌ (digit d) s)
unfolding format_nat
first_digit-format_nat n = let enough : n < suc n = omega arith in first_digit (suc n) n "" enough

parse_natural-format_nat : (n : ℕ) → parse_natural (format_nat n) ≡ some n
unfolding format_nat
parse_natural-format_nat n =
    let enough : n < suc n = omega arith in
    let (d, s, small, e) = first_digit (suc n) n "" enough in
    ap parse_natural e
    ∙ parse_natural-cons (digit d) s
    ∙ ap (parse_digits 0) (sym e)
    ∙ parse_digits-digits (suc n) n "" enough
    ∙ parse_digits-nil n

parse_int-digit :
    (d : ℕ) (s : String)
    → d < 10
    → parse_int (String.◌∷◌ (digit d) s)
      ≡ in_range pos (2 ^ 63 - 1) (parse_natural (String.◌∷◌ (digit d) s))
unfolding parse_int
parse_int-digit d s h =
    let value : code (digit d) ≡ b'0' + d = code-digit d h in
    let no_minus : nat_eq (code (digit d)) b'-' ≡ false = ground (arith, value) in
    let no_plus : nat_eq (code (digit d)) b'+' ≡ false = ground (arith, value) in
    rw (no_minus, no_plus) refl

in_range-some :
    (sign : ℕ → ℤ) (limit n : ℕ) → n ≤ limit → in_range sign limit (some n) ≡ ok (sign n)
unfolding in_range
in_range-some sign limit n h = let fits : leb n limit ≡ true = ground arith in rw fits refl

parse_int-format_nat : (n : ℕ) → n < 2 ^ 63 → parse_int (format_nat n) ≡ ok (pos n)
parse_int-format_nat n h =
    let (d, s, small, e) = first_digit-format_nat n in
    ap parse_int e
    ∙ parse_int-digit d s small
    ∙ ap (λ t. in_range pos (2 ^ 63 - 1) (parse_natural t)) (sym e)
    ∙ ap (in_range pos (2 ^ 63 - 1)) (parse_natural-format_nat n)
    ∙ in_range-some pos (2 ^ 63 - 1) n (omega arith)

parse_int-minus :
    (s : String) → parse_int (String.◌∷◌ "-" s) ≡ in_range neg (2 ^ 63) (parse_natural s)
unfolding parse_int
parse_int-minus s = refl

-- The numbers of an int64.
abbrev pub Fits64 : ℤ → Type 0
Fits64 (pos n) = n < 2 ^ 63
Fits64 (negsuc n) = n < 2 ^ 63

pub parse_int-format_int : (n : ℤ) → Fits64 n → parse_int (format_int n) ≡ ok n
unfolding format_int
parse_int-format_int (pos n) h = parse_int-format_nat n h
parse_int-format_int (negsuc n) h =
    parse_int-minus (format_nat (suc n))
    ∙ ap (in_range neg (2 ^ 63)) (parse_natural-format_nat (suc n))
    ∙ in_range-some neg (2 ^ 63) (suc n) (omega arith)
