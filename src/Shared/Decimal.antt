-- ===== src/Shared/Decimal.antt =====
-- `String(n)` and `${n}` of a whole number: its decimal digits, and what `parseInt` makes of them.
use Prim.Native.Char.{Char, code}
use Prim.Native.String.{String, [], ◌∷◌}
use advanced_node.Common.{
  ℕ, zero, suc, ◌+◌, ◌-◌, ◌*◌, ◌/◌, ◌%◌, ◌<◌, ◌≤◌, ◌≡◌, refl, ap, ◌∙◌, true, false, Bool-cases,
  some, inl, inr, arith, tests, ltb, ltb→lt, nat_eq, if◌then◌else◌,
}
use advanced_node.Common.Int.{ℤ, pos, negsuc}
use advanced_node.Shared.Text.{parse_int, digits, is_digit, skip_space, is_space}

abbrev pub digit : ℕ → Char
digit zero = "0"
digit (suc zero) = "1"
digit (suc (suc zero)) = "2"
digit (suc (suc (suc zero))) = "3"
digit (suc (suc (suc (suc zero)))) = "4"
digit (suc (suc (suc (suc (suc zero))))) = "5"
digit (suc (suc (suc (suc (suc (suc zero)))))) = "6"
digit (suc (suc (suc (suc (suc (suc (suc zero))))))) = "7"
digit (suc (suc (suc (suc (suc (suc (suc (suc zero)))))))) = "8"
digit _ = "9"

-- The digits of `n` before a text; `fuel` is more than `n`.
unfoldable pub digits_before : ℕ → ℕ → String → String
digits_before zero n rest = rest
digits_before (suc fuel) n rest =
    let more = digits_before fuel (n / 10) (digit (n % 10) ∷ rest) in
    if ltb n 10 then digit n ∷ rest else more

unfoldable pub decimal : ℕ → String
unfolding digits_before
decimal n = digits_before (suc n) n []

unfoldable pub text_of : ℤ → String
unfolding decimal
text_of (pos n) = decimal n
text_of (negsuc n) = "-" ∷ decimal (suc n)

code-digit : (d : ℕ) → d < 10 → code (digit d) ≡ 48 + d
code-digit zero h = refl
code-digit (suc zero) h = refl
code-digit (suc (suc zero)) h = refl
code-digit (suc (suc (suc zero))) h = refl
code-digit (suc (suc (suc (suc zero)))) h = refl
code-digit (suc (suc (suc (suc (suc zero))))) h = refl
code-digit (suc (suc (suc (suc (suc (suc zero)))))) h = refl
code-digit (suc (suc (suc (suc (suc (suc (suc zero))))))) h = refl
code-digit (suc (suc (suc (suc (suc (suc (suc (suc zero)))))))) h = refl
code-digit (suc (suc (suc (suc (suc (suc (suc (suc (suc zero))))))))) h = refl
code-digit (suc (suc (suc (suc (suc (suc (suc (suc (suc (suc d)))))))))) h = absurd (omega arith)

digits-digit :
    (n d : ℕ) (rest : String) → d < 10 → digits n (digit d ∷ rest) ≡ digits (n * 10 + d) rest
unfolding digits
digits-digit n d rest h =
    let c = code-digit d h in
    let is : is_digit (digit d) ≡ true = ground arith in
    let value : n * 10 + (code (digit d) - 48) ≡ n * 10 + d = omega arith in
    rw is (ap (λ m. digits m rest) value)

digits-digits_before :
    (fuel n : ℕ) (rest : String) → n < fuel → digits 0 (digits_before fuel n rest) ≡ digits n rest
unfolding digits_before
digits-digits_before zero n rest h = absurd (omega arith)
digits-digits_before (suc fuel) n rest h = elim (Bool-cases (ltb n 10)) [
  | inl one ↦ rw one (digits-digit 0 n rest (omega tests) ∙ ap (λ m. digits m rest) (omega arith))
  | inr more ↦
      let big : 10 ≤ n = ground arith in
      rw more (
        digits-digits_before fuel (n / 10) (digit (n % 10) ∷ rest) (omega arith)
        ∙ digits-digit (n / 10) (n % 10) rest (omega arith)
        ∙ ap (λ m. digits m rest) (omega arith))
]

-- A text that begins with a digit.
abbrev StartsWithDigit : String → Type 0
StartsWithDigit [] = ⊥
StartsWithDigit (c ∷ s) = is_digit c ≡ true

digits_before-StartsWithDigit :
    (fuel n : ℕ) (rest : String) → n < fuel → StartsWithDigit (digits_before fuel n rest)
unfolding digits_before
digits_before-StartsWithDigit zero n rest h = absurd (omega arith)
digits_before-StartsWithDigit (suc fuel) n rest h = elim (Bool-cases (ltb n 10)) [
  | inl one ↦ let c = code-digit n (omega tests) in rw one (ground (arith, ltb→lt n 10))
  | inr more ↦
      let big : 10 ≤ n = ground arith in
      rw more (digits_before-StartsWithDigit fuel (n / 10) (digit (n % 10) ∷ rest) (omega arith))
]

no_space : (c : Char) → is_digit c ≡ true → is_space c ≡ false
unfolding is_space
no_space c h = ground arith

parsed_digits :
    (n : ℕ) (s : String) → digits 0 s ≡ n → StartsWithDigit s → parse_int s ≡ some (pos n)
unfolding parse_int skip_space
parsed_digits n [] e h = absurd h
parsed_digits n (c ∷ s) e h =
    let plus : nat_eq (code c) 43 ≡ false = ground arith in
    let minus : nat_eq (code c) 45 ≡ false = ground arith in
    let value = rw h at e in
    rw (no_space c h) (rw minus (rw plus (rw h (ap (λ m. some (pos m)) value))))

parsed_negative :
    (n : ℕ) (s : String)
    → digits 0 s ≡ suc n
    → StartsWithDigit s
    → parse_int ("-" ∷ s) ≡ some (negsuc n)
unfolding parse_int skip_space is_space
parsed_negative n [] e h = absurd h
parsed_negative n (c ∷ s) e h = let value = rw h at e in rw h (rw value (ground arith))

digits-decimal : (n : ℕ) → digits 0 (decimal n) ≡ n
unfolding decimal digits
digits-decimal n = digits-digits_before (suc n) n [] (omega arith)

-- `parseInt` reads a whole number, signed or not, back from its text.
pub parse_int-text_of : (z : ℤ) → parse_int (text_of z) ≡ some z
unfolding text_of decimal
parse_int-text_of (pos n) =
    parsed_digits n (decimal n) (digits-decimal n)
      (digits_before-StartsWithDigit (suc n) n [] (omega arith))
parse_int-text_of (negsuc n) =
    parsed_negative n (decimal (suc n)) (digits-decimal (suc n))
      (digits_before-StartsWithDigit (suc (suc n)) (suc n) [] (omega arith))
