-- ===== src/Shared/Text.antt =====
-- What the program uses of JavaScript's texts and whole numbers: `trim` and `parseInt(text, 10)`.
use Prim.Native.Char.{Char, code}
use Prim.Native.String.{[], ◌∷◌}
use advanced_node.Common.{
  ℕ, ◌+◌, ◌-◌, ◌*◌, String, ◌≡◌, refl, Bool, false, Bool-cases, ◌&&◌, ◌||◌, Option, none, some, leb,
  nat_eq, if◌then◌else◌, inl, inr, ap, ◌∙◌,
}
use advanced_node.Common.Int.{ℤ, pos, negsuc}

-- White space and line ends.
unfoldable pub is_space : Char → Bool
is_space c =
    let n = code c in
    (leb 9 n && leb n 13)
    || nat_eq n 32
    || nat_eq n 160
    || nat_eq n 5760
    || (leb 8192 n && leb n 8202)
    || nat_eq n 8232
    || nat_eq n 8233
    || nat_eq n 8239
    || nat_eq n 8287
    || nat_eq n 12288
    || nat_eq n 65279

unfoldable pub skip_space : String → String
skip_space [] = ""
skip_space (c ∷ s) = let rest = skip_space s in if is_space c then rest else c ∷ s

-- A space goes if nothing is left behind it.
abbrev put : Char → String → String
put c [] = if is_space c then "" else c ∷ ""
put c (d ∷ s) = c ∷ (d ∷ s)

unfoldable pub drop_space : String → String
drop_space [] = ""
drop_space (c ∷ s) = put c (drop_space s)

unfoldable pub trim : String → String
unfolding skip_space drop_space
trim s = drop_space (skip_space s)

abbrev pub is_digit : Char → Bool
is_digit c = leb 48 (code c) && leb (code c) 57

-- The value of the digits in front.
unfoldable pub digits : ℕ → String → ℕ
digits n [] = n
digits n (c ∷ s) = let rest = digits (n * 10 + (code c - 48)) s in if is_digit c then rest else n

-- Nothing, for NaN, if there is no digit in front.
abbrev unsigned : String → Option ℕ
unsigned [] = none
unsigned (c ∷ s) = if is_digit c then some (digits 0 (c ∷ s)) else none

abbrev negative : Option ℕ → Option ℤ
negative none = none
negative (some n) = some (if nat_eq n 0 then pos 0 else negsuc (n - 1))

abbrev positive : Option ℕ → Option ℤ
positive none = none
positive (some n) = some (pos n)

abbrev signed : String → Option ℤ
signed [] = none
signed (c ∷ s) =
    if nat_eq (code c) 45
    then negative (unsigned s)
    else (if nat_eq (code c) 43 then positive (unsigned s) else positive (unsigned (c ∷ s)))

-- Values past 2 ^ 53, which a JavaScript number rounds, are exact here.
unfoldable pub parse_int : String → Option ℤ
unfolding skip_space digits
parse_int s = signed (skip_space s)

put-drop_space : (c : Char) (t : String) → drop_space t ≡ t → drop_space (put c t) ≡ put c t
unfolding drop_space
put-drop_space c [] h = elim (Bool-cases (is_space c)) [
  | inl space ↦ rw space refl
  | inr other ↦ rw other (rw other refl)
]
put-drop_space c (d ∷ s) h = ap (put c) h

drop_space_idem : (s : String) → drop_space (drop_space s) ≡ drop_space s
unfolding drop_space
drop_space_idem [] = refl
drop_space_idem (c ∷ s) = put-drop_space c (drop_space s) (drop_space_idem s)

skip-put : (c : Char) (t : String) → is_space c ≡ false → skip_space (put c t) ≡ put c t
unfolding skip_space
skip-put c [] other = rw other (rw other refl)
skip-put c (d ∷ s) other = rw other refl

skip_trimmed : (s : String) → skip_space (drop_space (skip_space s)) ≡ drop_space (skip_space s)
unfolding skip_space drop_space
skip_trimmed [] = refl
skip_trimmed (c ∷ s) = elim (Bool-cases (is_space c)) [
  | inl space ↦ rw space (skip_trimmed s)
  | inr other ↦ rw other (skip-put c (drop_space s) other)
]

-- A trimmed text has nothing to trim.
pub trim_idem : (s : String) → trim (trim s) ≡ trim s
unfolding trim
trim_idem s = ap drop_space (skip_trimmed s) ∙ drop_space_idem (skip_space s)
