-- ===== src/Gateway/Uuid.antt =====
-- `isValidUUID` of src/services/api-gateway/routes/v1: the pattern
-- /^[0-9a-f]{8}-[0-9a-f]{4}-[0-9a-f]{4}-[0-9a-f]{4}-[0-9a-f]{12}$/i, read from left to right.
pub mod Groups
use Prim.Native.Char.{Char, code}
use Prim.Native.String.{String, [], ◌∷◌}
use advanced_node.Common.{
  ℕ, zero, suc, ◌≡◌, ◌↔◌, refl, sym, ap, ◌∙◌, Bool, true, false, Bool-cases, ◌&&◌, ◌||◌, Option,
  none, some, inl, inr, arith, leb, nat_eq, if◌then◌else◌,
}
use advanced_node.Common.{prefixed}

abbrev pub within : ℕ → ℕ → ℕ → Bool
within lo hi c = leb lo c && leb c hi

-- `[0-9a-f]` under the flag `i`.
abbrev pub is_hex : Char → Bool
is_hex c = within 48 57 (code c) || within 97 102 (code c) || within 65 70 (code c)

-- What is left behind so many hexadecimal digits.
unfoldable pub after_hex : ℕ → String → Option String
after_hex zero s = some s
after_hex (suc n) [] = none
after_hex (suc n) (c ∷ s) = let rest = after_hex n s in if is_hex c then rest else none

abbrev pub after_dash : Option String → Option String
after_dash none = none
after_dash (some []) = none
after_dash (some (c ∷ s)) = if nat_eq (code c) 45 then some s else none

abbrev pub then_hex : ℕ → Option String → Option String
then_hex n none = none
then_hex n (some s) = after_hex n s

abbrev pub at_end : Option String → Bool
at_end none = false
at_end (some []) = true
at_end (some (c ∷ s)) = false

unfoldable pub is_valid_uuid : String → Bool
unfolding after_hex
is_valid_uuid s =
    let time_low = after_dash (after_hex 8 s) in
    let time_mid = after_dash (then_hex 4 time_low) in
    let time_high = after_dash (then_hex 4 time_mid) in
    let clock = after_dash (then_hex 4 time_high) in at_end (then_hex 12 clock)
