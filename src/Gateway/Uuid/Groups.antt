-- ===== src/Gateway/Uuid/Groups.antt =====
-- What the pattern of `isValidUUID` accepts, said without it.
use Prim.Native.Char.{Char, code}
use Prim.Native.String.{String, [], ◌∷◌}
use text.Mathlib.TextEquality.{Char-path}
use advanced_node.Common.{
  ℕ, zero, suc, ◌≤◌, ◌≡◌, ◌↔◌, ◌⊎◌, refl, ap, ◌∙◌, true, Bool-cases, Option, none, some, inl, inr,
  arith, nat_eq,
}
use advanced_node.Common.{prefixed}
use advanced_node.Gateway.Uuid.{
  is_hex, after_hex, after_dash, then_hex, at_end, is_valid_uuid, within,
}

-- A digit, or a letter from a to f, small or capital.
abbrev pub IsHexDigit : Char → Type 0
IsHexDigit c =
    ((48 ≤ code c) × (code c ≤ 57))
    ⊎ ((97 ≤ code c) × (code c ≤ 102))
    ⊎ ((65 ≤ code c) × (code c ≤ 70))

-- A text of so many such characters.
abbrev pub HexDigits : ℕ → String → Type 0
HexDigits zero [] = Unit
HexDigits zero (c ∷ s) = ⊥
HexDigits (suc n) [] = ⊥
HexDigits (suc n) (c ∷ s) = IsHexDigit c × HexDigits n s

abbrev pub dash : Char
dash = "-"

-- Groups of 8, 4, 4, 4 and 12 hexadecimal digits, joined by dashes.
pub record IsUuid (s : String) : Type 0 where
  pub time_low : String
  pub time_mid : String
  pub time_high : String
  pub clock : String
  pub node : String
  pub digits :
      HexDigits 8 time_low
      × HexDigits 4 time_mid
      × HexDigits 4 time_high
      × HexDigits 4 clock
      × HexDigits 12 node
  pub joined :
      s
      ≡ prefixed time_low (
          dash
          ∷ prefixed time_mid
              (dash ∷ prefixed time_high (dash ∷ prefixed clock (dash ∷ prefixed node []))))

is_hex_iff : (c : Char) → (is_hex c ≡ true) ↔ IsHexDigit c
is_hex_iff c = (digit, hex)
  where
    digit : is_hex c ≡ true → IsHexDigit c
    digit h = elim (Bool-cases (within 48 57 (code c))) [
      | inl d ↦ inl (ground arith)
      | inr other ↦ elim (Bool-cases (within 97 102 (code c))) [
        | inl low ↦ inr (inl (ground arith))
        | inr capital ↦ inr (inr (ground arith))
      ]
    ]

    hex : IsHexDigit c → is_hex c ≡ true
    hex h = ground arith

after_hex-prefixed : (n : ℕ) (a r : String) → HexDigits n a → after_hex n (prefixed a r) ≡ some r
unfolding after_hex
after_hex-prefixed zero [] r h = refl
after_hex-prefixed zero (c ∷ a) r h = absurd h
after_hex-prefixed (suc n) [] r h = absurd h
after_hex-prefixed (suc n) (c ∷ a) r (digit, h) =
    rw ((is_hex_iff c).1 digit) (after_hex-prefixed n a r h)

prefixed-after_hex :
    (n : ℕ) (s r : String)
    → after_hex n s ≡ some r
    → (a : String) × HexDigits n a × (s ≡ prefixed a r)
unfolding after_hex
prefixed-after_hex zero s r h = ([], tt, cc)
prefixed-after_hex (suc n) [] r h = absurd (cc)
prefixed-after_hex (suc n) (c ∷ s) r h = elim (Bool-cases (is_hex c)) [
  | inl digit ↦
      let (a, hex, e) = prefixed-after_hex n s r (rw digit at h) in
      (c ∷ a, ((is_hex_iff c).0 digit, hex), ap (λ t. c ∷ t) e)
  | inr other ↦ let clash : none ≡ some r = rw other at h in absurd (cc)
]

after_dash_inv : (o : Option String) (r : String) → after_dash o ≡ some r → o ≡ some (dash ∷ r)
after_dash_inv none r h = absurd (cc)
after_dash_inv (some []) r h = absurd (cc)
after_dash_inv (some (c ∷ s)) r h = elim (Bool-cases (nat_eq (code c) 45)) [
  | inl same ↦
      let rest : s ≡ r = cc (rw same at h) in
      let is_dash : c ≡ dash = Char-path c dash (ground arith) in
      ap some (ap (λ d. d ∷ s) is_dash ∙ ap (λ t. dash ∷ t) rest)
  | inr other ↦ let clash : none ≡ some r = rw other at h in absurd (cc)
]

then_hex_inv :
    (n : ℕ) (o : Option String) (r : String)
    → then_hex n o ≡ some r
    → (a : String) × HexDigits n a × (o ≡ some (prefixed a r))
then_hex_inv n none r h = absurd (cc)
then_hex_inv n (some s) r h = let (a, hex, e) = prefixed-after_hex n s r h in (a, hex, ap some e)

at_end_inv : (o : Option String) → at_end o ≡ true → o ≡ some []
at_end_inv none h = absurd (cc)
at_end_inv (some []) h = refl
at_end_inv (some (c ∷ s)) h = absurd (cc)

valid-IsUuid : (s : String) → is_valid_uuid s ≡ true → IsUuid s
unfolding is_valid_uuid
valid-IsUuid s h =
    let (e, he, r4) = then_hex_inv 12 _ [] (at_end_inv _ h) in
    let (d, hd, r3) = then_hex_inv 4 _ (dash ∷ prefixed e []) (after_dash_inv _ _ r4) in
    let (c, hc, r2) =
      then_hex_inv 4 _ (dash ∷ prefixed d (dash ∷ prefixed e [])) (after_dash_inv _ _ r3) in
    let (b, hb, r1) =
      then_hex_inv 4 _ (dash ∷ prefixed c (dash ∷ prefixed d (dash ∷ prefixed e [])))
        (after_dash_inv _ _ r2) in
    let (a, ha, r0) = prefixed-after_hex 8 s _ (after_dash_inv _ _ r1) in
    record {
      time_low = a;
      time_mid = b;
      time_high = c;
      clock = d;
      node = e;
      digits = (ha, hb, hc, hd, he);
      joined = r0;
    }

IsUuid-valid : (s : String) → IsUuid s → is_valid_uuid s ≡ true
unfolding is_valid_uuid
IsUuid-valid s u =
    let (ha, hb, hc, hd, he) = u.digits in
    rw u.joined (
      rw (after_hex-prefixed 8 u.time_low _ ha) (
        rw (after_hex-prefixed 4 u.time_mid _ hb) (
          rw (after_hex-prefixed 4 u.time_high _ hc) (
            rw (after_hex-prefixed 4 u.clock _ hd)
              (rw (after_hex-prefixed 12 u.node [] he) refl)))))

-- `isValidUUID` accepts exactly the texts of five groups of 8, 4, 4, 4 and 12 hexadecimal digits,
-- small or capital, with one dash between each two and nothing before or after.
pub is_valid_uuid_iff : (s : String) → (is_valid_uuid s ≡ true) ↔ IsUuid s
is_valid_uuid_iff s = (valid-IsUuid s, IsUuid-valid s)
