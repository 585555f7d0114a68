-- ===== src/Shared/Query.antt =====
-- src/shared/utils/query.ts. The raw query is the texts of a request's parameters, each of which may
-- be absent; `maxLimit` and the defaults are whole numbers.
use advanced_node.Common.{
  String, ◌≡◌, false, Bool-cases, Option, none, some, ltb, arith, ◌==◌, if◌then◌else◌, inl, inr,
}
use advanced_node.Common.Int.{ℤ, pos, negsuc, ◌≤ℤ◌, leb_ℤ}
use advanced_node.Shared.Decimal.{text_of}
use advanced_node.Shared.Text.{parse_int, trim, trim_idem}

pub record Raw : Type 0 where
  pub page : Option String
  pub limit : Option String
  pub sort_by : Option String
  pub sort_order : Option String
  pub q : Option String

pub record Defaults : Type 0 where
  pub page : Option ℤ
  pub limit : Option ℤ
  pub max_limit : Option ℤ

pub data SortOrder : Type 0 where
  asc desc : SortOrder

pub record ListQuery : Type 0 where
  pub page : ℤ
  pub limit : ℤ
  pub sort_by : Option String
  pub sort_order : SortOrder
  pub q : Option String

abbrev pub or_default : {A : Type 0} → Option A → A → A
or_default none d = d
or_default (some a) d = a

-- `n || d` of what `parseInt` gives: NaN and 0 are false.
abbrev pub or_number : Option ℤ → ℤ → ℤ
or_number none d = d
or_number (some (pos n)) d = if ltb 0 n then pos n else d
or_number (some (negsuc n)) d = negsuc n

-- `parseInt(raw ?? String(fallback), 10)`
abbrev pub parse_or : Option String → ℤ → Option ℤ
parse_or none fallback = parse_int (text_of fallback)
parse_or (some s) fallback = parse_int s

abbrev pub max_ℤ : ℤ → ℤ → ℤ
max_ℤ a b = if leb_ℤ a b then b else a

abbrev pub min_ℤ : ℤ → ℤ → ℤ
min_ℤ a b = if leb_ℤ a b then a else b

abbrev pub non_blank : String → Option String
non_blank s = if s == "" then none else some s

abbrev pub trimmed : Option String → Option String
trimmed none = none
trimmed (some s) = non_blank (trim s)

abbrev pub sort_order_of : Option String → SortOrder
sort_order_of none = desc
sort_order_of (some s) = if s == "asc" then asc else desc

unfoldable pub parse_list_query : Raw → Defaults → ListQuery
parse_list_query raw defaults =
    let requested = or_number (parse_or raw.limit (or_default defaults.limit (pos 20))) (pos 20) in
    record {
      page =
          max_ℤ (pos 1) (or_number (parse_or raw.page (or_default defaults.page (pos 1))) (pos 1));
      limit = min_ℤ (max_ℤ (pos 1) requested) (or_default defaults.max_limit (pos 100));
      sort_by = trimmed raw.sort_by;
      sort_order = sort_order_of raw.sort_order;
      q = trimmed raw.q;
    }

-- Nothing, or a text that is not empty and has no space at its ends.
abbrev pub IsClean : Option String → Type 0
IsClean none = Unit {0}
IsClean (some s) = ((s == "") ≡ false) × (trim s ≡ s)

trimmed-IsClean : (s : Option String) → IsClean (trimmed s)
trimmed-IsClean none = tt
trimmed-IsClean (some s) = elim (Bool-cases (trim s == "")) [
  | inl blank ↦ rw blank tt
  | inr full ↦ rw full (full, trim_idem s)
]

max-bound : (a b : ℤ) → a ≤ℤ max_ℤ a b
max-bound a b = ground arith

min-bounds : (a b c : ℤ) → a ≤ℤ b → a ≤ℤ c → (a ≤ℤ min_ℤ b c) × (min_ℤ b c ≤ℤ c)
min-bounds a b c h k = (ground arith, ground arith)

-- If the maximum for the limit is at least 1, then whatever the parameters hold, the page is at
-- least 1, the limit is between 1 and the maximum, and the sort column and the search text are each
-- absent or a non-empty text without space at either end.
pub parse_list_query-bounds :
    (raw : Raw) (defaults : Defaults)
    → pos 1 ≤ℤ or_default defaults.max_limit (pos 100)
    → (pos 1 ≤ℤ (parse_list_query raw defaults).page)
      × (pos 1 ≤ℤ (parse_list_query raw defaults).limit)
      × ((parse_list_query raw defaults).limit ≤ℤ or_default defaults.max_limit (pos 100))
      × IsClean (parse_list_query raw defaults).sort_by
      × IsClean (parse_list_query raw defaults).q
unfolding parse_list_query
parse_list_query-bounds raw defaults sane =
    let requested = or_number (parse_or raw.limit (or_default defaults.limit (pos 20))) (pos 20) in
    let limits =
      min-bounds (pos 1) (max_ℤ (pos 1) requested) (or_default defaults.max_limit (pos 100))
        (max-bound (pos 1) requested) sane in
    (
      max-bound (pos 1) (or_number (parse_or raw.page (or_default defaults.page (pos 1))) (pos 1)),
      limits.0,
      limits.1,
      trimmed-IsClean raw.sort_by,
      trimmed-IsClean raw.q,
    )
