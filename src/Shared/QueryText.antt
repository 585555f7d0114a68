-- ===== src/Shared/QueryText.antt =====
-- The parameters of a list, as texts and read back by src/shared/utils/query.ts.
use advanced_node.Common.{
  String, ◌≡◌, refl, ap, ◌∙◌, Option, none, some, arith, ◌==◌, if◌then◌else◌,
}
use advanced_node.Common.Int.{ℤ, pos, negsuc, ◌≤ℤ◌}
use advanced_node.Shared.Decimal.{text_of, parse_int-text_of}
use advanced_node.Shared.Query.{
  Raw, Defaults, ListQuery, SortOrder, asc, desc, IsClean, or_default, or_number, max_ℤ, min_ℤ,
  trimmed, parse_list_query,
}

abbrev order_text : SortOrder → String
order_text asc = "asc"
order_text desc = "desc"

-- The request that asks for just this.
unfoldable pub raw_of : ListQuery → Raw
unfolding text_of
raw_of q = record {
  page = some (text_of q.page);
  limit = some (text_of q.limit);
  sort_by = q.sort_by;
  sort_order = some (order_text q.sort_order);
  q = q.q;
}

-- A query as a list can serve it: the page and the limit in range, the texts without space at
-- their ends.
pub record IsServable (max : ℤ) (q : ListQuery) : Type 0 where
  pub page : pos 1 ≤ℤ q.page
  pub limit : pos 1 ≤ℤ q.limit
  pub limit_max : q.limit ≤ℤ max
  pub sort_by : IsClean q.sort_by
  pub text : IsClean q.q

or_number-some : (z d : ℤ) → pos 1 ≤ℤ z → or_number (some z) d ≡ z
or_number-some (pos n) d h = ground arith
or_number-some (negsuc n) d h = absurd (omega arith)

max_right : (a b : ℤ) → a ≤ℤ b → max_ℤ a b ≡ b
max_right a b h = ground arith

min_left : (a b : ℤ) → a ≤ℤ b → min_ℤ a b ≡ a
min_left a b h = ground arith

trimmed-IsClean : (o : Option String) → IsClean o → trimmed o ≡ o
trimmed-IsClean none h = refl
trimmed-IsClean (some s) (full, clean) = rw clean (rw full refl)

order-read : (o : SortOrder) → (if order_text o == "asc" then asc else desc) ≡ o
order-read asc = refl
order-read desc = refl

-- A query in range is what `parseListQuery` makes of its own fields, written as parameters.
pub parse_list_query-raw_of :
    (q : ListQuery) (defaults : Defaults)
    → IsServable (or_default defaults.max_limit (pos 100)) q
    → parse_list_query (raw_of q) defaults ≡ q
unfolding parse_list_query raw_of
parse_list_query-raw_of q defaults h =
    let max = or_default defaults.max_limit (pos 100) in
    let number = λ (z d : ℤ) (one : pos 1 ≤ℤ z).
      ap (λ o. or_number o d) (parse_int-text_of z) ∙ or_number-some z d one in
    let page =
      ap (max_ℤ (pos 1)) (number q.page (pos 1) h.page) ∙ max_right (pos 1) q.page h.page in
    let limit =
      ap (λ z. min_ℤ z max)
        (ap (max_ℤ (pos 1)) (number q.limit (pos 20) h.limit) ∙ max_right (pos 1) q.limit h.limit)
      ∙ min_left q.limit max h.limit_max in
    λ i. record {
      page = page i;
      limit = limit i;
      sort_by = trimmed-IsClean q.sort_by h.sort_by i;
      sort_order = order-read q.sort_order i;
      q = trimmed-IsClean q.q h.text i;
    }
