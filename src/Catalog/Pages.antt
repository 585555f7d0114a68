-- ===== src/Catalog/Pages.antt =====
-- The numbers of a page of products.
use native.Mathlib.Nat.{mod-lt, div-add-mod', mul-le-mul_right, suc-mul}
use advanced_node.Common.{
  ℕ, zero, suc, ◌+◌, ◌-◌, ◌*◌, ◌≤◌, ◌<◌, ◌≡◌, ◌↔◌, sym, ap, ◌∙◌, true, ltb, leb, Bool-cases, inl,
  inr, arith,
}
use advanced_node.Catalog.Tables.{ProductQuery}
use advanced_node.Catalog.Products.{meta_of, ceil_div, skip_of}

-- The number of pages is the least that holds the rows.
ceil_div-bounds : (n d : ℕ) → 0 < d → (n ≤ ceil_div n d * d) × (ceil_div n d * d < n + d)
ceil_div-bounds n d positive =
    let m = n + (d - 1) in
    (
      omega (arith, div-add-mod' m d, mod-lt m {m = d} positive),
      omega (arith, div-add-mod' m d, mod-lt m {m = d} positive),
    )

next_iff :
    (page pages limit total : ℕ)
    → total ≤ pages * limit
    → pages * limit < total + limit
    → (ltb (page * limit) total ≡ true) ↔ (page < pages)
next_iff page pages limit total enough least = (
  λ more. elim (Bool-cases (leb pages page)) [
    | inl past ↦
        let beyond : pages ≤ page = ground arith in
        absurd (ground (arith, mul-le-mul_right {m = pages} {n = page} limit beyond))
    | inr before ↦ ground arith
  ],
  λ before.
      let rows : suc page * limit ≤ pages * limit =
        mul-le-mul_right {m = suc page} {n = pages} limit before in
      ground (arith, suc-mul page limit),
)

skipped : (page limit : ℕ) → 0 < page → (page - 1) * limit + limit ≡ page * limit
skipped zero limit h = absurd (omega (arith, h))
skipped (suc k) limit h =
    let less : suc k - 1 ≡ k = omega arith in
    ap (λ x. x * limit + limit) less ∙ sym (suc-mul k limit)

-- The pages hold all rows and none is empty; there is a next page exactly when this one is not the
-- last or beyond; the rows skipped are those of the pages before.
pub meta_of-pages :
    (q : ProductQuery) (total : ℕ)
    → 0 < q.limit
    → 0 < q.page
    → (total ≤ (meta_of q total).total_pages * q.limit)
      × ((meta_of q total).total_pages * q.limit < total + q.limit)
      × (((meta_of q total).has_next ≡ true) ↔ (q.page < (meta_of q total).total_pages))
      × (skip_of q + q.limit ≡ q.page * q.limit)
unfolding meta_of
meta_of-pages q total limited paged =
    let (enough, least) = ceil_div-bounds total q.limit limited in
    (
      enough,
      least,
      next_iff q.page (ceil_div total q.limit) q.limit total enough least,
      skipped q.page q.limit paged,
    )
