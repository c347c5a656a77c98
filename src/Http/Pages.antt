-- ===== src/Http/Pages.antt =====
-- The pages of a list, as slices of it, and their number.
use rust_api_boilerplate.Prelude.{
  ℕ, ◌+◌, ◌-◌, ◌*◌, ◌/◌, ◌%◌, ◌^◌, ◌≡◌, ◌≤◌, ◌<◌, List, ◌==◌, nat_eq, arith, Bool-cases, inl, inr,
  ◌↔◌, false,
}
use native.Mathlib.Nat.{
  mod-lt, mod-eq_of_lt, div-add-mod', lt-div-mul-add, div-mul-le_self, le-div_iff_mul-le,
  div-lt_iff_lt-mul,
}
use rust_api_boilerplate.Http.Pagination.{
  PaginationParams, page, per_page, offset, div_ceil, new, max_per_page,
}

-- The page is at least 1 and the size of a page is from 1 to 100, whatever is asked for.
pub params_clamped :
    (p : PaginationParams) → (1 ≤ page p) × (1 ≤ per_page p) × (per_page p ≤ max_per_page)
unfolding page per_page
params_clamped p = (omega arith, omega arith, omega arith)

ceil_bounds : (n d : ℕ) → 0 < d → (n ≤ div_ceil n d * d) × (div_ceil n d * d < n + d)
ceil_bounds n d h = elim (Bool-cases (n % d == 0)) [
  | inl z ↦
      let r : n % d ≡ 0 = ground (arith, z) in
      rw z (omega (arith, div-add-mod' n d, r, h), omega (arith, div-add-mod' n d, r, h))
  | inr z ↦
      let r : 0 < n % d = ground (arith, z) in
      rw z (
        omega (arith, div-add-mod' n d, mod-lt n h, r),
        omega (arith, div-add-mod' n d, mod-lt n h, r),
      )
]

-- The number of pages in a response is the least that has a place for every row: the pages hold
-- `total` rows, and with one page less some row has no place.
pub total_pages_least :
    {T : Type 0} (rows : List T) (total : ℕ) (p : PaginationParams)
    → (total ≤ (new rows total p).total_pages * per_page p)
      × ((new rows total p).total_pages * per_page p < total + per_page p)
unfolding new
total_pages_least rows total p =
    let b : 1 ≤ per_page p = (params_clamped p).1 in
    let e : (per_page p == 0) ≡ false = ground (arith, b) in rw e (ceil_bounds total (per_page p) b)

slot_iff : (q k d : ℕ) → 0 < d → ((q * d ≤ k) × (k < q * d + d)) ↔ (q ≡ k / d)
slot_iff q k d h = (
  λ b.
      let low : q ≤ k / d = (le-div_iff_mul-le h).1 b.0 in
      let high : k / d < q + 1 = (div-lt_iff_lt-mul h).1 (omega (arith, b.1)) in
      omega (arith, low, high),
  λ e. rw e (div-mul-le_self k d, lt-div-mul-add h),
)

-- Where the product of `offset` does not overflow, the row at position k of the list stands in the
-- slice of a page exactly if the page is the (k / per_page + 1)-st: so each row stands on one page.
pub row_on_one_page :
    (p : PaginationParams) (k : ℕ)
    → (page p - 1) * per_page p < 2 ^ 64
    → ((offset p ≤ k) × (k < offset p + per_page p)) ↔ (page p ≡ k / per_page p + 1)
unfolding offset
row_on_one_page p k h =
    let b = params_clamped p in
    let e : (page p - 1) * per_page p % 2 ^ 64 ≡ (page p - 1) * per_page p = mod-eq_of_lt h in
    let t = slot_iff (page p - 1) k (per_page p) b.1 in
    rw e (λ r. omega (arith, t.0 r, b.0), λ g. t.1 (omega (arith, g, b.0)))

-- At the page 2^62 + 1, with a size of pages that 4 divides, as the default does, the offset wraps
-- around to 0: the response has the rows of the first page.
pub offset_wraps :
    (p : PaginationParams) (j : ℕ) → page p ≡ 2 ^ 62 + 1 → per_page p ≡ 4 * j → offset p ≡ 0
unfolding offset
offset_wraps p j e s = rw (e, s) (omega arith)
