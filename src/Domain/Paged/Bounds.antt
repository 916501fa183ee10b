-- ===== src/Domain/Paged/Bounds.antt =====
-- When a page is cut out of the items, which page it is, and when the request panics.
use authserver_go.Base.{
  ℕ, ◌+◌, ◌-◌, ◌*◌, ◌%◌, ◌^◌, ◌≤◌, ◌<◌, ◌≡◌, refl, sym, ap, ◌∙◌, ◌↔◌, Option, none, some, List, [],
  ◌∷◌, ◌++◌, arith, Bool-cases, inl, inr, ltb, length, take, drop, zero, suc, some_inj,
}
use authserver_go.Base.Int.{pos, negsuc, wrap64}
use authserver_go.Domain.Paged.{
  PagedRequest, PagedResult, normal_page, normal_size, start_of, cut, get_paged, at_most,
}

abbrev pub offset : PagedRequest → ℕ
offset req = (normal_page req.page - 1) * normal_size req.page_size

wrap64_negative : (n : ℕ) → 2 ^ 63 ≤ n % 2 ^ 64 → (k : ℕ) × (wrap64 n ≡ negsuc k)
unfolding wrap64
wrap64_negative n h = (2 ^ 64 - n % 2 ^ 64 - 1, ground arith)

wrap64_small : (n : ℕ) → n % 2 ^ 64 < 2 ^ 63 → wrap64 n ≡ pos (n % 2 ^ 64)
unfolding wrap64
wrap64_small n h = ground arith

wrap64_below : (n : ℕ) → n < 2 ^ 63 → wrap64 n ≡ pos n
unfolding wrap64
wrap64_below n h = ground arith

zero_plus : (n : ℕ) → n ≡ 0 + n
zero_plus n = omega arith

add_suc : (m n : ℕ) → suc (m + n) ≡ suc m + n
add_suc m n = omega arith

zero_times : (n : ℕ) → 0 ≡ 0 * n
zero_times n = omega arith

times_suc : (m n : ℕ) → m * n + n ≡ suc m * n
times_suc m n = grind arith

module _ {T : Type 0} (items : List T) (req : PagedRequest) where
  abbrev page_with : List T → PagedResult T
  page_with page_items = record {
    items = page_items;
    total_count = length items;
    page = normal_page req.page;
    page_size = normal_size req.page_size;
  }

  get_paged-negative : (k : ℕ) → start_of req ≡ negsuc k → get_paged items req ≡ none
  unfolding get_paged cut
  get_paged-negative k e = ground (arith, e)

  get_paged-some :
      (n : ℕ)
      → start_of req ≡ pos n
      → (p : PagedResult T) × (get_paged items req ≡ some p)
        × (cut items (pos n) (normal_size req.page_size) ≡ some p.items)
  unfolding get_paged cut
  get_paged-some n e = (
    page_with (
        take
          (at_most (length items) (at_most (length items) n + normal_size req.page_size)
            - at_most (length items) n)
          (drop (at_most (length items) n) items)),
    rw (e, get_paged, cut) refl,
    refl,
  )

  -- A request for a page panics exactly when the product of the pages before it and the page size,
  -- both as Normalized leaves them, has the sign bit set as an int64.
  pub get_paged-panics : (get_paged items req ≡ none) ↔ (2 ^ 63 ≤ offset req % 2 ^ 64)
  get_paged-panics = elim (Bool-cases (ltb (offset req % 2 ^ 64) (2 ^ 63))) [
    | inl small ↦
        let e : start_of req ≡ pos (offset req % 2 ^ 64) =
          unfold start_of in wrap64_small (offset req) (ground (arith, small)) in
        let (p, found, _) = get_paged-some (offset req % 2 ^ 64) e in
        (λ h. absurd (cc (h, found)), λ h. absurd (ground (arith, small, h)))
    | inr large ↦
        let (k, e) = wrap64_negative (offset req) (ground (arith, large)) in
        (λ h. ground (arith, large), λ h. get_paged-negative k (unfold start_of in e))
  ]

module _ {T : Type 0} where
  take-nil : (n : ℕ) → take n [] ≡ (let xs : List T = [] in xs)
  take-nil zero = refl
  take-nil (suc n) = refl

  take_all : (n : ℕ) (xs : List T) → length xs ≤ n → take n xs ≡ xs
  take_all zero [] h = refl
  take_all zero (x ∷ xs) h = absurd (omega arith)
  take_all (suc n) [] h = refl
  take_all (suc n) (x ∷ xs) h = ap (λ ys. x ∷ ys) (take_all n xs (omega arith))

  take-at_most : (n : ℕ) (xs : List T) → take (at_most (length xs) n) xs ≡ take n xs
  take-at_most n xs = elim (Bool-cases (ltb (length xs) n)) [
    | inl short ↦
        rw short
          (take_all (length xs) xs (omega arith) ∙ sym (take_all n xs (ground (arith, short))))
    | inr long ↦ rw long refl
  ]

  -- The slice behind the first items, with the bounds as the stores compute them.
  abbrev slice : ℕ → ℕ → List T → List T
  slice start size xs =
      let from = at_most (length xs) start in
      take (at_most (length xs) (from + size) - from) (drop from xs)

  slice-suc : (s size : ℕ) (x : T) (xs : List T) → slice (suc s) size (x ∷ xs) ≡ slice s size xs
  slice-suc s size x xs =
      let len : ℕ = length xs in
      let from : ℕ = at_most len s in
      let from_suc : at_most (suc len) (suc s) ≡ suc from = ground arith in
      let count : at_most (suc len) (at_most (suc len) (suc s) + size) - at_most (suc len) (suc s)
          ≡ at_most len (from + size) - from =
        ground arith in
      ap (λ k. take k (drop (at_most (suc len) (suc s)) (x ∷ xs))) count
      ∙ ap (λ k. take (at_most len (from + size) - from) (drop k (x ∷ xs))) from_suc

  slice-zero : (size : ℕ) (xs : List T) → slice 0 size xs ≡ take size xs
  slice-zero size xs =
      let len : ℕ = length xs in
      let from : at_most len 0 ≡ 0 = ground arith in
      let count : at_most len (at_most len 0 + size) - at_most len 0 ≡ at_most len size =
        ground arith in
      ap (λ k. take k (drop (at_most len 0) xs)) count
      ∙ ap (λ k. take (at_most len size) (drop k xs)) from
      ∙ take-at_most size xs

  drop-nil : (n : ℕ) → drop n [] ≡ (let xs : List T = [] in xs)
  drop-nil zero = refl
  drop-nil (suc n) = refl

  take-slice :
      (start size : ℕ) (xs : List T) → take start xs ++ slice start size xs ≡ take (start + size) xs
  take-slice zero size xs = slice-zero size xs ∙ ap (λ n. take n xs) (zero_plus size)
  take-slice (suc s) size [] =
      ap (take _) (drop-nil (at_most 0 (suc s))) ∙ take-nil _ ∙ sym (take-nil (suc s + size))
  take-slice (suc s) size (x ∷ xs) =
      ap (λ ys. x ∷ (take s xs ++ ys)) (slice-suc s size x xs)
      ∙ ap (λ ys. x ∷ ys) (take-slice s size xs)
      ∙ ap (λ n. take n (x ∷ xs)) (add_suc s size)

  abbrev page_items : Option (PagedResult T) → List T
  page_items none = []
  page_items (some p) = p.items

  -- The pages from the first on, one behind the other; a page that panics adds nothing.
  unfoldable pub pages : List T → ℕ → ℕ → List T
  pages items size zero = []
  pages items size (suc n) =
      pages items size n
      ++ page_items (get_paged items (record { page = pos (suc n); page_size = pos size }))

  page_slice :
      (items : List T) (size n : ℕ)
      → 1 ≤ size
      → size ≤ 500
      → n * size < 2 ^ 63
      → page_items (get_paged items (record { page = pos (suc n); page_size = pos size }))
        ≡ slice (n * size) size items
  page_slice items size n low high small =
      let req : PagedRequest = record { page = pos (suc n); page_size = pos size } in
      let same_size : normal_size (pos size) ≡ size = unfold normal_size in ground arith in
      let same_page : normal_page (pos (suc n)) - 1 ≡ n = unfold normal_page in ground arith in
      let same : offset req ≡ n * size = rw (same_size, same_page) refl in
      let e : start_of req ≡ pos (n * size) =
        unfold start_of in ap wrap64 same ∙ wrap64_below (n * size) small in
      let (p, found, c) = get_paged-some items req (n * size) e in
      ap page_items found
      ∙ some_inj p.items (slice (n * size) (normal_size (pos size)) items)
          (sym c ∙ unfold cut in refl)
      ∙ ap (λ k. slice (n * size) k items) same_size

  pages-take :
      (items : List T) (size n : ℕ)
      → 1 ≤ size
      → size ≤ 500
      → n * size < 2 ^ 63
      → pages items size n ≡ take (n * size) items
  unfolding pages
  pages-take items size zero low high small = ap (λ k. take k items) (zero_times size)
  pages-take items size (suc n) low high small =
      ap
        (λ ys.
          ys ++ page_items (get_paged items (record { page = pos (suc n); page_size = pos size })))
        (pages-take items size n low high (grind arith))
      ∙ ap (λ ys. take (n * size) items ++ ys) (page_slice items size n low high (grind arith))
      ∙ take-slice (n * size) size items
      ∙ ap (λ k. take k items) (times_suc n size)

-- Reading pages of one size from the first on, one after the other, gives every item once and in
-- order, as soon as the pages together are as long as the items; the size is between 1 and 500, and
-- the number of pages times the size is below 2^63.
pub pages_cover :
    {T : Type 0} (items : List T) (size n : ℕ)
    → 1 ≤ size
    → size ≤ 500
    → n * size < 2 ^ 63
    → length items ≤ n * size
    → pages items size n ≡ items
pages_cover items size n low high small enough =
    pages-take items size n low high small ∙ take_all (n * size) items enough
