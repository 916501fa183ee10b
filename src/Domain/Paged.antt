-- ===== src/Domain/Paged.antt =====
-- internal/domain/paged.go, and the page that the GetPaged of each store of internal/store/memory
-- cuts out of its items.
pub mod Bounds
use authserver_go.Base.{
  ℕ, ◌+◌, ◌-◌, ◌*◌, Option, none, some, List, ltb, if◌then◌else◌, length, take, drop,
}
use authserver_go.Base.Int.{ℤ, pos, negsuc, nonpos, pos_part, wrap64}

abbrev pub default_page_size : ℕ
default_page_size = 50

abbrev pub max_page_size : ℕ
max_page_size = 500

pub record PagedRequest : Type 0 where
  pub page : ℤ
  pub page_size : ℤ

pub record PagedResult (T : Type 0) : Type 0 where
  pub items : List T
  pub total_count : ℕ
  pub page : ℕ
  pub page_size : ℕ

-- Normalized, field by field: both are positive afterwards.
unfoldable pub normal_page : ℤ → ℕ
normal_page p = if nonpos p then 1 else pos_part p

unfoldable pub normal_size : ℤ → ℕ
normal_size s =
    let size = if nonpos s then default_page_size else pos_part s in
    if ltb max_page_size size then max_page_size else size

-- (req.Page - 1) * req.PageSize, which is an int64 and wraps.
unfoldable pub start_of : PagedRequest → ℤ
unfolding normal_page normal_size wrap64
start_of req = wrap64 ((normal_page req.page - 1) * normal_size req.page_size)

abbrev pub at_most : ℕ → ℕ → ℕ
at_most bound n = if ltb bound n then bound else n

-- items[start:end]; `none` is the panic of a negative start.
unfoldable pub cut {ℓ} : {T : Type ℓ} → List T → ℤ → ℕ → Option (List T)
cut items (negsuc n) size = none
cut items (pos n) size =
    let start = at_most (length items) n in
    let stop = at_most (length items) (start + size) in
    some (take (stop - start) (drop start items))

unfoldable pub get_paged : {T : Type 0} → List T → PagedRequest → Option (PagedResult T)
unfolding start_of cut
get_paged items req = elim (cut items (start_of req) (normal_size req.page_size)) [
  | none ↦ none
  | some page_items ↦ some (record {
    items = page_items;
    total_count = length items;
    page = normal_page req.page;
    page_size = normal_size req.page_size;
  })
]
