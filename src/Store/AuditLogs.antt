-- ===== src/Store/AuditLogs.antt =====
-- internal/store/memory/auditlog.go: AuditLogStore.
use authserver_go.Base.{
  String, ◌&&◌, Option, none, some, List, [], ◌∷◌, ◌++◌, ◌==◌, string_eq, if◌then◌else◌, take,
  select,
}
use authserver_go.Base.Int.{ℤ, nonpos, pos_part}
use authserver_go.Domain.Time.{after}
use authserver_go.Domain.Paged
use authserver_go.Domain.Paged.{PagedRequest, PagedResult}
use authserver_go.Domain.Entities.{AuditLog}
use authserver_go.Store.Error.{Result, ok, err, Update, nil_entity}

pub record AuditLogStore : Type 0 where
  pub items : List AuditLog

abbrev pub new : AuditLogStore
new = record { items = [] }

unfoldable pub store : Option AuditLog → Update AuditLogStore Unit
store none s = (err nil_entity, s)
store (some l) s = (ok tt, record { items = s.items ++ l ∷ [] })

-- sort.SliceStable by timestamp, newest first.
unfoldable pub place : AuditLog → List AuditLog → List AuditLog
place x [] = x ∷ []
place x (y ∷ ys) = if after y.timestamp x.timestamp then y ∷ place x ys else x ∷ y ∷ ys

unfoldable pub sort_newest : List AuditLog → List AuditLog
unfolding place
sort_newest [] = []
sort_newest (x ∷ xs) = place x (sort_newest xs)

unfoldable pub list_by_actor : AuditLogStore → String → String → ℤ → Result (List AuditLog)
unfolding sort_newest
list_by_actor s actor action limit =
    let n = if nonpos limit then 10 else pos_part limit in
    ok (take n (sort_newest (select (λ l. l.actor_user_id == actor && l.action == action) s.items)))

-- `none` is the panic of the slice.
unfoldable pub get_paged : AuditLogStore → PagedRequest → Option (PagedResult AuditLog)
get_paged s req = Paged.get_paged s.items req
