-- ===== src/Store/Clients.antt =====
-- internal/store/memory/client.go: ClientStore.
use authserver_go.Base.{String, Option, none, some, [], ◌==◌, string_eq, if◌then◌else◌}
use authserver_go.Base.Assoc.{Assoc, lookup, insert, erase, values}
use authserver_go.Domain.Paged
use authserver_go.Domain.Paged.{PagedRequest, PagedResult}
use authserver_go.Domain.Client.{Client}
use authserver_go.Store.Error.{Result, ok, err, Update, not_found, nil_entity, empty_id}

pub record ClientStore : Type 0 where
  pub clients : Assoc String Client

abbrev pub new : ClientStore
new = record { clients = [] }

unfoldable pub find_by_client_id : ClientStore → String → Result Client
find_by_client_id s id = elim (lookup id s.clients) [ none ↦ err not_found | some c ↦ ok c ]

unfoldable pub store : Option Client → Update ClientStore Unit
store none s = (err nil_entity, s)
store (some c) s =
    if c.client_id == ""
    then (err empty_id, s)
    else (ok tt, record { clients = insert c.client_id c s.clients })

unfoldable pub delete : String → Update ClientStore Unit
delete id s = elim (lookup id s.clients) [
  | none ↦ (err not_found, s)
  | some _ ↦ (ok tt, record { clients = erase id s.clients })
]

-- `none` is the panic of the slice.
unfoldable pub get_paged : ClientStore → PagedRequest → Option (PagedResult Client)
get_paged s req = Paged.get_paged (values s.clients) req
