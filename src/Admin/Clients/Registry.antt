-- ===== src/Admin/Clients/Registry.antt =====
-- What the admin API leaves in the client store: clients that have been validated, under their own ids.
use authserver_go.Base.{
  String, ◌≡◌, refl, sym, ap, ◌∙◌, true, false, not, Option, none, some, List, [], ◌∷◌, ◌==◌,
  string_eq, eq_iff, arith, Bool-cases, Option-cases, inl, inr, if◌then◌else◌, subst,
}
use authserver_go.Base.Assoc.{lookup}
use authserver_go.Base.Assoc.Single.{lookup-insert_split, lookup-erase-some}
use authserver_go.Domain.Client.{Client, ClientError, validate, auth_method_private_key_jwt}
use authserver_go.Store.Clients.{ClientStore, find_by_client_id, store, delete}
use authserver_go.Oidc.Http.{pass, finish_at-cases, refuse_if-pass, >>=-pass, bad_request}
use authserver_go.Admin.{Api, found}
use authserver_go.Admin.Clients.{
  ClientView, Answer, validated, valid_jwks, check_client, stored_answer, save, create_client,
  update_client, delete_client, shaped, with_body,
}

module _ (h : Api) where
  -- A client that the checks take.
  pub record IsSound (c : Client) : Type 0 where
    pub valid : validate h.parse_url c ≡ none
    pub keyed :
        c.token_endpoint_auth_method ≡ auth_method_private_key_jwt → valid_jwks h c.jwks_json ≡ true

  abbrev pub IsRegistry : ClientStore → Type 0
  IsRegistry s =
      (id : String) (c : Client) → lookup id s.clients ≡ some c → (c.client_id ≡ id) × IsSound c

  validated-pass : (o : Option ClientError) (x : Unit {0}) → validated o ≡ pass x → o ≡ none
  unfolding validated
  validated-pass none x e = refl
  validated-pass (some y) x e = cc

  check_client-IsSound : (c : Client) (x : Unit {0}) → check_client h c ≡ pass x → IsSound c
  unfolding check_client
  check_client-IsSound c x e =
      let (y, fine, e1) = >>=-pass (validated (validate h.parse_url c)) _ x e in
      let keys =
        refuse_if-pass
          (if c.token_endpoint_auth_method == auth_method_private_key_jwt
            then not (valid_jwks h c.jwks_json)
            else false)
          bad_request "jwks_json" "" x e1 in
      record {
        valid = validated-pass (validate h.parse_url c) y fine;
        keyed = λ jwt.
            ground
              (arith, keys, jwt, eq_iff c.token_endpoint_auth_method auth_method_private_key_jwt);
      }

  store-IsRegistry :
      (c : Client) (s : ClientStore) → IsSound c → IsRegistry s → IsRegistry (store (some c) s).1
  unfolding store
  store-IsRegistry c s fine v = elim (Bool-cases (c.client_id == "")) [
    | inl blank ↦ rw blank v
    | inr named ↦ rw named λ id d e. elim (lookup-insert_split c.client_id id c d s.clients e) [
      | inl (same, own) ↦
          (ap (λ (x : Client). x.client_id) (sym own) ∙ same, subst IsSound own fine)
      | inr old ↦ v id d old
    ]
  ]

  save-IsRegistry : (c : Client) (s : ClientStore) → IsRegistry s → IsRegistry (save h c s).1
  unfolding save
  save-IsRegistry c s v =
      elim (finish_at-cases s (check_client h c)
        (λ _. (stored_answer c (store (some c) s).0, (store (some c) s).1))) [
          | inl (_, same) ↦ subst IsRegistry (sym same) v
          | inr (x, fine, e) ↦
              subst (λ (o : Answer). IsRegistry o.1) (sym e)
                (store-IsRegistry c s (check_client-IsSound c x fine) v)
        ]

  create_client-IsRegistry :
      (body : Option ClientView) (s : ClientStore)
      → IsRegistry s
      → IsRegistry (create_client h body s).1
  unfolding create_client
  create_client-IsRegistry none s v = v
  create_client-IsRegistry (some b) s v = save-IsRegistry (shaped b (with_body b b.client_id)) s v

  update_client-IsRegistry :
      (id : String) (body : Option ClientView) (s : ClientStore)
      → IsRegistry s
      → IsRegistry (update_client h id body s).1
  unfolding update_client
  update_client-IsRegistry id none s v = v
  update_client-IsRegistry id (some b) s v =
      elim (finish_at-cases s (found "lookup failed" (find_by_client_id s id))
        (λ x. save h (shaped b (with_body b x.client_id)) s)) [
          | inl (_, same) ↦ subst IsRegistry (sym same) v
          | inr (x, _, e) ↦
              subst (λ (o : Answer). IsRegistry o.1) (sym e)
                (save-IsRegistry (shaped b (with_body b x.client_id)) s v)
        ]

  delete_client-IsRegistry :
      (id : String) (s : ClientStore) → IsRegistry s → IsRegistry (delete_client id s).1
  unfolding delete_client delete
  delete_client-IsRegistry id s v = elim (Option-cases (lookup id s.clients)) [
    | inl missing ↦ rw (missing, delete) v
    | inr (c, there) ↦ rw (there, delete) λ j d e. v j d (lookup-erase-some id j d s.clients e)
  ]

-- A request that changes the clients.
pub data Request : Type 0 where
  create : Option ClientView → Request
  update : String → Option ClientView → Request
  remove : String → Request

unfoldable pub step : Api → Request → ClientStore → ClientStore
step h (create body) s = (create_client h body s).1
step h (update id body) s = (update_client h id body s).1
step h (remove id) s = (delete_client id s).1

unfoldable pub run : Api → List Request → ClientStore → ClientStore
unfolding step
run h [] s = s
run h (r ∷ rs) s = run h rs (step h r s)

step-IsRegistry :
    (h : Api) (r : Request) (s : ClientStore) → IsRegistry h s → IsRegistry h (step h r s)
unfolding step
step-IsRegistry h (create body) s v = create_client-IsRegistry h body s v
step-IsRegistry h (update id body) s v = update_client-IsRegistry h id body s v
step-IsRegistry h (remove id) s v = delete_client-IsRegistry h id s v

-- Whatever requests the admin API serves on a store of sound clients, each client is afterwards under its
-- own id, passes Validate, and has a key set that validateJWKS takes if it authenticates by
-- private_key_jwt.
pub run-IsRegistry :
    (h : Api) (rs : List Request) (s : ClientStore) → IsRegistry h s → IsRegistry h (run h rs s)
unfolding run
run-IsRegistry h [] s v = v
run-IsRegistry h (r ∷ rs) s v = run-IsRegistry h rs (step h r s) (step-IsRegistry h r s v)
