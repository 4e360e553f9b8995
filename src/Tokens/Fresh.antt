-- ===== src/Tokens/Fresh.antt =====
-- What a freshly generated token holds.
use go_auth_api.Base.{String, none, refl, ℕ, ◌*◌, ◌+◌, ◌≡◌}
use go_auth_api.Models.Account.{RefreshToken, hour}
use go_auth_api.Tokens.{generate_access_token, generate_refresh_token, hash_password, hash_token}
use go_auth_api.World.{Env}
use go_auth_api.World.Prepares.{
  Prepares, Prepares-bind, Prepares-call, Prepares-new_uuid_v7, Prepares-pure, Prepares-time_now,
}

-- A refresh token of a user's session, not revoked, that lives for 30 days from its creation, under
-- the hash of the plain text that goes to the client.
pub record IsRefreshFor (env : Env) (uid fid pid tid : ℕ) (cid secret plain : String)
    (t : RefreshToken) : Type 0 where
  pub user : t.user_id ≡ uid
  pub family : t.family_id ≡ fid
  pub parent : t.parent_token ≡ pid
  pub tenant : t.tenant_id ≡ tid
  pub client : t.client_id ≡ cid
  pub hash : t.token_hash ≡ hash_token env plain secret
  pub live : t.revoked_at ≡ none
  pub drawn : ℕ
  pub fresh_id : t.id ≡ env.new_uuid drawn
  pub lifetime : t.expires_at ≡ t.created_at + 30 * (24 * hour)

module _ (env : Env) where
  pub generate_refresh_token_lem :
      (user_id family_id parent tenant_id : ℕ) (client_id secret : String)
      → Prepares env
          (generate_refresh_token env user_id family_id parent tenant_id client_id secret)
          (λ r. IsRefreshFor env user_id family_id parent tenant_id client_id secret r.0 r.1)
  generate_refresh_token_lem user_id family_id parent tenant_id client_id secret =
      Prepares-bind _ _ (Prepares-call env) λ raw _.
        Prepares-bind _ _ (Prepares-time_now env) λ now _.
          Prepares-bind _ _ (Prepares-new_uuid_v7 env) λ id (n, e). Prepares-pure _ (record {
            drawn = n;
            fresh_id = e;
            user = refl;
            family = refl;
            parent = refl;
            tenant = refl;
            client = refl;
            hash = refl;
            live = refl;
            lifetime = refl;
          })

  pub generate_access_token_lem :
      (user_id : ℕ) (email : String)
      → Prepares env (generate_access_token env user_id email) (λ _. Unit {0})
  generate_access_token_lem user_id email = Prepares-bind _ _ (Prepares-time_now env) λ issued _.
      Prepares-bind _ _ (Prepares-time_now env)
        λ later _. Prepares-bind _ _ (Prepares-call env) λ n _. Prepares-pure _ tt

  pub hash_password_lem :
      (password : String)
      → Prepares env (hash_password env password) (λ h. (n : ℕ) × (h ≡ env.bcrypt n password))
  hash_password_lem password =
      Prepares-bind _ _ (Prepares-call env) λ n _. Prepares-pure _ (n, refl)
