-- ===== src/Service/Passwords/Request.antt =====
-- How `RequestResetPassword` ends.
-- A request that was carried out: a new token for the account that was found, under the hash of the
-- plain text that the event's link carries, one event, and the revocation of its tokens.
use go_auth_api.Base.{
  String, ap, inl, inr, none, refl, some, suc, ℕ, is_none, ltb, ◌&&◌, ◌*◌, ◌+◌, ◌<>◌, ◌==◌, ◌∷◌,
  ◌≡◌, ◌⊎◌,
}
use go_auth_api.Models.Account.{PasswordResetToken, Tenant, User, hour, minute}
use go_auth_api.Models.Event.{
  EmailPayloadContext, OutboxEvent, email_password_reset_requested, email_payload, new_event,
  password_reset_requested,
}
use go_auth_api.Repo.Inserts.{Ends-insert, insert_event_cases, insert_reset_token_cases, unclaimed}
use go_auth_api.Repo.Reset.{set_reset_revoked}
use go_auth_api.Service.Context.{Service}
use go_auth_api.Service.Context.Lookup.{Ends-find_user_or_none, UserAt}
use go_auth_api.Service.Passwords.{request_reset_of, request_reset_password, request_reset_writes}
use go_auth_api.Tokens.{generate_password_reset_token, hash_token}
use go_auth_api.Sql.{update_rows}
use go_auth_api.World.{Database, Env, Outcome, ResetRow, World, err, ok, panicked}
use go_auth_api.World.Ends.{
  Ends, Ends-begin_tx, Ends-bind, Ends-catch, Ends-commit, Ends-execute_tx, Ends-pure,
  Ends-rollback, Ends-time_now,
}
use go_auth_api.World.Prepares.{
  Ends-prepare, Prepares, Prepares-bind, Prepares-call, Prepares-marshal, Prepares-new_uuid_v7,
  Prepares-pure, Prepares-time_now,
}

pub record ResetRequested (env : Env) (s : Service) (email : String) (tid : ℕ) (d d' : Database)
    : Type 0 where
  pub user : User
  pub found : UserAt email tid d user
  pub plain : String
  pub token : PasswordResetToken
  pub owner : token.user_id ≡ user.id
  pub tenant : token.tenant_id ≡ tid
  pub hashed : token.token_hash ≡ hash_token env plain s.token_secret
  pub lifetime : token.expires_at ≡ token.created_at + hour
  pub event : OutboxEvent
  pub kind : event.event_type ≡ email_password_reset_requested
  pub content : EmailPayloadContext
  pub payload : event.payload ≡ email_payload content
  pub link :
      content.payload_data
      ≡ password_reset_requested (s.app_url <> "/auth/reset-password?t=" <> plain)
  pub at : ℕ
  pub began : ℕ
  pub stored : d' ≡ record d {
    reset_tokens =
        update_rows
          (λ (r : ResetRow).
            r.token.user_id == user.id
            && r.token.tenant_id == tid
            && is_none r.token.used_at
            && ltb began r.token.expires_at)
          (λ r. record r { revoked_at = some at })
          (record { token = record token { used_at = none }; revoked_at = none } ∷ d.reset_tokens);
    outbox_events = unclaimed event ∷ d.outbox_events;
  }

abbrev pub Requests : Env → Service → String → ℕ → Database → Outcome (Unit {0}) → Database → Type 0
Requests env s email tid d (ok _) d' = (d' ≡ d) ⊎ ResetRequested env s email tid d d'
Requests env s email tid d (err _) d' = d' ≡ d
Requests env s email tid d panicked d' = ⊥

-- The token of a reset request.
pub record IsResetFor (env : Env) (uid tid : ℕ) (secret plain : String) (t : PasswordResetToken)
    : Type 0 where
  pub user : t.user_id ≡ uid
  pub tenant : t.tenant_id ≡ tid
  pub hash : t.token_hash ≡ hash_token env plain secret
  pub lifetime : t.expires_at ≡ t.created_at + hour

generate_password_reset_token_lem :
    (env : Env) (user_id tenant_id : ℕ) (secret : String)
    → Prepares env
        (generate_password_reset_token env user_id tenant_id secret)
        (λ r. IsResetFor env user_id tenant_id secret r.0 r.1)
generate_password_reset_token_lem env user_id tenant_id secret =
    Prepares-bind _ _ (Prepares-call env) λ raw _.
      Prepares-bind _ _ (Prepares-time_now env) λ now _.
        Prepares-bind _ _ (Prepares-new_uuid_v7 env) λ id _.
          Prepares-pure _ (record { user = refl; tenant = refl; hash = refl; lifetime = refl })

module _ (env : Env) (s : Service) (email : String) (tenant : Tenant) (ip : String)
    (d : Database) where
  abbrev Ending : Outcome (Unit {0}) → World → Type 0
  Ending r w = Requests env s email tenant.id d r w.db

  request_of-Ending :
      (user : User) (w : World)
      → UserAt email tenant.id d user
      → w.db ≡ d
      → Ends (request_reset_of env s user tenant ip) w Ending
  unfolding request_reset_of request_reset_writes set_reset_revoked new_event
  request_of-Ending user w found kept =
      Ends-prepare _ _ _ (generate_password_reset_token_lem env user.id tenant.id s.token_secret)
        (λ m j k _. kept)
        λ t k made.
          Ends-prepare _ _ _ (Prepares-new_uuid_v7 env) (λ m j k' _. kept)
            λ id k' _.
              Ends-prepare _ _ _ (Prepares-marshal env _) (λ m j k'' _. kept)
                λ payload k'' same. Ends-time_now env _ _ (
                  Ends-begin_tx env _ _ (λ m _. kept)
                    (Ends-rollback _ _ (
                      Ends-insert env d (λ m w' h. h) _ _ _ _ d _
                        (
                          ap
                              (λ (x : Database).
                                some (record { work = x; began = env.clock (suc k'') }))
                              kept,
                          kept,
                        )
                        (insert_reset_token_cases env t.1 _ d)
                        λ w₁ i₁.
                          Ends-insert env d (λ m w' h. h) _ _ w₁ _ _ _ i₁
                            (insert_event_cases env _ _ _ refl)
                            λ w₂ i₂. Ends-bind _ _ _ (
                              Ends-time_now env _ _ (
                                Ends-execute_tx env _ _ _ i₂.0 (λ m _. i₂.1)
                                  (Ends-catch _ _ _ (
                                    Ends-commit env _ _ refl (λ m _. Ends-pure _ _ (inl i₂.1))
                                      (inr (record {
                                        user = user;
                                        found = found;
                                        plain = t.0;
                                        token = t.1;
                                        owner = made.user;
                                        tenant = made.tenant;
                                        hashed = made.hash;
                                        lifetime = made.lifetime;
                                        event =
                                            new_event id email_password_reset_requested payload
                                              (env.clock k'' + 5 * minute) (env.clock k'');
                                        kind = refl;
                                        content = _;
                                        payload = same;
                                        link = refl;
                                        at = _;
                                        began = _;
                                        stored = refl;
                                      })))))))))

pub request_reset_password-Requests :
    (env : Env) (s : Service) (tenant : Tenant) (email ip : String) (w : World)
    → Requests env s email tenant.id w.db
        (request_reset_password env s (some tenant) email ip w).0
        (request_reset_password env s (some tenant) email ip w).1.db
unfolding request_reset_password
request_reset_password-Requests env s tenant email ip w =
    let end : Ends (request_reset_password env s (some tenant) email ip) w
        (λ r w'. Requests env s email tenant.id w.db r w'.db) =
      Ends-bind _ _ _ (
        Ends-pure _ _ (
          Ends-find_user_or_none env email tenant.id _ w (λ m w' same. same)
            (λ w' same. Ends-pure _ _ (inl same))
            (λ user w' found same.
              request_of-Ending env s email tenant ip w.db user w' found same))) in
    end.holds
