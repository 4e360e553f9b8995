-- ===== src/Service/Login/Endings.antt =====
-- How `Login` ends.
use go_auth_api.Base.{
  Bool-cases, Option, String, ap, inl, inr, is_some, none, none_of_not_some, refl, some, true, ℕ,
  ◌==◌, ◌∙◌, ◌∷◌, ◌≡◌,
}
use go_auth_api.Errors.{external}
use go_auth_api.Models.Account.{RefreshToken, Tenant, User}
use go_auth_api.Models.Event.{OutboxEvent, new_event, pending, user_login_succeeded}
use go_auth_api.RateLimit.Ends.{Ends-record_login_failure}
use go_auth_api.Repo.Inserts.{
  Ends-insert, insert_event_cases, insert_refresh_token_cases, unclaimed,
}
use go_auth_api.Service.Context.{Service}
use go_auth_api.Service.Context.Lookup.{Ends-find_user_or_none, UserAt}
use go_auth_api.Service.Login.{
  authenticate, login, login_data, login_writes, report_suspicious, right_password,
  suspicious_login_event, unknown_account, wrong_password,
}
use go_auth_api.Tokens.{sign_client_id}
use go_auth_api.Tokens.Fresh.{IsRefreshFor, generate_access_token_lem, generate_refresh_token_lem}
use go_auth_api.World.{Database, Env, Outcome, World, err, ok, panicked}
use go_auth_api.World.Ends.{
  Ends, Ends-begin_tx, Ends-bind, Ends-catch, Ends-commit, Ends-pure, Ends-raise, Ends-rollback,
  Ends-time_now,
}
use go_auth_api.World.Prepares.{
  Ends-prepare, Prepares, Prepares-bind, Prepares-marshal, Prepares-new_uuid_v7, Prepares-pure,
  Prepares-time_now,
}

-- What a login has made, before anything is stored.
pub record LoginDataFor (env : Env) (s : Service) (user : User)
    (r : String × String × String × RefreshToken × OutboxEvent) : Type 0 where
  pub family : ℕ
  pub family_drawn : (n : ℕ) × (family ≡ env.new_uuid n)
  pub token : IsRefreshFor env user.id family 0 user.tenant_id r.2 s.token_secret r.1 r.3
  pub unsent : r.4.status ≡ pending
  pub kind : r.4.event_type ≡ user_login_succeeded

login_data_lem :
    (env : Env) (s : Service) (user : User) (tenant : Tenant) (ip : String)
    → Prepares env (login_data env s user tenant ip) (LoginDataFor env s user)
unfolding login_data new_event
login_data_lem env s user tenant ip =
    Prepares-bind _ _ (generate_access_token_lem env user.id user.email) λ access _.
      Prepares-bind _ _ (Prepares-new_uuid_v7 env) λ client _.
        Prepares-bind _ _ (Prepares-new_uuid_v7 env) λ family family_drawn.
          Prepares-bind _ _
            (generate_refresh_token_lem env user.id family 0 user.tenant_id
              (sign_client_id env client s.token_secret) s.token_secret)
            λ token made. Prepares-bind _ _ (Prepares-new_uuid_v7 env) λ id _.
              Prepares-bind _ _ (Prepares-marshal env _) λ payload _.
                Prepares-bind _ _ (Prepares-time_now env) λ created _.
                  Prepares-bind _ _ (Prepares-time_now env) λ retry _. Prepares-pure _ (record {
                    family = family;
                    family_drawn = family_drawn;
                    token = made;
                    unsent = refl;
                    kind = refl;
                  })

-- A login that succeeds.
pub record LoggedIn (env : Env) (s : Service) (email : String) (tid : ℕ) (password : String)
    (d d' : Database) (r : String × String × String) : Type 0 where
  pub user : User
  pub found : UserAt email tid d user
  pub hash : String
  pub with_password : user.password_hash ≡ some hash
  pub matches : env.bcrypt_matches hash password ≡ true
  pub unlocked : user.locked_at ≡ none
  pub family : ℕ
  pub family_drawn : (n : ℕ) × (family ≡ env.new_uuid n)
  pub token : RefreshToken
  pub token_made : IsRefreshFor env user.id family 0 user.tenant_id r.2 s.token_secret r.1 token
  pub event : OutboxEvent
  pub kind : event.event_type ≡ user_login_succeeded
  pub stored : d' ≡ record d {
    refresh_tokens = record token { revoked_at = none } ∷ d.refresh_tokens;
    outbox_events = unclaimed event ∷ d.outbox_events;
  }

abbrev pub Login :
    Env
    → Service
    → String
    → ℕ
    → String
    → Database
    → Outcome (String × String × String)
    → Database
    → Type 0
Login env s email tid password d (ok r) d' = LoggedIn env s email tid password d d' r
Login env s email tid password d (err _) d' = d' ≡ d
Login env s email tid password d panicked d' = ⊥

module _ (env : Env) (s : Service) (email : String) (tenant : Tenant) (password ip : String)
    (d : Database) where
  abbrev Logs : Outcome (String × String × String) → World → Type 0
  Logs r w = Login env s email tenant.id password d r w.db

  unchanged : (m : String) (w : World) → w.db ≡ d → Logs (err (external m)) w
  unchanged m w kept = kept

  right_password-Logs :
      (user : User) (hash : String) (w : World)
      → UserAt email tenant.id d user
      → user.password_hash ≡ some hash
      → env.bcrypt_matches hash password ≡ true
      → w.db ≡ d
      → Ends (right_password env s user tenant ip) w Logs
  unfolding right_password login_writes
  right_password-Logs user hash w found with_password match kept =
      elim (Bool-cases (is_some user.locked_at)) [
        | inl locked ↦ rw locked (Ends-raise _ _ kept)
        | inr open_account ↦ rw open_account (
            Ends-prepare _ _ _ (login_data_lem env s user tenant ip) (λ m j k _. kept)
              λ r k made.
                Ends-begin_tx env _ _ (λ m _. kept)
                  (Ends-bind _ _ _ (
                    Ends-rollback _ _ (
                      Ends-insert env d (λ m w' k'. k') _ _ _ _ d _
                        (
                          ap (λ (x : Database). some (record { work = x; began = env.clock k }))
                              kept,
                          kept,
                        )
                        (insert_event_cases env r.4 _ d made.unsent)
                        λ w₁ i₁.
                          Ends-insert env d (λ m w' k'. k') _ _ w₁ _ _ _ i₁
                            (insert_refresh_token_cases env r.3 _ _)
                            λ w₂ i₂.
                              Ends-commit env w₂ _ i₂.0 (λ m _. i₂.1)
                                (Ends-pure _ _ (record {
                                  user = user;
                                  found = found;
                                  hash = hash;
                                  with_password = with_password;
                                  matches = match;
                                  unlocked = none_of_not_some user.locked_at open_account;
                                  family = made.family;
                                  family_drawn = made.family_drawn;
                                  token = r.3;
                                  token_made = made.token;
                                  event = r.4;
                                  kind = made.kind;
                                  stored = refl;
                                }))))))
      ]

  -- The event of a suspicious login is inserted into a transaction that is rolled back, or left open.
  report_suspicious-Logs :
      (user : User) (w : World) → w.db ≡ d → Ends (report_suspicious env s user tenant ip) w Logs
  unfolding report_suspicious suspicious_login_event new_event
  report_suspicious-Logs user w kept =
      Ends-begin_tx env _ _ (λ m _. kept)
        (Ends-bind _ _ _ (
          Ends-catch _ _ _ (
            Ends-prepare _ _ _ (Prepares-new_uuid_v7 env) (λ m j k _. Ends-raise _ _ kept)
              λ id k _.
                Ends-prepare _ _ _ (Prepares-marshal env _) (λ m j k' _. Ends-raise _ _ kept)
                  λ payload k' _. Ends-time_now env _ _ (
                    Ends-time_now env _ _ (
                      Ends-pure _ _ (
                        Ends-insert env d (λ m w' h. h) _ _ _ _ d _
                          (
                            ap
                                (λ (x : Database).
                                  some (record { work = x; began = env.clock w.calls }))
                                kept,
                            kept,
                          )
                          (insert_event_cases env _ _ d refl)
                          λ w₁ i₁. Ends-rollback _ _ (Ends-raise _ _ i₁.1)))))))

  wrong_password-Logs :
      (user : User) (w : World) → w.db ≡ d → Ends (wrong_password env s user tenant email ip) w Logs
  unfolding wrong_password
  wrong_password-Logs user w kept =
      Ends-record_login_failure env ip email _ _ w (λ m w' same. same.0 ∙ kept)
        λ r w' same. elim (Bool-cases (r == 2)) [
          | inl yes_notify ↦ rw yes_notify (report_suspicious-Logs user w' (same.0 ∙ kept))
          | inr no_notify ↦ rw no_notify (Ends-raise _ _ (same.0 ∙ kept))
        ]

  unknown_account-Logs : (w : World) → w.db ≡ d → Ends (unknown_account env s email ip) w Logs
  unfolding unknown_account
  unknown_account-Logs w kept =
      Ends-record_login_failure env ip email _ _ w (λ m w' same. same.0 ∙ kept)
        λ r w' same. Ends-raise _ _ (same.0 ∙ kept)

  checked_password-Logs :
      (user : User) (hash : Option String) (w : World)
      → UserAt email tenant.id d user
      → user.password_hash ≡ hash
      → w.db ≡ d
      → Ends (authenticate env s (some user) tenant email password ip) w Logs
  unfolding authenticate
  checked_password-Logs user none w found p kept = simp p (unknown_account-Logs w kept)
  checked_password-Logs user (some hash) w found p kept =
      simp p (elim (Bool-cases (env.bcrypt_matches hash password)) [
        | inl match ↦ rw match (right_password-Logs user hash w found p match kept)
        | inr mismatch ↦ rw mismatch (wrong_password-Logs user w kept)
      ])

-- `Login` for a tenant: it succeeds only for an account found by that address in that tenant, which
-- is not locked, with the password whose hash is stored, and then it has added one live refresh token
-- of that user and one login event to the database, and nothing else; any error leaves the database
-- as it was; and it does not panic.
pub login-Login :
    (env : Env) (s : Service) (tenant : Tenant) (email password ip : String) (w : World)
    → Login env s email tenant.id password w.db
        (login env s (some tenant) email password ip w).0
        (login env s (some tenant) email password ip w).1.db
unfolding login authenticate
login-Login env s tenant email password ip w =
    let end : Ends (login env s (some tenant) email password ip) w
        (λ r w'. Login env s email tenant.id password w.db r w'.db) =
      Ends-bind _ _ _ (
        Ends-pure _ _ (
          Ends-find_user_or_none env email tenant.id _ w (λ m w' same. same)
            (λ w' same. unknown_account-Logs env s email tenant password ip w.db w' same)
            (λ user w' found same.
              checked_password-Logs env s email tenant password ip w.db user user.password_hash w'
                found refl same))) in
    end.holds
