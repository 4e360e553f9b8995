-- ===== src/Service/Passwords/Reset.antt =====
-- How `ResetPassword` ends.
use go_auth_api.Base.{
  Option-cases, String, ap, inl, inr, is_none, refl, some, subst, sym, ℕ, ◌&&◌, ◌*◌, ◌+◌, ◌==◌, ◌∷◌,
  ◌≡◌, ◌⊎◌,
}
use go_auth_api.Broker.{opened}
use go_auth_api.Errors.{external}
use go_auth_api.Models.Account.{RefreshToken, Tenant, User, minute}
use go_auth_api.Models.Event.{OutboxEvent, new_event, user_password_reset_succeeded}
use go_auth_api.Repo.Inserts.{Ends-insert, Pending, insert_event_cases, unclaimed}
use go_auth_api.Repo.Outbox.{create_event}
use go_auth_api.Repo.Refresh.{revoke_all_for_user, set_revoked_for_user}
use go_auth_api.Repo.Reset.{
  is_valid_reset, mark_reset_token_used, set_reset_used, valid_reset_token,
}
use go_auth_api.Repo.Users.{change_password_hash, find_user_by_id, set_password, user_by_id}
use go_auth_api.Service.Context.{Service}
use go_auth_api.Service.Login.{login_payload}
use go_auth_api.Service.Passwords.{reset_password, reset_password_writes}
use go_auth_api.Sql.{select_one, update_rows}
use go_auth_api.Tokens.{hash_token}
use go_auth_api.Tokens.Fresh.{hash_password_lem}
use go_auth_api.World.{Database, Env, Outcome, ResetRow, World, err, ok, panicked}
use go_auth_api.World.Action.{commit, in_tx, marshal, new_uuid_v7, time_now, ◌>>=◌, ◌>>◌}
use go_auth_api.World.Ends.{
  Ends, Ends-begin_tx, Ends-bind, Ends-catch, Ends-commit, Ends-execute_pool, Ends-execute_tx,
  Ends-pure, Ends-raise, Ends-rollback, Ends-time_now,
}
use go_auth_api.World.Prepares.{Ends-prepare, Prepares-marshal, Prepares-new_uuid_v7}

-- The rows that a reset by the token `row` leaves.
abbrev pub reset_rows : ResetRow → ℕ → String → ℕ → ℕ → ℕ → OutboxEvent → Database → Database
reset_rows row tid hashed began used_at revoked_at event d = record d {
  users =
      update_rows (λ (u : User). u.id == row.token.user_id)
        (λ u. record u { password_hash = some hashed; updated_at = began }) d.users;
  reset_tokens =
      update_rows (λ (r : ResetRow). r.token.id == row.token.id)
        (λ r. record r { token = record r.token { used_at = some used_at } }) d.reset_tokens;
  refresh_tokens =
      update_rows
        (λ (t : RefreshToken).
          t.user_id == row.token.user_id && is_none t.revoked_at && t.tenant_id == tid)
        (λ t. record t { revoked_at = some revoked_at }) d.refresh_tokens;
  outbox_events = unclaimed event ∷ d.outbox_events;
}

-- The sessions of the token's user are revoked, and nothing else has happened.
pub record OnlySessionsRevoked (hash : String) (tid : ℕ) (d d' : Database) : Type 0 where
  pub began : ℕ
  pub row : ResetRow
  pub found : select_one (is_valid_reset hash tid began) d.reset_tokens ≡ some row
  pub now : ℕ
  pub revoked : d' ≡ (set_revoked_for_user row.token.user_id tid now d).1

-- A reset that succeeds: the token was valid when the transaction began, the password is the hash of
-- the new one, the token is used, the sessions of its user are revoked and one event is stored.
pub record PasswordReset (env : Env) (hash : String) (tid : ℕ) (password : String) (d d' : Database)
    : Type 0 where
  pub began : ℕ
  pub row : ResetRow
  pub found : select_one (is_valid_reset hash tid began) d.reset_tokens ≡ some row
  pub salt : ℕ
  pub used_at : ℕ
  pub revoked_at : ℕ
  pub event : OutboxEvent
  pub kind : event.event_type ≡ user_password_reset_succeeded
  pub stored : d' ≡ reset_rows row tid (env.bcrypt salt password) began used_at revoked_at event d

abbrev pub Resets : Env → String → ℕ → String → Database → Outcome (Unit {0}) → Database → Type 0
Resets env hash tid password d (ok _) d' = PasswordReset env hash tid password d d'
Resets env hash tid password d (err _) d' = (d' ≡ d) ⊎ OnlySessionsRevoked hash tid d d'
Resets env hash tid password d panicked d' = ⊥

module _ (env : Env) (s : Service) (tenant : Tenant) (hash password ip : String)
    (d : Database) where
  abbrev Ending : Outcome (Unit {0}) → World → Type 0
  Ending r w = Resets env hash tenant.id password d r w.db

  -- From the event on: the sessions are revoked in `d₁`, and the transaction has done the rest.
  finish_reset :
      (user : User) (w : World) (began : ℕ) (d₁ e : Database)
      → Pending w d₁ e began
      → OnlySessionsRevoked hash tenant.id d d₁
      → ((event : OutboxEvent)
          → event.event_type ≡ user_password_reset_succeeded
          → PasswordReset env hash tenant.id password d
              (record e { outbox_events = unclaimed event ∷ e.outbox_events }))
      → Ends
          (do
            event_id ← new_uuid_v7 env
            payload ← marshal env (login_payload user tenant ip event_id)
            now ← time_now env
            create_event env in_tx
                (new_event event_id user_password_reset_succeeded payload (now + 5 * minute) now)
            commit env)
          w
          Ending
  unfolding new_event
  finish_reset user w began d₁ e (opened, kept) only done =
      let failing : (m : String) (w' : World) → w'.db ≡ d₁ → Ending (err (external m)) w' =
        λ m w' k. inr (subst (OnlySessionsRevoked hash tenant.id d) (sym k) only) in
      Ends-prepare _ _ _ (Prepares-new_uuid_v7 env) (λ m j k _. failing m w kept)
        λ id k _.
          Ends-prepare _ _ _ (Prepares-marshal env _) (λ m j k' _. failing m w kept)
            λ payload k' _. Ends-time_now env _ _ (
              Ends-insert env d₁ failing _ _ _ began e _ (opened, kept)
                (insert_event_cases env _ began e refl)
                λ w₁ i₁.
                  Ends-commit env w₁ _ i₁.0 (λ m _. failing m w₁ i₁.1)
                    (done
                      (new_event id user_password_reset_succeeded payload
                        (env.clock k' + 5 * minute) (env.clock k'))
                      refl))

  -- From the new hash on.
  write_reset :
      (row : ResetRow) (w : World) (began salt : ℕ)
      → Pending w d d began
      → select_one (is_valid_reset hash tenant.id began) d.reset_tokens ≡ some row
      → Ends
          (do
            change_password_hash env in_tx row.token.user_id (env.bcrypt salt password)
            mark_reset_token_used env in_tx row.token.id
            revoke_all_for_user env row.token.user_id tenant.id
            user ← find_user_by_id env row.token.user_id
            event_id ← new_uuid_v7 env
            payload ← marshal env (login_payload user tenant ip event_id)
            now ← time_now env
            create_event env in_tx
                (new_event event_id user_password_reset_succeeded payload (now + 5 * minute) now)
            commit env)
          w
          Ending
  unfolding set_password set_reset_used set_revoked_for_user user_by_id
  write_reset row w began salt (opened, kept) found = Ends-bind _ _ _ (
      Ends-execute_tx env _ _ _ opened (λ m _. inl kept)
        (Ends-bind _ _ _ (
          Ends-time_now env _ _ (
            Ends-execute_tx env _ _ _ refl (λ m _. inl kept)
              (Ends-bind _ _ _ (
                Ends-execute_pool env _ _ (λ m _. inl kept)
                  (Ends-bind _ _ _ (
                    Ends-execute_pool env _ _ (λ m _. inr (only _ kept))
                      (elim (Option-cases
                        (select_one (λ (u : User). u.id == row.token.user_id) w.db.users)) [
                          | inl e ↦ rw e (inr (only _ kept))
                          | inr (user, e) ↦ rw e (
                              finish_reset user _ began _ _ (refl, refl) (only _ kept)
                                λ event kind. record {
                                  began = began;
                                  row = row;
                                  found = found;
                                  salt = salt;
                                  used_at = _;
                                  revoked_at = _;
                                  event = event;
                                  kind = kind;
                                  stored = refl;
                                })
                        ])))))))))
    where
      only :
          (now : ℕ) {d₀ : Database}
          → d₀ ≡ d
          → OnlySessionsRevoked hash tenant.id d
              (set_revoked_for_user row.token.user_id tenant.id now d₀).1
      only now k = record {
        began = began;
        row = row;
        found = found;
        now = now;
        revoked =
            ap (λ (x : Database). (set_revoked_for_user row.token.user_id tenant.id now x).1) k;
      }

  reset_password_writes-Ending :
      (w : World) (began : ℕ)
      → Pending w d d began
      → Ends (reset_password_writes env s tenant hash password ip) w Ending
  unfolding reset_password_writes valid_reset_token
  reset_password_writes-Ending w began (opened, kept) = Ends-bind _ _ _ (
      Ends-catch _ _ _ (
        Ends-execute_tx env _ _ _ opened (λ m _. Ends-raise _ _ (inl kept))
          (elim (Option-cases (select_one (is_valid_reset hash tenant.id began) d.reset_tokens)) [
            | inl e ↦ rw e (Ends-raise _ _ (inl kept))
            | inr (row, e) ↦ rw e (
                Ends-prepare _ _ _ (hash_password_lem env password) (λ m j k _. inl kept)
                  λ hashed k (salt, h). rw h (write_reset row _ began salt (refl, kept) e))
          ])))

-- `ResetPassword` for a tenant. It returns nil only after a token under the presented hash, of that
-- tenant, unused and unexpired, was found, and then exactly the account's password, the token's use,
-- the revocation of the account's sessions and one event are in the database. Where it returns an
-- error, the database is as it was, or the sessions of the account have been revoked and nothing
-- else has happened.
pub reset_password-Resets :
    (env : Env) (s : Service) (tenant : Tenant) (raw password ip : String) (w : World)
    → Resets env
        (hash_token env raw s.token_secret)
        tenant.id
        password
        w.db
        (reset_password env s (some tenant) raw password ip w).0
        (reset_password env s (some tenant) raw password ip w).1.db
unfolding reset_password
reset_password-Resets env s tenant raw password ip w =
    let end : Ends (reset_password env s (some tenant) raw password ip) w
        (λ r w'. Resets env (hash_token env raw s.token_secret) tenant.id password w.db r w'.db) =
      Ends-bind _ _ _ (
        Ends-pure _ _ (
          Ends-begin_tx env _ _ (λ m _. inl refl)
            (Ends-rollback _ _
              (reset_password_writes-Ending env s tenant _ password ip w.db _ _ (refl, refl))))) in
    end.holds
