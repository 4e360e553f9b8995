-- ===== src/Service/Passwords/Change.antt =====
-- How `ChangePassword` ends.
-- A change that succeeds: the account is there, the old password is the one whose hash is stored, the
-- hash of the new one is stored, and one event is added.
use go_auth_api.Base.{
  Bool-cases, Option, Option-cases, String, ap, inl, inr, none, refl, some, str_eq, true, ℕ, ◌&&◌,
  ◌*◌, ◌+◌, ◌==◌, ◌∷◌, ◌≡◌,
}
use go_auth_api.Broker.{opened}
use go_auth_api.Models.Account.{Tenant, User, minute}
use go_auth_api.Models.Event.{OutboxEvent, email_password_reset_requested, new_event}
use go_auth_api.Repo.Inserts.{Ends-insert, Pending, insert_event_cases, unclaimed}
use go_auth_api.Repo.Users.{set_password, user_by_email}
use go_auth_api.Service.Context.{Service}
use go_auth_api.Service.Context.Lookup.{UserAt}
use go_auth_api.Service.Passwords.{
  ChangePasswordRequest, change_password, change_password_of, change_password_writes,
}
use go_auth_api.Sql.{select_one}
use go_auth_api.Tokens.Fresh.{hash_password_lem}
use go_auth_api.World.{Database, Env, Outcome, World, err, ok, panicked}
use go_auth_api.World.Action.{crash}
use go_auth_api.World.Ends.{
  Ends, Ends-begin_tx, Ends-bind, Ends-catch, Ends-commit, Ends-execute_pool, Ends-execute_tx,
  Ends-pure, Ends-raise, Ends-rollback, Ends-time_now,
}
use go_auth_api.World.Prepares.{Ends-prepare, Prepares-marshal, Prepares-new_uuid_v7}

pub record PasswordChanged (env : Env) (email : String) (tid : ℕ) (old new : String)
    (d d' : Database) : Type 0 where
  pub user : User
  pub found : UserAt email tid d user
  pub hash : String
  pub with_password : user.password_hash ≡ some hash
  pub matches : env.bcrypt_matches hash old ≡ true
  pub salt : ℕ
  pub began : ℕ
  pub event : OutboxEvent
  pub stored : d' ≡ record (set_password user.id (env.bcrypt salt new) began d).1 {
    outbox_events = unclaimed event ∷ d.outbox_events;
  }

abbrev pub Changes :
    Env → String → ℕ → String → String → Database → Outcome (Unit {0}) → Database → Type 0
Changes env email tid old new d (ok _) d' = PasswordChanged env email tid old new d d'
Changes env email tid old new d (err _) d' = d' ≡ d
Changes env email tid old new d panicked d' =
    (d' ≡ d) × (user : User) × UserAt email tid d user × (user.password_hash ≡ none)

module _ (env : Env) (s : Service) (tenant : Tenant) (req : ChangePasswordRequest) (ip : String)
    (d : Database) where
  abbrev Ending : Outcome (Unit {0}) → World → Type 0
  Ending r w = Changes env req.email tenant.id req.old_password req.new_password d r w.db

  change_writes-Ending :
      (user : User) (hash : String) (w : World) (began salt : ℕ)
      → Pending w d d began
      → UserAt req.email tenant.id d user
      → user.password_hash ≡ some hash
      → env.bcrypt_matches hash req.old_password ≡ true
      → Ends
          (change_password_writes env s user tenant (env.bcrypt salt req.new_password) ip)
          w
          Ending
  unfolding change_password_writes set_password new_event
  change_writes-Ending user hash w began salt (opened, kept) found with_password match =
      Ends-bind _ _ _ (
        Ends-catch _ _ _ (
          Ends-execute_tx env _ _ _ opened (λ m _. Ends-raise _ _ kept)
            (Ends-prepare _ _ _ (Prepares-new_uuid_v7 env) (λ m j k _. kept)
              λ id k _.
                Ends-prepare _ _ _ (Prepares-marshal env _) (λ m j k' _. kept)
                  λ payload k' _. Ends-time_now env _ _ (
                    Ends-insert env d (λ m w' h. h) _ _ _ began _ _ (refl, kept)
                      (insert_event_cases env _ began _ refl)
                      λ w₁ i₁.
                        Ends-commit env w₁ _ i₁.0 (λ m _. i₁.1)
                          (record {
                            user = user;
                            found = found;
                            hash = hash;
                            with_password = with_password;
                            matches = match;
                            salt = salt;
                            began = began;
                            event =
                                new_event id email_password_reset_requested payload
                                  (env.clock k' + 5 * minute) (env.clock k');
                            stored = refl;
                          })))))

  change_of-Ending :
      (user : User) (hash : Option String) (w : World)
      → UserAt req.email tenant.id d user
      → user.password_hash ≡ hash
      → w.db ≡ d
      → Ends (change_password_of env s user tenant req ip) w Ending
  unfolding change_password_of crash
  change_of-Ending user none w found p kept =
      simp (change_password_of, p) (record { holds = (kept, user, found, p) })
  change_of-Ending user (some hash) w found p kept =
      simp (change_password_of, p)
        (elim (Bool-cases (env.bcrypt_matches hash req.old_password)) [
          | inl match ↦ rw match (
              Ends-prepare _ _ _ (hash_password_lem env req.new_password) (λ m j k _. kept)
                λ hashed k (salt, e).
                  Ends-begin_tx env _ _ (λ m _. kept)
                    (Ends-rollback _ _ (
                      rw e (
                        change_writes-Ending user hash _ (env.clock k) salt
                          (
                            ap (λ (x : Database). some (record { work = x; began = env.clock k }))
                                kept,
                            kept,
                          )
                          found p match))))
          | inr mismatch ↦ rw mismatch (Ends-raise _ _ kept)
        ])

-- `ChangePassword` for a tenant. It returns nil only for an account of that address whose stored hash
-- the old password matches, and then it has stored a hash of the new password and one event, and
-- nothing else; an error leaves the database as it was; and it panics only for an account that has
-- no password, with the database as it was.
pub change_password-Changes :
    (env : Env) (s : Service) (tenant : Tenant) (req : ChangePasswordRequest) (ip : String)
    (w : World)
    → Changes env req.email tenant.id req.old_password req.new_password w.db
        (change_password env s (some tenant) req ip w).0
        (change_password env s (some tenant) req ip w).1.db
unfolding change_password user_by_email
change_password-Changes env s tenant req ip w =
    let end : Ends (change_password env s (some tenant) req ip) w
        (λ r w'. Changes env req.email tenant.id req.old_password req.new_password w.db r w'.db) =
      Ends-bind _ _ _ (
        Ends-pure _ _ (
          Ends-bind _ _ _ (
            Ends-catch _ _ _ (
              Ends-execute_pool env _ _ (λ m _. Ends-raise _ _ refl)
                (elim (Option-cases (
                  select_one (λ (u : User). str_eq u.email req.email && u.tenant_id == tenant.id)
                    w.db.users)) [
                      | inl e ↦ rw e (Ends-raise _ _ refl)
                      | inr (user, e) ↦ rw e (
                          change_of-Ending env s tenant req ip w.db user user.password_hash _ e refl
                            refl)
                    ]))))) in
    end.holds
