-- ===== src/Service/Context/Lookup.antt =====
-- The look-up of a user by address and tenant, as the service's methods go on from it.
use go_auth_api.Base.{
  Option, Option-cases, String, inl, inr, none, refl, some, str_eq, ℕ, ◌&&◌, ◌==◌, ◌≡◌,
}
use go_auth_api.Errors.{external}
use go_auth_api.Models.Account.{User}
use go_auth_api.Repo.Users.{find_user_by_email, user_by_email}
use go_auth_api.Service.Context.{or_no_row}
use go_auth_api.Sql.{select_one}
use go_auth_api.World.{Database, Env, Outcome, World, err}
use go_auth_api.World.Action.{Action, ◌>>=◌}
use go_auth_api.World.Ends.{Ends, Ends-bind, Ends-catch, Ends-execute_pool, Ends-pure, Ends-raise}

-- The row that the look-up leads to.
abbrev pub UserAt : String → ℕ → Database → User → Type 0
UserAt email tid d user =
    select_one (λ (u : User). str_eq u.email email && u.tenant_id == tid) d.users ≡ some user

module _ (env : Env) {B : Type 0} {Q : Outcome B → World → Type 0} where
  pub Ends-find_user_or_none :
      (email : String) (tid : ℕ) (f : Option User → Action B) (w : World)
      → ((m : String) (w' : World) → w'.db ≡ w.db → Q (err (external m)) w')
      → ((w' : World) → w'.db ≡ w.db → Ends (f none) w' Q)
      → ((u : User) (w' : World) → UserAt email tid w.db u → w'.db ≡ w.db → Ends (f (some u)) w' Q)
      → Ends (or_no_row (find_user_by_email env email tid) >>= f) w Q
  unfolding user_by_email
  Ends-find_user_or_none email tid f w failing missing found = Ends-bind _ _ _ (
      Ends-catch _ _ _ (
        Ends-bind _ _ _ (
          Ends-execute_pool env _ _ (λ m _. Ends-raise _ _ (failing m _ refl))
            (elim (Option-cases
              (select_one (λ (u : User). str_eq u.email email && u.tenant_id == tid) w.db.users)) [
                | inl e ↦ rw e (Ends-pure _ _ (missing _ refl))
                | inr (u, e) ↦ rw e (Ends-pure _ _ (found u _ e refl))
              ]))))
