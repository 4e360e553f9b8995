-- ===== src/Service/Signup/Built.antt =====
-- What `signUpDataBuilder` builds, and how `SignupService` ends.
-- The models of one signup belong together.
use go_auth_api.Base.{String, ap, false, inl, inr, none, refl, some, ℕ, ◌<>◌, ◌≡◌, ◌⊎◌}
use go_auth_api.Models.Account.{EmailVerificationToken, Tenant}
use go_auth_api.Models.Event.{
  email_payload, email_verification_requested, new_event, pending, user_created, user_info_payload,
  verification_request,
}
use go_auth_api.Repo.Users.{clashes_with}
use go_auth_api.Service.Context.{Service}
use go_auth_api.Service.Signup.{
  SignUpData, SignupResponse, sign_up_data_builder, sign_up_transaction, signup_response_builder,
  signup_service, verify_email_url,
}
use go_auth_api.Service.Signup.Transaction.{SignsUp, sign_up_transaction-SignsUp, signed_up}
use go_auth_api.Sql.{exists_row}
use go_auth_api.Tokens.{generate_email_verification_token, hash_token, sign_client_id}
use go_auth_api.Tokens.Fresh.{
  IsRefreshFor, generate_access_token_lem, generate_refresh_token_lem, hash_password_lem,
}
use go_auth_api.World.{Database, Env, Outcome, World, err, ok, panicked}
use go_auth_api.World.Ends.{Continues, Ends, Ends-bind, Ends-pure}
use go_auth_api.World.Prepares.{
  Ends-prepare, Prepares, Prepares-bind, Prepares-call, Prepares-marshal, Prepares-new_uuid_v7,
  Prepares-pure, Prepares-time_now, at_call,
}

pub record BuiltFor (env : Env) (s : Service) (email username password tenant_name : String)
    (tid : ℕ) (sud : SignUpData) : Type 0 where
  pub address : sud.user.email ≡ email
  pub of_tenant : sud.user.tenant_id ≡ tid
  pub no_username : sud.user.username ≡ none
  pub unverified : (sud.user.email_verified ≡ false) × (sud.user.is_active ≡ false)
  pub salt : ℕ
  pub hashed : sud.user.password_hash ≡ some (env.bcrypt salt password)
  pub mail_owner : sud.email_verification_token.user_id ≡ sud.user.id
  pub mail_hash :
      sud.email_verification_token.token_hash ≡ hash_token env sud.plain_email_token s.token_secret
  pub family : ℕ
  pub family_drawn : (n : ℕ) × (family ≡ env.new_uuid n)
  pub client : String
  pub token_made :
      IsRefreshFor env sud.user.id family 0 tid client s.token_secret sud.plain_refresh_token
        sud.refresh_token
  pub created : sud.user_created_event.status ≡ pending
  pub mailed : sud.email_verification_event.status ≡ pending
  pub kinds :
      (sud.user_created_event.event_type ≡ user_created)
      × (sud.email_verification_event.event_type ≡ email_verification_requested)
  pub info : sud.user_info ≡ record {
    user_id = sud.user.id;
    email = email;
    username = username;
    verified = false;
    created_at = sud.user.created_at;
  }
  pub created_payload : sud.user_created_event.payload ≡ user_info_payload sud.user_info
  pub mailed_payload :
      sud.email_verification_event.payload
      ≡ email_payload (record {
        tenant = tenant_name;
        user_id = sud.user.id;
        email = email;
        username = none;
        event_id = sud.email_verification_event.id;
        ip = "";
        payload_data =
            verification_request
              (s.app_url <> ("/verify-email?t=" <> sud.plain_email_token))
              sud.email_verification_token.expires_at;
      })

-- A fresh token for the verification of an address.
abbrev IsEmailTokenFor : Env → ℕ → String → String × EmailVerificationToken → Type 0
IsEmailTokenFor env uid secret r =
    (r.1.user_id ≡ uid) × (r.1.token_hash ≡ hash_token env r.0 secret)

generate_email_verification_token_lem :
    (env : Env) (user_id : ℕ) (secret : String)
    → Prepares env
        (generate_email_verification_token env user_id secret)
        (IsEmailTokenFor env user_id secret)
generate_email_verification_token_lem env user_id secret =
    Prepares-bind _ _ (Prepares-call env) λ raw _.
      Prepares-bind _ _ (Prepares-time_now env)
        λ now _. Prepares-bind _ _ (Prepares-new_uuid_v7 env) λ id _. Prepares-pure _ (refl, refl)

sign_up_data_builder_lem :
    (env : Env) (s : Service) (email username password client tenant_name : String) (tid : ℕ)
    → Prepares env
        (sign_up_data_builder env s email username password client tenant_name tid)
        (BuiltFor env s email username password tenant_name tid)
unfolding sign_up_data_builder new_event verify_email_url
sign_up_data_builder_lem env s email username password client tenant_name tid =
    Prepares-bind _ _ (Prepares-time_now env) λ now _.
      Prepares-bind _ _ (hash_password_lem env password) λ hash (salt, e).
        Prepares-bind _ _ (Prepares-new_uuid_v7 env) λ user_id _.
          Prepares-bind _ _ (generate_email_verification_token_lem env user_id s.token_secret)
            λ mail (owner, mail_hash).
              Prepares-bind _ _ (Prepares-new_uuid_v7 env) λ family family_drawn.
                Prepares-bind _ _
                  (generate_refresh_token_lem env user_id family 0 tid client s.token_secret)
                  λ token made. Prepares-bind _ _ (Prepares-marshal env _) λ payload same.
                    Prepares-bind _ _ (Prepares-new_uuid_v7 env) λ created_id _.
                      Prepares-bind _ _ (Prepares-new_uuid_v7 env) λ mail_id _.
                        Prepares-bind _ _ (Prepares-marshal env _) λ mail_payload mail_same.
                          Prepares-pure _ (record {
                            address = refl;
                            of_tenant = refl;
                            no_username = refl;
                            unverified = (refl, refl);
                            salt = salt;
                            hashed = ap (λ h. some h) e;
                            mail_owner = owner;
                            mail_hash = mail_hash;
                            family = family;
                            family_drawn = family_drawn;
                            client = client;
                            token_made = made;
                            created = refl;
                            mailed = refl;
                            kinds = (refl, refl);
                            info = refl;
                            created_payload = same;
                            mailed_payload = mail_same;
                          })

-- The five rows of a signup are stored, and its user clashed with none.
pub record SignedUp (env : Env) (s : Service) (email username password tenant_name : String)
    (tid : ℕ) (d d' : Database) : Type 0 where
  pub sud : SignUpData
  pub built : BuiltFor env s email username password tenant_name tid sud
  pub stored : d' ≡ signed_up sud d
  pub no_clash : exists_row (clashes_with sud.user) d.users ≡ false

abbrev pub Signs :
    Env
    → Service
    → String
    → String
    → String
    → String
    → ℕ
    → Database
    → Outcome SignupResponse
    → Database
    → Type 0
Signs env s email username password tenant_name tid d (ok r) d' =
    (h : SignedUp env s email username password tenant_name tid d d') × (r.user ≡ h.sud.user_info)
    × (r.refresh_token ≡ h.sud.plain_refresh_token)
Signs env s email username password tenant_name tid d (err _) d' =
    (d' ≡ d) ⊎ SignedUp env s email username password tenant_name tid d d'
Signs env s email username password tenant_name tid d panicked d' = ⊥

module _ (env : Env) (s : Service) (email username password tenant_name : String) (tid : ℕ)
    (d : Database) where
  abbrev Ending : Outcome SignupResponse → World → Type 0
  Ending r w = Signs env s email username password tenant_name tid d r w.db

  -- From the transaction on.
  store_and_answer :
      (sud : SignUpData) (w : World) (r : Outcome (Unit {0})) (w' : World)
      → BuiltFor env s email username password tenant_name tid sud
      → SignsUp sud d r w'.db
      → Continues (λ _. signup_response_builder env s sud) Ending r w'
  unfolding signup_response_builder
  store_and_answer sud w (ok _) w' built (stored, no_clash) =
      let done : SignedUp env s email username password tenant_name tid d w'.db = record {
        sud = sud;
        built = built;
        stored = stored;
        no_clash = no_clash;
      } in
      Ends-prepare _ _ _ (generate_access_token_lem env sud.user.id sud.user.email)
        (λ m j k _. inr done) λ access k _. Ends-pure _ _ (done, refl, refl)
  store_and_answer sud w (err _) w' built same = inl same
  store_and_answer sud w panicked w' built never = absurd never

-- `SignupService` for a tenant. It returns a response only with the user, both tokens and both events
-- of one signup stored: the user's row has the address, the tenant, a hash of the password and no user
-- name, and is neither verified nor active; the tokens are the user's; the first event carries the user's
-- data as they are in the response, and the second one the tenant's name, the user, its own id and the
-- link with the plain text of the stored verification token. The user clashed with none of before. Where it
-- returns an error, the database is as it was, or all of the signup is stored (the access token
-- could not be signed). It does not panic.
pub signup_service-Signs :
    (env : Env) (s : Service) (tenant : Tenant) (email username password : String) (tid : ℕ)
    (w : World)
    → Signs env s email username password tenant.tenant_name tid w.db
        (signup_service env s (some tenant) email username password tid w).0
        (signup_service env s (some tenant) email username password tid w).1.db
unfolding signup_service
signup_service-Signs env s tenant email username password tid w =
    let end : Ends (signup_service env s (some tenant) email username password tid) w
        (λ r w'. Signs env s email username password tenant.tenant_name tid w.db r w'.db) =
      Ends-prepare _ _ _ (Prepares-new_uuid_v7 env) (λ m j k _. inl refl)
        λ client k _. Ends-bind _ _ _ (
          Ends-pure _ _ (
            Ends-prepare _ _ _
              (sign_up_data_builder_lem env s email username password
                (sign_client_id env client s.token_secret) tenant.tenant_name tid)
              (λ m j k' _. inl refl)
              λ sud k' built. Ends-bind _ _ _ (record {
                holds =
                    store_and_answer env s email username password tenant.tenant_name tid w.db sud
                      (at_call k' w) (sign_up_transaction env s sud (at_call k' w)).0
                      (sign_up_transaction env s sud (at_call k' w)).1 built
                      (sign_up_transaction-SignsUp env s sud (at_call k' w) built.created
                        built.mailed);
              }))) in
    end.holds
