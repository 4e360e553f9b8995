-- ===== src/Service/Verification/Verified.antt =====
-- How `VerifyEmail` ends.
-- The `WHERE` of `FindValidByHash`.
use go_auth_api.Base.{
  All, Bool, Bool-cases, Option-cases, String, arith, eq_iff, false, inl, inr, is_none, is_some,
  ltb, none, not_both, refl, some, str_eq, subst, suc, true, ℕ, ◌&&◌, ◌==◌, ◌||◌, ◌≡◌, ◌≢◌, ◌⊎◌,
}
use go_auth_api.Models.Account.{EmailVerificationToken, User, second}
use go_auth_api.Repo.Mail.{set_email_used, valid_email_token}
use go_auth_api.Repo.Users.{set_activated}
use go_auth_api.Service.Context.{Service}
use go_auth_api.Service.Verification.{verify_email}
use go_auth_api.Sql.{select_one, update_rows}
use go_auth_api.Sql.Laws.{select_one-none, select_one_sound, update_rows_takes}
use go_auth_api.Tokens.{hash_token}
use go_auth_api.World.{Database, Env, Outcome, World, err, ok, panicked}
use go_auth_api.World.Ends.{
  Ends, Ends-bind, Ends-catch, Ends-execute_pool, Ends-raise, Ends-time_now,
}

abbrev pub is_valid_email_token : String → ℕ → EmailVerificationToken → Bool
is_valid_email_token hash now t =
    str_eq t.token_hash hash && is_none t.used_at && ltb now t.expires_at

-- The token was valid; it is used now.
pub record TokenUsed (hash : String) (d d' : Database) : Type 0 where
  pub checked_at : ℕ
  pub token : EmailVerificationToken
  pub found : select_one (is_valid_email_token hash checked_at) d.email_tokens ≡ some token
  pub used_at : ℕ
  pub used :
      record d {
        email_tokens =
            update_rows
              (λ (t : EmailVerificationToken). t.id == token.id)
              (λ t. record t { used_at = some used_at })
              d.email_tokens;
      }
      ≡ d'

-- The token is used and its user is activated.
pub record EmailVerified (hash : String) (d d' : Database) : Type 0 where
  pub marked : Database
  pub first : TokenUsed hash d marked
  pub activated_at : ℕ
  pub activated :
      record marked {
        users =
            update_rows
              (λ (u : User). u.id == first.token.user_id)
              (λ u. record u { is_active = true; email_verified = true; updated_at = activated_at })
              marked.users;
      }
      ≡ d'

abbrev pub Verifies : String → Database → Outcome (Unit {0}) → Database → Type 0
Verifies hash d (ok _) d' = EmailVerified hash d d'
Verifies hash d (err _) d' = (d' ≡ d) ⊎ TokenUsed hash d d'
Verifies hash d panicked d' = ⊥

pub verify_email-Verifies :
    (env : Env) (s : Service) (raw : String) (w : World)
    → Verifies
        (hash_token env raw s.token_secret)
        w.db
        (verify_email env s raw w).0
        (verify_email env s raw w).1.db
unfolding verify_email valid_email_token set_email_used set_activated
verify_email-Verifies env s raw w =
    let end : Ends (verify_email env s raw) w
        (λ r w'. Verifies (hash_token env raw s.token_secret) w.db r w'.db) =
      Ends-bind _ _ _ (
        Ends-catch _ _ _ (
          Ends-execute_pool env _ _ (λ m _. Ends-raise _ _ (inl refl))
            (elim (Option-cases (
              select_one
                (is_valid_email_token (hash_token env raw s.token_secret) (env.clock w.calls))
                w.db.email_tokens)) [
                  | inl e ↦ rw e (Ends-raise _ _ (inl refl))
                  | inr (token, e) ↦ rw e (
                      Ends-time_now env _ _
                        (elim (Bool-cases (
                          is_some token.used_at
                          || ltb token.expires_at (env.clock (suc w.calls)))) [
                            | inl late ↦ rw late (Ends-raise _ _ (inl refl))
                            | inr good ↦ rw good (
                                Ends-time_now env _ _ (
                                  Ends-bind _ _ _ (
                                    Ends-execute_pool env _ _ (λ m _. inl refl)
                                      (let first : TokenUsed (hash_token env raw s.token_secret)
                                            w.db
                                            (set_email_used token.id (env.clock (suc (suc w.calls)))
                                              (env.clock (suc (suc (suc w.calls)))) w.db).1 =
                                          record {
                                            checked_at = env.clock w.calls;
                                            token = token;
                                            found = e;
                                            used_at = env.clock (suc (suc w.calls));
                                            used = refl;
                                          } in
                                        Ends-execute_pool env _ _ (λ m _. inr first)
                                          (record {
                                            marked = _;
                                            first = first;
                                            activated_at =
                                                env.clock (suc (suc (suc (suc w.calls))));
                                            activated = refl;
                                          })))))
                          ]))
                ]))) in
    end.holds

-- All rows under this hash are the same token.
abbrev pub OneEmailTokenUnder : String → ℕ → Database → Type 0
OneEmailTokenUnder hash id d =
    All (λ (t : EmailVerificationToken). t.token_hash ≡ hash → t.id ≡ id) d.email_tokens

-- `VerifyEmail` leaves no valid row under a hash that only its token has.
used_up :
    (hash : String) (id later : ℕ) (d d' : Database)
    → OneEmailTokenUnder hash id d
    → EmailVerified hash d d'
    → select_one (is_valid_email_token hash later) d'.email_tokens ≡ none
unfolding set_email_used set_activated
used_up hash id later d d' one v =
    subst (λ (x : Database). select_one (is_valid_email_token hash later) x.email_tokens ≡ none)
      v.activated
      (subst (λ (x : Database). select_one (is_valid_email_token hash later) x.email_tokens ≡ none)
        v.first.used
        (select_one-none (is_valid_email_token hash later) _ (
          update_rows_takes _ _ _ _ d.email_tokens (λ t hit same. used t)
            (λ t miss same. other t miss same) one)))
  where
    hit :
        (is_valid_email_token hash v.first.checked_at v.first.token ≡ true)
        × (v.first.token.token_hash ≡ hash → v.first.token.id ≡ id)
    hit = select_one_sound _ _ d.email_tokens v.first.token one v.first.found

    token_id : v.first.token.id ≡ id
    token_id = hit.1 (ground (arith, hit.0, eq_iff v.first.token.token_hash hash))

    used :
        (t : EmailVerificationToken)
        → is_valid_email_token hash later (record t { used_at = some v.first.used_at }) ≡ false
    used t = ground arith

    other :
        (t : EmailVerificationToken)
        → (t.id == v.first.token.id) ≡ false
        → (t.token_hash ≡ hash → t.id ≡ id)
        → is_valid_email_token hash later t ≡ false
    other t miss same = elim (Bool-cases (str_eq t.token_hash hash)) [
      | inl e ↦ absurd (apart (same ((eq_iff t.token_hash hash).0 e)))
      | inr e ↦ rw e refl
    ]
      where
        apart : t.id ≡ id → ⊥
        apart q = ground (arith, token_id, miss)

-- After `VerifyEmail` has returned nil for a token, and while the rows are those that it left, the
-- same token is refused: provided that the table held one token under its hash.
pub verify_email_once :
    (env : Env) (s : Service) (raw : String) (w later : World) (id : ℕ)
    → OneEmailTokenUnder (hash_token env raw s.token_secret) id w.db
    → (verify_email env s raw w).0 ≡ ok tt
    → later.db ≡ (verify_email env s raw w).1.db
    → (verify_email env s raw later).0 ≢ ok tt
verify_email_once env s raw w later id one first same second =
    not_both _
      (rw same
        (used_up (hash_token env raw s.token_secret) id after.first.checked_at w.db _ one before))
      after.first.found
  where
    before : EmailVerified (hash_token env raw s.token_secret) w.db (verify_email env s raw w).1.db
    before =
        subst
          (λ o. Verifies (hash_token env raw s.token_secret) w.db o (verify_email env s raw w).1.db)
          first (verify_email-Verifies env s raw w)

    after :
        EmailVerified
          (hash_token env raw s.token_secret)
          later.db
          (verify_email env s raw later).1.db
    after =
        subst
          (λ o.
            Verifies (hash_token env raw s.token_secret) later.db o
              (verify_email env s raw later).1.db)
          second (verify_email-Verifies env s raw later)
