-- ===== src/Examples/Tokens.antt =====
-- A signed client identifier, checked.
use go_auth_api.Base.{Option, String, if◌then◌else◌, none, refl, some, str_eq, ℕ, ◌≡◌}
use go_auth_api.Examples.{site}
use go_auth_api.Tokens.{sign_client_id}
use go_auth_api.Tokens.ClientId.{Signed, cut_dot, verify_client_id, verify_client_id-sign}

abbrev parse : String → Option ℕ
parse text = if str_eq text "uuid" then some 9 else none

verify_client_id_run :
    (verify_client_id site parse (sign_client_id site 9 "secret") "secret" ≡ some 9)
    × (verify_client_id site parse "uuid.0123456789abcdee" "secret" ≡ none)
unfolding verify_client_id sign_client_id cut_dot
verify_client_id_run = (refl, refl)

verify_client_id-sign_example :
    (verify_client_id site parse (sign_client_id site 9 "secret") "secret" ≡ some 9)
    × ((n : ℕ) (s : String)
        → verify_client_id site parse s "secret" ≡ some n
        → Signed site parse "secret" n s)
verify_client_id-sign_example = verify_client_id-sign site parse "secret" 9 refl refl
