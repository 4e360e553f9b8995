-- ===== src/Startup/Keys.antt =====
-- internal/config/keyloaders.go, and `LoadKeys` of internal/config/load.go. The file system and the
-- libraries of Go for PEM and X.509 are parameters.
use go_auth_api.Base.{Bool, Option, String, none, some}
use go_auth_api.Config.Load.{get_file_path}
use go_auth_api.Config.Values.{Loaded, load_error, loaded, ◌>>=◌}
use go_auth_api.Errors.{message}

-- A private key of PKCS #8, or a public key of PKIX, by its type.
pub data Key : Type 0 where
  rsa_key : String → Key
  other_key : Key

-- The parameters: `os.ReadFile`, `pem.Decode`, `x509.ParsePKCS8PrivateKey`, `x509.ParsePKIXPublicKey`.
pub record KeyFiles : Type 0 where
  pub read_file : String → Loaded String
  pub pem_decode : String → Option String
  pub parse_pkcs8 : String → Loaded Key
  pub parse_pkix : String → Loaded Key

abbrev pub rsa_of : String → Key → Loaded String
rsa_of message (rsa_key k) = loaded k
rsa_of message other_key = load_error message

-- The part of `LoadPrivateKey` and of `LoadPublicKey` after `pem.Decode`.
abbrev pub parse_block : (String → Loaded Key) → String → Option String → Loaded String
parse_block parse message none = load_error "failed to decode PEM block"
parse_block parse message (some block) = parse block >>= rsa_of message

module _ (files : KeyFiles) where
  -- `LoadPrivateKey`
  unfoldable pub load_private_key : String → Loaded String
  load_private_key path = do
    data' ← files.read_file path
    parse_block files.parse_pkcs8 "not an RSA private key" (files.pem_decode data')

  -- `LoadPublicKey`
  unfoldable pub load_public_key : String → Loaded String
  load_public_key path = do
    data' ← files.read_file path
    parse_block files.parse_pkix "not an RSA public key" (files.pem_decode data')

-- `LoadKeys`
unfoldable pub load_keys : (String → String) → (String → Bool) → KeyFiles → Loaded (String × String)
load_keys getenv stat files = do
  priv ←
      load_private_key files (
        get_file_path getenv stat "AUTH_PRIVATE_KEY_PATH" "authapi_private_key" "creds/private.pem")
  pub_key ←
      load_public_key files
        (get_file_path getenv stat "AUTH_PUBLIC_KEY_PATH" "authapi_public_key" "creds/public.pem")
  loaded (priv, pub_key)
