-- ===== src/Config/Origins.antt =====
-- internal/config/load.go: the list `CORS_ALLOWED_ORIGINS` from the environment to the options of the
-- CORS handler.
use Prim.Native.Char.{code}
use go_auth_api.Base.{
  All, Bool, List, String, [], ap, false, if◌then◌else◌, or_false, refl, sym, true, ◌||◌, ◌∙◌, ◌∷◌,
  ◌≡◌,
}
use go_auth_api.Config.Load.{Config, CorsOptions, load, load_cors}
use go_auth_api.Config.Values.{
  bind_loaded, is_comma, is_empty, is_nil, list_values, loaded, loaded_inj, parse_env_list,
  split_commas, trim_quotes, trim_space, trimmed_origins,
}

-- `strings.Join(xs, ",")`
abbrev before_comma : String → String → String
before_comma String.[] s = String.◌∷◌ "," s
before_comma (String.◌∷◌ c x) s = String.◌∷◌ c (before_comma x s)

abbrev pub join_commas : List String → String
join_commas [] = ""
join_commas (x ∷ []) = x
join_commas (x ∷ y ∷ ys) = before_comma x (join_commas (y ∷ ys))

abbrev pub has_comma : String → Bool
has_comma String.[] = false
has_comma (String.◌∷◌ c s) = is_comma (code c) || has_comma s

-- A value that a list can hold: not empty, without a comma, and without a space or a quote at its ends.
abbrev pub IsValue : String → Type 0
IsValue x = (has_comma x ≡ false) × (is_empty x ≡ false) × (trim_space x ≡ x) × (trim_quotes x ≡ x)

split_commas-one : (x : String) → has_comma x ≡ false → split_commas x ≡ x ∷ []
unfolding split_commas
split_commas-one String.[] h = refl
split_commas-one (String.◌∷◌ c x) h =
    let (e, k) = or_false (is_comma (code c)) (has_comma x) h in rw (e, split_commas-one x k) refl

split_commas-before :
    (x s : String) → has_comma x ≡ false → split_commas (before_comma x s) ≡ x ∷ split_commas s
unfolding split_commas
split_commas-before String.[] s h = refl
split_commas-before (String.◌∷◌ c x) s h =
    let (e, k) = or_false (is_comma (code c)) (has_comma x) h in
    rw (e, split_commas-before x s k) refl

split_commas-join :
    (x : String) (xs : List String)
    → All IsValue (x ∷ xs)
    → split_commas (join_commas (x ∷ xs)) ≡ x ∷ xs
split_commas-join x [] h = split_commas-one x h.0.0
split_commas-join x (y ∷ ys) h =
    split_commas-before x (join_commas (y ∷ ys)) h.0.0
    ∙ ap (λ zs. x ∷ zs) (split_commas-join y ys h.1)

list_values-id : (xs : List String) → All IsValue xs → list_values xs ≡ xs
unfolding list_values
list_values-id [] h = refl
list_values-id (x ∷ xs) h = rw (h.0.2, h.0.3, h.0.1) (ap (λ zs. x ∷ zs) (list_values-id xs h.1))

trimmed_origins-id : (xs : List String) → All IsValue xs → trimmed_origins xs ≡ xs
unfolding trimmed_origins
trimmed_origins-id [] h = refl
trimmed_origins-id (x ∷ xs) h = rw (h.0.2, h.0.1) (ap (λ zs. x ∷ zs) (trimmed_origins-id xs h.1))

before_comma-nonempty : (x s : String) → is_empty (before_comma x s) ≡ false
before_comma-nonempty String.[] s = refl
before_comma-nonempty (String.◌∷◌ c x) s = refl

join_commas-nonempty :
    (x : String) (xs : List String) → is_empty x ≡ false → is_empty (join_commas (x ∷ xs)) ≡ false
join_commas-nonempty x [] h = h
join_commas-nonempty x (y ∷ ys) h = before_comma-nonempty x _

parse_env_list-join : (xs : List String) → All IsValue xs → parse_env_list (join_commas xs) ≡ xs
unfolding parse_env_list
parse_env_list-join [] h = refl
parse_env_list-join (x ∷ xs) h =
    rw (join_commas-nonempty x xs h.0.1, split_commas-join x xs h) (list_values-id (x ∷ xs) h)

-- A configuration that loads holds what `CORS_ALLOWED_ORIGINS` lists.
load-origins :
    (getenv : String → String) (cfg : Config)
    → load getenv ≡ loaded cfg
    → cfg.cors_allowed_origins ≡ parse_env_list (getenv "CORS_ALLOWED_ORIGINS")
unfolding load
load-origins getenv cfg h =
    let (_, _, h1) = bind_loaded _ _ h in
    let (_, _, h2) = bind_loaded _ _ h1 in
    let (_, _, h3) = bind_loaded _ _ h2 in
    let (_, _, h4) = bind_loaded _ _ h3 in
    let (_, _, h5) = bind_loaded _ _ h4 in
    let (_, _, h6) = bind_loaded _ _ h5 in sym (ap (λ c. c.cors_allowed_origins) (loaded_inj h6))

abbrev options_for : List String → CorsOptions
options_for [] = record { allowed_origins = "*" ∷ []; allow_credentials = false }
options_for (x ∷ xs) = record { allowed_origins = x ∷ xs; allow_credentials = true }

-- Where the configuration loads, and `CORS_ALLOWED_ORIGINS` is a list of values joined by commas, each
-- of them not empty, without a comma, and with neither white space nor a quote at its ends, the options
-- given to the CORS handler have exactly these values as allowed origins, with credentials; where the
-- list is empty, they have "*" alone, without credentials.
pub load_cors-join :
    (getenv : String → String) (cfg : Config) (xs : List String)
    → load getenv ≡ loaded cfg
    → getenv "CORS_ALLOWED_ORIGINS" ≡ join_commas xs
    → All IsValue xs
    → load_cors cfg ≡ options_for xs
unfolding load_cors
load_cors-join getenv cfg xs h e values =
    rw (load-origins getenv cfg h, e, parse_env_list-join xs values, trimmed_origins-id xs values)
      (go xs)
  where
    go :
        (xs : List String)
        → (if is_nil xs
            then record { allowed_origins = "*" ∷ []; allow_credentials = false }
            else record { allowed_origins = xs; allow_credentials = true })
          ≡ options_for xs
    go [] = refl
    go (x ∷ xs) = refl
