-- ===== src/Config/Values.antt =====
-- internal/config/load.go: how a setting is read from a text, with the functions of Go's `strings`
-- and `strconv` that it calls.
use Prim.Native.Char.{Char, code}
use go_auth_api.Base.{
  Bool, List, Option, String, [], false, if◌then◌else◌, leb, ltb, none, refl, some, suc, true, zero,
  ℕ, ◌%◌, ◌&&◌, ◌*◌, ◌+◌, ◌-◌, ◌<>◌, ◌==◌, ◌^◌, ◌||◌, ◌∷◌, ◌≡◌,
}

-- What a loader returns: a value, or an error with its message.
pub data Loaded (A : Type 0) : Type 0 where
  loaded : A → Loaded A
  load_error : String → Loaded A

infixl 5 ◌>>=◌
unfoldable pub ◌>>=◌ : {A B : Type 0} → Loaded A → (A → Loaded B) → Loaded B
loaded a >>= f = f a
load_error e >>= f = load_error e

-- `if err != nil { … }` where another value or error takes the place of the error.
abbrev pub otherwise : {A : Type 0} → Loaded A → Loaded A → Loaded A
otherwise (loaded a) b = loaded a
otherwise (load_error e) b = b

pub loaded_inj : {A : Type 0} {a b : A} → loaded a ≡ loaded b → a ≡ b
loaded_inj h = cc

-- A chain that loads has loaded its first part.
pub bind_loaded :
    {A B : Type 0} {b : B} (m : Loaded A) (f : A → Loaded B)
    → (m >>= f) ≡ loaded b
    → (a : A) × (m ≡ loaded a) × (f a ≡ loaded b)
unfolding ◌>>=◌
bind_loaded (loaded a) f h = (a, refl, h)
bind_loaded (load_error e) f h = absurd cc

-- Go's `int`: `pos n` is n, and `negsuc n` is -(n + 1).
pub data ℤ : Type 0 where
  pos : ℕ → ℤ
  negsuc : ℕ → ℤ

abbrev pub is_empty : String → Bool
is_empty String.[] = true
is_empty (String.◌∷◌ c s) = false

abbrev pub is_nil : List String → Bool
is_nil [] = true
is_nil (x ∷ xs) = false

-- `unicode.IsSpace`: the characters of Latin-1 that it lists, and beyond them those with the property
-- White_Space.
abbrev pub is_space : ℕ → Bool
is_space c =
    (leb 9 c && leb c 13)
    || c == 32
    || c == 133
    || c == 160
    || c == 5760
    || (leb 8192 c && leb c 8202)
    || c == 8232
    || c == 8233
    || c == 8239
    || c == 8287
    || c == 12288

abbrev pub is_quote : ℕ → Bool
is_quote c = c == 34

abbrev pub is_comma : ℕ → Bool
is_comma c = c == 44

module _ (cut : ℕ → Bool) where
  unfoldable pub trim_left : String → String
  trim_left String.[] = ""
  trim_left (String.◌∷◌ c s) = if cut (code c) then trim_left s else String.◌∷◌ c s

  abbrev pub cons_trimmed : Char → String → String
  cons_trimmed c String.[] = if cut (code c) then "" else String.◌∷◌ c ""
  cons_trimmed c (String.◌∷◌ d s) = String.◌∷◌ c (String.◌∷◌ d s)

  unfoldable pub trim_right : String → String
  trim_right String.[] = ""
  trim_right (String.◌∷◌ c s) = cons_trimmed c (trim_right s)

  unfoldable pub trim : String → String
  trim s = trim_right (trim_left s)

-- `strings.TrimSpace`
abbrev pub trim_space : String → String
trim_space s = trim is_space s

-- `strings.Trim(s, "\"")`
abbrev pub trim_quotes : String → String
trim_quotes s = trim is_quote s

abbrev pub add_to_first : Char → List String → List String
add_to_first c [] = String.◌∷◌ c "" ∷ []
add_to_first c (x ∷ xs) = String.◌∷◌ c x ∷ xs

-- `strings.Split(s, ",")`
unfoldable pub split_commas : String → List String
split_commas String.[] = "" ∷ []
split_commas (String.◌∷◌ c s) =
    if is_comma (code c) then "" ∷ split_commas s else add_to_first c (split_commas s)

-- The loop of `parseEnvList`
unfoldable pub list_values : List String → List String
list_values [] = []
list_values (part ∷ parts) =
    let value = trim_quotes (trim_space part) in
    if is_empty value then list_values parts else value ∷ list_values parts

-- `parseEnvList`
unfoldable pub parse_env_list : String → List String
parse_env_list raw = if is_empty raw then [] else list_values (split_commas raw)

-- The loop of `LoadCors`
unfoldable pub trimmed_origins : List String → List String
trimmed_origins [] = []
trimmed_origins (origin ∷ origins) =
    if is_empty (trim_space origin)
    then trimmed_origins origins
    else trim_space origin ∷ trimmed_origins origins

abbrev is_digit : ℕ → Bool
is_digit c = leb 48 c && leb c 57

-- The decimal number that follows the digits read so far.
unfoldable pub digits : ℕ → String → Option ℕ
digits n String.[] = some n
digits n (String.◌∷◌ c s) = if is_digit (code c) then digits (10 * n + (code c - 48)) s else none

abbrev atoi_error : String → Loaded ℤ
atoi_error s = load_error ("strconv.Atoi: parsing " <> s)

-- A number that a 64-bit `int` holds.
abbrev positive : String → Option ℕ → Loaded ℤ
positive s none = atoi_error s
positive s (some n) = if ltb n (2 ^ 63) then loaded (pos n) else atoi_error s

abbrev negative : String → Option ℕ → Loaded ℤ
negative s none = atoi_error s
negative s (some zero) = loaded (pos 0)
negative s (some (suc n)) = if ltb n (2 ^ 63) then loaded (negsuc n) else atoi_error s

abbrev unsigned : String → String → Option ℕ
unsigned s String.[] = none
unsigned s (String.◌∷◌ c t) = digits 0 (String.◌∷◌ c t)

-- `strconv.Atoi`
abbrev pub atoi : String → Loaded ℤ
atoi String.[] = atoi_error ""
atoi (String.◌∷◌ c s) =
    if code c == 43
    then positive (String.◌∷◌ c s) (unsigned s s)
    else if code c == 45
    then negative (String.◌∷◌ c s) (unsigned s s)
    else positive (String.◌∷◌ c s) (digits 0 (String.◌∷◌ c s))

-- `uint8(n)`
abbrev pub to_uint8 : ℤ → ℕ
to_uint8 (pos n) = n % 2 ^ 8
to_uint8 (negsuc n) = 255 - n % 2 ^ 8
