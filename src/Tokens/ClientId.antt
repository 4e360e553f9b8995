-- ===== src/Tokens/ClientId.antt =====
-- internal/auth/jwt.go: the signed identifier of a client. `uuid.Parse` is the parameter `uuid_parse`.
use Prim.Native.Char.{Char, code}
use Prim.Native.String.{slice}
use Prim.Native.String.append
use text.Mathlib.TextEquality.{Char-path}
use go_auth_api.Base.{
  ==_iff, Bool, Bool-cases, Option, String, ap, eq_iff, eq_refl, false, if◌then◌else◌, inl, inr,
  none, or_false, refl, some, str_eq, ℕ, ◌<>◌, ◌==◌, ◌||◌, ◌∙◌, ◌≡◌,
}
use go_auth_api.Tokens.{sign_client_id}
use go_auth_api.World.{Env}

-- `strings.Cut(s, ".")`
abbrev with_first : Char → Option (String × String) → Option (String × String)
with_first c none = none
with_first c (some (before, after)) = some (String.◌∷◌ c before, after)

unfoldable pub cut_dot : String → Option (String × String)
cut_dot String.[] = none
cut_dot (String.◌∷◌ c s) = if code c == 46 then some ("", s) else with_first c (cut_dot s)

abbrev pub has_dot : String → Bool
has_dot String.[] = false
has_dot (String.◌∷◌ c s) = code c == 46 || has_dot s

module _ (env : Env) (uuid_parse : String → Option ℕ) where
  -- The first 16 digits of the HMAC of the identifier.
  abbrev pub client_signature : ℕ → String → String
  client_signature id secret = slice (env.hmac_hex secret (env.uuid_bytes id)) 0 16

  abbrev pub check_signature : String → String → Option ℕ → Option ℕ
  check_signature secret sig none = none
  check_signature secret sig (some id) =
      if str_eq (client_signature id secret) sig then some id else none

  abbrev pub verify_parts : String → Option (String × String) → Option ℕ
  verify_parts secret none = none
  verify_parts secret (some (raw, sig)) = check_signature secret sig (uuid_parse raw)

  -- `verifyClientID`
  unfoldable pub verify_client_id : String → String → Option ℕ
  verify_client_id s secret = verify_parts secret (cut_dot s)

dot_before : (t : String) → ("." <> t) ≡ String.◌∷◌ "." t
dot_before t = append.cons "." "" t ∙ ap (λ u. String.◌∷◌ "." u) (append.nil t)

cut_dot-append : (x y : String) → has_dot x ≡ false → cut_dot (x <> ("." <> y)) ≡ some (x, y)
unfolding cut_dot
cut_dot-append String.[] y h = rw (append.nil ("." <> y), dot_before y) refl
cut_dot-append (String.◌∷◌ c x) y h =
    let (e, k) = or_false (code c == 46) (has_dot x) h in
    rw (append.cons c x ("." <> y)) (rw (e, cut_dot-append x y k) refl)

pair_inj :
    {a b c d : String}
    → ◌≡◌ {A = Option (String × String)} (some (a, b)) (some (c, d))
    → (a ≡ c) × (b ≡ d)
pair_inj h = (cc, cc)

after_first :
    (c : Char) (s x y : String)
    → ((b a : String) → cut_dot s ≡ some (b, a) → s ≡ (b <> ("." <> a)))
    → (o : Option (String × String)) → cut_dot s ≡ o
    → with_first c o ≡ some (x, y)
    → String.◌∷◌ c s ≡ (x <> ("." <> y))
after_first c s x y rest none f k = absurd cc
after_first c s x y rest (some (before, after)) f k =
    let (p, q) = pair_inj k in
    rw (← p, ← q, append.cons c before ("." <> after))
      (ap (λ t. String.◌∷◌ c t) (rest before after f))

cut_dot_sound : (s x y : String) → cut_dot s ≡ some (x, y) → s ≡ (x <> ("." <> y))
unfolding cut_dot
cut_dot_sound String.[] x y h = absurd cc
cut_dot_sound (String.◌∷◌ c s) x y h = elim (Bool-cases (code c == 46)) [
  | inl e ↦
      let (p, q) = pair_inj (rw e at h) in
      rw (← p, ← q, append.nil ("." <> s), dot_before s)
        (ap (λ a. String.◌∷◌ a s) (Char-path c "." ((==_iff (code c) 46).0 e)))
  | inr e ↦ after_first c s x y (λ b a. cut_dot_sound s b a) (cut_dot s) refl (rw e at h)
]

-- `verifyClientID` on what `signClientID` gives.
module _ (env : Env) (uuid_parse : String → Option ℕ) (secret : String) where
  -- A text carries a signed identifier: its two parts are a text of the identifier and its signature.
  abbrev pub Signed : ℕ → String → Type 0
  Signed id s =
      (raw : String) × (uuid_parse raw ≡ some id)
      × (s ≡ (raw <> ("." <> client_signature env uuid_parse id secret)))

  verified_parts :
      (s : String) (id : ℕ) (o : Option (String × String))
      → cut_dot s ≡ o
      → verify_parts env uuid_parse secret o ≡ some id
      → Signed id s
  verified_parts s id none e h = absurd cc
  verified_parts s id (some (raw, sig)) e h = go (uuid_parse raw) refl h
    where
      go :
          (parsed : Option ℕ)
          → uuid_parse raw ≡ parsed
          → check_signature env uuid_parse secret sig parsed ≡ some id
          → Signed id s
      go none f k = absurd cc
      go (some n) f k = elim (Bool-cases (str_eq (client_signature env uuid_parse n secret) sig)) [
        | inl q ↦
            let same : n ≡ id = number_inj (rw q at k) in
            (raw, rw (← same) f, rw (← same, (eq_iff _ sig).0 q) (cut_dot_sound s raw sig e))
        | inr q ↦ absurd (none_is (rw q at k))
      ]
        where
          number_inj : some n ≡ some id → n ≡ id
          number_inj h = cc

          none_is : ¬ (Path (Option ℕ) none (some id))
          none_is h = cc

  -- `verifyClientID` finds the identifier that `signClientID` signed, and accepts no text but that of
  -- an identifier with its signature under the secret: provided that the text of the signed UUID has
  -- no dot and is parsed as that UUID.
  pub verify_client_id-sign :
      (id : ℕ)
      → uuid_parse (env.uuid_text id) ≡ some id
      → has_dot (env.uuid_text id) ≡ false
      → (verify_client_id env uuid_parse (sign_client_id env id secret) secret ≡ some id)
        × ((n : ℕ) (s : String) → verify_client_id env uuid_parse s secret ≡ some n → Signed n s)
  unfolding verify_client_id sign_client_id
  verify_client_id-sign id parses no_dot = (
    rw (cut_dot-append (env.uuid_text id) (client_signature env uuid_parse id secret) no_dot)
        (rw (parses, eq_refl (client_signature env uuid_parse id secret)) refl),
    λ n s h. verified_parts s n (cut_dot s) refl h,
  )
