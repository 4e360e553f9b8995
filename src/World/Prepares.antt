-- ===== src/World/Prepares.antt =====
-- Actions that only call out of the program: they leave everything but the number of calls alone,
-- and fail only with a foreign error. What they return satisfies `R`.
use go_auth_api.Base.{Option, String, none, refl, some, suc, ℕ, ◌≡◌}
use go_auth_api.Errors.{external}
use go_auth_api.Models.Event.{Payload}
use go_auth_api.World.{Env, Outcome, World, err, ok, panicked}
use go_auth_api.World.Action.{
  Action, answer, call, marshal, new_uuid_v7, proceed, pure, tick, time_now, ◌>>=◌,
}
use go_auth_api.World.Ends.{Ends}

abbrev pub at_call : ℕ → World → World
at_call n w = record w { calls = n }

abbrev pub Fine : {A : Type 0} → Env → (A → Type 0) → Outcome A → Type 0
Fine env R (ok a) = R a
Fine env R (err e) = (m : String) × (k : ℕ) × (env.fault k ≡ some m) × (e ≡ external m)
Fine env R panicked = ⊥

pub record Prepares {A : Type 0} (env : Env) (m : Action A) (R : A → Type 0) : Type 0 where
  pub at : (w : World) → (n : ℕ) × (o : Outcome A) × (m w ≡ (o, at_call n w)) × Fine env R o

module _ {A : Type 0} {env : Env} {R : A → Type 0} where
  pub Prepares-pure : (a : A) → R a → Prepares env (pure a) R
  unfolding pure
  Prepares-pure a h = record { at = λ w. (w.calls, ok a, refl, h) }

module _ {A B : Type 0} (env : Env) (R : A → Type 0) (S : B → Type 0) where
  bind_at :
      (f : A → Action B) (n : ℕ) (o : Outcome A) (w : World)
      → Fine env R o
      → ((a : A) → R a → Prepares env (f a) S)
      → (k : ℕ) × (p : Outcome B) × (proceed o f (at_call n w) ≡ (p, at_call k w)) × Fine env S p
  bind_at f n (ok a) w h k = (k a h).at (at_call n w)
  bind_at f n (err e) w h k = (n, err e, refl, h)
  bind_at f n panicked w h k = absurd h

module _ {A B : Type 0} {env : Env} {R : A → Type 0} {S : B → Type 0} where
  pub Prepares-bind :
      (m : Action A) (f : A → Action B)
      → Prepares env m R
      → ((a : A) → R a → Prepares env (f a) S)
      → Prepares env (m >>= f) S
  unfolding ◌>>=◌
  Prepares-bind m f h k = record {
    at = λ w. let (n, o, e, good) = h.at w in rw e (bind_at env R S f n o w good k);
  }

module _ (env : Env) where
  answer_at :
      (fault : Option String) (k : ℕ) (w : World)
      → env.fault k ≡ fault
      → (n : ℕ) × (o : Outcome ℕ) × (answer fault k (tick w) ≡ (o, at_call n w))
        × Fine env (λ _. Unit {0}) o
  answer_at none k w e = (suc w.calls, ok k, refl, tt)
  answer_at (some m) k w e = (suc w.calls, err (external m), refl, (m, k, e, refl))

  pub Prepares-call : Prepares env (call env) (λ _. Unit {0})
  unfolding call
  Prepares-call = record { at = λ w. answer_at (env.fault w.calls) w.calls w refl }

  pub Prepares-time_now : Prepares env (time_now env) (λ _. Unit {0})
  unfolding time_now
  Prepares-time_now = record { at = λ w. (suc w.calls, ok (env.clock w.calls), refl, tt) }

module _ (env : Env) where
  pub Prepares-new_uuid_v7 : Prepares env (new_uuid_v7 env) (λ id. (n : ℕ) × (id ≡ env.new_uuid n))
  Prepares-new_uuid_v7 = Prepares-bind _ _ (Prepares-call env) (λ n _. Prepares-pure _ (n, refl))

  pub Prepares-marshal : (v : Payload) → Prepares env (marshal env v) (λ p. p ≡ v)
  Prepares-marshal v = Prepares-bind _ _ (Prepares-call env) (λ n _. Prepares-pure v refl)

-- Such an action and what follows it.
module _ {A B : Type 0} (env : Env) (R : A → Type 0) (Q : Outcome B → World → Type 0) where
  prepare_at :
      (f : A → Action B) (n : ℕ) (o : Outcome A) (w : World)
      → Fine env R o
      → ((m : String) (j k : ℕ) → env.fault j ≡ some m → Q (err (external m)) (at_call k w))
      → ((a : A) (k : ℕ) → R a → Ends (f a) (at_call k w) Q)
      → Q (proceed o f (at_call n w)).0 (proceed o f (at_call n w)).1
  prepare_at f n (ok a) w h failing k = (k a n h).holds
  prepare_at f n (err e) w (m, j, fault, p) failing k = rw p (failing m j n fault)
  prepare_at f n panicked w h failing k = absurd h

module _ {A B : Type 0} {env : Env} {R : A → Type 0} {Q : Outcome B → World → Type 0} where
  pub Ends-prepare :
      (m : Action A) (f : A → Action B) (w : World)
      → Prepares env m R
      → ((m : String) (j k : ℕ) → env.fault j ≡ some m → Q (err (external m)) (at_call k w))
      → ((a : A) (k : ℕ) → R a → Ends (f a) (at_call k w) Q)
      → Ends (m >>= f) w Q
  unfolding ◌>>=◌
  Ends-prepare m f w h failing k =
      let (n, o, e, good) = h.at w in
      record { holds = rw e (prepare_at env R Q f n o w good failing k) }
