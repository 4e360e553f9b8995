-- ===== src/Http/Answered.antt =====
-- Every request is answered: actions that return no error, and rules for them.
pub mod Handled
pub mod Served
-- An outcome that is no error: a handler writes its errors into the answer.
use go_auth_api.Base.{Bool, Option, false, if◌then◌else◌, none, some, true}
use go_auth_api.Errors.{Error}
use go_auth_api.World.{Outcome, World, err, ok, panicked}
use go_auth_api.World.Action.{Action, catch, handle, proceed, pure, ◌>>=◌}

abbrev pub NoError : {A : Type 0} → Outcome A → Type 0
NoError (ok a) = Unit
NoError (err e) = ⊥
NoError panicked = Unit

pub record Answers {A : Type 0} (m : Action A) : Type 0 where
  pub holds : (w : World) → NoError (m w).0

pub Answers-pure : {A : Type 0} (a : A) → Answers (pure a)
unfolding pure
Answers-pure a = record { holds = λ w. tt }

module _ {A B : Type 0} where
  proceed-NoError :
      (k : A → Action B) (o : Outcome A) (w : World)
      → NoError o
      → ((a : A) → Answers (k a))
      → NoError (proceed o k w).0
  proceed-NoError k (ok a) w h g = (g a).holds w
  proceed-NoError k (err e) w h g = absurd h
  proceed-NoError k panicked w h g = tt

  pub Answers-bind :
      (m : Action A) (k : A → Action B) → Answers m → ((a : A) → Answers (k a)) → Answers (m >>= k)
  unfolding ◌>>=◌
  Answers-bind m k h g = record { holds = λ w. proceed-NoError k (m w).0 (m w).1 (h.holds w) g }

module _ {A : Type 0} where
  handle-NoError :
      (k : Error → Action A) (o : Outcome A) (w : World)
      → ((e : Error) → Answers (k e))
      → NoError (handle k o w).0
  handle-NoError k (ok a) w g = tt
  handle-NoError k (err e) w g = (g e).holds w
  handle-NoError k panicked w g = tt

  -- Whatever `m` does, its error is handled.
  pub Answers-catch :
      (m : Action A) (k : Error → Action A) → ((e : Error) → Answers (k e)) → Answers (catch m k)
  unfolding catch
  Answers-catch m k g = record { holds = λ w. handle-NoError k (m w).0 (m w).1 g }

  pub Answers-if :
      (b : Bool) (m n : Action A) → Answers m → Answers n → Answers (if b then m else n)
  Answers-if true m n h g = h
  Answers-if false m n h g = g

Answers-option :
    {A X : Type 0} (o : Option X) (n : Action A) (f : X → Action A)
    → Answers n
    → ((x : X) → Answers (f x))
    → Answers (elim o [ none ↦ n | some x ↦ f x ])
Answers-option none n f h g = h
Answers-option (some x) n f h g = g x
