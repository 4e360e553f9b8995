-- ===== src/Startup/Connect.antt =====
-- internal/db/postgres.go: the retry loop of `OpenPostgres` ends, and leaves no handle behind.
use go_auth_api.Base.{
  ==_iff, Bool-cases, Option, Option-cases, String, arith, inl, inr, none, not_both, refl, some,
  suc, zero, ℕ, ◌+◌, ◌<◌, ◌==◌, ◌≡◌, ◌≤◌, ◌⊎◌,
}
use go_auth_api.Config.Values.{Loaded, load_error, loaded}
use go_auth_api.Startup.Databases.{
  Attempt, DbHandles, after_failure, attempt_error, connect, migrate, no_handles, open_one,
  open_postgres, sleep_once,
}

-- The n-th attempt connects: `sql.Open` and `Ping` return no error.
abbrev pub Connects : (ℕ → Attempt) → ℕ → Type 0
Connects attempts n = attempt_error (attempts n).open_error (attempts n).ping_error ≡ none

-- The handles that are balanced.
abbrev pub HandlesOpen : ℕ → DbHandles → Type 0
HandlesOpen n h = h.opened_handles ≡ n + h.closed_handles

abbrev pub after_migration : Option String → ℕ → Loaded ℕ × ℕ
after_migration none n = (loaded n, 1)
after_migration (some e) n = (load_error e, 0)

-- What the loop does from attempt n, to the last attempt `last`: the first attempt that connects is
-- used, after one second of sleep for each that did not; without one there is an error.
abbrev pub Connected :
    (ℕ → Attempt) → Option String → ℕ → ℕ → DbHandles → Loaded ℕ × DbHandles → Type 0
Connected attempts migration n last h result =
    ((k : ℕ) × (n ≤ k)
      × (k ≤ last)
      × Connects attempts k
      × ((i : ℕ) → n ≤ i → i < k → ¬ Connects attempts i)
      × (result.0 ≡ (after_migration migration k).0)
      × (result.1.slept + n ≡ h.slept + k)
      × HandlesOpen (after_migration migration k).1 result.1)
    ⊎ (((i : ℕ) → n ≤ i → i ≤ last → ¬ Connects attempts i)
        × ((e : String) × (result.0 ≡ load_error e))
        × (result.1.slept + n ≡ h.slept + last)
        × HandlesOpen 0 result.1)

same_or_later : (n i : ℕ) → n ≤ i → (n ≡ i) ⊎ (suc n ≤ i)
same_or_later n i a = elim (Bool-cases (n == i)) [
  | inl q ↦ inl ((==_iff n i).0 q)
  | inr q ↦ inr (ground arith)
]

-- A failed attempt n and attempts after it that do not connect are no connection from n on.
none_from :
    (attempts : ℕ → Attempt) (n : ℕ) (e : String)
    → attempt_error (attempts n).open_error (attempts n).ping_error ≡ some e
    → (P : ℕ → Type 0) → ((i : ℕ) → suc n ≤ i → P i → ¬ Connects attempts i)
    → (i : ℕ) → n ≤ i
    → P i
    → ¬ Connects attempts i
none_from attempts n e bad P later i a p c = elim (same_or_later n i a) [
  | inl q ↦ not_both _ (rw q c) bad
  | inr q ↦ later i q p c
]

module _ (attempts : ℕ → Attempt) (migration : Option String) where
  migrate-after :
      (o : Option String) (k : ℕ) (h : DbHandles)
      → HandlesOpen 0 h
      → ((migrate o k (open_one h)).0 ≡ (after_migration o k).0)
        × ((migrate o k (open_one h)).1.slept ≡ h.slept)
        × HandlesOpen (after_migration o k).1 (migrate o k (open_one h)).1
  migrate-after none k h balanced = (refl, refl, omega (arith, balanced))
  migrate-after (some e) k h balanced = (refl, refl, omega (arith, balanced))

  after_failure-HandlesOpen :
      (e : Option String) (h : DbHandles)
      → HandlesOpen 0 h
      → HandlesOpen 0 (after_failure e h) × ((after_failure e h).slept ≡ h.slept)
  after_failure-HandlesOpen none h balanced = (omega (arith, balanced), refl)
  after_failure-HandlesOpen (some e) h balanced = (balanced, refl)

  -- Attempt n connects.
  connect_now :
      (n last : ℕ) (h : DbHandles)
      → n ≤ last
      → HandlesOpen 0 h
      → Connects attempts n
      → Connected attempts migration n last h (migrate migration n (open_one h))
  connect_now n last h bound balanced c =
      let (e, s, o) = migrate-after migration n h balanced in
      inl (n, omega arith, bound, c, (λ i a b. absurd (omega arith)), e, omega (arith, s), o)

  -- Attempt n, the last one, fails.
  connect_last :
      (n last : ℕ) (h : DbHandles) (e m : String)
      → n ≡ last
      → attempt_error (attempts n).open_error (attempts n).ping_error ≡ some e
      → HandlesOpen 0 h
      → Connected attempts migration n last h
          (load_error m, after_failure (attempts n).open_error h)
  connect_last n last h e m same bad balanced =
      let (o, s) = after_failure-HandlesOpen (attempts n).open_error h balanced in
      inr (
        none_from attempts n e bad (λ i. i ≤ last) (λ i a b. absurd (omega arith)),
        (m, refl),
        omega (arith, s),
        o,
      )

  -- Attempt n fails, and the rest of the loop is known.
  connect_later :
      (n last : ℕ) (h : DbHandles) (e : String) (r : Loaded ℕ × DbHandles)
      → attempt_error (attempts n).open_error (attempts n).ping_error ≡ some e
      → HandlesOpen 0 h
      → Connected attempts migration
          (suc n)
          last
          (sleep_once (after_failure (attempts n).open_error h))
          r
      → Connected attempts migration n last h r
  connect_later n last h e r bad balanced (inl (k, a, b, c, earlier, res, s, o)) =
      let (_, t) = after_failure-HandlesOpen (attempts n).open_error h balanced in
      inl (
        k,
        omega arith,
        b,
        c,
        none_from attempts n e bad (λ i. i < k) earlier,
        res,
        omega (arith, s, t),
        o,
      )
  connect_later n last h e r bad balanced (inr (later, res, s, o)) =
      let (_, t) = after_failure-HandlesOpen (attempts n).open_error h balanced in
      inr (none_from attempts n e bad (λ i. i ≤ last) later, res, omega (arith, s, t), o)

  connect_lem :
      (left n last : ℕ) (h : DbHandles)
      → left + n ≡ last
      → HandlesOpen 0 h
      → Connected attempts migration n last h (connect attempts migration left n h)
  unfolding connect
  connect_lem zero n last h bound balanced =
      elim (Option-cases (attempt_error (attempts n).open_error (attempts n).ping_error)) [
        | inl e ↦ rw (connect, e) (connect_now n last h (omega arith) balanced e)
        | inr (m, e) ↦ rw (connect, e) (connect_last n last h m _ (omega arith) e balanced)
      ]
  connect_lem (suc left) n last h bound balanced =
      elim (Option-cases (attempt_error (attempts n).open_error (attempts n).ping_error)) [
        | inl e ↦ rw (connect, e) (connect_now n last h (omega arith) balanced e)
        | inr (m, e) ↦
            rw (connect, e)
              (connect_later n last h m _ e balanced (
                connect_lem left (suc n) last (sleep_once (after_failure (attempts n).open_error h))
                  (omega arith) (after_failure-HandlesOpen (attempts n).open_error h balanced).0))
      ]

  -- `OpenPostgres` ends within five attempts: the handle of the first attempt that connects is
  -- returned, if the migration then runs, after one second of sleep for each attempt before it; where
  -- none of the five connects, it returns an error after four seconds. Every other handle is closed.
  pub open_postgres-Connected :
      Connected attempts migration 1 5 no_handles (open_postgres attempts migration)
  unfolding open_postgres
  open_postgres-Connected = connect_lem 4 1 5 no_handles refl refl
