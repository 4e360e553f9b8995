-- ===== src/RateLimit/Lockout.antt =====
-- Failed logins lock an account out for a while.
-- The failures counted at a key.
use go_auth_api.Base.{
  Any, Bool, Bool-cases, List, String, [], arith, eq_iff, eq_refl, false, inl, inr, refl, some,
  str_eq, subst, suc, sym, true, ℕ, ◌+◌, ◌<◌, ◌∷◌, ◌≡◌, ◌≤◌,
}
use go_auth_api.RateLimit.Limiter.{account_key, redis_keys}
use go_auth_api.RateLimit.Scripts.{
  Redis, any_blocked, bucket_at, count_failure, count_failures, is_blocked, login_check,
  login_record_failure, next_try_after, or_zero, put,
}
use go_auth_api.World.{Bucket}

abbrev pub failures_at : Redis → ℕ → String → ℕ
failures_at store now key = or_zero (bucket_at store now key).failures

module _ (key : String) (now f : ℕ) where
  -- The hash at the key, with one failure more than `f` and the cool-down of that.
  record Locked (store : Redis) : Type 0 where
    bucket : Bucket
    stored : store key ≡ some bucket
    until : ℕ
    next : bucket.next_try ≡ some until
    cooled : next_try_after (suc f) now ≤ until
    counted : suc f ≤ or_zero bucket.failures
    lifetime : bucket.expires_at ≡ now + 3600

  next_try_mono : (m n : ℕ) → m ≤ n → next_try_after m now ≤ next_try_after n now
  unfolding next_try_after
  next_try_mono m n h = ground arith

  put_same : (b : Bucket) (store : Redis) → put key b store key ≡ some b
  put_same b store = rw (eq_refl key) refl

  Locked-count_failure :
      (store : Redis) → f ≤ failures_at store now key → Locked (count_failure now key store)
  unfolding count_failure
  Locked-count_failure store h = record {
    bucket = _;
    stored = put_same _ store;
    until = _;
    next = refl;
    cooled = next_try_mono (suc f) (failures_at store now key + 1) (omega arith);
    counted = omega arith;
    lifetime = refl;
  }

  -- A live hash is read as it is.
  bucket_live :
      (store : Redis) (b : Bucket)
      → store key ≡ some b
      → b.expires_at ≡ now + 3600
      → bucket_at store now key ≡ b
  unfolding bucket_at
  bucket_live store b e k = rw (bucket_at, e) (ground (arith, k))

  -- Another key's failure leaves the hash alone, and one more at the same key adds to it.
  Locked-keeps : (k : String) (store : Redis) → Locked store → Locked (count_failure now k store)
  unfolding count_failure
  Locked-keeps k store h = elim (Bool-cases (str_eq key k)) [
    | inl same ↦
        subst (λ k'. Locked (count_failure now k' store)) ((eq_iff key k).0 same)
          (Locked-count_failure store
            (rw (bucket_live store h.bucket h.stored h.lifetime) (omega (arith, h.counted))))
    | inr other ↦ record {
      bucket = h.bucket;
      stored = rw other h.stored;
      until = h.until;
      next = h.next;
      cooled = h.cooled;
      counted = h.counted;
      lifetime = h.lifetime;
    }
  ]

  bucket_at_other :
      (store store' : Redis)
      → store' key ≡ store key
      → bucket_at store' now key ≡ bucket_at store now key
  unfolding bucket_at
  bucket_at_other store store' e = rw (bucket_at, e) refl

  counted-Locked : (store : Redis) → Locked store → f ≤ failures_at store now key
  counted-Locked store h =
      rw (bucket_live store h.bucket h.stored h.lifetime) (omega (arith, h.counted))

  counted-keeps :
      (k : String) (store : Redis)
      → f ≤ failures_at store now key
      → f ≤ failures_at (count_failure now k store) now key
  unfolding count_failure
  counted-keeps k store h = elim (Bool-cases (str_eq key k)) [
    | inl same ↦
        subst (λ k'. f ≤ failures_at (count_failure now k' store) now key) ((eq_iff key k).0 same)
          (counted-Locked _ (Locked-count_failure store h))
    | inr other ↦ rw (bucket_at_other store (count_failure now k store) (rw other refl)) h
  ]

  Locked-all :
      (notify : ℕ) (keys : List String) (told : Bool) (store : Redis)
      → Locked store
      → Locked (count_failures notify now keys told store).1
  unfolding count_failures
  Locked-all notify [] told store h = h
  Locked-all notify (k ∷ keys) told store h = Locked-all notify keys _ _ (Locked-keeps k store h)

  Locked-count_failures :
      (notify : ℕ) (keys : List String) (told : Bool) (store : Redis)
      → Any (λ k. k ≡ key) keys
      → f ≤ failures_at store now key
      → Locked (count_failures notify now keys told store).1
  unfolding count_failures
  Locked-count_failures notify [] told store here h = absurd here
  Locked-count_failures notify (k ∷ keys) told store (inl same) h =
      Locked-all notify keys _ _ (
        subst (λ k'. Locked (count_failure now k' store)) (sym same) (Locked-count_failure store h))
  Locked-count_failures notify (k ∷ keys) told store (inr there) h =
      Locked-count_failures notify keys _ _ there (counted-keeps k store h)

  blocked_here :
      (store : Redis) (later : ℕ)
      → Locked store
      → later < next_try_after (suc f) now
      → is_blocked store later key ≡ true
  unfolding is_blocked bucket_at next_try_after
  blocked_here store later h soon =
      rw (is_blocked, h.stored) (ground (arith, h.lifetime, h.next, h.cooled))

  -- While the cool-down lasts, the key blocks every list of keys that it is in.
  blocks :
      (store : Redis) (keys : List String) (later : ℕ)
      → Locked store
      → later < next_try_after (suc f) now
      → Any (λ k. k ≡ key) keys
      → any_blocked store later keys ≡ true
  unfolding any_blocked
  blocks store [] later h soon here = absurd here
  blocks store (k ∷ keys) later h soon (inl same) = rw (same, blocked_here store later h soon) refl
  blocks store (k ∷ keys) later h soon (inr there) =
      ground (arith, blocks store keys later h soon there)

-- A failed login that login_recordfailure.lua counts, on top of at least `f` failures of the same
-- account, makes login_check.lua refuse that account from any address until the cool-down of `f + 1`
-- failures is over: for 300 seconds from the sixth failure on, for an hour from the eleventh on.
pub login_lockout :
    (ip ip' email : String) (notify now later f : ℕ) (store : Redis)
    → any_blocked store now (redis_keys "login" ip email) ≡ false
    → f ≤ failures_at store now (account_key "login" email)
    → later < next_try_after (suc f) now
    → login_check
        (redis_keys "login" ip' email)
        later
        (login_record_failure (redis_keys "login" ip email) notify now store).1
      ≡ 1
unfolding login_record_failure login_check redis_keys
login_lockout ip ip' email notify now later f store open_keys counted soon = rw open_keys (
    rw
      (blocks (account_key "login" email) now f _ (redis_keys "login" ip' email) later
        (Locked-count_failures (account_key "login" email) now f notify
          (redis_keys "login" ip email) false store (inr (inl refl)) counted)
        soon (inr (inl refl)))
      refl)
