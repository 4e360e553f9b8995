-- ===== src/RateLimit/Scripts.antt =====
-- internal/auth/luascripts: the Lua scripts, on the hashes that they read and write.
use go_auth_api.Base.{
  Bool, List, Option, String, [], false, if◌then◌else◌, leb, length, ltb, none, some, str_eq, ℕ,
  ◌&&◌, ◌+◌, ◌==◌, ◌||◌, ◌∷◌,
}
use go_auth_api.Examples.{start}
use go_auth_api.World.{Bucket}

abbrev pub Redis : Type 0
Redis = String → Option Bucket

abbrev pub empty_bucket : Bucket
empty_bucket = record {
  failures = none;
  attempts = none;
  window_start = none;
  last_try = none;
  next_try = none;
  expires_at = 0;
}

-- The hash at a key, empty where there is none or its time has run out.
unfoldable pub bucket_at : Redis → ℕ → String → Bucket
bucket_at store now key = elim (store key) [
  | none ↦ empty_bucket
  | some b ↦ if ltb now b.expires_at then b else empty_bucket
]

abbrev pub put : String → Bucket → Redis → Redis
put key b store = λ k. if str_eq k key then some b else store k

abbrev pub or_zero : Option ℕ → ℕ
or_zero none = 0
or_zero (some n) = n

-- `next_try and tonumber(next_try) > now`
unfoldable pub is_blocked : Redis → ℕ → String → Bool
unfolding bucket_at
is_blocked store now key = elim (bucket_at store now key).next_try [
  | none ↦ false
  | some t ↦ ltb now t
]

unfoldable pub any_blocked : Redis → ℕ → List String → Bool
unfolding is_blocked
any_blocked store now [] = false
any_blocked store now (key ∷ keys) = is_blocked store now key || any_blocked store now keys

-- login_check.lua
unfoldable pub login_check : List String → ℕ → Redis → ℕ
unfolding any_blocked
login_check keys now store = if any_blocked store now keys then 1 else 0

-- The cool-down after a number of failures.
unfoldable pub next_try_after : ℕ → ℕ → ℕ
next_try_after failures now =
    if leb 11 failures then now + 3600 else if leb 6 failures then now + 300 else 0

-- One round of the second loop of login_recordfailure.lua, without the notification.
unfoldable pub count_failure : ℕ → String → Redis → Redis
unfolding bucket_at next_try_after
count_failure now key store =
    let b = bucket_at store now key in
    let failures = or_zero b.failures + 1 in
    put key
      (record b {
        failures = some failures;
        last_try = some now;
        next_try = some (next_try_after failures now);
        expires_at = now + 3600;
      })
      store

-- The second loop of login_recordfailure.lua, with `notify` so far.
unfoldable pub count_failures : ℕ → ℕ → List String → Bool → Redis → Bool × Redis
unfolding count_failure bucket_at
count_failures notify_attempt now [] notify store = (notify, store)
count_failures notify_attempt now (key ∷ keys) notify store =
    count_failures notify_attempt now keys
      (notify || or_zero (bucket_at store now key).failures + 1 == notify_attempt)
      (count_failure now key store)

-- login_recordfailure.lua: 1 where a key is blocked already, 2 to notify, else 0.
unfoldable pub login_record_failure : List String → ℕ → ℕ → Redis → ℕ × Redis
unfolding any_blocked count_failures
login_record_failure keys notify_attempt now store =
    if any_blocked store now keys
    then (1, store)
    else let (notify, store') = count_failures notify_attempt now keys false store in
      (if notify then 2 else 0, store')

-- signup_check.lua
unfoldable pub signup_check : String → ℕ → Redis → ℕ
unfolding is_blocked
signup_check key now store = if is_blocked store now key then 1 else 0

-- signup_recordfailure.lua
unfoldable pub signup_record_failure : String → ℕ → Redis → ℕ × Redis
unfolding count_failure
signup_record_failure key now store = (0, count_failure now key store)

-- The window test of the reset scripts: `window and now - tonumber(window) < length`. A `now` before
-- the start of the window gives a negative difference, which is below any length too.
unfoldable pub in_window : ℕ → ℕ → Bucket → Bool
in_window length now b = elim b.window_start [
  | none ↦ false
  | some start ↦ ltb now (start + length)
]

-- resetpasswordrequest_check.lua
unfoldable pub reset_request_check : String → String → ℕ → Redis → ℕ
unfolding any_blocked in_window bucket_at
reset_request_check ip account now store =
    if any_blocked store now (ip ∷ account ∷ [])
    then 1
    else let i = bucket_at store now ip in
      let a = bucket_at store now account in
      if in_window 60 now i && leb 3 (or_zero i.attempts)
      then 1
      else if in_window 3600 now a && leb 3 (or_zero a.attempts)
      then 1
      else 0

-- One of the two halves of resetpasswordrequest_recordfailure.lua.
unfoldable pub count_attempt : ℕ → ℕ → String → Redis → Redis
unfolding bucket_at in_window
count_attempt window now key store =
    let b = bucket_at store now key in
    let counted =
      if in_window window now b
      then record b { attempts = some (or_zero b.attempts + 1) }
      else record b { attempts = some 1; window_start = some now } in
    put key
      (record counted { last_try = some now; next_try = some (now + 300); expires_at = now + 3600 })
      store

-- resetpasswordrequest_recordfailure.lua
unfoldable pub reset_request_record : String → String → ℕ → Redis → ℕ × Redis
unfolding count_attempt
reset_request_record ip account now store =
    (0, count_attempt 3600 now account (count_attempt 60 now ip store))
