-- ===== src/Auth/Limits.antt =====
-- `AuthRateLimiter` (api/app/auth/rate_limit.py): fixed-window counters in Redis, which is a
-- parameter with the documented effect of the commands that the limiter sends.
use Prim.Native.String.{◌++◌ as text_append}
pub mod Promise
pub mod Windows
pub mod Spent
pub mod Admitted
use configurable_crm.Prelude.{
  ℕ, ◌+◌, ◌-◌, ◌≤◌, ◌<◌, max, String, Bool, Option, none, some, List, [], ◌∷◌, ◌≡◌, leb, ltb,
  str_eq, if◌then◌else◌,
}

-- `value` is a counter, 0 for a key that does not exist; `ttl` is none where TTL answers a negative
-- number; `elapse` is a second that passes.
pub record Redis : Type 1 where
  pub Store : Type 0
  pub value : Store → String → ℕ
  pub ttl : Store → String → Option ℕ
  pub incr : String → Store → Store
  pub expire : String → ℕ → Store → Store
  pub delete : String → Store → Store
  pub elapse : Store → Store
  pub value-incr :
      (s : Store) (k q : String)
      → value (incr k s) q ≡ (if str_eq k q then value s q + 1 else value s q)
  pub ttl-incr : (s : Store) (k q : String) → ttl (incr k s) q ≡ ttl s q
  pub value-expire : (s : Store) (k q : String) (n : ℕ) → 0 < n → value (expire k n s) q ≡ value s q
  pub ttl-expire :
      (s : Store) (k q : String) (n : ℕ)
      → 0 < n
      → 0 < value s k
      → ttl (expire k n s) q ≡ (if str_eq k q then some n else ttl s q)
  pub value-delete :
      (s : Store) (k q : String) → value (delete k s) q ≡ (if str_eq k q then 0 else value s q)
  pub ttl-delete :
      (s : Store) (k q : String) → ttl (delete k s) q ≡ (if str_eq k q then none else ttl s q)
  pub value-elapse :
      (s : Store) (q : String)
      → value (elapse s) q
        ≡ (elim (ttl s q) [ none ↦ value s q | some t ↦ if leb t 1 then 0 else value s q ])
  pub ttl-elapse :
      (s : Store) (q : String)
      → ttl (elapse s) q
        ≡ (elim (ttl s q) [ none ↦ none | some t ↦ if leb t 1 then none else some (t - 1) ])

-- The limiter's budgets, as `__init__` reads them from the settings.
pub record Settings : Type 0 where
  pub login_limit : ℕ
  pub login_window : ℕ
  pub refresh_token_limit : ℕ
  pub refresh_ip_limit : ℕ
  pub refresh_window : ℕ

abbrev pub Budgets : Type 0
Budgets = List (String × ℕ)

-- What the keys are made of: `str.casefold` and the truncated SHA-256 of `_fingerprint`.
pub record Naming : Type 0 where
  pub casefold : String → String
  pub fingerprint : String → String

unfoldable pub email_key : Naming → String → String
email_key naming email = text_append "login:email:" (naming.casefold email)

unfoldable pub login_budgets : Naming → Settings → String → String → Budgets
unfolding email_key
login_budgets naming settings email client_ip =
    (email_key naming email, settings.login_limit)
    ∷ (text_append "login:ip:" client_ip, settings.login_limit)
    ∷ []

unfoldable pub refresh_budgets : Naming → Settings → String → String → Budgets
refresh_budgets naming settings refresh_token client_ip =
    (text_append "refresh:token:" (naming.fingerprint refresh_token), settings.refresh_token_limit)
    ∷ (text_append "refresh:ip:" client_ip, settings.refresh_ip_limit)
    ∷ []

-- `exceeded`, after one more counter was judged.
unfoldable pub judge : ℕ → ℕ → ℕ → Option ℕ → Option ℕ
judge limit count ttl none = if ltb limit count then some (max ttl 1) else none
judge limit count ttl (some exceeded) =
    if ltb limit count then some (max exceeded (max ttl 1)) else some exceeded

-- What reaches the limiter: `signed_in` is the login that succeeded, `second` is time.
pub data Event : Type 0 where
  login : (email client_ip : String) → Event
  refresh : (refresh_token client_ip : String) → Event
  signed_in : (email client_ip : String) → Event
  second : Event

module _ (redis : Redis) where
  open redis use {Store, value, ttl, incr, expire, delete, elapse}

  -- `_incr_with_window`: the store, the count and the seconds to live.
  unfoldable pub incr_with_window : String → ℕ → Store → Store × ℕ × ℕ
  incr_with_window key window s =
      let counted = incr key s in
      elim (ttl counted key) [
        | none ↦ (expire key window counted, value counted key, window)
        | some left ↦ (counted, value counted key, left)
      ]

  -- The loop of `_check` over the budgets.
  unfoldable pub check_each : ℕ → Option ℕ → Budgets → Store → Store × Option ℕ
  unfolding incr_with_window judge
  check_each window exceeded [] s = (s, exceeded)
  check_each window exceeded ((key, limit) ∷ budgets) s =
      let (s', count, left) = incr_with_window key window s in
      check_each window (judge limit count left exceeded) budgets s'

  -- `_check`: the seconds to wait, where it raises.
  abbrev pub check_budgets : ℕ → Budgets → Store → Store × Option ℕ
  check_budgets window budgets s = check_each window none budgets s

  module _ (naming : Naming) (settings : Settings) where
    unfoldable pub check_login : String → String → Store → Store × Option ℕ
    unfolding check_each login_budgets
    check_login email client_ip s =
        check_budgets settings.login_window (login_budgets naming settings email client_ip) s

    unfoldable pub check_refresh : String → String → Store → Store × Option ℕ
    unfolding check_each refresh_budgets
    check_refresh refresh_token client_ip s =
        check_budgets settings.refresh_window
          (refresh_budgets naming settings refresh_token client_ip) s

    unfoldable pub reset_login : String → String → Store → Store
    unfolding email_key
    reset_login email client_ip s =
        delete (text_append "login:ip:" client_ip) (delete (email_key naming email) s)

    unfoldable pub respond : Event → Store → Store × Option ℕ
    unfolding check_login check_refresh reset_login
    respond (login email client_ip) s = check_login email client_ip s
    respond (refresh refresh_token client_ip) s = check_refresh refresh_token client_ip s
    respond (signed_in email client_ip) s = (reset_login email client_ip s, none)
    respond second s = (elapse s, none)

    -- The answers to a sequence of requests: the seconds to wait, or none.
    unfoldable pub run : List Event → Store → List (Option ℕ)
    unfolding respond
    run [] s = []
    run (e ∷ es) s = let (s', answer) = respond e s in answer ∷ run es s'
