-- ===== src/Auth/Limits/Windows.antt =====
-- The limiter of auth/rate_limit.py beside the windows that specify it.
use Prim.Native.String.{◌++◌ as text_append}
use configurable_crm.Prelude.{
  ℕ, ◌+◌, ◌<◌, String, true, false, Option, none, some, List, [], ◌∷◌, ◌≡◌, refl, str_eq,
  if◌then◌else◌, arith, Bool-cases, Option-cases, inl, inr, eq_iff, sym, ◌∙◌,
}
use configurable_crm.Auth.Limits.{
  Redis, Settings, Naming, Budgets, Event, login, refresh, signed_in, second, incr_with_window,
  check_each, check_login, check_refresh, reset_login, respond, run, email_key, login_budgets,
  refresh_budgets,
}
use configurable_crm.Auth.Limits.Promise.{
  Windows, struck, hit, closed, aged, wait, longer, attempt, promise, promised, Shows, judge-longer,
  longer_assoc, longer-none, lasting, Shows-struck, Shows-left, Shows-hits, Shows-aged,
}

module _ (redis : Redis) where
  open redis use {Store, value, ttl, incr, expire, delete, elapse}

  -- The store shows the windows.
  unfoldable pub AllShow : Store → Windows → Type 0
  AllShow s t = (q : String) → Shows (value s q) (ttl s q) (t q)

  abbrev Struck : ℕ → String → Store → Windows → Store × ℕ × ℕ → Type 0
  Struck length key s t (s', count, left) =
      AllShow s' (hit length key t)
      × (count ≡ (struck length (t key)).hits)
      × (left ≡ (struck length (t key)).left)

  -- The store after the counter of a key was incremented, with a time to live if it has none.
  abbrev counted : ℕ → String → Store → Store
  counted length key s = elim (ttl s key) [
    | none ↦ expire key length (incr key s)
    | some left ↦ incr key s
  ]

  value-counted :
      (length : ℕ) (key q : String) (s : Store)
      → 0 < length
      → value (counted length key s) q ≡ (if str_eq key q then value s q + 1 else value s q)
  value-counted length key q s n = elim (Option-cases (ttl s key)) [
    | inl e ↦
        rw (e, counted) (redis.value-expire (incr key s) key q length n ∙ redis.value-incr s key q)
    | inr (l, e) ↦ rw (e, counted) (redis.value-incr s key q)
  ]

  str_eq_refl : (key : String) → str_eq key key ≡ true
  str_eq_refl key = (eq_iff key key).1 refl

  value-incr_pos : (key : String) (s : Store) → 0 < value (incr key s) key
  value-incr_pos key s = rw (redis.value-incr s key key, str_eq_refl key) (omega arith)

  ttl-counted_key :
      (length : ℕ) (key : String) (s : Store)
      → 0 < length
      → ttl (counted length key s) key ≡ some (lasting length (ttl s key))
  ttl-counted_key length key s n = elim (Option-cases (ttl s key)) [
    | inl e ↦
        rw
          (
            e,
            counted,
            redis.ttl-expire (incr key s) key key length n (value-incr_pos key s),
            str_eq_refl key,
          )
          refl
    | inr (l, e) ↦ rw (e, counted, redis.ttl-incr s key key, e) refl
  ]

  ttl-counted_other :
      (length : ℕ) (key q : String) (s : Store)
      → 0 < length
      → str_eq key q ≡ false
      → ttl (counted length key s) q ≡ ttl s q
  ttl-counted_other length key q s n other = elim (Option-cases (ttl s key)) [
    | inl e ↦
        rw (e, counted, redis.ttl-expire (incr key s) key q length n (value-incr_pos key s), other)
          (redis.ttl-incr s key q)
    | inr (l, e) ↦ rw (e, counted) (redis.ttl-incr s key q)
  ]

  incr_with_window-counted :
      (length : ℕ) (key : String) (s : Store)
      → incr_with_window redis key length s
        ≡ (counted length key s, value (incr key s) key, lasting length (ttl s key))
  unfolding incr_with_window
  incr_with_window-counted length key s =
      rw (incr_with_window, redis.ttl-incr s key key)
        (elim (Option-cases (ttl s key)) [
          | inl e ↦ rw (e, counted) refl
          | inr (l, e) ↦ rw (e, counted) refl
        ])

  counted-AllShow :
      (length : ℕ) (key : String) (s : Store) (t : Windows)
      → 0 < length
      → AllShow s t
      → AllShow (counted length key s) (hit length key t)
  unfolding hit AllShow
  counted-AllShow length key s t n h q = elim (Bool-cases (str_eq key q)) [
    | inl same ↦
        let key≡q = (eq_iff key q).0 same in
        rw (same, value-counted length key q s n, same, ← key≡q, ttl-counted_key length key s n)
          (Shows-struck length (value s key) (ttl s key) (t key) (h key))
    | inr other ↦
        rw (other, value-counted length key q s n, other, ttl-counted_other length key q s n other)
          (h q)
  ]

  counted-left :
      (length : ℕ) (key : String) (s : Store) (t : Windows)
      → AllShow s t
      → lasting length (ttl s key) ≡ (struck length (t key)).left
  unfolding AllShow
  counted-left length key s t h = Shows-left length (value s key) (ttl s key) (t key) (h key)

  counted-hits :
      (length : ℕ) (key : String) (s : Store) (t : Windows)
      → AllShow s t
      → value (incr key s) key ≡ (struck length (t key)).hits
  unfolding AllShow
  counted-hits length key s t h =
      rw (redis.value-incr s key key, str_eq_refl key)
        (Shows-hits length (value s key) (ttl s key) (t key) (h key))

  check_each-attempt :
      (length : ℕ) (exceeded : Option ℕ) (budgets : Budgets) (s : Store) (t : Windows)
      → 0 < length
      → AllShow s t
      → AllShow (check_each redis length exceeded budgets s).0 (attempt length budgets t).0
        × ((check_each redis length exceeded budgets s).1
            ≡ longer exceeded (attempt length budgets t).1)
  unfolding check_each attempt
  check_each-attempt length exceeded [] s t n h = (h, sym (longer-none exceeded))
  check_each-attempt length exceeded ((key, limit) ∷ budgets) s t n h =
      rw
        (
          check_each,
          incr_with_window-counted length key s,
          judge-longer limit (struck length (t key)) exceeded (value (incr key s) key)
              (lasting length (ttl s key)) (counted-hits length key s t h)
              (counted-left length key s t h),
          ← longer_assoc exceeded (wait limit (struck length (t key)))
              (attempt length budgets (hit length key t)).1,
        )
        (check_each-attempt length (longer exceeded (wait limit (struck length (t key)))) budgets
          (counted length key s) (hit length key t) n (counted-AllShow length key s t n h))

  delete-AllShow :
      (key : String) (s : Store) (t : Windows) → AllShow s t → AllShow (delete key s) (closed key t)
  unfolding AllShow closed Shows
  delete-AllShow key s t h q = elim (Bool-cases (str_eq key q)) [
    | inl same ↦ rw (same, redis.value-delete s key q, redis.ttl-delete s key q, same) (refl, refl)
    | inr other ↦ rw (other, redis.value-delete s key q, redis.ttl-delete s key q, other) (h q)
  ]

  elapse-AllShow : (s : Store) (t : Windows) → AllShow s t → AllShow (elapse s) (λ q. aged (t q))
  unfolding AllShow
  elapse-AllShow s t h q =
      rw (redis.value-elapse s q, redis.ttl-elapse s q)
        (Shows-aged (value s q) (ttl s q) (t q) (h q))

  module _ (naming : Naming) (settings : Settings) where
    respond-promise :
        (e : Event) (s : Store) (t : Windows)
        → 0 < settings.login_window
        → 0 < settings.refresh_window
        → AllShow s t
        → AllShow (respond redis naming settings e s).0 (promise naming settings e t).0
          × ((respond redis naming settings e s).1 ≡ (promise naming settings e t).1)
    unfolding respond promise check_login check_refresh reset_login
    respond-promise (login email client_ip) s t n m h =
        check_each-attempt settings.login_window none
          (login_budgets naming settings email client_ip) s t n h
    respond-promise (refresh token client_ip) s t n m h =
        check_each-attempt settings.refresh_window none
          (refresh_budgets naming settings token client_ip) s t m h
    respond-promise (signed_in email client_ip) s t n m h = (
      delete-AllShow (text_append "login:ip:" client_ip) (delete (email_key naming email) s)
          (closed (email_key naming email) t) (delete-AllShow (email_key naming email) s t h),
      refl,
    )
    respond-promise second s t n m h = (elapse-AllShow s t h, refl)

    run-promised_of_AllShow :
        (es : List Event) (s : Store) (t : Windows)
        → 0 < settings.login_window
        → 0 < settings.refresh_window
        → AllShow s t
        → run redis naming settings es s ≡ promised naming settings es t
    unfolding run promised
    run-promised_of_AllShow [] s t n m h = refl
    run-promised_of_AllShow (e ∷ es) s t n m h =
        let (shown, same) = respond-promise e s t n m h in
        rw
          (
            same,
            run-promised_of_AllShow es (respond redis naming settings e s).0
                (promise naming settings e t).0 n m shown,
          )
          refl

    -- If both windows last and Redis has no counter at first, then the limiter answers every
    -- sequence of requests as windows that strike, age and close would: it refuses an attempt with
    -- the longest wait among the keys that are over their budget, and lets it pass if none is.
    pub run-promised :
        (es : List Event) (s : Store)
        → 0 < settings.login_window
        → 0 < settings.refresh_window
        → ((q : String) → (value s q ≡ 0) × (ttl s q ≡ none))
        → run redis naming settings es s ≡ promised naming settings es (λ q. none)
    unfolding AllShow Shows
    run-promised es s n m h = run-promised_of_AllShow es s (λ q. none) n m h
