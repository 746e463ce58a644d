-- ===== src/Auth/Limits/Admitted.antt =====
-- How many logins of one address the limiter of auth/rate_limit.py lets pass.
use Prim.Native.String.{◌++◌ as text_append}
use native.Mathlib.Nat.{add-zero, add_assoc, zero-add}
use configurable_crm.Prelude.{
  ℕ, ◌+◌, ◌*◌, ◌/◌, ◌<◌, ◌≤◌, String, false, Option, none, List, [], ◌∷◌, ◌≡◌, str_eq,
  if◌then◌else◌, arith, Bool-cases, inl, inr, eq_iff, count, All,
}
use configurable_crm.Auth.Limits.{
  Redis, Settings, Naming, Event, login, refresh, signed_in, second, run, email_key, login_budgets,
  refresh_budgets,
}
use configurable_crm.Auth.Limits.Promise.{
  Window, Windows, struck, hit, closed, wait, longer, attempt, promise, promised,
}
use configurable_crm.Auth.Limits.Windows.{run-promised}
use configurable_crm.Auth.Limits.Spent.{
  passed, is_login_of, is_sign_in_of, admitted, is_second, ip-key_other, refresh_token-key_other,
  refresh_ip-key_other, Spent, Spent-passed, Spent-aged, Spent-bound, hit-other,
}

module _ (naming : Naming) (settings : Settings) (email : String) where
  abbrev SpentOn : ℕ → ℕ → Option Window → Type 0
  SpentOn a p o = Spent settings.login_limit settings.login_window a p o

  abbrev key : String
  key = email_key naming email

  login-SpentOn :
      (e client_ip : String) (t : Windows) (a p : ℕ)
      → 0 < settings.login_window
      → SpentOn a p (t key)
      → SpentOn
          (a
            + (if str_eq (email_key naming e) key
                then passed (promise naming settings (login e client_ip) t).1
                else 0))
          p
          ((promise naming settings (login e client_ip) t).0 key)
  unfolding promise attempt login_budgets
  login-SpentOn e client_ip t a p n h =
      let t1 = hit settings.login_window (email_key naming e) t in
      let ip = text_append "login:ip:" client_ip in
      rw (hit-other settings.login_window ip key t1 (ip-key_other naming client_ip email))
        (elim (Bool-cases (str_eq (email_key naming e) key)) [
          | inl same ↦
              rw (same, (eq_iff (email_key naming e) key).0 same)
                (Spent-passed settings.login_limit settings.login_window n a p (t key)
                  (longer
                    (wait settings.login_limit
                      (struck settings.login_window (hit settings.login_window key t ip)))
                    none)
                  h)
          | inr other ↦ rw (other, add-zero a) h
        ])

  promise-SpentOn :
      (e : Event) (t : Windows) (a p : ℕ)
      → 0 < settings.login_window
      → is_sign_in_of naming email e ≡ false
      → SpentOn a p (t key)
      → SpentOn
          (a + (if is_login_of naming email e then passed (promise naming settings e t).1 else 0))
          (p + (if is_second e then 1 else 0))
          ((promise naming settings e t).0 key)
  unfolding is_second is_sign_in_of is_login_of promise
  promise-SpentOn (login e client_ip) t a p n other h =
      rw (add-zero p) (login-SpentOn e client_ip t a p n h)
  promise-SpentOn (refresh token client_ip) t a p n other h =
      let token_key = text_append "refresh:token:" (naming.fingerprint token) in
      let ip_key = text_append "refresh:ip:" client_ip in
      rw
        (
          add-zero a,
          add-zero p,
          attempt,
          refresh_budgets,
          hit-other settings.refresh_window ip_key key (hit settings.refresh_window token_key t)
              (refresh_ip-key_other naming client_ip email),
          hit-other settings.refresh_window token_key key t
              (refresh_token-key_other naming (naming.fingerprint token) email),
        )
        h
  promise-SpentOn (signed_in e client_ip) t a p n other h =
      rw (add-zero a, add-zero p, closed, ip-key_other naming client_ip email, other) h
  promise-SpentOn second t a p n other h =
      rw (add-zero a) (Spent-aged settings.login_limit settings.login_window n a p (t key) h)

  admitted_le :
      (es : List Event) (t : Windows) (a p : ℕ)
      → 0 < settings.login_window
      → All (λ e. is_sign_in_of naming email e ≡ false) es
      → SpentOn a p (t key)
      → a + admitted naming email es (promised naming settings es t)
        ≤ settings.login_limit * ((p + count is_second es) / settings.login_window + 1)
  unfolding admitted promised
  admitted_le [] t a p n others h =
      rw (add-zero a, add-zero p)
        (Spent-bound settings.login_limit settings.login_window n a p (t key) h)
  admitted_le (e ∷ es) t a p n (other, others) h =
      let gain = if is_login_of naming email e then passed (promise naming settings e t).1 else 0 in
      let (t', answer) = promise naming settings e t in
      rw
        (
          ← add_assoc a gain (admitted naming email es (promised naming settings es t')),
          ← add_assoc p (if is_second e then 1 else 0) (count is_second es),
        )
        (admitted_le es t' (a + gain) (p + (if is_second e then 1 else 0)) n others
          (promise-SpentOn e t a p n other h))

  -- If both windows last, Redis has no counter at first, and the counter of the address is not
  -- reset, then of the logins of one address, among any requests in whatever order, no more get
  -- through than the limit for each full window of the time that passed, and once more.
  pub run-admitted :
      (redis : Redis) (es : List Event) (s : redis.Store)
      → 0 < settings.login_window
      → 0 < settings.refresh_window
      → ((q : String) → (redis.value s q ≡ 0) × (redis.ttl s q ≡ none))
      → All (λ e. is_sign_in_of naming email e ≡ false) es
      → admitted naming email es (run redis naming settings es s)
        ≤ settings.login_limit * (count is_second es / settings.login_window + 1)
  unfolding Spent
  run-admitted redis es s n m empty others =
      rw
        (
          run-promised redis naming settings es s n m empty,
          ← zero-add (admitted naming email es (promised naming settings es (λ q. none))),
          ← zero-add (count is_second es),
        )
        (admitted_le es (λ q. none) 0 0 n others (0, omega arith, omega arith))
