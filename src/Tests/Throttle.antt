-- ===== src/Tests/Throttle.antt =====
-- A Redis in memory, and the logins and refreshes of one address against it.
use configurable_crm.Prelude.{
  ℕ, ◌+◌, ◌-◌, ◌*◌, ◌/◌, ◌≤◌, ◌<◌, ◌∙◌, eq_iff, String, Bool, true, false, Option, none, some, List,
  [], ◌∷◌, ◌≡◌, refl, arith, count, leb, str_eq, if◌then◌else◌,
}
use configurable_crm.Auth.Limits.{
  Redis, Settings, Naming, Event, login, refresh, signed_in, second, run, email_key,
}
use configurable_crm.Auth.Limits.Promise.{promised}
use configurable_crm.Auth.Limits.Windows.{run-promised}
use configurable_crm.Auth.Limits.Spent.{admitted, is_second, is_sign_in_of}
use configurable_crm.Auth.Limits.Admitted.{run-admitted}

abbrev Slot : Type 0
Slot = Option (ℕ × Option ℕ)

abbrev number : Slot → ℕ
number none = 0
number (some (n, t)) = n

abbrev lasts : Slot → Option ℕ
lasts none = none
lasts (some (n, t)) = t

abbrev expired : ℕ → Slot → Slot
expired seconds none = none
expired seconds (some (n, t)) = some (n, some seconds)

abbrev older : Slot → Slot
older none = none
older (some (n, none)) = some (n, none)
older (some (n, some t)) = if leb t 1 then none else some (n, some (t - 1))

on_if {ℓ κ} :
    {A : Type ℓ} {B : Type κ} (f : A → B) (b : Bool) (x y : A)
    → f (if b then x else y) ≡ (if b then f x else f y)
on_if f true x y = refl
on_if f false x y = refl

if-same {ℓ} : {A : Type ℓ} (b : Bool) (x : A) → (if b then x else x) ≡ x
if-same true x = refl
if-same false x = refl

if-under {ℓ} :
    {A : Type ℓ} (b : Bool) {x y : A} (z : A)
    → (b ≡ true → x ≡ y)
    → (if b then x else z) ≡ (if b then y else z)
if-under true z h = h refl
if-under false z h = refl

expired-lasts : (e : Slot) (seconds : ℕ) → 0 < number e → lasts (expired seconds e) ≡ some seconds
expired-lasts none seconds h = absurd (omega (arith, h))
expired-lasts (some (n, t)) seconds h = refl

expired-number : (e : Slot) (seconds : ℕ) → number (expired seconds e) ≡ number e
expired-number none seconds = refl
expired-number (some (n, t)) seconds = refl

older-number :
    (e : Slot)
    → number (older e)
      ≡ (elim (lasts e) [ none ↦ number e | some t ↦ if leb t 1 then 0 else number e ])
older-number none = refl
older-number (some (n, none)) = refl
older-number (some (n, some t)) = on_if number (leb t 1) none (some (n, some (t - 1)))

older-lasts :
    (e : Slot)
    → lasts (older e)
      ≡ (elim (lasts e) [ none ↦ none | some t ↦ if leb t 1 then none else some (t - 1) ])
older-lasts none = refl
older-lasts (some (n, none)) = refl
older-lasts (some (n, some t)) = on_if lasts (leb t 1) none (some (n, some (t - 1)))

abbrev memory : Redis
memory = record {
  Store = String → Slot;
  value = λ s q. number (s q);
  ttl = λ s q. lasts (s q);
  incr = λ k s q. if str_eq k q then some (number (s q) + 1, lasts (s q)) else s q;
  expire = λ k seconds s q. if str_eq k q then expired seconds (s q) else s q;
  delete = λ k s q. if str_eq k q then none else s q;
  elapse = λ s q. older (s q);
  value-incr = λ s k q. ground arith;
  ttl-incr = λ s k q. ground arith;
  value-expire = λ s k q seconds h.
      on_if number (str_eq k q) (expired seconds (s q)) (s q)
      ∙ if-under (str_eq k q) (number (s q)) (λ same. expired-number (s q) seconds)
      ∙ if-same (str_eq k q) (number (s q));
  ttl-expire = λ s k q seconds h pos.
      on_if lasts (str_eq k q) (expired seconds (s q)) (s q)
      ∙ if-under (str_eq k q) (lasts (s q))
          (λ same. expired-lasts (s q) seconds (rw (← (eq_iff k q).0 same) pos));
  value-delete = λ s k q. ground arith;
  ttl-delete = λ s k q. ground arith;
  value-elapse = λ s q. older-number (s q);
  ttl-elapse = λ s q. older-lasts (s q);
}

abbrev plain : Naming
plain = record { casefold = λ email. email; fingerprint = λ token. token }

abbrev strict : Settings
strict = record {
  login_limit = 2;
  login_window = 3;
  refresh_token_limit = 1;
  refresh_ip_limit = 2;
  refresh_window = 2;
}

-- Three logins of one address in a window of two, a token shown twice, and a login a window later.
abbrev requests : List Event
requests =
    login "ann@x" "1"
    ∷ login "ann@x" "2"
    ∷ login "ann@x" "3"
    ∷ refresh "t" "1"
    ∷ refresh "t" "1"
    ∷ second
    ∷ second
    ∷ second
    ∷ signed_in "bob@x" "1"
    ∷ login "ann@x" "3"
    ∷ []

answers :
    run memory plain strict requests (λ q. none)
    ≡ none ∷ none ∷ some 3 ∷ none ∷ some 2 ∷ none ∷ none ∷ none ∷ none ∷ none ∷ []
unfolding run
answers = refl

run-promised_example :
    run memory plain strict requests (λ q. none) ≡ promised plain strict requests (λ q. none)
run-promised_example =
    run-promised memory plain strict requests (λ q. none) (omega arith) (omega arith)
      (λ q. (refl, refl))

run-admitted_example :
    admitted plain "ann@x" requests (run memory plain strict requests (λ q. none))
    ≤ 2 * (count is_second requests / 3 + 1)
unfolding is_sign_in_of email_key
run-admitted_example =
    run-admitted plain strict "ann@x" memory requests (λ q. none) (omega arith) (omega arith)
      (λ q. (refl, refl))
      (refl, (refl, (refl, (refl, (refl, (refl, (refl, (refl, (refl, (refl, tt))))))))))
