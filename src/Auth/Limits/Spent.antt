-- ===== src/Auth/Limits/Spent.antt =====
-- How a window of the limiter of auth/rate_limit.py bounds the logins that it lets through.
use Prim.Native.String.{◌++◌ as text_append, len, slice}
use mathlib.Core.Bool.{false≢true}
use text.Mathlib.TextPositions.{slice-append_left}
use text.Mathlib.TextLemmas.{append_assoc}
use native.Mathlib.Nat.{add-zero, mul-add, add-mul, mul-le-mul_left, le-div_iff_mul-le}
use configurable_crm.Prelude.{
  ℕ, ◌+◌, ◌*◌, ◌/◌, ◌<◌, ◌≤◌, String, Bool, true, false, Option, none, some, List, [], ◌∷◌, ◌≡◌,
  refl, leb, ltb, str_eq, if◌then◌else◌, arith, Bool-cases, Option-cases, inl, inr, eq_iff, sym,
  ◌∙◌, ap,
}
use configurable_crm.Auth.Limits.{Naming, Event, login, refresh, signed_in, second, email_key}
use configurable_crm.Auth.Limits.Promise.{Window, Windows, struck, hit, aged, wait, longer}

abbrev pub passed : Option ℕ → ℕ
passed none = 1
passed (some seconds) = 0

module _ (naming : Naming) where
  -- A login with the counter of this address.
  unfoldable pub is_login_of : String → Event → Bool
  is_login_of email (login e client_ip) = str_eq (email_key naming e) (email_key naming email)
  is_login_of email (refresh t client_ip) = false
  is_login_of email (signed_in e client_ip) = false
  is_login_of email second = false

  unfoldable pub is_sign_in_of : String → Event → Bool
  is_sign_in_of email (signed_in e client_ip) = str_eq (email_key naming e) (email_key naming email)
  is_sign_in_of email (login e client_ip) = false
  is_sign_in_of email (refresh t client_ip) = false
  is_sign_in_of email second = false

  -- The logins of an address that got through.
  unfoldable pub admitted : String → List Event → List (Option ℕ) → ℕ
  unfolding is_login_of
  admitted email [] answers = 0
  admitted email (e ∷ es) [] = 0
  admitted email (e ∷ es) (answer ∷ answers) =
      (if is_login_of email e then passed answer else 0) + admitted email es answers

unfoldable pub is_second : Event → Bool
is_second second = true
is_second (login e i) = false
is_second (refresh e i) = false
is_second (signed_in e i) = false

-- Texts that begin differently are different.
str_eq-append :
    (p q a b : String)
    → len p ≡ len q
    → str_eq p q ≡ false
    → str_eq (text_append p a) (text_append q b) ≡ false
str_eq-append p q a b l d = elim (Bool-cases (str_eq (text_append p a) (text_append q b))) [
  | inl same ↦
      let whole = (eq_iff (text_append p a) (text_append q b)).0 same in
      let begins =
        sym (slice-append_left p a)
        ∙ ap (λ u. slice u 0 (len p)) whole
        ∙ ap (λ n. slice (text_append q b) 0 n) l
        ∙ slice-append_left q b in
      absurd (false≢true (sym d ∙ (eq_iff p q).1 begins))
  | inr other ↦ other
]

module _ (naming : Naming) where
  pub ip-key_other :
      (ip email : String) → str_eq (text_append "login:ip:" ip) (email_key naming email) ≡ false
  unfolding email_key
  ip-key_other ip email =
      rw (append_assoc "login:i" "p:" ip, append_assoc "login:e" "mail:" (naming.casefold email))
        (str_eq-append "login:i" "login:e" (text_append "p:" ip)
          (text_append "mail:" (naming.casefold email)) refl refl)

  pub refresh_token-key_other :
      (token email : String)
      → str_eq (text_append "refresh:token:" token) (email_key naming email) ≡ false
  unfolding email_key
  refresh_token-key_other token email =
      rw
        (
          append_assoc "r" "efresh:token:" token,
          append_assoc "l" "ogin:email:" (naming.casefold email),
        )
        (str_eq-append "r" "l" (text_append "efresh:token:" token)
          (text_append "ogin:email:" (naming.casefold email)) refl refl)

  pub refresh_ip-key_other :
      (ip email : String) → str_eq (text_append "refresh:ip:" ip) (email_key naming email) ≡ false
  unfolding email_key
  refresh_ip-key_other ip email =
      rw (append_assoc "r" "efresh:ip:" ip, append_assoc "l" "ogin:email:" (naming.casefold email))
        (str_eq-append "r" "l" (text_append "efresh:ip:" ip)
          (text_append "ogin:email:" (naming.casefold email)) refl refl)

-- After `p` seconds with `a` logins let through, a window is open or not: `c` windows have closed
-- before it, each after `n` seconds and with at most `limit` logins.
unfoldable pub Spent : (limit n a p : ℕ) → Option Window → Type 0
Spent limit n a p none = (c : ℕ) × (a ≤ limit * c) × (c * n ≤ p)
Spent limit n a p (some w) =
    (c : ℕ) × (b : ℕ) × (o : ℕ) × (b ≤ limit * c)
    × (c * n ≤ o)
    × (a ≤ b + w.hits)
    × (a ≤ b + limit)
    × (o + n ≡ p + w.left)
    × (w.left ≤ n)
    × (0 < w.left)

module _ (limit n : ℕ) (n_pos : 0 < n) where
  Spent-struck :
      (a p : ℕ) (o : Option Window) → Spent limit n a p o → Spent limit n a p (some (struck n o))
  unfolding Spent struck
  Spent-struck a p none (c, h, k) =
      (c, a, p, h, k, omega arith, omega arith, refl, omega arith, n_pos)
  Spent-struck a p (some w) (c, b, o, h, k, i, j, e, l, m) =
      (c, b, o, h, k, omega (arith, i), j, e, l, m)

  Spent-admitted :
      (a p : ℕ) (o : Option Window)
      → Spent limit n a p o
      → ltb limit (struck n o).hits ≡ false
      → Spent limit n (a + 1) p (some (struck n o))
  unfolding Spent struck
  Spent-admitted a p none (c, h, k) free =
      (c, a, p, h, k, omega arith, ground (arith, free), refl, omega arith, n_pos)
  Spent-admitted a p (some w) (c, b, o, h, k, i, j, e, l, m) free =
      (c, b, o, h, k, omega (arith, i), ground (arith, free, i), e, l, m)

  pub Spent-passed :
      (a p : ℕ) (o : Option Window) (answer : Option ℕ)
      → Spent limit n a p o
      → Spent limit n (a + passed (longer (wait limit (struck n o)) answer)) p (some (struck n o))
  unfolding wait longer
  Spent-passed a p o answer h = elim (Bool-cases (ltb limit (struck n o).hits)) [
    | inl over ↦ rw over (elim (Option-cases answer) [
      | inl e ↦ rw (e, add-zero a) (Spent-struck a p o h)
      | inr (s, e) ↦ rw (e, add-zero a) (Spent-struck a p o h)
    ])
    | inr free ↦ rw free (elim (Option-cases answer) [
      | inl e ↦ rw e (Spent-admitted a p o h free)
      | inr (s, e) ↦ rw (e, add-zero a) (Spent-struck a p o h)
    ])
  ]

  pub Spent-aged :
      (a p : ℕ) (o : Option Window) → Spent limit n a p o → Spent limit n a (p + 1) (aged o)
  unfolding Spent aged
  Spent-aged a p none (c, h, k) = (c, h, omega (arith, k))
  Spent-aged a p (some w) (c, b, o, h, k, i, j, e, l, m) = elim (Bool-cases (leb w.left 1)) [
    | inl last ↦ rw last (
      c + 1,
      omega (arith, h, j, mul-add limit c 1),
      ground (arith, k, e, m, last, add-mul c 1 n),
    )
    | inr more ↦
        rw more
          (c, b, o, h, k, i, j, ground (arith, e, more), omega (arith, l), ground (arith, more))
  ]

  quotient-le : (c p : ℕ) → c * n ≤ p → limit * (c + 1) ≤ limit * (p / n + 1)
  quotient-le c p k =
      mul-le-mul_left limit (omega (arith, (le-div_iff_mul-le {k = n} {x = c} {y = p} n_pos).1 k))

  pub Spent-bound : (a p : ℕ) (o : Option Window) → Spent limit n a p o → a ≤ limit * (p / n + 1)
  unfolding Spent
  Spent-bound a p none (c, h, k) = omega (arith, h, mul-add limit c 1, quotient-le c p k)
  Spent-bound a p (some w) (c, b, o, h, k, i, j, e, l, m) =
      omega (arith, h, j, mul-add limit c 1, quotient-le c p (omega (arith, k, e, l)))

pub hit-other : (n : ℕ) (key q : String) (t : Windows) → str_eq key q ≡ false → hit n key t q ≡ t q
unfolding hit
hit-other n key q t other = rw other refl
