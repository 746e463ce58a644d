-- ===== src/Auth/Limits/Promise.antt =====
-- What the limiter of auth/rate_limit.py promises, without Redis: a window for each key.
use Prim.Native.String.{◌++◌ as text_append}
use configurable_crm.Prelude.{
  ℕ, ◌+◌, ◌-◌, ◌<◌, max, String, Option, none, some, List, [], ◌∷◌, ◌≡◌, refl, leb, ltb, str_eq,
  if◌then◌else◌, arith, Bool-cases, inl, inr,
}
use configurable_crm.Auth.Limits.{
  Settings, Naming, Budgets, Event, login, refresh, signed_in, second, judge, email_key,
  login_budgets, refresh_budgets,
}

-- An open window: the attempts in it, and the seconds until it closes.
pub record Window : Type 0 where
  pub hits : ℕ
  pub left : ℕ

abbrev pub Windows : Type 0
Windows = String → Option Window

unfoldable pub struck : ℕ → Option Window → Window
struck length none = record { hits = 1; left = length }
struck length (some w) = record w { hits = w.hits + 1 }

unfoldable pub hit : ℕ → String → Windows → Windows
unfolding struck
hit length key t q = if str_eq key q then some (struck length (t q)) else t q

unfoldable pub closed : String → Windows → Windows
closed key t q = if str_eq key q then none else t q

unfoldable pub aged : Option Window → Option Window
aged none = none
aged (some w) = if leb w.left 1 then none else some (record w { left = w.left - 1 })

-- The wait for one key, and the longer of two.
unfoldable pub wait : ℕ → Window → Option ℕ
wait limit w = if ltb limit w.hits then some (max w.left 1) else none

unfoldable pub longer : Option ℕ → Option ℕ → Option ℕ
longer none b = b
longer (some a) none = some a
longer (some a) (some b) = some (max a b)

-- An attempt strikes the window of each of its keys, and waits for the longest.
unfoldable pub attempt : ℕ → Budgets → Windows → Windows × Option ℕ
unfolding hit wait longer
attempt length [] t = (t, none)
attempt length ((key, limit) ∷ budgets) t =
    let (t', answer) = attempt length budgets (hit length key t) in
    (t', longer (wait limit (struck length (t key))) answer)

module _ (naming : Naming) (settings : Settings) where
  unfoldable pub promise : Event → Windows → Windows × Option ℕ
  unfolding attempt closed aged login_budgets refresh_budgets
  promise (login email client_ip) t =
      attempt settings.login_window (login_budgets naming settings email client_ip) t
  promise (refresh refresh_token client_ip) t =
      attempt settings.refresh_window (refresh_budgets naming settings refresh_token client_ip) t
  promise (signed_in email client_ip) t =
      (closed (text_append "login:ip:" client_ip) (closed (email_key naming email) t), none)
  promise second t = (λ q. aged (t q), none)

  unfoldable pub promised : List Event → Windows → List (Option ℕ)
  unfolding promise
  promised [] t = []
  promised (e ∷ es) t = let (t', answer) = promise e t in answer ∷ promised es t'

-- The counter and the time to live that show a window.
unfoldable pub Shows : ℕ → Option ℕ → Option Window → Type 0
Shows value ttl none = (value ≡ 0) × (ttl ≡ none)
Shows value ttl (some w) = (value ≡ w.hits) × (ttl ≡ some w.left) × (0 < w.hits)

pub judge-longer :
    (limit : ℕ) (w : Window) (exceeded : Option ℕ) (v l : ℕ)
    → v ≡ w.hits
    → l ≡ w.left
    → judge limit v l exceeded ≡ longer exceeded (wait limit w)
unfolding judge longer wait
judge-longer limit w none v l hv hl = ground arith
judge-longer limit w (some e) v l hv hl = ground arith

pub longer_assoc : (a b c : Option ℕ) → longer (longer a b) c ≡ longer a (longer b c)
unfolding longer
longer_assoc none b c = refl
longer_assoc (some a) none c = refl
longer_assoc (some a) (some b) none = refl
longer_assoc (some a) (some b) (some c) = ground arith

pub longer-none : (a : Option ℕ) → longer a none ≡ a
unfolding longer
longer-none none = refl
longer-none (some a) = refl

Shows-of_none : (v : ℕ) (o : Option Window) → Shows v none o → (o ≡ none) × (v ≡ 0)
unfolding Shows
Shows-of_none v none h = (refl, h.0)
Shows-of_none v (some w) h = absurd (ground (arith, h))

Shows-of_some :
    (v l : ℕ) (o : Option Window)
    → Shows v (some l) o
    → (w : Window) × (o ≡ some w) × (v ≡ w.hits) × (l ≡ w.left)
unfolding Shows
Shows-of_some v l none h = absurd (ground (arith, h))
Shows-of_some v l (some w) h = (w, refl, h.0, ground (arith, h))

-- The time to live that a window goes on with: a new one lasts `length`.
abbrev pub lasting : ℕ → Option ℕ → ℕ
lasting length none = length
lasting length (some left) = left

pub Shows-struck :
    (length v : ℕ) (l : Option ℕ) (o : Option Window)
    → Shows v l o
    → Shows (v + 1) (some (lasting length l)) (some (struck length o))
unfolding Shows struck
Shows-struck length v l none h = rw h.1 (ground (arith, h))
Shows-struck length v l (some w) h = rw h.1 (ground (arith, h))

pub Shows-left :
    (length v : ℕ) (l : Option ℕ) (o : Option Window)
    → Shows v l o
    → lasting length l ≡ (struck length o).left
unfolding Shows struck
Shows-left length v l none h = rw h.1 refl
Shows-left length v l (some w) h = rw h.1 refl

pub Shows-hits :
    (length v : ℕ) (l : Option ℕ) (o : Option Window) → Shows v l o → v + 1 ≡ (struck length o).hits
unfolding Shows struck
Shows-hits length v l none h = ground (arith, h)
Shows-hits length v l (some w) h = ground (arith, h)

pub Shows-aged :
    (v : ℕ) (l : Option ℕ) (o : Option Window)
    → Shows v l o
    → Shows
        (elim l [ none ↦ v | some t ↦ if leb t 1 then 0 else v ])
        (elim l [ none ↦ none | some t ↦ if leb t 1 then none else some (t - 1) ])
        (aged o)
unfolding Shows aged
Shows-aged v l none h = rw h.1 (h.0, refl)
Shows-aged v l (some w) h = rw h.1 (elim (Bool-cases (leb w.left 1)) [
  | inl last ↦ rw last (refl, refl)
  | inr more ↦ rw more (h.0, refl, h.2)
])
