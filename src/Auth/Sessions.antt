-- ===== src/Auth/Sessions.antt =====
-- `AuthService` (api/app/services/auth.py) on the users and the refresh tokens. `rotate` commits
-- the revocation of a replayed family before it raises, so its state comes with the result.
use configurable_crm.Prelude.{
  ℕ, suc, ◌+◌, String, Bool, true, false, not, ◌&&◌, Option, none, some, List, [], ◌∷◌, ◌++◌, map,
  ◌==◌, leb, keep, any, str_eq, if◌then◌else◌,
}
use configurable_crm.Prelude.Table.{find, update}
use configurable_crm.Errors.{
  invalid_credentials, invalid_token, token_reuse_detected, member_inactive, no_license, Result, ok,
  raise, unauthorized, forbidden,
}
use configurable_crm.Members.Defs.{Membership}

pub record User : Type 0 where
  pub id : ℕ
  pub email : String
  pub password_hash : String
  pub is_active : Bool

-- `token_hash` is the digest read as a number.
pub record RefreshToken : Type 0 where
  pub token_hash : ℕ
  pub user_id : ℕ
  pub family_id : ℕ
  pub expires_at : ℕ
  pub revoked_at : Option ℕ

-- `members` holds the memberships of every workspace, `drawn` counts the random draws so far.
pub record Accounts : Type 0 where
  pub users : List User
  pub members : List Membership
  pub refresh_tokens : List RefreshToken
  pub drawn : ℕ

pub record TokenPair : Type 0 where
  pub access_token : String
  pub refresh_token : String
  pub expires_in_seconds : ℕ

-- Outside this code: SHA-256, the encoded access token, the `n`-th random token and family, the
-- password hasher, and the configured lifetimes.
pub record Crypto : Type 0 where
  pub digest : String → ℕ
  pub encode : ℕ → ℕ → String
  pub random_token : ℕ → String
  pub random_family : ℕ → ℕ
  pub verify : String → String → Bool
  pub needs_rehash : String → Bool
  pub hash : String → String
  pub access_ttl : ℕ
  pub refresh_ttl : ℕ

abbrev pub token_key : RefreshToken → ℕ
token_key t = t.token_hash

abbrev pub user_key : User → ℕ
user_key u = u.id

abbrev pub is_live : RefreshToken → Bool
is_live t = elim t.revoked_at [ none ↦ true | some _ ↦ false ]

abbrev pub revoke_if : (RefreshToken → Bool) → ℕ → RefreshToken → RefreshToken
revoke_if p now t = if p t && is_live t then record t { revoked_at = some now } else t

-- `_revoke_family`
unfoldable pub revoke_family : ℕ → ℕ → Accounts → Accounts
revoke_family family now s = record s {
  refresh_tokens = map (revoke_if (λ t. t.family_id == family) now) s.refresh_tokens;
}

unfoldable pub revoke_all_for_user : ℕ → ℕ → Accounts → Accounts
revoke_all_for_user user now s = record s {
  refresh_tokens = map (revoke_if (λ t. t.user_id == user) now) s.refresh_tokens;
}

abbrev is_none {ℓ} : {A : Type ℓ} → List A → Bool
is_none [] = true
is_none (x ∷ xs) = false

unfoldable pub assert_can_access_any_workspace : List Membership → Result (Unit {0})
assert_can_access_any_workspace memberships =
    if is_none memberships
    then ok tt
    else if not (any (λ m. m.is_active) memberships)
    then raise (forbidden member_inactive)
    else if not (any (λ m. m.is_active && m.has_license) memberships)
    then raise (forbidden no_license)
    else ok tt

unfoldable pub load_memberships : User → List Membership → List Membership
load_memberships user members = keep (λ m. m.user_id == user.id) members

abbrev find_email : String → List User → Option User
find_email email [] = none
find_email email (u ∷ us) = if str_eq u.email email then some u else find_email email us

module _ (crypto : Crypto) (now : ℕ) where
  abbrev family_or : Option ℕ → ℕ → ℕ
  family_or none n = crypto.random_family n
  family_or (some f) n = f

  -- `issue_tokens`
  abbrev pub issued : User → Option ℕ → ℕ → RefreshToken
  issued user family n = record {
    token_hash = crypto.digest (crypto.random_token n);
    user_id = user.id;
    family_id = family_or family n;
    expires_at = now + crypto.refresh_ttl;
    revoked_at = none;
  }

  unfoldable pub issue_tokens : User → Option ℕ → Accounts → Accounts × TokenPair
  issue_tokens user family s = (
    record s {
      refresh_tokens = s.refresh_tokens ++ issued user family s.drawn ∷ [];
      drawn = suc s.drawn;
    },
    record {
      access_token = crypto.encode user.id now;
      refresh_token = crypto.random_token s.drawn;
      expires_in_seconds = crypto.access_ttl;
    },
  )

  -- `authenticate`: the user, whose password hash may be renewed.
  unfoldable pub authenticate : String → String → Accounts → Result (User × Accounts)
  authenticate email password s = elim (find_email email s.users) [
    | none ↦ raise (unauthorized invalid_credentials)
    | some u ↦
        if not (crypto.verify u.password_hash password)
        then raise (unauthorized invalid_credentials)
        else if not u.is_active
        then raise (forbidden member_inactive)
        else if crypto.needs_rehash u.password_hash
        then ok (
          record u { password_hash = crypto.hash password },
          record s {
            users =
                update user_key u.id (λ u. record u { password_hash = crypto.hash password })
                  s.users;
          },
        )
        else ok (u, s)
  ]

  abbrev pub revoke_token : RefreshToken → RefreshToken
  revoke_token t = record t { revoked_at = some now }

  -- The end of `rotate`, once the gates are passed.
  abbrev pub exchange : RefreshToken → User → Accounts → Accounts × Result (User × TokenPair)
  exchange stored user s =
      let revoked = record s {
        refresh_tokens = update token_key stored.token_hash revoke_token s.refresh_tokens;
      } in
      let issue = issue_tokens user (some stored.family_id) revoked in (issue.0, ok (user, issue.1))

  abbrev pub exchange_if :
      Result (Unit {0}) → RefreshToken → User → Accounts → Accounts × Result (User × TokenPair)
  exchange_if (raise e) stored user s = (s, raise e)
  exchange_if (ok _) stored user s = exchange stored user s

  -- `rotate` from the lookup of the user on.
  unfoldable pub rotate_for :
      RefreshToken → Option User → Accounts → Accounts × Result (User × TokenPair)
  unfolding issue_tokens assert_can_access_any_workspace load_memberships
  rotate_for stored none s = (s, raise (unauthorized invalid_token))
  rotate_for stored (some user) s =
      if not user.is_active
      then (s, raise (unauthorized invalid_token))
      else exchange_if (assert_can_access_any_workspace (load_memberships user s.members)) stored
          user s

  -- `rotate` from the stored row on.
  unfoldable pub rotate_stored :
      Option RefreshToken → Accounts → Accounts × Result (User × TokenPair)
  unfolding rotate_for revoke_family
  rotate_stored none s = (s, raise (unauthorized invalid_token))
  rotate_stored (some stored) s =
      if not (is_live stored)
      then (revoke_family stored.family_id now s, raise (unauthorized token_reuse_detected))
      else if leb stored.expires_at now
      then (s, raise (unauthorized invalid_token))
      else rotate_for stored (find user_key stored.user_id s.users) s

  -- `rotate`
  unfoldable pub rotate : String → Accounts → Accounts × Result (User × TokenPair)
  unfolding rotate_stored
  rotate presented s = rotate_stored (find token_key (crypto.digest presented) s.refresh_tokens) s

  unfoldable pub logout : String → Accounts → Accounts
  unfolding revoke_family
  logout presented s = elim (find token_key (crypto.digest presented) s.refresh_tokens) [
    | none ↦ s
    | some stored ↦ revoke_family stored.family_id now s
  ]

  unfoldable pub change_password : User → String → String → Accounts → Result Accounts
  unfolding revoke_all_for_user
  change_password user current replacement s =
      if not (crypto.verify user.password_hash current)
      then raise (unauthorized invalid_credentials)
      else ok (
          revoke_all_for_user user.id now record s {
            users =
                update user_key user.id (λ u. record u { password_hash = crypto.hash replacement })
                  s.users;
          })
