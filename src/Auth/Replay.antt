-- ===== src/Auth/Replay.antt =====
-- A refresh token works once, and a replay ends its family.
use configurable_crm.Prelude.{
  ℕ, ◌≤◌, String, Bool, true, false, ◌&&◌, Option, none, some, List, [], ◌∷◌, ◌++◌, ◌≡◌, refl, ap,
  ◌∙◌, map, ◌==◌, arith, inl, inr, Option-cases, Bool-cases, count, count-append,
}
use configurable_crm.Prelude.Table.{find, update, find-update, find-append, find-key, count-update}
use configurable_crm.Errors.{token_reuse_detected, Result, ok, raise, unauthorized}
use configurable_crm.Auth.Sessions.{
  Crypto, Accounts, RefreshToken, User, TokenPair, token_key, user_key, is_live, revoke_if,
  revoke_family, issue_tokens, issued, revoke_token, exchange_if, rotate, rotate_stored, rotate_for,
  assert_can_access_any_workspace, load_memberships,
}

-- The tokens of a family that can still be exchanged.
abbrev pub live_in : ℕ → List RefreshToken → ℕ
live_in family tokens = count (λ t. t.family_id == family && is_live t) tokens

revoke-none_left :
    (family now : ℕ) (tokens : List RefreshToken)
    → live_in family (map (revoke_if (λ t. t.family_id == family) now) tokens) ≡ 0
revoke-none_left family now [] = refl
revoke-none_left family now (t ∷ ts) = elim (Bool-cases (t.family_id == family && is_live t)) [
  | inl e ↦ ground (arith, e, revoke-none_left family now ts)
  | inr e ↦ ground (arith, e, revoke-none_left family now ts)
]

module _ (crypto : Crypto) (now : ℕ) where
  -- Presenting a token that was revoked raises `token_reuse_detected`, and the state that is
  -- committed has no live token left in its family.
  pub rotate-replay :
      (presented : String) (s : Accounts) (stored : RefreshToken)
      → find token_key (crypto.digest presented) s.refresh_tokens ≡ some stored
      → is_live stored ≡ false
      → ((rotate crypto now presented s).1 ≡ raise (unauthorized token_reuse_detected))
        × (live_in stored.family_id (rotate crypto now presented s).0.refresh_tokens ≡ 0)
  unfolding rotate rotate_stored revoke_family
  rotate-replay presented s stored here spent = (
    ground (arith, here, spent),
    ground (arith, here, spent, revoke-none_left stored.family_id now s.refresh_tokens),
  )

  exchange_if-eq_ok :
      (gate : Result (Unit {0})) (stored : RefreshToken) (user : User) (s : Accounts)
      (out : User × TokenPair)
      → (exchange_if crypto now gate stored user s).1 ≡ ok out
      → (exchange_if crypto now gate stored user s).0.refresh_tokens
        ≡ update token_key stored.token_hash (revoke_token crypto now) s.refresh_tokens
          ++ issued crypto now user (some stored.family_id) s.drawn ∷ []
  unfolding issue_tokens
  exchange_if-eq_ok (raise e) stored user s out h = absurd (ground arith)
  exchange_if-eq_ok (ok _) stored user s out h = refl

  -- The tokens after a rotation that succeeds, and the gates that it passed.
  rotate-eq_ok :
      (presented : String) (s : Accounts) (out : User × TokenPair)
      → (rotate crypto now presented s).1 ≡ ok out
      → (stored : RefreshToken) × (user : User) × (find token_key
            (crypto.digest presented)
            s.refresh_tokens
          ≡ some stored)
        × (is_live stored ≡ true)
        × ((rotate crypto now presented s).0.refresh_tokens
            ≡ update token_key stored.token_hash (revoke_token crypto now) s.refresh_tokens
              ++ issued crypto now user (some stored.family_id) s.drawn ∷ [])
  unfolding rotate rotate_stored rotate_for
  rotate-eq_ok presented s out h =
      elim (Option-cases (find token_key (crypto.digest presented) s.refresh_tokens)) [
        | inl e ↦ absurd (ground (arith, e))
        | inr (stored, e) ↦ elim (Option-cases (find user_key stored.user_id s.users)) [
          | inl n ↦ absurd (ground (arith, e, n))
          | inr (user, u) ↦
              let gate = assert_can_access_any_workspace (load_memberships user s.members) in
              (
                stored,
                user,
                e,
                ground (arith, e, u),
                ground (arith, e, u, exchange_if-eq_ok gate stored user s out),
              )
        ]
      ]

  revoke-le :
      (family f : ℕ) (tokens : List RefreshToken)
      → live_in f (map (revoke_if (λ t. t.family_id == family) now) tokens) ≤ live_in f tokens
  revoke-le family f [] = omega arith
  revoke-le family f (t ∷ ts) = elim (Bool-cases (t.family_id == family && is_live t)) [
    | inl e ↦ ground (arith, e, revoke-le family f ts)
    | inr e ↦ ground (arith, e, revoke-le family f ts)
  ]

  exchanged-live :
      (f i : ℕ) (stored new : RefreshToken) (tokens : List RefreshToken)
      → find token_key i tokens ≡ some stored
      → is_live stored ≡ true
      → is_live new ≡ true
      → new.family_id ≡ stored.family_id
      → live_in f (update token_key stored.token_hash (revoke_token crypto now) tokens ++ new ∷ [])
        ≡ live_in f tokens
  exchanged-live f i stored new tokens here live fresh same =
      let p : RefreshToken → Bool = λ t. t.family_id == f && is_live t in
      let key = find-key token_key i tokens stored here in
      let moved =
        count-update token_key p stored.token_hash (revoke_token crypto now) tokens stored
          (ap (λ k. find token_key k tokens) key ∙ here) in
      let joined =
        count-append p (update token_key stored.token_hash (revoke_token crypto now) tokens)
          (new ∷ []) in
      ground (arith, moved, joined, live, fresh, same)

  rotate_for-live :
      (f : ℕ) (stored : RefreshToken) (user : Option User) (s : Accounts)
      → find token_key stored.token_hash s.refresh_tokens ≡ some stored
      → is_live stored ≡ true
      → live_in f (rotate_for crypto now stored user s).0.refresh_tokens
        ≡ live_in f s.refresh_tokens
  unfolding rotate_for issue_tokens
  rotate_for-live f stored none s here live = refl
  rotate_for-live f stored (some user) s here live =
      let new = issued crypto now user (some stored.family_id) s.drawn in
      let moved =
        exchanged-live f stored.token_hash stored new s.refresh_tokens here live refl refl in
      elim (Bool-cases user.is_active) [
        | inl e ↦ ground (
          arith,
          e,
          gated (assert_can_access_any_workspace (load_memberships user s.members)) moved,
        )
        | inr e ↦ ground (arith, e)
      ]
    where
      gated :
          (gate : Result (Unit {0}))
          → live_in f (
              update token_key stored.token_hash (revoke_token crypto now) s.refresh_tokens
              ++ issued crypto now user (some stored.family_id) s.drawn ∷ [])
            ≡ live_in f s.refresh_tokens
          → live_in f (exchange_if crypto now gate stored user s).0.refresh_tokens
            ≡ live_in f s.refresh_tokens
      gated (raise e) moved = refl
      gated (ok _) moved = moved

  -- Whatever is presented and whatever comes of it, a rotation leaves no family with more live
  -- tokens than it had.
  pub rotate-live :
      (presented : String) (s : Accounts) (f : ℕ)
      → live_in f (rotate crypto now presented s).0.refresh_tokens ≤ live_in f s.refresh_tokens
  unfolding rotate rotate_stored revoke_family
  rotate-live presented s f =
      elim (Option-cases (find token_key (crypto.digest presented) s.refresh_tokens)) [
        | inl e ↦ ground (arith, e)
        | inr (stored, e) ↦
            let key = find-key token_key (crypto.digest presented) s.refresh_tokens stored e in
            let here = ap (λ k. find token_key k s.refresh_tokens) key ∙ e in
            let goes = rotate_for-live f stored (find user_key stored.user_id s.users) s here in
            elim (Bool-cases (is_live stored)) [
              | inl live ↦ ground (arith, e, live, goes live)
              | inr spent ↦ ground (arith, e, spent, revoke-le stored.family_id f s.refresh_tokens)
            ]
      ]

module _ (crypto : Crypto) (now : ℕ) where
  -- In the state after a rotation that succeeds, presenting the same token again, whatever the
  -- clock says, raises `token_reuse_detected`, and leaves no live token in the family of the token.
  pub rotate-once :
      (presented : String) (s : Accounts) (out : User × TokenPair) (later : ℕ)
      → (rotate crypto now presented s).1 ≡ ok out
      → let after = (rotate crypto now presented s).0 in
        (stored : RefreshToken) × (find token_key (crypto.digest presented) s.refresh_tokens
          ≡ some stored)
        × ((rotate crypto later presented after).1 ≡ raise (unauthorized token_reuse_detected))
        × (live_in stored.family_id (rotate crypto later presented after).0.refresh_tokens ≡ 0)
  rotate-once presented s out later h =
      let (stored, user, here, _, tokens) = rotate-eq_ok crypto now presented s out h in
      let i = crypto.digest presented in
      let after = (rotate crypto now presented s).0 in
      let new = issued crypto now user (some stored.family_id) s.drawn in
      let same = find-key token_key i s.refresh_tokens stored here in
      let updated =
        find-update token_key stored.token_hash i (revoke_token crypto now) s.refresh_tokens
          (λ _ e. e) in
      let kept =
        find-append token_key i
          (update token_key stored.token_hash (revoke_token crypto now) s.refresh_tokens) new in
      let there : find token_key i after.refresh_tokens ≡ some (revoke_token crypto now stored) =
        ap (find token_key i) tokens ∙ ground (arith, kept, updated, here, same) in
      let (refused, ended) =
        rotate-replay crypto later presented after (revoke_token crypto now stored) there refl in
      (stored, here, refused, ended)
