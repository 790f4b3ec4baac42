-- ===== src/Auth/Writes.antt =====
-- What the use cases of the service write to the table of refresh tokens.
use orqent.Base.{
  find_row, ℕ, String, List, [], ◌∷◌, ◌++◌, Bool, ◌==◌, ◌||◌, leb, any, is_some, update_rows, ◌≡◌,
  refl, Bool-cases, Option-cases, Result-cases, inl, inr,
}
use orqent.Auth.{
  User, RefreshToken, PasswordResetToken, Accounts, Issued, Secrets, has_email, has_id, has_jti,
  live_in, revoked, revoke_family, revoke, revoke_all_for_user, consume_outstanding_for_user,
  consume, set_password, has_digest, session_row, issue_token_pair, committed, rehashed, login_user,
  login, decode_refresh_token, rotate, refresh_row, refresh, logout, grant_reset, forgot_password,
  redeem, reset_password,
}
use orqent.Auth.Sessions.{issue_cases}
use orqent.Auth.Histories.{
  Step, logs_in, refreshes, logs_out, forgets, resets, administers, Reach, here, next,
}

-- What the use cases do to the table of refresh tokens: rows are revoked and added, never deleted.
pub data Writes : Accounts → Accounts → Type 0 where
  same : {a b : Accounts} → b.sessions ≡ a.sessions → Writes a b
  revokes :
      {a b : Accounts} (matches : RefreshToken → Bool) (now : ℕ)
      → b.sessions ≡ update_rows matches (revoked now) a.sessions
      → Writes a b
  adds : {a b : Accounts} (rows : List RefreshToken) → b.sessions ≡ a.sessions ++ rows → Writes a b
  both : {a b c : Accounts} → Writes a b → Writes b c → Writes a c

module _ (secrets : Secrets) where
  committed_issue-Writes :
      (user_id : ℕ) (family_id : String) (issued : Issued) (before a : Accounts)
      → Writes before a
      → Writes before
          (committed secrets before (issue_token_pair secrets user_id family_id issued a)).0
  committed_issue-Writes user_id family_id issued before a w =
      elim (issue_cases secrets user_id family_id issued a) [
        | inl e ↦ rw e (same refl)
        | inr (_, e) ↦ rw e (both w (adds (session_row secrets user_id family_id issued ∷ []) refl))
      ]

  rehashed-Writes :
      (user : User) (new_hash : String) (a : Accounts) → Writes a (rehashed secrets user new_hash a)
  unfolding rehashed set_password
  rehashed-Writes user new_hash a = elim (Bool-cases (secrets.needs_rehash user.password_hash)) [
    | inl e ↦ rw e (same refl)
    | inr e ↦ rw e (same refl)
  ]

  login_user-Writes :
      (user : User) (password new_hash : String) (issued : Issued) (family_id : String)
      (a : Accounts)
      → Writes a (login_user secrets user password new_hash issued family_id a).0
  unfolding login_user
  login_user-Writes user password new_hash issued family_id a =
      elim (Bool-cases (secrets.verify_password password user.password_hash)) [
        | inr wrong ↦ rw (wrong, login_user) (same refl)
        | inl right ↦ elim (Bool-cases user.is_active) [
          | inr disabled ↦ rw (right, disabled, login_user) (same refl)
          | inl active ↦
              rw (right, active, login_user)
                (committed_issue-Writes user.id family_id issued a
                  (rehashed secrets user new_hash a) (rehashed-Writes user new_hash a))
        ]
      ]

  rotate-Writes :
      (stored : RefreshToken) (issued : Issued) (now : ℕ) (a : Accounts)
      → Writes a (rotate secrets stored issued now a).0
  unfolding rotate revoke
  rotate-Writes stored issued now a =
      elim (Option-cases (find_row (has_id stored.user_id) a.users)) [
        | inl e ↦ rw (e, rotate) (same refl)
        | inr (user, e) ↦ elim (Bool-cases user.is_active) [
          | inr disabled ↦ rw (e, disabled, rotate) (same refl)
          | inl active ↦
              rw (e, active, rotate)
                (committed_issue-Writes user.id stored.family_id issued a (revoke stored.jti now a)
                  (revokes (has_jti stored.jti) now refl))
        ]
      ]

  revoke_family-Writes :
      (family_id : String) (now : ℕ) (a : Accounts) → Writes a (revoke_family family_id now a)
  unfolding revoke_family
  revoke_family-Writes family_id now a = revokes (live_in family_id) now refl

  refresh_row-Writes :
      (token : String) (stored : RefreshToken) (issued : Issued) (now : ℕ) (a : Accounts)
      → Writes a (refresh_row secrets token stored issued now a).0
  unfolding refresh_row
  refresh_row-Writes token stored issued now a =
      elim (Bool-cases (secrets.hash_token token == stored.token_hash)) [
        | inr forged ↦ rw (forged, refresh_row) (same refl)
        | inl genuine ↦ elim (Bool-cases (is_some stored.revoked_at)) [
          | inl replay ↦
              rw (genuine, replay, refresh_row) (revoke_family-Writes stored.family_id now a)
          | inr live ↦ elim (Bool-cases (leb stored.expires_at now)) [
            | inl late ↦ rw (genuine, live, late, refresh_row) (same refl)
            | inr timely ↦
                rw (genuine, live, timely, refresh_row) (rotate-Writes stored issued now a)
          ]
        ]
      ]

  refresh-Writes :
      (token : String) (issued : Issued) (now : ℕ) (a : Accounts)
      → Writes a (refresh secrets token issued now a).0
  unfolding refresh
  refresh-Writes token issued now a = elim (Result-cases (decode_refresh_token secrets now token)) [
    | inl (error, d) ↦ rw (d, refresh) (same refl)
    | inr (claims, d) ↦ elim (Option-cases (find_row (has_jti claims.jti) a.sessions)) [
      | inl e ↦ rw (d, e, refresh) (same refl)
      | inr (stored, e) ↦ rw (d, e, refresh) (refresh_row-Writes token stored issued now a)
    ]
  ]

  logout-Writes :
      (token : String) (now : ℕ) (a : Accounts) → Writes a (logout secrets token now a).0
  unfolding logout
  logout-Writes token now a = elim (Result-cases (decode_refresh_token secrets now token)) [
    | inl (error, d) ↦ rw (d, logout) (same refl)
    | inr (claims, d) ↦ elim (Option-cases (find_row (has_jti claims.jti) a.sessions)) [
      | inl e ↦ rw (d, e, logout) (same refl)
      | inr (stored, e) ↦ rw (d, e, logout) (revoke_family-Writes stored.family_id now a)
    ]
  ]

  login-Writes :
      (email password new_hash : String) (issued : Issued) (family_id : String) (a : Accounts)
      → Writes a (login secrets email password new_hash issued family_id a).0
  unfolding login
  login-Writes email password new_hash issued family_id a =
      elim (Option-cases (find_row (has_email (secrets.normalize_email email)) a.users)) [
        | inl e ↦ rw (e, login) (same refl)
        | inr (user, e) ↦
            rw (e, login) (login_user-Writes user password new_hash issued family_id a)
      ]

  grant_reset-Writes :
      (user : User) (token : String) (ttl now : ℕ) (a : Accounts)
      → Writes a (grant_reset secrets user token ttl now a).0
  unfolding grant_reset consume_outstanding_for_user
  grant_reset-Writes user token ttl now a = elim (Bool-cases user.is_active) [
    | inr disabled ↦ rw (disabled, grant_reset) (same refl)
    | inl active ↦
        elim (Bool-cases (
          any (has_digest (secrets.hash_token token))
            (consume_outstanding_for_user user.id now a).grants)) [
              | inl taken ↦ rw (active, taken, grant_reset) (same refl)
              | inr free ↦ rw (active, free, grant_reset) (same refl)
            ]
  ]

  forgot_password-Writes :
      (email token : String) (ttl now : ℕ) (a : Accounts)
      → Writes a (forgot_password secrets email token ttl now a).0
  unfolding forgot_password
  forgot_password-Writes email token ttl now a =
      elim (Option-cases (find_row (has_email (secrets.normalize_email email)) a.users)) [
        | inl e ↦ rw (e, forgot_password) (same refl)
        | inr (user, e) ↦ rw (e, forgot_password) (grant_reset-Writes user token ttl now a)
      ]

  redeem-Writes :
      (grant : PasswordResetToken) (new_hash : String) (now : ℕ) (a : Accounts)
      → Writes a (redeem secrets grant new_hash now a).0
  unfolding redeem revoke_all_for_user consume_outstanding_for_user consume set_password
  redeem-Writes grant new_hash now a =
      elim (Option-cases (find_row (has_id grant.user_id) a.users)) [
        | inl e ↦ rw (e, redeem) (same refl)
        | inr (user, e) ↦ elim (Bool-cases user.is_active) [
          | inr disabled ↦ rw (e, disabled, redeem) (same refl)
          | inl active ↦ rw (e, active, redeem) (revokes _ now refl)
        ]
      ]

  reset_password-Writes :
      (token new_hash : String) (now : ℕ) (a : Accounts)
      → Writes a (reset_password secrets token new_hash now a).0
  unfolding reset_password
  reset_password-Writes token new_hash now a =
      elim (Option-cases (find_row (has_digest (secrets.hash_token token)) a.grants)) [
        | inl e ↦ rw (e, reset_password) (same refl)
        | inr (grant, e) ↦
            elim (Bool-cases (is_some grant.consumed_at || leb grant.expires_at now)) [
              | inl spent ↦ rw (e, spent, reset_password) (same refl)
              | inr good ↦ rw (e, good, reset_password) (redeem-Writes grant new_hash now a)
            ]
      ]

  Step-Writes : {a b : Accounts} → Step secrets a b → Writes a b
  Step-Writes (logs_in {a} email password new_hash issued family_id free) =
      login-Writes email password new_hash issued family_id a
  Step-Writes (refreshes {a} token issued now) = refresh-Writes token issued now a
  Step-Writes (logs_out {a} token now) = logout-Writes token now a
  Step-Writes (forgets {a} email token ttl now) = forgot_password-Writes email token ttl now a
  Step-Writes (resets {a} token new_hash now) = reset_password-Writes token new_hash now a
  Step-Writes (administers users) = same refl

  pub Reach-Writes : {a b : Accounts} → Reach secrets a b → Writes a b
  Reach-Writes here = same refl
  Reach-Writes (next past step) = both (Reach-Writes past) (Step-Writes step)
