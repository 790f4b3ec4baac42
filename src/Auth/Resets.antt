-- ===== src/Auth/Resets.antt =====
-- Password resets: one link at a time, used once, and every session ended.
use orqent.Base.{
  find_row, find_row-some, ℕ, ◌+◌, String, Bool, true, false, ◌&&◌, ◌||◌, leb, any, is_some,
  update_rows, Unique-snoc, any_of_In, any-In, update_rows-clears, update_rows-none, In, Result, ok,
  raise, ◌≡◌, ◌⊎◌, refl, sym, ap, arith, Bool-cases, Option-cases, inl, inr, eq_iff,
}
use mathlib.Core.Path.{subst}
use orqent.Auth.{
  User, PasswordResetToken, Accounts, AuthError, invalid_reset, Secrets, has_email, has_id, live_of,
  revoked, has_digest, is_outstanding, outstanding_for, consumed, revoke_all_for_user,
  consume_outstanding_for_user, consume, set_password, grant_row, grant_reset, forgot_password,
  redeem, reset_password,
}
use orqent.Auth.Sessions.{IsSound, same_grant, same_digest, sessions-revoked, grants-consumed}

module _ (secrets : Secrets) (accounts : Accounts) (s : IsSound accounts) where
  superseded_none :
      (user_id now : ℕ)
      → any (outstanding_for user_id) (consume_outstanding_for_user user_id now accounts).grants
        ≡ false
  unfolding consume_outstanding_for_user
  superseded_none user_id now =
      update_rows-clears (outstanding_for user_id) (outstanding_for user_id) (consumed now)
        (λ row. ground arith) accounts.grants

  superseded-IsSound :
      (user_id now : ℕ) → IsSound (consume_outstanding_for_user user_id now accounts)
  unfolding consume_outstanding_for_user
  superseded-IsSound user_id now =
      let (digests, newest) =
        grants-consumed now (outstanding_for user_id) accounts.grants s.digests s.newest in
      record { jtis = s.jtis; single = s.single; digests = digests; newest = newest }

  grant_reset-IsSound :
      (user : User) (token : String) (ttl now : ℕ)
      → IsSound (grant_reset secrets user token ttl now accounts).0
  unfolding grant_reset
  grant_reset-IsSound user token ttl now =
      let superseded = consume_outstanding_for_user user.id now accounts in
      let sound = superseded-IsSound user.id now in
      let grant = grant_row secrets user.id token (now + ttl) in
      let none_left = superseded_none user.id now in
      elim (Bool-cases user.is_active) [
        | inr disabled ↦ rw (disabled, grant_reset) s
        | inl active ↦ elim (Bool-cases (any (has_digest grant.token_hash) superseded.grants)) [
          | inl taken ↦ rw (active, taken, grant_reset) s
          | inr free ↦
              rw (active, free, grant_reset)
                (record {
                  jtis = sound.jtis;
                  single = sound.single;
                  digests = Unique-snoc same_digest superseded.grants grant free sound.digests;
                  newest =
                      Unique-snoc same_grant superseded.grants grant
                        (any_of_In (λ r. same_grant r grant) superseded.grants
                          (λ r m.
                            let apart =
                              any-In (outstanding_for user.id) r superseded.grants none_left m in
                            ground arith))
                        sound.newest;
                })
        ]
      ]

  pub forgot_password-IsSound :
      (email token : String) (ttl now : ℕ)
      → IsSound (forgot_password secrets email token ttl now accounts).0
  unfolding forgot_password
  forgot_password-IsSound email token ttl now =
      elim (Option-cases (find_row (has_email (secrets.normalize_email email)) accounts.users)) [
        | inl e ↦ rw (e, forgot_password) s
        | inr (user, e) ↦ rw (e, forgot_password) (grant_reset-IsSound user token ttl now)
      ]

-- A grant that its link could still redeem, but for its expiry.
abbrev pub usable : String → PasswordResetToken → Bool
usable digest grant = has_digest digest grant && is_outstanding grant

-- What a redeemed grant leaves of its user's sessions and grants.
pub record Redeemed (user_id : ℕ) (digest : String) (accounts : Accounts) : Type 0 where
  pub no_session : any (live_of user_id) accounts.sessions ≡ false
  pub no_grant : any (outstanding_for user_id) accounts.grants ≡ false
  pub used : any (usable digest) accounts.grants ≡ false

module _ (user_id now : ℕ) (digest new_hash : String) (accounts : Accounts) where
  abbrev pub after_redeem : Accounts
  after_redeem = revoke_all_for_user user_id now (
      consume_outstanding_for_user user_id now
        (consume digest now (set_password user_id new_hash accounts)))

  after_redeem-IsSound : IsSound accounts → IsSound after_redeem
  unfolding revoke_all_for_user consume_outstanding_for_user consume set_password
  after_redeem-IsSound s =
      let (digests, newest) =
        grants-consumed now (has_digest digest) accounts.grants s.digests s.newest in
      let (digests', newest') = grants-consumed now (outstanding_for user_id) _ digests newest in
      let (jtis, single) =
        sessions-revoked now (live_of user_id) accounts.sessions s.jtis s.single in
      record { jtis = jtis; single = single; digests = digests'; newest = newest' }

  after_redeem-Redeemed : Redeemed user_id digest after_redeem
  unfolding revoke_all_for_user consume_outstanding_for_user consume set_password
  after_redeem-Redeemed = record {
    no_session =
        update_rows-clears (live_of user_id) (live_of user_id) (revoked now) (λ row. ground arith)
          accounts.sessions;
    no_grant =
        update_rows-clears (outstanding_for user_id) (outstanding_for user_id) (consumed now)
          (λ row. ground arith) (update_rows (has_digest digest) (consumed now) accounts.grants);
    used =
        update_rows-none (usable digest) (outstanding_for user_id) (consumed now)
          (λ row h. ground arith) (update_rows (has_digest digest) (consumed now) accounts.grants)
          (update_rows-clears (usable digest) (has_digest digest) (consumed now)
            (λ row. ground arith) accounts.grants);
  }

module _ (secrets : Secrets) (token new_hash : String) (now : ℕ) (accounts : Accounts) where
  -- A reset either raises and leaves the accounts as they were, or it has redeemed an outstanding
  -- grant, in time, of an active user.
  pub record Accepted (user : User) (grant : PasswordResetToken) : Type 0 where
    pub granted : In grant accounts.grants
    pub digest : grant.token_hash ≡ secrets.hash_token token
    pub outstanding : is_outstanding grant ≡ true
    pub timely : leb grant.expires_at now ≡ false
    pub owner : In user accounts.users × (has_id grant.user_id user ≡ true)
    pub active : user.is_active ≡ true
    pub done :
        reset_password secrets token new_hash now accounts
        ≡ (after_redeem user.id now grant.token_hash new_hash accounts, ok tt)

  redeem_user_cases :
      (grant : PasswordResetToken)
      → (redeem secrets grant new_hash now accounts ≡ (accounts, raise invalid_reset))
        ⊎ ((user : User) × In user accounts.users
            × (has_id grant.user_id user ≡ true)
            × (user.is_active ≡ true)
            × (redeem secrets grant new_hash now accounts
                ≡ (after_redeem user.id now grant.token_hash new_hash accounts, ok tt)))
  unfolding redeem
  redeem_user_cases grant = elim (Option-cases (find_row (has_id grant.user_id) accounts.users)) [
    | inl e ↦ inl (rw (e, redeem) refl)
    | inr (user, e) ↦
        let (m, fits) = find_row-some (has_id grant.user_id) accounts.users user e in
        elim (Bool-cases user.is_active) [
          | inr disabled ↦ inl (rw (e, disabled, redeem) refl)
          | inl active ↦ inr (user, m, fits, active, rw (e, active, redeem) refl)
        ]
  ]

  pub reset_password_cases :
      (reset_password secrets token new_hash now accounts ≡ (accounts, raise invalid_reset))
      ⊎ ((user : User) × (grant : PasswordResetToken) × Accepted user grant)
  unfolding reset_password
  reset_password_cases =
      elim (Option-cases (find_row (has_digest (secrets.hash_token token)) accounts.grants)) [
        | inl e ↦ inl (rw (e, reset_password) refl)
        | inr (grant, e) ↦
            let (m, fits) =
              find_row-some (has_digest (secrets.hash_token token)) accounts.grants grant e in
            elim (Bool-cases (is_some grant.consumed_at || leb grant.expires_at now)) [
              | inl closed ↦ inl (rw (e, closed, reset_password) refl)
              | inr usable_now ↦ elim (redeem_user_cases grant) [
                | inl refused ↦ inl (rw (e, usable_now, reset_password) refused)
                | inr (user, n, id, active, done) ↦ inr (
                  user,
                  grant,
                  record {
                    granted = m;
                    digest = (eq_iff grant.token_hash (secrets.hash_token token)).0 fits;
                    outstanding = ground arith;
                    timely = ground arith;
                    owner = (n, id);
                    active = active;
                    done = rw (e, usable_now, reset_password) done;
                  },
                )
              ]
            ]
      ]

used_is_refused :
    (secrets : Secrets) (token new_hash : String) (now : ℕ) (accounts : Accounts)
    → any (usable (secrets.hash_token token)) accounts.grants ≡ false
    → reset_password secrets token new_hash now accounts ≡ (accounts, raise invalid_reset)
used_is_refused secrets token new_hash now accounts used =
    elim (reset_password_cases secrets token new_hash now accounts) [
      | inl refused ↦ refused
      | inr (user, grant, reset) ↦
          let gone =
            any-In (usable (secrets.hash_token token)) grant accounts.grants used reset.granted in
          let d = reset.digest in
          let o = reset.outstanding in
          ground (arith, eq_iff grant.token_hash (secrets.hash_token token))
    ]

-- `reset_password` either raises and leaves the accounts as they were, or redeems an outstanding
-- grant, in time, of an active user. Then no session of that user is live, none of its grants is
-- outstanding, and the same link is refused from then on, whatever the new password.
pub reset_password_lem :
    (secrets : Secrets) (token new_hash : String) (now : ℕ) (accounts : Accounts)
    → (reset_password secrets token new_hash now accounts ≡ (accounts, raise invalid_reset))
      ⊎ ((user : User) × (grant : PasswordResetToken) × Accepted secrets token new_hash now accounts
            user grant
          × Redeemed user.id grant.token_hash (reset_password secrets token new_hash now accounts).0
          × ((second_hash : String) (later : ℕ)
              → reset_password secrets token second_hash later
                  (reset_password secrets token new_hash now accounts).0
                ≡ ((reset_password secrets token new_hash now accounts).0, raise invalid_reset)))
reset_password_lem secrets token new_hash now accounts =
    elim (reset_password_cases secrets token new_hash now accounts) [
      | inl refused ↦ inl refused
      | inr (user, grant, reset) ↦
          let done = after_redeem-Redeemed user.id now grant.token_hash new_hash accounts in
          let reached = sym (ap (λ (r : Accounts × Result AuthError (Unit {0})). r.0) reset.done) in
          inr (
            user,
            grant,
            reset,
            subst (Redeemed user.id grant.token_hash) reached done,
            λ second_hash later.
                used_is_refused secrets token second_hash later
                  (reset_password secrets token new_hash now accounts).0
                  (subst (λ a. any (usable (secrets.hash_token token)) a.grants ≡ false) reached
                    (subst
                      (λ d.
                        any (usable d)
                          (after_redeem user.id now grant.token_hash new_hash accounts).grants
                        ≡ false)
                      reset.digest done.used)),
          )
    ]

module _ (secrets : Secrets) (token new_hash : String) (now : ℕ) (accounts : Accounts) where
  pub reset_password-IsSound :
      IsSound accounts → IsSound (reset_password secrets token new_hash now accounts).0
  reset_password-IsSound s = elim (reset_password_cases secrets token new_hash now accounts) [
    | inl refused ↦ rw refused s
    | inr (user, grant, reset) ↦
        rw (reset.done) (after_redeem-IsSound user.id now grant.token_hash new_hash accounts s)
  ]
