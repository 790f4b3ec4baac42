-- ===== src/Auth/Sessions.antt =====
-- What every transaction of the service keeps of its sessions and grants.
use orqent.Base.{
  find_row, find_row-some, find_row, find_row-some, ℕ, String, List, [], ◌∷◌, ◌++◌, Bool, true,
  false, ◌&&◌, ◌==◌, eqb, leb, any, is_some, update_rows, touched, Unique, update_rows-Unique,
  Unique-snoc, Unique-In, any_of_In, any-In, In-update_rows, In, ok, raise, ◌≡◌, ◌⊎◌, refl, sym, ap,
  ◌∙◌, arith, Bool-cases, Option-cases, Result-cases, inl, inr, eq_iff,
}
use mathlib.Core.Path.{subst}
use orqent.Auth.{
  User, RefreshToken, PasswordResetToken, Accounts, Issued, TokenPair, Secrets, has_email, has_id,
  has_jti, is_unrevoked, live_in, revoked, is_outstanding, consumed, revoke_family, revoke,
  issue_token_pair, session_row, integrity_error, committed, login, login_user, rehashed, rotate,
  refresh_row, refresh, decode_refresh_token, logout,
}

-- Two rows that may not stand together.
abbrev pub same_jti : RefreshToken → RefreshToken → Bool
same_jti a b = a.jti == b.jti

abbrev pub same_session : RefreshToken → RefreshToken → Bool
same_session a b = is_unrevoked a && is_unrevoked b && a.family_id == b.family_id

abbrev pub same_grant : PasswordResetToken → PasswordResetToken → Bool
same_grant a b = is_outstanding a && is_outstanding b && eqb a.user_id b.user_id

abbrev pub same_digest : PasswordResetToken → PasswordResetToken → Bool
same_digest a b = a.token_hash == b.token_hash

pub record IsSound (accounts : Accounts) : Type 0 where
  pub jtis : Unique same_jti accounts.sessions
  pub single : Unique same_session accounts.sessions
  pub digests : Unique same_digest accounts.grants
  pub newest : Unique same_grant accounts.grants

-- Revoking and consuming keep all of it, whichever rows they touch.
module _ (now : ℕ) where
  pub sessions-revoked :
      (matches : RefreshToken → Bool) (rows : List RefreshToken)
      → Unique same_jti rows
      → Unique same_session rows
      → Unique same_jti (update_rows matches (revoked now) rows)
        × Unique same_session (update_rows matches (revoked now) rows)
  sessions-revoked matches rows jtis single = (
    update_rows-Unique matches (revoked now) same_jti (λ a b h. ground arith) rows jtis,
    update_rows-Unique matches (revoked now) same_session (λ a b h. ground arith) rows single,
  )

  pub grants-consumed :
      (matches : PasswordResetToken → Bool) (rows : List PasswordResetToken)
      → Unique same_digest rows
      → Unique same_grant rows
      → Unique same_digest (update_rows matches (consumed now) rows)
        × Unique same_grant (update_rows matches (consumed now) rows)
  grants-consumed matches rows digests newest = (
    update_rows-Unique matches (consumed now) same_digest (λ a b h. ground arith) rows digests,
    update_rows-Unique matches (consumed now) same_grant (λ a b h. ground arith) rows newest,
  )

  same_session_symm : (a b : RefreshToken) → same_session a b ≡ true → same_session b a ≡ true
  same_session_symm a b h =
      ground (arith, eq_iff a.family_id b.family_id, eq_iff b.family_id a.family_id)

  touched_live :
      (stored old : RefreshToken)
      → live_in stored.family_id (touched (has_jti stored.jti) (revoked now) old) ≡ true
      → is_unrevoked stored ≡ true
      → (has_jti stored.jti old ≡ false) × (same_session old stored ≡ true)
  touched_live stored old alive live = ground (arith, eq_iff old.family_id stored.family_id)

  -- After the row of a live token is revoked, its family has no live token.
  pub revoked_family :
      (rows : List RefreshToken) (stored : RefreshToken)
      → Unique same_session rows
      → In stored rows
      → is_unrevoked stored ≡ true
      → any (live_in stored.family_id) (update_rows (has_jti stored.jti) (revoked now) rows) ≡ false
  revoked_family rows stored single m live = any_of_In _ _ λ row n.
      let (old, o, e) = In-update_rows (has_jti stored.jti) (revoked now) row rows n in
      elim (Bool-cases (live_in stored.family_id row)) [
        | inr dead ↦ dead
        | inl alive ↦
            let still = subst (λ r. live_in stored.family_id r ≡ true) e alive in
            let (other, together) = touched_live stored old still live in
            let same =
              Unique-In same_session same_session_symm old stored rows single o m together in
            let jti : has_jti stored.jti old ≡ true =
              subst (λ (r : RefreshToken). has_jti stored.jti r ≡ true) (sym same)
                ((eq_iff stored.jti stored.jti).1 refl) in
            cc
      ]

module _ (secrets : Secrets) (user_id : ℕ) (family_id : String) (issued : Issued)
    (accounts : Accounts) where
  abbrev pub joined : Accounts
  joined = record accounts {
    sessions = accounts.sessions ++ session_row secrets user_id family_id issued ∷ [];
  }

  abbrev pub issued_pair : TokenPair
  issued_pair = record { access_token = issued.access_token; refresh_token = issued.refresh_token }

  -- A pair is issued unless its `jti` is taken.
  pub issue_cases :
      (issue_token_pair secrets user_id family_id issued accounts ≡ raise integrity_error)
      ⊎ ((any (has_jti issued.jti) accounts.sessions ≡ false)
          × (issue_token_pair secrets user_id family_id issued accounts ≡ ok (joined, issued_pair)))
  unfolding issue_token_pair
  issue_cases = elim (Bool-cases (any (has_jti issued.jti) accounts.sessions)) [
    | inl e ↦ inl (rw e refl)
    | inr e ↦ inr (e, rw e refl)
  ]

  pub joined-IsSound :
      IsSound accounts
      → any (has_jti issued.jti) accounts.sessions ≡ false
      → any (live_in family_id) accounts.sessions ≡ false
      → IsSound joined
  joined-IsSound s fresh free =
      let row = session_row secrets user_id family_id issued in
      record {
        jtis = Unique-snoc same_jti accounts.sessions row fresh s.jtis;
        single =
            Unique-snoc same_session accounts.sessions row
              (any_of_In (λ r. same_session r row) accounts.sessions
                (λ r m.
                  let apart = any-In (live_in family_id) r accounts.sessions free m in
                  ground arith))
              s.single;
        digests = s.digests;
        newest = s.newest;
      }

  pub committed_issue-IsSound :
      (before : Accounts)
      → IsSound before
      → IsSound accounts
      → any (live_in family_id) accounts.sessions ≡ false
      → IsSound
          (committed secrets before (issue_token_pair secrets user_id family_id issued accounts)).0
  committed_issue-IsSound before b s free = elim (issue_cases) [
    | inl e ↦ rw e b
    | inr (fresh, e) ↦ rw e (joined-IsSound s fresh free)
  ]

module _ (secrets : Secrets) (accounts : Accounts) (s : IsSound accounts) where
  revoke_family-IsSound :
      (family_id : String) (now : ℕ) → IsSound (revoke_family family_id now accounts)
  unfolding revoke_family
  revoke_family-IsSound family_id now =
      let (jtis, single) =
        sessions-revoked now (live_in family_id) accounts.sessions s.jtis s.single in
      record { jtis = jtis; single = single; digests = s.digests; newest = s.newest }

  revoke-IsSound : (jti : String) (now : ℕ) → IsSound (revoke jti now accounts)
  unfolding revoke
  revoke-IsSound jti now =
      let (jtis, single) = sessions-revoked now (has_jti jti) accounts.sessions s.jtis s.single in
      record { jtis = jtis; single = single; digests = s.digests; newest = s.newest }

  revoked_sessions :
      (stored : RefreshToken) (now : ℕ)
      → In stored accounts.sessions
      → is_unrevoked stored ≡ true
      → any (live_in stored.family_id) (revoke stored.jti now accounts).sessions ≡ false
  unfolding revoke
  revoked_sessions stored now m live = revoked_family now accounts.sessions stored s.single m live

  rehashed-IsSound :
      (user : User) (new_hash : String) → IsSound (rehashed secrets user new_hash accounts)
  unfolding rehashed
  rehashed-IsSound user new_hash = elim (Bool-cases (secrets.needs_rehash user.password_hash)) [
    | inl e ↦
        rw e (record { jtis = s.jtis; single = s.single; digests = s.digests; newest = s.newest })
    | inr e ↦ rw e s
  ]

  rehashed-sessions :
      (user : User) (new_hash : String)
      → (rehashed secrets user new_hash accounts).sessions ≡ accounts.sessions
  unfolding rehashed
  rehashed-sessions user new_hash = elim (Bool-cases (secrets.needs_rehash user.password_hash)) [
    | inl e ↦ rw e refl
    | inr e ↦ rw e refl
  ]

  login_user-IsSound :
      (user : User) (password new_hash : String) (issued : Issued) (family_id : String)
      → any (live_in family_id) accounts.sessions ≡ false
      → IsSound (login_user secrets user password new_hash issued family_id accounts).0
  unfolding login_user
  login_user-IsSound user password new_hash issued family_id free =
      elim (Bool-cases (secrets.verify_password password user.password_hash)) [
        | inr wrong ↦ rw (wrong, login_user) s
        | inl right ↦ elim (Bool-cases user.is_active) [
          | inr disabled ↦ rw (right, disabled, login_user) s
          | inl active ↦
              rw (right, active, login_user)
                (committed_issue-IsSound secrets user.id family_id issued
                  (rehashed secrets user new_hash accounts) accounts s
                  (rehashed-IsSound user new_hash)
                  (ap (any (live_in family_id)) (rehashed-sessions user new_hash) ∙ free))
        ]
      ]

  -- A login keeps the accounts sound where no live session has its new family.
  pub login-IsSound :
      (email password new_hash : String) (issued : Issued) (family_id : String)
      → any (live_in family_id) accounts.sessions ≡ false
      → IsSound (login secrets email password new_hash issued family_id accounts).0
  unfolding login
  login-IsSound email password new_hash issued family_id free =
      elim (Option-cases (find_row (has_email (secrets.normalize_email email)) accounts.users)) [
        | inl e ↦ rw (e, login) s
        | inr (user, e) ↦
            rw (e, login) (login_user-IsSound user password new_hash issued family_id free)
      ]

  rotate-IsSound :
      (stored : RefreshToken) (issued : Issued) (now : ℕ)
      → In stored accounts.sessions
      → is_unrevoked stored ≡ true
      → IsSound (rotate secrets stored issued now accounts).0
  unfolding rotate
  rotate-IsSound stored issued now m live =
      elim (Option-cases (find_row (has_id stored.user_id) accounts.users)) [
        | inl e ↦ rw (e, rotate) s
        | inr (user, e) ↦ elim (Bool-cases user.is_active) [
          | inr disabled ↦ rw (e, disabled, rotate) s
          | inl active ↦
              rw (e, active, rotate)
                (committed_issue-IsSound secrets user.id stored.family_id issued
                  (revoke stored.jti now accounts) accounts s (revoke-IsSound stored.jti now)
                  (revoked_sessions stored now m live))
        ]
      ]

  refresh_row-IsSound :
      (token : String) (stored : RefreshToken) (issued : Issued) (now : ℕ)
      → In stored accounts.sessions
      → IsSound (refresh_row secrets token stored issued now accounts).0
  unfolding refresh_row
  refresh_row-IsSound token stored issued now m =
      elim (Bool-cases (secrets.hash_token token == stored.token_hash)) [
        | inr forged ↦ rw (forged, refresh_row) s
        | inl genuine ↦ elim (Bool-cases (is_some stored.revoked_at)) [
          | inl replay ↦
              rw (genuine, replay, refresh_row) (revoke_family-IsSound stored.family_id now)
          | inr live ↦ elim (Bool-cases (leb stored.expires_at now)) [
            | inl late ↦ rw (genuine, live, late, refresh_row) s
            | inr timely ↦
                rw (genuine, live, timely, refresh_row)
                  (rotate-IsSound stored issued now m (rw live refl))
          ]
        ]
      ]

  pub refresh-IsSound :
      (token : String) (issued : Issued) (now : ℕ)
      → IsSound (refresh secrets token issued now accounts).0
  unfolding refresh
  refresh-IsSound token issued now = elim (Result-cases (decode_refresh_token secrets now token)) [
    | inl (error, d) ↦ rw (d, refresh) s
    | inr (claims, d) ↦ elim (Option-cases (find_row (has_jti claims.jti) accounts.sessions)) [
      | inl e ↦ rw (d, e, refresh) s
      | inr (stored, e) ↦
          rw (d, e, refresh)
            (refresh_row-IsSound token stored issued now
              (find_row-some (has_jti claims.jti) accounts.sessions stored e).0)
    ]
  ]

  pub logout-IsSound : (token : String) (now : ℕ) → IsSound (logout secrets token now accounts).0
  unfolding logout
  logout-IsSound token now = elim (Result-cases (decode_refresh_token secrets now token)) [
    | inl (error, d) ↦ rw (d, logout) s
    | inr (claims, d) ↦ elim (Option-cases (find_row (has_jti claims.jti) accounts.sessions)) [
      | inl e ↦ rw (d, e, logout) s
      | inr (stored, e) ↦ rw (d, e, logout) (revoke_family-IsSound stored.family_id now)
    ]
  ]
