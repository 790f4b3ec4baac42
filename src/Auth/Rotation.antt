-- ===== src/Auth/Rotation.antt =====
-- What a refresh leaves, and what the use of a revoked token does.
use orqent.Base.{
  find_row, find_row-some, ℕ, String, List, [], ◌∷◌, ◌++◌, some, true, false, ◌==◌, leb, any,
  is_some, update_rows, update_rows-clears, Result, ok, raise, ◌≡◌, refl, sym, ap, ◌∙◌, arith,
  Bool-cases, Option-cases, Result-cases, inl, inr, eq_iff,
}
use mathlib.Core.Path.{subst}
use orqent.Auth.{
  User, RefreshToken, Accounts, AuthError, invalid_refresh, Claims, Issued, TokenPair, Secrets,
  has_id, has_jti, is_unrevoked, live_in, revoked, revoke_family, revoke, session_row,
  decode_refresh_token, rotate, refresh_row, refresh,
}
use orqent.Auth.Sessions.{issue_cases, joined, issued_pair}

find_row-revoked :
    (jti : String) (now : ℕ) (rows more : List RefreshToken) (stored : RefreshToken)
    → find_row (has_jti jti) rows ≡ some stored
    → find_row (has_jti jti) (update_rows (has_jti jti) (revoked now) rows ++ more)
      ≡ some (revoked now stored)
unfolding find_row update_rows
find_row-revoked jti now [] more stored h = cc
find_row-revoked jti now (row ∷ rows) more stored h =
    ground (arith, find_row-revoked jti now rows more stored)

module _ (secrets : Secrets) (token : String) (issued : Issued) (now : ℕ)
    (accounts : Accounts) where
  -- A refresh that returns: the row of the token was live and in time, and of an active user.
  pub record Rotated (claims : Claims) (stored : RefreshToken) (user : User) : Type 0 where
    pub decoded : decode_refresh_token secrets now token ≡ ok claims
    pub found : find_row (has_jti claims.jti) accounts.sessions ≡ some stored
    pub genuine : (secrets.hash_token token == stored.token_hash) ≡ true
    pub live : is_unrevoked stored ≡ true
    pub timely : leb stored.expires_at now ≡ false
    pub owner : find_row (has_id stored.user_id) accounts.users ≡ some user
    pub active : user.is_active ≡ true
    pub returned : refresh secrets token issued now accounts ≡ (
      joined secrets user.id stored.family_id issued (revoke stored.jti now accounts),
      ok (issued_pair secrets user.id stored.family_id issued (revoke stored.jti now accounts)),
    )

  rotate_ok :
      (stored : RefreshToken) (pair : TokenPair)
      → (rotate secrets stored issued now accounts).1 ≡ ok pair
      → (user : User) × (find_row (has_id stored.user_id) accounts.users ≡ some user)
        × (user.is_active ≡ true)
        × (rotate secrets stored issued now accounts ≡ (
          joined secrets user.id stored.family_id issued (revoke stored.jti now accounts),
          ok (issued_pair secrets user.id stored.family_id issued (revoke stored.jti now accounts)),
        ))
  unfolding rotate
  rotate_ok stored pair h = elim (Option-cases (find_row (has_id stored.user_id) accounts.users)) [
    | inl e ↦ let bad = rw (e, rotate) at h in cc
    | inr (user, e) ↦ elim (Bool-cases user.is_active) [
      | inr disabled ↦ let bad = rw (e, disabled, rotate) at h in cc
      | inl active ↦
          elim (issue_cases secrets user.id stored.family_id issued
            (revoke stored.jti now accounts)) [
              | inl taken ↦ let bad = rw (e, active, taken, rotate) at h in cc
              | inr (fresh, done) ↦ (user, e, active, rw (e, active, done, rotate) refl)
            ]
    ]
  ]

  refresh_row_ok :
      (stored : RefreshToken) (pair : TokenPair)
      → (refresh_row secrets token stored issued now accounts).1 ≡ ok pair
      → ((secrets.hash_token token == stored.token_hash) ≡ true)
        × (is_unrevoked stored ≡ true)
        × (leb stored.expires_at now ≡ false)
        × (refresh_row secrets token stored issued now accounts
            ≡ rotate secrets stored issued now accounts)
  unfolding refresh_row
  refresh_row_ok stored pair h = elim (Bool-cases (secrets.hash_token token == stored.token_hash)) [
    | inr forged ↦ let bad = rw (forged, refresh_row) at h in cc
    | inl genuine ↦ elim (Bool-cases (is_some stored.revoked_at)) [
      | inl replay ↦ let bad = rw (genuine, replay, refresh_row) at h in cc
      | inr live ↦ elim (Bool-cases (leb stored.expires_at now)) [
        | inl late ↦ let bad = rw (genuine, live, late, refresh_row) at h in cc
        | inr timely ↦ (genuine, rw live refl, timely, rw (genuine, live, timely, refresh_row) refl)
      ]
    ]
  ]

  pub refresh_ok :
      (pair : TokenPair)
      → (refresh secrets token issued now accounts).1 ≡ ok pair
      → (claims : Claims) × (stored : RefreshToken) × (user : User) × Rotated claims stored user
  unfolding refresh
  refresh_ok pair h = elim (Result-cases (decode_refresh_token secrets now token)) [
    | inl (error, d) ↦ let bad = rw (d, refresh) at h in cc
    | inr (claims, d) ↦ elim (Option-cases (find_row (has_jti claims.jti) accounts.sessions)) [
      | inl e ↦ let bad = rw (d, e, refresh) at h in cc
      | inr (stored, e) ↦
          let row_ok = rw (d, e, refresh) at h in
          let (genuine, live, timely, by_rotation) = refresh_row_ok stored pair row_ok in
          let (user, owner, active, done) =
            rotate_ok stored pair (
              ap (λ (r : Accounts × Result AuthError TokenPair). r.1) (sym by_rotation) ∙ row_ok) in
          (
            claims,
            stored,
            user,
            record {
              decoded = d;
              found = e;
              genuine = genuine;
              live = live;
              timely = timely;
              owner = owner;
              active = active;
              returned = rw (d, e, refresh) (by_rotation ∙ done);
            },
          )
    ]
  ]

pub replayed :
    (secrets : Secrets) (token : String) (issued : Issued) (now : ℕ) (accounts : Accounts)
    (claims : Claims) (stored : RefreshToken)
    → decode_refresh_token secrets now token ≡ ok claims
    → find_row (has_jti claims.jti) accounts.sessions ≡ some stored
    → (secrets.hash_token token == stored.token_hash) ≡ true
    → is_some stored.revoked_at ≡ true
    → refresh secrets token issued now accounts
      ≡ (revoke_family stored.family_id now accounts, raise invalid_refresh)
unfolding refresh refresh_row
replayed secrets token issued now accounts claims stored d e genuine replay =
    rw (d, e, genuine, replay, refresh) refl

pub revoked_family_dead :
    (family_id : String) (now : ℕ) (accounts : Accounts)
    → any (live_in family_id) (revoke_family family_id now accounts).sessions ≡ false
unfolding revoke_family
revoked_family_dead family_id now accounts =
    update_rows-clears (live_in family_id) (live_in family_id) (revoked now) (λ row. ground arith)
      accounts.sessions

pub decoded_later :
    (secrets : Secrets) (token : String) (now later : ℕ)
    → secrets.decode later token ≡ secrets.decode now token
    → decode_refresh_token secrets later token ≡ decode_refresh_token secrets now token
unfolding decode_refresh_token
decoded_later secrets token now later same = rw (same, decode_refresh_token) refl

module _ (secrets : Secrets) (token : String) (issued : Issued) (now : ℕ)
    (accounts : Accounts) where
  pub found_after :
      (claims : Claims) (stored : RefreshToken) (user : User)
      → Rotated secrets token issued now accounts claims stored user
      → find_row
          (has_jti claims.jti)
          (joined secrets user.id stored.family_id issued (revoke stored.jti now accounts)).sessions
        ≡ some (revoked now stored)
  unfolding revoke
  found_after claims stored user r =
      let (m, fits) = find_row-some (has_jti claims.jti) accounts.sessions stored r.found in
      let named : claims.jti ≡ stored.jti = sym ((eq_iff stored.jti claims.jti).0 fits) in
      let new = session_row secrets user.id stored.family_id issued ∷ [] in
      subst
        (λ jti.
          find_row (has_jti claims.jti)
            (update_rows (has_jti jti) (revoked now) accounts.sessions ++ new)
          ≡ some (revoked now stored))
        named (find_row-revoked claims.jti now accounts.sessions new stored r.found)
