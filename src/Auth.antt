-- ===== src/Auth.antt =====
-- src/app/services/auth_service.py over refresh_token_repository.py and
-- password_reset_token_repository.py: sessions by rotated refresh tokens, and password resets. Each
-- use case is one transaction; where it raises without a commit the rows stay as they were. The
-- signing and hashing libraries are the parameter `Secrets`. What they draw at random, and the
-- clock, are arguments.
pub mod Sessions
pub mod Rotation
pub mod Resets
pub mod Histories
pub mod Writes
pub mod Replays
use orqent.Base.{
  find_row, ℕ, ◌+◌, String, List, [], ◌∷◌, ◌++◌, Option, none, some, Bool, true, false, not, ◌&&◌,
  ◌||◌, ◌==◌, eqb, leb, if◌then◌else◌, any, is_some, update_rows, Result, ok, raise,
}

pub record User : Type 0 where
  pub id : ℕ
  pub email : String
  pub password_hash : String
  pub is_active : Bool
  pub deleted : Bool

pub record RefreshToken : Type 0 where
  pub user_id : ℕ
  pub jti : String
  pub token_hash : String
  pub family_id : String
  pub expires_at : ℕ
  pub revoked_at : Option ℕ

pub record PasswordResetToken : Type 0 where
  pub user_id : ℕ
  pub token_hash : String
  pub expires_at : ℕ
  pub consumed_at : Option ℕ

pub record Accounts : Type 0 where
  pub users : List User
  pub sessions : List RefreshToken
  pub grants : List PasswordResetToken

pub data AuthError : Type 0 where
  invalid_credentials invalid_refresh invalid_reset integrity_error : AuthError

-- What a token claims, as far as the service reads it.
pub record Claims : Type 0 where
  pub jti : String
  pub is_refresh : Bool

-- A freshly signed pair, with the claims of its refresh token.
pub record Issued : Type 0 where
  pub access_token : String
  pub refresh_token : String
  pub jti : String
  pub expires_at : ℕ

pub record TokenPair : Type 0 where
  pub access_token : String
  pub refresh_token : String

pub record Secrets : Type 0 where
  -- `TokenService.decode` at a moment, with `none` where it raises.
  pub decode : ℕ → String → Option Claims
  pub hash_token : String → String
  pub verify_password : (password password_hash : String) → Bool
  pub needs_rehash : String → Bool
  -- `email.strip().lower()`
  pub normalize_email : String → String

abbrev pub has_email : String → User → Bool
has_email email user = not user.deleted && user.email == email

abbrev pub has_id : ℕ → User → Bool
has_id id user = not user.deleted && eqb user.id id

abbrev pub has_jti : String → RefreshToken → Bool
has_jti jti row = row.jti == jti

abbrev pub is_unrevoked : RefreshToken → Bool
is_unrevoked row = not (is_some row.revoked_at)

abbrev pub live_in : String → RefreshToken → Bool
live_in family_id row = row.family_id == family_id && is_unrevoked row

abbrev pub live_of : ℕ → RefreshToken → Bool
live_of user_id row = eqb row.user_id user_id && is_unrevoked row

abbrev pub revoked : ℕ → RefreshToken → RefreshToken
revoked now row = record row { revoked_at = some now }

abbrev pub has_digest : String → PasswordResetToken → Bool
has_digest digest row = row.token_hash == digest

abbrev pub is_outstanding : PasswordResetToken → Bool
is_outstanding row = not (is_some row.consumed_at)

abbrev pub outstanding_for : ℕ → PasswordResetToken → Bool
outstanding_for user_id row = eqb row.user_id user_id && is_outstanding row

abbrev pub consumed : ℕ → PasswordResetToken → PasswordResetToken
consumed now row = record row { consumed_at = some now }

-- `revoke_family` and `revoke_all_for_user`
unfoldable pub revoke_family : String → ℕ → Accounts → Accounts
unfolding update_rows
revoke_family family_id now accounts = record accounts {
  sessions = update_rows (live_in family_id) (revoked now) accounts.sessions;
}

unfoldable pub revoke_all_for_user : ℕ → ℕ → Accounts → Accounts
unfolding update_rows
revoke_all_for_user user_id now accounts = record accounts {
  sessions = update_rows (live_of user_id) (revoked now) accounts.sessions;
}

-- `revoke`, of the row that was read by its `jti`.
unfoldable pub revoke : String → ℕ → Accounts → Accounts
unfolding update_rows
revoke jti now accounts = record accounts {
  sessions = update_rows (has_jti jti) (revoked now) accounts.sessions;
}

-- `consume_outstanding_for_user`
unfoldable pub consume_outstanding_for_user : ℕ → ℕ → Accounts → Accounts
unfolding update_rows
consume_outstanding_for_user user_id now accounts = record accounts {
  grants = update_rows (outstanding_for user_id) (consumed now) accounts.grants;
}

-- `consume`, of the row that was read by its digest.
unfoldable pub consume : String → ℕ → Accounts → Accounts
unfolding update_rows
consume digest now accounts = record accounts {
  grants = update_rows (has_digest digest) (consumed now) accounts.grants;
}

unfoldable pub set_password : ℕ → String → Accounts → Accounts
unfolding update_rows
set_password user_id password_hash accounts = record accounts {
  users =
      update_rows (has_id user_id) (λ user. record user { password_hash = password_hash })
        accounts.users;
}

module _ (secrets : Secrets) where
  abbrev pub session_row : ℕ → String → Issued → RefreshToken
  session_row user_id family_id issued = record {
    user_id = user_id;
    jti = issued.jti;
    token_hash = secrets.hash_token issued.refresh_token;
    family_id = family_id;
    expires_at = issued.expires_at;
    revoked_at = none;
  }

  -- `_issue_token_pair`: the unique `jti` refuses a second row.
  unfoldable pub issue_token_pair :
      ℕ → String → Issued → Accounts → Result AuthError (Accounts × TokenPair)
  issue_token_pair user_id family_id issued accounts =
      if any (has_jti issued.jti) accounts.sessions
      then raise integrity_error
      else ok (
        record accounts {
          sessions = accounts.sessions ++ session_row user_id family_id issued ∷ [];
        },
        record { access_token = issued.access_token; refresh_token = issued.refresh_token },
      )

  -- The commit, or the rollback.
  abbrev pub committed :
      {A : Type 0} → Accounts → Result AuthError (Accounts × A) → Accounts × Result AuthError A
  committed before (ok (after, value)) = (after, ok value)
  committed before (raise error) = (before, raise error)

  -- A hash that was made with weaker parameters is replaced.
  unfoldable pub rehashed : User → String → Accounts → Accounts
  unfolding set_password
  rehashed user new_hash accounts =
      if secrets.needs_rehash user.password_hash
      then set_password user.id new_hash accounts
      else accounts

  -- The rest of `login` for an address with an account.
  unfoldable pub login_user :
      User → String → String → Issued → String → Accounts → Accounts × Result AuthError TokenPair
  unfolding issue_token_pair rehashed
  login_user user password new_hash issued family_id accounts =
      if not (secrets.verify_password password user.password_hash)
      then (accounts, raise invalid_credentials)
      else if not user.is_active
      then (accounts, raise invalid_credentials)
      else committed accounts
          (issue_token_pair user.id family_id issued (rehashed user new_hash accounts))

  -- `login`
  unfoldable pub login :
      String → String → String → Issued → String → Accounts → Accounts × Result AuthError TokenPair
  unfolding find_row login_user
  login email password new_hash issued family_id accounts =
      elim (find_row (has_email (secrets.normalize_email email)) accounts.users) [
        | none ↦ (accounts, raise invalid_credentials)
        | some user ↦ login_user user password new_hash issued family_id accounts
      ]

  -- `_decode_refresh_token`
  unfoldable pub decode_refresh_token : ℕ → String → Result AuthError Claims
  decode_refresh_token now token = elim (secrets.decode now token) [
    | none ↦ raise invalid_refresh
    | some claims ↦ if claims.is_refresh then ok claims else raise invalid_refresh
  ]

  -- The rest of `refresh` for a row that is live: its owner may have been disabled.
  unfoldable pub rotate :
      RefreshToken → Issued → ℕ → Accounts → Accounts × Result AuthError TokenPair
  unfolding find_row issue_token_pair revoke
  rotate stored issued now accounts = elim (find_row (has_id stored.user_id) accounts.users) [
    | none ↦ (accounts, raise invalid_refresh)
    | some user ↦
        if not user.is_active
        then (accounts, raise invalid_refresh)
        else committed accounts
            (issue_token_pair user.id stored.family_id issued (revoke stored.jti now accounts))
  ]

  -- The checks of `refresh` on the row that it has locked. A replay is committed before it raises.
  unfoldable pub refresh_row :
      String → RefreshToken → Issued → ℕ → Accounts → Accounts × Result AuthError TokenPair
  unfolding rotate revoke_family
  refresh_row token stored issued now accounts =
      if not (secrets.hash_token token == stored.token_hash)
      then (accounts, raise invalid_refresh)
      else if is_some stored.revoked_at
      then (revoke_family stored.family_id now accounts, raise invalid_refresh)
      else if leb stored.expires_at now
      then (accounts, raise invalid_refresh)
      else rotate stored issued now accounts

  -- `refresh`
  unfoldable pub refresh : String → Issued → ℕ → Accounts → Accounts × Result AuthError TokenPair
  unfolding decode_refresh_token find_row refresh_row
  refresh token issued now accounts = elim (decode_refresh_token now token) [
    | raise error ↦ (accounts, raise error)
    | ok claims ↦ elim (find_row (has_jti claims.jti) accounts.sessions) [
      | none ↦ (accounts, raise invalid_refresh)
      | some stored ↦ refresh_row token stored issued now accounts
    ]
  ]

  -- `logout`
  unfoldable pub logout : String → ℕ → Accounts → Accounts × Result AuthError (Unit {0})
  unfolding decode_refresh_token find_row revoke_family
  logout token now accounts = elim (decode_refresh_token now token) [
    | raise error ↦ (accounts, raise error)
    | ok claims ↦ elim (find_row (has_jti claims.jti) accounts.sessions) [
      | none ↦ (accounts, ok tt)
      | some stored ↦ (revoke_family stored.family_id now accounts, ok tt)
    ]
  ]

  abbrev pub grant_row : ℕ → String → ℕ → PasswordResetToken
  grant_row user_id token expires_at = record {
    user_id = user_id;
    token_hash = secrets.hash_token token;
    expires_at = expires_at;
    consumed_at = none;
  }

  -- The rest of `forgot_password` for an address with an account.
  unfoldable pub grant_reset :
      User → String → ℕ → ℕ → Accounts → Accounts × Result AuthError (Option (String × String))
  unfolding consume_outstanding_for_user
  grant_reset user token ttl now accounts =
      let superseded = consume_outstanding_for_user user.id now accounts in
      let grant = grant_row user.id token (now + ttl) in
      if not user.is_active
      then (accounts, ok none)
      else if any (has_digest grant.token_hash) superseded.grants
      then (accounts, raise integrity_error)
      else (
        record superseded { grants = superseded.grants ++ grant ∷ [] },
        ok (some (user.email, token)),
      )

  -- `forgot_password`, up to the delivery: the recipient and the token of the link, if one is sent.
  unfoldable pub forgot_password :
      String → String → ℕ → ℕ → Accounts → Accounts × Result AuthError (Option (String × String))
  unfolding find_row grant_reset
  forgot_password email token ttl now accounts =
      elim (find_row (has_email (secrets.normalize_email email)) accounts.users) [
        | none ↦ (accounts, ok none)
        | some user ↦ grant_reset user token ttl now accounts
      ]

  -- The rest of `reset_password` for a grant that is outstanding and in time.
  unfoldable pub redeem :
      PasswordResetToken → String → ℕ → Accounts → Accounts × Result AuthError (Unit {0})
  unfolding find_row set_password consume consume_outstanding_for_user revoke_all_for_user
  redeem grant new_hash now accounts = elim (find_row (has_id grant.user_id) accounts.users) [
    | none ↦ (accounts, raise invalid_reset)
    | some user ↦ if not user.is_active then (accounts, raise invalid_reset) else (
      revoke_all_for_user user.id now (
          consume_outstanding_for_user user.id now
            (consume grant.token_hash now (set_password user.id new_hash accounts))),
      ok tt,
    )
  ]

  -- `reset_password`
  unfoldable pub reset_password :
      String → String → ℕ → Accounts → Accounts × Result AuthError (Unit {0})
  unfolding find_row redeem
  reset_password token new_hash now accounts =
      elim (find_row (has_digest (secrets.hash_token token)) accounts.grants) [
        | none ↦ (accounts, raise invalid_reset)
        | some grant ↦
            if is_some grant.consumed_at || leb grant.expires_at now
            then (accounts, raise invalid_reset)
            else redeem grant new_hash now accounts
      ]
