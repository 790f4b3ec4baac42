-- ===== src/Auth/Histories.antt =====
-- Histories of the service: its use cases, one transaction after another.
use orqent.Base.{ℕ, String, any, ◌≡◌, false, List}
use orqent.Auth.{
  User, Accounts, Issued, Secrets, live_in, login, refresh, logout, forgot_password, reset_password,
}
use orqent.Auth.Sessions.{IsSound, login-IsSound, refresh-IsSound, logout-IsSound}
use orqent.Auth.Resets.{forgot_password-IsSound, reset_password-IsSound}

module _ (secrets : Secrets) where
  -- A login draws a family that no live session has. Accounts may be made, disabled and deleted by
  -- others.
  pub data Step : Accounts → Accounts → Type 0 where
    logs_in :
        {a : Accounts} (email password new_hash : String) (issued : Issued) (family_id : String)
        → any (live_in family_id) a.sessions ≡ false
        → Step a (login secrets email password new_hash issued family_id a).0
    refreshes :
        {a : Accounts} (token : String) (issued : Issued) (now : ℕ)
        → Step a (refresh secrets token issued now a).0
    logs_out : {a : Accounts} (token : String) (now : ℕ) → Step a (logout secrets token now a).0
    forgets :
        {a : Accounts} (email token : String) (ttl now : ℕ)
        → Step a (forgot_password secrets email token ttl now a).0
    resets :
        {a : Accounts} (token new_hash : String) (now : ℕ)
        → Step a (reset_password secrets token new_hash now a).0
    administers : {a : Accounts} (users : List User) → Step a (record a { users = users })

  pub data Reach (start : Accounts) : Accounts → Type 0 where
    here : Reach start start
    next : {a b : Accounts} → Reach start a → Step a b → Reach start b

  Step-IsSound : {a b : Accounts} → Step a b → IsSound a → IsSound b
  Step-IsSound (logs_in {a} email password new_hash issued family_id free) s =
      login-IsSound secrets a s email password new_hash issued family_id free
  Step-IsSound (refreshes {a} token issued now) s = refresh-IsSound secrets a s token issued now
  Step-IsSound (logs_out {a} token now) s = logout-IsSound secrets a s token now
  Step-IsSound (forgets {a} email token ttl now) s =
      forgot_password-IsSound secrets a s email token ttl now
  Step-IsSound (resets {a} token new_hash now) s =
      reset_password-IsSound secrets token new_hash now a s
  Step-IsSound (administers users) s = record {
    jtis = s.jtis;
    single = s.single;
    digests = s.digests;
    newest = s.newest;
  }

  -- Whatever the order of logins, refreshes, logouts, reset requests and resets, a session has at
  -- most one live refresh token and a user at most one outstanding reset link, and no two tokens
  -- share an identifier or two links a digest, if each login draws a family without live tokens.
  pub Reach-IsSound : {start end : Accounts} → IsSound start → Reach start end → IsSound end
  Reach-IsSound s here = s
  Reach-IsSound s (next past step) = Step-IsSound step (Reach-IsSound s past)
