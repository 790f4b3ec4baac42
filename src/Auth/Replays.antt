-- ===== src/Auth/Replays.antt =====
-- A refresh token works once: what a second use does, whatever happened since the first.
use orqent.Base.{
  find_row, ℕ, String, List, [], ◌∷◌, ◌++◌, some, Bool, true, false, ◌==◌, any, is_some,
  update_rows, touched, In, In-append, Result, ok, raise, ◌≡◌, refl, sym, ap, ◌∙◌, arith,
  Bool-cases, inl, inr,
}
use mathlib.Core.Path.{subst}
use orqent.Auth.{
  RefreshToken, Accounts, AuthError, invalid_refresh, Issued, TokenPair, Secrets, has_jti, live_in,
  revoked, revoke_family, revoke, session_row, refresh,
}
use orqent.Auth.Sessions.{joined}
use orqent.Auth.Rotation.{refresh_ok, replayed, revoked_family_dead, decoded_later, found_after}
use orqent.Auth.Histories.{Reach}
use orqent.Auth.Writes.{Writes, same, revokes, adds, both, Reach-Writes}

-- The row of a token, revoked.
record Spent (jti digest family_id : String) (a : Accounts) : Type 0 where
  row : RefreshToken
  found : find_row (has_jti jti) a.sessions ≡ some row
  hashed : row.token_hash ≡ digest
  family : row.family_id ≡ family_id
  dead : is_some row.revoked_at ≡ true

find_row-touched :
    (jti : String) (matches : RefreshToken → Bool) (now : ℕ) (rows : List RefreshToken)
    (row : RefreshToken)
    → find_row (has_jti jti) rows ≡ some row
    → find_row (has_jti jti) (update_rows matches (revoked now) rows)
      ≡ some (touched matches (revoked now) row)
unfolding find_row update_rows
find_row-touched jti matches now [] row h = cc
find_row-touched jti matches now (first ∷ rows) row h =
    ground (arith, find_row-touched jti matches now rows row)

find_row-more :
    (jti : String) (rows more : List RefreshToken) (row : RefreshToken)
    → find_row (has_jti jti) rows ≡ some row
    → find_row (has_jti jti) (rows ++ more) ≡ some row
unfolding find_row
find_row-more jti [] more row h = cc
find_row-more jti (first ∷ rows) more row h = ground (arith, find_row-more jti rows more row)

module _ {jti digest family_id : String} where
  Writes-Spent :
      {a b : Accounts} → Writes a b → Spent jti digest family_id a → Spent jti digest family_id b
  Writes-Spent (same e) s = record {
    row = s.row;
    found = ap (find_row (has_jti jti)) e ∙ s.found;
    hashed = s.hashed;
    family = s.family;
    dead = s.dead;
  }
  Writes-Spent (revokes {a} {b} matches now e) s = record {
    row = touched matches (revoked now) s.row;
    found =
        ap (find_row (has_jti jti)) e ∙ find_row-touched jti matches now a.sessions s.row s.found;
    hashed = elim (Bool-cases (matches s.row)) [ inl h ↦ rw h s.hashed | inr h ↦ rw h s.hashed ];
    family = elim (Bool-cases (matches s.row)) [ inl h ↦ rw h s.family | inr h ↦ rw h s.family ];
    dead = elim (Bool-cases (matches s.row)) [ inl h ↦ rw h refl | inr h ↦ rw h s.dead ];
  }
  Writes-Spent (adds {a} {b} rows e) s = record {
    row = s.row;
    found = ap (find_row (has_jti jti)) e ∙ find_row-more jti a.sessions rows s.row s.found;
    hashed = s.hashed;
    family = s.family;
    dead = s.dead;
  }
  Writes-Spent (both first second) s = Writes-Spent second (Writes-Spent first s)

-- The second use of a token on some accounts: the session that the first use continued, by its family, the
-- successor that the first use had issued, the call, and that no token of the family is live.
pub record SessionEnded (secrets : Secrets) (token : String) (issued again : Issued) (later : ℕ)
    (first now : Accounts) : Type 0 where
  pub user_id : ℕ
  pub family_id : String
  pub successor : In (session_row secrets user_id family_id issued) first.sessions
  pub refused :
      refresh secrets token again later now
      ≡ (revoke_family family_id later now, raise invalid_refresh)
  pub none_live : any (live_in family_id) (revoke_family family_id later now).sessions ≡ false

-- A refresh token that has been rotated is used a second time, after any logins, refreshes, logouts, reset
-- requests and resets since, and at a moment when it still decodes to the same claims. The service raises,
-- and then no token of the session is live: neither the successor that the first use issued nor any that
-- later refreshes of the session issued.
pub second_use_ends_session :
    (secrets : Secrets) (token : String) (issued : Issued) (now : ℕ) (accounts : Accounts)
    (pair : TokenPair) (again : Issued) (later : ℕ) {since : Accounts}
    → (refresh secrets token issued now accounts).1 ≡ ok pair
    → Reach secrets (refresh secrets token issued now accounts).0 since
    → secrets.decode later token ≡ secrets.decode now token
    → SessionEnded secrets token issued again later
        (refresh secrets token issued now accounts).0
        since
second_use_ends_session secrets token issued now accounts pair again later {since} success went
      alike =
    let (claims, stored, user, r) = refresh_ok secrets token issued now accounts pair success in
    let after = joined secrets user.id stored.family_id issued (revoke stored.jti now accounts) in
    let left : (refresh secrets token issued now accounts).0 ≡ after =
      ap (λ (s : Accounts × Result AuthError TokenPair). s.0) r.returned in
    let spent : Spent claims.jti stored.token_hash stored.family_id after = record {
      row = revoked now stored;
      found = found_after secrets token issued now accounts claims stored user r;
      hashed = refl;
      family = refl;
      dead = refl;
    } in
    let still =
      Writes-Spent (Reach-Writes secrets went)
        (subst (Spent claims.jti stored.token_hash stored.family_id) (sym left) spent) in
    let refused =
      replayed secrets token again later since claims still.row
        (decoded_later secrets token now later alike ∙ r.decoded) still.found
        (ap (λ digest. secrets.hash_token token == digest) still.hashed ∙ r.genuine) still.dead in
    record {
      user_id = user.id;
      family_id = stored.family_id;
      successor =
          subst
            (λ (a : Accounts). In (session_row secrets user.id stored.family_id issued) a.sessions)
            (sym left)
            ((In-append (session_row secrets user.id stored.family_id issued)
                (revoke stored.jti now accounts).sessions
                (session_row secrets user.id stored.family_id issued ∷ [])).1
              (inr (inl refl)));
      refused =
          refused
          ∙ ap (λ (f : String). (revoke_family f later since, raise invalid_refresh)) still.family;
      none_live = revoked_family_dead stored.family_id later since;
    }
