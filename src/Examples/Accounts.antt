-- ===== src/Examples/Accounts.antt =====
-- Small runs of sessions and resets, and the theorems at those inputs.
use orqent.Base.{
  find_row, ℕ, String, [], ◌∷◌, map, Option, some, true, false, update_rows, ok, raise, ◌≡◌, ◌⊎◌,
  refl, ◌==◌,
}
use orqent.Auth.{
  User, PasswordResetToken, Accounts, invalid_reset, Issued, TokenPair, Secrets, revoke_family,
  revoke, revoke_all_for_user, consume_outstanding_for_user, consume, set_password,
  issue_token_pair, rehashed, login_user, login, decode_refresh_token, rotate, refresh_row, refresh,
  logout, grant_reset, forgot_password, redeem, reset_password,
}
use orqent.Auth.Sessions.{IsSound}
use orqent.Auth.Histories.{Reach, here, next, logs_in, refreshes, Reach-IsSound}
use orqent.Auth.Replays.{SessionEnded, second_use_ends_session}
use orqent.Auth.Resets.{Accepted, Redeemed, reset_password_lem}

-- Tokens name their own identifier, and nothing is hashed.
abbrev plain : Secrets
plain = record {
  decode = λ _ token. some (record { jti = token; is_refresh = true });
  hash_token = λ token. token;
  verify_password = λ password password_hash. password == password_hash;
  needs_rehash = λ _. false;
  normalize_email = λ email. email;
}

abbrev ann : User
ann = record { id = 1; email = "ann"; password_hash = "old"; is_active = true; deleted = false }

abbrev registered : Accounts
registered = record { users = ann ∷ []; sessions = []; grants = [] }

abbrev issue : String → Issued
issue jti = record { access_token = "A"; refresh_token = jti; jti = jti; expires_at = 100 }

auth_program : Unit {0}
unfolding find_row update_rows revoke_family revoke revoke_all_for_user consume_outstanding_for_user
    consume set_password issue_token_pair rehashed login_user login decode_refresh_token rotate
    refresh_row refresh logout grant_reset forgot_password redeem reset_password
auth_program = tt

signed_in : Accounts
unfolding auth_program
signed_in = (login plain "ann" "old" "" (issue "R1") "F" registered).0

-- The replay of R1 revokes its successor R2.
replay_revokes :
    map {B = String × Option ℕ}
      (λ row. (row.jti, row.revoked_at))
      (refresh plain "R1" (issue "R3") 9 (refresh plain "R1" (issue "R2") 5 signed_in).0).0.sessions
    ≡ ("R1", some 5) ∷ ("R2", some 9) ∷ []
unfolding auth_program signed_in
replay_revokes = refl

abbrev second_pair : TokenPair
second_pair = record { access_token = "A"; refresh_token = "R2" }

first_use : (refresh plain "R1" (issue "R2") 5 signed_in).1 ≡ ok second_pair
unfolding auth_program signed_in
first_use = refl

-- The successor R2 has been refreshed as well when R1 comes back.
abbrev gone_on : Accounts
gone_on = (refresh plain "R2" (issue "R3") 7 (refresh plain "R1" (issue "R2") 5 signed_in).0).0

gone_on-Reach : Reach plain (refresh plain "R1" (issue "R2") 5 signed_in).0 gone_on
gone_on-Reach = next here (refreshes "R2" (issue "R3") 7)

second_use_ends_session_example :
    SessionEnded plain "R1"
      (issue "R2")
      (issue "R4")
      9
      (refresh plain "R1" (issue "R2") 5 signed_in).0
      gone_on
second_use_ends_session_example =
    second_use_ends_session plain "R1" (issue "R2") 5 signed_in second_pair (issue "R4") 9 first_use
      gone_on-Reach refl

registered-IsSound : IsSound registered
registered-IsSound = record { jtis = tt; single = tt; digests = tt; newest = tt }

signed_in-Reach : Reach plain registered signed_in
unfolding signed_in
signed_in-Reach = next here (logs_in "ann" "old" "" (issue "R1") "F" refl)

Reach-IsSound_example : IsSound (refresh plain "R1" (issue "R2") 5 signed_in).0
Reach-IsSound_example =
    Reach-IsSound plain registered-IsSound (next signed_in-Reach (refreshes "R1" (issue "R2") 5))

asked : Accounts
unfolding auth_program signed_in
asked =
    (forgot_password plain "ann" "L2" 50 8 (forgot_password plain "ann" "L1" 50 7 signed_in).0).0

-- The older link is superseded, the newer one works once.
older_link_refused : (reset_password plain "L1" "new" 9 asked).1 ≡ raise invalid_reset
unfolding auth_program asked
older_link_refused = refl

newer_link_works : (reset_password plain "L2" "new" 9 asked).1 ≡ ok tt
unfolding auth_program asked
newer_link_works = refl

reset_password_lem_example :
    (reset_password plain "L2" "new" 9 asked ≡ (asked, raise invalid_reset))
    ⊎ ((user : User) × (grant : PasswordResetToken) × Accepted plain "L2" "new" 9 asked user grant
        × Redeemed user.id grant.token_hash (reset_password plain "L2" "new" 9 asked).0
        × ((second_hash : String) (later : ℕ)
            → reset_password plain "L2" second_hash later
                (reset_password plain "L2" "new" 9 asked).0
              ≡ ((reset_password plain "L2" "new" 9 asked).0, raise invalid_reset)))
reset_password_lem_example = reset_password_lem plain "L2" "new" 9 asked
