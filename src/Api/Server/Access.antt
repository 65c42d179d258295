-- ===== src/Api/Server/Access.antt =====
-- Who a call has to come from before it can succeed.
use udesa_x_users_api.Common.{
  ℕ, ◌*◌, ◌++◌, ◌≡◌, refl, Bool, true, false, not, ◌&&◌, Option, none, some, [], Text, codes, ◌==◌,
  text_eq, arith, find?, is_some, ◌⊎◌, inl, inr, beq_text_iff,
}
use udesa_x_users_api.Config.{Settings}
use udesa_x_users_api.Model.Account.{User, Role, role_eq, is_administrator}
use udesa_x_users_api.Platform.{Platform}
use udesa_x_users_api.World.State.{World}
use udesa_x_users_api.World.Exec.{Result, ok, err}
use udesa_x_users_api.Api.CurrentUser.{
  allowed_while_due, require_superadmin, require_administrator, require_internal_token,
}
use udesa_x_users_api.Api.CurrentUser.Access.{get_current_user_sound}
use udesa_x_users_api.Api.Bodies.{Libraries, Headers, Authorization, bearer_token, rejected}
use udesa_x_users_api.Api.Replies.{Reply}
use udesa_x_users_api.Api.Request.{success, respond}
use udesa_x_users_api.Api.Routes.Me
use udesa_x_users_api.Api.Routes.Me.{current_user}
use udesa_x_users_api.Api.Routes.Backoffice
use udesa_x_users_api.Api.Routes.Backoffice.{superadmin, administrator}
use udesa_x_users_api.Api.Routes.Internal
use udesa_x_users_api.Api.Server.{Call, route, serve}
use udesa_x_users_api.Api.Server.Needs.{
  Need, anyone, an_owner, an_administrator, a_superadmin, another_service, needs, settles_change,
  path_of, IsSignedIn, Permitted,
}

abbrev is_ok : {A : Type 0} → Result A → Bool
is_ok (ok a) = true
is_ok (err e) = false

settles_path : (call : Call) → allowed_while_due (path_of call) ≡ settles_change call
unfolding allowed_while_due udesa_x_users_api.Common.beq_text
settles_path (Call.delete_account _) = refl
settles_path _ = refl

module _ ⦃p : Platform⦄ (settings : Settings) (headers : Headers) (w : World) where
  abbrev passes : Need → Text → Bool
  passes anyone path = true
  passes an_owner path = is_ok (current_user settings headers path w).0
  passes an_administrator path = is_ok (administrator settings headers path w).0
  passes a_superadmin path = is_ok (superadmin settings headers path w).0
  passes another_service path = is_ok (require_internal_token settings headers.internal_token w).0

  route-passes :
      (lib : Libraries) (call : Call) (reply : Reply)
      → (route lib settings headers call w).0 ≡ ok reply
      → passes (needs call) (path_of call) ≡ true
  unfolding route Me.delete_account Me.change_password Me.get_profile Me.get_preferences
      Me.update_profile Me.update_preferences Me.submit_feedback Me.search_users
      Backoffice.search_accounts Backoffice.create_administrator Backoffice.reset_temporary_password
      Backoffice.account_detail Backoffice.list_administrators_route Backoffice.account_metrics
      Backoffice.block_account Backoffice.list_audit_entries Internal.put_under_review
      Internal.lift_review Internal.get_public_profile Internal.administrator_identity
  route-passes lib (Call.delete_account _) reply h = ground arith
  route-passes lib (Call.change_password _ _ _) reply h = ground arith
  route-passes lib Call.get_profile reply h = ground arith
  route-passes lib Call.get_preferences reply h = ground arith
  route-passes lib (Call.update_profile _ _) reply h = ground arith
  route-passes lib (Call.update_preferences _ _) reply h = ground arith
  route-passes lib (Call.submit_feedback _ _ _) reply h = ground arith
  route-passes lib (Call.search_users _ _) reply h = ground arith
  route-passes lib (Call.search_accounts _ _) reply h = ground arith
  route-passes lib (Call.account_detail _) reply h = ground arith
  route-passes lib Call.account_metrics reply h = ground arith
  route-passes lib (Call.block_account _ _) reply h = ground arith
  route-passes lib (Call.list_audit_entries _ _) reply h = ground arith
  route-passes lib (Call.create_administrator _ _ _) reply h = ground arith
  route-passes lib (Call.reset_temporary_password _) reply h = ground arith
  route-passes lib Call.list_administrators reply h = ground arith
  route-passes lib (Call.put_under_review _) reply h = ground arith
  route-passes lib (Call.lift_review _) reply h = ground arith
  route-passes lib (Call.get_public_profile _) reply h = ground arith
  route-passes lib (Call.administrator_identity _) reply h = ground arith
  route-passes lib _ reply h = refl

  ok_of : {A : Type 0} (r : Result A) → is_ok r ≡ true → (a : A) × (r ≡ ok a)
  ok_of (ok a) h = (a, refl)
  ok_of (err e) h = cc

  signed_in :
      (path : Text) (user : User)
      → (current_user settings headers path w).0 ≡ ok user
      → IsSignedIn settings headers w user
        × ((user.must_change_password && not (allowed_while_due path)) ≡ false)
  unfolding current_user
  signed_in path user h = carried headers.authorization refl
    where
      carried :
          (b : Authorization)
          → headers.authorization ≡ b
          → IsSignedIn settings headers w user
            × ((user.must_change_password && not (allowed_while_due path)) ≡ false)
      carried (rejected x) e = absurd (ground (arith, e, h))
      carried (bearer_token token) e =
          let (c, decoded, unclosed, recent, found, allowed, due) =
            get_current_user_sound settings token path w user (ground (arith, e, h)) in
          ((token, c, e, decoded, unclosed, recent, found, allowed), due)

  administrator_sound :
      (path : Text) (user : User)
      → (administrator settings headers path w).0 ≡ ok user
      → ((current_user settings headers path w).0 ≡ ok user) × (is_administrator user ≡ true)
  unfolding administrator require_administrator
  administrator_sound path user h = (ground arith, ground arith)

  superadmin_sound :
      (path : Text) (user : User)
      → (superadmin settings headers path w).0 ≡ ok user
      → ((current_user settings headers path w).0 ≡ ok user) × (user.role ≡ Role.superadmin)
  unfolding superadmin require_superadmin
  superadmin_sound path user h = (ground arith, ground arith)

  internal_sound :
      is_ok (require_internal_token settings headers.internal_token w).0 ≡ true
      → headers.internal_token ≡ some settings.internal_api_token
  unfolding require_internal_token
  internal_sound h = sent headers.internal_token refl
    where
      sent :
          (t : Option Text)
          → headers.internal_token ≡ t
          → headers.internal_token ≡ some settings.internal_api_token
      sent none e = absurd (ground (arith, e, h))
      sent (some token) e = ground (arith, e, h, beq_text_iff token settings.internal_api_token)

  passes-Permitted :
      (n : Need) (path : Text)
      → passes n path ≡ true
      → Permitted settings headers w n (allowed_while_due path)
  passes-Permitted anyone path h = tt
  passes-Permitted an_owner path h =
      let (user, e) = ok_of _ h in let (known, due) = signed_in path user e in (user, known, due)
  passes-Permitted an_administrator path h =
      let (user, e) = ok_of _ h in
      let (called, admin) = administrator_sound path user e in
      let (known, due) = signed_in path user called in (user, known, due, admin)
  passes-Permitted a_superadmin path h =
      let (user, e) = ok_of _ h in
      let (called, role) = superadmin_sound path user e in
      let (known, due) = signed_in path user called in (user, known, due, role)
  passes-Permitted another_service path h = internal_sound h

  answered-ok :
      (lib : Libraries) (call : Call) (reply : Reply)
      → (serve lib settings headers call w).0 ≡ success reply
      → (needs call ≡ anyone) ⊎ ((route lib settings headers call w).0 ≡ ok reply)
  unfolding serve respond
  answered-ok lib (Call.refresh _) reply h = inl refl
  answered-ok lib call reply h = inr (ground arith)

  -- A call that succeeds came from whom it needs: the routes on one's own account and the search from the
  -- holder of a session, the backoffice from an administrator, the administrators' accounts from a
  -- superadmin, and the routes under /internal from a service that sends the internal token. A session is
  -- that of a valid token that names a stored account which may log in, where neither the token nor the
  -- account's sessions were closed. Of the calls that need a session, an account that owes a change of
  -- password succeeds with that change only. Registration, verification, both logins, refresh, logout
  -- and the recovery of a password need nobody.
  pub serve-Permitted :
      (lib : Libraries) (call : Call) (reply : Reply)
      → (serve lib settings headers call w).0 ≡ success reply
      → Permitted settings headers w (needs call) (settles_change call)
  serve-Permitted lib call reply h = elim (answered-ok lib call reply h) [
    | inl open_call ↦ rw open_call tt
    | inr done ↦
        rw (← settles_path call)
          (passes-Permitted (needs call) (path_of call) (route-passes lib call reply done))
  ]
