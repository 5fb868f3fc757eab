-- ===== src/Routes/Admin/Invitations.antt =====
-- What an administrator's invite is good for.
use agntspark_gateway.Prelude.{
  ℕ, ◌<◌, ◌≡◌, ◌∙◌, refl, ap, subst, sym, true, false, Option, Bool-cases, inl, inr, arith,
}
use agntspark_gateway.Prelude.Characters.{strip, is_space}
use agntspark_gateway.Exec.{Exec, Result, ok, err, Result-cases, ok_eq, continue, pure}
use agntspark_gateway.Models.{Invite, Text}
use agntspark_gateway.Roles.{admin}
use agntspark_gateway.Schemas.Bodies.{invite_valid}
use agntspark_gateway.Settings.{GatewaySettings}
use agntspark_gateway.World.{World, Platform}
use agntspark_gateway.Access.{Decode, require_role}
use agntspark_gateway.Invites.{is_over, expiry, count_use, create_invite, claim_invite}
use agntspark_gateway.Invites.Claims.{claim_invite-create_invite}
use agntspark_gateway.Routes.Admin.{
  InviteOut, InviteCreateRequest, invite_out, require_admin, create_invite_route,
}

invite_valid-uses :
    (note : Text) (uses : ℕ) (days : Option ℕ) → invite_valid note uses days ≡ true → 0 < uses
unfolding invite_valid
invite_valid-uses note uses days h = ground (arith, h)

module _ {R : Type 0} (p : Platform R) (cfg : GatewaySettings) (decode : Decode) (now : ℕ) where
  abbrev response : Invite × Text → Exec (World R) (InviteOut × Text)
  response m = pure (invite_out now m.0, m.1)

  -- what the service made, behind a response
  made :
      (r : Result (Invite × Text)) (w w' : World R) (out : InviteOut) (raw_code : Text)
      → continue r response w ≡ (ok (out, raw_code), w')
      → (i : Invite) × (r ≡ ok (i, raw_code)) × (w ≡ w') × (invite_out now i ≡ out)
  made (ok (i, code)) w w' out raw_code e =
      let pair = ok_eq (invite_out now i, code) (out, raw_code) (ap (λ o. o.0) e) in
      (i, ap (λ c. ok (i, c)) (ap (λ x. x.1) pair), ap (λ o. o.1) e, ap (λ x. x.0) pair)
  made (err x) w w' out raw_code e = cc

  -- what the service made can be claimed
  claimed :
      (by : ℕ) (body : InviteCreateRequest) (id : ℕ) (token : Text) (later : ℕ) (w w' u v : World R)
      (r : Result (Invite × Text)) (out : InviteOut) (raw_code : Text)
      → create_invite p by
          (strip is_space body.note)
          body.max_uses
          body.expires_in_days
          id
          token
          now
          w
        ≡ (r, u)
      → continue r response u ≡ (ok (out, raw_code), w')
      → v.db.invites ≡ w'.stored.invites
      → strip is_space raw_code ≡ raw_code
      → 0 < body.max_uses
      → is_over later (expiry now body.expires_in_days) ≡ false
      → (i : Invite) × (i.id ≡ out.id) × ((claim_invite p later raw_code v).0 ≡ ok (count_use i))
  unfolding invite_out
  claimed by body id token later w w' u v r out raw_code ran done same trimmed some_use fresh =
      let (i, result, state, shown) = made r u w' out raw_code done in
      (
        i,
        ap (λ o. o.id) shown,
        claim_invite-create_invite p by (strip is_space body.note) body.max_uses id token now
            body.expires_in_days later w u v i raw_code (ran ∙ ap (λ x. (x, u)) result)
            (subst (λ x. v.db.invites ≡ x.stored.invites) (sym state) same) trimmed some_use fresh,
      )

  -- The code in the response to an administrator who makes an invite can be claimed, until the invite is
  -- over, once the request is done: the claim counts one use of the invite that the response names.
  -- (The code's random part has no space at its end.)
  pub create_invite_route-claim_invite :
      (creds : Option Text) (body : InviteCreateRequest) (id : ℕ) (token : Text) (later : ℕ)
      (w w' v : World R) (out : InviteOut) (raw_code : Text)
      → create_invite_route p cfg decode now creds body id token w ≡ (ok (out, raw_code), w')
      → v.db.invites ≡ w'.stored.invites
      → strip is_space raw_code ≡ raw_code
      → is_over later (expiry now body.expires_in_days) ≡ false
      → (i : Invite) × (i.id ≡ out.id) × ((claim_invite p later raw_code v).0 ≡ ok (count_use i))
  unfolding create_invite_route require_admin
  create_invite_route-claim_invite creds body id token later w w' v out raw_code done same trimmed
        fresh =
      elim (Result-cases (require_role p cfg decode now admin false w.db creds)) [
        | inr (e, denied) ↦ cc (rw denied at done)
        | inl (who, passed) ↦
            elim (Bool-cases (invite_valid body.note body.max_uses body.expires_in_days)) [
              | inr unfit ↦ cc (rw unfit at (rw passed at done))
              | inl fits ↦
                  claimed who.user_id body id token later w w' _ v _ out raw_code refl
                    (rw fits at (rw passed at done)) same trimmed
                    (invite_valid-uses body.note body.max_uses body.expires_in_days fits) fresh
            ]
      ]
