-- ===== src/Invites/Claims.antt =====
-- A code that services/invite_service.py hands out can be used.
use agntspark_gateway.Prelude.{
  ℕ, suc, ◌+◌, ◌*◌, ◌<◌, ◌≡◌, refl, sym, ap, ◌∙◌, String, false, Option, none, some, List, [], ◌∷◌,
  ◌++◌, any, find, take, leb, arith, Bool-cases, inl, inr, ◌==◌, ◌||◌, string_eq, nat_eq, ==_refl,
}
use agntspark_gateway.Prelude.Characters.{strip, is_space}
use agntspark_gateway.Exec.{ok, ok_eq}
use agntspark_gateway.Models.{Text, Invite}
use agntspark_gateway.World.{World, Platform}
use agntspark_gateway.Invites.{
  invite_prefix, day, is_over, invite_status, active, expiry, count_use, usable, create_invite,
  claim_invite,
}

-- a row at the end whose hash no other row has is the one found
find-add :
    (h : String) (id : ℕ) (rows : List Invite) (i : Invite)
    → any (λ x. x.id == id || x.code_hash == h) rows ≡ false
    → i.code_hash ≡ h
    → find (λ x. x.code_hash == h) (rows ++ i ∷ []) ≡ some i
find-add h id [] i free e = rw e (ground (arith, ==_refl h))
find-add h id (x ∷ rows) i free e = ground (arith, find-add h id rows i)

not_over :
    (now later : ℕ) (days : ℕ)
    → later < now + suc days * day
    → is_over later (expiry now (some (suc days))) ≡ false
not_over now later days h = ground (arith, h)

module _ {R : Type 0} (p : Platform R) (by : ℕ) (note : Text) (uses : ℕ) (id : ℕ) (token : Text)
    (now : ℕ) where
  abbrev pub code : Text
  code = invite_prefix ++ token

  -- the invite as it is inserted
  abbrev pub invited : Option ℕ → Invite
  invited days = record {
    id = id;
    code_hash = p.hashes.sha256 code;
    code_prefix = take 10 code;
    note = note;
    created_by = some by;
    max_uses = uses;
    use_count = 0;
    expires_at = expiry now days;
    revoked_at = none;
    created_at = now;
  }

  status_new :
      (days : Option ℕ) (later : ℕ)
      → 0 < uses
      → is_over later (expiry now days) ≡ false
      → invite_status later (invited days) ≡ active
  unfolding invite_status
  status_new days later some_use fresh =
      let left : leb uses 0 ≡ false = ground (arith, some_use) in rw (fresh, left) refl

  claimable :
      (days : Option ℕ) (later : ℕ)
      → 0 < uses
      → is_over later (expiry now days) ≡ false
      → usable later (some (invited days)) ≡ ok (invited days)
  claimable days later some_use fresh = rw (status_new days later some_use fresh, usable) refl

  -- A new invite can be claimed with the code that its creator is given, in what is committed, until
  -- it is over: the claim counts one use. (The code's random part has no space at its end.)
  pub claim_invite-create_invite :
      (days : Option ℕ) (later : ℕ) (w w' v : World R) (i : Invite) (raw_code : Text)
      → create_invite p by note uses days id token now w ≡ (ok (i, raw_code), w')
      → v.db.invites ≡ w'.stored.invites
      → strip is_space raw_code ≡ raw_code
      → 0 < uses
      → is_over later (expiry now days) ≡ false
      → (claim_invite p later raw_code v).0 ≡ ok (count_use i)
  unfolding create_invite claim_invite
  claim_invite-create_invite days later w w' v i raw_code made same trimmed some_use fresh =
      elim (Bool-cases
        (any (λ x. x.id == id || x.code_hash == p.hashes.sha256 code) w.db.invites)) [
          | inl taken ↦ cc (rw taken at made)
          | inr free ↦
              let e = rw free at made in
              let pair = ok_eq (invited days, code) (i, raw_code) (ap (λ o. o.0) e) in
              let hash : p.hashes.sha256 (strip is_space raw_code) ≡ p.hashes.sha256 code =
                ap p.hashes.sha256 (trimmed ∙ sym (ap (λ x. x.1) pair)) in
              let rows : v.db.invites ≡ w.db.invites ++ invited days ∷ [] =
                same ∙ sym (ap (λ o. o.1.stored.invites) e) in
              let found =
                find-add (p.hashes.sha256 code) id w.db.invites (invited days) free refl in
              rw (hash, rows, found, claimable days later some_use fresh)
                (ap (λ x. ok (count_use x)) (ap (λ x. x.0) pair))
        ]
