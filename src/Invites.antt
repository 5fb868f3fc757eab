-- ===== src/Invites.antt =====
-- services/invite_service.py, with `Invite.status` of models/invite.py. The time, ids and tokens
-- come as arguments.
pub mod Uses
pub mod Claims
use agntspark_gateway.Prelude.{
  ℕ, zero, suc, ◌+◌, ◌*◌, String, Bool, true, false, Option, none, some, List, [], ◌∷◌, ◌++◌, any,
  find, modify_where, take, leb, is_none, not, if◌then◌else◌, ◌==◌, ◌||◌, string_eq, nat_eq, Eq,
}
use agntspark_gateway.Prelude.Characters.{codes, strip, is_space}
use agntspark_gateway.Errors.{Error, invite_not_found, invalid_invite, unhandled}
use agntspark_gateway.Exec.{
  Exec, Result, ok, err, pure, raise, lift, reads, modify, or_raise, refuse_if, ◌>>=◌, ◌>>◌,
}
use agntspark_gateway.Models.{Text, Database, Invite}
use agntspark_gateway.World.{World, Platform, commit, on_invites}

-- `INVITE_PREFIX`
abbrev pub invite_prefix : Text
invite_prefix = codes "inv_"

abbrev pub day : ℕ
day = 86_400_000_000

pub data InviteStatus : Type 0 where
  revoked expired used active : InviteStatus

-- `self.expires_at is not None and self.expires_at <= now`
abbrev pub is_over : ℕ → Option ℕ → Bool
is_over now none = false
is_over now (some at) = leb at now

-- `Invite.status`
unfoldable pub invite_status : ℕ → Invite → InviteStatus
invite_status now i =
    if not (is_none i.revoked_at)
    then revoked
    else if is_over now i.expires_at
    then expired
    else if leb i.max_uses i.use_count
    then used
    else active

-- `expires_at` of a new invite: 0 days count as none
abbrev pub expiry : ℕ → Option ℕ → Option ℕ
expiry now none = none
expiry now (some zero) = none
expiry now (some (suc days)) = some (now + suc days * day)

-- one use is counted
abbrev pub count_use : Invite → Invite
count_use i = record i { use_count = i.use_count + 1 }

abbrev pub usable : ℕ → Option Invite → Result Invite
usable now none = err invalid_invite
usable now (some i) = elim (invite_status now i) [ active ↦ ok i | _ ↦ err invalid_invite ]

module _ {R : Type 0} (p : Platform R) where
  -- `_hash_code` of the stripped code
  abbrev pub code_hash_of : Text → String
  code_hash_of code = p.hashes.sha256 (strip is_space code)

  -- `create_invite`; a hash that is taken fails the commit
  unfoldable pub create_invite :
      ℕ → Text → ℕ → Option ℕ → ℕ → Text → ℕ → Exec (World R) (Invite × Text)
  create_invite created_by note max_uses expires_in_days id token now =
      let raw_code : Text = invite_prefix ++ token in
      let invite : Invite = record {
        id = id;
        code_hash = p.hashes.sha256 raw_code;
        code_prefix = take 10 raw_code;
        note = note;
        created_by = some created_by;
        max_uses = max_uses;
        use_count = 0;
        expires_at = expiry now expires_in_days;
        revoked_at = none;
        created_at = now;
      } in
      do
        reads (λ w.
            refuse_if (any (λ i. i.id == id || i.code_hash == invite.code_hash) w.db.invites)
              unhandled)
        modify (on_invites (λ rows. rows ++ invite ∷ []))
        commit
        pure (invite, raw_code)

  -- `claim_invite`, which does not commit
  unfoldable pub claim_invite : ℕ → Text → Exec (World R) Invite
  unfolding invite_status strip
  claim_invite now code = do
    invite ← reads (λ w. usable now (find (λ i. i.code_hash == code_hash_of code) w.db.invites))
    modify (on_invites (modify_where (λ i. i.id == invite.id) count_use))
    pure (count_use invite)

module _ {R : Type 0} where
  -- `revoke_invite` once the invite is found
  abbrev pub revoke_found : ℕ → Invite → Exec (World R) (Unit {0})
  revoke_found now invite =
      if is_none invite.revoked_at
      then (do
        modify (
            on_invites
              (modify_where (λ i. i.id == invite.id) (λ i. record i { revoked_at = some now })))
        commit)
      else pure tt

  -- `revoke_invite`
  unfoldable pub revoke_invite : ℕ → ℕ → Exec (World R) (Unit {0})
  revoke_invite invite_id now = do
    invite ←
        reads
          (λ w. or_raise (find (λ i. i.id == invite_id) w.db.invites) (invite_not_found invite_id))
    revoke_found now invite
