-- ===== src/Invites/Uses.antt =====
-- How often an invite of services/invite_service.py is used.
use agntspark_gateway.Prelude.{
  ℕ, ◌+◌, ◌-◌, ◌≤◌, ◌<◌, ◌≡◌, Bool, some, List, [], ◌∷◌, arith, sum_of, find, modify_where, ◌==◌,
  nat_eq, string_eq,
}
use agntspark_gateway.Models.{Invite}
use agntspark_gateway.Invites.{active, invite_status, count_use}

-- the uses that the invites have left
abbrev pub left : Invite → ℕ
left i = i.max_uses - i.use_count

abbrev pub uses_left : List Invite → ℕ
uses_left = sum_of left

pub active-left : (now : ℕ) (i : Invite) → invite_status now i ≡ active → i.use_count < i.max_uses
unfolding invite_status
active-left now i h = ground arith

uses_left-le :
    (p : Invite → Bool) (rows : List Invite)
    → uses_left (modify_where p count_use rows) ≤ uses_left rows
uses_left-le p [] = omega arith
uses_left-le p (i ∷ rows) = ground (arith, uses_left-le p rows)

-- counting a use of an invite that has one left takes one away
pub uses_left-count_use :
    (q : Invite → Bool) (rows : List Invite) (k : Invite)
    → find q rows ≡ some k
    → k.use_count < k.max_uses
    → uses_left (modify_where (λ i. i.id == k.id) count_use rows) + 1 ≤ uses_left rows
uses_left-count_use q [] k h l = cc
uses_left-count_use q (i ∷ rows) k h l =
    ground (arith, uses_left-count_use q rows k, uses_left-le (λ i. i.id == k.id) rows)
