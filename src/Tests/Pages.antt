-- ===== src/Tests/Pages.antt =====
-- A listing of one account's agents, in an order that sorts by insertion; a log stream of two polls.
use agntspark_gateway.Prelude.{
  ◌*◌, ◌≤◌, ◌≡◌, refl, Bool, false, none, List, [], ◌∷◌, select, length, ltb, leb, take,
  if◌then◌else◌, arith, Bool-cases, inl, inr,
}
use agntspark_gateway.Prelude.Characters.{codes}
use agntspark_gateway.Errors.{unhandled}
use agntspark_gateway.Exec.{ok, err, Result}
use agntspark_gateway.Models.{Agent}
use agntspark_gateway.Agents.Responses.{Order, IsOrder, IsDescending, list_agents}
use agntspark_gateway.Agents.Responses.Pages.{seen, listed, list_agents-pages}
use agntspark_gateway.Agents.Telemetry.{AgentLog}
use agntspark_gateway.Routes.Agents.Stream.{log_events}
use agntspark_gateway.Routes.Agents.Stream.Lines.{IsStreamOf, log_events-IsStreamOf}
use agntspark_gateway.Tests.{bot}

put_newest : Agent → List Agent → List Agent
put_newest a [] = a ∷ []
put_newest a (b ∷ rows) =
    let later = put_newest a rows in
    if leb b.created_at a.created_at then a ∷ b ∷ rows else b ∷ later

newest_first : Order
unfolding put_newest
newest_first [] = []
newest_first (a ∷ rows) = put_newest a (newest_first rows)

same_put :
    (p : Agent → Bool) (a : Agent) (rows : List Agent)
    → length (select p (put_newest a rows)) ≡ length (select p (a ∷ rows))
unfolding put_newest
same_put p a [] = refl
same_put p a (b ∷ rows) = ground (arith, same_put p a rows)

same_sorted :
    (p : Agent → Bool) (rows : List Agent)
    → length (select p (newest_first rows)) ≡ length (select p rows)
unfolding newest_first
same_sorted p [] = refl
same_sorted p (a ∷ rows) = ground (arith, same_put p a (newest_first rows), same_sorted p rows)

-- b stays before what is not newer
IsDescending-put :
    (a b : Agent) (rows : List Agent)
    → a.created_at ≤ b.created_at
    → IsDescending (b ∷ rows)
    → IsDescending (b ∷ put_newest a rows)
unfolding put_newest
IsDescending-put a b [] le h = (le, tt)
IsDescending-put a b (c ∷ rows) le h = elim (Bool-cases (leb c.created_at a.created_at)) [
  | inl older ↦ rw older (le, (ground arith, h.1))
  | inr newer ↦ rw newer (h.0, IsDescending-put a c rows (ground arith) h.1)
]

IsDescending-put_newest :
    (a : Agent) (rows : List Agent) → IsDescending rows → IsDescending (put_newest a rows)
unfolding put_newest
IsDescending-put_newest a [] h = tt
IsDescending-put_newest a (b ∷ rows) h = elim (Bool-cases (leb b.created_at a.created_at)) [
  | inl older ↦ rw older (ground arith, h)
  | inr newer ↦ rw newer (IsDescending-put a b rows (ground arith) h)
]

IsDescending-newest_first : (rows : List Agent) → IsDescending (newest_first rows)
unfolding newest_first
IsDescending-newest_first [] = tt
IsDescending-newest_first (a ∷ rows) =
    IsDescending-put_newest a (newest_first rows) (IsDescending-newest_first rows)

newest_first-IsOrder : IsOrder newest_first
newest_first-IsOrder = record { same = same_sorted; descending = IsDescending-newest_first }

abbrev newer : Agent
newer = record bot { id = "agt_2"; created_at = 5 }

abbrev rows : List Agent
rows = bot ∷ newer ∷ []

list_agents-pages_example :
    (seen newest_first 1 none none 1 rows 2 ≡ take (2 * 1) (listed newest_first 1 none none 1 rows))
    × (ltb (2 * 1) (list_agents newest_first 1 none none 2 1 rows).1 ≡ false
        → seen newest_first 1 none none 1 rows 2 ≡ listed newest_first 1 none none 1 rows)
list_agents-pages_example = list_agents-pages newest_first 1 none none 1 rows newest_first-IsOrder 2

abbrev line : AgentLog
line = record {
  agent_id = "agt_1";
  replica_id = "r1";
  timestamp = 3;
  level = codes "INFO";
  message = codes "up";
  source = codes "stdout";
}

abbrev polls : List (Result (List AgentLog))
polls = ok (line ∷ []) ∷ err unhandled ∷ ok (line ∷ record line { timestamp = 4 } ∷ []) ∷ []

log_events-IsStreamOf_example : IsStreamOf polls (log_events polls [])
log_events-IsStreamOf_example = log_events-IsStreamOf polls
