-- ===== src/Scheduler/Rows.antt =====
-- What a tick of scheduler.py changes in the table of agents.
use agntspark_gateway.Prelude.{
  ℕ, String, ◌≡◌, ◌≢◌, inl, inr, refl, sym, ap, subst, ◌∙◌, Bool, true, false, Option, none, some,
  List, [], ◌∷◌, arith, find, find-modify, modified, modify_where, select, contains, cond, ltb, leb,
  All, if◌then◌else◌, ◌==◌, ◌&&◌, ◌||◌, string_eq, nat_eq, Bool-cases, ==_iff,
}
use agntspark_gateway.Exec.{Exec, ◌>>◌, modify}
use agntspark_gateway.Exec.Keeps.{Keeps, Keeps-pure, Keeps-bind, Keeps-reads}
use agntspark_gateway.External.{Health, Outcome, returned, raised}
use agntspark_gateway.Models.{Agent, AgentStatus, running, scaling, status_eq}
use agntspark_gateway.Quota.{is_active_status, has_headroom_for_replica}
use agntspark_gateway.Quota.Sums.{HasUniqueIds}
use agntspark_gateway.Metering.{record_usage}
use agntspark_gateway.World.{World, Platform, commit, call, on_agents}
use agntspark_gateway.Scheduler.{
  live_replicas, new_status, observed, assign, write_observed, meter, scale_if, consider_scaling,
  tick_health, tick_agent, tick_agents,
}

-- the same row, or the same but for its replicas and its status
abbrev SameBut : Option Agent → Option Agent → Type 0
SameBut none none = Unit
SameBut (some a) (some b) = b ≡ assign b.replicas b.status a
SameBut _ _ = ⊥

SameBut-modified :
    (q : Agent → Bool) (r : ℕ) (s : AgentStatus) (o o' : Option Agent)
    → SameBut o o'
    → SameBut o (modified q (assign r s) o')
SameBut-modified q r s none none h = tt
SameBut-modified q r s (some a) (some b) h = one (q b)
  where
    one :
        (t : Bool)
        → cond t (assign r s b) b
          ≡ assign (cond t (assign r s b) b).replicas (cond t (assign r s b) b).status a
    one true = ap (assign r s) h
    one false = h
SameBut-modified q r s none (some b) h = elim h [ ]
SameBut-modified q r s (some a) none h = elim h [ ]

abbrev by_id : String → List Agent → Option Agent
by_id i = find (λ x. x.id == i)

same_test :
    (i j : String) (r : ℕ) (s : AgentStatus) (x : Agent)
    → ((cond (x.id == j) (assign r s x) x).id == i) ≡ (x.id == i)
same_test i j r s x = ground arith

by_id-miss : (i : String) (rows : List Agent) (x : Agent) → by_id i rows ≡ some x → x.id ≡ i
by_id-miss i [] x h = cc
by_id-miss i (y ∷ rows) x h = ground (arith, by_id-miss i rows x)

unmodified :
    (i j : String) (r : ℕ) (s : AgentStatus) (rows : List Agent)
    → (j == i) ≡ false
    → by_id i (modify_where (λ x. x.id == j) (assign r s) rows) ≡ by_id i rows
unmodified i j r s [] h = refl
unmodified i j r s (x ∷ rows) h = ground (arith, unmodified i j r s rows h)

-- the ids of the agents that a tick visits
abbrev ids : List Agent → List String
ids [] = []
ids (a ∷ agents) = a.id ∷ ids agents

module _ {R : Type 0} (p : Platform R) (seconds now : ℕ) (before : List Agent)
    (listed : List String) where
  abbrev Ticked : World R → Type 0
  Ticked w =
      (i : String)
      → SameBut (by_id i before) (by_id i w.db.agents)
        × (contains listed i ≡ false → by_id i w.db.agents ≡ by_id i before)

  Keeps-if :
      (b : Bool) (m n : Exec (World R) (Unit {0}))
      → Keeps Ticked m
      → Keeps Ticked n
      → Keeps Ticked (if b then m else n)
  Keeps-if true m n km kn = km
  Keeps-if false m n km kn = kn

  -- an action that leaves the agents alone
  Keeps-rows :
      {A : Type 0} (m : Exec (World R) A)
      → ((w : World R) → (m w).1.db.agents ≡ w.db.agents)
      → Keeps Ticked m
  Keeps-rows m same = record {
    after = λ w h i.
        subst
          (λ rows.
            SameBut (by_id i before) (by_id i rows)
            × (contains listed i ≡ false → by_id i rows ≡ by_id i before))
          (sym (same w)) (h i);
  }

  record_usage-agents :
      (a : Agent) (live : ℕ) (w : World R)
      → (record_usage a live seconds now w).db.agents ≡ w.db.agents
  unfolding record_usage
  record_usage-agents a live w = elim (Bool-cases (leb live 0 || leb seconds 0)) [
    | inl idle ↦ rw idle refl
    | inr busy ↦ rw busy refl
  ]

  meter-Ticked : (live : ℕ) (a : Agent) → Keeps Ticked (meter p seconds now live a)
  meter-Ticked live a =
      Keeps-if ((a.status == running || a.status == scaling) && ltb 0 live) _ _
        (Keeps-rows (do modify (record_usage a live seconds now); commit)
          (λ w. record_usage-agents a live w))
        (Keeps-pure tt)

  scale_if-Ticked : (b : Bool) (a : Agent) → Keeps Ticked (scale_if p seconds now b a)
  scale_if-Ticked true a = Keeps-rows (scale_if p seconds now true a) (λ w. refl)
  scale_if-Ticked false a = Keeps-pure tt

  consider_scaling-Ticked :
      (live : ℕ) (a : Agent) → Keeps Ticked (consider_scaling p seconds now live a)
  consider_scaling-Ticked live a =
      Keeps-if (a.auto_scale && a.status == running && ltb 0 live) _ _
        (Keeps-bind _ (λ b. scale_if p seconds now b a)
          (Keeps-reads (λ w. has_headroom_for_replica p.roles w.db a)) (λ b. scale_if-Ticked b a))
        (Keeps-pure tt)

  write-Ticked :
      (a : Agent) (r : ℕ) (s : AgentStatus)
      → contains listed a.id ≡ true
      → Keeps Ticked (do modify (on_agents (modify_where (λ x. x.id == a.id) (assign r s))); commit)
  write-Ticked a r s there = record {
    after = λ w h i. (
      subst (SameBut (by_id i before))
          (sym (
            find-modify (λ x. x.id == a.id) (λ x. x.id == i) (assign r s) w.db.agents
              (same_test i a.id r s)))
          (SameBut-modified (λ x. x.id == a.id) r s (by_id i before) (by_id i w.db.agents) (h i).0),
      λ out. unmodified i a.id r s w.db.agents (not_it i out) ∙ (h i).1 out,
    );
  }
    where
      not_it : (i : String) → contains listed i ≡ false → (a.id == i) ≡ false
      not_it i out = elim (Bool-cases (a.id == i)) [
        | inr differ ↦ differ
        | inl same ↦ cc (subst (λ j. contains listed j ≡ true) ((==_iff a.id i).0 same) there, out)
      ]

  tick_health-Ticked :
      (a : Agent) (o : Outcome Health)
      → contains listed a.id ≡ true
      → Keeps Ticked (tick_health p seconds now a o)
  unfolding tick_health
  tick_health-Ticked a (raised f) there = Keeps-pure tt
  tick_health-Ticked a (returned h) there =
      let observed_write =
        Keeps-if (live_replicas h == a.replicas && new_status h a.status == a.status) _ _
          (Keeps-pure tt) (write-Ticked a (live_replicas h) (new_status h a.status) there) in
      Keeps-bind (write_observed p seconds now h a)
        (λ _.
          meter p seconds now (live_replicas h) (observed h a)
          >> consider_scaling p seconds now (live_replicas h) (observed h a))
        observed_write
        (λ _.
          Keeps-bind (meter p seconds now (live_replicas h) (observed h a))
            (λ _. consider_scaling p seconds now (live_replicas h) (observed h a))
            (meter-Ticked (live_replicas h) (observed h a))
            (λ _. consider_scaling-Ticked (live_replicas h) (observed h a)))

  tick_agent-Ticked :
      (a : Agent) → contains listed a.id ≡ true → Keeps Ticked (tick_agent p seconds now a)
  unfolding tick_agent
  tick_agent-Ticked a there =
      Keeps-bind _ (λ o. tick_health p seconds now a o)
        (Keeps-rows (call (p.engine.health_check a.id)) (λ w. refl))
        (λ o. tick_health-Ticked a o there)

  tick_agents-Ticked :
      (agents : List Agent)
      → All (λ a. contains listed a.id ≡ true) agents
      → Keeps Ticked (tick_agents p seconds now agents)
  unfolding tick_agents
  tick_agents-Ticked [] there = Keeps-pure tt
  tick_agents-Ticked (a ∷ agents) there =
      Keeps-bind _ (λ _. tick_agents p seconds now agents) (tick_agent-Ticked a there.0)
        (λ _. tick_agents-Ticked agents there.1)

SameBut-refl : (o : Option Agent) → SameBut o o
SameBut-refl none = tt
SameBut-refl (some a) = refl

All-listed :
    (agents : List Agent) (more : List String)
    → All (λ a. contains more a.id ≡ true) agents
    → (i : String) → All (λ a. contains (i ∷ more) a.id ≡ true) agents
All-listed [] more h i = tt
All-listed (a ∷ agents) more h i = (ground arith, All-listed agents more h.1 i)

ids-listed : (agents : List Agent) → All (λ a. contains (ids agents) a.id ≡ true) agents
ids-listed [] = tt
ids-listed (a ∷ agents) = (ground arith, All-listed agents (ids agents) (ids-listed agents) a.id)

abbrev visited : List Agent → List Agent
visited = select (λ a. is_active_status a.status)

absent-visited :
    (i : String) (rows : List Agent)
    → All (λ b. b.id ≢ i) rows
    → contains (ids (visited rows)) i ≡ false
absent-visited i [] h = refl
absent-visited i (x ∷ rows) h = ground (arith, absent-visited i rows)

inactive-visited :
    (i : String) (rows : List Agent) (a : Agent)
    → HasUniqueIds rows
    → by_id i rows ≡ some a
    → is_active_status a.status ≡ false
    → contains (ids (visited rows)) i ≡ false
inactive-visited i [] a u h off = refl
inactive-visited i (x ∷ rows) a u h off = elim (Bool-cases (x.id == i)) [
  | inr other ↦ let rest = inactive-visited i rows a u.1 (rw other at h) off in ground (arith, rest)
  | inl mine ↦
      let same = head_eq x a (rw mine at h) in
      let inactive : is_active_status x.status ≡ false =
        ap (λ y. is_active_status y.status) same ∙ off in
      let out =
        absent-visited i rows
          (subst (λ j. All (λ b. b.id ≢ j) rows) ((==_iff x.id i).0 mine) u.0) in
      rw inactive out
]
  where
    head_eq : (x a : Agent) → some x ≡ some a → x ≡ a
    head_eq x a e = cc

module _ {R : Type 0} (p : Platform R) (seconds now : ℕ) where
  found-SameBut :
      (a : Agent) (o : Option Agent)
      → SameBut (some a) o
      → (b : Agent) × (o ≡ some b) × (b ≡ assign b.replicas b.status a)
  found-SameBut a none h = elim h [ ]
  found-SameBut a (some b) h = (b, refl, h)

  pub tick_agents-rows :
      (w : World R) (i : String) (a : Agent)
      → HasUniqueIds w.db.agents
      → find (λ x. x.id == i) w.db.agents ≡ some a
      → (b : Agent) × (find
            (λ x. x.id == i)
            (tick_agents p seconds now
              (select (λ x. is_active_status x.status) w.db.agents)
              w).1.db.agents
          ≡ some b)
        × (b ≡ assign b.replicas b.status a)
        × (is_active_status a.status ≡ false → b ≡ a)
  tick_agents-rows w i a u found =
      let listed = ids (visited w.db.agents) in
      let done =
        (tick_agents-Ticked p seconds now w.db.agents listed (visited w.db.agents)
            (ids-listed (visited w.db.agents))).after
          w (λ j. (SameBut-refl (by_id j w.db.agents), λ out. refl)) i in
      let after = by_id i (tick_agents p seconds now (visited w.db.agents) w).1.db.agents in
      let (b, there, same) = found-SameBut a after (subst (λ o. SameBut o after) found done.0) in
      (
        b,
        there,
        same,
        λ off.
            some_eq b a (sym there ∙ done.1 (inactive-visited i w.db.agents a u found off) ∙ found),
      )
    where
      some_eq : (b a : Agent) → some b ≡ some a → b ≡ a
      some_eq b a e = cc
