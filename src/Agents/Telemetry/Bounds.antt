-- ===== src/Agents/Telemetry/Bounds.antt =====
-- The bounds of what the runtime's reads return.
use native.Mathlib.Nat.{div-add-mod, div-le_of_le-mul}
use agntspark_gateway.Prelude.{
  subst, ℕ_discrete, ℕ, ◌≤◌, ◌<◌, ◌≡◌, ◌-◌, ◌+◌, ◌*◌, ◌/◌, ◌%◌, suc, zero, refl, min, String, true,
  Option, none, some, List, [], ◌∷◌, length, select, drop, map, All, sum_of, ◌∙◌, Option-cases, ◌≢◌,
  find-test, Bool-cases, inl, inr, arith, ltb, if◌then◌else◌, ◌==◌, nat_eq, text_eq, find, ◌&&◌,
  string_eq,
}
use agntspark_gateway.Errors.{Error, unhandled, agent_not_found}
use agntspark_gateway.Exec.{Result, ok, err, ok_eq}
use agntspark_gateway.External.{
  Health, Container, LogEntry, Outcome, returned, raised, container_not_found, scaling_error,
  other_fault,
}
use agntspark_gateway.Models.{Agent, Text}
use agntspark_gateway.Metering.{round_div}
use agntspark_gateway.World.{World, Platform}
use agntspark_gateway.Agents.{get_owned}
use agntspark_gateway.Agents.Telemetry.{
  or_zero, containers_of, AgentLog, Cases, agent_log, is_at_level, filtered, last_of, percent,
  metrics_of, Metrics, read_logs, get_logs, get_metrics, read_metrics,
}

-- rounding keeps a quotient of 10,000 at most there
round_up-le :
    (q r y : ℕ)
    → q ≤ 10_000
    → (q ≡ 10_000 → r ≡ 0)
    → 0 < y
    → (if ltb (2 * r) y then q else if ltb y (2 * r) then q + 1 else q + q % 2) ≤ 10_000
round_up-le q r y h full pos = ground arith

round_div-le : (x y : ℕ) → 0 < y → x ≤ 10_000 * y → round_div x y ≤ 10_000
unfolding round_div
round_div-le x y pos h =
    let swapped : x ≤ y * 10_000 = omega (arith, h) in
    let whole : y * (x / y) + x % y ≡ x = div-add-mod x y in
    round_up-le (x / y) (x % y) y (div-le_of_le-mul y swapped)
      (λ full. omega (arith, h, subst (λ q. y * q + x % y ≡ x) full whole)) pos

percent-le : (x y : ℕ) → percent x y ≤ 10_000
unfolding percent
percent-le x y = elim (ℕ_discrete y 0) [
  | yes e ↦ ground arith
  | no n ↦ ground (arith, round_div-le (min (x * 10_000) (10_000 * y)) y)
]

length-drop : {A : Type 0} (n : ℕ) (xs : List A) → length (drop n xs) ≡ length xs - n
length-drop zero xs = omega arith
length-drop (suc n) [] = omega arith
length-drop (suc n) (x ∷ xs) = omega (arith, length-drop n xs)

length-last_of : {A : Type 0} (n : ℕ) (xs : List A) → 0 < n → length (last_of n xs) ≤ n
length-last_of n xs pos = ground (arith, length-drop (length xs - n) xs)

module _ {A : Type 0} (P : A → Type 0) where
  All-drop : (n : ℕ) (xs : List A) → All P xs → All P (drop n xs)
  All-drop zero xs h = h
  All-drop (suc n) [] h = tt
  All-drop (suc n) (x ∷ xs) h = All-drop n xs h.1

  All-last_of : (n : ℕ) (xs : List A) → All P xs → All P (last_of n xs)
  All-last_of n xs h = elim (ℕ_discrete n 0) [
    | yes e ↦ ground arith
    | no d ↦ ground (arith, All-drop (length xs - n) xs h)
  ]

-- the line belongs to the agent, and names the level asked for, or is of it
abbrev pub IsShown : Cases → Option Text → String → AgentLog → Type 0
IsShown cases none id line = line.agent_id ≡ id
IsShown cases (some []) id line = line.agent_id ≡ id
IsShown cases (some (c ∷ level)) id line =
    (line.agent_id ≡ id) × (is_at_level cases (c ∷ level) line ≡ true)

All-select :
    (cases : Cases) (c : ℕ) (level : Text) (id : String) (entries : List LogEntry)
    → All
        (IsShown cases (some (c ∷ level)) id)
        (select (is_at_level cases (c ∷ level)) (map (agent_log id) entries))
unfolding agent_log
All-select cases c level id [] = tt
All-select cases c level id (e ∷ entries) =
    elim (Bool-cases (is_at_level cases (c ∷ level) (agent_log id e))) [
      | inl at ↦ rw at ((refl, at), All-select cases c level id entries)
      | inr off ↦ rw off (All-select cases c level id entries)
    ]

All-agent_log :
    (id : String) (entries : List LogEntry)
    → All (λ l. l.agent_id ≡ id) (map (agent_log id) entries)
unfolding agent_log
All-agent_log id [] = tt
All-agent_log id (e ∷ entries) = (refl, All-agent_log id entries)

All-filtered :
    (cases : Cases) (level : Option Text) (id : String) (entries : List LogEntry)
    → All (IsShown cases level id) (filtered cases level (map (agent_log id) entries))
All-filtered cases none id entries = All-agent_log id entries
All-filtered cases (some []) id entries = All-agent_log id entries
All-filtered cases (some (c ∷ level)) id entries = All-select cases c level id entries

found_id :
    (user_id : ℕ) (id : String) (rows : List Agent) (a : Agent)
    → find (λ x. x.id == id && x.user_id == user_id) rows ≡ some a
    → a.id ≡ id
found_id user_id id rows a found =
    ground (arith, find-test (λ x. x.id == id && x.user_id == user_id) rows a found)

idle_figures :
    (f g : Container → ℕ) (cs : List Container)
    → length cs ≡ 0
    → let n : ℕ = if length cs == 0 then 1 else length cs in
      (round_div (sum_of f cs) (n * 10_000) ≡ 0) × (sum_of g cs / (n * 1_000_000) ≡ 0)
unfolding round_div nat_eq ℕ_discrete
idle_figures f g [] h = (refl, refl)
idle_figures f g (c ∷ cs) h = absurd (omega (arith, h))

-- without a container there is nothing to report
abbrev pub IsIdle : Metrics → Type 0
IsIdle m = m.replicas ≡ 0 → (m.cpu_percent ≡ 0) × (m.memory_mb ≡ 0)

metrics-IsIdle : (a : Agent) (h : Health) (now : ℕ) → IsIdle (metrics_of a h now)
unfolding metrics_of
metrics-IsIdle a h now none_left =
    idle_figures (λ c. or_zero c.cpu_percent) (λ c. or_zero c.memory_mb) (containers_of h) none_left

metrics_share : (a : Agent) (h : Health) (now : ℕ) → (metrics_of a h now).memory_percent ≤ 10_000
unfolding metrics_of
metrics_share a h now = percent-le _ _

metrics_agent : (a : Agent) (h : Health) (now : ℕ) → (metrics_of a h now).agent_id ≡ a.id
unfolding metrics_of
metrics_agent a h now = refl

err≢ok : {A : Type 0} (e : Error) (a : A) → err e ≢ ok a
err≢ok e a q = cc

module _ {R : Type 0} (p : Platform R) (user_id : ℕ) (id : String) (w : World R) where
  -- What a read of logs promises of its answer.
  pub record IsLogs (cases : Cases) (level : Option Text) (limit : ℕ)
      (out : Result (List AgentLog) × World R) : Type 0 where
    pub kept : out.1.db ≡ w.db
    pub few : (logs : List AgentLog) → out.0 ≡ ok logs → length logs ≤ limit
    pub shown : (logs : List AgentLog) → out.0 ≡ ok logs → All (IsShown cases level id) logs

  IsLogs-ok :
      (cases : Cases) (level : Option Text) (limit : ℕ) (logs : List AgentLog) (r : R)
      → length logs ≤ limit
      → All (IsShown cases level id) logs
      → IsLogs cases level limit (ok logs, record w { runtime = r })
  IsLogs-ok cases level limit logs r few shown = record {
    kept = refl;
    few = λ out q. subst (λ l. length l ≤ limit) (ok_eq logs out q) few;
    shown = λ out q. subst (λ l. All (IsShown cases level id) l) (ok_eq logs out q) shown;
  }

  IsLogs-err :
      (cases : Cases) (level : Option Text) (limit : ℕ) (e : Error) (r : R)
      → IsLogs cases level limit (err e, record w { runtime = r })
  IsLogs-err cases level limit e r = record {
    kept = refl;
    few = λ out q. absurd (err≢ok e out q);
    shown = λ out q. absurd (err≢ok e out q);
  }

  read_logs-IsLogs :
      (cases : Cases) (level : Option Text) (limit : ℕ) (a : Agent) (o : Outcome (List LogEntry))
      (r : R)
      → a.id ≡ id
      → 0 < limit
      → IsLogs cases level limit (read_logs p cases level limit a o (record w { runtime = r }))
  unfolding read_logs
  read_logs-IsLogs cases level limit a (raised (container_not_found s)) r e pos =
      IsLogs-ok cases level limit [] r (omega arith) tt
  read_logs-IsLogs cases level limit a (raised (scaling_error s)) r e pos =
      IsLogs-err cases level limit unhandled r
  read_logs-IsLogs cases level limit a (raised (other_fault s)) r e pos =
      IsLogs-err cases level limit unhandled r
  read_logs-IsLogs cases level limit a (returned entries) r e pos =
      let lines = filtered cases level (map (agent_log a.id) entries) in
      IsLogs-ok cases level limit (last_of limit lines) r (length-last_of limit lines pos) (
        subst (λ i. All (IsShown cases level i) (last_of limit lines)) e
          (All-last_of (IsShown cases level a.id) limit lines
            (All-filtered cases level a.id entries)))

  -- A read of logs changes nothing in the database; where it returns, it returns at most as many
  -- lines as it was asked for, all of them lines of the agent that pass the filter by level.
  pub get_logs-IsLogs :
      (cases : Cases) (level : Option Text) (replica_id : Option String) (limit : ℕ)
      → 0 < limit
      → IsLogs cases level limit (get_logs p cases user_id id level replica_id limit w)
  unfolding get_logs get_owned
  get_logs-IsLogs cases level replica_id limit pos =
      elim (Option-cases (find (λ a. a.id == id && a.user_id == user_id) w.db.agents)) [
        | inl absent ↦ rw absent (IsLogs-err cases level limit (agent_not_found id) w.runtime)
        | inr (a, found) ↦ rw found (
            read_logs-IsLogs cases level limit a
              (p.engine.get_logs a.id replica_id limit w.runtime).0
              (p.engine.get_logs a.id replica_id limit w.runtime).1
              (found_id user_id id w.db.agents a found) pos)
      ]

  -- Figures that the response can carry: shares of at most 100 %, and nothing for no containers.
  pub record IsMetrics (out : Result Metrics × World R) : Type 0 where
    pub kept : out.1.db ≡ w.db
    pub share : (m : Metrics) → out.0 ≡ ok m → m.memory_percent ≤ 10_000
    pub idle : (m : Metrics) → out.0 ≡ ok m → IsIdle m
    pub owned : (m : Metrics) → out.0 ≡ ok m → m.agent_id ≡ id

  read_metrics-IsMetrics :
      (a : Agent) (now : ℕ) (o : Outcome Health) (r : R)
      → a.id ≡ id
      → IsMetrics (read_metrics p a now o (record w { runtime = r }))
  unfolding read_metrics
  read_metrics-IsMetrics a now (raised f) r e = record {
    kept = refl;
    share = λ m q. absurd (err≢ok unhandled m q);
    idle = λ m q. absurd (err≢ok unhandled m q);
    owned = λ m q. absurd (err≢ok unhandled m q);
  }
  read_metrics-IsMetrics a now (returned h) r e = record {
    kept = refl;
    share = λ m q.
        subst (λ x. x.memory_percent ≤ 10_000) (ok_eq (metrics_of a h now) m q)
          (metrics_share a h now);
    idle = λ m q. subst IsIdle (ok_eq (metrics_of a h now) m q) (metrics-IsIdle a h now);
    owned = λ m q.
        subst (λ x. x.agent_id ≡ id) (ok_eq (metrics_of a h now) m q) (metrics_agent a h now ∙ e);
  }

  pub get_metrics-IsMetrics : (now : ℕ) → IsMetrics (get_metrics p user_id id now w)
  unfolding get_metrics get_owned
  get_metrics-IsMetrics now =
      elim (Option-cases (find (λ a. a.id == id && a.user_id == user_id) w.db.agents)) [
        | inl absent ↦ rw absent (record {
          kept = refl;
          share = λ m q. absurd (err≢ok (agent_not_found id) m q);
          idle = λ m q. absurd (err≢ok (agent_not_found id) m q);
          owned = λ m q. absurd (err≢ok (agent_not_found id) m q);
        })
        | inr (a, found) ↦ rw found (
            read_metrics-IsMetrics a now (p.engine.health_check a.id w.runtime).0
              (p.engine.health_check a.id w.runtime).1 (found_id user_id id w.db.agents a found))
      ]
