-- ===== src/Routes/Agents/Stream/Lines.antt =====
-- Which lines a log stream sends.
use agntspark_gateway.Prelude.{
  ℕ, suc, ◌≡◌, ap, ◌+◌, ==_refl, refl, sym, subst, ==_iff, ◌∙◌, true, false, not, List, [], ◌∷◌,
  ◌++◌, length, contains, arith, ◌==◌, ◌&&◌, ◌||◌, Bool-cases, inl, inr,
}
use agntspark_gateway.Exec.{Result}
use agntspark_gateway.Agents.Telemetry.{AgentLog}
use agntspark_gateway.Routes.Agents.Stream.{
  LineKey, line_key_eq, line_key, Event, log_line, metric, heartbeat, send_new, polled, log_events,
}

-- the lines and the heartbeats of a stream
abbrev pub lines_of : List Event → List AgentLog
lines_of [] = []
lines_of (log_line line ∷ events) = line ∷ lines_of events
lines_of (metric m ∷ events) = lines_of events
lines_of (heartbeat ∷ events) = lines_of events

abbrev pub heartbeats : List Event → ℕ
heartbeats [] = 0
heartbeats (heartbeat ∷ events) = suc (heartbeats events)
heartbeats (log_line line ∷ events) = heartbeats events
heartbeats (metric m ∷ events) = heartbeats events

-- the keys of the lines
abbrev pub keys_of : List AgentLog → List LineKey
keys_of [] = []
keys_of (line ∷ lines) = line_key line ∷ keys_of lines

abbrev pub all_polled : List (Result (List AgentLog)) → List AgentLog
all_polled [] = []
all_polled (poll ∷ polls) = polled poll ++ all_polled polls

-- no key twice
abbrev pub IsOnce : List LineKey → Type 0
IsOnce [] = Unit
IsOnce (k ∷ ks) = (contains ks k ≡ false) × IsOnce ks

contains-append :
    (k : LineKey) (s t : List LineKey) → contains (s ++ t) k ≡ (contains s k || contains t k)
contains-append k [] t = refl
contains-append k (j ∷ s) t = ground (arith, contains-append k s t)

keys_of-append : (s t : List AgentLog) → keys_of (s ++ t) ≡ keys_of s ++ keys_of t
keys_of-append [] t = refl
keys_of-append (line ∷ s) t = ground (arith, keys_of-append s t)

lines_of-append : (s t : List Event) → lines_of (s ++ t) ≡ lines_of s ++ lines_of t
lines_of-append [] t = refl
lines_of-append (log_line line ∷ s) t = ground (arith, lines_of-append s t)
lines_of-append (metric m ∷ s) t = lines_of-append s t
lines_of-append (heartbeat ∷ s) t = lines_of-append s t

-- a key that is equal to one that was seen was seen
seen_same :
    (j k : LineKey) (seen : List LineKey)
    → contains seen j ≡ true
    → (k == j) ≡ true
    → contains seen k ≡ true
seen_same j k seen old same = subst (λ i. contains seen i ≡ true) (sym ((==_iff k j).0 same)) old

unseen_same :
    (j k : LineKey) (seen : List LineKey)
    → contains seen j ≡ false
    → (k == j) ≡ true
    → contains seen k ≡ false
unseen_same j k seen new same = subst (λ i. contains seen i ≡ false) (sym ((==_iff k j).0 same)) new

key_append :
    (s t : List AgentLog) (k : LineKey)
    → contains (keys_of (s ++ t)) k ≡ (contains (keys_of s) k || contains (keys_of t) k)
key_append s t k =
    ap (λ ks. contains ks k) (keys_of-append s t) ∙ contains-append k (keys_of s) (keys_of t)

key_lines-append :
    (s t : List Event) (k : LineKey)
    → contains (keys_of (lines_of (s ++ t))) k
      ≡ (contains (keys_of (lines_of s)) k || contains (keys_of (lines_of t)) k)
key_lines-append s t k =
    ap (λ lines. contains (keys_of lines) k) (lines_of-append s t)
    ∙ key_append (lines_of s) (lines_of t) k

seen-send_new :
    (lines : List AgentLog) (seen : List LineKey) (k : LineKey)
    → contains (send_new lines seen).1 k ≡ (contains seen k || contains (keys_of lines) k)
unfolding send_new
seen-send_new [] seen k = ground arith
seen-send_new (line ∷ lines) seen k = elim (Bool-cases (contains seen (line_key line))) [
  | inl old ↦
      rw old (ground (arith, seen-send_new lines seen k, seen_same (line_key line) k seen old))
  | inr new ↦ rw new (ground (arith, seen-send_new lines (line_key line ∷ seen) k))
]

sent-send_new :
    (lines : List AgentLog) (seen : List LineKey) (k : LineKey)
    → contains (keys_of (lines_of (send_new lines seen).0)) k
      ≡ (not (contains seen k) && contains (keys_of lines) k)
unfolding send_new
sent-send_new [] seen k = ground arith
sent-send_new (line ∷ lines) seen k = elim (Bool-cases (contains seen (line_key line))) [
  | inl old ↦
      rw old (ground (arith, sent-send_new lines seen k, seen_same (line_key line) k seen old))
  | inr new ↦ rw new (
      ground (
        arith,
        sent-send_new lines (line_key line ∷ seen) k,
        unseen_same (line_key line) k seen new,
      ))
]

once-send_new :
    (lines : List AgentLog) (seen : List LineKey)
    → IsOnce (keys_of (lines_of (send_new lines seen).0))
unfolding send_new
once-send_new [] seen = tt
once-send_new (line ∷ lines) seen = elim (Bool-cases (contains seen (line_key line))) [
  | inl old ↦ rw old (once-send_new lines seen)
  | inr new ↦ rw new (
    ground (
      arith,
      sent-send_new lines (line_key line ∷ seen) (line_key line),
      ==_refl (line_key line),
    ),
    once-send_new lines (line_key line ∷ seen),
  )
]

sent-log_events :
    (polls : List (Result (List AgentLog))) (seen : List LineKey) (k : LineKey)
    → contains (keys_of (lines_of (log_events polls seen))) k
      ≡ (not (contains seen k) && contains (keys_of (all_polled polls)) k)
unfolding log_events
sent-log_events [] seen k = ground arith
sent-log_events (poll ∷ polls) seen k =
    let (events, seen') = send_new (polled poll) seen in
    let rest = log_events polls seen' in
    ground (
      arith,
      key_lines-append events (heartbeat ∷ rest) k,
      key_append (polled poll) (all_polled polls) k,
      sent-send_new (polled poll) seen k,
      seen-send_new (polled poll) seen k,
      sent-log_events polls seen' k,
    )

IsOnce-append :
    (s t : List LineKey)
    → IsOnce s
    → IsOnce t
    → ((k : LineKey) → contains s k ≡ true → contains t k ≡ false)
    → IsOnce (s ++ t)
IsOnce-append [] t hs ht apart = ht
IsOnce-append (k ∷ s) t hs ht apart = (
  ground (arith, contains-append k s t, apart k, hs.0, ==_refl k),
  IsOnce-append s t hs.1 ht (λ j m. apart j (ground (arith, m))),
)

once-log_events :
    (polls : List (Result (List AgentLog))) (seen : List LineKey)
    → IsOnce (keys_of (lines_of (log_events polls seen)))
unfolding log_events
once-log_events [] seen = tt
once-log_events (poll ∷ polls) seen =
    let (events, seen') = send_new (polled poll) seen in
    let rest = log_events polls seen' in
    subst IsOnce
      (sym (
        ap keys_of (lines_of-append events (heartbeat ∷ rest))
        ∙ keys_of-append (lines_of events) (lines_of rest)))
      (IsOnce-append (keys_of (lines_of events)) (keys_of (lines_of rest))
        (once-send_new (polled poll) seen) (once-log_events polls seen')
        (λ k m. ground (
          arith,
          m,
          sent-send_new (polled poll) seen k,
          seen-send_new (polled poll) seen k,
          sent-log_events polls seen' k,
        )))

heartbeats-send_new :
    (lines : List AgentLog) (seen : List LineKey) → heartbeats (send_new lines seen).0 ≡ 0
unfolding send_new
heartbeats-send_new [] seen = refl
heartbeats-send_new (line ∷ lines) seen =
    ground (arith, heartbeats-send_new lines seen, heartbeats-send_new lines (line_key line ∷ seen))

heartbeats-append : (s t : List Event) → heartbeats (s ++ t) ≡ heartbeats s + heartbeats t
heartbeats-append [] t = omega arith
heartbeats-append (log_line line ∷ s) t = heartbeats-append s t
heartbeats-append (metric m ∷ s) t = heartbeats-append s t
heartbeats-append (heartbeat ∷ s) t = omega (arith, heartbeats-append s t)

heartbeats-log_events :
    (polls : List (Result (List AgentLog))) (seen : List LineKey)
    → heartbeats (log_events polls seen) ≡ length polls
unfolding log_events
heartbeats-log_events [] seen = refl
heartbeats-log_events (poll ∷ polls) seen =
    let (events, seen') = send_new (polled poll) seen in
    let rest = log_events polls seen' in
    omega (
      arith,
      heartbeats-append events (heartbeat ∷ rest),
      heartbeats-send_new (polled poll) seen,
      heartbeats-log_events polls seen',
    )

-- what a client may rely on of the events that follow these polls
pub record IsStreamOf (polls : List (Result (List AgentLog))) (events : List Event) : Type 0 where
  pub once : IsOnce (keys_of (lines_of events))
  pub complete :
      (k : LineKey)
      → contains (keys_of (lines_of events)) k ≡ contains (keys_of (all_polled polls)) k
  pub alive : heartbeats events ≡ length polls

-- A log stream sends one line for each replica and instant that its polls have shown, and never a
-- second one, with a heartbeat for each poll, also for one that raised.
pub log_events-IsStreamOf :
    (polls : List (Result (List AgentLog))) → IsStreamOf polls (log_events polls [])
log_events-IsStreamOf polls = record {
  once = once-log_events polls [];
  complete = λ k. sent-log_events polls [] k;
  alive = heartbeats-log_events polls [];
}
