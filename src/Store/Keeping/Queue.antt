-- ===== src/Store/Keeping/Queue.antt =====
-- The calls that write tunnels and events keep the events valid and the owners of the subdomains.
use liveurl.Prelude.{
  Bool, List, Option, Text, any, arith, choose, false, none, not, refl, some, true, ℕ, ◌==◌, ◌∙◌,
  ◌≡◌, ◌≤◌,
}
use liveurl.Http.{Header}
use liveurl.Store.{
  Db, Exec, Result, Tunnel, WebhookEvent, pure, raise, statement, subdomain_taken, ◌>>◌,
}
use liveurl.Store.Events.{
  clear_events, count_attempt, enqueue_event, insert_event, mark_delivered, mark_failed,
  mark_replaying, next_state, requeue_event, set_state, update_event,
}
use liveurl.Store.Events.Retries.{
  IsValid, KeepsValid, clear_events-IsValid, ends-IsValid, enqueue_event-IsValid,
  requeue_event-IsValid,
}
use liveurl.Store.Tunnels.{
  claim_found, claim_tunnel, has_subdomain, has_tunnel, insert_tunnel, select_subdomain,
  update_rules,
}
use liveurl.Store.Tunnels.Owner.{claim_tunnel-owner, claim_tunnel-tunnel_of}
use liveurl.Store.Keeping.{Keeps, Keeps-bind, Keeps-reads, Keeps-statement}
use liveurl.Store.Keeping.Evolution.{DbKeeps, Evolves}

-- The events, the clock and their sequence are the same.
record SameQueue (a b : Db) : Type 0 where
  events : b.events ≡ a.events
  now : b.now ≡ a.now
  next_event : b.next_event ≡ a.next_event

SameQueue-refl : (a : Db) → SameQueue a a
SameQueue-refl a = record { events = refl; now = refl; next_event = refl }

SameQueue-trans : (a b c : Db) → SameQueue a b → SameQueue b c → SameQueue a c
SameQueue-trans a b c p q = record {
  events = q.events ∙ p.events;
  now = q.now ∙ p.now;
  next_event = q.next_event ∙ p.next_event;
}

SameQueue-IsValid : (a b : Db) → SameQueue a b → IsValid a → IsValid b
SameQueue-IsValid a b s v = record {
  keyed = rw s.events v.keyed;
  below = rw (s.events, s.next_event) v.below;
  past = rw (s.events, s.now) v.past;
  retryable = rw s.events v.retryable;
}

claim_found-SameQueue :
    (u : ℕ) (s : Text) (rules : List Text) (o : Option Tunnel)
    → Keeps SameQueue SameQueue-refl (claim_found u s rules o)
unfolding claim_found
claim_found-SameQueue u s rules none c =
    Keeps-statement SameQueue SameQueue-refl
      (λ db. insert_tunnel u s rules (any (has_subdomain s) db.tunnels) db)
      (λ db. inserted db (any (has_subdomain s) db.tunnels)) c
  where
    inserted : (db : Db) (b : Bool) → SameQueue db (insert_tunnel u s rules b db).1
    inserted db true = record { events = refl; now = refl; next_event = refl }
    inserted db false = record { events = refl; now = refl; next_event = refl }
claim_found-SameQueue u s rules (some t) c =
    choose (λ (m : Exec Tunnel). SameQueue c.db (m c).1.db) (not (t.user_id == u))
      (raise subdomain_taken) (statement (update_rules rules t.id) >> pure t) (SameQueue-refl c.db)
      (Keeps-bind SameQueue SameQueue-refl SameQueue-trans (statement (update_rules rules t.id))
        (λ _. pure t)
        (Keeps-statement SameQueue SameQueue-refl _
          (λ db. record { events = refl; now = refl; next_event = refl }))
        (λ _ c. SameQueue-refl c.db) c)

claim_tunnel-SameQueue :
    (u : ℕ) (s : Text) (rules : List Text) → Keeps SameQueue SameQueue-refl (claim_tunnel u s rules)
unfolding claim_tunnel select_subdomain
claim_tunnel-SameQueue u s rules =
    Keeps-bind SameQueue SameQueue-refl SameQueue-trans (select_subdomain s) (claim_found u s rules)
      (Keeps-reads SameQueue SameQueue-refl _) (claim_found-SameQueue u s rules)

pub claim_tunnel-Keeps : (u : ℕ) (s : Text) (rules : List Text) → DbKeeps (claim_tunnel u s rules)
claim_tunnel-Keeps u s rules c =
    let q = claim_tunnel-SameQueue u s rules c in
    record {
      valid = SameQueue-IsValid c.db (claim_tunnel u s rules c).1.db q;
      owners = λ j w o. claim_tunnel-owner u s rules j w c o;
      numbers = λ j w o. claim_tunnel-tunnel_of u s rules j w c o;
      sequence = let e = q.next_event in omega (arith, e);
    }

-- The tunnels are the same, and the sequence of the events has not gone back.
pub record SameTunnels (a b : Db) : Type 0 where
  pub tunnels : b.tunnels ≡ a.tunnels
  pub sequence : a.next_event ≤ b.next_event

pub SameTunnels-refl : (a : Db) → SameTunnels a a
SameTunnels-refl a = record { tunnels = refl; sequence = omega arith }

pub SameTunnels-trans : (a b c : Db) → SameTunnels a b → SameTunnels b c → SameTunnels a c
SameTunnels-trans a b c p q = record {
  tunnels = q.tunnels ∙ p.tunnels;
  sequence = omega (arith, p.sequence, q.sequence);
}

pub SameTunnels-Evolves : (a b : Db) → SameTunnels a b → (IsValid a → IsValid b) → Evolves a b
SameTunnels-Evolves a b s v = record {
  valid = v;
  owners = λ j w o. rw s.tunnels o;
  numbers = λ j w o. rw s.tunnels o;
  sequence = s.sequence;
}

abbrev pub EventsOnly : {A : Type 0} → Exec A → Type 0
EventsOnly m = Keeps SameTunnels SameTunnels-refl m

statement-EventsOnly :
    {A : Type 0} (f : Db → Result A × Db)
    → ((db : Db) → SameTunnels db (f db).1)
    → EventsOnly (statement f)
statement-EventsOnly f h = Keeps-statement SameTunnels SameTunnels-refl f h

row-updated :
    (i : ℕ) (f : WebhookEvent → WebhookEvent) (db : Db) → SameTunnels db (update_event i f db)
row-updated i f db = record { tunnels = refl; sequence = omega arith }

pub mark_replaying-EventsOnly : (i : ℕ) → EventsOnly (mark_replaying i)
unfolding mark_replaying
mark_replaying-EventsOnly i = statement-EventsOnly _ (λ db. row-updated i _ db)

pub mark_delivered-EventsOnly : (i status : ℕ) → EventsOnly (mark_delivered i status)
unfolding mark_delivered
mark_delivered-EventsOnly i status = statement-EventsOnly _ (λ db. row-updated i _ db)

pub requeue_event-EventsOnly : (i : ℕ) → EventsOnly (requeue_event i)
unfolding requeue_event
requeue_event-EventsOnly i = statement-EventsOnly _ (λ db. row-updated i _ db)

pub mark_failed-EventsOnly : (i status : ℕ) → EventsOnly (mark_failed i status)
unfolding mark_failed count_attempt set_state
mark_failed-EventsOnly i status =
    Keeps-bind SameTunnels SameTunnels-refl SameTunnels-trans (count_attempt i status)
      (λ n. set_state i (next_state n)) (statement-EventsOnly _ (λ db. row-updated i _ db))
      (λ n. statement-EventsOnly _ (λ db. row-updated i _ db))

events-Keep : {A : Type 0} (m : Exec A) → EventsOnly m → KeepsValid m → DbKeeps m
events-Keep m only valid c =
    SameTunnels-Evolves c.db (m c).1.db (only c) (λ v. ends-IsValid (m c) (valid.at c v))

pub requeue_event-Keeps : (i : ℕ) → DbKeeps (requeue_event i)
requeue_event-Keeps i = events-Keep _ (requeue_event-EventsOnly i) (requeue_event-IsValid i)

pub clear_events-Keeps : (t : ℕ) → DbKeeps (clear_events t)
unfolding clear_events
clear_events-Keeps t =
    events-Keep (clear_events t)
      (statement-EventsOnly _ (λ db. record { tunnels = refl; sequence = omega arith }))
      (clear_events-IsValid t)

pub enqueue_event-Keeps :
    (t : ℕ) (method path query : Text) (headers : Header) (body : Text)
    → DbKeeps (enqueue_event t method path query headers body)
unfolding enqueue_event
enqueue_event-Keeps t method path query headers body =
    events-Keep (enqueue_event t method path query headers body)
      (statement-EventsOnly _ (λ db. inserted db (has_tunnel t db)))
      (enqueue_event-IsValid t method path query headers body)
  where
    inserted :
        (db : Db) (known : Bool)
        → SameTunnels db (insert_event t method path query headers body known db).1
    inserted db false = record { tunnels = refl; sequence = omega arith }
    inserted db true = record { tunnels = refl; sequence = omega arith }
