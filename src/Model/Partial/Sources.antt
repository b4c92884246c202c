-- ===== src/Model/Partial/Sources.antt =====
-- What a window reports of the sources that it has and lacks.
use code_storm.Prelude.{List, some, ◌∷◌, ℕ, ◌≡◌, ◌↔◌, true, not, [], arith, keep, any}
use code_storm.Prelude.Int.{ℤ, pos, ◌+ℤ◌, IsI64, wrap_i64-eq, add_i64}
use code_storm.Model.Source.{Source, merchant, gateway, bank, ◌==◌}
use code_storm.Model.Event.{PaymentEvent}
use code_storm.Model.Partial.{
  first_of_keys, first_value, keys, PartialTransaction, Events, HashOrder, mgb, contains_key, new,
  is_complete, sources_seen, missing_sources,
}

-- The sources present, by name.
abbrev pub present_by_name : Events → List Source
present_by_name events = keep (contains_key events) (bank ∷ gateway ∷ merchant ∷ [])

-- Whatever the iteration order of the map, `sources_seen` lists the sources present, by name.
pub sources_seen-eq :
    (order : HashOrder) (p : PartialTransaction) → sources_seen order p ≡ present_by_name p.events
unfolding sources_seen
sources_seen-eq mgb p = ground arith
sources_seen-eq _ p = ground arith

-- A source is reported missing exactly when it is not reported as seen.
pub missing_complement :
    (order : HashOrder) (p : PartialTransaction) (s : Source)
    → any (λ t. t == s) (missing_sources p) ≡ not (any (λ t. t == s) (sources_seen order p))
missing_complement order p merchant =
    unfold missing_sources in ground (arith, sources_seen-eq order p)
missing_complement order p _ = unfold missing_sources in ground (arith, sources_seen-eq order p)

-- With three sources expected, a window is complete exactly when none is missing.
pub is_complete_iff : (p : PartialTransaction) → (is_complete p 3 ≡ true) ↔ (missing_sources p ≡ [])
unfolding is_complete missing_sources
is_complete_iff p = (λ h. ground arith, λ h. ground arith)

-- Where the timeout, and its sum with the time, are within 64 bits, the deadline of a new window
-- is the time plus the timeout.
pub new_deadline :
    (tx : ℕ) (now : ℤ) (timeout : ℕ)
    → IsI64 (pos timeout)
    → IsI64 (now +ℤ pos timeout)
    → (new tx now timeout).deadline_ms ≡ now +ℤ pos timeout
unfolding new add_i64
new_deadline tx now timeout ht hs =
    ground (arith, wrap_i64-eq (pos timeout) ht, wrap_i64-eq (now +ℤ pos timeout) hs)

first_source :
    (events : Events) (l : List Source) (e : PaymentEvent)
    → first_of_keys events l ≡ some e
    → (s : Source) × (events s ≡ some e)
first_source events [] e h = cc
first_source events (s ∷ l) e h = (s, h)

-- The first value of a map is the event of some source.
pub first_value_source :
    (order : HashOrder) (events : Events) (e : PaymentEvent)
    → first_value order events ≡ some e
    → (s : Source) × (events s ≡ some e)
first_value_source order events e h = first_source events (keys order events) e h
