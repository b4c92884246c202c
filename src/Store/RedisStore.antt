-- ===== src/Store/RedisStore.antt =====
-- matcher/src/store.rs: the methods of `RedisStore` that the engine calls.
pub mod Windows
pub mod Claims
pub mod Deadlines
pub mod Escalations
pub mod Stored
pub mod Scan
pub mod Group
pub mod Metrics
pub mod Latencies
use code_storm.Prelude.{
  zero, suc, ◌++◌, ◌==◌, ℕ, Uuid, String, Bool, true, false, Option, none, some, List, [], ◌∷◌,
  if◌then◌else◌, is_some,
}
use code_storm.Prelude.Int.{ℤ, pos, ◌==ℤ◌}
use code_storm.Error.{is_busy, Result, ok, err}
use mathlib.Core.Option
use code_storm.Exec.{attempt, raise, Exec, pure, lift, gets, ◌>>=◌, ◌>>◌}
use code_storm.Codec.{Codec}
use code_storm.Model.Source
use code_storm.Model.Source.{Source}
use code_storm.Model.Partial.{PartialTransaction}
use code_storm.Redis.{Redis}
use code_storm.Redis.View.{
  Key, dedup_event, window, sources, deadlines, incident_escalations, last_seen, source_events,
  events_total, latencies_total, latencies_logic, matches_success, matches_failed,
}

module _ (r : Redis) where
  unfoldable pub try_claim_event : Uuid → ℕ → Exec r.Server Bool
  try_claim_event event_id ttl_ms = do
    result ← r.set_nx_px (dedup_event event_id) "1" ttl_ms
    pure (is_some result)

  unfoldable pub delete_window : Uuid → Exec r.Server (Unit {0})
  delete_window transaction_id = r.del (window transaction_id)

  unfoldable pub try_register_source : Uuid → Source → Exec r.Server Bool
  try_register_source transaction_id source = do
    added ← r.sadd (sources transaction_id) (Source.to_string source)
    r.expire (sources transaction_id) 60
    pure (added ==ℤ pos 1)

  unfoldable pub cleanup_sources : Uuid → Exec r.Server (Unit {0})
  cleanup_sources transaction_id = r.del (sources transaction_id)

  unfoldable pub add_escalation : ℤ → ℤ → Exec r.Server (Unit {0})
  add_escalation incident_id escalate_at_ms =
      r.zadd_int incident_escalations incident_id escalate_at_ms

  -- The loop over the members that are due; the id of each that this call removed is kept.
  unfoldable pub pop_escalations : List ℤ → Exec r.Server (List ℤ)
  pop_escalations [] = pure []
  pop_escalations (id ∷ members) = do
    removed ← r.zrem_int incident_escalations id
    result ← pop_escalations members
    pure (if removed ==ℤ pos 1 then id ∷ result else result)

  unfoldable pub pop_expired_escalations : ℤ → Exec r.Server (List ℤ)
  pop_expired_escalations now_ms = do
    members ← r.zrangebyscore_int incident_escalations now_ms
    pop_escalations members

  unfoldable pub remove_escalation : ℤ → Exec r.Server (Unit {0})
  remove_escalation incident_id = do r.zrem_int incident_escalations incident_id; pure tt

  unfoldable pub publish : String → String → Exec r.Server (Unit {0})
  publish channel message = r.publish channel message

  unfoldable pub record_match_result : Bool → Exec r.Server (Unit {0})
  record_match_result matched = if matched then r.incr matches_success else r.incr matches_failed

  -- A group that is there already is as good as a new one.
  abbrev pub group_result : Result String → Exec r.Server (Unit {0})
  group_result (ok a) = pure tt
  group_result (err e) = if is_busy e then pure tt else raise e

  unfoldable pub ensure_consumer_group : String → String → Exec r.Server (Unit {0})
  ensure_consumer_group stream group = do
    result ← attempt (r.xgroup_create stream group)
    group_result result

  module _ (c : Codec) where
    -- `now` is the RFC 3339 text of the time.
    unfoldable pub record_event_processed : String → String → ℤ → ℤ → Exec r.Server (Unit {0})
    record_event_processed now source total_micros logic_micros = do
      r.incr events_total
      r.setex (last_seen source) 3600 now
      r.incr (source_events source)
      r.lpush latencies_total (c.i64_to_string total_micros)
      r.ltrim latencies_total 0 999
      r.lpush latencies_logic (c.i64_to_string logic_micros)
      r.ltrim latencies_logic 0 999
      r.expire events_total 3600

    unfoldable pub save_window : PartialTransaction → Exec r.Server (Unit {0})
    save_window partial = do
      json ← lift (c.window_to_json partial)
      r.set_px (window partial.transaction_id) json 30_000

    parse_window : Option String → Result (Option PartialTransaction)
    parse_window none = ok none
    parse_window (some s) = elim (c.window_from_json s) [ ok p ↦ ok (some p) | err e ↦ err e ]

    unfoldable pub load_window : Uuid → Exec r.Server (Option PartialTransaction)
    unfolding parse_window
    load_window transaction_id = do json ← r.get (window transaction_id); lift (parse_window json)

    -- A window that can be read is kept, whatever its key; a key that cannot be is passed over.
    abbrev pub push_parsed_window :
        Result PartialTransaction → List PartialTransaction → List PartialTransaction
    push_parsed_window (ok p) windows = p ∷ windows
    push_parsed_window (err e) windows = windows

    abbrev pub push_read :
        Result (Option String) → List PartialTransaction → List PartialTransaction
    push_read (ok (some s)) windows = push_parsed_window (c.window_from_json s) windows
    push_read _ windows = windows

    unfoldable pub read_windows : List Key → Exec r.Server (List PartialTransaction)
    read_windows [] = pure []
    read_windows (key ∷ keys) = do
      found ← attempt (r.get key)
      windows ← read_windows keys
      pure (push_read found windows)

    -- The loop until the cursor is 0 again; `none` means that the fuel ran out.
    unfoldable pub scan_from : ℕ → ℕ → Exec r.Server (Option (List PartialTransaction))
    scan_from zero cursor = pure none
    scan_from (suc fuel) cursor = do
      (next_cursor, keys) ← r.scan_windows cursor
      windows ← read_windows keys
      (if next_cursor == 0 then pure (some windows) else (do
        rest ← scan_from fuel next_cursor
        pure (Option.map (λ more. windows ++ more) rest)))

    unfoldable pub load_all_windows : ℕ → Exec r.Server (Option (List PartialTransaction))
    load_all_windows fuel = scan_from fuel 0

    unfoldable pub add_deadline : Uuid → ℤ → Exec r.Server (Unit {0})
    add_deadline transaction_id deadline_ms =
        r.zadd_text deadlines (c.uuid_to_string transaction_id) deadline_ms

    abbrev pub push_parsed : Option Uuid → List Uuid → List Uuid
    push_parsed none ids = ids
    push_parsed (some id) ids = id ∷ ids

    -- The loop over the members that are due; one that is no identifier is dropped.
    unfoldable pub pop_deadlines : List String → Exec r.Server (List Uuid)
    pop_deadlines [] = pure []
    pop_deadlines (m ∷ members) = do
      removed ← r.zrem_text deadlines m
      result ← pop_deadlines members
      pure (if removed ==ℤ pos 1 then push_parsed (c.parse_uuid m) result else result)

    unfoldable pub pop_expired_deadlines : ℤ → Exec r.Server (List Uuid)
    pop_expired_deadlines now_ms = do
      members ← r.zrangebyscore_text deadlines now_ms
      pop_deadlines members

    unfoldable pub remove_deadline : Uuid → Exec r.Server (Unit {0})
    remove_deadline transaction_id = do
      r.zrem_text deadlines (c.uuid_to_string transaction_id)
      pure tt
