-- ===== src/Store/PostgresStore/Rows.antt =====
-- `escalate_incident` (matcher/src/store.rs): the incidents before and after it.
use code_storm.Error.{Result, ok, err}
use code_storm.Prelude.{
  ℕ, ◌≡◌, refl, Bool, false, Bool-cases, inl, inr, Option, none, some, ltb, if◌then◌else◌, arith,
  subst, true, ap, ◌∙◌,
}
use mathlib.Core.Option
use code_storm.Prelude.Int.{ℤ, pos, ◌==ℤ◌, ==ℤ_iff, ltb_ℤ}
use code_storm.Exec.Wp.{Wp, wp-bind, wp-command, wp-pure}
use code_storm.Exec.Ensures.{Ensures}
use code_storm.Postgres.{
  Postgres, PostgresLaws, Tables, IncidentRow, is_escalable, with_severity, update_severity,
  updated_rows,
}
use code_storm.Store.PostgresStore.{escalate_incident}

-- An incident once an escalation to a severity has been tried.
abbrev pub escalated : ℤ → Option IncidentRow → Option IncidentRow
escalated severity o = if is_escalable severity o then Option.map (with_severity severity) o else o

ltb_ℤ-irrefl : (x : ℤ) → ltb_ℤ x x ≡ false
ltb_ℤ-irrefl (pos n) = ground arith
ltb_ℤ-irrefl _ = ground arith

escalated-done :
    (severity : ℤ) (o : Option IncidentRow) → is_escalable severity (escalated severity o) ≡ false
escalated-done severity none = refl
escalated-done severity (some row) = ground (arith, ltb_ℤ-irrefl severity)

pub incident_updated :
    (id severity k : ℤ) (t : Tables)
    → (update_severity id severity t).incidents k
      ≡ (if id ==ℤ k then escalated severity (t.incidents k) else t.incidents k)
incident_updated id severity k t = elim (Bool-cases (id ==ℤ k)) [
  | inl same ↦ let e : id ≡ k = (==ℤ_iff id k).0 same in rw (same, e) refl
  | inr other ↦ rw other refl
]

module _ {p : Postgres} {F : Type 0} (laws : PostgresLaws F p) where
  pub escalate-Wp :
      (id severity : ℤ) (t : Tables) {Q : Bool → Tables → Type 0}
      → Q (is_escalable severity (t.incidents id)) (update_severity id severity t)
      → Wp p.tables t (escalate_incident p id severity) Q (λ _. F)
  unfolding escalate_incident
  escalate-Wp id severity t {Q} q = wp-bind _ _ (
      wp-command (laws.update_severity_law id severity)
        (λ n e. wp-pure _ (subst (λ b. Q b (update_severity id severity t)) (affected n e) q))
        (λ f. f) (λ _ f _. f))
    where
      affected :
          (n : ℕ)
          → n ≡ updated_rows id severity t
          → is_escalable severity (t.incidents id) ≡ ltb 0 n
      affected n e = ground arith

  settled_incidents :
      (id severity k : ℤ) (t : Tables)
      → is_escalable severity (t.incidents id) ≡ false
      → (update_severity id severity t).incidents k ≡ t.incidents k
  settled_incidents id severity k t h = ground (arith, incident_updated id severity k t)

  no_longer :
      (id severity : ℤ) (t u : Tables)
      → u ≡ update_severity id severity t
      → is_escalable severity (u.incidents id) ≡ false
  no_longer id severity t u e =
      let same : (id ==ℤ id) ≡ true = (==ℤ_iff id id).1 refl in
      rw e (
        ap (is_escalable severity) (incident_updated id severity id t)
        ∙ rw same (escalated-done severity (t.incidents id)))

  -- After an escalation of an incident to a severity that did not fail, a second one to that
  -- severity, unless the database fails, reports that it did nothing and changes no incident.
  pub escalate_incident-once :
      (id severity : ℤ) (s : p.Db) (b : Bool)
      → (escalate_incident p id severity s).0 ≡ ok b
      → Ensures p.tables
          (λ again t.
            (again ≡ false)
            × ((k : ℤ)
                → t.incidents k ≡ (p.tables (escalate_incident p id severity s).1).incidents k))
          (λ _. F)
          (escalate_incident p id severity (escalate_incident p id severity s).1)
  escalate_incident-once id severity s b done =
      let s' = (escalate_incident p id severity s).1 in
      let settled = no_longer id severity (p.tables s) (p.tables s') (
        updated_tables (escalate_incident p id severity s) done (
          (escalate-Wp id severity (p.tables s)
              {Q = λ _ u. u ≡ update_severity id severity (p.tables s)} refl).at
            s refl)) in
      (escalate-Wp id severity (p.tables s')
          {Q = λ again t. (again ≡ false) × ((k : ℤ) → t.incidents k ≡ (p.tables s').incidents k)}
          (settled, λ k. settled_incidents id severity k (p.tables s') settled)).at
        s' refl
    where
      updated_tables :
          (x : Result Bool × p.Db)
          → x.0 ≡ ok b
          → Ensures p.tables (λ _ u. u ≡ update_severity id severity (p.tables s)) (λ _. F) x
          → p.tables x.1 ≡ update_severity id severity (p.tables s)
      updated_tables (ok a, u) e h = h
      updated_tables (err x, u) e h = cc
