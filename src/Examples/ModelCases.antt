-- ===== src/Examples/ModelCases.antt =====
-- The theorems on the model, at one payment.
use code_storm.Prelude.{[], ◌≡◌, refl, ◌↔◌, ◌≢◌, keep, map, All, true, arith}
use code_storm.Prelude.Int.{sub_i64, wrap_i64, pos, ◌-ℤ◌}
use code_storm.Model.Source.{bank, all}
use code_storm.Model.Partial.{
  Events, bgm, insert, contains_key, is_complete, sources_seen, missing_sources,
}
use code_storm.Model.Partial.Sources.{present_by_name, sources_seen-eq, is_complete_iff}
use code_storm.Model.Incident.{
  matched, mismatched, currency_mismatch, amount_mismatch, fee_mismatch,
}
use code_storm.Model.Invariants.{check_invariants, expected_bank_amount}
use code_storm.Model.Invariants.Verdict.{
  Holds, IsReconciledWindow, check_invariants-matched_iff, check_invariants-silent_iff,
  matched_settlement,
}
use code_storm.Model.Invariants.Incidents.{
  incidents_of, IsFresh, Reports, SameCurrency, check_invariants-IsFresh,
  check_invariants-Reports_iff,
}
use code_storm.Model.Details.{build_details}
use code_storm.Model.Details.Agreement.{
  HasNoReason, IsMarked, build_details-sources, matched-HasNoReason_iff, build_details-IsMarked_iff,
}
use code_storm.Model.Event.{PaymentEvent}
use code_storm.Examples.Demo.{
  payment, from_merchant, from_gateway, from_bank, two_events, three_events, window_with,
}

all_three : Holds three_events from_merchant from_gateway from_bank
all_three = record { of_merchant = refl; of_gateway = refl; of_bank = refl }

sources_seen-eq_example : sources_seen bgm (window_with two_events) ≡ present_by_name two_events
sources_seen-eq_example = sources_seen-eq bgm (window_with two_events)

is_complete_iff_example :
    (is_complete (window_with three_events) 3 ≡ true)
    ↔ (missing_sources (window_with three_events) ≡ [])
is_complete_iff_example = is_complete_iff (window_with three_events)

check_invariants-matched_iff_example :
    (check_invariants (window_with three_events) ≡ matched) ↔ IsReconciledWindow three_events
check_invariants-matched_iff_example = check_invariants-matched_iff (window_with three_events)

check_invariants-silent_iff_example :
    (check_invariants (window_with two_events) ≡ mismatched [])
    ↔ (missing_sources (window_with two_events) ≢ [])
check_invariants-silent_iff_example = check_invariants-silent_iff (window_with two_events)

three_matched : check_invariants (window_with three_events) ≡ matched
unfolding check_invariants sub_i64 wrap_i64 ◌-ℤ◌
three_matched = refl

matched_settlement_example :
    from_bank.amount_minor ≡ from_merchant.amount_minor -ℤ from_gateway.fee_minor
unfolding ◌-ℤ◌
matched_settlement_example =
    matched_settlement (window_with three_events) from_merchant from_gateway from_bank all_three
      (omega arith) three_matched

-- A payment of which the bank settled too little.
abbrev short_bank : PaymentEvent
short_bank = payment bank 3 (pos 4_900_000) (pos 0) "UZS"

abbrev off_events : Events
off_events = insert bank short_bank two_events

all_off : Holds off_events from_merchant from_gateway short_bank
all_off = record { of_merchant = refl; of_gateway = refl; of_bank = refl }

check_invariants-IsFresh_example :
    All (IsFresh 7) (incidents_of (check_invariants (window_with off_events)))
check_invariants-IsFresh_example = check_invariants-IsFresh (window_with off_events)

check_invariants-Reports_iff_example :
    (Reports currency_mismatch (check_invariants (window_with off_events))
      ↔ ¬ SameCurrency from_merchant from_gateway short_bank)
    × (Reports amount_mismatch (check_invariants (window_with off_events)) ↔ (
        SameCurrency from_merchant from_gateway short_bank
        × (from_gateway.amount_minor ≢ from_merchant.amount_minor)))
    × (Reports fee_mismatch (check_invariants (window_with off_events)) ↔ (
        SameCurrency from_merchant from_gateway short_bank
        × (short_bank.amount_minor ≢ expected_bank_amount from_gateway)))
check_invariants-Reports_iff_example =
    check_invariants-Reports_iff (window_with off_events) from_merchant from_gateway short_bank
      all_off

build_details-sources_example :
    map (λ d. d.source) (build_details (window_with two_events))
    ≡ keep (contains_key two_events) all
build_details-sources_example = build_details-sources (window_with two_events)

matched-HasNoReason_iff_example :
    (check_invariants (window_with three_events) ≡ matched)
    ↔ All HasNoReason (build_details (window_with three_events))
matched-HasNoReason_iff_example =
    matched-HasNoReason_iff (window_with three_events) from_merchant from_gateway from_bank
      all_three

build_details-IsMarked_iff_example : All IsMarked (build_details (window_with three_events)) ↔ (
    (from_gateway.amount_minor ≡ from_merchant.amount_minor)
    × (from_bank.amount_minor ≡ expected_bank_amount from_gateway))
build_details-IsMarked_iff_example =
    build_details-IsMarked_iff (window_with three_events) from_merchant from_gateway from_bank
      all_three
