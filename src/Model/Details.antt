-- ===== src/Model/Details.antt =====
-- matcher/src/model.rs: `build_details`.
pub mod Agreement
use mathlib.Core.Option
use text.Mathlib.Text.{◌==◌ as str_eq}
use code_storm.Prelude.{
  Bool, true, false, not, ◌||◌, Option, none, some, String, List, [], ◌∷◌, ◌++◌, if◌then◌else◌,
  and_then, unwrap_or,
}
use code_storm.Prelude.Int.{ℤ, pos, ◌==ℤ◌, sub_i64}
use code_storm.Model.Source.{merchant, gateway, bank}
use code_storm.Model.Event.{PaymentEvent}
use code_storm.Model.Partial.{PartialTransaction}
use code_storm.Model.Incident.{ReconciliationDetail}

-- Two sources disagree by a test, and both are present.
abbrev disagree :
    (PaymentEvent → PaymentEvent → Bool) → Option PaymentEvent → Option PaymentEvent → Bool
disagree test a b = unwrap_or (and_then a (λ x. Option.map (λ y. test x y) b)) false

abbrev currencies_differ : PaymentEvent → PaymentEvent → Bool
currencies_differ x y = not (str_eq x.currency y.currency)

unfoldable pub has_currency_mismatch :
    Option PaymentEvent → Option PaymentEvent → Option PaymentEvent → Bool
has_currency_mismatch m g b =
    disagree currencies_differ m g
    || disagree currencies_differ g b
    || disagree currencies_differ m b

unfoldable pub has_amount_mismatch : Option PaymentEvent → Option PaymentEvent → Bool
has_amount_mismatch m g = disagree (λ x y. not (y.amount_minor ==ℤ x.amount_minor)) m g

unfoldable pub has_fee_mismatch : Option PaymentEvent → Option PaymentEvent → Bool
has_fee_mismatch g b =
    disagree (λ x y. not (y.amount_minor ==ℤ sub_i64 x.amount_minor x.fee_minor)) g b

abbrev amount : PaymentEvent → ℤ
amount e = e.amount_minor

-- The reason given for one source, from the two flags.
abbrev reason : Bool → Bool → String → Option String
reason currency_mismatch other text =
    if currency_mismatch then some "currency mismatch" else if other then some text else none

unfoldable pub merchant_detail :
    Bool → Bool → PaymentEvent → Option PaymentEvent → ReconciliationDetail
merchant_detail currency_mismatch amount_mismatch m g = record {
  source = merchant;
  amount_expected = Option.map amount g;
  amount_actual = some m.amount_minor;
  fee_expected = some (pos 0);
  fee_actual = some m.fee_minor;
  is_matched = unwrap_or (Option.map (λ x. amount x ==ℤ m.amount_minor) g) false;
  mismatch_reason = reason currency_mismatch amount_mismatch "merchant amount mismatch";
}

unfoldable pub gateway_detail :
    Bool → Bool → Bool → PaymentEvent → Option PaymentEvent → ReconciliationDetail
gateway_detail currency_mismatch amount_mismatch fee_mismatch g m = record {
  source = gateway;
  amount_expected = Option.map amount m;
  amount_actual = some g.amount_minor;
  fee_expected = none;
  fee_actual = some g.fee_minor;
  is_matched = unwrap_or (Option.map (λ x. amount x ==ℤ g.amount_minor) m) false;
  mismatch_reason =
      reason currency_mismatch (amount_mismatch || fee_mismatch) "gateway consistency mismatch";
}

unfoldable pub bank_detail : Bool → Bool → PaymentEvent → Option PaymentEvent → ReconciliationDetail
bank_detail currency_mismatch fee_mismatch b g =
    let expected = Option.map (λ x. sub_i64 x.amount_minor x.fee_minor) g in
    record {
      source = bank;
      amount_expected = expected;
      amount_actual = some b.amount_minor;
      fee_expected = none;
      fee_actual = some b.fee_minor;
      is_matched = unwrap_or (Option.map (λ x. x ==ℤ b.amount_minor) expected) false;
      mismatch_reason = reason currency_mismatch fee_mismatch "bank amount mismatch";
    }

-- `if let Some(e) = … { details.push(…) }`
abbrev push_detail :
    Option PaymentEvent → (PaymentEvent → ReconciliationDetail) → List ReconciliationDetail
push_detail none f = []
push_detail (some e) f = f e ∷ []

unfoldable pub details_of :
    Option PaymentEvent → Option PaymentEvent → Option PaymentEvent → List ReconciliationDetail
unfolding has_currency_mismatch has_amount_mismatch has_fee_mismatch merchant_detail gateway_detail
    bank_detail
details_of m g b =
    let currency_mismatch = has_currency_mismatch m g b in
    let amount_mismatch = has_amount_mismatch m g in
    let fee_mismatch = has_fee_mismatch g b in
    push_detail m (λ e. merchant_detail currency_mismatch amount_mismatch e g)
    ++ (push_detail g (λ e. gateway_detail currency_mismatch amount_mismatch fee_mismatch e m)
        ++ push_detail b (λ e. bank_detail currency_mismatch fee_mismatch e g))

unfoldable pub build_details : PartialTransaction → List ReconciliationDetail
unfolding details_of
build_details p = details_of (p.events merchant) (p.events gateway) (p.events bank)
