-- ===== src/Model/Source.antt =====
-- matcher/src/model.rs: `Source` and its names.
use text.Mathlib.Text.{◌==◌ as str_eq}
use code_storm.Prelude.{◌≡◌, refl, Bool, true, false, List, [], ◌∷◌, String}

pub data Source : Type 0 where
  merchant gateway bank : Source

abbrev pub to_string : Source → String
to_string merchant = "merchant"
to_string gateway = "gateway"
to_string bank = "bank"

-- `Source::all`
abbrev pub all : List Source
all = merchant ∷ gateway ∷ bank ∷ []

infix 50 ◌==◌
-- The derived `PartialEq`.
abbrev pub ◌==◌ : Source → Source → Bool
merchant == merchant = true
gateway == gateway = true
bank == bank = true
_ == _ = false

-- The names tell the sources apart.
pub to_string-eq : (s t : Source) → str_eq (to_string s) (to_string t) ≡ (s == t)
to_string-eq merchant merchant = refl
to_string-eq merchant gateway = refl
to_string-eq merchant bank = refl
to_string-eq gateway merchant = refl
to_string-eq gateway gateway = refl
to_string-eq gateway bank = refl
to_string-eq bank merchant = refl
to_string-eq bank gateway = refl
to_string-eq bank bank = refl
