-- ===== src/Error.antt =====
-- matcher/src/error.rs: the errors, and the result of a fallible step. What the wrapped errors of
-- the libraries hold is their message.
use text.Mathlib.Text.{find?}
use code_storm.Prelude.{String, Bool, false, is_some}

pub data ReconcilerError : Type 0 where
  redis postgres serde uuid : String → ReconcilerError
  invalid_payload missing_field : String → ReconcilerError

pub data Result (A : Type 0) : Type 0 where
  ok : A → Result A
  err : ReconcilerError → Result A

-- `e.to_string().contains("BUSYGROUP")`, on an error of Redis.
abbrev pub is_busy : ReconcilerError → Bool
is_busy (redis message) = is_some (find? message "BUSYGROUP")
is_busy _ = false
