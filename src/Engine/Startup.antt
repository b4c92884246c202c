-- ===== src/Engine/Startup.antt =====
-- matcher/src/main.rs and matcher/src/matcher.rs: the state from which the engine starts. The
-- fuel is for the scan of the saved windows.
pub mod Restored
use code_storm.Prelude.{ℕ, Option, none, some, List, [], ◌∷◌, length}
use code_storm.Config.{Config}
use code_storm.Services.{Services}
use code_storm.Exec.{Exec, pure, gets, modify, ◌>>=◌, ◌>>◌}
use code_storm.Model.Partial.{PartialTransaction}
use code_storm.Store.RedisStore
use code_storm.Engine.Windows
use code_storm.Engine.Windows.{Windows}
use code_storm.Engine.Parts.{State, on_redis}

-- `for w in windows { self.windows.insert(w.transaction_id, w) }`
abbrev pub insert_all : List PartialTransaction → Windows → Windows
insert_all [] windows = windows
insert_all (p ∷ ps) windows = insert_all ps (Windows.insert p.transaction_id p windows)

module _ (sv : Services) where
  abbrev pub restore_found : Option (List PartialTransaction) → Exec (State sv) (Option ℕ)
  restore_found none = pure none
  restore_found (some windows) = do
    modify (λ s. record s { windows = insert_all windows s.windows })
    pure (some (length windows))

  -- Returns the count that the source logs; `none` means that the fuel ran out.
  unfoldable pub restore_from_redis : ℕ → Exec (State sv) (Option ℕ)
  restore_from_redis fuel = do
    windows ← on_redis sv (RedisStore.load_all_windows sv.redis sv.codec fuel)
    restore_found windows

  unfoldable pub active_windows_count : Exec (State sv) ℕ
  active_windows_count = gets (λ s. length s.windows)

  -- The steps of `main` between the connections and the tasks.
  unfoldable pub start_engine : Config → ℕ → Exec (State sv) (Option ℕ)
  start_engine cfg fuel = do
    on_redis sv
        (RedisStore.ensure_consumer_group sv.redis cfg.redis_stream_name cfg.redis_consumer_group)
    restore_from_redis fuel
