-- ===== src/Health/Served.antt =====
-- A connection of the health endpoint (matcher/src/main.rs), from the request to the answer.
use code_storm.Exec.Ensures.{Ensures, weaken-Ensures}
use code_storm.Engine.Parts.{State}
use code_storm.Exec.{◌>>=◌, pure}
use Prim.Native.Char.{Char}
use Prim.Native.String.{◌∷◌}
use code_storm.Prelude.{String, some, ◌≡◌, refl, Option}
use code_storm.Services.{Services, ServiceLaws}
use code_storm.Exec.Wp.{wp-pure, continue-Ensures, Wp}
use code_storm.Engine.Seen.{see, Seen}
use code_storm.Health.{append, Response, response_text, serve, ◌>>=◌, State, answer, Option}
use code_storm.Health.Routes.{IsBare, IsAnswer, path_of-request, answer-IsAnswer}

module _ {sv : Services} {F : Type 0} (laws : ServiceLaws F sv) where
  -- The answer of the path is written, and what is seen is as before.
  abbrev pub IsServed : State sv → String → Option String → Seen → Type 0
  IsServed s path o τ =
      (τ ≡ see sv s) × ((r : Response) × (o ≡ some (response_text r)) × IsAnswer laws s path r)

  -- Of a request that begins with a method, a space, a path and a space, where method and path are
  -- not empty and have no white space, the health endpoint, whatever fails, reads that path,
  -- changes nothing that is seen and writes an answer: for `/healthz` the healthy one, for
  -- `/readyz` the ready one if PostgreSQL and Redis both reply to what it asks them, and the
  -- unready one if either fails, and for any other path the one that nothing was found.
  pub serve-IsAnswer :
      (c d : Char) (method path rest : String)
      → IsBare (c ∷ method)
      → IsBare (d ∷ path)
      → (s : State sv)
      → Ensures
          (see sv)
          (IsServed s (d ∷ path))
          (λ _. ⊥)
          (serve sv (some (append (c ∷ method) (" " ∷ append (d ∷ path) (" " ∷ rest)))) s)
  unfolding serve ◌>>=◌
  serve-IsAnswer c d method path rest bare_method bare_path s =
      rw (path_of-request c d method path rest bare_method bare_path) (
        continue-Ensures (see sv) (IsServed s (d ∷ path)) (λ _. ⊥) (answer sv (d ∷ path) s) _
          (weaken-Ensures (see sv) (λ r τ. (τ ≡ see sv s) × IsAnswer laws s (d ∷ path) r) (λ _. ⊥)
            (λ r τ. Wp (see sv) τ (pure (some (response_text r))) (IsServed s (d ∷ path)) (λ _. ⊥))
            (λ _. ⊥) (answer sv (d ∷ path) s) (answer-IsAnswer laws (d ∷ path) s)
            (λ r τ (same, told). wp-pure _ (same, (r, refl, told))) (λ _ f. f)))
