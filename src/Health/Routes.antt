-- ===== src/Health/Routes.antt =====
-- Which path is read of a request, and which answer it gets (matcher/src/main.rs).
use code_storm.Exec.Ensures.{Performs, Ensures}
use code_storm.Prelude.Int.{ℤ}
use text.Mathlib.Text.{◌==◌ as str_eq}
use Prim.Native.Char.{Char, code}
use Prim.Native.String.{[], ◌∷◌}
use code_storm.Prelude.{
  ◌≡◌, ◌⊎◌, refl, ap, ◌∙◌, inl, inr, false, Bool-cases, String, some, arith, ◌==◌, if◌then◌else◌,
}
use code_storm.Error.{Result, ok, err, ReconcilerError}
use code_storm.Services.{Services, ServiceLaws}
use code_storm.Engine.Parts.{on_redis, State, on_postgres}
use code_storm.Exec.{attempt, pure, ◌>>=◌, zoom}
use code_storm.Engine.Seen.{see}
use code_storm.Health.{
  append, is_white, up_to_newline, trim_start, word, after_word, found_word, second_word, path_in,
  path_of, Response, response, is_ok, readiness, readyz, answer,
}

-- No character is white space.
abbrev pub IsBare : String → Type 0
IsBare [] = Unit
IsBare (c ∷ s) = (is_white c ≡ false) × IsBare s

not_newline : (c : Char) → is_white c ≡ false → (code c == 10) ≡ false
not_newline c h = ground arith

up_to_newline-bare :
    (w t : String) → IsBare w → up_to_newline (append w t) ≡ append w (up_to_newline t)
up_to_newline-bare [] t h = refl
up_to_newline-bare (c ∷ w) t (h, bare) =
    rw (not_newline c h) (ap (λ u. c ∷ u) (up_to_newline-bare w t bare))

word-bare : (w t : String) → IsBare w → word (append w (" " ∷ t)) ≡ w
word-bare [] t h = refl
word-bare (c ∷ w) t (h, bare) = rw h (ap (λ u. c ∷ u) (word-bare w t bare))

after_word-bare : (w t : String) → IsBare w → after_word (append w (" " ∷ t)) ≡ " " ∷ t
after_word-bare [] t h = refl
after_word-bare (c ∷ w) t (h, bare) = rw h (after_word-bare w t bare)

trim_start-bare :
    (c : Char) (w t : String) → is_white c ≡ false → trim_start (c ∷ append w t) ≡ c ∷ append w t
trim_start-bare c w t h = rw h refl

module _ (c d : Char) (method path rest : String) (method_bare : IsBare (c ∷ method))
    (path_bare : IsBare (d ∷ path)) where
  -- The first line of a request, up to its end.
  line-eq :
      up_to_newline (append (c ∷ method) (" " ∷ append (d ∷ path) (" " ∷ rest)))
      ≡ append (c ∷ method) (" " ∷ append (d ∷ path) (" " ∷ up_to_newline rest))
  line-eq =
      up_to_newline-bare (c ∷ method) _ method_bare
      ∙ ap (λ u. append (c ∷ method) (" " ∷ u))
          (up_to_newline-bare (d ∷ path) (" " ∷ rest) path_bare)

  second_word-eq :
      (t : String)
      → second_word (append (c ∷ method) (" " ∷ append (d ∷ path) (" " ∷ t))) ≡ some (d ∷ path)
  second_word-eq t =
      let u = " " ∷ append (d ∷ path) (" " ∷ t) in
      ap (λ s. found_word (word (trim_start (after_word s))))
        (trim_start-bare c method u method_bare.0)
      ∙ ap (λ s. found_word (word (trim_start s))) (after_word-bare (c ∷ method) _ method_bare)
      ∙ ap (λ s. found_word (word s)) (trim_start-bare d path (" " ∷ t) path_bare.0)
      ∙ ap found_word (word-bare (d ∷ path) t path_bare)

  -- The path of a request, where the method and the path have no white space.
  pub path_of-request :
      path_of (append (c ∷ method) (" " ∷ append (d ∷ path) (" " ∷ rest))) ≡ d ∷ path
  unfolding path_of
  path_of-request =
      ap (λ l. path_in (second_word l)) line-eq ∙ ap path_in (second_word-eq (up_to_newline rest))

abbrev pub ready : Response
ready = response "HTTP/1.1 200 OK" "{\"status\":\"ready\"}"

abbrev pub unready : Response
unready = response "HTTP/1.1 503 Service Unavailable" "{\"status\":\"unready\"}"

abbrev pub healthy : Response
healthy = response "HTTP/1.1 200 OK" "{\"status\":\"ok\"}"

abbrev pub not_found : Response
not_found = response "HTTP/1.1 404 Not Found" "{\"error\":\"not_found\"}"

-- How a service has answered.
abbrev pub Replies : {A : Type 0} → Result A → Type 0
Replies {A} r = (a : A) × (r ≡ ok a)

abbrev pub Fails : {A : Type 0} → Result A → Type 0
Fails r = (e : ReconcilerError) × (r ≡ err e)

module _ {sv : Services} {F : Type 0} (laws : ServiceLaws F sv) where
  -- What PostgreSQL and Redis answer in a state.
  abbrev pub postgres_reply : State sv → Result ℤ
  postgres_reply s = (sv.postgres.select_one s.postgres).0

  abbrev pub redis_reply : State sv → Result String
  redis_reply s = (sv.redis.ping s.redis).0

  -- The ready answer if both services reply, and the unready one if either fails, which has a
  -- fault as its cause.
  abbrev pub IsReadiness : State sv → Response → Type 0
  IsReadiness s r =
      (Replies (postgres_reply s) × Replies (redis_reply s) × (r ≡ ready))
      ⊎ ((Fails (postgres_reply s) ⊎ Fails (redis_reply s)) × F × (r ≡ unready))

  -- A service that is asked whether it is there fails by a fault only, and stays as it was.
  asked :
      {S V A : Type 0} (look : S → V) (v : V) (r : Result A × S)
      → Performs look (λ _. F) (λ _ _. Unit) (λ _ w. w) v r
      → (Replies r.0 ⊎ (Fails r.0 × F)) × (look r.1 ≡ v)
  asked look v (ok a, t) (_, e) = (inl (a, refl), e)
  asked look v (err x, t) (f, inl e) = (inr ((x, refl), f), e)
  asked look v (err x, t) (f, inr (_, _, e)) = (inr ((x, refl), f), e)

  readiness-one :
      (s : State sv)
      → Replies (postgres_reply s) ⊎ (Fails (postgres_reply s) × F)
      → Replies (redis_reply s) ⊎ (Fails (redis_reply s) × F)
      → IsReadiness s (readiness (is_ok (postgres_reply s)) (is_ok (redis_reply s)))
  readiness-one s (inl (a, h)) (inl (b, k)) = inl ((a, h), (b, k), rw (h, k) refl)
  readiness-one s (inl (a, h)) (inr ((e, k), f)) = inr (inr (e, k), f, rw (h, k) refl)
  readiness-one s (inr ((e, h), f)) k = inr (inl (e, h), f, rw h refl)

  readyz-IsReadiness :
      (s : State sv)
      → Ensures (see sv) (λ r τ. (τ ≡ see sv s) × IsReadiness s r) (λ _. ⊥) (readyz sv s)
  unfolding readyz attempt on_postgres on_redis zoom pure ◌>>=◌
  readyz-IsReadiness s =
      let (pg, same) =
        asked sv.postgres.tables _ _ (laws.postgres_laws.select_one_law.at s.postgres) in
      let (redis, same') = asked sv.redis.view _ _ (laws.redis_laws.ping_law.at s.redis) in
      (
        λ i. record { windows = s.windows; view = same' i; tables = same i },
        readiness-one s pg redis,
      )

  -- The answer that a path has to get in a state.
  abbrev pub IsAnswer : State sv → String → Response → Type 0
  IsAnswer s path r =
      if str_eq path "/healthz"
      then r ≡ healthy
      else if str_eq path "/readyz"
      then IsReadiness s r
      else r ≡ not_found

  -- Whatever fails, a path gets the answer that it has to get, and nothing that is seen changes.
  pub answer-IsAnswer :
      (path : String) (s : State sv)
      → Ensures (see sv) (λ r τ. (τ ≡ see sv s) × IsAnswer s path r) (λ _. ⊥) (answer sv path s)
  unfolding answer pure
  answer-IsAnswer path s = elim (Bool-cases (str_eq path "/healthz")) [
    | inl health ↦ rw health (refl, refl)
    | inr other ↦ rw other (elim (Bool-cases (str_eq path "/readyz")) [
      | inl ready ↦ rw ready (readyz-IsReadiness s)
      | inr unknown ↦ rw unknown (refl, refl)
    ])
  ]
