-- ===== src/Exec/Ensures.antt =====
-- What holds of the result of a step and the state after it.
use code_storm.Prelude.{sym, subst, inl, inr, ◌≡◌, ◌⊎◌}
use code_storm.Error.{ReconcilerError, Result, ok, err}

abbrev pub Ensures :
    {S V A : Type 0} → (S → V) → (A → V → Type 0) → (V → Type 0) → Result A × S → Type 0
Ensures see Q E (ok a, s) = Q a (see s)
Ensures see Q E (err e, s) = E (see s)

-- A command of a service, by its documented reply and effect at the seen state `v` before it. One
-- that fails may or may not have taken effect.
abbrev pub Performs :
    {S V A : Type 0}
    → (S → V)
    → (V → Type 0)
    → (V → A → Type 0)
    → (A → V → V)
    → V
    → Result A × S
    → Type 0
Performs see Fails P eff v (ok a, s') = P v a × (see s' ≡ eff a v)
Performs {A = A} see Fails P eff v (err e, s') =
    Fails v × ((see s' ≡ v) ⊎ ((a : A) × P v a × (see s' ≡ eff a v)))

module _ {S V A : Type 0} (see : S → V) (Q : A → V → Type 0) (E : V → Type 0) where
  pub command-Ensures :
      (Fails : V → Type 0) (P : V → A → Type 0) (eff : A → V → V) (σ : V) (r : Result A × S)
      → Performs see Fails P eff σ r
      → ((a : A) → P σ a → Q a (eff a σ))
      → (Fails σ → E σ)
      → ((a : A) → Fails σ → P σ a → E (eff a σ))
      → Ensures see Q E r
  command-Ensures Fails P eff σ (ok a, s') (p, e) q f g = subst (Q a) (sym e) (q a p)
  command-Ensures Fails P eff σ (err x, s') (bad, inl e) q f g = subst E (sym e) (f bad)
  command-Ensures Fails P eff σ (err x, s') (bad, inr (a, p, e)) q f g = subst E (sym e) (g a bad p)

  pub any-Ensures :
      (r : Result A × S) → ((a : A) (τ : V) → Q a τ) → ((τ : V) → E τ) → Ensures see Q E r
  any-Ensures (ok a, s) q f = q a (see s)
  any-Ensures (err e, s) q f = f (see s)

  pub weaken-Ensures :
      (R : A → V → Type 0) (F : V → Type 0) (r : Result A × S)
      → Ensures see Q E r
      → ((a : A) (τ : V) → Q a τ → R a τ)
      → ((τ : V) → E τ → F τ)
      → Ensures see R F r
  weaken-Ensures R F (ok a, s) h q f = q a (see s) h
  weaken-Ensures R F (err e, s) h q f = f (see s) h

pub ignored-Ensures :
    {S V : Type 0} (see : S → V) (Q : V → Type 0) (r : Result (Unit {0}) × S)
    → Ensures see (λ _ τ. Q τ) Q r
    → Q (see r.1)
ignored-Ensures see Q (ok a, s) h = h
ignored-Ensures see Q (err e, s) h = h

pub attempted-Ensures :
    {S V A : Type 0} (see : S → V) (Q : Result A → V → Type 0) (r : Result A × S)
    → Ensures see (λ a τ. Q (ok a) τ) (λ τ. (e : ReconcilerError) → Q (err e) τ) r
    → Q r.0 (see r.1)
attempted-Ensures see Q (ok a, s) h = h
attempted-Ensures see Q (err e, s) h = h e

pub zoomed-Ensures :
    {S T V W A : Type 0} (see : S → V) (look : T → W) (put : T → S → S) (replace : W → V → V)
    (Q : A → V → Type 0) (E : V → Type 0) (s : S)
    → ((t : T) → see (put t s) ≡ replace (look t) (see s))
    → (r : Result A × T)
    → Ensures look (λ a w. Q a (replace w (see s))) (λ w. E (replace w (see s))) r
    → Ensures see Q E (r.0, put r.1 s)
zoomed-Ensures see look put replace Q E s hput (ok a, t) h = subst (Q a) (sym (hput t)) h
zoomed-Ensures see look put replace Q E s hput (err x, t) h = subst E (sym (hput t)) h

pub both-Ensures :
    {S V A : Type 0} (see : S → V) (Q R : A → V → Type 0) (E G : V → Type 0) (r : Result A × S)
    → Ensures see Q E r
    → Ensures see R G r
    → Ensures see (λ a τ. Q a τ × R a τ) (λ τ. E τ × G τ) r
both-Ensures see Q R E G (ok a, s) h k = (h, k)
both-Ensures see Q R E G (err e, s) h k = (h, k)
