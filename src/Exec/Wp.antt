-- ===== src/Exec/Wp.antt =====
-- Reasoning about a step from what is seen of the state before it. `Wp see σ m Q E` says: where
-- the state is seen as `σ`, `m` ends in a result and a seen state for which `Q` holds, or in an
-- error and a seen state for which `E` holds.
use code_storm.Prelude.{refl, ◌∙◌, ap, sym, subst, if◌then◌else◌, Bool, true, false, ◌≡◌}
use code_storm.Exec.Ensures.{
  Ensures, Performs, command-Ensures, any-Ensures, weaken-Ensures, ignored-Ensures,
  attempted-Ensures, zoomed-Ensures, both-Ensures,
}
use code_storm.Error.{ReconcilerError, Result, ok, err}
use code_storm.Exec.{Exec, pure, raise, lift, gets, modify, ignore, continue, ◌>>=◌, zoom, attempt}

pub record Wp {S V A : Type 0} (see : S → V) (σ : V) (m : Exec S A) (Q : A → V → Type 0)
    (E : V → Type 0) : Type 0 where
  pub at : (s : S) → see s ≡ σ → Ensures see Q E (m s)

-- The step is a command with this reply and effect.
pub record Obeys {S V A : Type 0} (see : S → V) (Fails : V → Type 0) (P : V → A → Type 0)
    (eff : A → V → V) (m : Exec S A) : Type 0 where
  pub at : (s : S) → Performs see Fails P eff (see s) (m s)

module _ {S V A B : Type 0} (see : S → V) (Q : B → V → Type 0) (E : V → Type 0) where
  pub continue-Ensures :
      (r : Result A × S) (f : A → Exec S B)
      → Ensures see (λ a τ. Wp see τ (f a) Q E) E r
      → Ensures see Q E (continue r.0 f r.1)
  continue-Ensures (ok a, s) f h = h.at s refl
  continue-Ensures (err e, s) f h = h

-- The error of an attempt is any.
pub wp-attempt :
    {S V A : Type 0} {see : S → V} {σ : V} {Q : Result A → V → Type 0} {E : V → Type 0}
    (m : Exec S A)
    → Wp see σ m (λ a τ. Q (ok a) τ) (λ τ. (e : ReconcilerError) → Q (err e) τ)
    → Wp see σ (attempt m) Q E
unfolding attempt
wp-attempt {see = see} {Q = Q} m h = record { at = λ s e. attempted-Ensures see Q (m s) (h.at s e) }

module _ {S V A : Type 0} {see : S → V} {σ : V} {Q : A → V → Type 0} {E : V → Type 0} where
  pub wp-pure : (a : A) → Q a σ → Wp see σ (pure a) Q E
  unfolding pure
  wp-pure a q = record { at = λ s e. subst (Q a) (sym e) q }

  pub wp-raise : (e : ReconcilerError) → E σ → Wp see σ (raise e) Q E
  unfolding raise
  wp-raise e q = record { at = λ s p. subst E (sym p) q }

  pub wp-lift-ok : (r : Result A) (a : A) → r ≡ ok a → Q a σ → Wp see σ (lift r) Q E
  unfolding lift
  wp-lift-ok r a h q = record { at = λ s e. rw h (subst (Q a) (sym e) q) }

  -- What holds in any case holds after any step.
  pub wp-any : (m : Exec S A) → ((a : A) (τ : V) → Q a τ) → ((τ : V) → E τ) → Wp see σ m Q E
  wp-any m q f = record { at = λ s e. any-Ensures see Q E (m s) q f }

  pub wp-if :
      (b : Bool) (m n : Exec S A)
      → (b ≡ true → Wp see σ m Q E)
      → (b ≡ false → Wp see σ n Q E)
      → Wp see σ (if b then m else n) Q E
  wp-if true m n p q = p refl
  wp-if false m n p q = q refl

  -- The rule of a command.
  pub wp-command :
      {Fails : V → Type 0} {P : V → A → Type 0} {eff : A → V → V} {m : Exec S A}
      → Obeys see Fails P eff m
      → ((a : A) → P σ a → Q a (eff a σ))
      → (Fails σ → E σ)
      → ((a : A) → Fails σ → P σ a → E (eff a σ))
      → Wp see σ m Q E
  wp-command {Fails} {P} {eff} {m} law q f g = record {
    at = λ s e.
        command-Ensures see Q E Fails P eff σ (m s)
          (subst (λ τ. Performs see Fails P eff τ (m s)) e (law.at s)) q f g;
  }

  pub wp-gets :
      (f : S → A) (g : V → A) → ((s : S) → f s ≡ g (see s)) → Q (g σ) σ → Wp see σ (gets f) Q E
  unfolding gets
  wp-gets f g h q = record { at = λ s e. rw (h s) (subst (λ τ. Q (g τ) τ) (sym e) q) }

  pub wp-weaken :
      {R : A → V → Type 0} {F : V → Type 0} {m : Exec S A}
      → Wp see σ m R F
      → ((a : A) (τ : V) → R a τ → Q a τ)
      → ((τ : V) → F τ → E τ)
      → Wp see σ m Q E
  wp-weaken {R} {F} {m} h q f = record {
    at = λ s e. weaken-Ensures see R F Q E (m s) (h.at s e) q f;
  }

-- What two judgements say of a step holds together.
pub wp-both :
    {S V A : Type 0} {see : S → V} {σ : V} {Q R : A → V → Type 0} {E G : V → Type 0} {m : Exec S A}
    → Wp see σ m Q E
    → Wp see σ m R G
    → Wp see σ m (λ a τ. Q a τ × R a τ) (λ τ. E τ × G τ)
wp-both {see = see} {Q = Q} {R} {E} {G} {m} h k = record {
  at = λ s e. both-Ensures see Q R E G (m s) (h.at s e) (k.at s e);
}

module _ {S V A B : Type 0} {see : S → V} {σ : V} {Q : B → V → Type 0} {E : V → Type 0} where
  pub wp-bind :
      (m : Exec S A) (f : A → Exec S B)
      → Wp see σ m (λ a τ. Wp see τ (f a) Q E) E
      → Wp see σ (m >>= f) Q E
  unfolding ◌>>=◌
  wp-bind m f h = record { at = λ s e. continue-Ensures see Q E (m s) f (h.at s e) }

module _ {S V : Type 0} {see : S → V} {σ : V} {Q : Unit {0} → V → Type 0} {E : V → Type 0} where
  -- A step whose error is dropped has to be right on both ways out.
  pub wp-ignore :
      (m : Exec S (Unit {0})) → Wp see σ m (λ _ τ. Q tt τ) (λ τ. Q tt τ) → Wp see σ (ignore m) Q E
  unfolding ignore
  wp-ignore m h = record { at = λ s e. ignored-Ensures see (Q tt) (m s) (h.at s e) }

  pub wp-modify :
      (f : S → S) (g : V → V)
      → ((s : S) → see (f s) ≡ g (see s))
      → Q tt (g σ)
      → Wp see σ (modify f) Q E
  unfolding modify
  wp-modify f g h q = record { at = λ s e. subst (Q tt) (sym (h s ∙ ap g e)) q }

-- A step of a part of the state, seen as a part of what is seen.
pub wp-zoom :
    {S T V W A : Type 0} {see : S → V} {look : T → W} (get : S → T) (put : T → S → S) (part : V → W)
    (replace : W → V → V)
    → ((s : S) → look (get s) ≡ part (see s))
    → ((s : S) (t : T) → see (put t s) ≡ replace (look t) (see s))
    → {σ : V} {Q : A → V → Type 0} {E : V → Type 0} {m : Exec T A}
    → Wp look (part σ) m (λ a w. Q a (replace w σ)) (λ w. E (replace w σ))
    → Wp see σ (zoom get put m) Q E
unfolding zoom
wp-zoom {see = see} {look = look} get put part replace hget hput {σ} {Q} {E} {m} h = record {
  at = λ s e. zoomed-Ensures see look put replace Q E s (hput s) (m (get s)) (
      (subst (λ τ. Wp look (part τ) m (λ a w. Q a (replace w τ)) (λ w. E (replace w τ))) (sym e)
          h).at
        (get s) (hget s));
}
