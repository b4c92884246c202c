-- ===== src/Exec/Keeps.antt =====
-- Steps that keep a part of what is seen, whether they end well or in an error: the part is a
-- relation between what is seen before and after that is reflexive and transitive.
use code_storm.Prelude.{Bool, List, [], ◌∷◌, if◌then◌else◌, subst, sym}
use code_storm.Error.{Result}
use code_storm.Exec.{Exec, pure, lift, ignore, ◌>>=◌, for_each}
use code_storm.Exec.Wp.{Wp, Obeys, wp-pure, wp-bind, wp-if, wp-ignore, wp-command, wp-weaken}

pub record IsFrame {V : Type 0} (R : V → V → Type 0) : Type 0 where
  pub stay : (v : V) → R v v
  pub onward : {u v w : V} → R u v → R v w → R u w

module _ {S V : Type 0} (see : S → V) (R : V → V → Type 0) where
  abbrev pub KeepsFrom : {A : Type 0} → V → Exec S A → Type 0
  KeepsFrom σ m = Wp see σ m (λ _ τ. R σ τ) (λ τ. R σ τ)

  abbrev pub Keeps : {A : Type 0} → Exec S A → Type 0
  Keeps m = (σ : V) → KeepsFrom σ m

module _ {S V : Type 0} {see : S → V} {R : V → V → Type 0} (frame : IsFrame R) where
  pub bind-KeepsFrom :
      {A B : Type 0} {σ : V} (m : Exec S A) (f : A → Exec S B)
      → KeepsFrom see R σ m
      → ((a : A) → Keeps see R (f a))
      → KeepsFrom see R σ (m >>= f)
  bind-KeepsFrom m f h k = wp-bind m f (
      wp-weaken h (λ a ρ r. wp-weaken (k a ρ) (λ _ τ s. frame.onward r s) (λ τ s. frame.onward r s))
        (λ τ r. r))

  pub bind-Keeps :
      {A B : Type 0} (m : Exec S A) (f : A → Exec S B)
      → Keeps see R m
      → ((a : A) → Keeps see R (f a))
      → Keeps see R (m >>= f)
  bind-Keeps m f h k σ = bind-KeepsFrom m f (h σ) k

  pub pure-Keeps : {A : Type 0} (a : A) → Keeps see R (pure a)
  pure-Keeps a σ = wp-pure a (frame.stay σ)

  pub lift-Keeps : {A : Type 0} (r : Result A) → Keeps see R (lift r)
  unfolding lift
  lift-Keeps (Result.ok a) σ = record { at = λ s e. subst (R σ) (sym e) (frame.stay σ) }
  lift-Keeps (Result.err x) σ = record { at = λ s e. subst (R σ) (sym e) (frame.stay σ) }

  pub if-Keeps :
      {A : Type 0} (b : Bool) (m n : Exec S A)
      → Keeps see R m
      → Keeps see R n
      → Keeps see R (if b then m else n)
  if-Keeps b m n h k σ = wp-if b m n (λ _. h σ) (λ _. k σ)

  pub ignore-Keeps : (m : Exec S (Unit {0})) → Keeps see R m → Keeps see R (ignore m)
  ignore-Keeps m h σ = wp-ignore m (h σ)

  pub for_each-Keeps :
      {A : Type 0} (body : A → Exec S (Unit {0})) (l : List A)
      → ((a : A) → Keeps see R (body a))
      → Keeps see R (for_each body l)
  unfolding for_each
  for_each-Keeps body [] h = pure-Keeps tt
  for_each-Keeps body (a ∷ l) h =
      bind-Keeps (body a) (λ _. for_each body l) (h a) (λ _. for_each-Keeps body l h)

  pub command-Keeps :
      {A : Type 0} {Fails : V → Type 0} {P : V → A → Type 0} {eff : A → V → V} {m : Exec S A}
      → Obeys see Fails P eff m
      → ((a : A) (v : V) → R v (eff a v))
      → Keeps see R m
  command-Keeps law h σ = wp-command law (λ a _. h a σ) (λ _. frame.stay σ) (λ a _ _. h a σ)
