-- ===== src/Base/Exec.antt =====
-- Methods that change an object and may raise. What was written before a raise stays written, so
-- the state comes back beside the error.
use mathlib.Core.Path.{◌≡◌, ◌∙◌, refl}
use mathlib.Core.Bool.{Bool, true, false}
use compilableworld_runtime.Base.Compare.{if◌then◌else◌}
use compilableworld_runtime.Base.Raising.{Outcome, ok, err}

abbrev pub Exec {ℓ} : Type ℓ → Type ℓ → Type ℓ → Type ℓ
Exec S E A = S → Outcome E A × S

module _ {ℓ} {S E A : Type ℓ} where
  abbrev pub pure : A → Exec S E A
  pure a s = (ok a, s)

  abbrev pub raise : E → Exec S E A
  raise e s = (err e, s)

  abbrev pub lift : Outcome E A → Exec S E A
  lift o s = (o, s)

module _ {ℓ} {S E A B : Type ℓ} where
  abbrev pub continue : Outcome E A → (A → Exec S E B) → Exec S E B
  continue (ok a) f s = f a s
  continue (err e) f s = (err e, s)

  infixl 5 ◌>>=◌ ◌>>◌
  abbrev pub ◌>>=◌ : Exec S E A → (A → Exec S E B) → Exec S E B
  ◌>>=◌ m f s = let r = m s in continue r.0 f r.1

  abbrev pub ◌>>◌ : Exec S E A → Exec S E B → Exec S E B
  m >> k = m >>= λ _. k

-- The states before and after a step are related by `R`, whether it returns or raises.
module _ {ℓ} {S E A B : Type ℓ} (R : S → S → Type ℓ) where
  pub after_lift :
      (o : Outcome E A) (f : A → Exec S E B) (s : S)
      → R s s
      → ((a : A) → o ≡ ok a → R s (f a s).1)
      → R s (continue o f s).1
  after_lift (ok a) f s same k = k a refl
  after_lift (err e) f s same k = same

  pub after_bind :
      ((s t u : S) → R s t → R t u → R s u)
      → (m : Exec S E A) (f : A → Exec S E B) (s : S) → R s (m s).1
      → ((a : A) → (m s).0 ≡ ok a → R (m s).1 (f a (m s).1).1)
      → R s ((m >>= f) s).1
  after_bind trans m f s first rest = go (m s).0 refl
    where
      go : (o : Outcome E A) → (m s).0 ≡ o → R s (continue o f (m s).1).1
      go (ok a) e = trans s (m s).1 (f a (m s).1).1 first (rest a e)
      go (err x) e = first

module _ {ℓ} {S E A : Type ℓ} (R : S → S → Type ℓ) where
  pub after_if :
      (b : Bool) (p q : Outcome E A × S) (s : S)
      → (b ≡ true → R s p.1)
      → (b ≡ false → R s q.1)
      → R s (if b then p else q).1
  after_if true p q s h k = h refl
  after_if false p q s h k = k refl

-- A value comes out of a sequence only if it comes out of each part.
module _ {ℓ} {S E A B : Type ℓ} where
  pub continue-ok :
      (o : Outcome E A) (f : A → Exec S E B) (s : S) {b : B}
      → (continue o f s).0 ≡ ok b
      → (a : A) × (o ≡ ok a) × ((f a s).0 ≡ ok b)
  continue-ok (ok a) f s h = (a, refl, h)
  continue-ok (err e) f s h = cc

  pub bind-ok :
      (m : Exec S E A) (f : A → Exec S E B) (s : S) {b : B}
      → ((m >>= f) s).0 ≡ ok b
      → (a : A) × ((m s).0 ≡ ok a) × ((f a (m s).1).0 ≡ ok b)
  bind-ok m f s h = continue-ok (m s).0 f (m s).1 h

-- A part of the state that no step changes.
module _ {ℓ κ} {S E A B : Type ℓ} {X : Type κ} (part : S → X) where
  pub part_bind :
      (m : Exec S E A) (f : A → Exec S E B) (s : S)
      → part (m s).1 ≡ part s
      → ((a : A) (t : S) → part (f a t).1 ≡ part t)
      → part ((m >>= f) s).1 ≡ part s
  part_bind m f s h k = go (m s).0
    where
      go : (o : Outcome E A) → part (continue o f (m s).1).1 ≡ part s
      go (ok a) = k a (m s).1 ∙ h
      go (err e) = h
