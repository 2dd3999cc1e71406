-- ===== src/Prelude/Result.antt =====
-- Fallible code, and stateful code that may fail: what was written before a failure stays written.
use mathlib.Core.Option.{Option, none, some}

pub data Result {ℓ} (E A : Type ℓ) : Type ℓ where
  ok : A → Result E A
  err : E → Result E A

abbrev pub or_err {ℓ} : {E A : Type ℓ} → Option A → E → Result E A
or_err none e = err e
or_err (some a) e = ok a

abbrev pub map_err {ℓ} : {E F A : Type ℓ} → (E → F) → Result E A → Result F A
map_err f (ok a) = ok a
map_err f (err e) = err (f e)

abbrev pub Exec {ℓ} : Type ℓ → Type ℓ → Type ℓ → Type ℓ
Exec S E A = S → Result E A × S

module _ {ℓ} {S E A : Type ℓ} where
  abbrev pub pure : A → Exec S E A
  pure a s = (ok a, s)

  abbrev pub fail : E → Exec S E A
  fail e s = (err e, s)

  abbrev pub lift : Result E A → Exec S E A
  lift r s = (r, s)

  abbrev pub gets : (S → A) → Exec S E A
  gets f s = (ok (f s), s)

module _ {ℓ} {S E A B : Type ℓ} where
  abbrev pub continue : Result E A → (A → Exec S E B) → Exec S E B
  continue (ok a) f s = f a s
  continue (err e) f s = (err e, s)

  infixl 5 ◌>>=◌ ◌>>◌
  abbrev pub ◌>>=◌ : Exec S E A → (A → Exec S E B) → Exec S E B
  ◌>>=◌ m f s = let (r, s') = m s in continue r f s'

  abbrev pub ◌>>◌ : Exec S E A → Exec S E B → Exec S E B
  m >> n = m >>= λ _. n

-- A step that keeps I, in front of steps that lead from I to J, leads from I to J.
module _ {S E A B : Type 0} (I J : S → Type 0) where
  pub bind_leads :
      (m : Exec S E A) (f : A → Exec S E B)
      → ((s : S) → I s → J s)
      → ((s : S) → I s → I (m s).1)
      → ((a : A) (s : S) → I s → J (f a s).1)
      → (s : S) → I s
      → J ((m >>= f) s).1
  bind_leads m f weaker first rest s i = go (m s).0 (m s).1 (first s i)
    where
      go : (r : Result E A) (s' : S) → I s' → J (continue r f s').1
      go (ok a) s' i' = rest a s' i'
      go (err e) s' i' = weaker s' i'
