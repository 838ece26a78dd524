-- ===== src/Program.antt =====
-- How a C++ function of the messenger ends, and functions that change a state. `exit(1)` ends the
-- process; `fault` is undefined behaviour, such as a read or a write outside an array; `blocked` is
-- a wait for something that the process itself does not bring about.
use blockchain_crypto_messan.Common.{◌≡◌, refl}

pub data Outcome {ℓ} (A : Type ℓ) : Type ℓ where
  returned : A → Outcome A
  exited : Outcome A
  fault : Outcome A
  blocked : Outcome A

-- What was written before the process ended stays written.
abbrev pub Exec {ℓ} : Type ℓ → Type ℓ → Type ℓ
Exec S A = S → Outcome A × S

module _ {ℓ} {S A : Type ℓ} where
  abbrev pub pure : A → Exec S A
  pure a s = (returned a, s)

  abbrev pub exit : Exec S A
  exit s = (exited, s)

  abbrev pub undefined : Exec S A
  undefined s = (fault, s)

  abbrev pub gets : (S → A) → Exec S A
  gets f s = (returned (f s), s)

module _ {ℓ} {S A B : Type ℓ} where
  abbrev pub proceed : (A → Exec S B) → Outcome A × S → Outcome B × S
  proceed next (returned value, after) = next value after
  proceed next (exited, after) = (exited, after)
  proceed next (fault, after) = (fault, after)
  proceed next (blocked, after) = (blocked, after)

  infixl 10 ◌>>=◌ ◌>>◌
  unfoldable pub ◌>>=◌ : Exec S A → (A → Exec S B) → Exec S B
  ◌>>=◌ part next before = proceed next (part before)

  abbrev pub ◌>>◌ : Exec S A → Exec S B → Exec S B
  m >> n = m >>= λ _. n

  -- A part that returns hands its value and its state to the rest.
  pub >>=-returned :
      (m : Exec S A) (f : A → Exec S B) (s : S) {a : A} {t : S}
      → m s ≡ (returned a, t)
      → (m >>= f) s ≡ f a t
  unfolding ◌>>=◌
  >>=-returned m f s e = rw e

  -- A part that waits forever keeps the rest from running.
  pub >>=-blocked :
      (m : Exec S A) (f : A → Exec S B) (s : S) {t : S}
      → m s ≡ (blocked, t)
      → (m >>= f) s ≡ (blocked, t)
  unfolding ◌>>=◌
  >>=-blocked m f s e = rw e

  -- Where the whole returned, each part did.
  pub proceed-inv :
      (f : A → Exec S B) (r : Outcome A × S) {b : B} {t : S}
      → proceed f r ≡ (returned b, t)
      → (a : A) × (s' : S) × (r ≡ (returned a, s')) × (f a s' ≡ (returned b, t))
  proceed-inv f (returned a, s') h = (a, s', refl, h)
  proceed-inv f (exited, s') h = cc
  proceed-inv f (fault, s') h = cc
  proceed-inv f (blocked, s') h = cc

  pub >>=-inv :
      (m : Exec S A) (f : A → Exec S B) (s : S) {b : B} {t : S}
      → (m >>= f) s ≡ (returned b, t)
      → (a : A) × (s' : S) × (m s ≡ (returned a, s')) × (f a s' ≡ (returned b, t))
  unfolding ◌>>=◌
  >>=-inv m f s h = proceed-inv f (m s) h

pub pure-inv {ℓ} :
    {S A : Type ℓ} (a : A) (s : S) {b : A} {t : S} → pure a s ≡ (returned b, t) → a ≡ b
pure-inv a s h = cc
