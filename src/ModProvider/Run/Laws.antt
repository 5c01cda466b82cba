-- ===== src/ModProvider/Run/Laws.antt =====
-- Properties that all events of a run have, and inversion of a run that returned.
use pulumi_terraform_module.Prelude.{◌≡◌, refl, Bool, true, ◌&&◌, List, [], ◌∷◌, ◌++◌, arith}
use pulumi_terraform_module.Prelude.Outcome.{Outcome, ok, err, panic}
use pulumi_terraform_module.ModProvider.Run.{Event, Run, continue, ◌>>=◌}

abbrev pub all {ℓ} : {A : Type ℓ} → (A → Bool) → List A → Bool
all p [] = true
all p (x ∷ xs) = p x && all p xs

pub all-append {ℓ} :
    {A : Type ℓ} (p : A → Bool) (xs ys : List A)
    → all p xs ≡ true
    → all p ys ≡ true
    → all p (xs ++ ys) ≡ true
all-append p [] ys h k = k
all-append p (x ∷ xs) ys h k = ground (arith, all-append p xs ys)

module _ {Struct A B : Type 0} where
  all-continue :
      (p : Event Struct → Bool) (es : List (Event Struct)) (o : Outcome A) (f : A → Run Struct B)
      → all p es ≡ true
      → ((a : A) → all p ((f a).events) ≡ true)
      → all p ((continue es o f).events) ≡ true
  all-continue p es (ok a) f h k = all-append p es ((f a).events) h (k a)
  all-continue p es (err e) f h k = h
  all-continue p es panic f h k = h

  pub all->>= :
      (p : Event Struct → Bool) (m : Run Struct A) (f : A → Run Struct B)
      → all p m.events ≡ true
      → ((a : A) → all p ((f a).events) ≡ true)
      → all p ((m >>= f).events) ≡ true
  unfolding ◌>>=◌
  all->>= p m f h k = all-continue p m.events m.result f h k

  continue-eq-ok :
      (es : List (Event Struct)) (o : Outcome A) (f : A → Run Struct B) {b : B}
      → (continue es o f).result ≡ ok b
      → (a : A) × (o ≡ ok a)
        × ((f a).result ≡ ok b)
        × ((continue es o f).events ≡ es ++ (f a).events)
  continue-eq-ok es (ok a) f h = (a, refl, h, refl)
  continue-eq-ok es (err e) f h = cc
  continue-eq-ok es panic f h = cc

  -- A run in sequence that returned.
  pub result->>= :
      (m : Run Struct A) (f : A → Run Struct B) {b : B}
      → (m >>= f).result ≡ ok b
      → (a : A) × (m.result ≡ ok a)
        × ((f a).result ≡ ok b)
        × ((m >>= f).events ≡ m.events ++ (f a).events)
  unfolding ◌>>=◌
  result->>= m f h = continue-eq-ok m.events m.result f h
