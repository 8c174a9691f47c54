-- ===== src/Storage/Ensures.antt =====
-- What holds of the value of a call that returns no error.
use mini_graph_db.Prelude.{◌≡◌, refl}
use mini_graph_db.Storage.{Result, ok, err, ◌>>=◌, Error}

pub record Ensures {ℓ} {A : Type ℓ} (r : Result A) (P : A → Type 0) : Type ℓ where
  pub holds : (a : A) → r ≡ ok a → P a

pub Ensures-ok {ℓ} : {A : Type ℓ} {P : A → Type 0} {a : A} → P a → Ensures (ok a) P
Ensures-ok {P} {a} p = record { holds = λ x e. let same : a ≡ x = cc in rw (← same) p }

pub Ensures-err {ℓ} : {A : Type ℓ} {P : A → Type 0} {e : Error} → Ensures {A = A} (err e) P
Ensures-err = record { holds = λ x e. absurd (cc) }

pub Ensures-bind {ℓ κ} :
    {A : Type ℓ} {B : Type κ} {m : Result A} {f : A → Result B} {P : A → Type 0} {Q : B → Type 0}
    → Ensures m P
    → ((a : A) → P a → Ensures (f a) Q)
    → Ensures (m >>= f) Q
Ensures-bind {m = ok a} h k = k a (h.holds a refl)
Ensures-bind {m = err e} h k = Ensures-err

-- A call whose value does not matter.
pub Ensures-after {ℓ κ} :
    {A : Type ℓ} {B : Type κ} (m : Result A) {f : A → Result B} {Q : B → Type 0}
    → ((a : A) → Ensures (f a) Q)
    → Ensures (m >>= f) Q
Ensures-after (ok a) k = k a
Ensures-after (err e) k = Ensures-err

pub Ensures-itself : {A : Type 0} (r : Result A) → Ensures r (λ a. r ≡ ok a)
Ensures-itself r = record { holds = λ a e. e }

pub both-Ensures {ℓ} :
    {A : Type ℓ} {r : Result A} {P Q : A → Type 0}
    → Ensures r P
    → Ensures r Q
    → Ensures r (λ a. P a × Q a)
both-Ensures p q = record { holds = λ a e. (p.holds a e, q.holds a e) }
