-- ===== src/Alerts/Ends.antt =====
-- What a transaction that commits returns and leaves.
use alpha_agent.Base.{Bool, true, false, Option, none, some, ◌≡◌, refl, ap, if◌then◌else◌}
use alpha_agent.Alerts.Ledger.{
  Ledger, Error, Result, ok, err, Tx, ◌>>=◌, pure, raise_if, gets, or_raise,
}

abbrev pub Ends : {A : Type 0} → (A → Ledger → Type 0) → Result (A × Ledger) → Type 0
Ends Q (ok r) = Q r.0 r.1
Ends Q (err e) = Unit

-- A transaction that writes nothing.
abbrev pub Reads : {A : Type 0} → Tx A → Type 0
Reads m = (l : Ledger) → Ends (λ a l'. l' ≡ l) (m l)

pub Ends-ok :
    {A : Type 0} (Q : A → Ledger → Type 0) (r : Result (A × Ledger)) {a : A} {l' : Ledger}
    → Ends Q r
    → r ≡ ok (a, l')
    → Q a l'
Ends-ok Q r h e = rw e at h

pub Ends-map :
    {A : Type 0} (P Q : A → Ledger → Type 0) (r : Result (A × Ledger))
    → ((a : A) (l : Ledger) → P a l → Q a l)
    → Ends P r
    → Ends Q r
Ends-map P Q (ok r) f h = f r.0 r.1 h
Ends-map P Q (err e) f h = tt

pub Ends-raise_if :
    (Q : Unit {0} → Ledger → Type 0) (b : Bool) (e : Error) (l : Ledger)
    → (b ≡ false → Q tt l)
    → Ends Q (raise_if b e l)
Ends-raise_if Q true e l h = tt
Ends-raise_if Q false e l h = h refl

pub Ends-or_raise :
    {A : Type 0} (Q : A → Ledger → Type 0) (o : Option A) (e : Error) (l : Ledger)
    → ((a : A) → o ≡ some a → Q a l)
    → Ends Q (or_raise o e l)
Ends-or_raise Q none e l h = tt
Ends-or_raise Q (some a) e l h = h a refl

pub Ends-if :
    {A : Type 0} (Q : A → Ledger → Type 0) (b : Bool) (m n : Tx A) (l : Ledger)
    → (b ≡ true → Ends Q (m l))
    → (b ≡ false → Ends Q (n l))
    → Ends Q ((if b then m else n) l)
Ends-if Q true m n l h k = h refl
Ends-if Q false m n l h k = k refl

module _ {A B : Type 0} (Q : B → Ledger → Type 0) (m : Tx A) (f : A → Tx B) where
  pub Ends-bind : (l : Ledger) → Ends (λ a l'. Ends Q (f a l')) (m l) → Ends Q ((m >>= f) l)
  Ends-bind l h = go (m l) h
    where
      go :
          (r : Result (A × Ledger))
          → Ends (λ a l'. Ends Q (f a l')) r
          → Ends Q (elim r [ ok r ↦ f r.0 r.1 | err e ↦ err e ])
      go (ok r) k = k
      go (err e) k = tt

  -- After a part that writes nothing.
  pub Ends-after : (l : Ledger) → Reads m → ((a : A) → Ends Q (f a l)) → Ends Q ((m >>= f) l)
  Ends-after l r h = Ends-bind l (go (m l) (r l))
    where
      go : (x : Result (A × Ledger)) → Ends (λ a l'. l' ≡ l) x → Ends (λ a l'. Ends Q (f a l')) x
      go (ok x) e = rw e (h x.0)
      go (err e) k = tt

-- The rest of a transaction whose first part is known.
pub bind-ok :
    {A B : Type 0} (m : Tx A) (f : A → Tx B) (l : Ledger) {a : A} {l' : Ledger}
    → m l ≡ ok (a, l')
    → (m >>= f) l ≡ f a l'
bind-ok m f l e = ap (λ x. elim x [ ok r ↦ f r.0 r.1 | err e ↦ err e ]) e

pub Reads-bind :
    {A B : Type 0} (m : Tx A) (f : A → Tx B) → Reads m → ((a : A) → Reads (f a)) → Reads (m >>= f)
Reads-bind m f h k l = Ends-after (λ a l'. l' ≡ l) m f l h (λ a. k a l)

pub Reads-pure : {A : Type 0} (a : A) → Reads (pure a)
Reads-pure a l = refl

pub Reads-raise_if : (b : Bool) (e : Error) → Reads (raise_if b e)
Reads-raise_if b e l = Ends-raise_if _ b e l (λ _. refl)

pub Reads-gets : {A : Type 0} (f : Ledger → A) → Reads (gets f)
Reads-gets f l = refl

pub Reads-or_raise : {A : Type 0} (o : Option A) (e : Error) → Reads (or_raise o e)
Reads-or_raise o e l = Ends-or_raise _ o e l (λ _ _. refl)

pub Reads-if : {A : Type 0} (b : Bool) (m n : Tx A) → Reads m → Reads n → Reads (if b then m else n)
Reads-if true m n h k = h
Reads-if false m n h k = k

pub ruleset reads_rules =
    (Reads-bind, Reads-pure, Reads-raise_if, Reads-gets, Reads-or_raise, Reads-if)
