-- ===== src/Alerts/Safety/Advance.antt =====
-- What a transaction may do to the outbox, and the rules for the steps that transactions are
-- composed of.
use alpha_agent.Base.{
  ℕ, ◌+◌, Bool, true, false, Option, none, some, List, [], ◌∷◌, ◌++◌, String, ◌≡◌, refl, inl, inr,
  All, Grows, All-update, All-append, Grows-refl, Grows-trans, Grows-update, Grows-append, exists,
  update, if◌then◌else◌, Bool-cases,
}
use alpha_agent.Alerts.Schema.{Message}
use alpha_agent.Alerts.Ledger.{
  Ledger, Error, Result, ok, err, Tx, ◌>>=◌, pure, raise_if, gets, modify, or_raise, fresh_id,
}
use alpha_agent.Alerts.Safety.Rows.{IsConsistent, Keeps, Keeps-refl, Keeps-trans}
use alpha_agent.Alerts.Safety.Ids.{Distinct, has_id, Distinct-update, Distinct-append}

-- The outbox has distinct identifiers, and every row is consistent.
pub record WellFormed (l : Ledger) : Type 0 where
  pub distinct : Distinct l.outbox
  pub rows : All IsConsistent l.outbox

-- From a well-formed ledger to a well-formed ledger, whose outbox has every row at its place,
-- changed at most as `Keeps` allows.
abbrev pub Advances : Ledger → Ledger → Type 0
Advances l l' = WellFormed l → WellFormed l' × Grows Keeps l.outbox l'.outbox

-- A transaction that raises is rolled back.
abbrev pub Post : {A : Type 0} → Ledger → Result (A × Ledger) → Type 0
Post l (ok r) = Advances l r.1
Post l (err e) = Unit

abbrev pub Safe : {A : Type 0} → Tx A → Type 0
Safe m = (l : Ledger) → Post l (m l)

pub Advances-refl : (l : Ledger) → Advances l l
Advances-refl l w = (w, Grows-refl Keeps Keeps-refl l.outbox)

pub Advances-trans : (a b c : Ledger) → Advances a b → Advances b c → Advances a c
Advances-trans a b c h k w =
    let (v, g) = h w in
    let (x, g') = k v in (x, Grows-trans Keeps Keeps-trans a.outbox b.outbox c.outbox g g')

-- A write to another table.
pub Advances-same : (l l' : Ledger) → l'.outbox ≡ l.outbox → Advances l l'
Advances-same l l' e w = (
  record { distinct = rw e w.distinct; rows = rw e w.rows },
  rw e (Grows-refl Keeps Keeps-refl l.outbox),
)

-- An UPDATE of the outbox, whose assignment keeps the key and each consistent row that it is for.
pub Advances-update :
    (p : Message → Bool) (f : Message → Message) (l : Ledger)
    → ((m : Message) → (f m).notification_id ≡ m.notification_id)
    → ((m : Message) → p m ≡ true → IsConsistent m → IsConsistent (f m))
    → ((m : Message) → p m ≡ true → Keeps m (f m))
    → Advances l (record l { outbox = update p f l.outbox })
Advances-update p f l same row keep w = (
  record {
    distinct = Distinct-update p f l.outbox same w.distinct;
    rows = All-update IsConsistent p f l.outbox (λ m h t. row m t h) w.rows;
  },
  Grows-update Keeps p f Keeps-refl keep l.outbox,
)

-- The same with what is known of the rows of this table.
pub Grows-update_where :
    (K : Message → Type 0) (p : Message → Bool) (f : Message → Message) (ms : List Message)
    → ((m : Message) → K m → p m ≡ true → Keeps m (f m))
    → All K ms
    → Grows Keeps ms (update p f ms)
Grows-update_where K p f [] keep k = tt
Grows-update_where K p f (m ∷ ms) keep k = elim (Bool-cases (p m)) [
  | inl e ↦ rw e (keep m k.0 e, Grows-update_where K p f ms keep k.1)
  | inr e ↦ rw e (Keeps-refl m, Grows-update_where K p f ms keep k.1)
]

All-update_where :
    (K : Message → Type 0) (p : Message → Bool) (f : Message → Message) (ms : List Message)
    → ((m : Message) → K m → p m ≡ true → IsConsistent m → IsConsistent (f m))
    → All K ms
    → All IsConsistent ms
    → All IsConsistent (update p f ms)
All-update_where K p f [] keep k h = tt
All-update_where K p f (m ∷ ms) keep k h = elim (Bool-cases (p m)) [
  | inl e ↦ rw e (keep m k.0 e h.0, All-update_where K p f ms keep k.1 h.1)
  | inr e ↦ rw e (h.0, All-update_where K p f ms keep k.1 h.1)
]

pub Advances-update_where :
    (K : Message → Type 0) (p : Message → Bool) (f : Message → Message) (l : Ledger)
    → ((m : Message) → (f m).notification_id ≡ m.notification_id)
    → ((m : Message) → K m → p m ≡ true → IsConsistent m → IsConsistent (f m))
    → ((m : Message) → K m → p m ≡ true → Keeps m (f m))
    → All K l.outbox
    → Advances l (record l { outbox = update p f l.outbox })
Advances-update_where K p f l same row keep k w = (
  record {
    distinct = Distinct-update p f l.outbox same w.distinct;
    rows = All-update_where K p f l.outbox row k w.rows;
  },
  Grows-update_where K p f l.outbox keep k,
)

-- A new row with a key of its own.
pub Advances-append :
    (m : Message) (l : Ledger)
    → exists (has_id m.notification_id) l.outbox ≡ false
    → IsConsistent m
    → Advances l (record l { outbox = l.outbox ++ m ∷ [] })
Advances-append m l e h w = (
  record {
    distinct = Distinct-append l.outbox m e w.distinct;
    rows = All-append IsConsistent l.outbox (m ∷ []) w.rows (h, tt);
  },
  Grows-append Keeps Keeps-refl l.outbox (m ∷ []),
)

module _ {A B : Type 0} where
  -- A bind is safe if its parts are; the rest may use what the first part returned.
  pub Post-bind :
      (m : Tx A) (f : A → Tx B) (l : Ledger)
      → Post l (m l)
      → ((a : A) (l' : Ledger) → m l ≡ ok (a, l') → Post l' (f a l'))
      → Post l ((m >>= f) l)
  Post-bind m f l h k = go (m l) refl
    where
      join : (l' : Ledger) (r : Result (B × Ledger)) → Advances l l' → Post l' r → Post l r
      join l' (ok r) g h' = Advances-trans l l' r.1 g h'
      join l' (err e) g h' = tt

      go :
          (r : Result (A × Ledger)) → m l ≡ r → Post l (elim r [ ok r ↦ f r.0 r.1 | err e ↦ err e ])
      go (ok r) e = join r.1 (f r.0 r.1) (rw e at h) (k r.0 r.1 e)
      go (err e) q = tt

  pub Safe-bind : (m : Tx A) (f : A → Tx B) → Safe m → ((a : A) → Safe (f a)) → Safe (m >>= f)
  Safe-bind m f h k l = Post-bind m f l (h l) (λ a l' _. k a l')

-- What every successful end of a transaction does.
pub Post-intro :
    {A : Type 0} (l : Ledger) (r : Result (A × Ledger))
    → ((a : A) (l' : Ledger) → r ≡ ok (a, l') → Advances l l')
    → Post l r
Post-intro l (ok (a, l')) h = h a l' refl
Post-intro l (err e) h = tt

-- A transaction may be taken to begin at a well-formed ledger.
pub Post-assume :
    {A : Type 0} (l : Ledger) (r : Result (A × Ledger)) → (WellFormed l → Post l r) → Post l r
Post-assume l (ok r) h = λ w. h w w
Post-assume l (err e) h = tt

pub Safe-pure : {A : Type 0} (a : A) → Safe (pure a)
Safe-pure a l = Advances-refl l

pub Safe-raise_if : (b : Bool) (e : Error) → Safe (raise_if b e)
Safe-raise_if true e l = tt
Safe-raise_if false e l = Advances-refl l

pub Safe-gets : {A : Type 0} (f : Ledger → A) → Safe (gets f)
Safe-gets f l = Advances-refl l

pub Safe-or_raise : {A : Type 0} (o : Option A) (e : Error) → Safe (or_raise o e)
Safe-or_raise none e l = tt
Safe-or_raise (some a) e l = Advances-refl l

pub Safe-fresh_id : (u : ℕ → String) (prefix : String → String) → Safe (fresh_id u prefix)
Safe-fresh_id u prefix l = Advances-same l (record l { drawn = l.drawn + 1 }) refl

pub Safe-modify : (f : Ledger → Ledger) → ((l : Ledger) → Advances l (f l)) → Safe (modify f)
Safe-modify f h l = h l

pub Safe-if : {A : Type 0} (b : Bool) (m n : Tx A) → Safe m → Safe n → Safe (if b then m else n)
Safe-if true m n h k = h
Safe-if false m n h k = k

pub ruleset safe_rules =
    (Safe-bind, Safe-pure, Safe-raise_if, Safe-gets, Safe-or_raise, Safe-fresh_id, Safe-if)
