-- ===== src/Markets/Lookup.antt =====
-- `market` after `register_market`.
use alpha_agent.Markets.Invariant.{market_registered}
use alpha_agent.Markets.Outcomes.{done_inj, outcome_inv}
use alpha_agent.Markets.Checks.{identifier}
use alpha_agent.Base.{
  ◌≡◌, refl, sym, ap, inl, inr, Bool, Bool-cases, Option, some, List, [], ◌∷◌, String, str_eq,
  eq_iff, if◌then◌else◌, not, select, exists, first, ◌∙◌, first-append_new,
}
use mathlib.Core.Bool.{true, false}
use alpha_agent.Markets.Schema.{Outcome}
use alpha_agent.Markets.Schema.{Python, Store, Market, done, ◌>>=◌}
use alpha_agent.Markets.Registry.{register_market, market, replace, with_market}

unselected : {A : Type 0} (p : A → Bool) (l : List A) → exists p (select (λ r. not (p r)) l) ≡ false
unselected p [] = refl
unselected p (x ∷ xs) = elim (Bool-cases (p x)) [
  | inl e ↦ rw e (unselected p xs)
  | inr e ↦ rw (e, unselected p xs, e) refl
]

-- The rows with another key than the new row are found as before.
first-other :
    {A : Type 0} (key : A → String) (a : A) (o : String) (l : List A)
    → str_eq (key a) o ≡ false
    → first (λ r. str_eq (key r) o) (replace (λ r. str_eq (key r) (key a)) a l)
      ≡ first (λ r. str_eq (key r) o) l
first-other key a o [] h = rw h refl
first-other key a o (x ∷ xs) h = elim (Bool-cases (str_eq (key x) (key a))) [
  | inl e ↦
      let k : str_eq (key x) o ≡ false =
        ap (λ (s : String). str_eq s o) ((eq_iff (key x) (key a)).0 e) ∙ h in
      rw (e, k) (first-other key a o xs h)
  | inr e ↦ elim (Bool-cases (str_eq (key x) o)) [
    | inl k ↦ rw (e, k) refl
    | inr k ↦ rw (e, k) (first-other key a o xs h)
  ]
]

first-replace :
    {A : Type 0} (key : A → String) (a : A) (o : String) (l : List A)
    → first (λ r. str_eq (key r) o) (replace (λ r. str_eq (key r) (key a)) a l)
      ≡ (if str_eq (key a) o then some a else first (λ r. str_eq (key r) o) l)
first-replace {A} key a o l = elim (Bool-cases (str_eq (key a) o)) [
  | inr e ↦ first-other key a o l e ∙ (rw e refl)
  | inl e ↦ same ((eq_iff (key a) o).0 e) e
]
  where
    same :
        key a ≡ o
        → str_eq (key a) o ≡ true
        → first (λ r. str_eq (key r) o) (replace (λ r. str_eq (key r) (key a)) a l)
          ≡ (if str_eq (key a) o then some a else first (λ r. str_eq (key r) o) l)
    same f e =
        ap (λ (s : String). first (λ r. str_eq (key r) o) (replace (λ r. str_eq (key r) s) a l)) f
        ∙ first-append_new (λ r. str_eq (key r) o) (select (λ r. not (str_eq (key r) o)) l) a
            (unselected (λ r. str_eq (key r) o) l) e
        ∙ (rw e refl)

market_lem :
    (st : Store) (asked o : String)
    → identifier asked ≡ done o
    → market st asked ≡ done (first (λ r. str_eq r.market_id o) st.markets)
unfolding market ◌>>=◌
market_lem st asked o f = rw f refl

stored_first :
    (st : Store) (row : Market) (o : String)
    → first (λ r. str_eq r.market_id o) (with_market st row).markets
      ≡ (if str_eq row.market_id o then some row else first (λ r. str_eq r.market_id o) st.markets)
unfolding with_market
stored_first st row o = first-replace (λ (r : Market). r.market_id) row o st.markets

market_registered_name :
    (py : Python) (st st' : Store) (row : Market)
    (market_id country_code base_currency zone default_venue_id source : String)
    → register_market py st market_id country_code base_currency zone default_venue_id source
      ≡ done (row, st')
    → identifier market_id ≡ done row.market_id
unfolding register_market
market_registered_name py st st' row mi cc' b z d s e =
    let a = outcome_inv _ _ e in
    let b = outcome_inv _ _ a.2 in
    let c = outcome_inv _ _ b.2 in
    let f = outcome_inv _ _ c.2 in
    let g = outcome_inv _ _ f.2 in
    let h = outcome_inv _ _ g.2 in
    a.1 ∙ ap (λ (x : Market × Store). done x.0.market_id) (done_inj h.2)

-- After the registration of a market, `market` finds it under its identifier, which is that of the
-- argument, and gives for every other identifier what it gave before.
pub market_found :
    (py : Python) (st st' : Store) (row : Market)
    (market_id country_code base_currency zone default_venue_id source asked o : String)
    → register_market py st market_id country_code base_currency zone default_venue_id source
      ≡ done (row, st')
    → identifier asked ≡ done o
    → (identifier market_id ≡ done row.market_id)
      × (market st' asked ≡ (if str_eq row.market_id o then done (some row) else market st asked))
market_found py st st' row mi cc' b z d s asked o e f = (
  registered_name,
  market_lem st' asked o f
      ∙ ap (λ (q : Store). done (first (λ r. str_eq r.market_id o) q.markets))
          (market_registered py st st' row mi cc' b z d s e)
      ∙ ap done (stored_first st row o)
      ∙ chosen (str_eq row.market_id o),
)
  where
    registered_name : identifier mi ≡ done row.market_id
    registered_name = market_registered_name py st st' row mi cc' b z d s e

    chosen :
        (c : Bool)
        → ◌≡◌ {A = Outcome (Option Market)}
            (done (if c then some row else first (λ r. str_eq r.market_id o) st.markets))
            (if c then done (some row) else market st asked)
    chosen true = refl
    chosen false = sym (market_lem st asked o f)
