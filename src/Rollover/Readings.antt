-- ===== src/Rollover/Readings.antt =====
-- The files of a directory: what each document says of its file, and the order of their names.
use alpha_agent.Rollover.Verdicts.{verdict_passes, valid_inj, verdict_inv, option_inv, refuse_inv}
use alpha_agent.Base.{
  eq_iff, sort_by, insert_by, ℕ, ◌≤◌, ◌<◌, true, false, List, [], ◌∷◌, ◌++◌, str_eq, ◌≡◌, refl, ap,
  inl, inr, ltb, arith, Bool-cases, All,
}
use alpha_agent.Rollover.Schema.{
  Host, Phase, Document, Entry, valid, file_name, sequence, prepared, outputs_published,
  active_swapped, verified, recovered_rolled_back, is_terminal,
}
use alpha_agent.Rollover.Payload.{check_payload}
use alpha_agent.Rollover.Files.{read_attempt_phase, has_name, comes_first, read_all}
use alpha_agent.Rollover.Chain.{Chain, Step}
use alpha_agent.Rollover.Facts.{not_inv}
use Prim.Native.String.{compare as compare_text}
use Prim.Native.Nat.{Ordering}

-- What a document that was read says of its file.
pub record Reading (h : Host) (e : Entry) (d : Document) : Type 0 where
  pub payload_valid : check_payload h d.payload ≡ valid d.phase
  pub name_of_phase : e.name ≡ file_name d.phase

pub read-Reading :
    (h : Host) (e : Entry) {d : Document} → read_attempt_phase h e ≡ valid d → Reading h e d
unfolding read_attempt_phase
read-Reading h e {d} m =
    let a = refuse_inv _ _ _ m in
    let b = option_inv _ _ _ a.1 in
    let c = option_inv _ _ _ b.2 in
    let i = refuse_inv _ _ _ c.2 in
    let j = option_inv _ _ _ i.1 in
    let k = verdict_inv _ _ j.2 in
    let l = refuse_inv _ _ _ k.2 in
    let n = refuse_inv _ _ _ l.1 in
    let o = valid_inj n.1 in
    rw (← o) (record {
      payload_valid = k.1;
      name_of_phase = (eq_iff e.name (file_name k.0)).0 (not_inv n.0);
    })

-- The files of the phases before one stand before its file.
pub names_in_order :
    (s q : Phase) (a b : Entry)
    → a.name ≡ file_name s
    → b.name ≡ file_name q
    → ltb (sequence s) (sequence q) ≡ true
    → (comes_first a b ≡ true) × (has_name (file_name q) a ≡ false)
names_in_order s q a b x y k = rw (x, y) (go s q k)
  where
    go :
        (s q : Phase)
        → ltb (sequence s) (sequence q) ≡ true
        → (elim (compare_text (file_name s) (file_name q)) [ Ordering.gt ↦ false | _ ↦ true ]
            ≡ true)
          × (str_eq (file_name s) (file_name q) ≡ false)
    go prepared outputs_published k = (refl, refl)
    go prepared active_swapped k = (refl, refl)
    go prepared verified k = (refl, refl)
    go prepared recovered_rolled_back k = (refl, refl)
    go outputs_published active_swapped k = (refl, refl)
    go outputs_published verified k = (refl, refl)
    go outputs_published recovered_rolled_back k = (refl, refl)
    go active_swapped verified k = (refl, refl)
    go active_swapped recovered_rolled_back k = (refl, refl)
    go prepared prepared k = absurd cc
    go outputs_published prepared k = absurd cc
    go outputs_published outputs_published k = absurd cc
    go active_swapped prepared k = absurd cc
    go active_swapped outputs_published k = absurd cc
    go active_swapped active_swapped k = absurd cc
    go verified prepared k = absurd cc
    go verified outputs_published k = absurd cc
    go verified active_swapped k = absurd cc
    go verified verified k = absurd cc
    go verified recovered_rolled_back k = absurd cc
    go recovered_rolled_back prepared k = absurd cc
    go recovered_rolled_back outputs_published k = absurd cc
    go recovered_rolled_back active_swapped k = absurd cc
    go recovered_rolled_back verified k = absurd cc
    go recovered_rolled_back recovered_rolled_back k = absurd cc

-- The file of an earlier phase than `q`.
abbrev pub Earlier : Phase → Entry → Type 0
Earlier q e = (s : Phase) × (e.name ≡ file_name s) × (sequence s < sequence q)

pub Step-later : {q r : Phase} → Step q r → sequence q < sequence r
Step-later Step.publishes = omega arith
Step-later Step.swaps = omega arith
Step-later Step.verifies = omega arith
Step-later (Step.rolls_back {q} e) = go q e
  where
    go : (q : Phase) → is_terminal q ≡ false → sequence q < 4
    go prepared e = omega arith
    go outputs_published e = omega arith
    go active_swapped e = omega arith
    go _ e = absurd cc

pub Chain-later :
    {h : Host} {p : Document} {q r : Phase} {t v : ℕ} (ds : List Document)
    → Chain h p q t ds r v
    → (sequence q ≤ sequence r) × All (λ d. sequence d.phase ≤ sequence r) ds
Chain-later ds Chain.done = (omega arith, tt)
Chain-later (d ∷ ds) (Chain.next u st b m k c) =
    let a = Step-later st in let r = Chain-later ds c in (omega arith, (r.0, r.1))

pub read_all-Earlier :
    (h : Host) (q : Phase) (es : List Entry) (ds : List Document)
    → read_all h es ≡ valid ds
    → All (λ d. sequence d.phase < sequence q) ds
    → All (Earlier q) es
read_all-Earlier h q [] ds e k = tt
read_all-Earlier h q (x ∷ es) ds e k =
    let a = verdict_inv _ _ e in
    let b = verdict_inv _ _ a.2 in
    let c = rw (← valid_inj b.2) at k in
    let g = read-Reading h x a.1 in
    ((a.0.phase, g.name_of_phase, c.0), read_all-Earlier h q es b.0 b.1 c.1)

pub insert_by-end :
    (x e : Entry) (xs : List Entry)
    → comes_first x e ≡ true
    → insert_by comes_first x (xs ++ (e ∷ [])) ≡ insert_by comes_first x xs ++ (e ∷ [])
insert_by-end x e [] k = rw k refl
insert_by-end x e (y ∷ xs) k = elim (Bool-cases (comes_first x y)) [
  | inl m ↦ rw m refl
  | inr m ↦ rw m (ap (λ l. y ∷ l) (insert_by-end x e xs k))
]

pub sort_by-end :
    (e : Entry) (xs : List Entry)
    → All (λ x. comes_first x e ≡ true) xs
    → sort_by comes_first (xs ++ (e ∷ [])) ≡ sort_by comes_first xs ++ (e ∷ [])
sort_by-end e [] k = refl
sort_by-end e (x ∷ xs) k =
    rw (sort_by-end e xs k.1) (insert_by-end x e (sort_by comes_first xs) k.0)

pub read_all-append :
    (h : Host) (es : List Entry) (e : Entry) (ds : List Document) (d : Document)
    → read_all h es ≡ valid ds
    → read_attempt_phase h e ≡ valid d
    → read_all h (es ++ (e ∷ [])) ≡ valid (ds ++ (d ∷ []))
read_all-append h [] e ds d k m =
    rw (← valid_inj k) (verdict_passes _ _ m (verdict_passes _ _ refl refl))
read_all-append h (x ∷ es) e ds d k m =
    let a = verdict_inv _ _ k in
    let b = verdict_inv _ _ a.2 in
    rw (← valid_inj b.2)
      (verdict_passes _ _ a.1 (verdict_passes _ _ (read_all-append h es e b.0 d b.1 m) refl))
