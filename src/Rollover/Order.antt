-- ===== src/Rollover/Order.antt =====
-- The loop of `validate_attempt_directory` and the two tests after it, against `Chain`.
use alpha_agent.Rollover.Steps.{
  Passes-Proper, step-Passes, step_or_skip, lacks, Skips, Complete, Proper,
}
use alpha_agent.Rollover.Verdicts.{
  option_passes, refuse_end_passes, refuse_end, refuse_passes, refuse_inv, verdict_inv, valid_inj,
  verdict_passes,
}
use alpha_agent.Base.{
  ◌↔◌, ◌∙◌, ℕ, suc, ◌≤◌, Bool, true, false, some, List, [], ◌∷◌, ◌≡◌, refl, sym, inl, inr, ltb, leb,
  arith, Bool-cases,
}
use alpha_agent.Rollover.Schema.{
  Host, Phase, Document, valid, prepared, outputs_published, active_swapped, verified,
  recovered_rolled_back, sequence,
}
use alpha_agent.Rollover.Payload.{time_of, check_payload}
use alpha_agent.Rollover.Files.{
  no_scan, same_phase, Scan, check_documents, check_document, check_sequence,
}
use alpha_agent.Rollover.Chain.{Chain}
use alpha_agent.Rollover.Facts.{check_payload-Facts, Facts}
use alpha_agent.Rollover.Rounds.{
  own_identity, check_document-Round, Round-check_document, after_round,
}

-- A sequence that follows the description is accepted.
Chain-accepted :
    (h : Host) (p : Document) (i : ℕ) (ds : List Document) (s : Scan) {q r : Phase} {t v : ℕ}
    → Facts h p.payload
    → Proper q t s
    → Chain h p q t ds r v
    → (s' : Scan) × (check_documents h p (suc i) ds s ≡ valid s') × Complete s'.seen
unfolding check_documents
Chain-accepted h p i [] s f b Chain.done = (s, refl, b.complete)
Chain-accepted h p i (d ∷ ds) s {q = q} {t = t} f b (Chain.next u st bd m k c) =
    let a = step-Passes st in
    let rest =
      Chain-accepted h p (suc i) ds (after_round d u s) f (Passes-Proper q t u d s a b) c in
    (
      rest.0,
      verdict_passes _ _
          (Round-check_document h p d i s u f (record {
            fresh = rw (b.seen a.live) a.fresh;
            live = b.terminal ∙ a.live;
            bound = bd;
            above = rw b.last a.above;
            moment = m;
            in_time = rw b.time (ground arith);
          }))
          rest.1,
      rest.2,
    )

same_phase-sequence : (m n : Phase) → same_phase m n ≡ true → sequence m ≡ sequence n
same_phase-sequence prepared prepared e = refl
same_phase-sequence outputs_published outputs_published e = refl
same_phase-sequence active_swapped active_swapped e = refl
same_phase-sequence verified verified e = refl
same_phase-sequence recovered_rolled_back recovered_rolled_back e = refl
same_phase-sequence _ _ e = absurd cc

still-Skips :
    (m n r : Phase) (l : List Phase) (k : ℕ)
    → Skips m n l k
    → leb (sequence r) k ≡ false
    → Skips m n (r ∷ l) (sequence r)
still-Skips m n r l k (a, b, c) e = elim (Bool-cases (same_phase n r)) [
  | inl x ↦ absurd (let y = same_phase-sequence n r x in ground (arith, y, c, e))
  | inr x ↦ (
    elim (Bool-cases (same_phase m r)) [ inl y ↦ rw y refl | inr y ↦ rw y a ],
    rw x b,
    ground (arith, c, e),
  )
]

Skips-last :
    (h : Host) (p : Document) (i : ℕ) (m n : Phase) (ds : List Document) (s : Scan) {s' : Scan}
    → Facts h p.payload
    → Skips m n s.seen s.last_sequence
    → check_documents h p (suc i) ds s ≡ valid s'
    → lacks m n s'.seen ≡ true
unfolding check_documents
Skips-last h p i m n [] s f k e = rw (← valid_inj e) (rw (k.0, k.1) refl)
Skips-last h p i m n (d ∷ ds) s f k e =
    let a = verdict_inv _ _ e in
    let b = check_document-Round h p d i s f a.1 in
    Skips-last h p (suc i) m n ds (after_round d b.0 s) f
      (still-Skips m n d.phase s.seen s.last_sequence k b.1.above) (rw b.2 at a.2)

-- An accepted sequence follows the description.
accepted-Chain :
    (h : Host) (p : Document) (i : ℕ) (ds : List Document) (s : Scan) {s' : Scan} (q : Phase)
    (t : ℕ)
    → Facts h p.payload
    → Proper q t s
    → check_documents h p (suc i) ds s ≡ valid s'
    → Complete s'.seen
    → (r : Phase) × (v : ℕ) × Chain h p q t ds r v
unfolding check_documents
accepted-Chain h p i [] s q t f b e c = (q, t, Chain.done)
accepted-Chain h p i (d ∷ ds) s q t f b e c =
    let a = verdict_inv _ _ e in
    let x = check_document-Round h p d i s f a.1 in
    let rest = rw x.2 at a.2 in
    let live = sym b.terminal ∙ x.1.live in
    let above = rw b.last at x.1.above in
    elim (step_or_skip q d.phase live above) [
      | inl st ↦
          let r =
            accepted-Chain h p (suc i) ds (after_round d x.0 s) d.phase x.0 f
              (Passes-Proper q t x.0 d s (step-Passes st) b) rest c in
          (
            r.0,
            r.1,
            Chain.next x.0 st x.1.bound x.1.moment (in_order t x.0 (rw b.time at x.1.in_time)) r.2,
          )
      | inr (inl k) ↦ absurd (
          clash c.0 (
            Skips-last h p (suc i) active_swapped outputs_published ds (after_round d x.0 s) f
              (rw (b.seen live) k) rest))
      | inr (inr k) ↦ absurd (
          clash c.1 (
            Skips-last h p (suc i) verified active_swapped ds (after_round d x.0 s) f
              (rw (b.seen live) k) rest))
    ]
  where
    in_order : (t u : ℕ) → ltb u t ≡ false → t ≤ u
    in_order t u e = ground arith

    clash : {b : Bool} → b ≡ false → b ≡ true → ⊥
    clash x y = absurd cc

first_round :
    (h : Host) (p : Document) (t : ℕ)
    → Facts h p.payload
    → p.phase ≡ prepared
    → time_of h p.payload ≡ some t
    → check_document h p 0 p no_scan ≡ valid (after_round p t no_scan)
unfolding check_document
first_round h p t f k m = refuse_passes _ _ _ refl (
    refuse_passes _ _ _ refl (
      refuse_passes _ _ _ (own_identity h p f) (
        refuse_passes _ _ _ (rw k refl)
          (option_passes _ _ _ m (refuse_passes _ _ _ refl (refuse_passes _ _ _ refl refl))))))

first-Proper :
    (p : Document) (t : ℕ) → p.phase ≡ prepared → Proper prepared t (after_round p t no_scan)
first-Proper p t k = record {
  last = rw k refl;
  time = refl;
  terminal = rw k refl;
  seen = λ _. rw k refl;
  complete = (rw k refl, rw k refl);
}

-- Where the prepared document has a payload that is accepted and was recorded at `t`, it and documents
-- after it pass the loop and the tests after it exactly when those documents form a chain: each
-- phase is one that may follow the phase before it, each document is bound to the prepared one, and
-- the times do not go back.
pub check_sequence-Chain :
    (h : Host) (p : Document) (ds : List Document) (t : ℕ)
    → check_payload h p.payload ≡ valid prepared
    → p.phase ≡ prepared
    → time_of h p.payload ≡ some t
    → (check_sequence h p (p ∷ ds) ≡ valid tt) ↔ (r : Phase) × (v : ℕ) × Chain h p prepared t ds r v
unfolding check_sequence check_documents
check_sequence-Chain h p ds t e k m = (onward, back)
  where
    f : Facts h p.payload
    f = check_payload-Facts h p.payload e

    onward :
        check_sequence h p (p ∷ ds) ≡ valid tt → (r : Phase) × (v : ℕ) × Chain h p prepared t ds r v
    onward c =
        let a = verdict_inv _ _ c in
        let b = verdict_inv _ _ a.1 in
        let w = valid_inj (sym b.1 ∙ first_round h p t f k m) in
        let x = refuse_inv _ _ _ a.2 in
        let y = refuse_end _ _ x.1 in
        accepted-Chain h p 0 ds (after_round p t no_scan) prepared t f (first-Proper p t k)
          (rw w at b.2) (x.0, y)

    back :
        ((r : Phase) × (v : ℕ) × Chain h p prepared t ds r v)
        → check_sequence h p (p ∷ ds) ≡ valid tt
    back (r, v, c) =
        let a = Chain-accepted h p 0 ds (after_round p t no_scan) f (first-Proper p t k) c in
        verdict_passes _ _ (verdict_passes _ _ (first_round h p t f k m) a.1)
          (refuse_passes _ _ _ a.2.0 (refuse_end_passes _ _ a.2.1))
