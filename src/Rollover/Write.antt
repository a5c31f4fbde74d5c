-- ===== src/Rollover/Write.antt =====
-- What `write_attempt_phase` leaves, and that `read_attempt_phase` reads it back.
use alpha_agent.Rollover.Verdicts.{option_passes, verdict_passes, refuse_passes}
use alpha_agent.Base.{
  Bool-cases, first, ◌∙◌, first-append_new, first-none, exists, eq_refl, is_lower_hex, ℕ, not, Bool,
  true, false, none, some, [], ◌∷◌, ◌++◌, ◌≡◌, refl, ap, inl, inr, arith, Option-cases,
}
use alpha_agent.Rollover.Schema.{
  invalid, Problem, Host, Phase, Document, Directory, Verdict, valid, ◌>>=◌, file_name,
}
use alpha_agent.Json.{get_field, Json, Items, Fields, obj, get}
use alpha_agent.Rollover.Values.{
  only_keys, has_key, has_keys, same_keys, as_number, py_eq, py_fields_eq, py_items_eq, number_eq,
}
use alpha_agent.Rollover.Payload.{check_payload}
use alpha_agent.Rollover.Files.{
  write_checked, unless_other, is_envelope, write_attempt_phase, read_attempt_phase, new_entry,
  publish, has_name,
}

number_eq_refl : (a : Bool × ℕ) → number_eq a a ≡ true
number_eq_refl (true, n) = ground arith
number_eq_refl (false, n) = ground arith

mutual
  unfolding py_eq as_number

  pub py_eq_refl : (h : Host) (j : Json) → py_eq h j j ≡ true
  py_eq_refl h Json.null = refl
  py_eq_refl h (Json.str s) = eq_refl s
  py_eq_refl h (Json.arr i) = py_items_eq_refl h i
  py_eq_refl h (Json.obj r) = py_fields_eq_refl h r
  py_eq_refl h (Json.bool true) = refl
  py_eq_refl h (Json.bool false) = refl
  py_eq_refl h (Json.int s n) = number_eq_refl (s, n)
  py_eq_refl h (Json.float t) = elim (Option-cases (h.whole t)) [
    | inl e ↦ rw e (eq_refl t)
    | inr (a, e) ↦ rw e (number_eq_refl a)
  ]

  py_items_eq_refl : (h : Host) (i : Items) → py_items_eq h i i ≡ true
  py_items_eq_refl h Items.nil = refl
  py_items_eq_refl h (Items.cons a i) = rw (py_eq_refl h a, py_items_eq_refl h i) refl

  py_fields_eq_refl : (h : Host) (r : Fields) → py_fields_eq h r r ≡ true
  py_fields_eq_refl h Fields.end = refl
  py_fields_eq_refl h (Fields.field k v r) =
      rw (eq_refl k, py_eq_refl h v, py_fields_eq_refl h r) refl

-- The document that the new file is read as.
abbrev pub written : Host → Phase → Fields → Document
written h q r = record {
  file = file_name q;
  phase = q;
  payload = r;
  payload_sha256 = h.sha256 (obj r);
}

pub read-new_entry :
    (h : Host) (q : Phase) (r : Fields)
    → check_payload h r ≡ valid q
    → is_lower_hex 64 (h.sha256 (obj r)) ≡ true
    → read_attempt_phase h (new_entry h q r) ≡ valid (written h q r)
unfolding read_attempt_phase new_entry is_envelope get same_keys has_keys has_key only_keys
    get_field
read-new_entry h q r e x = refuse_passes _ _ _ refl (
    option_passes _ _ _ refl (
      option_passes _ _ _ refl (
        refuse_passes _ _ _ (ap not x) (
          option_passes _ _ _ refl (
            verdict_passes _ _ e (
              refuse_passes _ _ _ (ap not (eq_refl (h.sha256 (obj r))))
                (refuse_passes _ _ _ (ap not (eq_refl (file_name q))) refl)))))))

-- The directory with the new file.
abbrev pub with_file : Host → Phase → Fields → Directory → Directory
with_file h q r d = record d { entries = d.entries ++ (new_entry h q r ∷ []) }

same_document :
    (h : Host) (q : Phase) (r : Fields) (v : Verdict Document)
    → v ≡ valid (written h q r)
    → (v >>= unless_other h r) ≡ valid (written h q r)
same_document h q r v e =
    verdict_passes v _ e (refuse_passes _ _ _ (ap not (py_eq_refl h (obj r))) refl)

write-publish :
    (h : Host) (d : Directory) (q : Phase) (r : Fields)
    → check_payload h r ≡ valid q
    → d.is_safe ≡ true
    → write_attempt_phase h d r ≡ publish h q r d (first (has_name (file_name q)) d.entries)
unfolding write_attempt_phase
write-publish h d q r e s = ap (write_checked h d r) e ∙ (rw s refl)

publish-absent :
    (h : Host) (d : Directory) (q : Phase) (r : Fields)
    → check_payload h r ≡ valid q
    → is_lower_hex 64 (h.sha256 (obj r)) ≡ true
    → publish h q r d none ≡ (valid (written h q r), with_file h q r d)
publish-absent h d q r e x = ap (λ v. (v, with_file h q r d)) (read-new_entry h q r e x)

publish-present :
    (h : Host) (d : Directory) (q : Phase) (r : Fields)
    → check_payload h r ≡ valid q
    → is_lower_hex 64 (h.sha256 (obj r)) ≡ true
    → publish h q r d (some (new_entry h q r)) ≡ (valid (written h q r), d)
publish-present h d q r e x = ap (λ v. (v, d)) (same_document h q r _ (read-new_entry h q r e x))

-- A payload that is accepted, of a phase of which there is no file in a safe directory, is published
-- and read back, where its digest is 64 lower-case hexadecimal digits; published again it gives the
-- same document, and the directory stays as it is.
pub write_again :
    (h : Host) (d : Directory) (q : Phase) (r : Fields)
    → check_payload h r ≡ valid q
    → is_lower_hex 64 (h.sha256 (obj r)) ≡ true
    → d.is_safe ≡ true
    → exists (has_name (file_name q)) d.entries ≡ false
    → (write_attempt_phase h d r ≡ (valid (written h q r), with_file h q r d))
      × (write_attempt_phase h (with_file h q r d) r ≡ (valid (written h q r), with_file h q r d))
unfolding new_entry
write_again h d q r e x s n = (
  write-publish h d q r e s
      ∙ ap (publish h q r d) (first-none (has_name (file_name q)) d.entries n)
      ∙ publish-absent h d q r e x,
  write-publish h (with_file h q r d) q r e s
      ∙ ap (publish h q r (with_file h q r d)) (
          first-append_new (has_name (file_name q)) d.entries (new_entry h q r) n
            (eq_refl (file_name q)))
      ∙ publish-present h (with_file h q r d) q r e x,
)

-- A write that is refused leaves the directory as it was, where the payload's digest is 64 lower-case
-- hexadecimal digits.
pub refused_write :
    (h : Host) (d : Directory) (r : Fields) (p : Problem)
    → is_lower_hex 64 (h.sha256 (obj r)) ≡ true
    → (write_attempt_phase h d r).0 ≡ invalid p
    → (write_attempt_phase h d r).1 ≡ d
unfolding write_attempt_phase
refused_write h d r p x e = go (check_payload h r) refl e
  where
    go :
        (c : Verdict Phase)
        → check_payload h r ≡ c
        → (write_checked h d r c).0 ≡ invalid p
        → (write_checked h d r c).1 ≡ d
    go (invalid p) k m = refl
    go (valid q) k m = elim (Bool-cases d.is_safe) [
      | inr s ↦ elim (Bool-cases d.is_missing) [
        | inr a ↦ rw (s, a) refl
        | inl a ↦ absurd (let c = rw (s, a, read-new_entry h q r k x) at m in cc)
      ]
      | inl s ↦ elim (Option-cases (first (has_name (file_name q)) d.entries)) [
        | inr (f, o) ↦ rw (s, o) refl
        | inl o ↦ absurd (let c = rw (s, o, read-new_entry h q r k x) at m in cc)
      ]
    ]
