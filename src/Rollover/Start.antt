-- ===== src/Rollover/Start.antt =====
-- The first write of an attempt, whose directory is not there yet.
use alpha_agent.Rollover.Accepted.{Accepted-validate, allowed_name, new_plain}
use alpha_agent.Rollover.Order.{check_sequence-Chain}
use alpha_agent.Rollover.Verdicts.{option_passes, refuse_passes}
use alpha_agent.Base.{
  ◌∙◌, is_lower_hex, ◌||◌, Option, String, str_eq, not, true, false, some, [], ◌∷◌, ◌≡◌, refl, ap,
}
use alpha_agent.Rollover.Schema.{Host, Directory, valid, prepared, refuse_if, wrong_path, ◌>>=◌}
use alpha_agent.Json.{Json, str, get, Fields, obj}
use alpha_agent.Rollover.Payload.{check_payload, equals}
use alpha_agent.Rollover.Files.{
  write_checked, write_attempt_phase, make_directory, check_place, check_sequence,
  validate_attempt_directory,
}
use alpha_agent.Rollover.Chain.{Chain}
use alpha_agent.Rollover.Facts.{check_payload-Facts}
use alpha_agent.Rollover.Write.{py_eq_refl, read-new_entry, written, with_file}

text_equals :
    (h : Host) (t : String) (o : Option Json) → o ≡ some (str t) → equals h (str t) o ≡ true
text_equals h t o e = rw e (py_eq_refl h (str t))

module _ (h : Host) (d : Directory) (x : Fields) (plan : Json) (gone : d.is_safe ≡ false)
    (missing : d.is_missing ≡ true) (ok : check_payload h x ≡ valid prepared)
    (hex : is_lower_hex 64 (h.sha256 (obj x)) ≡ true) (has_plan : get "plan" (obj x) ≡ some plan)
    (plan_digest : get "plan_sha256" (obj x) ≡ some (str (h.sha256 plan)))
    (named : get "attempt_id" (obj x) ≡ some (str d.name)) (parent : d.parent ≡ "attempts")
    (key : get "rollover_key" (obj x) ≡ some (str d.grandparent)) where
  -- The directory that `mkdir` makes.
  abbrev made : Directory
  made = record d { is_safe = true; is_missing = false; entries = [] }

  make_directory-made : make_directory d ≡ made
  make_directory-made = rw (gone, missing) refl

  place : check_place h (with_file h prepared x made) (written h prepared x) ≡ valid tt
  unfolding check_place refuse_if
  place = option_passes _ _ _ has_plan (
      refuse_passes _ _ _ (ap not (text_equals h (h.sha256 plan) _ plan_digest)) (
        refuse_passes _ _ _ (ap not (text_equals h d.name _ named))
          (ap (λ b. refuse_if b wrong_path) path)))
    where
      path :
          (not (str_eq d.parent "attempts")
            || not (equals h (str d.grandparent) (get "rollover_key" (obj x))))
          ≡ false
      path = rw (parent, text_equals h d.grandparent _ key) refl

  order : check_sequence h (written h prepared x) (written h prepared x ∷ []) ≡ valid tt
  order =
      let m = (check_payload-Facts h x ok).moment in
      (check_sequence-Chain h (written h prepared x) [] m.0 ok refl m.1).1
        (prepared, m.0, Chain.done)

  first_written :
      write_attempt_phase h d x
      ≡ (valid (written h prepared x), with_file h prepared x (make_directory d))
  unfolding write_attempt_phase
  first_written =
      ap (write_checked h d x) ok
      ∙ (rw (gone, missing)
          (ap (λ v. (v, with_file h prepared x made)) (read-new_entry h prepared x ok hex)))

  -- A prepared payload that is accepted, with a plan whose digest it names and with the names of the
  -- directory and of the path to it, is published where nothing has the directory's path, where its
  -- digest is 64 lower-case hexadecimal digits; and the directory that is created is accepted with
  -- its document alone.
  pub write_starts :
      (write_attempt_phase h d x
        ≡ (valid (written h prepared x), with_file h prepared x (make_directory d)))
      × (validate_attempt_directory h (with_file h prepared x (make_directory d))
          ≡ valid (written h prepared x ∷ []))
  unfolding ◌>>=◌
  write_starts = (
    first_written,
    rw make_directory-made (
        Accepted-validate h (with_file h prepared x made) (written h prepared x) [] (record {
          safe = refl;
          plain = rw (new_plain h prepared x) refl;
          allowed = rw (allowed_name h prepared x) refl;
          reading = rw (read-new_entry h prepared x ok hex) refl;
          start = refl;
          place = place;
          order = order;
        })),
  )
