-- ===== src/Alerts/Effects/Exclusive.antt =====
-- One run of a job at a time.
use alpha_agent.Alerts.Reads.{check_text-Reads}
use alpha_agent.Alerts.Checks.{check_text}
use alpha_agent.Base.{
  ℕ, ◌+◌, Bool, true, false, none, List, [], ◌∷◌, ◌++◌, String, str_eq, ◌≡◌, refl, inl, inr, leb,
  ◌==◌, arith, Bool-cases, All,
}
use alpha_agent.Alerts.Ledger.{bad_pid, integrity, already_running, Ledger, ok, raise_if}
use Prim.Native.String.{◌++◌ as str_append}
use alpha_agent.Alerts.Schema.{running}
use alpha_agent.Json.{obj, end}
use alpha_agent.Base.{
  ◌∙◌, eq_iff, eq_refl, All-map, All-of_sort_by, All-update_both, select-exists, exists-sort_by,
  exists, update, select, sort_by,
}
use alpha_agent.Alerts.Schema.{JobRun}
use alpha_agent.Alerts.Jobs.{
  begin_job, interrupt_runs, insert_job, interrupt, is_owned, is_running_job, is_running_run,
}
use alpha_agent.Alerts.Ends.{
  Reads-raise_if, Ends, Ends-ok, Ends-bind, Ends-after, Ends-map, Ends-raise_if,
}

abbrev names_run : JobRun → JobRun → Bool
names_run j k = str_eq k.run_id j.run_id

-- Every running run of the job is among the rows that are still to be treated.
abbrev Listed : String → List JobRun → JobRun → Type 0
Listed name rows j = is_running_job name j ≡ true → exists (names_run j) rows ≡ true

interrupt-Listed :
    (name : String) (t : ℕ) (r : JobRun) (rows : List JobRun) (runs : List JobRun)
    → All (Listed name (r ∷ rows)) runs
    → All (Listed name rows) (update (is_running_run r.run_id) (interrupt t) runs)
interrupt-Listed name t r rows runs h =
    All-update_both (is_running_run r.run_id) (interrupt t) runs (λ j _ _ e. absurd (ground arith))
      (λ j k e f. later j (k f) e f) h
  where
    later :
        (j : JobRun)
        → exists (names_run j) (r ∷ rows) ≡ true
        → is_running_run r.run_id j ≡ false
        → is_running_job name j ≡ true
        → exists (names_run j) rows ≡ true
    later j k e f = ground (arith, eq_iff j.run_id r.run_id, eq_iff r.run_id j.run_id)

interrupt_runs-Ends :
    (alive : ℕ → Bool) (boot name : String) (t : ℕ) (rows : List JobRun) (l : Ledger)
    → All (Listed name rows) l.job_runs
    → Ends
        (λ _ l'.
          All (λ j. is_running_job name j ≡ false) l'.job_runs
          × All (λ j. is_owned alive boot j ≡ false) rows)
        (interrupt_runs alive boot t rows l)
unfolding interrupt_runs
interrupt_runs-Ends alive boot name t [] l h = (All-map l.job_runs unlisted h, tt)
  where
    unlisted : (j : JobRun) → Listed name [] j → is_running_job name j ≡ false
    unlisted j k = elim (Bool-cases (is_running_job name j)) [
      | inl e ↦ absurd (ground (arith, k e))
      | inr e ↦ e
    ]
interrupt_runs-Ends alive boot name t (r ∷ rows) l h =
    Ends-bind _ (raise_if (is_owned alive boot r) already_running) _ l (
      Ends-raise_if _ (is_owned alive boot r) already_running l λ e.
        Ends-map _ _ (interrupt_runs alive boot t rows l2) (λ _ l' k. (k.0, (e, k.1)))
          (interrupt_runs-Ends alive boot name t rows l2
            (interrupt-Listed name t r rows l.job_runs h)))
  where
    l2 : Ledger
    l2 = record l { job_runs = update (is_running_run r.run_id) (interrupt t) l.job_runs }

select-none :
    (name : String) (runs : List JobRun) (j : JobRun)
    → All (λ k. is_running_job name k ≡ false) runs
    → is_running_job name j ≡ true
    → select (is_running_job name) (runs ++ j ∷ []) ≡ j ∷ []
select-none name [] j h e = rw e refl
select-none name (k ∷ runs) j h e = rw h.0 (select-none name runs j h.1 e)

insert_job-Ends :
    (name : String) (j : JobRun) (l : Ledger)
    → All (λ k. is_running_job name k ≡ false) l.job_runs
    → is_running_job name j ≡ true
    → Ends (λ run l'. select (is_running_job name) l'.job_runs ≡ run ∷ []) (insert_job j l)
unfolding insert_job
insert_job-Ends name j l h e =
    Ends-bind _ (raise_if (exists (λ k. names_run j k) l.job_runs) integrity) _ l (
      Ends-raise_if _ (exists (λ k. names_run j k) l.job_runs) integrity l
        (λ _. select-none name l.job_runs j h e))

abbrev running_rows : String → List JobRun → List JobRun
running_rows name runs =
    sort_by (λ a b. leb b.started_at a.started_at) (select (is_running_job name) runs)

rows-Listed : (name : String) (runs : List JobRun) → All (Listed name (running_rows name runs)) runs
rows-Listed name runs =
    All-map runs
      (λ j h t.
        exists-sort_by (names_run j) (λ a b. leb b.started_at a.started_at)
          (select (is_running_job name) runs)
        ∙ h t)
      (select-exists (is_running_job name) names_run (λ j. eq_refl j.run_id) runs)

abbrev Alone : (ℕ → Bool) → String → String → Ledger → JobRun × List String → Ledger → Type 0
Alone alive boot name l r l' =
    (select (is_running_job name) l'.job_runs ≡ r.0 ∷ [])
    × All (λ j. is_owned alive boot j ≡ false) (select (is_running_job name) l.job_runs)

begun-Alone :
    (u : ℕ → String) (alive : ℕ → Bool) (name target : String) (pid : ℕ) (boot : String) (t : ℕ)
    (l : Ledger)
    → Ends (Alone alive boot name l) (begin_job u alive name target pid boot t l)
unfolding begin_job
begun-Alone u alive name target pid boot t l =
    Ends-after _ (check_text name) _ l (check_text-Reads name) λ _.
      Ends-after _ (check_text target) _ l (check_text-Reads target) λ _.
        Ends-after _ (raise_if (pid == 0) bad_pid) _ l (Reads-raise_if _ _) λ _.
          Ends-after _ (check_text boot) _ l (check_text-Reads boot) λ _.
            Ends-bind _ (interrupt_runs alive boot t rows) _ l2 (
              Ends-map _ _ (interrupt_runs alive boot t rows l2)
                (λ _ l' k. Ends-bind _ (insert_job run) _ l' (
                  Ends-map _ _ (insert_job run l')
                    (λ j l'' e.
                      (e, All-of_sort_by _ _ (select (is_running_job name) l.job_runs) k.1))
                    (insert_job-Ends name run l' k.0 (rw (eq_refl name) refl))))
                (interrupt_runs-Ends alive boot name t rows l2 (rows-Listed name l.job_runs)))
  where
    rows : List JobRun
    rows = running_rows name l.job_runs

    l2 : Ledger
    l2 = record l { drawn = l.drawn + 1 }

    run : JobRun
    run = record {
      run_id = str_append "job-" (u l.drawn);
      job_name = name;
      state = running;
      target_session = target;
      started_at = t;
      finished_at = none;
      owner_pid = pid;
      owner_boot_id = boot;
      detail = "The local workflow is in progress.";
      payload = obj end;
    }

-- When a job is begun, no run of it that was recorded as running had a live owner, and the run
-- that is returned is now the only one of the job that is recorded as running.
pub begin_job_exclusive :
    (u : ℕ → String) (alive : ℕ → Bool) (name target : String) (pid : ℕ) (boot : String) (t : ℕ)
    (l : Ledger) (r : JobRun × List String) (l' : Ledger)
    → begin_job u alive name target pid boot t l ≡ ok (r, l')
    → (select (is_running_job name) l'.job_runs ≡ r.0 ∷ [])
      × All (λ j. is_owned alive boot j ≡ false) (select (is_running_job name) l.job_runs)
begin_job_exclusive u alive name target pid boot t l r l' e =
    Ends-ok (Alone alive boot name l) (begin_job u alive name target pid boot t l)
      (begun-Alone u alive name target pid boot t l) e
