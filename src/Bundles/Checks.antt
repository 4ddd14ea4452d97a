-- ===== src/Bundles/Checks.antt =====
-- The two ways of running the script.
use mathlib.Core.Path.{subst}
use ucollection.Base.{
  ◌≡◌, ◌≢◌, refl, sym, ap, ◌∙◌, ◌↔◌, Text, List, [], ◌∷◌, Bool, true, false, Option, none, All,
  text_beq, text_beq_iff,
}
use ucollection.Bundles.{
  Target, targets, out_dir, Request, Disk, mkdir, Message, Ran, build_into, check_targets, checked,
  check_after, built_after, run,
}
use ucollection.Bundles.Laws.{
  beq_ne, Builds, Holds, Same, Read, Distinct, build_targets-other, build_targets-Holds,
  check_targets_lem,
}

ne_of_beq : (s t : Text) → text_beq s t ≡ false → s ≢ t
ne_of_beq s t h e = cc ((text_beq_iff s t).1 e, h)

targets-Distinct : (esbuild : Request → Option Text) → Distinct esbuild targets
unfolding text_beq
targets-Distinct esbuild =
    ((ne_of_beq _ _ refl, (ne_of_beq _ _ refl, tt)), ((ne_of_beq _ _ refl, tt), (tt, tt)))

-- How a check of the committed files ends.
pub record Checked (esbuild : Request → Option Text) (tmp : Text) (disk : Disk) (ran : Ran)
    : Type 0 where
  pub verdict : (ran.code ≡ 0) ↔ All (Holds esbuild out_dir disk) targets
  pub committed : (name : Text) → ran.disk.files out_dir name ≡ disk.files out_dir name
  pub removed : ran.code ≡ 0 → (name : Text) → ran.disk.files tmp name ≡ none
  pub left_over : ran.code ≢ 0 → All (Holds esbuild tmp ran.disk) targets

All-zip :
    (P Q R : Target → Type 0)
    → ((t : Target) → P t → Q t → R t)
    → (ts : List Target) → All P ts
    → All Q ts
    → All R ts
All-zip P Q R f [] _ _ = tt
All-zip P Q R f (t ∷ ts) (p, ps) (q, qs) = (f t p q, All-zip P Q R f ts ps qs)

module _ (esbuild : Request → Option Text) where
  after_done :
      (tmp : Text) (r : Disk × Bool)
      → r.1 ≡ true
      → check_after esbuild tmp r ≡ checked tmp (check_targets tmp targets r.0) r.0
  after_done tmp (disk, true) e = refl
  after_done tmp (disk, false) e = absurd (cc e)

  checked-Checked :
      (tmp : Text) (disk fresh : Disk) (said : List Message)
      → tmp ≢ out_dir
      → ((name : Text) → fresh.files out_dir name ≡ disk.files out_dir name)
      → All (Holds esbuild tmp fresh) targets
      → (said ≡ []) ↔ All (Holds esbuild out_dir disk) targets
      → Checked esbuild tmp disk (checked tmp (said, true) fresh)
  checked-Checked tmp disk fresh [] other kept held iff = record {
    verdict = ((λ e. iff.0 refl), (λ h. refl));
    committed = λ name. rw (beq_ne out_dir tmp (λ e. other (sym e))) (kept name);
    removed = λ e name. rw ((text_beq_iff tmp tmp).1 refl) refl;
    left_over = λ n. absurd (n refl);
  }
  checked-Checked tmp disk fresh (m ∷ more) other kept held iff = record {
    verdict = ((λ e. absurd (cc e)), (λ h. absurd (cc (iff.1 h))));
    committed = kept;
    removed = λ e. absurd (cc e);
    left_over = λ n. held;
  }

  reads :
      (tmp : Text) (disk : Disk) (t : Target)
      → Builds esbuild t
      → Holds esbuild tmp disk t
      → Read tmp disk t
  reads tmp disk t (text, e) h = (text, h ∙ e)

  -- If every build succeeds and the temporary directory is not the output directory, a run with
  -- `--check` leaves the committed files as they are and exits with 0 exactly if each committed
  -- file is what a fresh build gives. Then the fresh files have been removed; otherwise they are
  -- left over.
  pub run-Checked :
      (tmp : Text) (disk : Disk)
      → All (Builds esbuild) targets
      → tmp ≢ out_dir
      → Checked esbuild tmp disk (run esbuild true tmp disk)
  unfolding run
  run-Checked tmp disk builds other =
      let start = mkdir tmp (mkdir tmp disk) in
      let r = build_into esbuild tmp (mkdir tmp disk) in
      let (done, held) =
        build_targets-Holds esbuild tmp targets start (targets-Distinct esbuild) builds in
      let kept : (name : Text) → r.0.files out_dir name ≡ disk.files out_dir name =
        λ name. build_targets-other esbuild tmp out_dir name targets start (λ e. other (sym e)) in
      let (said, e, same) = check_targets_lem tmp targets r.0 (
        All-zip (Builds esbuild) (Holds esbuild tmp r.0) (Read tmp r.0) (reads tmp r.0) targets
          builds held) in
      subst (Checked esbuild tmp disk) (sym (after_done tmp r done ∙ ap (λ o. checked tmp o r.0) e))
        (checked-Checked tmp disk r.0 said other kept held (
          (λ h.
              All-zip (Same tmp r.0) (Holds esbuild tmp r.0) (Holds esbuild out_dir disk)
                (λ t s f. sym (kept t.out) ∙ s ∙ f) targets (same.0 h) held),
          (λ h. same.1 (
              All-zip (Holds esbuild out_dir disk) (Holds esbuild tmp r.0) (Same tmp r.0)
                (λ t s f. kept t.out ∙ s ∙ sym f) targets h held)),
        ))

  built_done :
      (r : Disk × Bool)
      → r.1 ≡ true
      → ((built_after esbuild r).code ≡ 0) × ((built_after esbuild r).disk ≡ r.0)
  built_done (disk, true) e = (refl, refl)
  built_done (disk, false) e = absurd (cc e)

  -- If every build succeeds, the script without `--check` exits with 0, and a check that follows
  -- it, with another directory as the temporary one, exits with 0 too.
  pub run_after_build :
      (tmp later : Text) (disk : Disk)
      → All (Builds esbuild) targets
      → later ≢ out_dir
      → let built = run esbuild false tmp disk in
        (built.code ≡ 0) × ((run esbuild true later built.disk).code ≡ 0)
  unfolding run
  run_after_build tmp later disk builds other =
      let r = build_into esbuild out_dir disk in
      let (done, held) =
        build_targets-Holds esbuild out_dir targets (mkdir out_dir disk) (targets-Distinct esbuild)
          builds in
      let (code, same) = built_done r done in
      (
        code,
        (run-Checked later _ builds other).verdict.1
            (subst (λ d. All (Holds esbuild out_dir d) targets) (sym same) held),
      )
