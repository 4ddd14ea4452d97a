-- ===== src/Bundles/Laws.antt =====
-- What a build writes, and when the check is content.
use ucollection.Base.{
  ◌≡◌, ◌≢◌, refl, sym, ap, ◌∙◌, inl, inr, ◌↔◌, Text, List, [], ◌∷◌, ◌++◌, Bool, true, false, Option,
  some, All, text_beq, text_beq_iff, Bool-cases, Option-cases, arith,
}
use mathlib.Core.Path.{subst}
use ucollection.Bundles.{
  Target, out_dir, Request, request, Disk, write_file, Message, missing, drift, build_targets,
  compare_target, check_targets,
}

pub beq_ne : (s t : Text) → s ≢ t → text_beq s t ≡ false
beq_ne s t h = ground (arith, text_beq_iff s t)

module _ (esbuild : Request → Option Text) where
  pub build_targets-other :
      (dest dir name : Text) (ts : List Target) (disk : Disk)
      → dir ≢ dest
      → (build_targets esbuild dest ts disk).0.files dir name ≡ disk.files dir name
  unfolding build_targets
  build_targets-other dest dir name [] disk h = refl
  build_targets-other dest dir name (t ∷ ts) disk h = elim (Option-cases (esbuild (request t))) [
    | inl e ↦ rw (e, build_targets) refl
    | inr (text, e) ↦
        rw (e, build_targets)
          (build_targets-other dest dir name ts (write_file dest t.out text disk) h
            ∙ rw (beq_ne dir dest h) refl)
  ]

  -- The names of the outputs that are still to be written.
  abbrev pub Fresh : Text → List Target → Type 0
  Fresh name [] = Unit
  Fresh name (t ∷ ts) = (name ≢ t.out) × Fresh name ts

  abbrev pub Distinct : List Target → Type 0
  Distinct [] = Unit
  Distinct (t ∷ ts) = Fresh t.out ts × Distinct ts

  build_targets-kept :
      (dest name : Text) (ts : List Target) (disk : Disk)
      → Fresh name ts
      → (build_targets esbuild dest ts disk).0.files dest name ≡ disk.files dest name
  unfolding build_targets
  build_targets-kept dest name [] disk h = refl
  build_targets-kept dest name (t ∷ ts) disk (n, h) = elim (Option-cases (esbuild (request t))) [
    | inl e ↦ rw (e, build_targets) refl
    | inr (text, e) ↦
        rw (e, build_targets)
          (build_targets-kept dest name ts (write_file dest t.out text disk) h
            ∙ rw ((text_beq_iff dest dest).1 refl, beq_ne name t.out n) refl)
  ]

  abbrev pub Builds : Target → Type 0
  Builds t = (text : Text) × (esbuild (request t) ≡ some text)

  -- The directory holds what a build of the target gives.
  abbrev pub Holds : Text → Disk → Target → Type 0
  Holds dir disk t = disk.files dir t.out ≡ esbuild (request t)

  build_targets_step :
      (dest : Text) (t : Target) (ts : List Target) (disk : Disk) {text : Text}
      → esbuild (request t) ≡ some text
      → build_targets esbuild dest (t ∷ ts) disk
        ≡ build_targets esbuild dest ts (write_file dest t.out text disk)
  unfolding build_targets
  build_targets_step dest t ts disk e = rw (e, build_targets) refl

  abbrev pub Written : Text → List Target → Disk × Bool → Type 0
  Written dest ts result = (result.1 ≡ true) × All (Holds dest result.0) ts

  pub build_targets-Holds :
      (dest : Text) (ts : List Target) (disk : Disk)
      → Distinct ts
      → All Builds ts
      → Written dest ts (build_targets esbuild dest ts disk)
  unfolding build_targets
  build_targets-Holds dest [] disk d b = (refl, tt)
  build_targets-Holds dest (t ∷ ts) disk (n, d) ((text, e), b) =
      let written = write_file dest t.out text disk in
      let (done, all) = build_targets-Holds dest ts written d b in
      let first : (build_targets esbuild dest ts written).0.files dest t.out ≡ some text =
        build_targets-kept dest t.out ts written n
        ∙ rw ((text_beq_iff dest dest).1 refl, (text_beq_iff t.out t.out).1 refl) refl in
      subst (Written dest (t ∷ ts)) (sym (build_targets_step dest t ts disk e))
        (done, (first ∙ sym e, all))

-- Whether the committed file is the fresh one.
abbrev pub Same : Text → Disk → Target → Type 0
Same tmp disk t = disk.files out_dir t.out ≡ disk.files tmp t.out

said_nothing : (said more : List Message) → (said ++ more ≡ []) ↔ ((said ≡ []) × (more ≡ []))
said_nothing [] more = ((λ e. (refl, e)), (λ (_, e). e))
said_nothing (m ∷ said) more = ((λ e. absurd (cc e)), (λ (e, _). absurd (cc e)))

compare_target_lem :
    (tmp : Text) (t : Target) (disk : Disk) {fresh : Text}
    → disk.files tmp t.out ≡ some fresh
    → (said : List Message) × (compare_target tmp t disk ≡ some said)
      × ((said ≡ []) ↔ Same tmp disk t)
compare_target_lem tmp t disk {fresh} f = elim (Option-cases (disk.files out_dir t.out)) [
  | inl e ↦ (
    missing t.out ∷ [],
    rw (e, compare_target) refl,
    ((λ h. absurd (cc h)), (λ h. absurd (cc (h, e, f)))),
  )
  | inr (committed, e) ↦ elim (Bool-cases (text_beq committed fresh)) [
    | inl same ↦ (
      [],
      rw (e, f, same, compare_target) refl,
      ((λ h. e ∙ ap some ((text_beq_iff committed fresh).0 same) ∙ sym f), (λ h. refl)),
    )
    | inr other ↦ (
      drift t.out ∷ [],
      rw (e, f, other, compare_target) refl,
      (
        (λ h. absurd (cc h)),
        (λ h.
            let p : committed ≡ fresh = cc (e, f, h) in
            absurd (cc ((text_beq_iff committed fresh).1 p, other))),
      ),
    )
  ]
]

abbrev pub Read : Text → Disk → Target → Type 0
Read tmp disk t = (fresh : Text) × (disk.files tmp t.out ≡ some fresh)

pub check_targets_lem :
    (tmp : Text) (ts : List Target) (disk : Disk)
    → All (Read tmp disk) ts
    → (said : List Message) × (check_targets tmp ts disk ≡ (said, true))
      × ((said ≡ []) ↔ All (Same tmp disk) ts)
unfolding check_targets
check_targets_lem tmp [] disk _ = ([], refl, ((λ e. tt), (λ e. refl)))
check_targets_lem tmp (t ∷ ts) disk ((fresh, f), b) =
    let (said, e, same) = compare_target_lem tmp t disk f in
    let (more, e', same') = check_targets_lem tmp ts disk b in
    let (there, back) = said_nothing said more in
    (
      said ++ more,
      rw (e, e', check_targets) refl,
      ((λ h. (same.0 (there h).0, same'.0 (there h).1)), (λ (s, s'). back (same.1 s, same'.1 s'))),
    )
