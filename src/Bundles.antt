-- ===== src/Bundles.antt =====
-- scripts/build-consolidation-sign.mjs: building the three bundles, and checking that the committed ones
-- are what a build gives. A file is named by its directory and its name. `esbuild`, a parameter, is the
-- text that a build of an entry gives, or nothing where it fails; `tmp` is what `mkdtempSync` returns.
pub mod Laws
pub mod Checks
mod Tests
use ucollection.Base.{
  ℕ, Text, codes, List, [], ◌∷◌, ◌++◌, Bool, true, false, ◌&&◌, Option, none, some, ◌==◌, text_eq,
  text_beq, if◌then◌else◌,
}

-- `NODE_BUILTIN_ALIASES`
abbrev node_builtin_aliases : List (Text × Text)
node_builtin_aliases =
    (codes "crypto", codes "crypto-browserify")
    ∷ (codes "stream", codes "stream-browserify")
    ∷ (codes "assert", codes "assert")
    ∷ (codes "buffer", codes "buffer")
    ∷ (codes "process", codes "process")
    ∷ (codes "events", codes "events")
    ∷ []

pub record Target : Type 0 where
  pub entry : Text
  pub out : Text

abbrev pub targets : List Target
targets =
    record { entry = codes "web/js-src/polyfill-entry.js"; out = codes "polyfill.bundle.js" }
    ∷ record { entry = codes "web/js-src/sign-entry.js"; out = codes "bundle.js" }
    ∷ record {
      entry = codes "web/js-src/masterwallet-entry.js";
      out = codes "masterwallet.bundle.js";
    }
    ∷ []

-- `outDir`, under the root of the repository.
abbrev pub out_dir : Text
out_dir = codes "web/static/js"

-- What `build` is asked for, but for the file that it writes.
pub record Request : Type 0 where
  pub entry_point : Text
  pub bundled : Bool
  pub platform : Text
  pub format : Text
  pub alias : List (Text × Text)
  pub define : List (Text × Text)

abbrev pub request : Target → Request
request t = record {
  entry_point = t.entry;
  bundled = true;
  platform = codes "browser";
  format = codes "iife";
  alias = node_builtin_aliases;
  define = (codes "global", codes "window") ∷ [];
}

pub record Disk : Type 0 where
  pub files : Text → Text → Option Text
  pub dirs : List Text

abbrev pub write_file : Text → Text → Text → Disk → Disk
write_file dir name text disk = record disk {
  files = λ d n. if text_beq d dir && text_beq n name then some text else disk.files d n;
}

-- `mkdirSync` and `mkdtempSync`
abbrev pub mkdir : Text → Disk → Disk
mkdir dir disk = record disk { dirs = dir ∷ disk.dirs }

abbrev remove_dir : Text → List Text → List Text
remove_dir dir [] = []
remove_dir dir (d ∷ dirs) = if text_beq d dir then remove_dir dir dirs else d ∷ remove_dir dir dirs

-- `rmSync(tmp, { recursive: true, force: true })`
abbrev pub rm : Text → Disk → Disk
rm dir disk = record {
  files = λ d n. if text_beq d dir then none else disk.files d n;
  dirs = remove_dir dir disk.dirs;
}

pub data Message : Type 0 where
  missing drift : Text → Message
  built passed : Message

-- The disk that is left, what was printed, and the exit code.
pub record Ran : Type 0 where
  pub disk : Disk
  pub printed : List Message
  pub code : ℕ

module _ (esbuild : Request → Option Text) where
  -- The loop of `buildInto`; the flag is false where a build threw.
  pub build_targets : Text → List Target → Disk → Disk × Bool
  build_targets dest [] disk = (disk, true)
  build_targets dest (t ∷ ts) disk = elim (esbuild (request t)) [
    | none ↦ (disk, false)
    | some text ↦ build_targets dest ts (write_file dest t.out text disk)
  ]

  abbrev pub build_into : Text → Disk → Disk × Bool
  build_into dest disk = build_targets dest targets (mkdir dest disk)

-- The body of the loop of the check, up to its messages; `none` where reading the fresh file threw.
abbrev pub compare_target : Text → Target → Disk → Option (List Message)
compare_target tmp t disk = elim (disk.files out_dir t.out) [
  | none ↦ some (missing t.out ∷ [])
  | some committed ↦ elim (disk.files tmp t.out) [
    | none ↦ none
    | some fresh ↦ some (if text_beq committed fresh then [] else drift t.out ∷ [])
  ]
]

-- The loop of the check, with what it prints; the flag is false where it threw. A message goes with
-- setting `drifted`, so there is drift if something was printed.
pub check_targets : Text → List Target → Disk → List Message × Bool
check_targets tmp [] disk = ([], true)
check_targets tmp (t ∷ ts) disk =
    let rest = check_targets tmp ts disk in
    elim (compare_target tmp t disk) [ none ↦ ([], false) | some said ↦ (said ++ rest.0, rest.1) ]

-- The end of the `try` block: `process.exit` ends the process at once, so `finally` does not run.
abbrev pub checked : Text → List Message × Bool → Disk → Ran
checked tmp ([], true) disk = record { disk = rm tmp disk; printed = passed ∷ []; code = 0 }
checked tmp (said ∷ more, true) disk = record { disk = disk; printed = said ∷ more; code = 1 }
checked tmp (said, false) disk = record { disk = rm tmp disk; printed = said; code = 1 }

module _ (esbuild : Request → Option Text) where
  abbrev pub check_after : Text → Disk × Bool → Ran
  check_after tmp (disk, true) = checked tmp (check_targets tmp targets disk) disk
  check_after tmp (disk, false) = record { disk = rm tmp disk; printed = []; code = 1 }

  abbrev pub built_after : Disk × Bool → Ran
  built_after (disk, true) = record { disk = disk; printed = built ∷ []; code = 0 }
  built_after (disk, false) = record { disk = disk; printed = []; code = 1 }

  -- The script, with and without `--check`.
  unfoldable pub run : Bool → Text → Disk → Ran
  run true tmp disk = check_after tmp (build_into esbuild tmp (mkdir tmp disk))
  run false tmp disk = built_after (build_into esbuild out_dir disk)
