-- ===== src/Bundles/Tests.antt =====
-- The theorems on the build script with a build that copies the entry's name.
use ucollection.Base.{
  ◌≡◌, ◌≢◌, refl, Text, codes, [], true, false, Option, none, some, All, text_beq, text_beq_iff,
}
use ucollection.Bundles.{targets, out_dir, Request, Disk, run}
use ucollection.Bundles.Laws.{Builds}
use ucollection.Bundles.Checks.{Checked, run-Checked}

abbrev echo : Request → Option Text
echo r = some r.entry_point

echo-Builds : All (Builds echo) targets
echo-Builds = ((_, refl), ((_, refl), ((_, refl), tt)))

abbrev tmp : Text
tmp = codes "/tmp/ucollection-sign-bundle-x"

tmp-ne : tmp ≢ out_dir
unfolding text_beq
tmp-ne e =
    let differs : text_beq tmp out_dir ≡ false = refl in
    cc ((text_beq_iff tmp out_dir).1 e, differs)

abbrev empty_disk : Disk
empty_disk = record { files = λ d n. none; dirs = [] }

run-Checked_example : Checked echo tmp empty_disk (run echo true tmp empty_disk)
run-Checked_example = run-Checked echo tmp empty_disk echo-Builds tmp-ne
