-- ===== src/Admin/Copying.antt =====
-- The clipboard, the hidden text area and the label of the button, after a click and after its timers.
use ucollection.Base.{
  ◌≡◌, ◌≢◌, refl, sym, ◌∙◌, ◌⊎◌, inl, inr, Text, [], ◌∷◌, ◌++◌, Bool, true, false, some, Bool-cases,
  if◌then◌else◌,
}
use ucollection.Clipboard.{
  Button, Exec, copied, refused, threw, Browser, Document, copied_text, failed_text, fire,
}
use ucollection.Admin.{copy_to_clipboard, flash, executed, append_area, remove_area}

-- How a click leaves the document: the label that it flashes, and the clipboard that fits it.
pub record Flashed (exec : Exec) (text : Text) (d t : Document) (done : Bool) : Type 0 where
  pub button : t.button ≡ flash done d.button
  pub areas : t.text_areas ≡ d.text_areas
  pub failed : done ≡ false → t.clipboard ≡ d.clipboard
  pub succeeded : done ≡ true → (t.clipboard ≡ some text) ⊎ (exec ≡ refused)

by_command :
    (exec : Exec) (text : Text) (d : Document)
    → (done : Bool) × Flashed exec text d
        (remove_area (executed exec text (append_area text d)))
        done
by_command copied text d = (
  true,
  record { button = refl; areas = refl; failed = λ n. absurd (cc n); succeeded = λ y. inl refl },
)
by_command refused text d = (
  true,
  record { button = refl; areas = refl; failed = λ n. absurd (cc n); succeeded = λ y. inr refl },
)
by_command threw text d = (
  false,
  record { button = refl; areas = refl; failed = λ n. refl; succeeded = λ y. absurd (cc y) },
)

not_shown :
    {text : Text} (done : Bool)
    → text ≢ copied_text
    → text ≢ failed_text
    → (if done then copied_text else failed_text) ≢ text
not_shown true c f e = c (sym e)
not_shown false c f e = f (sym e)

-- A click on a copy button ends in a flash of success or of failure and leaves the text areas of
-- the document as they were. With success the clipboard holds the text, unless the old command has
-- refused without an exception; with failure it is as before.
pub copy_to_clipboard-Flashed :
    (browser : Browser) (text : Text) (d : Document)
    → (done : Bool) × Flashed browser.exec text d (copy_to_clipboard browser text d) done
unfolding copy_to_clipboard
copy_to_clipboard-Flashed browser text d = elim (Bool-cases browser.has_clipboard) [
  | inl api ↦ elim (Bool-cases browser.writes) [
    | inl wrote ↦
        rw (api, wrote)
          (
            true,
            record {
              button = refl;
              areas = refl;
              failed = λ n. absurd (cc n);
              succeeded = λ y. inl refl;
            },
          )
    | inr not_written ↦
        rw (api, not_written)
          (
            false,
            record {
              button = refl;
              areas = refl;
              failed = λ n. refl;
              succeeded = λ y. absurd (cc y);
            },
          )
  ]
  | inr old ↦ rw old (by_command browser.exec text d)
]

-- Once the timer has fired, a button that was idle is as it was before the click.
pub fire-copy_to_clipboard :
    (browser : Browser) (text : Text) (d : Document) (b : Button)
    → d.button ≡ some b
    → b.restores ≡ []
    → (flashed_button : Button) × ((copy_to_clipboard browser text d).button ≡ some flashed_button)
      × (fire flashed_button ≡ b)
fire-copy_to_clipboard browser text d b found idle =
    let (done, f) = copy_to_clipboard-Flashed browser text d in
    let shown : Text = if done then copied_text else failed_text in
    (
      record { text = shown; restores = b.restores ++ b.text ∷ [] },
      f.button ∙ rw found refl,
      rw idle refl,
    )

-- If a copy button, whose label is neither of the two flashed texts and which no timer will change,
-- is clicked twice before the first timer fires, then after both timers no timer is left and the
-- label is not the one from before.
pub second_click_label :
    (browser : Browser) (first second : Text) (d : Document) (b : Button)
    → d.button ≡ some b
    → b.restores ≡ []
    → b.text ≢ copied_text
    → b.text ≢ failed_text
    → (last : Button) × ((copy_to_clipboard browser second
          (copy_to_clipboard browser first d)).button
        ≡ some last)
      × ((fire (fire last)).restores ≡ [])
      × ((fire (fire last)).text ≢ b.text)
second_click_label browser first second d b found idle other_copied other_failed =
    let t = copy_to_clipboard browser first d in
    let (done, f) = copy_to_clipboard-Flashed browser first d in
    let (again, g) = copy_to_clipboard-Flashed browser second t in
    let shown : Text = if done then copied_text else failed_text in
    let shown_again : Text = if again then copied_text else failed_text in
    (
      record { text = shown_again; restores = (b.restores ++ b.text ∷ []) ++ shown ∷ [] },
      g.button ∙ rw (f.button, found) refl,
      rw idle refl,
      rw idle (not_shown done other_copied other_failed),
    )
