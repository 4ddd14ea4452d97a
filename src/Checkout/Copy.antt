-- ===== src/Checkout/Copy.antt =====
-- web/static/js/checkout.js, its second function: the button that copies the address.
use ucollection.Base.{
  Text, [], ◌∷◌, ◌++◌, Bool, true, false, Option, none, some, if◌then◌else◌, ◌≡◌, refl, sym, ap,
  ◌∙◌,
}
use ucollection.Clipboard.{
  Button, Exec, copied, refused, threw, Browser, Document, copied_text, failed_text,
}
use ucollection.Admin.{copy_to_clipboard}

-- `flash`, on the button that the script has found.
abbrev flash : Bool → Button → Document → Document
flash done btn d = record d {
  button = some (record {
    text = if done then copied_text else failed_text;
    restores = btn.restores ++ btn.text ∷ [];
  });
}

-- The `try` block and the `catch`; `text` is what the text area holds, and is selected.
abbrev try_copy : Exec → Text → Button → Document → Document
try_copy copied text btn d = flash true btn (record d { clipboard = some text })
try_copy refused text btn d = flash true btn d
try_copy threw text btn d = flash false btn d

abbrev remove_child : Document → Document
remove_child d = record d { text_areas = elim d.text_areas [ [] ↦ [] | area ∷ areas ↦ areas ] }

-- The listener of the button.
unfoldable pub copy_click : Browser → Text → Button → Document → Document
copy_click browser text btn d =
    if browser.has_clipboard
    then if browser.writes
      then flash true btn (record d { clipboard = some text })
      else flash false btn d
    else remove_child
        (try_copy browser.exec text btn (record d { text_areas = text ∷ d.text_areas }))

-- The script binds the listener only where it finds the button and the code element; before, a click
-- does nothing. `code` is the text of the element.
unfoldable pub click_copy_button : Browser → Option Text → Document → Document
click_copy_button browser none d = d
click_copy_button browser (some code) d = elim d.button [
  | none ↦ d
  | some btn ↦ copy_click browser code btn d
]

same_copy :
    (api writes : Bool) (exec : Exec) (code : Text) (d : Document) (btn : Button)
    → let browser : Browser = record { has_clipboard = api; writes = writes; exec = exec } in
      let found = record d { button = some btn } in
      click_copy_button browser (some code) found ≡ copy_to_clipboard browser code found
unfolding click_copy_button copy_click copy_to_clipboard
same_copy true true exec code d btn = refl
same_copy true false exec code d btn = refl
same_copy false writes copied code d btn = refl
same_copy false writes refused code d btn = refl
same_copy false writes threw code d btn = refl

-- A click on the copy button of the status page does to the clipboard, the document and the button
-- what `copyToClipboard` of the admin pages does with the text of the code element.
pub click_copy_button-copy_to_clipboard :
    (browser : Browser) (code : Text) (d : Document) (btn : Button)
    → d.button ≡ some btn
    → click_copy_button browser (some code) d ≡ copy_to_clipboard browser code d
click_copy_button-copy_to_clipboard browser code d btn e =
    let found : d ≡ record d { button = some btn } = ap (λ o. record d { button = o }) e in
    ap (click_copy_button browser (some code)) found
    ∙ same_copy browser.has_clipboard browser.writes browser.exec code d btn
    ∙ sym (ap (copy_to_clipboard browser code) found)
