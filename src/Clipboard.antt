-- ===== src/Clipboard.antt =====
-- What copying a text to the clipboard works on: the clipboard, the hidden text areas of the document,
-- and the button that was clicked. A flash of the button leaves a timer that writes the old text back.
use ucollection.Base.{Text, codes, List, [], ◌∷◌, Bool, Option}

-- A button with its text, and the texts that its timers will write, in the order in which they fire.
pub record Button : Type 0 where
  pub text : Text
  pub restores : List Text

-- `document.execCommand('copy')`: it copies the selection, returns `false`, or throws.
pub data Exec : Type 0 where
  copied refused threw : Exec

-- The browser: whether the clipboard API may be used, whether its write succeeds, and the old way.
pub record Browser : Type 0 where
  pub has_clipboard : Bool
  pub writes : Bool
  pub exec : Exec

pub record Document : Type 0 where
  pub clipboard : Option Text
  -- the text areas that hang on the body, the latest in front
  pub text_areas : List Text
  pub button : Option Button

abbrev pub copied_text : Text
copied_text = codes "已複製"

abbrev pub failed_text : Text
failed_text = codes "複製失敗"

-- The first timer of the button fires.
abbrev pub fire : Button → Button
fire b = elim b.restores [ [] ↦ b | text ∷ later ↦ record { text = text; restores = later } ]
