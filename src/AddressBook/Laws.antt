-- ===== src/AddressBook/Laws.antt =====
-- What the form sends fits what the page shows, whatever the user does.
use ucollection.Base.{
  ◌≡◌, ◌≢◌, refl, ◌⊎◌, inl, inr, Text, Bool, true, false, some, text_beq, text_beq_iff, Bool-cases,
}
use ucollection.AddressBook.{Select, Input, Pair, manual, sync_input, bind, change}

-- A visible input goes with the manual option, and a hidden one sends the address that is chosen.
abbrev pub Fits : Select → Input → Type 0
Fits select input =
    ((select.value ≡ manual) × (input.hidden ≡ false))
    ⊎ ((select.value ≢ manual) × (input.hidden ≡ true) × (input.value ≡ select.value))

-- The script has shown the select, and the pair fits.
abbrev pub Bound : Pair → Type 0
Bound p = (input : Input) × (p.input ≡ some input) × (p.select.hidden ≡ false) × Fits p.select input

-- The user chooses an option, or types into the input where it is visible.
pub data Step (p : Pair) : Pair → Type 0 where
  chooses : (chosen : Text) → Step p (change chosen p)
  types_in :
      (input : Input) (text : Text)
      → p.input ≡ some input
      → input.hidden ≡ false
      → Step p (record p { input = some (record input { value = text }) })

pub data Reach (p : Pair) : Pair → Type 0 where
  here : Reach p p
  next : {q r : Pair} → Reach p q → Step q r → Reach p r

sync_input-Fits :
    (user_initiated : Bool) (select : Select) (input : Input)
    → Fits select (sync_input user_initiated select.value input)
sync_input-Fits user_initiated select input = elim (Bool-cases (text_beq select.value manual)) [
  | inl chosen ↦ inl ((text_beq_iff select.value manual).0 chosen, simp chosen)
  | inr other ↦
      inr
        ((λ e. absurd (cc (other, (text_beq_iff select.value manual).1 e))), simp other, simp other)
]

bind-Bound : (p : Pair) (input : Input) → p.input ≡ some input → Bound (bind p)
unfolding bind
bind-Bound p input e = rw e (
  sync_input false p.select.value input,
  refl,
  refl,
  sync_input-Fits false (record p.select { hidden = false }) input,
)

Step-Bound : {p q : Pair} → Step p q → Bound p → Bound q
unfolding change
Step-Bound {p} (chooses chosen) (input, e, shown, fits) = rw e (
  sync_input true chosen input,
  refl,
  shown,
  sync_input-Fits true (record p.select { value = chosen }) input,
)
Step-Bound {p} (types_in input text e visible) (old, e', shown, fits) = (
  record input { value = text },
  refl,
  shown,
  elim fits [ inl (m, v) ↦ inl (m, visible) | inr (o, h, v) ↦ absurd (cc (e, e', h, visible)) ],
)

-- Once a select is bound to its input, whatever the user chooses or types: the select is shown, and
-- either the manual option is chosen and the input is shown, or another one is chosen and the input
-- is hidden and holds, to be sent, the value of that option.
pub Reach-bind-Bound :
    (p : Pair) (input : Input) {q : Pair} → p.input ≡ some input → Reach (bind p) q → Bound q
Reach-bind-Bound p input e here = bind-Bound p input e
Reach-bind-Bound p input e (next r st) = Step-Bound st (Reach-bind-Bound p input e r)
