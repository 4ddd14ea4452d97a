-- ===== src/NavActive.antt =====
-- web/static/js/nav-active.js and web/static/js/localtime.js: the two scripts that touch up the
-- elements of a page that the server has rendered.
-- `link_path`, a parameter, is the path that `new URL(href, origin)` finds, or nothing where it throws;
-- `to_local`, a parameter, is the local form of a date, or nothing where the text is not a date.
pub mod Laws
mod Tests
use ucollection.Base.{
  ℕ, Text, codes, List, [], ◌∷◌, ◌++◌, map, Bool, true, false, ◌||◌, Option, none, some, ◌==◌,
  nat_eq, text_eq, text_beq, starts_with, if◌then◌else◌,
}

-- A link, with the number of the `details` element around it.
pub record Link : Type 0 where
  pub href : Text
  pub active : Bool
  pub details : Option ℕ

-- The links of the sidebar, and which `details` elements are open.
pub record Sidebar : Type 0 where
  pub links : List Link
  pub opened : ℕ → Bool

unfoldable pub is_here : Text → Text → Bool
unfolding starts_with text_beq
is_here here path = here == path || starts_with here (path ++ codes "/")

-- `if (details) details.open = true`
abbrev pub open_details : Option ℕ → (ℕ → Bool) → ℕ → Bool
open_details none opened d = opened d
open_details (some e) opened d = if e == d then true else opened d

module _ (link_path : Text → Option Text) (here : Text) where
  -- The loop. A link whose URL does not parse throws, and the links from there on stay as they are.
  unfoldable pub highlight : List Link → (ℕ → Bool) → Sidebar
  highlight [] opened = record { links = []; opened = opened }
  highlight (a ∷ later) opened = elim (link_path a.href) [
    | none ↦ record { links = a ∷ later; opened = opened }
    | some path ↦
        let hit = is_here here path in
        let rest = highlight later (if hit then open_details a.details opened else opened) in
        record {
          links = (if hit then record a { active = true } else a) ∷ rest.links;
          opened = rest.opened;
        }
  ]

-- A `time` element, with its attribute and its text.
pub record Time : Type 0 where
  pub datetime : Text
  pub text : Text

module _ (to_local : Text → Option Text) where
  abbrev localize : Time → Time
  localize el = elim (to_local el.datetime) [ none ↦ el | some shown ↦ record el { text = shown } ]

  unfoldable pub localize_all : List Time → List Time
  localize_all times = map localize times
