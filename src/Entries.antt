-- ===== src/Entries.antt =====
-- web/js-src/polyfill-entry.js, sign-entry.js and masterwallet-entry.js: the scripts that a page loads, in
-- this order, while the document may still be loading or no longer is.
use ucollection.Base.{◌≡◌, refl, List, [], ◌∷◌, ◌++◌, Bool, true, false, ◌&&◌, if◌then◌else◌}

-- `initSignPage` and `initMasterWalletPage`
pub data Init : Type 0 where
  init_sign_page init_master_wallet_page : Init

-- `document.readyState === 'loading'`, the listeners of DOMContentLoaded, the two globals, and the pages
-- that were set up, each with whether both globals were there.
pub record Window : Type 0 where
  pub loading : Bool
  pub listeners : List Init
  pub has_buffer : Bool
  pub has_process : Bool
  pub set_up : List (Init × Bool)

abbrev set_up_now : Init → Window → Window
set_up_now page w = record w { set_up = w.set_up ++ (page, w.has_buffer && w.has_process) ∷ [] }

abbrev pub polyfill_entry : Window → Window
polyfill_entry w = record w { has_buffer = true; has_process = true }

unfoldable pub sign_entry : Window → Window
sign_entry w =
    if w.loading
    then record w { listeners = w.listeners ++ init_sign_page ∷ [] }
    else set_up_now init_sign_page w

unfoldable pub masterwallet_entry : Window → Window
masterwallet_entry w =
    if w.loading
    then record w { listeners = w.listeners ++ init_master_wallet_page ∷ [] }
    else set_up_now init_master_wallet_page w

-- DOMContentLoaded calls the listeners, once.
abbrev dispatch : List Init → Window → Window
dispatch [] w = w
dispatch (page ∷ pages) w = dispatch pages (set_up_now page w)

unfoldable pub dom_content_loaded : Window → Window
dom_content_loaded w =
    if w.loading then dispatch w.listeners (record w { loading = false; listeners = [] }) else w

-- A window in which nothing has run.
abbrev pub opened : Bool → Window
opened loading = record {
  loading = loading;
  listeners = [];
  has_buffer = false;
  has_process = false;
  set_up = [];
}

-- After the polyfill script, each entry script sets its page up once, at the latest when the
-- document is loaded, and both globals are there by then.
pub set_up_once :
    (loading : Bool)
    → ((dom_content_loaded (sign_entry (polyfill_entry (opened loading)))).set_up
        ≡ (init_sign_page, true) ∷ [])
      × ((dom_content_loaded (masterwallet_entry (polyfill_entry (opened loading)))).set_up
          ≡ (init_master_wallet_page, true) ∷ [])
unfolding dom_content_loaded sign_entry masterwallet_entry
set_up_once true = (refl, refl)
set_up_once false = (refl, refl)
