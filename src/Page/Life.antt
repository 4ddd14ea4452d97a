-- ===== src/Page/Life.antt =====
-- web/js-src/page.js, the listeners that the end of `initSignPage` and `initCombinedMode` bind: the clicks
-- that a page may get from its opening on, in any order. A button that is disabled gets none.
use ucollection.Base.{ℕ, Text, List, ◌≡◌, true, false}
use ucollection.Crypto.{Crypto}
use ucollection.Derive.{HdWallet}
use ucollection.Storage.{Subtle, Db}
use ucollection.Page.{PageData, Request, Reply, Exchange, Session}
use ucollection.Page.Render.{is_combined}
use ucollection.Page.Opening.{opened_session}
use ucollection.Page.Gate.Log.{LogIsGated}
use ucollection.Page.Derive.Keys.{Fields, CombinedFields}
use ucollection.Page.Derive.{Device, handle_derive, handle_derive_combined}
use ucollection.Page.Derive.Quiet.{log-handle_derive, log-handle_derive_combined}
use ucollection.Page.Single.{handle_sign_and_broadcast}
use ucollection.Page.Single.Gated.{handle_sign_and_broadcast-Gated}
use ucollection.Page.Combined.{run_combined_flow}
use ucollection.Page.Combined.Gated.{run_combined_flow-Gated}

-- A page with the object store of its browser.
pub record Tab : Type 0 where
  pub session : Session
  pub db : Db

abbrev pub opened_tab : Db → Tab
opened_tab db = record { session = opened_session; db = db }

module _ {Node Key : Type 0} (w : HdWallet Node) (c : Crypto) (v : Subtle Key)
    (server : List Exchange → Request → Reply) (page : PageData) where
  abbrev pub after_derive : Session × Db → Tab
  after_derive (s, db) = record { session = s; db = db }

  pub data Step (t : Tab) : Tab → Type 0 where
    derives :
        (fields : Fields) (d : Device)
        → is_combined page.type ≡ false
        → t.session.derive_disabled ≡ false
        → Step t (after_derive (handle_derive w c page v fields d t.session t.db))
    signs :
        (totp : Text) (amount : ℕ → Text)
        → is_combined page.type ≡ false
        → t.session.sign_disabled ≡ false
        → Step t
            (record t { session = handle_sign_and_broadcast c server page totp amount t.session })
    derives_both :
        (fields : CombinedFields)
        → is_combined page.type ≡ true
        → t.session.derive_disabled ≡ false
        → Step t (record t { session = handle_derive_combined w c page fields t.session })
    runs :
        (totp : Text)
        → is_combined page.type ≡ true
        → t.session.sign_disabled ≡ false
        → Step t (record t { session = run_combined_flow c server page totp t.session })

  pub data Reach (t : Tab) : Tab → Type 0 where
    here : Reach t t
    next : {u x : Tab} → Reach t u → Step u x → Reach t x

  Step-LogIsGated :
      {t u : Tab} → Step t u → LogIsGated c page t.session → LogIsGated c page u.session
  Step-LogIsGated {t} (derives fields d _ _) h =
      rw (log-handle_derive w c page v fields d t.session t.db) h
  Step-LogIsGated {t} (signs totp amount _ _) h =
      handle_sign_and_broadcast-Gated c server page totp amount t.session h
  Step-LogIsGated {t} (derives_both fields _ _) h =
      rw (log-handle_derive_combined w c page fields t.session) h
  Step-LogIsGated {t} (runs totp _ _) h = run_combined_flow-Gated c server page totp t.session h

  -- If all broadcasts so far have passed both gates, as on a page that opens, which has sent none,
  -- then so have all after any clicks on the derive and the sign buttons of the page, in any order,
  -- whatever is typed and whatever the server and the browser's store answer.
  pub Reach-LogIsGated :
      {t u : Tab} → LogIsGated c page t.session → Reach t u → LogIsGated c page u.session
  Reach-LogIsGated h here = h
  Reach-LogIsGated h (next r st) = Step-LogIsGated st (Reach-LogIsGated h r)

  -- A page that opens has sent nothing, so all that it ever broadcasts has passed the gates.
  Reach_opened : (db : Db) {u : Tab} → Reach (opened_tab db) u → LogIsGated c page u.session
  Reach_opened db r = Reach-LogIsGated tt r
