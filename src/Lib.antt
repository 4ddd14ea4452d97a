-- ===== src/Lib.antt =====
-- The pages of UCollection, whose JavaScript lies in web/js-src, web/static/js and scripts, and the parts
-- of its Go server on which they depend: the orders, the status page and the gates of the session.
--
-- A merchant collects USDT from the addresses of orders. The server prepares a transaction; the browser
-- derives the key from a mnemonic, computes the id of the transaction again, signs it, checks by the
-- signature that the right address has signed, and only then asks the server to broadcast.
--
-- Base: shared names, lists over native numbers, texts as UTF-16 code units, decimal digits, the
--   result of a call that may throw (Base/Result; `Failure` has the errors that the sources throw), and
--   Go's `int64` with its wrap-around (Base/Words).
-- Trx: web/js-src/trxamount.js, `sunToTrx` and `trxToSun`. Numbers are natural numbers; the result of
--   `Number(combined)` is the number that the digits spell, which is exact wherever it is accepted.
--   Trx/Exact is the grammar of the texts, apart from the code.
-- Crypto: the libraries that the sources call, as a record of functions, with the laws that are relied
--   on (`IsLawful`), and a toy instance that has them (Crypto/Toy).
-- TronAddress, Sign, SelfCheck, Derive: the files of these names in web/js-src, all functions.
-- Storage: web/js-src/storage.js; Storage/Vault is the abstract view that its operations implement.
-- Page: web/js-src/page.js. `Session` is the closure of `initSignPage` and what its elements show.
--   Page/Run is the state and error passing of its functions, with `postJSON` and the one-time code;
--   Page/Gate the two gates in front of a broadcast, Page/Derive both derive buttons, Page/Single
--   `handleSignAndBroadcast`, Page/Combined `runCombinedFlow`, Page/Form the fields and the loading of a
--   stored value, Page/Elements the elements and the storage controls, Page/Opening and Page/Render the
--   opening of a page and what it shows, Page/StorageKey `storageKeyFor`, and Page/Life the clicks from
--   the opening on.
-- MasterWallet: web/js-src/masterwallet-page.js; its handlers are the events of a run of the page, and
--   MasterWallet/Positions chooses the words that are asked for again.
-- Entries: web/js-src/sign-entry.js, masterwallet-entry.js and polyfill-entry.js.
-- Checkout: web/static/js/checkout.js. The page's state holds the intervals that run; what may happen is
--   a step relation (Checkout/Reaches). Checkout/Copy is the copy button.
--   Checkout/Served is what the server answers to it: internal/checkout/handlers.go and the script
--   elements of its template.
-- Clipboard, Admin: web/static/js/admin.js, with the state that both copy buttons work on.
-- DateRange: web/static/js/date-range-shortcuts.js. AddressBook: web/static/js/address-book-select.js.
-- NavActive: web/static/js/nav-active.js and localtime.js.
-- FeeEstimate: web/static/js/fee-estimate.js; FeeEstimate/Events has the controls and their events.
-- Bundles: scripts/build-consolidation-sign.mjs, on a disk of files by directory and name.
-- Orders: internal/order. `Db` has the tables that the transactions write: orders, status events,
--   webhook deliveries and the counter of a wallet. Each write may fail: `works` says which statements of
--   a transaction succeed, and a transaction that fails leaves the tables as they were. Orders/Changes has
--   transition.go, the evaluations and the deadline; Orders/Create a new order with its index and address;
--   Orders/Moves the diagram of statuses; Orders/Steps what may happen to the tables. Times are seconds;
--   the bounds of an order are computed in `int64`.
-- Auth: internal/auth. The gates of middleware.go on a session, with the code of an authenticator app
--   compared by totp.go; Auth/Limiter is ratelimit.go, Auth/StepUp what is asked before a dangerous action
--   (totp_flow.go and the gates that call it). The function that turns a secret and a time into a code is
--   a third-party package and a parameter.
--
-- The server is an argument of the pages: a function from the exchanges so far and a request to a
-- reply, so that its answers may depend on all that was sent. The loops are recursion on the items;
-- `waitOnChain` counts down its 40 rounds, and the time that it sleeps is counted. In the signing pages
-- an `await` is a plain sequence: a click that comes in between is left out. The status page and the list
-- of orders do have answers that come at any later time. Setting a date back takes fuel one above the days
-- to go back, which is enough since every round goes back a day at least; the random draws of the master
-- wallet page are a list, which is enough if as many different values come up as are asked for. On the
-- server a transaction of the database is one step, and so is a request: two that overlap are left out.
--
-- Not modelled: the creation and the styling of DOM elements, which hold no state that is read back; the
-- bundles under web/static/js, which the script generates from these sources and third-party packages;
-- the third-party packages, which are parameters; and the rest of the Go server: the chain scanner, the
-- sending of webhooks, the handlers of a collection, the API, the admin pages and the pages of a login,
-- which are seen through their answers only.
pub mod Base
pub mod AddressBook
pub mod Auth
pub mod Admin
pub mod Bundles
pub mod Checkout
pub mod Clipboard
pub mod Crypto
pub mod DateRange
pub mod Derive
pub mod Entries
pub mod FeeEstimate
pub mod MasterWallet
pub mod NavActive
pub mod Orders
pub mod Page
pub mod SelfCheck
pub mod Sign
pub mod Storage
pub mod Trx
pub mod TronAddress
