-- ===== src/Page/Example.antt =====
-- Pages with one item, an honest server and small inputs to run the page on.
use ucollection.Base.{Text, codes, List, [], ◌∷◌, true, false, none, some}
use ucollection.Base.Result.{ok}
use ucollection.Derive.Example.{seed_key}
use ucollection.Sign.Example.{key, prepared, address_of}
use ucollection.Storage.{Subtle, Db, works}
use ucollection.Page.{
  Mode, fee_topup, Item, PageData, Request, Body, Reply, response, Exchange, Session, to_check,
  blank,
}
use ucollection.Page.Derive.Keys.{Fields, CombinedFields}
use ucollection.Page.Derive.{Device}
use ucollection.Page.Form.{Form}

abbrev pub item_at : Text → Item
item_at address = record {
  order_id = 1;
  address = address;
  derivation_index = some 2;
  already_consolidated = false;
  usdt_balance = 5000000;
  trx_balance = 0;
  onchain_error = false;
}

abbrev pub page_at : Text → Text → Mode → PageData
page_at address fee_source type = record {
  type = type;
  batch_id = 11;
  fee_topup_batch_id = 12;
  consolidation_batch_id = 13;
  master_wallet_id = 4;
  xpub = codes "seed";
  destination_address = codes "T";
  fee_source_address = fee_source;
  fee_source = codes "fees";
  first_amount_per_order = 30000000;
  repeat_amount_per_order = 15000000;
  default_amount_per_order = 0;
  items = item_at address ∷ [];
}

abbrev pub item : Item
item = item_at (address_of key)

abbrev pub page_of : Mode → PageData
page_of type = page_at (address_of key) (address_of key) type

-- The page that the mnemonic "seed" belongs to.
abbrev pub seed_page : Mode → PageData
seed_page type = page_at (address_of (seed_key 2)) (address_of (seed_key 0)) type

abbrev pub body : Body
body = record {
  message = none;
  transaction = some prepared;
  item_id = some 1;
  tx_id = some (codes "ab");
  found = true;
  success = true;
  status = codes "success";
  error_detail = [];
}

abbrev pub server : List Exchange → Request → Reply
server log request = response true 200 (some body)

-- A page after the keys have been derived.
abbrev pub ready : Session
ready = record {
  pending_totp_code = none;
  derived_keys = (1, key) ∷ [];
  master_keys = (1, key) ∷ [];
  fee_source_key = some key;
  notes = λ id. to_check;
  sign_status = blank;
  sign_disabled = false;
  derive_disabled = false;
  log = [];
  slept = 0;
}

abbrev pub fields : Fields
fields = record {
  mnemonic = codes "seed";
  privkey = [];
  checked = none;
  remember = true;
  storage_password = codes "pw";
}

abbrev pub device : Device
device = record { access = works; random = λ n. n; now = 5 }

-- A cipher that does nothing.
abbrev pub plain : Subtle Text
plain = record {
  import_key = λ password. ok password;
  derive_key = λ d password. ok password;
  encrypt = λ k iv s. ok s;
  decrypt = λ k iv s. ok s;
  text_encode = λ s. s;
  text_decode = λ s. s;
}

abbrev pub empty : Db
empty = record { records = λ key. none; connections = 0 }

abbrev pub both_fields : CombinedFields
both_fields = record {
  master_mnemonic = codes "seed";
  fee_mnemonic = codes "seed";
  fee_privkey = [];
  fee_checked = none;
}

abbrev pub form : Form
form = record { fields = fields; mnemonic_hidden = false; privkey_hidden = true }

abbrev pub topup_page : PageData
topup_page = record (page_of fee_topup) { default_amount_per_order = 30000000 }
