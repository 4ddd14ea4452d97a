-- ===== src/Storage.antt =====
-- web/js-src/storage.js: the encrypted copy of a mnemonic in IndexedDB. WebCrypto, the text coders
-- and the answers of IndexedDB are parameters; random values and the time are arguments.
pub mod Laws
pub mod Vault
pub mod Example
mod Tests
use ucollection.Base.{
  ℕ, zero, suc, ◌+◌, ◌-◌, ◌≡◌, Text, codes, List, [], ◌∷◌, Bool, Option, none, some, ◌==◌, text_eq,
  if◌then◌else◌,
}
use ucollection.Base.Result.{Failure, Result, ok, err, ◌>>=◌, library}
use ucollection.Crypto.{Bytes}

abbrev pub pbkdf2_iterations : ℕ
pbkdf2_iterations = 600000

abbrev salt_length_bytes : ℕ
salt_length_bytes = 16

abbrev iv_length_bytes : ℕ
iv_length_bytes = 12

-- `crypto.getRandomValues` on a new array, where the browser has drawn some bytes of its source before.
pub get_random_values : (random : ℕ → ℕ) (drawn n : ℕ) → Bytes
get_random_values random drawn zero = []
get_random_values random drawn (suc n) = random drawn ∷ get_random_values random (suc drawn) n

-- The salt and then the iv of a store.
abbrev pub new_salt : (ℕ → ℕ) → Bytes
new_salt random = get_random_values random 0 salt_length_bytes

abbrev pub new_iv : (ℕ → ℕ) → Bytes
new_iv random = get_random_values random salt_length_bytes iv_length_bytes

-- What `deriveKey` is asked for: PBKDF2 with these parameters, for an AES-GCM key of this length.
pub record Derivation : Type 0 where
  pub salt : Bytes
  pub iterations : ℕ
  pub hash : Text
  pub key_length : ℕ

-- PBKDF2 and AES-GCM of `crypto.subtle`, `TextEncoder` and `TextDecoder`.
pub record Subtle (Key : Type 0) : Type 0 where
  -- the key material of a password, for PBKDF2, and the key that is derived from it
  pub import_key : Bytes → Result Bytes
  pub derive_key : Derivation → Bytes → Result Key
  pub encrypt : Key → Bytes → Bytes → Result Bytes
  pub decrypt : Key → Bytes → Bytes → Result Bytes
  pub text_encode : Text → Bytes
  pub text_decode : Bytes → Text

-- `deriveAesKey`
unfoldable pub derive_aes_key : {Key : Type 0} → Subtle Key → Text → Bytes → ℕ → Result Key
derive_aes_key w password salt iterations = do
  password_key ← w.import_key (w.text_encode password)
  w.derive_key
      (record { salt = salt; iterations = iterations; hash = codes "SHA-256"; key_length = 256 })
      password_key

-- A record of the object store, behind its key path `key`.
pub record Stored : Type 0 where
  pub salt : Bytes
  pub iv : Bytes
  pub ciphertext : Bytes
  pub iterations : ℕ
  pub meta : Text
  pub created_at : ℕ

-- The object store, and the connections that are open.
pub record Db : Type 0 where
  pub records : Text → Option Stored
  pub connections : ℕ

-- How the browser answers one operation: `open` may fail, or the request.
pub data Access : Type 0 where
  open_fails request_fails works : Access

abbrev pub update : (Text → Option Stored) → Text → Option Stored → Text → Option Stored
update f k v j = if k == j then v else f j

-- `openDB`, one request on the object store, and `db.close()` in `finally`.
abbrev opened : Db → Db
opened db = record db { connections = db.connections + 1 }

abbrev closed : Db → Db
closed db = record db { connections = db.connections - 1 }

pub with_store {ℓ} : {A : Type ℓ} → Access → (Db → A × Db) → Db → Result A × Db
with_store open_fails request db = (err library, db)
with_store request_fails request db = (err library, closed (opened db))
with_store works request db = let (a, after) = request (opened db) in (ok a, closed after)

module _ {Key : Type 0} (w : Subtle Key) where
  -- The ciphertext, before IndexedDB is opened.
  encrypted : Text → Text → Bytes → Bytes → Result Bytes
  encrypted mnemonic password salt iv = do
    aes_key ← derive_aes_key w password salt pbkdf2_iterations
    w.encrypt aes_key iv (w.text_encode mnemonic)

  abbrev put : Text → Stored → Db → Unit {0} × Db
  put key r db = (tt, record db { records = update db.records key (some r) })

  write_record :
      Access → Text → Text → Bytes → Bytes → ℕ → Result Bytes → Db → Result (Unit {0}) × Db
  write_record access key meta salt iv now (err e) db = (err e, db)
  write_record access key meta salt iv now (ok ciphertext) db =
      with_store access
        (put key (record {
          salt = salt;
          iv = iv;
          ciphertext = ciphertext;
          iterations = pbkdf2_iterations;
          meta = meta;
          created_at = now;
        }))
        db

  pub store_mnemonic :
      Access → Text → Text → Text → Text → Bytes → Bytes → ℕ → Db → Result (Unit {0}) × Db
  store_mnemonic access key mnemonic password meta salt iv now db =
      write_record access key meta salt iv now (encrypted mnemonic password salt iv) db

  pub decrypted : Stored → Text → Result Text
  decrypted r password = do
    aes_key ← derive_aes_key w password r.salt r.iterations
    plaintext ← w.decrypt aes_key r.iv r.ciphertext
    ok (w.text_decode plaintext)

  -- `null` for a key with no record.
  load_record : Text → Result (Option Stored) → Result (Option Text)
  load_record password (err e) = err e
  load_record password (ok none) = ok none
  load_record password (ok (some r)) = do text ← decrypted r password; ok (some text)

-- A read leaves the records alone.
abbrev get : Text → Db → Option Stored × Db
get key db = (db.records key, db)

pub get_record : Access → Text → Db → Result (Option Stored) × Db
unfolding with_store
get_record access key = with_store access (get key)

module _ {Key : Type 0} (w : Subtle Key) where
  pub load_mnemonic : Access → Text → Text → Db → Result (Option Text) × Db
  load_mnemonic access key password db =
      let (r, after) = get_record access key db in (load_record w password r, after)

abbrev meta_of : Result (Option Stored) → Result (Option (Text × ℕ))
meta_of (err e) = err e
meta_of (ok none) = ok none
meta_of (ok (some r)) = ok (some (r.meta, r.created_at))

pub get_meta : Access → Text → Db → Result (Option (Text × ℕ)) × Db
get_meta access key db = let (r, after) = get_record access key db in (meta_of r, after)

abbrev remove : Text → Db → Unit {0} × Db
remove key db = (tt, record db { records = update db.records key none })

pub delete_stored : Access → Text → Db → Result (Unit {0}) × Db
unfolding with_store
delete_stored access key = with_store access (remove key)
