-- ===== src/Storage/Laws.antt =====
-- What is stored under a key is read back with its password, and with no other.
use ucollection.Base.{
  ℕ, ◌≡◌, ◌≢◌, refl, sym, ap, ◌∙◌, Text, some, text_eq, text_beq_iff, inl, inr, arith,
}
use ucollection.Base.Result.{Failure, Result, ok, err, ◌>>=◌, Result-cases, library}
use ucollection.Crypto.{Bytes}
use ucollection.Storage.{
  Subtle, Stored, Db, Access, open_fails, request_fails, works, update, with_store, encrypted,
  derive_aes_key, write_record, store_mnemonic, decrypted, load_record, load_mnemonic, get_record,
  pbkdf2_iterations,
}

-- AES-GCM reads back what the same key has encrypted, derive_aes_key, and fails under any other key.
pub record IsAuthentic {Key : Type 0} (w : Subtle Key) : Type 0 where
  pub decrypt-encrypt :
      (k : Key) (iv plain cipher : Bytes)
      → w.encrypt k iv plain ≡ ok cipher
      → w.decrypt k iv cipher ≡ ok plain
  pub decrypt-other :
      (k k' : Key) (iv plain cipher : Bytes)
      → w.encrypt k iv plain ≡ ok cipher
      → k' ≢ k
      → w.decrypt k' iv cipher ≡ err library

module _ {Key : Type 0} (w : Subtle Key) (key mnemonic password meta : Text) (salt iv : Bytes)
    (now : ℕ) where
  abbrev pub record_of : Bytes → Stored
  record_of ciphertext = record {
    salt = salt;
    iv = iv;
    ciphertext = ciphertext;
    iterations = pbkdf2_iterations;
    meta = meta;
    created_at = now;
  }

  -- What a successful store has done: the mnemonic, encrypted under a key of the password, is the
  -- record of the key, and the connection is closed again.
  pub record Stores (db db' : Db) : Type 0 where
    pub aes_key : Key
    pub ciphertext : Bytes
    pub derived : derive_aes_key w password salt pbkdf2_iterations ≡ ok aes_key
    pub encrypts : w.encrypt aes_key iv (w.text_encode mnemonic) ≡ ok ciphertext
    pub written : db'.records ≡ update db.records key (some (record_of ciphertext))
    pub connected : db'.connections ≡ db.connections

  written_by :
      (access : Access) (ciphertext : Bytes) (db db' : Db)
      → write_record w access key meta salt iv now (ok ciphertext) db ≡ (ok tt, db')
      → (db'.records ≡ update db.records key (some (record_of ciphertext)))
        × (db'.connections ≡ db.connections)
  unfolding write_record with_store
  written_by open_fails ciphertext db db' h = cc (ap (λ p. p.0) h)
  written_by request_fails ciphertext db db' h = cc (ap (λ p. p.0) h)
  written_by works ciphertext db db' h =
      (sym (ap (λ p. p.1.records) h), sym (ap (λ p. p.1.connections) h) ∙ omega arith)

  store_encrypted :
      (access : Access) (r : Result Bytes) (db db' : Db)
      → write_record w access key meta salt iv now r db ≡ (ok tt, db')
      → (c : Bytes) × (r ≡ ok c)
  unfolding write_record
  store_encrypted access (err e) db db' h = cc (ap (λ p. p.0) h)
  store_encrypted access (ok c) db db' h = (c, refl)

  encrypted-ok :
      (c : Bytes)
      → encrypted w mnemonic password salt iv ≡ ok c
      → (k : Key) × (derive_aes_key w password salt pbkdf2_iterations ≡ ok k)
        × (w.encrypt k iv (w.text_encode mnemonic) ≡ ok c)
  unfolding encrypted
  encrypted-ok c h = elim (Result-cases (derive_aes_key w password salt pbkdf2_iterations)) [
    | inr (_, e) ↦ ground arith
    | inl (k, e) ↦ (k, e, ground arith)
  ]

  pub store_mnemonic-Stores :
      (access : Access) (db db' : Db)
      → store_mnemonic w access key mnemonic password meta salt iv now db ≡ (ok tt, db')
      → Stores db db'
  unfolding store_mnemonic
  store_mnemonic-Stores access db db' h =
      let (c, e) = store_encrypted access (encrypted w mnemonic password salt iv) db db' h in
      let (k, e1, e2) = encrypted-ok c e in
      let (e3, e4) = written_by access c db db' (rw e at h) in
      record {
        aes_key = k;
        ciphertext = c;
        derived = e1;
        encrypts = e2;
        written = e3;
        connected = e4;
      }

untouched :
    {Key : Type 0} (w : Subtle Key) (access : Access) (key meta : Text) (salt iv : Bytes) (now : ℕ)
    (r : Result Bytes) (db : Db) {e : Failure}
    → (write_record w access key meta salt iv now r db).0 ≡ err e
    → ((write_record w access key meta salt iv now r db).1.records ≡ db.records)
      × ((write_record w access key meta salt iv now r db).1.connections ≡ db.connections)
unfolding write_record with_store
untouched w access key meta salt iv now (err f) db h = (refl, refl)
untouched w open_fails key meta salt iv now (ok c) db h = (refl, refl)
untouched w request_fails key meta salt iv now (ok c) db h = (refl, omega arith)
untouched w works key meta salt iv now (ok c) db h = cc

-- A store that fails, at any step, leaves the records and the number of open connections as they
-- were.
pub store_mnemonic-failed :
    {Key : Type 0} (w : Subtle Key) (access : Access) (key mnemonic password meta : Text)
    (salt iv : Bytes) (now : ℕ) (db : Db) {e : Failure}
    → (store_mnemonic w access key mnemonic password meta salt iv now db).0 ≡ err e
    → ((store_mnemonic w access key mnemonic password meta salt iv now db).1.records ≡ db.records)
      × ((store_mnemonic w access key mnemonic password meta salt iv now db).1.connections
          ≡ db.connections)
unfolding store_mnemonic
store_mnemonic-failed w access key mnemonic password meta salt iv now db h =
    untouched w access key meta salt iv now (encrypted w mnemonic password salt iv) db h

-- Reading a record that is there.
load_found :
    {Key : Type 0} (w : Subtle Key) (key : Text) (r : Stored) (db : Db) (password : Text)
    → db.records key ≡ some r
    → (load_mnemonic w works key password db).0 ≡ (decrypted w r password >>= λ t. ok (some t))
unfolding load_mnemonic get_record load_record
load_found w key r db password found = rw found

module _ {Key : Type 0} (w : Subtle Key) (key mnemonic password meta : Text) (salt iv : Bytes)
    (now : ℕ) (access : Access) (db db' : Db)
    (stored : store_mnemonic w access key mnemonic password meta salt iv now db
      ≡ (ok tt, db')) where
  facts : Stores w key mnemonic password meta salt iv now db db'
  facts = store_mnemonic-Stores w key mnemonic password meta salt iv now access db db' stored

  open facts use {aes_key, ciphertext, derived, encrypts, written}

  found : db'.records key ≡ some (record_of w key mnemonic password meta salt iv now ciphertext)
  found = ap (λ f. f key) written ∙ rw ((text_beq_iff key key).1 refl)

  -- After a successful store, a load under the same key and password gives the mnemonic, if the
  -- text coders read it back and AES-GCM decrypts what it has encrypted.
  pub load_mnemonic-store_mnemonic :
      IsAuthentic w
      → w.text_decode (w.text_encode mnemonic) ≡ mnemonic
      → (load_mnemonic w works key password db').0 ≡ ok (some mnemonic)
  unfolding decrypted
  load_mnemonic-store_mnemonic h coded =
      load_found w key _ db' password found
      ∙ rw (derived, h.decrypt-encrypt _ _ _ _ encrypts, coded)

  -- After a successful store, a load with a password that derives another key from the stored salt
  -- fails, if AES-GCM rejects another key.
  pub load_mnemonic_other_password :
      IsAuthentic w
      → (other : Text) (k k' : Key) → derive_aes_key w password salt pbkdf2_iterations ≡ ok k
      → derive_aes_key w other salt pbkdf2_iterations ≡ ok k'
      → k' ≢ k
      → (load_mnemonic w works key other db').0 ≡ err library
  unfolding decrypted
  load_mnemonic_other_password h other k k' e e' ne =
      let same : aes_key ≡ k = cc (derived, e) in
      load_found w key _ db' other found
      ∙ rw (e', h.decrypt-other _ _ _ _ _ encrypts (λ q. ne (q ∙ same)))
