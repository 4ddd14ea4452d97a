-- ===== src/Storage/Vault.antt =====
-- What the store promises: a vault of mnemonics behind passwords. The encrypted records of IndexedDB
-- implement it, whatever operations fail on the way.
use ucollection.Base.{
  ℕ, ◌≡◌, refl, sym, ap, ◌∙◌, inl, inr, Text, List, [], ◌∷◌, Bool, true, false, Option, none, some,
  All, text_eq, text_beq, if◌then◌else◌, Bool-cases,
}
use ucollection.Base.Result.{Result, ok, err}
use ucollection.Crypto.{Bytes}
use ucollection.Storage.{
  Subtle, Stored, Db, Access, open_fails, request_fails, works, update, with_store, store_mnemonic,
  decrypted, load_record, load_mnemonic, get_record, get_meta, delete_stored,
}
use ucollection.Storage.Laws.{
  IsAuthentic, record_of, Stores, store_mnemonic-Stores, store_mnemonic-failed,
}

-- What the user has put under a key.
pub record Entry : Type 0 where
  pub mnemonic : Text
  pub password : Text
  pub meta : Text
  pub created_at : ℕ

abbrev pub Vault : Type 0
Vault = Text → Option Entry

-- An operation on the store, with the answer of IndexedDB, the random values and the time.
pub data Command : Type 0 where
  save : Access → Text → Entry → Bytes → Bytes → Command
  forget : Access → Text → Command

abbrev pub is_ok {ℓ} : {A : Type ℓ} → Result A → Bool
is_ok (ok a) = true
is_ok (err e) = false

abbrev change : Vault → Text → Option Entry → Vault
change v key entry j = if text_beq key j then entry else v j

-- The vault after an operation that has succeeded, or has not.
abbrev pub command : Command → Bool → Vault → Vault
command (save access key entry salt iv) true v = change v key (some entry)
command (forget access key) true v = change v key none
command (save access key entry salt iv) false v = v
command (forget access key) false v = v

module _ {Key : Type 0} (w : Subtle Key) where
  abbrev pub execute : Command → Db → Result (Unit {0}) × Db
  execute (save access key e salt iv) db =
      store_mnemonic w access key e.mnemonic e.password e.meta salt iv e.created_at db
  execute (forget access key) db = delete_stored access key db

  -- The two sides, run together: whether an operation succeeds is decided by the store.
  unfoldable pub execute_all : List Command → Db → Db
  execute_all [] db = db
  execute_all (c ∷ cs) db = execute_all cs (execute c db).1

  unfoldable pub command_all : List Command → Db → Vault → Vault
  command_all [] db v = v
  command_all (c ∷ cs) db v = command_all cs (execute c db).1 (command c (is_ok (execute c db).0) v)

  -- A record stands for an entry: it shows the label and the date, and the password opens it.
  abbrev pub Holds : Option Stored → Option Entry → Type 0
  Holds none none = Unit
  Holds none (some e) = ⊥
  Holds (some r) none = ⊥
  Holds (some r) (some e) =
      (r.meta ≡ e.meta) × (r.created_at ≡ e.created_at) × (decrypted w r e.password ≡ ok e.mnemonic)

  abbrev pub Represents : Db → Vault → Type 0
  Represents db v = (key : Text) → Holds (db.records key) (v key)

  -- The text coders read the mnemonic back.
  abbrev pub IsCoded : Command → Type 0
  IsCoded (save access key e salt iv) = w.text_decode (w.text_encode e.mnemonic) ≡ e.mnemonic
  IsCoded (forget access key) = Unit

  update-Holds :
      (records : Text → Option Stored) (v : Vault) (key : Text) (r : Option Stored)
      (e : Option Entry)
      → Holds r e
      → ((j : Text) → Holds (records j) (v j))
      → (j : Text) → Holds (update records key r j) (change v key e j)
  update-Holds records v key r e h all j = elim (Bool-cases (text_beq key j)) [
    | inl same ↦ rw same h
    | inr other ↦ rw other (all j)
  ]

  saved-Holds :
      (key : Text) (e : Entry) (salt iv : Bytes) (db db' : Db)
      → IsAuthentic w
      → w.text_decode (w.text_encode e.mnemonic) ≡ e.mnemonic
      → (s : Stores w key e.mnemonic e.password e.meta salt iv e.created_at db db')
      → Holds
          (some (record_of w key e.mnemonic e.password e.meta salt iv e.created_at s.ciphertext))
          (some e)
  unfolding decrypted
  saved-Holds key e salt iv db db' a coded s =
      (refl, refl, rw (s.derived, a.decrypt-encrypt _ _ _ _ s.encrypts, coded) refl)

  save-Represents :
      (access : Access) (key : Text) (e : Entry) (salt iv : Bytes) (db : Db) (v : Vault)
      (r : Result (Unit {0})) (db' : Db)
      → store_mnemonic w access key e.mnemonic e.password e.meta salt iv e.created_at db ≡ (r, db')
      → IsAuthentic w
      → w.text_decode (w.text_encode e.mnemonic) ≡ e.mnemonic
      → Represents db v
      → Represents db' (command (save access key e salt iv) (is_ok r) v)
  save-Represents access key e salt iv db v (ok u) db' h a coded rep =
      let s =
        store_mnemonic-Stores w key e.mnemonic e.password e.meta salt iv e.created_at access db db'
          h in
      λ j. rw (ap (λ f. f j) s.written) (
        update-Holds db.records v key _ (some e) (saved-Holds key e salt iv db db' a coded s) rep j)
  save-Represents access key e salt iv db v (err f) db' h a coded rep =
      let (kept, _) =
        store_mnemonic-failed w access key e.mnemonic e.password e.meta salt iv e.created_at db
          (ap (λ p. p.0) h) in
      let same : db'.records ≡ db.records = sym (ap (λ p. p.1.records) h) ∙ kept in
      λ j. rw (ap (λ f. f j) same) (rep j)

  execute-Represents :
      (c : Command) (db : Db) (v : Vault)
      → IsAuthentic w
      → IsCoded c
      → Represents db v
      → Represents (execute c db).1 (command c (is_ok (execute c db).0) v)
  unfolding delete_stored with_store
  execute-Represents (save access key e salt iv) db v a coded rep =
      save-Represents access key e salt iv db v _ _ refl a coded rep
  execute-Represents (forget open_fails key) db v a coded rep = rep
  execute-Represents (forget request_fails key) db v a coded rep = rep
  execute-Represents (forget works key) db v a coded rep =
      update-Holds db.records v key none none tt rep

  execute_all-Represents :
      (cs : List Command) (db : Db) (v : Vault)
      → IsAuthentic w
      → All IsCoded cs
      → Represents db v
      → Represents (execute_all cs db) (command_all cs db v)
  unfolding execute_all command_all
  execute_all-Represents [] db v a _ rep = rep
  execute_all-Represents (c ∷ cs) db v a (coded, all) rep =
      execute_all-Represents cs (execute c db).1 _ a all (execute-Represents c db v a coded rep)

  -- What the page reads under a key is what the vault has there.
  abbrev pub Reads : Db → Text → Option Entry → Type 0
  Reads db key none =
      ((get_meta works key db).0 ≡ ok none)
      × ((password : Text) → (load_mnemonic w works key password db).0 ≡ ok none)
  Reads db key (some e) =
      ((get_meta works key db).0 ≡ ok (some (e.meta, e.created_at)))
      × ((load_mnemonic w works key e.password db).0 ≡ ok (some e.mnemonic))

  Reads-of_Holds :
      (db : Db) (key : Text) (r : Option Stored) (entry : Option Entry)
      → db.records key ≡ r
      → Holds r entry
      → Reads db key entry
  unfolding get_meta load_mnemonic get_record load_record with_store
  Reads-of_Holds db key none none found _ = (rw found refl, λ password. rw found refl)
  Reads-of_Holds db key none (some e) found h = absurd h
  Reads-of_Holds db key (some r) none found h = absurd h
  Reads-of_Holds db key (some r) (some e) found (m, d, t) =
      (rw found (λ i. ok (some (m i, d i))), rw (found, t) refl)

  -- The encrypted store implements a vault: after any saves and deletions of an empty store, of
  -- which any may fail, an attempt to read under a key finds the label, the date and, with its
  -- password, the mnemonic that the vault has there, or nothing where the vault has nothing.
  -- Required are an authentic cipher and that the text coders read the saved mnemonics back.
  pub execute_all-Reads :
      (cs : List Command) (db : Db) (key : Text)
      → IsAuthentic w
      → All IsCoded cs
      → ((j : Text) → db.records j ≡ none)
      → Reads (execute_all cs db) key (command_all cs db (λ j. none) key)
  execute_all-Reads cs db key a coded empty =
      Reads-of_Holds (execute_all cs db) key _ _ refl
        (execute_all-Represents cs db (λ j. none) a coded (λ j. rw (empty j) tt) key)
