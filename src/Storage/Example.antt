-- ===== src/Storage/Example.antt =====
-- A cipher to run the store on: the key, which is the length of its password, stands in front of the text.
use ucollection.Base.{
  ℕ, ◌≡◌, ◌≢◌, refl, Text, [], ◌∷◌, length, ◌==◌, nat_eq, nat_beq_iff, if◌then◌else◌, arith,
}
use ucollection.Base.Result.{Result, ok, err, library}
use ucollection.Crypto.{Bytes}
use ucollection.Storage.{
  derive_aes_key, Subtle, Db, works, with_store, encrypted, write_record, store_mnemonic,
}
use ucollection.Storage.Laws.{IsAuthentic}

abbrev open_box : ℕ → Bytes → Result Bytes
open_box k [] = err library
open_box k (j ∷ s) = if j == k then ok s else err library

-- A key is the length of its password.
abbrev pub toy_subtle : Subtle ℕ
toy_subtle = record {
  import_key = λ password. ok password;
  derive_key = λ d password. ok (length password);
  encrypt = λ k iv plain. ok (k ∷ plain);
  decrypt = λ k iv cipher. open_box k cipher;
  text_encode = λ s. s;
  text_decode = λ s. s;
}

pub toy_subtle-IsAuthentic : IsAuthentic toy_subtle
toy_subtle-IsAuthentic = record {
  decrypt-encrypt = λ k iv plain cipher e. opens k plain cipher e;
  decrypt-other = λ k k' iv plain cipher e ne. stays_shut k k' plain cipher e ne;
}
  where
    opens :
        (k : ℕ) (plain cipher : Bytes) → ok (k ∷ plain) ≡ ok cipher → open_box k cipher ≡ ok plain
    opens k plain cipher e =
        let same : k ∷ plain ≡ cipher = cc e in rw (← same, (nat_beq_iff k k).1 refl)

    stays_shut :
        (k k' : ℕ) (plain cipher : Bytes)
        → ok (k ∷ plain) ≡ ok cipher
        → k' ≢ k
        → open_box k' cipher ≡ err library
    stays_shut k k' plain cipher e ne =
        let same : k ∷ plain ≡ cipher = cc e in rw (← same) (ground (arith, nat_beq_iff k k'))

-- A store with this cipher succeeds where IndexedDB works.
pub store_mnemonic-toy_subtle :
    (key mnemonic password meta : Text) (salt iv : Bytes) (now : ℕ) (db : Db)
    → (store_mnemonic toy_subtle works key mnemonic password meta salt iv now db)
      ≡ (ok tt, (store_mnemonic toy_subtle works key mnemonic password meta salt iv now db).1)
unfolding store_mnemonic write_record encrypted with_store derive_aes_key
store_mnemonic-toy_subtle key mnemonic password meta salt iv now db = refl
