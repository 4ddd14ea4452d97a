-- ===== src/Storage/Tests.antt =====
-- The store with a cipher that keeps the key in front of the text.
use ucollection.Base.{
  ◌≡◌, refl, Text, codes, List, [], ◌∷◌, All, text_beq, length, take, none, some, ◌==◌, nat_eq,
  if◌then◌else◌, text_eq,
}
use ucollection.Base.Result.{ok, err, library}
use ucollection.Storage.{
  derive_aes_key, Db, request_fails, works, with_store, encrypted, write_record, store_mnemonic,
  get_random_values, new_salt, new_iv, delete_stored, pbkdf2_iterations,
}
use ucollection.Storage.Example.{toy_subtle, toy_subtle-IsAuthentic}
use ucollection.Storage.Vault.{
  Entry, Command, save, forget, execute_all, command_all, IsCoded, Reads, execute_all-Reads,
}

abbrev empty : Db
empty = record { records = λ key. none; connections = 0 }

abbrev full : Db
full = record {
  records = λ key.
      if codes "key" == key
      then some (record {
        salt = [];
        iv = [];
        ciphertext = 2 ∷ codes "seed";
        iterations = pbkdf2_iterations;
        meta = codes "label";
        created_at = 5;
      })
      else none;
  connections = 0;
}

-- A store draws 28 bytes: the iv begins where the salt ends.
drawn :
    (length (new_salt (λ n. n)) ≡ 16)
    × (length (new_iv (λ n. n)) ≡ 12)
    × (take 2 (new_iv (λ n. n)) ≡ 16 ∷ 17 ∷ [])
unfolding get_random_values
drawn = (refl, refl, refl)

stored :
    store_mnemonic toy_subtle works
      (codes "key")
      (codes "seed")
      (codes "pw")
      (codes "label")
      []
      []
      5
      empty
    ≡ (ok tt, full)
unfolding store_mnemonic write_record encrypted with_store derive_aes_key
stored = refl

refused :
    (store_mnemonic toy_subtle request_fails
      (codes "key")
      (codes "s")
      (codes "pw")
      []
      []
      []
      5
      full).0
    ≡ err library
unfolding store_mnemonic write_record encrypted with_store derive_aes_key
refused = refl

abbrev wallet : Text → Entry
wallet mnemonic = record {
  mnemonic = mnemonic;
  password = codes "pw";
  meta = codes "label";
  created_at = 5;
}

-- A save that fails, two that work, and a deletion.
abbrev commands : List Command
commands =
    save request_fails (codes "key") (wallet (codes "lost")) [] []
    ∷ save works (codes "key") (wallet (codes "seed")) [] []
    ∷ save works (codes "other") (wallet (codes "words")) [] []
    ∷ forget works (codes "other")
    ∷ []

commands-IsCoded : All (IsCoded toy_subtle) commands
commands-IsCoded = (refl, (refl, (refl, (tt, tt))))

execute_all-Reads_example :
    Reads toy_subtle
      (execute_all toy_subtle commands empty)
      (codes "key")
      (command_all toy_subtle commands empty (λ j. none) (codes "key"))
execute_all-Reads_example =
    execute_all-Reads toy_subtle commands empty (codes "key") toy_subtle-IsAuthentic
      commands-IsCoded (λ j. refl)

-- The vault has the second entry under the key.
command_all_test :
    command_all toy_subtle commands empty (λ j. none) (codes "key") ≡ some (wallet (codes "seed"))
unfolding command_all store_mnemonic write_record encrypted with_store derive_aes_key delete_stored
    text_beq
command_all_test = refl
