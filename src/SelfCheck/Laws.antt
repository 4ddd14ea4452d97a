-- ===== src/SelfCheck/Laws.antt =====
-- The self-check reads back what was signed, and lets nothing else pass.
use ucollection.Base.{
  ℕ, zero, suc, ◌+◌, ◌-◌, ◌%◌, ◌≡◌, refl, sym, ap, ◌∙◌, Text, [], ◌∷◌, ◌++◌, some, ◌==◌, text_eq,
  length, length-append, replicate, All, All-append, take, drop, arith, append_assoc, append-nil,
}
use ucollection.Base.Result.{ok, ◌>>=◌}
use ucollection.Crypto.{Bytes, IsByte, Crypto, IsLawful}
use ucollection.Crypto.Arrays.{
  subarray, write_at-start, write_at-append, drop-length, take-prefix, take-drop, length-halves,
}
use ucollection.TronAddress.{public_key_to_tron_address}
use ucollection.Sign.{Transaction, to_rsv}
use ucollection.Sign.Laws.{Signed, to_rsv_halves}
use ucollection.SelfCheck.{
  to_recovered, verify_hex, verify_signature, verify_fields, verify_signer_address,
}

module _ (v : ℕ) (r s : Bytes) (hr : length r ≡ 32) (hs : length s ≡ 32) where
  r_part : subarray 0 32 (r ++ (s ++ v ∷ [])) ≡ r
  r_part = take-prefix r (s ++ v ∷ []) 32 hr

  s_part : subarray 32 64 (r ++ (s ++ v ∷ [])) ≡ s
  s_part = ap (take 32) (drop-length r (s ++ v ∷ []) 32 hr) ∙ take-prefix s (v ∷ []) 32 hs

  v_part : drop 64 (r ++ (s ++ v ∷ [])) ≡ v ∷ []
  v_part =
      let both : length (r ++ s) ≡ 64 = omega (arith, length-append r s) in
      rw (← append_assoc r s (v ∷ [])) (drop-length (r ++ s) (v ∷ []) 64 both)

  to_recovered_halves : to_recovered (r ++ (s ++ v ∷ [])) ≡ ((v + 256 - 27) % 256) ∷ (r ++ s)
  unfolding to_recovered
  to_recovered_halves =
      let byte = (v + 256 - 27) % 256 in
      let ahead : length (byte ∷ r) ≡ 33 = omega arith in
      rw (
        r_part,
        s_part,
        v_part,
        write_at-start (byte ∷ []) (0 ∷ []) (replicate 64 0) refl,
        write_at-append 1 r (byte ∷ []) (replicate 64 0) refl,
        write_at-start r (replicate 32 0) (replicate 32 0) hr,
        write_at-append 33 s (byte ∷ r) (replicate 32 0) ahead,
        write_at-start s (replicate 32 0) [] hs,
        append-nil,
      )

-- The self-check puts back what the signing has rearranged, for every signature of 65 bytes.
pub to_recovered-to_rsv :
    (sig : Bytes) → length sig ≡ 65 → All IsByte sig → to_recovered (to_rsv sig) ≡ sig
to_recovered-to_rsv [] h _ = absurd (omega arith)
to_recovered-to_rsv (b ∷ rs) h (byte, _) =
    let (hr, hs) = length-halves 32 32 rs (omega arith) in
    let back : ((b + 27) % 256 + 256 - 27) % 256 ≡ b = omega arith in
    let whole = take-drop 32 rs in
    ap (λ l. to_recovered (to_rsv (b ∷ l))) (sym whole)
    ∙ ap to_recovered (to_rsv_halves b (take 32 rs) (drop 32 rs) hr hs)
    ∙ to_recovered_halves ((b + 27) % 256) (take 32 rs) (drop 32 rs) hr hs
    ∙ rw (back, whole)

-- What a signature in the chain's layout is: 65 bytes, made of two halves and a byte.
abbrev pub IsRsv : Bytes → Type 0
IsRsv rsv = (length rsv ≡ 65) × All IsByte rsv

All-take : (n : ℕ) (s : Bytes) → All IsByte s → All IsByte (take n s)
All-take zero s h = tt
All-take (suc n) [] h = tt
All-take (suc n) (x ∷ s) (h, hs) = (h, All-take n s hs)

All-drop : (n : ℕ) (s : Bytes) → All IsByte s → All IsByte (drop n s)
All-drop zero s h = h
All-drop (suc n) [] h = tt
All-drop (suc n) (x ∷ s) (h, hs) = All-drop n s hs

pub to_rsv-IsRsv : (sig : Bytes) → length sig ≡ 65 → All IsByte sig → IsRsv (to_rsv sig)
to_rsv-IsRsv [] h _ = absurd (omega arith)
to_rsv-IsRsv (b ∷ rs) h (byte, bytes) =
    let (hr, hs) = length-halves 32 32 rs (omega arith) in
    let v = (b + 27) % 256 in
    let e = to_rsv_halves b (take 32 rs) (drop 32 rs) hr hs in
    let e' = ap (λ l. to_rsv (b ∷ l)) (sym (take-drop 32 rs)) ∙ e in
    let tail : All IsByte (drop 32 rs ++ v ∷ []) =
      All-append IsByte (drop 32 rs) (v ∷ []) (All-drop 32 rs bytes) (omega arith, tt) in
    rw e' (
      omega (
        arith,
        length-append (take 32 rs) (drop 32 rs ++ v ∷ []),
        length-append (drop 32 rs) (v ∷ []),
      ),
      All-append IsByte (take 32 rs) _ (All-take 32 rs bytes) tail,
    )

module _ (c : Crypto) (lawful : IsLawful c) where
  verify_signature_signed :
      (sig : Bytes) (tx_id : Text) (tx_id_bytes public_key : Bytes) (expected : Text)
      → length sig ≡ 65
      → All IsByte sig
      → c.hex_to_bytes tx_id ≡ ok tx_id_bytes
      → c.recover_public_key sig tx_id_bytes ≡ ok public_key
      → verify_signature c (c.bytes_to_hex (to_rsv sig) ∷ []) tx_id expected
        ≡ (public_key_to_tron_address c public_key >>= λ a. ok (a == expected))
  unfolding verify_signature verify_hex
  verify_signature_signed sig tx_id tx_id_bytes public_key expected n bytes e e' =
      let (n', bytes') = to_rsv-IsRsv sig n bytes in
      let sized : length (c.bytes_to_hex (to_rsv sig)) ≡ 130 =
        omega (arith, lawful.length-bytes_to_hex (to_rsv sig)) in
      rw (
        sized,
        lawful.hex_to_bytes-bytes_to_hex (to_rsv sig) bytes',
        e,
        to_recovered-to_rsv sig n bytes,
        e',
      )

  -- With lawful libraries, the self-check of a transaction that was signed with a key computes the
  -- address of the public key of that key and compares it with the expected one.
  pub verify-sign :
      (t t' : Transaction) (key public_key : Bytes) (expected : Text)
      → Signed c t key t'
      → c.get_public_key key ≡ ok public_key
      → verify_signer_address c (some t') expected
        ≡ (public_key_to_tron_address c public_key >>= λ a. ok (a == expected))
  unfolding verify_signer_address verify_fields
  verify-sign t t' key public_key expected s pk =
      rw (s.result, s.has_tx_id)
        (verify_signature_signed s.sig s.tx_id s.tx_id_bytes public_key expected
          (lawful.length-sign _ _ _ s.signs) (lawful.sign-IsByte _ _ _ s.signs) s.reads_tx_id
          (lawful.recover-sign _ _ _ _ s.signs pk))
