-- ===== src/Keys/Sealed.antt =====
-- What src/keys/crypto.ts has sealed it opens again.
use micro_manus_services.Base.{◌≡◌, refl, ap, ◌∙◌, false, [], ◌∷◌, ◌++◌, arith, ◌==◌, Text, any}
use micro_manus_services.Db.{ok}
use micro_manus_services.Tools.FetchUrl.{split_dots}
use micro_manus_services.Keys.Crypto.{Cipher, join_dots, join_sealed, encrypt, open_parts, decrypt}

-- Bytes that base64 writes without a dot and reads back.
pub record IsEncoded (aes : Cipher) (bytes : Text) : Type 0 where
  pub dotless : any (λ c. c == 46) (aes.base64 bytes) ≡ false
  pub back : aes.from_base64 (aes.base64 bytes) ≡ bytes

split_dots-none : (t : Text) → any (λ c. c == 46) t ≡ false → split_dots t ≡ t ∷ []
unfolding split_dots
split_dots-none [] h = refl
split_dots-none (c ∷ cs) h = ground (arith, split_dots-none cs)

split_dots-cons :
    (t rest : Text)
    → any (λ c. c == 46) t ≡ false
    → split_dots (t ++ 46 ∷ rest) ≡ t ∷ split_dots rest
unfolding split_dots
split_dots-cons [] rest h = refl
split_dots-cons (c ∷ cs) rest h = ground (arith, split_dots-cons cs rest)

-- Splitting what was joined, from three parts without dots.
split_dots-join_dots :
    (a b c : Text)
    → any (λ x. x == 46) a ≡ false
    → any (λ x. x == 46) b ≡ false
    → any (λ x. x == 46) c ≡ false
    → split_dots (join_dots (a ∷ b ∷ c ∷ [])) ≡ a ∷ b ∷ c ∷ []
unfolding join_dots
split_dots-join_dots a b c h k l =
    split_dots-cons a (b ++ 46 ∷ c) h ∙ rw (split_dots-cons b c k) (rw (split_dots-none c l) refl)

-- Where base64 is read back and is without dots, and the cipher opens what it has sealed with the
-- same nonce, decryption gives the text that was encrypted.
pub decrypt-encrypt :
    (aes : Cipher) (iv plain : Text)
    → IsEncoded aes iv
    → IsEncoded aes (aes.seal iv plain).0
    → IsEncoded aes (aes.seal iv plain).1
    → aes.unseal iv (aes.seal iv plain).0 (aes.seal iv plain).1 ≡ ok plain
    → decrypt aes (encrypt aes iv plain) ≡ ok plain
unfolding decrypt encrypt join_sealed
decrypt-encrypt aes iv plain i t d h =
    ap (open_parts aes) (
      split_dots-join_dots (aes.base64 iv) (aes.base64 (aes.seal iv plain).0)
        (aes.base64 (aes.seal iv plain).1) i.dotless t.dotless d.dotless)
    ∙ opened
  where
    opened :
        aes.unseal
          (aes.from_base64 (aes.base64 iv))
          (aes.from_base64 (aes.base64 (aes.seal iv plain).0))
          (aes.from_base64 (aes.base64 (aes.seal iv plain).1))
        ≡ ok plain
    opened = rw i.back (rw t.back (rw d.back h))
