-- ===== src/Keys/Crypto.antt =====
-- src/keys/crypto.ts: how a key is kept. AES-256-GCM and base64 are parameters; bytes are lists of
-- numbers.
use micro_manus_services.Base.{none, List, [], ◌∷◌, ◌++◌, Text, codes}
use micro_manus_services.Db.{Result, err, other}
use micro_manus_services.Tools.FetchUrl.{split_dots}

-- The platform's cipher at the server's key: a nonce and a text give a tag and the encrypted bytes.
-- Opening throws where they do not fit.
pub record Cipher : Type 0 where
  pub seal : (iv plain : Text) → Text × Text
  pub unseal : (iv tag enc : Text) → Result Text
  pub base64 : Text → Text
  pub from_base64 : Text → Text

-- `.join('.')`
unfoldable pub join_dots : List Text → Text
join_dots [] = []
join_dots (p ∷ []) = p
join_dots (p ∷ q ∷ ps) = p ++ 46 ∷ join_dots (q ∷ ps)

module _ (aes : Cipher) where
  unfoldable pub join_sealed : (iv : Text) → Text × Text → Text
  unfolding join_dots
  join_sealed iv (tag, enc) = join_dots (aes.base64 iv ∷ aes.base64 tag ∷ aes.base64 enc ∷ [])

  unfoldable pub encrypt : (iv plain : Text) → Text
  unfolding join_sealed
  encrypt iv plain = join_sealed iv (aes.seal iv plain)

  -- A part that is missing is undefined, which the cipher refuses.
  abbrev pub open_parts : List Text → Result Text
  open_parts (iv ∷ tag ∷ enc ∷ rest) =
      aes.unseal (aes.from_base64 iv) (aes.from_base64 tag) (aes.from_base64 enc)
  open_parts _ = err (other none (codes "Invalid initialization vector"))

  unfoldable pub decrypt : Text → Result Text
  unfolding split_dots
  decrypt payload = open_parts (split_dots payload)
