-- ===== src/Security.antt =====
-- internal/security/encrypt.go: the keys of providers at rest. AES-256-GCM and SHA-256 are arguments;
-- the nonce is what the random source gave, `none` where reading it failed. A text is its bytes.
pub mod Sealed
pub mod Mask
use shimiaocheng_llm.Prelude.{
  ℕ, zero, suc, ◌+◌, ◌-◌, ◌≡◌, Bool, true, not, List, [], ◌∷◌, ◌++◌, Option, none, some, Text, text,
  ltb, leb, ◌==◌, if◌then◌else◌, length, take, drop, max, Result, ok, err,
}

-- `gcm.Seal` and `gcm.Open`, each of a key and a nonce.
pub record Aead : Type 0 where
  pub seal : Text → Text → Text → Text
  pub unseal : Text → Text → Text → Option Text

-- What the standard library documents: a sealed text opens under the key and the nonce it was
-- sealed with, and is the plaintext's length and a tag of 16 bytes long.
pub record IsAead (a : Aead) : Type 0 where
  pub unseal_seal :
      (key nonce plain : Text) → a.unseal key nonce (a.seal key nonce plain) ≡ some plain
  pub seal_length : (key nonce plain : Text) → length (a.seal key nonce plain) ≡ length plain + 16

pub data CryptoError : Type 0 where
  kek_not_set : CryptoError
  key_length : ℕ → CryptoError
  no_nonce : CryptoError
  too_short : ℕ → CryptoError
  not_opened : CryptoError

-- `DeriveKEK` on the value of the environment variable.
unfoldable pub derive_kek : (Text → Text) → Text → Result CryptoError Text
derive_kek sha256 [] = err kek_not_set
derive_kek sha256 (c ∷ raw) = ok (sha256 (c ∷ raw))

-- `Encrypt`: the nonce, then what was sealed.
unfoldable pub encrypt : Aead → Option Text → Text → Text → Result CryptoError Text
encrypt a nonce plain key =
    if not (length key == 32)
    then err (key_length (length key))
    else elim nonce [ none ↦ err no_nonce | some n ↦ ok (n ++ a.seal key n plain) ]

abbrev pub opened : Option Text → Result CryptoError Text
opened none = err not_opened
opened (some plain) = ok plain

-- `Decrypt`.
unfoldable pub decrypt : Aead → Text → Text → Result CryptoError Text
decrypt a cipher key =
    if not (length key == 32)
    then err (key_length (length key))
    else if ltb (length cipher) 12
    then err (too_short (length cipher))
    else opened (a.unseal key (take 12 cipher) (drop 12 cipher))

-- `stringsRepeat("*", n)`.
unfoldable pub stars : ℕ → Text
stars zero = []
stars (suc n) = b'*' ∷ stars n

-- `MaskKey`.
unfoldable pub mask_key : Text → Text
unfolding stars
mask_key key =
    let n = length key in
    if ltb n 4
    then text "****"
    else if leb n 8
    then take 2 key ++ stars (max (n - 4) 2) ++ drop (n - 2) key
    else take 4 key ++ stars (n - 8) ++ drop (n - 4) key
