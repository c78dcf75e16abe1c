-- ===== src/Security/Sealed.antt =====
-- encrypt.go: sealing and opening of a provider's key.
use shimiaocheng_llm.Prelude.{
  ◌+◌, ◌≡◌, refl, sym, ◌++◌, Option, Bool-cases, ==_iff, inl, inr, subst, ◌∙◌, false, some, Text,
  ltb, ◌==◌, length, take, drop, Result, ok, arith, take-append, drop-append, length-append,
}
use shimiaocheng_llm.Security.{Aead, IsAead, CryptoError, encrypt, decrypt}

module _ (a : Aead) (law : IsAead a) (nonce plain key : Text) (k : length key ≡ 32)
    (n : length nonce ≡ 12) where
  -- What was encrypted: 28 bytes longer than the plaintext.
  pub encrypt_ok : encrypt a (some nonce) plain key ≡ ok (nonce ++ a.seal key nonce plain)
  unfolding encrypt
  encrypt_ok = rw k refl

  pub encrypt-length : length (nonce ++ a.seal key nonce plain) ≡ length plain + 28
  encrypt-length =
      omega
        (arith, length-append nonce (a.seal key nonce plain), law.seal_length key nonce plain, n)

  pub decrypt-sealed : decrypt a (nonce ++ a.seal key nonce plain) key ≡ ok plain
  unfolding decrypt
  decrypt-sealed = rw (k, long, front, back, law.unseal_seal key nonce plain) refl
    where
      long : ltb (length (nonce ++ a.seal key nonce plain)) 12 ≡ false
      long = ground (arith, encrypt-length)

      front : take 12 (nonce ++ a.seal key nonce plain) ≡ nonce
      front =
          subst (λ m. take m (nonce ++ a.seal key nonce plain) ≡ nonce) n
            (take-append nonce (a.seal key nonce plain))

      back : drop 12 (nonce ++ a.seal key nonce plain) ≡ a.seal key nonce plain
      back =
          subst (λ m. drop m (nonce ++ a.seal key nonce plain) ≡ a.seal key nonce plain) n
            (drop-append nonce (a.seal key nonce plain))

-- A key that `encrypt` accepts has 32 bytes.
encrypt-key :
    (a : Aead) (random : Option Text) (plain key cipher : Text)
    → encrypt a random plain key ≡ ok cipher
    → length key ≡ 32
unfolding encrypt
encrypt-key a random plain key cipher e = elim (Bool-cases (length key == 32)) [
  | inl t ↦ (==_iff (length key) 32).0 t
  | inr f ↦ cc
]

-- A text that was encrypted decrypts, under the same key, to the plaintext.
pub decrypt-encrypt :
    (a : Aead)
    → IsAead a
    → (nonce plain key cipher : Text) → length nonce ≡ 12
    → encrypt a (some nonce) plain key ≡ ok cipher
    → decrypt a cipher key ≡ ok plain
decrypt-encrypt a law nonce plain key cipher n e =
    let k = encrypt-key a (some nonce) plain key cipher e in
    let c = cipher_of (sym (encrypt_ok a law nonce plain key k n) ∙ e) in
    subst (λ t. decrypt a t key ≡ ok plain) c (decrypt-sealed a law nonce plain key k n)
  where
    cipher_of : {s t : Text} → ◌≡◌ {A = Result CryptoError Text} (ok s) (ok t) → s ≡ t
    cipher_of h = cc
