-- ===== src/Db/Crypto.antt =====
-- tg_conductor/db/crypto.py: AES-256-GCM with a fresh nonce before the ciphertext.
use tg_conductor.Base.{
  ℕ, zero, suc, ◌+◌, String, ◌≡◌, refl, ap, false, Option, none, some, List, [], ◌∷◌, ◌++◌, arith,
  ltb, ◌==◌, if◌then◌else◌, length, take, length-append,
}
use mathlib.Core.Path.{subst}
use tg_conductor.Base.Result.{Result, ok, err, ◌>>=◌}

abbrev pub Bytes : Type 0
Bytes = List ℕ

-- AESGCM, base64 and UTF-8. Bytes that do not decode, and a tag that does not fit, give none.
pub record Primitives : Type 0 where
  pub seal : Bytes → Bytes → Bytes → Bytes
  pub unseal : Bytes → Bytes → Bytes → Option Bytes
  pub utf8_encode : String → Bytes
  pub utf8_decode : Bytes → Option String
  pub b64encode : Bytes → String
  pub b64decode : String → Option Bytes

-- What the three libraries document.
pub record IsCodec (c : Primitives) : Type 0 where
  pub unseal-seal : (key nonce p : Bytes) → c.unseal key nonce (c.seal key nonce p) ≡ some p
  pub length-seal : (key nonce p : Bytes) → length (c.seal key nonce p) ≡ length p + 16
  pub utf8_decode-utf8_encode : (s : String) → c.utf8_decode (c.utf8_encode s) ≡ some s
  pub b64decode-b64encode : (b : Bytes) → c.b64decode (c.b64encode b) ≡ some b

pub data CryptoError : Type 0 where
  key_length : ℕ → CryptoError
  too_short invalid_tag bad_base64 bad_utf8 : CryptoError

abbrev pub or_raise {ℓ} : {A : Type ℓ} → CryptoError → Option A → Result CryptoError A
or_raise e none = err e
or_raise e (some x) = ok x

abbrev pub nonce_len : ℕ
nonce_len = 12

abbrev pub drop {ℓ} : {A : Type ℓ} → ℕ → List A → List A
drop zero xs = xs
drop (suc n) [] = []
drop (suc n) (x ∷ xs) = drop n xs

-- `master` is the key of the settings
unfoldable pub resolve_key : Bytes → Option Bytes → Result CryptoError Bytes
resolve_key master none = ok master
resolve_key master (some key) = if length key == 32 then ok key else err (key_length (length key))

pub take_prefix : (xs ys : Bytes) → take (length xs) (xs ++ ys) ≡ xs
take_prefix [] ys = refl
take_prefix (x ∷ xs) ys = ap (λ t. x ∷ t) (take_prefix xs ys)

drop_prefix : (xs ys : Bytes) → drop (length xs) (xs ++ ys) ≡ ys
drop_prefix [] ys = refl
drop_prefix (x ∷ xs) ys = drop_prefix xs ys

module _ (c : Primitives) (master : Bytes) where
  -- `nonce` is what os.urandom gives
  unfoldable pub encrypt : Bytes → Bytes → Option Bytes → Result CryptoError Bytes
  encrypt nonce plaintext key = do
    let k = (← resolve_key master key)
    ok (nonce ++ c.seal k nonce plaintext)

  unfoldable pub decrypt : Bytes → Option Bytes → Result CryptoError Bytes
  decrypt ciphertext key = if ltb (length ciphertext) (nonce_len + 16) then err too_short else do
    let k = (← resolve_key master key)
    or_raise invalid_tag (c.unseal k (take nonce_len ciphertext) (drop nonce_len ciphertext))

  unseal-body :
      IsCodec c
      → (nonce plaintext k : Bytes) → length nonce ≡ nonce_len
      → let e = nonce ++ c.seal k nonce plaintext in
        (ltb (length e) (nonce_len + 16) ≡ false)
        × (c.unseal k (take nonce_len e) (drop nonce_len e) ≡ some plaintext)
  unseal-body p nonce plaintext k n =
      let body = c.seal k nonce plaintext in
      let parts : (take nonce_len (nonce ++ body) ≡ nonce)
          × (drop nonce_len (nonce ++ body) ≡ body) =
        subst (λ m. (take m (nonce ++ body) ≡ nonce) × (drop m (nonce ++ body) ≡ body)) n
          (take_prefix nonce body, drop_prefix nonce body) in
      (
        ground (arith, length-append nonce body, p.length-seal k nonce plaintext, n),
        rw (parts.0, parts.1) (p.unseal-seal k nonce plaintext),
      )

  -- If the libraries keep their promises and the nonce has 12 bytes, then encryption followed by
  -- decryption under the same key, the settings' or a given one, ends as the choice of the key does:
  -- in its error, or in the plaintext.
  pub decrypt-encrypt :
      IsCodec c
      → (nonce plaintext : Bytes) (key : Option Bytes) → length nonce ≡ nonce_len
      → (encrypt nonce plaintext key >>= λ e. decrypt e key)
        ≡ (resolve_key master key >>= λ _. ok plaintext)
  unfolding encrypt decrypt
  decrypt-encrypt p nonce plaintext key n =
      elim (resolve_key master key)
        as (λ r.
          ((r >>= λ k. ok (nonce ++ c.seal k nonce plaintext)) >>= λ e.
          if ltb (length e) (nonce_len + 16)
          then err too_short
          else r >>= λ k. or_raise invalid_tag (c.unseal k (take nonce_len e) (drop nonce_len e)))
          ≡ (r >>= λ _. ok plaintext)) [
            | err e ↦ refl
            | ok k ↦ let body = unseal-body p nonce plaintext k n in rw body.0 (rw body.1 refl)
          ]
