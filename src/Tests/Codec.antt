-- ===== src/Tests/Codec.antt =====
-- A cipher, an alphabet and an encoding for the tests.
use Prim.Native.Char.{char, code, IsLt, IsScalar}
use Prim.Native.Nat.{Ordering, compare}
use Prim.Native.String.{String, [] as empty, ◌∷◌ as cons}
use text.Mathlib.TextEquality.{IsScalar-prop}
use mathlib.Core.Path.{◌≡◌, refl, ap, ◌∙◌, subst}
use mathlib.Core.Option.{Option, none, some}
use tg_conductor.Base.{
  ℕ, zero, suc, ◌+◌, ◌-◌, [], ◌∷◌, ◌++◌, arith, length, take, length-append, ◌==◌, if◌then◌else◌,
}
use tg_conductor.Db.Crypto.{Bytes, take_prefix, Primitives, IsCodec}

abbrev lt_cases : (o : Ordering) → Option (IsLt o)
lt_cases Ordering.lt = some tt
lt_cases Ordering.eq = none
lt_cases Ordering.gt = none

abbrev Both : Ordering → Ordering → Type 0
Both Ordering.lt o = IsLt o
Both Ordering.eq _ = ⊥
Both Ordering.gt _ = ⊥

abbrev Scalar : Ordering → Ordering → Ordering → Type 0
Scalar Ordering.lt _ _ = Unit
Scalar Ordering.eq o p = Both o p
Scalar Ordering.gt o p = Both o p

abbrev both_cases : (o p : Ordering) → Option (Both o p)
both_cases Ordering.lt p = lt_cases p
both_cases Ordering.eq p = none
both_cases Ordering.gt p = none

abbrev scalar_cases : (o p q : Ordering) → Option (Scalar o p q)
scalar_cases Ordering.lt p q = some tt
scalar_cases Ordering.eq p q = both_cases p q
scalar_cases Ordering.gt p q = both_cases p q

lt_cases_of : (o : Ordering) → IsLt o → (h : IsLt o) × (lt_cases o ≡ some h)
lt_cases_of Ordering.lt h = (tt, refl)
lt_cases_of Ordering.eq h = absurd h
lt_cases_of Ordering.gt h = absurd h

both_cases_of : (o p : Ordering) → Both o p → (h : Both o p) × (both_cases o p ≡ some h)
both_cases_of Ordering.lt p h = lt_cases_of p h
both_cases_of Ordering.eq p h = absurd h
both_cases_of Ordering.gt p h = absurd h

scalar_cases_of :
    (o p q : Ordering) → Scalar o p q → (h : Scalar o p q) × (scalar_cases o p q ≡ some h)
scalar_cases_of Ordering.lt p q h = (tt, refl)
scalar_cases_of Ordering.eq p q h = both_cases_of p q h
scalar_cases_of Ordering.gt p q h = both_cases_of p q h

abbrev is_scalar : (n : ℕ) → Option (IsScalar n)
is_scalar n = scalar_cases (compare n 55296) (compare 57343 n) (compare n 1114112)

pub utf8_encode : String → Bytes
utf8_encode empty = []
utf8_encode (cons c s) = code c ∷ utf8_encode s

abbrev char_of : (n : ℕ) → Option (IsScalar n) → Option String → Option String
char_of n (some h) (some s) = some (cons (char n h) s)
char_of n _ _ = none

pub utf8_decode : Bytes → Option String
utf8_decode [] = some empty
utf8_decode (n ∷ ns) = char_of n (is_scalar n) (utf8_decode ns)

utf8_decode-utf8_encode : (s : String) → utf8_decode (utf8_encode s) ≡ some s
unfolding utf8_encode utf8_decode
utf8_decode-utf8_encode empty = refl
utf8_decode-utf8_encode (cons (char n h) s) =
    let (g, found) = scalar_cases_of (compare n 55296) (compare 57343 n) (compare n 1114112) h in
    ap (λ o. char_of n o (utf8_decode (utf8_encode s))) found
    ∙ ap (char_of n (some g)) (utf8_decode-utf8_encode s)
    ∙ ap (λ p. some (cons (char n p) s)) (IsScalar-prop n g h)

-- a number in unary, as so many 0s and a 1
unary : ℕ → String → String
unary zero s = cons (char 49 tt) s
unary (suc n) s = cons (char 48 tt) (unary n s)

pub b64encode : Bytes → String
b64encode [] = empty
b64encode (n ∷ ns) = unary n (b64encode ns)

b64digits : ℕ → String → Bytes
b64digits k empty = []
b64digits k (cons c s) = if code c == 48 then b64digits (suc k) s else k ∷ b64digits 0 s

pub b64decode : String → Option Bytes
b64decode s = some (b64digits 0 s)

b64digits-unary : (k n : ℕ) (s : String) → b64digits k (unary n s) ≡ (k + n) ∷ b64digits 0 s
unfolding b64digits unary
b64digits-unary k zero s = ap (λ m. m ∷ b64digits 0 s) (omega arith)
b64digits-unary k (suc n) s =
    b64digits-unary (suc k) n s ∙ ap (λ m. m ∷ b64digits 0 s) (omega arith)

b64digits-b64encode : (b : Bytes) → b64digits 0 (b64encode b) ≡ b
unfolding b64digits b64encode
b64digits-b64encode [] = refl
b64digits-b64encode (n ∷ ns) =
    b64digits-unary 0 n (b64encode ns)
    ∙ ap (λ m. m ∷ b64digits 0 (b64encode ns)) (omega arith)
    ∙ ap (λ t. n ∷ t) (b64digits-b64encode ns)

abbrev pub tag : Bytes
tag = 0 ∷ 0 ∷ 0 ∷ 0 ∷ 0 ∷ 0 ∷ 0 ∷ 0 ∷ 0 ∷ 0 ∷ 0 ∷ 0 ∷ 0 ∷ 0 ∷ 0 ∷ 0 ∷ []

pub untag : Bytes → Bytes
untag b = take (length b - 16) b

untag-tag : (p : Bytes) → untag (p ++ tag) ≡ p
unfolding untag
untag-tag p =
    subst (λ n. take n (p ++ tag) ≡ p) (omega (arith, length-append p tag)) (take_prefix p tag)

abbrev pub codec : Primitives
codec = record {
  seal = λ key nonce p. p ++ tag;
  unseal = λ key nonce b. some (untag b);
  utf8_encode = utf8_encode;
  utf8_decode = utf8_decode;
  b64encode = b64encode;
  b64decode = b64decode;
}

pub codec-IsCodec : IsCodec codec
unfolding b64decode
codec-IsCodec = record {
  unseal-seal = λ key nonce p. ap some (untag-tag p);
  length-seal = λ key nonce p. length-append p tag;
  utf8_decode-utf8_encode = utf8_decode-utf8_encode;
  b64decode-b64encode = λ b. ap some (b64digits-b64encode b);
}
