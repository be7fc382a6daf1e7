-- ===== src/Codec.antt =====
-- The serialization library (e::buffer, e::unpacker), which the source calls and does not hold:
-- packing an unsigned integer appends a fixed number of bytes, and unpacking reads them back. A read
-- that does not succeed puts the unpacker in error, and each later read then fails too: `none`.
use wtf.Prelude.{ℕ, ◌<◌, ◌^◌, ◌≡◌, refl, Option, none, some, List, [], ◌∷◌, ◌++◌, length, word}

abbrev pub Bytes : Type 0
Bytes = List ℕ

-- A read: the value and the bytes that are left.
abbrev pub Reader {ℓ} : Type ℓ → Type ℓ
Reader A = Bytes → Option (A × Bytes)

infixl 5 ◌>>=◌
abbrev pub ◌>>=◌ {ℓ κ} : {A : Type ℓ} {B : Type κ} → Reader A → (A → Reader B) → Reader B
◌>>=◌ m f b = elim (m b) [ none ↦ none | some (a, b') ↦ f a b' ]

abbrev pub done {ℓ} : {A : Type ℓ} → A → Reader A
done a b = some (a, b)

pub record Codec : Type 0 where
  pub put8 : ℕ → Bytes
  pub put32 : ℕ → Bytes
  pub put64 : ℕ → Bytes
  pub get8 : Reader ℕ
  pub get32 : Reader ℕ
  pub get64 : Reader ℕ
  pub get8-put8 : (n : ℕ) (rest : Bytes) → n < 2 ^ 8 → get8 (put8 n ++ rest) ≡ some (n, rest)
  pub get32-put32 : (n : ℕ) (rest : Bytes) → n < 2 ^ 32 → get32 (put32 n ++ rest) ≡ some (n, rest)
  pub get64-put64 : (n : ℕ) (rest : Bytes) → n < word → get64 (put64 n ++ rest) ≡ some (n, rest)
  pub length-put8 : (n : ℕ) → length (put8 n) ≡ 1
  pub length-put32 : (n : ℕ) → length (put32 n) ≡ 4
  pub length-put64 : (n : ℕ) → length (put64 n) ≡ 8

-- A codec that meets the laws: a number in the first byte, and zeros.
abbrev put_padded : List ℕ → ℕ → Bytes
put_padded pad n = n ∷ pad

abbrev zeros3 : List ℕ
zeros3 = 0 ∷ 0 ∷ 0 ∷ []

abbrev zeros7 : List ℕ
zeros7 = 0 ∷ 0 ∷ 0 ∷ 0 ∷ zeros3

abbrev get1 : Reader ℕ
get1 [] = none
get1 (n ∷ b) = some (n, b)

abbrev get4 : Reader ℕ
get4 (n ∷ _ ∷ _ ∷ _ ∷ b) = some (n, b)
get4 _ = none

abbrev get8_bytes : Reader ℕ
get8_bytes (n ∷ _ ∷ _ ∷ _ ∷ _ ∷ _ ∷ _ ∷ _ ∷ b) = some (n, b)
get8_bytes _ = none

abbrev pub padded : Codec
padded = record {
  put8 = put_padded [];
  put32 = put_padded zeros3;
  put64 = put_padded zeros7;
  get8 = get1;
  get32 = get4;
  get64 = get8_bytes;
  get8-put8 = λ n rest h. refl;
  get32-put32 = λ n rest h. refl;
  get64-put64 = λ n rest h. refl;
  length-put8 = λ n. refl;
  length-put32 = λ n. refl;
  length-put64 = λ n. refl;
}
