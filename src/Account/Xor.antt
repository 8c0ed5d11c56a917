-- ===== src/Account/Xor.antt =====
-- The exclusive or of bytes with a key that repeats: internal/account/crypto.go.
use t_chat.Base.{
  ℕ, zero, suc, ◌+◌, ◌*◌, ◌/◌, ◌%◌, ◌<◌, ◌≡◌, refl, ap₂, Bool, true, false, none, some, [], ◌∷◌,
  Bytes, length, get_elem?, All, arith,
}

abbrev pub is_empty : Bytes → Bool
is_empty [] = true
is_empty (b ∷ bs) = false

-- The exclusive or of two numbers of some binary digits.
unfoldable pub xor_digits : ℕ → ℕ → ℕ → ℕ
xor_digits zero a b = 0
xor_digits (suc n) a b = (a + b) % 2 + 2 * xor_digits n (a / 2) (b / 2)

abbrev pub byte_at : Bytes → ℕ → ℕ
byte_at key i = elim (get_elem? key i) [ none ↦ 0 | some b ↦ b ]

-- The loop of EncryptBytes and DecryptBytes: the index `i` of the first byte.
unfoldable pub xor_from : Bytes → ℕ → Bytes → Bytes
unfolding xor_digits
xor_from key i [] = []
xor_from key i (b ∷ bytes) =
    xor_digits 8 b (byte_at key (i % length key)) ∷ xor_from key (suc i) bytes

-- A number of so many binary digits.
abbrev Fits : ℕ → ℕ → Type 0
Fits zero a = a ≡ 0
Fits (suc n) a = Fits n (a / 2)

xor_digits_twice : (n a b : ℕ) → Fits n a → xor_digits n (xor_digits n a b) b ≡ a
unfolding xor_digits
xor_digits_twice zero a b h = omega arith
xor_digits_twice (suc n) a b h =
    let half : ((a + b) % 2 + 2 * xor_digits n (a / 2) (b / 2)) / 2 ≡ xor_digits n (a / 2) (b / 2) =
      omega arith in
    rw half (omega (arith, xor_digits_twice n (a / 2) (b / 2) h))

abbrev pub AreBytes : Bytes → Type 0
AreBytes = All (λ b. b < 256)

-- Doing it twice gives the bytes back.
pub xor_from_twice :
    (key : Bytes) (i : ℕ) (bytes : Bytes)
    → AreBytes bytes
    → xor_from key i (xor_from key i bytes) ≡ bytes
unfolding xor_from
xor_from_twice key i [] h = refl
xor_from_twice key i (b ∷ bytes) h =
    ap₂ (λ c cs. c ∷ cs) (xor_digits_twice 8 b (byte_at key (i % length key)) (omega (arith, h.0)))
      (xor_from_twice key (suc i) bytes h.1)

pub xor_from-filled :
    (key : Bytes) (i : ℕ) (bytes : Bytes)
    → is_empty bytes ≡ false
    → is_empty (xor_from key i bytes) ≡ false
unfolding xor_from
xor_from-filled key i [] h = h
xor_from-filled key i (b ∷ bytes) h = refl
