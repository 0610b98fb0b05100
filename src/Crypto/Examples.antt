-- ===== src/Crypto/Examples.antt =====
-- Encryption of data in memory for twapi/base/tclobjs.c, and the theorem at it.
use twapi.Base.{ℕ, ◌-◌, ◌≡◌, refl, ap, some, List, [], ◌∷◌, length, AllBelow, arith}
use twapi.Crypto.Padding.{Rtl, buffer, bytes, encrypt_data, decrypt_data, padded_size}
use twapi.Crypto.RoundTrip.{IsCipher, decrypt_data-encrypt_data}

-- Every byte is complemented.
abbrev complement : List ℕ → List ℕ
complement [] = []
complement (b ∷ bs) = (255 - b) ∷ complement bs

abbrev flip : List ℕ → Rtl
flip bs = buffer (complement bs)

length-complement : (bs : List ℕ) → length (complement bs) ≡ length bs
length-complement [] = refl
length-complement (b ∷ bs) = omega (arith, length-complement bs)

complement-complement : (bs : List ℕ) → AllBelow 256 bs → complement (complement bs) ≡ bs
complement-complement [] h = refl
complement-complement (b ∷ bs) (lt, h) =
    let back : 255 - (255 - b) ≡ b = omega (arith, lt) in rw (back, complement-complement bs h) refl

flip-IsCipher : IsCipher flip flip
flip-IsCipher = record {
  undo = λ bs h m.
      (complement bs, (refl, (length-complement bs, ap buffer (complement-complement bs h))));
}

abbrev room : List ℕ
room = 0 ∷ 0 ∷ 0 ∷ 0 ∷ 0 ∷ 0 ∷ 0 ∷ 0 ∷ []

decrypt_data-encrypt_data_example :
    (enc : List ℕ) × ((encrypt_data (some flip) (1 ∷ 2 ∷ 3 ∷ []) (some room) ≡ bytes enc)
      × (decrypt_data (some flip) enc (some 8) ≡ bytes (1 ∷ 2 ∷ 3 ∷ [])))
unfolding padded_size
decrypt_data-encrypt_data_example =
    decrypt_data-encrypt_data flip flip flip-IsCipher (1 ∷ 2 ∷ 3 ∷ []) room 8
      (omega arith, (omega arith, (omega arith, tt)))
      (
        omega arith,
        (
          omega arith,
          (
            omega arith,
            (omega arith, (omega arith, (omega arith, (omega arith, (omega arith, tt))))),
          ),
        ),
      )
      (omega arith) (omega arith) (omega arith) (omega arith)
