-- ===== src/Crypto/RoundTrip.antt =====
-- `TwapiDecryptData` after `TwapiEncryptData` of twapi/base/tclobjs.c.
use twapi.Base.{
  ℕ, zero, suc, ◌+◌, ◌-◌, ◌%◌, ◌^◌, leb, ◌≤◌, ◌<◌, ◌≡◌, refl, sym, ap, ◌∙◌, true, false, some, List,
  [], ◌∷◌, ◌++◌, length, length-append, take, drop, AllBelow, arith, ltb, ◌==◌, append_assoc,
}
use twapi.Crypto.Padding.{
  Rtl, buffer, bytes, block_size, padded_size, pad_length, pad, encrypt_data, last_byte, unpad,
  int_gt, decrypt_data,
}

-- The two functions of Windows undo each other on whole blocks of bytes, and keep the length.
pub record IsCipher (encrypt decrypt : List ℕ → Rtl) : Type 0 where
  pub undo :
      (bs : List ℕ)
      → AllBelow 256 bs
      → length bs % block_size ≡ 0
      → (cs : List ℕ) × ((encrypt bs ≡ buffer cs)
          × ((length cs ≡ length bs) × (decrypt cs ≡ buffer bs)))

AllBelow-append : (n : ℕ) (xs ys : List ℕ) → AllBelow n xs → AllBelow n ys → AllBelow n (xs ++ ys)
AllBelow-append n [] ys h k = k
AllBelow-append n (x ∷ xs) ys (lt, h) k = (lt, AllBelow-append n xs ys h k)

AllBelow-take : (n k : ℕ) (xs : List ℕ) → AllBelow n xs → AllBelow n (take k xs)
AllBelow-take n zero xs h = tt
AllBelow-take n (suc k) [] h = tt
AllBelow-take n (suc k) (x ∷ xs) (lt, h) = (lt, AllBelow-take n k xs h)

AllBelow-drop : (n k : ℕ) (xs : List ℕ) → AllBelow n xs → AllBelow n (drop k xs)
AllBelow-drop n zero xs h = h
AllBelow-drop n (suc k) [] h = tt
AllBelow-drop n (suc k) (x ∷ xs) (lt, h) = AllBelow-drop n k xs h

length-take : (k : ℕ) (xs : List ℕ) → k ≤ length xs → length (take k xs) ≡ k
length-take zero xs h = refl
length-take (suc k) [] h = absurd (omega (arith, h))
length-take (suc k) (x ∷ xs) h = ap suc (length-take k xs (omega (arith, h)))

length-drop : (k : ℕ) (xs : List ℕ) → length (drop k xs) ≡ length xs - k
length-drop zero xs = omega arith
length-drop (suc k) [] = omega arith
length-drop (suc k) (x ∷ xs) = omega (arith, length-drop k xs)

take-append : (xs ys : List ℕ) → take (length xs) (xs ++ ys) ≡ xs
take-append [] ys = refl
take-append (x ∷ xs) ys = ap (λ l. x ∷ l) (take-append xs ys)

last_byte-append : (xs : List ℕ) (b : ℕ) → last_byte (xs ++ b ∷ []) ≡ b
unfolding last_byte
last_byte-append [] b = refl
last_byte-append (x ∷ []) b = refl
last_byte-append (x ∷ y ∷ xs) b = last_byte-append (y ∷ xs) b

-- The size is the next multiple of the block size.
padded_size-bounds :
    (n : ℕ)
    → n < 2 ^ 31
    → (n < padded_size n)
      × ((padded_size n ≤ n + block_size)
          × ((padded_size n % block_size ≡ 0) × (pad_length n ≡ padded_size n - n)))
unfolding padded_size pad_length
padded_size-bounds n small = (ground arith, (ground arith, (ground arith, ground arith)))

module _ (source out : List ℕ) (small : length source < 2 ^ 31)
    (room : padded_size (length source) ≤ length out) where
  abbrev middle : List ℕ
  middle = take (pad_length (length source) - 1) (drop (length source) out)

  abbrev padding : List ℕ
  padding = middle ++ pad_length (length source) ∷ []

  length-padding : length padding ≡ pad_length (length source)
  length-padding =
      let b = padded_size-bounds (length source) small in
      let m : length middle ≡ pad_length (length source) - 1 =
        length-take (pad_length (length source) - 1) (drop (length source) out)
          (omega (arith, length-drop (length source) out, room, b)) in
      omega (arith, length-append middle (pad_length (length source) ∷ []), m, b)

  length-pad : length (pad source out) ≡ padded_size (length source)
  unfolding pad
  length-pad = omega (
    arith,
    length-append source padding,
    length-padding,
    (padded_size-bounds (length source) small),
  )

  pad-AllBelow : AllBelow 256 source → AllBelow 256 out → AllBelow 256 (pad source out)
  unfolding pad
  pad-AllBelow hs ho =
      let b = padded_size-bounds (length source) small in
      AllBelow-append 256 source padding hs (
        AllBelow-append 256 middle (pad_length (length source) ∷ [])
          (AllBelow-take 256 (pad_length (length source) - 1) (drop (length source) out)
            (AllBelow-drop 256 (length source) out ho))
          (omega (arith, b), tt))

  last_byte-pad : last_byte (pad source out) ≡ pad_length (length source)
  unfolding pad
  last_byte-pad =
      ap last_byte (sym (append_assoc source middle (pad_length (length source) ∷ [])))
      ∙ last_byte-append (source ++ middle) (pad_length (length source))

  take-pad : take (length source) (pad source out) ≡ source
  unfolding pad
  take-pad = take-append source padding

  unpad-pad : unpad (pad source out) ≡ bytes source
  unfolding unpad
  unpad-pad =
      let b = padded_size-bounds (length source) small in
      let some_pad : (pad_length (length source) == 0) ≡ false = ground (arith, b) in
      let short : ltb block_size (pad_length (length source)) ≡ false = ground (arith, b) in
      let inside : ltb (padded_size (length source)) (pad_length (length source)) ≡ false =
        ground (arith, b) in
      let rest : padded_size (length source) - pad_length (length source) ≡ length source =
        omega (arith, b) in
      rw (unpad, last_byte-pad, length-pad, some_pad, short, inside, rest, take-pad) refl

-- Whatever bytes are encrypted, none included, and whatever the output buffer held, where an `int`
-- holds the sizes of both: if the buffer is large enough and the functions of Windows undo each
-- other, then encrypting succeeds, and decrypting the outcome gives the bytes.
pub decrypt_data-encrypt_data :
    (encrypt decrypt : List ℕ → Rtl) (cipher : IsCipher encrypt decrypt) (source out : List ℕ)
    (n : ℕ)
    → AllBelow 256 source
    → AllBelow 256 out
    → length source < 2 ^ 31
    → length out < 2 ^ 31
    → padded_size (length source) ≤ length out
    → padded_size (length source) ≤ n
    → (enc : List ℕ) × ((encrypt_data (some encrypt) source (some out) ≡ bytes enc)
        × (decrypt_data (some decrypt) enc (some n) ≡ bytes source))
unfolding encrypt_data decrypt_data
decrypt_data-encrypt_data encrypt decrypt cipher source out n hs ho small held room room' =
    let b = padded_size-bounds (length source) small in
    let len = length-pad source out small room in
    let (cs, (e1, (el, e2))) =
      cipher.undo (pad source out) (pad-AllBelow source out small room hs ho)
        (ap (λ k. k % block_size) len ∙ b.1.1.0) in
    let enough : int_gt (padded_size (length source)) (length out) ≡ false = ground (arith, room) in
    let positive : leb (2 ^ 31) (padded_size (length source)) ≡ false = ground (arith, room) in
    let size : length cs ≡ padded_size (length source) = el ∙ len in
    let some_bytes : (padded_size (length source) == 0) ≡ false = ground (arith, b.0) in
    let blocks : (padded_size (length source) % block_size == 0) ≡ true = ground (arith, b.1.1.0) in
    let large : ltb n (padded_size (length source)) ≡ false = ground (arith, room') in
    (
      cs,
      (
        rw (encrypt_data, enough, positive, e1) refl,
        rw (decrypt_data, size, some_bytes, blocks, large, e2) (unpad-pad source out small room),
      ),
    )
