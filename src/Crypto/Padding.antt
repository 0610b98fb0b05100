-- ===== src/Crypto/Padding.antt =====
-- `TwapiEncryptData` and `TwapiDecryptData` of twapi/base/tclobjs.c. Data are lists of bytes. The
-- functions `RtlEncryptMemory` and `RtlDecryptMemory` of Windows are parameters: none if they cannot
-- be loaded; they give a status other than 0, or the buffer after the call.
use twapi.Base.{
  ℕ, ◌+◌, ◌-◌, ◌/◌, ◌*◌, ◌%◌, ◌^◌, Bool, ◌||◌, Option, none, some, List, [], ◌∷◌, ◌++◌, length,
  take, drop, ltb, leb, ◌==◌, if◌then◌else◌,
}

pub data Rtl : Type 0 where
  status : ℕ → Rtl
  buffer : List ℕ → Rtl

-- How a call ends: with an error; with the size of the buffer that it needs; with bytes; or by a
-- write outside of the buffer, where a size is a negative `int`.
pub data Result : Type 0 where
  not_found buffer_overrun : Result
  system_error : ℕ → Result
  bad_pad_length : ℕ → Result
  needs : ℕ → Result
  bytes : List ℕ → Result
  outside : Result

-- `RTL_ENCRYPT_MEMORY_SIZE`
abbrev pub block_size : ℕ
block_size = 8

-- `sz`, by the 32 bits of the `int`: `& ~BLOCK_SIZE_MASK` rounds down to a multiple of the block size.
unfoldable pub padded_size : ℕ → ℕ
padded_size nin =
    if nin % block_size == 0
    then (nin + block_size) % 2 ^ 32
    else (nin + (block_size - 1)) % 2 ^ 32 / block_size * block_size

-- `pad_len`
unfoldable pub pad_length : ℕ → ℕ
unfolding padded_size
pad_length nin = (padded_size nin + 2 ^ 32 - nin) % 2 ^ 32

-- `>` of two `int`s that are given by their 32 bits.
abbrev pub int_gt : ℕ → ℕ → Bool
int_gt a b = ltb ((b + 2 ^ 31) % 2 ^ 32) ((a + 2 ^ 31) % 2 ^ 32)

-- The output buffer with the source at its front and the pad length in its last byte; between them
-- is what the buffer held.
unfoldable pub pad : List ℕ → List ℕ → List ℕ
unfolding padded_size pad_length
pad source out =
    source
    ++ (take (pad_length (length source) - 1) (drop (length source) out)
        ++ pad_length (length source) ∷ [])

-- `TwapiEncryptData`; the output buffer is none for a null pointer.
unfoldable pub encrypt_data : Option (List ℕ → Rtl) → List ℕ → Option (List ℕ) → Result
unfolding pad
encrypt_data rtl source out = elim rtl [
  | none ↦ not_found
  | some fn ↦ elim out [
    | none ↦ needs (padded_size (length source))
    | some o ↦
        if int_gt (padded_size (length source)) (length o)
        then buffer_overrun
        else if leb (2 ^ 31) (padded_size (length source))
        then outside
        else elim (fn (pad source o)) [ status s ↦ system_error s | buffer b ↦ bytes b ]
  ]
]

unfoldable pub last_byte : List ℕ → ℕ
last_byte [] = 0
last_byte (b ∷ []) = b
last_byte (b ∷ c ∷ bs) = last_byte (c ∷ bs)

-- The end of `TwapiDecryptData`: the last byte says how many bytes are not data.
unfoldable pub unpad : List ℕ → Result
unfolding last_byte
unpad b =
    let pad_len = last_byte b in
    if pad_len == 0 || ltb block_size pad_len || ltb (length b) pad_len
    then bad_pad_length pad_len
    else bytes (take (length b - pad_len) b)

-- `TwapiDecryptData`; the output buffer is given by its size.
unfoldable pub decrypt_data : Option (List ℕ → Rtl) → List ℕ → Option ℕ → Result
unfolding unpad
decrypt_data rtl enc nout = elim rtl [
  | none ↦ not_found
  | some fn ↦
      if length enc == 0
      then bad_pad_length (length enc)
      else if length enc % block_size == 0
      then elim nout [
        | none ↦ needs (length enc)
        | some n ↦
            if ltb n (length enc)
            then buffer_overrun
            else elim (fn enc) [ status s ↦ system_error s | buffer b ↦ unpad b ]
      ]
      else bad_pad_length (length enc)
]
