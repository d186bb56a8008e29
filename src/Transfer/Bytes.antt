-- ===== src/Transfer/Bytes.antt =====
-- The files of the world as they are written at an offset, and their bytes one by one.
use update_service.Base.{
  ℕ, zero, suc, ◌+◌, ◌-◌, ◌<◌, ◌≤◌, ◌≡◌, refl, ap, true, ◌&&◌, Option, none, some, List, [], ◌∷◌,
  ◌++◌, arith, ltb, leb, if◌then◌else◌, String, str_eq, length, take, drop, replicate,
  length-append, length-take, length-drop, length-replicate,
}
use update_service.Effect.{Content, json, bytes}

-- What the newest file of a path holds, if it is bytes.
abbrev bytes_of : Content → Option (List ℕ)
bytes_of (bytes b) = some b
bytes_of (json j) = none

abbrev pub bytes_at : String → List (String × Content) → Option (List ℕ)
bytes_at path [] = none
bytes_at path (f ∷ fs) = if str_eq f.0 path then bytes_of f.1 else bytes_at path fs

-- `WriteAt`: a gap before the offset is filled with zeros.
abbrev pub write_at : ℕ → List ℕ → List ℕ → List ℕ
write_at offset payload content =
    take offset (content ++ replicate (offset - length content) 0)
    ++ (payload ++ drop (offset + length payload) content)

-- `Truncate`: the content is cut, or filled with zeros.
abbrev pub truncate : ℕ → List ℕ → List ℕ
truncate n content = take n content ++ replicate (n - length content) 0

-- The i-th byte, or zero.
abbrev pub byte_at : ℕ → List ℕ → ℕ
byte_at i [] = 0
byte_at zero (b ∷ bs) = b
byte_at (suc i) (b ∷ bs) = byte_at i bs

byte_at-append :
    (i : ℕ) (xs ys : List ℕ)
    → byte_at i (xs ++ ys)
      ≡ (if ltb i (length xs) then byte_at i xs else byte_at (i - length xs) ys)
byte_at-append i [] ys = ground arith
byte_at-append zero (x ∷ xs) ys = ground arith
byte_at-append (suc i) (x ∷ xs) ys = ground (arith, byte_at-append i xs ys)

byte_at-take :
    (i n : ℕ) (xs : List ℕ) → byte_at i (take n xs) ≡ (if ltb i n then byte_at i xs else 0)
byte_at-take i zero xs = ground arith
byte_at-take i (suc n) [] = ground arith
byte_at-take zero (suc n) (x ∷ xs) = ground arith
byte_at-take (suc i) (suc n) (x ∷ xs) = ground (arith, byte_at-take i n xs)

byte_at-drop : (i n : ℕ) (xs : List ℕ) → byte_at i (drop n xs) ≡ byte_at (n + i) xs
byte_at-drop i zero xs = ground arith
byte_at-drop i (suc n) [] = ground arith
byte_at-drop i (suc n) (x ∷ xs) = ground (arith, byte_at-drop i n xs)

-- Two contents of one length with the same bytes are the same.
pub same_bytes :
    (xs ys : List ℕ)
    → length xs ≡ length ys
    → ((i : ℕ) → i < length xs → byte_at i xs ≡ byte_at i ys)
    → xs ≡ ys
same_bytes [] [] h f = refl
same_bytes [] (y ∷ ys) h f = absurd (omega (arith, h))
same_bytes (x ∷ xs) [] h f = absurd (omega (arith, h))
same_bytes (x ∷ xs) (y ∷ ys) h f = cc (
  f zero (omega arith),
  same_bytes xs ys (omega (arith, h)) (λ i k. f (suc i) (omega (arith, k))),
)

module _ (offset : ℕ) (payload content : List ℕ)
    (fits : offset + length payload ≤ length content) where
  pub length-write_at : length (write_at offset payload content) ≡ length content
  length-write_at =
      let pad : List ℕ = replicate (offset - length content) 0 in
      omega (
        arith,
        fits,
        length-append (take offset (content ++ pad))
            (payload ++ drop (offset + length payload) content),
        length-append payload (drop (offset + length payload) content),
        length-take offset (content ++ pad),
        length-append content pad,
        length-drop (offset + length payload) content,
        length-replicate {A = ℕ} (offset - length content) 0,
      )

  -- A write inside of the file changes the bytes that it covers.
  pub byte_at-write_at :
      (i : ℕ)
      → byte_at i (write_at offset payload content) ≡ (
          if leb offset i && ltb i (offset + length payload)
          then byte_at (i - offset) payload
          else byte_at i content)
  byte_at-write_at i =
      let pad : List ℕ = replicate (offset - length content) 0 in
      let past : List ℕ = drop (offset + length payload) content in
      ground (
        arith,
        fits,
        byte_at-append i (take offset (content ++ pad)) (payload ++ past),
        byte_at-append (i - offset) payload past,
        byte_at-drop (i - offset - length payload) (offset + length payload) content,
        byte_at-take i offset (content ++ pad),
        byte_at-append i content pad,
        length-take offset (content ++ pad),
        length-append content pad,
        length-replicate {A = ℕ} (offset - length content) 0,
        same_index,
      )
    where
      same_index :
          leb (offset + length payload) i ≡ true
          → byte_at (offset + length payload + (i - offset - length payload)) content
            ≡ byte_at i content
      same_index h = ap (λ n. byte_at n content) (ground arith)

-- The bytes of a piece of a file.
pub byte_at-slice :
    (i n m : ℕ) (xs : List ℕ)
    → byte_at i (take n (drop m xs)) ≡ (if ltb i n then byte_at (m + i) xs else 0)
byte_at-slice i n m xs = ground (arith, byte_at-take i n (drop m xs), byte_at-drop i m xs)
