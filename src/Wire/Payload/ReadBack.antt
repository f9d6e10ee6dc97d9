-- ===== src/Wire/Payload/ReadBack.antt =====
-- What a reader of the documented format finds in the payload of PUT_PATH.
use sochdb_go.Prelude.{
  ℕ, zero, suc, ◌%◌, ◌^◌, ◌≤◌, ◌≡◌, refl, ap, [], ◌∷◌, ◌++◌, length, take, drop, arith,
}
use sochdb_go.Prelude.Bytes.{Bytes}
use sochdb_go.Prelude.Bytes.Endian.{put_le, get_le}
use sochdb_go.Wire.Payload.{put_path_payload}

-- Behind the count, a length, so many bytes of path, and the value.
abbrev pub path_of : Bytes → Bytes
path_of payload = take (get_le (take 2 (drop 2 payload))) (drop 4 payload)

abbrev pub value_of : Bytes → Bytes
value_of payload = drop (get_le (take 2 (drop 2 payload))) (drop 4 payload)

body-put_path_payload : (path value : Bytes) → drop 4 (put_path_payload path value) ≡ path ++ value
unfolding put_path_payload put_le
body-put_path_payload path value = refl

length-put_path_payload :
    (path value : Bytes)
    → get_le (take 2 (drop 2 (put_path_payload path value))) ≡ length path % 2 ^ 16
unfolding put_path_payload put_le get_le
length-put_path_payload path value = omega arith

drop-append_le : (n : ℕ) (xs ys : Bytes) → n ≤ length xs → drop n (xs ++ ys) ≡ drop n xs ++ ys
drop-append_le zero xs ys h = refl
drop-append_le (suc n) [] ys h = absurd (omega arith)
drop-append_le (suc n) (x ∷ xs) ys h = drop-append_le n xs ys (omega arith)

take-append_le : (n : ℕ) (xs ys : Bytes) → n ≤ length xs → take n (xs ++ ys) ≡ take n xs
take-append_le zero xs ys h = refl
take-append_le (suc n) [] ys h = absurd (omega arith)
take-append_le (suc n) (x ∷ xs) ys h = ap (λ l. x ∷ l) (take-append_le n xs ys (omega arith))

-- In the payload of PutPath the reader finds the first (length of the path modulo 2 ^ 16) bytes of
-- the path, and takes the rest of the path for the start of the value.
pub put_path_payload-read :
    (path value : Bytes)
    → (path_of (put_path_payload path value) ≡ take (length path % 2 ^ 16) path)
      × (value_of (put_path_payload path value) ≡ drop (length path % 2 ^ 16) path ++ value)
put_path_payload-read path value =
    let small : length path % 2 ^ 16 ≤ length path = omega arith in
    rw (length-put_path_payload path value, body-put_path_payload path value)
      (
        take-append_le (length path % 2 ^ 16) path value small,
        drop-append_le (length path % 2 ^ 16) path value small,
      )
