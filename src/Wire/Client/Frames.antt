-- ===== src/Wire/Client/Frames.antt =====
-- What readMessage makes of the bytes that sendMessage writes.
use sochdb_go.Prelude.{
  ℕ, suc, ◌%◌, ◌^◌, ◌<◌, ◌≡◌, refl, sym, ap, ◌∙◌, [], ◌∷◌, ◌++◌, true, ltb, length, append_assoc,
  arith,
}
use sochdb_go.Prelude.Result.{ok}
use sochdb_go.Prelude.Bytes.{Bytes}
use sochdb_go.Prelude.Bytes.Endian.{put_le, get_le, length-put_le, get_le-put_le}
use sochdb_go.Wire.Payload.{frame}
use sochdb_go.Wire.Client.{
  received, Conn, Io, and_then, ◌>>=◌, read_full, first_byte, read_payload, read_message,
}

-- A connection on which `incoming` are the bytes that arrived and are not read: io.ReadFull takes
-- the bytes it asks for from the front.
pub record Delivers {C E : Type 0} (net : Conn C E) (incoming : C → Bytes) : Type 0 where
  pub read_full-front :
      (bytes rest : Bytes) (c : C)
      → incoming c ≡ bytes ++ rest
      → (c' : C) × (net.read_full (length bytes) c ≡ (ok bytes, c')) × (incoming c' ≡ rest)

-- A body that gives `a` and leaves `rest` to be read.
abbrev pub Gives : {C E A : Type 0} → (C → Bytes) → Io C E A → C → A → Bytes → Type 0
Gives {C} incoming body c a rest = (c' : C) × (body c ≡ (ok a, c')) × (incoming c' ≡ rest)

pub Gives-bind :
    {C E A B : Type 0} (incoming : C → Bytes) (first : Io C E A) (next : A → Io C E B) (c : C)
    {a : A} {middle : Bytes} {b : B} {rest : Bytes}
    → Gives incoming first c a middle
    → ((c' : C) → incoming c' ≡ middle → Gives incoming (next a) c' b rest)
    → Gives incoming (first >>= next) c b rest
Gives-bind incoming first next c (c', e, left) then_next =
    let (c'', e', left') = then_next c' left in (c'', ap (λ r. and_then r next) e ∙ e', left')

ltb-suc : (n : ℕ) → ltb 0 (suc n) ≡ true
ltb-suc n = ground arith

size_lem :
    (payload : Bytes)
    → length payload < 2 ^ 32
    → get_le (put_le 4 (length payload % 2 ^ 32)) ≡ length payload
size_lem payload short =
    let small : length payload % 2 ^ 32 < 256 ^ 4 = omega arith in
    get_le-put_le 4 (length payload % 2 ^ 32) small ∙ omega arith

module _ {C E : Type 0} (net : Conn C E) (incoming : C → Bytes) (law : Delivers net incoming) where
  Gives-read_full :
      (n : ℕ) (bytes rest : Bytes) (c : C)
      → length bytes ≡ n
      → incoming c ≡ bytes ++ rest
      → Gives incoming (read_full net n) c bytes rest
  unfolding read_full
  Gives-read_full n bytes rest c size arrived =
      let (c', e, left) = law.read_full-front bytes rest c arrived in
      (c', ap (λ m. received (net.read_full m c)) (sym size) ∙ ap received e, left)

  Gives-read_payload :
      (bytes rest : Bytes) (c : C)
      → incoming c ≡ bytes ++ rest
      → Gives incoming (read_payload net (length bytes)) c bytes rest
  unfolding read_payload
  Gives-read_payload [] rest c arrived = (c, refl, arrived)
  Gives-read_payload (b ∷ bytes) rest c arrived =
      rw (ltb-suc (length bytes))
        (Gives-read_full (suc (length bytes)) (b ∷ bytes) rest c refl arrived)

  -- Where a frame of sendMessage has arrived, readMessage returns its opcode and its payload, of
  -- less than 2 ^ 32 bytes, and leaves what follows the frame.
  pub read_message-frame :
      (op : ℕ) (payload rest : Bytes) (c : C)
      → length payload < 2 ^ 32
      → incoming c ≡ frame op payload ++ rest
      → Gives incoming (read_message net) c (op, payload) rest
  unfolding read_message frame first_byte
  read_message-frame op payload rest c short arrived =
      Gives-bind incoming (read_full net 1) _ c
        (Gives-read_full 1 (op ∷ []) (put_le 4 (length payload % 2 ^ 32) ++ (payload ++ rest)) c
          refl
          (arrived
            ∙ ap (λ l. op ∷ l) (append_assoc (put_le 4 (length payload % 2 ^ 32)) payload rest)))
        (λ c1 left1.
          Gives-bind incoming (read_full net 4) _ c1
            (Gives-read_full 4 (put_le 4 (length payload % 2 ^ 32)) (payload ++ rest) c1
              (length-put_le 4 (length payload % 2 ^ 32)) (left1))
            (λ c2 left2.
              Gives-bind incoming (read_payload net (get_le (put_le 4 (length payload % 2 ^ 32)))) _
                c2 (rw (size_lem payload short) (Gives-read_payload payload rest c2 left2))
                (λ c3 left3. (c3, refl, left3))))
