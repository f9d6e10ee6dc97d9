-- ===== src/Wire/Pipe.antt =====
-- A connection in memory, on which each written frame brings a response that is given in advance.
use sochdb_go.Prelude.{
  ℕ, ◌≡◌, refl, ap, ◌∙◌, List, [], ◌∷◌, ◌++◌, true, none, leb, if◌then◌else◌, length, length-append,
  take, drop, take_left, drop_left, arith,
}
use sochdb_go.Prelude.Result.{Result, ok, err}
use sochdb_go.Prelude.Bytes.{Bytes}
use sochdb_go.Wire.Client.{Conn}
use sochdb_go.Wire.Client.Frames.{Delivers}

pub data PipeError : Type 0 where
  unexpected_eof : PipeError

pub record Pipe : Type 0 where
  pub arrived : Bytes
  pub responses : List Bytes

-- The first response arrives.
unfoldable pub respond : Pipe → Pipe
respond p = elim p.responses [
  | [] ↦ p
  | response ∷ others ↦ record { arrived = p.arrived ++ response; responses = others }
]

unfoldable pub pipe_read : ℕ → Pipe → Result PipeError Bytes × Pipe
pipe_read size p =
    if leb size (length p.arrived)
    then (ok (take size p.arrived), record p { arrived = drop size p.arrived })
    else (err unexpected_eof, p)

abbrev pub pipe : Conn Pipe PipeError
pipe = record {
  write = λ message p. (none, respond p);
  read_full = pipe_read;
  close = λ p. (none, p);
}

pipe_read_lem :
    (bytes rest : Bytes) (p : Pipe)
    → p.arrived ≡ bytes ++ rest
    → (p' : Pipe) × (pipe_read (length bytes) p ≡ (ok bytes, p')) × (p'.arrived ≡ rest)
unfolding pipe_read
pipe_read_lem bytes rest p arrived =
    let enough : leb (length bytes) (length p.arrived) ≡ true =
      ground (arith, ap length arrived, length-append {0} bytes rest) in
    let front : take (length bytes) p.arrived ≡ bytes =
      ap (take (length bytes)) arrived ∙ take_left (length bytes) bytes rest refl in
    let back : drop (length bytes) p.arrived ≡ rest =
      ap (drop (length bytes)) arrived ∙ drop_left (length bytes) bytes rest refl in
    (record p { arrived = drop (length bytes) p.arrived }, rw (enough, front) refl, back)

pub pipe-Delivers : Delivers pipe (λ p. p.arrived)
pipe-Delivers = record { read_full-front = pipe_read_lem }
