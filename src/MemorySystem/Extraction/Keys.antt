-- ===== src/MemorySystem/Extraction/Keys.antt =====
-- The keys of the three kinds.
use sochdb_go.Prelude.{ℕ, ◌≡◌, sym, ap, ◌∙◌, [], ◌∷◌, ◌++◌, append_assoc, append-nil, arith}
use sochdb_go.Prelude.Bytes.{Bytes}
use sochdb_go.MemorySystem.Extraction.{ExtractionPipeline, entity_key, relation_key, assertion_key}

pub key-split : (p c i : Bytes) → p ++ (c ++ i) ≡ (p ++ (c ++ [])) ++ i
key-split p c i =
    ap (λ l. p ++ l) (ap (λ l. l ++ i) (sym (append-nil c))) ∙ sym (append_assoc p (c ++ []) i)

head_byte : Bytes → ℕ
head_byte [] = 0
head_byte (b ∷ bytes) = b

append_cancel : (p a b : Bytes) → p ++ a ≡ p ++ b → a ≡ b
append_cancel [] a b e = e
append_cancel (x ∷ p) a b e = append_cancel p a b (cc)

-- No key of one kind is a key of another.
pub relation_entity :
    {F : Type 0} → (p : ExtractionPipeline F) (i j : Bytes) → relation_key p i ≡ entity_key p j → ⊥
unfolding entity_key relation_key head_byte
relation_entity p i j e =
    let apart : 114 ≡ 101 = ap head_byte (append_cancel p.prefix _ _ e) in omega (arith, apart)

pub assertion_entity :
    {F : Type 0} → (p : ExtractionPipeline F) (i j : Bytes) → assertion_key p i ≡ entity_key p j → ⊥
unfolding entity_key assertion_key head_byte
assertion_entity p i j e =
    let apart : 97 ≡ 101 = ap head_byte (append_cancel p.prefix _ _ e) in omega (arith, apart)

pub assertion_relation :
    {F : Type 0}
    → (p : ExtractionPipeline F) (i j : Bytes) → assertion_key p i ≡ relation_key p j
    → ⊥
unfolding relation_key assertion_key head_byte
assertion_relation p i j e =
    let apart : 97 ≡ 114 = ap head_byte (append_cancel p.prefix _ _ e) in omega (arith, apart)
