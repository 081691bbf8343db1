-- ===== src/Examples/Signatures.antt =====
-- Signatures: tests and instances.
use nemclass.Common.{ℕ, ◌≡◌, refl, some, List, [], ◌∷◌}
use nemclass.Scan.Signature.{SignatureConfig, positions, narrow, signature_bytes}
use nemclass.Scan.Unique.{OccursAt, signature_bytes-OccursAt}

abbrev code_bytes : List ℕ
code_bytes = 1 ∷ 2 ∷ 3 ∷ 1 ∷ 2 ∷ 4 ∷ []

abbrev short : SignatureConfig
short = record { min_len = 1; max_len = 10 }

-- Two bytes occur twice, three do not.
three_bytes : signature_bytes code_bytes 0 short ≡ some (1 ∷ 2 ∷ 3 ∷ [])
unfolding signature_bytes narrow positions
three_bytes = refl

signature_bytes-OccursAt_example :
    OccursAt (1 ∷ 2 ∷ 3 ∷ []) code_bytes 0
    × ((p : ℕ) → OccursAt (1 ∷ 2 ∷ 3 ∷ []) code_bytes p → p ≡ 0)
signature_bytes-OccursAt_example =
    signature_bytes-OccursAt code_bytes 0 short (1 ∷ 2 ∷ 3 ∷ []) three_bytes
