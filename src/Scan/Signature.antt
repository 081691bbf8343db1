-- ===== src/Scan/Signature.antt =====
-- crates/nemclass-scan/src/signature.rs: the shortest run of bytes that occurs once.
use nemclass.Common.{
  ℕ, zero, suc, ◌+◌, ◌-◌, ◌/◌, ◌%◌, min, max, Bool, ◌&&◌, ◌||◌, Option, none, some, List, [], ◌∷◌,
  ◌++◌, ltb, leb, ◌==◌, if◌then◌else◌, length, get_elem?, take, drop, filter, eq_bytes,
}

pub record SignatureConfig : Type 0 where
  pub min_len : ℕ
  pub max_len : ℕ

-- The byte at `i`; only indices in range are read.
abbrev pub byte_at : List ℕ → ℕ → ℕ
byte_at bytes i = elim (get_elem? bytes i) [ none ↦ 0 | some b ↦ b ]

-- The positions, from `i` on, of the bytes that equal `first`.
unfoldable pub positions : ℕ → ℕ → List ℕ → List ℕ
positions first i [] = []
positions first i (b ∷ bs) =
    let rest = positions first (suc i) bs in if b == first then i ∷ rest else rest

abbrev pub keeps : List ℕ → ℕ → ℕ → ℕ → Bool
keeps haystack len cmp p = leb (p + len) (length haystack) && byte_at haystack (p + len - 1) == cmp

-- `while len < max_len && candidates.len() > 1`, on the rounds that are left.
unfoldable pub narrow : ℕ → List ℕ → ℕ → ℕ → List ℕ → ℕ × List ℕ
narrow zero haystack offset len candidates = (len, candidates)
narrow (suc rounds) haystack offset len candidates =
    let len' = suc len in
    let cmp = byte_at haystack (offset + len' - 1) in
    let rest = narrow rounds haystack offset len' (filter (keeps haystack len' cmp) candidates) in
    if ltb 1 (length candidates) then rest else (len, candidates)

abbrev pub hex_digit : ℕ → ℕ
hex_digit n = if ltb n 10 then 48 + n else 55 + n

-- `{b:02X}`
abbrev pub hex_byte : ℕ → List ℕ
hex_byte b = hex_digit (b / 16) ∷ hex_digit (b % 16) ∷ []

unfoldable pub format_signature : List ℕ → List ℕ
format_signature [] = []
format_signature (b ∷ []) = hex_byte b
format_signature (b ∷ c ∷ bs) = hex_byte b ++ (32 ∷ format_signature (c ∷ bs))

-- The run that is formatted: `none` where no run is unique.
unfoldable pub signature_bytes : List ℕ → ℕ → SignatureConfig → Option (List ℕ)
unfolding positions narrow
signature_bytes haystack offset cfg =
    if leb (length haystack) offset || cfg.max_len == 0
    then none
    else let max_len = min cfg.max_len (length haystack - offset) in
      let (len, candidates) =
        narrow (max_len - 1) haystack offset 1 (positions (byte_at haystack offset) 0 haystack) in
      let final_len = min (max len cfg.min_len) (length haystack - offset) in
      if eq_bytes candidates (offset ∷ [])
      then some (take final_len (drop offset haystack))
      else none

unfoldable pub make_signature : List ℕ → ℕ → SignatureConfig → Option (List ℕ)
unfolding signature_bytes format_signature
make_signature haystack offset cfg = elim (signature_bytes haystack offset cfg) [
  | none ↦ none
  | some bs ↦ some (format_signature bs)
]
