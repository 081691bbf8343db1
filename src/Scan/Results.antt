-- ===== src/Scan/Results.antt =====
-- crates/nemclass-scan/src/results.rs: the matches of one scan, as parallel columns.
use nemclass.Common.{
  ℕ, suc, ◌-◌, ◌*◌, Option, none, some, List, [], ◌∷◌, ◌++◌, length, get_elem?, take, drop,
  replicate,
}

pub record ScanResult : Type 0 where
  pub address : ℕ
  pub current : List ℕ
  pub previous : List ℕ

pub record ScanResults : Type 0 where
  pub stride : ℕ
  pub addresses : List ℕ
  pub current : List ℕ
  pub previous : List ℕ

abbrev pub with_stride : ℕ → ScanResults
with_stride n = record { stride = n; addresses = []; current = []; previous = [] }

abbrev pub empty_results : ScanResults
empty_results = with_stride 0

abbrev pub results_len : ScanResults → ℕ
results_len r = length r.addresses

-- `&column[i * stride..(i + 1) * stride]`
abbrev pub span : ℕ → ℕ → List ℕ → List ℕ
span stride i column = take stride (drop (i * stride) column)

unfoldable pub row : ScanResults → ℕ → ℕ → ScanResult
row r i address = record {
  address = address;
  current = span r.stride i r.current;
  previous = span r.stride i r.previous;
}

unfoldable pub get : ScanResults → ℕ → Option ScanResult
unfolding row
get r i = elim (get_elem? r.addresses i) [ none ↦ none | some a ↦ some (row r i a) ]

unfoldable pub rows_from : ScanResults → ℕ → List ℕ → List ScanResult
unfolding row
rows_from r i [] = []
rows_from r i (a ∷ as') = row r i a ∷ rows_from r (suc i) as'

unfoldable pub iter : ScanResults → List ScanResult
unfolding rows_from
iter r = rows_from r 0 r.addresses

-- Exactly `stride` bytes: longer values are cut, shorter ones padded with zeros.
unfoldable pub fit : ℕ → List ℕ → List ℕ
fit stride src = take stride src ++ replicate (stride - length src) 0

unfoldable pub push_fixed : List ℕ → List ℕ → ℕ → List ℕ
unfolding fit
push_fixed dst src stride = dst ++ fit stride src

unfoldable pub push : ScanResults → ℕ → List ℕ → List ℕ → ScanResults
unfolding push_fixed
push r address current previous = record r {
  addresses = r.addresses ++ (address ∷ []);
  current = push_fixed r.current current r.stride;
  previous = push_fixed r.previous previous r.stride;
}
