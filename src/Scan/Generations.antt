-- ===== src/Scan/Generations.antt =====
-- The generations of results of a session (scanner.rs): what a push and an undo leave.
use nemclass.Common.{
  ◌-◌, ◌≤◌, ◌<◌, ◌≡◌, refl, ap, ◌∙◌, inl, inr, true, List, [], ◌∷◌, ◌++◌, arith, ltb, if◌then◌else◌,
  lt→ltb, Bool-cases, length, drop, length-append,
}
use nemclass.Scan.Results.{ScanResults, empty_results}
use nemclass.Scan.Session.{
  Scanner, current_results, undo, push_generation, last_or, pop, history_depth,
}
use nemclass.Scan.FirstScan.{}
use nemclass.Scan.NextScan.{}

-- Three generations at most, and one at least behind a first scan.
pub record IsSession (s : Scanner) : Type 0 where
  pub bounded : length s.history ≤ history_depth
  pub seeded : s.has_scanned ≡ true → 1 ≤ length s.history

last_or-append {ℓ} : {A : Type ℓ} (d x : A) (xs : List A) → last_or d (xs ++ (x ∷ [])) ≡ x
last_or-append d x [] = refl
last_or-append d x (y ∷ ys) = last_or-append y x ys

pop-append {ℓ} : {A : Type ℓ} (xs : List A) (x : A) → pop (xs ++ (x ∷ [])) ≡ xs
pop-append [] x = refl
pop-append (y ∷ []) x = refl
pop-append (y ∷ z ∷ zs) x = ap (λ r. y ∷ r) (pop-append (z ∷ zs) x)

pub length-pop {ℓ} : {A : Type ℓ} (xs : List A) → length (pop xs) ≡ length xs - 1
length-pop [] = refl
length-pop (y ∷ []) = refl
length-pop (y ∷ z ∷ zs) = omega (arith, length-pop (z ∷ zs))

-- The history behind a push, as a function of the one before it.
abbrev capped {ℓ} : {A : Type ℓ} → List A → A → List A
capped xs x =
    let more = xs ++ (x ∷ []) in if ltb history_depth (length more) then drop 1 more else more

last_or-capped {ℓ} : {A : Type ℓ} (d : A) (xs : List A) (x : A) → last_or d (capped xs x) ≡ x
last_or-capped d [] x = refl
last_or-capped d (y ∷ ys) x =
    elim (Bool-cases (ltb history_depth (length (y ∷ (ys ++ (x ∷ [])))))) [
      | inl over ↦ rw over (last_or-append d x ys)
      | inr fits ↦ rw fits (last_or-append y x ys)
    ]

length-capped {ℓ} :
    {A : Type ℓ} (xs : List A) (x : A)
    → length xs ≤ history_depth
    → (length (capped xs x) ≤ history_depth) × (1 ≤ length (capped xs x))
length-capped [] x h = omega arith
length-capped (y ∷ ys) x h =
    let size = length-append ys (x ∷ []) in
    elim (Bool-cases (ltb history_depth (length (y ∷ (ys ++ (x ∷ [])))))) [
      | inl over ↦ rw over (omega (arith, size))
      | inr fits ↦ rw fits (ground (arith, size))
    ]

last_or-nonempty {ℓ} :
    {A : Type ℓ} (d e : A) (xs : List A) → 1 ≤ length xs → last_or d xs ≡ last_or e xs
last_or-nonempty d e [] h = elim h [ ]
last_or-nonempty d e (x ∷ xs) h = refl

capped-pop {ℓ} :
    {A : Type ℓ} (d : A) (xs : List A) (x : A)
    → 1 ≤ length xs
    → (1 < length (capped xs x)) × (last_or d (pop (capped xs x)) ≡ last_or d xs)
capped-pop d [] x h = elim h [ ]
capped-pop d (y ∷ ys) x h =
    let size = length-append ys (x ∷ []) in
    elim (Bool-cases (ltb history_depth (length (y ∷ (ys ++ (x ∷ [])))))) [
      | inl over ↦
          let many : 1 ≤ length ys = ground (arith, size) in
          rw over
            (omega (arith, size), ap (last_or d) (pop-append ys x) ∙ last_or-nonempty d y ys many)
      | inr fits ↦ rw fits (omega (arith, size), ap (last_or d) (pop-append (y ∷ ys) x))
    ]

pub push_generation-IsSession :
    (s : Scanner) (r : ScanResults)
    → length s.history ≤ history_depth
    → (length (push_generation s r).history ≤ history_depth)
      × (1 ≤ length (push_generation s r).history)
unfolding push_generation
push_generation-IsSession s r h = length-capped s.history r h

-- The generation that was pushed is the current one.
pub current_results-push_generation :
    (s : Scanner) (r : ScanResults) → current_results (push_generation s r) ≡ r
unfolding push_generation current_results
current_results-push_generation s r = last_or-capped empty_results s.history r

-- Behind a first generation, a pushed generation can be undone, and the results are those from
-- before it, also where the oldest generation was dropped.
pub undo-push_generation :
    (s : Scanner) (r : ScanResults)
    → 1 ≤ length s.history
    → ((undo (push_generation s r)).1 ≡ true)
      × (current_results (undo (push_generation s r)).0 ≡ current_results s)
unfolding undo push_generation current_results
undo-push_generation s r h =
    let (many, same) = capped-pop empty_results s.history r h in
    let can : ltb 1 (length (capped s.history r)) ≡ true = lt→ltb 1 _ many in rw can (refl, same)
