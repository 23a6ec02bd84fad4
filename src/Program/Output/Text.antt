-- ===== src/Program/Output/Text.antt =====
-- The text that a test ROM has put out, as a list of characters.
use emu_gb.Base.{
  get_or, ℕ, zero, suc, ◌+◌, ◌==◌, ◌≡◌, ◌≢◌, refl, arith, List, [], ◌∷◌, ◌++◌, length, ok, err,
  undefined, ltb, if◌then◌else◌,
}
use emu_gb.Program.{TestRom}
use emu_gb.Program.Output.{c_string}

abbrev pub IsText : List ℕ → Type 0
IsText [] = Unit {0}
IsText (x ∷ xs) = (x ≢ 0) × IsText xs

pub c_string-IsText :
    (n k : ℕ) (xs : List ℕ) (cells : ℕ → ℕ)
    → ((j : ℕ) → cells (k + j) ≡ get_or xs j 0)
    → IsText xs
    → c_string n k cells ≡ (if ltb (length xs) n then ok xs else err undefined)
unfolding c_string
c_string-IsText zero k xs cells h text = ground arith
c_string-IsText (suc n) k [] cells h text =
    let here : k + 0 ≡ k = omega arith in simp (rw here at (h 0)) (ground arith)
c_string-IsText (suc n) k (x ∷ xs) cells h (some_x, text) =
    let here : k + 0 ≡ k = omega arith in
    let first : cells k ≡ x = rw here at (h 0) in
    let next : (j : ℕ) → k + 1 + j ≡ k + suc j = λ j. omega arith in
    let ih = c_string-IsText n (k + 1) xs cells (λ j. rw (next j) (h (suc j))) text in
    rw (first, ih) (ground (arith, some_x))

-- Everything that was taken is shown.
pub record IsOutput (text : List ℕ) (t : TestRom) : Type 0 where
  pub stored : (j : ℕ) → t.output j ≡ get_or text j 0
  pub is_text : IsText text
  pub size : t.output_size ≡ length text
  pub seen : t.last_output_size ≡ length text

pub get_or-snoc :
    (xs : List ℕ) (v j : ℕ)
    → get_or (xs ++ v ∷ []) j 0 ≡ (if length xs == j then v else get_or xs j 0)
get_or-snoc [] v zero = refl
get_or-snoc [] v (suc j) = ground arith
get_or-snoc (x ∷ xs) v zero = ground arith
get_or-snoc (x ∷ xs) v (suc j) = rw (get_or-snoc xs v j) (ground arith)

pub snoc-IsText : (xs : List ℕ) (v : ℕ) → IsText xs → v ≢ 0 → IsText (xs ++ v ∷ [])
snoc-IsText [] v text some_v = (some_v, tt)
snoc-IsText (x ∷ xs) v (some_x, text) some_v = (some_x, snoc-IsText xs v text some_v)

pub starts_at_first : (xs : List ℕ) (v : ℕ) → IsText (xs ++ v ∷ []) → get_or (xs ++ v ∷ []) 0 0 ≢ 0
starts_at_first [] v text = text.0
starts_at_first (x ∷ xs) v text = text.0

pub length-snoc : (xs : List ℕ) (v : ℕ) → length (xs ++ v ∷ []) ≡ length xs + 1
length-snoc [] v = refl
length-snoc (x ∷ xs) v = omega (arith, length-snoc xs v)
