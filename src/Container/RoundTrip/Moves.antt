-- ===== src/Container/RoundTrip/Moves.antt =====
-- Copies of directories in a store, one after the other.
use play_bin.Base.{
  String, none, some, subst, List, [], ◌∷◌, ◌==◌, if◌then◌else◌, ◌≡◌, ◌≢◌, refl, sym, ◌∙◌, arith,
  All, eq_iff, eq_refl,
}
use play_bin.Text.{strip_prefix}

abbrev pub Store {ℓ} : Type ℓ → Type ℓ
Store D = String → D

module _ {ℓ} {D : Type ℓ} where
  abbrev pub put : String → D → Store D → Store D
  put to v s p = if p == to then v else s p

  -- Each pair is a copy from the first directory to the second one.
  abbrev pub moves : List (String × String) → Store D → Store D
  moves [] s = s
  moves ((from, to) ∷ ms) s = moves ms (put to (s from) s)

-- Two directories, neither of which is or lies in the other one: the names end in a slash.
abbrev pub Apart : String → String → Type 0
Apart p q = (strip_prefix p q ≡ none) × (strip_prefix q p ≡ none)

-- No copy writes to a directory that overlaps the one that it reads, or one that a later copy reads or
-- writes.
abbrev pub Separate : List (String × String) → Type 0
Separate [] = Unit
Separate ((from, to) ∷ ms) =
    Apart from to
    × All (λ (m : String × String). Apart m.0 to) ms
    × All (λ (m : String × String). Apart m.1 to) ms
    × Separate ms

strip_prefix_self : (p : String) → strip_prefix p p ≡ some ""
unfolding strip_prefix
strip_prefix_self String.[] = refl
strip_prefix_self (String.◌∷◌ c p) = ground (arith, strip_prefix_self p)

Apart-differs : (p q : String) → Apart p q → p ≢ q
Apart-differs p q (apart, _) e =
    let none_left : strip_prefix p p ≡ none = subst (λ r. strip_prefix p r ≡ none) (sym e) apart in
    cc (none_left, strip_prefix_self p)

-- No copy writes to a directory that a later one reads or writes.
abbrev Distinct : List (String × String) → Type 0
Distinct [] = Unit
Distinct ((from, to) ∷ ms) = All (λ m. m.0 ≢ to) ms × All (λ m. m.1 ≢ to) ms × Distinct ms

All-differs :
    (of : String × String → String) (to : String) (ms : List (String × String))
    → All (λ m. Apart (of m) to) ms
    → All (λ m. of m ≢ to) ms
All-differs of to [] all = tt
All-differs of to (m ∷ ms) (apart, all) = (Apart-differs (of m) to apart, All-differs of to ms all)

Separate-Distinct : (ms : List (String × String)) → Separate ms → Distinct ms
Separate-Distinct [] separate = tt
Separate-Distinct ((from, to) ∷ ms) (_, read, written, separate) = (
  All-differs (λ m. m.0) to ms read,
  All-differs (λ m. m.1) to ms written,
  Separate-Distinct ms separate,
)

module _ {ℓ} {D : Type ℓ} where
  put-other : (to p : String) (v : D) (s : Store D) → p ≢ to → put to v s p ≡ s p
  put-other to p v s other = ground (arith, other, eq_iff p to)

  moves-untouched :
      (ms : List (String × String)) (s : Store D) (p : String)
      → All (λ m. m.1 ≢ p) ms
      → moves ms s p ≡ s p
  moves-untouched [] s p clear = refl
  moves-untouched ((from, to) ∷ ms) s p (other, clear) =
      moves-untouched ms (put to (s from) s) p clear
      ∙ put-other to p (s from) s (λ e. other (sym e))

  moves-later :
      (ms rest : List (String × String)) (s : Store D) (from to : String)
      → All (λ m. m.0 ≢ to) rest
      → All (λ m. moves ms (put to (s from) s) m.1 ≡ put to (s from) s m.0) rest
      → All (λ m. moves ms (put to (s from) s) m.1 ≡ s m.0) rest
  moves-later ms [] s from to clear all = tt
  moves-later ms (m ∷ rest) s from to (other, clear) (here, all) =
      (here ∙ put-other to m.0 (s from) s other, moves-later ms rest s from to clear all)

  moves-Distinct :
      (ms : List (String × String)) (s : Store D)
      → Distinct ms
      → All (λ m. moves ms s m.1 ≡ s m.0) ms
  moves-Distinct [] s separate = tt
  moves-Distinct ((from, to) ∷ ms) s (read, written, separate) = (
    moves-untouched ms (put to (s from) s) to written ∙ ground (arith, eq_refl to),
    moves-later ms ms s from to read (moves-Distinct ms (put to (s from) s) separate),
  )

  -- Every copy leaves in its target what its source had at the beginning.
  pub moves-All :
      (ms : List (String × String)) (s : Store D)
      → Separate ms
      → All (λ m. moves ms s m.1 ≡ s m.0) ms
  moves-All ms s separate = moves-Distinct ms s (Separate-Distinct ms separate)
