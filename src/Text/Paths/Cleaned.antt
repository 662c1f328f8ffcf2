-- ===== src/Text/Paths/Cleaned.antt =====
-- The parts of a cleaned path, and how they come back from its text.

use mathlib.Core.List.{reverse_aux, reverse-append}
use text.Mathlib.TextLemmas.{nil-append, cons-append, append-ne-nil_of_right_ne-nil}
use play_bin.Base.{
  String, Bool, true, false, ◌||◌, List, [], ◌∷◌, ◌++◌, reverse, ◌==◌, ◌<>◌, ◌≡◌, ◌≢◌, ◌⊎◌, inl,
  inr, refl, ap, ◌∙◌, arith, eq_iff, All, Bool-cases,
}
use play_bin.Text.Splitting.{split, join, trim, trim_left, trim_right, Lacks, split-Lacks}
use play_bin.Text.Paths.{
  slash, is_rooted, step_up, resolve, resolve_all, clean_parts, render, clean,
}
use play_bin.Text.Paths.Laws.{IsPlain, split-join}

-- A part of a cleaned path.
abbrev pub IsName : String → Type 0
IsName p = (p ≢ "") × (p ≢ ".") × Lacks slash p

pub dots-IsName : IsName ".."
dots-IsName = (ground (arith, eq_iff ".." ""), ground (arith, eq_iff ".." "."), omega arith)

step_up-IsName : (r : Bool) (stack : List String) → All IsName stack → All IsName (step_up r stack)
unfolding step_up
step_up-IsName true [] h = tt
step_up-IsName false [] h = (dots-IsName, tt)
step_up-IsName r (top ∷ rest) h = ground (arith, dots-IsName)

resolve-IsName :
    (r : Bool) (stack : List String) (part : String)
    → All IsName stack
    → Lacks slash part
    → All IsName (resolve r stack part)
unfolding resolve
resolve-IsName r stack part h l =
    ground (arith, eq_iff part "", eq_iff part ".", step_up-IsName r stack h)

resolve_all-IsName :
    (r : Bool) (stack parts : List String)
    → All IsName stack
    → All (Lacks slash) parts
    → All IsName (resolve_all r stack parts)
unfolding resolve_all
resolve_all-IsName r stack [] h _ = h
resolve_all-IsName r stack (p ∷ ps) h (l, ls) =
    resolve_all-IsName r (resolve r stack p) ps (resolve-IsName r stack p h l) ls

All-reverse_aux {ℓ} :
    {A : Type ℓ} (P : A → Type 0) (xs acc : List A)
    → All P xs
    → All P acc
    → All P (reverse_aux xs acc)
All-reverse_aux P [] acc _ h = h
All-reverse_aux P (x ∷ xs) acc (hx, hs) h = All-reverse_aux P xs (x ∷ acc) hs (hx, h)

pub clean_parts-IsName : (path : String) → All IsName (clean_parts path)
unfolding clean_parts
clean_parts-IsName path =
    All-reverse_aux IsName (resolve_all (is_rooted path) [] (split slash path)) []
      (resolve_all-IsName (is_rooted path) [] (split slash path) tt (split-Lacks slash path)) tt

-- The kept parts are plain, or the deepest one is `..`.
abbrev Led : List String → Type 0
Led stack = All IsPlain stack ⊎ ((rest : List String) × (stack ≡ rest ++ (".." ∷ [])))

step_up-Led : (r : Bool) (stack : List String) → Led stack → Led (step_up r stack)
unfolding step_up
step_up-Led true [] h = inl tt
step_up-Led false [] h = inr ([], refl)
step_up-Led r (top ∷ rest) h = elim (Bool-cases (top == "..")) [
  | inl up ↦ rw up (elim h [
    | inl plain ↦ absurd (plain.0.2 ((eq_iff top "..").0 up))
    | inr (below, e) ↦ inr (".." ∷ below, ap (λ l. ".." ∷ l) e)
  ])
  | inr name ↦ rw name (elim h [
    | inl plain ↦ inl plain.1
    | inr ([], e) ↦ absurd (ground (arith, eq_iff top ".."))
    | inr (x ∷ below, e) ↦ inr (below, cc)
  ])
]

resolve-Led :
    (r : Bool) (stack : List String) (part : String)
    → Led stack
    → Lacks slash part
    → Led (resolve r stack part)
unfolding resolve
resolve-Led r stack part h l = elim (Bool-cases (part == "" || part == ".")) [
  | inl same ↦ rw same h
  | inr other ↦ rw other (elim (Bool-cases (part == "..")) [
    | inl up ↦ rw up (step_up-Led r stack h)
    | inr name ↦ rw name (elim h [
      | inl plain ↦
          let is_plain : IsPlain part =
            ground (arith, eq_iff part "", eq_iff part ".", eq_iff part "..") in
          inl (is_plain, plain)
      | inr (below, e) ↦ inr (part ∷ below, ap (λ s. part ∷ s) e)
    ])
  ])
]

resolve_all-Led :
    (r : Bool) (stack parts : List String)
    → Led stack
    → All (Lacks slash) parts
    → Led (resolve_all r stack parts)
unfolding resolve_all
resolve_all-Led r stack [] h _ = h
resolve_all-Led r stack (p ∷ ps) h (l, ls) =
    resolve_all-Led r (resolve r stack p) ps (resolve-Led r stack p h l) ls

-- The parts of a cleaned path are plain, or the first one is `..`.
pub clean_parts-IsPlain :
    (path : String)
    → All IsPlain (clean_parts path) ⊎ ((rest : List String) × (clean_parts path ≡ ".." ∷ rest))
unfolding clean_parts
clean_parts-IsPlain path =
    let stack = resolve_all (is_rooted path) [] (split slash path) in
    let led =
      resolve_all-Led (is_rooted path) [] (split slash path) (inl tt) (split-Lacks slash path) in
    elim led [
      | inl plain ↦ inl (All-reverse_aux IsPlain stack [] plain tt)
      | inr (rest, e) ↦ inr (reverse rest, ap reverse e ∙ reverse-append rest (".." ∷ []))
    ]

trim_right_of_Lacks : (s : String) → Lacks slash s → trim_right slash s ≡ s
trim_right_of_Lacks String.[] _ = refl
trim_right_of_Lacks (String.◌∷◌ c s) (h, hs) = rw (trim_right_of_Lacks s hs) (ground arith)

trim_right-append :
    (s t : String) → trim_right slash t ≡ t → t ≢ "" → trim_right slash (s <> t) ≡ s <> t
trim_right-append String.[] t h ne = rw nil-append h
trim_right-append (String.◌∷◌ c s) t h ne =
    let full : (s <> t) ≢ "" = append-ne-nil_of_right_ne-nil s ne in
    rw (cons-append, trim_right-append s t h ne) (ground (arith, eq_iff (s <> t) ""))

join-ne-nil : (p : String) (ps : List String) → All IsName (p ∷ ps) → join "/" (p ∷ ps) ≢ ""
unfolding join
join-ne-nil p [] h = h.0.0
join-ne-nil p (q ∷ qs) h =
    append-ne-nil_of_right_ne-nil p (append-ne-nil_of_right_ne-nil "/" (join-ne-nil q qs h.1))

trim_right-join :
    (p : String) (ps : List String)
    → All IsName (p ∷ ps)
    → trim_right slash (join "/" (p ∷ ps)) ≡ join "/" (p ∷ ps)
unfolding join
trim_right-join p [] h = trim_right_of_Lacks p h.0.2
trim_right-join p (q ∷ qs) h =
    let full = join-ne-nil q qs h.1 in
    trim_right-append p ("/" <> join "/" (q ∷ qs))
      (trim_right-append "/" (join "/" (q ∷ qs)) (trim_right-join q qs h.1) full)
      (append-ne-nil_of_right_ne-nil "/" full)

trim_left-join :
    (p : String) (ps : List String)
    → IsName p
    → trim_left slash (join "/" (p ∷ ps)) ≡ join "/" (p ∷ ps)
unfolding join
trim_left-join String.[] ps h = absurd (h.0 refl)
trim_left-join (String.◌∷◌ c s) [] h = ground arith
trim_left-join (String.◌∷◌ c s) (q ∷ qs) h = rw cons-append (ground arith)

pub trim-render :
    (r : Bool) (p : String) (ps : List String)
    → All IsName (p ∷ ps)
    → trim slash (render r (p ∷ ps)) ≡ join "/" (p ∷ ps)
unfolding trim render
trim-render false p ps h = rw (trim_left-join p ps h.0, trim_right-join p ps h)
trim-render true p ps h =
    rw (cons-append, nil-append, trim_left-join p ps h.0, trim_right-join p ps h)

pub Lacks-names : (ps : List String) → All IsName ps → All (Lacks slash) ps
Lacks-names [] _ = tt
Lacks-names (p ∷ ps) (h, hs) = (h.2, Lacks-names ps hs)

split-trim-render :
    (r : Bool) (ps : List String)
    → ps ≢ []
    → All IsName ps
    → split slash (trim slash (render r ps)) ≡ ps
split-trim-render r [] ne h = absurd (ne refl)
split-trim-render r (p ∷ ps) ne h =
    ap (split slash) (trim-render r p ps h) ∙ split-join (p ∷ ps) ne (Lacks-names (p ∷ ps) h)

-- The parts between the slashes of a cleaned path, without the outer ones, are its parts, unless
-- it has none.
pub split-trim-clean :
    (path : String)
    → clean_parts path ≢ []
    → split slash (trim slash (clean path)) ≡ clean_parts path
unfolding clean
split-trim-clean path ne =
    split-trim-render (is_rooted path) (clean_parts path) ne (clean_parts-IsName path)
