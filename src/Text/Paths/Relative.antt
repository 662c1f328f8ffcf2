-- ===== src/Text/Paths/Relative.antt =====
-- `filepath.Rel` from a plain name to what lies below it.

use play_bin.Base.{
  String, false, List, [], ◌∷◌, ◌++◌, reverse, ◌==◌, ◌<>◌, ◌≡◌, ◌≢◌, refl, ap, arith, eq_iff,
  eq_refl, All, Bool-cases, inl, inr,
}
use mathlib.Core.List.{append-nil, reverse-reverse}
use play_bin.Text.Splitting.{split, join, Lacks}
use play_bin.Text.Paths.{slash, is_rooted, clean_parts, render, clean, join_path, rel_path}
use play_bin.Text.Paths.Laws.{
  IsPlain, All-Lacks, split-join, split-append, resolve_all-append, resolve_all_of_IsPlain,
  clean_parts-join, is_rooted-append,
}
use text.Mathlib.TextLemmas.{cons-append}

pub is_rooted_of_Lacks : (s : String) → Lacks slash s → is_rooted s ≡ false
is_rooted_of_Lacks String.[] _ = refl
is_rooted_of_Lacks (String.◌∷◌ c s) (h, _) = ground arith

-- Plain parts, joined, are no rooted path.
pub is_rooted-join :
    (p : String) (ps : List String) → IsPlain p → is_rooted (join "/" (p ∷ ps)) ≡ false
unfolding join
is_rooted-join p [] h = is_rooted_of_Lacks p h.3
is_rooted-join String.[] (q ∷ qs) h = absurd (h.0 refl)
is_rooted-join (String.◌∷◌ c s) (q ∷ qs) h =
    rw cons-append (is_rooted_of_Lacks (String.◌∷◌ c s) h.3)

clean_parts_of_join :
    (p : String) (ps : List String)
    → All IsPlain (p ∷ ps)
    → clean_parts (join "/" (p ∷ ps)) ≡ p ∷ ps
unfolding clean_parts
clean_parts_of_join p ps h =
    rw
      (
        is_rooted-join p ps h.0,
        split-join (p ∷ ps) (cc) (All-Lacks (p ∷ ps) h),
        resolve_all_of_IsPlain false [] (p ∷ ps) h,
        append-nil (reverse (p ∷ ps)),
      )
      (reverse-reverse (p ∷ ps))

clean_of_join :
    (p : String) (ps : List String)
    → All IsPlain (p ∷ ps)
    → clean (join "/" (p ∷ ps)) ≡ join "/" (p ∷ ps)
unfolding clean render
clean_of_join p ps h = rw (clean_parts_of_join p ps h, is_rooted-join p ps h.0)

-- From a plain name to itself: the directory.
rel_path_self : (p : String) → rel_path p p ≡ "."
unfolding rel_path
rel_path_self p = rw (eq_refl (clean p))

join_differs :
    (p q : String) (ps : List String)
    → All IsPlain (p ∷ q ∷ ps)
    → (join "/" (p ∷ []) == join "/" (p ∷ q ∷ ps)) ≡ false
join_differs p q ps h = elim (Bool-cases (join "/" (p ∷ []) == join "/" (p ∷ q ∷ ps))) [
  | inr no_match ↦ no_match
  | inl same ↦
      let e = ap (split slash) ((eq_iff (join "/" (p ∷ [])) (join "/" (p ∷ q ∷ ps))).0 same) in
      let one = split-join (p ∷ []) (cc) (h.0.3, tt) in
      let more = split-join (p ∷ q ∷ ps) (cc) (All-Lacks (p ∷ q ∷ ps) h) in cc (e, one, more)
]

-- From a plain name to what lies below it: the parts that follow.
rel_path_below :
    (p q : String) (ps : List String)
    → All IsPlain (p ∷ q ∷ ps)
    → rel_path (join "/" (p ∷ [])) (join "/" (p ∷ q ∷ ps)) ≡ join "/" (q ∷ ps)
unfolding rel_path
rel_path_below p q ps h =
    rw
      (
        clean_of_join p [] (h.0, tt),
        clean_of_join p (q ∷ ps) h,
        join_differs p q ps h,
        is_rooted-join p [] h.0,
        is_rooted-join p (q ∷ ps) h.0,
        clean_parts_of_join p [] (h.0, tt),
        clean_parts_of_join p (q ∷ ps) h,
      )
      (rw (eq_refl p))

join-ne-empty :
    (p : String) (ps : List String) → All IsPlain (p ∷ ps) → (join "/" (p ∷ ps) == "") ≡ false
join-ne-empty p ps h = elim (Bool-cases (join "/" (p ∷ ps) == "")) [
  | inr no_match ↦ no_match
  | inl same ↦
      let e = ap (split slash) ((eq_iff (join "/" (p ∷ ps)) "").0 same) in
      let parts = split-join (p ∷ ps) (cc) (All-Lacks (p ∷ ps) h) in
      absurd (h.0.0 (unfold split in cc (e, parts)))
]

eq_false : (s t : String) → s ≢ t → (s == t) ≡ false
eq_false s t h = ground (arith, eq_iff s t)

clean_parts-dot : (dir : String) → dir ≢ "" → clean_parts (dir <> "/" <> ".") ≡ clean_parts dir
unfolding clean_parts
clean_parts-dot dir h = rw (
  is_rooted-append dir ("/" <> ".") h,
  split-append dir ".",
  resolve_all-append (is_rooted dir) [] (split slash dir) ("." ∷ []),
)

-- A directory joined with the relative path from a plain name to a path below that name: the
-- directory's parts, then those that follow the name.
pub join_path-rel_path :
    (dir p : String) (ps : List String)
    → dir ≢ ""
    → All IsPlain (p ∷ ps)
    → join_path dir (rel_path p (join "/" (p ∷ ps)))
      ≡ render (is_rooted dir) (clean_parts dir ++ ps)
unfolding join_path clean join
join_path-rel_path dir p [] hd h = rw (
  rel_path_self p,
  eq_false dir "" hd,
  clean_parts-dot dir hd,
  is_rooted-append dir ("/" <> ".") hd,
  append-nil (clean_parts dir),
)
join_path-rel_path dir p (q ∷ ps) hd h = rw (
  rel_path_below p q ps h,
  eq_false dir "" hd,
  join-ne-empty q ps h.1,
  clean_parts-join dir (q ∷ ps) hd (cc) h.1,
  is_rooted-append dir ("/" <> join "/" (q ∷ ps)) hd,
)
