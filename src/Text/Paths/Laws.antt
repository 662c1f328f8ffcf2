-- ===== src/Text/Paths/Laws.antt =====
-- Joining a directory with plain parts stays below the directory.

use mathlib.Core.List.{append_assoc, reverse-cons, reverse-append, reverse-reverse}
use text.Mathlib.TextLemmas.{nil-append, cons-append}
use play_bin.Base.{
  Char, String, Bool, List, [], ◌∷◌, ◌++◌, reverse, ◌<>◌, ◌≡◌, ◌≢◌, refl, ap, ◌∙◌, arith, eq_iff,
  All, ◌≡⟨◌⟩◌, ◌∎,
}
use play_bin.Text.Splitting.{split, join, push_front, Lacks, split_of_Lacks, split-ne-nil}
use play_bin.Text.Paths.{slash, is_rooted, resolve, resolve_all, clean_parts}

-- A part that names an entry of a directory.
abbrev pub IsPlain : String → Type 0
IsPlain part = (part ≢ "") × (part ≢ ".") × (part ≢ "..") × Lacks slash part

push_front-append :
    (c : Char) (ps qs : List String) → ps ≢ [] → push_front c (ps ++ qs) ≡ push_front c ps ++ qs
push_front-append c [] qs h = absurd (h refl)
push_front-append c (p ∷ ps) qs h = refl

-- A separator between two texts splits them apart.
pub split-append : (s t : String) → split slash (s <> "/" <> t) ≡ split slash s ++ split slash t
unfolding split
split-append String.[] t = rw (nil-append, cons-append, nil-append) refl
split-append (String.◌∷◌ c s) t =
    rw (cons-append, split-append s t)
      (ground (arith, push_front-append c (split slash s) (split slash t), split-ne-nil slash s))

pub resolve_all-append :
    (r : Bool) (stack ps qs : List String)
    → resolve_all r stack (ps ++ qs) ≡ resolve_all r (resolve_all r stack ps) qs
unfolding resolve_all
resolve_all-append r stack [] qs = refl
resolve_all-append r stack (p ∷ ps) qs = resolve_all-append r (resolve r stack p) ps qs

pub resolve_of_IsPlain :
    (r : Bool) (stack : List String) (p : String) → IsPlain p → resolve r stack p ≡ p ∷ stack
unfolding resolve
resolve_of_IsPlain r stack p h = ground (arith, eq_iff p "", eq_iff p ".", eq_iff p "..")

-- Plain parts are all kept.
pub resolve_all_of_IsPlain :
    (r : Bool) (stack ps : List String)
    → All IsPlain ps
    → resolve_all r stack ps ≡ reverse ps ++ stack
unfolding resolve_all
resolve_all_of_IsPlain r stack [] _ = refl
resolve_all_of_IsPlain r stack (p ∷ ps) (hp, hs) =
    resolve_all r (resolve r stack p) ps
    ≡⟨ ap (λ s. resolve_all r s ps) (resolve_of_IsPlain r stack p hp) ⟩ resolve_all r (p ∷ stack) ps
    ≡⟨ resolve_all_of_IsPlain r (p ∷ stack) ps hs ⟩ reverse ps ++ (p ∷ stack)
    ≡⟨ (simp (reverse-cons, append_assoc)) ⟩ reverse (p ∷ ps) ++ stack ∎

pub All-Lacks : (ps : List String) → All IsPlain ps → All (Lacks slash) ps
All-Lacks [] _ = tt
All-Lacks (p ∷ ps) (h, hs) = (h.3, All-Lacks ps hs)

-- Parts without slashes come back from the text that joins them.
pub split-join :
    (ps : List String) → ps ≢ [] → All (Lacks slash) ps → split slash (join "/" ps) ≡ ps
unfolding join
split-join [] h _ = absurd (h refl)
split-join (p ∷ []) _ (hp, _) = split_of_Lacks slash p hp
split-join (p ∷ q ∷ ps) _ (hp, hs) =
    split-append p (join "/" (q ∷ ps))
    ∙ rw (split_of_Lacks slash p hp, split-join (q ∷ ps) (cc) hs) refl

pub is_rooted-append : (s t : String) → s ≢ "" → is_rooted (s <> t) ≡ is_rooted s
is_rooted-append String.[] t h = absurd (h refl)
is_rooted-append (String.◌∷◌ c s) t h = rw cons-append refl

-- The parts of a directory joined with plain parts: those of the directory, then the others.
pub clean_parts-join :
    (dir : String) (ps : List String)
    → dir ≢ ""
    → ps ≢ []
    → All IsPlain ps
    → clean_parts (dir <> "/" <> join "/" ps) ≡ clean_parts dir ++ ps
unfolding clean_parts
clean_parts-join dir ps hd hp plain =
    rw
      (
        is_rooted-append dir ("/" <> join "/" ps) hd,
        split-append dir (join "/" ps),
        split-join ps hp (All-Lacks ps plain),
        resolve_all-append (is_rooted dir) [] (split slash dir) ps,
        resolve_all_of_IsPlain (is_rooted dir) (resolve_all (is_rooted dir) [] (split slash dir)) ps
            plain,
      )
      (reverse-append (reverse ps) (resolve_all (is_rooted dir) [] (split slash dir))
        ∙ ap (λ t. reverse (resolve_all (is_rooted dir) [] (split slash dir)) ++ t)
            (reverse-reverse ps))
