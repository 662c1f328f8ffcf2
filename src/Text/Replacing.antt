-- ===== src/Text/Replacing.antt =====
-- `strings.ReplaceAll` for a text whose first character marks it, as `$` does: what is kept and what
-- is replaced.
use Prim.Native.String
use Prim.Native.String.count
use text.Mathlib.TextLemmas.{nil-append, cons-append, append-nil}
use play_bin.Base.{
  ℕ, zero, suc, Char, code, String, none, some, ◌<>◌, ◌≡◌, ◌≢◌, ap, sym, ◌∙◌, arith,
}
use play_bin.Text.Splitting.{strip_prefix, replace_from, count_pred, replace_all, Lacks}

pub replace_from-front :
    (n : ℕ) (d : Char) (old new front s : String)
    → Lacks (code d) front
    → replace_from n (String.◌∷◌ d old) new zero (front <> s)
      ≡ front <> replace_from n (String.◌∷◌ d old) new zero s
unfolding replace_from strip_prefix
replace_from-front n d old new String.[] s lacks = rw (nil-append, nil-append)
replace_from-front n d old new (String.◌∷◌ c front) s (other, lacks) =
    let ih = replace_from-front n d old new front s lacks in
    let missing : strip_prefix (String.◌∷◌ d old) (String.◌∷◌ c (front <> s)) ≡ none =
      ground arith in
    rw (cons-append, cons-append) (ground (arith, missing, ih))

-- What stands before the first character that a replaced text can begin with is kept.
pub replace_all-front :
    (d : Char) (old new front s : String)
    → Lacks (code d) front
    → replace_all (front <> s) (String.◌∷◌ d old) new
      ≡ front <> replace_all s (String.◌∷◌ d old) new
unfolding replace_all
replace_all-front d old new front s lacks =
    replace_from-front (count_pred (String.◌∷◌ d old)) d old new front s lacks

pub Lacks-append : (sep : ℕ) (s t : String) → Lacks sep s → Lacks sep t → Lacks sep (s <> t)
Lacks-append sep String.[] t _ h = rw (nil-append) h
Lacks-append sep (String.◌∷◌ c s) t (hc, hs) h = rw (cons-append) (hc, Lacks-append sep s t hs h)

strip_none :
    (n : ℕ) (old new : String) (c : Char) (s : String)
    → strip_prefix old (String.◌∷◌ c s) ≡ none
    → replace_from n old new zero (String.◌∷◌ c s) ≡ String.◌∷◌ c (replace_from n old new zero s)
unfolding replace_from
strip_none n old new c s h = ground (arith, h)

strip_some :
    (n : ℕ) (old new : String) (c : Char) (s t : String)
    → strip_prefix old (String.◌∷◌ c s) ≡ some t
    → replace_from n old new zero (String.◌∷◌ c s) ≡ new <> replace_from n old new n s
unfolding replace_from
strip_some n old new c s t h = ground (arith, h)

strip_other :
    (d a b : Char) (old s : String)
    → code a ≢ code b
    → strip_prefix (String.◌∷◌ d (String.◌∷◌ a old)) (String.◌∷◌ d (String.◌∷◌ b s)) ≡ none
unfolding strip_prefix
strip_other d a b old s other = ground arith

strip_same :
    (d a b : Char) (s : String)
    → code a ≡ code b
    → strip_prefix (String.◌∷◌ d (String.◌∷◌ a "")) (String.◌∷◌ d (String.◌∷◌ b s)) ≡ some s
unfolding strip_prefix
strip_same d a b s same = ground arith

module _ (d : Char) where
  replace_from_absent :
      (n : ℕ) (old new s : String)
      → Lacks (code d) s
      → replace_from n (String.◌∷◌ d old) new zero s ≡ s
  unfolding replace_from
  replace_from_absent n old new s lacks =
      ap (λ t. replace_from n (String.◌∷◌ d old) new zero t) (sym (append-nil s))
      ∙ replace_from-front n d old new s "" lacks
      ∙ append-nil s

  -- A text without the mark is kept.
  pub replace_all_absent :
      (old new s : String) → Lacks (code d) s → replace_all s (String.◌∷◌ d old) new ≡ s
  unfolding replace_all
  replace_all_absent old new s lacks =
      replace_from_absent (count_pred (String.◌∷◌ d old)) old new s lacks

  -- The mark is kept where another character follows.
  pub replace_all_other :
      (a b : Char) (old new front back : String)
      → code a ≢ code b
      → Lacks (code d) front
      → Lacks (code d) (String.◌∷◌ b back)
      → replace_all
          (front <> String.◌∷◌ d (String.◌∷◌ b back))
          (String.◌∷◌ d (String.◌∷◌ a old))
          new
        ≡ front <> String.◌∷◌ d (String.◌∷◌ b back)
  unfolding replace_all
  replace_all_other a b old new front back other clear lacks =
      let n = count_pred (String.◌∷◌ d (String.◌∷◌ a old)) in
      let kept = replace_from_absent n (String.◌∷◌ a old) new (String.◌∷◌ b back) lacks in
      replace_all-front d (String.◌∷◌ a old) new front (String.◌∷◌ d (String.◌∷◌ b back)) clear
      ∙ ap (λ t. front <> t)
          (strip_none n (String.◌∷◌ d (String.◌∷◌ a old)) new d (String.◌∷◌ b back)
              (strip_other d a b old back other)
            ∙ ap (λ t. String.◌∷◌ d t) kept)

  -- The mark with the character that is asked for is replaced.
  pub replace_all_same :
      (a b : Char) (new front back : String)
      → code a ≡ code b
      → Lacks (code d) front
      → Lacks (code d) back
      → replace_all (front <> String.◌∷◌ d (String.◌∷◌ b back)) (String.◌∷◌ d (String.◌∷◌ a "")) new
        ≡ front <> new <> back
  unfolding replace_all replace_from
  replace_all_same a b new front back same clear lacks =
      replace_all-front d (String.◌∷◌ a "") new front (String.◌∷◌ d (String.◌∷◌ b back)) clear
      ∙ ap
          (λ n.
            front
            <> replace_from n (String.◌∷◌ d (String.◌∷◌ a "")) new zero
                (String.◌∷◌ d (String.◌∷◌ b back)))
          (String.count.cons a "" ∙ ap suc String.count.nil)
      ∙ ap (λ t. front <> t)
          (strip_some 1 (String.◌∷◌ d (String.◌∷◌ a "")) new d (String.◌∷◌ b back) back
              (strip_same d a b back same)
            ∙ ap (λ t. new <> t) (replace_from_absent 1 (String.◌∷◌ a "") new back lacks))
