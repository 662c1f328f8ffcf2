-- ===== src/Webdav/Paging.antt =====
-- internal/webdav/server.go: a client that calls `Readdir` until it gets nothing.

use play_bin.Base.{
  ℕ, zero, suc, ◌+◌, ◌-◌, ◌≤◌, ◌<◌, Bool, true, false, ◌&&◌, List, [], ◌∷◌, ◌++◌, leb, ltb, length,
  take, drop, take-append-drop, if◌then◌else◌, ◌≡◌, refl, sym, ◌∙◌, ap, arith, inl, inr, Bool-cases,
}
use play_bin.World.{FileInfo}
use play_bin.Sftp.Paging.{drop_all, drop-drop}
use play_bin.Webdav.{page}

abbrev is_empty {ℓ} : {A : Type ℓ} → List A → Bool
is_empty [] = true
is_empty (x ∷ xs) = false

-- The pages that a client reads with the given counts, one call after the other.
unfoldable pub read_pages : ℕ → List FileInfo → ℕ → ℕ → List FileInfo
read_pages zero items count offset = []
read_pages (suc fuel) items count offset =
    let (front, next) = page items offset count in
    let later = read_pages fuel items count next in if is_empty front then [] else front ++ later

-- The end of a page that is not the last, or of the last one.
page_end : List FileInfo → ℕ → ℕ → ℕ
page_end items offset count =
    if ltb 0 count && ltb (offset + count) (length items) then offset + count else length items

page_end-bounds :
    (items : List FileInfo) (offset count : ℕ)
    → offset < length items
    → (offset < page_end items offset count) × (page_end items offset count ≤ length items)
unfolding page_end
page_end-bounds items offset count within = ground (arith, within)

page-within :
    (items : List FileInfo) (offset count : ℕ)
    → offset < length items
    → page items offset count ≡ (
      take (page_end items offset count - offset) (drop offset items),
      page_end items offset count,
    )
unfolding page page_end
page-within items offset count within =
    let inside : leb (length items) offset ≡ false = ground (arith, within) in rw inside refl

page-over :
    (items : List FileInfo) (offset count : ℕ)
    → length items ≤ offset
    → page items offset count ≡ ([], offset)
unfolding page
page-over items offset count over =
    let outside : leb (length items) offset ≡ true = ground (arith, over) in rw outside refl

page_full {ℓ} :
    {A : Type ℓ} (n m : ℕ) (xs : List A)
    → 0 < n
    → m < length xs
    → is_empty (take n (drop m xs)) ≡ false
page_full zero m xs some_room within = absurd (omega arith)
page_full (suc n) m [] some_room within = absurd (omega arith)
page_full (suc n) zero (x ∷ xs) some_room within = refl
page_full (suc n) (suc m) (x ∷ xs) some_room within =
    page_full (suc n) m xs (omega arith) (omega arith)

-- A page and what follows it.
page-drop {ℓ} :
    {A : Type ℓ} (m end : ℕ) (xs : List A)
    → m ≤ end
    → take (end - m) (drop m xs) ++ drop end xs ≡ drop m xs
page-drop m end xs less =
    let joined : m + (end - m) ≡ end = omega (arith, less) in
    ap (λ k. take (end - m) (drop m xs) ++ drop k xs) (sym joined)
    ∙ ap (λ t. take (end - m) (drop m xs) ++ t) (drop-drop m (end - m) xs)
    ∙ take-append-drop (end - m) (drop m xs)

-- What a client does with a page.
abbrev next_pages : ℕ → List FileInfo → ℕ → List FileInfo × ℕ → List FileInfo
next_pages fuel items count p = if is_empty p.0 then [] else p.0 ++ read_pages fuel items count p.1

-- Whatever the count, also none, a client that calls `Readdir` of an unchanged directory until it
-- gets nothing receives the items from its offset on, each once and in their order; a call for each
-- item and one more is enough.
pub read_pages_lem :
    (fuel : ℕ) (items : List FileInfo) (count offset : ℕ)
    → length items < offset + fuel
    → read_pages fuel items count offset ≡ drop offset items
unfolding read_pages
read_pages_lem zero items count offset enough = sym (drop_all offset items (omega arith))
read_pages_lem (suc fuel) items count offset enough =
    elim (Bool-cases (leb (length items) offset)) [
      | inl over ↦
          ap (next_pages fuel items count) (page-over items offset count (ground (arith, over)))
          ∙ sym (drop_all offset items (ground (arith, over)))
      | inr within ↦
          let inside : offset < length items = ground (arith, within) in
          let end = page_end items offset count in
          let (after, fits) = page_end-bounds items offset count inside in
          let front = take (end - offset) (drop offset items) in
          let full : is_empty front ≡ false =
            page_full (end - offset) offset items (omega (arith, after)) inside in
          ap (next_pages fuel items count) (page-within items offset count inside)
          ∙ ap (λ b. if b then [] else front ++ read_pages fuel items count end) full
          ∙ ap (λ t. front ++ t)
              (read_pages_lem fuel items count end (omega (arith, after, enough)))
          ∙ page-drop offset end items (omega (arith, after))
    ]
