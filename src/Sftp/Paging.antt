-- ===== src/Sftp/Paging.antt =====
-- internal/sftp/server.go: a client that asks `ListAt` for one buffer after the other, until it
-- gets `io.EOF`.
use play_bin.Base.{
  ℕ, zero, suc, ◌+◌, ◌≤◌, ◌<◌, List, [], ◌∷◌, ◌++◌, leb, ltb, length, take, drop, if◌then◌else◌,
  ◌≡◌, refl, sym, ◌∙◌, arith, ap, Bool-cases, inl, inr,
}
use Prim.Native.Nat.add
use play_bin.World.{FileInfo}
use play_bin.Sftp.{list_at}

-- The reads of a client with a buffer of the given size, with fuel.
unfoldable pub read_all : ℕ → List FileInfo → ℕ → ℕ → List FileInfo
read_all zero items size offset = []
read_all (suc fuel) items size offset =
    let (page, end) = list_at items size offset in
    let later = read_all fuel items size (offset + length page) in
    if end then page else page ++ later

module _ {ℓ} {A : Type ℓ} where
  length-take_le : (n : ℕ) (xs : List A) → length (take n xs) ≤ n
  length-take_le zero xs = omega arith
  length-take_le (suc n) [] = omega arith
  length-take_le (suc n) (x ∷ xs) = omega (arith, length-take_le n xs)

  pub drop_all : (n : ℕ) (xs : List A) → length xs ≤ n → drop n xs ≡ []
  drop_all zero [] h = refl
  drop_all zero (x ∷ xs) h = absurd (omega arith)
  drop_all (suc n) [] h = refl
  drop_all (suc n) (x ∷ xs) h = drop_all n xs (omega arith)

  -- A buffer that is not filled took all that was left.
  take_short : (n : ℕ) (xs : List A) → length (take n xs) < n → take n xs ≡ xs
  take_short zero xs h = absurd (omega arith)
  take_short (suc n) [] h = refl
  take_short (suc n) (x ∷ xs) h = ap (λ t. x ∷ t) (take_short n xs (omega arith))

  pub drop-drop : (m k : ℕ) (xs : List A) → drop (m + k) xs ≡ drop k (drop m xs)
  drop-drop zero k xs = rw (add.zero k)
  drop-drop (suc m) zero [] = rw (add.suc m zero)
  drop-drop (suc m) (suc k) [] = rw (add.suc m (suc k))
  drop-drop (suc m) k (x ∷ xs) = rw (add.suc m k) (drop-drop m k xs)

  take-append-drop_taken : (n : ℕ) (xs : List A) → take n xs ++ drop (length (take n xs)) xs ≡ xs
  take-append-drop_taken zero xs = refl
  take-append-drop_taken (suc n) [] = refl
  take-append-drop_taken (suc n) (x ∷ xs) = ap (λ t. x ∷ t) (take-append-drop_taken n xs)

  -- A buffer and what follows it.
  take-drop_more :
      (n m : ℕ) (xs : List A)
      → take n (drop m xs) ++ drop (m + length (take n (drop m xs))) xs ≡ drop m xs
  take-drop_more n m xs =
      ap (λ t. take n (drop m xs) ++ t) (drop-drop m (length (take n (drop m xs))) xs)
      ∙ take-append-drop_taken n (drop m xs)

-- With a buffer that is not empty, and a read for each item and one more, the client receives the
-- items from its offset on, in their order.
pub read_all_lem :
    (fuel : ℕ) (items : List FileInfo) (size offset : ℕ)
    → 0 < size
    → length items < offset + fuel
    → read_all fuel items size offset ≡ drop offset items
unfolding read_all list_at
read_all_lem zero items size offset pos enough = sym (drop_all offset items (omega arith))
read_all_lem (suc fuel) items size offset pos enough =
    let page = take size (drop offset items) in
    elim (Bool-cases (leb (length items) offset)) [
      | inl over ↦ rw over (sym (drop_all offset items (ground arith)))
      | inr within ↦ elim (Bool-cases (ltb (length page) size)) [
        | inl short ↦ rw (within, short) (take_short size (drop offset items) (ground arith))
        | inr full ↦
            rw (within, full)
              (ap (λ t. page ++ t)
                  (read_all_lem fuel items size (offset + length page) pos (ground arith))
                ∙ take-drop_more size offset items)
      ]
    ]
