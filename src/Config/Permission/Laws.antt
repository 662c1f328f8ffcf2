-- ===== src/Config/Permission/Laws.antt =====
-- What a list of permissions grants, described on the parts between the dots.
use play_bin.Base.{
  String, true, none, some, List, [], ◌∷◌, ◌++◌, ◌==◌, if◌then◌else◌, ◌≡◌, ◌↔◌, ◌⊎◌, inl, inr, refl,
  ap, arith, eq_iff, eq_refl, Bool-cases,
}
use play_bin.Base.Dict.{get_or}
use play_bin.Text.{split}
use play_bin.Config.{UserConfig}
use play_bin.Config.Permission.{match_parts, match_recursive, check_permission, has_permission}

-- The parts are equal, or a part `*` stands where the parts before it agree: whatever follows the
-- `*`, and whatever is required from there on, does not count.
abbrev pub Covers : List String → List String → Type 0
Covers ps rs =
    (ps ≡ rs)
    ⊎ ((front : List String) × (after : List String) × (rest : List String) × (ps
          ≡ front ++ ("*" ∷ after))
        × (rs ≡ front ++ rest))

Covers-cons : (p : String) (ps rs : List String) → Covers ps rs → Covers (p ∷ ps) (p ∷ rs)
Covers-cons p ps rs (inl e) = inl (ap (λ t. p ∷ t) e)
Covers-cons p ps rs (inr (front, after, rest, e, e')) =
    inr (p ∷ front, after, rest, ap (λ t. p ∷ t) e, ap (λ t. p ∷ t) e')

Covers-star : (p : String) (ps rs : List String) → p ≡ "*" → Covers (p ∷ ps) rs
Covers-star p ps rs e = inr ([], ps, rs, ap (λ q. q ∷ ps) e, refl)

match_parts_sound : (ps rs : List String) → match_parts ps rs ≡ true → Covers ps rs
unfolding match_parts
match_parts_sound [] [] h = inl refl
match_parts_sound [] (r ∷ rs) h = cc
match_parts_sound (p ∷ ps) [] h = Covers-star p ps [] ((eq_iff p "*").0 h)
match_parts_sound (p ∷ ps) (r ∷ rs) h = elim (Bool-cases (p == "*")) [
  | inl star ↦ Covers-star p ps (r ∷ rs) ((eq_iff p "*").0 star)
  | inr plain ↦
      let same : p ≡ r = ground (arith, eq_iff p r) in
      rw (← same) (Covers-cons p ps rs (match_parts_sound ps rs (ground arith)))
]

match_parts_refl : (ps : List String) → match_parts ps ps ≡ true
unfolding match_parts
match_parts_refl [] = refl
match_parts_refl (p ∷ ps) = ground (arith, match_parts_refl ps, eq_refl p)

match_parts_star :
    (front after rest : List String) → match_parts (front ++ ("*" ∷ after)) (front ++ rest) ≡ true
unfolding match_parts
match_parts_star [] after [] = refl
match_parts_star [] after (r ∷ rs) = refl
match_parts_star (p ∷ front) after rest =
    ground (arith, match_parts_star front after rest, eq_refl p)

match_parts_complete : (ps rs : List String) → Covers ps rs → match_parts ps rs ≡ true
match_parts_complete ps rs (inl e) = rw e (match_parts_refl rs)
match_parts_complete ps rs (inr (front, after, rest, e, e')) =
    rw (e, e') (match_parts_star front after rest)

match_recursive_sound :
    (p r : String) → match_recursive p r ≡ true → Covers (split b'.' p) (split b'.' r)
unfolding match_recursive
match_recursive_sound p r h = elim (Bool-cases (p == "*")) [
  | inl star ↦
      let e : split b'.' p ≡ "*" ∷ [] = ap (split b'.') ((eq_iff p "*").0 star) in
      inr ([], [], split b'.' r, e, refl)
  | inr plain ↦ elim (Bool-cases (p == r)) [
    | inl same ↦ inl (ap (split b'.') ((eq_iff p r).0 same))
    | inr other ↦ match_parts_sound (split b'.' p) (split b'.' r) (ground arith)
  ]
]

match_recursive_complete :
    (p r : String) → Covers (split b'.' p) (split b'.' r) → match_recursive p r ≡ true
unfolding match_recursive
match_recursive_complete p r c =
    let m = match_parts_complete (split b'.' p) (split b'.' r) c in ground arith

-- A user's permission matches a required one exactly when its parts cover the required parts.
pub match_recursive_iff :
    (user_perm required : String)
    → (match_recursive user_perm required ≡ true)
      ↔ Covers (split b'.' user_perm) (split b'.' required)
match_recursive_iff p r = (match_recursive_sound p r, match_recursive_complete p r)

-- Some listed permission covers the required one.
abbrev pub SomeCovers : List String → String → Type 0
SomeCovers [] required = ⊥
SomeCovers (p ∷ ps) required = Covers (split b'.' p) (split b'.' required) ⊎ SomeCovers ps required

check_permission_sound :
    (perms : List String) (r : String) → check_permission perms r ≡ true → SomeCovers perms r
unfolding check_permission
check_permission_sound [] r h = cc
check_permission_sound (p ∷ ps) r h = elim (Bool-cases (match_recursive p r)) [
  | inl m ↦ inl (match_recursive_sound p r m)
  | inr n ↦ inr (check_permission_sound ps r (rw n at h))
]

check_permission_complete :
    (perms : List String) (r : String) → SomeCovers perms r → check_permission perms r ≡ true
unfolding check_permission
check_permission_complete [] r h = absurd h
check_permission_complete (p ∷ ps) r (inl c) = rw (match_recursive_complete p r c)
check_permission_complete (p ∷ ps) r (inr c) =
    let ih = check_permission_complete ps r c in ground arith

-- The permissions that a user lists for a server.
abbrev pub listed_for : UserConfig → String → List String
listed_for u server = elim u.permissions [ none ↦ [] | some perms ↦ get_or server [] perms ]

has_permission_lem :
    (u : UserConfig) (server r : String)
    → has_permission u server r ≡ (
        if check_permission (listed_for u server) r
        then true
        else check_permission (listed_for u "*") r)
unfolding has_permission
has_permission_lem u server r = ground arith

-- A user has a permission on a server exactly when one that the user lists for that server, or for
-- the server `*`, covers it.
pub has_permission_iff :
    (u : UserConfig) (server required : String)
    → (has_permission u server required ≡ true)
      ↔ (SomeCovers (listed_for u server) required ⊎ SomeCovers (listed_for u "*") required)
has_permission_iff u server r = (to, from)
  where
    to :
        has_permission u server r ≡ true
        → SomeCovers (listed_for u server) r ⊎ SomeCovers (listed_for u "*") r
    to h = elim (Bool-cases (check_permission (listed_for u server) r)) [
      | inl m ↦ inl (check_permission_sound (listed_for u server) r m)
      | inr n ↦ inr (
          check_permission_sound (listed_for u "*") r
            (rw n at (rw (has_permission_lem u server r) at h)))
    ]

    from :
        SomeCovers (listed_for u server) r ⊎ SomeCovers (listed_for u "*") r
        → has_permission u server r ≡ true
    from (inl c) =
        rw (has_permission_lem u server r, check_permission_complete (listed_for u server) r c)
    from (inr c) =
        let e = check_permission_complete (listed_for u "*") r c in
        rw (has_permission_lem u server r) (ground arith)
