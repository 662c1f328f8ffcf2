-- ===== src/Container/Generations/Laws.antt =====
-- internal/container/container.go: what the list of generations holds, and its order.

use text.Mathlib.TextEquality.{Char-path}
use play_bin.Base.{
  code, String, Bool, true, false, not, ◌&&◌, ◌||◌, some, List, [], ◌∷◌, ◌++◌, ◌==◌, eqb, contains,
  if◌then◌else◌, ◌≡◌, ◌≢◌, refl, ◌∙◌, arith, eq_iff, inl, inr, ap, Bool-cases, Option-cases,
}
use play_bin.Base.Dict.{lookup}
use play_bin.Config.{CmdConfig, ServerConfig}
use play_bin.World.{DirEntry, Event, Trace, Env, ok, err, config_get, read_dir}
use play_bin.World.Laws.{Result-cases}
use play_bin.Container.Archive.{backup_paths}
use play_bin.Container.Generations.{
  str_lt, insert_desc, sort_desc, add_entries, collect, list_generations,
}

str_lt-total : (s t : String) → str_lt s t ≡ false → s ≢ t → str_lt t s ≡ true
unfolding str_lt
str_lt-total String.[] String.[] h ne = absurd (ne refl)
str_lt-total String.[] (String.◌∷◌ d t) h ne = cc
str_lt-total (String.◌∷◌ c s) String.[] h ne = refl
str_lt-total (String.◌∷◌ c s) (String.◌∷◌ d t) h ne = elim (Bool-cases (eqb (code c) (code d))) [
  | inl e ↦
      let same : code c ≡ code d = ground arith in
      let q : c ≡ d = Char-path c d same in
      let ih : str_lt t s ≡ true =
        str_lt-total s t (ground arith) (λ r. ne (λ i. String.◌∷◌ (q i) (r i))) in
      ground arith
  | inr other ↦ ground arith
]

-- Each text is smaller than the one before it.
abbrev pub IsDescending : List String → Type 0
IsDescending [] = Unit
IsDescending (x ∷ []) = Unit
IsDescending (x ∷ y ∷ l) = (str_lt y x ≡ true) × IsDescending (y ∷ l)

abbrev IsDistinct : List String → Type 0
IsDistinct [] = Unit
IsDistinct (x ∷ xs) = (contains x xs ≡ false) × IsDistinct xs

contains-insert_desc :
    (g x : String) (l : List String) → contains g (insert_desc x l) ≡ (g == x || contains g l)
unfolding insert_desc
contains-insert_desc g x [] = refl
contains-insert_desc g x (y ∷ ys) = ground (arith, contains-insert_desc g x ys)

contains-sort_desc : (g : String) (l : List String) → contains g (sort_desc l) ≡ contains g l
unfolding sort_desc
contains-sort_desc g [] = refl
contains-sort_desc g (x ∷ xs) =
    contains-insert_desc g x (sort_desc xs) ∙ ap (λ b. g == x || b) (contains-sort_desc g xs)

IsDescending-tail : (y : String) (l : List String) → IsDescending (y ∷ l) → IsDescending l
IsDescending-tail y [] d = tt
IsDescending-tail y (z ∷ l) d = d.1

-- Putting a text below one that is greater keeps the order.
insert_desc-IsDescending_below :
    (x y : String) (l : List String)
    → IsDescending (y ∷ l)
    → str_lt x y ≡ true
    → contains x l ≡ false
    → IsDescending (y ∷ insert_desc x l)
unfolding insert_desc
insert_desc-IsDescending_below x y [] d lt new = (lt, tt)
insert_desc-IsDescending_below x y (z ∷ l) d lt new = elim (Bool-cases (str_lt x z)) [
  | inl below ↦
      let (here, later) = d in
      rw below (here, insert_desc-IsDescending_below x z l later below (ground arith))
  | inr above ↦ rw above (lt, ground (arith, str_lt-total x z above, eq_iff x z))
]

insert_desc-IsDescending :
    (x : String) (l : List String)
    → IsDescending l
    → contains x l ≡ false
    → IsDescending (insert_desc x l)
unfolding insert_desc
insert_desc-IsDescending x [] d new = tt
insert_desc-IsDescending x (y ∷ l) d new = elim (Bool-cases (str_lt x y)) [
  | inl below ↦ rw below (insert_desc-IsDescending_below x y l d below (ground arith))
  | inr above ↦ rw above (ground (arith, str_lt-total x y above, eq_iff x y))
]

sort_desc-IsDescending : (l : List String) → IsDistinct l → IsDescending (sort_desc l)
unfolding sort_desc
sort_desc-IsDescending [] u = tt
sort_desc-IsDescending (x ∷ xs) (new, u) =
    insert_desc-IsDescending x (sort_desc xs) (sort_desc-IsDescending xs u)
      (contains-sort_desc x xs ∙ new)

contains-append :
    (g : String) (xs ys : List String) → contains g (xs ++ ys) ≡ (contains g xs || contains g ys)
contains-append g [] ys = refl
contains-append g (x ∷ xs) ys = ground (arith, contains-append g xs ys)

IsDistinct-append :
    (xs : List String) (y : String)
    → IsDistinct xs
    → contains y xs ≡ false
    → IsDistinct (xs ++ (y ∷ []))
IsDistinct-append [] y u new = (refl, tt)
IsDistinct-append (x ∷ xs) y u new =
    ground
      (arith, contains-append x xs (y ∷ []), IsDistinct-append xs y u.1, eq_iff x y, eq_iff y x)

-- A directory among the entries that has the name `g` and is a generation.
abbrev pub has_generation : String → List DirEntry → Bool
has_generation g [] = false
has_generation g (e ∷ es) = (g == e.name && e.is_dir && not (g == "latest")) || has_generation g es

add_entries-IsDistinct :
    (es : List DirEntry) (gs : List String) → IsDistinct gs → IsDistinct (add_entries es gs)
unfolding add_entries
add_entries-IsDistinct [] gs u = u
add_entries-IsDistinct (e ∷ es) gs u =
    elim (Bool-cases (e.name == "latest" || not e.is_dir || contains e.name gs)) [
      | inl skip ↦ rw skip (add_entries-IsDistinct es gs u)
      | inr new ↦ rw new (
          add_entries-IsDistinct es (gs ++ (e.name ∷ []))
            (IsDistinct-append gs e.name u (ground arith)))
    ]

contains_of_eq : (g x : String) (gs : List String) → g ≡ x → contains g gs ≡ contains x gs
contains_of_eq g x gs e = ap (λ t. contains t gs) e

contains-add_entries :
    (g : String) (es : List DirEntry) (gs : List String)
    → contains g (add_entries es gs) ≡ (contains g gs || has_generation g es)
unfolding add_entries
contains-add_entries g [] gs = ground arith
contains-add_entries g (e ∷ es) gs =
    contains-add_entries g es
      (if e.name == "latest" || not e.is_dir || contains e.name gs then gs else gs ++ (e.name ∷ []))
    ∙ ground (
      arith,
      contains-append g gs (e.name ∷ []),
      eq_iff g e.name,
      eq_iff e.name "latest",
      eq_iff g "latest",
      contains_of_eq g e.name gs,
    )

-- Whether the event is the reading of a directory that holds the generation `g`.
abbrev pub shows : String → Event → Bool
shows g (read_dir _, ok es) = has_generation g es
shows g _ = false

abbrev pub any_shows : String → Trace → Bool
any_shows g [] = false
any_shows g (e ∷ h) = shows g e || any_shows g h

-- What the loop returns is distinct, and it is what the directories showed.
abbrev pub Collected : String → List String × Trace → Type 0
Collected g (gs, h) = IsDistinct gs × (contains g gs ≡ any_shows g h)

collect-Collected :
    (g : String) (cmds : List CmdConfig) (gs : List String) (env : Env) (h : Trace)
    → Collected g (gs, h)
    → Collected g (collect cmds gs env h)
unfolding collect
collect-Collected g [] gs env h c = c
collect-Collected g (cmd ∷ cmds) gs env h c = elim (Bool-cases (cmd.kind == "backup")) [
  | inr other ↦ rw other (collect-Collected g cmds gs env h c)
  | inl copy ↦ elim (Option-cases (backup_paths cmd.arg)) [
    | inl p ↦ rw (copy, p) (collect-Collected g cmds gs env h c)
    | inr ((src, dest), p) ↦ elim (Result-cases (env h (read_dir dest))) [
      | inr (x, q) ↦
          rw (copy, p, q) (collect-Collected g cmds gs env ((read_dir dest, err x) ∷ h) c)
      | inl (es, q) ↦
          rw (copy, p, q)
            (collect-Collected g cmds (add_entries es gs) env ((read_dir dest, ok es) ∷ h)
              (add_entries-IsDistinct es gs c.0, ground (arith, contains-add_entries g es gs)))
    ]
  ]
]

-- For a configured server, from an empty trace: the list is strictly descending, so newest first
-- and without repetition, and it holds a text exactly when one of the directories that were read
-- has an entry of that name which is a directory and is not named `latest`.
pub list_generations_lem :
    (name g : String) (env : Env) (server : ServerConfig)
    → lookup name (env [] config_get).servers ≡ some server
    → (gs : List String) × ((list_generations name env []).0 ≡ ok gs)
      × IsDescending gs
      × (contains g gs ≡ any_shows g (list_generations name env []).1)
unfolding list_generations lookup
list_generations_lem name g env server p =
    let h : Trace = (config_get, env [] config_get) ∷ [] in
    let found = collect server.commands.backup [] env h in
    let (distinct, same) = collect-Collected g server.commands.backup [] env h (tt, refl) in
    rw p (
      sort_desc found.0,
      refl,
      sort_desc-IsDescending found.0 distinct,
      contains-sort_desc g found.0 ∙ same,
    )
