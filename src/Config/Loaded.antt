-- ===== src/Config/Loaded.antt =====
-- internal/config/config.go: `LoadedConfig`, the cached configuration, with `Get` and `Reload`.
-- A time is a number that grows; 0 is Go's zero time. Each method takes what the file system
-- answers to it. Go runs `Reload` under the write lock, so it is one step here.
use play_bin.Base.{
  ℕ, ◌≤◌, ◌<◌, true, Option, none, some, List, [], ◌∷◌, ltb, if◌then◌else◌, ◌≡◌, ◌⊎◌, inl, inr,
  refl, ap, arith, subst,
}
use play_bin.Config.{Config, empty_config}

pub record LoadedConfig : Type 0 where
  pub config : Config
  pub last_loaded : ℕ

-- An opened config.json: what decoding gives, and its modification time where `f.Stat` succeeds.
pub record Opened : Type 0 where
  pub decoded : Option Config
  pub mod_time : Option ℕ

-- `Reload`; `none` is a file that cannot be opened.
unfoldable pub reload : Option Opened → LoadedConfig → LoadedConfig
reload none c = c
reload (some f) c = elim f.decoded [
  | none ↦ c
  | some new ↦ elim f.mod_time [
    | none ↦ record c { config = new }
    | some t ↦ record { config = new; last_loaded = t }
  ]
]

-- `Get`: what `os.Stat` gives for the file, and what `Reload` then finds.
unfoldable pub get : Option ℕ → Option Opened → LoadedConfig → LoadedConfig × Config
unfolding reload
get stat file c =
    let c' : LoadedConfig = elim stat [
      | none ↦ c
      | some t ↦ if ltb c.last_loaded t then reload file c else c
    ] in
    (c', c'.config)

-- `&config.LoadedConfig{}`
abbrev pub start : LoadedConfig
start = record { config = empty_config; last_loaded = 0 }

-- A file in good order.
abbrev pub sound_file : ℕ → Config → Option Opened
sound_file t new = some (record { decoded = some new; mod_time = some t })

-- The reloads of several goroutines, in the order in which they take the lock.
unfoldable pub reload_all : List (Option Opened) → LoadedConfig → LoadedConfig
unfolding reload
reload_all [] c = c
reload_all (f ∷ fs) c = reload_all fs (reload f c)

-- The cache holds the version of the file that its time names, or it was never filled.
abbrev pub IsSynced : (ℕ → Config) → LoadedConfig → Type 0
IsSynced version c = (c.last_loaded ≡ 0) ⊎ (c.config ≡ version c.last_loaded)

-- If the cache was never filled, or holds the version of the file that its time names; and the
-- modification time tells the versions apart, is not zero, and is not before that of the cache; and
-- the file can be opened, decodes, gives its time, and is the same one from `os.Stat` to `f.Stat`:
-- then `Get` returns the version on disk, and the cache holds it with its time.
pub get_fresh :
    (version : ℕ → Config) (t : ℕ) (c : LoadedConfig)
    → IsSynced version c
    → 0 < t
    → c.last_loaded ≤ t
    → get (some t) (sound_file t (version t)) c
      ≡ (record { config = version t; last_loaded = t }, version t)
unfolding get
get_fresh version t c (inl e) pos le = ground arith
get_fresh version t c (inr e) pos le = elim (same_or_later c.last_loaded t le) [
  | inl later ↦ rw later
  | inr same ↦
      let held : c.config ≡ version t = subst (λ k. c.config ≡ version k) same e in ground arith
]
  where
    same_or_later : (a b : ℕ) → a ≤ b → (ltb a b ≡ true) ⊎ (a ≡ b)
    same_or_later a b h = ground arith

-- What one lock holder finds: a configuration, or nothing that can be used.
abbrev pub usable : Option Opened → Option Config
usable none = none
usable (some f) = f.decoded

-- The configuration of the last usable file, or else the old one.
abbrev pub last_usable : Config → List (Option Opened) → Config
last_usable old [] = old
last_usable old (f ∷ fs) = last_usable (elim (usable f) [ none ↦ old | some new ↦ new ]) fs

config-reload :
    (f : Option Opened) (c : LoadedConfig)
    → (reload f c).config ≡ elim (usable f) [ none ↦ c.config | some new ↦ new ]
unfolding reload
config-reload none c = refl
config-reload (some f) c = ground arith

-- However the reloads interleave, the cache holds the last configuration that could be read: one
-- that cannot be opened or decoded never replaces it.
pub config-reload_all :
    (fs : List (Option Opened)) (c : LoadedConfig)
    → (reload_all fs c).config ≡ last_usable c.config fs
unfolding reload_all
config-reload_all [] c = refl
config-reload_all (f ∷ fs) c = rw (config-reload_all fs (reload f c), config-reload f c)

-- `Get` answers from the cache whenever the file is not newer, whatever is on disk.
pub get_cached :
    (t : ℕ) (file : Option Opened) (c : LoadedConfig)
    → t ≤ c.last_loaded
    → get (some t) file c ≡ (c, c.config)
unfolding get
get_cached t file c h = ground arith

-- A file that is rewritten in place after `Reload` has decoded it and before it asks for the time
-- leaves the old configuration under the time of the new one: `Get` goes on answering the old one, as
-- long as the file is not written again, whatever is in it.
pub get-torn :
    (old : Config) (t : ℕ) (file : Option Opened) (c : LoadedConfig)
    → (get (some t) file (reload (some (record { decoded = some old; mod_time = some t })) c)).1
      ≡ old
unfolding reload
get-torn old t file c =
    ap (λ r. r.1) (get_cached t file (record { config = old; last_loaded = t }) (omega arith))
