-- ===== src/World/Laws.antt =====
-- Properties of the calls that an operation makes, whatever the surroundings answer.
use play_bin.Base.{
  ℕ, suc, Bool, true, false, ◌||◌, Option, none, some, [], ◌∷◌, if◌then◌else◌, ◌≡◌, refl, ◌⊎◌, inl,
  inr,
}
use play_bin.World.{
  OpenFlags, Event, make_dir_all, rsync, remove_file, remove_all, symlink, open_file, rename, Error,
  Result, ok, err, Trace, Env, M, ◌>>=◌,
}

-- The operation keeps a property of the trace.
abbrev pub Keeps {ℓ} : {A : Type ℓ} → (Trace → Type 0) → M A → Type 0
Keeps I m = (env : Env) (h : Trace) → I h → I (m env h).1

pub Keeps-bind {ℓ κ} :
    {A : Type ℓ} {B : Type κ} (I : Trace → Type 0) (m : M A) (f : A → M B)
    → Keeps I m
    → ((a : A) → Keeps I (f a))
    → Keeps I (m >>= f)
Keeps-bind I m f km kf env h i = kf (m env h).0 env (m env h).1 (km env h i)

-- The calls of `now` are the first ones of the trace.
pub data Past (now : Trace) : Trace → Type 0 where
  here : Past now now
  later : {h : Trace} (e : Event) → Past now h → Past now (e ∷ h)

pub past_trans : {a b c : Trace} → Past a b → Past b c → Past a c
past_trans first here = first
past_trans first (later e rest) = later e (past_trans first rest)

-- To split on an answer and keep the equation.
pub Result-cases {ℓ} :
    {A : Type ℓ} (r : Result A) → ((a : A) × (r ≡ ok a)) ⊎ ((e : Error) × (r ≡ err e))
Result-cases (ok a) = inl (a, refl)
Result-cases (err e) = inr (e, refl)

-- A property of the trace after an operation that a test or a result selects.
module _ (I : Trace → Type 0) (env : Env) (h : Trace) where
  pub if-then {ℓ} :
      {A : Type ℓ} (b : Bool) (m n : M A)
      → (b ≡ true → I (m env h).1)
      → (b ≡ false → I (n env h).1)
      → I ((if b then m else n) env h).1
  if-then true m n yes_case no_case = yes_case refl
  if-then false m n yes_case no_case = no_case refl

  pub result-then {ℓ κ} :
      {A : Type ℓ} {B : Type κ} (r : Result A) (f : Error → M B) (g : A → M B)
      → ((e : Error) → r ≡ err e → I (f e env h).1)
      → ((a : A) → r ≡ ok a → I (g a env h).1)
      → (let m : M B = elim r [ err e ↦ f e | ok a ↦ g a ] in I (m env h).1)
  result-then (ok a) f g on_err on_ok = on_ok a refl
  result-then (err e) f g on_err on_ok = on_err e refl

  pub option-then {ℓ κ} :
      {A : Type ℓ} {B : Type κ} (o : Option A) (m : M B) (g : A → M B)
      → (o ≡ none → I (m env h).1)
      → ((a : A) → o ≡ some a → I (g a env h).1)
      → (let n : M B = elim o [ none ↦ m | some a ↦ g a ] in I (n env h).1)
  option-then none m g on_none on_some = on_none refl
  option-then (some a) m g on_none on_some = on_some a refl

-- Whether a call may change the host's files.
abbrev pub writes : OpenFlags → Bool
writes f = f.wronly || f.rdwr || f.append || f.create || f.trunc

abbrev pub mutates : Event → Bool
mutates (make_dir_all _, r) = true
mutates (rsync _, r) = true
mutates (remove_file _, r) = true
mutates (remove_all _, r) = true
mutates (symlink _ _, r) = true
mutates (open_file _ flags, r) = writes flags
mutates (rename _ _, r) = true
mutates _ = false

-- The number of such calls.
abbrev pub mutations : Trace → ℕ
mutations [] = 0
mutations (e ∷ h) = if mutates e then suc (mutations h) else mutations h
