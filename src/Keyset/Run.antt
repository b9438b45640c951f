-- ===== src/Keyset/Run.antt =====
-- Methods of the work space (src/commands/keyset/cmd.rs) that also act on the world outside: key
-- files and the source of new keys. A panic ends the command as an error that no caller handles.
use dnst.Base.{◌≡◌, refl, String, Result, ok, err, arith}
use dnst.Keyset.Workspace.{WorkSpace}

-- The object of a method, and the world outside.
pub record Machine (K Name W : Type 0) : Type 0 where
  pub space : WorkSpace K Name
  pub world : W

-- A method with errors of a type, the object that it is called on, and its result.
abbrev pub Method : Type 0 → Type 0 → Type 0 → Type 0
Method E S A = S → Result E A × S

-- A method whose errors are messages.
abbrev pub Run : Type 0 → Type 0 → Type 0
Run S A = Method String S A

module _ {E S A B : Type 0} where
  abbrev pub next_run : (A → Method E S B) → Result E A × S → Result E B × S
  next_run f (err e, s) = (err e, s)
  next_run f (ok a, s) = f a s

  infixl 5 ◌>>=◌
  abbrev pub ◌>>=◌ : Method E S A → (A → Method E S B) → Method E S B
  (m >>= f) s = next_run f (m s)

  next_run-eq-ok :
      (f : A → Method E S B) (r : Result E A × S) {b : B} {s' : S}
      → next_run f r ≡ (ok b, s')
      → (a : A) × (t : S) × (r ≡ (ok a, t)) × (f a t ≡ (ok b, s'))
  next_run-eq-ok f (err e, s) h = absurd (ground arith)
  next_run-eq-ok f (ok a, s) h = (a, s, refl, h)

  -- Both steps of a successful pair of steps succeed.
  pub >>=-eq-ok :
      (m : Method E S A) (f : A → Method E S B) {s s' : S} {b : B}
      → (m >>= f) s ≡ (ok b, s')
      → (a : A) × (t : S) × (m s ≡ (ok a, t)) × (f a t ≡ (ok b, s'))
  >>=-eq-ok m f {s = s} h = next_run-eq-ok f (m s) h

  next_run-ok :
      (f : A → Method E S B) (r : Result E A × S) {a : A} → r.0 ≡ ok a → next_run f r ≡ f a r.1
  next_run-ok f (err e, s) h = absurd (ground arith)
  next_run-ok f (ok a, s) h = ground arith

  -- What a pair of steps does when the first one succeeds.
  pub >>=-ok :
      (m : Method E S A) (f : A → Method E S B) {s : S} {a : A}
      → (m s).0 ≡ ok a
      → (m >>= f) s ≡ f a (m s).1
  >>=-ok m f {s = s} h = next_run-ok f (m s) h

module _ {E S A : Type 0} where
  abbrev pub return : A → Method E S A
  return a s = (ok a, s)

  abbrev pub fail : E → Method E S A
  fail e s = (err e, s)

  abbrev pub from_result : Result E A → Method E S A
  from_result r s = (r, s)

module _ {E K Name W A : Type 0} where
  -- A step on the work space alone, or on the world alone.
  abbrev pub on_space : Method E (WorkSpace K Name) A → Method E (Machine K Name W) A
  on_space f m = let (r, ws) = f m.space in (r, record m { space = ws })

  abbrev pub on_world : Method E W A → Method E (Machine K Name W) A
  on_world f m = let (r, w) = f m.world in (r, record m { world = w })

  pub on_world-eq-ok :
      (f : Method E W A) (m : Machine K Name W) {m' : Machine K Name W} {a : A}
      → on_world f m ≡ (ok a, m')
      → (f m.world ≡ (ok a, m'.world)) × (m'.space ≡ m.space)
  on_world-eq-ok f m h = (ground arith, ground arith)

  pub on_space-eq-ok :
      (f : Method E (WorkSpace K Name) A) (m : Machine K Name W) {m' : Machine K Name W} {a : A}
      → on_space f m ≡ (ok a, m')
      → (f m.space ≡ (ok a, m'.space)) × (m'.world ≡ m.world)
  on_space-eq-ok f m h = (ground arith, ground arith)
