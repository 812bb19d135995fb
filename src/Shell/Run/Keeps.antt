-- ===== src/Shell/Run/Keeps.antt =====
-- What a handler of src/kernel/shell/shell.c leaves as it was.
use sometuffcoolpr.Prelude.{
  ℕ, zero, suc, ◌+◌, ◌^◌, ◌++◌, ◌≡◌, refl, sym, ◌∙◌, Bool, true, false, Option, none, some, List,
  [], ◌∷◌, if◌then◌else◌, ap, ltb, leb, ◌==◌, length, get_or,
}
use sometuffcoolpr.Vga.{Vga}
use sometuffcoolpr.Console.{Console}
use sometuffcoolpr.Vga.Cursor.{IsValid, Safe}
use sometuffcoolpr.Vga.Output.{Item, show-Safe, then-Safe}
use sometuffcoolpr.Fs.{Result, ok, fault, panic, out_of_fuel, ◌>>=◌}
use sometuffcoolpr.Machine.{Machine, screen, say}

-- The typed line and the waiting characters are the same, and what is printed is on the screen.
pub record Keeps (m m' : Machine) : Type 0 where
  pub line : m'.console ≡ record m.console { screen = screen m' }
  pub typed : m'.keyboard ≡ m.keyboard
  pub safe : IsValid (screen m) → Safe (screen m) (screen m')

-- The property of what is returned.
abbrev pub Outcome {ℓ} : {A : Type ℓ} → (A → Type 0) → Result A → Type 0
Outcome P (ok a) = P a
Outcome P fault = Unit
Outcome P panic = Unit
Outcome P out_of_fuel = Unit

-- The result, if there is one, has the property.
pub record Ok {ℓ} {A : Type ℓ} (P : A → Type 0) (r : Result A) : Type 0 where
  pub outcome : Outcome P r

pub same_parts : {m m' : Machine} → m'.console ≡ m.console → m'.keyboard ≡ m.keyboard → Keeps m m'
same_parts {m} {m'} e e' = record {
  line =
      e
      ∙ ap (λ (v : Vga). record m.console { screen = v }) (sym (ap (λ (k : Console). k.screen) e));
  typed = e';
  safe = λ h. rw e (h, λ a out. refl);
}

pub then-Keeps : {m m' m'' : Machine} → Keeps m m' → Keeps m' m'' → Keeps m m''
then-Keeps {m} {m'} {m''} k k' = record {
  line = k'.line ∙ ap (λ (c : Console). record c { screen = screen m'' }) k.line;
  typed = k'.typed ∙ k.typed;
  safe = λ h.
      let safe = k.safe h in then-Safe (screen m) (screen m') (screen m'') safe (k'.safe safe.0);
}

pub say-Keeps : (is : List Item) (m : Machine) → Ok (Keeps m) (say is m)
say-Keeps is m = record {
  outcome = record { line = refl; typed = refl; safe = show-Safe is (screen m) };
}

-- A handler that goes on from a machine with the same parts.
pub then-Ok : {m m' : Machine} {r : Result Machine} → Keeps m m' → Ok (Keeps m') r → Ok (Keeps m) r
then-Ok {r = ok m''} k h = record { outcome = then-Keeps k h.outcome }
then-Ok {r = fault} k h = record { outcome = tt }
then-Ok {r = panic} k h = record { outcome = tt }
then-Ok {r = out_of_fuel} k h = record { outcome = tt }

pub bind-Ok {ℓ κ} :
    {A : Type ℓ} {B : Type κ} {P : A → Type 0} {Q : B → Type 0} {f : A → Result B} {r : Result A}
    → Ok P r
    → ((a : A) → P a → Ok Q (f a))
    → Ok Q (r >>= f)
bind-Ok {r = ok a} h g = g a h.outcome
bind-Ok {r = fault} h g = record { outcome = tt }
bind-Ok {r = panic} h g = record { outcome = tt }
bind-Ok {r = out_of_fuel} h g = record { outcome = tt }

pub bind-any {ℓ κ} :
    {A : Type ℓ} {B : Type κ} {Q : B → Type 0} {f : A → Result B} (r : Result A)
    → ((a : A) → Ok Q (f a))
    → Ok Q (r >>= f)
bind-any (ok a) g = g a
bind-any fault g = record { outcome = tt }
bind-any panic g = record { outcome = tt }
bind-any out_of_fuel g = record { outcome = tt }

pub if-Ok {ℓ} :
    {A : Type ℓ} {Q : A → Type 0} {t e : Result A} (b : Bool)
    → Ok Q t
    → Ok Q e
    → Ok Q (if b then t else e)
if-Ok true h h' = h
if-Ok false h h' = h'

pub changed :
    {m m' : Machine} → m'.console ≡ m.console → m'.keyboard ≡ m.keyboard → Ok (Keeps m) (ok m')
changed e e' = record { outcome = same_parts e e' }

pub panic-Keeps : {m : Machine} → Ok (Keeps m) panic
panic-Keeps = record { outcome = tt }

pub ruleset steps = (if-Ok, bind-any, say-Keeps, panic-Keeps, changed, refl)
