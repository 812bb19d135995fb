-- ===== src/Shell/Commands.antt =====
-- The handlers of src/kernel/shell/shell.c: what they share. A handler takes `argv`, whose length is
-- `argc`, and gives the machine that it leaves.
pub mod Screen
pub mod Storage
pub mod Files
pub mod Joined
pub mod Calc
pub mod Made
pub mod Places
pub mod Stored
use sometuffcoolpr.Prelude.{
  ℕ, zero, suc, ◌+◌, ◌^◌, ◌||◌, Bool, Option, none, some, List, [], ◌∷◌, ◌++◌, leb, ◌==◌,
  if◌then◌else◌, get_or, length,
}
use sometuffcoolpr.Prelude.Memory.{Memory}
use sometuffcoolpr.Str.{CString}
use sometuffcoolpr.Time.{sleep}
use sometuffcoolpr.Fs.{Result, ok, fault, out_of_fuel, ◌>>=◌}
use sometuffcoolpr.Machine.{Machine, World}

abbrev pub Handler : Type 0
Handler = List CString → World → Machine → Result Machine

-- `argv[i]`
abbrev pub arg : List CString → ℕ → CString
arg argv i = get_or argv i []

-- `int` values are bit patterns: is it zero or negative?
abbrev pub not_positive : ℕ → Bool
not_positive n = (n == 0) || leb (2 ^ 31) n

-- The string that stands at `p`, of which at most `n` characters are read.
unfoldable pub text_at : (n : ℕ) → Memory → (p : ℕ) → CString
text_at zero m p = []
text_at (suc n) m p = let rest = text_at n m (p + 1) in if m p == 0 then [] else m p ∷ rest

-- The loop that joins `argv[1]` and those after it with spaces, in a buffer of `room` bytes that holds
-- `buffer`.
unfoldable pub join_args : (room : ℕ) → CString → List CString → Result CString
join_args room buffer [] = if leb room (length buffer) then fault else ok buffer
join_args room buffer (a ∷ []) = if leb room (length (buffer ++ a)) then fault else ok (buffer ++ a)
join_args room buffer (a ∷ b ∷ args) =
    let next = buffer ++ (a ++ (b' ' ∷ [])) in
    let rest = join_args room next (b ∷ args) in if leb room (length next) then fault else rest

-- What a loop gives, unless the model gave it too little fuel.
unfoldable pub finished {ℓ} : {A : Type ℓ} → Option A → Result A
finished none = out_of_fuel
finished (some a) = ok a

-- `sleep(ms)`, whose ticks the timer interrupt counts.
unfoldable pub pause : ℕ → World → Machine → Result Machine
unfolding sleep finished
pause ms w m = finished (sleep w.fuel ms m.timer) >>= λ t. ok (record m { timer = t })
