-- ===== src/Fs/Path/Walk.antt =====
-- Path resolution against the list of a path's parts.
use sometuffcoolpr.Prelude.{
  ℕ, zero, suc, ◌≤◌, ◌<◌, ◌≡◌, refl, sym, ◌∙◌, ap, List, [], ◌∷◌, arith, ◌==◌, if◌then◌else◌,
  length, subst,
}
use sometuffcoolpr.Prelude.Pieces.{
  pieces, IsPiece, skip-IsPiece, length-skip, length-behind_piece, pieces-skip, pieces-piece,
}
use sometuffcoolpr.Str.{CString}
use sometuffcoolpr.Fs.{Result, ok, fault, panic, out_of_fuel, ◌>>=◌, Fs}
use sometuffcoolpr.Fs.Path.{
  slash, skip_slashes, part_of, behind_part, check_mount, lookup_part, path_resolve,
}

-- The pieces of a path between its slashes that are not empty.
unfoldable pub parts : CString → List CString
parts path = pieces slash path

-- Following the parts one by one, from node to node and from a node to what is mounted on it.
unfoldable pub walk : Fs → ℕ → List CString → Result ℕ
walk fs current [] = ok current
walk fs current (part ∷ parts) = lookup_part fs current part >>= λ next.
    if next == 0 then ok 0 else walk fs (check_mount fs next) parts

module _ (fuel : ℕ) (fs : Fs)
    (resolve_lem : (current : ℕ) (path : CString)
      → length path < fuel
      → path_resolve fuel fs current path ≡ walk fs current (parts path)) where
  after_lookup :
      (found : Result ℕ) (path : CString)
      → length path < fuel
      → (found >>= λ next.
          if next == 0 then ok 0 else path_resolve fuel fs (check_mount fs next) path)
        ≡ (found >>= λ next. if next == 0 then ok 0 else walk fs (check_mount fs next) (parts path))
  after_lookup fault path lt = refl
  after_lookup panic path lt = refl
  after_lookup out_of_fuel path lt = refl
  after_lookup (ok next) path lt = rw (resolve_lem (check_mount fs next) path lt) refl

  resolve_part :
      (current : ℕ) (path : CString)
      → IsPiece slash path
      → length path ≤ fuel
      → (elim path as (λ x. Result ℕ) [
        | [] ↦ ok current
        | d ∷ ds ↦ lookup_part fs current (part_of (d ∷ ds)) >>= λ next.
            if next == 0
            then ok 0
            else path_resolve fuel fs (check_mount fs next) (behind_part (d ∷ ds))
      ])
        ≡ walk fs current (parts path)
  unfolding walk parts part_of behind_part pieces
  resolve_part current [] h le = refl
  resolve_part current (d ∷ ds) h le =
      subst
        (λ (x : List CString).
          (lookup_part fs current (part_of (d ∷ ds)) >>= λ next.
          if next == 0
          then ok 0
          else path_resolve fuel fs (check_mount fs next) (behind_part (d ∷ ds)))
          ≡ walk fs current x)
        (sym (pieces-piece slash d ds h))
        (after_lookup (lookup_part fs current (part_of (d ∷ ds))) (behind_part (d ∷ ds))
          (omega (arith, length-behind_piece slash d ds h)))

-- With more fuel than the path has characters, `path_resolve` follows the nonempty pieces of the
-- path one by one and ends: slashes at the start, at the end or repeated do not matter.
pub path_resolve-walk :
    (fuel : ℕ) (fs : Fs) (current : ℕ) (path : CString)
    → length path < fuel
    → path_resolve fuel fs current path ≡ walk fs current (parts path)
unfolding path_resolve walk parts skip_slashes pieces
path_resolve-walk zero fs current path lt = absurd (omega arith)
path_resolve-walk (suc fuel) fs current [] lt = refl
path_resolve-walk (suc fuel) fs current (c ∷ path) lt =
    resolve_part fuel fs (path_resolve-walk fuel fs) current (skip_slashes (c ∷ path))
      (skip-IsPiece slash (c ∷ path)) (omega (arith, length-skip slash (c ∷ path)))
    ∙ ap (walk fs current) (pieces-skip slash (c ∷ path))
