-- ===== src/Fs/Path/Shape.antt =====
-- Paths depend on the names and the children of the nodes, and on the mounts.
use sometuffcoolpr.Prelude.{
  ℕ, Option, none, some, Option-cases, ◌≡◌, ◌≢◌, refl, sym, ◌∙◌, ap, List, [], ◌∷◌, arith, leb,
  ◌==◌, if◌then◌else◌, length, fun_ext, Bool-cases, inl, inr, ==_eq,
}
use sometuffcoolpr.Str.{CString}
use sometuffcoolpr.Fs.{Result, fault, panic, Node, Fs, put_with, deref}
use sometuffcoolpr.Fs.Ramfs.{find_child, lookup}
use sometuffcoolpr.Fs.Ramfs.Directory.{name_of, turn, turn-agree, find_child-turn}
use sometuffcoolpr.Fs.Path.{check_mount, lookup_part, vfs_lookup}
use sometuffcoolpr.Fs.Path.Walk.{parts, walk}
use sometuffcoolpr.Fs.Path.Mount.{vfs_lookup-walk}

abbrev children_of : Option Node → Option (List ℕ)
children_of none = none
children_of (some n) = some n.children

-- The same tree: contents and sizes may differ.
pub record SameShape (fs fs' : Fs) : Type 0 where
  pub names : (c : ℕ) → name_of (fs'.nodes c) ≡ name_of (fs.nodes c)
  pub children : (c : ℕ) → children_of (fs'.nodes c) ≡ children_of (fs.nodes c)
  pub mounts : fs'.mounts ≡ fs.mounts
  pub root : fs'.root ≡ fs.root

-- Writing to a file keeps the tree.
pub put-SameShape :
    (objects : List (ℕ × ℕ)) (fs : Fs) (a : ℕ) (r r' : Node)
    → fs.nodes a ≡ some r
    → r'.name ≡ r.name
    → r'.children ≡ r.children
    → SameShape fs (put_with objects fs a r')
put-SameShape objects fs a r r' stored name children = record {
  names = λ c. elim (Bool-cases (c == a)) [
    | inl e ↦ rw (e, ==_eq c a e, stored, name) refl
    | inr ne ↦ rw ne refl
  ];
  children = λ c. elim (Bool-cases (c == a)) [
    | inl e ↦ rw (e, ==_eq c a e, stored, children) refl
    | inr ne ↦ rw ne refl
  ];
  mounts = refl;
  root = refl;
}

-- What `lookup_part` does with the node at `current`.
abbrev at : (current : ℕ) → (List ℕ → Result ℕ) → Option Node → Result ℕ
at current f none = fault
at current f (some n) = if current == 0 then panic else f n.children

at-agree :
    (current : ℕ) (f : List ℕ → Result ℕ) (x y : Option Node)
    → children_of x ≡ children_of y
    → at current f x ≡ at current f y
at-agree current f none none e = refl
at-agree current f none (some n) e = ground arith
at-agree current f (some n) none e = ground arith
at-agree current f (some m) (some n) e = ground (arith, e)

lookup_part-at :
    (g : Fs) (current : ℕ) (part : CString)
    → lookup_part g current part
      ≡ (if leb 64 (length part) then fault else at current (find_child g part) (g.nodes current))
unfolding lookup_part lookup
lookup_part-at g current part = elim (Option-cases (g.nodes current)) [
  | inl e ↦ rw (e, deref) refl
  | inr (n, e) ↦ rw (e, deref) refl
]

module _ (fs fs' : Fs) (s : SameShape fs fs') where
  find_child-shape : (name : CString) (cs : List ℕ) → find_child fs' name cs ≡ find_child fs name cs
  unfolding find_child
  find_child-shape name [] = refl
  find_child-shape name (c ∷ cs) =
      find_child-turn fs' name c cs
      ∙ turn-agree name c (find_child fs' name cs) (fs'.nodes c) (fs.nodes c) (s.names c)
      ∙ ap (λ (rest : Result ℕ). turn name c rest (fs.nodes c)) (find_child-shape name cs)
      ∙ sym (find_child-turn fs name c cs)

  lookup_part-shape :
      (current : ℕ) (part : CString) → lookup_part fs' current part ≡ lookup_part fs current part
  lookup_part-shape current part =
      rw
        (
          lookup_part-at fs' current part,
          lookup_part-at fs current part,
          fun_ext (find_child-shape part),
          at-agree current (find_child fs part) (fs'.nodes current) (fs.nodes current)
              (s.children current),
        )
        refl

  walk-shape : (current : ℕ) (ps : List CString) → walk fs' current ps ≡ walk fs current ps
  unfolding walk check_mount
  walk-shape current [] = refl
  walk-shape current (part ∷ ps) =
      rw (lookup_part-shape current part, s.mounts) (rw (fun_ext λ next. walk-shape next ps) refl)

  -- The same path leads to the same node.
  pub vfs_lookup-shape : (path : CString) → fs.root ≢ 0 → vfs_lookup fs' path ≡ vfs_lookup fs path
  vfs_lookup-shape path some_root =
      vfs_lookup-walk fs' path (rw s.root some_root)
      ∙ ap (λ c. walk fs' c (parts path)) s.root
      ∙ walk-shape fs.root (parts path)
      ∙ sym (vfs_lookup-walk fs path some_root)
