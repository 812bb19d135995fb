-- ===== src/Fs/Ramfs/Directory.antt =====
-- What `ramfs_create` changes for `ramfs_lookup`.
use sometuffcoolpr.Prelude.{
  ℕ, zero, suc, Option, none, some, ◌<◌, ◌≡◌, ◌≢◌, refl, sym, ◌∙◌, ap, false, List, [], ◌∷◌, ◌++◌,
  fun_ext, arith, leb, ◌==◌, if◌then◌else◌, length, Bool-cases, inl, inr, ==_ne, ==_self, ==_eq,
}
use sometuffcoolpr.Prelude.Int.{ℤ, pos, negsuc}
use sometuffcoolpr.Str.{CString, strcmp}
use sometuffcoolpr.Str.Compare.{strcmp_self}
use sometuffcoolpr.Fs.{Result, ok, fault, panic, out_of_fuel, ◌>>=◌, Node, Fs, put, deref}
use sometuffcoolpr.Fs.Ramfs.{find_child, lookup, create, new_node, is_zero}

-- The children of a directory are nodes that are not at the address `fresh`.
abbrev pub Others : ℕ → List ℕ → Type 0
Others fresh [] = Unit {0}
Others fresh (c ∷ cs) = (c ≢ 0) × (c ≢ fresh) × Others fresh cs

abbrev pub name_of : Option Node → Option CString
name_of none = none
name_of (some n) = some n.name

-- One turn of the search, at what stands at the address of the child.
abbrev pub turn : CString → ℕ → Result ℕ → Option Node → Result ℕ
turn name c rest none = fault
turn name c rest (some n) = if is_zero (strcmp n.name name) == 1 then ok c else rest

pub turn-agree :
    (name : CString) (c : ℕ) (rest : Result ℕ) (x y : Option Node)
    → name_of x ≡ name_of y
    → turn name c rest x ≡ turn name c rest y
turn-agree name c rest none none e = refl
turn-agree name c rest none (some n) e = ground arith
turn-agree name c rest (some m) none e = ground arith
turn-agree name c rest (some m) (some n) e = ground (arith, e)

pub find_child-turn :
    (fs : Fs) (name : CString) (c : ℕ) (cs : List ℕ)
    → find_child fs name (c ∷ cs) ≡ turn name c (find_child fs name cs) (fs.nodes c)
unfolding find_child
find_child-turn fs name c cs =
    elim (fs.nodes c)
      as (λ (x : Option Node).
        (elim x as (λ y. Result ℕ) [
          | none ↦ fault
          | some n ↦ if is_zero (strcmp n.name name) == 1 then ok c else find_child fs name cs
        ])
        ≡ turn name c (find_child fs name cs) x) [ none ↦ refl | some n ↦ refl ]

find_child-agree :
    (fs fs' : Fs) (fresh : ℕ) (name : CString) (cs : List ℕ)
    → ((c : ℕ) → c ≢ fresh → name_of (fs'.nodes c) ≡ name_of (fs.nodes c))
    → Others fresh cs
    → find_child fs' name cs ≡ find_child fs name cs
unfolding find_child
find_child-agree fs fs' fresh name [] same h = refl
find_child-agree fs fs' fresh name (c ∷ cs) same h =
    find_child-turn fs' name c cs
    ∙ turn-agree name c (find_child fs' name cs) (fs'.nodes c) (fs.nodes c) (same c h.1)
    ∙ ap (λ (rest : Result ℕ). turn name c rest (fs.nodes c))
        (find_child-agree fs fs' fresh name cs same h.2)
    ∙ sym (find_child-turn fs name c cs)

find_child-objects :
    (fs : Fs) (objects : List (ℕ × ℕ)) (name : CString) (cs : List ℕ)
    → find_child (record fs { objects = objects }) name cs ≡ find_child fs name cs
unfolding find_child
find_child-objects fs objects name [] = refl
find_child-objects fs objects name (c ∷ cs) =
    find_child-turn (record fs { objects = objects }) name c cs
    ∙ ap (λ (rest : Result ℕ). turn name c rest (fs.nodes c))
        (find_child-objects fs objects name cs)
    ∙ sym (find_child-turn fs name c cs)

-- What memory is in use does not matter for a lookup.
pub lookup-objects :
    (fs : Fs) (objects : List (ℕ × ℕ)) (node : ℕ) (name : CString)
    → lookup (record fs { objects = objects }) node name ≡ lookup fs node name
unfolding lookup
lookup-objects fs objects node name =
    ap
      (λ (find : List ℕ → Result ℕ).
        if node == 0 then panic else deref fs node >>= λ r. find r.children)
      (fun_ext (find_child-objects fs objects name))

-- The search of a list is that of its front, and of its last child if the front has no such name.
turn-append :
    (name : CString) (c : ℕ) (rest last : Result ℕ) (x : Option Node)
    → c ≢ 0
    → turn name c (rest >>= λ found. if found == 0 then last else ok found) x
      ≡ (turn name c rest x >>= λ found. if found == 0 then last else ok found)
turn-append name c rest last none h = refl
turn-append name c rest last (some n) h = elim (Bool-cases (is_zero (strcmp n.name name) == 1)) [
  | inl e ↦ rw e (rw (==_ne c 0 h) refl)
  | inr e ↦ rw e refl
]

find_child-append :
    (fs : Fs) (fresh : ℕ) (name : CString) (cs : List ℕ) (c : ℕ)
    → Others fresh cs
    → find_child fs name (cs ++ (c ∷ [])) ≡ (
        find_child fs name cs >>= λ found.
        if found == 0 then find_child fs name (c ∷ []) else ok found)
unfolding find_child
find_child-append fs fresh name [] c h = refl
find_child-append fs fresh name (d ∷ cs) c h =
    find_child-turn fs name d (cs ++ (c ∷ []))
    ∙ ap (λ (rest : Result ℕ). turn name d rest (fs.nodes d))
        (find_child-append fs fresh name cs c h.2)
    ∙ turn-append name d (find_child fs name cs) (find_child fs name (c ∷ [])) (fs.nodes d) h.0
    ∙ ap
        (λ (front : Result ℕ).
          front >>= λ found. if found == 0 then find_child fs name (c ∷ []) else ok found)
        (sym (find_child-turn fs name d cs))

pub is_zero-false : (x : ℤ) → x ≢ pos 0 → (is_zero x == 1) ≡ false
is_zero-false (pos zero) h = absurd (h refl)
is_zero-false (pos (suc n)) h = refl
is_zero-false (negsuc n) h = refl

bind_found : (r : Result ℕ) → (r >>= λ found. if found == 0 then ok 0 else ok found) ≡ r
bind_found fault = refl
bind_found panic = refl
bind_found out_of_fuel = refl
bind_found (ok n) = elim (Bool-cases (n == 0)) [
  | inl e ↦ rw e (ap ok (sym (==_eq n 0 e)))
  | inr e ↦ rw e refl
]

lookup-children :
    (fs : Fs) (node : ℕ) (r : Node) (name : CString)
    → node ≢ 0
    → fs.nodes node ≡ some r
    → lookup fs node name ≡ find_child fs name r.children
unfolding lookup
lookup-children fs node r name h e = rw (==_ne node 0 h, e, deref) refl

module _ (fresh : ℕ) (fs : Fs) (parent : ℕ) (p : Node) (name : CString) (flags : ℕ)
    (some_fresh : fresh ≢ 0) (some_parent : parent ≢ 0) (apart : parent ≢ fresh)
    (stored : fs.nodes parent ≡ some p) (others : Others fresh p.children) where
  abbrev pub created : Fs
  created =
      put (put fs fresh (new_node name flags parent)) parent
        (record p { children = p.children ++ (fresh ∷ []) })

  name_of-created : (c : ℕ) → c ≢ fresh → name_of (created.nodes c) ≡ name_of (fs.nodes c)
  name_of-created c h = elim (Bool-cases (c == parent)) [
    | inl e ↦ rw e (ap name_of (sym (ap fs.nodes (==_eq c parent e) ∙ stored)))
    | inr e ↦ rw (e, ==_ne c fresh h) refl
  ]

  lookup-created :
      (other : CString)
      → lookup created parent other ≡ (
          find_child fs other p.children >>= λ found.
          if found == 0 then find_child created other (fresh ∷ []) else ok found)
  lookup-created other =
      lookup-children created parent (record p { children = p.children ++ (fresh ∷ []) }) other
        some_parent (rw (==_self parent) refl)
      ∙ find_child-append created fresh other p.children fresh others
      ∙ ap
          (λ (front : Result ℕ). front >>= λ found.
            if found == 0 then find_child created other (fresh ∷ []) else ok found)
          (find_child-agree fs created fresh other p.children name_of-created others)

  pub fresh-created : created.nodes fresh ≡ some (new_node name flags parent)
  fresh-created = rw (==_ne fresh parent (λ e. apart (sym e)), ==_self fresh) refl

  find_child-fresh : find_child created name (fresh ∷ []) ≡ ok fresh
  find_child-fresh =
      find_child-turn created name fresh []
      ∙ ap (turn name fresh (find_child created name [])) fresh-created
      ∙ rw (strcmp_self name) refl

  find_child-other :
      (other : CString) → strcmp name other ≢ pos 0 → find_child created other (fresh ∷ []) ≡ ok 0
  unfolding find_child
  find_child-other other h =
      find_child-turn created other fresh []
      ∙ ap (turn other fresh (find_child created other [])) fresh-created
      ∙ rw (is_zero-false (strcmp name other) h) refl

  create-created :
      length p.children < 32
      → length name < 64
      → create fresh fs parent name flags ≡ ok (pos 0, created)
  unfolding create
  create-created room short =
      let not_full : leb 32 (length p.children) ≡ false = ground arith in
      let fits : leb 64 (length name) ≡ false = ground arith in
      rw (==_ne parent 0 some_parent, stored, deref)
        (rw (not_full, ==_ne fresh 0 some_fresh, fits) refl)

  -- The name leads to the new node.
  pub lookup-new : lookup fs parent name ≡ ok 0 → lookup created parent name ≡ ok fresh
  lookup-new free =
      lookup-created name
      ∙ rw (sym (lookup-children fs parent p name some_parent stored) ∙ free) find_child-fresh

  -- With an address from `kmalloc` that is neither NULL nor that of the directory or one of its
  -- children, creating a node under a name that the directory does not have yet, in a directory that is not
  -- full and with a name that fits its field, makes the lookup of the name find the new node, and
  -- changes no lookup of another name.
  pub create-lookup :
      length p.children < 32
      → length name < 64
      → lookup fs parent name ≡ ok 0
      → (fs' : Fs) × (create fresh fs parent name flags ≡ ok (pos 0, fs'))
        × (lookup fs' parent name ≡ ok fresh)
        × ((other : CString)
            → strcmp name other ≢ pos 0
            → lookup fs' parent other ≡ lookup fs parent other)
  create-lookup room short free = (
    created,
    create-created room short,
    lookup-new free,
    λ other h.
        lookup-created other
        ∙ rw (find_child-other other h) (
            bind_found (find_child fs other p.children)
            ∙ sym (lookup-children fs parent p other some_parent stored)),
  )
