-- ===== src/Fs/Fd/Open.antt =====
-- Opening a path, and closing what was opened.
use sometuffcoolpr.Prelude.{ℕ, ◌<◌, ◌≡◌, ◌≢◌, refl, true, false, ap, arith, ==_ne, ==_self, ◌==◌}
use sometuffcoolpr.Prelude.Int.{ℤ, pos, negsuc}
use sometuffcoolpr.Str.{CString}
use sometuffcoolpr.Fs.{Result, ok, Fs}
use sometuffcoolpr.Fs.Path.{vfs_lookup}
use sometuffcoolpr.Fs.Fd.{Table, Desc, put_desc, max_fds, fd_alloc, set_node, sys_open}
use sometuffcoolpr.Fs.Fd.Table.{Lowest, fd_alloc-Lowest}

-- A descriptor that was unused is open on the node at `a`, at offset 0.
pub record Opened (t : Table) (a : ℕ) (r : Result (ℤ × Table)) : Type 0 where
  pub fd : ℕ
  pub table : Table
  pub result : r ≡ ok (pos fd, table)
  pub inside : fd < max_fds
  pub was_unused : (t fd).used ≡ false
  pub used : (table fd).used ≡ true
  pub node : (table fd).node ≡ a
  pub offset : (table fd).offset ≡ 0
  pub others : (i : ℕ) → ((i == fd) ≡ false) → table i ≡ t i

module _ (t : Table) (a j : ℕ) (inside : j < max_fds) (unused : (t j).used ≡ false) where
  set_node-Opened : (r : ℤ × Table) → Lowest t 32 0 r → Opened t a (ok (set_node r a))
  unfolding set_node
  set_node-Opened (negsuc k, t') (minus_one, all, same) =
      let busy : (t j).used ≡ true = all j (omega arith) (omega arith) in absurd (cc)
  set_node-Opened (pos d, t') (le, lt, was, all, new, same) = record {
    fd = d;
    table = put_desc t' d (record (t' d) { node = a });
    result = refl;
    inside = lt;
    was_unused = was;
    used = rw (==_self d) (ap (λ (x : Desc). x.used) new);
    node = rw (==_self d) refl;
    offset = rw (==_self d) (ap (λ (x : Desc). x.offset) new);
    others = λ i ne. rw ne (same i ne);
  }

  -- With a descriptor left, a path that leads to a node is opened on it.
  pub sys_open-Opened :
      (fs : Fs) (path : CString)
      → vfs_lookup fs path ≡ ok a
      → a ≢ 0
      → Opened t a (sys_open fs t path)
  unfolding sys_open
  sys_open-Opened fs path leads some_node =
      rw (leads, ==_ne a 0 some_node) (set_node-Opened (fd_alloc t) (fd_alloc-Lowest t))
