-- ===== src/Vga/Scroll.antt =====
-- What `vga_scroll` and `vga_clear` leave on the screen.
use sometuffcoolpr.Prelude.{
  ℕ, zero, suc, ◌+◌, ◌-◌, ◌*◌, ◌≤◌, ◌<◌, ◌≡◌, arith, ltb, leb, ◌&&◌, if◌then◌else◌,
}
use sometuffcoolpr.Prelude.Memory.{Memory, write}
use sometuffcoolpr.Vga.{
  Vga, scroll_line, scroll_lines, fill, scroll, clear_lines, clear, vga_entry, vga_width,
  vga_height,
}

fill_lem :
    (n i e : ℕ) (m : Memory) (a : ℕ)
    → fill n i e m a ≡ (if leb i a && ltb a (i + n) then e else m a)
unfolding fill
fill_lem zero i e m a = ground arith
fill_lem (suc n) i e m a = ground (arith, fill_lem n (i + 1) e (write m i e) a)

scroll_line_lem :
    (n y x : ℕ) (m : Memory) (a : ℕ)
    → 0 < y
    → x + n ≤ 80
    → scroll_line n y x m a
      ≡ (if leb ((y - 1) * 80 + x) a && ltb a ((y - 1) * 80 + x + n) then m (a + 80) else m a)
unfolding scroll_line
scroll_line_lem zero y x m a hy hx = ground arith
scroll_line_lem (suc n) y x m a hy hx =
    let next : Memory = write m ((y - 1) * vga_width + x) (m (y * vga_width + x)) in
    let e : (y - 1) * 80 + x + 80 ≡ y * 80 + x = omega arith in
    ground (arith, scroll_line_lem n y (x + 1) next a hy (omega arith), e)

scroll_lines_lem :
    (n y : ℕ) (m : Memory) (a : ℕ)
    → 0 < y
    → scroll_lines n y m a
      ≡ (if leb ((y - 1) * 80) a && ltb a ((y - 1 + n) * 80) then m (a + 80) else m a)
unfolding scroll_lines
scroll_lines_lem zero y m a hy = ground arith
scroll_lines_lem (suc n) y m a hy =
    let next : Memory = scroll_line vga_width y 0 m in
    ground (
      arith,
      scroll_lines_lem n (y + 1) next a (omega arith),
      scroll_line_lem vga_width y 0 m a hy (omega arith),
      scroll_line_lem vga_width y 0 m (a + 80) hy (omega arith),
    )

-- When the cursor is below the screen, `vga_scroll` moves every line up by one, blanks the last
-- line, leaves all other memory alone and puts the cursor in the last row.
pub scroll_lem :
    (v : Vga)
    → vga_height ≤ v.row
    → ((scroll v).row ≡ 24)
      × ((a : ℕ)
          → (scroll v).cells a ≡ (
              if ltb a 1920
              then v.cells (a + 80)
              else if ltb a 2000
              then vga_entry b' ' v.color
              else v.cells a))
unfolding scroll
scroll_lem v h = (
  ground arith,
  λ a. ground (
    arith,
    fill_lem vga_width ((vga_height - 1) * vga_width) (vga_entry b' ' v.color)
        (scroll_lines (vga_height - 1) 1 v.cells) a,
    scroll_lines_lem (vga_height - 1) 1 v.cells a (omega arith),
  ),
)

clear_lines_lem :
    (n y e : ℕ) (m : Memory) (a : ℕ)
    → clear_lines n y e m a ≡ (if leb (y * 80) a && ltb a ((y + n) * 80) then e else m a)
unfolding clear_lines
clear_lines_lem zero y e m a = ground arith
clear_lines_lem (suc n) y e m a = ground (
  arith,
  clear_lines_lem n (y + 1) e (fill vga_width (y * vga_width) e m) a,
  fill_lem vga_width (y * vga_width) e m a,
)

-- `vga_clear` blanks exactly the 2000 cells of the screen.
pub clear_lem :
    (v : Vga) (a : ℕ)
    → (clear v).cells a ≡ (if ltb a 2000 then vga_entry b' ' v.color else v.cells a)
unfolding clear
clear_lem v a = ground (arith, clear_lines_lem vga_height 0 (vga_entry b' ' v.color) v.cells a)
