-- ===== src/Pmm/Alloc.antt =====
-- Which frame `pmm_alloc_frame` hands out, and the count of the free ones.
use sometuffcoolpr.Pmm.Search.{
  in_use, LowestFree, first_free-LowestFree, set_frame-in_use, clear_frame-in_use,
}
use sometuffcoolpr.Prelude.{
  ℕ, zero, suc, ◌+◌, ◌*◌, ◌/◌, ◌%◌, ◌^◌, ◌≤◌, ◌<◌, ◌≡◌, refl, sym, ◌∙◌, true, false, arith, ◌==◌,
  if◌then◌else◌, Bool-cases, inl, inr, ==_eq, subst,
}
use sometuffcoolpr.Prelude.Int.{ℤ, pos, negsuc}
use sometuffcoolpr.Pmm.{
  Bitmap, Pmm, frame_size, set_frame, clear_frame, first_free_from, first_free_frame, alloc_frame,
  free_frame, free_frames_from, get_free_frames,
}

-- What an allocation gives: the lowest frame that is not in use, then marked, or NULL when all the
-- frames of whole bitmap words are in use.
abbrev pub Allocated : Pmm → ℕ × Pmm → ℤ → Type 0
Allocated p (address, p') (negsuc m) =
    (address ≡ 0) × (p' ≡ p) × ((f : ℕ) → f < p.total_frames / 32 * 32 → in_use p.bitmap f ≡ true)
Allocated p (address, p') (pos d) =
    (address ≡ d * 4096)
    × (d < p.total_frames)
    × (in_use p.bitmap d ≡ false)
    × ((f : ℕ) → f < d → in_use p.bitmap f ≡ true)
    × ((f : ℕ) → in_use p'.bitmap f ≡ (if f == d then true else in_use p.bitmap f))
    × (p'.total_frames ≡ p.total_frames)

Allocated-case :
    (p : Pmm) (r : ℤ)
    → p.total_frames ≤ 2 ^ 20
    → LowestFree (p.total_frames / 32) 0 p.bitmap r
    → Allocated p
        (elim r as (λ x. ℕ × Pmm) [
          | negsuc n ↦ (0, p)
          | pos frame ↦
              (frame * frame_size % 2 ^ 32, record p { bitmap = set_frame p.bitmap frame })
        ])
        r
Allocated-case p (negsuc m) small (e, all) = (refl, refl, λ f lt. all f (omega arith) (omega arith))
Allocated-case p (pos d) small (le, lt, free, all) = (
  omega arith,
  omega arith,
  free,
  (λ f lt'. all f (omega arith) lt'),
  set_frame-in_use p.bitmap d,
  refl,
)

-- `pmm_alloc_frame` hands out the lowest frame that is not in use and marks it and no other, or
-- returns NULL and changes nothing when every frame of the whole bitmap words is in use.
pub alloc_frame-Allocated :
    (p : Pmm) → p.total_frames ≤ 2 ^ 20 → Allocated p (alloc_frame p) (first_free_frame p)
unfolding alloc_frame first_free_frame
alloc_frame-Allocated p small =
    Allocated-case p (first_free_from (p.total_frames / 32) 0 p.bitmap) small
      (first_free-LowestFree (p.total_frames / 32) 0 p.bitmap)

free_frames-same :
    (n i : ℕ) (b c : Bitmap)
    → ((f : ℕ) → i ≤ f → f < i + n → in_use c f ≡ in_use b f)
    → free_frames_from n i c ≡ free_frames_from n i b
unfolding free_frames_from
free_frames-same zero i b c same = refl
free_frames-same (suc n) i b c same =
    let head : c (i / 32) (i % 32) ≡ b (i / 32) (i % 32) = same i (omega arith) (omega arith) in
    rw (head, free_frames-same n (i + 1) b c (λ f le lt. same f (omega arith) (omega arith))) refl

free_frames-mark :
    (n i : ℕ) (b c : Bitmap) (d : ℕ)
    → i ≤ d
    → d < i + n
    → in_use b d ≡ false
    → ((f : ℕ) → in_use c f ≡ (if f == d then true else in_use b f))
    → free_frames_from n i b ≡ 1 + free_frames_from n i c
unfolding free_frames_from
free_frames-mark zero i b c d le lt free same = absurd (omega arith)
free_frames-mark (suc n) i b c d le lt free same = elim (Bool-cases (i == d)) [
  | inl e ↦
      let bit : b (i / 32) (i % 32) ≡ false = rw (==_eq i d e) free in
      let bit' : c (i / 32) (i % 32) ≡ true = same i ∙ rw e refl in
      let tail : free_frames_from n (i + 1) c ≡ free_frames_from n (i + 1) b =
        free_frames-same n (i + 1) b c
          (λ f le' lt'. let other : (f == d) ≡ false = ground arith in same f ∙ rw other refl) in
      rw (bit, bit', tail) refl
  | inr ne ↦
      let bit : c (i / 32) (i % 32) ≡ b (i / 32) (i % 32) = same i ∙ rw ne refl in
      let tail : free_frames_from n (i + 1) b ≡ 1 + free_frames_from n (i + 1) c =
        free_frames-mark n (i + 1) b c d (ground arith) (omega arith) free same in
      rw (bit, tail) (ground arith)
]

-- A successful allocation takes one off the count of free frames, and freeing its address gives the
-- count and every frame's bit back.
pub alloc_frame-free_frame :
    (p : Pmm) (d : ℕ)
    → p.total_frames ≤ 2 ^ 20
    → first_free_frame p ≡ pos d
    → (get_free_frames p ≡ 1 + get_free_frames (alloc_frame p).1)
      × (get_free_frames (free_frame (alloc_frame p).1 (alloc_frame p).0) ≡ get_free_frames p)
      × ((f : ℕ)
          → in_use (free_frame (alloc_frame p).1 (alloc_frame p).0).bitmap f ≡ in_use p.bitmap f)
unfolding get_free_frames free_frame
alloc_frame-free_frame p d small e =
    let (address, lt, free, lower, marked, total) =
      subst (λ (r : ℤ). Allocated p (alloc_frame p) r) e (alloc_frame-Allocated p small) in
    let frame : (alloc_frame p).0 / 4096 ≡ d = omega (arith, address) in
    let back : (f : ℕ)
        → in_use (clear_frame (alloc_frame p).1.bitmap ((alloc_frame p).0 / 4096)) f
          ≡ in_use p.bitmap f =
      λ f.
        clear_frame-in_use (alloc_frame p).1.bitmap ((alloc_frame p).0 / 4096) f
        ∙ rw (frame, marked f)
            (elim (Bool-cases (f == d)) [
              | inl same ↦ rw same (sym (rw (==_eq f d same) free))
              | inr other ↦ rw other refl
            ]) in
    (
      rw total (
          free_frames-mark p.total_frames 0 p.bitmap (alloc_frame p).1.bitmap d (omega arith)
            (omega arith) free marked),
      rw total (free_frames-same p.total_frames 0 p.bitmap _ (λ f le' lt'. back f)),
      back,
    )
