-- ===== src/Heap/Alloc/Grow.antt =====
-- The outcomes of `kmalloc` of src/kernel/mm/heap.c: the first block, a block that is found, and one
-- behind the last.
use sometuffcoolpr.Heap.Alloc.Policy.{Outcome, grow, serve}
use sometuffcoolpr.Heap.Alloc.Find.{Hit, Miss}
use sometuffcoolpr.Prelude.{
  ℕ, ◌+◌, ◌-◌, ◌%◌, ◌^◌, ◌≤◌, ◌<◌, ◌≡◌, inl, inr, refl, ◌∙◌, subst, false, Option, some, List, [],
  ◌∷◌, ◌++◌, arith, ltb, leb, Bool-cases,
}
use sometuffcoolpr.Prelude.Memory.{Memory, write}
use sometuffcoolpr.Heap.{
  Heap, first_block, append_block, new_block, kernel_heap_end, kernel_heap_start, next_of,
  take_block, u32,
}
use sometuffcoolpr.Heap.Blocks.{Block, block, Chain, Ordered, Wf, first_fit}

-- The heap after a call whose outcome on the lists is `o`.
pub record Refines (r : Option (ℕ × Heap)) (o : Outcome) : Type 0 where
  pub heap : Heap
  pub result : r ≡ some (o.0, heap)
  pub ends : heap.end ≡ o.2
  pub wf : Wf heap o.1

-- The list after the first allocation.
first-Wf :
    (size : ℕ) (h : Heap)
    → 0 < size
    → size % 8 ≡ 0
    → h.start ≡ kernel_heap_start
    → h.end ≡ kernel_heap_start
    → h.end + 20 + size < kernel_heap_end
    → Wf
        (record h { mem = new_block h.end size 0 0 0 h.mem; head = h.end; end = h.end + 20 + size })
        (block h.end size false ∷ [])
unfolding new_block
first-Wf size h pos mult s e top = record {
  at_start = s;
  below = omega arith;
  aligned = omega arith;
  chain = (refl, ground arith, ground arith, ground arith, ground arith, ground arith);
  ordered = (omega arith, omega arith, pos, mult, omega arith);
  reset = λ q. cc;
}

pub first_block-Refines :
    (size : ℕ) (h : Heap)
    → 0 < size
    → size % 8 ≡ 0
    → size ≤ kernel_heap_start
    → Wf h []
    → Refines (some (first_block size h)) (serve size [] h.end)
unfolding first_block serve grow first_fit
first_block-Refines size h pos mult small w =
    let e : h.end ≡ kernel_heap_start = w.reset refl ∙ w.at_start in
    let nowrap : u32 (h.end + 20 + size) ≡ h.end + 20 + size = omega arith in
    let assoc : h.end + (20 + size) ≡ h.end + 20 + size = omega arith in
    rw (nowrap, assoc)
      (elim (Bool-cases (leb kernel_heap_end (h.end + 20 + size))) [
        | inl full ↦ rw full (record { heap = h; result = refl; ends = refl; wf = w })
        | inr room ↦ rw room (record {
          heap = record h {
            mem = new_block h.end size 0 0 0 h.mem;
            head = h.end;
            end = h.end + 20 + size;
          };
          result = refl;
          ends = refl;
          wf = first-Wf size h pos mult w.at_start e (ground arith);
        })
      ])

Ordered-snoc :
    (bs : List Block) (lo hi size : ℕ)
    → Ordered lo bs hi
    → hi % 4 ≡ 0
    → 0 < size
    → size % 8 ≡ 0
    → Ordered lo (bs ++ (block hi size false ∷ [])) (hi + 24 + size)
Ordered-snoc [] lo hi size o al pos mult = (o, al, pos, mult, omega arith)
Ordered-snoc (b ∷ bs) lo hi size o al pos mult =
    (o.0, o.1, o.2, o.3, Ordered-snoc bs (b.addr + 20 + b.size) hi size o.4 al pos mult)

append-Wf :
    (size k : ℕ) (h : Heap) (b : Block) (bs : List Block)
    → 0 < size
    → size % 8 ≡ 0
    → Wf h (b ∷ bs)
    → h.end + 24 + size < kernel_heap_end
    → (miss : Miss size k h.mem 0 h.head h.start h.end (b ∷ bs))
    → Wf
        (record h {
          mem = write (new_block h.end size 0 0 miss.at h.mem) (next_of miss.at) h.end;
          end = h.end + 24 + size;
        })
        ((b ∷ bs) ++ (block h.end size false ∷ []))
unfolding new_block
append-Wf size k h b bs pos mult w top miss =
    let m : Memory = write (new_block h.end size 0 0 miss.at h.mem) (next_of miss.at) h.end in
    let a = miss.at in
    let lo : kernel_heap_start ≤ a = omega (arith, miss.above, w.at_start) in
    let hi : a + 20 ≤ h.end = miss.within in
    record {
      at_start = w.at_start;
      below = omega arith;
      aligned = omega (arith, w.aligned);
      chain =
          miss.extend m h.end (block h.end size false) (λ x l r ne. ground arith) (ground arith)
            (refl, ground arith, ground arith, ground arith, ground arith, ground arith);
      ordered = Ordered-snoc (b ∷ bs) h.start h.end size w.ordered w.aligned pos mult;
      reset = λ q. cc;
    }

append_block-full :
    (size at : ℕ) (h : Heap)
    → size ≤ 2 ^ 32 - 32
    → h.end ≤ kernel_heap_end
    → kernel_heap_end ≤ h.end + (24 + size)
    → append_block size at h ≡ (0, h)
unfolding append_block
append_block-full size at h small below full = ground arith

append_block-room :
    (size at : ℕ) (h : Heap)
    → h.end + (24 + size) < kernel_heap_end
    → append_block size at h ≡ (
      h.end + 20,
      record h {
        mem = write (new_block h.end size 0 0 at h.mem) (next_of at) h.end;
        end = h.end + 24 + size;
      },
    )
unfolding append_block
append_block-room size at h room =
    let e : u32 (h.end + 20 + size + 4) ≡ h.end + 24 + size = omega arith in
    let up : ltb (h.end + 24 + size) h.end ≡ false = ground arith in
    let fits_in : leb kernel_heap_end (h.end + 24 + size) ≡ false = ground arith in
    rw (e, up, fits_in)

grow-full :
    (size end : ℕ) (b : Block) (bs : List Block)
    → kernel_heap_end ≤ end + (24 + size)
    → grow size (b ∷ bs) end ≡ (0, b ∷ bs, end)
unfolding grow
grow-full size end b bs h = ground arith

grow-room :
    (size end : ℕ) (b : Block) (bs : List Block)
    → end + (24 + size) < kernel_heap_end
    → grow size (b ∷ bs) end
      ≡ (end + 20, (b ∷ bs) ++ (block end size false ∷ []), end + (24 + size))
unfolding grow
grow-room size end b bs h = ground arith

pub append-Refines :
    (size k : ℕ) (h : Heap) (b : Block) (bs : List Block)
    → 0 < size
    → size % 8 ≡ 0
    → size ≤ 2 ^ 32 - 32
    → Wf h (b ∷ bs)
    → (miss : Miss size k h.mem 0 h.head h.start h.end (b ∷ bs))
    → Refines (some (append_block size miss.at h)) (serve size (b ∷ bs) h.end)
unfolding serve
append-Refines size k h b bs pos mult small w miss =
    rw (miss.first, serve)
      (elim (Bool-cases (leb kernel_heap_end (h.end + (24 + size)))) [
        | inl full ↦
            rw
              (
                grow-full size h.end b bs (ground arith),
                append_block-full size miss.at h small w.below (ground arith),
              )
              (record { heap = h; result = refl; ends = refl; wf = w })
        | inr room ↦
            rw
              (
                grow-room size h.end b bs (ground arith),
                append_block-room size miss.at h (ground arith),
              )
              (record {
                heap = record h {
                  mem = write (new_block h.end size 0 0 miss.at h.mem) (next_of miss.at) h.end;
                  end = h.end + 24 + size;
                };
                result = refl;
                ends = omega arith;
                wf = append-Wf size k h b bs pos mult w (ground arith) miss;
              })
      ])

pub Hit-Refines :
    (size k : ℕ) (h : Heap) (b : Block) (bs : List Block)
    → Wf h (b ∷ bs)
    → (hit : Hit size k h.mem 0 h.head h.start h.end (b ∷ bs))
    → Refines
        (some (u32 (hit.at + 20), record h { mem = take_block size hit.at h.mem }))
        (serve size (b ∷ bs) h.end)
unfolding serve
Hit-Refines size k h b bs w hit =
    let e : u32 (hit.at + 20) ≡ hit.at + 20 = omega (arith, hit.within, w.below) in
    rw (hit.first, serve, e)
      (record {
        heap = record h { mem = take_block size hit.at h.mem };
        result = refl;
        ends = refl;
        wf = record {
          at_start = w.at_start;
          below = w.below;
          aligned = w.aligned;
          chain = hit.chain;
          ordered = hit.ordered;
          reset = λ q.
              let z : h.head ≡ 0 =
                subst (Chain (take_block size hit.at h.mem) 0 h.head) q hit.chain in
              absurd (omega (arith, w.chain.0, w.ordered.0, w.at_start));
        };
      })
