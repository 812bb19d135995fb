-- ===== src/Keyboard/Queue.antt =====
-- The keyboard buffer as a queue of the characters not yet read.
use mathlib.Core.List.{append-nil}
use sometuffcoolpr.Prelude.{
  sym, subst, ltb, ==_ne, ℕ, zero, suc, ◌+◌, ◌-◌, ◌/◌, ◌%◌, ◌<◌, ◌≡◌, ◌≢◌, refl, ◌∙◌, ap, true,
  false, ◌||◌, List, [], ◌∷◌, ◌++◌, arith, leb, ◌==◌, if◌then◌else◌, Bool-cases, inl, inr,
}
use sometuffcoolpr.Prelude.Memory.{Memory, write}
use sometuffcoolpr.Str.Number.{All, All-append}
use sometuffcoolpr.Keyboard.{
  Keyboard, scancode_to_ascii, store, irq_handler, has_input, getchar, send_eoi,
}

-- The `n` characters from index `t` on, going round at 256.
abbrev pub window : Memory → ℕ → ℕ → List ℕ
window m t zero = []
window m t (suc n) = m t ∷ window m ((t + 1) % 256) n

-- How many characters wait.
abbrev pub pending : Keyboard → ℕ
pending k = (k.head + 256 - k.tail) % 256

abbrev pub contents : Keyboard → List ℕ
contents k = window k.buffer k.tail (pending k)

pub record IsValid (k : Keyboard) : Type 0 where
  pub head_in : k.head < 256
  pub tail_in : k.tail < 256

window-write :
    (n : ℕ) (m : Memory) (t h c : ℕ)
    → t < 256
    → n < 256
    → h ≡ (t + n) % 256
    → window (write m h c) t (suc n) ≡ window m t n ++ (c ∷ [])
window-write zero m t h c ht hn e = ground arith
window-write (suc n) m t h c ht hn e =
    let far : h ≢ t = omega arith in
    let rest = window-write n m ((t + 1) % 256) h c (omega arith) (omega arith) (omega arith) in
    ground (arith, far, rest)

-- A character is stored behind those that wait, if fewer than 255 do.
store-contents :
    (k : Keyboard) (c : ℕ)
    → IsValid k
    → pending k < 255
    → contents (store c k) ≡ contents k ++ (c ∷ [])
unfolding store
store-contents k c v room =
    let e : ((k.head + 1) % 256 + 256 - k.tail) % 256 ≡ suc (pending k) = omega arith in
    rw e (window-write (pending k) k.buffer k.tail k.head c v.tail_in (omega arith) (omega arith))

store-IsValid : (k : Keyboard) (c : ℕ) → IsValid k → IsValid (store c k)
unfolding store
store-IsValid k c v = omega arith

window-cons : (m : Memory) (t n : ℕ) → n ≢ 0 → window m t n ≡ m t ∷ window m ((t + 1) % 256) (n - 1)
window-cons m t zero h = absurd (h refl)
window-cons m t (suc n) h = ap (λ j. m t ∷ window m ((t + 1) % 256) j) (omega arith)

-- What an interrupt adds to the queue: nothing for a released key or one that has no character.
abbrev pub typed : ℕ → List ℕ
typed scancode =
    if leb 128 scancode || (scancode_to_ascii scancode == 0)
    then []
    else scancode_to_ascii scancode ∷ []

-- With fewer than 255 characters waiting, a keyboard interrupt appends the character of a pressed
-- key, if it has one, keeps the indices in range, and acknowledges the interrupt once, at the
-- master.
pub irq_handler_lem :
    (scancode : ℕ) (k : Keyboard)
    → scancode < 256
    → IsValid k
    → pending k < 255
    → let (k', sent) = irq_handler scancode k in
      (contents k' ≡ contents k ++ typed scancode) × IsValid k' × (sent ≡ (0x20, 0x20) ∷ [])
unfolding irq_handler send_eoi
irq_handler_lem scancode k small v room =
    let e = sym (append-nil (contents k)) in
    let kept = store-IsValid k (scancode_to_ascii scancode) v in
    let put = store-contents k (scancode_to_ascii scancode) v room in
    elim (Bool-cases (leb 128 scancode)) [
      | inl released ↦
          let bit : (scancode / 128 % 2 == 1) ≡ true = ground arith in
          rw (bit, released) (e, v, refl)
      | inr pressed ↦
          let bit : (scancode / 128 % 2 == 1) ≡ false = ground arith in
          rw (bit, pressed)
            (elim (Bool-cases (scancode_to_ascii scancode == 0)) [
              | inl none_typed ↦ rw none_typed (e, v, refl)
              | inr key ↦ rw key (put, kept, refl)
            ])
    ]

-- `keyboard_getchar` takes the oldest character, and returns 0 and changes nothing if none waits.
pub getchar_lem :
    (k : Keyboard)
    → IsValid k
    → let (c, k') = getchar k in
      IsValid k'
      × (contents k ≡ (if pending k == 0 then [] else c ∷ contents k'))
      × (pending k ≡ 0 → (c ≡ 0) × (k' ≡ k))
unfolding getchar
getchar_lem k v = elim (Bool-cases (k.head == k.tail)) [
  | inl empty ↦ let e : pending k ≡ 0 = ground arith in rw (empty, e) (v, refl, λ h. (refl, refl))
  | inr waiting ↦
      let ne : pending k ≢ 0 = ground arith in
      let less : (k.head + 256 - (k.tail + 1) % 256) % 256 ≡ pending k - 1 = ground arith in
      rw (waiting, ==_ne _ _ ne, less)
        (
          record { head_in = v.head_in; tail_in = omega arith },
          window-cons k.buffer k.tail (pending k) ne,
          λ h. absurd (ne h),
        )
]

-- The buffer has no test for being full: with 255 characters waiting, one more key press empties
-- it, and all are lost.
store-full : (k : Keyboard) (c : ℕ) → IsValid k → pending k ≡ 255 → has_input (store c k) ≡ false
unfolding store has_input
store-full k c v full = ground arith

typed-nonzero : (scancode : ℕ) → All (λ c. c ≢ 0) (typed scancode)
typed-nonzero scancode = elim (Bool-cases (leb 128 scancode)) [
  | inl released ↦ rw released tt
  | inr pressed ↦ elim (Bool-cases (scancode_to_ascii scancode == 0)) [
    | inl silent ↦ rw (pressed, silent) tt
    | inr known ↦ rw (pressed, known) (ground (arith, known), tt)
  ]
]

store-empty : (k : Keyboard) (c : ℕ) → IsValid k → pending k ≡ 255 → contents (store c k) ≡ []
unfolding store
store-empty k c v full =
    let e : ((k.head + 1) % 256 + 256 - k.tail) % 256 ≡ 0 = omega (arith, full, v) in rw e refl

-- Whatever waits, a keyboard interrupt keeps the indices in range, and no NUL waits behind it.
pub irq_handler-nonzero :
    (scancode : ℕ) (k : Keyboard)
    → scancode < 256
    → IsValid k
    → All (λ c. c ≢ 0) (contents k)
    → let (k', sent) = irq_handler scancode k in IsValid k' × All (λ c. c ≢ 0) (contents k')
unfolding irq_handler
irq_handler-nonzero scancode k small v nz = elim (Bool-cases (ltb (pending k) 255)) [
  | inl room ↦
      let (e, v', sent) = irq_handler_lem scancode k small v (ground (arith, room)) in
      (v', rw e (All-append _ (contents k) (typed scancode) nz (typed-nonzero scancode)))
  | inr full ↦
      let all_used : pending k ≡ 255 = ground (arith, full) in
      elim (Bool-cases (scancode / 128 % 2 == 1)) [
        | inl released ↦ rw released (v, nz)
        | inr pressed ↦ rw pressed (elim (Bool-cases (scancode_to_ascii scancode == 0)) [
          | inl silent ↦ rw silent (v, nz)
          | inr known ↦ rw known (
            store-IsValid k _ v,
            subst (All (λ c. c ≢ 0)) (sym (store-empty k (scancode_to_ascii scancode) v all_used))
                tt,
          )
        ])
      ]
]

-- With `c` in front, `keyboard_has_input` is true, and `keyboard_getchar` takes `c`.
pub getchar-next :
    (k : Keyboard) (c : ℕ) (waiting : List ℕ)
    → IsValid k
    → contents k ≡ c ∷ waiting
    → let (c', k') = getchar k in
      (c' ≡ c) × IsValid k' × (contents k' ≡ waiting) × (has_input k ≡ true)
unfolding has_input
getchar-next k c waiting v e =
    let (v', taken, kept) = getchar_lem k v in
    elim (Bool-cases (pending k == 0)) [
      | inl none_left ↦
          let empty : contents k ≡ [] = taken ∙ rw none_left refl in absurd (cc (e, empty))
      | inr some_left ↦
          let both : contents k ≡ (getchar k).0 ∷ contents (getchar k).1 =
            taken ∙ rw some_left refl in
          (cc (e, both), v', cc (e, both), ground (arith, some_left))
    ]

-- When `keyboard_has_input` is true, a character waits.
pub has_input-contents : (k : Keyboard) → IsValid k → has_input k ≡ true → contents k ≢ []
unfolding has_input
has_input-contents k v has e =
    let ne : pending k ≢ 0 = ground (arith, v.head_in, v.tail_in) in
    let some_left = window-cons k.buffer k.tail (pending k) ne in cc (e, some_left)

-- When nothing waits, it is false.
pub has_input-empty : (k : Keyboard) → IsValid k → contents k ≡ [] → has_input k ≡ false
unfolding has_input
has_input-empty k v e = elim (Bool-cases (k.head == k.tail)) [
  | inl same ↦ rw same refl
  | inr other ↦
      let ne : pending k ≢ 0 = ground (arith, other, v.head_in, v.tail_in) in
      absurd (cc (e, window-cons k.buffer k.tail (pending k) ne))
]

-- Whatever key, the handler acknowledges the interrupt itself.
pub irq_handler-sent :
    (scancode : ℕ) (k : Keyboard) → (irq_handler scancode k).1 ≡ (0x20, 0x20) ∷ []
unfolding irq_handler send_eoi
irq_handler-sent scancode k = elim (Bool-cases (scancode / 128 % 2 == 1)) [
  | inl released ↦ rw released refl
  | inr pressed ↦ rw pressed refl
]
