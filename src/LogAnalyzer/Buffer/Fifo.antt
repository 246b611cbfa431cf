-- ===== src/LogAnalyzer/Buffer/Fifo.antt =====
-- The circular buffer against a first-in, first-out queue of at most `capacity` lines.
use native.Mathlib.Nat.{mod-add-mod, mod-eq_of_lt, mod-eq-sub-mod, add-zero}
use homeworks.Prelude.{
  ℕ, zero, suc, ◌+◌, ◌-◌, ◌%◌, ◌≤◌, ◌<◌, ◌≡◌, ◌≢◌, refl, sym, ap, ◌∙◌, inl, inr, ◌⊎◌, List, [], ◌∷◌,
  ◌++◌, true, false, none, some, CString, length, update, ◌==◌, Bool-cases, arith, map,
}
use homeworks.LogAnalyzer.Buffer.{
  Buffer, buffer_init, buffer_put, buffer_get, freed_slots, buffer_destroy,
}

module _ (f : ℕ → CString) (c : ℕ) where
  -- The `n` lines from the slot `h` on, going round at `c`.
  abbrev pub window : ℕ → ℕ → List CString
  window h zero = []
  window h (suc n) = f h ∷ window ((h + 1) % c) n

  length-window : (h n : ℕ) → length (window h n) ≡ n
  length-window h zero = refl
  length-window h (suc n) = ap suc (length-window ((h + 1) % c) n)

-- One step on, then n: n + 1 steps.
mod-step : (c h n : ℕ) → ((h + 1) % c + n) % c ≡ (h + suc n) % c
mod-step c h n = rw mod-add-mod (ap (λ k. k % c) (omega arith))

mod-ne : (c h j n : ℕ) → h < c → j < n → n < c → (h + j) % c ≢ (h + n) % c
mod-ne c h j n a b d e = ground (
  arith,
  mod-eq_of_lt {n = h + j} {m = c},
  mod-eq_of_lt {n = h + n} {m = c},
  mod-eq-sub-mod {n = h + j} {m = c},
  mod-eq-sub-mod {n = h + n} {m = c},
  mod-eq_of_lt {n = h + j - c} {m = c},
  mod-eq_of_lt {n = h + n - c} {m = c},
)

window-update :
    (f : ℕ → CString) (c k : ℕ) (v : CString) (h m : ℕ)
    → ((j : ℕ) → j < m → (h + j) % c ≢ k)
    → h < c
    → window (update f k v) c h m ≡ window f c h m
window-update f c k v h zero miss a = refl
window-update f c k v h (suc m) miss a =
    let here : (h + 0) % c ≡ h = rw add-zero (mod-eq_of_lt a) in
    let off : (k == h) ≡ false = ground (arith, miss 0, here) in
    rw off (
      ap (◌∷◌ (f h)) (
        window-update f c k v ((h + 1) % c) m
          (λ j lt e. miss (suc j) (omega arith) (sym (mod-step c h j) ∙ e)) (omega arith)))

window-snoc :
    (f : ℕ → CString) (c h n : ℕ)
    → h < c
    → window f c h (suc n) ≡ window f c h n ++ f ((h + n) % c) ∷ []
window-snoc f c h zero a = rw (add-zero, mod-eq_of_lt a) refl
window-snoc f c h (suc n) a =
    ap (◌∷◌ (f h)) (rw (mod-step c h n) at (window-snoc f c ((h + 1) % c) n (omega arith)))

-- The lines that wait, oldest first.
abbrev pub contents : Buffer → List CString
contents b = window b.lines b.capacity b.head b.size

pub record IsBuffer (b : Buffer) : Type 0 where
  pub head_in : b.head < b.capacity
  pub size_in : b.size ≤ b.capacity
  pub tail_at : b.tail ≡ (b.head + b.size) % b.capacity

pub init-IsBuffer : (capacity : ℕ) → 0 < capacity → IsBuffer (buffer_init capacity)
unfolding buffer_init
init-IsBuffer capacity h = omega arith

pub length-contents : (b : Buffer) → length (contents b) ≡ b.size
length-contents b = length-window b.lines b.capacity b.head b.size

pub put_line : (b : Buffer) (line : CString) → Buffer
put_line b line = record b {
  lines = update b.lines b.tail line;
  tail = (b.tail + 1) % b.capacity;
  size = b.size + 1;
}

put_line-contents :
    (b : Buffer) (line : CString)
    → IsBuffer b
    → b.size < b.capacity
    → IsBuffer (put_line b line) × (contents (put_line b line) ≡ contents b ++ line ∷ [])
unfolding put_line
put_line-contents b line v free =
    let grow : b.size + 1 ≡ suc b.size = omega arith in
    let hit : update b.lines b.tail line ((b.head + b.size) % b.capacity) ≡ line =
      ground (arith, v.tail_at) in
    let rest =
      window-update b.lines b.capacity b.tail line b.head b.size
        (λ j lt e. mod-ne b.capacity b.head j b.size v.head_in lt free (e ∙ v.tail_at)) v.head_in in
    (
      record {
        head_in = v.head_in;
        size_in = omega arith;
        tail_at =
            ap (λ t. (t + 1) % b.capacity) v.tail_at
            ∙ rw mod-add-mod (ap (λ k. k % b.capacity) (omega arith));
      },
      rw grow (
          window-snoc (update b.lines b.tail line) b.capacity b.head b.size v.head_in
          ∙ rw (hit, rest) refl),
    )

size_lt : (b : Buffer) → (b.size == b.capacity) ≡ false → b.size ≤ b.capacity → b.size < b.capacity
size_lt b h k = ground arith

freed_slots-window :
    (b : Buffer) (i n h : ℕ)
    → h ≡ (b.head + i) % b.capacity
    → map b.lines (freed_slots b i n) ≡ window b.lines b.capacity h n
unfolding freed_slots
freed_slots-window b i zero h e = refl
freed_slots-window b i (suc n) h e = rw (← e) (
    ap (◌∷◌ (b.lines h)) (
      freed_slots-window b (i + 1) n ((h + 1) % b.capacity) (
        ap (λ k. (k + 1) % b.capacity) e
        ∙ rw mod-add-mod (ap (λ k. k % b.capacity) (omega arith)))))

-- `buffer_put` on a buffer that is in order: while the buffer is full and the end of the file is
-- not announced it waits; once the end is announced it drops the line and changes nothing;
-- otherwise the line joins the end of the queue, and the buffer stays in order.
pub buffer_put-contents :
    (b : Buffer) (line : CString)
    → IsBuffer b
    → ((buffer_put b line ≡ none) × (b.eof ≡ false) × (length (contents b) ≡ b.capacity))
      ⊎ (((buffer_put b line ≡ some b) × (b.eof ≡ true))
          ⊎ ((t : Buffer) × (buffer_put b line ≡ some t)
              × (b.eof ≡ false)
              × (t.eof ≡ false)
              × (contents t ≡ contents b ++ line ∷ [])
              × IsBuffer t))
unfolding buffer_put put_line
buffer_put-contents b line v = elim (Bool-cases b.eof) [
  | inl ended ↦ inr (inl (ground arith, ended))
  | inr open' ↦ elim (Bool-cases (b.size == b.capacity)) [
    | inl full ↦ inl (ground arith, open', length-contents b ∙ ground arith)
    | inr free ↦
        let out = put_line-contents b line v (omega (arith, size_lt b free v.size_in)) in
        inr (inr (put_line b line, ground arith, open', open', out.1, out.0))
  ]
]

take_line : Buffer → Buffer
take_line b = record b { head = (b.head + 1) % b.capacity; size = b.size - 1 }

-- `buffer_get` on a buffer that is in order: while the buffer is empty it waits, or returns NULL
-- once the end of the file is announced; otherwise it returns the oldest line, the others stay in
-- their order, and the buffer stays in order.
pub buffer_get-contents :
    (b : Buffer)
    → IsBuffer b
    → ((buffer_get b ≡ none) × (b.eof ≡ false) × (contents b ≡ []))
      ⊎ (((buffer_get b ≡ some (none, b)) × (b.eof ≡ true) × (contents b ≡ []))
          ⊎ ((line : CString) × (t : Buffer) × (buffer_get b ≡ some (some line, t))
              × (t.eof ≡ b.eof)
              × (contents b ≡ line ∷ contents t)
              × IsBuffer t))
unfolding buffer_get take_line
buffer_get-contents b v = elim (Bool-cases (b.size == 0)) [
  | inl none_there ↦
      let empty : b.size ≡ 0 = ground arith in
      let nothing = ap (window b.lines b.capacity b.head) empty in
      elim (Bool-cases b.eof) [
        | inl ended ↦ inr (inl (ground arith, ended, nothing))
        | inr open' ↦ inl (ground arith, open', nothing)
      ]
  | inr some_there ↦
      let shrink : b.size ≡ suc (b.size - 1) = ground arith in
      inr (
        inr (
          b.lines b.head,
          take_line b,
          rw some_there refl,
          refl,
          ap (window b.lines b.capacity b.head) shrink,
          record {
            head_in = omega (arith, v.head_in);
            size_in = omega (arith, v.size_in);
            tail_at =
                v.tail_at
                ∙ (ap (λ n. (b.head + n) % b.capacity) shrink
                    ∙ sym (mod-step b.capacity b.head (b.size - 1)));
          },
        ))
]

-- `buffer_destroy` frees the slots of the lines that still wait, each once and in their order, and
-- so no line that a worker has taken.
pub buffer_destroy-contents :
    (b : Buffer) → IsBuffer b → map b.lines (buffer_destroy b) ≡ contents b
unfolding buffer_destroy
buffer_destroy-contents b v =
    freed_slots-window b 0 b.size b.head (rw add-zero (sym (mod-eq_of_lt v.head_in)))
