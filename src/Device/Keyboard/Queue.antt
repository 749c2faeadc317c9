-- ===== src/Device/Keyboard/Queue.antt =====
-- The key queue as a bounded first-in first-out queue.
use ysyxworkbench.Prelude.{
  ℕ, suc, ◌+◌, ◌-◌, ◌%◌, ◌<◌, ◌≡◌, refl, ap, true, false, ok, fault, assertion, ◌==◌, List, [], ◌∷◌,
  ◌++◌, length, arith,
}
use ysyxworkbench.Device.Keyboard.{
  KeyQueue, key_queue_len, key_none, put_key, key_enqueue, key_dequeue,
}

-- From index `f` to index `r` stand the keys `xs`, around the end of the array.
abbrev pub Holds : (ℕ → ℕ) → ℕ → ℕ → List ℕ → Type 0
Holds queue f r [] = f ≡ r
Holds queue f r (x ∷ xs) = (queue f ≡ x) × Holds queue ((f + 1) % key_queue_len) r xs

-- The queue holds `xs`, the oldest key first, and at most 1023 keys.
pub record IsQueue (q : KeyQueue) (xs : List ℕ) : Type 0 where
  pub front : q.key_f < key_queue_len
  pub room : length xs < key_queue_len
  pub held : Holds q.key_queue q.key_f q.key_r xs

Holds-end :
    (queue : ℕ → ℕ) (f r : ℕ) (xs : List ℕ)
    → f < key_queue_len
    → Holds queue f r xs
    → r ≡ (f + length xs) % key_queue_len
Holds-end queue f r [] h e = omega arith
Holds-end queue f r (x ∷ xs) h (here, rest) =
    omega (arith, Holds-end queue ((f + 1) % key_queue_len) r xs (omega arith) rest)

-- Writing at the end of the queue, with `r` at least one place away from every key.
Holds-snoc :
    (queue : ℕ → ℕ) (f r key : ℕ) (xs : List ℕ)
    → f < key_queue_len
    → Holds queue f r xs
    → length xs < key_queue_len
    → Holds (put_key queue r key) f ((r + 1) % key_queue_len) (xs ++ key ∷ [])
Holds-snoc queue f r key [] h e small = (ground arith, ap (λ (i : ℕ). (i + 1) % key_queue_len) e)
Holds-snoc queue f r key (x ∷ xs) h (here, rest) small =
    let apart = Holds-end queue ((f + 1) % key_queue_len) r xs (omega arith) rest in
    (
      ground (arith, here, apart),
      Holds-snoc queue ((f + 1) % key_queue_len) r key xs (omega arith) rest (omega arith),
    )

length-snoc : (xs : List ℕ) (x : ℕ) → length (xs ++ x ∷ []) ≡ suc (length xs)
length-snoc [] x = refl
length-snoc (y ∷ xs) x = ap suc (length-snoc xs x)

-- With fewer than 1023 keys in the queue, `key_enqueue` returns the queue with the new key last.
pub key_enqueue-snoc :
    (q : KeyQueue) (xs : List ℕ) (key : ℕ)
    → IsQueue q xs
    → length xs < key_queue_len - 1
    → (q' : KeyQueue) × (key_enqueue key q ≡ ok q') × IsQueue q' (xs ++ key ∷ [])
unfolding key_enqueue
key_enqueue-snoc q xs key h small =
    let r = Holds-end q.key_queue q.key_f q.key_r xs h.front h.held in
    let open_end = apart q.key_f q.key_r (length xs) h.front small r in
    (
      record {
        key_queue = put_key q.key_queue q.key_r key;
        key_f = q.key_f;
        key_r = (q.key_r + 1) % key_queue_len;
      },
      rw open_end refl,
      record {
        front = h.front;
        room = omega (arith, length-snoc xs key);
        held = Holds-snoc q.key_queue q.key_f q.key_r key xs h.front h.held h.room;
      },
    )
  where
    apart :
        (f r n : ℕ)
        → f < key_queue_len
        → n < key_queue_len - 1
        → r ≡ (f + n) % key_queue_len
        → ((r + 1) % key_queue_len == f) ≡ false
    apart f r n h small e = ground arith

-- With 1023 keys in the queue, `key_enqueue` fails its assertion.
key_enqueue_full :
    (q : KeyQueue) (xs : List ℕ) (key : ℕ)
    → IsQueue q xs
    → length xs ≡ key_queue_len - 1
    → key_enqueue key q ≡ fault assertion
unfolding key_enqueue
key_enqueue_full q xs key h full =
    rw
      (meets q.key_f q.key_r (length xs) h.front full
        (Holds-end q.key_queue q.key_f q.key_r xs h.front h.held))
      refl
  where
    meets :
        (f r n : ℕ)
        → f < key_queue_len
        → n ≡ key_queue_len - 1
        → r ≡ (f + n) % key_queue_len
        → ((r + 1) % key_queue_len == f) ≡ true
    meets f r n h full e = ground arith

-- `key_dequeue` returns the oldest key and takes it off the queue.
pub key_dequeue-front :
    (q : KeyQueue) (x : ℕ) (xs : List ℕ)
    → IsQueue q (x ∷ xs)
    → (q' : KeyQueue) × (key_dequeue q ≡ (x, q')) × IsQueue q' xs
unfolding key_dequeue
key_dequeue-front q x xs h =
    let (here, rest) = h.held in
    let front' : (q.key_f + 1) % key_queue_len < key_queue_len = omega arith in
    let filled =
      apart q.key_f q.key_r (length xs) h.front h.room
        (Holds-end q.key_queue ((q.key_f + 1) % key_queue_len) q.key_r xs front' rest) in
    (
      record q { key_f = (q.key_f + 1) % key_queue_len },
      rw filled (rw here refl),
      record { front = front'; room = omega (arith, h.room); held = rest },
    )
  where
    apart :
        (f r n : ℕ)
        → f < key_queue_len
        → suc n < key_queue_len
        → r ≡ ((f + 1) % key_queue_len + n) % key_queue_len
        → (f == r) ≡ false
    apart f r n h small e = ground arith

-- `key_dequeue` of an empty queue returns `NEMU_KEY_NONE` and changes nothing.
pub key_dequeue_empty : (q : KeyQueue) → IsQueue q [] → key_dequeue q ≡ (key_none, q)
unfolding key_dequeue
key_dequeue_empty q h = rw h.held (rw (same_index q.key_r) refl)
  where
    same_index : (r : ℕ) → (r == r) ≡ true
    same_index r = ground arith
