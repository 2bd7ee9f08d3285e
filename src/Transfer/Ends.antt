-- ===== src/Transfer/Ends.antt =====
-- src/ndmpd_mover.c: the loops end, and what they have moved then; and where one does not end.
use ndmpd.Common.{
  take-drop, if-cases, ℕ, zero, suc, ◌+◌, ◌-◌, ◌<◌, ◌≤◌, ◌≡◌, refl, sym, ap, ◌∙◌, Bool, true, false,
  List, [], ◌∷◌, ◌++◌, ◌==◌, Option, none, some, length, length-append, length-drop, take, drop,
  arith, append_assoc, append-nil,
}
use ndmpd.Transfer.{
  Written, finished, failed, unfinished, write_rounds, ndmpd_remote_write, Window, Read, stored,
  error, endless, smaller, next_window, read_some, read_round, read_rounds, ndmpd_remote_read_v3,
}

-- What POSIX says of `write` on a socket that blocks: it takes a byte at least, and no more than asked.
abbrev pub Writes : (ℕ → ℕ → Option ℕ) → Type 0
Writes write = (i len k : ℕ) → write i len ≡ some k → 0 < len → (0 < k) × (k ≤ len)

-- after success, all bytes were taken; after failure, the first ones
abbrev pub Took : List ℕ → Written → Type 0
Took all (finished out) = out ≡ all
Took all (failed abort out) = (rest : List ℕ) × (out ++ rest ≡ all)
Took all unfinished = ⊥

Took-round :
    (all out : List ℕ) (b : Bool) (o : Option ℕ) (f : ℕ → Written)
    → ((rest : List ℕ) × (out ++ rest ≡ all))
    → ((k : ℕ) → o ≡ some k → Took all (f k))
    → Took all (elim b [
      | true ↦ failed false out
      | false ↦ elim o [ none ↦ failed true out | some k ↦ f k ]
    ])
Took-round all out true o f r h = r
Took-round all out false none f r h = r
Took-round all out false (some k) f r h = h k refl

module _ (stop : ℕ → Bool) (write : ℕ → ℕ → Option ℕ) where
  write_rounds-Took :
      Writes write
      → (n i : ℕ) (s out : List ℕ) → length s ≤ n
      → Took (out ++ s) (write_rounds stop write n i s out)
  unfolding write_rounds
  write_rounds-Took w n i [] out h = sym (append-nil out)
  write_rounds-Took w zero i (c ∷ s) out h = absurd (omega arith)
  write_rounds-Took w (suc n) i (c ∷ s) out h =
      let all : List ℕ = out ++ (c ∷ s) in
      let next =
        λ (k : ℕ). write_rounds stop write n (suc i) (drop k (c ∷ s)) (out ++ take k (c ∷ s)) in
      Took-round all out (stop i) (write i (length (c ∷ s))) next (c ∷ s, refl)
        (λ k e.
          let (pos, le) = w i (length (c ∷ s)) k e (omega arith) in
          let split : (out ++ take k (c ∷ s)) ++ drop k (c ∷ s) ≡ out ++ (c ∷ s) =
            append_assoc out (take k (c ∷ s)) (drop k (c ∷ s))
            ∙ ap (λ r. out ++ r) (take-drop k (c ∷ s)) in
          rw split at (
            write_rounds-Took w n (suc i) (drop k (c ∷ s)) (out ++ take k (c ∷ s))
              (omega (arith, h, pos, length-drop k (c ∷ s)))))

-- The loop that writes ends within as many rounds as there are bytes, for a socket that takes a byte
-- at least in each: it returns success only when all bytes were taken, in their order, and otherwise
-- the bytes taken are the first ones.
pub remote_write_ends :
    (stop : ℕ → Bool) (write : ℕ → ℕ → Option ℕ) (s : List ℕ)
    → Writes write
    → Took s (ndmpd_remote_write stop write s)
unfolding ndmpd_remote_write
remote_write_ends stop write s w = write_rounds-Took stop write w (length s) 0 s [] (omega arith)

-- What POSIX says of `read`: it gives no more than asked.
abbrev pub Reads : (ℕ → ℕ → Option (List ℕ)) → Type 0
Reads read = (i len : ℕ) (bytes : List ℕ) → read i len ≡ some bytes → length bytes ≤ len

-- after success, `len` bytes are stored; after failure, at most as many; and the position moved by
-- the number of bytes stored
abbrev pub Gave : ℕ → ℕ → Read → Type 0
Gave len position (stored out w) = (length out ≡ len) × (w.dd_position ≡ position + len)
Gave len position (error out w) = (length out ≤ len) × (w.dd_position ≡ position + length out)
Gave len position endless = ⊥

next_window-kept :
    (fsize len : ℕ) (w : Window)
    → ((next_window fsize len w).dd_discard_length ≡ w.dd_discard_length)
      × ((next_window fsize len w).dd_position ≡ w.dd_position)
unfolding next_window
next_window-kept fsize len w =
    if-cases
      (λ (v : Window).
        (v.dd_discard_length ≡ w.dd_discard_length) × (v.dd_position ≡ w.dd_position))
      (w.dd_read_length == 0) (λ e. (refl, refl)) (λ e. (refl, refl))

-- what goes on behind a read gives what is wanted
abbrev Next : (ℕ → List ℕ → Window → Read) → ℕ → ℕ → ℕ → List ℕ → Type 0
Next again total position len out =
    (l : ℕ) (o : List ℕ) (v : Window)
    → l < len
    → length o + l ≡ total
    → v.dd_position ≡ position + length o
    → v.dd_discard_length ≡ 0
    → Gave total position (again l o v)

module _ (sends : ℕ → Bool) (read : ℕ → ℕ → Option (List ℕ)) (fsize : ℕ) where
  Gave-bytes :
      (again : ℕ → List ℕ → Window → Read) (total position len : ℕ) (out : List ℕ) (w : Window)
      (o : Option (List ℕ))
      → ((bytes : List ℕ) → o ≡ some bytes → length bytes ≤ len)
      → length out + len ≡ total
      → w.dd_position ≡ position + length out
      → w.dd_discard_length ≡ 0
      → Next again total position len out
      → Gave total position (elim o [
        | none ↦ error out w
        | some [] ↦ error out w
        | some (c ∷ bytes) ↦ again (len - length (c ∷ bytes)) (out ++ (c ∷ bytes)) (record w {
          dd_bytes_left_to_read = w.dd_bytes_left_to_read - length (c ∷ bytes);
          dd_position = w.dd_position + length (c ∷ bytes);
        })
      ])
  Gave-bytes again total position len out w none r l p d n = (omega (arith, l), p)
  Gave-bytes again total position len out w (some []) r l p d n = (omega (arith, l), p)
  Gave-bytes again total position len out w (some (c ∷ bytes)) r l p d n =
      let le = r (c ∷ bytes) refl in
      let s = length-append out (c ∷ bytes) in
      n (len - length (c ∷ bytes)) (out ++ (c ∷ bytes)) _ (omega (arith, le))
        (omega (arith, le, l, s)) (omega (arith, p, s)) d

  read_some-Gave :
      (again : ℕ → List ℕ → Window → Read) (total position i len : ℕ) (out : List ℕ) (w : Window)
      → Reads read
      → length out + len ≡ total
      → w.dd_position ≡ position + length out
      → w.dd_discard_length ≡ 0
      → Next again total position len out
      → Gave total position (read_some sends read fsize again i len out w)
  unfolding read_some
  read_some-Gave again total position i len out w r l p d n =
      let z : (w.dd_discard_length == 0) ≡ true = ground (arith, d) in
      let fits : smaller w.dd_bytes_left_to_read len ≤ len = ground arith in
      rw (read_some, z)
        (Gave-bytes again total position len out w (read i (smaller w.dd_bytes_left_to_read len))
          (λ bytes e. omega (arith, r i (smaller w.dd_bytes_left_to_read len) bytes e, fits)) l p d
          n)

  Gave-window :
      (again : ℕ → List ℕ → Window → Read) (total position i len : ℕ) (out : List ℕ) (w : Window)
      (b c : Bool)
      → Reads read
      → length out + len ≡ total
      → w.dd_position ≡ position + length out
      → w.dd_discard_length ≡ 0
      → Next again total position len out
      → Gave total position (elim b [
        | false ↦ read_some sends read fsize again i len out w
        | true ↦ elim c [
          | true ↦ read_some sends read fsize again i len out (next_window fsize len w)
          | false ↦ error out (next_window fsize len w)
        ]
      ])
  Gave-window again total position i len out w false c r l p d n =
      read_some-Gave again total position i len out w r l p d n
  Gave-window again total position i len out w true true r l p d n =
      let (e, f) = next_window-kept fsize len w in
      read_some-Gave again total position i len out (next_window fsize len w) r l (f ∙ p) (e ∙ d) n
  Gave-window again total position i len out w true false r l p d n =
      let (e, f) = next_window-kept fsize len w in (omega (arith, l), f ∙ p)

  read_rounds-Gave :
      (total position n i len : ℕ) (out : List ℕ) (w : Window)
      → Reads read
      → len ≤ n
      → length out + len ≡ total
      → w.dd_position ≡ position + length out
      → w.dd_discard_length ≡ 0
      → Gave total position (read_rounds sends read fsize n i len out w)
  unfolding read_rounds read_round
  read_rounds-Gave total position n i zero out w r h l p d = (omega (arith, l), omega (arith, p, l))
  read_rounds-Gave total position zero i (suc len) out w r h l p d = absurd (omega (arith, h))
  read_rounds-Gave total position (suc n) i (suc len) out w r h l p d =
      Gave-window (read_rounds sends read fsize n (suc i)) total position i (suc len) out w
        (w.dd_bytes_left_to_read == 0) (sends i) r l p d
        (λ m o v lt s q e.
          read_rounds-Gave total position n (suc i) m o v r (omega (arith, h, lt)) s q e)

-- The loop that reads ends within as many rounds as there are bytes to read, when there is nothing to
-- discard: it returns success only when it has stored all the bytes asked for, and the position has
-- moved by the number of bytes stored in any case.
pub remote_read_ends :
    (sends : ℕ → Bool) (read : ℕ → ℕ → Option (List ℕ)) (fsize len : ℕ) (w : Window)
    → Reads read
    → w.dd_discard_length ≡ 0
    → Gave len w.dd_position (ndmpd_remote_read_v3 sends read fsize len w)
unfolding ndmpd_remote_read_v3
remote_read_ends sends read fsize len w r d =
    read_rounds-Gave sends read fsize len w.dd_position (len + w.dd_discard_length) 0 len [] w r
      (omega arith) (omega arith) (omega arith) d
