-- ===== src/Properties/Bounds.antt =====
-- src/ndmpd_prop.c: for which lines `setup` leaves its arrays, or reads what was not written.
use ndmpd.Common.{
  ℕ, ◌+◌, ◌≤◌, ◌<◌, ◌≡◌, ◌↔◌, ◌⊎◌, inl, inr, refl, sym, ◌∙◌, true, false, List, [], ◌∷◌, ◌++◌, map,
  arith, ltb, leb, ◌==◌, length, length-append, All, Bool-cases,
}
use ndmpd.Properties.{
  Table, loaded, overflow, unterminated, ◌>>=◌, tolower, is_skipped, scan_char, scan, store,
  after_scan, is_ignored, setup,
}
use ndmpd.Properties.Lines.{
  at_key, at_value, IsVisible, IsKeyChar, line_of, scan-key, scan-equals, scan-rest, length-lower,
  scan-value-overflow, scan-key-long, setup_lem,
}

abbrev pub IsTooLong : List ℕ → List ℕ → Type 0
IsTooLong key value = (64 ≤ length key) ⊎ (65 ≤ length value)

scan-value-long :
    (key value : List ℕ) (table : Table)
    → All IsKeyChar key
    → All IsVisible value
    → length key < 64
    → 65 ≤ length value
    → (scan (line_of key value) (at_key []) >>= after_scan table) ≡ overflow
unfolding after_scan
scan-value-long key value table h v lt le =
    let start : scan (line_of key value) (at_key [])
        ≡ scan (value ++ (b'\n' ∷ [])) (at_value (map tolower key) []) =
      scan-key key (b'=' ∷ value ++ (b'\n' ∷ [])) [] h (omega (arith, lt))
      ∙ scan-equals (map tolower key) (value ++ (b'\n' ∷ []))
          (omega (arith, lt, length-lower key)) in
    rw start (elim (Bool-cases (leb (length value) 65)) [
      | inl e ↦
          let same : leb 65 (length value) ≡ true = ground arith in
          rw (scan-rest (map tolower key) value v (ground arith), same) refl
      | inr e ↦
          rw
            (scan-value-overflow value (b'\n' ∷ []) (map tolower key) [] v (omega arith)
              (ground arith))
            refl
    ])

setup-IsTooLong :
    (key value : List ℕ) (table : Table)
    → All IsKeyChar key
    → All IsVisible value
    → is_ignored (line_of key value) ≡ false
    → IsTooLong key value
    → setup (line_of key value) table ≡ overflow
unfolding setup
setup-IsTooLong key value table h v i (inl le) =
    rw (i, scan-key-long key (value ++ (b'\n' ∷ [])) h le) refl
setup-IsTooLong key value table h v i (inr le) = elim (Bool-cases (leb 64 (length key))) [
  | inl e ↦ rw (i, scan-key-long key (value ++ (b'\n' ∷ [])) h (ground arith)) refl
  | inr e ↦ rw (i, scan-value-long key value table h v (ground arith) le) refl
]

loaded-ne : (t : Table) → ¬ (loaded t ≡ overflow)
loaded-ne t e = cc

-- A line of a key and a value of visible characters makes `setup` write behind one of its arrays just
-- when the key has 64 characters or more or the value 65 or more: no such line is refused.
pub setup-overflow_iff :
    (key value : List ℕ) (table : Table)
    → All IsKeyChar key
    → All IsVisible value
    → is_ignored (line_of key value) ≡ false
    → (setup (line_of key value) table ≡ overflow) ↔ IsTooLong key value
setup-overflow_iff key value table h v i = (
  λ e. elim (Bool-cases (ltb (length key) 64)) [
    | inr a ↦ inl (ground arith)
    | inl a ↦ elim (Bool-cases (leb (length value) 64)) [
      | inr b ↦ inr (ground arith)
      | inl b ↦ absurd (
          loaded-ne (store (map tolower key) value table)
            (sym (setup_lem key value table h v (ground arith) (ground arith) i) ∙ e))
    ]
  ],
  setup-IsTooLong key value table h v i,
)

abbrev pub NoEquals : List ℕ → Type 0
NoEquals line = All (λ c. (c == b'=') ≡ false) line

scan-NoEquals :
    (line k : List ℕ)
    → NoEquals line
    → length k + length line ≤ 64
    → (r : List ℕ) × (scan line (at_key k) ≡ loaded (at_key r))
unfolding scan scan_char
scan-NoEquals [] k h le = (k, refl)
scan-NoEquals (c ∷ line) k (e, h) le = elim (Bool-cases (is_skipped c)) [
  | inl s ↦ rw s (scan-NoEquals line k h (omega arith))
  | inr s ↦
      let room : ltb (length k) 64 ≡ true = ground arith in
      let grown : length (k ++ (tolower c ∷ [])) + length line ≤ 64 =
        omega (arith, length-append k (tolower c ∷ [])) in
      rw (s, e, room) (scan-NoEquals line (k ++ (tolower c ∷ [])) h grown)
]

-- After a line of at most 64 characters that is not skipped and has no equals sign, `setup` compares
-- the names with a key that has no NUL, whatever else stands in the line.
pub setup-unterminated :
    (line : List ℕ) (table : Table)
    → NoEquals line
    → length line ≤ 64
    → is_ignored line ≡ false
    → setup line table ≡ unterminated
unfolding setup after_scan
setup-unterminated line table h le i =
    let (r, e) = scan-NoEquals line [] h (omega (arith, le)) in rw (i, e) refl
