-- ===== src/Properties/Lines.antt =====
-- src/ndmpd_prop.c: what `setup` makes of one line of a file.
use ndmpd.Common.{
  ℕ, suc, ◌+◌, ◌≤◌, ◌<◌, ◌≡◌, inl, inr, refl, ap, ◌∙◌, true, false, ◌&&◌, List, [], ◌∷◌, ◌++◌, map,
  append-nil, append_assoc, arith, ltb, leb, ◌==◌, length, length-append, All, Bool-cases,
}
use ndmpd.Properties.{
  Table, loaded, overflow, Scan, tolower, is_skipped, scan_char, scan, store, after_scan,
  is_ignored, setup,
}

abbrev pub at_key : List ℕ → Scan
at_key k = record { key = k; value = []; is_key = true }

abbrev pub at_value : List ℕ → List ℕ → Scan
at_value k v = record { key = k; value = v; is_key = false }

-- a character that `setup` takes into a value
abbrev pub IsVisible : ℕ → Type 0
IsVisible c = is_skipped c ≡ false

-- one that it takes into a key
abbrev pub IsKeyChar : ℕ → Type 0
IsKeyChar c = (is_skipped c ≡ false) × ((c == b'=') ≡ false)

pub scan-key :
    (xs line k : List ℕ)
    → All IsKeyChar xs
    → length k + length xs ≤ 64
    → scan (xs ++ line) (at_key k) ≡ scan line (at_key (k ++ map tolower xs))
unfolding scan scan_char
scan-key [] line k h le = rw (append-nil k) refl
scan-key (x ∷ xs) line k ((v, e), h) le =
    let room : ltb (length k) 64 ≡ true = ground arith in
    let grown : length (k ++ (tolower x ∷ [])) + length xs ≤ 64 =
      omega (arith, length-append k (tolower x ∷ [])) in
    rw (v, e, room)
      (scan-key xs line (k ++ (tolower x ∷ [])) h grown
        ∙ ap (λ (r : List ℕ). scan line (at_key r))
            (append_assoc k (tolower x ∷ []) (map tolower xs)))

scan-value :
    (xs line k v : List ℕ)
    → All IsVisible xs
    → length v + length xs ≤ 65
    → scan (xs ++ line) (at_value k v) ≡ scan line (at_value k (v ++ xs))
unfolding scan scan_char
scan-value [] line k v h le = rw (append-nil v) refl
scan-value (x ∷ xs) line k v (e, h) le =
    let room : ltb (length v) 65 ≡ true = ground arith in
    let grown : length (v ++ (x ∷ [])) + length xs ≤ 65 = omega (arith, length-append v (x ∷ [])) in
    let off : ((x == b'=') && false) ≡ false = ground arith in
    rw (e, off, room)
      (scan-value xs line k (v ++ (x ∷ [])) h grown
        ∙ ap (λ (r : List ℕ). scan line (at_value k r)) (append_assoc v (x ∷ []) xs))

scan-key-overflow :
    (xs line k : List ℕ)
    → All IsKeyChar xs
    → length k ≤ 64
    → 64 < length k + length xs
    → scan (xs ++ line) (at_key k) ≡ overflow
unfolding scan scan_char
scan-key-overflow [] line k h le lt = absurd (omega (arith, lt))
scan-key-overflow (x ∷ xs) line k ((v, e), h) le lt = elim (Bool-cases (ltb (length k) 64)) [
  | inl room ↦
      let one : length (k ++ (tolower x ∷ [])) ≡ length k + 1 = length-append k (tolower x ∷ []) in
      rw (v, e, room)
        (scan-key-overflow xs line (k ++ (tolower x ∷ [])) h (ground (arith, one))
          (omega (arith, one, lt)))
  | inr full ↦ rw (v, e, full) refl
]

pub scan-value-overflow :
    (xs line k v : List ℕ)
    → All IsVisible xs
    → length v ≤ 65
    → 65 < length v + length xs
    → scan (xs ++ line) (at_value k v) ≡ overflow
unfolding scan scan_char
scan-value-overflow [] line k v h le lt = absurd (omega (arith, lt))
scan-value-overflow (x ∷ xs) line k v (e, h) le lt = elim (Bool-cases (ltb (length v) 65)) [
  | inl room ↦
      let one : length (v ++ (x ∷ [])) ≡ length v + 1 = length-append v (x ∷ []) in
      let off : ((x == b'=') && false) ≡ false = ground arith in
      rw (e, off, room)
        (scan-value-overflow xs line k (v ++ (x ∷ [])) h (ground (arith, one))
          (omega (arith, one, lt)))
  | inr full ↦ let off : ((x == b'=') && false) ≡ false = ground arith in rw (e, off, full) refl
]

-- a line as it stands in a file, with its newline
abbrev pub line_of : List ℕ → List ℕ → List ℕ
line_of key value = key ++ (b'=' ∷ value ++ (b'\n' ∷ []))

pub scan-equals :
    (k line : List ℕ) → length k < 64 → scan (b'=' ∷ line) (at_key k) ≡ scan line (at_value k [])
unfolding scan scan_char
scan-equals k line lt = let room : ltb (length k) 64 ≡ true = ground arith in rw room refl

scan-equals-overflow : (k line : List ℕ) → length k ≡ 64 → scan (b'=' ∷ line) (at_key k) ≡ overflow
unfolding scan scan_char
scan-equals-overflow k line e = let full : ltb (length k) 64 ≡ false = ground arith in rw full refl

pub length-lower : (k : List ℕ) → length (map tolower k) ≡ length k
length-lower [] = refl
length-lower (c ∷ k) = ap suc (length-lower k)

-- the line from its `=` on
pub scan-rest :
    (k value : List ℕ)
    → All IsVisible value
    → length value ≤ 65
    → scan (value ++ (b'\n' ∷ [])) (at_value k []) ≡ loaded (at_value k value)
unfolding scan scan_char
scan-rest k value h le = scan-value value (b'\n' ∷ []) k [] h (omega arith)

scan-line :
    (key value : List ℕ)
    → All IsKeyChar key
    → All IsVisible value
    → length key < 64
    → length value ≤ 65
    → scan (line_of key value) (at_key []) ≡ loaded (at_value (map tolower key) value)
scan-line key value h v lt le =
    scan-key key (b'=' ∷ value ++ (b'\n' ∷ [])) [] h (omega (arith, lt))
    ∙ (scan-equals (map tolower key) (value ++ (b'\n' ∷ [])) (omega (arith, lt, length-lower key))
        ∙ scan-rest (map tolower key) value v le)

-- A line of a key and a value sets the first property whose name begins with the key.
pub setup_lem :
    (key value : List ℕ) (table : Table)
    → All IsKeyChar key
    → All IsVisible value
    → length key < 64
    → length value ≤ 64
    → is_ignored (line_of key value) ≡ false
    → setup (line_of key value) table ≡ loaded (store (map tolower key) value table)
unfolding setup after_scan
setup_lem key value table h v lt le i =
    let fits : leb 65 (length value) ≡ false = ground arith in
    let kept : ltb 64 (length value) ≡ false = ground arith in
    rw (i, scan-line key value h v lt (omega arith), fits, kept) refl

pub scan-key-long :
    (key line : List ℕ)
    → All IsKeyChar key
    → 64 ≤ length key
    → scan (key ++ (b'=' ∷ line)) (at_key []) ≡ overflow
scan-key-long key line h le = elim (Bool-cases (leb (length key) 64)) [
  | inl e ↦
      let same : length key ≡ 64 = ground arith in
      scan-key key (b'=' ∷ line) [] h (omega (arith, same))
      ∙ scan-equals-overflow (map tolower key) line (omega (arith, same, length-lower key))
  | inr e ↦
      let more : 64 < length key = ground arith in
      scan-key-overflow key (b'=' ∷ line) [] h (omega arith) (omega (arith, more))
]
