-- ===== src/Selection/Joined.antt =====
-- src/ndmpd_tar_v3.c: words that are joined are split again by `split_env`.
use ndmpd.Common.{
  ==_refl, if-cases, ℕ, ◌+◌, ◌≡◌, ◌≢◌, refl, sym, ap, ◌∙◌, Bool, true, false, ◌||◌, List, [], ◌∷◌,
  ◌++◌, ltb, ◌==◌, if◌then◌else◌, Option, none, some, arith, All, append_assoc, append-nil,
}
use ndmpd.DumpDates.Dates.{skip_spaces}
use ndmpd.Selection.{
  is_cons, add_word, split_words, count_seps, slots, no_words, words, written, some_words, checked,
  split_env,
}
use ndmpd.Selection.Words.{tame, Fits, split_words-first}

-- a character as it is written in a word
unfoldable pub escaped : ℕ → ℕ → List ℕ
escaped sep c =
    if c == b'\n'
    then b'\\' ∷ b'n' ∷ []
    else if c == b'\t'
    then b'\\' ∷ b't' ∷ []
    else if c == sep || c == b'\\'
    then b'\\' ∷ c ∷ []
    else c ∷ []

unfoldable pub escaped_word : ℕ → List ℕ → List ℕ
unfolding escaped
escaped_word sep [] = []
escaped_word sep (c ∷ w) = escaped sep c ++ escaped_word sep w

unfoldable pub joined : ℕ → List (List ℕ) → List ℕ
unfolding escaped_word
joined sep [] = []
joined sep (w ∷ []) = escaped_word sep w
joined sep (w ∷ v ∷ ws) = escaped_word sep w ++ (sep ∷ joined sep (v ∷ ws))

-- separators that are no letters of an escape, and no white space
abbrev pub IsSeparator : ℕ → Type 0
IsSeparator sep = (sep ≢ b'\\') × (sep ≢ b'n') × (sep ≢ b't') × (sep ≢ b'\n') × (sep ≢ b'\t')

split_words-escaped :
    (sep c : ℕ) (acc s : List ℕ)
    → IsSeparator sep
    → split_words sep false acc (escaped sep c ++ s) ≡ split_words sep false (acc ++ (c ∷ [])) s
unfolding split_words escaped
split_words-escaped sep c acc s (ne, nn, nt, nl, tb) =
    let k : (b'\\' == sep) ≡ false = ground (arith, ne) in
    if-cases
      (λ (r : List ℕ).
        split_words sep false acc (r ++ s) ≡ split_words sep false (acc ++ (c ∷ [])) s)
      (c == b'\n')
      (λ e.
        rw (k, split_words)
          (ap (λ (x : ℕ). split_words sep false (acc ++ (x ∷ [])) s) (ground (arith, e))))
      (λ e.
        if-cases
          (λ (r : List ℕ).
            split_words sep false acc (r ++ s) ≡ split_words sep false (acc ++ (c ∷ [])) s)
          (c == b'\t')
          (λ f.
            rw (k, split_words)
              (ap (λ (x : ℕ). split_words sep false (acc ++ (x ∷ [])) s) (ground (arith, f))))
          (λ f.
            if-cases
              (λ (r : List ℕ).
                split_words sep false acc (r ++ s) ≡ split_words sep false (acc ++ (c ∷ [])) s)
              (c == sep || c == b'\\')
              (λ g.
                rw (k, split_words)
                  (ap (λ (x : ℕ). split_words sep false (acc ++ (x ∷ [])) s)
                    (ground (arith, g, nn, nt))))
              (λ g.
                let a : (c == sep) ≡ false = ground (arith, g) in
                let b : (c == b'\\') ≡ false = ground (arith, g) in rw (a, split_words, b) refl)))

split_words-word :
    (sep : ℕ) (w acc s : List ℕ)
    → IsSeparator sep
    → split_words sep false acc (escaped_word sep w ++ s) ≡ split_words sep false (acc ++ w) s
unfolding escaped_word
split_words-word sep [] acc s h = ap (λ a. split_words sep false a s) (sym (append-nil acc))
split_words-word sep (c ∷ w) acc s h =
    ap (λ r. split_words sep false acc r) (append_assoc (escaped sep c) (escaped_word sep w) s)
    ∙ split_words-escaped sep c acc (escaped_word sep w ++ s) h
    ∙ split_words-word sep w (acc ++ (c ∷ [])) s h
    ∙ ap (λ a. split_words sep false a s) (append_assoc acc (c ∷ []) w)

abbrev pub AllWords : List (List ℕ) → Type 0
AllWords ws = All (λ w. is_cons w ≡ true) ws

word_end :
    (sep : ℕ) (w : List ℕ) → is_cons w ≡ true → split_words sep false w [] ≡ some (w ∷ [], true)
unfolding split_words
word_end sep [] h = absurd (cc)
word_end sep (c ∷ w) h = refl

no_end : (sep : ℕ) (r : List (List ℕ)) → split_words sep false [] [] ≡ some (r, true) → ⊥
unfolding split_words
no_end sep r e = cc

word_added : (w : List ℕ) (ws : List (List ℕ)) → is_cons w ≡ true → add_word w ws ≡ w ∷ ws
word_added [] ws h = absurd (cc)
word_added (c ∷ w) ws h = refl

split_words-joined :
    (sep : ℕ) (w : List ℕ) (ws : List (List ℕ))
    → IsSeparator sep
    → AllWords (w ∷ ws)
    → split_words sep false [] (joined sep (w ∷ ws)) ≡ some (w ∷ ws, true)
unfolding joined split_words
split_words-joined sep w [] h (a, b) =
    ap (λ r. split_words sep false [] r) (sym (append-nil (escaped_word sep w)))
    ∙ split_words-word sep w [] [] h
    ∙ word_end sep w a
split_words-joined sep w (v ∷ ws) h (a, b) =
    let e : (sep == sep) ≡ true = ==_refl sep in
    split_words-word sep w [] (sep ∷ joined sep (v ∷ ws)) h
    ∙ rw (e, split_words, split_words-joined sep v ws h b)
        (ap (λ r. some (r, true)) (word_added w (v ∷ ws) a))

-- a word without a backslash
abbrev pub Bare : List ℕ → Type 0
Bare w = All (λ c. (c == b'\\') ≡ false) w

tame-escaped :
    (sep c : ℕ) (s : List ℕ) → (c == b'\\') ≡ false → tame false (escaped sep c ++ s) ≡ tame false s
unfolding escaped
tame-escaped sep c s h =
    if-cases (λ (r : List ℕ). tame false (r ++ s) ≡ tame false s) (c == b'\n') (λ e. refl)
      (λ e.
        if-cases (λ (r : List ℕ). tame false (r ++ s) ≡ tame false s) (c == b'\t') (λ f. refl)
          (λ f.
            if-cases (λ (r : List ℕ). tame false (r ++ s) ≡ tame false s) (c == sep || c == b'\\')
              (λ g. rw h refl) (λ g. rw h refl)))

tame-word : (sep : ℕ) (w s : List ℕ) → Bare w → tame false (escaped_word sep w ++ s) ≡ tame false s
unfolding escaped_word
tame-word sep [] s h = refl
tame-word sep (c ∷ w) s (n, h) =
    ap (λ r. tame false r) (append_assoc (escaped sep c) (escaped_word sep w) s)
    ∙ tame-escaped sep c (escaped_word sep w ++ s) n
    ∙ tame-word sep w s h

tame-joined :
    (sep : ℕ) (ws : List (List ℕ)) → sep ≢ b'\\' → All Bare ws → tame false (joined sep ws) ≡ true
unfolding joined
tame-joined sep [] ne h = refl
tame-joined sep (w ∷ []) ne (b, h) =
    ap (λ r. tame false r) (sym (append-nil (escaped_word sep w))) ∙ tame-word sep w [] b
tame-joined sep (w ∷ v ∷ ws) ne (b, h) =
    let n : (sep == b'\\') ≡ false = ground (arith, ne) in
    tame-word sep w (sep ∷ joined sep (v ∷ ws)) b ∙ rw n (tame-joined sep (v ∷ ws) ne h)

checked-words :
    (n : ℕ) (o : Option (List (List ℕ) × Bool)) (w : List ℕ) (ws : List (List ℕ))
    → o ≡ some (w ∷ ws, true)
    → Fits n o
    → checked (n + 2) o ≡ words (w ∷ ws)
unfolding checked
checked-words n none w ws e f = absurd f
checked-words n (some r) w ws e f =
    let le : ltb (n + 2) (written r) ≡ false = ground (arith, f) in
    rw le (ap (λ o. some_words (words_or o)) e)
  where
    words_or : Option (List (List ℕ) × Bool) → List (List ℕ)
    words_or none = []
    words_or (some q) = q.0

-- Words that are not empty and hold no backslash, one at least, are split again by `split_env` when
-- they are joined by the separator, with separators, newlines and tabs escaped, the text begins with no
-- white space, and the separator is none of the characters that the escapes need.
pub split_env-joined :
    (sep : ℕ) (w : List ℕ) (ws : List (List ℕ))
    → IsSeparator sep
    → AllWords (w ∷ ws)
    → All Bare (w ∷ ws)
    → skip_spaces (joined sep (w ∷ ws)) ≡ joined sep (w ∷ ws)
    → split_env sep (joined sep (w ∷ ws)) ≡ words (w ∷ ws)
unfolding split_env
split_env-joined sep w ws h a b k =
    let t : List ℕ = joined sep (w ∷ ws) in
    ap (λ s. if is_cons s then checked (slots sep s) (split_words sep false [] s) else no_words) k
    ∙ go t (split_words-joined sep w ws h a) (tame-joined sep (w ∷ ws) h.0 b)
  where
    go :
        (s : List ℕ)
        → split_words sep false [] s ≡ some (w ∷ ws, true)
        → tame false s ≡ true
        → (if is_cons s then checked (slots sep s) (split_words sep false [] s) else no_words)
          ≡ words (w ∷ ws)
    go [] e m = absurd (no_end sep (w ∷ ws) e)
    go (c ∷ s) e m =
        unfold slots in
        (checked-words (count_seps sep c s) (split_words sep false [] (c ∷ s)) w ws e
          (split_words-first sep c s h.0 m))
