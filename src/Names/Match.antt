-- ===== src/Names/Match.antt =====
-- tlm/tlm_util.c, `match`, against the rules that the comment above it states.
use ndmpd.Common.{
  ℕ, ◌≡◌, ◌≢◌, ◌↔◌, ◌⊎◌, inl, inr, refl, Bool, true, false, List, [], ◌∷◌, ◌++◌, ◌==◌,
  if◌then◌else◌, arith, Bool-cases, drop, some, All, sym, ◌∙◌, ==_refl,
}
use native.Mathlib.Decide.{ℕ_discrete}
use ndmpd.Names.{
  is_nil, any_char, star, one_char, match_from, match, excluded_by, names_directory,
  tlm_is_excluded,
}

abbrev pub starred : List ℕ → Bool
starred [] = false
starred (c ∷ p) = c == b'*'

-- The rules: `?` stands for one character, `*` for any string, the empty one included, and another
-- character for itself.
pub data Matches : List ℕ → List ℕ → Type 0 where
  end : Matches [] []
  any : {c x : ℕ} {p s : List ℕ} → c ≡ b'?' → Matches p s → Matches (c ∷ p) (x ∷ s)
  skip : {c : ℕ} {p s : List ℕ} → c ≡ b'*' → Matches p s → Matches (c ∷ p) s
  more : {c x : ℕ} {p s : List ℕ} → c ≡ b'*' → Matches (c ∷ p) s → Matches (c ∷ p) (x ∷ s)
  same :
      {c x : ℕ} {p s : List ℕ} → c ≢ b'?' → c ≢ b'*' → x ≡ c → Matches p s → Matches (c ∷ p) (x ∷ s)

all_of_it : (c : ℕ) (s : List ℕ) → c ≡ b'*' → Matches (c ∷ []) s
all_of_it c [] e = skip e end
all_of_it c (x ∷ s) e = more e (all_of_it c s e)

-- The loop at `*` finds a suffix at which the rest of the pattern matches.
star-Matches :
    (c : ℕ) (p : List ℕ)
    → ((s : List ℕ) → match p s ≡ true → Matches p s)
    → c ≡ b'*'
    → (s : List ℕ) → star (match p) s ≡ true
    → Matches (c ∷ p) s
unfolding star
star-Matches c p ih e [] h = absurd (cc)
star-Matches c p ih e (x ∷ s) h = elim (Bool-cases (match p (x ∷ s))) [
  | inl m ↦ skip e (ih (x ∷ s) m)
  | inr m ↦ more e (star-Matches c p ih e s (ground arith))
]

match-any : (c : ℕ) (p s : List ℕ) → c ≡ b'?' → match (c ∷ p) s ≡ any_char (match p) s
unfolding match match_from
match-any c p s e = ground arith

match-star :
    (c : ℕ) (p s : List ℕ)
    → c ≡ b'*'
    → match (c ∷ p) s ≡ (if is_nil p then true else star (match p) s)
unfolding match match_from
match-star c p s e = ground arith

match-one : (c : ℕ) (p s : List ℕ) → c ≢ b'?' → c ≢ b'*' → match (c ∷ p) s ≡ one_char (match p) c s
unfolding match match_from
match-one c p s n m = ground arith

any-Matches :
    (c : ℕ) (p s : List ℕ)
    → ((s : List ℕ) → match p s ≡ true → Matches p s)
    → c ≡ b'?'
    → any_char (match p) s ≡ true
    → Matches (c ∷ p) s
unfolding any_char
any-Matches c p [] ih e h = absurd (cc)
any-Matches c p (x ∷ s) ih e h = any e (ih s h)

one-Matches :
    (c : ℕ) (p s : List ℕ)
    → ((s : List ℕ) → match p s ≡ true → Matches p s)
    → c ≢ b'?'
    → c ≢ b'*'
    → one_char (match p) c s ≡ true
    → Matches (c ∷ p) s
unfolding one_char
one-Matches c p [] ih n m h = absurd (cc)
one-Matches c p (x ∷ s) ih n m h = same n m (ground arith) (ih s (ground arith))

last-Matches :
    (c : ℕ) (p s : List ℕ)
    → ((s : List ℕ) → match p s ≡ true → Matches p s)
    → c ≡ b'*'
    → (if is_nil p then true else star (match p) s) ≡ true
    → Matches (c ∷ p) s
last-Matches c [] s ih e h = all_of_it c s e
last-Matches c (d ∷ p) s ih e h = star-Matches c (d ∷ p) ih e s h

-- What `match` accepts, matches by the rules.
match_sound : (p s : List ℕ) → match p s ≡ true → Matches p s
unfolding match
match_sound [] [] h = end
match_sound [] (x ∷ s) h = absurd (cc)
match_sound (c ∷ p) s h = elim (ℕ_discrete c b'?') [
  | yes e ↦ any-Matches c p s (match_sound p) e (sym (match-any c p s e) ∙ h)
  | no n ↦ elim (ℕ_discrete c b'*') [
    | yes e ↦ last-Matches c p s (match_sound p) e (sym (match-star c p s e) ∙ h)
    | no m ↦ one-Matches c p s (match_sound p) n m (sym (match-one c p s n m) ∙ h)
  ]
]

-- no two stars in a row
abbrev pub NoStars : List ℕ → Type 0
NoStars [] = Unit
NoStars (c ∷ p) = ((c ≡ b'*') → starred p ≡ false) × NoStars p

-- A pattern that is not empty and does not begin with a star matches no empty string.
nonempty : (p : List ℕ) → is_nil p ≡ false → starred p ≡ false → Matches p [] → ⊥
nonempty [] n st m = cc
nonempty (c ∷ p) n st (skip e m) = ground arith

star_complete :
    (c : ℕ) (p s : List ℕ)
    → ((s : List ℕ) → Matches p s → match p s ≡ true)
    → c ≡ b'*'
    → is_nil p ≡ false
    → starred p ≡ false
    → Matches (c ∷ p) s
    → star (match p) s ≡ true
unfolding star
star_complete c p [] ih e n st (skip e' m) = absurd (nonempty p n st m)
star_complete c p (x ∷ s) ih e n st (any a m) = absurd (omega arith)
star_complete c p (x ∷ s) ih e n st (skip e' m) = rw (ih (x ∷ s) m)
star_complete c p (x ∷ s) ih e n st (more e' m) = ground (arith, star_complete c p s ih e n st m)
star_complete c p (x ∷ s) ih e n st (same a b d m) = absurd (b e)

tail_complete :
    (c : ℕ) (p s : List ℕ)
    → ((s : List ℕ) → Matches p s → match p s ≡ true)
    → c ≡ b'*'
    → starred p ≡ false
    → Matches (c ∷ p) s
    → (if is_nil p then true else star (match p) s) ≡ true
tail_complete c [] s ih e st m = refl
tail_complete c (d ∷ p) s ih e st m = star_complete c (d ∷ p) s ih e refl st m

any_complete :
    (c : ℕ) (p s : List ℕ)
    → ((s : List ℕ) → Matches p s → match p s ≡ true)
    → c ≡ b'?'
    → Matches (c ∷ p) s
    → any_char (match p) s ≡ true
unfolding any_char
any_complete c p (x ∷ s) ih e (any a m) = ih s m
any_complete c p s ih e (skip a m) = absurd (omega arith)
any_complete c p (x ∷ s) ih e (more a m) = absurd (omega arith)
any_complete c p (x ∷ s) ih e (same a b d m) = absurd (a e)

one_complete :
    (c : ℕ) (p s : List ℕ)
    → ((s : List ℕ) → Matches p s → match p s ≡ true)
    → c ≢ b'?'
    → c ≢ b'*'
    → Matches (c ∷ p) s
    → one_char (match p) c s ≡ true
unfolding one_char
one_complete c p (x ∷ s) ih n k (any a m) = absurd (n a)
one_complete c p s ih n k (skip a m) = absurd (k a)
one_complete c p (x ∷ s) ih n k (more a m) = absurd (k a)
one_complete c p (x ∷ s) ih n k (same a b d m) = ground (arith, ih s m)

-- What matches by the rules is accepted, for a pattern without two stars in a row.
match_complete : (p s : List ℕ) → NoStars p → Matches p s → match p s ≡ true
unfolding match
match_complete [] [] ns m = refl
match_complete [] (x ∷ s) ns m = elim (nothing s m) [ ]
  where
    nothing : {x : ℕ} (s : List ℕ) → Matches [] (x ∷ s) → ⊥
    nothing s m = elim m [ ]
match_complete (c ∷ p) s ns m =
    let ih : (t : List ℕ) → Matches p t → match p t ≡ true = λ t u. match_complete p t ns.1 u in
    elim (ℕ_discrete c b'?') [
      | yes e ↦ match-any c p s e ∙ any_complete c p s ih e m
      | no n ↦ elim (ℕ_discrete c b'*') [
        | yes e ↦ match-star c p s e ∙ tail_complete c p s ih e (ns.0 e) m
        | no k ↦ match-one c p s n k ∙ one_complete c p s ih n k m
      ]
    ]

-- For a pattern without two stars in a row, `match` accepts a string exactly when it matches by the
-- rules.
pub match_iff : (p s : List ℕ) → NoStars p → (match p s ≡ true) ↔ Matches p s
match_iff p s ns = (match_sound p s, match_complete p s ns)

abbrev pub IsPlain : ℕ → Type 0
IsPlain c = (c ≢ b'?') × (c ≢ b'*')

abbrev pub two_stars : List ℕ → List ℕ
two_stars s = s ++ (b'*' ∷ b'*' ∷ [])

-- A text without `?` and `*` matches, by the rules, itself followed by two stars, and `match` refuses
-- it.
match-two_stars :
    (s : List ℕ) → All IsPlain s → Matches (two_stars s) s × (match (two_stars s) s ≡ false)
unfolding match match_from star
match-two_stars [] h = (skip refl (skip refl end), refl)
match-two_stars (c ∷ s) h =
    let (m, e) = match-two_stars s h.1 in
    (same h.0.0 h.0.1 refl m, match-one c (two_stars s) (c ∷ s) h.0.0 h.0.1 ∙ rw (==_refl c) e)

-- some entry matches, by the rules, the directory or the name, as its mark says
abbrev pub Excluded : List ℕ → List ℕ → List (List ℕ) → Type 0
Excluded dir name [] = ⊥
Excluded dir name (e ∷ excles) =
    Matches (drop 2 e) (if names_directory e then dir else name) ⊎ Excluded dir name excles

excluded_by_iff :
    (dir name : List ℕ) (excles : List (List ℕ))
    → All (λ e. NoStars (drop 2 e)) excles
    → (excluded_by dir name excles ≡ true) ↔ Excluded dir name excles
unfolding excluded_by
excluded_by_iff dir name [] ns = (λ h. cc, λ h. absurd h)
excluded_by_iff dir name (e ∷ excles) ns =
    let (to, from) = excluded_by_iff dir name excles ns.1 in
    let target = if names_directory e then dir else name in
    let (here, back) = match_iff (drop 2 e) target ns.0 in
    (
      λ h. elim (Bool-cases (match (drop 2 e) target)) [
        | inl m ↦ inl (here m)
        | inr m ↦ inr (to (ground arith))
      ],
      λ h. elim h [ inl m ↦ rw (back m) | inr r ↦ ground (arith, from r) ],
    )

-- With entries whose patterns have no two stars in a row, a file is left out exactly when some entry
-- matches by the rules: one marked `d_` its directory, any other its name.
tlm_is_excluded_iff :
    (dir name : List ℕ) (excles : List (List ℕ))
    → All (λ e. NoStars (drop 2 e)) excles
    → (tlm_is_excluded (some dir) (some name) (some excles) ≡ true) ↔ Excluded dir name excles
unfolding tlm_is_excluded
tlm_is_excluded_iff dir name excles ns = excluded_by_iff dir name excles ns
