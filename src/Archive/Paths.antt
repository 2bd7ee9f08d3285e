-- ===== src/Archive/Paths.antt =====
-- tlm/tlm_restore_writer.c: the paths that the arrays of names can keep.
use ndmpd.Common.{
  ℕ, ◌^◌, ◌<◌, ◌≡◌, ◌≢◌, inl, inr, refl, ap, ◌∙◌, true, false, List, [], ◌∷◌, Option, arith, ◌==◌,
  if◌then◌else◌, length, take, take_all, Bool-cases,
}
use ndmpd.Base64.{Outcome, done, ◌>>=◌}
use ndmpd.Archive.Fields.{IsPlain}
use ndmpd.Archive.Writer.{is_long}
use ndmpd.Archive.Reader.{on_file, normal_name, on_normal}
use ndmpd.Archive.Variables.{Vars, View, or_else, c_text, with_slash, clear_names}
use ndmpd.Archive.LongNames.{Holds, held}

abbrev pub IsRooted : List ℕ → Type 0
IsRooted [] = ⊥
IsRooted (c ∷ s) = c ≡ b'/'

-- a path that a name's buffer holds
pub record IsPath (max_path : ℕ) (s : List ℕ) : Type 0 where
  pub is_plain : IsPlain s
  pub fits : length s < max_path
  pub small : length s < 2 ^ 31
  pub rooted : IsRooted s

pub c_text-plain : (s : List ℕ) → IsPlain s → c_text s ≡ s
unfolding c_text
c_text-plain [] h = refl
c_text-plain (c ∷ s) (e, h) = rw (e, c_text-plain s h) refl

-- what a record of an object has of a name: a made-up one, or the name itself
abbrev pub in_record : List ℕ → List ℕ → List ℕ
in_record made s = if is_long s then made else take 99 s

pub short_lem : (s : List ℕ) → is_long s ≡ false → (length s < 100) × (take 99 s ≡ s)
short_lem s e = let lt : length s < 100 = ground arith in (lt, take_all 99 s (omega (arith, lt)))

-- the name that is held, or else the one in the record
pub chosen :
    (s made t held_now : List ℕ) (o : Outcome (List ℕ))
    → IsPlain s
    → s ≢ []
    → t ≡ in_record made s
    → held_now ≡ held s
    → (IsPlain t → length t < 100 → o ≡ done t)
    → or_else (c_text held_now) o ≡ done s
chosen [] made t held_now o p n e f k = absurd (n refl)
chosen (c ∷ s) made t held_now o p n e f k = elim (Bool-cases (is_long (c ∷ s))) [
  | inl long ↦
      let now : held_now ≡ c ∷ s = f ∙ (rw long refl) in rw (now, c_text-plain (c ∷ s) p) refl
  | inr short ↦
      let (lt, whole) = short_lem (c ∷ s) short in
      let now : held_now ≡ [] = f ∙ (rw short refl) in
      let same : t ≡ c ∷ s = e ∙ (rw short whole) in
      let seen : o ≡ done t = k (rw same p) (rw same lt) in
      rw now (unfold c_text in seen ∙ ap (λ (r : List ℕ). done r) same)
]

pub rooted-ne : (s : List ℕ) → IsRooted s → s ≢ []
rooted-ne [] h e = h
rooted-ne (c ∷ s) h e = cc

pub with_slash-rooted : (s : List ℕ) → IsRooted s → with_slash s ≡ s
unfolding with_slash
with_slash-rooted [] h = absurd h
with_slash-rooted (c ∷ s) h = let e : (c == b'/') ≡ true = ground arith in rw e refl

pub clear_names-Holds :
    (v : Vars) (name link : List ℕ) → Holds v name link → Holds (clear_names v) [] []
clear_names-Holds v name link h = record {
  holds_name = refl;
  name_end = refl;
  holds_link = refl;
  link_end = refl;
  no_hugename = h.no_hugename;
  no_huge_size = h.no_huge_size;
  one_volume = h.one_volume;
}

pub on_normal-named :
    (max_path acl_room : ℕ) (v : Vars) (w : View) (inode : Option ℕ) (name archive : List ℕ)
    → normal_name max_path acl_room v.hugename v.longname w.name ≡ done name
    → on_normal max_path acl_room v w inode archive ≡ on_file max_path acl_room v name inode archive
unfolding on_normal
on_normal-named max_path acl_room v w inode name archive e =
    ap (λ (r : Outcome (List ℕ)). r >>= λ (n : List ℕ). on_file max_path acl_room v n inode archive)
      e
