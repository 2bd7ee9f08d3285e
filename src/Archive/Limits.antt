-- ===== src/Archive/Limits.antt =====
-- Where a backup does not end, and where a restore leaves its arrays.
use ndmpd.Common.{
  ℕ, zero, suc, ◌+◌, ◌-◌, ◌≤◌, ◌<◌, ◌≡◌, ◌↔◌, inl, inr, refl, ap, true, false, List, [], ◌∷◌,
  Option, none, arith, ltb, ◌==◌, if◌then◌else◌, length, length-drop, length-take_le, take, drop,
  Bool-cases,
}
use ndmpd.Base64.{Outcome, done, null, overflow, overread, ◌>>=◌}
use ndmpd.Archive.Writer.{Stat}
use ndmpd.Archive.Objects.{output_sections, before}
use ndmpd.Archive.Reader.{get_long_name, on_longname}
use ndmpd.Archive.Variables.{Vars, input_mem}

-- what is left of a file and of what can be read of it
still_short :
    (size n : ℕ) (content : List ℕ)
    → length content < n
    → length (drop size content) < n - length (take size content)
still_short size n content lt =
    omega (arith, lt, length-drop size content, (length-take_le size content).1, taken size content)
  where
    taken : (k : ℕ) (s : List ℕ) → length (take k s) + (length s - k) ≤ length s
    taken zero s = omega arith
    taken (suc k) [] = omega arith
    taken (suc k) (x ∷ s) = omega (arith, taken k s)

module _ (getpwuid getgrgid : ℕ → Option (List ℕ)) (max_path image : ℕ) (fill : ℕ → ℕ) where
  -- A file of which less can be read than its size said makes the loop over the sections go on for any
  -- number of rounds.
  pub shrunk_file-goes_on :
      (f count : ℕ) (path : List ℕ) (attr : Stat) (section file_size : ℕ) (content : List ℕ)
      → length content < file_size
      → output_sections getpwuid getgrgid max_path image fill f count path attr section file_size
          content
        ≡ none
  unfolding output_sections before
  shrunk_file-goes_on zero count path attr section file_size content lt = refl
  shrunk_file-goes_on (suc f) count path attr section file_size content lt =
      let size = if ltb file_size image then file_size else image in
      let more : (file_size == 0) ≡ false = ground (arith, lt) in
      rw more (
        ap (before _) (
          shrunk_file-goes_on f _ path attr (section + 1) (file_size - length (take size content))
            (drop size content) (still_short size file_size content lt)))

done-ne {ℓ} : {A : Type ℓ} {a : A} → ¬ (done a ≡ overflow)
done-ne e = cc

-- a result that only passes an overrun on
done-overflow_iff {ℓ κ} :
    {A : Type ℓ} {B : Type κ} (r : Outcome A) (g : A → B)
    → ((r >>= λ (a : A). done (g a)) ≡ overflow) ↔ (r ≡ overflow)
done-overflow_iff (done a) g = (λ e. absurd (done-ne e), λ e. absurd (done-ne e))
done-overflow_iff null g = (λ e. cc, λ e. cc)
done-overflow_iff overflow g = (λ e. refl, λ e. refl)
done-overflow_iff overread g = (λ e. cc, λ e. cc)

-- how many bytes are read
length-mem :
    (n : ℕ) (archive : List ℕ)
    → length (take n archive) ≡ (if ltb n (length archive) then n else length archive)
length-mem zero [] = refl
length-mem zero (x ∷ a) = ground arith
length-mem (suc n) [] = ground arith
length-mem (suc n) (x ∷ a) = ground (arith, length-mem n a)

module _ (max_path acl_room : ℕ) where
  get_long_name-overflow_iff :
      (recsize buf_spot : ℕ) (name archive : List ℕ)
      → (get_long_name max_path acl_room recsize name buf_spot archive ≡ overflow)
        ↔ (max_path ≤ buf_spot + length (take recsize archive))
  unfolding get_long_name input_mem
  get_long_name-overflow_iff recsize buf_spot name archive =
      elim (Bool-cases (ltb (buf_spot + length (take recsize archive)) max_path)) [
        | inl e ↦ (rw e (λ q. absurd (done-ne q)), λ le. absurd (omega (arith, less_of e, le)))
        | inr e ↦ (λ q. ground (arith, e), λ le. rw e refl)
      ]
    where
      less_of : {a b : ℕ} → ltb a b ≡ true → a < b
      less_of e = ground arith

  -- a record of a long name, as long as the rest of its array
  fills_iff :
      (n file_size : ℕ) (archive : List ℕ)
      → n < max_path
      → (max_path
          ≤ n
            + length
                (take (if ltb file_size (max_path - n) then file_size else max_path - n) archive))
        ↔ ((max_path - n ≤ file_size) × (max_path - n ≤ length archive))
  fills_iff n file_size archive lt =
      rw (length-mem (if ltb file_size (max_path - n) then file_size else max_path - n) archive)
        (λ le. (ground (arith, le, lt), ground (arith, le, lt)), λ h. ground (arith, h.0, h.1, lt))

  -- The record of a long name overruns the array exactly when its size and what the archive still holds
  -- are both at least the room that the array has left: the room is not made smaller by the NUL.
  pub longname-overflow_iff :
      (v : Vars) (archive : List ℕ)
      → v.nm_end < max_path
      → (on_longname max_path acl_room v archive ≡ overflow)
        ↔ ((max_path - v.nm_end ≤ v.file_size) × (max_path - v.nm_end ≤ length archive))
  unfolding on_longname
  longname-overflow_iff v archive lt =
      let room = max_path - v.nm_end in
      let size = if ltb v.file_size room then v.file_size else room in
      let passed =
        done-overflow_iff (get_long_name max_path acl_room size v.longname v.nm_end archive) _ in
      let overrun = get_long_name-overflow_iff size v.nm_end v.longname archive in
      let full = fills_iff v.nm_end v.file_size archive lt in
      (λ e. full.0 (overrun.0 (passed.0 e)), λ h. passed.1 (overrun.1 (full.1 h)))
