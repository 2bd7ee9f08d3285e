-- ===== src/Archive/Steps.antt =====
-- Rounds of `tar_getdir`, one after the other, as a relation, and its loop.
use ndmpd.Common.{
  ℕ, zero, suc, ◌+◌, ◌-◌, ◌≤◌, ◌<◌, ◌≡◌, refl, sym, ap, ◌∙◌, Bool, true, false, ◌&&◌, not, List, [],
  ◌++◌, append_assoc, some, arith, ltb, if◌then◌else◌, length, length-append, take, drop,
}
use ndmpd.Base64.{done}
use ndmpd.Archive.{Header, header_bytes, round_up}
use ndmpd.Archive.Headers.{length-header_bytes, take-field, drop_first}
use ndmpd.Archive.Reader.{on_record, round, rounds}
use ndmpd.Archive.Variables.{Vars, Action, after_round, before_all}
use ndmpd.Archive.Writer.{output_mem, stale}

length-stale : (fill : ℕ → ℕ) (n : ℕ) → length (stale fill n) ≡ n
unfolding stale
length-stale fill zero = refl
length-stale fill (suc n) = ap suc (length-stale fill n)

-- What `output_mem` puts out is read back, and the bytes that fill its last record are left out.
pub take-output_mem :
    (fill : ℕ → ℕ) (s rest : List ℕ) → take (length s) (output_mem fill s ++ rest) ≡ s
unfolding output_mem
take-output_mem fill s rest =
    let pad = stale fill (round_up (length s) - length s) in
    ap (λ (r : List ℕ). take (length s) r) (append_assoc s pad rest)
    ∙ take-field (length s) s (pad ++ rest) refl

pub drop-output_mem :
    (fill : ℕ → ℕ) (s rest : List ℕ) → drop (round_up (length s)) (output_mem fill s ++ rest) ≡ rest
unfolding output_mem
drop-output_mem fill s rest =
    let pad = stale fill (round_up (length s) - length s) in
    drop_first (round_up (length s)) (s ++ pad) rest
      (omega (arith, length-append s pad, length-stale fill (round_up (length s) - length s)))

short-ends : (n m : ℕ) (b : Bool) → n < m → b ≡ false → (ltb n m && not b) ≡ true
short-ends n m b lt e = let short : ltb n m ≡ true = ground arith in rw (e, short) refl

long_goes_on : (n m : ℕ) (b : Bool) → m ≤ n → (ltb n m && not b) ≡ false
long_goes_on n m b le = let long : ltb n m ≡ false = ground arith in rw long refl

module _ (max_path acl_room : ℕ) where
  -- Rounds that start at records of the archive and end without an error
  pub data Reads (a' : List ℕ) : Vars → List ℕ → List Action → Type 0 where
    stop :
        {v : Vars} {a : List ℕ} {acts : List Action}
        → v.multi_volume ≡ false
        → a ≡ a'
        → acts ≡ []
        → Reads a' v a acts
    next :
        {v : Vars} {a : List ℕ} {acts : List Action}
        → (v1 : Vars) → (a1 : List ℕ) → (now later : List Action) → v.multi_volume ≡ false
        → 512 ≤ length a
        → length a1 < length a
        → round max_path acl_room v a ≡ done (v1, a1, now)
        → acts ≡ now ++ later
        → Reads a' v1 a1 later
        → Reads a' v a acts

  -- a round on a record that is given out
  pub round-header :
      (v : Vars) (h : Header) (rest : List ℕ)
      → v.multi_volume ≡ false
      → round max_path acl_room v (header_bytes h ++ rest)
        ≡ on_record max_path acl_room v (header_bytes h) rest
  unfolding round
  round-header v h rest e =
      rw
        (
          e,
          take-field 512 (header_bytes h) rest (length-header_bytes h),
          drop_first 512 (header_bytes h) rest (length-header_bytes h),
        )
        refl

  -- It is followed by other rounds, where it leaves the rest of the archive.
  pub header-Reads :
      (v v1 : Vars) (h : Header) (mem rest a' : List ℕ) (now later : List Action)
      → v.multi_volume ≡ false
      → on_record max_path acl_room v (header_bytes h) (mem ++ rest) ≡ done (v1, rest, now)
      → Reads a' v1 rest later
      → Reads a' v (header_bytes h ++ (mem ++ rest)) (now ++ later)
  header-Reads v v1 h mem rest a' now later e step more =
      let size : length (header_bytes h ++ (mem ++ rest)) ≡ 512 + (length mem + length rest) =
        omega (
          arith,
          length-append (header_bytes h) (mem ++ rest),
          length-append mem rest,
          length-header_bytes h,
        ) in
      next v1 rest now later e (omega (arith, size)) (omega (arith, size))
        (round-header v h (mem ++ rest) e ∙ step) refl more

  rounds-end :
      (n : ℕ) (v : Vars) (a : List ℕ)
      → length a < 512
      → v.multi_volume ≡ false
      → rounds max_path acl_room (suc n) v a ≡ some (done [])
  unfolding rounds
  rounds-end n v a lt e =
      ap
        (λ (b : Bool).
          if b
          then some (done [])
          else after_round (rounds max_path acl_room n) (round max_path acl_room v a))
        (short-ends (length a) 512 v.multi_volume lt e)

  rounds-step :
      (n : ℕ) (v v1 : Vars) (a a1 : List ℕ) (now later : List Action)
      → 512 ≤ length a
      → round max_path acl_room v a ≡ done (v1, a1, now)
      → rounds max_path acl_room n v1 a1 ≡ some (done later)
      → rounds max_path acl_room (suc n) v a ≡ some (done (now ++ later))
  unfolding rounds
  rounds-step n v v1 a a1 now later le step more =
      ap
        (λ (b : Bool).
          if b
          then some (done [])
          else after_round (rounds max_path acl_room n) (round max_path acl_room v a))
        (long_goes_on (length a) 512 v.multi_volume le)
      ∙ (ap (after_round (rounds max_path acl_room n)) step
          ∙ (unfold after_round in ap (before_all now) more ∙ (unfold before_all in refl)))

  -- The loop makes the rounds, with as much fuel as the archive has bytes and one more.
  pub Reads-rounds :
      (a' : List ℕ) (v : Vars) (a : List ℕ) (acts : List Action) (n : ℕ)
      → Reads a' v a acts
      → length a' < 512
      → length a < n
      → rounds max_path acl_room n v a ≡ some (done acts)
  Reads-rounds a' v a acts zero r lt fuel = absurd (omega (arith, fuel))
  Reads-rounds a' v a acts (suc n) (stop e f g) lt fuel =
      ap (λ (x : List ℕ). rounds max_path acl_room (suc n) v x) f
      ∙ (rounds-end n v a' lt e ∙ ap (λ (x : List Action). some (done x)) (sym g))
  Reads-rounds a' v a acts (suc n) (next v1 a1 now later m l s step g r) lt fuel =
      rounds-step n v v1 a a1 now later l step
        (Reads-rounds a' v1 a1 later n r lt (omega (arith, s, fuel)))
      ∙ ap (λ (x : List Action). some (done x)) (sym g)
