-- ===== src/Dispatch/Lookup.antt =====
-- src/ndmpd_func.c, `ndmp_get_interface` and `ndmp_get_handler`: what the look-up finds.
use native.Mathlib.Decide.{dec_lt}
use ndmpd.Common.{
  ℕ, zero, suc, ◌/◌, ◌%◌, ◌≤◌, ◌<◌, ◌≡◌, ◌≢◌, ◌↔◌, inl, inr, refl, Bool, true, ◌&&◌, List, [], ◌∷◌,
  leb, ltb, get_elem?, none, some, length, arith, Option-cases,
}
use ndmpd.HandlerTable.{HdMessage, Interface, ndmp_msghdl_tab}
use ndmpd.Dispatch.{found, outside, find_message, ndmp_get_interface, ndmp_get_handler}

module _ {ℓ} {A : Type ℓ} where
  unfoldable pub all_of : (A → Bool) → List A → Bool
  all_of p [] = true
  all_of p (x ∷ xs) = p x && all_of p xs

  all_of-get_elem? :
      (p : A → Bool) (xs : List A) (i : ℕ) {x : A}
      → all_of p xs ≡ true
      → get_elem? xs i ≡ some x
      → p x ≡ true
  unfolding all_of
  all_of-get_elem? p [] i h e = absurd (cc)
  all_of-get_elem? p (y ∷ ys) zero h e = ground arith
  all_of-get_elem? p (y ∷ ys) (suc i) h e = all_of-get_elem? p ys i (ground arith) e

  get_elem?-some : (xs : List A) (i : ℕ) → i < length xs → (x : A) × (get_elem? xs i ≡ some x)
  get_elem?-some [] i h = absurd (omega arith)
  get_elem?-some (x ∷ xs) zero h = (x, refl)
  get_elem?-some (x ∷ xs) (suc i) h = get_elem?-some xs i (omega arith)

  get_elem?-none : (xs : List A) (i : ℕ) → length xs ≤ i → get_elem? xs i ≡ none
  get_elem?-none [] i h = refl
  get_elem?-none (x ∷ xs) zero h = absurd (omega arith)
  get_elem?-none (x ∷ xs) (suc i) h = get_elem?-none xs i (omega arith)

-- A test that every entry of the table passes by evaluation holds of what is found.
pub found_passes :
    (p : HdMessage → Bool) (message : ℕ) {e : HdMessage}
    → all_of (λ ni. all_of p ni.hd_msgs) ndmp_msghdl_tab ≡ true
    → ndmp_get_interface message ≡ found e
    → p e ≡ true
unfolding ndmp_get_interface
found_passes p message {e} h q =
    elim (Option-cases (get_elem? ndmp_msghdl_tab (message / 256 % 12))) [
      | inl n ↦ absurd (ground arith)
      | inr (ni, n) ↦ elim (Option-cases (get_elem? ni.hd_msgs (message % 256))) [
        | inl k ↦ absurd (ground arith)
        | inr (d, k) ↦ ground (
          arith,
          all_of-get_elem? p ni.hd_msgs (message % 256) {x = d},
          all_of-get_elem? (λ (ni : Interface). all_of p ni.hd_msgs) ndmp_msghdl_tab
              (message / 256 % 12) {x = ni},
        )
      ]
    ]

-- each interface has as many entries as it says, or more
counts_fit : all_of (λ (ni : Interface). leb ni.hd_cnt (length ni.hd_msgs)) ndmp_msghdl_tab ≡ true
unfolding all_of ndmp_msghdl_tab
counts_fit = refl

length-table : length ndmp_msghdl_tab ≡ 11
unfolding ndmp_msghdl_tab
length-table = refl

find_message-ne-outside :
    (message : ℕ) (ni : Interface)
    → ni.hd_cnt ≤ length ni.hd_msgs
    → find_message message ni ≢ outside
unfolding find_message
find_message-ne-outside message ni h = elim (dec_lt (message % 256) (length ni.hd_msgs)) [
  | yes lt ↦ let (e, q) = get_elem?-some ni.hd_msgs (message % 256) lt in ground arith
  | no ge ↦ ground arith
]

inside : (message : ℕ) → message / 256 % 12 < 11 → ndmp_get_interface message ≢ outside
unfolding ndmp_get_interface
inside message lt q =
    let (ni, e) = get_elem?-some ndmp_msghdl_tab (message / 256 % 12) (rw length-table lt) in
    find_message-ne-outside message ni
      (ground (
        arith,
        all_of-get_elem? (λ (ni : Interface). leb ni.hd_cnt (length ni.hd_msgs)) ndmp_msghdl_tab
            (message / 256 % 12) counts_fit e,
      ))
      (ground (arith, e, q))

beyond : (message : ℕ) → 11 ≤ message / 256 % 12 → ndmp_get_interface message ≡ outside
unfolding ndmp_get_interface
beyond message ge =
    ground (arith, get_elem?-none ndmp_msghdl_tab (message / 256 % 12) (rw length-table ge))

-- The look-up reads outside the table exactly for the messages whose interface number is 11 modulo
-- 12: the table has eleven interfaces, and the number is reduced modulo twelve.
pub interface-outside_iff :
    (message : ℕ) → (ndmp_get_interface message ≡ outside) ↔ (message / 256 % 12 ≡ 11)
interface-outside_iff message = (
  λ q. elim (dec_lt (message / 256 % 12) 11) [
    | yes lt ↦ absurd (inside message lt q)
    | no ge ↦ omega arith
  ],
  λ e. beyond message (omega arith),
)

-- In the protocol versions up to 4 the handler's look-up reads outside the table for the same
-- messages only.
handler-outside :
    (ver message : ℕ) → ver ≤ 4 → ndmp_get_handler ver message ≡ outside → message / 256 % 12 ≡ 11
unfolding ndmp_get_handler
handler-outside ver message h q = (interface-outside_iff message).0 (ground arith)

below_0xb00 :
    all_of
      (λ (ni : Interface). all_of (λ (d : HdMessage). ltb d.hm_message 0xb00) ni.hd_msgs)
      ndmp_msghdl_tab
    ≡ true
unfolding all_of ndmp_msghdl_tab
below_0xb00 = refl

find_message-eq :
    (message : ℕ) (ni : Interface) {e : HdMessage}
    → find_message message ni ≡ found e
    → e.hm_message ≡ message
unfolding find_message
find_message-eq message ni q = ground arith

-- What is found is the entry of that very message, and no message from 0xb00 on is found, although
-- its interface number is reduced modulo twelve.
interface-found :
    (message : ℕ) {e : HdMessage}
    → ndmp_get_interface message ≡ found e
    → (e.hm_message ≡ message) × (message < 0xb00)
unfolding ndmp_get_interface
interface-found message {e} q =
    elim (Option-cases (get_elem? ndmp_msghdl_tab (message / 256 % 12))) [
      | inl n ↦ absurd (ground arith)
      | inr (ni, n) ↦
          let same : e.hm_message ≡ message =
            find_message-eq message ni {e = e} (ground (arith, n, q)) in
          (
            same,
            ground (
              arith,
              same,
              found_passes (λ d. ltb d.hm_message 0xb00) message {e = e} below_0xb00 q,
            ),
          )
    ]
