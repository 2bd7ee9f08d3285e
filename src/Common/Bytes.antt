-- ===== src/Common/Bytes.antt =====
-- Bytes as numbers below 256, C's bit masks over them, and texts as lists of bytes.
use Prim.Native.Nat.{ℕ, zero, suc, ◌/◌, ◌%◌, ◌<◌, bit_and}
use Prim.Native.Char.{code}
use Prim.Native.String.{String}
use mathlib.Core.Path.{◌≡◌, refl}
use mathlib.Core.Bool.{Bool, true, ◌&&◌}
use mathlib.Core.List.{List, [], ◌∷◌}
use native.Mathlib.Omega.{arith}
use ndmpd.Common.Tests.{◌==◌, ==_iff}

-- The code points of a text: its bytes, if it is ASCII.
abbrev pub codes : String → List ℕ
codes String.[] = []
codes (String.◌∷◌ c s) = code c ∷ codes s

abbrev pub IsByte : ℕ → Type 0
IsByte c = c < 256

-- a test, run on each number from the bound down
unfoldable pub passes : (test : ℕ → Bool) → (bound : ℕ) → Bool
passes test zero = true
passes test (suc bound) = passes test bound && test bound

-- A test that is passed up to a bound, which evaluation can show, holds of every smaller number.
pub passes_at :
    (test : ℕ → Bool) (bound c : ℕ) → passes test bound ≡ true → c < bound → test c ≡ true
unfolding passes
passes_at test zero c all small = absurd (omega arith)
passes_at test (suc bound) c all small = ground (arith, passes_at test bound c)

same_byte : (f g : ℕ → ℕ) (c : ℕ) → passes (λ k. f k == g k) 256 ≡ true → IsByte c → f c ≡ g c
same_byte f g c all small = (==_iff (f c) (g c)).0 (passes_at (λ k. f k == g k) 256 c all small)

pub and_fc : (c : ℕ) → IsByte c → bit_and c 0xfc / 4 ≡ c / 4
unfolding passes
and_fc c h = same_byte (λ k. bit_and k 0xfc / 4) (λ k. k / 4) c refl h

pub and_03 : (c : ℕ) → IsByte c → bit_and c 0x03 ≡ c % 4
unfolding passes
and_03 c h = same_byte (λ k. bit_and k 0x03) (λ k. k % 4) c refl h

pub and_f0 : (c : ℕ) → IsByte c → bit_and c 0xf0 / 16 ≡ c / 16
unfolding passes
and_f0 c h = same_byte (λ k. bit_and k 0xf0 / 16) (λ k. k / 16) c refl h

pub and_0f : (c : ℕ) → IsByte c → bit_and c 0x0f ≡ c % 16
unfolding passes
and_0f c h = same_byte (λ k. bit_and k 0x0f) (λ k. k % 16) c refl h

pub and_c0 : (c : ℕ) → IsByte c → bit_and c 0xc0 / 64 ≡ c / 64
unfolding passes
and_c0 c h = same_byte (λ k. bit_and k 0xc0 / 64) (λ k. k / 64) c refl h

pub and_3f : (c : ℕ) → IsByte c → bit_and c 0x3f ≡ c % 64
unfolding passes
and_3f c h = same_byte (λ k. bit_and k 0x3f) (λ k. k % 64) c refl h

pub and_30 : (c : ℕ) → IsByte c → bit_and c 0x30 / 16 ≡ c / 16 % 4
unfolding passes
and_30 c h = same_byte (λ k. bit_and k 0x30 / 16) (λ k. k / 16 % 4) c refl h

pub and_3c : (c : ℕ) → IsByte c → bit_and c 0x3c / 4 ≡ c / 4 % 16
unfolding passes
and_3c c h = same_byte (λ k. bit_and k 0x3c / 4) (λ k. k / 4 % 16) c refl h
