-- ===== src/Memory/Bits.antt =====
-- kernel/src/memory.rs, bit_test and bit_set: a bitmap in bytes, and its laws. A shift right is a
-- division by a power of two, and `& 7` and `& 1` are remainders.
use dbsos.Common.{
  all_below, all_below_sound, ℕ, ◌-◌, ◌/◌, ◌%◌, ◌^◌, ◌<◌, ◌≡◌, refl, Bool, true, ◌&&◌, arith, ◌==◌,
  ltb, if◌then◌else◌, Array, update, bit_and, bit_or,
}

unfoldable pub bit_test : Array ℕ → ℕ → ℕ
bit_test bitmap bit = bitmap (bit / 8) / 2 ^ (bit % 8) % 2

-- `*p |= 1 << k` and `*p &= !(1 << k)` on a byte
unfoldable pub set_byte : (p k v : ℕ) → ℕ
set_byte p k v = if v == 0 then bit_and p (255 - 2 ^ k) else bit_or p (2 ^ k)

unfoldable pub bit_set : Array ℕ → ℕ → ℕ → Array ℕ
bit_set bitmap bit v = update bitmap (bit / 8) (set_byte (bitmap (bit / 8)) (bit % 8) v)

-- Every cell of the bitmap holds a byte.
abbrev pub IsBytes : Array ℕ → Type 0
IsBytes bitmap = (i : ℕ) → bitmap i < 256

-- After setting bit `k` of the byte `p`, bit `j` is the new one at `k` and the old one elsewhere.
byte_law : (v p k j : ℕ) → Bool
byte_law v p k j =
    set_byte p k v / 2 ^ j % 2 == (if k == j then (if v == 0 then 0 else 1) else p / 2 ^ j % 2)
    && ltb (set_byte p k v) 256

byte_laws : ℕ → Bool
byte_laws v = all_below 256 (λ p. all_below 8 (λ k. all_below 8 (byte_law v p k)))

clear_laws : byte_laws 0 ≡ true
unfolding byte_laws all_below byte_law set_byte
clear_laws = refl

set_laws : byte_laws 1 ≡ true
unfolding byte_laws all_below byte_law set_byte
set_laws = refl

-- The bit that `bit_set` writes.
abbrev pub written : ℕ → ℕ
written v = if v == 0 then 0 else 1

byte_law_parts :
    (v p k j : ℕ)
    → byte_law v p k j ≡ true
    → (set_byte p k v / 2 ^ j % 2 ≡ (if k == j then written v else p / 2 ^ j % 2))
      × (set_byte p k v < 256)
unfolding byte_law
byte_law_parts v p k j l = ground arith

byte_law_holds :
    (v p k j : ℕ)
    → byte_laws v ≡ true
    → p < 256
    → k < 8
    → j < 8
    → (set_byte p k v / 2 ^ j % 2 ≡ (if k == j then written v else p / 2 ^ j % 2))
      × (set_byte p k v < 256)
unfolding byte_laws byte_law
byte_law_holds v p k j h a b c = byte_law_parts v p k j law
  where
    law : byte_law v p k j ≡ true
    law =
        all_below_sound 8 (byte_law v p k) j
          (all_below_sound 8 (λ k. all_below 8 (byte_law v p k)) k
            (all_below_sound 256 (λ p. all_below 8 (λ k. all_below 8 (byte_law v p k))) p h a) b)
          c

module _ (bitmap : Array ℕ) (bytes : IsBytes bitmap) where
  bit_set_law :
      (b v : ℕ)
      → byte_laws v ≡ true
      → ((c : ℕ)
          → bit_test (bit_set bitmap b v) c ≡ (if b == c then written v else bit_test bitmap c))
        × IsBytes (bit_set bitmap b v)
  unfolding bit_test bit_set update
  bit_set_law b v h = (
    (λ c. ground (
      arith,
      byte_law_holds v (bitmap (b / 8)) (b % 8) (c % 8) h (bytes (b / 8)) (omega arith)
          (omega arith),
    )),
    λ i. ground (
      arith,
      bytes i,
      byte_law_holds v (bitmap (b / 8)) (b % 8) 0 h (bytes (b / 8)) (omega arith) (omega arith),
    ),
  )

  pub bit_test-bit_set :
      (b c : ℕ) → bit_test (bit_set bitmap b 1) c ≡ (if b == c then 1 else bit_test bitmap c)
  bit_test-bit_set b c = (bit_set_law b 1 set_laws).0 c

  pub bit_test-bit_clear :
      (b c : ℕ) → bit_test (bit_set bitmap b 0) c ≡ (if b == c then 0 else bit_test bitmap c)
  bit_test-bit_clear b c = (bit_set_law b 0 clear_laws).0 c

  pub bit_set-IsBytes : (b : ℕ) → IsBytes (bit_set bitmap b 1)
  bit_set-IsBytes b = (bit_set_law b 1 set_laws).1

  pub bit_clear-IsBytes : (b : ℕ) → IsBytes (bit_set bitmap b 0)
  bit_clear-IsBytes b = (bit_set_law b 0 clear_laws).1
