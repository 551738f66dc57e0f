-- ===== src/Siphash.antt =====
-- src/bpt/util/siphash.hpp: the digest of a sequence of bytes, on words of 64 bits.
mod Tests
use Prim.Native.Nat.{bit_xor, bit_or}
use bpt.Prelude.{
  ℕ, zero, suc, ◌+◌, ◌-◌, ◌*◌, ◌/◌, ◌%◌, ◌^◌, List, [], ◌∷◌, ltb, if◌then◌else◌, length, take, drop,
  Bytes,
}

-- A sum wraps around.
abbrev pub add64 : ℕ → ℕ → ℕ
add64 a b = (a + b) % 2 ^ 64

-- std::rotl, for 0 < n < 64.
abbrev pub rotl : ℕ → ℕ → ℕ
rotl x n = bit_or (x * 2 ^ n % 2 ^ 64) (x / 2 ^ (64 - n))

pub record SipState : Type 0 where
  pub v0 : ℕ
  pub v1 : ℕ
  pub v2 : ℕ
  pub v3 : ℕ

unfoldable pub siphash_round : SipState → SipState
siphash_round s =
    let a0 = add64 s.v0 s.v1 in
    let a1 = bit_xor (rotl s.v1 13) a0 in
    let b0 = rotl a0 32 in
    let a2 = add64 s.v2 s.v3 in
    let a3 = bit_xor (rotl s.v3 16) a2 in
    let c0 = add64 b0 a3 in
    let b3 = bit_xor (rotl a3 21) c0 in
    let b2 = add64 a2 a1 in
    let b1 = bit_xor (rotl a1 17) b2 in record { v0 = c0; v1 = b1; v2 = rotl b2 32; v3 = b3 }

pub rounds : ℕ → SipState → SipState
unfolding siphash_round
rounds zero s = s
rounds (suc n) s = rounds n (siphash_round s)

-- `_read_u64_le`, and the `switch` over the bytes that remain.
abbrev pub read_le : Bytes → ℕ
read_le [] = 0
read_le (b ∷ bytes) = b + 256 * read_le bytes

abbrev pub absorb : ℕ → SipState → SipState
absorb m s = let t = rounds 2 (record s { v3 = bit_xor s.v3 m }) in record t { v0 = bit_xor t.v0 m }

-- The loop over whole words, and what it leaves of the buffer.
abbrev pub whole_words : ℕ → Bytes → SipState → SipState × Bytes
whole_words zero buf s = (s, buf)
whole_words (suc fuel) buf s =
    if ltb (length buf) 8
    then (s, buf)
    else whole_words fuel (drop 8 buf) (absorb (read_le (take 8 buf)) s)

abbrev pub keyed : ℕ → ℕ → SipState
keyed key0 key1 = record {
  v0 = bit_xor 0x736f6d6570736575 key0;
  v1 = bit_xor 0x646f72616e646f6d key1;
  v2 = bit_xor 0x6c7967656e657261 key0;
  v3 = bit_xor 0x7465646279746573 key1;
}

unfoldable pub digest : ℕ → ℕ → Bytes → ℕ
unfolding rounds
digest key0 key1 buf =
    let (s, rest) = whole_words (length buf) buf (keyed key0 key1) in
    let t = absorb (bit_or (length buf * 2 ^ 56 % 2 ^ 64) (read_le rest)) s in
    let u = rounds 4 (record t { v2 = bit_xor t.v2 255 }) in
    bit_xor (bit_xor (bit_xor u.v0 u.v1) u.v2) u.v3
