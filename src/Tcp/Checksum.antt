-- ===== src/Tcp/Checksum.antt =====
-- kernel/src/driver/tcp.rs: the loop of `checksum` ends, and a segment that is sent has a good checksum.
use dbsos.Common.{ap}
use dbsos.Common.{
  Bool-cases, length-append, inl, inr, ℕ, zero, suc, ◌+◌, ◌-◌, ◌*◌, ◌/◌, ◌%◌, ◌^◌, ◌<◌, ◌≤◌, ◌≡◌,
  refl, arith, ◌==◌, length, get_or, List, [], ◌∷◌, ◌++◌, if◌then◌else◌,
}
use dbsos.Tcp.Wire.{be16, word_sum, fold, checksum, scratch, header, segment_bytes}

fold_small : (sum : ℕ) → sum < 2 ^ 32 → fold 2 sum < 2 ^ 16
unfolding fold
fold_small sum s = ground arith

fold_more : (k sum : ℕ) → sum < 2 ^ 32 → fold (suc (suc k)) sum ≡ fold 2 sum
unfolding fold
fold_more zero sum s = refl
fold_more (suc k) sum s = ground arith

-- Every element is a byte.
abbrev pub AreBytes : List ℕ → Type 0
AreBytes buf = (i : ℕ) → get_or buf i 0 < 256

word_sum_bound : (buf : List ℕ) → AreBytes buf → word_sum buf * 2 ≤ 65536 * (length buf + 1)
unfolding word_sum
word_sum_bound [] h = omega arith
word_sum_bound (a ∷ []) h = omega (arith, h 0)
word_sum_bound (a ∷ b ∷ bs) h = omega (arith, h 0, h 1, word_sum_bound bs (λ i. h (suc (suc i))))

-- For at most 2^16 bytes, the loop that folds the sum ends in two rounds: further rounds change nothing, and what is
-- left fits 16 bits.
pub fold_ends :
    (buf : List ℕ) (k : ℕ)
    → AreBytes buf
    → length buf ≤ 2 ^ 16
    → (fold (suc (suc k)) (word_sum buf) ≡ fold 2 (word_sum buf)) × (fold 2 (word_sum buf) < 2 ^ 16)
fold_ends buf k h s =
    let small : word_sum buf < 2 ^ 32 = omega (arith, word_sum_bound buf h) in
    (fold_more k (word_sum buf) small, fold_small (word_sum buf) small)

-- The sum with the checksum added is all ones.
fold_complement :
    (sum : ℕ) → sum < 2 ^ 31 → fold 2 (sum + (2 ^ 16 - 1 - fold 2 sum % 2 ^ 16)) ≡ 2 ^ 16 - 1
unfolding fold
fold_complement sum s = ground arith

-- The pseudo-header of a segment of `n` bytes, and the segment, padded to an even length.
unfoldable pub with_length : (n : ℕ) (own_ip peer_ip bytes : List ℕ) → List ℕ
with_length n own_ip peer_ip bytes =
    own_ip ++ (peer_ip ++ (0 ∷ 6 ∷ be16 n ++ (bytes ++ (if n % 2 == 1 then 0 ∷ [] else []))))

-- What the receiver of a segment sums up.
abbrev pub with_pseudo_header : (own_ip peer_ip bytes : List ℕ) → List ℕ
with_pseudo_header own_ip peer_ip bytes = with_length (length bytes) own_ip peer_ip bytes

module _ (a b c d e f g h local_port remote_port seq ack flags : ℕ) (payload : List ℕ) where
  filled : ℕ → List ℕ
  filled csum =
      scratch (a ∷ b ∷ c ∷ d ∷ []) (e ∷ f ∷ g ∷ h ∷ []) local_port remote_port seq ack flags csum
        payload

  word_sum-filled : (csum : ℕ) → csum < 2 ^ 16 → word_sum (filled csum) ≡ word_sum (filled 0) + csum
  unfolding filled scratch header word_sum
  word_sum-filled csum s =
      let word : csum / 256 % 256 * 256 + csum % 256 ≡ csum = omega arith in rw word (omega arith)

  length-filled : length payload ≤ 1400 → length (filled 0) ≤ 1433
  unfolding filled scratch header
  length-filled s = elim (Bool-cases ((20 + length payload) % 2 == 1)) [
    | inl t ↦ rw t (omega (arith, length-append payload (0 ∷ [])))
    | inr t ↦ rw t (omega (arith, length-append payload []))
  ]

  filled-checksum :
      AreBytes (filled 0) → length payload ≤ 1400 → checksum (filled (checksum (filled 0))) ≡ 0
  unfolding filled checksum
  filled-checksum bytes s =
      let small : word_sum (filled 0) < 2 ^ 31 =
        omega (arith, word_sum_bound (filled 0) bytes, length-filled s) in
      rw (word_sum-filled (2 ^ 16 - 1 - fold 2 (word_sum (filled 0)) % 2 ^ 16) (omega arith))
        (rw (fold_complement (word_sum (filled 0)) small) refl)

  with_pseudo_header-header :
      (csum : ℕ)
      → with_pseudo_header
          (a ∷ b ∷ c ∷ d ∷ [])
          (e ∷ f ∷ g ∷ h ∷ [])
          (header local_port remote_port seq ack flags csum ++ payload)
        ≡ filled csum
  unfolding with_length filled scratch header
  with_pseudo_header-header csum =
      let bytes = header local_port remote_port seq ack flags csum ++ payload in
      let n : length bytes ≡ 20 + length payload = omega arith in
      ap (λ n. with_length n (a ∷ b ∷ c ∷ d ∷ []) (e ∷ f ∷ g ∷ h ∷ []) bytes) n

  -- The segments that are sent have a good checksum: over the bytes of a segment as they are sent, behind the
  -- pseudo-header of the two addresses and padded to an even length, the checksum is 0. This holds for IPv4 addresses, at
  -- most 1400 bytes of payload, and fields that are bytes.
  pub checksum-segment :
      AreBytes (
        scratch
          (a ∷ b ∷ c ∷ d ∷ [])
          (e ∷ f ∷ g ∷ h ∷ [])
          local_port
          remote_port
          seq
          ack
          flags
          0
          payload)
      → length payload ≤ 1400
      → checksum (
          with_pseudo_header (a ∷ b ∷ c ∷ d ∷ []) (e ∷ f ∷ g ∷ h ∷ []) (
            segment_bytes
              (a ∷ b ∷ c ∷ d ∷ [])
              (e ∷ f ∷ g ∷ h ∷ [])
              local_port
              remote_port
              seq
              ack
              flags
              payload))
        ≡ 0
  unfolding filled segment_bytes
  checksum-segment bytes s =
      rw (with_pseudo_header-header (checksum (filled 0))) (filled-checksum bytes s)
