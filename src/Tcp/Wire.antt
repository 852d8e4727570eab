-- ===== src/Tcp/Wire.antt =====
-- kernel/src/driver/tcp.rs: the bytes of a segment, in network order, and its checksum.
use dbsos.Common.{
  ℕ, zero, suc, ◌+◌, ◌-◌, ◌*◌, ◌/◌, ◌%◌, ◌^◌, ◌<◌, ◌≡◌, Option, none, some, arith, ◌==◌, ltb,
  if◌then◌else◌, length, get_or, drop, List, [], ◌∷◌, ◌++◌,
}

abbrev pub be16 : ℕ → List ℕ
be16 v = v / 256 % 256 ∷ v % 256 ∷ []

abbrev pub be32 : ℕ → List ℕ
be32 v = v / 2 ^ 24 % 256 ∷ v / 2 ^ 16 % 256 ∷ v / 256 % 256 ∷ v % 256 ∷ []

abbrev pub u16_from : (a b : ℕ) → ℕ
u16_from a b = a * 256 + b

abbrev pub u32_from : (a b c d : ℕ) → ℕ
u32_from a b c d = a * 2 ^ 24 + b * 2 ^ 16 + c * 256 + d

-- The sum of the 16-bit words; an odd last byte is the upper half of a word.
unfoldable pub word_sum : List ℕ → ℕ
word_sum [] = 0
word_sum (a ∷ []) = a * 256
word_sum (a ∷ b ∷ bs) = a * 256 + b + word_sum bs

-- `while sum >> 16 != 0`, for at most `fuel` rounds.
unfoldable pub fold : (fuel sum : ℕ) → ℕ
fold zero sum = sum
fold (suc fuel) sum =
    let rest = fold fuel (sum % 2 ^ 16 + sum / 2 ^ 16) in if sum / 2 ^ 16 == 0 then sum else rest

unfoldable pub checksum : List ℕ → ℕ
unfolding word_sum fold
checksum buf = 2 ^ 16 - 1 - fold 2 (word_sum buf) % 2 ^ 16

unfoldable pub header : (local_port remote_port seq ack flags csum : ℕ) → List ℕ
header local_port remote_port seq ack flags csum =
    be16 local_port
    ++ (be16 remote_port
        ++ (be32 seq ++ (be32 ack ++ (0x50 ∷ flags ∷ be16 8192 ++ (be16 csum ++ (0 ∷ 0 ∷ []))))))

-- The pseudo-header and the segment, padded to an even length.
unfoldable pub scratch :
    (own_ip peer_ip : List ℕ) (local_port remote_port seq ack flags csum : ℕ) (payload : List ℕ)
    → List ℕ
unfolding header
scratch own_ip peer_ip local_port remote_port seq ack flags csum payload =
    let tcp_len = 20 + length payload in
    own_ip
    ++ (peer_ip
        ++ (0 ∷ 6 ∷ be16 tcp_len
            ++ (header local_port remote_port seq ack flags csum
                ++ (payload ++ (if tcp_len % 2 == 1 then 0 ∷ [] else [])))))

unfoldable pub segment_bytes :
    (own_ip peer_ip : List ℕ) (local_port remote_port seq ack flags : ℕ) (payload : List ℕ) → List ℕ
unfolding header checksum scratch
segment_bytes own_ip peer_ip local_port remote_port seq ack flags payload =
    header local_port remote_port seq ack flags
      (checksum (scratch own_ip peer_ip local_port remote_port seq ack flags 0 payload))
    ++ payload

-- A segment as `input` takes it apart.
pub record Segment : Type 0 where
  pub dport : ℕ
  pub sport : ℕ
  pub seq : ℕ
  pub ack : ℕ
  pub flags : ℕ
  pub payload : List ℕ

unfoldable pub parse : List ℕ → Option Segment
parse bytes =
    if ltb (length bytes) 20
    then none
    else some (record {
      dport = u16_from (get_or bytes 2 0) (get_or bytes 3 0);
      sport = u16_from (get_or bytes 0 0) (get_or bytes 1 0);
      seq = u32_from (get_or bytes 4 0) (get_or bytes 5 0) (get_or bytes 6 0) (get_or bytes 7 0);
      ack = u32_from (get_or bytes 8 0) (get_or bytes 9 0) (get_or bytes 10 0) (get_or bytes 11 0);
      flags = get_or bytes 13 0;
      payload = drop (get_or bytes 12 0 / 16 * 4) bytes;
    })

u16_from-be16 : (v : ℕ) → v < 2 ^ 16 → u16_from (v / 256 % 256) (v % 256) ≡ v
u16_from-be16 v s = omega arith

u32_from-be32 :
    (v : ℕ)
    → v < 2 ^ 32
    → u32_from (v / 2 ^ 24 % 256) (v / 2 ^ 16 % 256) (v / 256 % 256) (v % 256) ≡ v
u32_from-be32 v s = omega arith

-- With ports below 2^16 and numbers below 2^32, `input` reads from a segment's bytes what it was made of.
pub parse-segment_bytes :
    (own_ip peer_ip : List ℕ) (local_port remote_port seq ack flags : ℕ) (payload : List ℕ)
    → local_port < 2 ^ 16
    → remote_port < 2 ^ 16
    → seq < 2 ^ 32
    → ack < 2 ^ 32
    → parse (segment_bytes own_ip peer_ip local_port remote_port seq ack flags payload)
      ≡ some (record {
        dport = remote_port;
        sport = local_port;
        seq = seq;
        ack = ack;
        flags = flags;
        payload = payload;
      })
unfolding parse segment_bytes header
parse-segment_bytes own_ip peer_ip local_port remote_port seq ack flags payload l r q a =
    rw (u16_from-be16 local_port l) (
      rw (u16_from-be16 remote_port r)
        (rw (u32_from-be32 seq q) (rw (u32_from-be32 ack a) (ground arith))))
