-- ===== src/Dns.antt =====
-- kernel/src/driver/dns.rs: names as labels, queries, and the answers' records. 46 is '.'. A packet is a list of bytes.
pub mod Names
pub mod Length
use dbsos.Common.{
  ℕ, zero, suc, ◌+◌, ◌-◌, ◌*◌, ◌/◌, ◌%◌, ◌^◌, Bool, true, false, not, ◌&&◌, ◌||◌, Option, none,
  some, ◌==◌, ltb, leb, if◌then◌else◌, get_or, length, take, drop, List, [], ◌∷◌, ◌++◌, bit_and,
}

-- What `encode_name` does: the bytes written, `None`, or a panic, where it writes behind the buffer.
pub data Encoded : Type 0 where
  encoded : List ℕ → Encoded
  refused panics : Encoded

-- Whether a label can be written behind `out`. `done` at the end of the name.
abbrev pub label_fits : (room : ℕ) (done : Bool) (label out : List ℕ) → Bool
label_fits room done label out =
    leb (length out + 1 + length label) room && (not (length label == 0) || done)

-- `out` with the label's length and its bytes.
abbrev pub put_label : (label out : List ℕ) → List ℕ
put_label label out = out ++ length label % 256 ∷ label

-- The last byte of the name.
abbrev pub put_end : (room : ℕ) → List ℕ → Encoded
put_end room out = if ltb (length out) room then encoded (out ++ 0 ∷ []) else panics

-- The loop of `encode_name`: `label` has the bytes since the last dot.
unfoldable pub encode : (room : ℕ) (name label out : List ℕ) → Encoded
encode room [] label out =
    if label_fits room true label out then put_end room (put_label label out) else refused
encode room (c ∷ cs) label out =
    let next = encode room cs [] (put_label label out) in
    let longer = encode room cs (label ++ c ∷ []) out in
    if c == 46 then (if label_fits room false label out then next else refused) else longer

-- `room` is the length of the buffer.
unfoldable pub encode_name : (room : ℕ) (name : List ℕ) → Encoded
unfolding encode
encode_name room name = encode room name [] []

-- The loop of `read_qname_len` on the packet from `off` on, for at most `fuel` rounds.
unfoldable pub read_labels : (fuel total : ℕ) → List ℕ → Option ℕ
read_labels zero total pkt = none
read_labels (suc fuel) total [] = none
read_labels (suc fuel) total (len ∷ pkt) =
    let rest = read_labels fuel (total + (1 + len)) (drop len pkt) in
    if len == 0
    then some (total + 1)
    else if bit_and len 0xc0 == 0xc0
    then some (total + 2)
    else rest

unfoldable pub read_qname_len : (pkt : List ℕ) (off : ℕ) → Option ℕ
unfolding read_labels
read_qname_len pkt off = read_labels (suc (length pkt)) 0 (drop off pkt)

abbrev pub rd16 : (pkt : List ℕ) (off : ℕ) → ℕ
rd16 pkt off = get_or pkt off 0 * 256 + get_or pkt (off + 1) 0

abbrev pub be16 : ℕ → List ℕ
be16 v = v / 256 % 256 ∷ v % 256 ∷ []

-- The query for a name that `encode_name` has written.
unfoldable pub query : (dns_id : ℕ) (qname : List ℕ) → List ℕ
query dns_id qname =
    be16 dns_id ++ (1 ∷ 0 ∷ 0 ∷ 1 ∷ 0 ∷ 0 ∷ 0 ∷ 0 ∷ 0 ∷ 0 ∷ []) ++ (qname ++ (be16 1 ++ be16 1))

-- How many bytes the name of a record takes.
abbrev pub name_skip : (pkt : List ℕ) (off : ℕ) → ℕ
name_skip pkt off =
    if bit_and (get_or pkt off 0) 0xc0 == 0xc0
    then 2
    else elim (read_qname_len pkt off) [ none ↦ 0 | some n ↦ n ]

-- The record at `rr` is an address that lies in the packet.
abbrev pub is_address : (pkt : List ℕ) (rr : ℕ) → Bool
is_address pkt rr = rd16 pkt rr == 1 && (rd16 pkt (rr + 8) == 4 && leb (rr + 14) (length pkt))

-- The loop over the answers, with `n` to go.
unfoldable pub answers : (n off : ℕ) (pkt : List ℕ) → Option (List ℕ)
unfolding read_qname_len
answers zero off pkt = none
answers (suc n) off pkt =
    let rr = off + name_skip pkt off in
    let rest = answers n (rr + 10 + rd16 pkt (rr + 8)) pkt in
    if ltb (length pkt) (off + 10)
    then none
    else if ltb (length pkt) (rr + 10)
    then none
    else if is_address pkt rr
    then some (take 4 (drop (rr + 10) pkt))
    else rest

-- What `resolve` reads from a packet of at least 12 bytes: `none` where it goes on waiting.
unfoldable pub read_answer : (dns_id : ℕ) (pkt : List ℕ) → Option (List ℕ)
unfolding answers
read_answer dns_id pkt =
    if ltb (length pkt) 12
    then none
    else if not (rd16 pkt 0 == dns_id)
    then none
    else if rd16 pkt 6 == 0
    then none
    else elim (read_qname_len pkt 12) [
      | none ↦ none
      | some qlen ↦ answers (rd16 pkt 6) (12 + qlen + 4) pkt
    ]
