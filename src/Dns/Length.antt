-- ===== src/Dns/Length.antt =====
-- kernel/src/driver/dns.rs: `read_qname_len` on the names that `encode_name` writes, and its loop.
use dbsos.Common.{
  ℕ, zero, suc, ◌+◌, ◌<◌, ◌≤◌, ◌≡◌, refl, ap, ◌∙◌, Bool, true, false, not, some, arith, ◌==◌, leb,
  length, length-append, length-drop, drop, List, [], ◌∷◌, ◌++◌, bit_and, all_below,
  all_below_sound,
}
use mathlib.Core.List.{append_assoc}
use dbsos.Dns.{encoded, encode_name, read_labels, read_qname_len, query}
use dbsos.Dns.Names.{IsLabel, AreLabels, join, wire, encode_name-join}

drop-append : (l rest : List ℕ) → drop (length l) (l ++ rest) ≡ rest
drop-append [] rest = refl
drop-append (x ∷ xs) rest = drop-append xs rest

no_pointer : ℕ → Bool
no_pointer n = not (bit_and n 0xc0 == 0xc0)

-- A length of at most 63 is no compression pointer.
short_no_pointer : (n : ℕ) → n ≤ 63 → (bit_and n 0xc0 == 0xc0) ≡ false
unfolding no_pointer all_below
short_no_pointer n s = ground (arith, all_below_sound 64 no_pointer n refl (omega arith))

read-wire :
    (fuel total : ℕ) (ls : List (List ℕ)) (rest : List ℕ)
    → AreLabels ls
    → length (wire ls) ≤ fuel
    → read_labels fuel total (wire ls ++ rest) ≡ some (total + length (wire ls))
unfolding read_labels AreLabels wire
read-wire zero total [] rest vs s = absurd (omega arith)
read-wire zero total (l ∷ ls) rest vs s = absurd (omega arith)
read-wire (suc fuel) total [] rest vs s = refl
read-wire (suc fuel) total (l ∷ ls) rest (v, vs) s =
    let longer = length-append l (wire ls) in
    let some_bytes : (length l == 0) ≡ false = ground (arith, v.some_bytes) in
    let step : drop (length l) ((l ++ wire ls) ++ rest) ≡ wire ls ++ rest =
      ap (drop (length l)) (append_assoc l (wire ls) rest) ∙ drop-append l (wire ls ++ rest) in
    rw some_bytes (
      rw (short_no_pointer (length l) v.short) (
        rw step (
          read-wire fuel (total + (1 + length l)) ls rest vs (omega (arith, longer))
          ∙ ap some (omega (arith, longer)))))

-- The loop of `read_qname_len` ends by itself: with more rounds than bytes, the number of rounds plays no part.
pub read_labels_ends :
    (fuel more total : ℕ) (pkt : List ℕ)
    → length pkt < fuel
    → length pkt < more
    → read_labels fuel total pkt ≡ read_labels more total pkt
unfolding read_labels
read_labels_ends zero more total pkt s t = absurd (omega arith)
read_labels_ends (suc fuel) zero total pkt s t = absurd (omega arith)
read_labels_ends (suc fuel) (suc more) total [] s t = refl
read_labels_ends (suc fuel) (suc more) total (len ∷ pkt) s t =
    let shorter = length-drop len pkt in
    rw
      (read_labels_ends fuel more (total + (1 + len)) (drop len pkt) (omega (arith, shorter))
        (omega (arith, shorter)))
      refl

-- For a name of labels without dots, none of them empty or longer than 63 bytes, that fits the buffer: in the query made
-- of what `encode_name` writes, `read_qname_len` at byte 12 gives the number of the bytes written.
pub read_qname_len-encode_name :
    (room dns_id : ℕ) (l : List ℕ) (ls : List (List ℕ))
    → IsLabel l
    → AreLabels ls
    → length (wire (l ∷ ls)) ≤ room
    → (encode_name room (join l ls) ≡ encoded (wire (l ∷ ls)))
      × (read_qname_len (query dns_id (wire (l ∷ ls))) 12 ≡ some (length (wire (l ∷ ls))))
unfolding read_qname_len query AreLabels
read_qname_len-encode_name room dns_id l ls v vs fits =
    let t : leb (length (wire (l ∷ ls))) room ≡ true = ground arith in
    (
      encode_name-join room l ls v vs (omega arith) ∙ rw t refl,
      read-wire (suc (length (query dns_id (wire (l ∷ ls))))) 0 (l ∷ ls) (0 ∷ 1 ∷ 0 ∷ 1 ∷ [])
            (v, vs) (omega (arith, length-append (wire (l ∷ ls)) (0 ∷ 1 ∷ 0 ∷ 1 ∷ [])))
          ∙ ap some (omega arith),
    )
