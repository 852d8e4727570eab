-- ===== src/Dns/Names.antt =====
-- kernel/src/driver/dns.rs: what `encode_name` writes for a name of labels.
use dbsos.Common.{
  ℕ, ◌+◌, ◌%◌, ◌<◌, ◌≤◌, ◌≡◌, refl, sym, ap, ◌∙◌, Bool, true, false, not, ◌&&◌, arith, ◌==◌, ltb,
  leb, if◌then◌else◌, length, length-append, List, [], ◌∷◌, ◌++◌,
}
use mathlib.Core.List.{append_assoc, append-nil}
use dbsos.Dns.{Encoded, encoded, panics, encode, encode_name, label_fits, put_label, put_end}

-- No byte is a dot.
unfoldable pub no_dot : List ℕ → Bool
no_dot [] = true
no_dot (c ∷ cs) = not (c == 46) && no_dot cs

pub record IsLabel (l : List ℕ) : Type 0 where
  pub some_bytes : 0 < length l
  pub short : length l ≤ 63
  pub dotless : no_dot l ≡ true

unfoldable pub AreLabels : List (List ℕ) → Type 0
AreLabels [] = Unit
AreLabels (l ∷ ls) = IsLabel l × AreLabels ls

-- The labels with dots between them.
unfoldable pub join : List ℕ → List (List ℕ) → List ℕ
join l [] = l
join l (m ∷ ls) = l ++ 46 ∷ join m ls

-- The labels as they stand in a packet.
unfoldable pub wire : List (List ℕ) → List ℕ
wire [] = 0 ∷ []
wire (l ∷ ls) = length l ∷ l ++ wire ls

encode-label :
    (room : ℕ) (l rest cur out : List ℕ)
    → no_dot l ≡ true
    → encode room (l ++ rest) cur out ≡ encode room rest (cur ++ l) out
unfolding encode no_dot
encode-label room [] rest cur out d = ap (λ x. encode room rest x out) (sym (append-nil cur))
encode-label room (c ∷ cs) rest cur out d =
    let not_dot : (c == 46) ≡ false = ground arith in
    rw not_dot (
      encode-label room cs rest (cur ++ c ∷ []) out (ground arith)
      ∙ ap (λ x. encode room rest x out) (append_assoc cur (c ∷ []) cs))

-- Where the name ends: the last zero fits, or the write of it panics.
abbrev pub ending : (room : ℕ) → List ℕ → Encoded
ending room bytes = if leb (length bytes) room then encoded bytes else panics

put_end-ending : (room : ℕ) (x : List ℕ) → put_end room x ≡ ending room (x ++ 0 ∷ [])
put_end-ending room x =
    let n = length-append x (0 ∷ []) in
    let same : ltb (length x) room ≡ leb (length (x ++ 0 ∷ [])) room = ground (arith, n) in
    rw same refl

put_label-short : (l out : List ℕ) → IsLabel l → put_label l out ≡ out ++ length l ∷ l
put_label-short l out v =
    let byte : length l % 256 ≡ length l = omega (arith, v.short) in ap (λ n. out ++ n ∷ l) byte

encode-join :
    (room : ℕ) (l : List ℕ) (ls : List (List ℕ)) (out : List ℕ)
    → IsLabel l
    → AreLabels ls
    → length out + length (wire (l ∷ ls)) ≤ room + 1
    → encode room (join l ls) [] out ≡ ending room (out ++ wire (l ∷ ls))
unfolding encode AreLabels join wire
encode-join room l [] out v vs fits =
    let room_for : label_fits room true l out ≡ true = ground (arith, length-append l (0 ∷ [])) in
    ap (λ x. encode room x [] out) (sym (append-nil l))
    ∙ (encode-label room l [] [] out v.dotless
        ∙ rw room_for (
            put_end-ending room (put_label l out)
            ∙ ap (ending room) (
                ap (λ x. x ++ 0 ∷ []) (put_label-short l out v)
                ∙ append_assoc out (length l ∷ l) (0 ∷ []))))
encode-join room l (m ∷ ls) out v (w, ws) fits =
    let longer = length-append l (wire (m ∷ ls)) in
    let wider = length-append out (length l ∷ l) in
    let room_for : label_fits room false l out ≡ true = ground (arith, longer, v.some_bytes) in
    let rest = encode-join room m ls (out ++ length l ∷ l) w ws (omega (arith, longer, wider)) in
    encode-label room l (46 ∷ join m ls) [] out v.dotless
    ∙ rw room_for (
        rw (put_label-short l out v)
          (rest ∙ ap (ending room) (append_assoc out (length l ∷ l) (wire (m ∷ ls)))))

-- For a name of labels without dots, none of them empty or longer than 63 bytes, whose bytes in a packet are at most one
-- more than the buffer has: `encode_name` writes each label behind its length, and a 0, where they fit, and panics where
-- they are one too many.
pub encode_name-join :
    (room : ℕ) (l : List ℕ) (ls : List (List ℕ))
    → IsLabel l
    → AreLabels ls
    → length (wire (l ∷ ls)) ≤ room + 1
    → encode_name room (join l ls)
      ≡ (if leb (length (wire (l ∷ ls))) room then encoded (wire (l ∷ ls)) else panics)
unfolding encode_name
encode_name-join room l ls v vs fits = encode-join room l ls [] v vs (omega arith)
