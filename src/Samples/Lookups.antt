-- ===== src/Samples/Lookups.antt =====
-- The theorems about kernel/src/driver/dns.rs at concrete inputs: the name "db.os", and an answer for it.
use dbsos.Common.{ℕ, ◌≡◌, refl, true, leb, some, if◌then◌else◌, arith, length, List, [], ◌∷◌, ◌++◌}
use dbsos.Dns.{
  encoded, panics, encode, encode_name, read_labels, read_qname_len, answers, read_answer,
}
use dbsos.Dns.Names.{no_dot, IsLabel, AreLabels, join, wire, encode_name-join}

abbrev db : List ℕ
db = 100 ∷ 98 ∷ []

abbrev os : List ℕ
os = 111 ∷ 115 ∷ []

abbrev db_os : List ℕ
db_os = 2 ∷ 100 ∷ 98 ∷ 2 ∷ 111 ∷ 115 ∷ 0 ∷ []

two_letters-IsLabel : (a b : ℕ) → no_dot (a ∷ b ∷ []) ≡ true → IsLabel (a ∷ b ∷ [])
two_letters-IsLabel a b e = record { some_bytes = omega arith; short = omega arith; dotless = e }

-- A buffer of six bytes, for a name that takes seven.
encode_name-join_example :
    encode_name 6 (join db (os ∷ []))
    ≡ (if leb (length (wire (db ∷ os ∷ []))) 6 then encoded (wire (db ∷ os ∷ [])) else panics)
unfolding AreLabels no_dot wire
encode_name-join_example =
    encode_name-join 6 db (os ∷ []) (two_letters-IsLabel 100 98 refl)
      (two_letters-IsLabel 111 115 refl, tt) (omega arith)

-- A name with a dot at its end gets two zeros.
dot_at_the_end : encode_name 255 (100 ∷ 98 ∷ 46 ∷ []) ≡ encoded (2 ∷ 100 ∷ 98 ∷ 0 ∷ 0 ∷ [])
unfolding encode_name encode
dot_at_the_end = refl

-- The answer to query 77 that db.os is at 10.0.2.9, its name a pointer to the question's.
answered :
    read_answer 77 (
      (0 ∷ 77 ∷ 129 ∷ 128 ∷ 0 ∷ 1 ∷ 0 ∷ 1 ∷ 0 ∷ 0 ∷ 0 ∷ 0 ∷ [])
      ++ (db_os
          ++ (0 ∷ 1 ∷ 0 ∷ 1 ∷ 192 ∷ 12 ∷ 0 ∷ 1 ∷ 0 ∷ 1 ∷ 0 ∷ 0 ∷ 0 ∷ 60 ∷ 0 ∷ 4 ∷ 10 ∷ 0 ∷ 2 ∷ 9
              ∷ [])))
    ≡ some (10 ∷ 0 ∷ 2 ∷ 9 ∷ [])
unfolding read_answer answers read_qname_len read_labels
answered = refl
