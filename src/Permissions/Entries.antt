-- ===== src/Permissions/Entries.antt =====
-- kernel/src/permissions.rs: what `get` reads after `set`.
use dbsos.Common.{
  take_all, ℕ, ◌≤◌, ◌<◌, ◌≡◌, refl, sym, ap, subst, ◌∙◌, ◌≢◌, inl, inr, true, false, Option, none,
  some, arith, ◌==◌, if◌then◌else◌, Bool-cases, Option-cases, find_from, find_from-eq-some,
  find_from-eq-none, find_from_total, find_from_least, find_from_congr, bytes_eq→eq, bytes_eq_refl,
  update, update_self, update_ne, bytes_eq, length, take, min, List,
}
use dbsos.Permissions.{
  Perm, PermEntry, Perms, names, entry_names, find_entry, perm_of, find, get, is_none, set_perm,
  new_entry, set,
}

-- An entry names one path.
names-eq : (p q : List ℕ) (e : PermEntry) → names p e ≡ true → names q e ≡ true → p ≡ q
names-eq p q e a b =
    let left = bytes_eq→eq (take e.len e.path) p (ground arith) in
    let right = bytes_eq→eq (take e.len e.path) q (ground arith) in sym left ∙ right

-- A path of at most 64 bytes is the one that its new entry names.
new_entry-names : (p : List ℕ) (perm : Perm) → length p ≤ 64 → names p (new_entry p perm) ≡ true
new_entry-names p perm h =
    let short : min (length p) 64 ≡ length p = omega arith in
    rw
      (
        short,
        take_all (length p) p (omega arith),
        take_all (length p) p (omega arith),
        bytes_eq_refl p,
      )
      (ground arith)

-- Writing a permission keeps the name of the slot.
entry_names-set_perm :
    (q : List ℕ) (perm : Perm) (o : Option PermEntry)
    → entry_names q (set_perm perm o) ≡ entry_names q o
entry_names-set_perm q perm none = refl
entry_names-set_perm q perm (some e) = refl

perm_of-set_perm :
    (q : List ℕ) (perm : Perm) (o : Option PermEntry)
    → entry_names q o ≡ true
    → perm_of (set_perm perm o) ≡ some perm
perm_of-set_perm q perm none h = cc
perm_of-set_perm q perm (some e) h = refl

entry_names-eq :
    (p q : List ℕ) (o : Option PermEntry) → entry_names p o ≡ true → entry_names q o ≡ true → p ≡ q
entry_names-eq p q none a b = cc
entry_names-eq p q (some e) a b = names-eq p q e a b

-- A hit of the search holds an entry that names the path.
pub find_entry-names :
    (perms : Perms) (p : List ℕ) {i : ℕ}
    → find_entry perms p ≡ some i
    → (i < 128) × (entry_names p (perms i) ≡ true)
unfolding find_entry
find_entry-names perms p {i} e =
    let (a, b, c) = find_from-eq-some (λ j. entry_names p (perms j)) 128 0 {j = i} e in (b, c)

-- An array with the same names has the same hits.
find_entry_congr :
    (perms perms' : Perms) (q : List ℕ)
    → ((j : ℕ) → entry_names q (perms' j) ≡ entry_names q (perms j))
    → find_entry perms' q ≡ find_entry perms q
unfolding find_entry
find_entry_congr perms perms' q h = find_from_congr 128 0 _ _ h

find-hit :
    (perms : Perms) (q : List ℕ) (j : ℕ)
    → find_entry perms q ≡ some j
    → find perms q ≡ perm_of (perms j)
unfolding find
find-hit perms q j e = rw (e, find) refl

find-miss : (perms : Perms) (q : List ℕ) → find_entry perms q ≡ none → find perms q ≡ none
unfolding find
find-miss perms q e = rw (e, find) refl

-- Two arrays with the same names, and the same slot where `q` is found, read `q` alike.
find_congr :
    (perms perms' : Perms) (q : List ℕ)
    → ((j : ℕ) → entry_names q (perms' j) ≡ entry_names q (perms j))
    → ((j : ℕ) → find_entry perms q ≡ some j → perms' j ≡ perms j)
    → find perms' q ≡ find perms q
find_congr perms perms' q h same = elim (Option-cases (find_entry perms q)) [
  | inl e ↦ find-miss perms' q (find_entry_congr perms perms' q h ∙ e) ∙ sym (find-miss perms q e)
  | inr (j, e) ↦
      find-hit perms' q j (find_entry_congr perms perms' q h ∙ e)
      ∙ ap perm_of (same j e)
      ∙ sym (find-hit perms q j e)
]

module _ (perms : Perms) (p : List ℕ) (perm : Perm) (i : ℕ) where
  names_changed :
      (q : List ℕ) (j : ℕ)
      → entry_names q (update perms i (set_perm perm (perms i)) j) ≡ entry_names q (perms j)
  unfolding update
  names_changed q j = ground (arith, entry_names-set_perm q perm (perms i))

  find-changed_self :
      find_entry perms p ≡ some i → find (update perms i (set_perm perm (perms i))) p ≡ some perm
  find-changed_self e =
      find-hit _ p i (find_entry_congr perms _ p (names_changed p) ∙ e)
      ∙ ap perm_of (update_self perms i _)
      ∙ perm_of-set_perm p perm (perms i) ((find_entry-names perms p e).1)

  find-changed_ne :
      (q : List ℕ)
      → p ≢ q
      → find_entry perms p ≡ some i
      → find (update perms i (set_perm perm (perms i))) q ≡ find perms q
  find-changed_ne q n e = find_congr perms _ q (names_changed q) λ j f. update_ne perms i j _ λ s.
      n (
        entry_names-eq p q (perms j)
          (subst (λ x. entry_names p (perms x) ≡ true) s ((find_entry-names perms p e).1))
          ((find_entry-names perms q f).1))

  module _ (short : length p ≤ 64) (free : is_none (perms i) ≡ true) where
    unnamed : (q : List ℕ) → entry_names q (perms i) ≡ false
    unnamed q = elim (Option-cases (perms i)) [
      | inl e ↦ rw e refl
      | inr (x, e) ↦ absurd (cc (ap is_none e, free))
    ]

    names_added :
        (q : List ℕ)
        → p ≢ q
        → (j : ℕ)
        → entry_names q (update perms i (some (new_entry p perm)) j) ≡ entry_names q (perms j)
    unfolding update
    names_added q n j = elim (Bool-cases (i == j)) [
      | inl e ↦
          ground (arith, names-eq p q (new_entry p perm), new_entry-names p perm short, unnamed q)
      | inr e ↦ ap (entry_names q) (update_ne perms i j _ (ground arith))
    ]

    find-added_ne :
        (q : List ℕ) → p ≢ q → find (update perms i (some (new_entry p perm))) q ≡ find perms q
    find-added_ne q n =
        find_congr perms _ q (names_added q n)
          λ j f. update_ne perms i j _ λ s. cc ((find_entry-names perms q f).1, unnamed q, s)

    find-added_self :
        find_entry perms p ≡ none
        → i < 128
        → find (update perms i (some (new_entry p perm))) p ≡ some perm
    unfolding find_entry
    find-added_self e g =
        find-hit _ p i (
          find_from_least _ 128 0 i (ground arith) g
            (ap (entry_names p) (update_self perms i _) ∙ new_entry-names p perm short)
            (λ m a b.
              ap (entry_names p) (update_ne perms i m _ (ground arith))
              ∙ find_from-eq-none _ 128 0 m e a (omega arith)))
        ∙ ap perm_of (update_self perms i _)

empty_slot_lem :
    (perms : Perms) {i : ℕ}
    → find_from 128 0 (λ j. is_none (perms j)) ≡ some i
    → (i < 128) × (is_none (perms i) ≡ true)
empty_slot_lem perms {i} e =
    let (a, b, c) = find_from-eq-some (λ j. is_none (perms j)) 128 0 {j = i} e in (b, c)

find-set_ne :
    (perms : Perms) (p q : List ℕ) (perm : Perm)
    → length p ≤ 64
    → p ≢ q
    → find (set p perm perms) q ≡ find perms q
unfolding set
find-set_ne perms p q perm short n = elim (Option-cases (find_entry perms p)) [
  | inr (i, e) ↦ rw (e, set) (find-changed_ne perms p perm i q n e)
  | inl e ↦ elim (Option-cases (find_from 128 0 (λ i. is_none (perms i)))) [
    | inl f ↦ rw (e, f, set) refl
    | inr (i, f) ↦
        rw (e, f, set) (find-added_ne perms p perm i short (empty_slot_lem perms f).1 q n)
  ]
]

find-set_self :
    (perms : Perms) (p : List ℕ) (perm : Perm) (i : ℕ)
    → length p ≤ 64
    → i < 128
    → is_none (perms i) ≡ true
    → find (set p perm perms) p ≡ some perm
unfolding set
find-set_self perms p perm i short h free = elim (Option-cases (find_entry perms p)) [
  | inr (j, e) ↦ rw (e, set) (find-changed_self perms p perm j e)
  | inl e ↦
      let (j, f) = find_from_total (λ k. is_none (perms k)) 128 0 i (ground arith) h free in
      let (l, g) = empty_slot_lem perms f in
      rw (e, f, set) (find-added_self perms p perm j short g e l)
]

get-find :
    (user : ℕ) (perms : Perms) (q : List ℕ) (perm : Perm)
    → find perms q ≡ some perm
    → get user perms q ≡ perm
unfolding get
get-find user perms q perm e = rw (e, get) refl

get-find_congr :
    (user : ℕ) (perms perms' : Perms) (q : List ℕ)
    → find perms q ≡ find perms' q
    → get user perms q ≡ get user perms' q
unfolding get
get-find_congr user perms perms' q e = rw (e, get) refl

-- In a table with an empty slot, after `set` with a path of at most 64 bytes, `get` reads the new permission
-- for that path, and for every other path what it read before.
pub get-set :
    (user : ℕ) (perms : Perms) (p q : List ℕ) (perm : Perm) (i : ℕ)
    → length p ≤ 64
    → i < 128
    → is_none (perms i) ≡ true
    → get user (set p perm perms) q ≡ (if bytes_eq p q then perm else get user perms q)
get-set user perms p q perm i short h free = elim (Bool-cases (bytes_eq p q)) [
  | inl e ↦ rw (e) (
      subst (λ x. get user (set p perm perms) x ≡ perm) (bytes_eq→eq p q e)
        (get-find user _ p perm (find-set_self perms p perm i short h free)))
  | inr e ↦ rw (e) (
      get-find_congr user _ perms q
        (find-set_ne perms p q perm short (λ s. cc (e, ap (bytes_eq p) (sym s), bytes_eq_refl p))))
]
