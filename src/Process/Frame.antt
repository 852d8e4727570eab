-- ===== src/Process/Frame.antt =====
-- kernel/src/scheduler/spawn.rs: the pushes that prepare a new task's stack.
use dbsos.Common.{
  ℕ, zero, suc, ◌+◌, ◌-◌, ◌*◌, ◌≤◌, ◌<◌, ◌≡◌, refl, ◌∙◌, arith, length, List, [], ◌∷◌, Array,
  update, update_self, update_ne,
}

-- `sp = sp.sub(1); *sp = v`, for each value: the stack pointer and memory afterwards.
unfoldable pub push_all : List ℕ → (sp : ℕ) → Array ℕ → ℕ × Array ℕ
push_all [] sp words = (sp, words)
push_all (v ∷ vs) sp words = push_all vs (sp - 8) (update words (sp - 8) v)

-- Pops `n` words from `sp` on, the last of them first in the list.
unfoldable pub pop_all : (n sp : ℕ) → Array ℕ → List ℕ
pop_all zero sp words = []
pop_all (suc n) sp words = words (sp + 8 * n) ∷ pop_all n sp words

pub push_all-sp :
    (vs : List ℕ) (sp : ℕ) (words : Array ℕ) → (push_all vs sp words).0 ≡ sp - 8 * length vs
unfolding push_all
push_all-sp [] sp words = omega arith
push_all-sp (v ∷ vs) sp words = omega (arith, push_all-sp vs (sp - 8) (update words (sp - 8) v))

-- Words above the stack pointer stay, and words below the last push.
pub push_all_above :
    (vs : List ℕ) (sp : ℕ) (words : Array ℕ) (i : ℕ)
    → 8 * length vs < sp
    → sp ≤ i
    → (push_all vs sp words).1 i ≡ words i
unfolding push_all
push_all_above [] sp words i p h = refl
push_all_above (v ∷ vs) sp words i p h =
    push_all_above vs (sp - 8) (update words (sp - 8) v) i (omega arith) (omega arith)
    ∙ update_ne words (sp - 8) i v (λ q. omega arith)

pub push_all_below :
    (vs : List ℕ) (sp : ℕ) (words : Array ℕ) (i : ℕ)
    → i + 8 * length vs < sp
    → (push_all vs sp words).1 i ≡ words i
unfolding push_all
push_all_below [] sp words i h = refl
push_all_below (v ∷ vs) sp words i h =
    push_all_below vs (sp - 8) (update words (sp - 8) v) i (omega arith)
    ∙ update_ne words (sp - 8) i v (λ q. omega arith)

-- What was pushed is popped.
pub pop_all-push_all :
    (vs : List ℕ) (sp : ℕ) (words : Array ℕ)
    → 8 * length vs < sp
    → pop_all (length vs) (push_all vs sp words).0 (push_all vs sp words).1 ≡ vs
unfolding push_all pop_all
pop_all-push_all [] sp words h = refl
pop_all-push_all (v ∷ vs) sp words h =
    let rest = pop_all-push_all vs (sp - 8) (update words (sp - 8) v) (omega arith) in
    let top : (push_all vs (sp - 8) (update words (sp - 8) v)).0 + 8 * length vs ≡ sp - 8 =
      omega (arith, push_all-sp vs (sp - 8) (update words (sp - 8) v)) in
    rw top (
      cc (
        rest,
        push_all_above vs (sp - 8) (update words (sp - 8) v) (sp - 8) (omega arith) (omega arith),
        update_self words (sp - 8) v,
      ))
