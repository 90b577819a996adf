-- ===== src/Mgr/Ring.antt =====
-- The ring of jobs of IMB_MGR (lib/include/mb_mgr_code.h, `earliest_job` and `next_job`) as a queue: `n` slots
-- from slot number `i` on, the oldest job first.
use intel_ipsec_mb.Base.{
  ℕ, zero, suc, ◌+◌, ◌*◌, ◌%◌, ◌<◌, ◌==◌, ◌≡◌, ◌⊎◌, inl, inr, refl, sym, ap, ◌∙◌, if◌then◌else◌,
  none, some, List, [], ◌∷◌, ◌++◌, length, arith,
}
use native.Mathlib.Decide.{ℕ_discrete}
use intel_ipsec_mb.Mgr.State.{Mgr, sizeof_job, max_jobs}
use intel_ipsec_mb.Mgr.Api.{adv_jobs}

abbrev pub next_slot : ℕ → ℕ
next_slot i = (i + 1) % max_jobs

-- The offset of the `j`-th job of a queue that starts at slot `i`
abbrev pub slot_at : ℕ → ℕ → ℕ
slot_at i j = sizeof_job * ((i + j) % max_jobs)

-- The offsets of the jobs of the queue, in the order of submission
abbrev pub slots : ℕ → ℕ → List ℕ
slots i zero = []
slots i (suc n) = sizeof_job * i ∷ slots (next_slot i) n

abbrev pub Within : ℕ → ℕ → ℕ → Type 0
Within i n x = (j : ℕ) × (j < n) × (x ≡ slot_at i j)

module _ {O : Type 0} where
  -- One of the 128 slots is always free; an empty ring is told by `earliest_job`.
  pub record IsRing (m : Mgr O) (i n : ℕ) : Type 0 where
    pub start : i < max_jobs
    pub room : n < max_jobs
    pub next : m.next_job ≡ slot_at i n
    pub earliest : m.earliest_job ≡ (if n == 0 then none else some (sizeof_job * i))

pub adv_jobs-slot_at : (i n : ℕ) → adv_jobs (slot_at i n) ≡ slot_at i (suc n)
adv_jobs-slot_at i n = ground arith

pub adv_jobs-start : (i : ℕ) → i < max_jobs → adv_jobs (sizeof_job * i) ≡ sizeof_job * next_slot i
adv_jobs-start i l = ground arith

pub slot_at-next : (i n : ℕ) → slot_at (next_slot i) n ≡ slot_at i (suc n)
slot_at-next i n = ground arith

pub slot_at-zero : (i : ℕ) → i < max_jobs → slot_at i 0 ≡ sizeof_job * i
slot_at-zero i l = ground arith

slot_at-injective :
    (i j j' : ℕ) → j < max_jobs → j' < max_jobs → slot_at i j ≡ slot_at i j' → j ≡ j'
slot_at-injective i j j' l l' e = omega arith

-- The slot that is filled next is not in the queue.
pub next_free : (i n : ℕ) → n < max_jobs → Within i n (slot_at i n) → ⊥
next_free i n l (j, lj, e) = omega (arith, slot_at-injective i j n (omega arith) l (sym e))

pub oldest_gone :
    (i n : ℕ) → i < max_jobs → n < max_jobs → Within (next_slot i) n (sizeof_job * i) → ⊥
oldest_gone i n li l (j, lj, e) = omega (
  arith,
  slot_at-next i j,
  slot_at-zero i li,
  slot_at-injective i 0 (suc j) (omega arith) (omega arith),
)

pub Within-push : (i n x : ℕ) → Within i (suc n) x → Within i n x ⊎ (x ≡ slot_at i n)
Within-push i n x (j, l, e) = elim (ℕ_discrete j n) [
  | yes same ↦ inr (e ∙ ap (slot_at i) same)
  | no ne ↦ inl (j, omega arith, e)
]

pub Within-pop :
    (i n x : ℕ)
    → i < max_jobs
    → Within i (suc n) x
    → (x ≡ sizeof_job * i) ⊎ Within (next_slot i) n x
Within-pop i n x li (zero, l, e) = inl (e ∙ slot_at-zero i li)
Within-pop i n x li (suc j, l, e) = inr (j, omega arith, e ∙ sym (slot_at-next i j))

pub Within-tail : (i n x : ℕ) → Within (next_slot i) n x → Within i (suc n) x
Within-tail i n x (j, l, e) = (suc j, omega arith, e ∙ slot_at-next i j)

pub slots-push : (n i : ℕ) → i < max_jobs → slots i n ++ (slot_at i n ∷ []) ≡ slots i (suc n)
slots-push zero i l = ap (λ x. x ∷ []) (slot_at-zero i l)
slots-push (suc n) i l =
    ap (λ xs. sizeof_job * i ∷ xs)
      (ap (λ x. slots (next_slot i) n ++ (x ∷ [])) (sym (slot_at-next i n))
        ∙ slots-push n (next_slot i) (ground arith))

pub length-slots : (n i : ℕ) → length (slots i n) ≡ n
length-slots zero i = refl
length-slots (suc n) i = ap suc (length-slots n (next_slot i))

pub Within-init : (i n x : ℕ) → Within i n x → Within i (suc n) x
Within-init i n x (j, l, e) = (j, omega arith, e)

pub Within-last : (i n : ℕ) → Within i (suc n) (slot_at i n)
Within-last i n = (n, omega arith, refl)

pub Within-first : (i n : ℕ) → i < max_jobs → Within i (suc n) (sizeof_job * i)
Within-first i n l = (0, omega arith, sym (slot_at-zero i l))

pub Within-none : (i x : ℕ) → Within i 0 x → ⊥
Within-none i x (j, l, e) = omega arith
