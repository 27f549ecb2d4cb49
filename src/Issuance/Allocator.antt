-- ===== src/Issuance/Allocator.antt =====
-- The allocation of the indices of the status list, in memory (server/internal/issuance/statuslist.go)
-- and in PostgreSQL (server/internal/db/statuslist_store.go).
use mathlib.Core.Path.{subst}
use xmiete.Prelude.{
  ℕ, zero, suc, ◌+◌, ◌-◌, ◌≤◌, List, [], ◌∷◌, arith, ◌≡◌, refl, ap, true, false, sym, Bool-cases,
  inl, inr,
}
use xmiete.Prelude.Int.{ℤ, pos, negsuc}
use xmiete.Host.{Host, Outcome, failed, Io, ◌>>=◌, ◌>>◌, statement, modify, gets, ok}

-- The interface of an allocator over the counter.
abbrev pub IndexAllocator : Type 0
IndexAllocator = Io ℕ ℤ

-- Of the memory, `Add(1) - 1`.
unfoldable pub mem_allocate_index : IndexAllocator
mem_allocate_index = do n ← gets ok; modify (λ n. n + 1); gets (λ m. ok (pos (m - 1)))

-- Of PostgreSQL: UPDATE status_list_counter … RETURNING next_index - 1
unfoldable pub postgres_allocate_index : IndexAllocator
postgres_allocate_index = do statement; modify (λ n. n + 1); gets (λ m. ok (pos (m - 1)))

abbrev pub collect : Outcome ℤ → List ℤ → List ℤ
collect (ok i) is = i ∷ is
collect _ is = is

-- The indices that some allocations answer, one after the other; those that fail answer none.
abbrev pub allocations : ℕ → Host → ℕ → ℕ → List ℤ
allocations zero h n next = []
allocations (suc rounds) h n next =
    let (r, n', next') = postgres_allocate_index h n next in
    let rest = allocations rounds h n' next' in collect r rest

-- Indices from a number on, each above those before it.
abbrev pub Ascending : ℕ → List ℤ → Type 0
Ascending from [] = Unit
Ascending from (pos i ∷ is) = (from ≤ i) × Ascending (suc i) is
Ascending from (negsuc i ∷ is) = ⊥

suc-add : (n : ℕ) → n + 1 ≡ suc n
suc-add n = omega arith

back : (n : ℕ) → suc n - 1 ≡ n
back n = omega arith

-- One round after an answer.
abbrev after_answer : ℕ → Host → Outcome ℤ × ℕ × ℕ → List ℤ
after_answer rounds h (r, n, next) = collect r (allocations rounds h n next)

fails_now :
    (h : Host) (n next : ℕ)
    → h.fails n ≡ true
    → postgres_allocate_index h n next ≡ (failed, suc n, next)
unfolding postgres_allocate_index
fails_now h n next fails = rw fails refl

works_now :
    (h : Host) (n next : ℕ)
    → h.fails n ≡ false
    → postgres_allocate_index h n next ≡ (ok (pos next), suc n, suc next)
unfolding postgres_allocate_index
works_now h n next works = rw (works, suc-add next, back next) refl

-- PostgreSQL hands out no index twice: whichever allocations fail, the indices ascend from the value
-- of the counter on.
pub allocated-Ascending :
    (rounds : ℕ) (h : Host) (n next : ℕ) → Ascending next (allocations rounds h n next)
allocated-Ascending zero h n next = tt
allocated-Ascending (suc rounds) h n next = elim (Bool-cases (h.fails n)) [
  | inl fails ↦
      subst (Ascending next) (ap (after_answer rounds h) (sym (fails_now h n next fails)))
        (allocated-Ascending rounds h (suc n) next)
  | inr works ↦
      subst (Ascending next) (ap (after_answer rounds h) (sym (works_now h n next works)))
        (omega arith, allocated-Ascending rounds h (suc n) (suc next))
]
