-- ===== src/Gateway/ProgressCache.antt =====
-- gateway/slack.go: progressCache, which debounces the writes for progress events. The two readings
-- of the clock in one call are taken as one, `now`.
use agentfactory_gateway.Common.{
  ℕ, ◌+◌, ◌≤◌, String, ◌≡◌, Bool, true, false, none, some, List, [], ◌∷◌, ◌&&◌, if◌then◌else◌, leb,
  ◌==◌, arith,
}
use agentfactory_gateway.Common.Dict.{Dict, lookup, insert, lookup-insert}

-- time.Since(last) >= cooldown
unfoldable pub should_persist : ℕ → String → ℕ → Dict ℕ → Dict ℕ × Bool
should_persist now id cooldown last = elim (lookup id last) [
  | none ↦ (insert id now last, true)
  | some t ↦ if leb (t + cooldown) now then (insert id now last, true) else (last, false)
]

-- The times at which a sequence of calls persists the task `j`.
unfoldable pub persisted : String → ℕ → List (ℕ × String) → Dict ℕ → List ℕ
persisted j cooldown [] last = []
persisted j cooldown ((now, id) ∷ calls) last =
    let r = should_persist now id cooldown last in
    let rest = persisted j cooldown calls r.0 in if r.1 && id == j then now ∷ rest else rest

abbrev pub IsSpaced : ℕ → ℕ → List ℕ → Type 0
IsSpaced cooldown t [] = Unit
IsSpaced cooldown t (u ∷ us) = (t + cooldown ≤ u) × IsSpaced cooldown u us

-- After a write for a task at time `t`, in any sequence of calls for any tasks, the next write for
-- the task comes at least the cooldown later, and each one after it the cooldown after the one before.
pub persisted-IsSpaced :
    (j : String) (cooldown t : ℕ) (calls : List (ℕ × String)) (last : Dict ℕ)
    → lookup j last ≡ some t
    → IsSpaced cooldown t (persisted j cooldown calls last)
unfolding persisted should_persist
persisted-IsSpaced j cooldown t [] last h = tt
persisted-IsSpaced j cooldown t ((now, id) ∷ calls) last h = ground (
  arith,
  lookup-insert j id now last,
  persisted-IsSpaced j cooldown now calls (insert id now last),
  persisted-IsSpaced j cooldown t calls (insert id now last),
  persisted-IsSpaced j cooldown t calls last,
)
