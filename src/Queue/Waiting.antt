-- ===== src/Queue/Waiting.antt =====
-- Facts about the waiting list of gateway/task_queue.go: finding, removing and choosing a task.
use agentfactory_gateway.Common.{
  suc, String, ◌≡◌, refl, ap, Bool, true, false, ◌||◌, ◌⊎◌, inl, inr, none, some, List, [], ◌∷◌,
  ◌++◌, ◌==◌, str_dec, length, All, count_if, arith, Bool-cases,
}
use agentfactory_gateway.Common.Dict.{Dict}
use agentfactory_gateway.Queue.Task.{QueuedTask}
use agentfactory_gateway.Queue.State.{is_waiting, remove_waiting}
use agentfactory_gateway.Queue.Methods.{in_channels, first_free}

abbrev pub HasUniqueIds : List QueuedTask → Type 0
HasUniqueIds [] = Unit
HasUniqueIds (t ∷ ts) = (is_waiting t.task_id ts ≡ false) × HasUniqueIds ts

pub is_waiting-append :
    (id : String) (xs ys : List QueuedTask)
    → is_waiting id (xs ++ ys) ≡ (is_waiting id xs || is_waiting id ys)
unfolding is_waiting
is_waiting-append id [] ys = refl
is_waiting-append id (x ∷ xs) ys = ground (arith, is_waiting-append id xs ys)

pub HasUniqueIds-snoc :
    (t : QueuedTask) (ts : List QueuedTask)
    → is_waiting t.task_id ts ≡ false
    → HasUniqueIds ts
    → HasUniqueIds (ts ++ t ∷ [])
unfolding is_waiting
HasUniqueIds-snoc t [] f u = (refl, tt)
HasUniqueIds-snoc t (x ∷ ts) f u =
    ground (arith, HasUniqueIds-snoc t ts, is_waiting-append x.task_id ts (t ∷ []))

-- What a removal that found `x` has done: the first task with the id is taken out.
pub record Removed (id : String) (x : QueuedTask) (ts rest : List QueuedTask) : Type 0 where
  pub before : List QueuedTask
  pub after : List QueuedTask
  pub was : ts ≡ before ++ x ∷ after
  pub is : rest ≡ before ++ after
  pub named : x.task_id ≡ id
  pub first : is_waiting id before ≡ false

-- A removal fails exactly on an id that does not wait.
pub remove_cases :
    (id : String) (ts : List QueuedTask)
    → ((remove_waiting id ts ≡ none) × (is_waiting id ts ≡ false))
      ⊎ ((x : QueuedTask) × (rest : List QueuedTask) × (remove_waiting id ts ≡ some (x, rest))
          × Removed id x ts rest)
unfolding remove_waiting is_waiting
remove_cases id [] = inl (refl, refl)
remove_cases id (t ∷ ts) = elim (str_dec t.task_id id) [
  | yes e ↦ inr (
    t,
    ts,
    ground arith,
    record { before = []; after = ts; was = refl; is = refl; named = e; first = refl },
  )
  | no n ↦ elim (remove_cases id ts) [
    | inl (gone, absent) ↦ inl (ground arith, ground arith)
    | inr (x, rest, found, r) ↦ inr (
      x,
      t ∷ rest,
      ground arith,
      record {
        before = t ∷ r.before;
        after = r.after;
        was = ap (◌∷◌ t) r.was;
        is = ap (◌∷◌ t) r.is;
        named = r.named;
        first = ground arith;
      },
    )
  ]
]

-- What is chosen is the first waiting task whose channel is not busy.
pub record Chosen (busy : Dict QueuedTask) (t : QueuedTask) (ts : List QueuedTask) : Type 0 where
  pub before : List QueuedTask
  pub after : List QueuedTask
  pub was : ts ≡ before ++ t ∷ after
  pub free : in_channels t.channel_id busy ≡ false
  pub skipped : All (λ s. in_channels s.channel_id busy ≡ true) before

pub first_free_cases :
    (busy : Dict QueuedTask) (ts : List QueuedTask)
    → ((first_free busy ts ≡ none) × All (λ s. in_channels s.channel_id busy ≡ true) ts)
      ⊎ ((t : QueuedTask) × (first_free busy ts ≡ some t) × Chosen busy t ts)
unfolding first_free
first_free_cases busy [] = inl (refl, tt)
first_free_cases busy (t ∷ ts) = elim (Bool-cases (in_channels t.channel_id busy)) [
  | inr idle ↦
      inr (t, rw idle, record { before = []; after = ts; was = refl; free = idle; skipped = tt })
  | inl full ↦ elim (first_free_cases busy ts) [
    | inl (nothing, blocked) ↦ inl (rw full nothing, (full, blocked))
    | inr (x, found, c) ↦ inr (
      x,
      rw full found,
      record {
        before = t ∷ c.before;
        after = c.after;
        was = ap (◌∷◌ t) c.was;
        free = c.free;
        skipped = (full, c.skipped);
      },
    )
  ]
]

pub is_waiting-middle :
    (j : String) (x : QueuedTask) (xs ys : List QueuedTask)
    → is_waiting j (xs ++ x ∷ ys) ≡ (x.task_id == j || is_waiting j (xs ++ ys))
unfolding is_waiting
is_waiting-middle j x [] ys = refl
is_waiting-middle j x (z ∷ xs) ys = ground (arith, is_waiting-middle j x xs ys)

-- The task in the middle of a list without repeated ids: its id is nowhere else.
pub HasUniqueIds-middle :
    (x : QueuedTask) (xs ys : List QueuedTask)
    → HasUniqueIds (xs ++ x ∷ ys)
    → (is_waiting x.task_id xs ≡ false)
      × (is_waiting x.task_id (xs ++ ys) ≡ false)
      × HasUniqueIds (xs ++ ys)
unfolding is_waiting
HasUniqueIds-middle x [] ys u = (refl, u.0, u.1)
HasUniqueIds-middle x (z ∷ xs) ys u =
    ground (arith, HasUniqueIds-middle x xs ys u.1, is_waiting-middle z.task_id x xs ys)

-- A search for the id of a task in the middle stops there if nothing before it has the id.
pub remove_waiting-middle :
    (x : QueuedTask) (xs ys : List QueuedTask)
    → is_waiting x.task_id xs ≡ false
    → remove_waiting x.task_id (xs ++ x ∷ ys) ≡ some (x, xs ++ ys)
unfolding remove_waiting is_waiting
remove_waiting-middle x [] ys h = ground arith
remove_waiting-middle x (z ∷ xs) ys h = ground (arith, remove_waiting-middle x xs ys)

-- The task that is chosen is the one that the removal by its id takes out.
pub remove_waiting-first_free :
    (busy : Dict QueuedTask) (t : QueuedTask) (ts : List QueuedTask) (c : Chosen busy t ts)
    → HasUniqueIds ts
    → remove_waiting t.task_id ts ≡ some (t, c.before ++ c.after)
remove_waiting-first_free busy t ts c u = rw c.was (
    remove_waiting-middle t c.before c.after
      (HasUniqueIds-middle t c.before c.after (rw c.was at u)).0)

pub count_if-middle {ℓ} :
    {A : Type ℓ} (p : A → Bool) (x : A) (xs ys : List A)
    → count_if p (xs ++ x ∷ ys) ≡ count_if p (x ∷ xs ++ ys)
unfolding count_if
count_if-middle p x [] ys = refl
count_if-middle p x (z ∷ xs) ys = ground (arith, count_if-middle p x xs ys)

pub length-middle {ℓ} :
    {A : Type ℓ} (x : A) (xs ys : List A) → length (xs ++ x ∷ ys) ≡ suc (length (xs ++ ys))
length-middle x [] ys = refl
length-middle x (z ∷ xs) ys = omega (arith, length-middle x xs ys)
